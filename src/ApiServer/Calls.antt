-- ===== src/ApiServer/Calls.antt =====
-- xtrinode/pkg/api-server/server.go and resume.go: the calls that ask the operator to wake or to
-- suspend one cluster, by annotations of its custom resource under the cluster's lease.
pub mod Release
pub mod Asked
pub mod Wakes
mod Examples
use xtrinode.Shared.{
  second, ℕ, ◌-◌, ◌/◌, String, Bool, true, false, ltb, if◌then◌else◌, Option, none, some, List, [],
}
use xtrinode.Shared.Int.{ℤ}
use xtrinode.Shared.Dict.{Dict, insert}
use xtrinode.Operator.Commands.{
  XTrinode, resume_requested, resume_requested_at, suspend_requested, suspend_requested_at,
  wake_min_workers, wake_ttl,
}
use xtrinode.ApiServer.Lease.{LeaseKeyType, runtime, suspend_runtime, K8sLeaseResult}
use xtrinode.ApiServer.Resume.{
  Server, LeaseAnswers, CandidateRuntime, make_runtime_key, acquire_with, get_retry_after,
}

-- The library calls that write texts: an RFC 3339 time, an integer and a duration.
pub record Formats : Type 0 where
  pub format_time : ℕ → String
  pub format_int : ℤ → String
  pub format_duration : ℤ → String

pub record ResumeRuntimeRequest : Type 0 where
  pub min_workers : Option ℤ
  pub ttl : Option ℤ

-- The answers to an attempt's read and to its update, and its time.
pub data ReadAnswer : Type 0 where
  no_such unreadable_now : ReadAnswer
  read : XTrinode → ReadAnswer

pub data SaveAnswer : Type 0 where
  saved gone save_failed : SaveAnswer

pub record Attempt : Type 0 where
  pub at : ℕ
  pub on_read : ReadAnswer
  pub on_save : SaveAnswer

pub data Tried : Type 0 where
  wrote : XTrinode → Tried
  absent failed : Tried

saved_as : XTrinode → SaveAnswer → Tried
saved_as t saved = wrote t
saved_as t gone = absent
saved_as t save_failed = failed

unfoldable pub attempt_with : (XTrinode → XTrinode) → ReadAnswer → SaveAnswer → Tried
unfolding saved_as
attempt_with change no_such on_save = absent
attempt_with change unreadable_now on_save = failed
attempt_with change (read t) on_save = saved_as (change t) on_save

-- The retry of the Kubernetes client: it gives back what its last attempt gave, and this says which
-- one is the last.
pub record RetryOnConflict : Type 0 where
  pub last_attempt : (ℕ → Tried) → ℕ

unfoldable pub try_on_conflict : RetryOnConflict → (ℕ → XTrinode → XTrinode) → (ℕ → Attempt) → Tried
try_on_conflict retry change attempts =
    let tried =
      λ (i : ℕ). attempt_with (change (attempts i).at) (attempts i).on_read (attempts i).on_save in
    tried (retry.last_attempt tried)

set_given : String → (ℤ → String) → Option ℤ → Dict String → Dict String
set_given key format none m = m
set_given key format (some x) m = insert key (format x) m

unfoldable pub annotate_resume : Formats → ResumeRuntimeRequest → ℕ → XTrinode → XTrinode
unfolding set_given
annotate_resume f req at t =
    let m =
      insert resume_requested_at (f.format_time at)
        (insert resume_requested "true" t.annotations) in
    record t {
      annotations =
          set_given wake_ttl f.format_duration req.ttl
            (set_given wake_min_workers f.format_int req.min_workers m);
    }

unfoldable pub annotate_suspend : Formats → ℕ → XTrinode → XTrinode
annotate_suspend f at t = record t {
  annotations =
      insert suspend_requested_at (f.format_time at)
        (insert suspend_requested "true" t.annotations);
}

-- `triggerResume`, and what is written by it.
unfoldable pub trigger_resume : Formats → RetryOnConflict → (ℕ → Attempt) → Tried
trigger_resume f retry attempts =
    try_on_conflict retry (annotate_resume f (record { min_workers = none; ttl = none })) attempts

-- What a call wrote, and whether it asked for the release of its lease.
pub record Triggered : Type 0 where
  pub written : Option XTrinode
  pub releases : Bool

cleaned_up : Tried → Triggered
cleaned_up (wrote t) = record { written = some t; releases = false }
cleaned_up absent = record { written = none; releases = true }
cleaned_up failed = record { written = none; releases = true }

unfoldable pub trigger_resume_with_lease_cleanup :
    Formats → RetryOnConflict → (ℕ → Attempt) → Triggered
unfolding cleaned_up
trigger_resume_with_lease_cleanup f retry attempts = cleaned_up (trigger_resume f retry attempts)

-- The responses: 400, 500 or 503 before anything is written, 404 or 500 after an update that
-- failed, and 202.
pub data CallReply : Type 0 where
  invalid_request lease_error update_not_found update_error : CallReply
  call_gated : ℕ → K8sLeaseResult → CallReply
  call_accepted : ℕ → K8sLeaseResult → CallReply

pub record Called : Type 0 where
  pub call_reply : CallReply
  pub written : Option XTrinode
  pub releases : Bool

-- Whole seconds, with 30 where the lease is about to expire.
unfoldable pub gated_retry_after : ℕ → ℕ → ℕ
gated_retry_after later until =
    let remaining = (until - later) / second in
    if ltb remaining 1 then 30 else if ltb 120 remaining then 120 else remaining

abbrev pub replies : CallReply → Called
replies reply = record { call_reply = reply; written = none; releases = false }

after_update : Server → K8sLeaseResult → Tried → Called
after_update s won (wrote t) = record {
  call_reply = call_accepted (get_retry_after s.retry_after_seconds) won;
  written = some t;
  releases = false;
}
after_update s won absent = record {
  call_reply = update_not_found;
  written = none;
  releases = true;
}
after_update s won failed = record { call_reply = update_error; written = none; releases = true }

under_lease : Server → ℕ → Option K8sLeaseResult → Tried → Called
unfolding after_update
under_lease s later none tried = replies lease_error
under_lease s later (some result) tried =
    if result.acquired
    then after_update s result tried
    else replies (call_gated (gated_retry_after later result.lease_until) result)

abbrev pub runtime_lease :
    Server
    → ℕ
    → CandidateRuntime
    → LeaseKeyType
    → (String → LeaseKeyType → LeaseAnswers)
    → Option K8sLeaseResult
runtime_lease s now target key_type leases =
    acquire_with s now (make_runtime_key target.namespace target.name) key_type leases

-- A body that is no request is `none`; an absent body is a request without parameters.
unfoldable pub resume_runtime :
    Server
    → Formats
    → RetryOnConflict
    → ℕ
    → ℕ
    → CandidateRuntime
    → Option ResumeRuntimeRequest
    → (String → LeaseKeyType → LeaseAnswers)
    → (ℕ → Attempt)
    → Called
unfolding under_lease
resume_runtime s f retry now later target none leases attempts = replies invalid_request
resume_runtime s f retry now later target (some req) leases attempts =
    under_lease s later (runtime_lease s now target runtime leases)
      (try_on_conflict retry (annotate_resume f req) attempts)

unfoldable pub suspend_runtime_call :
    Server
    → Formats
    → RetryOnConflict
    → ℕ
    → ℕ
    → CandidateRuntime
    → Bool
    → (String → LeaseKeyType → LeaseAnswers)
    → (ℕ → Attempt)
    → Called
unfolding under_lease
suspend_runtime_call s f retry now later target false leases attempts = replies invalid_request
suspend_runtime_call s f retry now later target true leases attempts =
    under_lease s later (runtime_lease s now target suspend_runtime leases)
      (try_on_conflict retry (annotate_suspend f) attempts)
