-- ===== src/ApiServer/Calls/Release.antt =====
-- server.go and resume.go: a call that wins its lease keeps it exactly if it wrote its request.
use xtrinode.Shared.{
  if◌then◌else◌, ap, ℕ, ◌≡◌, refl, Bool, true, false, arith, Option, none, some, ◌⊎◌, inl, inr,
}
use xtrinode.Operator.Commands.{XTrinode}
use xtrinode.ApiServer.Lease.{runtime, suspend_runtime, K8sLeaseResult}
use xtrinode.ApiServer.Resume.{Server, LeaseAnswers, get_retry_after}
use xtrinode.ApiServer.Calls.Asked.{
  IsAsked, annotate_resume-IsAsked, IsSuspendAsked, annotate_suspend-IsSuspendAsked,
}
use xtrinode.ApiServer.Calls.{
  attempt_with, read, saved, ReadAnswer, SaveAnswer, no_such, unreadable_now, gone, save_failed,
  saved_as, runtime_lease, CandidateRuntime, LeaseKeyType, String, gated_retry_after, call_gated,
  replies, annotate_suspend, annotate_resume, Formats, ResumeRuntimeRequest, Attempt, Tried, wrote,
  absent, failed, RetryOnConflict, try_on_conflict, call_accepted, Called, after_update,
  under_lease, resume_runtime, suspend_runtime_call,
}

-- What an attempt that wrote has read.
pub wrote-read :
    (change : XTrinode → XTrinode) (on_read : ReadAnswer) (on_save : SaveAnswer) (asked : XTrinode)
    → attempt_with change on_read on_save ≡ wrote asked
    → (t : XTrinode) × (on_read ≡ read t) × (on_save ≡ saved) × (asked ≡ change t)
unfolding attempt_with saved_as
wrote-read change no_such on_save asked e = ground (arith, e)
wrote-read change unreadable_now on_save asked e = ground (arith, e)
wrote-read change (read t) saved asked e = (t, refl, refl, ground (arith, e))
wrote-read change (read t) gone asked e = ground (arith, e)
wrote-read change (read t) save_failed asked e = ground (arith, e)

-- What one of the attempts of a call wrote: on the cluster that it read, as was asked for at its time.
abbrev pub Writes : (ℕ → XTrinode → XTrinode → Type 0) → (ℕ → Attempt) → Option XTrinode → Type 0
Writes Asks attempts written =
    (i : ℕ) × (t : XTrinode) × (t' : XTrinode) × ((attempts i).on_read ≡ read t)
    × ((attempts i).on_save ≡ saved)
    × (written ≡ some t')
    × Asks (attempts i).at t t'

-- What a call comes to by what it got for its lease: without one it writes and releases nothing;
-- with it, it keeps the lease exactly if it wrote, and says that it was accepted exactly then.
abbrev pub Settles :
    Server
    → (ℕ → XTrinode → XTrinode → Type 0)
    → (ℕ → Attempt)
    → Option K8sLeaseResult
    → Called
    → Type 0
Settles s Asks attempts none c = (c.written ≡ none) × (c.releases ≡ false)
Settles s Asks attempts (some r) c =
    ((r.acquired ≡ false) × (c.written ≡ none) × (c.releases ≡ false))
    ⊎ ((r.acquired ≡ true)
        × ((Writes Asks attempts c.written
              × (c.releases ≡ false)
              × (c.call_reply ≡ call_accepted (get_retry_after s.retry_after_seconds) r))
            ⊎ ((c.written ≡ none)
                × (c.releases ≡ true)
                × ((n : ℕ) (q : K8sLeaseResult) → ¬ (c.call_reply ≡ call_accepted n q)))))

module _ (s : Server) (Asks : ℕ → XTrinode → XTrinode → Type 0) (attempts : ℕ → Attempt)
    (change : ℕ → XTrinode → XTrinode)
    (asks : (at : ℕ) (t : XTrinode) → Asks at t (change at t)) where
  after_update-Settles :
      (r : K8sLeaseResult) (i : ℕ) (tried : Tried)
      → attempt_with (change (attempts i).at) (attempts i).on_read (attempts i).on_save ≡ tried
      → r.acquired ≡ true
      → Settles s Asks attempts (some r) (after_update s r tried)
  unfolding after_update
  after_update-Settles r i (wrote t') e y =
      let (t, on_read, on_save, same) =
        wrote-read (change (attempts i).at) (attempts i).on_read (attempts i).on_save t' e in
      inr (
        y,
        inl (
          (i, t, change (attempts i).at t, on_read, on_save, ap some same, asks (attempts i).at t),
          refl,
          refl,
        ),
      )
  after_update-Settles r i absent e y = inr (y, inr (refl, refl, λ n q h. ground (arith, h)))
  after_update-Settles r i failed e y = inr (y, inr (refl, refl, λ n q h. ground (arith, h)))

  choice-Settles :
      (later : ℕ) (r : K8sLeaseResult) (i : ℕ) (tried : Tried) (b : Bool)
      → attempt_with (change (attempts i).at) (attempts i).on_read (attempts i).on_save ≡ tried
      → r.acquired ≡ b
      → Settles s Asks attempts (some r) (
          if b
          then after_update s r tried
          else replies (call_gated (gated_retry_after later r.lease_until) r))
  choice-Settles later r i tried true e y = after_update-Settles r i tried e y
  choice-Settles later r i tried false e n = inl (n, refl, refl)

  under_lease-Settles :
      (later : ℕ) (result : Option K8sLeaseResult) (i : ℕ)
      → Settles s Asks attempts result (
          under_lease s later result
            (attempt_with (change (attempts i).at) (attempts i).on_read (attempts i).on_save))
  unfolding under_lease
  under_lease-Settles later none i = (refl, refl)
  under_lease-Settles later (some r) i = choice-Settles later r i _ r.acquired refl refl

  try_on_conflict-Settles :
      (retry : RetryOnConflict) (later : ℕ) (result : Option K8sLeaseResult)
      → Settles s Asks attempts result
          (under_lease s later result (try_on_conflict retry change attempts))
  unfolding try_on_conflict
  try_on_conflict-Settles retry later result =
      under_lease-Settles later result (retry.last_attempt _)

-- A resume call and a suspend call write nothing and release nothing unless they win the lease of
-- the cluster. With the lease, either an attempt wrote the cluster that it read with what was asked
-- for, its time and, for a resume, the given wake parameters, while a request of the other kind stays
-- as it was; then the lease is kept and the call is accepted. Or nothing is written, the lease is
-- released and the call is not accepted.
pub resume_runtime-Settles :
    (s : Server) (f : Formats) (retry : RetryOnConflict) (now later : ℕ) (target : CandidateRuntime)
    (req : ResumeRuntimeRequest) (leases : String → LeaseKeyType → LeaseAnswers)
    (attempts : ℕ → Attempt)
    → Settles s
        (IsAsked f req)
        attempts
        (runtime_lease s now target runtime leases)
        (resume_runtime s f retry now later target (some req) leases attempts)
      × Settles s
          (IsSuspendAsked f)
          attempts
          (runtime_lease s now target suspend_runtime leases)
          (suspend_runtime_call s f retry now later target true leases attempts)
unfolding resume_runtime suspend_runtime_call
resume_runtime-Settles s f retry now later target req leases attempts = (
  try_on_conflict-Settles s (IsAsked f req) attempts (annotate_resume f req)
      (annotate_resume-IsAsked f req) retry later (runtime_lease s now target runtime leases),
  try_on_conflict-Settles s (IsSuspendAsked f) attempts (annotate_suspend f)
      (annotate_suspend-IsSuspendAsked f) retry later
      (runtime_lease s now target suspend_runtime leases),
)
