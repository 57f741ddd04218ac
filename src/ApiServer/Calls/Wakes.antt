-- ===== src/ApiServer/Calls/Wakes.antt =====
-- server.go and commands.go together: what becomes of a resume call that was accepted.
use xtrinode.Shared.{◌<◌, ap, ◌∙◌, str_eq, ℕ, ◌≡◌, refl, true, false, arith, Option, none, some}
use xtrinode.Shared.Int.{negsuc}
use xtrinode.Shared.Dict.{lookup}
use xtrinode.Operator.Commands.{
  Parsers, XTrinode, wake_min_workers, wake_ttl, annotation, validate_resume_command, Persist,
  persists_on, process_commands, detect_annotation_commands, resolve_command_precedence,
}
use xtrinode.ApiServer.Resume.{Server, LeaseAnswers, CandidateRuntime}
use xtrinode.ApiServer.Calls.{
  runtime_lease, LeaseKeyType, String, runtime, call_accepted, Tried, [], read, K8sLeaseResult,
  Formats, ResumeRuntimeRequest, Attempt, RetryOnConflict, annotate_resume, resume_runtime,
  under_lease, after_update, try_on_conflict, attempt_with, wrote, absent, failed, read,
}
use xtrinode.ApiServer.Calls.Release.{wrote-read}
use xtrinode.ApiServer.Calls.Asked.{
  ReadsBack, Fits, Latest, annotate_resume-IsAsked, asked_wins, asked_woken, text_for, int_limit,
  duration_limit, time_limit,
}

-- What every cluster that an attempt reads has to satisfy.
pub record Every (attempts : ℕ → Attempt) (P : ℕ → XTrinode → Type 0) : Type 0 where
  pub every : (i : ℕ) (t : XTrinode) → (attempts i).on_read ≡ read t → P (attempts i).at t

under_lease-wrote :
    (s : Server) (later : ℕ) (result : Option K8sLeaseResult) (tried : Tried) (n : ℕ)
    (r : K8sLeaseResult)
    → (under_lease s later result tried).call_reply ≡ call_accepted n r
    → (asked : XTrinode) × ((under_lease s later result tried).written ≡ some asked)
      × (tried ≡ wrote asked)
unfolding under_lease after_update
under_lease-wrote s later none tried n r e = ground (arith, e)
under_lease-wrote s later (some result) (wrote asked) n r e = (asked, ground (arith, e), refl)
under_lease-wrote s later (some result) absent n r e = ground (arith, e)
under_lease-wrote s later (some result) failed n r e = ground (arith, e)

-- An accepted call wrote what one of its attempts read, with the annotations of its request.
resume_runtime-asked :
    (s : Server) (f : Formats) (retry : RetryOnConflict) (now later : ℕ) (target : CandidateRuntime)
    (req : ResumeRuntimeRequest) (leases : String → LeaseKeyType → LeaseAnswers)
    (attempts : ℕ → Attempt) (n : ℕ) (r : K8sLeaseResult)
    → let call = resume_runtime s f retry now later target (some req) leases attempts in
      call.call_reply ≡ call_accepted n r
      → (i : ℕ) × (t : XTrinode) × ((attempts i).on_read ≡ read t)
        × (call.written ≡ some (annotate_resume f req (attempts i).at t))
unfolding resume_runtime try_on_conflict
resume_runtime-asked s f retry now later target req leases attempts n r e =
    let tried = λ (i : ℕ).
      attempt_with (annotate_resume f req (attempts i).at) (attempts i).on_read
        (attempts i).on_save in
    let i = retry.last_attempt tried in
    let (asked, w, q) =
      under_lease-wrote s later (runtime_lease s now target runtime leases) (tried i) n r e in
    let (t, on_read, on_save, same) =
      wrote-read (annotate_resume f req (attempts i).at) (attempts i).on_read (attempts i).on_save
        asked q in
    (i, t, on_read, w ∙ ap some same)

-- The cluster that is read when a resume is asked for holds no suspend request as new, and the wake
-- parameters that are given, or left from before, are not negative.
abbrev pub CanBeWoken : Parsers → ResumeRuntimeRequest → ℕ → XTrinode → Type 0
CanBeWoken p req at t =
    (at < time_limit)
    × Latest p at t
    × Fits int_limit req.min_workers (annotation wake_min_workers t)
    × Fits duration_limit req.ttl (annotation wake_ttl t)

-- After a resume call that was accepted, the operator wakes the cluster that the call wrote. The
-- numbers, durations and times of the call are in range, those in range read back as they were
-- written, no suspend request is as new, no given wake parameter is negative, and none is left from
-- before. Then the next processing of commands, if it finds the cluster as the call wrote it and its
-- update succeeds, writes the cluster as not suspended.
pub resume_runtime-process_commands :
    (s : Server) (f : Formats) (p : Parsers) (retry : RetryOnConflict) (now later : ℕ)
    (target : CandidateRuntime) (req : ResumeRuntimeRequest)
    (leases : String → LeaseKeyType → LeaseAnswers) (attempts : ℕ → Attempt) (n : ℕ)
    (r : K8sLeaseResult)
    → ReadsBack f p
    → Every attempts (CanBeWoken p req)
    → let call = resume_runtime s f retry now later target (some req) leases attempts in
      call.call_reply ≡ call_accepted n r
      → (asked : XTrinode) × (woken : XTrinode) × (call.written ≡ some asked)
        × ((process_commands p (persists_on asked) asked).written ≡ some woken)
        × (woken.suspended ≡ false)
resume_runtime-process_commands s f p retry now later target req leases attempts n r b each e =
    let (i, t, on_read, w) =
      resume_runtime-asked s f retry now later target req leases attempts n r e in
    let (soon, latest, workers, ttl) = each.every i t on_read in
    let (woken, written, runs) = asked_woken f p req (attempts i).at t b soon latest workers ttl in
    (annotate_resume f req (attempts i).at t, woken, w, written, runs)

negative_rejected :
    (f : Formats) (p : Parsers) (req : ResumeRuntimeRequest) (at : ℕ) (t : XTrinode) (n : ℕ)
    (cluster : Persist)
    → ReadsBack f p
    → req.min_workers ≡ some (negsuc n)
    → str_eq (f.format_int (negsuc n)) "" ≡ false
    → n < int_limit
    → at < time_limit
    → Latest p at t
    → process_commands p cluster (annotate_resume f req at t)
      ≡ record { commands = []; failed = false; rejected = true; written = none }
unfolding process_commands resolve_command_precedence detect_annotation_commands
    validate_resume_command text_for
negative_rejected f p req at t n cluster b neg full small soon latest =
    let asked = annotate_resume f req at t in
    let a = annotate_resume-IsAsked f req at t in
    let wins = asked_wins f p req at t asked b soon latest a in
    let workers : lookup wake_min_workers asked.annotations ≡ some (f.format_int (negsuc n)) =
      ground (arith, a.workers, neg) in
    ground (arith, wins, workers, full, b.negative_int n small)

-- A resume call with a negative number of wake workers can be accepted, but then the operator
-- rejects the command that the call wrote, writes nothing and leaves the request in place, whatever
-- its update would come to; numbers and times in range read back as they were written, a negative
-- number is no empty text, and no suspend request is as new.
pub resume_runtime_negative :
    (s : Server) (f : Formats) (p : Parsers) (retry : RetryOnConflict) (now later : ℕ)
    (target : CandidateRuntime) (req : ResumeRuntimeRequest)
    (leases : String → LeaseKeyType → LeaseAnswers) (attempts : ℕ → Attempt) (n : ℕ)
    (r : K8sLeaseResult) (w : ℕ) (cluster : Persist)
    → ReadsBack f p
    → req.min_workers ≡ some (negsuc w)
    → str_eq (f.format_int (negsuc w)) "" ≡ false
    → w < int_limit
    → Every attempts (λ at t. (at < time_limit) × Latest p at t)
    → let call = resume_runtime s f retry now later target (some req) leases attempts in
      call.call_reply ≡ call_accepted n r
      → (asked : XTrinode) × (call.written ≡ some asked)
        × (process_commands p cluster asked
            ≡ record { commands = []; failed = false; rejected = true; written = none })
resume_runtime_negative s f p retry now later target req leases attempts n r w cluster b neg full
      small each e =
    let (i, t, on_read, written) =
      resume_runtime-asked s f retry now later target req leases attempts n r e in
    (
      annotate_resume f req (attempts i).at t,
      written,
      negative_rejected f p req (attempts i).at t w cluster b neg full small
          (each.every i t on_read).0 (each.every i t on_read).1,
    )
