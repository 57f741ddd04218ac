-- ===== src/Operator/AutoSuspend/Window.antt =====
-- xtrinode_resume.go and xtrinode_wake_autosuspend.go: the wake window, which keeps a cluster that
-- was woken from being suspended, and what becomes of a request for an auto-suspend.
use xtrinode.Shared.{
  second, ℕ, ◌+◌, ◌*◌, String, ◌≡◌, true, false, ltb, str_eq, arith, if◌then◌else◌, Option, none,
  some,
}
use xtrinode.Shared.Int.{ℤ, pos}
use xtrinode.Shared.Dict.{insert, lookup-insert}
use xtrinode.Operator.Commands.{
  Parsers, XTrinode, annotation, resume_requested, auto_suspend_requested,
  auto_suspend_requested_at, wake_min_workers, wake_ttl, persists_on, process_commands,
  detect_annotation_commands, resolve_command_precedence, mutate,
}
use xtrinode.Operator.Commands.Outcome.{asks, process_commands-suspended}
use xtrinode.Operator.AutoSuspend.{
  Monitored, in_window, Save, save_failed, saves_on, requested, request_auto_suspend,
}

-- `spec.wakeMinWorkers` and `spec.wakeTTL`.
pub record WakeDefaults : Type 0 where
  pub workers : Option ℕ
  pub ttl : Option ℕ

abbrev pub default_wake_ttl : ℕ
default_wake_ttl = 300 * second

abbrev pub natural_of : Option ℤ → Option ℕ
natural_of (some (pos n)) = some n
natural_of _ = none

abbrev pub value_from : Option ℕ → Option ℕ → ℕ → ℕ
value_from (some n) spec fallback = n
value_from none (some n) fallback = n
value_from none none fallback = fallback

abbrev pub given_text : (String → Option ℤ) → String → Option ℕ
given_text parse text = if str_eq text "" then none else natural_of (parse text)

-- An annotation that does not read, or is negative, is passed over.
unfoldable pub parse_wake_params : Parsers → WakeDefaults → XTrinode → ℕ × ℕ
parse_wake_params p spec t = (
  value_from (given_text p.parse_int (annotation wake_min_workers t)) spec.workers 0,
  value_from (given_text p.parse_duration (annotation wake_ttl t)) spec.ttl default_wake_ttl,
)

-- The wake window that a resume opens, if workers are to be kept.
unfoldable pub start_wake : ℕ → ℕ × ℕ → Monitored → Monitored
start_wake now (workers, ttl) t = record t {
  wake_expires_at = if ltb 0 workers then some (now + ttl) else none;
  wake_workers = if ltb 0 workers then workers else 0;
}

-- What a resume does to the activity, once its scaling has succeeded.
unfoldable pub reset_last_activity : ℕ → Monitored → Monitored
reset_last_activity now t = record t { last_activity = some now }

unfoldable pub reconcile_wake_ttl : ℕ → Monitored → Monitored
reconcile_wake_ttl now t =
    if in_window now t.wake_expires_at
    then t
    else record t { wake_expires_at = none; wake_workers = 0 }

-- The annotation of the request is found, and no other is changed but its time.
request-lookup :
    (format_time : ℕ → String) (now : ℕ) (save : Save) (w : Monitored)
    → request_auto_suspend format_time now save ≡ requested w
    → asks auto_suspend_requested w.resource ≡ true
unfolding request_auto_suspend
request-lookup format_time now save_failed w e = ground (arith, e)
request-lookup format_time now (saves_on fresh) w e =
    let m = insert auto_suspend_requested "true" fresh.resource.annotations in
    ground (
      arith,
      e,
      lookup-insert auto_suspend_requested_at auto_suspend_requested (format_time now) m,
      lookup-insert auto_suspend_requested auto_suspend_requested "true" fresh.resource.annotations,
    )

-- The operator suspends a cluster for which an auto-suspend was requested, unless a resume is asked
-- for too.
pub process_commands-request_auto_suspend :
    (p : Parsers) (format_time : ℕ → String) (now : ℕ) (save : Save) (w : Monitored)
    → request_auto_suspend format_time now save ≡ requested w
    → asks resume_requested w.resource ≡ false
    → (t : XTrinode) × ((process_commands p (persists_on w.resource) w.resource).written ≡ some t)
      × (t.suspended ≡ true)
unfolding process_commands resolve_command_precedence detect_annotation_commands
process_commands-request_auto_suspend p format_time now save w e no_resume =
    let found = detect_annotation_commands p w.resource in
    let t = mutate found (resolve_command_precedence found) w.resource in
    let written : (process_commands p (persists_on w.resource) w.resource).written ≡ some t =
      ground (arith, no_resume, request-lookup format_time now save w e) in
    (
      t,
      written,
      ground (arith, process_commands-suspended p w.resource w.resource t written, no_resume),
    )
