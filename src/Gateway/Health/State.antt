-- ===== src/Gateway/Health/State.antt =====
-- health.go: what the readers of the table say, and what a probe makes of them.
use xtrinode.Shared.{
  ℕ, ◌+◌, String, ◌≡◌, refl, ◌∙◌, inl, inr, Bool, true, false, arith, leb, ltb, if◌then◌else◌,
  Option, none, some, str_eq, ◌&&◌, Bool-cases, eq_refl,
}
use xtrinode.Shared.Dict.{lookup, lookup-insert}
use xtrinode.Gateway.Health.{
  HealthState, unknown, healthy, unhealthy, sleeping, HealthChecker, BackendHealth, record_success,
  record_failure, record_sleeping, is_healthy, is_sleeping, get_state, passes, is_sleeping_state,
  ProbeOutcome, bad_request, connection_error, transport_error, answered, probe_backend,
  fresh_health, entry_or, succeeded, failed, slept,
}

-- The three readers agree: a backend is healthy where its state is healthy or unknown, and sleeping
-- where its state is.
pub readers_agree :
    (now : ℕ) (url : String) (hc : HealthChecker)
    → (is_healthy now url hc ≡ passes (get_state now url hc))
      × (is_sleeping now url hc ≡ is_sleeping_state (get_state now url hc))
unfolding is_healthy is_sleeping get_state
readers_agree now url hc = ground arith

-- The entry that a probe writes, from the one that it finds.
pub probed : ℕ → ℕ → String → ProbeOutcome → Option BackendHealth → BackendHealth
unfolding succeeded failed slept
probed now threshold url (bad_request message) old =
    failed now threshold 0 message (entry_or (fresh_health url unknown) old)
probed now threshold url (connection_error message) old =
    slept now message (entry_or (fresh_health url sleeping) old)
probed now threshold url (transport_error message) old =
    failed now threshold 0 message (entry_or (fresh_health url unknown) old)
probed now threshold url (answered status) old =
    if leb 200 status && ltb status 300
    then succeeded now (entry_or (fresh_health url healthy) old)
    else failed now threshold status "non-2xx status" (entry_or (fresh_health url unknown) old)

-- A probe writes the entry of its own backend, from that entry alone, and nothing else.
pub lookup-probe_backend :
    (now : ℕ) (url j : String) (outcome : ProbeOutcome) (hc : HealthChecker)
    → let hc' = (probe_backend now url outcome hc).0 in
      (lookup j hc'.health_status ≡ (
        if str_eq url j
        then some (probed now hc.failure_threshold url outcome (lookup url hc.health_status))
        else lookup j hc.health_status))
      × (hc'.failure_threshold ≡ hc.failure_threshold)
      × (hc'.stale_threshold ≡ hc.stale_threshold)
unfolding probe_backend record_success record_failure record_sleeping probed
lookup-probe_backend now url j (bad_request message) hc =
    (lookup-insert url j _ hc.health_status, refl, refl)
lookup-probe_backend now url j (connection_error message) hc =
    (lookup-insert url j _ hc.health_status, refl, refl)
lookup-probe_backend now url j (transport_error message) hc =
    (lookup-insert url j _ hc.health_status, refl, refl)
lookup-probe_backend now url j (answered status) hc =
    elim (Bool-cases (leb 200 status && ltb status 300)) [
      | inl e ↦ rw e (lookup-insert url j _ hc.health_status, refl, refl)
      | inr e ↦ rw e (lookup-insert url j _ hc.health_status, refl, refl)
    ]

-- The state on record, `unknown` where there is none, and the failures counted so far.
abbrev pub state_of : Option BackendHealth → HealthState
state_of none = unknown
state_of (some health) = health.state

abbrev pub failures_of : Option BackendHealth → ℕ
failures_of none = 0
failures_of (some health) = health.consecutive_failures

abbrev pub is_connection_error : ProbeOutcome → Bool
is_connection_error (connection_error message) = true
is_connection_error _ = false

abbrev pub is_success : ProbeOutcome → Bool
is_success (answered status) = leb 200 status && ltb status 300
is_success _ = false

-- What a probe makes of a backend's state and count of failures.
pub probed_state :
    (now threshold : ℕ) (url : String) (outcome : ProbeOutcome) (old : Option BackendHealth)
    → let new = probed now threshold url outcome old in
      (new.last_check ≡ now)
      × (new.state ≡ (
          if is_success outcome
          then healthy
          else if is_connection_error outcome
          then sleeping
          else if leb threshold (failures_of old + 1)
          then unhealthy
          else state_of old))
      × (new.consecutive_failures ≡ (if is_success outcome then 0 else failures_of old + 1))
unfolding probed
probed_state now threshold url (bad_request message) old = ground arith
probed_state now threshold url (connection_error message) old = ground arith
probed_state now threshold url (transport_error message) old = ground arith
probed_state now threshold url (answered status) old = ground arith

get_state-some :
    (now : ℕ) (url : String) (hc : HealthChecker) (h : BackendHealth)
    → lookup url hc.health_status ≡ some h
    → h.last_check ≡ now
    → get_state now url hc ≡ h.state
unfolding get_state
get_state-some now url hc h e c = ground arith

probe_backend-is_success :
    (now : ℕ) (url : String) (outcome : ProbeOutcome) (hc : HealthChecker)
    → (probe_backend now url outcome hc).1 ≡ is_success outcome
unfolding probe_backend
probe_backend-is_success now url (bad_request message) hc = refl
probe_backend-is_success now url (connection_error message) hc = refl
probe_backend-is_success now url (transport_error message) hc = refl
probe_backend-is_success now url (answered status) hc = ground arith

-- Right after a probe the backend reads as healthy if it answered 2xx, as sleeping on a connection
-- error, as unhealthy if any other outcome carries its count of failures to the threshold, and
-- otherwise in the state that stood on record; the probe reports success for 2xx only.
pub get_state-probe_backend :
    (now : ℕ) (url : String) (outcome : ProbeOutcome) (hc : HealthChecker)
    → let old = lookup url hc.health_status in
      ((probe_backend now url outcome hc).1 ≡ is_success outcome)
      × (get_state now url (probe_backend now url outcome hc).0 ≡ (
          if is_success outcome
          then healthy
          else if is_connection_error outcome
          then sleeping
          else if leb hc.failure_threshold (failures_of old + 1)
          then unhealthy
          else state_of old))
get_state-probe_backend now url outcome hc =
    let old = lookup url hc.health_status in
    let new = probed now hc.failure_threshold url outcome old in
    let (checked, state, count) = probed_state now hc.failure_threshold url outcome old in
    (
      probe_backend-is_success now url outcome hc,
      get_state-some now url (probe_backend now url outcome hc).0 new
            ((lookup-probe_backend now url url outcome hc).0 ∙ rw (eq_refl url)) checked
          ∙ state,
    )
