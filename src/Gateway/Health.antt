-- ===== src/Gateway/Health.antt =====
-- xtrinode/pkg/gateway/health.go: the active health checker's table of backends. The outcome of the
-- HTTP probe is an argument; times are nanoseconds. The health checks of one round run in parallel,
-- each under the table's lock: a round is the sequence of their writes, in the order taken.
pub mod State
pub mod Streak
mod Examples
use xtrinode.Shared.{
  ℕ, ◌+◌, ◌-◌, String, Bool, true, false, ◌&&◌, ◌||◌, not, leb, ltb, if◌then◌else◌, Option, none,
  some, List, [], ◌∷◌,
}
use xtrinode.Shared.Dict.{Dict, lookup, insert}

pub data HealthState : Type 0 where
  unknown healthy unhealthy sleeping : HealthState

pub record BackendHealth : Type 0 where
  pub url : String
  pub state : HealthState
  pub last_check : ℕ
  pub last_success : ℕ
  pub last_error : String
  pub last_status : ℕ
  pub consecutive_failures : ℕ

pub record HealthChecker : Type 0 where
  pub health_status : Dict BackendHealth
  pub failure_threshold : ℕ
  pub stale_threshold : ℕ

unfoldable pub new_health_checker : ℕ → ℕ → HealthChecker
new_health_checker interval failure_threshold = record {
  health_status = [];
  failure_threshold = failure_threshold;
  stale_threshold = interval + interval + interval;
}

-- The entry of a backend that is seen for the first time.
abbrev pub fresh_health : String → HealthState → BackendHealth
fresh_health url state = record {
  url = url;
  state = state;
  last_check = 0;
  last_success = 0;
  last_error = "";
  last_status = 0;
  consecutive_failures = 0;
}

abbrev pub entry_or : BackendHealth → Option BackendHealth → BackendHealth
entry_or new none = new
entry_or new (some health) = health

abbrev pub put : String → BackendHealth → HealthChecker → HealthChecker
put url health hc = record hc { health_status = insert url health hc.health_status }

succeeded : ℕ → BackendHealth → BackendHealth
succeeded now health = record health {
  last_check = now;
  last_success = now;
  consecutive_failures = 0;
  last_error = "";
  last_status = 200;
  state = healthy;
}

unfoldable pub record_success : ℕ → String → HealthChecker → HealthChecker
unfolding succeeded
record_success now url hc =
    put url (succeeded now (entry_or (fresh_health url healthy) (lookup url hc.health_status))) hc

failed : ℕ → ℕ → ℕ → String → BackendHealth → BackendHealth
failed now threshold status message health =
    let failures = health.consecutive_failures + 1 in
    record health {
      last_check = now;
      consecutive_failures = failures;
      last_error = message;
      last_status = status;
      state = if leb threshold failures then unhealthy else health.state;
    }

unfoldable pub record_failure : ℕ → String → ℕ → String → HealthChecker → HealthChecker
unfolding failed
record_failure now url status message hc =
    put url
      (failed now hc.failure_threshold status message
        (entry_or (fresh_health url unknown) (lookup url hc.health_status)))
      hc

slept : ℕ → String → BackendHealth → BackendHealth
slept now message health = record health {
  last_check = now;
  consecutive_failures = health.consecutive_failures + 1;
  last_error = message;
  last_status = 0;
  state = sleeping;
}

unfoldable pub record_sleeping : ℕ → String → String → HealthChecker → HealthChecker
unfolding slept
record_sleeping now url message hc =
    put url (slept now message (entry_or (fresh_health url sleeping) (lookup url hc.health_status)))
      hc

abbrev pub is_sleeping_state : HealthState → Bool
is_sleeping_state sleeping = true
is_sleeping_state _ = false

woken : BackendHealth → BackendHealth
woken health = record health {
  state = unknown;
  consecutive_failures = 0;
  last_error = "";
  last_status = 0;
}

reset_entry : String → Option BackendHealth → HealthChecker → HealthChecker
unfolding woken
reset_entry url none hc = hc
reset_entry url (some health) hc =
    if is_sleeping_state health.state then put url (woken health) hc else hc

unfoldable pub reset_sleeping : List String → HealthChecker → HealthChecker
unfolding reset_entry
reset_sleeping [] hc = hc
reset_sleeping (url ∷ urls) hc =
    reset_sleeping urls (reset_entry url (lookup url hc.health_status) hc)

-- `time.Since(health.LastCheck) > hc.staleThreshold`.
abbrev pub is_stale : ℕ → HealthChecker → BackendHealth → Bool
is_stale now hc health = ltb hc.stale_threshold (now - health.last_check)

abbrev pub passes : HealthState → Bool
passes healthy = true
passes unknown = true
passes unhealthy = false
passes sleeping = false

unfoldable pub is_healthy : ℕ → String → HealthChecker → Bool
is_healthy now url hc = elim (lookup url hc.health_status) [
  | none ↦ true
  | some health ↦ if is_stale now hc health then true else passes health.state
]

unfoldable pub is_sleeping : ℕ → String → HealthChecker → Bool
is_sleeping now url hc = elim (lookup url hc.health_status) [
  | none ↦ false
  | some health ↦ if is_stale now hc health then false else is_sleeping_state health.state
]

unfoldable pub get_state : ℕ → String → HealthChecker → HealthState
get_state now url hc = elim (lookup url hc.health_status) [
  | none ↦ unknown
  | some health ↦ if is_stale now hc health then unknown else health.state
]

-- How a probe of `/v1/info` comes out: no request could be made, the transport failed (with a
-- connection error or another), or the backend answered with a status.
pub data ProbeOutcome : Type 0 where
  bad_request : String → ProbeOutcome
  connection_error : String → ProbeOutcome
  transport_error : String → ProbeOutcome
  answered : ℕ → ProbeOutcome

unfoldable pub probe_backend : ℕ → String → ProbeOutcome → HealthChecker → HealthChecker × Bool
probe_backend now url (bad_request message) hc = (record_failure now url 0 message hc, false)
probe_backend now url (connection_error message) hc = (record_sleeping now url message hc, false)
probe_backend now url (transport_error message) hc = (record_failure now url 0 message hc, false)
probe_backend now url (answered status) hc =
    if leb 200 status && ltb status 300
    then (record_success now url hc, true)
    else (record_failure now url status "non-2xx status" hc, false)

-- One round of checks: the backends with what their probes met, in the order of the writes.
unfoldable pub check_all_backends : ℕ → List (String × ProbeOutcome) → HealthChecker → HealthChecker
check_all_backends now [] hc = hc
check_all_backends now ((url, outcome) ∷ rest) hc =
    check_all_backends now rest (probe_backend now url outcome hc).0
