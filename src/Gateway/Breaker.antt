-- ===== src/Gateway/Breaker.antt =====
-- xtrinode/pkg/gateway/circuitbreaker.go: the circuit breaker of one backend and the manager's map.
-- A method that mutates the breaker returns the new record; `now` is the clock that it reads.
-- Times and durations are nanoseconds. A negative threshold or timeout acts as 0 does.
pub mod Invariant
pub mod Trace
pub mod Manager
mod Examples
use xtrinode.Shared.{
  ℕ, suc, ◌+◌, ◌-◌, ◌*◌, String, Bool, true, false, ◌||◌, not, leb, if◌then◌else◌,
}

-- `other` is any string that is none of the three constants.
pub data CircuitState : Type 0 where
  closed open_circuit half_open : CircuitState
  other : String → CircuitState

pub record CircuitBreaker : Type 0 where
  pub backend_url : String
  pub state : CircuitState
  pub failure_threshold : ℕ
  pub success_threshold : ℕ
  pub timeout : ℕ
  pub consecutive_failures : ℕ
  pub consecutive_successes : ℕ
  pub consecutive_overloads : ℕ
  pub last_failure : ℕ
  pub last_success : ℕ
  pub half_open_probe_active : Bool

abbrev pub overload_threshold_multiplier : ℕ
overload_threshold_multiplier = 3

-- The breaker that `GetOrCreateBreaker` makes for a backend that it has not seen.
unfoldable pub new_breaker : String → ℕ → ℕ → ℕ → CircuitBreaker
new_breaker backend_url failure_threshold success_threshold timeout = record {
  backend_url = backend_url;
  state = closed;
  failure_threshold = failure_threshold;
  success_threshold = success_threshold;
  timeout = timeout;
  consecutive_failures = 0;
  consecutive_successes = 0;
  consecutive_overloads = 0;
  last_failure = 0;
  last_success = 0;
  half_open_probe_active = false;
}

-- `time.Since(cb.LastFailure) >= cb.Timeout`.
abbrev pub timed_out : ℕ → CircuitBreaker → Bool
timed_out now cb = leb cb.timeout (now - cb.last_failure)

allow_in : CircuitState → ℕ → CircuitBreaker → CircuitBreaker × Bool
allow_in closed now cb = (cb, true)
allow_in open_circuit now cb =
    if timed_out now cb
    then (
      record cb { state = half_open; consecutive_successes = 0; half_open_probe_active = true },
      true,
    )
    else (cb, false)
allow_in half_open now cb =
    if cb.half_open_probe_active
    then (cb, false)
    else (record cb { half_open_probe_active = true }, true)
allow_in (other s) now cb = (cb, false)

unfoldable pub allow : ℕ → CircuitBreaker → CircuitBreaker × Bool
unfolding allow_in
allow now cb = allow_in cb.state now cb

close_when_recovered : CircuitState → CircuitBreaker → CircuitBreaker
close_when_recovered half_open cb =
    let cleared = record cb { half_open_probe_active = false } in
    if leb cb.success_threshold cb.consecutive_successes
    then record cleared { state = closed }
    else cleared
close_when_recovered _ cb = cb

unfoldable pub record_success : ℕ → CircuitBreaker → CircuitBreaker
unfolding close_when_recovered
record_success now cb = close_when_recovered cb.state (record cb {
  last_success = now;
  consecutive_failures = 0;
  consecutive_overloads = 0;
  consecutive_successes = cb.consecutive_successes + 1;
})

reopen_on_overload : CircuitState → ℕ → CircuitBreaker → CircuitBreaker
reopen_on_overload closed now cb =
    if leb (cb.failure_threshold * overload_threshold_multiplier) cb.consecutive_overloads
    then record cb { state = open_circuit; last_failure = now }
    else cb
reopen_on_overload half_open now cb = record cb {
  half_open_probe_active = false;
  state = open_circuit;
  last_failure = now;
}
reopen_on_overload open_circuit now cb = cb
reopen_on_overload (other s) now cb = cb

unfoldable pub record_overload : ℕ → CircuitBreaker → CircuitBreaker
unfolding reopen_on_overload
record_overload now cb =
    reopen_on_overload cb.state now (record cb {
      consecutive_overloads = cb.consecutive_overloads + 1;
      consecutive_successes = 0;
    })

reopen_on_failure : CircuitState → CircuitBreaker → CircuitBreaker
reopen_on_failure closed cb =
    if leb cb.failure_threshold cb.consecutive_failures
    then record cb { state = open_circuit }
    else cb
reopen_on_failure half_open cb = record cb { half_open_probe_active = false; state = open_circuit }
reopen_on_failure open_circuit cb = cb
reopen_on_failure (other s) cb = cb

record_failure_locked : ℕ → CircuitBreaker → CircuitBreaker
unfolding reopen_on_failure
record_failure_locked now cb = reopen_on_failure cb.state (record cb {
  last_failure = now;
  consecutive_successes = 0;
  consecutive_overloads = 0;
  consecutive_failures = cb.consecutive_failures + 1;
})

unfoldable pub record_failure : ℕ → CircuitBreaker → CircuitBreaker
unfolding record_failure_locked
record_failure now cb = record_failure_locked now cb

abbrev pub is_half_open : CircuitState → Bool
is_half_open half_open = true
is_half_open _ = false

unfoldable pub record_proxy_failure : ℕ → Bool → CircuitBreaker → CircuitBreaker
unfolding record_failure_locked
record_proxy_failure now count_failure cb =
    if is_half_open cb.state || count_failure then record_failure_locked now cb else cb

selectable_in : CircuitState → ℕ → CircuitBreaker → Bool
selectable_in closed now cb = true
selectable_in open_circuit now cb = timed_out now cb
selectable_in half_open now cb = not cb.half_open_probe_active
selectable_in (other s) now cb = false

unfoldable pub selectable : ℕ → CircuitBreaker → Bool
unfolding selectable_in
selectable now cb = selectable_in cb.state now cb
