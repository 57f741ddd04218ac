-- ===== src/Gateway/Proxy.antt =====
-- How a proxied request meets its backend's circuit breaker: the guard of
-- xtrinode/pkg/gateway/retry.go, and `recordCircuitBreakerState` and `recordCircuitBreakerFailure`
-- of xtrinode/pkg/gateway/request_handler.go. `none` stands for a gateway without breakers.
pub mod Wedge
mod Examples
use xtrinode.Shared.{
  second, ℕ, ◌*◌, ◌/◌, String, Bool, true, false, ◌&&◌, ◌||◌, not, leb, ltb, ◌==◌, str_eq,
  if◌then◌else◌, Option, none, some,
}
use xtrinode.Shared.Dict.{insert}
use xtrinode.Gateway.Breaker.{allow}
use xtrinode.Gateway.Breaker.Trace.{Call, overloads, fails, succeeds, proxy_fails}
use xtrinode.Gateway.Breaker.Manager.{Manager, get_or_create_breaker, call_breaker}

-- xtrinode/internal/config/config.go.
abbrev pub breaker_failure_threshold : ℕ
breaker_failure_threshold = 5

abbrev pub breaker_success_threshold : ℕ
breaker_success_threshold = 2

abbrev pub breaker_timeout : ℕ
breaker_timeout = 30 * second

-- A call on the breaker that the configuration gives a backend.
unfoldable pub call_configured : String → Call → Manager → Manager
call_configured url c m =
    call_breaker url breaker_failure_threshold breaker_success_threshold breaker_timeout c m

-- What `ServeHTTP` does with a request: it answers itself, or forwards.
pub data Served : Type 0 where
  misconfigured : Served
  unavailable : ℕ → Served
  forwarded : String → Served

-- The seconds of `Retry-After` when the breaker refuses.
abbrev pub breaker_retry_after : ℕ
breaker_retry_after =
    let seconds = breaker_timeout / second in if ltb seconds 1 then 30 else seconds

unfoldable pub serve : ℕ → String → Option Manager → Served × Option Manager
serve now url none = (if str_eq url "" then misconfigured else forwarded url, none)
serve now url (some m) =
    if str_eq url ""
    then (misconfigured, some m)
    else let (breaker, m') =
        get_or_create_breaker url breaker_failure_threshold breaker_success_threshold
          breaker_timeout m in
      let (breaker', allowed) = allow now breaker in
      let m'' = insert url breaker' m' in
      if allowed then (forwarded url, some m'') else (unavailable breaker_retry_after, some m'')

-- The call that a response's status makes on the breaker, if any.
unfoldable pub response_call : ℕ → ℕ → Option Call
response_call now status =
    if status == 503
    then some (overloads now)
    else if leb 500 status
    then some (fails now)
    else if leb 200 status && ltb status 300
    then some (succeeds now)
    else none

apply_call : String → Option Call → Manager → Manager
apply_call url none m = m
apply_call url (some c) m = call_configured url c m

-- `GetOrCreateBreaker` runs before the status is looked at.
unfoldable pub record_circuit_breaker_state : ℕ → String → ℕ → Option Manager → Option Manager
unfolding apply_call
record_circuit_breaker_state now url status none = none
record_circuit_breaker_state now url status (some m) =
    if str_eq url ""
    then some m
    else some (
        apply_call url (response_call now status)
          (get_or_create_breaker url breaker_failure_threshold breaker_success_threshold
            breaker_timeout m).1)

pub data ErrorType : Type 0 where
  paused overload other_error : ErrorType

abbrev pub is_real_failure : ErrorType → Bool
is_real_failure other_error = true
is_real_failure _ = false

unfoldable pub record_circuit_breaker_failure :
    ℕ → String → ErrorType → Option Manager → Option Manager
record_circuit_breaker_failure now url e none = none
record_circuit_breaker_failure now url e (some m) =
    if str_eq url ""
    then some m
    else some (call_configured url (proxy_fails now (is_real_failure e)) m)
