-- ===== src/Gateway/Breaker/Invariant.antt =====
-- circuitbreaker.go, between two calls of one breaker: the invariant of its fields, and what a
-- single call promises.
use xtrinode.Shared.{ℕ, ◌*◌, ◌<◌, String, ◌≡◌, refl, inl, ◌⊎◌, Bool, true, arith}
use xtrinode.Gateway.Breaker.{
  CircuitState, closed, open_circuit, half_open, CircuitBreaker, overload_threshold_multiplier,
  new_breaker, allow, record_success, record_overload, record_failure, record_proxy_failure,
  selectable,
}

abbrev pub IsKnown : CircuitState → Type 0
IsKnown s = (s ≡ closed) ⊎ ((s ≡ open_circuit) ⊎ (s ≡ half_open))

-- The thresholds of a breaker are positive, as the configured ones are.
pub record IsConfigured (cb : CircuitBreaker) : Type 0 where
  pub failure_positive : 0 < cb.failure_threshold
  pub success_positive : 0 < cb.success_threshold

pub record Inv (cb : CircuitBreaker) : Type 0 where
  pub known : IsKnown cb.state
  pub probe_half_open : cb.half_open_probe_active ≡ true → cb.state ≡ half_open
  pub failures_below : cb.state ≡ closed → cb.consecutive_failures < cb.failure_threshold
  pub overloads_below :
      cb.state ≡ closed
      → cb.consecutive_overloads < cb.failure_threshold * overload_threshold_multiplier
  pub successes_below : cb.state ≡ half_open → cb.consecutive_successes < cb.success_threshold

pub new_breaker-Inv : (url : String) (f s t : ℕ) → 0 < f → Inv (new_breaker url f s t)
unfolding new_breaker
new_breaker-Inv url f s t h = record {
  known = inl refl;
  probe_half_open = ground arith;
  failures_below = λ _. h;
  overloads_below = λ _. omega arith;
  successes_below = ground arith;
}

module _ (now : ℕ) (cb : CircuitBreaker) (c : IsConfigured cb) (v : Inv cb) where
  pub allow-Inv : Inv (allow now cb).0
  unfolding allow
  allow-Inv = ground arith

  pub record_success-Inv : Inv (record_success now cb)
  unfolding record_success
  record_success-Inv = ground arith

  pub record_overload-Inv : Inv (record_overload now cb)
  unfolding record_overload
  record_overload-Inv = ground arith

  pub record_failure-Inv : Inv (record_failure now cb)
  unfolding record_failure
  record_failure-Inv = ground arith

  pub record_proxy_failure-Inv : (b : Bool) → Inv (record_proxy_failure now b cb)
  unfolding record_proxy_failure
  record_proxy_failure-Inv b = ground arith

-- The filter's read-only test answers as the call that reserves the probe would.
pub selectable-allow : (now : ℕ) (cb : CircuitBreaker) → selectable now cb ≡ (allow now cb).1
unfolding selectable allow
selectable-allow now cb = ground arith

-- A call of `Allow` on a half-open breaker leaves its probe slot taken, whoever gets it.
pub allow_takes_slot :
    (now : ℕ) (cb : CircuitBreaker)
    → (allow now cb).0.state ≡ half_open
    → (allow now cb).0.half_open_probe_active ≡ true
unfolding allow
allow_takes_slot now cb h = ground arith
