-- ===== src/Gateway/Breaker/Examples.antt =====
-- The breaker's theorems at concrete inputs, and tests of its calls.
use xtrinode.Shared.{◌≡◌, refl, true, false, [], ◌∷◌, arith}
use xtrinode.Gateway.Breaker.{
  closed, open_circuit, half_open, CircuitBreaker, new_breaker, allow, record_failure,
}
use xtrinode.Gateway.Breaker.Invariant.{Inv}
use xtrinode.Gateway.Breaker.Trace.{
  allows, overloads, fails, step, run, run-new_breaker-Inv, fail_all, run-trips, overload_all,
  probes, run-probes, is_closed,
}

abbrev fresh : CircuitBreaker
fresh = record {
  backend_url = "http://a";
  state = closed;
  failure_threshold = 5;
  success_threshold = 2;
  timeout = 30;
  consecutive_failures = 0;
  consecutive_successes = 0;
  consecutive_overloads = 0;
  last_failure = 0;
  last_success = 0;
  half_open_probe_active = false;
}

abbrev tripped : CircuitBreaker
tripped = record fresh { state = open_circuit; consecutive_failures = 5; last_failure = 10 }

abbrev probing : CircuitBreaker
probing = record fresh { state = half_open; half_open_probe_active = true; last_failure = 10 }

fresh_is_new : new_breaker "http://a" 5 2 30 ≡ fresh
unfolding new_breaker
fresh_is_new = refl

trips_at_five : (run fresh (fail_all (1 ∷ 2 ∷ 3 ∷ 4 ∷ 5 ∷ []))).state ≡ open_circuit
unfolding run fail_all step record_failure
trips_at_five = refl

probes_after_timeout : allow 40 tripped ≡ (record probing { consecutive_failures = 5 }, true)
unfolding allow
probes_after_timeout = refl

run-new_breaker-Inv_example :
    Inv (run (new_breaker "http://a" 5 2 30) (fails 1 ∷ allows 2 ∷ overloads 3 ∷ []))
run-new_breaker-Inv_example =
    run-new_breaker-Inv "http://a" 5 2 30 (fails 1 ∷ allows 2 ∷ overloads 3 ∷ []) (omega arith)
      (omega arith)

run-trips_example :
    (is_closed (run fresh (fail_all (1 ∷ 2 ∷ 3 ∷ []))).state ≡ true)
    × (is_closed (run fresh (overload_all (1 ∷ 2 ∷ 3 ∷ []))).state ≡ true)
run-trips_example = run-trips (1 ∷ 2 ∷ 3 ∷ []) fresh refl (omega arith) (omega arith)

run-probes_example : is_closed (run probing (probes ((50, 51) ∷ (52, 53) ∷ []))).state ≡ true
run-probes_example = run-probes ((50, 51) ∷ (52, 53) ∷ []) probing refl (omega arith)
