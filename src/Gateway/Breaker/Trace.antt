-- ===== src/Gateway/Breaker/Trace.antt =====
-- circuitbreaker.go, over every sequence of calls of one breaker.
use xtrinode.Shared.{
  ℕ, ◌+◌, ◌*◌, ◌<◌, String, ◌≡◌, refl, Bool, true, false, arith, List, [], ◌∷◌, ltb, leb, length,
  All, if◌then◌else◌,
}
use xtrinode.Gateway.Breaker.{
  CircuitState, closed, open_circuit, half_open, CircuitBreaker, new_breaker, allow, record_success,
  record_overload, record_failure, record_proxy_failure,
}
use xtrinode.Gateway.Breaker.Invariant.{
  IsConfigured, Inv, new_breaker-Inv, allow-Inv, record_success-Inv, record_overload-Inv,
  record_failure-Inv, record_proxy_failure-Inv,
}

-- One call under the breaker's lock, at the time that it reads.
pub data Call : Type 0 where
  allows succeeds overloads fails : ℕ → Call
  proxy_fails : ℕ → Bool → Call

unfoldable pub step : CircuitBreaker → Call → CircuitBreaker
step cb (allows now) = (allow now cb).0
step cb (succeeds now) = record_success now cb
step cb (overloads now) = record_overload now cb
step cb (fails now) = record_failure now cb
step cb (proxy_fails now counted) = record_proxy_failure now counted cb

unfoldable pub run : CircuitBreaker → List Call → CircuitBreaker
run cb [] = cb
run cb (c ∷ cs) = run (step cb c) cs

-- No call changes the configuration.
pub step-config :
    (cb : CircuitBreaker) (c : Call)
    → ((step cb c).failure_threshold ≡ cb.failure_threshold)
      × ((step cb c).success_threshold ≡ cb.success_threshold)
      × ((step cb c).timeout ≡ cb.timeout)
      × ((step cb c).backend_url ≡ cb.backend_url)
unfolding step allow record_success record_overload record_failure record_proxy_failure
step-config cb (allows now) = ground arith
step-config cb (succeeds now) = ground arith
step-config cb (overloads now) = ground arith
step-config cb (fails now) = ground arith
step-config cb (proxy_fails now counted) = ground arith

step-IsConfigured : (cb : CircuitBreaker) (c : Call) → IsConfigured cb → IsConfigured (step cb c)
step-IsConfigured cb c h = ground (arith, step-config cb c)

step-Inv : (cb : CircuitBreaker) (c : Call) → IsConfigured cb → Inv cb → Inv (step cb c)
unfolding step
step-Inv cb (allows now) h v = allow-Inv now cb h v
step-Inv cb (succeeds now) h v = record_success-Inv now cb h v
step-Inv cb (overloads now) h v = record_overload-Inv now cb h v
step-Inv cb (fails now) h v = record_failure-Inv now cb h v
step-Inv cb (proxy_fails now counted) h v = record_proxy_failure-Inv now cb h v counted

pub run-Inv : (cb : CircuitBreaker) (cs : List Call) → IsConfigured cb → Inv cb → Inv (run cb cs)
unfolding run
run-Inv cb [] h v = v
run-Inv cb (c ∷ cs) h v = run-Inv (step cb c) cs (step-IsConfigured cb c h) (step-Inv cb c h v)

-- After any calls, a breaker made with positive thresholds is in one of the three states, has a
-- probe in flight only while half-open, is closed only below both of its limits, and is half-open
-- only below its success threshold.
pub run-new_breaker-Inv :
    (url : String) (f s t : ℕ) (cs : List Call)
    → 0 < f
    → 0 < s
    → Inv (run (new_breaker url f s t) cs)
unfolding new_breaker
run-new_breaker-Inv url f s t cs hf hs =
    run-Inv (new_breaker url f s t) cs (record { failure_positive = hf; success_positive = hs })
      (new_breaker-Inv url f s t hf)

-- Hard failures alone, at any times.
unfoldable pub fail_all : List ℕ → List Call
fail_all [] = []
fail_all (t ∷ ts) = fails t ∷ fail_all ts

abbrev pub is_closed : CircuitState → Bool
is_closed closed = true
is_closed _ = false

run_open-fail_all :
    (ts : List ℕ) (cb : CircuitBreaker)
    → cb.state ≡ open_circuit
    → (run cb (fail_all ts)).state ≡ open_circuit
unfolding run fail_all step record_failure
run_open-fail_all [] cb o = o
run_open-fail_all (t ∷ ts) cb o = run_open-fail_all ts (step cb (fails t)) (ground arith)

-- One failure counts, and opens a closed breaker at the threshold.
step-fails :
    (t : ℕ) (cb : CircuitBreaker)
    → cb.state ≡ closed
    → let cb' = step cb (fails t) in
      (cb'.consecutive_failures ≡ cb.consecutive_failures + 1)
      × (cb'.failure_threshold ≡ cb.failure_threshold)
      × (cb'.state ≡ (
          if ltb (cb.consecutive_failures + 1) cb.failure_threshold then closed else open_circuit))
unfolding step record_failure
step-fails t cb c = ground arith

-- From a closed breaker, hard failures in a row leave it closed exactly while they do not carry
-- the count of consecutive failures to the threshold.
run-fail_all :
    (ts : List ℕ) (cb : CircuitBreaker)
    → cb.state ≡ closed
    → cb.consecutive_failures < cb.failure_threshold
    → is_closed (run cb (fail_all ts)).state
      ≡ ltb (cb.consecutive_failures + length ts) cb.failure_threshold
unfolding run fail_all
run-fail_all [] cb c h = ground arith
run-fail_all (t ∷ ts) cb c h = ground (
  arith,
  step-fails t cb c,
  run-fail_all ts (step cb (fails t)),
  run_open-fail_all ts (step cb (fails t)),
)

-- Calls of `Allow` alone, at any times.
unfoldable pub allow_all : List ℕ → List Call
allow_all [] = []
allow_all (t ∷ ts) = allows t ∷ allow_all ts

-- While a half-open probe is in flight, any number of further requests are all refused and leave
-- the breaker as it is.
pub run-allow_all_probe :
    (ts : List ℕ) (cb : CircuitBreaker)
    → cb.state ≡ half_open
    → cb.half_open_probe_active ≡ true
    → (run cb (allow_all ts) ≡ cb) × All (λ t. (allow t cb).1 ≡ false) ts
unfolding run allow_all step allow
run-allow_all_probe [] cb s p = (refl, tt)
run-allow_all_probe (t ∷ ts) cb s p = ground (arith, run-allow_all_probe ts cb s p)

-- An open breaker refuses every request before its timeout has passed since the last failure.
pub run-allow_all_open :
    (ts : List ℕ) (cb : CircuitBreaker)
    → cb.state ≡ open_circuit
    → 0 < cb.timeout
    → All (λ t. t < cb.last_failure + cb.timeout) ts
    → (run cb (allow_all ts) ≡ cb) × All (λ t. (allow t cb).1 ≡ false) ts
unfolding run allow_all step allow
run-allow_all_open [] cb s q p = (refl, tt)
run-allow_all_open (t ∷ ts) cb s q p = ground (arith, run-allow_all_open ts cb s q p.1)

-- A probe that succeeds, and the request for the next probe.
unfoldable pub probes : List (ℕ × ℕ) → List Call
probes [] = []
probes ((answered, asked) ∷ ps) = succeeds answered ∷ allows asked ∷ probes ps

run_closed-probes :
    (ps : List (ℕ × ℕ)) (cb : CircuitBreaker)
    → cb.state ≡ closed
    → (run cb (probes ps)).state ≡ closed
unfolding run probes step record_success allow
run_closed-probes [] cb s = s
run_closed-probes ((answered, asked) ∷ ps) cb s =
    run_closed-probes ps (step (step cb (succeeds answered)) (allows asked)) (ground arith)

step-probe :
    (answered asked : ℕ) (cb : CircuitBreaker)
    → cb.state ≡ half_open
    → let cb' = step (step cb (succeeds answered)) (allows asked) in
      (cb'.consecutive_successes ≡ cb.consecutive_successes + 1)
      × (cb'.success_threshold ≡ cb.success_threshold)
      × (cb'.state
          ≡ (if leb cb.success_threshold (cb.consecutive_successes + 1) then closed else half_open))
unfolding step record_success allow
step-probe answered asked cb s = ground arith

-- A half-open breaker closes exactly when the probes that succeed carry the count of consecutive
-- successes to the success threshold, and then stays closed under further successes.
pub run-probes :
    (ps : List (ℕ × ℕ)) (cb : CircuitBreaker)
    → cb.state ≡ half_open
    → cb.consecutive_successes < cb.success_threshold
    → is_closed (run cb (probes ps)).state
      ≡ leb cb.success_threshold (cb.consecutive_successes + length ps)
unfolding run probes
run-probes [] cb s h = ground arith
run-probes ((answered, asked) ∷ ps) cb s h =
    let cb' = step (step cb (succeeds answered)) (allows asked) in
    ground (arith, step-probe answered asked cb s, run-probes ps cb', run_closed-probes ps cb')

-- Overload answers alone, at any times.
unfoldable pub overload_all : List ℕ → List Call
overload_all [] = []
overload_all (t ∷ ts) = overloads t ∷ overload_all ts

run_open-overload_all :
    (ts : List ℕ) (cb : CircuitBreaker)
    → cb.state ≡ open_circuit
    → (run cb (overload_all ts)).state ≡ open_circuit
unfolding run overload_all step record_overload
run_open-overload_all [] cb o = o
run_open-overload_all (t ∷ ts) cb o =
    run_open-overload_all ts (step cb (overloads t)) (ground arith)

step-overloads :
    (t : ℕ) (cb : CircuitBreaker)
    → cb.state ≡ closed
    → let cb' = step cb (overloads t) in
      (cb'.consecutive_overloads ≡ cb.consecutive_overloads + 1)
      × (cb'.consecutive_failures ≡ cb.consecutive_failures)
      × (cb'.failure_threshold ≡ cb.failure_threshold)
      × (cb'.state ≡ (
          if ltb (cb.consecutive_overloads + 1) (cb.failure_threshold * 3)
          then closed
          else open_circuit))
unfolding step record_overload
step-overloads t cb c = ground arith

-- From a closed breaker, overload answers in a row leave it closed exactly while they do not carry
-- the count of consecutive overloads to three times the failure threshold.
run-overload_all :
    (ts : List ℕ) (cb : CircuitBreaker)
    → cb.state ≡ closed
    → cb.consecutive_overloads < cb.failure_threshold * 3
    → is_closed (run cb (overload_all ts)).state
      ≡ ltb (cb.consecutive_overloads + length ts) (cb.failure_threshold * 3)
unfolding run overload_all
run-overload_all [] cb c h = ground arith
run-overload_all (t ∷ ts) cb c h = ground (
  arith,
  step-overloads t cb c,
  run-overload_all ts (step cb (overloads t)),
  run_open-overload_all ts (step cb (overloads t)),
)

-- From a closed breaker, hard failures in a row leave it closed exactly while they do not carry
-- the count of consecutive failures to the threshold, and overload answers in a row exactly while
-- they do not carry that of consecutive overloads to three times the threshold.
pub run-trips :
    (ts : List ℕ) (cb : CircuitBreaker)
    → cb.state ≡ closed
    → cb.consecutive_failures < cb.failure_threshold
    → cb.consecutive_overloads < cb.failure_threshold * 3
    → (is_closed (run cb (fail_all ts)).state
        ≡ ltb (cb.consecutive_failures + length ts) cb.failure_threshold)
      × (is_closed (run cb (overload_all ts)).state
          ≡ ltb (cb.consecutive_overloads + length ts) (cb.failure_threshold * 3))
run-trips ts cb c f o = (run-fail_all ts cb c f, run-overload_all ts cb c o)
