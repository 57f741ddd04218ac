-- ===== src/Gateway/Proxy/Wedge.antt =====
-- What becomes of a half-open breaker's probe slot when the probe's answer comes back.
use xtrinode.Shared.{
  ℕ, ◌≤◌, ◌<◌, String, ◌≡◌, refl, ap, ◌∙◌, ◌≢◌, true, false, arith, Option, some, List, [], ◌∷◌,
  All, eq_iff, ◌⊎◌,
}
use xtrinode.Shared.Dict.{lookup, insert, lookup-insert}
use xtrinode.Gateway.Breaker.{
  CircuitBreaker, half_open, open_circuit, allow, record_success, record_failure, record_overload,
  record_proxy_failure,
}
use xtrinode.Gateway.Breaker.Trace.{Call, step, proxy_fails}
use xtrinode.Gateway.Breaker.Manager.{Manager, get_or_create_breaker, call_breaker-lookup}
use xtrinode.Gateway.Proxy.{
  is_real_failure, Served, serve, unavailable, response_call, record_circuit_breaker_state,
  call_configured, ErrorType, record_circuit_breaker_failure, breaker_failure_threshold,
  breaker_success_threshold, breaker_timeout,
}

-- A breaker whose one probe is out.
pub record IsProbing (cb : CircuitBreaker) : Type 0 where
  pub half : cb.state ≡ half_open
  pub taken : cb.half_open_probe_active ≡ true

-- The breaker of a backend is probing.
abbrev pub Probing : String → Manager → Type 0
Probing url m = (cb : CircuitBreaker) × (lookup url m ≡ some cb) × IsProbing cb

-- An answer that says something of the backend's health frees the slot.
pub response_frees_slot :
    (now status : ℕ) (cb : CircuitBreaker) (c : Call)
    → IsProbing cb
    → response_call now status ≡ some c
    → (step cb c).half_open_probe_active ≡ false
unfolding response_call step record_success record_failure record_overload
response_frees_slot now status cb c p e = ground arith

-- Every transport error, of whatever type, frees the slot of a probing backend: its breaker opens
-- again.
pub error_frees_slot :
    (now : ℕ) (url : String) (e : ErrorType) (m : Manager) (cb : CircuitBreaker)
    → url ≢ ""
    → lookup url m ≡ some cb
    → IsProbing cb
    → (m' : Manager) × (cb' : CircuitBreaker) × (record_circuit_breaker_failure now url e (some m)
        ≡ some m')
      × (lookup url m' ≡ some cb')
      × (cb'.state ≡ open_circuit)
      × (cb'.half_open_probe_active ≡ false)
error_frees_slot now url e m cb ne l p =
    let c = proxy_fails now (is_real_failure e) in
    (
      call_configured url c m,
      step cb c,
      unfold record_circuit_breaker_failure in ground (arith, eq_iff url ""),
      unfold call_configured get_or_create_breaker in
          ground (
            arith,
            eq_iff url url,
            l,
            call_breaker-lookup url url breaker_failure_threshold breaker_success_threshold
                breaker_timeout c m,
          ),
      unfold step record_proxy_failure in ground (arith, p.half),
      unfold step record_proxy_failure in ground (arith, p.half),
    )

-- An answer that is no breaker signal: neither 2xx nor 5xx.
abbrev pub IsNeutral : ℕ → Type 0
IsNeutral status = ((status < 200) ⊎ (300 ≤ status)) × (status < 500)

-- While a probe is out, a request is refused, and the breaker stays as it is.
serve-Probing :
    (now : ℕ) (url : String) (m : Manager)
    → url ≢ ""
    → Probing url m
    → (m' : Manager) × (serve now url (some m) ≡ (unavailable 30, some m')) × Probing url m'
serve-Probing now url m ne (cb, l, p) = (
  insert url cb m,
  unfold serve get_or_create_breaker allow in ground (arith, l, p.half, p.taken, eq_iff url ""),
  (cb, ground (arith, eq_iff url url, lookup-insert url url cb m), p),
)

-- A neutral answer leaves the breaker probing.
neutral-Probing :
    (now : ℕ) (url : String) (status : ℕ) (m : Manager)
    → url ≢ ""
    → IsNeutral status
    → Probing url m
    → record_circuit_breaker_state now url status (some m) ≡ some m
unfolding record_circuit_breaker_state get_or_create_breaker response_call
neutral-Probing now url status m ne n (cb, l, p) = ground (arith, l, eq_iff url "")

-- What comes to a backend's breaker: a request, or the answer to one that was let through.
pub data Event : Type 0 where
  asks : ℕ → Event
  answers : ℕ → ℕ → Event

abbrev pub after : String → Event → Option Manager → Option Manager
after url (asks now) m = (serve now url m).1
after url (answers now status) m = record_circuit_breaker_state now url status m

unfoldable pub run : String → List Event → Option Manager → Option Manager
run url [] m = m
run url (e ∷ es) m = run url es (after url e m)

abbrev pub NeutralEvent : Event → Type 0
NeutralEvent (asks now) = Unit
NeutralEvent (answers now status) = IsNeutral status

run-Probing :
    (url : String) (es : List Event) (m : Manager)
    → url ≢ ""
    → All NeutralEvent es
    → Probing url m
    → (m' : Manager) × (run url es (some m) ≡ some m') × Probing url m'
unfolding run
run-Probing url [] m ne a p = (m, refl, p)
run-Probing url (asks now ∷ es) m ne a p =
    let (m', e, p') = serve-Probing now url m ne p in
    let (m'', e'', p'') = run-Probing url es m' ne a.1 p' in
    (m'', ap (λ (r : Served × Option Manager). run url es r.1) e ∙ e'', p'')
run-Probing url (answers now status ∷ es) m ne a p =
    let (m', e, p') = run-Probing url es m ne a.1 p in
    (m', ap (run url es) (neutral-Probing now url status m ne a.0 p) ∙ e, p')

-- Once a half-open breaker's probe is answered by a status that is neither 2xx nor 5xx, the slot
-- is never freed: after any further such answers and requests, however late, every request to the
-- backend is refused with a 503.
pub wedged_by_neutral :
    (url : String) (es : List Event) (m : Manager) (now : ℕ)
    → url ≢ ""
    → All NeutralEvent es
    → Probing url m
    → (serve now url (run url es (some m))).0 ≡ unavailable 30
wedged_by_neutral url es m now ne a p =
    let (m', e, p') = run-Probing url es m ne a p in
    let (m'', e', p'') = serve-Probing now url m' ne p' in rw (e, e')
