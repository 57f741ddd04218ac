-- ===== src/Gateway/Select/FailOpen.antt =====
-- backend_selection.go: a route with an open backend that is not asleep always has a backend.
use xtrinode.Shared.{
  ℕ, ◌+◌, ◌≡◌, refl, inl, inr, String, Bool, true, false, ◌&&◌, if◌then◌else◌, Option, none, some,
  List, [], ◌∷◌, arith, Member, here, there, Bool-cases, eq_iff,
}
use xtrinode.Gateway.Health.{ProbeOutcome, HealthChecker, is_sleeping, probe_backend}
use xtrinode.Gateway.Health.State.{lookup-probe_backend}
use xtrinode.Gateway.Route.{Backend, RouteEntry, GatewayService}
use xtrinode.Gateway.Select.{
  is_running, is_backend_selectable, selectable_backends, fail_open, fail_open_backends,
  active_backends, choose, select_backend, is_empty, wakes,
}
use xtrinode.Gateway.Select.Eligible.{IsOpen, choose_found}

-- The health checker, if there is one, does not hold the backend for asleep.
abbrev pub NotAsleep : ℕ → String → Option HealthChecker → Type 0
NotAsleep now url none = Unit
NotAsleep now url (some hc) = is_sleeping now url hc ≡ false

probe_backend-NotAsleep :
    (now : ℕ) (u url : String) (outcome : ProbeOutcome) (hc : HealthChecker)
    → is_sleeping now u hc ≡ true
    → is_sleeping now url hc ≡ false
    → is_sleeping now url (probe_backend now u outcome hc).0 ≡ false
unfolding is_sleeping
probe_backend-NotAsleep now u url outcome hc asleep awake =
    ground (arith, eq_iff u url, lookup-probe_backend now u url outcome hc)

-- Waking one backend puts no other to sleep.
wakes-NotAsleep :
    (now : ℕ) (u url : String) (outcome : ProbeOutcome) (gs : GatewayService)
    → NotAsleep now url gs.health_checker
    → (o : Option HealthChecker) → gs.health_checker ≡ o
    → NotAsleep now url (wakes now u outcome gs o).0.health_checker
unfolding wakes
wakes-NotAsleep now u url outcome gs a none e = a
wakes-NotAsleep now u url outcome gs a (some hc) e = elim (Bool-cases (is_sleeping now u hc)) [
  | inl h ↦ rw h (probe_backend-NotAsleep now u url outcome hc h (rw e at a))
  | inr h ↦ rw h a
]

wakes-awake :
    (now : ℕ) (url : String) (outcome : ProbeOutcome) (gs : GatewayService)
    (o : Option HealthChecker)
    → NotAsleep now url o
    → (wakes now url outcome gs o).1 ≡ true
unfolding wakes
wakes-awake now url outcome gs none a = refl
wakes-awake now url outcome gs (some hc) a = rw a

fail_open-NotAsleep :
    (now : ℕ) (url : String) (outcome : ProbeOutcome) (c : Backend) (gs : GatewayService)
    → NotAsleep now url gs.health_checker
    → NotAsleep now url (fail_open now outcome c gs).0.health_checker
unfolding fail_open
fail_open-NotAsleep now url outcome c gs a = elim (Bool-cases (is_running c.state && c.active)) [
  | inl e ↦ rw e (wakes-NotAsleep now c.coordinator_url url outcome gs a gs.health_checker refl)
  | inr e ↦ rw e a
]

fail_open-passes :
    (now : ℕ) (outcome : ProbeOutcome) (b : Backend) (gs : GatewayService)
    → IsOpen b
    → NotAsleep now b.coordinator_url gs.health_checker
    → (fail_open now outcome b gs).1 ≡ true
unfolding fail_open
fail_open-passes now outcome b gs open_b a =
    rw (open_b.0, open_b.1) (wakes-awake now b.coordinator_url outcome gs gs.health_checker a)

is_empty-cons :
    (passed : Bool) (c : Backend) (rest : List Backend)
    → is_empty rest ≡ false
    → is_empty (if passed then c ∷ rest else rest) ≡ false
is_empty-cons true c rest h = refl
is_empty-cons false c rest h = h

fail_open_backends_found :
    (now : ℕ) (net : ℕ → ProbeOutcome) (i : ℕ) (bs : List Backend) (gs : GatewayService)
    (b : Backend)
    → Member b bs
    → IsOpen b
    → NotAsleep now b.coordinator_url gs.health_checker
    → is_empty (fail_open_backends now net i bs gs).1 ≡ false
unfolding fail_open_backends
fail_open_backends_found now net i [] gs b m open_b a = elim m [ ]
fail_open_backends_found now net i (_ ∷ bs) gs b here open_b a =
    rw (fail_open-passes now (net i) b gs open_b a)
fail_open_backends_found now net i (c ∷ bs) gs b (there m) open_b a = is_empty-cons _ c _ (
    fail_open_backends_found now net (i + 1) bs (fail_open now (net i) c gs).0 b m open_b
      (fail_open-NotAsleep now b.coordinator_url (net i) c gs a))

-- The first loop writes breakers only.
selectable_backends-health :
    (now : ℕ) (bs : List Backend) (gs : GatewayService)
    → (selectable_backends now bs gs).0.health_checker ≡ gs.health_checker
unfolding selectable_backends is_backend_selectable
selectable_backends-health now [] gs = refl
selectable_backends-health now (b ∷ bs) gs =
    ground (arith, selectable_backends-health now bs (is_backend_selectable now b gs).0)

active_backends_found :
    (now : ℕ) (net : ℕ → ProbeOutcome) (bs : List Backend) (gs : GatewayService) (b : Backend)
    → Member b bs
    → IsOpen b
    → NotAsleep now b.coordinator_url gs.health_checker
    → is_empty (active_backends now net bs gs).1 ≡ false
unfolding active_backends
active_backends_found now net bs gs b m open_b a =
    elim (Bool-cases (is_empty (selectable_backends now bs gs).1)) [
      | inl e ↦ rw e (
          fail_open_backends_found now net 0 bs (selectable_backends now bs gs).0 b m open_b
            (rw (selectable_backends-health now bs gs) a))
      | inr e ↦ rw (e, e)
    ]

-- A query finds a backend whenever its route has an active one in state RUNNING or unset that is not
-- freshly marked asleep: unhealthy marks and open breakers alone never leave it without one.
pub select_backend_found :
    (now : ℕ) (net : ℕ → ProbeOutcome) (route : RouteEntry) (gs : GatewayService) (b : Backend)
    → Member b route.backends
    → IsOpen b
    → NotAsleep now b.coordinator_url gs.health_checker
    → (r : Backend) × ((select_backend now net route gs).1 ≡ some r)
unfolding select_backend
select_backend_found now net route gs b m open_b a =
    chosen route.backends m (active_backends now net route.backends gs).1
      (active_backends_found now net route.backends gs b m open_b a)
  where
    gs' : GatewayService
    gs' = (active_backends now net route.backends gs).0

    chosen :
        (bs : List Backend)
        → Member b bs
        → (cs : List Backend) → is_empty cs ≡ false
        → (r : Backend) × ((if is_empty bs then (gs, none) else choose now cs gs').1 ≡ some r)
    chosen [] m cs e = elim m [ ]
    chosen (x ∷ bs) m [] e = cc
    chosen (x ∷ bs) m (c ∷ cs) e = let (r, found, among) = choose_found now c cs gs' in (r, found)
