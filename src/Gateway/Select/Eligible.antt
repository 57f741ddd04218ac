-- ===== src/Gateway/Select/Eligible.antt =====
-- backend_selection.go: which backends a query may go to at all.
use xtrinode.Shared.{
  ℕ, ◌+◌, ◌≡◌, refl, ◌⊎◌, inl, inr, subst, ltb, Bool, true, false, if◌then◌else◌, some, List, [],
  ◌∷◌, arith, Member, here, there, Member-skip, Bool-cases,
}
use xtrinode.Shared.Dict.{Dict}
use xtrinode.Gateway.Health.{ProbeOutcome}
use xtrinode.Gateway.Activity.{BackendLoad, backend_loads}
use xtrinode.Gateway.Route.{Backend, RouteEntry, GatewayService}
use xtrinode.Gateway.Select.{
  is_running, is_backend_selectable, selectable_backends, fail_open, fail_open_backends,
  select_by_capacity, select_smallest_capacity, active_backends, choose, select_backend, is_empty,
  Best, candidate, prefer, prefer_all, smallest_from, has_load_data, capacity_of,
}

-- A backend that may take new queries: running, or without a state, and active.
abbrev pub IsOpen : Backend → Type 0
IsOpen b = (is_running b.state ≡ true) × (b.active ≡ true)

-- Every backend of `cs` is one of `bs` and open.
abbrev pub OpenAmong : List Backend → List Backend → Type 0
OpenAmong bs cs = (c : Backend) → Member c cs → Member c bs × IsOpen c

is_backend_selectable-IsOpen :
    (now : ℕ) (b : Backend) (gs : GatewayService)
    → (is_backend_selectable now b gs).1 ≡ true
    → IsOpen b
unfolding is_backend_selectable
is_backend_selectable-IsOpen now b gs h = ground arith

OpenAmong-cons :
    (b : Backend) (bs cs : List Backend) (passed : Bool)
    → (passed ≡ true → IsOpen b)
    → OpenAmong bs cs
    → OpenAmong (b ∷ bs) (if passed then b ∷ cs else cs)
OpenAmong-cons b bs cs true h rest c here = (here, h refl)
OpenAmong-cons b bs cs true h rest c (there m) = (there (rest c m).0, (rest c m).1)
OpenAmong-cons b bs cs false h rest c m = (there (rest c m).0, (rest c m).1)

selectable_backends-OpenAmong :
    (now : ℕ) (bs : List Backend) (gs : GatewayService)
    → OpenAmong bs (selectable_backends now bs gs).1
unfolding selectable_backends
selectable_backends-OpenAmong now [] gs = λ c m. elim m [ ]
selectable_backends-OpenAmong now (b ∷ bs) gs =
    OpenAmong-cons b bs _ _ (is_backend_selectable-IsOpen now b gs)
      (selectable_backends-OpenAmong now bs (is_backend_selectable now b gs).0)

fail_open-IsOpen :
    (now : ℕ) (outcome : ProbeOutcome) (b : Backend) (gs : GatewayService)
    → (fail_open now outcome b gs).1 ≡ true
    → IsOpen b
unfolding fail_open
fail_open-IsOpen now outcome b gs h = ground arith

fail_open_backends-OpenAmong :
    (now : ℕ) (net : ℕ → ProbeOutcome) (i : ℕ) (bs : List Backend) (gs : GatewayService)
    → OpenAmong bs (fail_open_backends now net i bs gs).1
unfolding fail_open_backends
fail_open_backends-OpenAmong now net i [] gs = λ c m. elim m [ ]
fail_open_backends-OpenAmong now net i (b ∷ bs) gs =
    OpenAmong-cons b bs _ _ (fail_open-IsOpen now (net i) b gs)
      (fail_open_backends-OpenAmong now net (i + 1) bs _)

active_backends-OpenAmong :
    (now : ℕ) (net : ℕ → ProbeOutcome) (bs : List Backend) (gs : GatewayService)
    → OpenAmong bs (active_backends now net bs gs).1
unfolding active_backends
active_backends-OpenAmong now net bs gs =
    elim (Bool-cases (is_empty (selectable_backends now bs gs).1)) [
      | inl e ↦ rw e (fail_open_backends-OpenAmong now net 0 bs _)
      | inr e ↦ rw e (selectable_backends-OpenAmong now bs gs)
    ]

prefer-Member :
    (loads : Dict BackendLoad) (best : Best) (b : Backend)
    → ((prefer loads best b).selected ≡ best.selected) ⊎ ((prefer loads best b).selected ≡ b)
unfolding prefer
prefer-Member loads best b = ground arith

prefer_all-Member :
    (loads : Dict BackendLoad) (best : Best) (bs : List Backend)
    → Member (prefer_all loads best bs).selected (best.selected ∷ bs)
unfolding prefer_all
prefer_all-Member loads best [] = here
prefer_all-Member loads best (b ∷ bs) = elim (prefer-Member loads best b) [
  | inl e ↦ Member-skip best.selected b bs (
      subst (λ p. Member (prefer_all loads (prefer loads best b) bs).selected (p ∷ bs)) e
        (prefer_all-Member loads (prefer loads best b) bs))
  | inr e ↦ there (
      subst (λ p. Member (prefer_all loads (prefer loads best b) bs).selected (p ∷ bs)) e
        (prefer_all-Member loads (prefer loads best b) bs))
]

smallest_from-Member :
    (s : Backend) (c : ℕ) (bs : List Backend) → Member (smallest_from s c bs) (s ∷ bs)
unfolding smallest_from
smallest_from-Member s c [] = here
smallest_from-Member s c (b ∷ bs) = elim (Bool-cases (ltb (capacity_of b) c)) [
  | inl e ↦ rw e (there (smallest_from-Member b (capacity_of b) bs))
  | inr e ↦ rw e (Member-skip s b bs (smallest_from-Member s c bs))
]

-- Something is chosen wherever there is something to choose from.
pub choose_found :
    (now : ℕ) (b : Backend) (bs : List Backend) (gs : GatewayService)
    → (r : Backend) × ((choose now (b ∷ bs) gs).1 ≡ some r) × Member r (b ∷ bs)
unfolding choose select_by_capacity select_smallest_capacity
choose_found now b bs gs =
    let loads = (backend_loads now gs.query_activity).1 in
    elim (Bool-cases (has_load_data loads (b ∷ bs))) [
      | inl h ↦ (
        (prefer_all loads (candidate loads b) bs).selected,
        rw h,
        prefer_all-Member loads (candidate loads b) bs,
      )
      | inr h ↦
          (smallest_from b (capacity_of b) bs, rw h, smallest_from-Member b (capacity_of b) bs)
    ]

choose-Member :
    (now : ℕ) (cs : List Backend) (gs : GatewayService) (r : Backend)
    → (choose now cs gs).1 ≡ some r
    → Member r cs
unfolding choose
choose-Member now [] gs r e = cc
choose-Member now (b ∷ bs) gs r e =
    let (p, found, among) = choose_found now b bs gs in
    let same : p ≡ r = cc in subst (λ q. Member q (b ∷ bs)) same among

-- Whatever the health checks, the breakers and the loads say, a query goes only to a backend of its
-- route that is active and whose state is RUNNING or unset.
pub select_backend-IsOpen :
    (now : ℕ) (net : ℕ → ProbeOutcome) (route : RouteEntry) (gs : GatewayService) (r : Backend)
    → (select_backend now net route gs).1 ≡ some r
    → Member r route.backends × IsOpen r
unfolding select_backend
select_backend-IsOpen now net route gs r e =
    let chosen : (choose now (active_backends now net route.backends gs).1
          (active_backends now net route.backends gs).0).1
        ≡ some r =
      ground arith in
    active_backends-OpenAmong now net route.backends gs r (choose-Member now _ _ r chosen)
