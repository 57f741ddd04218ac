-- ===== src/Gateway/Registry/Drain.antt =====
-- gateway.go: a drained backend gets no new query, and keeps the queries that it has.
use xtrinode.Shared.{
  inl, inr, Bool-cases, ℕ, String, ◌≡◌, true, false, arith, List, [], ◌∷◌, All, All-Member, Member,
  some,
}
use xtrinode.Gateway.Health.{ProbeOutcome}
use xtrinode.Gateway.Route.{Backend, draining, RouteEntry, GatewayService}
use xtrinode.Gateway.RouteTable.{given}
use xtrinode.Gateway.Select.{
  select_backend, is_sticky_backend_routable, backend_passes_runtime_guards,
}
use xtrinode.Gateway.Select.Eligible.{select_backend-IsOpen}
use xtrinode.Gateway.Registry.{
  is_backend, drain_backend, drain_backends, set_backend_draining_all_routes,
}

-- The backend, if it is this one, is draining, out of the rotation, and has an end of its drain.
abbrev pub Drained : String → String → Backend → Type 0
Drained name namespace b =
    is_backend name namespace b ≡ true
    → (b.state ≡ draining) × (b.active ≡ false) × (given b.drain_until ≡ true)

drain_backend-Drained :
    (name namespace until : String) (b : Backend)
    → given until ≡ true
    → Drained name namespace (drain_backend name namespace until b)
unfolding drain_backend
drain_backend-Drained name namespace until b g is = ground (arith, is)

drain_backends-Drained :
    (name namespace until : String) (bs : List Backend)
    → given until ≡ true
    → All (Drained name namespace) (drain_backends name namespace until bs)
unfolding drain_backends
drain_backends-Drained name namespace until [] g = tt
drain_backends-Drained name namespace until (b ∷ bs) g = (
  drain_backend-Drained name namespace until b g,
  drain_backends-Drained name namespace until bs g,
)

set_draining-Drained :
    (name namespace until : String) (rs : List RouteEntry)
    → given until ≡ true
    → All
        (λ r. All (Drained name namespace) r.backends)
        (set_backend_draining_all_routes name namespace until rs)
unfolding set_backend_draining_all_routes
set_draining-Drained name namespace until [] g = tt
set_draining-Drained name namespace until (r ∷ rs) g = (
  drain_backends-Drained name namespace until r.backends g,
  set_draining-Drained name namespace until rs g,
)

-- Once the routes are drained of a backend, no route sends a new query to it, whatever the health
-- checks, the breakers and the loads say.
pub select_backend-set_backend_draining_all_routes :
    (name namespace until : String) (rs : List RouteEntry) (route : RouteEntry) (now : ℕ)
    (net : ℕ → ProbeOutcome) (gs : GatewayService) (b : Backend)
    → given until ≡ true
    → Member route (set_backend_draining_all_routes name namespace until rs)
    → (select_backend now net route gs).1 ≡ some b
    → is_backend name namespace b ≡ false
select_backend-set_backend_draining_all_routes name namespace until rs route now net gs b g m e =
    let (among, is_open) = select_backend-IsOpen now net route gs b e in
    let drained =
      All-Member (Drained name namespace) route.backends
        (All-Member (λ r. All (Drained name namespace) r.backends)
          (set_backend_draining_all_routes name namespace until rs)
          (set_draining-Drained name namespace until rs g) m)
        among in
    elim (Bool-cases (is_backend name namespace b)) [
      | inl is ↦ ground (arith, is_open.1, (drained is).1)
      | inr differs ↦ differs
    ]

-- A backend that is drained is still routable for the queries that it has, exactly if the health
-- check and the breaker let it pass.
pub sticky-Drained :
    (name namespace : String) (now : ℕ) (b : Backend) (gs : GatewayService)
    → Drained name namespace b
    → is_backend name namespace b ≡ true
    → is_sticky_backend_routable now b gs ≡ backend_passes_runtime_guards now b.coordinator_url gs
unfolding is_sticky_backend_routable
sticky-Drained name namespace now b gs d is = ground (arith, d is)
