-- ===== src/Gateway/Sticky/Routable.antt =====
-- sticky_backend.go: where a bound query may go on, and when its binding is dropped.
use xtrinode.Shared.{
  ℕ, String, ◌≡◌, ◌≢◌, true, false, arith, eq_iff, none, some, List, [], ◌∷◌, ◌⊎◌, inl, inr, Member,
  here, there, str_eq, Bool-cases, Option-cases, subst, sym,
}
use xtrinode.Shared.Dict.{Dict}
use xtrinode.Gateway.Route.{Backend, RouteEntry, GatewayService, unset, running, draining}
use xtrinode.Gateway.Select.{is_sticky_backend_routable}
use xtrinode.Gateway.Sticky.{
  StickyBackendSelection, backend_at, backend_of_routes, find_backend_by_coordinator_url,
  sticky_backend_for_query,
}

-- A backend at the address, of some route of the table or of the default route.
abbrev pub IsKnown : String → GatewayService → Backend → Type 0
IsKnown url gs b =
    (b.coordinator_url ≡ url)
    × (((key : String) × (r : RouteEntry) × Member (key, r) gs.routes × Member b r.backends)
        ⊎ ((r : RouteEntry) × (gs.default_route ≡ some r) × Member b r.backends))

-- A query may go on at a draining backend, and at an active one that runs.
abbrev pub MayGoOn : Backend → Type 0
MayGoOn b = (b.state ≡ draining) ⊎ ((b.active ≡ true) × ((b.state ≡ unset) ⊎ (b.state ≡ running)))

backend_at-Member :
    (url : String) (bs : List Backend) (b : Backend)
    → backend_at url bs ≡ some b
    → (b.coordinator_url ≡ url) × Member b bs
backend_at-Member url [] b e = ground (arith, e)
backend_at-Member url (c ∷ bs) b e = elim (Bool-cases (str_eq c.coordinator_url url)) [
  | inl same ↦
      let at : c ≡ b = ground (arith, e, same) in
      subst (λ d. (d.coordinator_url ≡ url) × Member d (c ∷ bs)) at
        (ground (arith, same, eq_iff c.coordinator_url url), here)
  | inr differs ↦
      let (u, m) = backend_at-Member url bs b (ground (arith, e, differs)) in (u, there m)
]

backend_of_routes-Member :
    (url : String) (routes : Dict RouteEntry) (b : Backend)
    → backend_of_routes url routes ≡ some b
    → (b.coordinator_url ≡ url)
      × (key : String) × (r : RouteEntry) × Member (key, r) routes
      × Member b r.backends
backend_of_routes-Member url [] b e = ground (arith, e)
backend_of_routes-Member url ((key, r) ∷ routes) b e =
    elim (Option-cases (backend_at url r.backends)) [
      | inl none_here ↦
          let (u, k, q, m, n) =
            backend_of_routes-Member url routes b (ground (arith, e, none_here)) in
          (u, k, q, there m, n)
      | inr (c, found) ↦
          let (u, m) = backend_at-Member url r.backends b (ground (arith, e, found)) in
          (u, key, r, here, m)
    ]

find_backend-IsKnown :
    (url : String) (gs : GatewayService) (b : Backend)
    → find_backend_by_coordinator_url url gs ≡ some b
    → IsKnown url gs b
unfolding find_backend_by_coordinator_url
find_backend-IsKnown url gs b e = elim (Option-cases (backend_of_routes url gs.routes)) [
  | inr (c, found) ↦
      let (u, k, r, m, n) = backend_of_routes-Member url gs.routes b (ground (arith, e, found)) in
      (u, inl (k, r, m, n))
  | inl nowhere ↦ elim (Option-cases gs.default_route) [
    | inl no_default ↦ ground (arith, e, nowhere, no_default)
    | inr (r, is_default) ↦
        let (u, m) = backend_at-Member url r.backends b (ground (arith, e, nowhere, is_default)) in
        (u, inr (r, is_default, m))
  ]
]

routable-MayGoOn :
    (now : ℕ) (b : Backend) (gs : GatewayService)
    → (is_sticky_backend_routable now b gs).1 ≡ true
    → MayGoOn b
unfolding is_sticky_backend_routable
routable-MayGoOn now b gs e = ground (arith, e)

-- A bound query goes on only at the address that it is bound to, and only if a route of the table
-- or the default route has a backend there that is draining, or active and in state RUNNING or
-- unset.
pub sticky_backend_for_query-MayGoOn :
    (now : ℕ) (stored : StickyBackendSelection) (gs : GatewayService) (s : StickyBackendSelection)
    → (sticky_backend_for_query now (some stored) gs).selection ≡ some s
    → (s ≡ stored) × (b : Backend) × IsKnown s.backend_url gs b × MayGoOn b
unfolding sticky_backend_for_query
sticky_backend_for_query-MayGoOn now stored gs s e =
    elim (Option-cases (find_backend_by_coordinator_url stored.backend_url gs)) [
      | inl nowhere ↦ ground (arith, e, nowhere)
      | inr (b, found) ↦
          let same : s ≡ stored = ground (arith, e, found) in
          (
            same,
            b,
            subst (λ t. IsKnown t.backend_url gs b) (sym same)
                (find_backend-IsKnown stored.backend_url gs b found),
            routable-MayGoOn now b gs (ground (arith, e, found)),
          )
    ]

-- A binding with an address is either followed and kept, or it is not followed and dropped.
pub sticky_backend_for_query_invalidated :
    (now : ℕ) (stored : StickyBackendSelection) (gs : GatewayService)
    → stored.backend_url ≢ ""
    → ((sticky_backend_for_query now (some stored) gs).selection ≡ some stored)
        × ((sticky_backend_for_query now (some stored) gs).invalidated ≡ false)
      ⊎ ((sticky_backend_for_query now (some stored) gs).selection ≡ none)
        × ((sticky_backend_for_query now (some stored) gs).invalidated ≡ true)
unfolding sticky_backend_for_query
sticky_backend_for_query_invalidated now stored gs ne =
    ground (arith, ne, eq_iff stored.backend_url "")
