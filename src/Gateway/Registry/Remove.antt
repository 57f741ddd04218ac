-- ===== src/Gateway/Registry/Remove.antt =====
-- gateway.go: taking a backend out of the routes undoes its registration.
use xtrinode.Shared.{
  Bool-cases, subst, String, ◌≡◌, refl, Bool, true, false, not, arith, List, [], ◌∷◌, ◌++◌, All,
  count, eq_iff, str_eq, ◌⊎◌, inl, inr, Member, here, there,
}
use xtrinode.Gateway.Route.{Backend, RouteEntry}
use xtrinode.Gateway.Select.{is_empty}
use xtrinode.Gateway.RouteTable.{Net, given}
use xtrinode.Gateway.RouteTable.Unique.{with_group}
use xtrinode.Gateway.Registry.{
  replace_backend, Registration, is_backend, without_backend, has_backend,
  filter_backend_from_routes, remove_backend_from_other_routes, remove_backend_from_all_routes,
  done, register_route, deregister_route, update_backend_in_route, with_selectors,
  create_route_entry, is_alone,
}
use xtrinode.Gateway.Registry.Selectors.{Updates, appended, updated, passed}
use xtrinode.Gateway.Registry.Preserve.{register_route-Updates}

abbrev pub Lacks : String → String → RouteEntry → Type 0
Lacks name namespace r = has_backend name namespace r.backends ≡ false

abbrev pub NotEmpty : RouteEntry → Type 0
NotEmpty r = is_empty r.backends ≡ false

without-Lacks :
    (name namespace : String) (bs : List Backend)
    → has_backend name namespace (without_backend name namespace bs) ≡ false
unfolding without_backend has_backend
without-Lacks name namespace [] = refl
without-Lacks name namespace (b ∷ bs) = ground (arith, without-Lacks name namespace bs)

without_absent :
    (name namespace : String) (bs : List Backend)
    → has_backend name namespace bs ≡ false
    → without_backend name namespace bs ≡ bs
unfolding without_backend has_backend
without_absent name namespace [] h = refl
without_absent name namespace (b ∷ bs) h = ground (arith, without_absent name namespace bs)

without_last :
    (new : Backend) (bs : List Backend)
    → has_backend new.name new.namespace bs ≡ false
    → without_backend new.name new.namespace (bs ++ (new ∷ [])) ≡ bs
unfolding without_backend has_backend
without_last new [] h = ground (arith, eq_iff new.name new.name, eq_iff new.namespace new.namespace)
without_last new (b ∷ bs) h = ground (arith, without_last new bs)

filter_absent :
    (name namespace : String) (should : RouteEntry → Bool) (rs : List RouteEntry)
    → All (Lacks name namespace) rs
    → All NotEmpty rs
    → (filter_backend_from_routes name namespace should rs).0 ≡ rs
unfolding filter_backend_from_routes
filter_absent name namespace should [] l n = refl
filter_absent name namespace should (r ∷ rs) l n = ground (
  arith,
  filter_absent name namespace should rs l.1 n.1,
  without_absent name namespace r.backends,
)

is_alone_longer :
    (new : Backend) (bs : List Backend)
    → is_empty bs ≡ false
    → is_alone new (bs ++ (new ∷ [])) ≡ false
is_alone_longer new [] h = ground (arith, h)
is_alone_longer new (b ∷ []) h = refl
is_alone_longer new (b ∷ c ∷ bs) h = refl

-- A registration that brings no selectors.
abbrev pub NoSelectors : Registration → Type 0
NoSelectors reg =
    (given reg.header ≡ false) × (given reg.hostname ≡ false) × (reg.is_default ≡ false)

added_backend :
    (reg : Registration) (r new : RouteEntry)
    → NoSelectors reg
    → Lacks reg.backend.name reg.backend.namespace r
    → NotEmpty r
    → update_backend_in_route reg r ≡ done new
    → new ≡ record r { backends = r.backends ++ (reg.backend ∷ []) }
unfolding update_backend_in_route with_selectors
added_backend reg r new n l e u = ground (arith, n, l, e, u, is_alone_longer reg.backend r.backends)

remove_added :
    (reg : Registration) (rs rs' : List RouteEntry)
    → All (Lacks reg.backend.name reg.backend.namespace) rs
    → All NotEmpty rs
    → ((count (with_group reg.routing_group) rs ≡ 0) ⊎ NoSelectors reg)
    → given reg.routing_group ≡ true
    → Updates reg rs rs'
    → (filter_backend_from_routes reg.backend.name reg.backend.namespace (λ r. true) rs').0 ≡ rs
unfolding filter_backend_from_routes
remove_added reg _ _ l n c g (appended new e) =
    unfold create_route_entry without_backend in
    ground (
      arith,
      e,
      eq_iff reg.backend.name reg.backend.name,
      eq_iff reg.backend.namespace reg.backend.namespace,
    )
remove_added reg _ _ l n (inl none_there) g (updated r new rs same e) =
    ground (arith, none_there, g, same, eq_iff r.routing_group reg.routing_group)
remove_added reg _ _ l n (inr plain) g (updated r new rs same e) =
    let b = reg.backend in
    ground (
      arith,
      added_backend reg r new plain l.0 n.0 e,
      without_last b r.backends,
      filter_absent b.name b.namespace (λ q. true) rs l.1 n.1,
    )
remove_added reg _ _ l n c g (passed r rs rs' differs u) = ground (
  arith,
  without_absent reg.backend.name reg.backend.namespace r.backends,
  remove_added reg rs rs' l.1 n.1 (narrower c) g u,
)
  where
    narrower :
        ((count (with_group reg.routing_group) (r ∷ rs) ≡ 0) ⊎ NoSelectors reg)
        → ((count (with_group reg.routing_group) rs ≡ 0) ⊎ NoSelectors reg)
    narrower (inl z) = inl (ground (arith, z))
    narrower (inr p) = inr p

has_backend-replace :
    (new : Backend) (bs : List Backend)
    → has_backend new.name new.namespace bs ≡ true
    → has_backend new.name new.namespace (replace_backend new bs) ≡ true
unfolding replace_backend has_backend
has_backend-replace new [] h = h
has_backend-replace new (b ∷ bs) h = ground (
  arith,
  has_backend-replace new bs,
  eq_iff new.name new.name,
  eq_iff new.namespace new.namespace,
)

has_backend-append :
    (new : Backend) (bs : List Backend)
    → has_backend new.name new.namespace (bs ++ (new ∷ [])) ≡ true
unfolding has_backend
has_backend-append new [] =
    ground (arith, eq_iff new.name new.name, eq_iff new.namespace new.namespace)
has_backend-append new (b ∷ bs) = ground (arith, has_backend-append new bs)

update-has_backend :
    (reg : Registration) (r new : RouteEntry)
    → update_backend_in_route reg r ≡ done new
    → has_backend reg.backend.name reg.backend.namespace new.backends ≡ true
unfolding update_backend_in_route with_selectors
update-has_backend reg r new e = ground (
  arith,
  e,
  has_backend-replace reg.backend r.backends,
  has_backend-append reg.backend r.backends,
)

-- The backend is found where it was just registered.
Updates-changed :
    (reg : Registration) (rs rs' : List RouteEntry)
    → Updates reg rs rs'
    → (filter_backend_from_routes reg.backend.name reg.backend.namespace (λ r. true) rs').1 ≡ true
unfolding filter_backend_from_routes
Updates-changed reg _ _ (appended new e) =
    unfold create_route_entry in ground (arith, e, has_backend-append reg.backend [])
Updates-changed reg _ _ (updated r new rs same e) = ground (arith, update-has_backend reg r new e)
Updates-changed reg _ _ (passed r rs rs' differs u) = ground (arith, Updates-changed reg rs rs' u)

-- Registering a backend that no route has, and then deregistering it, gives the routes back as they
-- were, where no route is without backends and either the routing group is new or the registration
-- brings no selectors.
pub deregister_route-register_route :
    (net : Net) (reg : Registration) (rs rs' : List RouteEntry)
    → given reg.routing_group ≡ true
    → All (Lacks reg.backend.name reg.backend.namespace) rs
    → All NotEmpty rs
    → ((count (with_group reg.routing_group) rs ≡ 0) ⊎ NoSelectors reg)
    → register_route net reg rs ≡ done rs'
    → deregister_route reg.backend.name reg.backend.namespace rs' ≡ rs
unfolding deregister_route remove_backend_from_all_routes
deregister_route-register_route net reg rs rs' g l n c e =
    let b = reg.backend in
    let same : remove_backend_from_other_routes reg.routing_group b.name b.namespace rs ≡ rs =
      unfold remove_backend_from_other_routes in
      filter_absent b.name b.namespace (λ r. not (str_eq r.routing_group reg.routing_group)) rs l
        n in
    let up = subst (λ q. Updates reg q rs') same (register_route-Updates net reg rs rs' e).1 in
    ground (arith, Updates-changed reg rs rs' up, remove_added reg rs rs' l n c g up)

filter-Lacks :
    (name namespace : String) (rs : List RouteEntry)
    → All (Lacks name namespace) (filter_backend_from_routes name namespace (λ r. true) rs).0
unfolding filter_backend_from_routes
filter-Lacks name namespace [] = tt
filter-Lacks name namespace (r ∷ rs) =
    ground (arith, filter-Lacks name namespace rs, without-Lacks name namespace r.backends)

unchanged-Lacks :
    (name namespace : String) (rs : List RouteEntry)
    → (filter_backend_from_routes name namespace (λ r. true) rs).1 ≡ false
    → All (Lacks name namespace) rs
unfolding filter_backend_from_routes
unchanged-Lacks name namespace [] e = tt
unchanged-Lacks name namespace (r ∷ rs) e = ground (arith, unchanged-Lacks name namespace rs)

Member-without :
    (name namespace : String) (b : Backend) (bs : List Backend)
    → is_backend name namespace b ≡ false
    → Member b bs
    → Member b (without_backend name namespace bs)
unfolding without_backend
Member-without name namespace b _ o (here {xs = bs}) = rw o here
Member-without name namespace b _ o (there {x = c} {xs = bs} m) =
    let rest = Member-without name namespace b bs o m in
    elim (Bool-cases (is_backend name namespace c)) [
      | inl same ↦ rw same rest
      | inr differs ↦ rw differs (there rest)
    ]

-- The route that is left of one that keeps a backend.
abbrev pub Keeps : Backend → RouteEntry → RouteEntry → Type 0
Keeps b r r' =
    (r'.name ≡ r.name)
    × (r'.routing_group ≡ r.routing_group)
    × (r'.header ≡ r.header)
    × (r'.hostname ≡ r.hostname)
    × (r'.is_default ≡ r.is_default)
    × Member b r'.backends

nonempty_of_Member : (b : Backend) (bs : List Backend) → Member b bs → is_empty bs ≡ false
nonempty_of_Member b _ here = refl
nonempty_of_Member b _ (there m) = refl

filter_others :
    (name namespace : String) (r : RouteEntry) (b : Backend) (rs : List RouteEntry)
    → Member r rs
    → Member b r.backends
    → is_backend name namespace b ≡ false
    → (r' : RouteEntry) × Member r' (filter_backend_from_routes name namespace (λ q. true) rs).0
      × Keeps b r r'
unfolding filter_backend_from_routes
filter_others name namespace r b _ (here {xs = rs}) n o =
    let left = Member-without name namespace b r.backends o n in
    (
      record r { backends = without_backend name namespace r.backends },
      rw
          (
            nonempty_of_Member b (without_backend name namespace r.backends) left,
            filter_backend_from_routes,
          )
          here,
      (refl, refl, refl, refl, refl, left),
    )
filter_others name namespace r b _ (there {x = q} {xs = rs} m) n o =
    let (r', m', k) = filter_others name namespace r b rs m n o in
    elim (Bool-cases (is_empty (without_backend name namespace q.backends))) [
      | inl gone ↦ (r', rw (gone, filter_backend_from_routes) m', k)
      | inr stays ↦ (r', rw (stays, filter_backend_from_routes) (there m'), k)
    ]

-- After a deregistration no route has the backend, and every other backend is still in a route with
-- the name and the selectors that its route had.
pub deregister_route-Keeps :
    (name namespace : String) (rs : List RouteEntry) (r : RouteEntry) (b : Backend)
    → Member r rs
    → Member b r.backends
    → is_backend name namespace b ≡ false
    → All (Lacks name namespace) (deregister_route name namespace rs)
      × (r' : RouteEntry) × Member r' (deregister_route name namespace rs)
      × Keeps b r r'
unfolding deregister_route remove_backend_from_all_routes
deregister_route-Keeps name namespace rs r b n m o =
    let (r', n', k) = filter_others name namespace r b rs n m o in
    elim (Bool-cases (filter_backend_from_routes name namespace (λ q. true) rs).1) [
      | inl found ↦ rw (found, deregister_route) (filter-Lacks name namespace rs, r', n', k)
      | inr absent ↦
          rw (absent, deregister_route)
            (unchanged-Lacks name namespace rs absent, r, n, (refl, refl, refl, refl, refl, m))
    ]
