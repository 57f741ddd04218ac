-- ===== src/Gateway/Registry/Preserve.antt =====
-- gateway.go and helpers.go: what a registration writes is a table that the gateway loads in full.
use xtrinode.Shared.{
  subst, ◌≤◌, String, ◌≡◌, refl, Bool, true, false, not, arith, List, [], ◌∷◌, ◌++◌, All, count,
  eq_iff, none, str_eq, Bool-cases, Option-cases, inl, inr,
}
use xtrinode.Gateway.Route.{Backend, RouteEntry}
use xtrinode.Gateway.RouteTable.{
  Net, normalize_hostname, given, is_loadable, all_named, valid_routes, nothing_seen,
}
use xtrinode.Gateway.RouteTable.Unique.{with_group, with_hostname, with_header}
use xtrinode.Gateway.RouteTable.Complete.{ShareNothing, valid_routes_complete}
use xtrinode.Gateway.Registry.{
  with_selectors, replace_backend, is_empty, without_backend, update_backend_in_route,
  create_route_entry, Registration, filter_backend_from_routes, remove_backend_from_other_routes,
  validate_route_uniqueness, normalized_or_empty, done, register_route,
}
use xtrinode.Gateway.Registry.Selectors.{
  count-Updates_le, no_conflict_hostname, no_conflict_header, outside_group_zero,
  count-Updates_only, update_or_append-Updates, count-filter, Updates, Follows, appended, updated,
  passed,
}

-- A registration with a routing group and a backend with a name, a namespace and an address, and
-- whose host name, where it has one, is not empty when normalised.
pub record IsSound (net : Net) (reg : Registration) : Type 0 where
  pub group : given reg.routing_group ≡ true
  pub backend : all_named (reg.backend ∷ []) ≡ true
  pub hostname : given reg.hostname ≡ true → given (normalize_hostname net reg.hostname) ≡ true

-- A registration that is not refused saw no conflict, and updated the routes that it left of
-- others.
pub register_route-Updates :
    (net : Net) (reg : Registration) (rs rs' : List RouteEntry)
    → register_route net reg rs ≡ done rs'
    → let left =
        remove_backend_from_other_routes reg.routing_group reg.backend.name reg.backend.namespace
          rs in
      (validate_route_uniqueness net left reg.routing_group reg.hostname reg.header reg.is_default
        ≡ none)
      × Updates reg left rs'
unfolding register_route
register_route-Updates net reg rs rs' e =
    let left =
      remove_backend_from_other_routes reg.routing_group reg.backend.name reg.backend.namespace
        rs in
    elim (Option-cases (
      validate_route_uniqueness net left reg.routing_group reg.hostname reg.header
        reg.is_default)) [
          | inl free ↦ (free, update_or_append-Updates reg left rs' (ground (arith, e, free)))
          | inr (x, conflict) ↦ ground (arith, e, conflict)
        ]

left-ShareNothing :
    (net : Net) (group name namespace : String) (rs : List RouteEntry)
    → ShareNothing net rs
    → ShareNothing net (remove_backend_from_other_routes group name namespace rs)
unfolding remove_backend_from_other_routes
left-ShareNothing net group name namespace rs u =
    let other = λ (r : RouteEntry). not (str_eq r.routing_group group) in
    record {
      groups = λ k.
          ground
            (arith, u.groups k, count-filter (with_group k) (λ r bs. refl) name namespace other rs);
      hostnames = λ h. ground (
        arith,
        u.hostnames h,
        count-filter (with_hostname net h) (λ r bs. refl) name namespace other rs,
      );
      headers = λ x.
          ground (
            arith,
            u.headers x,
            count-filter (with_header x) (λ r bs. refl) name namespace other rs,
          );
    }

module _ (net : Net) (reg : Registration) (s : IsSound net reg) (rs rs' : List RouteEntry)
    (u : ShareNothing net rs)
    (free : validate_route_uniqueness net rs reg.routing_group reg.hostname reg.header
        reg.is_default
      ≡ none)
    (up : Updates reg rs rs') where
  groups_kept : (k : String) → count (with_group k) rs' ≤ 1
  groups_kept k = elim (Bool-cases (str_eq reg.routing_group k)) [
    | inl same ↦
        let at : reg.routing_group ≡ k = (eq_iff reg.routing_group k).0 same in
        subst (λ j. count (with_group j) rs' ≤ 1) at
          (count-Updates_only reg s.group (with_group reg.routing_group) rs rs'
            (u.groups reg.routing_group) (outside_group_zero reg.routing_group rs) up)
    | inr differs ↦ ground (
      arith,
      u.groups k,
      count-Updates_le reg s.group (with_group k) rs rs' (other_created k differs)
          (λ r new f m. ground (arith, m, f.same_group)) up,
    )
  ]
    where
      other_created :
          (k : String)
          → str_eq reg.routing_group k ≡ false
          → with_group k (create_route_entry reg) ≡ false
      other_created k differs = unfold create_route_entry in ground (arith, differs)

  headers_kept : (x : String) → count (with_header x) rs' ≤ 1
  headers_kept x = elim (Bool-cases (with_header x (create_route_entry reg))) [
    | inl new ↦
        let at : reg.header ≡ x =
          unfold create_route_entry in ground (arith, new, eq_iff reg.header x) in
        let is_given : given reg.header ≡ true = unfold create_route_entry in ground (arith, new) in
        subst (λ y. count (with_header y) rs' ≤ 1) at
          (count-Updates_only reg s.group (with_header reg.header) rs rs'
            (u.groups reg.routing_group)
            (unfold validate_route_uniqueness in
              no_conflict_header net reg.routing_group (normalized_or_empty net reg.hostname)
                reg.header reg.is_default rs free is_given)
            up)
    | inr not_new ↦ ground (
      arith,
      u.headers x,
      count-Updates_le reg s.group (with_header x) rs rs' not_new (header_old x not_new) up,
    )
  ]
    where
      header_old :
          (x : String)
          → with_header x (create_route_entry reg) ≡ false
          → (r new : RouteEntry) → Follows reg r new
          → with_header x new ≡ true
          → with_header x r ≡ true
      header_old x not_new r new f m =
          unfold create_route_entry in ground (arith, not_new, m, f.header)

  hostnames_kept : (h : String) → count (with_hostname net h) rs' ≤ 1
  hostnames_kept h = elim (Bool-cases (with_hostname net h (create_route_entry reg))) [
    | inl new ↦
        let is_given : given reg.hostname ≡ true =
          unfold create_route_entry in ground (arith, new) in
        let at : normalized_or_empty net reg.hostname ≡ h =
          unfold create_route_entry in
          ground (arith, new, eq_iff (normalize_hostname net reg.hostname) h) in
        subst (λ y. count (with_hostname net y) rs' ≤ 1) at
          (count-Updates_only reg s.group (with_hostname net (normalized_or_empty net reg.hostname))
            rs rs' (u.groups reg.routing_group)
            (unfold validate_route_uniqueness in
              no_conflict_hostname net reg.routing_group (normalized_or_empty net reg.hostname)
                reg.header reg.is_default rs free (ground (arith, is_given, s.hostname)))
            up)
    | inr not_new ↦ ground (
      arith,
      u.hostnames h,
      count-Updates_le reg s.group (with_hostname net h) rs rs' not_new (hostname_old h not_new) up,
    )
  ]
    where
      hostname_old :
          (h : String)
          → with_hostname net h (create_route_entry reg) ≡ false
          → (r new : RouteEntry) → Follows reg r new
          → with_hostname net h new ≡ true
          → with_hostname net h r ≡ true
      hostname_old h not_new r new f m =
          unfold create_route_entry in ground (arith, not_new, m, f.hostname)

  pub Updates-ShareNothing : ShareNothing net rs'
  Updates-ShareNothing = record {
    groups = groups_kept;
    hostnames = hostnames_kept;
    headers = headers_kept;
  }

abbrev pub AllLoadable : List RouteEntry → Type 0
AllLoadable rs = All (λ r. is_loadable r ≡ true) rs

all_named-without :
    (name namespace : String) (bs : List Backend)
    → all_named bs ≡ true
    → all_named (without_backend name namespace bs) ≡ true
unfolding without_backend
all_named-without name namespace [] h = refl
all_named-without name namespace (b ∷ bs) h = ground (arith, all_named-without name namespace bs)

filter-AllLoadable :
    (name namespace : String) (should : RouteEntry → Bool) (rs : List RouteEntry)
    → AllLoadable rs
    → AllLoadable (filter_backend_from_routes name namespace should rs).0
unfolding filter_backend_from_routes is_loadable
filter-AllLoadable name namespace should [] l = tt
filter-AllLoadable name namespace should (r ∷ rs) l = ground (
  arith,
  filter-AllLoadable name namespace should rs,
  all_named-without name namespace r.backends,
)

all_named-replace :
    (new : Backend) (bs : List Backend)
    → all_named (new ∷ []) ≡ true
    → all_named bs ≡ true
    → all_named (replace_backend new bs) ≡ true
unfolding replace_backend
all_named-replace new [] n h = refl
all_named-replace new (b ∷ bs) n h = ground (arith, all_named-replace new bs)

is_empty-replace :
    (new : Backend) (bs : List Backend) → is_empty (replace_backend new bs) ≡ is_empty bs
unfolding replace_backend
is_empty-replace new [] = refl
is_empty-replace new (b ∷ bs) = ground arith

all_named-append :
    (bs cs : List Backend) → all_named bs ≡ true → all_named cs ≡ true → all_named (bs ++ cs) ≡ true
all_named-append [] cs h k = k
all_named-append (b ∷ bs) cs h k = ground (arith, all_named-append bs cs)

is_empty-append : (bs : List Backend) (b : Backend) → is_empty (bs ++ (b ∷ [])) ≡ false
is_empty-append [] b = refl
is_empty-append (c ∷ bs) b = refl

update-is_loadable :
    (reg : Registration) (r new : RouteEntry)
    → given reg.routing_group ≡ true
    → all_named (reg.backend ∷ []) ≡ true
    → str_eq r.routing_group reg.routing_group ≡ true
    → is_loadable r ≡ true
    → update_backend_in_route reg r ≡ done new
    → is_loadable new ≡ true
unfolding update_backend_in_route with_selectors is_loadable
update-is_loadable reg r new g n same l e = ground (
  arith,
  e,
  eq_iff r.routing_group reg.routing_group,
  all_named-replace reg.backend r.backends,
  is_empty-replace reg.backend r.backends,
  all_named-append r.backends (reg.backend ∷ []),
  is_empty-append r.backends reg.backend,
)

Updates-AllLoadable :
    (reg : Registration) (rs rs' : List RouteEntry)
    → given reg.routing_group ≡ true
    → all_named (reg.backend ∷ []) ≡ true
    → AllLoadable rs
    → Updates reg rs rs'
    → AllLoadable rs'
Updates-AllLoadable reg _ _ g n l (appended new e) =
    unfold create_route_entry is_loadable in ground (arith, g, n, e)
Updates-AllLoadable reg _ _ g n l (updated r new rs same e) =
    (update-is_loadable reg r new g n same l.0 e, l.1)
Updates-AllLoadable reg _ _ g n l (passed r rs rs' differs u) =
    (l.0, Updates-AllLoadable reg rs rs' g n l.1 u)

-- Where all routes are loadable and no two share a routing group, host name or header, a registration
-- that is accepted leaves it so, and the gateway then loads all the routes that it wrote. The
-- registration has a routing group, its backend a name, a namespace and an address, and its host name,
-- where it has one, is not empty when normalised.
pub register_route-valid_routes :
    (net : Net) (reg : Registration) (rs rs' : List RouteEntry)
    → IsSound net reg
    → AllLoadable rs
    → ShareNothing net rs
    → register_route net reg rs ≡ done rs'
    → AllLoadable rs' × ShareNothing net rs' × (valid_routes net rs' nothing_seen ≡ rs')
register_route-valid_routes net reg rs rs' s l u e =
    let b = reg.backend in
    let left = remove_backend_from_other_routes reg.routing_group b.name b.namespace rs in
    let (free, up) = register_route-Updates net reg rs rs' e in
    let left_loadable : AllLoadable left =
      unfold remove_backend_from_other_routes in
      filter-AllLoadable b.name b.namespace (λ r. not (str_eq r.routing_group reg.routing_group)) rs
        l in
    let loadable = Updates-AllLoadable reg left rs' s.group s.backend left_loadable up in
    let shared =
      Updates-ShareNothing net reg s left rs'
        (left-ShareNothing net reg.routing_group b.name b.namespace rs u) free up in
    (loadable, shared, valid_routes_complete net rs' loadable shared)
