-- ===== src/Gateway/Registry/Selectors.antt =====
-- gateway.go and helpers.go: a registration never makes two routes share a selector.
use xtrinode.Shared.{
  subst, ◌++◌, ◌≤◌, String, ◌≡◌, refl, Bool, true, false, ◌&&◌, not, arith, List, [], ◌∷◌, count,
  eq_iff, none, str_eq, Bool-cases, inl, inr, ◌⊎◌,
}
use xtrinode.Gateway.Route.{Backend, RouteEntry}
use xtrinode.Gateway.RouteTable.{Net, given}
use xtrinode.Gateway.RouteTable.Unique.{with_group, with_hostname, with_header}
use xtrinode.Gateway.Registry.{
  replace_backend, with_selectors, without_backend, Registration, filter_backend_from_routes,
  conflict_among, Registered, done, refused, update_backend_in_route, create_route_entry,
  update_or_append, put_first, before,
}

abbrev pub outside : String → (RouteEntry → Bool) → RouteEntry → Bool
outside group p r = not (str_eq r.routing_group group) && p r

-- A selector reads no backends.
module _ (p : RouteEntry → Bool)
    (blind : (r : RouteEntry) (bs : List Backend) → p (record r { backends = bs }) ≡ p r) where
  pub count-filter :
      (name namespace : String) (should : RouteEntry → Bool) (rs : List RouteEntry)
      → count p (filter_backend_from_routes name namespace should rs).0 ≤ count p rs
  unfolding filter_backend_from_routes
  count-filter name namespace should [] = omega arith
  count-filter name namespace should (r ∷ rs) = ground (
    arith,
    count-filter name namespace should rs,
    blind r (without_backend name namespace r.backends),
  )

-- What an update leaves or sets of the selectors of a route.
pub record Follows (reg : Registration) (r new : RouteEntry) : Type 0 where
  pub same_name : new.name ≡ r.name
  pub same_group : new.routing_group ≡ r.routing_group
  pub header : (new.header ≡ reg.header) ⊎ (new.header ≡ r.header)
  pub hostname : (new.hostname ≡ reg.hostname) ⊎ (new.hostname ≡ r.hostname)

with_selectors-Follows :
    (reg : Registration) (r : RouteEntry) (bs : List Backend)
    → Follows reg r (with_selectors reg (record r { backends = bs }))
unfolding with_selectors
with_selectors-Follows reg r bs = ground arith

pub update_backend_in_route-Follows :
    (reg : Registration) (r new : RouteEntry)
    → update_backend_in_route reg r ≡ done new
    → Follows reg r new
unfolding update_backend_in_route
update_backend_in_route-Follows reg r new e =
    let replaced = with_selectors-Follows reg r (replace_backend reg.backend r.backends) in
    let appended = with_selectors-Follows reg r (r.backends ++ (reg.backend ∷ [])) in
    ground (arith, e, replaced, appended)

count-outside-le :
    (group : String) (p : RouteEntry → Bool) (rs : List RouteEntry)
    → count (outside group p) rs ≤ count p rs
count-outside-le group p [] = omega arith
count-outside-le group p (r ∷ rs) = ground (arith, count-outside-le group p rs)

-- Where no other route passes, at most the one that is written does.
pub count-outside_zero :
    (group : String) (p : RouteEntry → Bool) (rs : List RouteEntry)
    → count (with_group group) rs ≡ 0
    → given group ≡ true
    → count (outside group p) rs ≡ count p rs
count-outside_zero group p [] c g = refl
count-outside_zero group p (r ∷ rs) c g =
    ground (arith, count-outside_zero group p rs, eq_iff r.routing_group group)

-- What a successful update or append did: it made a route at the end, or changed the first of the
-- group.
pub data Updates (reg : Registration) : List RouteEntry → List RouteEntry → Type 0 where
  appended : (new : RouteEntry) → new ≡ create_route_entry reg → Updates reg [] (new ∷ [])
  updated :
      (r new : RouteEntry) (rs : List RouteEntry)
      → str_eq r.routing_group reg.routing_group ≡ true
      → update_backend_in_route reg r ≡ done new
      → Updates reg (r ∷ rs) (new ∷ rs)
  passed :
      (r : RouteEntry) (rs rs' : List RouteEntry)
      → str_eq r.routing_group reg.routing_group ≡ false
      → Updates reg rs rs'
      → Updates reg (r ∷ rs) (r ∷ rs')

Updates-put_first :
    (reg : Registration) (r : RouteEntry) (rs rs' : List RouteEntry) (u : Registered RouteEntry)
    → update_backend_in_route reg r ≡ u
    → str_eq r.routing_group reg.routing_group ≡ true
    → put_first u rs ≡ done rs'
    → Updates reg (r ∷ rs) rs'
Updates-put_first reg r rs rs' (done new) q same e =
    let at : new ∷ rs ≡ rs' = ground (arith, e) in
    subst (Updates reg (r ∷ rs)) at (updated r new rs same q)
Updates-put_first reg r rs rs' (refused x) q same e = ground (arith, e)

Updates-before :
    (reg : Registration) (r : RouteEntry) (rs rs' : List RouteEntry)
    (u : Registered (List RouteEntry))
    → ((new : List RouteEntry) → u ≡ done new → Updates reg rs new)
    → str_eq r.routing_group reg.routing_group ≡ false
    → before r u ≡ done rs'
    → Updates reg (r ∷ rs) rs'
Updates-before reg r rs rs' (done new) ih differs e =
    let at : r ∷ new ≡ rs' = ground (arith, e) in
    subst (Updates reg (r ∷ rs)) at (passed r rs new differs (ih new refl))
Updates-before reg r rs rs' (refused x) ih differs e = ground (arith, e)

pub update_or_append-Updates :
    (reg : Registration) (rs rs' : List RouteEntry)
    → update_or_append reg rs ≡ done rs'
    → Updates reg rs rs'
unfolding update_or_append
update_or_append-Updates reg [] rs' e =
    let at : create_route_entry reg ∷ [] ≡ rs' = ground (arith, e) in
    subst (Updates reg []) at (appended (create_route_entry reg) refl)
update_or_append-Updates reg (r ∷ rs) rs' e =
    elim (Bool-cases (str_eq r.routing_group reg.routing_group)) [
      | inl same ↦
          Updates-put_first reg r rs rs' (update_backend_in_route reg r) refl same
            (ground (arith, same, e))
      | inr differs ↦
          Updates-before reg r rs rs' (update_or_append reg rs) (update_or_append-Updates reg rs)
            differs (ground (arith, differs, e))
    ]

module _ (reg : Registration) (g : given reg.routing_group ≡ true) (p : RouteEntry → Bool) where
  -- A selector that no other route has is had by at most one route afterwards.
  pub count-Updates_only :
      (rs rs' : List RouteEntry)
      → count (with_group reg.routing_group) rs ≤ 1
      → count (outside reg.routing_group p) rs ≡ 0
      → Updates reg rs rs'
      → count p rs' ≤ 1
  count-Updates_only _ _ c o (appended new e) = ground arith
  count-Updates_only _ _ c o (updated r new rs same e) = ground (
    arith,
    same,
    count-outside_zero reg.routing_group p rs,
    eq_iff r.routing_group reg.routing_group,
  )
  count-Updates_only _ _ c o (passed r rs rs' differs u) =
      ground (
        arith,
        differs,
        count-Updates_only rs rs' (ground (arith, c)) (ground (arith, o, differs)) u,
      )

  -- A selector that only a route that had it before has is had by no more routes afterwards.
  pub count-Updates_le :
      (rs rs' : List RouteEntry)
      → p (create_route_entry reg) ≡ false
      → ((r new : RouteEntry) → Follows reg r new → p new ≡ true → p r ≡ true)
      → Updates reg rs rs'
      → count p rs' ≤ count p rs
  count-Updates_le _ _ c k (appended new e) = ground (arith, c, e)
  count-Updates_le _ _ c k (updated r new rs same e) =
      ground (arith, k r new (update_backend_in_route-Follows reg r new e))
  count-Updates_le _ _ c k (passed r rs rs' differs u) =
      ground (arith, count-Updates_le rs rs' c k u)

-- What a validation without conflict says of the routes of other groups.
pub no_conflict_header :
    (net : Net) (group hostname header : String) (d : Bool) (rs : List RouteEntry)
    → conflict_among net group hostname header d rs ≡ none
    → given header ≡ true
    → count (outside group (with_header header)) rs ≡ 0
unfolding conflict_among
no_conflict_header net group hostname header d [] e h = refl
no_conflict_header net group hostname header d (r ∷ rs) e h =
    ground (arith, e, no_conflict_header net group hostname header d rs)

pub no_conflict_hostname :
    (net : Net) (group hostname header : String) (d : Bool) (rs : List RouteEntry)
    → conflict_among net group hostname header d rs ≡ none
    → given hostname ≡ true
    → count (outside group (with_hostname net hostname)) rs ≡ 0
unfolding conflict_among
no_conflict_hostname net group hostname header d [] e h = refl
no_conflict_hostname net group hostname header d (r ∷ rs) e h =
    ground (arith, e, no_conflict_hostname net group hostname header d rs)

pub outside_group_zero :
    (group : String) (rs : List RouteEntry) → count (outside group (with_group group)) rs ≡ 0
outside_group_zero group [] = refl
outside_group_zero group (r ∷ rs) = ground (arith, outside_group_zero group rs)
