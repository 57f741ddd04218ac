-- ===== src/Gateway/RouteTable/Complete.antt =====
-- route_cache.go: routes that share no selector are all kept by a load.
use xtrinode.Shared.{◌≤◌, String, ◌≡◌, refl, true, ◌||◌, arith, List, [], ◌∷◌, All, count, eq_iff}
use xtrinode.Shared.Dict.{lookup, lookup-insert}
use xtrinode.Gateway.Route.{RouteEntry}
use xtrinode.Gateway.RouteTable.{
  Net, normalize_hostname, is_loadable, Seen, nothing_seen, validate, valid_routes,
}
use xtrinode.Gateway.RouteTable.Unique.{
  with_group, with_hostname, with_header, group_marked, hostname_marked, header_marked,
}

-- No two routes have the same routing group, normalised hostname or header.
pub record ShareNothing (net : Net) (rs : List RouteEntry) : Type 0 where
  pub groups : (group : String) → count (with_group group) rs ≤ 1
  pub hostnames : (hostname : String) → count (with_hostname net hostname) rs ≤ 1
  pub headers : (header : String) → count (with_header header) rs ≤ 1

-- Nothing that is marked is used by a route of the list.
record Apart (net : Net) (seen : Seen) (rs : List RouteEntry) : Type 0 where
  pub groups : (group : String) → group_marked group seen ≡ true → count (with_group group) rs ≡ 0
  pub hostnames :
      (hostname : String)
      → hostname_marked hostname seen ≡ true
      → count (with_hostname net hostname) rs ≡ 0
  pub headers :
      (header : String) → header_marked header seen ≡ true → count (with_header header) rs ≡ 0

validate-Apart :
    (net : Net) (r : RouteEntry) (rs : List RouteEntry) (seen : Seen)
    → is_loadable r ≡ true
    → Apart net seen (r ∷ rs)
    → (validate net r seen).1 ≡ true
unfolding validate
validate-Apart net r rs seen l a = ground (
  arith,
  a.groups r.routing_group,
  a.hostnames (normalize_hostname net r.hostname),
  a.headers r.header,
  eq_iff r.routing_group r.routing_group,
  eq_iff (normalize_hostname net r.hostname) (normalize_hostname net r.hostname),
  eq_iff r.header r.header,
)

-- A valid route marks its own selectors and no others.
validate_marks :
    (net : Net) (r : RouteEntry) (seen : Seen) (group hostname header : String)
    → (validate net r seen).1 ≡ true
    → let seen' = (validate net r seen).0 in
      (group_marked group seen' ≡ (group_marked group seen || with_group group r))
      × (hostname_marked hostname seen'
          ≡ (hostname_marked hostname seen || with_hostname net hostname r))
      × (header_marked header seen' ≡ (header_marked header seen || with_header header r))
unfolding validate
validate_marks net r seen group hostname header v = ground (
  arith,
  lookup-insert r.routing_group group true seen.groups,
  lookup-insert (normalize_hostname net r.hostname) hostname r.routing_group seen.hostnames,
  lookup-insert r.header header r.routing_group seen.headers,
)

Apart-tail :
    (net : Net) (r : RouteEntry) (rs : List RouteEntry) (seen : Seen)
    → ShareNothing net (r ∷ rs)
    → Apart net seen (r ∷ rs)
    → (validate net r seen).1 ≡ true
    → Apart net (validate net r seen).0 rs
Apart-tail net r rs seen u a v = record {
  groups =
      λ g m. ground (arith, m, u.groups g, a.groups g, (validate_marks net r seen g "" "" v).0);
  hostnames = λ h m.
      ground (arith, m, u.hostnames h, a.hostnames h, (validate_marks net r seen "" h "" v).1);
  headers =
      λ x m. ground (arith, m, u.headers x, a.headers x, (validate_marks net r seen "" "" x v).2);
}

ShareNothing-tail :
    (net : Net) (r : RouteEntry) (rs : List RouteEntry)
    → ShareNothing net (r ∷ rs)
    → ShareNothing net rs
ShareNothing-tail net r rs u = record {
  groups = λ g. ground (arith, u.groups g);
  hostnames = λ h. ground (arith, u.hostnames h);
  headers = λ x. ground (arith, u.headers x);
}

valid_routes-Apart :
    (net : Net) (rs : List RouteEntry) (seen : Seen)
    → All (λ r. is_loadable r ≡ true) rs
    → ShareNothing net rs
    → Apart net seen rs
    → valid_routes net rs seen ≡ rs
unfolding valid_routes
valid_routes-Apart net [] seen l u a = refl
valid_routes-Apart net (r ∷ rs) seen l u a =
    let v = validate-Apart net r rs seen l.0 a in
    let rest =
      valid_routes-Apart net rs (validate net r seen).0 l.1 (ShareNothing-tail net r rs u)
        (Apart-tail net r rs seen u a v) in
    ground (arith, v, rest)

-- Loadable routes that share no selector are all valid.
pub valid_routes_complete :
    (net : Net) (rs : List RouteEntry)
    → All (λ r. is_loadable r ≡ true) rs
    → ShareNothing net rs
    → valid_routes net rs nothing_seen ≡ rs
unfolding lookup
valid_routes_complete net rs l u = valid_routes-Apart net rs nothing_seen l u (record {
  groups = λ g m. ground (arith, m);
  hostnames = λ h m. ground (arith, m);
  headers = λ x m. ground (arith, m);
})
