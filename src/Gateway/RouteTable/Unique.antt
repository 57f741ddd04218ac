-- ===== src/Gateway/RouteTable/Unique.antt =====
-- route_cache.go: the routes that a load keeps share no routing group, hostname or header.
use xtrinode.Shared.{
  ◌≤◌, String, ◌≡◌, refl, Bool, true, false, arith, ◌&&◌, str_eq, List, [], ◌∷◌, count, eq_iff,
}
use xtrinode.Shared.Dict.{lookup, lookup-insert}
use xtrinode.Gateway.Route.{RouteEntry}
use xtrinode.Gateway.RouteTable.{
  Net, normalize_hostname, given, Seen, is_key, validate, valid_routes,
}

abbrev pub with_group : String → RouteEntry → Bool
with_group group r = given r.routing_group && str_eq r.routing_group group

abbrev pub with_hostname : Net → String → RouteEntry → Bool
with_hostname net hostname r =
    given r.hostname && str_eq (normalize_hostname net r.hostname) hostname

abbrev pub with_header : String → RouteEntry → Bool
with_header header r = given r.header && str_eq r.header header

-- A selector whose marked values stay marked, and whose value is unmarked before a valid route and
-- marked after it.
module _ (net : Net) (marked : Seen → Bool) (selects : RouteEntry → Bool)
    (stays : (r : RouteEntry) (seen : Seen)
      → marked seen ≡ true
      → marked (validate net r seen).0 ≡ true)
    (fresh : (r : RouteEntry) (seen : Seen)
      → (validate net r seen).1 ≡ true
      → selects r ≡ true
      → marked seen ≡ false)
    (marks : (r : RouteEntry) (seen : Seen)
      → (validate net r seen).1 ≡ true
      → selects r ≡ true
      → marked (validate net r seen).0 ≡ true) where
  count-marked :
      (rs : List RouteEntry) (seen : Seen)
      → marked seen ≡ true
      → count selects (valid_routes net rs seen) ≡ 0
  unfolding valid_routes
  count-marked [] seen m = refl
  count-marked (r ∷ rs) seen m =
      ground (arith, fresh r seen, count-marked rs (validate net r seen).0 (stays r seen m))

  count_unique : (rs : List RouteEntry) (seen : Seen) → count selects (valid_routes net rs seen) ≤ 1
  unfolding valid_routes
  count_unique [] seen = omega arith
  count_unique (r ∷ rs) seen = ground (
    arith,
    count_unique rs (validate net r seen).0,
    marks r seen,
    count-marked rs (validate net r seen).0,
  )

abbrev pub group_marked : String → Seen → Bool
group_marked group seen = is_key (lookup group seen.groups)

group_stays :
    (net : Net) (group : String) (r : RouteEntry) (seen : Seen)
    → group_marked group seen ≡ true
    → group_marked group (validate net r seen).0 ≡ true
unfolding validate
group_stays net group r seen m =
    ground (arith, lookup-insert r.routing_group group true seen.groups)

group_fresh :
    (net : Net) (group : String) (r : RouteEntry) (seen : Seen)
    → (validate net r seen).1 ≡ true
    → with_group group r ≡ true
    → group_marked group seen ≡ false
unfolding validate
group_fresh net group r seen v m = ground (arith, eq_iff r.routing_group group)

group_marks :
    (net : Net) (group : String) (r : RouteEntry) (seen : Seen)
    → (validate net r seen).1 ≡ true
    → with_group group r ≡ true
    → group_marked group (validate net r seen).0 ≡ true
unfolding validate
group_marks net group r seen v m =
    ground
      (arith, eq_iff r.routing_group group, lookup-insert r.routing_group group true seen.groups)

abbrev pub hostname_marked : String → Seen → Bool
hostname_marked hostname seen = is_key (lookup hostname seen.hostnames)

hostname_stays :
    (net : Net) (hostname : String) (r : RouteEntry) (seen : Seen)
    → hostname_marked hostname seen ≡ true
    → hostname_marked hostname (validate net r seen).0 ≡ true
unfolding validate
hostname_stays net hostname r seen m = ground (
  arith,
  lookup-insert (normalize_hostname net r.hostname) hostname r.routing_group seen.hostnames,
)

hostname_fresh :
    (net : Net) (hostname : String) (r : RouteEntry) (seen : Seen)
    → (validate net r seen).1 ≡ true
    → with_hostname net hostname r ≡ true
    → hostname_marked hostname seen ≡ false
unfolding validate
hostname_fresh net hostname r seen v m =
    ground (arith, eq_iff (normalize_hostname net r.hostname) hostname)

hostname_marks :
    (net : Net) (hostname : String) (r : RouteEntry) (seen : Seen)
    → (validate net r seen).1 ≡ true
    → with_hostname net hostname r ≡ true
    → hostname_marked hostname (validate net r seen).0 ≡ true
unfolding validate
hostname_marks net hostname r seen v m = ground (
  arith,
  eq_iff (normalize_hostname net r.hostname) hostname,
  lookup-insert (normalize_hostname net r.hostname) hostname r.routing_group seen.hostnames,
)

abbrev pub header_marked : String → Seen → Bool
header_marked header seen = is_key (lookup header seen.headers)

header_stays :
    (net : Net) (header : String) (r : RouteEntry) (seen : Seen)
    → header_marked header seen ≡ true
    → header_marked header (validate net r seen).0 ≡ true
unfolding validate
header_stays net header r seen m =
    ground (arith, lookup-insert r.header header r.routing_group seen.headers)

header_fresh :
    (net : Net) (header : String) (r : RouteEntry) (seen : Seen)
    → (validate net r seen).1 ≡ true
    → with_header header r ≡ true
    → header_marked header seen ≡ false
unfolding validate
header_fresh net header r seen v m = ground (arith, eq_iff r.header header)

header_marks :
    (net : Net) (header : String) (r : RouteEntry) (seen : Seen)
    → (validate net r seen).1 ≡ true
    → with_header header r ≡ true
    → header_marked header (validate net r seen).0 ≡ true
unfolding validate
header_marks net header r seen v m =
    ground
      (arith, eq_iff r.header header, lookup-insert r.header header r.routing_group seen.headers)

-- Of the routes that a load keeps, at most one has a given routing group, at most one has a given
-- normalised hostname, and at most one has a given header.
pub valid_routes-count :
    (net : Net) (rs : List RouteEntry) (seen : Seen) (group hostname header : String)
    → let valid = valid_routes net rs seen in
      (count (with_group group) valid ≤ 1)
      × (count (with_hostname net hostname) valid ≤ 1)
      × (count (with_header header) valid ≤ 1)
valid_routes-count net rs seen group hostname header = (
  count_unique net (group_marked group) (with_group group) (group_stays net group)
      (group_fresh net group) (group_marks net group) rs seen,
  count_unique net (hostname_marked hostname) (with_hostname net hostname)
      (hostname_stays net hostname) (hostname_fresh net hostname) (hostname_marks net hostname) rs
      seen,
  count_unique net (header_marked header) (with_header header) (header_stays net header)
      (header_fresh net header) (header_marks net header) rs seen,
)
