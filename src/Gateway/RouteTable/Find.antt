-- ===== src/Gateway/RouteTable/Find.antt =====
-- route_cache.go: what findRoute finds after a load, against a search of the valid routes.
use xtrinode.Shared.{
  ◌≤◌, String, ◌≡◌, ◌∙◌, refl, Bool, true, false, arith, str_eq, List, [], ◌∷◌, count, eq_iff,
  Option, none, some, if◌then◌else◌, ◌⊎◌,
}
use xtrinode.Shared.Dict.{Dict, lookup, lookup-insert}
use xtrinode.Shared.Prefix.{prefixed, str_eq-prefixed, rg_host, rg_hdr, hdr_host}
use xtrinode.Gateway.Route.{RouteEntry, GatewayService}
use xtrinode.Gateway.RouteTable.{
  Net, normalize_hostname, given, nothing_seen, valid_routes, put_if, index_route, index_routes,
  default_of, keep_first, install, no_route, parsed, load_routes, or_route, find_route,
}
use xtrinode.Gateway.RouteTable.Unique.{with_hostname, with_header, valid_routes-count}

abbrev pub first_where : (RouteEntry → Bool) → List RouteEntry → Option RouteEntry
first_where p [] = none
first_where p (r ∷ rs) = if p r then some r else first_where p rs

abbrev last_where : (RouteEntry → Bool) → List RouteEntry → Option RouteEntry
last_where p [] = none
last_where p (r ∷ rs) = or_route (last_where p rs) (if p r then some r else none)

last_where-none :
    (p : RouteEntry → Bool) (rs : List RouteEntry) → count p rs ≡ 0 → last_where p rs ≡ none
last_where-none p [] c = refl
last_where-none p (r ∷ rs) c = ground (arith, last_where-none p rs)

-- Where at most one passes, the last that does is the first.
last_where-first_where :
    (p : RouteEntry → Bool) (rs : List RouteEntry)
    → count p rs ≤ 1
    → last_where p rs ≡ first_where p rs
last_where-first_where p [] c = refl
last_where-first_where p (r ∷ rs) c =
    ground (arith, last_where-none p rs, last_where-first_where p rs)

str_eq_flip : (a b : String) → str_eq a b ≡ str_eq b a
str_eq_flip a b = ground (arith, eq_iff a b, eq_iff b a)

pub lookup-put_if :
    (c : Bool) (key k : String) (r : RouteEntry) (m : Dict RouteEntry)
    → lookup k (put_if c key r m)
      ≡ or_route (if c then if str_eq key k then some r else none else none) (lookup k m)
lookup-put_if c key k r m = ground (arith, lookup-insert key k r m)

host_hdr : (s t : String) → str_eq (prefixed "host:" s) (prefixed "hdr:" t) ≡ false
host_hdr s t = str_eq_flip (prefixed "host:" s) (prefixed "hdr:" t) ∙ hdr_host t s

lookup-index_route_host :
    (net : Net) (h : String) (r : RouteEntry) (m : Dict RouteEntry)
    → let key = prefixed "host:" h in
      lookup key (index_route net r m)
      ≡ or_route (if with_hostname net h r then some r else none) (lookup key m)
unfolding index_route
lookup-index_route_host net h r m =
    let key = prefixed "host:" h in
    let by_group = put_if (given r.routing_group) (prefixed "rg:" r.routing_group) r m in
    let host = prefixed "host:" (normalize_hostname net r.hostname) in
    ground (
      arith,
      lookup-put_if (given r.header) (prefixed "hdr:" r.header) key r
          (put_if (given r.hostname) host r by_group),
      lookup-put_if (given r.hostname) host key r by_group,
      lookup-put_if (given r.routing_group) (prefixed "rg:" r.routing_group) key r m,
      hdr_host r.header h,
      rg_host r.routing_group h,
      str_eq-prefixed "host:" (normalize_hostname net r.hostname) h,
    )

lookup-index_route_hdr :
    (net : Net) (x : String) (r : RouteEntry) (m : Dict RouteEntry)
    → let key = prefixed "hdr:" x in
      lookup key (index_route net r m)
      ≡ or_route (if with_header x r then some r else none) (lookup key m)
unfolding index_route
lookup-index_route_hdr net x r m =
    let key = prefixed "hdr:" x in
    let by_group = put_if (given r.routing_group) (prefixed "rg:" r.routing_group) r m in
    let host = prefixed "host:" (normalize_hostname net r.hostname) in
    ground (
      arith,
      lookup-put_if (given r.header) (prefixed "hdr:" r.header) key r
          (put_if (given r.hostname) host r by_group),
      lookup-put_if (given r.hostname) host key r by_group,
      lookup-put_if (given r.routing_group) (prefixed "rg:" r.routing_group) key r m,
      host_hdr (normalize_hostname net r.hostname) x,
      rg_hdr r.routing_group x,
      str_eq-prefixed "hdr:" r.header x,
    )

-- The last route that a selector passes is the one that is found, whatever was there before.
module _ (net : Net) (key : String) (selects : RouteEntry → Bool)
    (step : (r : RouteEntry) (m : Dict RouteEntry)
      → lookup key (index_route net r m)
        ≡ or_route (if selects r then some r else none) (lookup key m)) where
  lookup-index_routes :
      (rs : List RouteEntry) (m : Dict RouteEntry)
      → lookup key (index_routes net rs m) ≡ or_route (last_where selects rs) (lookup key m)
  unfolding index_routes
  lookup-index_routes [] m = refl
  lookup-index_routes (r ∷ rs) m =
      ground (arith, lookup-index_routes rs (index_route net r m), step r m)

default_of-first_where :
    (rs : List RouteEntry) (found : Option RouteEntry)
    → default_of rs found ≡ or_route found (first_where (λ r. r.is_default) rs)
unfolding default_of
default_of-first_where [] found = ground arith
default_of-first_where (r ∷ rs) found =
    ground (arith, default_of-first_where rs (keep_first found r))

-- The route of a request, searched for in a list of routes: the first with the normalised host;
-- failing that the first with the header, where the request has one, and else the first default.
abbrev pub route_for : Net → String → String → List RouteEntry → Option RouteEntry
route_for net host header valid =
    let hostname = normalize_hostname net host in
    or_route (if given hostname then first_where (with_hostname net hostname) valid else none) (
      if given header
      then first_where (with_header header) valid
      else first_where (λ r. r.is_default) valid)

-- After a load of parsed routes, of which one is valid or which are none at all, a request finds
-- the valid route of its normalised host; failing that the one of its routing header, and none if
-- that header is unknown; and the first valid default only where the request has no such header.
pub find_route-load_routes :
    (net : Net) (rs : List RouteEntry) (gs : GatewayService) (host header : String)
    → ((no_route rs ≡ true) ⊎ (no_route (valid_routes net rs nothing_seen) ≡ false))
    → find_route net host header (load_routes net (parsed rs) gs).0
      ≡ route_for net host header (valid_routes net rs nothing_seen)
unfolding find_route load_routes install lookup
find_route-load_routes net rs gs host header some_valid =
    let valid = valid_routes net rs nothing_seen in
    let h = normalize_hostname net host in
    let (_, unique_host, unique_header) = valid_routes-count net rs nothing_seen "" h header in
    ground (
      arith,
      lookup-index_routes net (prefixed "host:" h) (with_hostname net h)
          (lookup-index_route_host net h) valid [],
      lookup-index_routes net (prefixed "hdr:" header) (with_header header)
          (lookup-index_route_hdr net header) valid [],
      default_of-first_where valid none,
      last_where-first_where (with_hostname net h) valid unique_host,
      last_where-first_where (with_header header) valid unique_header,
    )
