-- ===== src/Gateway/RouteTable/Watch.antt =====
-- route_cache.go: the table over any ticks of the watch loop.
use xtrinode.Shared.{
  String, ◌≡◌, ◌≢◌, refl, Bool, true, arith, List, [], ◌∷◌, All, eq_iff, Option, none, some,
}
use xtrinode.Shared.Dict.{Dict, lookup}
use xtrinode.Shared.Prefix.{prefixed}
use xtrinode.Gateway.Route.{Backend, RouteEntry, GatewayService}
use xtrinode.Gateway.RouteTable.{
  Net, normalize_hostname, given, is_loadable, Seen, nothing_seen, validate, valid_routes, put_if,
  index_route, index_routes, default_of, keep_first, install, Fetched, get_failed, key_missing,
  unparsable, parsed, load_routes, find_route, watch_tick, all_named,
}
use xtrinode.Gateway.RouteTable.Find.{lookup-put_if}

-- What a route needs to be routed to: a name, and backends that all have a name, a namespace and an
-- address.
abbrev pub Named : Backend → Type 0
Named b = (b.name ≢ "") × (b.namespace ≢ "") × (b.coordinator_url ≢ "")

abbrev pub Usable : RouteEntry → Type 0
Usable r = (r.name ≢ "") × (r.backends ≢ []) × All Named r.backends

all_named-All : (bs : List Backend) → all_named bs ≡ true → All Named bs
all_named-All [] h = tt
all_named-All (b ∷ bs) h =
    ground (
      arith,
      all_named-All bs,
      eq_iff b.name "",
      eq_iff b.namespace "",
      eq_iff b.coordinator_url "",
    )

is_loadable-Usable : (r : RouteEntry) → is_loadable r ≡ true → Usable r
unfolding is_loadable
is_loadable-Usable r h = ground (arith, eq_iff r.name "", all_named-All r.backends)

-- All that a table can lead to is usable.
abbrev pub Holds : Dict RouteEntry → Type 0
Holds m = (k : String) (r : RouteEntry) → lookup k m ≡ some r → Usable r

abbrev pub HoldsOnly : Option RouteEntry → Type 0
HoldsOnly o = (r : RouteEntry) → o ≡ some r → Usable r

pub record IsUsable (gs : GatewayService) : Type 0 where
  pub table : Holds gs.routes
  pub default_usable : HoldsOnly gs.default_route

validate-loadable :
    (net : Net) (r : RouteEntry) (seen : Seen)
    → (validate net r seen).1 ≡ true
    → is_loadable r ≡ true
unfolding validate
validate-loadable net r seen v = ground arith

valid_routes-Usable :
    (net : Net) (rs : List RouteEntry) (seen : Seen) → All Usable (valid_routes net rs seen)
unfolding valid_routes
valid_routes-Usable net [] seen = tt
valid_routes-Usable net (r ∷ rs) seen = ground (
  arith,
  valid_routes-Usable net rs (validate net r seen).0,
  validate-loadable net r seen,
  is_loadable-Usable r,
)

put_if-Holds :
    (c : Bool) (key : String) (r : RouteEntry) (m : Dict RouteEntry)
    → Usable r
    → Holds m
    → Holds (put_if c key r m)
put_if-Holds c key r m u h k q e = ground (arith, lookup-put_if c key k r m, h k q, e, u)

index_route-Holds :
    (net : Net) (r : RouteEntry) (m : Dict RouteEntry)
    → Usable r
    → Holds m
    → Holds (index_route net r m)
unfolding index_route
index_route-Holds net r m u h =
    let host = prefixed "host:" (normalize_hostname net r.hostname) in
    let m_group = put_if (given r.routing_group) (prefixed "rg:" r.routing_group) r m in
    let m_host = put_if (given r.hostname) host r m_group in
    let by_group = put_if-Holds (given r.routing_group) (prefixed "rg:" r.routing_group) r m u h in
    let by_host = put_if-Holds (given r.hostname) host r m_group u by_group in
    put_if-Holds (given r.header) (prefixed "hdr:" r.header) r m_host u by_host

index_routes-Holds :
    (net : Net) (rs : List RouteEntry) (m : Dict RouteEntry)
    → All Usable rs
    → Holds m
    → Holds (index_routes net rs m)
unfolding index_routes
index_routes-Holds net [] m u h = h
index_routes-Holds net (r ∷ rs) m u h =
    index_routes-Holds net rs (index_route net r m) u.1 (index_route-Holds net r m u.0 h)

keep_first-HoldsOnly :
    (found : Option RouteEntry) (r : RouteEntry)
    → Usable r
    → HoldsOnly found
    → HoldsOnly (keep_first found r)
keep_first-HoldsOnly none r u h q e = ground (arith, e)
keep_first-HoldsOnly (some first) r u h q e = h q e

default_of-HoldsOnly :
    (rs : List RouteEntry) (found : Option RouteEntry)
    → All Usable rs
    → HoldsOnly found
    → HoldsOnly (default_of rs found)
unfolding default_of
default_of-HoldsOnly [] found u h = h
default_of-HoldsOnly (r ∷ rs) found u h =
    default_of-HoldsOnly rs (keep_first found r) u.1 (keep_first-HoldsOnly found r u.0 h)

install-IsUsable :
    (net : Net) (valid : List RouteEntry) (gs : GatewayService)
    → All Usable valid
    → IsUsable (install net valid gs)
unfolding install lookup
install-IsUsable net valid gs u = record {
  table = index_routes-Holds net valid [] u (λ k r e. ground (arith, e));
  default_usable = default_of-HoldsOnly valid none u (λ r e. ground (arith, e));
}

load_routes-IsUsable :
    (net : Net) (fetched : Fetched) (gs : GatewayService)
    → IsUsable gs
    → IsUsable (load_routes net fetched gs).0
unfolding load_routes
load_routes-IsUsable net get_failed gs u = u
load_routes-IsUsable net key_missing gs u = u
load_routes-IsUsable net unparsable gs u = u
load_routes-IsUsable net (parsed rs) gs u = ground (
  arith,
  u,
  install-IsUsable net (valid_routes net rs nothing_seen) gs
      (valid_routes-Usable net rs nothing_seen),
)

-- Each tick with the version that it reads and what its load would fetch.
unfoldable pub watch :
    Net → List (Option String × Fetched) → String × GatewayService → String × GatewayService
watch net [] s = s
watch net ((version, fetched) ∷ ticks) s = watch net ticks (watch_tick net version fetched s)

watch_tick-IsUsable :
    (net : Net) (version : Option String) (fetched : Fetched) (s : String × GatewayService)
    → IsUsable s.1
    → IsUsable (watch_tick net version fetched s).1
unfolding watch_tick
watch_tick-IsUsable net none fetched s u = u
watch_tick-IsUsable net (some v) fetched s u =
    ground (arith, u, load_routes-IsUsable net fetched s.1 u)

watch-IsUsable :
    (net : Net) (ticks : List (Option String × Fetched)) (s : String × GatewayService)
    → IsUsable s.1
    → IsUsable (watch net ticks s).1
unfolding watch
watch-IsUsable net [] s u = u
watch-IsUsable net ((version, fetched) ∷ ticks) s u =
    watch-IsUsable net ticks (watch_tick net version fetched s)
      (watch_tick-IsUsable net version fetched s u)

-- Over any ticks from a table of usable routes, whatever is read, every route that a request finds
-- has a name and at least one backend, and each of its backends has a name, a namespace and an
-- address.
pub find_route-watch :
    (net : Net) (ticks : List (Option String × Fetched)) (s : String × GatewayService)
    (host header : String) (r : RouteEntry)
    → IsUsable s.1
    → find_route net host header (watch net ticks s).1 ≡ some r
    → Usable r
unfolding find_route
find_route-watch net ticks s host header r u e =
    let end = (watch net ticks s).1 in
    let v = watch-IsUsable net ticks s u in
    ground (
      arith,
      e,
      v.table (prefixed "host:" (normalize_hostname net host)) r,
      v.table (prefixed "hdr:" header) r,
      v.default_usable r,
    )

-- A tick that reads this version, or none.
abbrev pub Same : String → Option String × Fetched → Type 0
Same version (none, fetched) = Unit
Same version (some v, fetched) = v ≡ version

watch-Same :
    (net : Net) (ticks : List (Option String × Fetched)) (version : String) (gs : GatewayService)
    → All (Same version) ticks
    → watch net ticks (version, gs) ≡ (version, gs)
unfolding watch watch_tick
watch-Same net [] version gs h = refl
watch-Same net ((none, fetched) ∷ ticks) version gs h = watch-Same net ticks version gs h.1
watch-Same net ((some v, fetched) ∷ ticks) version gs h =
    ground (arith, eq_iff v version, h.0, watch-Same net ticks version gs h.1)

-- Once a tick has seen a new version but its load could not fetch the ConfigMap, no number of
-- further ticks at that version loads its routes, although they could: the service stays as it was
-- before that tick.
pub watch_not_retried :
    (net : Net) (ticks : List (Option String × Fetched)) (version last : String)
    (gs : GatewayService)
    → version ≢ last
    → All (Same version) ticks
    → watch net ((some version, get_failed) ∷ ticks) (last, gs) ≡ (version, gs)
unfolding watch watch_tick load_routes
watch_not_retried net ticks version last gs ne h =
    ground (arith, eq_iff version last, watch-Same net ticks version gs h)
