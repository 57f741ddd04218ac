-- ===== src/Gateway/RouteTable.antt =====
-- xtrinode/pkg/gateway/route_cache.go: the route table, its reload and the lookup of a request's
-- route, with normalizeHostname of xtrinode/pkg/gateway/helpers.go.
pub mod Unique
pub mod Complete
pub mod Find
pub mod Watch
mod Examples
use xtrinode.Shared.{
  String, Bool, true, false, ◌&&◌, ◌||◌, not, str_eq, if◌then◌else◌, Option, none, some, List, [],
  ◌∷◌, ◌++◌,
}
use xtrinode.Shared.Dict.{Dict, lookup, insert}
use xtrinode.Shared.Prefix.{prefixed}
use xtrinode.Gateway.Health.{HealthChecker, reset_sleeping}
use xtrinode.Gateway.Route.{Backend, RouteEntry, GatewayService}
use xtrinode.Gateway.Select.{is_running, is_empty}

-- `strings.ToLower`, and the host that `net.SplitHostPort` finds, `none` for its error.
pub record Net : Type 0 where
  pub to_lower : String → String
  pub split_host_port : String → Option String

abbrev pub host_or : String → Option String → String
host_or hostname none = hostname
host_or hostname (some host) = host

unfoldable pub normalize_hostname : Net → String → String
normalize_hostname net hostname =
    let lowered = net.to_lower hostname in host_or lowered (net.split_host_port lowered)

-- `s != ""`.
abbrev pub given : String → Bool
given s = not (str_eq s "")

abbrev pub all_named : List Backend → Bool
all_named [] = true
all_named (b ∷ bs) = (given b.name && given b.namespace && given b.coordinator_url) && all_named bs

unfoldable pub is_loadable : RouteEntry → Bool
is_loadable r =
    (given r.name && not (is_empty r.backends))
    && (given r.routing_group || given r.hostname || given r.header || r.is_default)
    && all_named r.backends

-- The maps of `loadRoutes` that hold what earlier routes use, each with the routing group of its
-- route.
pub record Seen : Type 0 where
  pub groups : Dict Bool
  pub hostnames : Dict String
  pub headers : Dict String

abbrev pub nothing_seen : Seen
nothing_seen = record { groups = []; hostnames = []; headers = [] }

abbrev pub is_key {ℓ} : {V : Type ℓ} → Option V → Bool
is_key none = false
is_key (some v) = true

unfoldable pub check_group : RouteEntry → Seen → Seen × Bool
check_group r seen =
    if given r.routing_group
    then if is_key (lookup r.routing_group seen.groups)
      then (seen, false)
      else (record seen { groups = insert r.routing_group true seen.groups }, true)
    else (seen, true)

unfoldable pub check_hostname : Net → RouteEntry → Seen → Seen × Bool
check_hostname net r seen =
    let hostname = normalize_hostname net r.hostname in
    if given r.hostname
    then if is_key (lookup hostname seen.hostnames)
      then (seen, false)
      else (record seen { hostnames = insert hostname r.routing_group seen.hostnames }, true)
    else (seen, true)

unfoldable pub check_header : RouteEntry → Seen → Seen × Bool
check_header r seen =
    if given r.header
    then if is_key (lookup r.header seen.headers)
      then (seen, false)
      else (record seen { headers = insert r.header r.routing_group seen.headers }, true)
    else (seen, true)

-- One round of the loop over the parsed routes: whether the route is valid, and what it marks.
unfoldable pub validate : Net → RouteEntry → Seen → Seen × Bool
unfolding check_group check_hostname check_header
validate net r seen =
    let (by_group, group_free) = check_group r seen in
    let (by_hostname, hostname_free) = check_hostname net r by_group in
    let (by_header, header_free) = check_header r by_hostname in
    if not (is_loadable r)
    then (seen, false)
    else if not group_free
    then (by_group, false)
    else if not hostname_free
    then (by_hostname, false)
    else (by_header, header_free)

unfoldable pub valid_routes : Net → List RouteEntry → Seen → List RouteEntry
valid_routes net [] seen = []
valid_routes net (r ∷ rs) seen =
    let (seen', valid) = validate net r seen in
    let rest = valid_routes net rs seen' in if valid then r ∷ rest else rest

abbrev pub put_if : Bool → String → RouteEntry → Dict RouteEntry → Dict RouteEntry
put_if c key r routes = if c then insert key r routes else routes

-- The entries of one route: by routing group, by normalised hostname and by header.
unfoldable pub index_route : Net → RouteEntry → Dict RouteEntry → Dict RouteEntry
index_route net r routes = put_if (given r.header) (prefixed "hdr:" r.header) r (
    put_if (given r.hostname) (prefixed "host:" (normalize_hostname net r.hostname)) r
      (put_if (given r.routing_group) (prefixed "rg:" r.routing_group) r routes))

unfoldable pub index_routes : Net → List RouteEntry → Dict RouteEntry → Dict RouteEntry
index_routes net [] routes = routes
index_routes net (r ∷ rs) routes = index_routes net rs (index_route net r routes)

abbrev pub keep_first : Option RouteEntry → RouteEntry → Option RouteEntry
keep_first (some first) r = some first
keep_first none r = if r.is_default then some r else none

unfoldable pub default_of : List RouteEntry → Option RouteEntry → Option RouteEntry
default_of [] found = found
default_of (r ∷ rs) found = default_of rs (keep_first found r)

abbrev pub running_urls : List Backend → List String
running_urls [] = []
running_urls (b ∷ bs) =
    if b.active && is_running b.state then b.coordinator_url ∷ running_urls bs else running_urls bs

abbrev pub loaded_running_backends : List RouteEntry → List String
loaded_running_backends [] = []
loaded_running_backends (r ∷ rs) = running_urls r.backends ++ loaded_running_backends rs

abbrev pub reset_checker : List String → Option HealthChecker → Option HealthChecker
reset_checker urls none = none
reset_checker urls (some hc) = some (reset_sleeping urls hc)

-- What the read of the ConfigMap and the parse of its key come to.
pub data Fetched : Type 0 where
  get_failed key_missing unparsable : Fetched
  parsed : List RouteEntry → Fetched

-- The routes put in place of the old ones.
unfoldable pub install : Net → List RouteEntry → GatewayService → GatewayService
install net valid gs = record gs {
  routes = index_routes net valid [];
  default_route = default_of valid none;
  health_checker = reset_checker (loaded_running_backends valid) gs.health_checker;
}

abbrev pub no_route : List RouteEntry → Bool
no_route [] = true
no_route _ = false

-- The service after the load, and whether the load returned no error.
unfoldable pub load_routes : Net → Fetched → GatewayService → GatewayService × Bool
unfolding install
load_routes net get_failed gs = (gs, false)
load_routes net key_missing gs = (gs, true)
load_routes net unparsable gs = (gs, true)
load_routes net (parsed rs) gs =
    let valid = valid_routes net rs nothing_seen in
    if not (no_route rs) && no_route valid then (gs, true) else (install net valid gs, true)

abbrev pub or_route : Option RouteEntry → Option RouteEntry → Option RouteEntry
or_route (some r) fallback = some r
or_route none fallback = fallback

-- The route of a request with a `Host` and a value of the routing header.
unfoldable pub find_route : Net → String → String → GatewayService → Option RouteEntry
find_route net host header gs =
    let hostname = normalize_hostname net host in
    let by_host = if given hostname then lookup (prefixed "host:" hostname) gs.routes else none in
    or_route by_host
      (if given header then lookup (prefixed "hdr:" header) gs.routes else gs.default_route)

-- One tick of `watchRoutes`: the version that the ConfigMap has, `none` where it could not be read,
-- and what a load would fetch.
unfoldable pub watch_tick :
    Net → Option String → Fetched → String × GatewayService → String × GatewayService
watch_tick net none fetched (last, gs) = (last, gs)
watch_tick net (some version) fetched (last, gs) =
    if str_eq version last then (last, gs) else (version, (load_routes net fetched gs).0)
