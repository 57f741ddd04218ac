-- ===== src/Gateway/RouteTable/Examples.antt =====
-- The route table's theorems at concrete routes, with host names that are in lower case and have no
-- port.
use xtrinode.Shared.{
  String, ◌≡◌, ◌≢◌, refl, true, false, arith, List, [], ◌∷◌, eq_iff, Option, none, some, inr,
}
use xtrinode.Shared.Int.{pos}
use xtrinode.Shared.Dict.{lookup, insert}
use xtrinode.Gateway.Route.{Backend, running, RouteEntry, GatewayService}
use xtrinode.Gateway.RouteTable.{
  Net, normalize_hostname, is_loadable, nothing_seen, validate, valid_routes, index_route,
  index_routes, default_of, install, no_route, get_failed, parsed, load_routes, find_route,
  watch_tick, Fetched,
}
use xtrinode.Gateway.RouteTable.Find.{route_for, find_route-load_routes}
use xtrinode.Gateway.RouteTable.Watch.{Usable, IsUsable, watch, find_route-watch, watch_not_retried}

abbrev plain_net : Net
plain_net = record { to_lower = λ s. s; split_host_port = λ s. none }

abbrev coordinator : Backend
coordinator = record {
  name = "x";
  namespace = "ns";
  coordinator_url = "http://x";
  state = running;
  active = true;
  tier = "s";
  capacity_units = pos 1;
  runtime_shape_version = "";
  runtime_shape_hash = "";
  observed_generation = pos 1;
  drain_until = "";
}

abbrev pool : String → String → String → RouteEntry
pool name header hostname = record {
  name = name;
  routing_group = name;
  backends = coordinator ∷ [];
  header = header;
  hostname = hostname;
  is_default = false;
}

abbrev fallback : RouteEntry
fallback = record (pool "d" "" "") { is_default = true }

-- The second route has the first one's host name.
abbrev routes_read : List RouteEntry
routes_read = pool "a" "A" "a.com" ∷ pool "b" "B" "a.com" ∷ pool "c" "C" "c.com" ∷ fallback ∷ []

abbrev empty_service : GatewayService
empty_service = record {
  routes = [];
  default_route = none;
  health_checker = none;
  circuit_breaker = none;
  query_activity = record { queries = []; ttl = 600; gauges = λ _. 0 };
}

keeps_three :
    valid_routes plain_net routes_read nothing_seen
    ≡ (pool "a" "A" "a.com" ∷ pool "c" "C" "c.com" ∷ fallback ∷ [])
unfolding valid_routes validate is_loadable normalize_hostname lookup insert
keeps_three = refl

some_valid : no_route (valid_routes plain_net routes_read nothing_seen) ≡ false
unfolding valid_routes validate is_loadable normalize_hostname lookup insert
some_valid = refl

find_route-load_routes_example :
    find_route plain_net "c.com" "A" (load_routes plain_net (parsed routes_read) empty_service).0
    ≡ route_for plain_net "c.com" "A" (valid_routes plain_net routes_read nothing_seen)
find_route-load_routes_example =
    find_route-load_routes plain_net routes_read empty_service "c.com" "A" (inr some_valid)

empty_service-IsUsable : IsUsable empty_service
empty_service-IsUsable = record {
  table = λ k r e. unfold lookup in ground (arith, e);
  default_usable = λ r e. ground (arith, e);
}

abbrev ticks : List (Option String × Fetched)
ticks = (none, get_failed) ∷ (some "7", parsed routes_read) ∷ []

finds_c :
    find_route plain_net "c.com" "" (watch plain_net ticks ("", empty_service)).1
    ≡ some (pool "c" "C" "c.com")
unfolding find_route watch watch_tick load_routes install index_routes index_route default_of
    valid_routes validate is_loadable normalize_hostname lookup insert
finds_c = refl

find_route-watch_example : Usable (pool "c" "C" "c.com")
find_route-watch_example =
    find_route-watch plain_net ticks ("", empty_service) "c.com" "" (pool "c" "C" "c.com")
      empty_service-IsUsable finds_c

new_version : ◌≢◌ {A = String} "7" "6"
new_version = ground (arith, eq_iff "7" "6")

watch_not_retried_example :
    watch plain_net
      ((some "7", get_failed) ∷ (some "7", parsed routes_read) ∷ [])
      ("6", empty_service)
    ≡ ("7", empty_service)
watch_not_retried_example =
    watch_not_retried plain_net ((some "7", parsed routes_read) ∷ []) "7" "6" empty_service
      new_version (refl, tt)
