-- ===== src/Gateway/Sticky/Examples.antt =====
-- The sticky backend's theorems at a table whose one backend is draining.
use xtrinode.Shared.{String, ◌≡◌, ◌≢◌, refl, true, false, arith, [], ◌∷◌, eq_iff, none, some}
use xtrinode.Shared.Int.{pos}
use xtrinode.Gateway.Route.{Backend, draining, RouteEntry, GatewayService}
use xtrinode.Gateway.Select.{is_sticky_backend_routable}
use xtrinode.Gateway.Sticky.{
  StickyBackendSelection, find_backend_by_coordinator_url, sticky_backend_for_query,
}
use xtrinode.Gateway.Sticky.Routable.{IsKnown, MayGoOn, sticky_backend_for_query-MayGoOn}

abbrev drained : Backend
drained = record {
  name = "x";
  namespace = "ns";
  coordinator_url = "http://x";
  state = draining;
  active = false;
  tier = "s";
  capacity_units = pos 1;
  runtime_shape_version = "";
  runtime_shape_hash = "";
  observed_generation = pos 1;
  drain_until = "";
}

abbrev only_default : RouteEntry
only_default = record {
  name = "d";
  routing_group = "";
  backends = drained ∷ [];
  header = "";
  hostname = "";
  is_default = true;
}

abbrev draining_service : GatewayService
draining_service = record {
  routes = [];
  default_route = some only_default;
  health_checker = none;
  circuit_breaker = none;
  query_activity = record { queries = []; ttl = 600; gauges = λ _. 0 };
}

abbrev bound : StickyBackendSelection
bound = record { namespace = "ns"; name = "x"; backend_url = "http://x" }

goes_on : (sticky_backend_for_query 5 (some bound) draining_service).selection ≡ some bound
unfolding sticky_backend_for_query find_backend_by_coordinator_url is_sticky_backend_routable
goes_on = refl

sticky_backend_for_query-MayGoOn_example :
    (bound ≡ bound) × (b : Backend) × IsKnown "http://x" draining_service b × MayGoOn b
sticky_backend_for_query-MayGoOn_example =
    sticky_backend_for_query-MayGoOn 5 bound draining_service bound goes_on

x_given : ◌≢◌ {A = String} "http://x" ""
x_given = ground (arith, eq_iff "http://x" "")
