-- ===== src/Gateway/Registry/Examples.antt =====
-- The registration theorems at concrete routes, with host names that are in lower case and have no
-- port.
use xtrinode.Shared.{
  ℕ, String, ◌≡◌, refl, true, false, arith, List, [], ◌∷◌, none, some, All, Member, here, inl,
}
use xtrinode.Shared.Int.{pos}
use xtrinode.Shared.Dict.{lookup}
use xtrinode.Gateway.Health.{answered, ProbeOutcome}
use xtrinode.Shared.Word.{lt64, add64}
use xtrinode.Gateway.Activity.{backend_loads, add_loads}
use xtrinode.Gateway.Select.{
  select_backend, choose, active_backends, selectable_backends, is_backend_selectable,
  has_load_data, total_load, select_smallest_capacity, smallest_from,
}
use xtrinode.Gateway.Route.{Backend, running, draining, RouteEntry, GatewayService}
use xtrinode.Gateway.RouteTable.{Net, normalize_hostname, is_loadable, nothing_seen, valid_routes}
use xtrinode.Gateway.RouteTable.Complete.{ShareNothing}
use xtrinode.Gateway.Registry.Preserve.{IsSound, AllLoadable, register_route-valid_routes}
use xtrinode.Gateway.Registry.Remove.{Lacks, deregister_route-register_route}
use xtrinode.Gateway.Registry.Drain.{select_backend-set_backend_draining_all_routes}
use xtrinode.Gateway.Registry.{
  Registration, register_route, deregister_route, done, refused, is_backend, header_conflict,
  exclusivity_violated, set_backend_draining_all_routes, drain_backends, drain_backend,
  validate_route_uniqueness, remove_backend_from_other_routes, filter_backend_from_routes,
  without_backend, update_or_append, create_route_entry, update_backend_in_route, has_backend,
}

abbrev plain_net : Net
plain_net = record { to_lower = λ s. s; split_host_port = λ s. none }

abbrev coordinator : String → Backend
coordinator name = record {
  name = name;
  namespace = "ns";
  coordinator_url = "http://x";
  state = running;
  active = true;
  tier = "s";
  capacity_units = pos 1;
  runtime_shape_version = "v1";
  runtime_shape_hash = "";
  observed_generation = pos 1;
  drain_until = "";
}

abbrev route : String → String → List Backend → RouteEntry
route group header bs = record {
  name = group;
  routing_group = group;
  backends = bs;
  header = header;
  hostname = "";
  is_default = false;
}

abbrev table : List RouteEntry
table = route "a" "A" (coordinator "x" ∷ coordinator "y" ∷ []) ∷ []

abbrev brings : String → String → Registration
brings group header = record {
  routing_group = group;
  hostname = "";
  header = header;
  is_default = false;
  dedicated = false;
  backend = coordinator "z";
}

abbrev with_new_route : List RouteEntry
with_new_route =
    route "a" "A" (coordinator "x" ∷ coordinator "y" ∷ [])
    ∷ route "b" "B" (coordinator "z" ∷ [])
    ∷ []

accepted : register_route plain_net (brings "b" "B") table ≡ done with_new_route
unfolding register_route validate_route_uniqueness remove_backend_from_other_routes
    filter_backend_from_routes without_backend update_or_append create_route_entry
accepted = refl

taken_header : register_route plain_net (brings "b" "A") table ≡ refused header_conflict
unfolding register_route validate_route_uniqueness remove_backend_from_other_routes
    filter_backend_from_routes without_backend update_or_append
taken_header = refl

not_exclusive :
    register_route plain_net (record (brings "a" "") { dedicated = true }) table
    ≡ refused exclusivity_violated
unfolding register_route validate_route_uniqueness remove_backend_from_other_routes
    filter_backend_from_routes without_backend update_or_append update_backend_in_route has_backend
not_exclusive = refl

table-ShareNothing : ShareNothing plain_net table
table-ShareNothing = record {
  groups = λ k. ground arith;
  hostnames = λ h. ground arith;
  headers = λ x. ground arith;
}

new_route-IsSound : IsSound plain_net (brings "b" "B")
unfolding normalize_hostname
new_route-IsSound = record { group = refl; backend = refl; hostname = λ g. ground (arith, g) }

table-AllLoadable : AllLoadable table
unfolding is_loadable
table-AllLoadable = (refl, tt)

register_route-valid_routes_example :
    AllLoadable with_new_route
    × ShareNothing plain_net with_new_route
    × (valid_routes plain_net with_new_route nothing_seen ≡ with_new_route)
register_route-valid_routes_example =
    register_route-valid_routes plain_net (brings "b" "B") table with_new_route new_route-IsSound
      table-AllLoadable table-ShareNothing accepted

table-Lacks : All (Lacks "z" "ns") table
unfolding has_backend
table-Lacks = (refl, tt)

deregister_route-register_route_example : deregister_route "z" "ns" with_new_route ≡ table
deregister_route-register_route_example =
    deregister_route-register_route plain_net (brings "b" "B") table with_new_route refl table-Lacks
      (refl, tt) (inl refl) accepted

abbrev no_guards : GatewayService
no_guards = record {
  routes = [];
  default_route = none;
  health_checker = none;
  circuit_breaker = none;
  query_activity = record { queries = []; ttl = 600; gauges = λ _. 0 };
}

abbrev drained_route : RouteEntry
drained_route = route "a" "A" (
    record (coordinator "x") {
      state = draining;
      drain_until = "2026-01-01T00:00:00Z";
      active = false;
    }
    ∷ coordinator "y"
    ∷ [])

drains :
    set_backend_draining_all_routes "x" "ns" "2026-01-01T00:00:00Z" table ≡ (drained_route ∷ [])
unfolding set_backend_draining_all_routes drain_backends drain_backend
drains = refl

is_drained_route :
    Member drained_route (set_backend_draining_all_routes "x" "ns" "2026-01-01T00:00:00Z" table)
is_drained_route = rw drains here

all_answer : ℕ → ProbeOutcome
all_answer i = answered 200

picks_other : (select_backend 0 all_answer drained_route no_guards).1 ≡ some (coordinator "y")
unfolding select_backend choose active_backends selectable_backends is_backend_selectable
    has_load_data lt64 total_load add64 lookup backend_loads add_loads select_smallest_capacity
    smallest_from
picks_other = refl

select_backend-set_backend_draining_all_routes_example :
    is_backend "x" "ns" (coordinator "y") ≡ false
select_backend-set_backend_draining_all_routes_example =
    select_backend-set_backend_draining_all_routes "x" "ns" "2026-01-01T00:00:00Z" table
      drained_route 0 all_answer no_guards (coordinator "y") refl is_drained_route picks_other
