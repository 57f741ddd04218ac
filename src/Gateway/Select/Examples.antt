-- ===== src/Gateway/Select/Examples.antt =====
-- Backend selection's theorems at concrete inputs.
use xtrinode.Shared.{
  ℕ, ◌≡◌, refl, true, [], ◌∷◌, none, some, arith, here, there, Member, All, String,
}
use xtrinode.Shared.Int.{pos}
use xtrinode.Shared.Dict.{lookup, Dict, insert}
use xtrinode.Gateway.Health.{ProbeOutcome, answered}
use xtrinode.Gateway.Activity.{backend_loads, add_loads, BackendLoad}
use xtrinode.Gateway.Route.{Backend, BackendState, running, paused, RouteEntry, GatewayService}
use xtrinode.Shared.Word.{add64, mul64, lt64}
use xtrinode.Gateway.Breaker.{selectable, new_breaker}
use xtrinode.Gateway.Breaker.Manager.{get_or_create_breaker}
use xtrinode.Gateway.Select.{
  select_backend, choose, active_backends, selectable_backends, is_backend_selectable,
  has_load_data, smallest_from, prefer_all, prefer, select_by_capacity, select_smallest_capacity,
  total_load, capacity_of,
}
use xtrinode.Gateway.Select.Capacity.{Preferred, select_by_capacity-Preferred}
use xtrinode.Gateway.Select.Eligible.{IsOpen, select_backend-IsOpen}
use xtrinode.Gateway.Select.FailOpen.{select_backend_found}

abbrev backend : String → String → BackendState → ℕ → Backend
backend name url state capacity = record {
  name = name;
  namespace = "ns";
  coordinator_url = url;
  state = state;
  active = true;
  tier = "s";
  capacity_units = pos capacity;
  runtime_shape_version = "";
  runtime_shape_hash = "";
  observed_generation = pos 1;
  drain_until = "";
}

abbrev small : Backend
small = backend "small" "http://s" running 1

abbrev large : Backend
large = backend "large" "http://l" running 4

abbrev asleep : Backend
asleep = backend "asleep" "http://z" paused 2

abbrev pool : RouteEntry
pool = record {
  name = "pool";
  routing_group = "pool";
  backends = asleep ∷ large ∷ small ∷ [];
  header = "";
  hostname = "";
  is_default = true;
}

abbrev plain : GatewayService
plain = record {
  routes = [];
  default_route = some pool;
  health_checker = none;
  circuit_breaker = some [];
  query_activity = record { queries = []; ttl = 600; gauges = λ _. 0 };
}

abbrev net : ℕ → ProbeOutcome
net i = answered 200

-- The small backend runs two queries, the large one three.
abbrev loads : Dict BackendLoad
loads =
    ("http://s", record { running_queries = 1; queued_queries = 1; last_update = 0 })
    ∷ ("http://l", record { running_queries = 3; queued_queries = 0; last_update = 0 })
    ∷ []

picks_small : (select_backend 5 net pool plain).1 ≡ some small
unfolding select_backend choose active_backends selectable_backends is_backend_selectable
    get_or_create_breaker selectable new_breaker lookup insert backend_loads add_loads has_load_data
    total_load add64 lt64 select_smallest_capacity smallest_from capacity_of
picks_small = refl

select_backend-IsOpen_example : Member small pool.backends × IsOpen small
select_backend-IsOpen_example = select_backend-IsOpen 5 net pool plain small picks_small

select_backend_found_example : (r : Backend) × ((select_backend 5 net pool plain).1 ≡ some r)
select_backend_found_example =
    select_backend_found 5 net pool plain large (there here) (refl, refl) tt

select_by_capacity-Preferred_example :
    (r : Backend) × (select_by_capacity loads (small ∷ large ∷ []) ≡ some r)
    × Member r (small ∷ large ∷ [])
    × All (Preferred loads r) (small ∷ large ∷ [])
unfolding total_load capacity_of add64 lookup
select_by_capacity-Preferred_example =
    select_by_capacity-Preferred loads small (large ∷ []) (omega arith)

spills : select_by_capacity loads (small ∷ large ∷ []) ≡ some large
unfolding select_by_capacity prefer_all prefer total_load capacity_of mul64 lt64 add64 lookup
spills = refl
