-- ===== src/Gateway/Registry/Identity.antt =====
-- gateway.go and helpers.go: the registration that a custom resource stands for.
use xtrinode.Shared.{
  String, Bool, true, false, ◌||◌, not, str_eq, if◌then◌else◌, Option, none, some,
}
use xtrinode.Shared.Int.{ℤ}
use xtrinode.Shared.Prefix.{prefixed}
use xtrinode.Gateway.Route.{BackendState, running, paused, resuming}
use xtrinode.Gateway.RouteTable.{given}
use xtrinode.Gateway.Registry.{Registration}

-- The routing part of the custom resource, with the value that its header specification stands for.
pub record RoutingSpec : Type 0 where
  pub routing_group : String
  pub hostname : String
  pub hostname_domain : String
  pub header_value : String
  pub is_default : Bool

-- The custom resource, with the coordinator's address and the resolved shape that it stands for.
pub record Runtime : Type 0 where
  pub name : String
  pub namespace : String
  pub suspended : Bool
  pub phase : String
  pub routing : Option RoutingSpec
  pub coordinator_url : String
  pub tier : String
  pub capacity_units : ℤ
  pub runtime_shape_hash : String
  pub generation : ℤ

unfoldable pub default_dedicated_routing_group : String → String → String
default_dedicated_routing_group namespace name =
    if str_eq namespace "" then name else prefixed (prefixed namespace "--") name

explicit_group : Option RoutingSpec → String
explicit_group none = ""
explicit_group (some spec) = spec.routing_group

unfoldable pub extract_routing_group : Runtime → String
unfolding explicit_group
extract_routing_group x =
    if given (explicit_group x.routing)
    then explicit_group x.routing
    else default_dedicated_routing_group x.namespace x.name

unfoldable pub is_dedicated_routing_group : Runtime → String → Bool
unfolding explicit_group
is_dedicated_routing_group x group =
    not (given (explicit_group x.routing))
    || str_eq group (default_dedicated_routing_group x.namespace x.name)

hostname_of : String → Option RoutingSpec → String
hostname_of group none = ""
hostname_of group (some spec) =
    if given spec.hostname
    then spec.hostname
    else if given spec.hostname_domain
    then prefixed (prefixed group ".") spec.hostname_domain
    else ""

unfoldable pub build_hostname : Runtime → String
unfolding hostname_of
build_hostname x = hostname_of (extract_routing_group x) x.routing

unfoldable pub compute_backend_state : Bool → String → BackendState
compute_backend_state suspended phase =
    if suspended
    then paused
    else if str_eq phase "Suspended"
    then paused
    else if str_eq phase "Reconciling"
    then resuming
    else if str_eq phase "Ready"
    then running
    else if str_eq phase "Error"
    then paused
    else resuming

abbrev pub header_of : Option RoutingSpec → String
header_of none = ""
header_of (some spec) = spec.header_value

abbrev pub default_of_spec : Option RoutingSpec → Bool
default_of_spec none = false
default_of_spec (some spec) = spec.is_default

unfoldable pub registration_of : Runtime → Registration
registration_of x = record {
  routing_group = extract_routing_group x;
  hostname = build_hostname x;
  header = header_of x.routing;
  is_default = default_of_spec x.routing;
  dedicated = is_dedicated_routing_group x (extract_routing_group x);
  backend = record {
    name = x.name;
    namespace = x.namespace;
    coordinator_url = x.coordinator_url;
    state = compute_backend_state x.suspended x.phase;
    active = true;
    tier = x.tier;
    capacity_units = x.capacity_units;
    runtime_shape_version = "v1";
    runtime_shape_hash = x.runtime_shape_hash;
    observed_generation = x.generation;
    drain_until = "";
  };
}
