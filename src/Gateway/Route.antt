-- ===== src/Gateway/Route.antt =====
-- xtrinode/pkg/gateway/gateway.go: backends, routes and the parts of the service that routing reads
-- and writes. `none` stands for a service without health checker, or without circuit breakers.
use xtrinode.Shared.{String, Bool, List, Option}
use xtrinode.Shared.Int.{ℤ}
use xtrinode.Shared.Dict.{Dict}
use xtrinode.Gateway.Health.{HealthChecker}
use xtrinode.Gateway.Breaker.Manager.{Manager}
use xtrinode.Gateway.Activity.{QueryActivityTracker}

-- `unset` is the empty string, `other` any string that is none of the constants.
pub data BackendState : Type 0 where
  unset running paused resuming draining removed : BackendState
  other : String → BackendState

pub record Backend : Type 0 where
  pub name : String
  pub namespace : String
  pub coordinator_url : String
  pub state : BackendState
  pub active : Bool
  pub tier : String
  pub capacity_units : ℤ
  pub runtime_shape_version : String
  pub runtime_shape_hash : String
  pub observed_generation : ℤ
  pub drain_until : String

pub record RouteEntry : Type 0 where
  pub name : String
  pub routing_group : String
  pub backends : List Backend
  pub header : String
  pub hostname : String
  pub is_default : Bool

-- The routes of the map are in the order of the map's iteration.
pub record GatewayService : Type 0 where
  pub routes : Dict RouteEntry
  pub default_route : Option RouteEntry
  pub health_checker : Option HealthChecker
  pub circuit_breaker : Option Manager
  pub query_activity : QueryActivityTracker
