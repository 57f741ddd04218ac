-- ===== src/Gateway/Sticky.antt =====
-- xtrinode/pkg/gateway/sticky_backend.go: the backend that a running query is bound to. What the
-- sticky store answers is an argument.
pub mod Routable
mod Examples
use xtrinode.Shared.{
  ℕ, String, Bool, true, false, str_eq, if◌then◌else◌, Option, none, some, List, [], ◌∷◌,
}
use xtrinode.Shared.Dict.{Dict}
use xtrinode.Gateway.Route.{Backend, RouteEntry, GatewayService}
use xtrinode.Gateway.Select.{is_sticky_backend_routable}

pub record StickyBackendSelection : Type 0 where
  pub namespace : String
  pub name : String
  pub backend_url : String

abbrev pub or_backend : Option Backend → Option Backend → Option Backend
or_backend (some b) fallback = some b
or_backend none fallback = fallback

abbrev pub backend_at : String → List Backend → Option Backend
backend_at url [] = none
backend_at url (b ∷ bs) = if str_eq b.coordinator_url url then some b else backend_at url bs

abbrev pub backend_of_routes : String → Dict RouteEntry → Option Backend
backend_of_routes url [] = none
backend_of_routes url ((key, r) ∷ routes) =
    or_backend (backend_at url r.backends) (backend_of_routes url routes)

abbrev pub backend_of_default : String → Option RouteEntry → Option Backend
backend_of_default url none = none
backend_of_default url (some r) = backend_at url r.backends

unfoldable pub find_backend_by_coordinator_url : String → GatewayService → Option Backend
find_backend_by_coordinator_url url gs =
    or_backend (backend_of_routes url gs.routes) (backend_of_default url gs.default_route)

-- The service after the call, the selection, and whether the store was asked to delete the entry.
pub record Stuck : Type 0 where
  pub service : GatewayService
  pub selection : Option StickyBackendSelection
  pub invalidated : Bool

settle : StickyBackendSelection → GatewayService × Bool → Stuck
settle stored (gs, true) = record { service = gs; selection = some stored; invalidated = false }
settle stored (gs, false) = record { service = gs; selection = none; invalidated = true }

route_to : ℕ → StickyBackendSelection → Option Backend → GatewayService → Stuck
unfolding settle
route_to now stored none gs = record { service = gs; selection = none; invalidated = true }
route_to now stored (some b) gs = settle stored (is_sticky_backend_routable now b gs)

unfoldable pub sticky_backend_for_query : ℕ → Option StickyBackendSelection → GatewayService → Stuck
unfolding route_to
sticky_backend_for_query now none gs = record {
  service = gs;
  selection = none;
  invalidated = false;
}
sticky_backend_for_query now (some stored) gs =
    if str_eq stored.backend_url ""
    then record { service = gs; selection = none; invalidated = false }
    else route_to now stored (find_backend_by_coordinator_url stored.backend_url gs) gs
