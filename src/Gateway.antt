-- ===== src/Gateway.antt =====
-- The query gateway, xtrinode/pkg/gateway: admission, health, circuit breaking and routing.
pub mod Breaker
pub mod Proxy
pub mod RateLimit
pub mod Health
pub mod QueryState
pub mod Activity
pub mod Route
pub mod Select
pub mod Resume
pub mod RouteTable
pub mod Sticky
pub mod Registry
