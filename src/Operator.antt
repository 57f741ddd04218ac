-- ===== src/Operator.antt =====
-- The operator: the lifecycle of a cluster's custom resource, xtrinode/controllers and
-- xtrinode/internal/status.
pub mod AutoSuspend
pub mod Commands
pub mod Phase
pub mod Workers
pub mod Suspended
