-- ===== src/ApiServer.antt =====
-- The API server, xtrinode/pkg/api-server.
pub mod Calls
pub mod Lease
pub mod LeaseName
pub mod Resume
