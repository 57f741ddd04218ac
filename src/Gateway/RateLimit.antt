-- ===== src/Gateway/RateLimit.antt =====
-- xtrinode/pkg/gateway/ratelimit.go: the token bucket of one client, the limiter's map of buckets,
-- and the Lua script of the distributed limiter.
-- Times and durations are nanoseconds, read from a clock that does not go back, over less than
-- 2^62 ns; a negative capacity acts as 0 does.
pub mod Bucket
pub mod Bound
pub mod Limiter
pub mod Redis
mod Examples
