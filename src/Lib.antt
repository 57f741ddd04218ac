-- ===== src/Lib.antt =====
-- A verification library for XTrinode, a control plane for Trino clusters: a gateway that routes
-- queries, an API server that wakes and suspends clusters, and a Kubernetes operator that runs
-- them. This library models the gateway's decisions, the operator's lifecycle commands and phases
-- and the API server's leases, each component with the state that it keeps.
--
-- The parts, and the files that model them. Source paths are from the repository's root.
--
-- * Gateway/Breaker.antt models xtrinode/pkg/gateway/circuitbreaker.go: CircuitBreaker is the
--   struct of that name, and allow, record_success, record_overload, record_failure,
--   record_proxy_failure and selectable are its methods. Breaker/Manager.antt has
--   GetOrCreateBreaker, and a call through the pointer that it hands out.
-- * Gateway/Proxy.antt models the guard of xtrinode/pkg/gateway/retry.go and the accounting of
--   answers and errors in xtrinode/pkg/gateway/request_handler.go, on the manager's map.
-- * Gateway/RateLimit models xtrinode/pkg/gateway/ratelimit.go: Bucket the TokenBucket, Limiter
--   the map of buckets and its clean-up, Redis the Lua script of the distributed limiter.
-- * Gateway/Health.antt models the table of xtrinode/pkg/gateway/health.go, with recordSuccess,
--   recordFailure, recordSleeping, resetSleeping, probeBackend and the readers.
-- * Gateway/Activity.antt models xtrinode/pkg/gateway/query_activity.go, and
--   Gateway/QueryState.antt the query states of xtrinode/internal/trino/querystate/querystate.go.
-- * Gateway/Route.antt has the backends and routes of xtrinode/pkg/gateway/gateway.go, and the
--   parts of the service that routing reads and writes.
-- * Gateway/RouteTable.antt models loadRoutes, isLoadableRoute, findRoute and a tick of
--   watchRoutes, of xtrinode/pkg/gateway/route_cache.go, and normalizeHostname of
--   xtrinode/pkg/gateway/helpers.go. A load resets the sleeping entries of the health table.
-- * Gateway/Registry.antt models how the operator writes the routes that the table loads, of
--   xtrinode/pkg/gateway/gateway.go and xtrinode/pkg/gateway/helpers.go: RegisterRoute,
--   DrainRoute and DeregisterRoute on parsed routes. Registry/Identity.antt has the registration
--   that a custom resource stands for.
-- * Gateway/Select.antt models selectBackend and its helpers, of
--   xtrinode/pkg/gateway/backend_selection.go. It reads the health table, the breakers and the
--   loads of the components above, and writes what they write: a breaker that is made on the way,
--   the outcome of a probe, expired queries.
-- * Gateway/Resume.antt models xtrinode/pkg/gateway/resume_candidate.go.
-- * Gateway/Sticky.antt models xtrinode/pkg/gateway/sticky_backend.go: the backend that a running
--   query is bound to, with the guards of Gateway/Select.antt.
-- * Operator/Commands.antt models xtrinode/controllers/commands.go: the commands that come as
--   annotations of the custom resource, from their detection to what is written.
-- * Operator/Phase.antt models the phases and their transitions, of
--   xtrinode/internal/status/phases.go.
-- * ApiServer/Lease.antt models the lease manager of xtrinode/pkg/api-server/lease.go: acquiring
--   and releasing the lease that lets one resume or suspend through at a time.
-- * ApiServer/LeaseName.antt models the names of leases, makeLeaseNameFromKey and sanitizeDNS1123
--   of xtrinode/pkg/api-server/lease.go.
-- * ApiServer/Resume.antt models handleUnifiedResume of xtrinode/pkg/api-server/resume.go: the
--   gate of a pool and that of a cluster, on the lease manager, and the choice of the cluster
--   that is woken.
-- * ApiServer/Calls.antt models resumeRuntime and suspendRuntime of
--   xtrinode/pkg/api-server/server.go and triggerResume of xtrinode/pkg/api-server/resume.go: the
--   annotations that Operator/Commands.antt reads. Calls/Asked.antt and Calls/Wakes.antt follow a
--   request from the call to the operator.
-- * Operator/AutoSuspend.antt models xtrinode/internal/autosuspend/autosuspend.go:
--   CheckAutoSuspend, the scan of the history of queries and AutoSuspendIfNeeded, whose request
--   Operator/Commands.antt reads. AutoSuspend/Window.antt has the wake window of
--   xtrinode/controllers/xtrinode_resume.go and
--   xtrinode/controllers/xtrinode_wake_autosuspend.go.
-- * Retry.antt models OnConflict and OnConflictWithRefresh of xtrinode/internal/retry/retry.go,
--   over a loop that is given with the documented behaviour of the library's.
-- * Digest.antt models the digests of ConfigMaps and Secrets of
--   xtrinode/internal/digest/digest.go, up to the hash.
-- * Operator/Workers.antt models the worker counts and capacity units of
--   xtrinode/internal/runtimeshape/resolved.go, and the bounds that
--   xtrinode/controllers/xtrinode_gateway_keda.go and xtrinode/internal/keda/keda.go give the
--   autoscaler.
-- * Operator/Suspended.antt models xtrinode/internal/status/invariants.go and
--   ensureSuspendedInvariants of xtrinode/controllers/xtrinode_suspend.go, with scaleDeployments
--   of xtrinode/controllers/xtrinode_scale.go, over calls of the Kubernetes API that may fail.
-- * Shared and its children have the numbers, texts, lists, maps and the one-pass choice of a
--   best entry that the parts share.
--
-- How the code is read. A method that mutates its receiver returns the new record; a map is an
-- association list with distinct keys; a call that holds a lock is one step, so concurrent calls
-- are a sequence of steps in any order. Times and durations are natural numbers of nanoseconds,
-- and the clock that a call reads is its argument; it does not go back, as Go's monotonic clock
-- does not. Counters of Go's type int are natural numbers, since each call adds one. The products
-- and sums that compare loads wrap at 64 bits. No loop takes fuel: each is a recursion over a
-- list.
--
-- What is outside. HTTP, the Kubernetes API, Redis, YAML and the strings package are not
-- modelled: an outcome of such a call is an argument. Logging is left out, and of the metrics
-- only the gauge of queries in flight is kept. Of the operator its commands, its phases, its
-- auto-suspend with the wake window, its worker counts with the bounds of the autoscaler, the
-- enforcing of a suspension, its digests and its retries are modelled, and of the API server its
-- leases and the calls that wake and suspend.
pub mod Shared
pub mod Gateway
pub mod Operator
pub mod ApiServer
pub mod Retry
pub mod Digest
