-- ===== src/Gateway/Select.antt =====
-- xtrinode/pkg/gateway/backend_selection.go: which backend a new query goes to. `net i` is what a
-- health probe of the i-th backend of the route meets during the call.
pub mod Capacity
pub mod Eligible
pub mod FailOpen
mod Examples
use xtrinode.Shared.{
  ℕ, zero, suc, ◌+◌, String, Bool, true, false, ◌&&◌, ◌||◌, not, ltb, ◌==◌, str_eq, if◌then◌else◌,
  Option, none, some, List, [], ◌∷◌,
}
use xtrinode.Shared.Int.{ℤ, non_positive, to_nat}
use xtrinode.Shared.Word.{add64, mul64, lt64}
use xtrinode.Shared.Dict.{Dict, lookup}
use xtrinode.Gateway.Health.{HealthChecker, is_healthy, is_sleeping, ProbeOutcome, probe_backend}
use xtrinode.Gateway.Breaker.{selectable}
use xtrinode.Gateway.Breaker.Manager.{Manager, get_or_create_breaker}
use xtrinode.Gateway.Proxy.{breaker_failure_threshold, breaker_success_threshold, breaker_timeout}
use xtrinode.Gateway.Activity.{BackendLoad, load_or_zero, backend_loads}
use xtrinode.Gateway.Route.{
  BackendState, unset, running, paused, resuming, draining, removed, other, Backend, RouteEntry,
  GatewayService,
}

-- `State == "" || State == StateRunning`.
abbrev pub is_running : BackendState → Bool
is_running unset = true
is_running running = true
is_running _ = false

abbrev pub healthy_or_unchecked : ℕ → String → Option HealthChecker → Bool
healthy_or_unchecked now url none = true
healthy_or_unchecked now url (some hc) = is_healthy now url hc

-- The breaker guard makes the backend's breaker, if there is none yet.
unfoldable pub breaker_passes : ℕ → String → Option Manager → Option Manager × Bool
breaker_passes now url none = (none, true)
breaker_passes now url (some m) =
    let (breaker, m') =
      get_or_create_breaker url breaker_failure_threshold breaker_success_threshold breaker_timeout
        m in
    (some m', selectable now breaker)

unfoldable pub backend_passes_runtime_guards : ℕ → String → GatewayService → GatewayService × Bool
unfolding breaker_passes
backend_passes_runtime_guards now url gs =
    let (breakers, passed) = breaker_passes now url gs.circuit_breaker in
    if healthy_or_unchecked now url gs.health_checker
    then (record gs { circuit_breaker = breakers }, passed)
    else (gs, false)

unfoldable pub is_backend_selectable : ℕ → Backend → GatewayService → GatewayService × Bool
unfolding backend_passes_runtime_guards
is_backend_selectable now b gs =
    if is_running b.state && b.active
    then backend_passes_runtime_guards now b.coordinator_url gs
    else (gs, false)

-- Whether a query that runs on the backend may go on there.
abbrev pub sticky_state_passes : BackendState → Bool → Bool
sticky_state_passes unset active = active
sticky_state_passes running active = active
sticky_state_passes draining active = true
sticky_state_passes _ active = false

unfoldable pub is_sticky_backend_routable : ℕ → Backend → GatewayService → GatewayService × Bool
unfolding backend_passes_runtime_guards
is_sticky_backend_routable now b gs =
    if sticky_state_passes b.state b.active
    then backend_passes_runtime_guards now b.coordinator_url gs
    else (gs, false)

-- The first loop of `selectBackend`: the backends that pass every guard.
unfoldable pub selectable_backends :
    ℕ → List Backend → GatewayService → GatewayService × List Backend
selectable_backends now [] gs = (gs, [])
selectable_backends now (b ∷ bs) gs =
    let (gs', passed) = is_backend_selectable now b gs in
    let (gs'', rest) = selectable_backends now bs gs' in (gs'', if passed then b ∷ rest else rest)

-- A backend that is marked sleeping is probed, and passes if it answers.
wakes : ℕ → String → ProbeOutcome → GatewayService → Option HealthChecker → GatewayService × Bool
wakes now url outcome gs none = (gs, true)
wakes now url outcome gs (some hc) =
    let (hc', answered) = probe_backend now url outcome hc in
    if is_sleeping now url hc
    then (record gs { health_checker = some hc' }, answered)
    else (gs, true)

-- Fail-open still respects the state, the active flag and fresh sleep.
unfoldable pub fail_open : ℕ → ProbeOutcome → Backend → GatewayService → GatewayService × Bool
unfolding wakes
fail_open now outcome b gs =
    if is_running b.state && b.active
    then wakes now b.coordinator_url outcome gs gs.health_checker
    else (gs, false)

-- The second loop of `selectBackend`.
unfoldable pub fail_open_backends :
    ℕ → (ℕ → ProbeOutcome) → ℕ → List Backend → GatewayService → GatewayService × List Backend
fail_open_backends now net i [] gs = (gs, [])
fail_open_backends now net i (b ∷ bs) gs =
    let (gs', passed) = fail_open now (net i) b gs in
    let (gs'', rest) = fail_open_backends now net (i + 1) bs gs' in
    (gs'', if passed then b ∷ rest else rest)

-- `load.RunningQueries + load.QueuedQueries`, and the capacity with its default of 1.
unfoldable pub total_load : Dict BackendLoad → Backend → ℕ
total_load loads b =
    let load = load_or_zero (lookup b.coordinator_url loads) in
    add64 load.running_queries load.queued_queries

unfoldable pub capacity_of : Backend → ℕ
capacity_of b = if non_positive b.capacity_units then 1 else to_nat b.capacity_units

pub record Best : Type 0 where
  pub selected : Backend
  pub min_load : ℕ
  pub min_capacity : ℕ

abbrev pub candidate : Dict BackendLoad → Backend → Best
candidate loads b = record {
  selected = b;
  min_load = total_load loads b;
  min_capacity = capacity_of b;
}

-- One round of the loop of `selectByCapacity`, once something is selected.
unfoldable pub prefer : Dict BackendLoad → Best → Backend → Best
prefer loads best b =
    let cross_a = mul64 (total_load loads b) best.min_capacity in
    let cross_b = mul64 best.min_load (capacity_of b) in
    if lt64 cross_a cross_b
    then candidate loads b
    else if cross_a == cross_b && ltb (capacity_of b) best.min_capacity
    then candidate loads b
    else best

unfoldable pub prefer_all : Dict BackendLoad → Best → List Backend → Best
prefer_all loads best [] = best
prefer_all loads best (b ∷ bs) = prefer_all loads (prefer loads best b) bs

unfoldable pub smallest_from : Backend → ℕ → List Backend → Backend
smallest_from selected min_capacity [] = selected
smallest_from selected min_capacity (b ∷ bs) =
    let smaller = ltb (capacity_of b) min_capacity in
    smallest_from (if smaller then b else selected)
      (if smaller then capacity_of b else min_capacity) bs

unfoldable pub select_smallest_capacity : List Backend → Option Backend
select_smallest_capacity [] = none
select_smallest_capacity (b ∷ bs) = some (smallest_from b (capacity_of b) bs)

unfoldable pub select_by_capacity : Dict BackendLoad → List Backend → Option Backend
select_by_capacity loads [] = select_smallest_capacity []
select_by_capacity loads (b ∷ bs) = some (prefer_all loads (candidate loads b) bs).selected

unfoldable pub has_load_data : Dict BackendLoad → List Backend → Bool
has_load_data loads [] = false
has_load_data loads (b ∷ bs) = lt64 0 (total_load loads b) || has_load_data loads bs

abbrev pub is_empty : List Backend → Bool
is_empty [] = true
is_empty _ = false

-- The backends that `selectBackend` chooses from.
unfoldable pub active_backends :
    ℕ → (ℕ → ProbeOutcome) → List Backend → GatewayService → GatewayService × List Backend
active_backends now net bs gs =
    let (gs', passing) = selectable_backends now bs gs in
    if is_empty passing then fail_open_backends now net 0 bs gs' else (gs', passing)

unfoldable pub choose : ℕ → List Backend → GatewayService → GatewayService × Option Backend
choose now [] gs = (gs, none)
choose now (b ∷ bs) gs =
    let (tracker, loads) = backend_loads now gs.query_activity in
    (
      record gs { query_activity = tracker },
      if has_load_data loads (b ∷ bs)
          then select_by_capacity loads (b ∷ bs)
          else select_smallest_capacity (b ∷ bs),
    )

unfoldable pub select_backend :
    ℕ → (ℕ → ProbeOutcome) → RouteEntry → GatewayService → GatewayService × Option Backend
select_backend now net route gs =
    let (gs', candidates) = active_backends now net route.backends gs in
    if is_empty route.backends then (gs, none) else choose now candidates gs'
