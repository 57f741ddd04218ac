-- ===== src/Operator/Suspended.antt =====
-- xtrinode/internal/status/invariants.go: what each phase asks of the objects of a cluster; and
-- ensureSuspendedInvariants of xtrinode/controllers/xtrinode_suspend.go, which brings a suspended
-- cluster there by calls of the Kubernetes API, with scaleDeployments of
-- xtrinode/controllers/xtrinode_scale.go. Conditions, events and metrics are not modelled.
pub mod Order
mod Examples
use xtrinode.Shared.{
  String, Bool, true, false, ◌&&◌, not, str_eq, if◌then◌else◌, Option, none, some,
}
use xtrinode.Shared.Int.{ℤ, pos}
use xtrinode.Operator.Phase.{
  Phase, phase_suspended, phase_ready, phase_suspending, phase_resuming, phase_reconciling,
}
use xtrinode.Operator.Workers.{WorkerSpec, KedaSpec, is_keda_active, int_or}

pub record NodePoolSpec : Type 0 where
  pub scale_down_on_suspend : Option Bool
  pub min_nodes : Option ℤ

-- `wake_floor` is the number of workers of an open wake window, `none` without one.
pub record Cluster : Type 0 where
  pub workers : WorkerSpec
  pub wake_floor : Option ℤ
  pub node_pool : Option NodePoolSpec

pub record PhaseInvariants : Type 0 where
  pub keda_enabled : Bool
  pub keda_min_replicas : ℤ
  pub keda_max_replicas : ℤ
  pub coord_replicas : ℤ
  pub min_worker_replicas : ℤ
  pub node_pool_min_nodes : Option ℤ
  pub gateway_enabled : Bool

abbrev no_invariants : PhaseInvariants
no_invariants = record {
  keda_enabled = false;
  keda_min_replicas = pos 0;
  keda_max_replicas = pos 0;
  coord_replicas = pos 0;
  min_worker_replicas = pos 0;
  node_pool_min_nodes = none;
  gateway_enabled = false;
}

abbrev pub bool_or : Bool → Option Bool → Bool
bool_or default none = default
bool_or default (some b) = b

abbrev pub suspended_min_nodes : Option NodePoolSpec → Option ℤ
suspended_min_nodes none = none
suspended_min_nodes (some pool) =
    if bool_or true pool.scale_down_on_suspend then some (pos 0) else none

unfoldable pub get_suspended_invariants : Cluster → PhaseInvariants
get_suspended_invariants x = record no_invariants {
  node_pool_min_nodes = suspended_min_nodes x.node_pool;
  gateway_enabled = true;
}

-- The package's own isKEDAEnabled, which does not trim.
abbrev pub is_keda_enabled : Option KedaSpec → Bool
is_keda_enabled k = is_keda_active (λ s. s) k

abbrev pub spec_min_nodes : Option NodePoolSpec → Option ℤ
spec_min_nodes none = none
spec_min_nodes (some pool) = pool.min_nodes

unfoldable pub get_ready_invariants : Cluster → PhaseInvariants
get_ready_invariants x =
    let on = is_keda_enabled x.workers.keda in
    record {
      keda_enabled = on;
      keda_min_replicas = if on then int_or (pos 0) x.wake_floor else pos 0;
      keda_max_replicas = if on then int_or (pos 10) x.workers.max_workers else pos 0;
      coord_replicas = pos 1;
      min_worker_replicas = if on then pos 0 else int_or (pos 0) x.workers.max_workers;
      node_pool_min_nodes = spec_min_nodes x.node_pool;
      gateway_enabled = true;
    }

unfoldable pub get_invariants : Phase → Cluster → PhaseInvariants
get_invariants phase x =
    if str_eq phase phase_suspended
    then get_suspended_invariants x
    else if str_eq phase phase_ready
    then get_ready_invariants x
    else if str_eq phase phase_suspending
    then get_suspended_invariants x
    else if str_eq phase phase_resuming
    then get_ready_invariants x
    else if str_eq phase phase_reconciling
    then get_ready_invariants x
    else no_invariants

-- How a call ends: it works, it is refused, or it works and an error comes back. A call that finds no
-- object is one that works.
pub data Call : Type 0 where
  works refused unheard : Call

abbrev pub is_done : Call → Bool
is_done refused = false
is_done _ = true

abbrev pub is_ok : Call → Bool
is_ok works = true
is_ok _ = false

pub record Calls : Type 0 where
  pub disable_scaled_object : Call
  pub delete_native_hpa : Call
  pub scale_coordinator : Call
  pub scale_workers : Call
  pub scale_node_pool_min_nodes : Call

-- The objects of a cluster: whether its autoscalers are there, the replicas of its deployments, and
-- the least number of nodes of its pool.
pub record Objects : Type 0 where
  pub scaled_object : Bool
  pub native_hpa : Bool
  pub coordinator : Option ℤ
  pub worker : Option ℤ
  pub pool_min_nodes : ℤ

abbrev pub scale_deployment : Call → ℤ → Option ℤ → Option ℤ
scale_deployment c n none = none
scale_deployment c n (some old) = if is_done c then some n else some old

-- The objects, and whether no error came back.
abbrev pub scale_deployments : Calls → ℤ → ℤ → Objects → Objects × Bool
scale_deployments calls coord_replicas worker_replicas w =
    let scaled = record w {
      coordinator = scale_deployment calls.scale_coordinator coord_replicas w.coordinator;
    } in
    if not (is_ok calls.scale_coordinator) then (scaled, false) else (
      record scaled { worker = scale_deployment calls.scale_workers worker_replicas w.worker },
      is_ok calls.scale_workers,
    )

abbrev pub scale_pool : Call → Option ℤ → Objects → Objects
scale_pool c none w = w
scale_pool c (some n) w = if is_done c then record w { pool_min_nodes = n } else w

pub data Enforced : Type 0 where
  enforced keda_disable_failed native_hpa_delete_failed scale_failed : Enforced

pub record Run : Type 0 where
  pub objects : Objects
  pub outcome : Enforced

abbrev pub ended : Objects → Enforced → Run
ended w e = record { objects = w; outcome = e }

abbrev pub then_scale_pool : Calls → PhaseInvariants → Objects × Bool → Run
then_scale_pool calls inv (w, false) = ended w scale_failed
then_scale_pool calls inv (w, true) =
    ended (scale_pool calls.scale_node_pool_min_nodes inv.node_pool_min_nodes w) enforced

abbrev pub delete_hpa : Call → Objects → Objects
delete_hpa c w = if is_done c then record w { native_hpa = false } else w

abbrev pub from_native_hpa : Calls → PhaseInvariants → Objects → Run
from_native_hpa calls inv w =
    let rest = delete_hpa calls.delete_native_hpa w in
    if not (is_ok calls.delete_native_hpa)
    then ended rest native_hpa_delete_failed
    else then_scale_pool calls inv
        (scale_deployments calls inv.coord_replicas inv.min_worker_replicas rest)

abbrev pub disable_keda : Call → Objects → Objects
disable_keda c w = if is_done c then record w { scaled_object = false } else w

unfoldable pub ensure_suspended_invariants : (String → String) → Calls → Cluster → Objects → Run
ensure_suspended_invariants trim calls x w =
    let inv = get_invariants phase_suspended x in
    if is_keda_active trim x.workers.keda && not inv.keda_enabled
    then (let rest = disable_keda calls.disable_scaled_object w in
        if not (is_ok calls.disable_scaled_object)
        then ended rest keda_disable_failed
        else from_native_hpa calls inv rest)
    else from_native_hpa calls inv w
