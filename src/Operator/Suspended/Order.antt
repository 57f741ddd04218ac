-- ===== src/Operator/Suspended/Order.antt =====
-- xtrinode_suspend.go: no autoscaler is left when a suspended cluster is scaled to zero.
use xtrinode.Shared.{
  String, Bool-cases, ◌≡◌, refl, ◌&&◌, Bool, true, false, arith, if◌then◌else◌, inl, inr,
}
use xtrinode.Shared.Int.{ℤ, pos}
use xtrinode.Operator.Workers.{is_keda_active, int_or}
use xtrinode.Operator.Suspended.{
  Cluster, Calls, Objects, Enforced, enforced, ensure_suspended_invariants, get_invariants,
  get_suspended_invariants, from_native_hpa, suspended_min_nodes, disable_keda, is_ok, is_done,
  keda_disable_failed, native_hpa_delete_failed, scale_failed, Call,
}

-- None of the autoscalers is left: the native one, and KEDA's where the spec has it active.
pub record IsUnscaled (trim : String → String) (x : Cluster) (w : Objects) : Type 0 where
  pub no_hpa : w.native_hpa ≡ false
  pub no_keda : (is_keda_active trim x.workers.keda && w.scaled_object) ≡ false

pub record SameReplicas (w w' : Objects) : Type 0 where
  pub same_coordinator : w'.coordinator ≡ w.coordinator
  pub same_worker : w'.worker ≡ w.worker

pub record IsAtZero (w : Objects) : Type 0 where
  pub no_coordinator : int_or (pos 0) w.coordinator ≡ pos 0
  pub no_worker : int_or (pos 0) w.worker ≡ pos 0

-- The pool has the least number of nodes that it was asked for, if the call for it works.
abbrev pub pool_nodes : Calls → Cluster → Objects → ℤ
pool_nodes calls x w =
    if is_done calls.scale_node_pool_min_nodes
    then int_or w.pool_min_nodes (suspended_min_nodes x.node_pool)
    else w.pool_min_nodes

-- What each outcome says of the objects after the call.
unfoldable pub Ends : (String → String) → Calls → Cluster → Objects → Objects → Enforced → Type 0
Ends trim calls x w w' enforced =
    IsUnscaled trim x w' × IsAtZero w' × (w'.pool_min_nodes ≡ pool_nodes calls x w)
Ends trim calls x w w' scale_failed = IsUnscaled trim x w'
Ends trim calls x w w' keda_disable_failed = SameReplicas w w'
Ends trim calls x w w' native_hpa_delete_failed = SameReplicas w w'

from_native_hpa-Ends :
    (trim : String → String) (calls : Calls) (x : Cluster) (w w' : Objects)
    → SameReplicas w w'
    → w'.pool_min_nodes ≡ w.pool_min_nodes
    → (is_keda_active trim x.workers.keda && w'.scaled_object) ≡ false
    → let r = from_native_hpa calls (get_suspended_invariants x) w' in
      Ends trim calls x w r.objects r.outcome
unfolding Ends get_suspended_invariants
from_native_hpa-Ends trim calls x w w' s p k = ground (arith, s, p, k)

disable_keda-SameReplicas : (c : Call) (w : Objects) → SameReplicas w (disable_keda c w)
disable_keda-SameReplicas c w = record {
  same_coordinator = ground arith;
  same_worker = ground arith;
}

disable_keda-gone :
    (c : Call) (w : Objects) (on : Bool)
    → is_ok c ≡ true
    → (on && (disable_keda c w).scaled_object) ≡ false
disable_keda-gone c w on ok = ground (arith, ok)

disable_keda-nodes : (c : Call) (w : Objects) → (disable_keda c w).pool_min_nodes ≡ w.pool_min_nodes
disable_keda-nodes c w = ground arith

-- However the calls end, nothing is scaled before the autoscalers are gone: the native one, and that of
-- KEDA where the spec has KEDA active. If either cannot be taken away, the replicas of the deployments
-- are left as they were, and if the scaling fails, both are gone. If no failure is reported, both are
-- gone, the coordinator and the workers are at zero, and the pool has no least number of nodes if the
-- spec lets it go down and the call for that worked. Nothing is said of an object of KEDA that is left
-- over where the spec does not have KEDA active.
pub ensure_suspended_invariants-Ends :
    (trim : String → String) (calls : Calls) (x : Cluster) (w : Objects)
    → let r = ensure_suspended_invariants trim calls x w in Ends trim calls x w r.objects r.outcome
unfolding ensure_suspended_invariants get_invariants get_suspended_invariants Ends
ensure_suspended_invariants-Ends trim calls x w =
    elim (Bool-cases (is_keda_active trim x.workers.keda)) [
      | inl on ↦ elim (Bool-cases (is_ok calls.disable_scaled_object)) [
        | inl ok ↦
            rw (on, ok)
              (from_native_hpa-Ends trim calls x w (disable_keda calls.disable_scaled_object w)
                (disable_keda-SameReplicas calls.disable_scaled_object w)
                (disable_keda-nodes calls.disable_scaled_object w)
                (disable_keda-gone calls.disable_scaled_object w _ ok))
        | inr failed ↦ rw (on, failed) (disable_keda-SameReplicas calls.disable_scaled_object w)
      ]
      | inr off ↦ rw off (
          from_native_hpa-Ends trim calls x w w
            (record { same_coordinator = refl; same_worker = refl }) refl (ground (arith, off)))
    ]
