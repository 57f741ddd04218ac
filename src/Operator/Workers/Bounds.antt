-- ===== src/Operator/Workers/Bounds.antt =====
-- resolved.go, keda.go and xtrinode_gateway_keda.go: the bounds of the autoscaler in a wake window.
use xtrinode.Shared.{◌≡◌, true, arith, some, if◌then◌else◌}
use xtrinode.Shared.Int.{ℤ, pos, int_lt}
use xtrinode.Operator.Workers.{
  KedaTexts, has_trigger_error, WorkerSpec, is_keda_active, keda_counts, WorkerCounts,
  resolve_worker_counts, failed, bounds, enable_scaled_object_with_wake_min_workers, reconcile_keda,
  present, missing,
}

-- With KEDA active, a wake window open and the counts of the spec in order, an autoscaler that exists
-- gets the window's number of workers as its minimum, also where that is above its maximum, which is
-- the most that the cluster has. One that does not exist gets the same bounds if that number is not
-- above the maximum and its trigger can be built, and is not made otherwise.
pub reconcile_keda_window :
    (x : KedaTexts) (floor : ℤ) (spec : WorkerSpec) (c : WorkerCounts)
    → is_keda_active x.trim spec.keda ≡ true
    → int_lt (pos 0) floor ≡ true
    → resolve_worker_counts x.trim spec ≡ some c
    → (reconcile_keda x present floor spec ≡ bounds floor c.most)
      × (reconcile_keda x missing floor spec ≡ (
          if int_lt c.most floor
          then failed
          else if has_trigger_error x spec.keda
          then failed
          else bounds floor c.most))
unfolding reconcile_keda enable_scaled_object_with_wake_min_workers resolve_worker_counts
    keda_counts
reconcile_keda_window x floor spec c active window e = ground (arith, active, window, e)
