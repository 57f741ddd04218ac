-- ===== src/Operator/Suspended/Examples.antt =====
-- Runs of ensureSuspendedInvariants, and of the invariants of a ready cluster.
use xtrinode.Shared.{String, ◌≡◌, refl, true, false, none, some}
use xtrinode.Shared.Int.{pos}
use xtrinode.Operator.Phase.{phase_ready}
use xtrinode.Operator.Workers.{is_keda_active, has_keda_metric_config, keda_counts, keda}
use xtrinode.Operator.Suspended.{
  Cluster, Calls, Objects, works, unheard, ended, enforced, keda_disable_failed,
  ensure_suspended_invariants, get_invariants, get_suspended_invariants, get_ready_invariants,
}
use xtrinode.Operator.Suspended.Order.{Ends, ensure_suspended_invariants-Ends}

abbrev no_trim : String → String
no_trim s = s

abbrev scaled_by_keda : Cluster
scaled_by_keda = record {
  workers = record {
    keda = some (record {
      enabled = some true;
      scaler_type = "prometheus";
      scaling_metric = "";
      prometheus_server = none;
      prometheus_query = none;
      http_endpoint = none;
    });
    min_workers = some (pos 1);
    max_workers = none;
    autoscaling = none;
  };
  wake_floor = none;
  node_pool = some (record { scale_down_on_suspend = none; min_nodes = some (pos 2) });
}

abbrev all_work : Calls
all_work = record {
  disable_scaled_object = works;
  delete_native_hpa = works;
  scale_coordinator = works;
  scale_workers = works;
  scale_node_pool_min_nodes = works;
}

abbrev running : Objects
running = record {
  scaled_object = true;
  native_hpa = false;
  coordinator = some (pos 1);
  worker = some (pos 3);
  pool_min_nodes = pos 2;
}

all_work-run :
    ensure_suspended_invariants no_trim all_work scaled_by_keda running
    ≡ ended
        (record {
          scaled_object = false;
          native_hpa = false;
          coordinator = some (pos 0);
          worker = some (pos 0);
          pool_min_nodes = pos 0;
        })
        enforced
unfolding ensure_suspended_invariants get_invariants get_suspended_invariants is_keda_active
    has_keda_metric_config
all_work-run = refl

-- KEDA's object is taken away, but the answer is lost: nothing is scaled.
unheard-run :
    ensure_suspended_invariants no_trim
      (record all_work { disable_scaled_object = unheard })
      scaled_by_keda
      running
    ≡ ended (record running { scaled_object = false }) keda_disable_failed
unfolding ensure_suspended_invariants get_invariants get_suspended_invariants is_keda_active
    has_keda_metric_config
unheard-run = refl

-- A ready cluster without `spec.maxWorkers` is said to have ten workers at most, where the autoscaler
-- is given 24.
ready_most : (get_invariants phase_ready scaled_by_keda).keda_max_replicas ≡ pos 10
unfolding get_invariants get_ready_invariants is_keda_active has_keda_metric_config
ready_most = refl

counted_most :
    keda_counts scaled_by_keda.workers ≡ some (record { least = pos 1; most = pos 24; mode = keda })
unfolding keda_counts
counted_most = refl

ensure_suspended_invariants-Ends_example :
    Ends no_trim all_work scaled_by_keda running
      (ensure_suspended_invariants no_trim all_work scaled_by_keda running).objects
      (ensure_suspended_invariants no_trim all_work scaled_by_keda running).outcome
ensure_suspended_invariants-Ends_example =
    ensure_suspended_invariants-Ends no_trim all_work scaled_by_keda running
