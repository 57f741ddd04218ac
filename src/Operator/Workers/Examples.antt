-- ===== src/Operator/Workers/Examples.antt =====
-- Runs of the worker counts and the autoscaler's bounds.
use xtrinode.Shared.{ℕ, String, ◌≡◌, ◌≤◌, ◌<◌, ◌*◌, refl, true, arith, none, some, if◌then◌else◌}
use xtrinode.Shared.Int.{pos, int_lt}
use xtrinode.Operator.Workers.{
  KedaTexts, has_trigger_error, KedaSpec, WorkerSpec, WorkerCounts, is_keda_active,
  resolve_worker_counts, keda_counts, keda, derive_capacity_units, reconcile_keda, present, missing,
  failed, bounds, has_keda_metric_config, is_native_hpa_active, empty_text, number, absent, fixed,
  resolve_fixed_workers,
}
use xtrinode.Operator.Workers.Bounds.{reconcile_keda_window}
use xtrinode.Operator.Workers.Capacity.{derive_capacity_units_least}

abbrev no_trim : String → String
no_trim s = s

abbrev texts : KedaTexts
texts = record {
  trim = no_trim;
  to_lower = no_trim;
  render = no_trim;
  query_api_url = "http://trino/v1/query";
  metrics_url = "http://trino/metrics";
  jmx_url = "http://trino/jmx";
  memory_query = "memory";
  cpu_query = "cpu";
  load_query = "load";
}

abbrev keda_spec : KedaSpec
keda_spec = record {
  enabled = some true;
  scaler_type = "prometheus";
  scaling_metric = "";
  prometheus_server = none;
  prometheus_query = none;
  http_endpoint = none;
}

abbrev four_at_most : WorkerSpec
four_at_most = record {
  keda = some keda_spec;
  min_workers = some (pos 1);
  max_workers = some (pos 4);
  autoscaling = none;
}

abbrev one_to_four : WorkerCounts
one_to_four = record { least = pos 1; most = pos 4; mode = keda }

-- Without KEDA and with both targets of the native autoscaler empty, the count is fixed.
abbrev empty_targets : WorkerSpec
empty_targets = record {
  keda = none;
  min_workers = some (pos 3);
  max_workers = none;
  autoscaling = some (record {
    enabled = true;
    cpu_target = empty_text;
    memory_target = empty_text;
    min_replicas = number (pos 1);
    max_replicas = absent;
  });
}

empty_targets-run :
    resolve_worker_counts no_trim empty_targets
    ≡ some (record { least = pos 3; most = pos 3; mode = fixed })
unfolding resolve_worker_counts is_keda_active is_native_hpa_active resolve_fixed_workers
empty_targets-run = refl

four_at_most-counts : resolve_worker_counts no_trim four_at_most ≡ some one_to_four
unfolding resolve_worker_counts keda_counts is_keda_active has_keda_metric_config
four_at_most-counts = refl

four_at_most-active : is_keda_active no_trim four_at_most.keda ≡ true
unfolding is_keda_active has_keda_metric_config
four_at_most-active = refl

-- A wake window of six workers: an existing autoscaler gets a minimum of six and a maximum of four.
reconcile_keda_window_example :
    (reconcile_keda texts present (pos 6) four_at_most ≡ bounds (pos 6) (pos 4))
    × (reconcile_keda texts missing (pos 6) four_at_most ≡ (
        if int_lt (pos 4) (pos 6)
        then failed
        else if has_trigger_error texts four_at_most.keda
        then failed
        else bounds (pos 6) (pos 4)))
reconcile_keda_window_example =
    reconcile_keda_window texts (pos 6) four_at_most one_to_four four_at_most-active refl
      four_at_most-counts

-- Three workers of one and a half CPUs count for three units.
derive_capacity_units_least_example :
    (units : ℕ) × (derive_capacity_units (some (pos 1500)) (pos 3) ≡ pos units)
    × (1 ≤ units)
    × (4500 ≤ 2000 * units)
    × (2000 * units < 6500)
derive_capacity_units_least_example =
    derive_capacity_units_least 1500 3 (omega arith) (omega arith) (omega arith)
