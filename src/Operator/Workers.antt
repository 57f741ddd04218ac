-- ===== src/Operator/Workers.antt =====
-- xtrinode/internal/runtimeshape/resolved.go: how many workers a cluster has and what it counts for
-- in routing; xtrinode/controllers/xtrinode_gateway_keda.go and xtrinode/internal/keda/keda.go: the
-- bounds that its autoscaler is given. The rest of the shape resolves, and the objects of
-- the Kubernetes API are written without an error. A product of CPU and workers stays below 2^63.
pub mod Capacity
pub mod Bounds
mod Examples
use xtrinode.Shared.{
  ℕ, ◌+◌, ◌-◌, ◌*◌, ◌/◌, ◌%◌, String, Bool, true, false, ◌&&◌, ◌||◌, not, ltb, str_eq,
  if◌then◌else◌, Option, none, some,
}
use xtrinode.Shared.Int.{ℤ, pos, negsuc, int_lt, negative, non_positive}

-- `spec.keda`, and Go's `strings.TrimSpace` for its optional texts.
pub record KedaSpec : Type 0 where
  pub enabled : Option Bool
  pub scaler_type : String
  pub scaling_metric : String
  pub prometheus_server : Option String
  pub prometheus_query : Option String
  pub http_endpoint : Option String

abbrev pub has_text : (String → String) → Option String → Bool
has_text trim none = false
has_text trim (some s) = not (str_eq (trim s) "")

unfoldable pub has_keda_metric_config : (String → String) → KedaSpec → Bool
has_keda_metric_config trim k =
    not (str_eq k.scaler_type "")
    || not (str_eq k.scaling_metric "")
    || has_text trim k.prometheus_server
    || has_text trim k.prometheus_query
    || has_text trim k.http_endpoint

enabled_with_metric : (String → String) → KedaSpec → Option Bool → Bool
enabled_with_metric trim k none = false
enabled_with_metric trim k (some on) = on && has_keda_metric_config trim k

unfoldable pub is_keda_active : (String → String) → Option KedaSpec → Bool
unfolding enabled_with_metric
is_keda_active trim none = false
is_keda_active trim (some k) = enabled_with_metric trim k k.enabled

-- What an entry of the values overlay is to `ParseInt32`: a number, the empty text, or neither.
pub data Setting : Type 0 where
  absent empty_text : Setting
  number : ℤ → Setting

-- `server.autoscaling` of the values overlay.
pub record Autoscaling : Type 0 where
  pub enabled : Bool
  pub cpu_target : Setting
  pub memory_target : Setting
  pub min_replicas : Setting
  pub max_replicas : Setting

-- The part of the custom resource that says how many workers there are.
pub record WorkerSpec : Type 0 where
  pub keda : Option KedaSpec
  pub min_workers : Option ℤ
  pub max_workers : Option ℤ
  pub autoscaling : Option Autoscaling

abbrev pub target_or : ℤ → Setting → ℤ
target_or default absent = default
target_or default empty_text = pos 0
target_or default (number n) = n

abbrev pub number_or : ℤ → Setting → ℤ
number_or default (number n) = n
number_or default _ = default

unfoldable pub is_native_hpa_active : Option Autoscaling → Bool
is_native_hpa_active none = false
is_native_hpa_active (some a) =
    a.enabled
    && (int_lt (pos 0) (target_or (pos 50) a.cpu_target)
        || int_lt (pos 0) (target_or (pos 80) a.memory_target))

-- An error is `none`.
unfoldable pub resolve_native_hpa_workers : Option Autoscaling → Option (ℤ × ℤ)
resolve_native_hpa_workers none = none
resolve_native_hpa_workers (some a) =
    let least = number_or (pos 2) a.min_replicas in
    let most = number_or (pos 5) a.max_replicas in
    if negative least
    then none
    else if int_lt most (pos 1)
    then none
    else if int_lt most least
    then none
    else some (least, most)

abbrev pub int_or : ℤ → Option ℤ → ℤ
int_or default none = default
int_or default (some n) = n

abbrev pub at_least : Option ℤ → ℤ → ℤ
at_least none n = n
at_least (some least) n = if int_lt n least then least else n

unfoldable pub resolve_fixed_workers : WorkerSpec → Option ℤ
resolve_fixed_workers spec =
    let workers = at_least spec.min_workers (int_or (pos 2) spec.max_workers) in
    if negative workers then none else some workers

pub data AutoscalingMode : Type 0 where
  fixed keda hpa : AutoscalingMode

pub record WorkerCounts : Type 0 where
  pub least : ℤ
  pub most : ℤ
  pub mode : AutoscalingMode

counts_of_pair : Option (ℤ × ℤ) → Option WorkerCounts
counts_of_pair none = none
counts_of_pair (some (least, most)) = some (record { least = least; most = most; mode = hpa })

counts_of_fixed : Option ℤ → Option WorkerCounts
counts_of_fixed none = none
counts_of_fixed (some n) = some (record { least = n; most = n; mode = fixed })

unfoldable pub keda_counts : WorkerSpec → Option WorkerCounts
keda_counts spec =
    let least = int_or (pos 0) spec.min_workers in
    let most = int_or (pos 24) spec.max_workers in
    if int_lt most least then none else some (record { least = least; most = most; mode = keda })

-- The quota and the capacity count the most workers in each mode.
unfoldable pub resolve_worker_counts : (String → String) → WorkerSpec → Option WorkerCounts
unfolding counts_of_pair counts_of_fixed
resolve_worker_counts trim spec =
    if is_keda_active trim spec.keda
    then keda_counts spec
    else if is_native_hpa_active spec.autoscaling
    then counts_of_pair (resolve_native_hpa_workers spec.autoscaling)
    else counts_of_fixed (resolve_fixed_workers spec)

-- Go's `int32(n)` of a number.
abbrev pub to_int32 : ℕ → ℤ
to_int32 n =
    let low = n % 4294967296 in if ltb low 2147483648 then pos low else negsuc (4294967295 - low)

-- `cpu` is the CPU request of a worker in thousandths, `none` where there is none.
unfoldable pub derive_capacity_units : Option ℤ → ℤ → ℤ
derive_capacity_units (some (pos cpu)) (pos workers) =
    let units = (cpu * workers + 2000 - 1) / 2000 in
    if not (ltb 0 workers)
    then pos 1
    else if not (ltb 0 cpu)
    then pos 1
    else if ltb units 1
    then pos 1
    else to_int32 units
derive_capacity_units _ _ = pos 1

-- What the library says of texts, and the texts that are built for a cluster from its name and
-- namespace: a rendered query, the addresses of its coordinator and its exporter, and its queries.
pub record KedaTexts : Type 0 where
  pub trim : String → String
  pub to_lower : String → String
  pub render : String → String
  pub query_api_url : String
  pub metrics_url : String
  pub jmx_url : String
  pub memory_query : String
  pub cpu_query : String
  pub load_query : String

unfoldable pub normalize_keda_keyword : KedaTexts → String → String
normalize_keda_keyword x value = x.to_lower (x.trim value)

abbrev pub or_empty : Option String → String
or_empty none = ""
or_empty (some s) = s

unfoldable pub is_keda_resource_metric : KedaTexts → String → Bool
is_keda_resource_metric x metric =
    let m = normalize_keda_keyword x metric in str_eq m "memory" || str_eq m "cpu"

unfoldable pub build_prometheus_query_for_metric : KedaTexts → String → String
build_prometheus_query_for_metric x metric =
    let m = normalize_keda_keyword x metric in
    if str_eq m "memory"
    then x.memory_query
    else if str_eq m "cpu"
    then x.cpu_query
    else if str_eq m "query"
    then x.load_query
    else ""

unfoldable pub build_default_endpoint : KedaTexts → String → String
build_default_endpoint x metric =
    if str_eq (normalize_keda_keyword x metric) "query"
    then x.query_api_url
    else if is_keda_resource_metric x metric
    then ""
    else x.metrics_url

unfoldable pub build_http_scaler_endpoint : KedaTexts → String → String → String
build_http_scaler_endpoint x metric endpoint =
    let e = normalize_keda_keyword x endpoint in
    if str_eq e ""
    then build_default_endpoint x metric
    else if str_eq e "coordinator"
    then (if str_eq (normalize_keda_keyword x metric) "query"
        then x.query_api_url
        else x.metrics_url)
    else if str_eq e "jmx"
    then x.jmx_url
    else x.trim endpoint

abbrev pub keyword_or : KedaTexts → String → String → String
keyword_or x value default =
    let given = if str_eq value "" then "" else normalize_keda_keyword x value in
    if str_eq given "" then default else given

abbrev pub rendered : KedaTexts → Option String → String
rendered x none = ""
rendered x (some query) = x.render query

unfoldable pub scaler_type_of : KedaTexts → KedaSpec → String
scaler_type_of x k = keyword_or x k.scaler_type (
    if not (str_eq (rendered x k.prometheus_query) "") || has_text x.trim k.prometheus_server
    then "prometheus"
    else "http")

unfoldable pub scaling_metric_of : KedaTexts → KedaSpec → String
scaling_metric_of x k =
    keyword_or x k.scaling_metric
      (if str_eq (scaler_type_of x k) "prometheus" then "query" else "memory")

-- Whether `EnsureScaledObject` cannot build the trigger of the autoscaler.
unfoldable pub has_trigger_error : KedaTexts → Option KedaSpec → Bool
has_trigger_error x none = false
has_trigger_error x (some k) =
    let endpoint = x.trim (or_empty k.http_endpoint) in
    let kind = scaler_type_of x k in
    let metric = scaling_metric_of x k in
    let polls = str_eq kind "http" && not (is_keda_resource_metric x metric) in
    let is_prometheus = str_eq kind "prometheus" in
    let given_query = rendered x k.prometheus_query in
    let query =
      if not polls && (is_prometheus && str_eq given_query "")
      then build_prometheus_query_for_metric x metric
      else given_query in
    let polled = if polls then build_http_scaler_endpoint x metric endpoint else endpoint in
    str_eq (normalize_keda_keyword x endpoint) "aggregator"
    || ((is_prometheus && str_eq (x.trim query) "") || (polls && str_eq (x.trim polled) ""))

-- The bounds that `reconcileKEDA` gives the autoscaler, if it does.
pub data ScaledObject : Type 0 where
  inactive failed : ScaledObject
  bounds : ℤ → ℤ → ScaledObject

abbrev pub ensured : KedaTexts → WorkerSpec → Option WorkerCounts → ScaledObject
ensured x spec none = failed
ensured x spec (some c) = if has_trigger_error x spec.keda then failed else bounds c.least c.most

abbrev pub with_floor : ℤ → Option WorkerCounts → ScaledObject
with_floor floor none = failed
with_floor floor (some c) = bounds floor c.most

-- What a read of the object finds.
pub data Lookup : Type 0 where
  present missing unreadable : Lookup

unfoldable pub enable_scaled_object_with_wake_min_workers :
    KedaTexts → Lookup → ℤ → WorkerSpec → ScaledObject
enable_scaled_object_with_wake_min_workers x present floor spec =
    with_floor floor (resolve_worker_counts x.trim spec)
enable_scaled_object_with_wake_min_workers x missing floor spec =
    ensured x spec (resolve_worker_counts x.trim (record spec { min_workers = some floor }))
enable_scaled_object_with_wake_min_workers x unreadable floor spec = failed

abbrev pub ensure_within : KedaTexts → Lookup → ℤ → WorkerSpec → ScaledObject
ensure_within x unreadable floor spec = failed
ensure_within x found floor spec =
    if int_lt (pos 0) floor
    then enable_scaled_object_with_wake_min_workers x found floor spec
    else ensured x spec (resolve_worker_counts x.trim spec)

-- `floor` is the number of workers of an open wake window, 0 without one. The two reads of the object
-- find the same.
unfoldable pub reconcile_keda : KedaTexts → Lookup → ℤ → WorkerSpec → ScaledObject
reconcile_keda x found floor spec =
    if not (is_keda_active x.trim spec.keda) then inactive else ensure_within x found floor spec
