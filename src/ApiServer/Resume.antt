-- ===== src/ApiServer/Resume.antt =====
-- xtrinode/pkg/api-server/resume.go: a request to wake a pool or a cluster, from the checks of the
-- request to the response. The answers of the Kubernetes API are arguments; the resume that a
-- response starts runs on its own, in ApiServer/Calls.antt.
pub mod Candidate
pub mod Handler
mod Examples
use xtrinode.Shared.{
  second, ℕ, ◌-◌, ◌/◌, String, Bool, true, false, ◌&&◌, ◌||◌, not, ltb, leb, ◌==◌, str_eq,
  if◌then◌else◌, Option, none, some, List, [], ◌∷◌,
}
use xtrinode.Shared.Int.{ℤ, pos, negsuc, non_positive, to_nat, int_lt}
use xtrinode.Shared.Pick.{pick_from}
use xtrinode.Shared.Prefix.{prefixed}
use xtrinode.Gateway.Registry.Identity.{default_dedicated_routing_group}
use xtrinode.ApiServer.Lease.{
  LeaseKeyType, runtime, pool, LeaseManager, K8sLeaseResult, GetAnswer, CreateAnswer, UpdateAnswer,
  Acquisition, acquire_lease,
}

-- A cluster as the API lists it. Its routing group is empty where it has none, and its capacity is
-- that of its resolved shape, `none` where that is an error.
pub record Listed : Type 0 where
  pub namespace : String
  pub name : String
  pub routing_group : String
  pub phase : String
  pub capacity : Option ℤ

pub record CandidateRuntime : Type 0 where
  pub namespace : String
  pub name : String

unfoldable pub xtrinode_matches_routing_group : String → Listed → Bool
xtrinode_matches_routing_group group t =
    if str_eq group ""
    then false
    else if not (str_eq t.routing_group "")
    then str_eq t.routing_group group
    else str_eq (default_dedicated_routing_group t.namespace t.name) group

unfoldable pub has_ready : String → List Listed → Bool
has_ready group [] = false
has_ready group (t ∷ ts) =
    (xtrinode_matches_routing_group group t && str_eq t.phase "Ready") || has_ready group ts

-- A list that fails reads as an empty pool.
unfoldable pub is_pool_empty : String → Option (List Listed) → Bool
is_pool_empty group none = true
is_pool_empty group (some ts) = not (has_ready group ts)

unfoldable pub phase_priority : String → Option ℕ
phase_priority phase =
    if str_eq phase "Suspended" then some 0 else if str_eq phase "Reconciling" then some 1 else none

abbrev pub given_value {ℓ} : {A : Type ℓ} → Option A → Bool
given_value none = false
given_value (some a) = true

unfoldable pub is_candidate : String → Listed → Bool
is_candidate group t =
    xtrinode_matches_routing_group group t
    && (given_value (phase_priority t.phase) && given_value t.capacity)

abbrev pub value_or {ℓ} : {A : Type ℓ} → A → Option A → A
value_or fallback none = fallback
value_or fallback (some a) = a

-- Both are candidates, so both have a priority and a capacity.
unfoldable pub wakes_before : Listed → Listed → Bool
wakes_before a b =
    let p = value_or 0 (phase_priority a.phase) in
    let q = value_or 0 (phase_priority b.phase) in
    ltb p q || (p == q && int_lt (value_or (pos 0) a.capacity) (value_or (pos 0) b.capacity))

abbrev pub named : Option Listed → Option CandidateRuntime
named none = none
named (some t) = some (record { namespace = t.namespace; name = t.name })

unfoldable pub pick_candidate_from_routes : String → Option (List Listed) → Option CandidateRuntime
pick_candidate_from_routes group none = none
pick_candidate_from_routes group (some ts) =
    named (pick_from (is_candidate group) wakes_before none ts)

-- Whole seconds; a time that has passed gives 0 in place of a negative number, which is clamped to
-- the same minimum.
unfoldable pub calculate_retry_after : ℕ → ℕ → ℕ
calculate_retry_after now until =
    let remaining = (until - now) / second in
    if ltb remaining 1 then 1 else if ltb 120 remaining then 120 else remaining

unfoldable pub get_retry_after : ℤ → ℕ
get_retry_after configured = if non_positive configured then 30 else to_nat configured

abbrev pub make_runtime_key : String → String → String
make_runtime_key namespace name = prefixed "rt/" (prefixed namespace (prefixed "/" name))

abbrev pub make_pool_key : String → String
make_pool_key group = prefixed "pool/" group

-- The number of bytes of a text, and the regular expression for names.
pub record Names : Type 0 where
  pub byte_length : String → ℕ
  pub matches_name : String → Bool

unfoldable pub validate_k8s_name : Names → String → Bool
validate_k8s_name names s =
    not (str_eq s "") && (leb (names.byte_length s) 253 && names.matches_name s)

pub record Server : Type 0 where
  pub lease_manager : LeaseManager
  pub retry_after_seconds : ℤ
  pub names : Names

pub record UnifiedResumeRequest : Type 0 where
  pub routing_group : String
  pub candidate : Option CandidateRuntime

-- What arrives: another method than POST, a caller who may not resume, a body that is no request,
-- or a request.
pub data Incoming : Type 0 where
  wrong_method not_authorized unreadable : Incoming
  asks_for : UnifiedResumeRequest → Incoming

-- The answers to the three calls that acquiring a lease may make.
pub record LeaseAnswers : Type 0 where
  pub get : GetAnswer
  pub create : CreateAnswer
  pub update : UpdateAnswer

-- The answers to the calls of one request: those about the lease of each key and type, and those to
-- the two lists. A list that fails is `none`.
pub record Answers : Type 0 where
  pub leases : String → LeaseKeyType → LeaseAnswers
  pub listed_for_check : Option (List Listed)
  pub listed_for_candidate : Option (List Listed)

pub record UnifiedResumeResponse : Type 0 where
  pub retry_after : ℕ
  pub key : String
  pub key_type : LeaseKeyType
  pub lease_until : ℕ
  pub holder : String

-- `accepted` is 202 with triggered set, `gated` 503 with gated set; `denied` leaves the response to
-- the check of authority.
pub data Reply : Type 0 where
  denied : Reply
  error : ℕ → String → Reply
  accepted_with gated_with : UnifiedResumeResponse → Reply

-- The resume that is started, and the lease that it gives up if it fails.
pub record Started : Type 0 where
  pub target : CandidateRuntime
  pub key : String
  pub key_type : LeaseKeyType

-- The reply, the resume that was started and the keys of the leases that were released.
pub record Response : Type 0 where
  pub reply : Reply
  pub started : Option Started
  pub released : List String

abbrev pub acquire_with :
    Server
    → ℕ
    → String
    → LeaseKeyType
    → (String → LeaseKeyType → LeaseAnswers)
    → Option K8sLeaseResult
acquire_with s now key key_type leases =
    let a = leases key key_type in
    (acquire_lease s.lease_manager now key_type a.get a.create a.update).result

abbrev pub only : Reply → Response
only reply = record { reply = reply; started = none; released = [] }

abbrev pub accepted_response : Server → String → LeaseKeyType → K8sLeaseResult → Reply
accepted_response s key key_type won = accepted_with (record {
  retry_after = get_retry_after s.retry_after_seconds;
  key = key;
  key_type = key_type;
  lease_until = won.lease_until;
  holder = "";
})

unfoldable pub respond_lease_gated : ℕ → String → LeaseKeyType → K8sLeaseResult → Response
respond_lease_gated later key key_type lost = only (
    gated_with (record {
      retry_after = calculate_retry_after later lost.lease_until;
      key = key;
      key_type = key_type;
      lease_until = lost.lease_until;
      holder = lost.holder;
    }))

unfoldable pub handle_lease_acquired :
    Server → CandidateRuntime → String → LeaseKeyType → K8sLeaseResult → Response
handle_lease_acquired s target key key_type won = record {
  reply = accepted_response s key key_type won;
  started =
      if not (str_eq target.namespace "") && not (str_eq target.name "")
      then some (record { target = target; key = key; key_type = key_type })
      else none;
  released = [];
}

-- What the pool gate comes to: a response, or the gate of one cluster, with the pool's lease
-- released.
pub data PoolGate : Type 0 where
  handled : Response → PoolGate
  falls_through : PoolGate

unfoldable pub start_candidate :
    Server → String → K8sLeaseResult → Option CandidateRuntime → Response
start_candidate s key won none = record {
  reply = error 404 "NO_CANDIDATE";
  started = none;
  released = key ∷ [];
}
start_candidate s key won (some target) = record {
  reply = accepted_response s key pool won;
  started = some (record { target = target; key = key; key_type = pool });
  released = [];
}

unfoldable pub pool_gate_with : Server → ℕ → String → Answers → Option K8sLeaseResult → PoolGate
unfolding start_candidate
pool_gate_with s later group a none = handled (only (error 500 "LEASE_ERROR"))
pool_gate_with s later group a (some result) =
    if not result.acquired
    then handled (respond_lease_gated later (make_pool_key group) pool result)
    else if not (is_pool_empty group a.listed_for_check)
    then falls_through
    else handled (
        start_candidate s (make_pool_key group) result
          (pick_candidate_from_routes group a.listed_for_candidate))

-- `now` is the time of the call for the lease, `later` that of the response.
unfoldable pub try_pool_gate : Server → ℕ → ℕ → String → Answers → PoolGate
unfolding pool_gate_with
try_pool_gate s now later group a =
    pool_gate_with s later group a (acquire_with s now (make_pool_key group) pool a.leases)

unfoldable pub runtime_gate_with : Server → ℕ → CandidateRuntime → Option K8sLeaseResult → Response
runtime_gate_with s later target none = only (error 500 "LEASE_ERROR")
runtime_gate_with s later target (some result) =
    let key = make_runtime_key target.namespace target.name in
    if result.acquired
    then handle_lease_acquired s target key runtime result
    else respond_lease_gated later key runtime result

-- The gate of one cluster.
unfoldable pub runtime_gate : Server → ℕ → ℕ → Option CandidateRuntime → Answers → Response
unfolding runtime_gate_with
runtime_gate s now later none a = only (error 404 "NO_CANDIDATE")
runtime_gate s now later (some target) a =
    runtime_gate_with s later target
      (acquire_with s now (make_runtime_key target.namespace target.name) runtime a.leases)

unfoldable pub after_pool_gate : Server → ℕ → ℕ → String → Answers → PoolGate → Response
after_pool_gate s now later group a (handled response) = response
after_pool_gate s now later group a falls_through =
    record (runtime_gate s now later (pick_candidate_from_routes group a.listed_for_candidate) a) {
      released = make_pool_key group ∷ [];
    }

unfoldable pub serve_candidate : Server → ℕ → ℕ → CandidateRuntime → Answers → Response
serve_candidate s now later target a =
    if not (validate_k8s_name s.names target.namespace)
    then only (error 400 "INVALID_NAMESPACE")
    else if not (validate_k8s_name s.names target.name)
    then only (error 400 "INVALID_NAME")
    else runtime_gate s now later (some target) a

unfoldable pub serve_request :
    Server → ℕ → ℕ → String → Option CandidateRuntime → Answers → Response
unfolding after_pool_gate serve_candidate
serve_request s now later group none a =
    if str_eq group ""
    then only (error 400 "INVALID_REQUEST")
    else after_pool_gate s now later group a (try_pool_gate s now later group a)
serve_request s now later group (some target) a = serve_candidate s now later target a

unfoldable pub handle_unified_resume : Server → ℕ → ℕ → Incoming → Answers → Response
unfolding serve_request
handle_unified_resume s now later wrong_method a = only (error 405 "METHOD_NOT_ALLOWED")
handle_unified_resume s now later not_authorized a = only denied
handle_unified_resume s now later unreadable a = only (error 400 "INVALID_REQUEST")
handle_unified_resume s now later (asks_for req) a =
    serve_request s now later req.routing_group req.candidate a
