-- ===== src/ApiServer/Resume/Handler.antt =====
-- resume.go: what a request for a resume starts, whom it gates, and which leases it gives back.
use xtrinode.Shared.{
  ℕ, ◌≤◌, String, ◌≡◌, refl, true, false, ◌&&◌, arith, List, [], ◌∷◌, All, Member, Option, none,
  some, str_eq, ◌⊎◌, inl, inr, Bool-cases, Option-cases,
}
use xtrinode.Shared.Int.{ℤ}
use xtrinode.ApiServer.Lease.{LeaseKeyType, runtime, pool, K8sLeaseResult}
use xtrinode.ApiServer.Resume.{
  serve_candidate, after_pool_gate, serve_request, Listed, CandidateRuntime,
  xtrinode_matches_routing_group, is_pool_empty, UnifiedResumeRequest, pick_candidate_from_routes,
  calculate_retry_after, make_runtime_key, make_pool_key, Server, Incoming, wrong_method,
  not_authorized, unreadable, asks_for, Answers, UnifiedResumeResponse, gated_with, Started,
  Response, acquire_with, PoolGate, handled, falls_through, try_pool_gate, respond_lease_gated,
  handle_lease_acquired, runtime_gate, handle_unified_resume,
}
use xtrinode.ApiServer.Resume.Candidate.{
  CanWake, IsPicked, pick_candidate_from_routes-IsPicked, none_ready-is_pool_empty,
}

-- The cluster that a request wakes through that cluster's own lease: the one that it names, or, where
-- it names none, the candidate of its pool, in which one is ready.
abbrev pub Wants : UnifiedResumeRequest → Answers → CandidateRuntime → Type 0
Wants req a target =
    (req.candidate ≡ some target)
    ⊎ ((req.candidate ≡ none)
        × (is_pool_empty req.routing_group a.listed_for_check ≡ false)
        × (pick_candidate_from_routes req.routing_group a.listed_for_candidate ≡ some target))

-- A resume that was started by the request that won the lease: the lease of the cluster itself, or
-- that of the pool that was asked for, whose candidate the cluster is.
pub data Earned (s : Server) (now : ℕ) (incoming : Incoming) (a : Answers) : Started → Type 0 where
  by_runtime :
      (req : UnifiedResumeRequest) (target : CandidateRuntime) (won : K8sLeaseResult)
      → incoming ≡ asks_for req
      → Wants req a target
      → acquire_with s now (make_runtime_key target.namespace target.name) runtime a.leases
        ≡ some won
      → won.acquired ≡ true
      → Earned s now incoming a (record {
        target = target;
        key = make_runtime_key target.namespace target.name;
        key_type = runtime;
      })
  by_pool :
      (group : String) (target : CandidateRuntime) (won : K8sLeaseResult)
      → incoming ≡ asks_for (record { routing_group = group; candidate = none })
      → acquire_with s now (make_pool_key group) pool a.leases ≡ some won
      → won.acquired ≡ true
      → is_pool_empty group a.listed_for_check ≡ true
      → pick_candidate_from_routes group a.listed_for_candidate ≡ some target
      → Earned s now incoming a
          (record { target = target; key = make_pool_key group; key_type = pool })

-- A request for a pool that wins the pool's lease either starts a resume with that lease's key, or
-- gives the lease back.
pub handle_unified_resume_gives_back :
    (s : Server) (now later : ℕ) (group : String) (a : Answers) (won : K8sLeaseResult)
    → str_eq group "" ≡ false
    → acquire_with s now (make_pool_key group) pool a.leases ≡ some won
    → won.acquired ≡ true
    → let response =
        handle_unified_resume s now later
          (asks_for (record { routing_group = group; candidate = none }))
          a in
      ((started : Started) × (response.started ≡ some started)
        × (started.key ≡ make_pool_key group)
        × (started.key_type ≡ pool))
      ⊎ (response.released ≡ (make_pool_key group ∷ []))
unfolding handle_unified_resume serve_request after_pool_gate try_pool_gate
handle_unified_resume_gives_back s now later group a won full w got_it =
    elim (Option-cases (pick_candidate_from_routes group a.listed_for_candidate)) [
      | inl nobody ↦ inr (ground (arith, full, w, got_it, nobody))
      | inr (target, picked) ↦ elim (Bool-cases (is_pool_empty group a.listed_for_check)) [
        | inl empty ↦ inl (
          record { target = target; key = make_pool_key group; key_type = pool },
          ground (arith, full, w, got_it, picked, empty),
          refl,
          refl,
        )
        | inr busy ↦ inr (ground (arith, full, w, got_it, busy))
      ]
    ]

calculate_retry_after-bounds :
    (now until : ℕ)
    → (1 ≤ calculate_retry_after now until) × (calculate_retry_after now until ≤ 120)
unfolding calculate_retry_after
calculate_retry_after-bounds now until = ground arith

-- A response that gates starts nothing, and has a retry time in bounds.
abbrev pub GatesFairly : Response → Type 0
GatesFairly response =
    (info : UnifiedResumeResponse)
    → response.reply ≡ gated_with info
    → (response.started ≡ none) × (1 ≤ info.retry_after) × (info.retry_after ≤ 120)

respond_lease_gated-GatesFairly :
    (later : ℕ) (key : String) (key_type : LeaseKeyType) (lost : K8sLeaseResult)
    → GatesFairly (respond_lease_gated later key key_type lost)
unfolding respond_lease_gated
respond_lease_gated-GatesFairly later key key_type lost info e =
    ground (arith, e, calculate_retry_after-bounds later lost.lease_until)

runtime_gate-GatesFairly :
    (s : Server) (now later : ℕ) (o : Option CandidateRuntime) (a : Answers)
    → GatesFairly (runtime_gate s now later o a)
unfolding runtime_gate handle_lease_acquired
runtime_gate-GatesFairly s now later none a info e = ground (arith, e)
runtime_gate-GatesFairly s now later (some target) a info e =
    let key = make_runtime_key target.namespace target.name in
    elim (Option-cases
      (acquire_with s now (make_runtime_key target.namespace target.name) runtime a.leases)) [
        | inl failed ↦ ground (arith, e, failed)
        | inr (result, w) ↦
            ground (arith, e, w, respond_lease_gated-GatesFairly later key runtime result info)
      ]

try_pool_gate-GatesFairly :
    (s : Server) (now later : ℕ) (group : String) (a : Answers) (response : Response)
    → try_pool_gate s now later group a ≡ handled response
    → GatesFairly response
unfolding try_pool_gate
try_pool_gate-GatesFairly s now later group a response g info e =
    elim (Option-cases (acquire_with s now (make_pool_key group) pool a.leases)) [
      | inl failed ↦ ground (arith, g, e, failed)
      | inr (result, w) ↦ ground (
        arith,
        g,
        e,
        w,
        respond_lease_gated-GatesFairly later (make_pool_key group) pool result info,
      )
    ]

after_pool_gate-GatesFairly :
    (s : Server) (now later : ℕ) (group : String) (a : Answers) (gate : PoolGate)
    → try_pool_gate s now later group a ≡ gate
    → GatesFairly (after_pool_gate s now later group a gate)
unfolding after_pool_gate
after_pool_gate-GatesFairly s now later group a (handled response) g =
    try_pool_gate-GatesFairly s now later group a response g
after_pool_gate-GatesFairly s now later group a falls_through g =
    runtime_gate-GatesFairly s now later (pick_candidate_from_routes group a.listed_for_candidate) a

serve_request-GatesFairly :
    (s : Server) (now later : ℕ) (group : String) (o : Option CandidateRuntime) (a : Answers)
    → GatesFairly (serve_request s now later group o a)
unfolding serve_request serve_candidate
serve_request-GatesFairly s now later group none a info e = ground (
  arith,
  e,
  after_pool_gate-GatesFairly s now later group a (try_pool_gate s now later group a) refl info,
)
serve_request-GatesFairly s now later group (some target) a info e =
    ground (arith, e, runtime_gate-GatesFairly s now later (some target) a info)

-- Whoever is gated, by a pool's lease or a cluster's, starts nothing and is told to come back after
-- one second to two minutes.
pub handle_unified_resume-gated :
    (s : Server) (now later : ℕ) (incoming : Incoming) (a : Answers) (info : UnifiedResumeResponse)
    → (handle_unified_resume s now later incoming a).reply ≡ gated_with info
    → ((handle_unified_resume s now later incoming a).started ≡ none)
      × (1 ≤ info.retry_after)
      × (info.retry_after ≤ 120)
unfolding handle_unified_resume
handle_unified_resume-gated s now later wrong_method a info e = ground (arith, e)
handle_unified_resume-gated s now later not_authorized a info e = ground (arith, e)
handle_unified_resume-gated s now later unreadable a info e = ground (arith, e)
handle_unified_resume-gated s now later (asks_for req) a info e =
    serve_request-GatesFairly s now later req.routing_group req.candidate a info e

-- A pool is woken by a request that wins its lease, if both lists of the request give the same
-- clusters, of which none in the pool is ready and one is suspended or being reconciled and has a
-- shape that resolves. The resume is started for a cluster of the pool like that one, which goes
-- behind no other such: suspended before reconciled and then smaller before larger.
pub handle_unified_resume-IsPicked :
    (s : Server) (now later : ℕ) (group : String) (a : Answers) (won : K8sLeaseResult)
    (ts : List Listed) (t : Listed) (n : ℤ)
    → str_eq group "" ≡ false
    → acquire_with s now (make_pool_key group) pool a.leases ≡ some won
    → won.acquired ≡ true
    → a.listed_for_check ≡ some ts
    → a.listed_for_candidate ≡ some ts
    → All (λ q. (xtrinode_matches_routing_group group q && str_eq q.phase "Ready") ≡ false) ts
    → Member t ts
    → CanWake group t n
    → (started : Started) × ((handle_unified_resume s now later
          (asks_for (record { routing_group = group; candidate = none }))
          a).started
        ≡ some started)
      × (r : Listed) × (m : ℤ) × IsPicked group ts started.target r m
unfolding handle_unified_resume serve_request after_pool_gate try_pool_gate
handle_unified_resume-IsPicked s now later group a won ts t n full w got_it check listed idle among
      h =
    let (c, picked, r, m, best) = pick_candidate_from_routes-IsPicked group ts t n among h in
    let empty = none_ready-is_pool_empty group ts idle in
    let started : Started = record { target = c; key = make_pool_key group; key_type = pool } in
    (started, ground (arith, full, w, got_it, check, listed, picked, empty), r, m, best)
