-- ===== src/ApiServer/Resume/Examples.antt =====
-- The theorems on requests for a resume, at a pool of two clusters that sleep.
use xtrinode.Shared.{
  second, ◌*◌, ℕ, String, ◌≡◌, refl, true, false, ◌&&◌, List, [], ◌∷◌, All, here, there, none, some,
  str_eq, inl,
}
use xtrinode.Shared.Int.{pos}
use xtrinode.ApiServer.Lease.{
  pool, LeaseManager, K8sLeaseResult, not_found, got, created, updated, acquire_lease, create_lease,
  duration_for_key,
}
use xtrinode.ApiServer.Resume.{
  ℤ, Listed, xtrinode_matches_routing_group, calculate_retry_after, make_pool_key, Server, Incoming,
  asks_for, LeaseAnswers, Answers, UnifiedResumeResponse, gated_with, Started, acquire_with,
  pool_gate_with, try_pool_gate, respond_lease_gated, after_pool_gate, serve_request,
  handle_unified_resume,
}
use xtrinode.ApiServer.Resume.Candidate.{CanWake, IsPicked}
use xtrinode.ApiServer.Resume.Handler.{handle_unified_resume-IsPicked}

abbrev manager : LeaseManager
manager = record {
  lease_duration = 30 * second;
  suspend_duration = 30 * second;
  holder_identity = "one";
}

abbrev server : Server
server = record {
  lease_manager = manager;
  retry_after_seconds = pos 0;
  names = record { byte_length = λ s. 1; matches_name = λ s. true };
}

abbrev asleep : String → ℕ → Listed
asleep name capacity = record {
  namespace = "ns";
  name = name;
  routing_group = "g";
  phase = "Suspended";
  capacity = some (pos capacity);
}

abbrev sleepers : List Listed
sleepers = asleep "large" 4 ∷ asleep "small" 1 ∷ []

abbrev free_lease : LeaseAnswers
free_lease = record { get = not_found; create = created; update = updated }

abbrev held_lease : LeaseAnswers
held_lease = record {
  get = got (record {
    key_type = pool;
    holder_identity = some "two";
    duration_seconds = some 30;
    acquire_time = some 0;
    renew_time = some 0;
  });
  create = created;
  update = updated;
}

abbrev with_pool_lease : LeaseAnswers → Answers
with_pool_lease a = record {
  leases = λ key key_type. a;
  listed_for_check = some sleepers;
  listed_for_candidate = some sleepers;
}

abbrev for_pool : Incoming
for_pool = asks_for (record { routing_group = "g"; candidate = none })

abbrev start_small : Started
start_small = record {
  target = record { namespace = "ns"; name = "small" };
  key = make_pool_key "g";
  key_type = pool;
}

abbrev pool_won : K8sLeaseResult
pool_won = record { acquired = true; lease_until = 31 * second; holder = "one" }

wins_pool :
    acquire_with server second (make_pool_key "g") pool (λ key key_type. free_lease) ≡ some pool_won
unfolding acquire_lease create_lease duration_for_key
wins_pool = refl

abbrev told : UnifiedResumeResponse
told = record {
  retry_after = 29;
  key = make_pool_key "g";
  key_type = pool;
  lease_until = 30 * second;
  holder = "two";
}

is_gated :
    (handle_unified_resume server second second for_pool (with_pool_lease held_lease)).reply
    ≡ gated_with told
unfolding handle_unified_resume serve_request after_pool_gate try_pool_gate pool_gate_with
    acquire_lease respond_lease_gated calculate_retry_after
is_gated = refl

small_CanWake : CanWake "g" (asleep "small" 1) (pos 1)
unfolding xtrinode_matches_routing_group
small_CanWake = record { member = refl; phase = inl refl; shape = refl }

nobody_ready :
    All (λ q. (xtrinode_matches_routing_group "g" q && str_eq q.phase "Ready") ≡ false) sleepers
unfolding xtrinode_matches_routing_group
nobody_ready = (refl, (refl, tt))

handle_unified_resume-IsPicked_example :
    (started : Started) × ((handle_unified_resume server second second for_pool
        (with_pool_lease free_lease)).started
      ≡ some started)
    × (r : Listed) × (m : ℤ) × IsPicked "g" sleepers started.target r m
handle_unified_resume-IsPicked_example =
    handle_unified_resume-IsPicked server second second "g" (with_pool_lease free_lease) pool_won
      sleepers (asleep "small" 1) (pos 1) refl wins_pool refl refl refl nobody_ready (there here)
      small_CanWake
