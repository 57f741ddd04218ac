-- ===== src/Gateway/Resume/Examples.antt =====
-- The resume candidate's theorem at a concrete route.
use xtrinode.Shared.{
  ℕ, ◌≡◌, refl, true, false, [], ◌∷◌, none, some, Member, here, there, String, inl, inr, arith,
  eq_iff, ◌≢◌,
}
use xtrinode.Shared.Dict.{lookup}
use xtrinode.Gateway.Health.{HealthChecker, sleeping, is_sleeping}
use xtrinode.Shared.Int.{pos}
use xtrinode.Shared.Pick.{pick_from}
use xtrinode.Gateway.Select.{capacity_of}
use xtrinode.Gateway.Route.{
  Backend, BackendState, running, paused, resuming, RouteEntry, GatewayService,
}
use xtrinode.Gateway.Resume.{
  smaller, name_before, resume_state_priority, is_resumable, resumes_before, pick_resume_candidate,
}
use xtrinode.Gateway.Resume.Order.{Resumable, NotAfter, pick_resume_candidate-NotAfter}

abbrev backend : String → BackendState → ℕ → Backend
backend name state capacity = record {
  name = name;
  namespace = "ns";
  coordinator_url = "http://c";
  state = state;
  active = true;
  tier = "s";
  capacity_units = pos capacity;
  runtime_shape_version = "";
  runtime_shape_hash = "";
  observed_generation = pos 1;
  drain_until = "";
}

abbrev pool : RouteEntry
pool = record {
  name = "pool";
  routing_group = "pool";
  backends =
      backend "a" running 1
      ∷ backend "b" resuming 1
      ∷ backend "d" paused 2
      ∷ backend "c" paused 2
      ∷ [];
  header = "";
  hostname = "";
  is_default = false;
}

abbrev plain : GatewayService
plain = record {
  routes = [];
  default_route = none;
  health_checker = none;
  circuit_breaker = none;
  query_activity = record { queries = []; ttl = 600; gauges = λ _. 0 };
}

wakes_c : pick_resume_candidate 5 (some pool) plain ≡ some (backend "c" paused 2)
unfolding pick_resume_candidate pick_from is_resumable resumes_before smaller name_before
    capacity_of resume_state_priority
wakes_c = refl

text_differs : ◌≢◌ {A = String} "c" ""
text_differs = ground (arith, eq_iff "c" "")

ns_differs : ◌≢◌ {A = String} "ns" ""
ns_differs = ground (arith, eq_iff "ns" "")

pick_resume_candidate-NotAfter_example :
    (r : Backend) × (pick_resume_candidate 5 (some pool) plain ≡ some r)
    × Member r pool.backends
    × Resumable r
    × NotAfter r (backend "c" paused 2)
pick_resume_candidate-NotAfter_example =
    pick_resume_candidate-NotAfter 5 pool plain (backend "c" paused 2) (there (there (there here)))
      ((refl, text_differs, ns_differs), inl refl)

abbrev asleep : HealthChecker
asleep = record {
  health_status =
      (
        "http://c",
        record {
          url = "http://c";
          last_check = 4;
          last_success = 0;
          consecutive_failures = 1;
          last_error = "refused";
          last_status = 0;
          state = sleeping;
        },
      )
      ∷ [];
  failure_threshold = 3;
  stale_threshold = 15;
}

-- The gateway has not read yet that the only backend sleeps.
abbrev stale : RouteEntry
stale = record pool { backends = backend "c" running 2 ∷ [] }

none-Resumable : (r : Backend) → Member r stale.backends → ¬ Resumable r
none-Resumable r here (c, inl p) = ground (arith, p)
none-Resumable r here (c, inr p) = ground (arith, p)
none-Resumable r (there m) h = elim m [ ]

c_sleeps : is_sleeping 5 "http://c" asleep ≡ true
unfolding is_sleeping lookup
c_sleeps = refl
