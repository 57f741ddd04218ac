-- ===== src/Gateway/Health/Examples.antt =====
-- The health checker's theorems at concrete inputs.
use xtrinode.Shared.{
  ℕ, ◌≡◌, refl, List, [], ◌∷◌, none, some, arith, here, there, ◌≢◌, eq_iff, String,
}
use xtrinode.Shared.Dict.{lookup, insert}
use xtrinode.Gateway.Health.{
  sleeping, HealthChecker, answered, connection_error, transport_error, get_state, probe_backend,
  check_all_backends, ProbeOutcome, record_success, record_sleeping,
}
use xtrinode.Gateway.Health.State.{probed}
use xtrinode.Gateway.Health.Streak.{check_all_backends-checked}

abbrev empty : HealthChecker
empty = record { health_status = []; failure_threshold = 3; stale_threshold = 15 }

abbrev a_round : List (String × ProbeOutcome)
a_round = ("http://a", answered 200) ∷ ("http://b", connection_error "refused") ∷ []

b_sleeps : get_state 20 "http://b" (check_all_backends 20 a_round empty) ≡ sleeping
unfolding get_state check_all_backends probe_backend record_success record_sleeping lookup insert
b_sleeps = refl

check_all_backends-checked_example :
    lookup "http://b" (check_all_backends 20 a_round empty).health_status
    ≡ some (probed 20 3 "http://b" (connection_error "refused") none)
unfolding lookup
check_all_backends-checked_example =
    check_all_backends-checked 20 a_round empty ((a_is_not_b, tt), (tt, tt)) "http://b"
      (connection_error "refused") (there here)
  where
    a_is_not_b : ◌≢◌ {A = String} "http://b" "http://a"
    a_is_not_b = ground (arith, eq_iff "http://b" "http://a")

abbrev three_failures : List (ℕ × ProbeOutcome)
three_failures = (20, answered 500) ∷ (25, transport_error "timeout") ∷ (30, answered 404) ∷ []
