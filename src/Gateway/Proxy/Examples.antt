-- ===== src/Gateway/Proxy/Examples.antt =====
-- The proxy's theorems at a breaker that has its probe out.
use xtrinode.Shared.{◌≡◌, ◌≢◌, refl, inr, true, List, [], ◌∷◌, some, arith, eq_iff, String}
use xtrinode.Shared.Dict.{lookup}
use xtrinode.Gateway.Breaker.{CircuitBreaker, half_open}
use xtrinode.Gateway.Breaker.Manager.{Manager}
use xtrinode.Gateway.Proxy.{serve, unavailable}
use xtrinode.Gateway.Proxy.Wedge.{IsProbing, Event, asks, answers, run, wedged_by_neutral}

abbrev probing : CircuitBreaker
probing = record {
  backend_url = "http://a";
  state = half_open;
  failure_threshold = 5;
  success_threshold = 2;
  timeout = 30;
  consecutive_failures = 5;
  consecutive_successes = 0;
  consecutive_overloads = 0;
  last_failure = 10;
  last_success = 0;
  half_open_probe_active = true;
}

abbrev table : Manager
table = ("http://a", probing) ∷ []

a_url : ◌≢◌ {A = String} "http://a" ""
a_url = ground (arith, eq_iff "http://a" "")

out : IsProbing probing
out = record { half = refl; taken = refl }

-- The probe was answered by 401, long ago.
abbrev unauthorized : List Event
unauthorized = answers 41 401 ∷ asks 50 ∷ asks 5000 ∷ []

wedged_by_neutral_example :
    (serve 1_000_000 "http://a" (run "http://a" unauthorized (some table))).0 ≡ unavailable 30
unfolding lookup
wedged_by_neutral_example =
    wedged_by_neutral "http://a" unauthorized table 1_000_000 a_url
      ((inr (omega arith), omega arith), (tt, (tt, tt))) (probing, refl, out)
