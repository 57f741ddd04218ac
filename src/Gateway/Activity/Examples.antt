-- ===== src/Gateway/Activity/Examples.antt =====
-- The query tracker's theorems at concrete inputs, with a normaliser that leaves states alone.
use xtrinode.Shared.{ℕ, ◌≡◌, List, [], ◌∷◌, arith, ◌≢◌, eq_iff, String}
use xtrinode.Shared.Int.{pos}
use xtrinode.Shared.Dict.{lookup}
use xtrinode.Gateway.Activity.{
  QueryActivity, QueryActivityTracker, new_query_activity_tracker, backend_loads, load_or_zero,
}
use xtrinode.Gateway.Activity.Gauges.{
  IsConsistent, Event, observes, reads_loads, run, run-IsConsistent,
  new_query_activity_tracker-IsConsistent,
}
use xtrinode.Gateway.Activity.Loads.{backend_loads-count}

abbrev query : String → ℕ → QueryActivity
query state seen = record {
  namespace = "ns";
  xtrinode = "x";
  routing_group = "g";
  backend_url = "http://a";
  state = state;
  last_seen = seen;
}

-- Two running queries and a queued one, and one that was last seen too long ago.
abbrev busy : QueryActivityTracker
busy = record {
  queries =
      ("q1", query "RUNNING" 90)
      ∷ ("q2", query "QUEUED" 95)
      ∷ ("q3", query "PLANNING" 99)
      ∷ ("q4", query "RUNNING" 5)
      ∷ [];
  ttl = 20;
  gauges = λ _. 0;
}

backend_loads-count_example :
    let load = load_or_zero (lookup "http://a" (backend_loads 100 busy).1) in
    (load.queued_queries ≡ 1) × (load.running_queries ≡ 2)
backend_loads-count_example = backend_loads-count 100 "http://a" busy a_url
  where
    a_url : ◌≢◌ {A = String} "http://a" ""
    a_url = ground (arith, eq_iff "http://a" "")

abbrev two_events : List Event
two_events = observes 5 "q1" "ns" "x" "g" "http://a" "RUNNING" ∷ reads_loads 50 ∷ []

run-IsConsistent_example :
    IsConsistent (run (λ s. s) (new_query_activity_tracker (pos 20)) two_events)
run-IsConsistent_example =
    run-IsConsistent (λ s. s) (new_query_activity_tracker (pos 20)) two_events
      (new_query_activity_tracker-IsConsistent (pos 20))
