-- ===== src/Gateway/Activity.antt =====
-- xtrinode/pkg/gateway/query_activity.go: the queries that were seen lately, the load that they put
-- on each backend, and the gauge of queries in flight. `normal` is `querystate.Normalize`'s use of
-- Go's strings package; `now` is the tracker's clock.
pub mod Gauges
pub mod Loads
mod Examples
use xtrinode.Shared.{
  ℕ, ◌+◌, ◌-◌, ◌*◌, String, Bool, true, false, ◌&&◌, ◌||◌, not, leb, ltb, str_eq, if◌then◌else◌,
  Option, none, some, List, [], ◌∷◌, keep, count, second,
}
use xtrinode.Shared.Int.{ℤ, non_positive, to_nat}
use xtrinode.Shared.Dict.{Dict, lookup, insert, delete, by_value}
use xtrinode.Gateway.QueryState.{normalize, is_terminal}

pub record QueryActivity : Type 0 where
  pub namespace : String
  pub xtrinode : String
  pub routing_group : String
  pub backend_url : String
  pub state : String
  pub last_seen : ℕ

pub record BackendLoad : Type 0 where
  pub running_queries : ℕ
  pub queued_queries : ℕ
  pub last_update : ℕ

-- The labels of the gauge.
pub record Labels : Type 0 where
  pub namespace : String
  pub xtrinode : String
  pub routing_group : String
  pub state : String

pub record QueryActivityTracker : Type 0 where
  pub queries : Dict QueryActivity
  pub ttl : ℕ
  pub gauges : Labels → ℕ

abbrev pub default_query_activity_ttl : ℕ
default_query_activity_ttl = 600 * second

unfoldable pub new_query_activity_tracker : ℤ → QueryActivityTracker
new_query_activity_tracker ttl = record {
  queries = [];
  ttl = if non_positive ttl then default_query_activity_ttl else to_nat ttl;
  gauges = λ _. 0;
}

abbrev pub has_labels : Labels → QueryActivity → Bool
has_labels l a =
    str_eq a.namespace l.namespace
    && (str_eq a.xtrinode l.xtrinode
        && (str_eq a.routing_group l.routing_group && str_eq a.state l.state))

-- The number of tracked queries under each set of labels.
abbrev pub counts : Dict QueryActivity → Labels → ℕ
counts queries l = count (by_value (has_labels l)) queries

unfoldable pub recompute_gauges : QueryActivityTracker → QueryActivityTracker
recompute_gauges t = record t { gauges = counts t.queries }

abbrev pub expired : ℕ → ℕ → QueryActivity → Bool
expired now ttl a = ltb ttl (now - a.last_seen)

-- The entries that are not expired; the flag says whether any was removed.
abbrev pub live : ℕ → QueryActivityTracker → Dict QueryActivity
live now t = keep (by_value (λ a. not (expired now t.ttl a))) t.queries

abbrev pub any_expired : ℕ → ℕ → Dict QueryActivity → Bool
any_expired now ttl [] = false
any_expired now ttl ((k, a) ∷ rest) = expired now ttl a || any_expired now ttl rest

unfoldable pub cleanup_expired : ℕ → QueryActivityTracker → QueryActivityTracker
unfolding recompute_gauges
cleanup_expired now t =
    let t' = record t { queries = live now t } in
    if any_expired now t.ttl t.queries then recompute_gauges t' else t'

abbrev pub no_load : BackendLoad
no_load = record { running_queries = 0; queued_queries = 0; last_update = 0 }

abbrev pub load_or_zero : Option BackendLoad → BackendLoad
load_or_zero none = no_load
load_or_zero (some load) = load

counted : ℕ → String → BackendLoad → BackendLoad
counted now state load =
    if str_eq state "QUEUED"
    then record load { queued_queries = load.queued_queries + 1; last_update = now }
    else record load { running_queries = load.running_queries + 1; last_update = now }

-- The loop of `BackendLoads` over the entries that are left, in any order.
unfoldable pub add_loads : ℕ → Dict QueryActivity → Dict BackendLoad → Dict BackendLoad
unfolding counted
add_loads now [] loads = loads
add_loads now ((k, a) ∷ rest) loads = add_loads now rest (
    if str_eq a.backend_url ""
    then loads
    else insert a.backend_url (counted now a.state (load_or_zero (lookup a.backend_url loads)))
        loads)

unfoldable pub backend_loads : ℕ → QueryActivityTracker → QueryActivityTracker × Dict BackendLoad
unfolding cleanup_expired
backend_loads now t = (cleanup_expired now t, add_loads now (live now t) [])

module _ (upper_trim : String → String) where
  unfoldable pub observe :
      ℕ
      → String
      → String
      → String
      → String
      → String
      → String
      → QueryActivityTracker
      → QueryActivityTracker
  unfolding recompute_gauges
  observe now query_id namespace xtrinode routing_group backend_url raw_state t =
      let state = normalize upper_trim raw_state in
      if str_eq query_id "" || (str_eq namespace "" || str_eq xtrinode "")
      then t
      else if is_terminal upper_trim state
      then recompute_gauges (record t { queries = delete query_id t.queries })
      else recompute_gauges (record t {
        queries =
            insert query_id
              (record {
                namespace = namespace;
                xtrinode = xtrinode;
                routing_group = routing_group;
                backend_url = backend_url;
                state = state;
                last_seen = now;
              })
              t.queries;
      })
