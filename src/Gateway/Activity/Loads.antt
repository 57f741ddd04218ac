-- ===== src/Gateway/Activity/Loads.antt =====
-- query_activity.go, `BackendLoads`: what the loop over the table adds up to.
use xtrinode.Shared.{
  ℕ, ◌+◌, String, Bool, arith, ◌≡◌, ◌≢◌, not, if◌then◌else◌, [], ◌∷◌, ◌&&◌, str_eq, count, eq_iff,
}
use xtrinode.Shared.Dict.{Dict, lookup, insert, by_value, lookup-insert}
use xtrinode.Gateway.Activity.{
  QueryActivity, QueryActivityTracker, BackendLoad, add_loads, backend_loads, live, load_or_zero,
  counted,
}

abbrev pub is_queued_at : String → QueryActivity → Bool
is_queued_at url a = str_eq a.backend_url url && str_eq a.state "QUEUED"

abbrev pub is_running_at : String → QueryActivity → Bool
is_running_at url a = str_eq a.backend_url url && not (str_eq a.state "QUEUED")

counted-load :
    (now : ℕ) (url : String) (a : QueryActivity) (loads : Dict BackendLoad)
    → url ≢ ""
    → let load = counted now a.state (load_or_zero (lookup a.backend_url loads)) in
      let loads' = if str_eq a.backend_url "" then loads else insert a.backend_url load loads in
      let before = load_or_zero (lookup url loads) in
      let after = load_or_zero (lookup url loads') in
      (after.queued_queries ≡ before.queued_queries + (if is_queued_at url a then 1 else 0))
      × (after.running_queries ≡ before.running_queries + (if is_running_at url a then 1 else 0))
unfolding counted
counted-load now url a loads ne = ground (
  arith,
  eq_iff a.backend_url "",
  eq_iff a.backend_url url,
  lookup-insert a.backend_url url (counted now a.state (load_or_zero (lookup a.backend_url loads)))
      loads,
)

add_loads-count :
    (now : ℕ) (url : String) (m : Dict QueryActivity) (loads : Dict BackendLoad)
    → url ≢ ""
    → let before = load_or_zero (lookup url loads) in
      let after = load_or_zero (lookup url (add_loads now m loads)) in
      (after.queued_queries ≡ before.queued_queries + count (by_value (is_queued_at url)) m)
      × (after.running_queries ≡ before.running_queries + count (by_value (is_running_at url)) m)
unfolding add_loads
add_loads-count now url [] loads ne = omega arith
add_loads-count now url ((k, a) ∷ m) loads ne =
    let load = counted now a.state (load_or_zero (lookup a.backend_url loads)) in
    let loads' = if str_eq a.backend_url "" then loads else insert a.backend_url load loads in
    let (queued, running) = add_loads-count now url m loads' ne in
    let (q, r) = counted-load now url a loads ne in omega (arith, queued, running, q, r)

-- The load of a backend is the number of its queries that are tracked and not expired: those in the
-- state QUEUED as queued, all others as running.
pub backend_loads-count :
    (now : ℕ) (url : String) (t : QueryActivityTracker)
    → url ≢ ""
    → let load = load_or_zero (lookup url (backend_loads now t).1) in
      (load.queued_queries ≡ count (by_value (is_queued_at url)) (live now t))
      × (load.running_queries ≡ count (by_value (is_running_at url)) (live now t))
unfolding backend_loads lookup
backend_loads-count now url t ne = omega (arith, add_loads-count now url (live now t) [] ne)
