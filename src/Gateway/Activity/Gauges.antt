-- ===== src/Gateway/Activity/Gauges.antt =====
-- query_activity.go: the gauge of queries in flight follows the table.
use xtrinode.Shared.{
  ℕ, String, false, arith, ◌≡◌, refl, not, List, [], ◌∷◌, Bool-cases, inl, inr, keep, ◌||◌, str_eq,
}
use xtrinode.Shared.Int.{ℤ}
use xtrinode.Shared.Dict.{
  Dict, IsDistinct, by_value, insert-IsDistinct, delete-IsDistinct, keep-IsDistinct,
}
use xtrinode.Gateway.QueryState.{normalize, is_terminal}
use xtrinode.Gateway.Activity.{
  QueryActivity, Labels, QueryActivityTracker, new_query_activity_tracker, counts, expired,
  any_expired, cleanup_expired, backend_loads, observe, recompute_gauges,
}

-- Each query is tracked once, and the gauge shows the number of tracked queries under its labels.
pub record IsConsistent (t : QueryActivityTracker) : Type 0 where
  pub distinct : IsDistinct t.queries
  pub shown : (l : Labels) → t.gauges l ≡ counts t.queries l

pub new_query_activity_tracker-IsConsistent :
    (ttl : ℤ) → IsConsistent (new_query_activity_tracker ttl)
unfolding new_query_activity_tracker
new_query_activity_tracker-IsConsistent ttl = record { distinct = tt; shown = λ l. refl }

keep_none_expired :
    (now ttl : ℕ) (m : Dict QueryActivity)
    → any_expired now ttl m ≡ false
    → keep (by_value (λ a. not (expired now ttl a))) m ≡ m
keep_none_expired now ttl [] h = refl
keep_none_expired now ttl ((k, a) ∷ m) h = ground (arith, keep_none_expired now ttl m)

cleanup_expired-IsConsistent :
    (now : ℕ) (t : QueryActivityTracker) → IsConsistent t → IsConsistent (cleanup_expired now t)
unfolding cleanup_expired
cleanup_expired-IsConsistent now t v = elim (Bool-cases (any_expired now t.ttl t.queries)) [
  | inl e ↦ rw e (record { distinct = keep-IsDistinct _ t.queries v.distinct; shown = λ l. refl })
  | inr e ↦
      rw (e, keep_none_expired now t.ttl t.queries e)
        (record { distinct = v.distinct; shown = v.shown })
]

recompute_gauges-IsConsistent :
    (t : QueryActivityTracker) (m : Dict QueryActivity)
    → IsDistinct m
    → IsConsistent (recompute_gauges (record t { queries = m }))
unfolding recompute_gauges
recompute_gauges-IsConsistent t m d = record { distinct = d; shown = λ l. refl }

-- What comes to a tracker: an observed query, a request for the loads, or the periodic clean-up.
pub data Event : Type 0 where
  observes : ℕ → String → String → String → String → String → String → Event
  reads_loads cleans : ℕ → Event

module _ (upper_trim : String → String) where
  observe-IsConsistent :
      (now : ℕ) (id ns x group url state : String) (t : QueryActivityTracker)
      → IsConsistent t
      → IsConsistent (observe upper_trim now id ns x group url state t)
  unfolding observe
  observe-IsConsistent now id ns x group url state t v =
      elim (Bool-cases (str_eq id "" || (str_eq ns "" || str_eq x ""))) [
        | inl e ↦ rw e v
        | inr e ↦ rw e (elim (Bool-cases (is_terminal upper_trim (normalize upper_trim state))) [
          | inl e' ↦
              rw e' (recompute_gauges-IsConsistent t _ (delete-IsDistinct id t.queries v.distinct))
          | inr e' ↦
              rw e'
                (recompute_gauges-IsConsistent t _ (insert-IsDistinct id _ t.queries v.distinct))
        ])
      ]

  unfoldable pub step : QueryActivityTracker → Event → QueryActivityTracker
  step t (observes now id ns x group url state) = observe upper_trim now id ns x group url state t
  step t (reads_loads now) = (backend_loads now t).0
  step t (cleans now) = cleanup_expired now t

  unfoldable pub run : QueryActivityTracker → List Event → QueryActivityTracker
  run t [] = t
  run t (e ∷ es) = run (step t e) es

  step-IsConsistent :
      (t : QueryActivityTracker) (e : Event) → IsConsistent t → IsConsistent (step t e)
  unfolding step backend_loads
  step-IsConsistent t (observes now id ns x group url state) v =
      observe-IsConsistent now id ns x group url state t v
  step-IsConsistent t (reads_loads now) v = cleanup_expired-IsConsistent now t v
  step-IsConsistent t (cleans now) v = cleanup_expired-IsConsistent now t v

  -- After any events the gauge shows, for every set of labels, the number of tracked queries under
  -- them, and no query is tracked twice.
  pub run-IsConsistent :
      (t : QueryActivityTracker) (es : List Event) → IsConsistent t → IsConsistent (run t es)
  unfolding run
  run-IsConsistent t [] v = v
  run-IsConsistent t (e ∷ es) v = run-IsConsistent (step t e) es (step-IsConsistent t e v)
