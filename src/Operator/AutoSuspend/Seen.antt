-- ===== src/Operator/AutoSuspend/Seen.antt =====
-- autosuspend.go: what the update of the activity leaves of what it sees.
use xtrinode.Shared.{
  subst, ℕ, ◌+◌, ◌≤◌, ◌≡◌, refl, Bool, true, false, ltb, arith, List, ◌<◌, Option, none, some,
  if◌then◌else◌, Bool-cases, inl, inr, ◌⊎◌,
}
use xtrinode.Operator.AutoSuspend.{
  Monitored, last_seen, Query, Texts, QueryActivity, query_activity, Clock, Save, save_failed,
  saves_on, update_last_activity_at, update_last_activity_from_query_activity, Coordinator,
  update_last_activity_if_queries_active, by_metrics, from_history, newer_activity,
}

-- The clock does not go back during the call.
pub record IsOrdered (k : Clock) : Type 0 where
  pub compare : k.active ≤ k.compared
  pub cap : k.compared ≤ k.capped

-- A limit that the call itself does not use up.
abbrev pub Outlasts : Clock → Option ℕ → Type 0
Outlasts k none = Unit
Outlasts k (some limit) = k.idle < k.active + limit

-- A copy of the cluster that is read or written on the way: it was created when `t` was, was not
-- active before that, and has no limit that the call uses up.
pub record IsCopy (k : Clock) (t m : Monitored) : Type 0 where
  pub created : m.created_at ≡ t.created_at
  pub seen : m.created_at ≤ last_seen m
  pub limit : Outlasts k m.auto_suspend_after

-- The activity counts as seen: the cluster was active just now, or nothing is active and what the
-- history has is not after the last activity.
abbrev pub IsSeen : Clock → QueryActivity → Monitored → Type 0
IsSeen k activity u =
    (k.active ≤ last_seen u)
    ⊎ ((activity.active_queries ≡ 0)
        × ((l : ℕ) → activity.latest_activity ≡ some l → (l ≤ last_seen u)))

updated-seen :
    (k : Clock) (activity : ℕ) (save : Save) (u : Monitored)
    → IsOrdered k
    → update_last_activity_at k activity save ≡ some u
    → (k.active ≤ last_seen u) ⊎ (activity ≤ last_seen u)
unfolding update_last_activity_at
updated-seen k activity save_failed u o e = ground (arith, e)
updated-seen k activity (saves_on fresh) u o e = ground (arith, e, o.compare, o.cap)

newer_activity-IsSeen :
    (k : Clock) (t u : Monitored) (o : Option ℕ) (save : Save)
    → IsOrdered k
    → newer_activity k t o save ≡ some u
    → (k.active ≤ last_seen u) ⊎ ((l : ℕ) → o ≡ some l → (l ≤ last_seen u))
unfolding newer_activity
newer_activity-IsSeen k t u none save ordered e = inr (λ l h. ground (arith, h))
newer_activity-IsSeen k t u (some latest) save ordered e =
    elim (Bool-cases (ltb (last_seen t) latest)) [
      | inl newer ↦ elim (updated-seen k latest save u ordered (ground (arith, e, newer))) [
        | inl just_now ↦ inl just_now
        | inr seen ↦ inr (λ l h. ground (arith, h, seen))
      ]
      | inr older ↦ inr (λ l h. ground (arith, h, older, e))
    ]

from_query_activity-IsSeen :
    (k : Clock) (t u : Monitored) (activity : QueryActivity) (save : Save)
    → IsOrdered k
    → update_last_activity_from_query_activity k t activity save ≡ some u
    → IsSeen k activity u
unfolding update_last_activity_from_query_activity
from_query_activity-IsSeen k t u activity save ordered e =
    elim (Bool-cases (ltb 0 activity.active_queries)) [
      | inl active ↦ elim (updated-seen k k.active save u ordered (ground (arith, e, active))) [
        | inl just_now ↦ inl just_now
        | inr just_now ↦ inl just_now
      ]
      | inr none_active ↦
          elim (newer_activity-IsSeen k t u activity.latest_activity save ordered
            (ground (arith, e, none_active))) [
              | inl just_now ↦ inl just_now
              | inr seen ↦ inr (ground (arith, none_active), seen)
            ]
    ]

pub if_queries_active-IsSeen :
    (x : Texts) (k : Clock) (t u : Monitored) (c : Coordinator) (save : Save)
    → IsOrdered k
    → update_last_activity_if_queries_active x k t c save ≡ some u
    → (k.active ≤ last_seen u)
      ⊎ ((qs : List Query) × (c.history ≡ some qs) × IsSeen k (query_activity x qs) u)
unfolding update_last_activity_if_queries_active
if_queries_active-IsSeen x k t u c save ordered e = by_cases c.metrics c.history (ground (arith, e))
  where
    from_it :
        (history : Option (List Query))
        → from_history x k t history save ≡ some u
        → (qs : List Query) × (history ≡ some qs) × IsSeen k (query_activity x qs) u
    from_it none h = ground (arith, h)
    from_it (some qs) h =
        (qs, refl, from_query_activity-IsSeen k t u (query_activity x qs) save ordered h)

    by_cases :
        (metrics : Option Bool) (history : Option (List Query))
        → by_metrics x k t metrics history save ≡ some u
        → (k.active ≤ last_seen u)
          ⊎ ((qs : List Query) × (history ≡ some qs) × IsSeen k (query_activity x qs) u)
    by_cases none history h = inr (from_it history h)
    by_cases (some false) history h = inr (from_it history h)
    by_cases (some true) history h = elim (updated-seen k k.active save u ordered h) [
      | inl just_now ↦ inl just_now
      | inr just_now ↦ inl just_now
    ]

-- A save, if it writes, writes on a copy.
abbrev pub SavesCopy : Clock → Monitored → Save → Type 0
SavesCopy k t save = (m : Monitored) → save ≡ saves_on m → IsCopy k t m

-- What the update of the activity keeps: the creation, a limit that the call does not use up, and an
-- activity that is not before the creation, if it is not just now.
abbrev pub Keeps : Clock → Monitored → Monitored → Type 0
Keeps k t u =
    (u.created_at ≡ t.created_at)
    × Outlasts k u.auto_suspend_after
    × ((k.active ≤ last_seen u) ⊎ (t.created_at ≤ last_seen u))

module _ (x : Texts) (k : Clock) (t u : Monitored) (c : Coordinator) (save : Save)
    (ordered : IsOrdered k) (own : IsCopy k t t) (copy : SavesCopy k t save) where
  updated-Keeps :
      (activity : ℕ)
      → (k.active ≤ activity) ⊎ (t.created_at ≤ activity)
      → update_last_activity_at k activity save ≡ some u
      → Keeps k t u
  unfolding update_last_activity_at
  updated-Keeps activity not_old e = by_save save copy e
    where
      by_save :
          (s : Save) → SavesCopy k t s → update_last_activity_at k activity s ≡ some u → Keeps k t u
      by_save save_failed copies h = ground (arith, h)
      by_save (saves_on fresh) copies h =
          let m = copies fresh refl in
          let written : record fresh {
            last_activity = some (if ltb k.compared activity then k.capped else activity);
          }
              ≡ u =
            ground (arith, h) in
          subst (Keeps k t) written
            (m.created, m.limit, ground (arith, not_old, ordered.compare, ordered.cap))

  own-Keeps : Keeps k t t
  own-Keeps = (refl, own.limit, inr own.seen)

  newer_activity-Keeps : (o : Option ℕ) → newer_activity k t o save ≡ some u → Keeps k t u
  unfolding newer_activity
  newer_activity-Keeps none e =
      let same : t ≡ u = ground (arith, e) in subst (Keeps k t) same own-Keeps
  newer_activity-Keeps (some latest) e = elim (Bool-cases (ltb (last_seen t) latest)) [
    | inl newer ↦
        updated-Keeps latest (inr (ground (arith, newer, own.seen))) (ground (arith, e, newer))
    | inr older ↦ let same : t ≡ u = ground (arith, e, older) in subst (Keeps k t) same own-Keeps
  ]

  from_history-Keeps :
      (history : Option (List Query)) → from_history x k t history save ≡ some u → Keeps k t u
  unfolding from_history update_last_activity_from_query_activity
  from_history-Keeps none e = ground (arith, e)
  from_history-Keeps (some qs) e = elim (Bool-cases (ltb 0 (query_activity x qs).active_queries)) [
    | inl active ↦ updated-Keeps k.active (inl (omega arith)) (ground (arith, e, active))
    | inr none_active ↦
        newer_activity-Keeps (query_activity x qs).latest_activity (ground (arith, e, none_active))
  ]

  by_metrics-Keeps :
      (metrics : Option Bool) → by_metrics x k t metrics c.history save ≡ some u → Keeps k t u
  unfolding by_metrics
  by_metrics-Keeps none e = from_history-Keeps c.history e
  by_metrics-Keeps (some false) e = from_history-Keeps c.history e
  by_metrics-Keeps (some true) e = updated-Keeps k.active (inl (omega arith)) e

  pub if_queries_active-Keeps :
      update_last_activity_if_queries_active x k t c save ≡ some u → Keeps k t u
  unfolding update_last_activity_if_queries_active
  if_queries_active-Keeps e = by_metrics-Keeps c.metrics (ground (arith, e))
