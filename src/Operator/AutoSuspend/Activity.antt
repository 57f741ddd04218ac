-- ===== src/Operator/AutoSuspend/Activity.antt =====
-- autosuspend.go: what the history of queries says of the activity of a cluster.
use xtrinode.Shared.{
  ◌⊎◌, ℕ, ◌+◌, ◌≤◌, String, ◌≡◌, refl, Bool, false, ltb, arith, List, [], ◌∷◌, Member, here, there,
  Option, none, some, count, Bool-cases, inl, inr,
}
use xtrinode.Gateway.QueryState.{is_active}
use xtrinode.Operator.AutoSuspend.{
  add_query, Texts, Query, query_fields, parse_query_timestamp, later_of, latest_of_fields,
  latest_query_timestamp, QueryActivity, scan, query_activity,
}

-- Where `o` is a time, `latest` is one that is not before it.
abbrev pub Covers : Option ℕ → Option ℕ → Type 0
Covers latest o = (t : ℕ) → o ≡ some t → (l : ℕ) × (latest ≡ some l) × (t ≤ l)

later_of-left : (a b : Option ℕ) → Covers (later_of a b) a
later_of-left none b t e = ground (arith, e)
later_of-left (some a) none t e = (a, refl, ground (arith, e))
later_of-left (some a) (some b) t e = elim (Bool-cases (ltb a b)) [
  | inl less ↦ (b, rw less refl, ground (arith, e, less))
  | inr more ↦ (a, rw more refl, ground (arith, e))
]

later_of-right : (a b : Option ℕ) → Covers (later_of a b) b
later_of-right a none t e = ground (arith, e)
later_of-right none (some b) t e = (b, refl, ground (arith, e))
later_of-right (some a) (some b) t e = elim (Bool-cases (ltb a b)) [
  | inl less ↦ (b, rw less refl, ground (arith, e))
  | inr more ↦ (a, rw more refl, ground (arith, e, more))
]

Covers-trans : (a b c : Option ℕ) → Covers a b → Covers b c → Covers a c
Covers-trans a b c p q t e =
    let (l, f, le) = q t e in let (m, g, le') = p l f in (m, g, omega (arith, le, le'))

module _ (x : Texts) (field : String → Option String) where
  latest_of_fields-start :
      (start : Option ℕ) (fs : List String) → Covers (latest_of_fields x field start fs) start
  unfolding latest_of_fields
  latest_of_fields-start start [] t e = (t, e, omega arith)
  latest_of_fields-start start (f ∷ fs) t e =
      let o = parse_query_timestamp x (field f) in
      Covers-trans (latest_of_fields x field (later_of start o) fs) (later_of start o) start
        (latest_of_fields-start (later_of start o) fs) (later_of-left start o) t e

  latest_of_fields-Covers :
      (f : String) (start : Option ℕ) (fs : List String)
      → Member f fs
      → Covers (latest_of_fields x field start fs) (parse_query_timestamp x (field f))
  unfolding latest_of_fields
  latest_of_fields-Covers f start _ (here {xs = fs}) =
      let o = parse_query_timestamp x (field f) in
      Covers-trans (latest_of_fields x field (later_of start o) fs) (later_of start o) o
        (latest_of_fields-start (later_of start o) fs) (later_of-right start o)
  latest_of_fields-Covers f start _ (there {x = g} {xs = fs} m) =
      latest_of_fields-Covers f (later_of start (parse_query_timestamp x (field g))) fs m

-- A time that a query has in one of its fields or in its statistics.
abbrev pub HasTime : Texts → Query → String → ℕ → Type 0
HasTime x q f t =
    Member f query_fields
    × ((parse_query_timestamp x (q.field f) ≡ some t)
        ⊎ (parse_query_timestamp x (q.stats f) ≡ some t))

latest_query_timestamp-Covers :
    (x : Texts) (q : Query) (f : String) (t : ℕ)
    → HasTime x q f t
    → (l : ℕ) × (latest_query_timestamp x q ≡ some l) × (t ≤ l)
unfolding latest_query_timestamp
latest_query_timestamp-Covers x q f t (m, inr e) =
    latest_of_fields-Covers x q.stats f (latest_of_fields x q.field none query_fields) query_fields
      m t e
latest_query_timestamp-Covers x q f t (m, inl e) =
    let own = latest_of_fields x q.field none query_fields in
    Covers-trans (latest_of_fields x q.stats own query_fields) own
      (parse_query_timestamp x (q.field f)) (latest_of_fields-start x q.stats own query_fields)
      (latest_of_fields-Covers x q.field f none query_fields m) t e

module _ (x : Texts) where
  abbrev pub counts_as_active : Query → Bool
  counts_as_active q = is_active x.upper_trim q.state

  scan-active :
      (a : QueryActivity) (qs : List Query)
      → (scan x a qs).active_queries ≡ a.active_queries + count counts_as_active qs
  unfolding scan
  scan-active a [] = omega arith
  scan-active a (q ∷ qs) = ground (arith, scan-active (add_query x a q) qs)

  scan-start :
      (a : QueryActivity) (qs : List Query) → Covers (scan x a qs).latest_activity a.latest_activity
  unfolding scan
  scan-start a [] t e = (t, e, omega arith)
  scan-start a (q ∷ qs) t e =
      let o = latest_query_timestamp x q in
      Covers-trans (scan x a (q ∷ qs)).latest_activity (later_of a.latest_activity o)
        a.latest_activity (scan-start (add_query x a q) qs) (later_of-left a.latest_activity o) t e

  scan-Covers :
      (q : Query) (a : QueryActivity) (qs : List Query)
      → Member q qs
      → Covers (scan x a qs).latest_activity (latest_query_timestamp x q)
  unfolding scan
  scan-Covers q a _ (here {xs = qs}) =
      let o = latest_query_timestamp x q in
      Covers-trans (scan x a (q ∷ qs)).latest_activity (later_of a.latest_activity o) o
        (scan-start (add_query x a q) qs) (later_of-right a.latest_activity o)
  scan-Covers q a _ (there {x = p} {xs = qs} m) = scan-Covers q (add_query x a p) qs m

  pub query_activity-active :
      (qs : List Query) → (query_activity x qs).active_queries ≡ count counts_as_active qs
  unfolding query_activity
  query_activity-active qs =
      omega (arith, scan-active (record { active_queries = 0; latest_activity = none }) qs)

  pub query_activity-latest :
      (qs : List Query) (q : Query) (f : String) (t : ℕ)
      → Member q qs
      → HasTime x q f t
      → (l : ℕ) × ((query_activity x qs).latest_activity ≡ some l) × (t ≤ l)
  unfolding query_activity
  query_activity-latest qs q f t m h =
      let (l, e, le) = latest_query_timestamp-Covers x q f t h in
      let (k, g, le') =
        scan-Covers q (record { active_queries = 0; latest_activity = none }) qs m l e in
      (k, g, omega (arith, le, le'))

pub count-zero :
    (p : Query → Bool) (q : Query) (qs : List Query) → count p qs ≡ 0 → Member q qs → p q ≡ false
count-zero p q _ e (here {xs = qs}) = ground (arith, e)
count-zero p q _ e (there {x = r} {xs = qs} m) = count-zero p q qs (ground (arith, e)) m
