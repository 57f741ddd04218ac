-- ===== src/ApiServer/Resume/Candidate.antt =====
-- resume.go: the cluster that a request for a pool wakes.
use xtrinode.Shared.{
  String, ◌≡◌, refl, true, false, ◌&&◌, arith, List, [], ◌∷◌, All, All-Member, Member, Option, none,
  some, eq_iff, str_eq, ◌⊎◌,
}
use xtrinode.Shared.Int.{ℤ, pos, int_lt, int_lt_asym, int_lt_ntrans}
use xtrinode.Shared.Pick.{pick_from, Picks, pick_from-none-Picks}
use xtrinode.ApiServer.Resume.{
  Listed, CandidateRuntime, xtrinode_matches_routing_group, has_ready, is_pool_empty,
  phase_priority, is_candidate, wakes_before, value_or, named, pick_candidate_from_routes,
}

wakes_before_asym : (a b : Listed) → wakes_before a b ≡ true → wakes_before b a ≡ false
unfolding wakes_before
wakes_before_asym a b h =
    ground (arith, int_lt_asym (value_or (pos 0) a.capacity) (value_or (pos 0) b.capacity))

wakes_before_ntrans :
    (a b c : Listed)
    → wakes_before a b ≡ false
    → wakes_before b c ≡ false
    → wakes_before a c ≡ false
unfolding wakes_before
wakes_before_ntrans a b c p q = ground (
  arith,
  int_lt_ntrans (value_or (pos 0) a.capacity) (value_or (pos 0) b.capacity)
      (value_or (pos 0) c.capacity),
)

-- In the group, suspended or being reconciled, and with a capacity.
pub record CanWake (group : String) (t : Listed) (capacity : ℤ) : Type 0 where
  pub member : xtrinode_matches_routing_group group t ≡ true
  pub phase : (t.phase ≡ "Suspended") ⊎ (t.phase ≡ "Reconciling")
  pub shape : t.capacity ≡ some capacity

CanWake-is_candidate :
    (group : String) (t : Listed) (n : ℤ) → CanWake group t n → is_candidate group t ≡ true
unfolding is_candidate phase_priority
CanWake-is_candidate group t n h =
    ground
      (arith, h.member, h.phase, h.shape, eq_iff t.phase "Suspended", eq_iff t.phase "Reconciling")

is_candidate-CanWake :
    (group : String) (t : Listed) → is_candidate group t ≡ true → (n : ℤ) × CanWake group t n
unfolding is_candidate phase_priority
is_candidate-CanWake group t h = (
  value_or (pos 0) t.capacity,
  record {
    member = ground (arith, h);
    phase = ground (arith, h, eq_iff t.phase "Suspended", eq_iff t.phase "Reconciling");
    shape = ground (arith, h);
  },
)

-- A suspended cluster goes before one that is being reconciled, and then a smaller one before a
-- larger one.
abbrev pub NotBehind : Listed → ℤ → Listed → ℤ → Type 0
NotBehind r m t n =
    ((r.phase ≡ "Suspended") × (t.phase ≡ "Reconciling"))
    ⊎ ((r.phase ≡ t.phase) × (int_lt n m ≡ false))

wakes_before-NotBehind :
    (group : String) (r t : Listed) (m n : ℤ)
    → CanWake group r m
    → CanWake group t n
    → wakes_before t r ≡ false
    → NotBehind r m t n
unfolding wakes_before phase_priority
wakes_before-NotBehind group r t m n p q h = ground (
  arith,
  h,
  p.phase,
  q.phase,
  p.shape,
  q.shape,
  eq_iff r.phase "Suspended",
  eq_iff t.phase "Suspended",
  eq_iff r.phase "Reconciling",
  eq_iff t.phase "Reconciling",
)

-- What a pick is: a cluster of the list that can be woken and that none goes before.
pub record IsPicked (group : String) (ts : List Listed) (c : CandidateRuntime) (r : Listed) (m : ℤ)
    : Type 0 where
  pub among : Member r ts
  pub can_wake : CanWake group r m
  pub same_namespace : c.namespace ≡ r.namespace
  pub same_name : c.name ≡ r.name
  pub best : (t : Listed) (n : ℤ) → Member t ts → CanWake group t n → NotBehind r m t n

settled :
    (group : String) (ts : List Listed) (o : Option Listed) (t : Listed)
    → Picks (is_candidate group) wakes_before ts o
    → Member t ts
    → is_candidate group t ≡ true
    → (c : CandidateRuntime) × (named o ≡ some c) × (r : Listed) × (m : ℤ) × IsPicked group ts c r m
settled group ts none t p among h = ground (arith, h, All-Member _ ts p among)
settled group ts (some r) t (m, (ok, best)) among h =
    let (n, wake) = is_candidate-CanWake group r ok in
    (
      record { namespace = r.namespace; name = r.name },
      refl,
      r,
      n,
      record {
        among = m;
        can_wake = wake;
        same_namespace = refl;
        same_name = refl;
        best = λ q k at w.
            wakes_before-NotBehind group r q n k wake w
              (All-Member _ ts best at (CanWake-is_candidate group q k w));
      },
    )

-- Where a listed cluster can be woken, one is picked.
pub pick_candidate_from_routes-IsPicked :
    (group : String) (ts : List Listed) (t : Listed) (n : ℤ)
    → Member t ts
    → CanWake group t n
    → (c : CandidateRuntime) × (pick_candidate_from_routes group (some ts) ≡ some c)
      × (r : Listed) × (m : ℤ) × IsPicked group ts c r m
unfolding pick_candidate_from_routes
pick_candidate_from_routes-IsPicked group ts t n among h =
    settled group ts (pick_from (is_candidate group) wakes_before none ts) t
      (pick_from-none-Picks (is_candidate group) wakes_before wakes_before_asym wakes_before_ntrans
        ts)
      among (CanWake-is_candidate group t n h)

pub none_ready-is_pool_empty :
    (group : String) (ts : List Listed)
    → All (λ t. (xtrinode_matches_routing_group group t && str_eq t.phase "Ready") ≡ false) ts
    → is_pool_empty group (some ts) ≡ true
unfolding is_pool_empty has_ready
none_ready-is_pool_empty group [] h = refl
none_ready-is_pool_empty group (t ∷ ts) h =
    ground (arith, h.0, none_ready-is_pool_empty group ts h.1)
