-- ===== src/Gateway/Select/Capacity.antt =====
-- backend_selection.go: the backend that the capacity-aware policy picks.
use native.Mathlib.Nat.{mul-le-mul, mul-le-mul_right, le_of_mul-le-mul_right, le_trans}
use xtrinode.Shared.{
  ℕ, ◌*◌, ◌^◌, ◌≤◌, ◌<◌, ◌≡◌, refl, ◌⊎◌, inl, inr, ap, Bool-cases, ltb→lt, ◌&&◌, ltb, ◌==◌,
  if◌then◌else◌, some, List, [], ◌∷◌, arith, All, Member, here, there, Member-skip,
}
use xtrinode.Shared.Word.{mul64-eq, lt64-eq}
use xtrinode.Shared.Dict.{Dict}
use xtrinode.Gateway.Activity.{BackendLoad}
use xtrinode.Gateway.Route.{Backend}
use xtrinode.Gateway.Select.{
  Best, candidate, prefer, prefer_all, total_load, capacity_of, select_by_capacity, smallest_from,
  select_smallest_capacity,
}

-- `a` is at most as loaded for its capacity as `b`, and no larger where the two are level.
abbrev pub Preferred : Dict BackendLoad → Backend → Backend → Type 0
Preferred loads a b =
    (total_load loads a * capacity_of b < total_load loads b * capacity_of a)
    ⊎ ((total_load loads a * capacity_of b ≡ total_load loads b * capacity_of a)
        × (capacity_of a ≤ capacity_of b))

-- Loads and capacities whose products fit Go's `int`.
abbrev pub IsModest : Dict BackendLoad → Backend → Type 0
IsModest loads b = (total_load loads b < 2 ^ 31) × (capacity_of b < 2 ^ 31)

capacity_of-pos : (b : Backend) → 0 < capacity_of b
unfolding capacity_of
capacity_of-pos b = ground arith

product_small : (a b : ℕ) → a < 2 ^ 31 → b < 2 ^ 31 → a * b < 2 ^ 63
product_small a b p q =
    let le : a * b ≤ 2 ^ 31 * 2 ^ 31 =
      mul-le-mul {n₂ = 2 ^ 31} {m₂ = 2 ^ 31} (omega arith) (omega arith) in
    omega arith

-- Ratios are compared by cross-multiplication, which is transitive.
cross_trans :
    (l₁ c₁ l₂ c₂ l₃ c₃ : ℕ) → 0 < c₂ → l₁ * c₂ ≤ l₂ * c₁ → l₂ * c₃ ≤ l₃ * c₂ → l₁ * c₃ ≤ l₃ * c₁
cross_trans l₁ c₁ l₂ c₂ l₃ c₃ h p q =
    le_of_mul-le-mul_right
      (let below : l₁ * c₂ * c₃ ≤ l₂ * c₁ * c₃ = mul-le-mul_right c₃ p in
        let above : l₂ * c₃ * c₁ ≤ l₃ * c₂ * c₁ = mul-le-mul_right c₁ q in omega arith)
      h

Preferred-refl : (loads : Dict BackendLoad) (a : Backend) → Preferred loads a a
Preferred-refl loads a = inr (refl, omega arith)

Preferred-trans :
    (loads : Dict BackendLoad) (a b c : Backend)
    → Preferred loads a b
    → Preferred loads b c
    → Preferred loads a c
Preferred-trans loads a b c p q =
    let la = total_load loads a in
    let lb = total_load loads b in
    let lc = total_load loads c in
    let ca = capacity_of a in
    let cb = capacity_of b in
    let cc' = capacity_of c in
    ground (
      arith,
      cross_trans la ca lb cb lc cc' (capacity_of-pos b),
      cross_trans lc cc' la ca lb cb (capacity_of-pos a),
      cross_trans lb cb lc cc' la ca (capacity_of-pos c),
    )

-- With products that fit, the wrapped comparison is the comparison of the products.
prefer-eq :
    (loads : Dict BackendLoad) (s b : Backend)
    → IsModest loads s
    → IsModest loads b
    → prefer loads (candidate loads s) b ≡ (
        if ltb (total_load loads b * capacity_of s) (total_load loads s * capacity_of b)
        then candidate loads b
        else if (total_load loads b * capacity_of s == total_load loads s * capacity_of b)
            && ltb (capacity_of b) (capacity_of s)
        then candidate loads b
        else candidate loads s)
unfolding prefer
prefer-eq loads s b ms mb =
    let small = product_small (total_load loads b) (capacity_of s) mb.0 ms.1 in
    let small' = product_small (total_load loads s) (capacity_of b) ms.0 mb.1 in
    rw (mul64-eq _ _ small, mul64-eq _ _ small', lt64-eq _ _ small small')

prefer-cases :
    (loads : Dict BackendLoad) (s b : Backend)
    → IsModest loads s
    → IsModest loads b
    → ((prefer loads (candidate loads s) b ≡ candidate loads b) × Preferred loads b s)
      ⊎ ((prefer loads (candidate loads s) b ≡ candidate loads s) × Preferred loads s b)
prefer-cases loads s b ms mb = ground (arith, prefer-eq loads s b ms mb)

-- The scan ends with a backend of the list that is preferred to each of them.
prefer_all-Preferred :
    (loads : Dict BackendLoad) (s : Backend) (bs : List Backend)
    → All (IsModest loads) (s ∷ bs)
    → (r : Backend) × (prefer_all loads (candidate loads s) bs ≡ candidate loads r)
      × Member r (s ∷ bs)
      × All (Preferred loads r) (s ∷ bs)
unfolding prefer_all
prefer_all-Preferred loads s [] m = (s, refl, here, (Preferred-refl loads s, tt))
prefer_all-Preferred loads s (b ∷ bs) m = elim (prefer-cases loads s b m.0 m.1.0) [
  | inl (e, p) ↦
      let (r, scan, among, best) = prefer_all-Preferred loads b bs m.1 in
      (r, rw e scan, there among, (Preferred-trans loads r b s best.0 p, best))
  | inr (e, p) ↦
      let (r, scan, among, best) = prefer_all-Preferred loads s bs (m.0, m.1.1) in
      (
        r,
        rw e scan,
        Member-skip s b bs among,
        (best.0, (Preferred-trans loads r s b best.0 p, best.1)),
      )
]

-- Where loads and capacities fit, the policy picks a backend of the list whose load per capacity is
-- least, and whose capacity is least among those with that load per capacity.
pub select_by_capacity-Preferred :
    (loads : Dict BackendLoad) (b : Backend) (bs : List Backend)
    → All (IsModest loads) (b ∷ bs)
    → (r : Backend) × (select_by_capacity loads (b ∷ bs) ≡ some r)
      × Member r (b ∷ bs)
      × All (Preferred loads r) (b ∷ bs)
unfolding select_by_capacity
select_by_capacity-Preferred loads b bs m =
    let (r, scan, among, best) = prefer_all-Preferred loads b bs m in
    (r, ap (λ (t : Best). some t.selected) scan, among, best)

-- `r` is no larger than `b`.
abbrev pub NoLarger : Backend → Backend → Type 0
NoLarger r b = capacity_of r ≤ capacity_of b

smallest_from-NoLarger :
    (s : Backend) (bs : List Backend)
    → (r : Backend) × (smallest_from s (capacity_of s) bs ≡ r)
      × Member r (s ∷ bs)
      × All (NoLarger r) (s ∷ bs)
unfolding smallest_from
smallest_from-NoLarger s [] = (s, refl, here, (omega arith, tt))
smallest_from-NoLarger s (b ∷ bs) = elim (Bool-cases (ltb (capacity_of b) (capacity_of s))) [
  | inl e ↦
      let (r, scan, among, least) = smallest_from-NoLarger b bs in
      (r, rw e scan, there among, (le_trans least.0 (omega (arith, ltb→lt _ _ e)), least))
  | inr e ↦
      let (r, scan, among, least) = smallest_from-NoLarger s bs in
      (
        r,
        rw e scan,
        Member-skip s b bs among,
        (least.0, (le_trans least.0 (ground arith), least.1)),
      )
]

-- Without load data the policy picks a backend of the list with the least capacity.
pub select_smallest_capacity-NoLarger :
    (b : Backend) (bs : List Backend)
    → (r : Backend) × (select_smallest_capacity (b ∷ bs) ≡ some r)
      × Member r (b ∷ bs)
      × All (NoLarger r) (b ∷ bs)
unfolding select_smallest_capacity
select_smallest_capacity-NoLarger b bs =
    let (r, scan, among, least) = smallest_from-NoLarger b bs in (r, ap some scan, among, least)
