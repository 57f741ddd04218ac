-- ===== src/Gateway/RateLimit/Bound.antt =====
-- ratelimit.go: how many requests a token bucket lets through over any sequence of calls.
use native.Mathlib.Nat.{le-div_iff_mul-le, div-mul-le_self}
use xtrinode.Shared.{ℕ, ◌+◌, ◌-◌, ◌/◌, ◌≤◌, ◌<◌, ◌≡◌, Bool, true, false, arith, List, [], ◌∷◌}
use xtrinode.Shared.Int.{ℤ}
use xtrinode.Gateway.RateLimit.Bucket.{
  TokenBucket, allow, allow-config, new_token_bucket, new_token_bucket-Inv, positive_rate,
}

abbrev pub one_if : Bool → ℕ
one_if true = 1
one_if false = 0

-- The number of calls that are let through.
unfoldable pub admitted : TokenBucket → List ℕ → ℕ
admitted tb [] = 0
admitted tb (t ∷ ts) = let (tb', passed) = allow t tb in one_if passed + admitted tb' ts

-- The times do not go back.
abbrev pub Ascending : ℕ → List ℕ → Type 0
Ascending t [] = Unit
Ascending t (u ∷ us) = (t ≤ u) × Ascending u us

-- The last time of a sequence that starts at `t`.
abbrev pub last_time : ℕ → List ℕ → ℕ
last_time t [] = t
last_time t (u ∷ us) = last_time u us

last_time-le : (t : ℕ) (us : List ℕ) → Ascending t us → t ≤ last_time t us
last_time-le t [] h = omega arith
last_time-le t (u ∷ us) h = omega (arith, last_time-le u us h.1)

-- Whole periods add up.
div_superadditive : (a b r : ℕ) → 0 < r → a / r + b / r ≤ (a + b) / r
div_superadditive a b r h =
    (le-div_iff_mul-le h).1 (omega (arith, div-mul-le_self a r, div-mul-le_self b r))

-- One call lets through at most what stood in the bucket and what came in since its last refill.
allow_potential :
    (now : ℕ) (tb : TokenBucket)
    → 0 < tb.refill_rate
    → tb.last_refill ≤ now
    → (one_if (allow now tb).1 + (allow now tb).0.tokens
        ≤ tb.tokens + ((allow now tb).0.last_refill - tb.last_refill) / tb.refill_rate)
      × (tb.last_refill ≤ (allow now tb).0.last_refill)
      × ((allow now tb).0.last_refill ≤ now)
unfolding allow
allow_potential now tb h k = ground arith

-- Two stretches of time, end to end.
stretch : (a b c r : ℕ) → 0 < r → a ≤ b → b ≤ c → (b - a) / r + (c - b) / r ≤ (c - a) / r
stretch a b c r h p q =
    let e : (b - a) + (c - b) ≡ c - a = omega arith in
    rw e at (div_superadditive (b - a) (c - b) r h)

admitted-le-tokens :
    (t : ℕ) (tb : TokenBucket) (ts : List ℕ)
    → 0 < tb.refill_rate
    → tb.last_refill ≤ t
    → Ascending t ts
    → admitted tb ts ≤ tb.tokens + (last_time t ts - tb.last_refill) / tb.refill_rate
unfolding admitted
admitted-le-tokens t tb [] h k a = omega arith
admitted-le-tokens t tb (u ∷ us) h k a =
    let tb' = (allow u tb).0 in
    let (spent, forward, past) = allow_potential u tb h (omega arith) in
    let (cap_kept, rate_kept) = allow-config u tb in
    let ih = admitted-le-tokens u tb' us (rw rate_kept h) past a.1 in
    let ih' = rw rate_kept at ih in
    omega (
      arith,
      spent,
      ih',
      stretch tb.last_refill tb'.last_refill (last_time u us) tb.refill_rate h forward
          (omega (arith, last_time-le u us a.1)),
    )

-- Over any calls at times that do not go back, a new bucket lets through at most its capacity and
-- one request for each whole refill period since it was made.
pub admitted-le-capacity :
    (now capacity : ℕ) (rate : ℤ) (ts : List ℕ)
    → Ascending now ts
    → admitted (new_token_bucket now capacity rate) ts
      ≤ capacity + (last_time now ts - now) / positive_rate rate
unfolding new_token_bucket
admitted-le-capacity now capacity rate ts a =
    admitted-le-tokens now (new_token_bucket now capacity rate) ts
      (new_token_bucket-Inv now capacity rate).rate_positive (omega arith) a
