-- ===== src/Gateway/RateLimit/Bucket.antt =====
-- ratelimit.go, `TokenBucket`.
use xtrinode.Shared.{
  second, ℕ, ◌+◌, ◌-◌, ◌/◌, ◌≤◌, ◌<◌, ◌≡◌, Bool, true, false, arith, ltb, if◌then◌else◌,
}
use xtrinode.Shared.Int.{ℤ, pos, non_positive, to_nat}

pub record TokenBucket : Type 0 where
  pub capacity : ℕ
  pub tokens : ℕ
  pub refill_rate : ℕ
  pub last_refill : ℕ
  pub last_seen : ℕ

-- The guard of `NewTokenBucket`.
abbrev pub positive_rate : ℤ → ℕ
positive_rate rate = if non_positive rate then second else to_nat rate

unfoldable pub new_token_bucket : ℕ → ℕ → ℤ → TokenBucket
new_token_bucket now capacity rate = record {
  capacity = capacity;
  tokens = capacity;
  refill_rate = positive_rate rate;
  last_refill = now;
  last_seen = now;
}

refill : ℕ → TokenBucket → TokenBucket
refill now tb =
    let tokens_to_add = (now - tb.last_refill) / tb.refill_rate in
    let sum = tb.tokens + tokens_to_add in
    if ltb 0 tokens_to_add
    then record tb { tokens = if ltb tb.capacity sum then tb.capacity else sum; last_refill = now }
    else tb

spend : TokenBucket → TokenBucket × Bool
spend tb = if ltb 0 tb.tokens then (record tb { tokens = tb.tokens - 1 }, true) else (tb, false)

unfoldable pub allow : ℕ → TokenBucket → TokenBucket × Bool
unfolding refill spend
allow now tb = spend (refill now (record tb { last_seen = now }))

pub record Inv (now : ℕ) (tb : TokenBucket) : Type 0 where
  pub filled : tb.tokens ≤ tb.capacity
  pub rate_positive : 0 < tb.refill_rate
  pub refilled_before : tb.last_refill ≤ tb.last_seen
  pub seen_before : tb.last_seen ≤ now

-- A new bucket is full, and ticks at a positive rate whatever rate was asked for.
pub new_token_bucket-Inv :
    (now capacity : ℕ) (rate : ℤ) → Inv now (new_token_bucket now capacity rate)
unfolding new_token_bucket
new_token_bucket-Inv now capacity (pos n) = ground arith
new_token_bucket-Inv now capacity rate = ground arith

pub allow-Inv :
    (before now : ℕ) (tb : TokenBucket) → before ≤ now → Inv before tb → Inv now (allow now tb).0
unfolding allow
allow-Inv before now tb h v = ground arith

-- No call changes the configuration of a bucket.
pub allow-config :
    (now : ℕ) (tb : TokenBucket)
    → ((allow now tb).0.capacity ≡ tb.capacity) × ((allow now tb).0.refill_rate ≡ tb.refill_rate)
unfolding allow
allow-config now tb = ground arith

div_pos : (a r : ℕ) → 0 < r → r ≤ a → 0 < a / r
div_pos a r h k = grind arith

-- A client that has waited for one refill period is let through, however empty its bucket was.
pub allow_after_period :
    (now : ℕ) (tb : TokenBucket)
    → 0 < tb.capacity
    → 0 < tb.refill_rate
    → tb.last_refill + tb.refill_rate ≤ now
    → (allow now tb).1 ≡ true
unfolding allow
allow_after_period now tb c r h =
    ground (arith, div_pos (now - tb.last_refill) tb.refill_rate r (omega arith))
