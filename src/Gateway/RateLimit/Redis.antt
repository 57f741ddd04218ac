-- ===== src/Gateway/RateLimit/Redis.antt =====
-- ratelimit.go, the distributed limiter: the Lua script `redisTokenBucketScript`, and the arguments
-- that `allowRedis` computes for it. Times of the script are microseconds.
-- The store and its expiry are the server's, and so is the Lua that runs the script.
use xtrinode.Shared.{
  second, ℕ, ◌+◌, ◌-◌, ◌/◌, ◌%◌, ◌*◌, ◌≤◌, ◌<◌, ◌≡◌, Bool, true, false, ◌||◌, arith, ltb, ◌==◌, ◌⊎◌,
  ◌∙◌, ap, if◌then◌else◌, Option, none, some,
}
use xtrinode.Shared.Int.{ℤ, pos, non_positive, to_nat}
use xtrinode.Gateway.RateLimit.Bucket.{TokenBucket, allow}

-- What stands under a key: nothing, a text that is no bucket, or tokens and last refill.
pub data Entry : Type 0 where
  absent garbled : Entry
  stored : ℕ → ℕ → Entry

-- A bucket that cannot be read is a full one.
abbrev pub tokens_of : ℕ → Entry → ℕ
tokens_of capacity (stored tokens last) = tokens
tokens_of capacity _ = capacity

abbrev pub last_of : ℕ → Entry → ℕ
last_of now (stored tokens last) = last
last_of now _ = now

-- The number that Redis' Lua reads back by `tonumber` from what its `tostring` writes: 14 digits of it,
-- so a number of at most 14 digits as it is, and one of at most 16 to the nearest hundred or better.
pub record LuaNumbers : Type 0 where
  pub reread : ℕ → ℕ
  pub exact : (n : ℕ) → n < 100_000_000_000_000 → reread n ≡ n
  pub close : (n : ℕ) → n < 10_000_000_000_000_000 → (n ≤ reread n + 50) × (reread n ≤ n + 50)

-- `none` is the script's error reply. A negative `elapsed` is set to 0, as `-` on ℕ does. What is
-- written is taken as what the next run reads of it.
unfoldable pub script : LuaNumbers → ℕ → ℕ → ℕ → Entry → Option (Entry × Bool)
script lua capacity refill_micros now entry =
    let tokens = tokens_of capacity entry in
    let last_refill = last_of now entry in
    let tokens_to_add = (now - last_refill) / refill_micros in
    let sum = tokens + tokens_to_add in
    let refilled = ltb 0 tokens_to_add in
    let tokens' = if refilled then (if ltb capacity sum then capacity else sum) else tokens in
    let last' = if refilled then now else last_refill in
    if capacity == 0 || refill_micros == 0
    then none
    else if ltb 0 tokens'
    then some (stored (lua.reread (tokens' - 1)) (lua.reread last'), true)
    else some (stored (lua.reread tokens') (lua.reread last'), false)

allow-bounds :
    (now : ℕ) (b : TokenBucket)
    → b.tokens ≤ b.capacity
    → let (b', passed) = allow now b in
      (b'.tokens ≤ b.capacity) × ((b'.last_refill ≡ now) ⊎ (b'.last_refill ≡ b.last_refill))
unfolding allow
allow-bounds now b within = (ground (arith, within), ground arith)

script-reread :
    (lua : LuaNumbers) (now : ℕ) (b : TokenBucket)
    → 0 < b.capacity
    → 0 < b.refill_rate
    → let (b', passed) = allow now b in
      script lua b.capacity b.refill_rate now (stored b.tokens b.last_refill)
      ≡ some (stored (lua.reread b'.tokens) (lua.reread b'.last_refill), passed)
unfolding script allow
script-reread lua now b c r = ground arith

-- The script does to a stored bucket, in one step, what the local bucket's call does: it gives the same
-- answer and writes the same tokens, and a last refill that the next run reads with an error of at
-- most 50 microseconds. The bucket has at most its capacity, which has at most 14 digits, and its
-- times have at most 16.
pub script-allow :
    (lua : LuaNumbers) (now : ℕ) (b : TokenBucket)
    → 0 < b.capacity
    → 0 < b.refill_rate
    → b.tokens ≤ b.capacity
    → b.capacity < 100_000_000_000_000
    → now < 10_000_000_000_000_000
    → b.last_refill < 10_000_000_000_000_000
    → let (b', passed) = allow now b in
      (last : ℕ) × (script lua b.capacity b.refill_rate now (stored b.tokens b.last_refill)
        ≡ some (stored b'.tokens last, passed))
      × (b'.last_refill ≤ last + 50)
      × (last ≤ b'.last_refill + 50)
script-allow lua now b c r within small soon before =
    let (b', passed) = allow now b in
    let (tokens, which) = allow-bounds now b within in
    let same = lua.exact b'.tokens (omega (arith, tokens, small)) in
    let in_range : b'.last_refill < 10_000_000_000_000_000 = ground (arith, which, soon, before) in
    let (low, high) = lua.close b'.last_refill in_range in
    (
      lua.reread b'.last_refill,
      script-reread lua now b c r
          ∙ ap (λ n. some (stored n (lua.reread b'.last_refill), passed)) same,
      low,
      high,
    )

-- `refillRate.Microseconds()` with its guard.
unfoldable pub refill_micros : ℤ → ℕ
refill_micros rate = let micros = to_nat rate / 1000 in if micros == 0 then 1_000_000 else micros

unfoldable pub redis_ttl_seconds : ℤ → ℕ
redis_ttl_seconds duration =
    let seconds = to_nat duration / second in
    let rounded = if to_nat duration % second == 0 then seconds else seconds + 1 in
    if non_positive duration then 1 else if ltb rounded 1 then 1 else rounded

-- The time to live is the shortest whole number of seconds, at least one, that covers the duration.
pub redis_ttl_seconds_bounds :
    (d : ℕ)
    → let ttl = redis_ttl_seconds (pos d) in
      (d ≤ ttl * second) × (1 ≤ ttl) × ((k : ℕ) → 1 ≤ k → d ≤ k * second → ttl ≤ k)
unfolding redis_ttl_seconds
redis_ttl_seconds_bounds d = ground arith
