-- ===== src/Gateway/RateLimit/Examples.antt =====
-- The rate limiter's theorems at concrete inputs, and tests of its buckets.
use xtrinode.Shared.{
  ◌/◌, ltb, if◌then◌else◌, ◌<◌, ◌+◌, true, ℕ, ◌*◌, ◌≤◌, ◌≡◌, refl, [], ◌∷◌, none, some, arith,
  second,
}
use xtrinode.Shared.Int.{pos}
use xtrinode.Shared.Dict.{lookup}
use xtrinode.Gateway.RateLimit.Bucket.{TokenBucket, new_token_bucket, allow}
use xtrinode.Gateway.RateLimit.Bound.{admitted, admitted-le-capacity}
use xtrinode.Gateway.RateLimit.Limiter.{
  RateLimiter, new_rate_limiter, allow_key, cleanup, new_rate_limiter-IsValid, IsValid-later,
  allow_key-IsValid,
}
use xtrinode.Gateway.RateLimit.Limiter.CleanUp.{allow_key-cleanup}
use xtrinode.Gateway.RateLimit.Redis.{stored, absent, LuaNumbers, script, script-allow}

abbrev drained : TokenBucket
drained = record { capacity = 2; tokens = 0; refill_rate = 10; last_refill = 100; last_seen = 105 }

burst : admitted (new_token_bucket 0 2 (pos 10)) (1 ∷ 2 ∷ 3 ∷ 13 ∷ []) ≡ 3
unfolding admitted new_token_bucket allow
burst = refl

admitted-le-capacity_example : admitted (new_token_bucket 0 2 (pos 10)) (1 ∷ 2 ∷ 3 ∷ 13 ∷ []) ≤ 3
admitted-le-capacity_example = admitted-le-capacity 0 2 (pos 10) (1 ∷ 2 ∷ 3 ∷ 13 ∷ []) (omega arith)

-- One request at the start, none since.
one_client : RateLimiter
one_client = (allow_key 0 "ip:1" none (new_rate_limiter 100 (pos second))).0

one_client_config :
    (one_client.capacity ≡ 100)
    × (one_client.refill_rate ≡ pos second)
    × (one_client.cleanup_ttl ≡ 600 * second)
unfolding one_client allow_key new_rate_limiter
one_client_config = (refl, refl, refl)

allow_key-cleanup_example :
    let (swept, answer) =
      allow_key (900 * second) "ip:1" none (cleanup (700 * second) one_client) in
    let (kept, answer') = allow_key (900 * second) "ip:1" none one_client in
    (answer ≡ answer') × (lookup "ip:1" swept.limiters ≡ lookup "ip:1" kept.limiters)
unfolding one_client allow_key new_rate_limiter
allow_key-cleanup_example =
    allow_key-cleanup (700 * second) (900 * second) "ip:1" one_client (omega arith) (omega arith)
      (omega arith)
      (IsValid-later 0 (700 * second) one_client (omega arith) (
        allow_key-IsValid 0 "ip:1" none (new_rate_limiter 100 (pos second))
          (new_rate_limiter-IsValid 0 100 (pos second))))

round_to : ℕ → ℕ
round_to n =
    if ltb n 100_000_000_000_000
    then n
    else if ltb n 1_000_000_000_000_000
    then ((n + 5) / 10) * 10
    else ((n + 50) / 100) * 100

round_to-exact : (n : ℕ) → n < 100_000_000_000_000 → round_to n ≡ n
unfolding round_to
round_to-exact n h = ground (arith, h)

round_to-close :
    (n : ℕ) → n < 10_000_000_000_000_000 → (n ≤ round_to n + 50) × (round_to n ≤ n + 50)
unfolding round_to
round_to-close n h = ground (arith, h)

abbrev lua_numbers : LuaNumbers
lua_numbers = record { reread = round_to; exact = round_to-exact; close = round_to-close }

-- In 2025, the microseconds have 16 digits.
abbrev this_year : ℕ
this_year = 1_750_000_000_000_042

-- The last refill that the next run reads is 42 microseconds early.
this_year-run :
    script lua_numbers 2 10 this_year absent ≡ some (stored 1 1_750_000_000_000_000, true)
unfolding script round_to
this_year-run = refl

script-allow_example :
    let (b', passed) = allow this_year drained in
    (last : ℕ) × (script lua_numbers 2 10 this_year (stored 0 100)
      ≡ some (stored b'.tokens last, passed))
    × (b'.last_refill ≤ last + 50)
    × (last ≤ b'.last_refill + 50)
script-allow_example =
    script-allow lua_numbers this_year drained (omega arith) (omega arith) (omega arith)
      (omega arith) (omega arith) (omega arith)
