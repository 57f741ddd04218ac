-- ===== src/Gateway/RateLimit/Limiter/CleanUp.antt =====
-- ratelimit.go: the clean-up of inactive buckets cannot be observed.
use native.Mathlib.Nat.{le-div_iff_mul-le}
use xtrinode.Shared.{
  ℕ, ◌+◌, ◌-◌, ◌/◌, ◌≤◌, ◌<◌, ◌*◌, ◌≡◌, refl, ◌∙◌, String, arith, not, none, Option-cases,
  Bool-cases, ltb→lt, eq_iff, inl, inr,
}
use xtrinode.Shared.Int.{ℤ}
use xtrinode.Shared.Dict.{lookup, passing, lookup-keep}
use xtrinode.Gateway.RateLimit.Bucket.{TokenBucket, allow, new_token_bucket, positive_rate}
use xtrinode.Gateway.RateLimit.Limiter.{
  RateLimiter, IsValid, cleanup, inactive, bucket_for, bucket_for-none, bucket_for-some, allow_key,
  allow_key-lookup,
}

-- A bucket that has had time to fill up acts as a new one.
allow-full :
    (now : ℕ) (b : TokenBucket) (rate : ℤ)
    → 0 < b.capacity
    → 0 < b.refill_rate
    → b.refill_rate ≡ positive_rate rate
    → b.last_refill + b.capacity * b.refill_rate ≤ now
    → allow now b ≡ allow now (new_token_bucket now b.capacity rate)
unfolding allow new_token_bucket
allow-full now b rate c r e h =
    let full : b.capacity ≤ (now - b.last_refill) / b.refill_rate =
      (le-div_iff_mul-le r).1 (omega arith) in
    ground arith

-- What the clean-up leaves under a key.
lookup-cleanup :
    (now : ℕ) (key : String) (rl : RateLimiter)
    → IsValid now rl
    → lookup key (cleanup now rl).limiters
      ≡ passing (λ bucket. not (inactive now rl.cleanup_ttl bucket)) (lookup key rl.limiters)
unfolding cleanup
lookup-cleanup now key rl v = lookup-keep _ key rl.limiters v.distinct

cleanup-config :
    (now : ℕ) (rl : RateLimiter)
    → ((cleanup now rl).capacity ≡ rl.capacity) × ((cleanup now rl).refill_rate ≡ rl.refill_rate)
unfolding cleanup
cleanup-config now rl = (refl, refl)

-- The call on a key's bucket comes out the same after a clean-up.
allow-cleanup :
    (now later : ℕ) (key : String) (rl : RateLimiter)
    → 0 < rl.capacity
    → rl.capacity * positive_rate rl.refill_rate ≤ rl.cleanup_ttl
    → now ≤ later
    → IsValid now rl
    → allow later (bucket_for later key (cleanup now rl)) ≡ allow later (bucket_for later key rl)
allow-cleanup now later key rl c t h v = elim (Option-cases (lookup key rl.limiters)) [
  | inl e ↦ cc (
    bucket_for-none later key rl e,
    bucket_for-none later key (cleanup now rl) (lookup-cleanup now key rl v ∙ rw e),
    (cleanup-config now rl).0,
    (cleanup-config now rl).1,
  )
  | inr (b, e) ↦
      let (i, cap, rate) = v.bucket key b e in
      elim (Bool-cases (inactive now rl.cleanup_ttl b)) [
        | inl gone ↦
            let full : b.last_refill + b.capacity * b.refill_rate ≤ later =
              rw (cap, rate) (omega (arith, ltb→lt _ _ gone, i)) in
            cc (
              bucket_for-some later key rl b e,
              bucket_for-none later key (cleanup now rl)
                  (lookup-cleanup now key rl v ∙ rw (e, gone)),
              (cleanup-config now rl).0,
              (cleanup-config now rl).1,
              cap,
              allow-full later b rl.refill_rate (rw cap c) i.rate_positive rate full,
            )
        | inr stays ↦ cc (
          bucket_for-some later key rl b e,
          bucket_for-some later key (cleanup now rl) b
              (lookup-cleanup now key rl v ∙ rw (e, stays)),
        )
      ]
]

-- Where a full refill takes no longer than the clean-up's patience, a clean-up changes neither the
-- answer of any later request to the local buckets nor the bucket that the request leaves behind.
pub allow_key-cleanup :
    (now later : ℕ) (key : String) (rl : RateLimiter)
    → 0 < rl.capacity
    → rl.capacity * positive_rate rl.refill_rate ≤ rl.cleanup_ttl
    → now ≤ later
    → IsValid now rl
    → let (swept, answer) = allow_key later key none (cleanup now rl) in
      let (kept, answer') = allow_key later key none rl in
      (answer ≡ answer') × (lookup key swept.limiters ≡ lookup key kept.limiters)
unfolding allow_key
allow_key-cleanup now later key rl c t h v =
    let same = allow-cleanup now later key rl c t h v in
    (
      cc same,
      ground (
        arith,
        same,
        eq_iff key key,
        allow_key-lookup later key key rl,
        allow_key-lookup later key key (cleanup now rl),
      ),
    )
