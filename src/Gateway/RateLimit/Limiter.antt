-- ===== src/Gateway/RateLimit/Limiter.antt =====
-- ratelimit.go, `RateLimiter`: one bucket for each key, and the clean-up of inactive buckets.
-- `Allow` asks the distributed counter first, where there is one: its answer is an argument, `none`
-- where the limiter has no Redis or the call failed.
pub mod CleanUp
use xtrinode.Shared.{
  second, ℕ, ◌+◌, ◌-◌, ◌/◌, ◌≤◌, ◌<◌, ◌*◌, ◌≡◌, refl, String, Bool, true, false, arith, ltb, not,
  if◌then◌else◌, Option, none, some, [], keep, eq_iff, str_eq, Option-cases, inl, inr,
}
use xtrinode.Shared.Int.{ℤ}
use xtrinode.Shared.Dict.{
  Dict, lookup, insert, IsDistinct, by_value, passing, lookup-insert, lookup-keep,
  insert-IsDistinct, keep-IsDistinct,
}
use xtrinode.Gateway.RateLimit.Bucket.{
  TokenBucket, Inv, allow, allow-Inv, allow-config, new_token_bucket, new_token_bucket-Inv,
  positive_rate,
}

pub record RateLimiter : Type 0 where
  pub limiters : Dict TokenBucket
  pub capacity : ℕ
  pub refill_rate : ℤ
  pub cleanup_ttl : ℕ

unfoldable pub new_rate_limiter : ℕ → ℤ → RateLimiter
new_rate_limiter capacity rate = record {
  limiters = [];
  capacity = capacity;
  refill_rate = rate;
  cleanup_ttl = 600 * second;
}

abbrev pub inactive : ℕ → ℕ → TokenBucket → Bool
inactive now ttl bucket = ltb ttl (now - bucket.last_seen)

unfoldable pub cleanup : ℕ → RateLimiter → RateLimiter
cleanup now rl = record rl {
  limiters = keep (by_value (λ bucket. not (inactive now rl.cleanup_ttl bucket))) rl.limiters;
}

-- The bucket of a key, made if there is none.
unfoldable pub bucket_for : ℕ → String → RateLimiter → TokenBucket
bucket_for now key rl = elim (lookup key rl.limiters) [
  | some bucket ↦ bucket
  | none ↦ new_token_bucket now rl.capacity rl.refill_rate
]

pub bucket_for-none :
    (now : ℕ) (key : String) (rl : RateLimiter)
    → lookup key rl.limiters ≡ none
    → bucket_for now key rl ≡ new_token_bucket now rl.capacity rl.refill_rate
unfolding bucket_for
bucket_for-none now key rl e = rw (e, bucket_for)

pub bucket_for-some :
    (now : ℕ) (key : String) (rl : RateLimiter) (b : TokenBucket)
    → lookup key rl.limiters ≡ some b
    → bucket_for now key rl ≡ b
unfolding bucket_for
bucket_for-some now key rl b e = rw (e, bucket_for)

unfoldable pub allow_key : ℕ → String → Option Bool → RateLimiter → RateLimiter × Bool
allow_key now key (some allowed) rl = (rl, allowed)
allow_key now key none rl =
    let (bucket, allowed) = allow now (bucket_for now key rl) in
    (record rl { limiters = insert key bucket rl.limiters }, allowed)

-- A request under one key never changes the bucket of another, and changes its own as the bucket's
-- own call does.
pub allow_key-lookup :
    (now : ℕ) (key j : String) (rl : RateLimiter)
    → lookup j (allow_key now key none rl).0.limiters
      ≡ (if str_eq key j then some (allow now (bucket_for now key rl)).0 else lookup j rl.limiters)
unfolding allow_key
allow_key-lookup now key j rl =
    lookup-insert key j (allow now (bucket_for now key rl)).0 rl.limiters

-- The buckets of a limiter are those that it made: distinct keys, its own capacity and rate.
pub record IsValid (now : ℕ) (rl : RateLimiter) : Type 0 where
  pub distinct : IsDistinct rl.limiters
  pub bucket :
      (k : String) (b : TokenBucket)
      → lookup k rl.limiters ≡ some b
      → Inv now b × (b.capacity ≡ rl.capacity) × (b.refill_rate ≡ positive_rate rl.refill_rate)

pub new_rate_limiter-IsValid :
    (now capacity : ℕ) (rate : ℤ) → IsValid now (new_rate_limiter capacity rate)
unfolding new_rate_limiter lookup
new_rate_limiter-IsValid now capacity rate = record { distinct = tt; bucket = λ k b e. cc }

Inv-later : (before now : ℕ) (b : TokenBucket) → before ≤ now → Inv before b → Inv now b
Inv-later before now b h v = ground arith

bucket_for-Inv :
    (now : ℕ) (key : String) (rl : RateLimiter)
    → IsValid now rl
    → let b = bucket_for now key rl in
      Inv now b × (b.capacity ≡ rl.capacity) × (b.refill_rate ≡ positive_rate rl.refill_rate)
unfolding bucket_for
bucket_for-Inv now key rl v = elim (Option-cases (lookup key rl.limiters)) [
  | inl e ↦
      rw (e, bucket_for)
        (unfold new_token_bucket in
          (new_token_bucket-Inv now rl.capacity rl.refill_rate, refl, refl))
  | inr (b, e) ↦ rw (e, bucket_for) (v.bucket key b e)
]

pub IsValid-later :
    (before now : ℕ) (rl : RateLimiter) → before ≤ now → IsValid before rl → IsValid now rl
IsValid-later before now rl h v = record {
  distinct = v.distinct;
  bucket = λ k b e. let (i, c, r) = v.bucket k b e in (Inv-later before now b h i, c, r);
}

-- A request keeps the limiter valid.
pub allow_key-IsValid :
    (now : ℕ) (key : String) (redis : Option Bool) (rl : RateLimiter)
    → IsValid now rl
    → IsValid now (allow_key now key redis rl).0
unfolding allow_key
allow_key-IsValid now key (some b) rl v = v
allow_key-IsValid now key none rl v = record {
  distinct = insert-IsDistinct key _ rl.limiters v.distinct;
  bucket = λ k b e. ground (
    arith,
    allow_key-lookup now key k rl,
    e,
    v.bucket k b,
    bucket_for-Inv now key rl v,
    allow-Inv now now (bucket_for now key rl),
    allow-config now (bucket_for now key rl),
  );
}

-- So does the clean-up.
pub cleanup-IsValid : (now : ℕ) (rl : RateLimiter) → IsValid now rl → IsValid now (cleanup now rl)
unfolding cleanup
cleanup-IsValid now rl v = record {
  distinct = keep-IsDistinct _ rl.limiters v.distinct;
  bucket = λ k b e. v.bucket k b (
      ground (
        arith,
        lookup-keep (λ bucket. not (inactive now rl.cleanup_ttl bucket)) k rl.limiters v.distinct,
      ));
}
