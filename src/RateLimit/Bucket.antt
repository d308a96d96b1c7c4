-- ===== src/RateLimit/Bucket.antt =====
-- packages/foundation/src/rate-limit/token-bucket.ts, over the exact numbers. All amounts are natural
-- numbers of a unit that is a fraction of a token, small enough that the configured capacity, cost
-- and refill of one millisecond are whole numbers of it: there is one for any rational rate.
pub mod Bounds
pub mod Waits
use saas_foundation.Prelude.{
  ℕ, ◌+◌, ◌-◌, ◌*◌, ◌/◌, ◌≤◌, ◌<◌, Bool, true, false, Option, none, some, arith, leb, if◌then◌else◌,
}
use native.Mathlib.Nat.{lt-div-mul-add}

-- `refill` is the refill of one millisecond, and a token has `unit` units.
pub record TokenBucketConfig : Type 0 where
  pub capacity : ℕ
  pub refill : ℕ
  pub unit : ℕ

pub record BucketState : Type 0 where
  pub tokens : ℕ
  pub last_refill_ms : ℕ

-- `retry_after` is set where the request is denied.
pub record RateLimitResult : Type 0 where
  pub allowed : Bool
  pub remaining : ℕ
  pub reset_at : ℕ
  pub retry_after : Option ℕ

abbrev pub min : ℕ → ℕ → ℕ
min a b = if leb a b then a else b

abbrev pub max : ℕ → ℕ → ℕ
max a b = if leb a b then b else a

-- `Math.ceil(a / b)`
unfoldable pub ceil_div : ℕ → ℕ → ℕ
ceil_div a b = (a + (b - 1)) / b

-- A bucket that does not exist yet is a full one.
unfoldable pub effective : Option BucketState → ℕ → TokenBucketConfig → BucketState
effective none now c = record { tokens = c.capacity; last_refill_ms = now }
effective (some s) now c = s

-- The tokens after the refill; the subtraction stops at 0, as the source's maximum does.
unfoldable pub refilled : BucketState → ℕ → TokenBucketConfig → ℕ
refilled s now c = min c.capacity (s.tokens + (now - s.last_refill_ms) * c.refill)

unfoldable pub reset_at_of : ℕ → ℕ → TokenBucketConfig → ℕ
unfolding ceil_div
reset_at_of have now c = now + ceil_div (c.capacity - have) c.refill

unfoldable pub retry_after_of : ℕ → ℕ → TokenBucketConfig → ℕ
unfolding ceil_div
retry_after_of have cost c = max 1 (ceil_div (ceil_div (cost - have) c.refill) 1000)

-- The rest of the computation, on the tokens after the refill.
unfoldable pub take_from : ℕ → ℕ → ℕ → TokenBucketConfig → BucketState × RateLimitResult
unfolding reset_at_of retry_after_of
take_from have now cost c =
    if leb cost have
    then (
      record { tokens = have - cost; last_refill_ms = now },
      record {
        allowed = true;
        remaining = (have - cost) / c.unit;
        reset_at = reset_at_of have now c;
        retry_after = none;
      },
    )
    else (
      record { tokens = have; last_refill_ms = now },
      record {
        allowed = false;
        remaining = 0;
        reset_at = reset_at_of have now c;
        retry_after = some (retry_after_of have cost c);
      },
    )

unfoldable pub look_at : ℕ → ℕ → TokenBucketConfig → RateLimitResult
unfolding reset_at_of
look_at have now c = record {
  allowed = leb c.unit have;
  remaining = have / c.unit;
  reset_at = reset_at_of have now c;
  retry_after = none;
}

unfoldable pub compute_consume_result :
    Option BucketState → ℕ → ℕ → TokenBucketConfig → BucketState × RateLimitResult
compute_consume_result state now cost c =
    take_from (refilled (effective state now c) now c) now cost c

unfoldable pub compute_peek_result : Option BucketState → ℕ → TokenBucketConfig → RateLimitResult
compute_peek_result state now c = look_at (refilled (effective state now c) now c) now c

-- In seconds: a second has the refill of a thousand milliseconds.
unfoldable pub compute_bucket_ttl_seconds : BucketState → TokenBucketConfig → ℕ
unfolding ceil_div
compute_bucket_ttl_seconds s c = ceil_div (c.capacity - s.tokens) (c.refill * 1000) + 60
