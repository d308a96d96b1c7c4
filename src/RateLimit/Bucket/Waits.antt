-- ===== src/RateLimit/Bucket/Waits.antt =====
-- What the answers of a bucket say, and what the time that they tell leaves out.
use saas_foundation.Prelude.{ℕ, ◌+◌, ◌-◌, ◌/◌, ◌≤◌, ◌<◌, ◌≡◌, refl, true, Option, none, arith, leb}
use native.Mathlib.Nat.{div-eq-sub-div, div-eq_of_lt}
use saas_foundation.RateLimit.Bucket.{
  TokenBucketConfig, BucketState, ceil_div, effective, refilled, reset_at_of, take_from, look_at,
  compute_consume_result, compute_peek_result,
}

-- What a peek says of one token is what a request of one token is told at that moment: whether it
-- is allowed, when the bucket is full, and one token fewer if it is.
pub peek_agrees :
    (c : TokenBucketConfig) (o : Option BucketState) (now : ℕ)
    → 0 < c.unit
    → let seen = compute_peek_result o now c in
      let told = (compute_consume_result o now c.unit c).1 in
      (seen.allowed ≡ told.allowed)
      × (seen.reset_at ≡ told.reset_at)
      × (told.allowed ≡ true → seen.remaining ≡ told.remaining + 1)
unfolding compute_peek_result compute_consume_result take_from look_at
peek_agrees c o now positive =
    let have : ℕ = refilled (effective o now c) now c in
    (
      ground arith,
      ground arith,
      λ h. ground (arith, div-eq-sub-div {m = c.unit} {n = have} positive),
    )

refilled_now :
    (c : TokenBucketConfig) (have now : ℕ)
    → have ≤ c.capacity
    → refilled (record { tokens = have; last_refill_ms = now }) now c ≡ have
unfolding refilled
refilled_now c have now fits = let still : now - now ≡ 0 = omega arith in rw still (ground arith)

-- The reset time that a request is told does not count what the request itself took: of a new
-- bucket it is the very moment, at which the bucket is short of the whole cost.
pub reset_at_ignores_cost :
    (c : TokenBucketConfig) (now cost : ℕ)
    → 0 < c.refill
    → cost ≤ c.capacity
    → let out = compute_consume_result none now cost c in
      (out.1.allowed ≡ true) × (out.1.reset_at ≡ now) × (refilled out.0 now c ≡ c.capacity - cost)
unfolding compute_consume_result effective take_from reset_at_of ceil_div
reset_at_ignores_cost c now cost flows fits =
    let full = refilled_now c c.capacity now (omega arith) in
    let none_missing : (c.capacity - c.capacity + (c.refill - 1)) / c.refill ≡ 0 =
      div-eq_of_lt (omega arith) in
    let rest = refilled_now c (c.capacity - cost) now (omega arith) in
    let accepted : leb cost c.capacity ≡ true = ground arith in
    rw (full, accepted, none_missing) (refl, omega arith, rest)
