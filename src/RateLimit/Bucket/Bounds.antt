-- ===== src/RateLimit/Bucket/Bounds.antt =====
-- How much a bucket grants, over any sequence of requests in the order of their times.
use saas_foundation.Prelude.{
  ℕ, ◌+◌, ◌-◌, ◌*◌, ◌≤◌, ◌≡◌, refl, sym, ap, ◌∙◌, Option, none, some, List, [], ◌∷◌, arith,
  if◌then◌else◌,
}
use native.Mathlib.Nat.{add-mul, mul-le-mul_right}
use saas_foundation.RateLimit.Bucket.{
  TokenBucketConfig, BucketState, effective, refilled, take_from, compute_consume_result,
}

-- The requests at a bucket, by their times and costs: the bucket after them, and what was granted.
unfoldable pub serve :
    TokenBucketConfig → Option BucketState → List (ℕ × ℕ) → Option BucketState × ℕ
serve c o [] = (o, 0)
serve c o ((now, cost) ∷ more) =
    let (s, r) = compute_consume_result o now cost c in
    let (end, granted) = serve c (some s) more in (end, (if r.allowed then cost else 0) + granted)

-- The clock does not go back, from a time on.
abbrev pub Ordered : ℕ → List (ℕ × ℕ) → Type 0
Ordered start [] = Unit
Ordered start ((now, cost) ∷ more) = (start ≤ now) × Ordered now more

abbrev pub last_time : ℕ → List (ℕ × ℕ) → ℕ
last_time start [] = start
last_time start ((now, cost) ∷ more) = last_time now more

le-last_time :
    (start : ℕ) (calls : List (ℕ × ℕ)) → Ordered start calls → start ≤ last_time start calls
le-last_time start [] h = omega arith
le-last_time start ((now, cost) ∷ more) (here, later) =
    omega (arith, here, le-last_time now more later)

-- Two stretches of time refill what the whole of them does.
pub refill_add : (a b e r : ℕ) → a ≤ b → b ≤ e → (b - a) * r + (e - b) * r ≡ (e - a) * r
refill_add a b e r ab be = sym (add-mul (b - a) (e - b) r) ∙ ap (λ n. n * r) (omega arith)

-- A request takes no more than what was there and what has come since.
pub consume_bounds :
    (c : TokenBucketConfig) (s : BucketState) (now cost : ℕ)
    → let out = compute_consume_result (some s) now cost c in
      ((if out.1.allowed then cost else 0) + out.0.tokens
        ≤ s.tokens + (now - s.last_refill_ms) * c.refill)
      × (out.0.tokens ≤ c.capacity)
      × (out.0.last_refill_ms ≡ now)
unfolding compute_consume_result effective refilled take_from
consume_bounds c s now cost = (ground arith, ground arith, ground arith)

serve_bounded :
    (c : TokenBucketConfig) (s : BucketState) (calls : List (ℕ × ℕ))
    → Ordered s.last_refill_ms calls
    → (serve c (some s) calls).1
      ≤ s.tokens + (last_time s.last_refill_ms calls - s.last_refill_ms) * c.refill
unfolding serve
serve_bounded c s [] h = omega arith
serve_bounded c s ((now, cost) ∷ more) (here, later) =
    let out = compute_consume_result (some s) now cost c in
    let (taken, full, clock) = consume_bounds c s now cost in
    let rest = serve_bounded c out.0 more (rw clock later) in
    omega (
      arith,
      taken,
      rw clock at rest,
      refill_add s.last_refill_ms now (last_time now more) c.refill here
          (le-last_time now more later),
    )

later_start : (a b e : ℕ) → a ≤ b → e - b ≤ e - a
later_start a b e h = omega arith

-- The first request makes the bucket, full at its time.
serve_new :
    (c : TokenBucketConfig) (now cost : ℕ) (more : List (ℕ × ℕ))
    → serve c none ((now, cost) ∷ more)
      ≡ serve c (some (record { tokens = c.capacity; last_refill_ms = now })) ((now, cost) ∷ more)
unfolding serve compute_consume_result effective
serve_new c now cost more = refl

-- A bucket that is within its capacity grants, from a time on and until the last of any requests in
-- the order of their times, no more than its capacity and what that time refills.
pub granted_bounded :
    (c : TokenBucketConfig) (o : Option BucketState) (start : ℕ) (calls : List (ℕ × ℕ))
    → (effective o start c).tokens ≤ c.capacity
    → start ≤ (effective o start c).last_refill_ms
    → Ordered (effective o start c).last_refill_ms calls
    → (serve c o calls).1 ≤ c.capacity + (last_time start calls - start) * c.refill
unfolding effective
granted_bounded c (some s) start [] within since order = unfold serve in omega arith
granted_bounded c (some s) start ((now, cost) ∷ more) within since order = omega (
  arith,
  serve_bounded c s ((now, cost) ∷ more) order,
  mul-le-mul_right c.refill (later_start start s.last_refill_ms (last_time now more) since),
)
granted_bounded c none start [] within since order = unfold serve in omega arith
granted_bounded c none start ((now, cost) ∷ more) within since order = omega (
  arith,
  ap (λ (p : Option BucketState × ℕ). p.1) (serve_new c now cost more),
  serve_bounded c (record { tokens = c.capacity; last_refill_ms = now }) ((now, cost) ∷ more)
      (omega arith, order.1),
  mul-le-mul_right c.refill (later_start start now (last_time now more) order.0),
)
