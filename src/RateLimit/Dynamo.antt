-- ===== src/RateLimit/Dynamo.antt =====
-- packages/foundation/src/rate-limit/dynamo-limiter.ts: the buckets as rows of a table, read and then
-- written under a condition. The keys and the configuration are resolved as in memory-limiter.ts.
pub mod Laws
use saas_foundation.Prelude.{
  ℕ, zero, suc, ◌+◌, ◌/◌, String, Bool, true, false, not, Option, none, some, ◌==◌, if◌then◌else◌,
  or_else, is_some,
}
use saas_foundation.Table.{Table}
use saas_foundation.RateLimit.Bucket.{
  TokenBucketConfig, BucketState, RateLimitResult, compute_consume_result, compute_peek_result,
  compute_bucket_ttl_seconds,
}
use saas_foundation.RateLimit.Memory.{
  Limiter, Reply, result, config_error, resolve_key, resolve_config, rejection,
}

-- A row; its bucket is `none` where one of its two attributes is no number.
pub record Row : Type 0 where
  pub bucket : Option BucketState
  pub ttl : ℕ

-- What is left of MAX_RETRIES after the first attempt.
abbrev pub retries : ℕ
retries = 2

-- One attempt of a request: the clock at its read and at its write, whether the service takes the
-- write, and how the table changes by other requests between the read and the write.
pub record Turn (S : Type 0) : Type 0 where
  pub now : ℕ
  pub wrote : ℕ
  pub write_up : Bool
  pub seen : S
  pub others : S → S

unfoldable pub state_of : Option Row → Option BucketState
state_of none = none
state_of (some r) = r.bucket

-- `lastRefillMs = :prevLastRefillMs`
unfoldable pub refilled_at : ℕ → Option Row → Bool
unfolding state_of
refilled_at ms r = elim (state_of r) [ none ↦ false | some s ↦ s.last_refill_ms == ms ]

-- The condition of the write: the row is absent, or it is the refill time that was read.
unfoldable pub unchanged : Option BucketState → Option Row → Bool
unfolding refilled_at
unchanged none r = not (is_some r)
unchanged (some s) r = refilled_at s.last_refill_ms r

unfoldable pub new_row : ℕ → BucketState → TokenBucketConfig → Row
new_row wrote s c = record { bucket = some s; ttl = wrote / 1000 + compute_bucket_ttl_seconds s c }

-- `pk` is the namespace, a `#` and the key.
module _ (T : Table Row) (pk : String → String) where
  open T use {State, item, write}

  unfoldable pub read_state : String → State → Option BucketState
  unfolding state_of
  read_state key s = state_of (item s (pk key))

  unfoldable pub write_state :
      String → BucketState → Option BucketState → TokenBucketConfig → ℕ → State → State × Bool
  unfolding unchanged new_row
  write_state key new prev c wrote s =
      write (pk key) (unchanged prev) (λ r. some (new_row wrote new c)) s

  -- One read, computation and write, on the table as the write finds it.
  unfoldable pub attempt :
      String → ℕ → TokenBucketConfig → Turn State → State → State × Bool × RateLimitResult
  attempt key cost c turn s =
      let prev = read_state key turn.seen in
      let (new, r) = compute_consume_result prev turn.now cost c in
      let (s', written) = write_state key new prev c turn.wrote s in (s', written, r)

  -- The attempts that are left, the next one by its number. A write that the service refuses for
  -- another reason is not tried again, and the last result is returned, written or not.
  unfoldable pub consume_with_retry :
      String → ℕ → TokenBucketConfig → (ℕ → Turn State) → ℕ → ℕ → State → State × RateLimitResult
  consume_with_retry key cost c turns number zero s =
      let turn = turns number in
      let s1 = turn.others s in
      let (s2, written, r) = attempt key cost c turn s1 in
      if turn.write_up then (s2, r) else (s1, r)
  consume_with_retry key cost c turns number (suc left) s =
      let turn = turns number in
      let s1 = turn.others s in
      let (s2, written, r) = attempt key cost c turn s1 in
      let again = consume_with_retry key cost c turns (number + 1) left s2 in
      if not turn.write_up then (s1, r) else if written then (s2, r) else again

  unfoldable pub consume :
      Limiter → String → ℕ → Option TokenBucketConfig → (ℕ → Turn State) → State → State × Reply
  consume l key cost config turns s = elim (resolve_key l key) [
    | none ↦ (s, result (rejection (turns 0).now))
    | some k ↦ elim (resolve_config l config) [
      | none ↦ (s, config_error)
      | some c ↦ let (s', r) = consume_with_retry k cost c turns 0 retries s in (s', result r)
    ]
  ]

  unfoldable pub peek : Limiter → String → Option TokenBucketConfig → ℕ → State → Reply
  peek l key config now seen = elim (resolve_config l config) [
    | none ↦ config_error
    | some c ↦
        result (compute_peek_result (read_state (or_else (resolve_key l key) key) seen) now c)
  ]

  unfoldable pub reset : String → State → State
  reset key s = (write (pk key) (λ r. true) (λ r. none) s).0
