-- ===== src/RateLimit/Memory.antt =====
-- packages/foundation/src/rate-limit/memory-limiter.ts: a token bucket for each key, in one map.
pub mod Laws
use Prim.Native.String
use saas_foundation.Prelude.{
  ℕ, String, Bool, false, not, ◌&&◌, ◌||◌, Option, none, some, [], str_eq, ltb, if◌then◌else◌,
  or_else, JsMap, get as map_get, set as map_set, delete as map_delete,
}
use saas_foundation.RateLimit.Bucket.{
  TokenBucketConfig, BucketState, RateLimitResult, compute_consume_result, compute_peek_result,
}

pub data UnknownKeyStrategy : Type 0 where
  shared_bucket reject allow : UnknownKeyStrategy

pub record Limiter : Type 0 where
  pub default_config : TokenBucketConfig
  pub unknown_key_strategy : UnknownKeyStrategy

-- A call returns a result, or throws `RateLimitConfigError`.
pub data Reply : Type 0 where
  result : RateLimitResult → Reply
  config_error : Reply

abbrev pub Buckets : Type 0
Buckets = JsMap BucketState

-- The schema of a configuration: both numbers are positive.
unfoldable pub is_valid : TokenBucketConfig → Bool
is_valid c = ltb 0 c.capacity && ltb 0 c.refill

abbrev default_tokens : TokenBucketConfig
default_tokens = record { capacity = 60000; refill = 1; unit = 1000 }

-- The constructor; `none` is the thrown error.
unfoldable pub new_limiter : Option TokenBucketConfig → Option UnknownKeyStrategy → Option Limiter
unfolding is_valid
new_limiter config strategy =
    let c = or_else config default_tokens in
    if is_valid c
    then some (record { default_config = c; unknown_key_strategy = or_else strategy shared_bucket })
    else none

-- `key.endsWith(suffix)`
unfoldable pub ends_in : String → String → Bool
ends_in suffix String.[] = str_eq String.[] suffix
ends_in suffix (String.◌∷◌ c s) = str_eq (String.◌∷◌ c s) suffix || ends_in suffix s

unfoldable pub is_unknown : String → Bool
unfolding ends_in
is_unknown key = str_eq key "unknown" || ends_in ":unknown" key

unfoldable pub resolve_key : Limiter → String → Option String
unfolding is_unknown
resolve_key l key =
    if not (is_unknown key)
    then some key
    else elim l.unknown_key_strategy [ reject ↦ none | allow ↦ some key | shared_bucket ↦ some key ]

unfoldable pub resolve_config : Limiter → Option TokenBucketConfig → Option TokenBucketConfig
unfolding is_valid
resolve_config l none = some l.default_config
resolve_config l (some c) = if is_valid c then some c else none

-- The answer to a rejected key: denied, with a wait of no seconds.
unfoldable pub rejection : ℕ → RateLimitResult
rejection now = record { allowed = false; remaining = 0; reset_at = now; retry_after = some 0 }

unfoldable pub consume_at : TokenBucketConfig → String → ℕ → ℕ → Buckets → Buckets × RateLimitResult
consume_at c key cost now s =
    let (state, r) = compute_consume_result (map_get s key) now cost c in (map_set s key state, r)

unfoldable pub consume :
    Limiter → String → ℕ → Option TokenBucketConfig → ℕ → Buckets → Buckets × Reply
unfolding resolve_config rejection consume_at
consume l key cost config now s = elim (resolve_key l key) [
  | none ↦ (s, result (rejection now))
  | some k ↦ elim (resolve_config l config) [
    | none ↦ (s, config_error)
    | some c ↦ let (s', r) = consume_at c k cost now s in (s', result r)
  ]
]

unfoldable pub peek : Limiter → String → Option TokenBucketConfig → ℕ → Buckets → Reply
unfolding resolve_config
peek l key config now s = elim (resolve_config l config) [
  | none ↦ config_error
  | some c ↦ result (compute_peek_result (map_get s (or_else (resolve_key l key) key)) now c)
]

unfoldable pub reset : String → Buckets → Buckets
reset key s = map_delete s key
