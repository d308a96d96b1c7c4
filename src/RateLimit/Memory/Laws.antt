-- ===== src/RateLimit/Memory/Laws.antt =====
-- Each key has a bucket of its own, and gets no more than its bucket grants.
use saas_foundation.Prelude.{
  ℕ, ◌+◌, ◌-◌, ◌*◌, ◌≤◌, String, ◌≡◌, refl, ap, ◌∙◌, ◌⊎◌, inl, inr, true, false, Option, none, some,
  List, [], ◌∷◌, arith, str_eq, eq_iff, if◌then◌else◌, Bool-cases, get as map_get, get-set_self,
  get-set_ne,
}
use saas_foundation.RateLimit.Bucket.{
  TokenBucketConfig, BucketState, effective, compute_consume_result,
}
use saas_foundation.RateLimit.Bucket.Bounds.{serve, Ordered, last_time, granted_bounded}
use saas_foundation.RateLimit.Memory.{
  UnknownKeyStrategy, shared_bucket, reject, allow, Limiter, Reply, result, config_error, Buckets,
  resolve_key, resolve_config, is_valid, rejection, consume_at, consume, peek, is_unknown,
}

-- A call with the default configuration: its key, its cost and its time.
pub record Call : Type 0 where
  pub key : String
  pub cost : ℕ
  pub now : ℕ

-- What a reply grants of a cost.
abbrev pub granted : Reply → ℕ → ℕ
granted config_error cost = 0
granted (result r) cost = if r.allowed then cost else 0

-- The calls of all callers in their order: the buckets after them, and what the key was granted.
unfoldable pub serve_all : Limiter → String → List Call → Buckets → Buckets × ℕ
serve_all l key [] s = (s, 0)
serve_all l key (call ∷ more) s =
    let (s', reply) = consume l call.key call.cost none call.now s in
    let (end, sum) = serve_all l key more s' in
    (end, (if str_eq call.key key then granted reply call.cost else 0) + sum)

-- The calls of one key.
abbrev pub calls_of : String → List Call → List (ℕ × ℕ)
calls_of key [] = []
calls_of key (call ∷ more) =
    let rest = calls_of key more in
    if str_eq call.key key then (call.now, call.cost) ∷ rest else rest

resolve_key-cases :
    (l : Limiter) (key : String) → (resolve_key l key ≡ none) ⊎ (resolve_key l key ≡ some key)
unfolding resolve_key
resolve_key-cases l key = elim (Bool-cases (is_unknown key)) [
  | inr known ↦ inr (ground (arith, known))
  | inl unknown ↦ by_strategy (l.unknown_key_strategy) refl unknown
]
  where
    by_strategy :
        (u : UnknownKeyStrategy)
        → l.unknown_key_strategy ≡ u
        → is_unknown key ≡ true
        → (resolve_key l key ≡ none) ⊎ (resolve_key l key ≡ some key)
    by_strategy reject e unknown = inl (ground (arith, unknown, e))
    by_strategy allow e unknown = inr (ground (arith, unknown, e))
    by_strategy shared_bucket e unknown = inr (ground (arith, unknown, e))

consume_known :
    (l : Limiter) (key : String) (cost now : ℕ) (s : Buckets)
    → resolve_key l key ≡ some key
    → consume l key cost none now s ≡ (
      (consume_at l.default_config key cost now s).0,
      result (consume_at l.default_config key cost now s).1,
    )
unfolding consume resolve_config
consume_known l key cost now s known = rw (known, consume)

consume_rejected :
    (l : Limiter) (key : String) (cost now : ℕ) (s : Buckets)
    → resolve_key l key ≡ none
    → consume l key cost none now s ≡ (s, result (rejection now))
unfolding consume
consume_rejected l key cost now s unknown = rw (unknown, consume)

consume_here :
    (l : Limiter) (key : String) (cost now : ℕ) (s : Buckets)
    → resolve_key l key ≡ some key
    → let out = compute_consume_result (map_get s key) now cost l.default_config in
      (map_get (consume l key cost none now s).0 key ≡ some out.0)
      × (granted (consume l key cost none now s).1 cost ≡ (if out.1.allowed then cost else 0))
unfolding consume_at
consume_here l key cost now s known =
    let e = consume_known l key cost now s known in
    let state : BucketState =
      (compute_consume_result (map_get s key) now cost l.default_config).0 in
    (
      ap (λ (p : Buckets × Reply). map_get p.0 key) e ∙ get-set_self s key state,
      ap (λ (p : Buckets × Reply). granted p.1 cost) e,
    )

consume_same :
    (l : Limiter) (k key : String) (cost now : ℕ) (s : Buckets)
    → k ≡ key
    → resolve_key l key ≡ some key
    → let out = compute_consume_result (map_get s key) now cost l.default_config in
      (map_get (consume l k cost none now s).0 key ≡ some out.0)
      × (granted (consume l k cost none now s).1 cost ≡ (if out.1.allowed then cost else 0))
consume_same l k key cost now s e known = rw e (consume_here l key cost now s known)

consume_elsewhere :
    (l : Limiter) (key other : String) (cost now : ℕ) (s : Buckets)
    → str_eq other key ≡ false
    → map_get (consume l other cost none now s).0 key ≡ map_get s key
unfolding consume_at
consume_elsewhere l key other cost now s ne = elim (resolve_key-cases l other) [
  | inl unknown ↦
      ap (λ (p : Buckets × Reply). map_get p.0 key) (consume_rejected l other cost now s unknown)
  | inr known ↦
      let state : BucketState =
        (compute_consume_result (map_get s other) now cost l.default_config).0 in
      ap (λ (p : Buckets × Reply). map_get p.0 key) (consume_known l other cost now s known)
      ∙ get-set_ne s other key state (λ e. grind (arith, (eq_iff other key).1 e))
]

-- For each key that is not rejected, the limiter is that key's own token bucket: after any calls of
-- `consume` with the default configuration, of all keys, its state and all that it granted are what
-- the bucket gives on its own calls. Calls with a configuration of their own, and `reset`, are not
-- among these calls.
pub limiter_refines_bucket :
    (l : Limiter) (key : String) (calls : List Call) (s : Buckets)
    → resolve_key l key ≡ some key
    → (map_get (serve_all l key calls s).0 key
        ≡ (serve l.default_config (map_get s key) (calls_of key calls)).0)
      × ((serve_all l key calls s).1
          ≡ (serve l.default_config (map_get s key) (calls_of key calls)).1)
unfolding serve_all serve
limiter_refines_bucket l key [] s known = (refl, refl)
limiter_refines_bucket l key (call ∷ more) s known =
    let s1 : Buckets = (consume l call.key call.cost none call.now s).0 in
    let (state, sum) = limiter_refines_bucket l key more s1 known in
    elim (Bool-cases (str_eq call.key key)) [
      | inl here ↦
          let (at_key, got) =
            consume_same l call.key key call.cost call.now s ((eq_iff call.key key).0 here) known in
          let bucket =
            ap (λ (o : Option BucketState). serve l.default_config o (calls_of key more)) at_key in
          rw here (
            state ∙ ap (λ (p : Option BucketState × ℕ). p.0) bucket,
            omega (arith, sum, got, ap (λ (p : Option BucketState × ℕ). p.1) bucket),
          )
      | inr there ↦
          let same = consume_elsewhere l key call.key call.cost call.now s there in
          rw (there, ← same) (state, omega (arith, sum))
    ]

-- Of all that all callers ask for, in the order of their times, a key is granted no more than the
-- capacity and what the time up to the last of its calls refills.
pub limiter_bounded :
    (l : Limiter) (key : String) (calls : List Call) (start : ℕ)
    → resolve_key l key ≡ some key
    → Ordered start (calls_of key calls)
    → (serve_all l key calls []).1
      ≤ l.default_config.capacity
        + (last_time start (calls_of key calls) - start) * l.default_config.refill
unfolding effective map_get
limiter_bounded l key calls start known order = omega (
  arith,
  (limiter_refines_bucket l key calls [] known).1,
  granted_bounded l.default_config none start (calls_of key calls) (omega arith) (omega arith)
      order,
)

kept_key :
    (c : TokenBucketConfig) (key : String)
    → (resolve_key (record { default_config = c; unknown_key_strategy = allow }) key ≡ some key)
      × (resolve_key (record { default_config = c; unknown_key_strategy = shared_bucket }) key
          ≡ some key)
unfolding resolve_key
kept_key c key = (ground arith, ground arith)

-- The strategy that is to let unknown keys pass limits them as the shared bucket does: with either,
-- every call has the same effect and the same answer.
pub allow_limits :
    (c : TokenBucketConfig) (key : String) (cost : ℕ) (config : Option TokenBucketConfig) (now : ℕ)
    (s : Buckets)
    → let lax : Limiter = record { default_config = c; unknown_key_strategy = allow } in
      let strict : Limiter = record { default_config = c; unknown_key_strategy = shared_bucket } in
      (consume lax key cost config now s ≡ consume strict key cost config now s)
      × (peek lax key config now s ≡ peek strict key config now s)
unfolding consume peek resolve_config
allow_limits c key cost none now s =
    let (lax, strict) = kept_key c key in (rw (lax, strict, consume), rw (lax, strict, peek))
allow_limits c key cost (some config) now s =
    let (lax, strict) = kept_key c key in
    (
      rw (lax, strict, consume),
      elim (Bool-cases (is_valid config)) [
        | inl good ↦ rw (good, lax, strict, peek)
        | inr bad ↦ rw (bad, peek)
      ],
    )
