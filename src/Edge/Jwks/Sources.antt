-- ===== src/Edge/Jwks/Sources.antt =====
-- Where the keys that edge/jwks-cache.ts answers with come from: one fetch, within its lifetime.
use saas_foundation.Prelude.{
  ℕ, ◌+◌, ◌<◌, String, ◌≡◌, refl, ap, ◌∙◌, inl, inr, true, false, not, ◌||◌, none, some, List, [],
  ◌∷◌, ◌++◌, arith, str_eq, ltb, Bool-cases, Option-cases, ltb→lt, All,
}
use saas_foundation.Edge.Jwks.{
  Answer, keys, threw, JwksCache, create, delivered, keep, refresh, get_jwks, Call, after,
}

-- The set is one that a fetch of the calls (the latest first) delivered, and every later call was
-- within its lifetime.
pub record FromFetch {A : Type 0} (url : String) (ttl : ℕ) (calls : List (Call A)) (found : List A)
    : Type 0 where
  pub later : List (Call A)
  pub earlier : List (Call A)
  pub source : Call A
  pub trace : calls ≡ later ++ source ∷ earlier
  pub fresh : All (λ (d : Call A). d.now < source.now + ttl) later
  pub served : delivered (source.fetcher url) ≡ some found

-- What the cache holds after the calls.
record Backed {A : Type 0} (url : String) (ttl : ℕ) (calls : List (Call A)) (c : JwksCache A)
    : Type 0 where
  same_url : c.jwks_url ≡ url
  same_ttl : c.ttl_ms ≡ ttl
  holds :
      (found : List A)
      → c.cached_keys ≡ some found
      → (f : FromFetch url ttl calls found) × (f.source.now ≡ c.cached_at)

-- What one call gives: the cache stays backed, and an answer with keys is the set it holds.
abbrev Steps : {A : Type 0} → String → ℕ → List (Call A) → JwksCache A × Answer A → Type 0
Steps {A = A} url ttl calls r =
    Backed url ttl calls r.0 × ((found : List A) → r.1 ≡ keys found → r.0.cached_keys ≡ some found)

fetched_here :
    {A : Type 0} (url : String) (ttl : ℕ) (d : Call A) (calls : List (Call A)) (found : List A)
    → delivered (d.fetcher url) ≡ some found
    → FromFetch url ttl (d ∷ calls) found
fetched_here url ttl d calls found h = record {
  later = [];
  earlier = calls;
  source = d;
  trace = refl;
  fresh = tt;
  served = h;
}

kept_on :
    {A : Type 0} (url : String) (ttl : ℕ) (d : Call A) (calls : List (Call A)) (found : List A)
    (f : FromFetch url ttl calls found)
    → d.now < f.source.now + ttl
    → FromFetch url ttl (d ∷ calls) found
kept_on url ttl d calls found f fresh = record {
  later = d ∷ f.later;
  earlier = f.earlier;
  source = f.source;
  trace = ap (λ t. d ∷ t) f.trace;
  fresh = (fresh, f.fresh);
  served = f.served;
}

missed-Steps :
    {A : Type 0} (url : String) (ttl : ℕ) (calls : List (Call A)) (c : JwksCache A)
    → c.jwks_url ≡ url
    → c.ttl_ms ≡ ttl
    → Steps url ttl calls (keep none 0 c, threw)
unfolding keep
missed-Steps url ttl calls c hu ht = (
  record { same_url = hu; same_ttl = ht; holds = λ found h. absurd (cc h) },
  (λ found h. absurd (cc h)),
)

found-Steps :
    {A : Type 0} (url : String) (ttl : ℕ) (d : Call A) (calls : List (Call A)) (c : JwksCache A)
    (found : List A)
    → c.jwks_url ≡ url
    → c.ttl_ms ≡ ttl
    → delivered (d.fetcher url) ≡ some found
    → Steps url ttl (d ∷ calls) (keep (some found) d.now c, keys found)
unfolding keep fetched_here
found-Steps url ttl d calls c found hu ht served = (
  record {
    same_url = hu;
    same_ttl = ht;
    holds = λ other h. (fetched_here url ttl d calls other (served ∙ h), refl);
  },
  (λ other h. cc h),
)

refresh-Steps :
    {A : Type 0} (url : String) (ttl : ℕ) (d : Call A) (calls : List (Call A)) (c : JwksCache A)
    → c.jwks_url ≡ url
    → c.ttl_ms ≡ ttl
    → Steps url ttl (d ∷ calls) (refresh d.now (d.fetcher c.jwks_url) c)
unfolding refresh
refresh-Steps url ttl d calls c hu ht = elim (Option-cases (delivered (d.fetcher c.jwks_url))) [
  | inl missing ↦ rw (missing, refresh) (missed-Steps url ttl (d ∷ calls) c hu ht)
  | inr (found, served) ↦
      rw (served, refresh) (found-Steps url ttl d calls c found hu ht (cc (served, hu)))
]

cached-Steps :
    {A : Type 0} (url : String) (ttl : ℕ) (d : Call A) (calls : List (Call A)) (c : JwksCache A)
    (found : List A)
    → Backed url ttl calls c
    → c.cached_keys ≡ some found
    → d.now < c.cached_at + c.ttl_ms
    → Steps url ttl (d ∷ calls) (c, keys found)
unfolding kept_on
cached-Steps url ttl d calls c found b held fresh = (
  record {
    same_url = b.same_url;
    same_ttl = b.same_ttl;
    holds = λ other h.
        let (f, at) = b.holds other h in
        (kept_on url ttl d calls other f (omega (arith, at, b.same_ttl, fresh)), at);
  },
  (λ other h. cc (h, held)),
)

get_jwks_missing :
    {A : Type 0} (d : Call A) (c : JwksCache A)
    → c.cached_keys ≡ none
    → get_jwks d.now d.fetcher c ≡ refresh d.now (d.fetcher c.jwks_url) c
unfolding get_jwks
get_jwks_missing d c missing = grind arith

get_jwks_fresh :
    {A : Type 0} (d : Call A) (c : JwksCache A) (found : List A)
    → c.cached_keys ≡ some found
    → ltb d.now (c.cached_at + c.ttl_ms) ≡ true
    → get_jwks d.now d.fetcher c ≡ (c, keys found)
unfolding get_jwks
get_jwks_fresh d c found held fresh = grind arith

get_jwks_stale :
    {A : Type 0} (d : Call A) (c : JwksCache A) (found : List A)
    → c.cached_keys ≡ some found
    → ltb d.now (c.cached_at + c.ttl_ms) ≡ false
    → get_jwks d.now d.fetcher c ≡ refresh d.now (d.fetcher c.jwks_url) c
unfolding get_jwks
get_jwks_stale d c found held stale = grind arith

get_jwks-Steps :
    {A : Type 0} (url : String) (ttl : ℕ) (d : Call A) (calls : List (Call A)) (c : JwksCache A)
    → Backed url ttl calls c
    → Steps url ttl (d ∷ calls) (get_jwks d.now d.fetcher c)
get_jwks-Steps url ttl d calls c b =
    let fetched = refresh-Steps url ttl d calls c b.same_url b.same_ttl in
    elim (Option-cases c.cached_keys) [
      | inl missing ↦ rw (get_jwks_missing d c missing) fetched
      | inr (found, held) ↦ elim (Bool-cases (ltb d.now (c.cached_at + c.ttl_ms))) [
        | inl fresh ↦ rw (get_jwks_fresh d c found held fresh) (
            cached-Steps url ttl d calls c found b held
              (ltb→lt d.now (c.cached_at + c.ttl_ms) fresh))
        | inr stale ↦ rw (get_jwks_stale d c found held stale) fetched
      ]
    ]

create-fields :
    {A : Type 0} (url : String) (ttl : ℕ) (c : JwksCache A)
    → create url ttl ≡ some c
    → (c.jwks_url ≡ url) × (c.ttl_ms ≡ ttl) × (c.cached_keys ≡ none)
unfolding create
create-fields url ttl c h = elim (Bool-cases (str_eq url "" || not (ltb 0 ttl))) [
  | inl bad ↦ absurd (cc (rw bad at h))
  | inr good ↦ let e = rw good at h in (ground (arith, e), ground (arith, e), ground (arith, e))
]

after-Backed :
    {A : Type 0} (url : String) (ttl : ℕ) (c : JwksCache A)
    → create url ttl ≡ some c
    → (calls : List (Call A)) → Backed url ttl calls (after calls c)
unfolding after
after-Backed url ttl c h [] =
    let (url_kept, ttl_kept, no_keys) = create-fields url ttl c h in
    record {
      same_url = url_kept;
      same_ttl = ttl_kept;
      holds = λ found held. absurd (cc (no_keys, held));
    }
after-Backed url ttl c h (d ∷ earlier) =
    (get_jwks-Steps url ttl d earlier (after earlier c) (after-Backed url ttl c h earlier)).0

-- Whatever the fetches end in and the clock shows, a set of keys that a call answers with is one
-- that the fetch of this call or of an earlier one delivered, nothing merged into it, and this call
-- and all between were less than the lifetime after that fetch.
pub get_jwks-FromFetch :
    {A : Type 0} (url : String) (ttl : ℕ) (c : JwksCache A)
    → create url ttl ≡ some c
    → (earlier : List (Call A)) (d : Call A) (found : List A)
    → (get_jwks d.now d.fetcher (after earlier c)).1 ≡ keys found
    → FromFetch url ttl (d ∷ earlier) found
get_jwks-FromFetch url ttl c h earlier d found answered =
    let (backed, given) =
      get_jwks-Steps url ttl d earlier (after earlier c) (after-Backed url ttl c h earlier) in
    (backed.holds found (given found answered)).0
