-- ===== src/Edge/Jwks.antt =====
-- packages/vestibulum/src/lambda/shared-distribution/edge/jwks-cache.ts: the key set of the issuer and
-- how long it is kept. What a fetch ends in is an input of each call.
pub mod Sources
use saas_foundation.Prelude.{
  ℕ, ◌+◌, String, not, ◌||◌, Option, none, some, List, [], ◌∷◌, str_eq, ltb, if◌then◌else◌,
}

-- A value of the parsed body, as far as it is looked at. `A` is what `typeof` calls an object.
pub data Item (A : Type 0) : Type 0 where
  nothing primitive : Item A
  key_object : A → Item A

-- The parsed body: an object has the array that is its `keys`, if they are an array.
pub data Body (A : Type 0) : Type 0 where
  null_body primitive_body : Body A
  object_body : Option (List (Item A)) → Body A

-- What the fetch ends in: it throws, has a status that is not in the 200s, has a body that cannot
-- be read or parsed, or is parsed.
pub data Fetched (A : Type 0) : Type 0 where
  fetch_failed unreadable : Fetched A
  http_error : ℕ → Fetched A
  parsed : Body A → Fetched A

pub data Answer (A : Type 0) : Type 0 where
  keys : List A → Answer A
  threw : Answer A

pub record JwksCache (A : Type 0) : Type 0 where
  pub jwks_url : String
  pub ttl_ms : ℕ
  pub cached_keys : Option (List A)
  pub cached_at : ℕ

-- The constructor, `none` where it throws.
unfoldable pub create : {A : Type 0} → String → ℕ → Option (JwksCache A)
create url ttl_ms =
    if str_eq url "" || not (ltb 0 ttl_ms)
    then none
    else some (record { jwks_url = url; ttl_ms = ttl_ms; cached_keys = none; cached_at = 0 })

-- `keys.filter((k) => k !== null && typeof k === "object")`
unfoldable pub objects : {A : Type 0} → List (Item A) → List A
objects [] = []
objects (key_object k ∷ items) = k ∷ objects items
objects (_ ∷ items) = objects items

-- The set that a fetch delivers, if it delivers one.
unfoldable pub delivered : {A : Type 0} → Fetched A → Option (List A)
unfolding objects
delivered (parsed (object_body (some items))) = some (objects items)
delivered _ = none

-- `this.cachedKeys = keys; this.cachedAt = at`
unfoldable pub keep : {A : Type 0} → Option (List A) → ℕ → JwksCache A → JwksCache A
keep found at c = record {
  jwks_url = c.jwks_url;
  ttl_ms = c.ttl_ms;
  cached_keys = found;
  cached_at = at;
}

-- `getJwks` when it fetches: the set replaces the old one, and an error clears it.
unfoldable pub refresh : {A : Type 0} → ℕ → Fetched A → JwksCache A → JwksCache A × Answer A
unfolding delivered keep
refresh now fetched c = elim (delivered fetched) [
  | none ↦ (keep none 0 c, threw)
  | some found ↦ (keep (some found) now c, keys found)
]

-- `now - cachedAt < ttlMs`, also where the clock has gone back
unfoldable pub get_jwks :
    {A : Type 0} → ℕ → (String → Fetched A) → JwksCache A → JwksCache A × Answer A
unfolding refresh
get_jwks now fetcher c = elim c.cached_keys [
  | none ↦ refresh now (fetcher c.jwks_url) c
  | some found ↦
      let fetched = refresh now (fetcher c.jwks_url) c in
      if ltb now (c.cached_at + c.ttl_ms) then (c, keys found) else fetched
]

-- A call: its time, and what a fetch in it would end in.
pub record Call (A : Type 0) : Type 0 where
  pub now : ℕ
  pub fetcher : String → Fetched A

-- The cache after calls that are listed with the latest first.
unfoldable pub after : {A : Type 0} → List (Call A) → JwksCache A → JwksCache A
unfolding get_jwks
after [] c = c
after (d ∷ earlier) c = (get_jwks d.now d.fetcher (after earlier c)).0
