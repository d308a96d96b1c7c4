-- ===== src/Region/Residency.antt =====
-- packages/foundation/src/region/residency.ts: the cache in front of a policy. A clock reading after the
-- policy's answer is a second argument, since the answer takes time.
pub mod Fresh
use saas_foundation.Prelude.{
  ℕ, ◌+◌, String, Option, none, some, ltb, if◌then◌else◌, JsMap, get, set,
}

-- A region, or none, and when it expires.
pub record Cached (R : Type 0) : Type 0 where
  pub region : Option R
  pub expires : ℕ

-- `none` stands for an answer of the policy that is a rejection, which the caller sees.
unfoldable pub fetch :
    {R : Type 0}
    → ℕ
    → ℕ
    → Option (Option R)
    → String
    → JsMap (Cached R)
    → JsMap (Cached R) × Option (Option R)
fetch ttl_ms done none tenant cache = (cache, none)
fetch ttl_ms done (some r) tenant cache =
    (set cache tenant (record { region = r; expires = done + ttl_ms }), some r)

-- `getResidencyRegion` at `now`; `answer` is what the policy answers if it is asked, at `done`.
unfoldable pub get_residency_region :
    {R : Type 0}
    → ℕ
    → ℕ
    → ℕ
    → Option (Option R)
    → String
    → JsMap (Cached R)
    → JsMap (Cached R) × Option (Option R)
unfolding fetch
get_residency_region ttl_ms now done answer tenant cache =
    let fetched = fetch ttl_ms done answer tenant cache in
    elim (get cache tenant) [
      | none ↦ fetched
      | some cached ↦ if ltb now cached.expires then (cache, some cached.region) else fetched
    ]

-- `mapping` has the properties of the object, those that every object has included.
unfoldable pub get_residency_region_for_tenant :
    {R : Type 0} → String → (String → Option R) → Option R
get_residency_region_for_tenant tenant mapping = mapping tenant
