-- ===== src/Tenant.antt =====
-- packages/foundation/src/tenant: the tenant that a request is for, by the strategies and the identifiers of
-- packages/foundation/src/types/frozen/tenant.ts.
pub mod Subdomain
pub mod CustomDomain
pub mod Composite
mod Tests
use saas_foundation.Prelude.{
  ℕ, ◌≡◌, refl, Bool, true, false, ◌&&◌, ◌||◌, not, Option, none, some, [], ◌∷◌, leb, ltb, ◌==◌,
  if◌then◌else◌, length, all, is_digit, Option-cases, inl, inr,
}
use saas_foundation.Text.{Text, is_space, strip_last}

-- [^\s\x00-\x1f\x7f]
unfoldable pub is_tenant_char : ℕ → Bool
unfolding is_space
is_tenant_char c = not (is_space c || leb c 31 || c == 127)

pub data TenantIdReason : Type 0 where
  too_short too_long bad_character : TenantIdReason

-- Why a text is no identifier, if it is none.
unfoldable pub validate_tenant_id_shape : Text → Option TenantIdReason
unfolding is_tenant_char
validate_tenant_id_shape value =
    if ltb (length value) 1
    then some too_short
    else if ltb 256 (length value)
    then some too_long
    else if not (all is_tenant_char value)
    then some bad_character
    else none

-- `none` where the source throws a `TenantIdValidationError`.
unfoldable pub tenant_id : Text → Option Text
unfolding validate_tenant_id_shape
tenant_id value = elim (validate_tenant_id_shape value) [ none ↦ some value | some reason ↦ none ]

unfoldable pub is_tenant_id : Text → Bool
unfolding validate_tenant_id_shape
is_tenant_id value = elim (validate_tenant_id_shape value) [ none ↦ true | some reason ↦ false ]

-- `.replace(/:\d+$/, "")`
unfoldable pub strip_port : Text → Text
unfolding is_digit
strip_port [] = []
strip_port (x ∷ s) =
    let rest = strip_port s in
    if x == b':' && ltb 0 (length s) && all is_digit s then [] else x ∷ rest

-- A host in lower case, without one dot at its end, and then without its port.
unfoldable pub normalized : (Text → Text) → Text → Text
unfolding strip_port strip_last
normalized to_lower hostname = strip_port (strip_last b'.' (to_lower hostname))

pub data TrustClass : Type 0 where
  server_trust_anchored untrusted : TrustClass

-- What a resolver's promise gives: a tenant, null, or a rejection.
pub data Resolved (R : Type 0) : Type 0 where
  tenant : Text → Resolved R
  nobody : Resolved R
  rejected : R → Resolved R

-- A resolver, with the class that it declares. `I` is the input, and `R` the errors.
pub record TenantResolver (I R : Type 0) : Type 0 where
  pub trust_class : Option TrustClass
  pub resolve : I → Resolved R

-- The law of the bundled resolvers: what they give is an identifier.
abbrev pub IsLawful : {I R : Type 0} → TenantResolver I R → Type 0
IsLawful {I = I} r = (input : I) (t : Text) → r.resolve input ≡ tenant t → is_tenant_id t ≡ true

pub tenant_id_sound : (s t : Text) → tenant_id s ≡ some t → (s ≡ t) × (is_tenant_id t ≡ true)
unfolding tenant_id is_tenant_id
tenant_id_sound s t h = elim (Option-cases (validate_tenant_id_shape s)) [
  | inr (reason, bad) ↦ absurd (cc (rw (bad, tenant_id) at h))
  | inl good ↦
      let same : some s ≡ some t = rw (good, tenant_id) at h in
      let one : s ≡ t = cc same in (one, rw (← one, good, is_tenant_id) refl)
]

pub tenant_id_complete : (s : Text) → is_tenant_id s ≡ true → tenant_id s ≡ some s
unfolding tenant_id is_tenant_id
tenant_id_complete s h = elim (Option-cases (validate_tenant_id_shape s)) [
  | inr (reason, bad) ↦ absurd (cc (rw (bad, is_tenant_id) at h))
  | inl good ↦ rw (good, tenant_id) refl
]
