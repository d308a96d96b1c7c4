-- ===== src/Tenant/CustomDomain.antt =====
-- packages/foundation/src/tenant/strategies/custom-domain.ts: the tenant that a lookup gives for a host.
use saas_foundation.Prelude.{
  ◌≡◌, true, none, some, ◌==◌, length, if◌then◌else◌, Bool-cases, Option-cases, inl, inr,
}
use saas_foundation.Text.{Text}
use saas_foundation.Tenant.{
  tenant_id, is_tenant_id, tenant_id_sound, normalized, TenantResolver, Resolved, tenant, nobody,
  rejected, server_trust_anchored, IsLawful,
}

-- What the lookup's promise gives.
pub data Lookup (R : Type 0) : Type 0 where
  mapped : Text → Lookup R
  unknown : Lookup R
  failed : R → Lookup R

-- The error of a lookup that failed.
pub record TenantResolverError (R : Type 0) : Type 0 where
  pub hostname : Text
  pub cause : R

-- A text that is an identifier is taken as it is, and another one is validated again.
unfoldable pub accept : {R : Type 0} → Text → Resolved (TenantResolverError R)
unfolding is_tenant_id tenant_id
accept result =
    if is_tenant_id result
    then tenant result
    else elim (tenant_id result) [ none ↦ nobody | some t ↦ tenant t ]

unfoldable pub resolve :
    {R : Type 0} → (Text → Text) → (Text → Lookup R) → Text → Resolved (TenantResolverError R)
unfolding normalized accept
resolve to_lower lookup hostname =
    let host = normalized to_lower hostname in
    if length host == 0 then nobody else elim (lookup host) [
      | mapped result ↦ accept result
      | unknown ↦ nobody
      | failed cause ↦ rejected (record { hostname = host; cause = cause })
    ]

-- The strategy as a resolver of the hosts.
unfoldable pub resolver :
    {R : Type 0} → (Text → Text) → (Text → Lookup R) → TenantResolver Text (TenantResolverError R)
unfolding resolve
resolver to_lower lookup = record {
  trust_class = some server_trust_anchored;
  resolve = λ hostname. resolve to_lower lookup hostname;
}

accept_lawful :
    {R : Type 0} → (result t : Text) → accept {R = R} result ≡ tenant t → is_tenant_id t ≡ true
unfolding accept
accept_lawful result t h = elim (Bool-cases (is_tenant_id result)) [
  | inl good ↦
      let same = rw (good, accept) at h in let one : result ≡ t = cc same in rw (← one) good
  | inr bad ↦ elim (Option-cases (tenant_id result)) [
    | inl e ↦ absurd (cc (rw (bad, e, accept) at h))
    | inr (s, e) ↦ absurd (cc (bad, (tenant_id_sound result s e).0, (tenant_id_sound result s e).1))
  ]
]

lookup_lawful :
    {R : Type 0}
    → (host : Text) (answer : Lookup R) (t : Text)
    → (elim answer as (λ _. Resolved (TenantResolverError R)) [
      | mapped result ↦ accept result
      | unknown ↦ nobody
      | failed cause ↦ rejected (record { hostname = host; cause = cause })
    ])
      ≡ tenant t
    → is_tenant_id t ≡ true
lookup_lawful host (mapped result) t h = accept_lawful result t h
lookup_lawful host unknown t h = absurd (cc h)
lookup_lawful host (failed cause) t h = absurd (cc h)

-- Whatever the lookup gives, the tenant is an identifier.
pub resolver-IsLawful :
    {R : Type 0}
    → (to_lower : Text → Text) (lookup : Text → Lookup R) → IsLawful (resolver to_lower lookup)
unfolding resolver
resolver-IsLawful to_lower lookup input t h =
    elim (Bool-cases (length (normalized to_lower input) == 0)) [
      | inl empty ↦ absurd (cc (rw (empty, resolve) at h))
      | inr full ↦
          lookup_lawful (normalized to_lower input) (lookup (normalized to_lower input)) t
            (rw (full, resolve) at h)
    ]
