-- ===== src/Tenant/Subdomain.antt =====
-- packages/foundation/src/tenant/strategies/subdomain.ts: the tenant in front of the base domain.
pub mod Exact
pub mod Hosts
use saas_foundation.Prelude.{
  Bool, Option, none, some, or_else, List, [], ◌∷◌, map, any, ◌==◌, length, if◌then◌else◌,
  same_numbers,
}
use saas_foundation.Text.{Text, text_of, first_part, before_suffix}
use saas_foundation.Tenant.{
  tenant_id, normalized, TenantResolver, tenant, nobody, server_trust_anchored,
}

pub record SubdomainTenantResolver : Type 0 where
  pub base_domain : Text
  pub reserved_labels : List Text

abbrev pub default_reserved_labels : List Text
default_reserved_labels = text_of "www" ∷ []

-- `to_lower` is the language's `toLowerCase`.
module _ (to_lower : Text → Text) where
  -- The constructor, `none` where it throws.
  unfoldable pub create : Text → Option (List Text) → Option SubdomainTenantResolver
  create base_domain reserved_labels =
      if length base_domain == 0
      then none
      else some (record {
        base_domain = to_lower base_domain;
        reserved_labels = map to_lower (or_else reserved_labels default_reserved_labels);
      })

  unfoldable pub is_reserved : SubdomainTenantResolver → Text → Bool
  unfolding first_part
  is_reserved r candidate = any (same_numbers (first_part b'.' candidate)) r.reserved_labels

  unfoldable pub resolve_sync : SubdomainTenantResolver → Text → Option Text
  unfolding normalized before_suffix is_reserved tenant_id
  resolve_sync r hostname =
      let host = normalized to_lower hostname in
      if same_numbers host r.base_domain
      then none
      else elim (before_suffix (b'.' ∷ r.base_domain) host) [
        | none ↦ none
        | some candidate ↦
            if length candidate == 0
            then none
            else if is_reserved r candidate
            then none
            else tenant_id candidate
      ]

  -- The strategy as a resolver of the hosts.
  unfoldable pub resolver : {R : Type 0} → SubdomainTenantResolver → TenantResolver Text R
  unfolding resolve_sync
  resolver r = record {
    trust_class = some server_trust_anchored;
    resolve = λ hostname. elim (resolve_sync r hostname) [ none ↦ nobody | some t ↦ tenant t ];
  }
