-- ===== src/Tenant/Tests.antt =====
-- The theorems on tenants at concrete inputs.
use saas_foundation.Prelude.{
  ℕ, ◌≡◌, ◌↔◌, refl, false, none, some, List, [], ◌∷◌, same_numbers, if◌then◌else◌, is_digit,
}
use saas_foundation.Text.{Text, text_of, is_space, has, strip_last}
use saas_foundation.Tenant.{TenantResolver, tenant, untrusted}
use saas_foundation.Tenant.Subdomain.{SubdomainTenantResolver, resolve_sync, resolver}
use saas_foundation.Tenant.Subdomain.Hosts.{WrittenFor, resolve_sync-WrittenFor}
use saas_foundation.Tenant.CustomDomain.{
  Lookup, mapped, unknown, TenantResolverError, resolver as custom_resolver,
}
use saas_foundation.Tenant.Composite.{create, resolve, declares}
use saas_foundation.Tenant.Composite.Trust.{GivenBy, resolve-Trusted}

abbrev same_case : Text → Text
same_case s = s

abbrev app : SubdomainTenantResolver
app = record { base_domain = text_of "myapp.com"; reserved_labels = text_of "www" ∷ [] }

resolve_sync-WrittenFor_example :
    (resolve_sync same_case app (text_of "acme.myapp.com:8080.") ≡ some (text_of "acme"))
    ↔ WrittenFor same_case app (text_of "acme.myapp.com:8080.") (text_of "acme")
unfolding has strip_last
resolve_sync-WrittenFor_example =
    resolve_sync-WrittenFor same_case app (text_of "acme.myapp.com:8080.") (text_of "acme") refl
      refl

finds_tenant : resolve_sync same_case app (text_of "acme.myapp.com:8080") ≡ some (text_of "acme")
unfolding resolve_sync is_digit is_space same_numbers
finds_tenant = refl

-- A dot before the port stays.
dot_and_port : resolve_sync same_case app (text_of "acme.myapp.com.:8080") ≡ none
unfolding resolve_sync is_digit is_space same_numbers
dot_and_port = refl

abbrev domains : Text → Lookup ℕ
domains host =
    if same_numbers host (text_of "shop.example") then mapped (text_of "shop") else unknown

abbrev both : List (TenantResolver Text (TenantResolverError ℕ))
both = custom_resolver same_case domains ∷ resolver same_case app ∷ []

resolve-Trusted_example :
    (g : GivenBy both (text_of "acme.myapp.com") (tenant (text_of "acme"))) × (declares
        g.giver.trust_class untrusted
      ≡ false)
unfolding create resolve resolver custom_resolver is_digit is_space same_numbers
resolve-Trusted_example =
    resolve-Trusted both both (text_of "acme.myapp.com") (tenant (text_of "acme")) refl refl refl
      (λ h. absurd (cc h))
