-- ===== src/Tenant/Composite.antt =====
-- packages/foundation/src/tenant/strategies/composite.ts: several resolvers, one after the other.
pub mod Trust
use saas_foundation.Prelude.{
  Bool, true, false, ◌&&◌, Option, none, some, List, [], ◌∷◌, any, if◌then◌else◌, length, ◌==◌,
}
use saas_foundation.Tenant.{
  TrustClass, server_trust_anchored, untrusted, Resolved, tenant, nobody, rejected, TenantResolver,
}

pub data CompositeError : Type 0 where
  no_resolver mixed_trust : CompositeError

pub data Composed (A : Type 0) : Type 0 where
  refused : CompositeError → Composed A
  composed : A → Composed A

abbrev pub declares : Option TrustClass → TrustClass → Bool
declares none c = false
declares (some server_trust_anchored) server_trust_anchored = true
declares (some server_trust_anchored) untrusted = false
declares (some untrusted) server_trust_anchored = false
declares (some untrusted) untrusted = true

module _ {I R : Type 0} where
  -- `classes.has(c)`
  unfoldable pub has_class : TrustClass → List (TenantResolver I R) → Bool
  has_class c resolvers = any (λ r. declares r.trust_class c) resolvers

  -- The constructor.
  unfoldable pub create : List (TenantResolver I R) → Composed (List (TenantResolver I R))
  unfolding has_class
  create resolvers =
      if length resolvers == 0
      then refused no_resolver
      else if has_class server_trust_anchored resolvers && has_class untrusted resolvers
      then refused mixed_trust
      else composed resolvers

  unfoldable pub resolve : List (TenantResolver I R) → I → Resolved R
  resolve [] input = nobody
  resolve (r ∷ resolvers) input =
      let rest = resolve resolvers input in
      elim (r.resolve input) [ tenant t ↦ tenant t | nobody ↦ rest | rejected e ↦ rejected e ]

  -- A composite is a resolver that declares no class.
  unfoldable pub composite : List (TenantResolver I R) → TenantResolver I R
  unfolding resolve
  composite resolvers = record { trust_class = none; resolve = resolve resolvers }
