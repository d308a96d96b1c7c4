-- ===== src/Tenant/Subdomain/Exact.antt =====
-- The hosts that packages/foundation/src/tenant/strategies/subdomain.ts gives a tenant to.
use saas_foundation.Prelude.{
  ◌≡◌, ◌↔◌, refl, sym, ap, true, false, some, [], ◌∷◌, ◌++◌, arith, ◌==◌, length, length-append,
  same_numbers, same_numbers_sound, Bool-cases, Option-cases, inl, inr,
}
use saas_foundation.Text.{Text, before_suffix, before_suffix_sound, before_suffix-append}
use saas_foundation.Tenant.{
  is_tenant_id, tenant_id_sound, tenant_id_complete, normalized, IsLawful, tenant,
}
use saas_foundation.Tenant.Subdomain.{SubdomainTenantResolver, is_reserved, resolve_sync, resolver}

empty_id : is_tenant_id [] ≡ false
unfolding is_tenant_id
empty_id = refl

module _ (to_lower : Text → Text) (r : SubdomainTenantResolver) where
  -- A host is that of the tenant.
  abbrev pub HostOf : Text → Text → Type 0
  HostOf hostname t =
      (normalized to_lower hostname ≡ t ++ (b'.' ∷ r.base_domain))
      × (is_reserved to_lower r t ≡ false)
      × (is_tenant_id t ≡ true)

  resolve_sync_sound :
      (hostname t : Text) → resolve_sync to_lower r hostname ≡ some t → HostOf hostname t
  unfolding resolve_sync
  resolve_sync_sound hostname t h =
      elim (Bool-cases (same_numbers (normalized to_lower hostname) r.base_domain)) [
        | inl apex ↦ absurd (cc (rw (apex, resolve_sync) at h))
        | inr below ↦
            elim (Option-cases
              (before_suffix (b'.' ∷ r.base_domain) (normalized to_lower hostname))) [
                | inl foreign ↦ absurd (cc (rw (below, foreign, resolve_sync) at h))
                | inr (candidate, e) ↦ elim (Bool-cases (length candidate == 0)) [
                  | inl empty ↦ absurd (cc (rw (below, e, empty, resolve_sync) at h))
                  | inr full ↦ elim (Bool-cases (is_reserved to_lower r candidate)) [
                    | inl reserved ↦ absurd (cc (rw (below, e, full, reserved, resolve_sync) at h))
                    | inr open_label ↦
                        let parts =
                          tenant_id_sound candidate t
                            (rw (below, e, full, open_label, resolve_sync) at h) in
                        (
                          rw (← parts.0) (
                              sym (
                                before_suffix_sound (b'.' ∷ r.base_domain)
                                  (normalized to_lower hostname) candidate e)),
                          rw (← parts.0) open_label,
                          parts.1,
                        )
                  ]
                ]
              ]
      ]

  below_base : (t : Text) → same_numbers (t ++ (b'.' ∷ r.base_domain)) r.base_domain ≡ false
  below_base t = elim (Bool-cases (same_numbers (t ++ (b'.' ∷ r.base_domain)) r.base_domain)) [
    | inr other ↦ other
    | inl same ↦
        let e =
          ap (λ (s : Text). length s)
            (same_numbers_sound (t ++ (b'.' ∷ r.base_domain)) r.base_domain same) in
        absurd (omega (arith, e, length-append t (b'.' ∷ r.base_domain)))
  ]

  full_label : (t : Text) → is_tenant_id t ≡ true → length t == 0 ≡ false
  full_label [] h = absurd (cc (h, empty_id))
  full_label (x ∷ t) h = ground arith

  resolve_sync_complete :
      (hostname t : Text) → HostOf hostname t → resolve_sync to_lower r hostname ≡ some t
  unfolding resolve_sync
  resolve_sync_complete hostname t h =
      rw (h.0, below_base t, before_suffix-append (b'.' ∷ r.base_domain) t, full_label t h.2, h.1)
        (tenant_id_complete t h.2)

  -- The tenant of a host that has been brought into the normal form.
  pub resolve_sync_iff :
      (hostname t : Text) → (resolve_sync to_lower r hostname ≡ some t) ↔ HostOf hostname t
  resolve_sync_iff hostname t = (resolve_sync_sound hostname t, resolve_sync_complete hostname t)

  pub resolver-IsLawful : {R : Type 0} → IsLawful (resolver to_lower {R = R} r)
  unfolding resolver
  resolver-IsLawful input t h = elim (Option-cases (resolve_sync to_lower r input)) [
    | inl e ↦ absurd (cc (rw (e, resolver) at h))
    | inr (s, e) ↦
        let same : tenant s ≡ tenant t = rw (e, resolver) at h in
        let one : s ≡ t = cc same in rw (← one) (resolve_sync_sound input s e).2
  ]
