-- ===== src/Tenant/Subdomain/Hosts.antt =====
-- The hosts that packages/foundation/src/tenant/strategies/subdomain.ts gives a tenant to, as they are
-- written.
use saas_foundation.Prelude.{
  ℕ, ltb, length, all, ◌&&◌, is_digit, ◌≡◌, ◌↔◌, ◌⊎◌, refl, ap, ◌∙◌, true, false, some, [], ◌∷◌,
  ◌++◌, ◌==◌, inl, inr, arith, Bool-cases,
}
use saas_foundation.Text.{Text, strip_last, has}
use saas_foundation.Text.Ends.{
  AtMostOne, append_nil, strip_last_parts, strip_last-append, strip_last-end,
}
use saas_foundation.Tenant.{is_tenant_id, strip_port, normalized}
use saas_foundation.Tenant.Subdomain.{SubdomainTenantResolver, is_reserved, resolve_sync}
use saas_foundation.Tenant.Subdomain.Exact.{resolve_sync_iff}

-- Nothing, or a colon and decimal digits.
abbrev pub IsPort : Text → Type 0
IsPort port =
    (port ≡ [])
    ⊎ ((x : ℕ) × (digits : Text) × (port ≡ 58 ∷ x ∷ digits) × (all is_digit (x ∷ digits) ≡ true))

found_digits :
    (x : ℕ) (s : Text) → x == 58 && ltb 0 (length s) && all is_digit s ≡ true → IsPort (x ∷ s)
found_digits x [] h = absurd (ground arith)
found_digits x (y ∷ s) h =
    let e : x ≡ 58 = ground arith in inr (y, s, ap (λ z. z ∷ y ∷ s) e, ground arith)

strip_port_parts : (s : Text) → (port : Text) × (s ≡ strip_port s ++ port) × IsPort port
unfolding strip_port
strip_port_parts [] = ([], refl, inl refl)
strip_port_parts (x ∷ s) = elim (Bool-cases (x == 58 && ltb 0 (length s) && all is_digit s)) [
  | inl found ↦ (x ∷ s, rw found refl, found_digits x s found)
  | inr other ↦
      let (port, whole, form) = strip_port_parts s in
      (port, rw other (ap (λ (t : Text). x ∷ t) whole), form)
]

all-digit_stop : (c : ℕ) (a u : Text) → is_digit c ≡ false → all is_digit (a ++ c ∷ u) ≡ false
all-digit_stop c [] u h = ground (arith, h)
all-digit_stop c (x ∷ a) u h = ground (arith, all-digit_stop c a u h)

-- What is before a character that is no digit stays.
strip_port-append :
    (c : ℕ) (a u : Text) → is_digit c ≡ false → strip_port (a ++ c ∷ u) ≡ a ++ strip_port (c ∷ u)
unfolding strip_port
strip_port-append c [] u h = refl
strip_port-append c (x ∷ a) u h = ground (arith, all-digit_stop c a u h, strip_port-append c a u h)

strip_port-without : (s : Text) → has 58 s ≡ false → strip_port s ≡ s
unfolding strip_port has
strip_port-without [] h = refl
strip_port-without (x ∷ s) h = ground (arith, strip_port-without s)

colon_and_dot : (is_digit 58 ≡ false) × (is_digit 46 ≡ false)
unfolding is_digit
colon_and_dot = (refl, refl)

strip_port_whole :
    (x : ℕ) (digits : Text) → all is_digit (x ∷ digits) ≡ true → strip_port (58 ∷ x ∷ digits) ≡ []
unfolding strip_port
strip_port_whole x digits h = ground (arith, h)

digits_clean :
    (x : ℕ) (digits : Text)
    → all is_digit (x ∷ digits) ≡ true
    → strip_last 46 (x ∷ digits) ≡ x ∷ digits
unfolding strip_last is_digit
digits_clean x [] h = ground (arith, h)
digits_clean x (y ∷ digits) h = ground (arith, h, digits_clean y digits)

digits_clean_port :
    (x : ℕ) (digits : Text)
    → all is_digit (x ∷ digits) ≡ true
    → strip_last 46 (58 ∷ x ∷ digits) ≡ 58 ∷ x ∷ digits
unfolding strip_last
digits_clean_port x digits h = ap (λ (t : Text). 58 ∷ t) (digits_clean x digits h)

module _ (base : Text) (no_colon : has 58 base ≡ false)
    (clean : strip_last 46 (46 ∷ base) ≡ 46 ∷ base) where
  base_whole : strip_port (46 ∷ base) ≡ 46 ∷ base
  unfolding has
  base_whole = strip_port-without (46 ∷ base) no_colon

  host_clean :
      (t port : Text)
      → IsPort port
      → strip_last 46 ((t ++ 46 ∷ base) ++ port) ≡ (t ++ 46 ∷ base) ++ port
  host_clean t port (inl e) =
      rw (e, append_nil (t ++ 46 ∷ base))
        (strip_last-append 46 t 46 base ∙ ap (λ (s : Text). t ++ s) clean)
  host_clean t port (inr (x, digits, e, numeric)) = rw e (
      strip_last-append 46 (t ++ 46 ∷ base) 58 (x ∷ digits)
      ∙ ap (λ (s : Text). (t ++ 46 ∷ base) ++ s) (digits_clean_port x digits numeric))

  host_portless :
      (t port : Text) → IsPort port → strip_port ((t ++ 46 ∷ base) ++ port) ≡ t ++ 46 ∷ base
  host_portless t port (inl e) =
      rw (e, append_nil (t ++ 46 ∷ base))
        (strip_port-append 46 t base (colon_and_dot.1) ∙ ap (λ (s : Text). t ++ s) base_whole)
  host_portless t port (inr (x, digits, e, numeric)) =
      rw
        (
          e,
          strip_port-append 58 (t ++ 46 ∷ base) (x ∷ digits) (colon_and_dot.0),
          strip_port_whole x digits numeric,
        )
        (append_nil (t ++ 46 ∷ base))

module _ (to_lower : Text → Text) (r : SubdomainTenantResolver) where
  -- A host of the tenant: in lower case it is the tenant, a dot, the base domain, then a port or none,
  -- then one dot or none, in this order. The first label of the tenant is not reserved, and the
  -- tenant is an identifier.
  abbrev pub WrittenFor : Text → Text → Type 0
  WrittenFor hostname t =
      (port end : Text) × (to_lower hostname ≡ ((t ++ 46 ∷ r.base_domain) ++ port) ++ end)
      × IsPort port
      × AtMostOne 46 end
      × (is_reserved to_lower r t ≡ false)
      × (is_tenant_id t ≡ true)

  -- A host gives a tenant exactly if in lower case it is the tenant, a dot, the base domain, then a
  -- port or none, then one dot or none, in this order, the tenant's first label is not reserved, and
  -- the tenant is an identifier. The base domain has no colon, and does not end in a dot.
  pub resolve_sync-WrittenFor :
      (hostname t : Text)
      → has 58 r.base_domain ≡ false
      → strip_last 46 (46 ∷ r.base_domain) ≡ 46 ∷ r.base_domain
      → (resolve_sync to_lower r hostname ≡ some t) ↔ WrittenFor hostname t
  unfolding normalized
  resolve_sync-WrittenFor hostname t no_colon clean =
      let at = resolve_sync_iff to_lower r hostname t in
      (
        (λ h.
            let (shape, open_label, good) = at.0 h in
            let (end, parts, one) = strip_last_parts 46 (to_lower hostname) in
            let (port, parts2, form) = strip_port_parts (strip_last 46 (to_lower hostname)) in
            (
              port,
              end,
              parts ∙ ap (λ (s : Text). s ++ end) (parts2 ∙ ap (λ (s : Text). s ++ port) shape),
              form,
              one,
              open_label,
              good,
            )),
        (λ (port, end, whole, form, one, open_label, good). at.1 (
          rw
              (
                whole,
                strip_last-end 46 ((t ++ 46 ∷ r.base_domain) ++ port) end
                    (host_clean r.base_domain no_colon clean t port form) one,
              )
              (host_portless r.base_domain no_colon clean t port form),
          open_label,
          good,
        )),
      )
