-- ===== src/Edge/Tenant.antt =====
-- packages/vestibulum/src/lambda/shared-distribution: the tenant that a host belongs to.
-- `extractTenantSubdomain` of shared/extract-tenant-subdomain.ts, and `normalizeHost` and the wrapper
-- of edge/check-auth.ts around it.
pub mod Hosts
use saas_foundation.Prelude.{
  ℕ, ◌≡◌, refl, sym, ap, ◌∙◌, ◌≢◌, ◌↔◌, inl, inr, Bool, true, false, not, ◌&&◌, ◌||◌, Option, none,
  some, [], ◌∷◌, ◌++◌, arith, leb, ◌==◌, if◌then◌else◌, Option-cases, length, length-append, all,
  is_lower, is_digit,
}
use saas_foundation.Text.{
  Text, first_part, strip_last, before_suffix, has, before_suffix_sound, before_suffix-append,
}

-- [a-z0-9] and [a-z0-9-]
unfoldable pub is_label_end : ℕ → Bool
unfolding is_lower is_digit
is_label_end c = is_lower c || is_digit c

unfoldable pub is_label_char : ℕ → Bool
unfolding is_label_end
is_label_char c = is_label_end c || c == 45

unfoldable pub ends_well : Text → Bool
unfolding is_label_end
ends_well [] = false
ends_well (x ∷ []) = is_label_end x
ends_well (x ∷ y ∷ s) = ends_well (y ∷ s)

-- /^[a-z][a-z0-9-]{1,61}[a-z0-9]$/
unfoldable pub is_tenant_label : Text → Bool
unfolding is_lower is_label_char ends_well
is_tenant_label [] = false
is_tenant_label (x ∷ s) =
    is_lower x && all is_label_char s && leb 2 (length s) && leb (length s) 62 && ends_well s

label_chars-has : (s : Text) → all is_label_char s ≡ true → has 46 s ≡ false
unfolding has is_label_char is_label_end is_lower is_digit
label_chars-has [] h = refl
label_chars-has (x ∷ s) h = ground (arith, label_chars-has s)

tenant_label-has : (s : Text) → is_tenant_label s ≡ true → has 46 s ≡ false
unfolding is_tenant_label has is_lower
tenant_label-has [] h = refl
tenant_label-has (x ∷ s) h = ground (arith, label_chars-has s)

unfoldable pub is_empty : Text → Bool
is_empty [] = true
is_empty (x ∷ s) = false

non_empty : (t : Text) → is_tenant_label t ≡ true → is_empty t ≡ false
unfolding is_tenant_label is_empty
non_empty [] h = cc
non_empty (x ∷ t) h = refl

-- `to_lower` is the language's `toLowerCase`.
module _ (to_lower : Text → Text) where
  -- Without the port, in lower case, without one dot at the end. Both files do these steps.
  unfoldable pub normalize_host : Text → Text
  normalize_host host = strip_last 46 (to_lower (first_part 58 host))

  -- The checks on what is before the parent's domain.
  unfoldable pub check_label : Text → Option Text
  unfolding is_empty
  check_label candidate =
      if is_empty candidate
      then none
      else if has 46 candidate
      then none
      else if not (is_tenant_label candidate)
      then none
      else some candidate

  -- The shared function, at its default pattern.
  unfoldable pub extract_shared : Text → Text → Option Text
  unfolding is_empty normalize_host check_label
  extract_shared host parent =
      if is_empty host
      then none
      else elim (before_suffix (46 ∷ strip_last 46 parent) (normalize_host host)) [
        | none ↦ none
        | some candidate ↦ check_label candidate
      ]

  -- The gate's function, which applies its own pattern once more.
  unfoldable pub extract_tenant_subdomain : Option Text → Text → (Text → Bool) → Option Text
  unfolding normalize_host
  extract_tenant_subdomain none parent pattern = none
  extract_tenant_subdomain (some host) parent pattern =
      elim (extract_shared (normalize_host host) parent) [
        | none ↦ none
        | some label ↦ if not (pattern label) then none else some label
      ]

  check_label_iff :
      (s label : Text)
      → (check_label s ≡ some label) ↔ ((s ≡ label) × (is_tenant_label label ≡ true))
  unfolding check_label
  check_label_iff s label = (
    (λ h. (ground arith, ground arith)),
    λ (same, good). ground (
      arith,
      tenant_label-has label good,
      non_empty label good,
      ap is_tenant_label same,
      ap is_empty same,
      ap (has 46) same,
    ),
  )

  extract_shared_sound :
      (host parent label : Text)
      → extract_shared host parent ≡ some label
      → (normalize_host host ≡ label ++ 46 ∷ strip_last 46 parent) × (is_tenant_label label ≡ true)
  unfolding extract_shared
  extract_shared_sound host parent label h =
      elim (Option-cases (before_suffix (46 ∷ strip_last 46 parent) (normalize_host host))) [
        | inl missing ↦ absurd (ground arith)
        | inr (s, found) ↦
            let accepted : check_label s ≡ some label = ground arith in
            let (same, good) = (check_label_iff s label).0 accepted in
            let shape =
              before_suffix_sound (46 ∷ strip_last 46 parent) (normalize_host host) s found in
            (sym shape ∙ ap (λ (t : Text). t ++ 46 ∷ strip_last 46 parent) same, good)
      ]

  empty_host : (label suffix : Text) → to_lower [] ≡ [] → normalize_host [] ≢ label ++ 46 ∷ suffix
  unfolding normalize_host first_part strip_last
  empty_host label suffix empty h =
      let e = ap (λ (t : Text). length t) (sym (ap (strip_last 46) empty) ∙ h) in
      omega (arith, e, length-append label (46 ∷ suffix))

  extract_shared_complete :
      (host parent label : Text)
      → to_lower [] ≡ []
      → normalize_host host ≡ label ++ 46 ∷ strip_last 46 parent
      → is_tenant_label label ≡ true
      → extract_shared host parent ≡ some label
  extract_shared_complete [] parent label empty shape good =
      absurd (empty_host label (strip_last 46 parent) empty shape)
  extract_shared_complete (x ∷ host) parent label empty shape good =
      unfold extract_shared is_empty in
      rw (shape, before_suffix-append (46 ∷ strip_last 46 parent) label)
        ((check_label_iff label label).1 (refl, good))

  extract_shared_iff :
      (host parent label : Text)
      → to_lower [] ≡ []
      → (extract_shared host parent ≡ some label) ↔ (
          (normalize_host host ≡ label ++ 46 ∷ strip_last 46 parent)
          × (is_tenant_label label ≡ true))
  extract_shared_iff host parent label empty = (
    extract_shared_sound host parent label,
    λ (shape, good). extract_shared_complete host parent label empty shape good,
  )

  -- The tenant of a host that has been brought into the normal form twice.
  pub extract_tenant_subdomain_iff :
      (host parent label : Text)
      → to_lower [] ≡ []
      → (extract_tenant_subdomain (some host) parent is_tenant_label ≡ some label) ↔ (
          (normalize_host (normalize_host host) ≡ label ++ 46 ∷ strip_last 46 parent)
          × (is_tenant_label label ≡ true))
  unfolding extract_tenant_subdomain
  extract_tenant_subdomain_iff host parent label empty =
      grind (arith, extract_shared_iff (normalize_host host) parent label empty)
