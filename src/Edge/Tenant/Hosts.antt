-- ===== src/Edge/Tenant/Hosts.antt =====
-- The hosts that packages/vestibulum/src/lambda/shared-distribution gives a tenant to, as they are written.
use saas_foundation.Prelude.{
  ◌≡◌, ◌↔◌, ◌⊎◌, refl, sym, ap, ◌∙◌, ◌||◌, Bool, true, false, some, [], ◌∷◌, ◌++◌, inl, inr,
}
use saas_foundation.Text.{
  Text, strip_last, first_part, has, has-append, append_assoc, first_part-append,
  first_part-without,
}
use saas_foundation.Text.Ends.{
  AtMostOne, From, append_nil, strip_last_parts, strip_last-append, strip_last-end,
  first_part_parts,
}
use saas_foundation.Edge.Tenant.{
  is_tenant_label, normalize_host, extract_tenant_subdomain, extract_tenant_subdomain_iff,
}

-- No dot, one or two.
abbrev pub AtMostTwoDots : Text → Type 0
AtMostTwoDots end = (end ≡ []) ⊎ (end ≡ 46 ∷ []) ⊎ (end ≡ 46 ∷ 46 ∷ [])

two_dots : (a b : Text) → AtMostOne 46 a → AtMostOne 46 b → AtMostTwoDots (a ++ b)
two_dots a b (inl ea) (inl eb) = inl (rw (ea, eb) refl)
two_dots a b (inl ea) (inr eb) = inr (inl (rw (ea, eb) refl))
two_dots a b (inr ea) (inl eb) = inr (inl (rw (ea, eb) refl))
two_dots a b (inr ea) (inr eb) = inr (inr (rw (ea, eb) refl))

dots_between : strip_last 46 (46 ∷ 46 ∷ []) ≡ 46 ∷ []
unfolding strip_last
dots_between = refl

strip_twice :
    (t end : Text)
    → strip_last 46 t ≡ t
    → AtMostTwoDots end
    → strip_last 46 (strip_last 46 (t ++ end)) ≡ t
strip_twice t end clean (inl e) = rw (e, append_nil t, clean) clean
strip_twice t end clean (inr (inl e)) = rw (strip_last-end 46 t end clean (inr e)) clean
strip_twice t end clean (inr (inr e)) =
    rw (e, strip_last-append 46 t 46 (46 ∷ []), dots_between)
      (strip_last-end 46 t (46 ∷ []) clean (inr refl))

clean_behind_dot : (base : Text) → strip_last 46 (46 ∷ base) ≡ 46 ∷ base → strip_last 46 base ≡ base
unfolding strip_last
clean_behind_dot [] h = refl
clean_behind_dot (x ∷ base) h = cc h

or_left_false : (a b : Bool) → a || b ≡ false → a ≡ false
or_left_false true b h = h
or_left_false false b h = refl

-- `to_lower` is the language's `toLowerCase`: it makes no colon, and leaves a text in lower case without
-- a dot at its end as it is.
module _ (to_lower : Text → Text) (lower_empty : to_lower [] ≡ [])
    (lower_colon : (s : Text) → has 58 s ≡ false → has 58 (to_lower s) ≡ false)
    (lower_again : (s : Text)
      → to_lower (strip_last 46 (to_lower s)) ≡ strip_last 46 (to_lower s)) where
  -- A host of the tenant: in lower case its name is the label, a dot, the parent's domain, and two
  -- dots at most, and behind its name is nothing, or a colon and whatever else.
  abbrev pub HostOf : Text → Text → Text → Type 0
  HostOf base label host =
      (name rest end : Text) × (host ≡ name ++ rest)
      × (has 58 name ≡ false)
      × From 58 rest
      × (to_lower name ≡ (label ++ 46 ∷ base) ++ end)
      × AtMostTwoDots end
      × (is_tenant_label label ≡ true)

  normalize_twice :
      (host : Text)
      → normalize_host to_lower (normalize_host to_lower host)
        ≡ strip_last 46 (strip_last 46 (to_lower (first_part 58 host)))
  unfolding normalize_host
  normalize_twice host =
      let (rest, whole, free, form) = first_part_parts 58 host in
      let lowered = to_lower (first_part 58 host) in
      let (end, parts, one) = strip_last_parts 46 lowered in
      let split : has 58 (strip_last 46 lowered) || has 58 end ≡ false =
        sym (has-append 58 (strip_last 46 lowered) end)
        ∙ ap (has 58) (sym parts)
        ∙ lower_colon (first_part 58 host) free in
      let no_colon = or_left_false (has 58 (strip_last 46 lowered)) (has 58 end) split in
      rw (first_part-without 58 (strip_last 46 lowered) no_colon, lower_again (first_part 58 host))
        refl

  first_part_name :
      (name rest : Text) → has 58 name ≡ false → From 58 rest → first_part 58 (name ++ rest) ≡ name
  first_part_name name rest free (inl e) = rw (e, append_nil name) (first_part-without 58 name free)
  first_part_name name rest free (inr (more, e)) = rw e (first_part-append 58 name more free)

  normal_parts :
      (host label base : Text)
      → normalize_host to_lower (normalize_host to_lower host) ≡ label ++ 46 ∷ base
      → is_tenant_label label ≡ true
      → HostOf base label host
  normal_parts host label base shape good =
      let (rest, whole, free, form) = first_part_parts 58 host in
      let lowered = to_lower (first_part 58 host) in
      let (end, parts, one) = strip_last_parts 46 lowered in
      let (end2, parts2, one2) = strip_last_parts 46 (strip_last 46 lowered) in
      let core : strip_last 46 (strip_last 46 lowered) ≡ label ++ 46 ∷ base =
        sym (normalize_twice host) ∙ shape in
      (
        first_part 58 host,
        rest,
        end2 ++ end,
        whole,
        free,
        form,
        parts
            ∙ ap (λ (t : Text). t ++ end) (parts2 ∙ ap (λ (t : Text). t ++ end2) core)
            ∙ append_assoc (label ++ 46 ∷ base) end2 end,
        two_dots end2 end one2 one,
        good,
      )

  normal_whole :
      (host label base : Text)
      → strip_last 46 (46 ∷ base) ≡ 46 ∷ base
      → HostOf base label host
      → normalize_host to_lower (normalize_host to_lower host) ≡ label ++ 46 ∷ base
  normal_whole host label base clean (name, rest, end, whole, free, form, lowered, dots, good) =
      let cleaned : strip_last 46 (label ++ 46 ∷ base) ≡ label ++ 46 ∷ base =
        strip_last-append 46 label 46 base ∙ ap (λ (t : Text). label ++ t) clean in
      normalize_twice host
      ∙ rw (whole, first_part_name name rest free form, lowered)
          (strip_twice (label ++ 46 ∷ base) end cleaned dots)

  -- A host belongs to a tenant exactly if, up to its first colon and in lower case, it is the tenant's
  -- label, a dot, the parent's domain, and two dots at its end at most, and the label is in the
  -- pattern: a letter, 1 to 61 letters, digits or dashes, a letter or a digit. The parent's domain has
  -- a name that does not end in a dot, and may be written with one dot behind it. The lower case of a
  -- text has a colon only if the text has one, that of nothing is nothing, and a text in lower case
  -- stays as it is when it has lost a dot at its end and is brought into lower case again.
  pub extract_tenant_subdomain-HostOf :
      (host base dot label : Text)
      → strip_last 46 (46 ∷ base) ≡ 46 ∷ base
      → AtMostOne 46 dot
      → (extract_tenant_subdomain to_lower (some host) (base ++ dot) is_tenant_label ≡ some label)
        ↔ HostOf base label host
  extract_tenant_subdomain-HostOf host base dot label clean one =
      let parent : strip_last 46 (base ++ dot) ≡ base =
        strip_last-end 46 base dot (clean_behind_dot base clean) one in
      let at = extract_tenant_subdomain_iff to_lower host (base ++ dot) label lower_empty in
      (
        (λ h.
            let (shape, good) = at.0 h in
            normal_parts host label base (shape ∙ ap (λ (t : Text). label ++ 46 ∷ t) parent) good),
        (λ h. at.1 (
          normal_whole host label base clean h ∙ ap (λ (t : Text). label ++ 46 ∷ t) (sym parent),
          h.8,
        )),
      )
