-- ===== src/Audit/Pii/Clean.antt =====
-- What the filter of packages/foundation/src/audit/pii-filter.ts leaves in the metadata.
use saas_foundation.Prelude.{String, ◌≡◌, refl, ap, inl, inr, true, false, Bool-cases}
use saas_foundation.Audit.Pii.{
  Json, null, number, text, array, object, Items, nil, item, Fields, end, field, PiiFilter,
  PiiFilterStrategy, redact, drop, redacted_sentinel, is_denied, put_denied, scrub_value,
  scrub_items, scrub_object, scrub,
}

module _ {A : Type 0} (to_lower : String → String) (f : PiiFilter) where
  -- Nothing is left under a key that is denied, at any depth, but the sentinel, and with the
  -- strategy `drop` not even the key.
  abbrev mutual
    pub CleanValue : Json A → Type 0
    CleanValue null = Unit
    CleanValue (number n) = Unit
    CleanValue (text s) = Unit
    CleanValue (array items) = CleanItems items
    CleanValue (object fields) = Clean fields

    pub CleanItems : Items A → Type 0
    CleanItems nil = Unit
    CleanItems (item v items) = CleanValue v × CleanItems items

    pub Clean : Fields A → Type 0
    Clean end = Unit
    Clean (field key v fields) =
        (is_denied to_lower f key ≡ true → (f.strategy ≡ redact) × (v ≡ text redacted_sentinel))
        × CleanValue v
        × Clean fields

  denied-Clean :
      (key : String) (s : PiiFilterStrategy) (rest : Fields A)
      → f.strategy ≡ s
      → Clean rest
      → Clean (put_denied s key rest)
  unfolding put_denied
  denied-Clean key redact rest e clean = ((λ _. (e, refl)), tt, clean)
  denied-Clean key drop rest e clean = clean

  mutual
    unfolding scrub_value

    scrub_value-Clean : (v : Json A) → CleanValue (scrub_value to_lower f v)
    scrub_value-Clean null = tt
    scrub_value-Clean (number n) = tt
    scrub_value-Clean (text s) = tt
    scrub_value-Clean (array items) = scrub_items-Clean items
    scrub_value-Clean (object fields) = scrub_object-Clean fields

    scrub_items-Clean : (items : Items A) → CleanItems (scrub_items to_lower f items)
    scrub_items-Clean nil = tt
    scrub_items-Clean (item v items) = (scrub_value-Clean v, scrub_items-Clean items)

    scrub_object-Clean : (fields : Fields A) → Clean (scrub_object to_lower f fields)
    scrub_object-Clean end = tt
    scrub_object-Clean (field key v fields) = elim (Bool-cases (is_denied to_lower f key)) [
      | inl denied ↦ rw denied (denied-Clean key f.strategy _ refl (scrub_object-Clean fields))
      | inr allowed ↦
          rw allowed
            ((λ h. absurd (cc (h, allowed))), scrub_value-Clean v, scrub_object-Clean fields)
    ]

  -- No key is denied, at any depth.
  abbrev mutual
    pub AllowedValue : Json A → Type 0
    AllowedValue null = Unit
    AllowedValue (number n) = Unit
    AllowedValue (text s) = Unit
    AllowedValue (array items) = AllowedItems items
    AllowedValue (object fields) = Allowed fields

    pub AllowedItems : Items A → Type 0
    AllowedItems nil = Unit
    AllowedItems (item v items) = AllowedValue v × AllowedItems items

    pub Allowed : Fields A → Type 0
    Allowed end = Unit
    Allowed (field key v fields) =
        (is_denied to_lower f key ≡ false) × AllowedValue v × Allowed fields

  mutual
    unfolding scrub_value

    scrub_value_kept : (v : Json A) → AllowedValue v → scrub_value to_lower f v ≡ v
    scrub_value_kept null h = refl
    scrub_value_kept (number n) h = refl
    scrub_value_kept (text s) h = refl
    scrub_value_kept (array items) h = ap array (scrub_items_kept items h)
    scrub_value_kept (object fields) h = ap object (scrub_object_kept fields h)

    scrub_items_kept : (items : Items A) → AllowedItems items → scrub_items to_lower f items ≡ items
    scrub_items_kept nil h = refl
    scrub_items_kept (item v items) h = rw (scrub_value_kept v h.0, scrub_items_kept items h.1)

    scrub_object_kept :
        (fields : Fields A) → Allowed fields → scrub_object to_lower f fields ≡ fields
    scrub_object_kept end h = refl
    scrub_object_kept (field key v fields) h =
        rw (h.0, scrub_value_kept v h.1, scrub_object_kept fields h.2)

  -- Whatever the metadata, the filter leaves nothing under a denied key, at any depth, but the
  -- sentinel, and with the strategy `drop` not the key either; metadata without a denied key is left
  -- as it is.
  pub scrub-Clean :
      (metadata : Fields A)
      → Clean (scrub to_lower f metadata)
        × (Allowed metadata → scrub to_lower f metadata ≡ metadata)
  unfolding scrub
  scrub-Clean metadata = (scrub_object-Clean metadata, scrub_object_kept metadata)
