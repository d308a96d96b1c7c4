-- ===== src/Audit/Size/Kept.antt =====
-- The entries that packages/foundation/src/audit/audit-log.ts keeps are the filter's.
use saas_foundation.Prelude.{
  ℕ, ◌≡◌, String, Bool, true, false, List, [], ◌∷◌, leb, any, str_eq, All, Bool-cases, inl, inr,
}
use saas_foundation.Audit.Pii.{
  Fields, end, field, PiiFilter, redact, text, redacted_sentinel, is_denied,
}
use saas_foundation.Audit.Pii.Clean.{Clean, CleanValue}
use saas_foundation.Audit.Size.{
  OversizePolicy, reject, truncate, Entry, SizeCheck, checked, too_large, insert_by_size,
  largest_first, rebuild, encoded_size, entries_of, drop_keys, enforce_metadata_size,
}

module _ {A : Type 0} (to_lower : String → String) (f : PiiFilter) where
  -- An entry that the filter leaves.
  abbrev pub CleanEntry : Entry A → Type 0
  CleanEntry e =
      (is_denied to_lower f e.key ≡ true
        → (f.strategy ≡ redact) × (e.value ≡ text redacted_sentinel))
      × CleanValue to_lower f e.value

  insert-Clean :
      (e : Entry A) (entries : List (Entry A))
      → CleanEntry e
      → All CleanEntry entries
      → All CleanEntry (insert_by_size e entries)
  unfolding insert_by_size
  insert-Clean e [] h hs = (h, tt)
  insert-Clean e (x ∷ entries) h hs = elim (Bool-cases (leb x.size e.size)) [
    | inl le ↦ rw le (h, hs)
    | inr gt ↦ rw gt (hs.0, insert-Clean e entries h hs.1)
  ]

  largest_first-Clean :
      (entries : List (Entry A)) → All CleanEntry entries → All CleanEntry (largest_first entries)
  unfolding largest_first
  largest_first-Clean [] h = tt
  largest_first-Clean (e ∷ entries) h =
      insert-Clean e (largest_first entries) h.0 (largest_first-Clean entries h.1)

  entries_of-Clean :
      (number_size : A → ℕ) (fields : Fields A)
      → Clean to_lower f fields
      → All CleanEntry (entries_of number_size fields)
  unfolding entries_of
  entries_of-Clean number_size end h = tt
  entries_of-Clean number_size (field k v fields) h =
      ((h.0, h.1), entries_of-Clean number_size fields h.2)

  rebuild-Clean :
      (dropped : List String) (entries : List (Entry A))
      → All CleanEntry entries
      → Clean to_lower f (rebuild dropped entries)
  unfolding rebuild
  rebuild-Clean dropped [] h = tt
  rebuild-Clean dropped (e ∷ entries) h = elim (Bool-cases (any (str_eq e.key) dropped)) [
    | inl gone ↦ rw gone (rebuild-Clean dropped entries h.1)
    | inr kept ↦ rw kept (h.0.0, h.0.1, rebuild-Clean dropped entries h.1)
  ]

  pub enforce_metadata_size-Clean :
      (number_size : A → ℕ) (policy : OversizePolicy) (max : ℕ) (metadata kept : Fields A)
      (dropped : Bool)
      → Clean to_lower f metadata
      → enforce_metadata_size number_size policy max metadata ≡ checked kept dropped
      → Clean to_lower f kept
  unfolding enforce_metadata_size
  enforce_metadata_size-Clean number_size policy max metadata kept dropped h e =
      elim (Bool-cases (leb (encoded_size number_size metadata) max)) [
        | inl fits ↦
            let same : checked metadata false ≡ checked kept dropped = rw fits at e in
            let kept_all : metadata ≡ kept = cc same in rw (← kept_all) h
        | inr over ↦ after policy (rw over at e)
      ]
    where
      entries : List (Entry A)
      entries = largest_first (entries_of number_size metadata)

      after :
          (p : OversizePolicy)
          → (elim p as (λ _. SizeCheck A) [
            | reject ↦ too_large (encoded_size number_size metadata)
            | truncate ↦
                checked (rebuild (drop_keys number_size max entries [] entries) entries) true
          ])
            ≡ checked kept dropped
          → Clean to_lower f kept
      after reject e = absurd (cc e)
      after truncate e =
          let some_kept : rebuild (drop_keys number_size max entries [] entries) entries ≡ kept =
            cc e in
          rw (← some_kept) (
            rebuild-Clean (drop_keys number_size max entries [] entries) entries (
              largest_first-Clean (entries_of number_size metadata)
                (entries_of-Clean number_size metadata h)))
