-- ===== src/Audit/Size/Order.antt =====
-- The order in which packages/foundation/src/audit/audit-log.ts drops the entries of metadata.
use mathlib.Core.List.{Perm}
use mathlib.Core.List.Perm
use saas_foundation.Prelude.{
  ℕ, ◌≤◌, ◌≡◌, refl, List, [], ◌∷◌, leb, arith, Bool-cases, inl, inr, All, leb→le,
}
use saas_foundation.Audit.Pii.{Fields, end, field}
use saas_foundation.Audit.Size.{Entry, insert_by_size, largest_first, encoded_size, entries_of}

insert-Perm :
    {A : Type 0}
    → (e : Entry A) (entries : List (Entry A)) → Perm (insert_by_size e entries) (e ∷ entries)
unfolding insert_by_size
insert-Perm e [] = Perm.refl (e ∷ [])
insert-Perm e (x ∷ entries) = elim (Bool-cases (leb x.size e.size)) [
  | inl le ↦ rw le (Perm.refl (e ∷ x ∷ entries))
  | inr gt ↦ rw gt (Perm.trans (Perm.cons x (insert-Perm e entries)) (Perm.swap e x entries))
]

pub largest_first-Perm :
    {A : Type 0} → (entries : List (Entry A)) → Perm (largest_first entries) entries
unfolding largest_first
largest_first-Perm [] = Perm.refl []
largest_first-Perm (e ∷ entries) =
    Perm.trans (insert-Perm e (largest_first entries)) (Perm.cons e (largest_first-Perm entries))

module _ {A : Type 0} (number_size : A → ℕ) where
  -- The size of an object that has the entry and nothing else.
  abbrev pub alone : Entry A → ℕ
  alone e = encoded_size number_size (field e.key e.value end)

  -- No entry is larger than one before it.
  abbrev pub Descending : List (Entry A) → Type 0
  Descending [] = Unit
  Descending (e ∷ entries) = All (λ x. alone x ≤ alone e) entries × Descending entries

  -- The entries have the sizes that they note.
  abbrev pub Sized : List (Entry A) → Type 0
  Sized entries = All (λ e. e.size ≡ alone e) entries

  insert-Sized :
      (e : Entry A) (entries : List (Entry A))
      → e.size ≡ alone e
      → Sized entries
      → Sized (insert_by_size e entries)
  unfolding insert_by_size
  insert-Sized e [] h hs = (h, tt)
  insert-Sized e (x ∷ entries) h hs = elim (Bool-cases (leb x.size e.size)) [
    | inl le ↦ rw le (h, hs)
    | inr gt ↦ rw gt (hs.0, insert-Sized e entries h hs.1)
  ]

  largest_first-Sized : (entries : List (Entry A)) → Sized entries → Sized (largest_first entries)
  unfolding largest_first
  largest_first-Sized [] h = tt
  largest_first-Sized (e ∷ entries) h =
      insert-Sized e (largest_first entries) h.0 (largest_first-Sized entries h.1)

  insert_below :
      (bound : ℕ) (e : Entry A) (entries : List (Entry A))
      → alone e ≤ bound
      → All (λ x. alone x ≤ bound) entries
      → All (λ x. alone x ≤ bound) (insert_by_size e entries)
  unfolding insert_by_size
  insert_below bound e [] h hs = (h, tt)
  insert_below bound e (x ∷ entries) h hs = elim (Bool-cases (leb x.size e.size)) [
    | inl le ↦ rw le (h, hs)
    | inr gt ↦ rw gt (hs.0, insert_below bound e entries h hs.1)
  ]

  below_more :
      (a b : ℕ) (entries : List (Entry A))
      → a ≤ b
      → All (λ x. alone x ≤ a) entries
      → All (λ x. alone x ≤ b) entries
  below_more a b [] h hs = tt
  below_more a b (x ∷ entries) h hs = (omega (arith, hs.0), below_more a b entries h hs.1)

  insert-Descending :
      (e : Entry A) (entries : List (Entry A))
      → e.size ≡ alone e
      → Sized entries
      → Descending entries
      → Descending (insert_by_size e entries)
  unfolding insert_by_size
  insert-Descending e [] h hs d = (tt, tt)
  insert-Descending e (x ∷ entries) h hs d = elim (Bool-cases (leb x.size e.size)) [
    | inl le ↦
        let smaller : alone x ≤ alone e = omega (arith, h, hs.0, leb→le x.size e.size le) in
        rw le ((smaller, below_more (alone x) (alone e) entries smaller d.0), d)
    | inr gt ↦
        let larger : alone e ≤ alone x = ground (arith, h, hs.0, gt) in
        rw gt (insert_below (alone x) e entries larger d.0, insert-Descending e entries h hs.1 d.1)
  ]

  pub largest_first-Descending :
      (entries : List (Entry A)) → Sized entries → Descending (largest_first entries)
  unfolding largest_first
  largest_first-Descending [] h = tt
  largest_first-Descending (e ∷ entries) h =
      insert-Descending e (largest_first entries) h.0 (largest_first-Sized entries h.1)
        (largest_first-Descending entries h.1)

  pub entries_of-Sized : (fields : Fields A) → Sized (entries_of number_size fields)
  unfolding entries_of
  entries_of-Sized end = tt
  entries_of-Sized (field k v fields) = (refl, entries_of-Sized fields)
