-- ===== src/Audit/Size/Shed.antt =====
-- What packages/foundation/src/audit/audit-log.ts leaves of metadata that are too large.
use mathlib.Core.List.{Perm}
use saas_foundation.Prelude.{
  ℕ, ◌≤◌, ◌≡◌, refl, sym, ap, ◌∙◌, String, Bool, true, false, ◌||◌, List, [], ◌∷◌, ◌++◌, leb,
  if◌then◌else◌, any, str_eq, eq_iff, eq_refl, arith, Bool-cases, inl, inr, All, All-append, leb→le,
  le→leb, lt→leb_false, ◌<◌,
}
use saas_foundation.Audit.Pii.{Fields, end, field}
use saas_foundation.Audit.Size.Order.{
  Descending, largest_first-Perm, largest_first-Descending, entries_of-Sized,
}
use saas_foundation.Audit.Size.{
  OversizePolicy, reject, truncate, Entry, checked, too_large, insert_by_size, largest_first,
  rebuild, encoded_size, entries_of, drop_keys, enforce_metadata_size,
}

abbrev pub has_key : {A : Type 0} → String → List (Entry A) → Bool
has_key k [] = false
has_key k (e ∷ entries) = str_eq k e.key || has_key k entries

-- No key stands twice, as in an object of the language.
abbrev pub Distinct : {A : Type 0} → List (Entry A) → Type 0
Distinct [] = Unit
Distinct (e ∷ entries) = (has_key e.key entries ≡ false) × Distinct entries

abbrev pub fields_of : {A : Type 0} → List (Entry A) → Fields A
fields_of [] = end
fields_of (e ∷ entries) = field e.key e.value (fields_of entries)

str_eq_sym : (a b : String) → str_eq a b ≡ false → str_eq b a ≡ false
str_eq_sym a b h = elim (Bool-cases (str_eq b a)) [
  | inl e ↦ let same : b ≡ a = (eq_iff b a).0 e in absurd (cc (h, same, eq_refl a))
  | inr ne ↦ ne
]

or_false : (a b : Bool) → a || b ≡ false → (a ≡ false) × (b ≡ false)
or_false true b h = absurd (cc h)
or_false false b h = (refl, h)

or_swap : (a b c : Bool) → a || (b || c) ≡ b || (a || c)
or_swap true true c = refl
or_swap true false c = refl
or_swap false b c = refl

insert-has_key :
    {A : Type 0}
    → (k : String) (e : Entry A) (entries : List (Entry A))
    → has_key k (insert_by_size e entries) ≡ (str_eq k e.key || has_key k entries)
unfolding insert_by_size
insert-has_key k e [] = refl
insert-has_key k e (x ∷ entries) = elim (Bool-cases (leb x.size e.size)) [
  | inl le ↦ rw le refl
  | inr gt ↦
      rw (gt, insert-has_key k e entries)
        (or_swap (str_eq k x.key) (str_eq k e.key) (has_key k entries))
]

insert-Distinct :
    {A : Type 0}
    → (e : Entry A) (entries : List (Entry A)) → has_key e.key entries ≡ false
    → Distinct entries
    → Distinct (insert_by_size e entries)
unfolding insert_by_size
insert-Distinct e [] h d = (refl, tt)
insert-Distinct e (x ∷ entries) h d = elim (Bool-cases (leb x.size e.size)) [
  | inl le ↦ rw le (h, d)
  | inr gt ↦
      let parts = or_false (str_eq e.key x.key) (has_key e.key entries) h in
      let fresh : has_key x.key (insert_by_size e entries) ≡ false =
        insert-has_key x.key e entries ∙ rw (str_eq_sym e.key x.key parts.0, d.0) refl in
      rw gt (fresh, insert-Distinct e entries parts.1 d.1)
]

largest_first-has_key :
    {A : Type 0}
    → (k : String) (entries : List (Entry A))
    → has_key k (largest_first entries) ≡ has_key k entries
unfolding largest_first
largest_first-has_key k [] = refl
largest_first-has_key k (e ∷ entries) =
    insert-has_key k e (largest_first entries)
    ∙ ap (λ b. str_eq k e.key || b) (largest_first-has_key k entries)

largest_first-Distinct :
    {A : Type 0} → (entries : List (Entry A)) → Distinct entries → Distinct (largest_first entries)
unfolding largest_first
largest_first-Distinct [] d = tt
largest_first-Distinct (e ∷ entries) d =
    insert-Distinct e (largest_first entries) (largest_first-has_key e.key entries ∙ d.0)
      (largest_first-Distinct entries d.1)

rebuild_rest :
    {A : Type 0}
    → (dropped : List String) (entries : List (Entry A))
    → All (λ e. any (str_eq e.key) dropped ≡ false) entries
    → rebuild dropped entries ≡ fields_of entries
unfolding rebuild
rebuild_rest dropped [] h = refl
rebuild_rest dropped (e ∷ entries) h = rw (h.0, rebuild_rest dropped entries h.1) refl

rebuild_gone :
    {A : Type 0}
    → (dropped : List String) (gone rest : List (Entry A))
    → All (λ e. any (str_eq e.key) dropped ≡ true) gone
    → rebuild dropped (gone ++ rest) ≡ rebuild dropped rest
unfolding rebuild
rebuild_gone dropped [] rest h = refl
rebuild_gone dropped (e ∷ gone) rest h = rw h.0 (rebuild_gone dropped gone rest h.1)

-- The entries without the first, the largest, ones, as few as are to be dropped for the rest to fit.
abbrev pub shed : {A : Type 0} → (A → ℕ) → ℕ → List (Entry A) → List (Entry A)
shed number_size max [] = []
shed number_size max (e ∷ entries) =
    if leb (encoded_size number_size (fields_of (e ∷ entries))) max
    then e ∷ entries
    else shed number_size max entries

still_gone :
    {A : Type 0}
    → (k : String) (dropped : List String) (gone : List (Entry A))
    → All (λ e. any (str_eq e.key) dropped ≡ true) gone
    → All (λ e. any (str_eq e.key) (k ∷ dropped) ≡ true) gone
still_gone k dropped [] h = tt
still_gone k dropped (e ∷ gone) h = (ground (arith, h.0), still_gone k dropped gone h.1)

still_here :
    {A : Type 0}
    → (k : String) (dropped : List String) (left : List (Entry A)) → has_key k left ≡ false
    → All (λ e. any (str_eq e.key) dropped ≡ false) left
    → All (λ e. any (str_eq e.key) (k ∷ dropped) ≡ false) left
still_here k dropped [] new h = tt
still_here k dropped (e ∷ left) new h =
    let parts = or_false (str_eq k e.key) (has_key k left) new in
    (rw (str_eq_sym k e.key parts.0, h.0) refl, still_here k dropped left parts.1 h.1)

none_dropped :
    {A : Type 0} → (entries : List (Entry A)) → All (λ e. any (str_eq e.key) [] ≡ false) entries
none_dropped [] = tt
none_dropped (e ∷ entries) = (refl, none_dropped entries)

append_one :
    {A : Type 0} → (xs : List A) (x : A) (ys : List A) → (xs ++ x ∷ []) ++ ys ≡ xs ++ (x ∷ ys)
append_one [] x ys = refl
append_one (y ∷ xs) x ys = ap (λ t. y ∷ t) (append_one xs x ys)

module _ {A : Type 0} (number_size : A → ℕ) (max : ℕ) where
  drop_keys-shed :
      (entries gone left : List (Entry A)) (dropped : List String)
      → entries ≡ gone ++ left
      → All (λ e. any (str_eq e.key) dropped ≡ true) gone
      → All (λ e. any (str_eq e.key) dropped ≡ false) left
      → Distinct left
      → rebuild (drop_keys number_size max entries dropped left) entries
        ≡ fields_of (shed number_size max left)
  unfolding drop_keys
  drop_keys-shed entries gone [] dropped all_of out here d =
      rw all_of (rebuild_gone dropped gone [] out ∙ rebuild_rest dropped [] here)
  drop_keys-shed entries gone (e ∷ left) dropped all_of out here d =
      let now : rebuild dropped entries ≡ fields_of (e ∷ left) =
        rw all_of
          (rebuild_gone dropped gone (e ∷ left) out ∙ rebuild_rest dropped (e ∷ left) here) in
      elim (Bool-cases (leb (encoded_size number_size (fields_of (e ∷ left))) max)) [
        | inl fits ↦ rw (now, fits) now
        | inr over ↦
            rw (now, over)
              (drop_keys-shed entries (gone ++ e ∷ []) left (e.key ∷ dropped)
                (all_of ∙ sym (append_one gone e left))
                (All-append _ gone (e ∷ []) (still_gone e.key dropped gone out)
                  (rw (eq_refl e.key) refl, tt))
                (still_here e.key dropped left d.0 here.1) d.1)
      ]

  shed_fits :
      (entries : List (Entry A))
      → 2 ≤ max
      → encoded_size number_size (fields_of (shed number_size max entries)) ≤ max
  unfolding encoded_size
  shed_fits [] small = small
  shed_fits (e ∷ entries) small =
      elim (Bool-cases (leb (encoded_size number_size (fields_of (e ∷ entries))) max)) [
        | inl fits ↦ rw fits (leb→le _ _ fits)
        | inr over ↦ rw over (shed_fits entries small)
      ]

  -- Metadata that fit are kept as they are, under each policy. When they do not fit, the policy
  -- `reject` throws with their size. The policy `truncate` takes the entries in an order that begins
  -- with the largest, and leaves all but as few from its beginning as have to go for the rest to fit;
  -- what is left fits if two bytes do. No key stands twice in the metadata, and the flag that marks
  -- the truncation, which the log adds later, is not counted.
  pub enforce_metadata_size-shed :
      (policy : OversizePolicy) (metadata : Fields A)
      → Distinct (entries_of number_size metadata)
      → (encoded_size number_size metadata ≤ max
          → enforce_metadata_size number_size policy max metadata ≡ checked metadata false)
        × (max < encoded_size number_size metadata
            → enforce_metadata_size number_size reject max metadata
              ≡ too_large (encoded_size number_size metadata))
        × (max < encoded_size number_size metadata
            → (ordered : List (Entry A)) × Perm ordered (entries_of number_size metadata)
              × Descending number_size ordered
              × (enforce_metadata_size number_size truncate max metadata
                  ≡ checked (fields_of (shed number_size max ordered)) true)
              × (2 ≤ max
                  → encoded_size number_size (fields_of (shed number_size max ordered)) ≤ max))
  unfolding enforce_metadata_size
  enforce_metadata_size-shed policy metadata d =
      let entries = largest_first (entries_of number_size metadata) in
      (
        λ fits. rw (le→leb _ _ fits) refl,
        λ over. rw (lt→leb_false _ _ over) refl,
        λ over. (
          entries,
          largest_first-Perm (entries_of number_size metadata),
          largest_first-Descending number_size (entries_of number_size metadata)
              (entries_of-Sized number_size metadata),
          rw (lt→leb_false _ _ over) (
              ap (λ m. checked m true)
                (drop_keys-shed entries [] entries [] refl tt (none_dropped entries)
                  (largest_first-Distinct (entries_of number_size metadata) d))),
          shed_fits entries,
        ),
      )
