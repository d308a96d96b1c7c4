-- ===== src/Kv/MemoryStore/Counters.antt =====
-- `increment` as a counter: no increment is lost, and the expiry is set once.
use saas_foundation.Prelude.{
  ℕ, String, ◌≡◌, refl, ap, ◌∙◌, ◌≢◌, true, false, none, some, List, [], ◌∷◌, arith, first_of_two,
  get as map_get, get-set_self, get-set_ne,
}
use saas_foundation.Prelude.Int.{ℤ, ◌+ℤ◌}
use saas_foundation.Kv.MemoryStore.{
  KvWriteOptions, Store, increment, current, base_of, expiry_of, resolve_expiry, is_field,
}

-- The sum of the increments, from a first value.
abbrev pub total : ℤ → List ℤ → ℤ
total n [] = n
total n (d ∷ ds) = total (n +ℤ d) ds

module _ {A : Type 0} (number : A → ℤ) (of_number : ℤ → A) where
  -- The number in a field of a key, 0 if it is not there.
  abbrev pub counter : Store A → String → String → ℤ
  counter s k field = current number of_number (base_of (map_get s k)) field

  -- Increments of one field of a key, each at its clock reading and with its options.
  unfoldable pub increments : String → String → List (ℕ × ℤ × KvWriteOptions) → Store A → Store A
  increments k field [] s = s
  increments k field ((now, d, o) ∷ ds) s =
      increments k field ds (increment number of_number now k field d o s).0

  abbrev pub deltas : List (ℕ × ℤ × KvWriteOptions) → List ℤ
  deltas [] = []
  deltas ((now, d, o) ∷ ds) = d ∷ deltas ds

  module _ (law : (n : ℤ) → number (of_number n) ≡ n) where
    pub increment-counter :
        (now : ℕ) (k field : String) (d : ℤ) (o : KvWriteOptions) (s : Store A)
        → is_field field ≡ true
        → counter (increment number of_number now k field d o s).0 k field ≡ counter s k field +ℤ d
    unfolding increment current
    increment-counter now k field d o s ok = grind (arith, get-set_self, law)

    -- However many callers add to a field, and whenever, the field ends at the sum of all that
    -- they added.
    pub increments-counter :
        (k field : String) (ds : List (ℕ × ℤ × KvWriteOptions)) (s : Store A)
        → is_field field ≡ true
        → counter (increments k field ds s) k field ≡ total (counter s k field) (deltas ds)
    unfolding increments
    increments-counter k field [] s ok = refl
    increments-counter k field ((now, d, o) ∷ ds) s ok =
        increments-counter k field ds (increment number of_number now k field d o s).0 ok
        ∙ ap (λ n. total n (deltas ds)) (increment-counter now k field d o s ok)

  -- An increment of a well-formed field returns the old number plus the delta, keeps the other
  -- fields, the index and an expiry that was set; a malformed field is refused with no write.
  pub increment_keeps :
      (now : ℕ) (k field : String) (d : ℤ) (o : KvWriteOptions) (s : Store A)
      → ((is_field field ≡ false) → increment number of_number now k field d o s ≡ (s, none))
        × ((is_field field ≡ true)
            → (increment number of_number now k field d o s).1 ≡ some (counter s k field +ℤ d))
        × ((is_field field ≡ true)
            → expiry_of (map_get (increment number of_number now k field d o s).0 k)
              ≡ first_of_two (expiry_of (map_get s k)) (resolve_expiry now o))
        × ((g : String)
            → field ≢ g
            → (is_field field ≡ true)
            → map_get (base_of (map_get (increment number of_number now k field d o s).0 k)) g
              ≡ map_get (base_of (map_get s k)) g)
  unfolding increment
  increment_keeps now k field d o s = (
    (λ h. grind arith),
    (λ h. grind arith),
    (λ h. grind (arith, get-set_self)),
    (λ g ne h. grind (arith, get-set_self, get-set_ne)),
  )
