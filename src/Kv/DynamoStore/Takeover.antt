-- ===== src/Kv/DynamoStore/Takeover.antt =====
-- The takeover of an expired row by packages/foundation/src/kv/dynamo-kv-store.ts.
use saas_foundation.Prelude.{
  ℕ, ◌+◌, ◌≡◌, refl, ◌∙◌, ◌⊎◌, String, Bool, true, false, Option, none, some, arith, Bool-cases,
  Option-cases, inl, inr,
}
use saas_foundation.Table.{Table}
use saas_foundation.Kv.MemoryStore.{Value, KvWriteOptions, KvCasResult, resolve_expiry}
use saas_foundation.Kv.DynamoRows.{
  DynamoKvLayout, Item, has_version, absent, build_item, number_of, is_expired_item,
}
use saas_foundation.Kv.DynamoStore.{decided, Others, write_or_read, take_over, attempt}

module _ {A : Type 0} (T : Table (Item A)) where
  write_applied :
      (now : ℕ) (key : String) (c : Option (Item A) → Bool) (item : Item A)
      (later : T.State → T.State) (s : T.State)
      → c (T.item s key) ≡ true
      → (write_or_read T now key c item later s).1.applied ≡ true
        × (T.item (write_or_read T now key c item later s).0 key ≡ some item)
  unfolding write_or_read
  write_applied now key c item later s h =
      let won : (T.write key c (λ _. some item) s).1 ≡ true =
        T.write_result key c (λ _. some item) s ∙ h in
      let left : T.item (T.write key c (λ _. some item) s).0 key ≡ some item =
        T.write_item key c (λ _. some item) s ∙ rw h refl in
      rw (won, write_or_read) (refl, left)

  write_refused :
      (now : ℕ) (key : String) (c : Option (Item A) → Bool) (item : Item A)
      (later : T.State → T.State) (s : T.State)
      → c (T.item s key) ≡ false
      → (write_or_read T now key c item later s).1.applied ≡ false
  unfolding write_or_read
  write_refused now key c item later s h =
      let lost : (T.write key c (λ _. some item) s).1 ≡ false =
        T.write_result key c (λ _. some item) s ∙ h in
      rw (lost, write_or_read) refl

  -- The takeover looks at the version alone: a row that others have stored in the meantime, live or
  -- not, is overwritten if it has the version number of the expired row that was read.
  pub take_over_overwrites :
      (l : DynamoKvLayout) (now : ℕ) (key : String) (value : Value A) (opts : KvWriteOptions)
      (others : Others T.State) (current item row : Item A) (s : T.State)
      → is_expired_item now current ≡ true
      → build_item l key value
          (number_of current.version_number + 1)
          (resolve_expiry now opts)
          opts.indexed_key
        ≡ some item
      → T.item (others.between s) key ≡ some row
      → row.version_number ≡ some (number_of current.version_number)
      → (after : T.State) × (r : KvCasResult A) × (take_over T l now key value opts others current s
          ≡ some (after, decided r))
        × (r.applied ≡ true)
        × (T.item after key ≡ some item)
  unfolding take_over
  take_over_overwrites l now key value opts others current item row s expired made there same =
      let v = number_of current.version_number in
      let holds : has_version v (T.item (others.between s) key) ≡ true =
        rw (there, same) (ground arith) in
      let done = write_applied now key (has_version v) item others.later (others.between s) holds in
      let result = write_or_read T now key (has_version v) item others.later (others.between s) in
      (result.0, result.1, rw (expired, made, take_over) refl, done.0, done.1)

  take_over_applied :
      (l : DynamoKvLayout) (now : ℕ) (key : String) (value : Value A) (opts : KvWriteOptions)
      (others : Others T.State) (current : Item A) (s after : T.State) (r : KvCasResult A)
      → take_over T l now key value opts others current s ≡ some (after, decided r)
      → r.applied ≡ true
      → (is_expired_item now current ≡ true)
        × (has_version (number_of current.version_number) (T.item (others.between s) key) ≡ true)
  unfolding take_over
  take_over_applied l now key value opts others current s after r h applied =
      let v = number_of current.version_number in
      let made = build_item l key value (v + 1) (resolve_expiry now opts) opts.indexed_key in
      elim (Bool-cases (is_expired_item now current)) [
        | inr live ↦ absurd (cc (rw (live, take_over) at h, applied))
        | inl expired ↦ elim (Option-cases made) [
          | inl bad ↦ absurd (cc (rw (expired, bad, take_over) at h))
          | inr (item, good) ↦ elim (Bool-cases (has_version v (T.item (others.between s) key))) [
            | inl holds ↦ (expired, holds)
            | inr fails ↦
                let lost =
                  write_refused now key (has_version v) item others.later (others.between s)
                    fails in
                absurd (cc (rw (expired, good, take_over) at h, applied, lost))
          ]
        ]
      ]

  -- A row that others change between the read and the write gets another version number.
  abbrev pub Renumbers : (T.State → T.State) → String → Type 0
  Renumbers between key =
      (s : T.State) (row : Item A)
      → T.item s key ≡ some row
      → (T.item (between s) key ≡ some row)
        ⊎ (has_version (number_of row.version_number) (T.item (between s) key) ≡ false)

  -- The table as the consistent read of a try finds it: after the refused create of an item, and what
  -- others do then.
  abbrev pub at_read : String → Item A → Others T.State → T.State → T.State
  at_read key item others s = others.before (T.write key absent (λ _. some item) s).0

  -- If a row that others change between the read and the write gets another version number, then a
  -- try of `putIfAbsent` that applies has found no row for its create, or writes over an expired one:
  -- the row that its read has found after the refused create is expired, and it is still the row of
  -- the key just before the write of the takeover.
  pub attempt_exclusive :
      (l : DynamoKvLayout) (now : ℕ) (key : String) (value : Value A) (opts : KvWriteOptions)
      (others : Others T.State) (s after : T.State) (r : KvCasResult A)
      → Renumbers others.between key
      → attempt T l now key value opts others s ≡ some (after, decided r)
      → r.applied ≡ true
      → (T.item s key ≡ none)
        ⊎ ((first current : Item A) × (build_item l key value 1
                (resolve_expiry now opts)
                opts.indexed_key
              ≡ some first)
            × (T.item (at_read key first others s) key ≡ some current)
            × (is_expired_item now current ≡ true)
            × (T.item (others.between (at_read key first others s)) key ≡ some current))
  unfolding attempt
  attempt_exclusive l now key value opts others s after r renumbers h applied =
      elim (Option-cases (build_item l key value 1 (resolve_expiry now opts) opts.indexed_key)) [
        | inl bad ↦ absurd (cc (rw (bad, attempt) at h))
        | inr (item, made) ↦ elim (Option-cases (T.item s key)) [
          | inl gone ↦ inl gone
          | inr (old, there) ↦
              let lost : (T.write key absent (λ _. some item) s).1 ≡ false =
                T.write_result key absent (λ _. some item) s ∙ rw there refl in
              let read = others.before (T.write key absent (λ _. some item) s).0 in
              elim (Option-cases (T.item read key)) [
                | inl missing ↦ absurd (cc (rw (made, lost, missing, attempt) at h))
                | inr (current, found) ↦
                    let parts =
                      take_over_applied l now key value opts others current read after r
                        (rw (made, lost, found, attempt) at h) applied in
                    inr (
                      item,
                      current,
                      made,
                      found,
                      parts.0,
                      elim (renumbers read current found) [
                        | inl same ↦ same
                        | inr other_number ↦ absurd (cc (parts.1, other_number))
                      ],
                    )
              ]
        ]
      ]
