-- ===== src/Kv/DynamoStore.antt =====
-- packages/foundation/src/kv/dynamo-kv-store.ts: `DynamoKvStore`, over the table service's interface. The
-- table holds the rows of one namespace by what is behind the prefix of their keys. A method that
-- comes to the table more than once takes what others do to it in between, and a read that need not
-- be consistent takes the row that it is given. `none` stands for a `TypeError`; the other failures
-- of the service are not modelled.
pub mod Takeover
pub mod Quiet
mod Tests
use saas_foundation.Prelude.{
  ℕ, ◌+◌, String, Bool, true, false, not, ◌&&◌, Option, none, some, List, [], ◌∷◌, ◌==◌,
  if◌then◌else◌, is_some,
}
use saas_foundation.Table.{Table}
use saas_foundation.Kv.MemoryStore.{Value, KvRecord, KvWriteOptions, KvCasResult, resolve_expiry}
use saas_foundation.Kv.DynamoRows.{
  DynamoKvLayout, Item, absent, build_item, has_version, is_expired_item, is_key, less_fresh,
  live_record, number_of, to_record,
}

-- One try of `putIfAbsent` is decided, or the row was gone when it was read.
pub data Attempt (A : Type 0) : Type 0 where
  decided : KvCasResult A → Attempt A
  vanished : Attempt A

-- What others do to the table between the steps of one try: before the read, before the write of a
-- takeover, and before the winner is read.
pub record Others (S : Type 0) : Type 0 where
  pub before : S → S
  pub between : S → S
  pub later : S → S

module _ {A : Type 0} (T : Table (Item A)) where
  -- A conditional write of an item, and what is answered when the condition fails; `later` is what
  -- others do before the row is read again.
  unfoldable pub write_or_read :
      ℕ
      → String
      → (Option (Item A) → Bool)
      → Item A
      → (T.State → T.State)
      → T.State
      → T.State × KvCasResult A
  unfolding to_record live_record
  write_or_read now key condition item later s =
      let (after, won) = T.write key condition (λ _. some item) s in
      if won then (after, record { applied = true; found = some (to_record item) }) else (
        later after,
        record { applied = false; found = live_record now (T.item (later after) key) },
      )

  -- From the consistent read of the row on: `item` is the row for a takeover.
  unfoldable pub take_over :
      DynamoKvLayout
      → ℕ
      → String
      → Value A
      → KvWriteOptions
      → Others T.State
      → Item A
      → T.State
      → Option (T.State × Attempt A)
  unfolding is_expired_item build_item write_or_read resolve_expiry to_record
  take_over l now key value opts others current s =
      if not (is_expired_item now current)
      then some (s, decided (record { applied = false; found = some (to_record current) }))
      else elim (build_item l key value (number_of current.version_number + 1)
          (resolve_expiry now opts) opts.indexed_key) [
            | none ↦ none
            | some item ↦
                let r =
                  write_or_read now key (has_version (number_of current.version_number)) item
                    others.later (others.between s) in
                some (r.0, decided r.1)
          ]

  unfoldable pub attempt :
      DynamoKvLayout
      → ℕ
      → String
      → Value A
      → KvWriteOptions
      → Others T.State
      → T.State
      → Option (T.State × Attempt A)
  unfolding take_over build_item resolve_expiry to_record
  attempt l now key value opts others s =
      elim (build_item l key value 1 (resolve_expiry now opts) opts.indexed_key) [
        | none ↦ none
        | some item ↦
            let (after, won) = T.write key absent (λ _. some item) s in
            if won
            then some (after, decided (record { applied = true; found = some (to_record item) }))
            else elim (T.item (others.before after) key) [
              | none ↦ some (others.before after, vanished)
              | some current ↦ take_over l now key value opts others current (others.before after)
            ]
      ]

  -- The method tries again for as long as the row is gone, here for as many tries as are given,
  -- with what others do in each; `vanished` is left if the row was gone in all of them.
  unfoldable pub put_if_absent :
      DynamoKvLayout
      → ℕ
      → String
      → Value A
      → KvWriteOptions
      → List (Others T.State)
      → T.State
      → Option (T.State × Attempt A)
  unfolding attempt
  put_if_absent l now key value opts [] s = some (s, vanished)
  put_if_absent l now key value opts (others ∷ tries) s =
      elim (attempt l now key value opts others s) [
        | none ↦ none
        | some (after, decided r) ↦ some (after, decided r)
        | some (after, vanished) ↦ put_if_absent l now key value opts tries after
      ]

  unfoldable pub put :
      DynamoKvLayout
      → ℕ
      → String
      → Value A
      → KvWriteOptions
      → Option (Item A)
      → T.State
      → Option (T.State × KvRecord A)
  unfolding build_item resolve_expiry to_record
  put l now key value opts seen s =
      let previous = elim seen as (λ _. ℕ) [ none ↦ 0 | some i ↦ number_of i.version_number ] in
      elim (build_item l key value (previous + 1) (resolve_expiry now opts) opts.indexed_key) [
        | none ↦ none
        | some item ↦ some ((T.write key (λ _. true) (λ _. some item) s).0, to_record item)
      ]

  unfoldable pub compare_and_set :
      DynamoKvLayout
      → ℕ
      → String
      → ℕ
      → Value A
      → KvWriteOptions
      → (T.State → T.State)
      → T.State
      → Option (T.State × KvCasResult A)
  unfolding build_item resolve_expiry write_or_read
  compare_and_set l now key expected value opts later s =
      elim (build_item l key value (expected + 1) (resolve_expiry now opts) opts.indexed_key) [
        | none ↦ none
        | some item ↦ some (
            write_or_read now key (if expected == 0 then absent else has_version expected) item
              later s)
      ]

  unfoldable pub put_if_fresher :
      DynamoKvLayout
      → ℕ
      → String
      → Value A
      → ℕ
      → Option String
      → (T.State → T.State)
      → T.State
      → Option (T.State × KvCasResult A)
  unfolding build_item write_or_read
  put_if_fresher l now key value incoming indexed_key later s =
      elim (build_item l key value 1 (some incoming) indexed_key) [
        | none ↦ none
        | some item ↦ some (write_or_read now key (less_fresh incoming) item later s)
      ]

  -- The answer is whether there was a row that was deleted.
  unfoldable pub delete : DynamoKvLayout → String → Option ℕ → T.State → Option (T.State × Bool)
  unfolding is_key
  delete l key expected s =
      let condition : Option (Item A) → Bool = elim expected [
        | none ↦ λ _. true
        | some v ↦ has_version v
      ] in
      let (after, won) = T.write key condition (λ _. none) s in
      if not (is_key l key) then none else some (after, won && is_some (T.item s key))
