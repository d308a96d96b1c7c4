-- ===== src/Audit/Size.antt =====
-- The limit on the metadata of an event, packages/foundation/src/audit/audit-log.ts: the size of its JSON
-- text in UTF-8, and the entries that are dropped when it is too large.
pub mod Order
pub mod Shed
pub mod Kept
use Prim.Native.Char.{code}
use Prim.Native.String.{[] as empty, ◌∷◌ as char}
use saas_foundation.Prelude.{
  ℕ, ◌+◌, String, Bool, true, false, ◌||◌, ◌&&◌, List, [], ◌∷◌, ltb, leb, ◌==◌, if◌then◌else◌, any,
  str_eq,
}
use saas_foundation.Audit.Pii.{
  Json, null, number, text, array, object, Items, nil, item, Fields, end, field,
}

-- The bytes of a character of a JSON text, escaped where `JSON.stringify` escapes it.
unfoldable pub char_size : ℕ → ℕ
char_size c =
    if c == 34 || c == 92 || leb 8 c && leb c 10 || c == 12 || c == 13
    then 2
    else if ltb c 32
    then 6
    else if ltb c 128
    then 1
    else if ltb c 2048
    then 2
    else if ltb c 65536
    then 3
    else 4

unfoldable pub chars_size : String → ℕ
unfolding char_size
chars_size empty = 0
chars_size (char c s) = char_size (code c) + chars_size s

unfoldable pub quoted_size : String → ℕ
unfolding chars_size
quoted_size s = 2 + chars_size s

-- The comma before what follows.
abbrev pub item_comma : {A : Type 0} → Items A → ℕ
item_comma nil = 0
item_comma (item v items) = 1

abbrev pub field_comma : {A : Type 0} → Fields A → ℕ
field_comma end = 0
field_comma (field key v fields) = 1

pub data OversizePolicy : Type 0 where
  reject truncate : OversizePolicy

-- An entry of the metadata, with the size of the object that has nothing else.
pub record Entry (A : Type 0) : Type 0 where
  pub key : String
  pub value : Json A
  pub size : ℕ

-- The metadata and whether entries were dropped, or its size where the source throws.
pub data SizeCheck (A : Type 0) : Type 0 where
  too_large : ℕ → SizeCheck A
  checked : Fields A → Bool → SizeCheck A

-- In front of the first entry that is not larger, so that entries of one size keep their order.
unfoldable pub insert_by_size : {A : Type 0} → Entry A → List (Entry A) → List (Entry A)
insert_by_size e [] = e ∷ []
insert_by_size e (x ∷ entries) =
    let rest = insert_by_size e entries in if leb x.size e.size then e ∷ x ∷ entries else x ∷ rest

-- `entries.sort((a, b) => b.size - a.size)`
unfoldable pub largest_first : {A : Type 0} → List (Entry A) → List (Entry A)
unfolding insert_by_size
largest_first [] = []
largest_first (e ∷ entries) = insert_by_size e (largest_first entries)

-- The entries whose keys are not dropped.
unfoldable pub rebuild : {A : Type 0} → List String → List (Entry A) → Fields A
rebuild dropped [] = end
rebuild dropped (e ∷ entries) =
    let rest = rebuild dropped entries in
    if any (str_eq e.key) dropped then rest else field e.key e.value rest

-- `number_size` is the length of the text that the language writes for a number or a Boolean value.
module _ {A : Type 0} (number_size : A → ℕ) where
  unfoldable mutual
    unfolding quoted_size

    pub value_size : Json A → ℕ
    value_size null = 4
    value_size (number n) = number_size n
    value_size (text s) = quoted_size s
    value_size (array items) = 2 + items_size items
    value_size (object fields) = 2 + fields_size fields

    pub items_size : Items A → ℕ
    items_size nil = 0
    items_size (item v items) = value_size v + item_comma items + items_size items

    pub fields_size : Fields A → ℕ
    fields_size end = 0
    fields_size (field key v fields) =
        quoted_size key + 1 + value_size v + field_comma fields + fields_size fields

  -- `Buffer.byteLength(JSON.stringify(metadata), "utf-8")`
  unfoldable pub encoded_size : Fields A → ℕ
  unfolding fields_size
  encoded_size metadata = 2 + fields_size metadata

  unfoldable pub entries_of : Fields A → List (Entry A)
  unfolding encoded_size
  entries_of end = []
  entries_of (field k v fields) =
      record { key = k; value = v; size = encoded_size (field k v end) } ∷ entries_of fields

  -- The keys that are dropped by the loop over what is left of the entries.
  unfoldable pub drop_keys : ℕ → List (Entry A) → List String → List (Entry A) → List String
  unfolding encoded_size rebuild
  drop_keys max entries dropped [] = dropped
  drop_keys max entries dropped (e ∷ left) =
      let more = drop_keys max entries (e.key ∷ dropped) left in
      if leb (encoded_size (rebuild dropped entries)) max then dropped else more

  unfoldable pub enforce_metadata_size : OversizePolicy → ℕ → Fields A → SizeCheck A
  unfolding encoded_size entries_of largest_first drop_keys rebuild
  enforce_metadata_size policy max metadata =
      let size = encoded_size metadata in
      let entries = largest_first (entries_of metadata) in
      if leb size max then checked metadata false else elim policy [
        | reject ↦ too_large size
        | truncate ↦ checked (rebuild (drop_keys max entries [] entries) entries) true
      ]
