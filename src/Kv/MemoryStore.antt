-- ===== src/Kv/MemoryStore.antt =====
-- packages/foundation/src/kv/memory-kv-store.ts: `MemoryKvStore`. A method takes the map and the
-- clock's reading in milliseconds, and returns the map with its result. `structuredClone` copies
-- a value, which is the identity on values.
pub mod Versions
pub mod Locks
pub mod Freshness
pub mod Counters
pub mod Index
mod Tests
use Prim.Native.Char.{code}
use Prim.Native.String
use saas_foundation.Prelude.{
  ℕ, ◌+◌, ◌/◌, String, Bool, true, false, not, ◌&&◌, ◌||◌, Option, none, some, List, [], ◌∷◌, ltb,
  ◌==◌, str_eq, if◌then◌else◌, first_of_two, is_letter, is_digit, all_chars, JsMap, get as map_get,
  set as map_set, delete as map_delete,
}
use saas_foundation.Prelude.Int.{ℤ, pos, ◌+ℤ◌}

-- A stored JSON value: an object with its fields, or anything else (null, a number, a text).
-- `A` is what a field holds.
pub data Value (A : Type 0) : Type 0 where
  object : JsMap A → Value A
  other : A → Value A

pub record MemoryEntry (A : Type 0) : Type 0 where
  pub value : Value A
  pub version : ℕ
  pub expires_at : Option ℕ  -- epoch seconds
  pub indexed_key : Option String

pub record KvRecord (A : Type 0) : Type 0 where
  pub value : Value A
  pub version : ℕ
  pub expires_at : Option ℕ

pub record KvWriteOptions : Type 0 where
  pub ttl_seconds : Option ℕ
  pub expires_at : Option ℕ
  pub indexed_key : Option String

pub record KvCasResult (A : Type 0) : Type 0 where
  pub applied : Bool
  pub found : Option (KvRecord A)

abbrev pub Store : Type 0 → Type 0
Store A = JsMap (MemoryEntry A)

-- `Math.floor(this.now() / 1000)`
unfoldable pub now_seconds : ℕ → ℕ
now_seconds now = now / 1000

unfoldable pub resolve_expiry : ℕ → KvWriteOptions → Option ℕ
unfolding now_seconds
resolve_expiry now opts = elim opts.expires_at [
  | some at ↦ some at
  | none ↦ elim opts.ttl_seconds [ some ttl ↦ some (now_seconds now + ttl) | none ↦ none ]
]

-- An expiry time lies in the past.
unfoldable pub past : ℕ → Option ℕ → Bool
unfolding now_seconds
past now none = false
past now (some at) = ltb at (now_seconds now)

module _ {A : Type 0} where
  unfoldable pub is_expired : ℕ → MemoryEntry A → Bool
  unfolding past
  is_expired now entry = past now entry.expires_at

  unfoldable pub to_record : MemoryEntry A → KvRecord A
  to_record e = record { value = e.value; version = e.version; expires_at = e.expires_at }

  unfoldable pub make_entry : Value A → ℕ → Option ℕ → Option String → MemoryEntry A
  make_entry v n at index = record { value = v; version = n; expires_at = at; indexed_key = index }

  -- `existing?.version ?? 0`
  unfoldable pub version_of : Option (MemoryEntry A) → ℕ
  version_of none = 0
  version_of (some e) = e.version

  -- `existing !== undefined && !this.isExpired(existing)`, with what it lets through
  unfoldable pub live : ℕ → Option (MemoryEntry A) → Option (MemoryEntry A)
  unfolding is_expired
  live now none = none
  live now (some e) = if is_expired now e then none else some e

  unfoldable pub get : ℕ → Bool → Store A → String → Option (KvRecord A)
  unfolding is_expired to_record
  get now include_expired s key = elim (map_get s key) [
    | none ↦ none
    | some e ↦ if not include_expired && is_expired now e then none else some (to_record e)
  ]

  unfoldable pub put : ℕ → String → Value A → KvWriteOptions → Store A → Store A × KvRecord A
  unfolding version_of make_entry resolve_expiry to_record
  put now key value opts s =
      let version = version_of (map_get s key) + 1 in
      let entry = make_entry value version (resolve_expiry now opts) opts.indexed_key in
      (map_set s key entry, to_record entry)

  unfoldable pub put_if_absent :
      ℕ → String → Value A → KvWriteOptions → Store A → Store A × KvCasResult A
  unfolding version_of make_entry resolve_expiry to_record
  put_if_absent now key value opts s = elim (live now (map_get s key)) [
    | some e ↦ (s, record { applied = false; found = some (to_record e) })
    | none ↦
        let version = version_of (map_get s key) + 1 in
        let entry = make_entry value version (resolve_expiry now opts) opts.indexed_key in
        (map_set s key entry, record { applied = true; found = some (to_record entry) })
  ]

  -- `live ? this.toRecord(existing) : null`
  unfoldable pub record_of : Option (MemoryEntry A) → Option (KvRecord A)
  unfolding to_record
  record_of none = none
  record_of (some e) = some (to_record e)

  unfoldable pub compare_and_set :
      ℕ → String → ℕ → Value A → KvWriteOptions → Store A → Store A × KvCasResult A
  unfolding version_of make_entry resolve_expiry to_record record_of
  compare_and_set now key expected value opts s =
      let existing = live now (map_get s key) in
      let entry = make_entry value (expected + 1) (resolve_expiry now opts) opts.indexed_key in
      if version_of existing == expected
      then (map_set s key entry, record { applied = true; found = some (to_record entry) })
      else (s, record { applied = false; found = record_of existing })

  -- `!live || existing.expiresAt === undefined || existing.expiresAt < incoming`
  unfoldable pub can_write : ℕ → Option (MemoryEntry A) → Bool
  can_write incoming none = true
  can_write incoming (some e) = elim e.expires_at [ none ↦ true | some at ↦ ltb at incoming ]

  -- The option `expiresAt` is mandatory here, and the only one read beside `indexedKey`.
  unfoldable pub put_if_fresher :
      ℕ → String → Value A → ℕ → Option String → Store A → Store A × KvCasResult A
  unfolding can_write make_entry to_record record_of
  put_if_fresher now key value incoming index s =
      let existing = live now (map_get s key) in
      let entry = make_entry value 1 (some incoming) index in
      if can_write incoming existing
      then (map_set s key entry, record { applied = true; found = some (to_record entry) })
      else (s, record { applied = false; found = record_of existing })

  -- `expectedVersion !== undefined && existing.version !== expectedVersion`
  unfoldable pub guard_fails : Option ℕ → MemoryEntry A → Bool
  guard_fails none e = false
  guard_fails (some v) e = not (e.version == v)

  unfoldable pub delete : String → Option ℕ → Store A → Store A × Bool
  unfolding guard_fails
  delete key expected s = elim (map_get s key) [
    | none ↦ (s, false)
    | some e ↦ if guard_fails expected e then (s, false) else (map_delete s key, true)
  ]

  -- `entry.indexedKey !== indexValue`
  unfoldable pub has_index : String → MemoryEntry A → Bool
  has_index i e = elim e.indexed_key [ none ↦ false | some j ↦ str_eq j i ]

  -- the loop of `queryByIndex`
  unfoldable pub query_by_index : ℕ → String → Store A → List (String × KvRecord A)
  unfolding is_expired has_index to_record
  query_by_index now i [] = []
  query_by_index now i ((key, e) ∷ rest) =
      let found = query_by_index now i rest in
      if is_expired now e || not (has_index i e) then found else (key, to_record e) ∷ found

  -- `existing?.expiresAt` and `existing?.indexedKey`
  unfoldable pub expiry_of : Option (MemoryEntry A) → Option ℕ
  expiry_of none = none
  expiry_of (some e) = e.expires_at

  unfoldable pub index_of : Option (MemoryEntry A) → Option String
  index_of none = none
  index_of (some e) = e.indexed_key

  -- The fields of the object that `increment` merges into.
  unfoldable pub base_of : Option (MemoryEntry A) → JsMap A
  base_of none = []
  base_of (some e) = elim e.value [ object fields ↦ fields | other x ↦ [] ]

-- `KV_FIELD_PATTERN`, /^[a-zA-Z][a-zA-Z0-9_]*$/
unfoldable pub is_field : String → Bool
unfolding is_letter is_digit
is_field String.[] = false
is_field (String.◌∷◌ c s) =
    is_letter (code c) && all_chars (λ n. is_letter n || is_digit n || n == b'_') s

-- `number` is what `Number(x ?? 0)` makes of a stored field, and `of_number` stores a number.
module _ {A : Type 0} (number : A → ℤ) (of_number : ℤ → A) where
  -- `Number(base[field] ?? 0)`
  unfoldable pub current : JsMap A → String → ℤ
  current base field = elim (map_get base field) [ none ↦ pos 0 | some x ↦ number x ]

  -- `none` is the rejected promise. The expiry is set once: `existing?.expiresAt ?? …`.
  unfoldable pub increment : ℕ → String → String → ℤ → KvWriteOptions → Store A → Store A × Option ℤ
  unfolding base_of current version_of make_entry resolve_expiry expiry_of index_of
  increment now key field delta opts s =
      if is_field field
      then (let existing = map_get s key in
          let base = base_of existing in
          let next = current base field +ℤ delta in
          let at = first_of_two (expiry_of existing) (resolve_expiry now opts) in
          let entry =
            make_entry (object (map_set base field (of_number next))) (version_of existing + 1) at
              (index_of existing) in
          (map_set s key entry, some next))
      else (s, none)
