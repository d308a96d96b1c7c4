-- ===== src/Kv/DynamoStore/Tests.antt =====
-- The theorems on the store over DynamoDB at concrete inputs.
use saas_foundation.Prelude.{
  ℕ, ◌≡◌, ◌⊎◌, inl, inr, refl, true, false, none, some, [], ◌∷◌, JsMap, get as map_get,
  set as map_set,
}
use saas_foundation.Table.{Table, map_table, write_map}
use saas_foundation.Kv.MemoryStore.{object, KvWriteOptions, KvCasResult, Store, resolve_expiry}
use saas_foundation.Kv.MemoryStore
use saas_foundation.Kv.DynamoRows.{
  DynamoKvLayout, Item, build_item, is_expired_item, reserved, is_key, to_record,
}
use saas_foundation.Kv.DynamoStore.{Others, decided, attempt, take_over}
use saas_foundation.Kv.DynamoStore.Takeover.{at_read, take_over_overwrites, attempt_exclusive}
use saas_foundation.Kv.DynamoStore.Quiet.{Same, entry_of, quiet, attempt_refines}

abbrev T : Table (Item ℕ)
T = map_table (Item ℕ)

abbrev layout : DynamoKvLayout
layout = record {
  pk_separator = b'#';
  allow_separator_in_key = false;
  sk_name = none;
  ttl_attr = "ttl";
  version_attr = "_v";
  index = some (record { pk_attr = "gsi"; sk_attr = none });
}

abbrev options : KvWriteOptions
options = record { ttl_seconds = some 10; expires_at = none; indexed_key = none }

abbrev holder : ℕ → JsMap ℕ
holder n = ("holder", n) ∷ []

-- A lock of the first client, expired at second 11.
abbrev expired_row : Item ℕ
expired_row = record {
  fields = holder 1;
  version_number = some 1;
  ttl = some 11;
  index_value = none;
}

-- The lock of a third client, which has found no row after the second one had released the lock.
abbrev third_row : Item ℕ
third_row = record { fields = holder 3; version_number = some 1; ttl = some 29; index_value = none }

abbrev table : T.State
table = ("lock", expired_row) ∷ []

-- What the second and the third client do.
abbrev released_and_created : Others T.State
released_and_created = record {
  before = λ s. s;
  between = λ s. map_set s "lock" third_row;
  later = λ s. s;
}

abbrev own_row : Item ℕ
own_row = record { fields = holder 4; version_number = some 2; ttl = some 30; index_value = none }

third_is_live : is_expired_item 20000 third_row ≡ false
unfolding is_expired_item
third_is_live = refl

take_over_overwrites_example :
    (after : T.State) × (r : KvCasResult ℕ) × (take_over T layout 20000 "lock"
        (object (holder 4))
        options
        released_and_created
        expired_row
        table
      ≡ some (after, decided r))
    × (r.applied ≡ true)
    × (T.item after "lock" ≡ some own_row)
unfolding is_expired_item build_item resolve_expiry map_get map_set
take_over_overwrites_example =
    take_over_overwrites T layout 20000 "lock" (object (holder 4)) options released_and_created
      expired_row own_row third_row table refl refl refl refl

attempt_exclusive_example :
    (T.item table "lock" ≡ none)
    ⊎ ((first current : Item ℕ) × (build_item layout "lock"
            (object (holder 4))
            1
            (resolve_expiry 20000 options)
            options.indexed_key
          ≡ some first)
        × (T.item (at_read T "lock" first (quiet T) table) "lock" ≡ some current)
        × (is_expired_item 20000 current ≡ true)
        × (T.item (at_read T "lock" first (quiet T) table) "lock" ≡ some current))
unfolding attempt write_map map_get map_set
attempt_exclusive_example =
    attempt_exclusive T layout 20000 "lock" (object (holder 4)) options (quiet T) table
      (("lock", own_row) ∷ []) (record { applied = true; found = some (to_record own_row) })
      (λ s row h. inl h) refl refl

abbrev memory : Store ℕ
memory = ("lock", entry_of expired_row 1) ∷ []

attempt_refines_example :
    (after : T.State) × (attempt T layout 20000 "lock" (object (holder 4)) options (quiet T) table
      ≡ some (
        after,
        decided (MemoryStore.put_if_absent 20000 "lock" (object (holder 4)) options memory).1,
      ))
    × Same T after
        (MemoryStore.put_if_absent 20000 "lock" (object (holder 4)) options memory).0
        "lock"
unfolding is_key reserved map_get
attempt_refines_example =
    attempt_refines T layout 20000 "lock" (holder 4) options table memory refl refl refl
      (inr (expired_row, 1, refl, refl, refl))
