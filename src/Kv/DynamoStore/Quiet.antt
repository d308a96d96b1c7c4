-- ===== src/Kv/DynamoStore/Quiet.antt =====
-- Without interference, packages/foundation/src/kv/dynamo-kv-store.ts creates a row as memory-kv-store.ts does.
use saas_foundation.Prelude.{
  ℕ, ◌+◌, ◌≡◌, refl, ◌∙◌, ◌⊎◌, inl, inr, String, Bool, true, false, Option, none, some, arith,
  Bool-cases, is_some, any, str_eq, JsMap, get as map_get, set as map_set, get-set_self,
}
use saas_foundation.Table.{Table}
use saas_foundation.Kv.MemoryStore.{
  Value, object, MemoryEntry, Store, KvWriteOptions, resolve_expiry, past, version_of, make_entry,
  live,
}
use saas_foundation.Kv.MemoryStore
use saas_foundation.Kv.DynamoRows.{
  DynamoKvLayout, Item, has_version, absent, build_item, number_of, to_record, reserved, is_key,
}
use saas_foundation.Kv.DynamoStore.{decided, Others, write_or_read, take_over, attempt}

-- The entry of the store in memory for a row of the table with a version.
abbrev pub entry_of : {A : Type 0} → Item A → ℕ → MemoryEntry A
entry_of i n = record {
  value = object i.fields;
  version = n;
  expires_at = i.ttl;
  indexed_key = i.index_value;
}

module _ {A : Type 0} (now : ℕ) where
  nothing_live : live {A = A} now none ≡ none
  unfolding live
  nothing_live = refl

  fresh_is_live : (e : MemoryEntry A) → past now e.expires_at ≡ false → live now (some e) ≡ some e
  unfolding live
  fresh_is_live e h = rw h refl

  expired_is_not : (e : MemoryEntry A) → past now e.expires_at ≡ true → live now (some e) ≡ none
  unfolding live
  expired_is_not e h = rw h refl

-- The three cases of the store in memory.
module _ {A : Type 0} (now : ℕ) (key : String) (v : Value A) (opts : KvWriteOptions)
    (m : Store A) where
  memory_created :
      map_get m key ≡ none
      → MemoryStore.put_if_absent now key v opts m ≡ (
        map_set m key (make_entry v 1 (resolve_expiry now opts) opts.indexed_key),
        record {
          applied = true;
          found =
              some
                (MemoryStore.to_record (make_entry v 1 (resolve_expiry now opts) opts.indexed_key));
        },
      )
  unfolding MemoryStore.put_if_absent
  memory_created h =
      let nothing : live now (map_get m key) ≡ none = rw h (nothing_live now) in
      rw (nothing, MemoryStore.put_if_absent, h, version_of) refl

  memory_refused :
      (e : MemoryEntry A)
      → map_get m key ≡ some e
      → past now e.expires_at ≡ false
      → MemoryStore.put_if_absent now key v opts m
        ≡ (m, record { applied = false; found = some (MemoryStore.to_record e) })
  unfolding MemoryStore.put_if_absent
  memory_refused e h fresh =
      let there : live now (map_get m key) ≡ some e = rw h (fresh_is_live now e fresh) in
      rw (there, MemoryStore.put_if_absent) refl

  memory_taken :
      (e : MemoryEntry A)
      → map_get m key ≡ some e
      → past now e.expires_at ≡ true
      → MemoryStore.put_if_absent now key v opts m ≡ (
        map_set m key (make_entry v (e.version + 1) (resolve_expiry now opts) opts.indexed_key),
        record {
          applied = true;
          found = some (
              MemoryStore.to_record
                (make_entry v (e.version + 1) (resolve_expiry now opts) opts.indexed_key));
        },
      )
  unfolding MemoryStore.put_if_absent
  memory_taken e h expired =
      let nothing : live now (map_get m key) ≡ none = rw h (expired_is_not now e expired) in
      rw (nothing, MemoryStore.put_if_absent, h, version_of) refl

module _ {A : Type 0} (T : Table (Item A)) where
  -- The row of the key, if there is one, has a version, and the store in memory has its entry.
  abbrev pub Same : T.State → Store A → String → Type 0
  Same s m key =
      ((T.item s key ≡ none) × (map_get m key ≡ none))
      ⊎ ((i : Item A) × (n : ℕ) × (T.item s key ≡ some i)
          × (i.version_number ≡ some n)
          × (map_get m key ≡ some (entry_of i n)))

  abbrev pub quiet : Others T.State
  quiet = record { before = λ s. s; between = λ s. s; later = λ s. s }

  written :
      (now : ℕ) (key : String) (c : Option (Item A) → Bool) (item : Item A)
      (later : T.State → T.State) (s : T.State)
      → c (T.item s key) ≡ true
      → (write_or_read T now key c item later s ≡ (
        (T.write key c (λ _. some item) s).0,
        record { applied = true; found = some (to_record item) },
      ))
        × (T.item (T.write key c (λ _. some item) s).0 key ≡ some item)
  unfolding write_or_read
  written now key c item later s h =
      let won : (T.write key c (λ _. some item) s).1 ≡ true =
        T.write_result key c (λ _. some item) s ∙ h in
      (rw (won, write_or_read) refl, T.write_item key c (λ _. some item) s ∙ rw h refl)

  -- What is made of a value of fields.
  abbrev item_for : JsMap A → ℕ → Option ℕ → Option String → Item A
  item_for fields n at index = record {
    fields = fields;
    version_number = some n;
    ttl = at;
    index_value = index;
  }

  built :
      (l : DynamoKvLayout) (key : String) (fields : JsMap A) (n : ℕ) (at : Option ℕ)
      (index : Option String)
      → is_key l key ≡ true
      → any (λ f. any (str_eq f.0) (reserved l)) fields ≡ false
      → is_some l.index ≡ true
      → build_item l key (object fields) n at index ≡ some (item_for fields n at index)
  unfolding build_item
  built l key fields n at index hk hf hi = rw (hf, hk, hi) refl

  -- With a layout that has a secondary index, a key without a forbidden separator, a value of fields
  -- none of which has a reserved name, and a row that has a version if it is there: the create of a
  -- row that is not there, or is expired, and the refusal of one that is live, without interference,
  -- are those of the store in memory, which then agrees with the table on the key again.
  pub attempt_refines :
      (l : DynamoKvLayout) (now : ℕ) (key : String) (fields : JsMap A) (opts : KvWriteOptions)
      (s : T.State) (m : Store A)
      → is_key l key ≡ true
      → any (λ f. any (str_eq f.0) (reserved l)) fields ≡ false
      → is_some l.index ≡ true
      → Same s m key
      → (after : T.State) × (attempt T l now key (object fields) opts quiet s
          ≡ some (after, decided (MemoryStore.put_if_absent now key (object fields) opts m).1))
        × Same after (MemoryStore.put_if_absent now key (object fields) opts m).0 key
  unfolding attempt MemoryStore.to_record make_entry
  attempt_refines l now key fields opts s m hk hf hi (inl (gone, missing)) =
      let at = resolve_expiry now opts in
      let item = item_for fields 1 at opts.indexed_key in
      let made = built l key fields 1 at opts.indexed_key hk hf hi in
      let won : (T.write key absent (λ _. some item) s).1 ≡ true =
        T.write_result key absent (λ _. some item) s ∙ rw gone refl in
      let left : T.item (T.write key absent (λ _. some item) s).0 key ≡ some item =
        T.write_item key absent (λ _. some item) s ∙ rw gone refl in
      rw (memory_created now key (object fields) opts m missing) (
        (T.write key absent (λ _. some item) s).0,
        rw (made, won, attempt) refl,
        inr (item, 1, left, refl, get-set_self m key (entry_of item 1)),
      )
  attempt_refines l now key fields opts s m hk hf hi (inr (i, n, there, versioned, stored)) =
      let at = resolve_expiry now opts in
      let first = item_for fields 1 at opts.indexed_key in
      let made = built l key fields 1 at opts.indexed_key hk hf hi in
      let read = (T.write key absent (λ _. some first) s).0 in
      let lost : (T.write key absent (λ _. some first) s).1 ≡ false =
        T.write_result key absent (λ _. some first) s ∙ rw there refl in
      let kept : T.item read key ≡ some i =
        T.write_item key absent (λ _. some first) s ∙ rw there refl in
      elim (Bool-cases (past now i.ttl)) [
        | inr fresh ↦
            rw (memory_refused now key (object fields) opts m (entry_of i n) stored fresh) (
              read,
              rw (made, lost, kept, attempt) (rw (fresh, take_over, versioned) refl),
              inr (i, n, kept, versioned, stored),
            )
        | inl expired ↦
            let next = item_for fields (n + 1) at opts.indexed_key in
            let again = built l key fields (n + 1) at opts.indexed_key hk hf hi in
            let v = number_of i.version_number in
            let holds : has_version v (T.item read key) ≡ true =
              rw (kept, versioned) (ground arith) in
            let done = written now key (has_version v) next (λ s. s) read holds in
            rw (memory_taken now key (object fields) opts m (entry_of i n) stored expired) (
              (T.write key (has_version v) (λ _. some next) read).0,
              rw (made, lost, kept, attempt)
                  (rw (versioned, expired, take_over, again, done.0) (rw versioned refl)),
              inr (next, n + 1, done.1, refl, get-set_self m key (entry_of next (n + 1))),
            )
      ]
