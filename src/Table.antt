-- ===== src/Table.antt =====
-- What the handlers rely on of a key-value table service (DynamoDB): consistent reads, and writes
-- that test a condition on the row and change it in one atomic step. The service itself is not
-- under the repository; its documented behaviour is the laws of this interface.
use saas_foundation.Prelude.{
  String, ◌≡◌, ◌∙◌, ◌≢◌, inl, inr, Bool, true, false, Option, none, some, arith, str_eq, eq_iff,
  eq_refl, if◌then◌else◌, Bool-cases, JsMap, get as map_get, set as map_set, delete as map_delete,
  get-set, get-delete,
}

pub record Table (Row : Type 0) : Type 1 where
  pub State : Type 0
  -- GetItem with ConsistentRead
  pub item : State → String → Option Row
  -- PutItem, UpdateItem or DeleteItem with a condition: the key, the condition on the row, and the
  -- row that is left, `none` for a delete. The result says whether the condition held.
  pub write : String → (Option Row → Bool) → (Option Row → Option Row) → State → State × Bool
  pub write_result :
      (k : String) (c : Option Row → Bool) (f : Option Row → Option Row) (s : State)
      → (write k c f s).1 ≡ c (item s k)
  pub write_item :
      (k : String) (c : Option Row → Bool) (f : Option Row → Option Row) (s : State)
      → item (write k c f s).0 k ≡ (if c (item s k) then f (item s k) else item s k)
  pub write_other :
      (k j : String) (c : Option Row → Bool) (f : Option Row → Option Row) (s : State)
      → k ≢ j
      → item (write k c f s).0 j ≡ item s j

-- A table that meets the laws: a map.
module _ {Row : Type 0} where
  store : String → Option Row → JsMap Row → JsMap Row
  store k none s = map_delete s k
  store k (some r) s = map_set s k r

  unfoldable pub write_map :
      String → (Option Row → Bool) → (Option Row → Option Row) → JsMap Row → JsMap Row × Bool
  unfolding store
  write_map k c f s = let r = map_get s k in if c r then (store k (f r) s, true) else (s, false)

  get-store :
      (k j : String) (o : Option Row) (s : JsMap Row)
      → map_get (store k o s) j ≡ (if str_eq k j then o else map_get s j)
  unfolding store
  get-store k j none s = get-delete s k j
  get-store k j (some r) s = get-set s k j r

  pub write_map_result :
      (k : String) (c : Option Row → Bool) (f : Option Row → Option Row) (s : JsMap Row)
      → (write_map k c f s).1 ≡ c (map_get s k)
  unfolding write_map
  write_map_result k c f s = ground arith

  pub write_map_item :
      (k : String) (c : Option Row → Bool) (f : Option Row → Option Row) (s : JsMap Row)
      → map_get (write_map k c f s).0 k ≡ (if c (map_get s k) then f (map_get s k) else map_get s k)
  write_map_item k c f s = elim (Bool-cases (c (map_get s k))) [
    | inl h ↦ unfold write_map in rw h (get-store k k (f (map_get s k)) s ∙ rw eq_refl)
    | inr h ↦ unfold write_map in rw h
  ]

  pub write_map_other :
      (k j : String) (c : Option Row → Bool) (f : Option Row → Option Row) (s : JsMap Row)
      → k ≢ j
      → map_get (write_map k c f s).0 j ≡ map_get s j
  write_map_other k j c f s ne = elim (Bool-cases (c (map_get s k))) [
    | inl h ↦
        unfold write_map in rw h (ground (arith, get-store k j (f (map_get s k)) s, eq_iff k j))
    | inr h ↦ unfold write_map in rw h
  ]

abbrev pub map_table : (Row : Type 0) → Table Row
map_table Row = record {
  State = JsMap Row;
  item = map_get;
  write = write_map;
  write_result = write_map_result;
  write_item = write_map_item;
  write_other = write_map_other;
}
