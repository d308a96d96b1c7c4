-- ===== src/Kv/MemoryStore/Index.antt =====
-- Reading back: `get` after the writes, and `queryByIndex`.
use saas_foundation.Prelude.{
  ℕ, String, ◌≡◌, refl, Bool, not, ◌&&◌, none, some, [], ◌∷◌, arith, str_eq, eq_iff, if◌then◌else◌,
  get as map_get, get-set, IsMap,
}
use saas_foundation.Kv.MemoryStore.{
  Value, MemoryEntry, KvWriteOptions, Store, get, put, query_by_index, past, resolve_expiry,
  is_expired, has_index, to_record,
}

module _ {A : Type 0} where
  -- After a `put` the key reads back as the record that `put` returned, until its expiry has
  -- passed; a read that includes expired rows sees it then too. Other keys read as before.
  pub get-put :
      (now later : ℕ) (k j : String) (v : Value A) (o : KvWriteOptions) (all_rows : Bool)
      (s : Store A)
      → get later all_rows (put now k v o s).0 j ≡ (
          if str_eq k j
          then (if not all_rows && past later (resolve_expiry now o)
              then none
              else some (put now k v o s).1)
          else get later all_rows s j)
  unfolding get put
  get-put now later k j v o all_rows s = grind (arith, get-set, eq_iff k j)

  -- A row that the query has to return: live, and under the index.
  abbrev pub wanted : ℕ → String → MemoryEntry A → Bool
  wanted now i e = not (is_expired now e) && has_index i e

  -- In a map the query finds at each key the record of its row, if that row is wanted, and nothing
  -- else.
  pub get-query_by_index :
      (now : ℕ) (i k : String) (s : Store A)
      → IsMap s
      → map_get (query_by_index now i s) k ≡ elim (map_get s k) [
        | none ↦ none
        | some e ↦ if wanted now i e then some (to_record e) else none
      ]
  unfolding query_by_index map_get
  get-query_by_index now i k [] h = refl
  get-query_by_index now i k ((j, e) ∷ rest) (fresh, h) =
      ground (arith, get-query_by_index now i k rest h, eq_iff j k)
