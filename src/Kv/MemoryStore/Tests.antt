-- ===== src/Kv/MemoryStore/Tests.antt =====
-- Runs of `MemoryKvStore` on small stores, and the theorems at concrete inputs.
use saas_foundation.Prelude.{◌≡◌, refl, false, none, some, [], ◌∷◌, get as map_get, set as map_set}
use saas_foundation.Prelude.Int.{ℤ, pos}
use saas_foundation.Kv.MemoryStore.{
  Value, object, MemoryEntry, KvWriteOptions, Store, delete, put_if_absent, live, version_of,
}
use saas_foundation.Kv.MemoryStore.Versions.{absent, perform, run, stale_holder_cannot_delete}

abbrev ttl_10 : KvWriteOptions
ttl_10 = record { ttl_seconds = some 10; expires_at = none; indexed_key = some "u" }

abbrev empty : Store ℤ
empty = []

abbrev held : Value ℤ
held = object (("firedAt", pos 7) ∷ [])

abbrev same : ℤ → ℤ
same n = n

-- The row of a lock that was taken at second 1, for ten seconds.
abbrev lock_row : MemoryEntry ℤ
lock_row = record { value = held; version = 1; expires_at = some 11; indexed_key = some "u" }

taken : (put_if_absent 1000 "lock" held ttl_10 empty).0 ≡ ("lock", lock_row) ∷ []
unfolding put_if_absent live map_set map_get
taken = refl

stale_holder_cannot_delete_example :
    delete "lock" (some (version_of (map_get (("lock", lock_row) ∷ []) "lock"))) (
      run same same []
        (perform same same 12000 "lock" (absent held ttl_10) (("lock", lock_row) ∷ [])).0)
    ≡ (
      run same same []
          (perform same same 12000 "lock" (absent held ttl_10) (("lock", lock_row) ∷ [])).0,
      false,
    )
unfolding perform put_if_absent live map_get
stale_holder_cannot_delete_example =
    stale_holder_cannot_delete same same "lock" (("lock", lock_row) ∷ []) 12000 (absent held ttl_10)
      [] refl
