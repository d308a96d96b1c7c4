-- ===== src/Secrets/Tests.antt =====
-- A cache of two secrets, and the theorems at concrete inputs.
use saas_foundation.Prelude.{
  ◌≤◌, ◌≡◌, refl, [], ◌∷◌, arith, length, get as map_get, set as map_set, delete as map_delete,
}
use saas_foundation.Secrets.Cache.{
  Heap, SecretCache, evict_loop, evict_overflow, evict_oldest, evict_key, without, get, set,
  fill_zero,
}
use saas_foundation.Secrets.Cache.Bounds.{getting, setting, clearing, apply, run, run_bounded}
use saas_foundation.Secrets.Cache.Buffers.{Kept, dropped_buffers_zeroed}

abbrev bytes : Heap
bytes b = 7 ∷ b ∷ []

abbrev empty : SecretCache
empty = record { entries = []; heap = bytes }

abbrev one : SecretCache
one = record { entries = ("a", record { value = 1; expires_at = 300000 }) ∷ []; heap = bytes }

-- The third secret takes the place of the one that was not read.
victim :
    (run 2 300000
        (setting "a" 1 0 ∷ setting "b" 2 1 ∷ getting "a" 2 ∷ setting "c" 3 3 ∷ [])
        empty).heap
      2
    ≡ 0 ∷ 0 ∷ []
unfolding run apply get set without evict_overflow evict_loop evict_oldest evict_key fill_zero
    map_get map_set map_delete
victim = refl

run_bounded_example :
    length
      (run 2 300000
        (setting "a" 1 0 ∷ setting "b" 2 1 ∷ getting "a" 2 ∷ setting "c" 3 3 ∷ [])
        empty).entries
    ≤ 2
run_bounded_example =
    run_bounded 2 300000 (setting "a" 1 0 ∷ setting "b" 2 1 ∷ getting "a" 2 ∷ setting "c" 3 3 ∷ [])
      empty (omega arith)

dropped_buffers_zeroed_example :
    Kept 1 "a" (run 2 300000 (setting "b" 2 1 ∷ setting "c" 3 3 ∷ clearing ∷ []) one)
unfolding map_get
dropped_buffers_zeroed_example =
    dropped_buffers_zeroed 2 300000 (setting "b" 2 1 ∷ setting "c" 3 3 ∷ clearing ∷ []) "a"
      (record { value = 1; expires_at = 300000 }) one refl
