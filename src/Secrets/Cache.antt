-- ===== src/Secrets/Cache.antt =====
-- packages/foundation/src/secrets/cache.ts: an LRU cache whose entries expire, and which overwrites
-- the buffers that it drops. Buffers are shared with the callers: an entry holds the address of one,
-- and the bytes are in a heap.
pub mod Bounds
pub mod Buffers
pub mod Recency
use saas_foundation.Prelude.{
  ℕ, zero, suc, ◌+◌, String, Bool, true, false, Option, none, some, List, [], ◌∷◌, ltb, leb, ◌==◌,
  if◌then◌else◌, length, JsMap, get as map_get, set as map_set, delete as map_delete,
}

abbrev pub Heap : Type 0
Heap = ℕ → List ℕ

pub record Entry : Type 0 where
  pub value : ℕ
  pub expires_at : ℕ

pub record SecretCache : Type 0 where
  pub entries : JsMap Entry
  pub heap : Heap

abbrev zeros : List ℕ → List ℕ
zeros [] = []
zeros (x ∷ s) = 0 ∷ zeros s

-- `buffer.fill(0)`
unfoldable pub fill_zero : ℕ → Heap → Heap
fill_zero b h i = if i == b then zeros (h i) else h i

unfoldable pub new_cache : Heap → SecretCache
new_cache h = record { entries = []; heap = h }

unfoldable pub evict_key : String → SecretCache → SecretCache × Bool
unfolding fill_zero
evict_key key c = elim (map_get c.entries key) [
  | none ↦ (c, false)
  | some e ↦ (record { entries = map_delete c.entries key; heap = fill_zero e.value c.heap }, true)
]

-- The first key in the order of the map is the one that was not used for the longest time.
unfoldable pub evict_oldest : SecretCache → SecretCache
unfolding evict_key
evict_oldest c = elim c.entries [ [] ↦ c | (k, e) ∷ rest ↦ (evict_key k c).0 ]

unfoldable pub get : String → ℕ → SecretCache → SecretCache × Option ℕ
unfolding evict_key
get key now c = elim (map_get c.entries key) [
  | none ↦ (c, none)
  | some e ↦
      if leb e.expires_at now
      then ((evict_key key c).0, none)
      else (record c { entries = map_set (map_delete c.entries key) key e }, some e.value)
]

-- The entry that is replaced, if there is one, goes first.
unfoldable pub without : String → SecretCache → SecretCache
unfolding fill_zero
without key c = elim (map_get c.entries key) [
  | none ↦ c
  | some e ↦ record { entries = map_delete c.entries key; heap = fill_zero e.value c.heap }
]

unfoldable pub invalidate : String → SecretCache → SecretCache × Bool
unfolding evict_key
invalidate key c = evict_key key c

unfoldable pub fill_all : JsMap Entry → Heap → Heap
unfolding fill_zero
fill_all [] h = h
fill_all ((k, e) ∷ rest) h = fill_all rest (fill_zero e.value h)

unfoldable pub clear : SecretCache → SecretCache
unfolding fill_all
clear c = record { entries = []; heap = fill_all c.entries c.heap }

-- `maxEntries`, and `ttlSeconds` in milliseconds
module _ (max_entries : ℕ) (ttl_ms : ℕ) where
  -- The loop: a turn for each entry is enough, since each turn takes one away.
  unfoldable pub evict_loop : ℕ → SecretCache → SecretCache
  evict_loop zero c = c
  evict_loop (suc n) c =
      let more = evict_loop n (evict_oldest c) in
      if ltb max_entries (length c.entries) then more else c

  unfoldable pub evict_overflow : SecretCache → SecretCache
  evict_overflow c = evict_loop (length c.entries) c

  unfoldable pub set : String → ℕ → ℕ → SecretCache → SecretCache
  unfolding without
  set key value now c =
      let free = without key c in
      evict_overflow (record free {
        entries = map_set free.entries key (record { value = value; expires_at = now + ttl_ms });
      })
