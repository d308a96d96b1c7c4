-- ===== src/Secrets/Cache/Bounds.antt =====
-- The cache holds no more entries than it may, one for each key.
use saas_foundation.Prelude.{
  ℕ, zero, suc, ◌+◌, ◌≤◌, ◌<◌, String, ◌≡◌, inl, inr, true, some, List, [], ◌∷◌, arith, eq_refl,
  ltb, leb, Bool-cases, Option-cases, length, JsMap, get as map_get, delete as map_delete,
  length-set, length-delete,
}
use saas_foundation.Secrets.Cache.{
  Heap, Entry, SecretCache, evict_key, evict_oldest, evict_loop, evict_overflow, get, set,
  invalidate, clear,
}

pub length-delete_present :
    (m : JsMap Entry) (k : String) (e : Entry)
    → map_get m k ≡ some e
    → length (map_delete m k) + 1 ≤ length m
unfolding map_get map_delete
length-delete_present [] k e h = cc
length-delete_present ((j, v) ∷ m) k e h =
    ground (arith, length-delete m k, length-delete_present m k e)

-- Taking a key away makes the map smaller, if the key is there.
length-evict_key :
    (key : String) (c : SecretCache)
    → (length (evict_key key c).0.entries ≤ length c.entries)
      × ((evict_key key c).1 ≡ true → length (evict_key key c).0.entries + 1 ≤ length c.entries)
unfolding evict_key
length-evict_key key c = elim (Option-cases (map_get c.entries key)) [
  | inl missing ↦ rw (missing, evict_key) (omega arith, λ h. cc)
  | inr (e, found) ↦
      let less = length-delete_present c.entries key e found in
      rw (found, evict_key) (omega (arith, less), λ h. less)
]

evicted-present :
    (key : String) (e : Entry) (c : SecretCache)
    → map_get c.entries key ≡ some e
    → (evict_key key c).1 ≡ true
unfolding evict_key
evicted-present key e c found = rw (found, evict_key)

pub get-first : (k : String) (e : Entry) (rest : JsMap Entry) → map_get ((k, e) ∷ rest) k ≡ some e
unfolding map_get
get-first k e rest = ground (arith, eq_refl k)

length-evict_oldest :
    (m : JsMap Entry) (h : Heap)
    → 0 < length m
    → length (evict_oldest (record { entries = m; heap = h })).entries + 1 ≤ length m
unfolding evict_oldest
length-evict_oldest [] h some_entry = absurd (omega (arith, some_entry))
length-evict_oldest ((k, e) ∷ rest) h some_entry =
    let c : SecretCache = record { entries = (k, e) ∷ rest; heap = h } in
    (length-evict_key k c).1 (evicted-present k e c (get-first k e rest))

-- What a call does; the calls of all requests in their order.
pub data Call : Type 0 where
  getting : String → ℕ → Call
  setting : String → ℕ → ℕ → Call
  invalidating : String → Call
  clearing : Call

module _ (max_entries : ℕ) (ttl_ms : ℕ) where
  unfoldable pub apply : Call → SecretCache → SecretCache
  apply (getting key now) c = (get key now c).0
  apply (setting key value now) c = set max_entries ttl_ms key value now c
  apply (invalidating key) c = (invalidate key c).0
  apply clearing c = clear c

  unfoldable pub run : List Call → SecretCache → SecretCache
  run [] c = c
  run (call ∷ more) c = run more (apply call c)

  evict_loop_bounded :
      (n : ℕ) (c : SecretCache)
      → length c.entries ≤ max_entries + n
      → length (evict_loop max_entries ttl_ms n c).entries ≤ max_entries
  unfolding evict_loop
  evict_loop_bounded zero c h = omega arith
  evict_loop_bounded (suc n) c h = elim (Bool-cases (ltb max_entries (length c.entries))) [
    | inl over ↦
        let less = length-evict_oldest c.entries c.heap (ground (arith, over)) in
        rw over (evict_loop_bounded n (evict_oldest c) (omega (arith, less, h)))
    | inr fits ↦ rw fits (ground (arith, fits))
  ]

  -- A store ends within the bound, whatever was there before.
  set_bounded :
      (key : String) (value now : ℕ) (c : SecretCache)
      → length (set max_entries ttl_ms key value now c).entries ≤ max_entries
  unfolding set evict_overflow
  set_bounded key value now c = evict_loop_bounded _ _ (omega arith)

  get_bounded :
      (key : String) (now : ℕ) (c : SecretCache)
      → length (get key now c).0.entries ≤ length c.entries
  unfolding get
  get_bounded key now c = elim (Option-cases (map_get c.entries key)) [
    | inl missing ↦ rw (missing, get) (omega arith)
    | inr (e, found) ↦ elim (Bool-cases (leb e.expires_at now)) [
      | inl late ↦ rw (found, get, late) (length-evict_key key c).0
      | inr live ↦
          rw (found, get, live)
            (omega (
              arith,
              length-delete_present c.entries key e found,
              length-set (map_delete c.entries key) key e,
            ))
    ]
  ]

  apply_bounded :
      (call : Call) (c : SecretCache)
      → length c.entries ≤ max_entries
      → length (apply call c).entries ≤ max_entries
  unfolding apply invalidate clear
  apply_bounded (getting key now) c h = omega (arith, get_bounded key now c)
  apply_bounded (setting key value now) c h = set_bounded key value now c
  apply_bounded (invalidating key) c h = omega (arith, (length-evict_key key c).0)
  apply_bounded clearing c h = omega arith

  -- From a cache within its maximum, and so from an empty one, after any calls there are no more entries than the maximum.
  pub run_bounded :
      (calls : List Call) (c : SecretCache)
      → length c.entries ≤ max_entries
      → length (run calls c).entries ≤ max_entries
  unfolding run
  run_bounded [] c h = h
  run_bounded (call ∷ more) c h = run_bounded more (apply call c) (apply_bounded call c h)
