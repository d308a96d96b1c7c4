-- ===== src/Secrets/Cache/Buffers.antt =====
-- What the cache does to the buffers: those that it drops are overwritten, and a buffer that was
-- stored is given back with its bytes.
use saas_foundation.Prelude.{
  ℕ, zero, suc, ◌+◌, String, ◌≡◌, refl, sym, ap, ◌∙◌, ◌≢◌, ◌⊎◌, inl, inr, true, none, some, List,
  [], ◌∷◌, arith, str_eq, eq_iff, eq_refl, ltb, leb, ◌==◌, Bool-cases, Option-cases, length, All,
  JsMap, get as map_get, set as map_set, delete as map_delete, get-set, get-set_ne, get-delete,
}
use saas_foundation.Secrets.Cache.{
  Heap, Entry, SecretCache, zeros, fill_zero, evict_key, evict_oldest, evict_loop, evict_overflow,
  get, without, set, invalidate, fill_all, clear,
}
use saas_foundation.Secrets.Cache.Bounds.{
  Call, getting, setting, invalidating, clearing, apply, run,
}

-- All bytes are 0.
abbrev pub IsZero : List ℕ → Type 0
IsZero = All (λ x. x ≡ 0)

zeros-IsZero : (s : List ℕ) → IsZero (zeros s)
zeros-IsZero [] = tt
zeros-IsZero (x ∷ s) = (refl, zeros-IsZero s)

fill_zero-IsZero : (b : ℕ) (h : Heap) → IsZero (fill_zero b h b)
unfolding fill_zero
fill_zero-IsZero b h = let same : b == b ≡ true = ground arith in rw same (zeros-IsZero (h b))

-- What is 0 stays 0.
fill_zero_keeps : (b i : ℕ) (h : Heap) → IsZero (h i) → IsZero (fill_zero b h i)
unfolding fill_zero
fill_zero_keeps b i h zero_there = elim (Bool-cases (i == b)) [
  | inl here ↦ rw here (zeros-IsZero (h i))
  | inr there ↦ rw there zero_there
]

-- An entry is still there, with its buffer, or its buffer has been overwritten.
abbrev pub Kept : ℕ → String → SecretCache → Type 0
Kept b key c = ((e : Entry) × (map_get c.entries key ≡ some e) × (e.value ≡ b)) ⊎ IsZero (c.heap b)

same_buffer :
    (j key : String) (b : ℕ) (old e : Entry) (c : SecretCache)
    → j ≡ key
    → map_get c.entries key ≡ some old
    → old.value ≡ b
    → map_get c.entries j ≡ some e
    → e.value ≡ b
same_buffer j key b old e c here there same found =
    let again : some e ≡ some old = sym found ∙ ap (map_get c.entries) here ∙ there in
    ground (arith, again, same)

evict_key-Kept :
    (j key : String) (b : ℕ) (c : SecretCache) → Kept b key c → Kept b key (evict_key j c).0
unfolding evict_key
evict_key-Kept j key b c (inr gone) = elim (Option-cases (map_get c.entries j)) [
  | inl missing ↦ rw (missing, evict_key) (inr gone)
  | inr (e, found) ↦ rw (found, evict_key) (inr (fill_zero_keeps e.value b c.heap gone))
]
evict_key-Kept j key b c (inl (old, there, same)) = elim (Option-cases (map_get c.entries j)) [
  | inl missing ↦ rw (missing, evict_key) (inl (old, there, same))
  | inr (e, found) ↦ elim (Bool-cases (str_eq j key)) [
    | inl here ↦
        rw (found, evict_key)
          (inr (
            rw (← same_buffer j key b old e c ((eq_iff j key).0 here) there same found)
              (fill_zero-IsZero e.value c.heap)))
    | inr other ↦
        rw (found, evict_key)
          (inl (old, ground (arith, get-delete c.entries j key, there, other), same))
  ]
]

evict_oldest-Kept :
    (key : String) (b : ℕ) (m : JsMap Entry) (h : Heap)
    → Kept b key (record { entries = m; heap = h })
    → Kept b key (evict_oldest (record { entries = m; heap = h }))
unfolding evict_oldest
evict_oldest-Kept key b [] h kept = kept
evict_oldest-Kept key b ((k, e) ∷ rest) h kept =
    evict_key-Kept k key b (record { entries = (k, e) ∷ rest; heap = h }) kept

fill_all_keeps : (i : ℕ) (m : JsMap Entry) (h : Heap) → IsZero (h i) → IsZero (fill_all m h i)
unfolding fill_all
fill_all_keeps i [] h z = z
fill_all_keeps i ((k, e) ∷ rest) h z =
    fill_all_keeps i rest (fill_zero e.value h) (fill_zero_keeps e.value i h z)

fill_all-IsZero :
    (key : String) (e : Entry) (m : JsMap Entry) (h : Heap)
    → map_get m key ≡ some e
    → IsZero (fill_all m h e.value)
unfolding fill_all map_get
fill_all-IsZero key e [] h found = cc
fill_all-IsZero key e ((k, v) ∷ rest) h found = elim (Bool-cases (str_eq k key)) [
  | inl here ↦
      let same : v ≡ e = ground (arith, found, here) in
      fill_all_keeps e.value rest (fill_zero v.value h) (rw (← same) (fill_zero-IsZero v.value h))
  | inr other ↦ fill_all-IsZero key e rest (fill_zero v.value h) (ground (arith, found, other))
]

clear-Kept : (key : String) (b : ℕ) (c : SecretCache) → Kept b key c → Kept b key (clear c)
unfolding clear
clear-Kept key b c (inr gone) = inr (fill_all_keeps b c.entries c.heap gone)
clear-Kept key b c (inl (e, there, same)) =
    inr (rw (← same) (fill_all-IsZero key e c.entries c.heap there))

get-Kept :
    (j key : String) (now b : ℕ) (c : SecretCache) → Kept b key c → Kept b key (get j now c).0
unfolding get
get-Kept j key now b c kept = elim (Option-cases (map_get c.entries j)) [
  | inl missing ↦ rw (missing, get) kept
  | inr (e, found) ↦ elim (Bool-cases (leb e.expires_at now)) [
    | inl late ↦ rw (found, get, late) (evict_key-Kept j key b c kept)
    | inr live ↦ rw (found, get, live) (touched e found kept)
  ]
]
  where
    touched :
        (e : Entry)
        → map_get c.entries j ≡ some e
        → Kept b key c
        → Kept b key (record c { entries = map_set (map_delete c.entries j) j e })
    touched e found (inr gone) = inr gone
    touched e found (inl (old, there, same)) = inl (
      old,
      ground (
        arith,
        get-set (map_delete c.entries j) j key e,
        get-delete c.entries j key,
        eq_iff j key,
        ap (map_get c.entries),
        found,
        there,
      ),
      same,
    )

-- The entry of the key is gone, and its buffer is overwritten.
without_evicts : (j : String) (c : SecretCache) → without j c ≡ (evict_key j c).0
unfolding without evict_key
without_evicts j c = elim (Option-cases (map_get c.entries j)) [
  | inl missing ↦ rw (missing, without, evict_key)
  | inr (e, found) ↦ rw (found, without, evict_key)
]

without-Kept : (j key : String) (b : ℕ) (c : SecretCache) → Kept b key c → Kept b key (without j c)
without-Kept j key b c kept = rw (without_evicts j c) (evict_key-Kept j key b c kept)

pub without-none : (j : String) (c : SecretCache) → map_get (without j c).entries j ≡ none
unfolding without
without-none j c = elim (Option-cases (map_get c.entries j)) [
  | inl missing ↦ rw (missing, without) missing
  | inr (e, found) ↦ rw (found, without) (ground (arith, get-delete c.entries j j, eq_refl j))
]

module _ (max_entries : ℕ) (ttl_ms : ℕ) where
  evict_loop-Kept :
      (n : ℕ) (key : String) (b : ℕ) (c : SecretCache)
      → Kept b key c
      → Kept b key (evict_loop max_entries ttl_ms n c)
  unfolding evict_loop
  evict_loop-Kept zero key b c kept = kept
  evict_loop-Kept (suc n) key b c kept = elim (Bool-cases (ltb max_entries (length c.entries))) [
    | inl over ↦
        rw over
          (evict_loop-Kept n key b (evict_oldest c) (evict_oldest-Kept key b c.entries c.heap kept))
    | inr fits ↦ rw fits kept
  ]

  stored-Kept :
      (j key : String) (b : ℕ) (e : Entry) (c : SecretCache)
      → map_get c.entries j ≡ none
      → Kept b key c
      → Kept b key (record c { entries = map_set c.entries j e })
  stored-Kept j key b e c free (inr gone) = inr gone
  stored-Kept j key b e c free (inl (old, there, same)) =
      let ne : j ≢ key = λ q. cc (sym free ∙ ap (map_get c.entries) q ∙ there) in
      inl (old, get-set_ne c.entries j key e ne ∙ there, same)

  apply-Kept :
      (call : Call) (key : String) (b : ℕ) (c : SecretCache)
      → Kept b key c
      → Kept b key (apply max_entries ttl_ms call c)
  unfolding apply set evict_overflow invalidate
  apply-Kept (getting j now) key b c kept = get-Kept j key now b c kept
  apply-Kept (setting j value now) key b c kept = evict_loop-Kept _ key b _ (
      stored-Kept j key b (record { value = value; expires_at = now + ttl_ms }) (without j c)
        (without-none j c) (without-Kept j key b c kept))
  apply-Kept (invalidating j) key b c kept = evict_key-Kept j key b c kept
  apply-Kept clearing key b c kept = clear-Kept key b c kept

  run-Kept :
      (calls : List Call) (key : String) (b : ℕ) (c : SecretCache)
      → Kept b key c
      → Kept b key (run max_entries ttl_ms calls c)
  unfolding run
  run-Kept [] key b c kept = kept
  run-Kept (call ∷ more) key b c kept =
      run-Kept more key b (apply max_entries ttl_ms call c) (apply-Kept call key b c kept)

  -- Whatever is called after it, a buffer that was stored for a key is still the key's, or all its
  -- bytes have been overwritten: none leaves the cache, by expiry, eviction, replacement,
  -- invalidation or clearing, with its secret in it.
  pub dropped_buffers_zeroed :
      (calls : List Call) (key : String) (e : Entry) (c : SecretCache)
      → map_get c.entries key ≡ some e
      → Kept e.value key (run max_entries ttl_ms calls c)
  dropped_buffers_zeroed calls key e c there = run-Kept calls key e.value c (inl (e, there, refl))
