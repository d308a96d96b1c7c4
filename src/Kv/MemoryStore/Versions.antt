-- ===== src/Kv/MemoryStore/Versions.antt =====
-- The versions that the writes of `MemoryKvStore` give, as a token of the row's holder.
use saas_foundation.Prelude.{
  ℕ, suc, ◌+◌, ◌≤◌, ◌<◌, String, ◌≡◌, ◌≢◌, inl, inr, Bool, true, false, some, List, [], ◌∷◌, arith,
  str_eq, eq_iff, if◌then◌else◌, Bool-cases, is_some, get as map_get, get-set_self, get-set_ne,
}
use saas_foundation.Prelude.Int.{ℤ}
use saas_foundation.Kv.MemoryStore.{
  Value, KvWriteOptions, Store, version_of, put, put_if_absent, is_expired, MemoryEntry,
  compare_and_set, delete, guard_fails, increment, live,
}

-- The writes that keep a key's versions in order: those of `put`, `putIfAbsent`, `increment`, and
-- of `compareAndSet` with a positive version.
pub data Write (A : Type 0) : Type 0 where
  put_value absent : Value A → KvWriteOptions → Write A
  swap : ℕ → Value A → KvWriteOptions → Write A
  add : String → ℤ → KvWriteOptions → Write A

module _ {A : Type 0} (number : A → ℤ) (of_number : ℤ → A) where
  -- A write at a clock reading and a key: the store after it, and whether it wrote.
  unfoldable pub perform : ℕ → String → Write A → Store A → Store A × Bool
  perform now k (put_value v o) s = ((put now k v o s).0, true)
  perform now k (absent v o) s = let r = put_if_absent now k v o s in (r.0, r.1.applied)
  perform now k (swap n v o) s = let r = compare_and_set now k (suc n) v o s in (r.0, r.1.applied)
  perform now k (add field delta o) s =
      let r = increment number of_number now k field delta o s in (r.0, is_some r.1)

  -- A write changes its own key only. There, one that was applied adds one to the version, and one
  -- that was not leaves the store as it was.
  pub perform_version :
      (now : ℕ) (k : String) (w : Write A) (s : Store A)
      → (version_of (map_get (perform now k w s).0 k)
          ≡ version_of (map_get s k) + (if (perform now k w s).1 then 1 else 0))
        × ((perform now k w s).1 ≡ false → (perform now k w s).0 ≡ s)
        × ((j : String) → k ≢ j → map_get (perform now k w s).0 j ≡ map_get s j)
  unfolding perform put put_if_absent compare_and_set increment live
  perform_version now k (put_value v o) s =
      (grind (arith, get-set_self), (λ h. cc), λ j h. get-set_ne s k j _ h)
  perform_version now k (absent v o) s =
      (grind (arith, get-set_self), grind arith, λ j h. grind (arith, get-set_ne))
  perform_version now k (swap n v o) s =
      (grind (arith, get-set_self), grind arith, λ j h. grind (arith, get-set_ne))
  perform_version now k (add field delta o) s =
      (grind (arith, get-set_self), grind arith, λ j h. grind (arith, get-set_ne))

  -- Writes at clock readings and keys, in turn.
  unfoldable pub run : List (ℕ × String × Write A) → Store A → Store A
  run [] s = s
  run ((now, k, w) ∷ ws) s = run ws (perform now k w s).0

  pub perform-version-le :
      (now : ℕ) (j k : String) (w : Write A) (s : Store A)
      → version_of (map_get s k) ≤ version_of (map_get (perform now j w s).0 k)
  perform-version-le now j k w s = elim (Bool-cases (str_eq j k)) [
    | inl same ↦ let e = (eq_iff j k).0 same in rw e (grind (arith, (perform_version now k w s).0))
    | inr other ↦
        let h : j ≢ k = λ e. grind (arith, (eq_iff j k).1 e) in
        rw ((perform_version now j w s).2 k h) (omega arith)
  ]

  pub run-version-le :
      (ws : List (ℕ × String × Write A)) (k : String) (s : Store A)
      → version_of (map_get s k) ≤ version_of (map_get (run ws s) k)
  unfolding run
  run-version-le [] k s = omega arith
  run-version-le ((now, j, w) ∷ ws) k s =
      omega (arith, perform-version-le now j k w s, run-version-le ws k (perform now j w s).0)

  pub delete_stale :
      (k : String) (n : ℕ) (s : Store A)
      → n < version_of (map_get s k)
      → delete k (some n) s ≡ (s, false)
  unfolding delete version_of
  delete_stale k n s h = grind arith

  -- Once a `put`, a `putIfAbsent`, a `compareAndSet` with a version above 0 or an `increment` has been
  -- applied to a key, and whatever other calls of these follow, on all keys, a delete guarded by the
  -- version that was there before removes nothing. `compareAndSet` with version 0, `putIfFresher` and
  -- other deletes are not among these calls.
  pub stale_holder_cannot_delete :
      (k : String) (s : Store A) (now : ℕ) (w : Write A) (ws : List (ℕ × String × Write A))
      → (perform now k w s).1 ≡ true
      → delete k (some (version_of (map_get s k))) (run ws (perform now k w s).0)
        ≡ (run ws (perform now k w s).0, false)
  stale_holder_cannot_delete k s now w ws h =
      delete_stale k _ _
        (grind (arith, (perform_version now k w s).0, run-version-le ws k (perform now k w s).0))

-- The exception: where `compareAndSet` with version 0 takes over an expired row of version 1, the
-- new row has version 1 again, and a delete guarded by the old row's version removes it.
pub create_over_expired_keeps_token :
    {A : Type 0} (k : String) (s : Store A) (e : MemoryEntry A) (now : ℕ) (v : Value A)
    (o : KvWriteOptions)
    → map_get s k ≡ some e
    → e.version ≡ 1
    → is_expired now e ≡ true
    → (delete k (some e.version) (compare_and_set now k 0 v o s).0).1 ≡ true
unfolding delete compare_and_set live guard_fails
create_over_expired_keeps_token k s e now v o row one late = grind (arith, get-set_self)
