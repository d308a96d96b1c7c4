-- ===== src/Kv/MemoryStore/Locks.antt =====
-- `putIfAbsent` as a single-fire lock, and `compareAndSet` as an optimistic write.
use saas_foundation.Prelude.{ℕ, String, ◌≡◌, true, false, arith, get-set_self}
use saas_foundation.Kv.MemoryStore.{
  Value, KvWriteOptions, Store, put_if_absent, compare_and_set, past, resolve_expiry, live,
  is_expired,
}

module _ {A : Type 0} (now : ℕ) (k : String) (v : Value A) (o : KvWriteOptions) (s : Store A) where
  -- A lock that was taken is refused to every later caller, who is shown the holder's record and
  -- changes nothing, until its expiry has passed; then the next caller takes it.
  pub put_if_absent_single_fire :
      (later : ℕ) (w : Value A) (p : KvWriteOptions)
      → (put_if_absent now k v o s).1.applied ≡ true
      → ((put_if_absent later k w p (put_if_absent now k v o s).0).1.applied
          ≡ past later (resolve_expiry now o))
        × (past later (resolve_expiry now o) ≡ false
            → put_if_absent later k w p (put_if_absent now k v o s).0 ≡ (
              (put_if_absent now k v o s).0,
              record { applied = false; found = (put_if_absent now k v o s).1.found },
            ))
  unfolding put_if_absent live is_expired
  put_if_absent_single_fire later w p h = grind (arith, get-set_self)

  -- Of two writers that read the same version one wins: the second is refused while the first
  -- one's record lives, leaves the store as it was, and is shown that record.
  pub compare_and_set_once :
      (later expected : ℕ) (w : Value A) (p : KvWriteOptions)
      → (compare_and_set now k expected v o s).1.applied ≡ true
      → past later (resolve_expiry now o) ≡ false
      → compare_and_set later k expected w p (compare_and_set now k expected v o s).0 ≡ (
        (compare_and_set now k expected v o s).0,
        record { applied = false; found = (compare_and_set now k expected v o s).1.found },
      )
  unfolding compare_and_set live is_expired
  compare_and_set_once later n w p h alive = grind (arith, get-set_self)
