-- ===== src/Kv/MemoryStore/Freshness.antt =====
-- `putIfFresher`: the write with the latest expiry wins, in whatever order the writes arrive.
use saas_foundation.Prelude.{
  ℕ, ◌<◌, String, ◌≡◌, true, false, Option, some, arith, eq_iff, ltb, get as map_get, get-set,
  get-set_self,
}
use saas_foundation.Kv.MemoryStore.{Value, Store, put_if_fresher, past, live, is_expired, expiry_of}

module _ {A : Type 0} (now : ℕ) (k : String) (s : Store A) where
  -- Two writes with different expiries, the later of them not yet past, leave the same entry at
  -- every key in either order of arrival.
  pub put_if_fresher_comm :
      (a b : ℕ) (v w : Value A) (i h : Option String) (j : String)
      → a < b
      → past now (some b) ≡ false
      → map_get (put_if_fresher now k w b h (put_if_fresher now k v a i s).0).0 j
        ≡ map_get (put_if_fresher now k v a i (put_if_fresher now k w b h s).0).0 j
  unfolding put_if_fresher live is_expired past
  put_if_fresher_comm a b v w i h j lt alive = grind (arith, get-set, eq_iff k j)

  -- A live entry with an expiry is only ever replaced by one that expires strictly later, and a
  -- refused write changes nothing.
  pub put_if_fresher_monotone :
      (a at : ℕ) (v : Value A) (i : Option String)
      → expiry_of (live now (map_get s k)) ≡ some at
      → ((put_if_fresher now k v a i s).1.applied ≡ ltb at a)
        × ((put_if_fresher now k v a i s).1.applied ≡ false → (put_if_fresher now k v a i s).0 ≡ s)
        × ((put_if_fresher now k v a i s).1.applied ≡ true
            → expiry_of (map_get (put_if_fresher now k v a i s).0 k) ≡ some a)
  unfolding put_if_fresher expiry_of
  put_if_fresher_monotone a at v i e = grind (arith, get-set_self)
