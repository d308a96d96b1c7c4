-- ===== src/Audit/Multi.antt =====
-- packages/foundation/src/audit/store.ts and multi-store.ts: the interface of a store of events, and
-- the store that writes to several others. The writes are independent of each other, since each has
-- its own store, so that the states after `Promise.allSettled` do not depend on their interleaving.
pub mod Accepts
use saas_foundation.Prelude.{
  ℕ, suc, ◌-◌, Option, none, some, List, [], ◌∷◌, ◌++◌, map, ltb, ◌==◌, if◌then◌else◌, length,
  or_else,
}

-- A store over a state `S`: `put` stands for the promise and gives the state after it, and the
-- reason when the promise is rejected.
pub record AuditStore (E S R : Type 0) : Type 0 where
  pub put : E → ℕ → S → S × Option R

pub data MultiAuditStoreMode : Type 0 where
  all_or_any all_stores : MultiAuditStoreMode

-- The error of one write, with the place of its store.
pub record StoreFailure (R : Type 0) : Type 0 where
  pub store_index : ℕ
  pub reason : R

-- The error of the whole write: how many of how many failed, and the first failure.
pub record MultiFailure (R : Type 0) : Type 0 where
  pub failed : ℕ
  pub total : ℕ
  pub cause : Option (StoreFailure R)

-- The stores' states and what the logger has been told, the oldest line first.
pub record MultiState (S R : Type 0) : Type 0 where
  pub stores : List S
  pub logged : List (StoreFailure R)

-- The constructor refuses an empty list of stores, and the mode is `all-or-any` unless one is given.
unfoldable pub create : {S R : Type 0} → List S → Option (MultiState S R)
create [] = none
create (s ∷ stores) = some (record { stores = s ∷ stores; logged = [] })

unfoldable pub mode_or_default : Option MultiAuditStoreMode → MultiAuditStoreMode
mode_or_default mode = or_else mode all_or_any

-- `failures`, of the results in the order of their stores from the place `idx`
unfoldable pub failures : {R : Type 0} → ℕ → List (Option R) → List (StoreFailure R)
failures idx [] = []
failures idx (none ∷ settled) = failures (suc idx) settled
failures idx (some r ∷ settled) =
    record { store_index = idx; reason = r } ∷ failures (suc idx) settled

abbrev pub first : {A : Type 0} → List A → Option A
first [] = none
first (x ∷ xs) = some x

-- What `put` throws, from its mode and the results.
unfoldable pub verdict :
    {R : Type 0}
    → MultiAuditStoreMode
    → List (Option R)
    → List (StoreFailure R)
    → Option (MultiFailure R)
verdict all_stores settled failed =
    if ltb 0 (length failed)
    then some (record { failed = length failed; total = length settled; cause = first failed })
    else none
verdict all_or_any settled failed =
    if length settled - length failed == 0
    then some (record { failed = length failed; total = length settled; cause = first failed })
    else none

module _ {E S R : Type 0} (store : AuditStore E S R) where
  -- The state of each store after its write, and the results.
  unfoldable pub written : E → ℕ → List S → List S
  written event seconds stores = map (λ s. (store.put event seconds s).0) stores

  unfoldable pub settle : E → ℕ → List S → List (Option R)
  settle event seconds stores = map (λ s. (store.put event seconds s).1) stores

  unfoldable pub put :
      MultiAuditStoreMode → E → ℕ → MultiState S R → MultiState S R × Option (MultiFailure R)
  unfolding written settle failures verdict
  put mode event seconds m =
      let settled = settle event seconds m.stores in
      let failed = failures 0 settled in
      (
        record { stores = written event seconds m.stores; logged = m.logged ++ failed },
        verdict mode settled failed,
      )

  -- A `MultiAuditStore` is a store too.
  unfoldable pub multi_store : MultiAuditStoreMode → AuditStore E (MultiState S R) (MultiFailure R)
  unfolding put
  multi_store mode = record { put = put mode }
