-- ===== src/Audit/Multi/Accepts.antt =====
-- When a write to several stores, packages/foundation/src/audit/multi-store.ts, is accepted.
use saas_foundation.Prelude.{
  ℕ, suc, ◌-◌, ◌≤◌, ◌≡◌, ◌↔◌, refl, Bool, true, false, not, Option, none, some, List, [], ◌∷◌, ◌++◌,
  map, arith, ltb, ◌==◌, if◌then◌else◌, length, any, all,
}
use saas_foundation.Audit.Multi.{
  AuditStore, MultiAuditStoreMode, all_or_any, all_stores, MultiState, failures, verdict, written,
  settle, put,
}

-- The writes that the mode asks for.
abbrev pub enough : MultiAuditStoreMode → List Bool → Bool
enough all_stores results = all (λ ok. ok) results
enough all_or_any results = any (λ ok. ok) results

-- A write succeeds when it is not rejected.
abbrev pub resolved : {R : Type 0} → Option R → Bool
resolved none = true
resolved (some r) = false

none_failed :
    {R : Type 0}
    → (idx : ℕ) (settled : List (Option R))
    → ltb 0 (length (failures idx settled)) ≡ not (all (λ ok. ok) (map resolved settled))
unfolding failures
none_failed idx [] = refl
none_failed idx (none ∷ settled) = none_failed (suc idx) settled
none_failed idx (some r ∷ settled) = ground arith

failures_bound :
    {R : Type 0}
    → (idx : ℕ) (settled : List (Option R)) → length (failures idx settled) ≤ length settled
unfolding failures
failures_bound idx [] = omega arith
failures_bound idx (none ∷ settled) = omega (arith, failures_bound (suc idx) settled)
failures_bound idx (some r ∷ settled) = omega (arith, failures_bound (suc idx) settled)

every_failed :
    {R : Type 0}
    → (idx : ℕ) (settled : List (Option R))
    → (length settled - length (failures idx settled) == 0)
      ≡ not (any (λ ok. ok) (map resolved settled))
unfolding failures
every_failed idx [] = refl
every_failed idx (none ∷ settled) = ground (arith, failures_bound (suc idx) settled)
every_failed idx (some r ∷ settled) =
    let shorter : suc (length settled) - suc (length (failures (suc idx) settled))
        ≡ length settled - length (failures (suc idx) settled) =
      omega arith in
    rw shorter (every_failed (suc idx) settled)

none_if_not :
    {A : Type 0} → (b : Bool) (a : A) → ((if not b then some a else none) ≡ none) ↔ (b ≡ true)
none_if_not true a = (λ _. refl, λ _. refl)
none_if_not false a = (λ h. absurd (cc h), λ h. absurd (cc h))

verdict_iff :
    {R : Type 0}
    → (mode : MultiAuditStoreMode) (settled : List (Option R))
    → (verdict mode settled (failures 0 settled) ≡ none)
      ↔ (enough mode (map resolved settled) ≡ true)
unfolding verdict
verdict_iff all_stores settled =
    rw (none_failed 0 settled) (none_if_not (all (λ ok. ok) (map resolved settled)) _)
verdict_iff all_or_any settled =
    rw (every_failed 0 settled) (none_if_not (any (λ ok. ok) (map resolved settled)) _)

-- Whatever the mode and the failures, every store is asked to write the event, and every failed
-- write, and no other, is logged; the caller sees no error exactly when, with the mode
-- `all-or-any`, one of the writes succeeds, and with the mode `all`, each of them does.
pub put_accepts_iff :
    {E S R : Type 0}
    → (store : AuditStore E S R) (mode : MultiAuditStoreMode) (event : E) (seconds : ℕ)
      (m : MultiState S R)
    → ((put store mode event seconds m).0.stores
        ≡ map (λ s. (store.put event seconds s).0) m.stores)
      × ((put store mode event seconds m).0.logged
          ≡ m.logged ++ failures 0 (settle store event seconds m.stores))
      × (((put store mode event seconds m).1 ≡ none)
          ↔ (enough mode (map resolved (settle store event seconds m.stores)) ≡ true))
unfolding put written
put_accepts_iff store mode event seconds m =
    (refl, refl, verdict_iff mode (settle store event seconds m.stores))
