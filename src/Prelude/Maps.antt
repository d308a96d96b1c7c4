-- ===== src/Prelude/Maps.antt =====
-- The language's `Map` with text keys: entries in the order of insertion. `set` overwrites in
-- place where the key is present and appends where it is not; `delete` removes the entry.
use Prim.Native.Nat.{◌+◌, ◌≤◌}
use Prim.Native.String.{String}
use mathlib.Core.Path.{◌≡◌, refl}
use mathlib.Core.Option.{Option, none, some}
use mathlib.Core.List.{List, [], ◌∷◌}
use native.Mathlib.Omega.{arith}
use text.Mathlib.Text.{◌==◌}
use text.Mathlib.TextEquality.{eq_iff}
use text.Mathlib.TextPositions.{eq_refl}
use mathlib.Core.Logic.{◌≢◌}
use saas_foundation.Prelude.Tests.{if◌then◌else◌}
use saas_foundation.Prelude.Lists.{length}

abbrev pub JsMap {ℓ} : Type ℓ → Type ℓ
JsMap V = List (String × V)

module _ {ℓ} {V : Type ℓ} where
  unfoldable pub get : JsMap V → String → Option V
  get [] k = none
  get ((j, v) ∷ m) k = if j == k then some v else get m k

  unfoldable pub set : JsMap V → String → V → JsMap V
  set [] k v = (k, v) ∷ []
  set ((j, w) ∷ m) k v = let rest = set m k v in if j == k then (j, v) ∷ m else (j, w) ∷ rest

  unfoldable pub delete : JsMap V → String → JsMap V
  delete [] k = []
  delete ((j, w) ∷ m) k = let rest = delete m k in if j == k then rest else (j, w) ∷ rest

  pub get-set :
      (m : JsMap V) (k j : String) (v : V)
      → get (set m k v) j ≡ (if k == j then some v else get m j)
  unfolding get set
  get-set [] k j v = refl
  get-set ((i, w) ∷ m) k j v = ground (arith, eq_iff k j, eq_iff i k, eq_iff i j, get-set m k j v)

  pub get-delete :
      (m : JsMap V) (k j : String) → get (delete m k) j ≡ (if k == j then none else get m j)
  unfolding get delete
  get-delete [] k j = ground arith
  get-delete ((i, w) ∷ m) k j = ground (arith, eq_iff i k, eq_iff i j, eq_iff k j, get-delete m k j)

  pub get-set_self : (m : JsMap V) (k : String) (v : V) → get (set m k v) k ≡ some v
  get-set_self m k v = simp (get-set, eq_refl)

  pub get-set_ne : (m : JsMap V) (k j : String) (v : V) → k ≢ j → get (set m k v) j ≡ get m j
  get-set_ne m k j v h = ground (arith, get-set m k j v, eq_iff k j)

  pub length-set : (m : JsMap V) (k : String) (v : V) → length (set m k v) ≤ length m + 1
  unfolding set
  length-set [] k v = omega arith
  length-set ((i, w) ∷ m) k v = ground (arith, length-set m k v)

  pub length-delete : (m : JsMap V) (k : String) → length (delete m k) ≤ length m
  unfolding delete
  length-delete [] k = omega arith
  length-delete ((i, w) ∷ m) k = ground (arith, length-delete m k)

  -- No key stands twice.
  abbrev pub IsMap : JsMap V → Type ℓ
  IsMap [] = Unit
  IsMap ((k, v) ∷ m) = (get m k ≡ none) × IsMap m

  pub set-IsMap : (m : JsMap V) (k : String) (v : V) → IsMap m → IsMap (set m k v)
  unfolding set get
  set-IsMap [] k v h = (refl, tt)
  set-IsMap ((i, w) ∷ m) k v (absent, h) =
      ground (arith, get-set m k i v, eq_iff i k, eq_iff k i, set-IsMap m k v h)

  pub delete-IsMap : (m : JsMap V) (k : String) → IsMap m → IsMap (delete m k)
  unfolding delete
  delete-IsMap [] k h = tt
  delete-IsMap ((i, w) ∷ m) k (absent, h) =
      ground (arith, get-delete m k i, eq_iff i k, eq_iff k i, delete-IsMap m k h)

pub ruleset map_laws = (get-set, get-delete)
