-- ===== src/Common/Maps.antt =====
-- Python dicts and directories with number keys: association lists with one entry for each key.
use Prim.Native.Nat.{ℕ}
use mathlib.Core.Path.{◌≡◌, refl}
use mathlib.Core.Bool.{Bool}
use mathlib.Core.List.{List, [], ◌∷◌, map}
use mathlib.Core.Option.{Option, none, some}
use native.Mathlib.Omega.{arith}
use verl_vla.Common.Tests.{◌==◌, if◌then◌else◌, is_some}

module _ {ℓ} {V : Type ℓ} where
  unfoldable pub lookup : ℕ → List (ℕ × V) → Option V
  lookup key [] = none
  lookup key ((first, value) ∷ more) = if first == key then some value else lookup key more

  -- An overwrite keeps the position, as in a Python dict.
  unfoldable pub insert : ℕ → V → List (ℕ × V) → List (ℕ × V)
  insert key value [] = (key, value) ∷ []
  insert key value ((first, old) ∷ more) =
      if first == key then (key, value) ∷ more else (first, old) ∷ insert key value more

  unfoldable pub remove : ℕ → List (ℕ × V) → List (ℕ × V)
  remove k [] = []
  remove k ((j, w) ∷ m) = let rest = remove k m in if j == k then rest else (j, w) ∷ rest

  abbrev pub keys : List (ℕ × V) → List ℕ
  keys m = map (λ e. e.0) m

  pub lookup-insert :
      (key other : ℕ) (value : V) (more : List (ℕ × V))
      → lookup other (insert key value more)
        ≡ (if key == other then some value else lookup other more)
  unfolding lookup insert
  lookup-insert key other value [] = refl
  lookup-insert key other value ((first, old) ∷ more) =
      ground (arith, lookup-insert key other value more)

  pub lookup-remove :
      (k j : ℕ) (m : List (ℕ × V)) → lookup j (remove k m) ≡ (if k == j then none else lookup j m)
  unfolding lookup remove
  lookup-remove k j [] = ground arith
  lookup-remove k j ((i, w) ∷ m) = ground (arith, lookup-remove k j m)

  abbrev pub has_key : ℕ → List (ℕ × V) → Bool
  has_key k m = is_some (lookup k m)
