-- ===== src/Common/Sets.antt =====
-- Python sets of numbers as lists without repetition, membership by a test, and keys of dicts.
use verl_vla.Common.{
  ℕ, suc, ◌<◌, ◌≡◌, refl, sym, ◌∙◌, ap, Bool, true, false, ◌||◌, List, [], ◌∷◌, ◌++◌, arith, ◌==◌,
  if◌then◌else◌, lookup, has_key, keys, length, All, any, ℕ_discrete, Bool-cases, inl, inr,
}
use verl_vla.Common.Counting.{count_below, count_below-add, count_below-none, count_below-congr}

-- `x in xs`
abbrev pub member : ℕ → List ℕ → Bool
member x xs = any (λ y. y == x) xs

-- `set(xs)`: each number once.
unfoldable pub as_set : List ℕ → List ℕ
as_set [] = []
as_set (x ∷ xs) = let rest = as_set xs in if member x rest then rest else x ∷ rest

pub member-append : (x : ℕ) (xs ys : List ℕ) → member x (xs ++ ys) ≡ (member x xs || member x ys)
member-append x [] ys = refl
member-append x (y ∷ xs) ys = ground (arith, member-append x xs ys)

pub member-keys {ℓ} : {V : Type ℓ} (x : ℕ) (m : List (ℕ × V)) → member x (keys m) ≡ has_key x m
unfolding lookup
member-keys x [] = refl
member-keys x ((k, v) ∷ m) = ground (arith, member-keys x m)

pub member-as_set : (x : ℕ) (xs : List ℕ) → member x (as_set xs) ≡ member x xs
unfolding as_set
member-as_set x [] = refl
member-as_set x (y ∷ xs) = ground (arith, member-as_set x xs, member-as_set y xs)

pub All-of_member : (P : ℕ → Type 0) (xs : List ℕ) → ((x : ℕ) → member x xs ≡ true → P x) → All P xs
All-of_member P [] h = tt
All-of_member P (x ∷ xs) h = (h x (ground arith), All-of_member P xs (λ y e. h y (ground arith)))

pub member-of_All : (P : ℕ → Type 0) (xs : List ℕ) (x : ℕ) → All P xs → member x xs ≡ true → P x
member-of_All P [] x h e = cc
member-of_All P (y ∷ xs) x h e = elim (ℕ_discrete y x) [
  | yes same ↦ rw (← same) h.0
  | no other ↦ member-of_All P xs x h.1 (ground arith)
]

-- A set of numbers below `n` has as many elements as there are members below `n`.
pub length-as_set :
    (n : ℕ) (xs : List ℕ)
    → All (λ x. x < n) xs
    → length (as_set xs) ≡ count_below n (λ j. member j xs)
unfolding as_set
length-as_set n [] h = sym (count_below-none n (λ j. false) (λ j. refl))
length-as_set n (x ∷ xs) h = elim (Bool-cases (member x (as_set xs))) [
  | inl old ↦ rw old (
      length-as_set n xs h.1
      ∙ count_below-congr n (λ j. member j (x ∷ xs)) (λ j. member j xs)
          (λ j lt. ground (arith, member-as_set x xs, old)))
  | inr new ↦ rw new (
      ap suc (length-as_set n xs h.1)
      ∙ sym (
          count_below-add n x (λ j. member j xs) (λ j. member j (x ∷ xs)) h.0
            (ground (arith, member-as_set x xs, new)) (ground arith) (λ j ne. ground arith)))
]
