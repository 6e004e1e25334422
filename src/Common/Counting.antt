-- ===== src/Common/Counting.antt =====
-- How many numbers below a bound pass a test, and how that count grows by one.
use verl_vla.Common.{
  ℕ, zero, suc, ◌+◌, ◌≤◌, ◌<◌, ◌≡◌, ◌≢◌, refl, ap, Bool, true, false, none, List, [], ◌∷◌, arith,
  insert, lookup, length, ℕ_discrete,
}

abbrev pub bit : Bool → ℕ
bit true = 1
bit false = 0

unfoldable pub count_below : ℕ → (ℕ → Bool) → ℕ
count_below zero p = 0
count_below (suc n) p = bit (p n) + count_below n p

pub count_below-le : (n : ℕ) (p : ℕ → Bool) → count_below n p ≤ n
unfolding count_below
count_below-le zero p = omega arith
count_below-le (suc n) p = ground (arith, count_below-le n p)

pub count_below-congr :
    (n : ℕ) (p q : ℕ → Bool) → ((j : ℕ) → j < n → q j ≡ p j) → count_below n q ≡ count_below n p
unfolding count_below
count_below-congr zero p q h = refl
count_below-congr (suc n) p q h =
    rw (h n (omega arith))
      (ap (λ c. bit (p n) + c) (count_below-congr n p q (λ j l. h j (omega arith))))

pub count_below-add :
    (n i : ℕ) (p q : ℕ → Bool)
    → i < n
    → p i ≡ false
    → q i ≡ true
    → ((j : ℕ) → j ≢ i → q j ≡ p j)
    → count_below n q ≡ suc (count_below n p)
unfolding count_below
count_below-add zero i p q l pi qi h = elim l [ ]
count_below-add (suc n) i p q l pi qi h = elim (ℕ_discrete n i) [
  | yes e ↦
      let same = count_below-congr n p q (λ j lt. h j (omega arith)) in
      rw (e, pi, qi) (rw (← e) (omega (arith, same)))
  | no other ↦ rw (h n other) (omega (arith, count_below-add n i p q (omega arith) pi qi h))
]

pub count_below-none : (n : ℕ) (p : ℕ → Bool) → ((j : ℕ) → p j ≡ false) → count_below n p ≡ 0
unfolding count_below
count_below-none zero p h = refl
count_below-none (suc n) p h = rw (h n) (omega (arith, count_below-none n p h))

-- A test that all numbers below the bound pass counts them all, and only such a test.
pub count_below-full : (n : ℕ) (p : ℕ → Bool) → ((j : ℕ) → j < n → p j ≡ true) → count_below n p ≡ n
unfolding count_below
count_below-full zero p h = refl
count_below-full (suc n) p h =
    rw (h n (omega arith)) (omega (arith, count_below-full n p (λ j l. h j (omega arith))))

pub full-of-count_below : (n : ℕ) (p : ℕ → Bool) (j : ℕ) → count_below n p ≡ n → j < n → p j ≡ true
unfolding count_below
full-of-count_below zero p j e l = elim l [ ]
full-of-count_below (suc n) p j e l = elim (ℕ_discrete j n) [
  | yes same ↦ rw same (ground (arith, count_below-le n p))
  | no other ↦ full-of-count_below n p j (ground (arith, count_below-le n p)) (omega arith)
]

pub length-insert_new {ℓ} :
    {V : Type ℓ} (k : ℕ) (v : V) (m : List (ℕ × V))
    → lookup k m ≡ none
    → length (insert k v m) ≡ suc (length m)
unfolding lookup insert
length-insert_new k v [] h = refl
length-insert_new k v ((j, w) ∷ m) h = ground (arith, length-insert_new k v m)

-- If every number below `n` passes, and another one too, more than `n` pass.
pub count_below-ge :
    (m n : ℕ) (p : ℕ → Bool) → n ≤ m → ((j : ℕ) → j < n → p j ≡ true) → n ≤ count_below m p
unfolding count_below
count_below-ge zero n p l h = omega arith
count_below-ge (suc m) n p l h = elim (ℕ_discrete n (suc m)) [
  | yes e ↦
      rw (h m (omega arith))
        (omega (arith, count_below-ge m m p (omega arith) (λ j lt. h j (omega arith))))
  | no other ↦ omega (arith, count_below-ge m n p (omega arith) h)
]

pub count_below-gt :
    (m n k : ℕ) (p : ℕ → Bool)
    → ((j : ℕ) → j < n → p j ≡ true)
    → n ≤ k
    → k < m
    → p k ≡ true
    → n < count_below m p
unfolding count_below
count_below-gt zero n k p h l lt e = elim lt [ ]
count_below-gt (suc m) n k p h l lt e = elim (ℕ_discrete k m) [
  | yes same ↦ rw (← same) (rw e (omega (arith, count_below-ge k n p l h)))
  | no other ↦ omega (arith, count_below-gt m n k p h l (omega arith) e)
]
