-- ===== src/Collection/Ids.antt =====
-- Candidate ids (trainer/grfpo/collection_store.py) as names of indices, and their order as texts.
use verl_vla.Common.{
  ℕ, zero, suc, ◌+◌, ◌-◌, ◌*◌, ◌/◌, ◌%◌, ◌≤◌, ◌<◌, ◌≡◌, refl, sym, ◌∙◌, ap, true, some, List, [],
  ◌∷◌, ◌++◌, arith, ltb, leb, lt→ltb, ◌==◌, if◌then◌else◌, length, length-append, length-replicate,
  replicate, all, All, All-append, Bool-cases, inl, inr, and-true,
}
use verl_vla.Collection.Names.{
  decimal_from, decimal, zero_pad, candidate_id, candidate_prefix, parse_digits, int_from, is_digit,
  is_digit_code, strip_prefix, parse_candidate_id, text_leb,
}

int_from-append :
    (xs ys : List ℕ) (acc : ℕ) → int_from acc (xs ++ ys) ≡ int_from (int_from acc xs) ys
unfolding int_from
int_from-append [] ys acc = refl
int_from-append (x ∷ xs) ys acc = int_from-append xs ys (acc * 10 + (x - 48))

int_from-decimal_from : (fuel n : ℕ) → n < fuel → int_from 0 (decimal_from fuel n) ≡ n
unfolding decimal_from int_from
int_from-decimal_from zero n l = elim l [ ]
int_from-decimal_from (suc fuel) n l = elim (Bool-cases (ltb n 10)) [
  | inl small ↦ rw small (omega arith)
  | inr large ↦
      rw
        (
          large,
          int_from-append (decimal_from fuel (n / 10)) ((48 + n % 10) ∷ []) 0,
          int_from-decimal_from fuel (n / 10) (ground arith),
        )
        (omega arith)
]

int_from-zeros : (k : ℕ) (xs : List ℕ) → int_from 0 (replicate k 48 ++ xs) ≡ int_from 0 xs
unfolding int_from
int_from-zeros zero xs = refl
int_from-zeros (suc k) xs = int_from-zeros k xs

-- A character code is a digit.
abbrev IsDigitCode : ℕ → Type 0
IsDigitCode c = (48 ≤ c) × (c ≤ 57)

decimal_from-digits : (fuel n : ℕ) → All IsDigitCode (decimal_from fuel n)
unfolding decimal_from
decimal_from-digits zero n = tt
decimal_from-digits (suc fuel) n = elim (Bool-cases (ltb n 10)) [
  | inl small ↦ rw small ((omega arith, ground arith), tt)
  | inr large ↦ rw large (
      All-append IsDigitCode (decimal_from fuel (n / 10)) _ (decimal_from-digits fuel (n / 10))
        ((omega arith, omega arith), tt))
]

zeros-digits : (k : ℕ) → All IsDigitCode (replicate k 48)
zeros-digits zero = tt
zeros-digits (suc k) = ((omega arith, omega arith), zeros-digits k)

all-digits : (xs : List ℕ) → All IsDigitCode xs → all is_digit_code xs ≡ true
all-digits [] h = refl
all-digits (x ∷ xs) h = and-true _ _ (ground (arith, h.0)) (all-digits xs h.1)

abbrev digits_of : ℕ → List ℕ
digits_of i = zero_pad (decimal i)

digits_of-digits : (i : ℕ) → All IsDigitCode (digits_of i)
unfolding zero_pad decimal
digits_of-digits i =
    All-append IsDigitCode (replicate (4 - length (decimal i)) 48) (decimal i) (zeros-digits _)
      (decimal_from-digits (suc i) i)

int_from-digits_of : (i : ℕ) → int_from 0 (digits_of i) ≡ i
unfolding zero_pad decimal
int_from-digits_of i =
    int_from-zeros (4 - length (decimal i)) (decimal i)
    ∙ int_from-decimal_from (suc i) i (omega arith)

length-digits_of : (i : ℕ) → 4 ≤ length (digits_of i)
unfolding zero_pad
length-digits_of i = omega (
  arith,
  length-append (replicate (4 - length (decimal i)) 48) (decimal i),
  length-replicate {A = ℕ} (4 - length (decimal i)) 48,
)

is_digit-of_digits : (xs : List ℕ) → 1 ≤ length xs → All IsDigitCode xs → is_digit xs ≡ true
is_digit-of_digits [] l h = elim l [ ]
is_digit-of_digits (x ∷ xs) l h = all-digits (x ∷ xs) h

strip_prefix-append : (p text : List ℕ) → strip_prefix p (p ++ text) ≡ some text
unfolding strip_prefix
strip_prefix-append [] text = refl
strip_prefix-append (x ∷ p) text = ground (arith, strip_prefix-append p text)

-- The parser of candidate ids reads back the index of every id, whatever its number of digits.
pub parse_candidate_id-candidate_id : (i : ℕ) → parse_candidate_id (candidate_id i) ≡ some i
unfolding parse_candidate_id candidate_id
parse_candidate_id-candidate_id i =
    ap parse_digits (strip_prefix-append candidate_prefix (digits_of i))
    ∙ rw
        (
          is_digit-of_digits (digits_of i) (omega (arith, length-digits_of i)) (digits_of-digits i),
          int_from-digits_of i,
        )
        refl

-- Two candidates with the same id have the same index.
candidate_id-injective : (i j : ℕ) → candidate_id i ≡ candidate_id j → i ≡ j
candidate_id-injective i j e =
    cc (
      ap parse_candidate_id e,
      parse_candidate_id-candidate_id i,
      parse_candidate_id-candidate_id j,
    )

text_leb-int_from :
    (xs ys : List ℕ) (a b : ℕ)
    → length xs ≡ length ys
    → All IsDigitCode xs
    → All IsDigitCode ys
    → leb (int_from a xs) (int_from b ys) ≡ (if a == b then text_leb xs ys else ltb a b)
unfolding int_from text_leb
text_leb-int_from [] [] a b e hx hy = ground arith
text_leb-int_from [] (y ∷ ys) a b e hx hy = ground arith
text_leb-int_from (x ∷ xs) [] a b e hx hy = ground arith
text_leb-int_from (x ∷ xs) (y ∷ ys) a b e hx hy =
    let next =
      text_leb-int_from xs ys (a * 10 + (x - 48)) (b * 10 + (y - 48)) (omega arith) hx.1 hy.1 in
    ground (arith, next, hx.0, hy.0)

text_leb-prefix : (p xs ys : List ℕ) → text_leb (p ++ xs) (p ++ ys) ≡ text_leb xs ys
unfolding text_leb
text_leb-prefix [] xs ys = refl
text_leb-prefix (c ∷ p) xs ys = ground (arith, text_leb-prefix p xs ys)

-- Numbers below the bound have at most so many digits.
abbrev HasLength : ℕ → ℕ → Type 0
HasLength bound size = (fuel m : ℕ) → m < bound → length (decimal_from fuel m) ≤ size

HasLength-ten : HasLength 10 1
unfolding decimal_from
HasLength-ten zero n l = omega arith
HasLength-ten (suc fuel) n l = rw (lt→ltb n 10 l) (omega arith)

HasLength-next : (bound size : ℕ) → HasLength bound size → HasLength (10 * bound) (suc size)
unfolding decimal_from
HasLength-next bound size h zero n l = omega arith
HasLength-next bound size h (suc fuel) n l = elim (Bool-cases (ltb n 10)) [
  | inl small ↦ rw small (omega arith)
  | inr large ↦
      rw (large, length-append (decimal_from fuel (n / 10)) ((48 + n % 10) ∷ []))
        (omega (arith, h fuel (n / 10) (omega arith)))
]

length-decimal : (n : ℕ) → n < 10_000 → length (decimal n) ≤ 4
unfolding decimal
length-decimal n =
    HasLength-next 1000 3 (HasLength-next 100 2 (HasLength-next 10 1 HasLength-ten)) (suc n) n

length-short : (n : ℕ) → n < 10_000 → length (digits_of n) ≡ 4
unfolding zero_pad
length-short n l = omega (
  arith,
  length-append (replicate (4 - length (decimal n)) 48) (decimal n),
  length-replicate {A = ℕ} (4 - length (decimal n)) 48,
  length-decimal n l,
)

-- Below ten thousand candidates, the order of the ids as texts, in which the store sorts its
-- directories, is the order of the indices.
pub text_leb-candidate_id :
    (i j : ℕ) → i < 10_000 → j < 10_000 → text_leb (candidate_id i) (candidate_id j) ≡ leb i j
unfolding candidate_id
text_leb-candidate_id i j li lj =
    text_leb-prefix candidate_prefix (digits_of i) (digits_of j)
    ∙ sym (
        text_leb-int_from (digits_of i) (digits_of j) 0 0
          (length-short i li ∙ sym (length-short j lj)) (digits_of-digits i) (digits_of-digits j))
    ∙ rw (int_from-digits_of i, int_from-digits_of j) refl
