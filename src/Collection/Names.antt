-- ===== src/Collection/Names.antt =====
-- Candidate ids of trainer/grfpo/collection_store.py: `f"candidate_{index:04d}"` and its parsers.
-- A text is the list of its character codes; only ASCII digits count as digits.
use Prim.Native.Char.{code}
use Prim.Native.String.{String}
use verl_vla.Common.{
  ℕ, zero, suc, ◌+◌, ◌-◌, ◌*◌, ◌/◌, ◌%◌, Bool, true, false, ◌&&◌, Option, none, some, List, [], ◌∷◌,
  ◌++◌, ltb, leb, ◌==◌, if◌then◌else◌, length, replicate, all,
}

abbrev codes : String → List ℕ
codes String.[] = []
codes (String.◌∷◌ c s) = code c ∷ codes s

abbrev pub candidate_prefix : List ℕ
candidate_prefix = codes "candidate_"

-- The decimal digits of a number, most significant first. The fuel `n + 1` is enough for `n`.
unfoldable pub decimal_from : ℕ → ℕ → List ℕ
decimal_from zero n = []
decimal_from (suc fuel) n =
    let rest = decimal_from fuel (n / 10) ++ (48 + n % 10) ∷ [] in
    if ltb n 10 then (48 + n) ∷ [] else rest

unfoldable pub decimal : ℕ → List ℕ
unfolding decimal_from
decimal n = decimal_from (suc n) n

-- The format `04d`.
unfoldable pub zero_pad : List ℕ → List ℕ
zero_pad digits = replicate (4 - length digits) 48 ++ digits

unfoldable pub candidate_id : ℕ → List ℕ
unfolding decimal zero_pad
candidate_id index = candidate_prefix ++ zero_pad (decimal index)

-- `int(text)` of a text of digits.
unfoldable pub int_from : ℕ → List ℕ → ℕ
int_from acc [] = acc
int_from acc (c ∷ cs) = int_from (acc * 10 + (c - 48)) cs

abbrev pub is_digit_code : ℕ → Bool
is_digit_code c = leb 48 c && leb c 57

abbrev pub is_digit : List ℕ → Bool
is_digit [] = false
is_digit (c ∷ cs) = all is_digit_code (c ∷ cs)

-- `text.startswith(prefix)`, with what follows.
unfoldable pub strip_prefix : List ℕ → List ℕ → Option (List ℕ)
strip_prefix [] text = some text
strip_prefix (p ∷ ps) [] = none
strip_prefix (p ∷ ps) (c ∷ cs) = let rest = strip_prefix ps cs in if p == c then rest else none

abbrev pub parse_digits : Option (List ℕ) → Option ℕ
parse_digits none = none
parse_digits (some text) = if is_digit text then some (int_from 0 text) else none

-- The index that a candidate id names; none where the code raises "Invalid candidate id".
unfoldable pub parse_candidate_id : List ℕ → Option ℕ
unfolding strip_prefix int_from
parse_candidate_id text = parse_digits (strip_prefix candidate_prefix text)

-- Python's order on texts.
unfoldable pub text_leb : List ℕ → List ℕ → Bool
text_leb [] ys = true
text_leb (a ∷ xs) [] = false
text_leb (a ∷ xs) (b ∷ ys) = let rest = text_leb xs ys in if a == b then rest else ltb a b

-- The order of `sorted(directory.glob("candidate_*"))`.
abbrev pub entry_leb {ℓ} : {V : Type ℓ} → ℕ × V → ℕ × V → Bool
entry_leb a b = text_leb (candidate_id a.0) (candidate_id b.0)

unfoldable pub same_text : List ℕ → List ℕ → Bool
same_text [] [] = true
same_text (a ∷ xs) (b ∷ ys) = a == b && same_text xs ys
same_text _ _ = false
