-- ===== src/Launch/Exclusions.antt =====
-- How many tasks the excluded ones leave: sets of texts (trainer/grfpo/launch_config.py) and `_configured_task_names`
-- (workflows/grfpo_fragmented_collection.py).
use verl_vla.Common.{
  suc, ◌+◌, ◌≡◌, refl, ap, sym, subst, true, false, List, [], ◌∷◌, map, length, all, arith, inl,
  inr, Bool-cases, String,
}
use verl_vla.Launch.Tasks.{Text, same_text, among, set_of_texts, text_of, without}

same_text_refl : (x : Text) → same_text x x ≡ true
unfolding same_text
same_text_refl [] = refl
same_text_refl (c ∷ cs) = ground (arith, same_text_refl cs)

same_text_eq : (x y : Text) → same_text x y ≡ true → x ≡ y
unfolding same_text
same_text_eq [] [] h = refl
same_text_eq [] (d ∷ ds) h = cc
same_text_eq (c ∷ cs) [] h = cc
same_text_eq (c ∷ cs) (d ∷ ds) h = ground (arith, same_text_eq cs ds)

same_text_sym : (x y : Text) → same_text x y ≡ same_text y x
unfolding same_text
same_text_sym [] [] = refl
same_text_sym [] (d ∷ ds) = refl
same_text_sym (c ∷ cs) [] = refl
same_text_sym (c ∷ cs) (d ∷ ds) = ground (arith, same_text_sym cs ds)

-- Each text once.
abbrev pub IsDistinct : List Text → Type 0
IsDistinct [] = Unit
IsDistinct (x ∷ xs) = (among x xs ≡ false) × IsDistinct xs

pub set_of_texts-IsDistinct : (xs : List Text) → IsDistinct (set_of_texts xs)
unfolding set_of_texts
set_of_texts-IsDistinct [] = tt
set_of_texts-IsDistinct (x ∷ xs) = ground (arith, set_of_texts-IsDistinct xs)

-- A text that is not there excludes nothing.
without_absent :
    (x : Text) (others : List Text) (names : List String)
    → among x (map text_of names) ≡ false
    → without (x ∷ others) names ≡ without others names
unfolding without
without_absent x others [] h = refl
without_absent x others (y ∷ names) h =
    ground (arith, h, same_text_sym x (text_of y), without_absent x others names)

-- One more excluded task leaves one task less.
length-without_one :
    (x : Text) (others : List Text) (names : List String)
    → IsDistinct (map text_of names)
    → among x (map text_of names) ≡ true
    → among x others ≡ false
    → length (without others names) ≡ suc (length (without (x ∷ others) names))
unfolding without
length-without_one x others [] d h n = cc
length-without_one x others (y ∷ names) d h n = elim (Bool-cases (same_text x (text_of y))) [
  | inl same ↦
      let e = same_text_eq x (text_of y) same in
      let absent = subst (λ t. among t (map text_of names) ≡ false) (sym e) d.0 in
      let kept = subst (λ t. among t others ≡ false) e n in
      let rest = without_absent x others names absent in ground (arith, same, kept, rest)
  | inr other ↦
      let rest =
        length-without_one x others names d.1
          (ground (arith, h, other, same_text_sym x (text_of y))) n in
      ground (arith, other, rest)
]

without_none : (names : List String) → without [] names ≡ names
unfolding without
without_none [] = refl
without_none (y ∷ names) = ap (λ more. y ∷ more) (without_none names)

pub length-without :
    (others : List Text) (names : List String)
    → IsDistinct (map text_of names)
    → IsDistinct others
    → all (λ t. among t (map text_of names)) others ≡ true
    → length (without others names) + length others ≡ length names
unfolding without
length-without [] names d e h = omega (arith, ap length (without_none names))
length-without (x ∷ others) names d e h =
    let one = length-without_one x others names d (ground arith) e.0 in
    let rest = length-without others names d e.1 (ground arith) in omega (arith, one, rest)
