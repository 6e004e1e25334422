-- ===== src/Batch/Informative.antt =====
-- That an informative group has something to learn from (trainer/grfpo/group_validation.py).
use verl_vla.Common.{
  ℕ, zero, suc, ◌<◌, ◌≡◌, refl, sym, subst, ◌⊎◌, Bool, true, false, inl, inr, List, [], ◌∷◌, map,
  length, get_elem?, all, some, ok, arith, Bool-cases, Result-cases,
}
use verl_vla.Collection.Spec.{Float, is_text}
use verl_vla.Launch.Tasks.{Text}
use verl_vla.Batch.Score.{
  Trajectory, succeeded, success_reward, varies, same_float, count, process_score,
}
use verl_vla.Batch.Group.{
  GroupConfig, Verdict, Condition, judge, validate_same_condition_group, condition_of, each,
  check_condition, are_distinct, constant_value, same_number,
}

-- Two entries of the list are not the same.
abbrev pub IsVaried : List Float → Type 0
IsVaried xs =
    (i : ℕ) × (j : ℕ) × (a : Float) × (b : Float) × (get_elem? xs i ≡ some a)
    × (get_elem? xs j ≡ some b)
    × (same_float a b ≡ false)

find_false :
    {A : Type 0} (p : A → Bool) (xs : List A)
    → all p xs ≡ false
    → (i : ℕ) × (a : A) × (get_elem? xs i ≡ some a) × (p a ≡ false)
find_false p [] h = absurd (ground (arith, h))
find_false p (x ∷ xs) h = elim (Bool-cases (p x)) [
  | inr no_x ↦ (0, x, refl, no_x)
  | inl yes_x ↦ let (i, a, g, q) = find_false p xs (ground (arith, h, yes_x)) in (suc i, a, g, q)
]

varies-IsVaried : (xs : List Float) → varies xs ≡ true → IsVaried xs
varies-IsVaried [] h = absurd (ground (arith, h))
varies-IsVaried (r ∷ rs) h =
    let (i, a, g, q) = find_false (λ x. same_float x r) rs (ground (arith, h)) in
    (suc i, 0, a, r, g, refl, q)

count_some :
    {A : Type 0} (p : A → Bool) (xs : List A)
    → 0 < count p xs
    → (i : ℕ) × (a : A) × (get_elem? xs i ≡ some a) × (p a ≡ true)
count_some p [] h = absurd (ground (arith, h))
count_some p (x ∷ xs) h = elim (Bool-cases (p x)) [
  | inl yes_x ↦ (0, x, refl, yes_x)
  | inr no_x ↦ let (i, a, g, q) = count_some p xs (ground (arith, h, no_x)) in (suc i, a, g, q)
]

count_less :
    {A : Type 0} (p : A → Bool) (xs : List A)
    → count p xs < length xs
    → (i : ℕ) × (a : A) × (get_elem? xs i ≡ some a) × (p a ≡ false)
count_less p [] h = absurd (ground (arith, h))
count_less p (x ∷ xs) h = elim (Bool-cases (p x)) [
  | inr no_x ↦ (0, x, refl, no_x)
  | inl yes_x ↦ let (i, a, g, q) = count_less p xs (ground (arith, h, yes_x)) in (suc i, a, g, q)
]

get_elem?-map :
    {A B : Type 0} (f : A → B) (xs : List A) (i : ℕ) (a : A)
    → get_elem? xs i ≡ some a
    → get_elem? (map f xs) i ≡ some (f a)
get_elem?-map f [] i a h = absurd (ground (arith, h))
get_elem?-map f (x ∷ xs) zero a h = ground (arith, h)
get_elem?-map f (x ∷ xs) (suc i) a h = get_elem?-map f xs i a h

mixed_IsVaried :
    (group : List Trajectory)
    → 0 < count succeeded group
    → count succeeded group < length group
    → IsVaried (map success_reward group)
mixed_IsVaried group some_one not_all =
    let (i, t, g, q) = count_some succeeded group some_one in
    let (j, u, h, r) = count_less succeeded group not_all in
    (
      i,
      j,
      success_reward t,
      success_reward u,
      get_elem?-map success_reward group i t g,
      get_elem?-map success_reward group j u h,
      ground (arith, q, r),
    )

module _ (c : GroupConfig) (group : List Trajectory) (key : Condition) (seeds : List ℕ)
    (scores : List Float) where
  abbrev verdict : Verdict
  verdict = judge c group key seeds scores

  judge-IsVaried :
      length group ≡ c.group_size
      → (c.reward_source ≡ "binary_success") ⊎ (c.informative_group_criterion ≡ "reward_variance")
      → verdict.informative ≡ true
      → IsVaried verdict.reward_vector
  unfolding judge
  judge-IsVaried l kind h =
      elim (Bool-cases (is_text c.informative_group_criterion "reward_variance")) [
        | inl by_variance ↦ varies-IsVaried verdict.reward_vector (ground (arith, h, by_variance))
        | inr by_success ↦ elim (Bool-cases (is_text c.reward_source "binary_success")) [
          | inl binary ↦ rw binary (
              mixed_IsVaried group (ground (arith, h, by_success))
                (ground (arith, h, by_success, l)))
          | inr scored ↦ absurd (ground (arith, kind, by_success, scored))
        ]
      ]

module _ (normalize : Text → Text) (c : GroupConfig) (group : List Trajectory) (v : Verdict) where
  judged :
      validate_same_condition_group normalize c group ≡ ok v
      → (key : Condition) × (seeds : List ℕ) × (scores : List Float) × (v
          ≡ judge c group key seeds scores)
        × (length group ≡ c.group_size)
        × (are_distinct v.policy_seeds ≡ true)
  unfolding validate_same_condition_group judge
  judged h = elim (Result-cases (each (condition_of normalize) group)) [
    | inr (x, q) ↦ absurd (ground (arith, h, q))
    | inl (keys, q) ↦
        elim (Result-cases (each (λ t. constant_value same_number t.policy_seeds) group)) [
          | inr (x, r) ↦ absurd (ground (arith, h, q, r))
          | inl (seeds, r) ↦ elim (Result-cases (check_condition c keys)) [
            | inr (x, k) ↦ absurd (ground (arith, h, q, r, k))
            | inl (key, k) ↦
                elim (Result-cases
                  (each (process_score (is_text c.reward_source "process_score")) group)) [
                    | inr (x, p) ↦ absurd (ground (arith, h, q, r, k, p))
                    | inl (scores, p) ↦ (
                      key,
                      seeds,
                      scores,
                      ground (arith, h, q, r, k, p),
                      ground (arith, h),
                      ground (arith, h, q, r, k, p),
                    )
                  ]
          ]
        ]
  ]

  -- A group that is accepted as informative has something to learn from. When the validation accepts a group as
  -- informative, and the rewards are successes or the criterion is that the rewards vary, two trajectories of
  -- the group have different training rewards; and the policy seeds of the group are all different.
  pub validate-informative :
      (c.reward_source ≡ "binary_success") ⊎ (c.informative_group_criterion ≡ "reward_variance")
      → validate_same_condition_group normalize c group ≡ ok v
      → v.informative ≡ true
      → IsVaried v.reward_vector × (are_distinct v.policy_seeds ≡ true)
  validate-informative kind h i =
      let (key, seeds, scores, e, l, d) = judged h in
      let informative = subst (λ w. w.informative ≡ true) e i in
      (
        subst (λ w. IsVaried w.reward_vector) (sym e)
            (judge-IsVaried c group key seeds scores l kind informative),
        d,
      )
