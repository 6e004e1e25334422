-- ===== src/Batch/Score.antt =====
-- The scores and rewards of a group of trajectories: `_terminal_trajectory_scores` and the rewards of
-- `validate_same_condition_group` (trainer/grfpo/group_validation.py). Floats are millionths, so that two
-- rewards are close exactly when they are the same.
use verl_vla.Common.{
  ℕ, suc, Bool, true, false, not, ◌&&◌, List, [], ◌∷◌, all, any, Option, none, some, Result, ok,
  err, leb, ◌==◌, if◌then◌else◌,
}
use verl_vla.Collection.Spec.{Float, finite, negative, infinite, nan}
use verl_vla.Launch.Tasks.{Text}

pub data GroupError : Type 0 where
  wrong_size changed_within empty_row mixed_conditions repeated_seeds wrong_suite outside_pool :
      GroupError
  bad_source bad_criterion variance_needs_score missing_score nonfinite_score : GroupError

pub record ScoredStep : Type 0 where
  pub score : Float
  pub done : Bool

pub record Trajectory : Type 0 where
  pub task_ids : List ℕ
  pub instructions : List Text
  pub suite_ids : List ℕ
  pub layout_ids : List ℕ
  pub environment_seeds : List ℕ
  pub policy_seeds : List ℕ
  pub successes : List Bool
  pub scores : Option (List ScoredStep)

abbrev pub one : Float
one = finite 1000000

abbrev pub is_finite_float : Float → Bool
is_finite_float (finite m) = true
is_finite_float (negative m) = true
is_finite_float infinite = false
is_finite_float nan = false

-- The score at the first done step, or at the last one.
unfoldable pub terminal_score : List ScoredStep → Result GroupError Float
terminal_score [] = err empty_row
terminal_score (s ∷ []) = ok s.score
terminal_score (s ∷ t ∷ steps) =
    let rest = terminal_score (t ∷ steps) in if s.done then ok s.score else rest

unfoldable pub terminal_trajectory_score : Trajectory → Result GroupError Float
unfolding terminal_score
terminal_trajectory_score t = elim t.scores [
  | none ↦ err missing_score
  | some steps ↦
      if all (λ s. is_finite_float s.score) steps then terminal_score steps else err nonfinite_score
]

abbrev pub succeeded : Trajectory → Bool
succeeded t = any (λ s. s) t.successes

abbrev pub success_reward : Trajectory → Float
success_reward t = if succeeded t then one else finite 0

-- The process score of a trajectory; without scores, its success, unless the rewards are to be scores.
unfoldable pub process_score : Bool → Trajectory → Result GroupError Float
unfolding terminal_trajectory_score
process_score required t =
    if required
    then terminal_trajectory_score t
    else elim t.scores [ none ↦ ok (success_reward t) | some steps ↦ terminal_trajectory_score t ]

-- `process_scores[successes] = 1.0`
unfoldable pub full_scores : List Trajectory → List Float → List Float
full_scores [] scores = []
full_scores (t ∷ ts) [] = []
full_scores (t ∷ ts) (s ∷ scores) = (if succeeded t then one else s) ∷ full_scores ts scores

abbrev pub same_float : Float → Float → Bool
same_float (finite a) (finite b) = a == b
same_float (negative a) (negative b) = a == b
same_float infinite infinite = true
same_float a b = false

-- `a >= b` of floats.
abbrev pub at_least : Float → Float → Bool
at_least (finite a) (finite b) = leb b a
at_least (finite a) (negative b) = true
at_least (negative a) (negative b) = leb a b
at_least infinite (finite b) = true
at_least infinite (negative b) = true
at_least infinite infinite = true
at_least a b = false

abbrev pub count : {A : Type 0} → (A → Bool) → List A → ℕ
count p [] = 0
count p (x ∷ xs) = if p x then suc (count p xs) else count p xs

unfoldable pub count_partial : Float → List Trajectory → List Float → ℕ
count_partial threshold [] scores = 0
count_partial threshold (t ∷ ts) [] = 0
count_partial threshold (t ∷ ts) (s ∷ scores) =
    let rest = count_partial threshold ts scores in
    if not (succeeded t) && at_least s threshold then suc rest else rest

-- `not allclose(rewards, rewards[:1])`
abbrev pub varies : List Float → Bool
varies [] = false
varies (r ∷ rs) = not (all (λ x. same_float x r) rs)
