-- ===== src/Batch/Group.antt =====
-- `validate_same_condition_group` with `_constant_trajectory_values`
-- (trainer/grfpo/group_validation.py). A trajectory is what the code reads of it; the identification fields are
-- rows with a value for each slot. Floats are millionths, so that two rewards are close exactly when they are
-- the same. The conditions of a trajectory are read together, and `normalize` stands for Python's
-- normalization of an instruction.
use verl_vla.Common.{
  ℕ, Bool, true, false, not, ◌&&◌, ◌||◌, List, [], ◌∷◌, map, length, all, any, Option, none, some,
  String, Result, ok, err, raise_if, ◌>>=◌, ◌>>◌, ltb, leb, ◌==◌, if◌then◌else◌,
}
use verl_vla.Common.Sets.{member}
use verl_vla.Collection.Spec.{Float, one_of, is_text}
use verl_vla.Launch.Tasks.{Text, same_text}
use verl_vla.Batch.Score.{
  GroupError, wrong_size, changed_within, empty_row, mixed_conditions, repeated_seeds, wrong_suite,
  outside_pool, bad_source, bad_criterion, variance_needs_score, Trajectory, succeeded,
  success_reward, process_score, full_scores, count, count_partial, varies,
}

pub record Condition : Type 0 where
  pub task_id : ℕ
  pub instruction : Text
  pub suite_id : ℕ
  pub layout_id : ℕ
  pub environment_seed : ℕ

pub record Verdict : Type 0 where
  pub group_key : Condition
  pub policy_seeds : List ℕ
  pub reward_vector : List Float
  pub full_success_count : ℕ
  pub partial_only_count : ℕ
  pub binary_mixed : Bool
  pub training_reward_varies : Bool
  pub informative : Bool

unfoldable pub each :
    {A B : Type 0} → (A → Result GroupError B) → List A → Result GroupError (List B)
each f [] = ok []
each f (x ∷ xs) = elim (f x) [
  | err e ↦ err e
  | ok y ↦ elim (each f xs) [ err e ↦ err e | ok ys ↦ ok (y ∷ ys) ]
]

-- One row of `_constant_trajectory_values`.
unfoldable pub constant_value : {A : Type 0} → (A → A → Bool) → List A → Result GroupError A
constant_value same [] = err empty_row
constant_value same (x ∷ xs) = if all (λ y. same y x) xs then ok x else err changed_within

abbrev pub same_number : ℕ → ℕ → Bool
same_number a b = a == b

unfoldable pub condition_of : (Text → Text) → Trajectory → Result GroupError Condition
unfolding constant_value
condition_of normalize t = do
  task ← constant_value same_number t.task_ids
  suite ← constant_value same_number t.suite_ids
  instruction ← constant_value same_text t.instructions
  layout ← constant_value same_number t.layout_ids
  environment_seed ← constant_value same_number t.environment_seeds
  ok (record {
    task_id = task;
    instruction = normalize instruction;
    suite_id = suite;
    layout_id = layout;
    environment_seed = environment_seed;
  })

abbrev pub same_condition : Condition → Condition → Bool
same_condition a b =
    a.task_id == b.task_id
    && same_text a.instruction b.instruction
    && a.suite_id == b.suite_id
    && a.layout_id == b.layout_id
    && a.environment_seed == b.environment_seed

abbrev pub are_distinct : List ℕ → Bool
are_distinct [] = true
are_distinct (x ∷ xs) = not (member x xs) && are_distinct xs

pub record GroupConfig : Type 0 where
  pub group_size : ℕ
  pub reward_source : String
  pub informative_group_criterion : String
  pub min_partial : ℕ
  pub partial_score_threshold : Float
  pub expected_suite_id : Option ℕ
  pub allowed_layout_ids : Option (List ℕ)

unfoldable pub judge : GroupConfig → List Trajectory → Condition → List ℕ → List Float → Verdict
unfolding full_scores count_partial
judge c group key seeds raw_scores =
    let scores = full_scores group raw_scores in
    let rewards =
      if is_text c.reward_source "binary_success" then map success_reward group else scores in
    let full = count succeeded group in
    let partial = count_partial c.partial_score_threshold group scores in
    let mixed = ltb 0 full && ltb full c.group_size in
    let changes = varies rewards in
    record {
      group_key = key;
      policy_seeds = seeds;
      reward_vector = rewards;
      full_success_count = full;
      partial_only_count = partial;
      binary_mixed = mixed;
      training_reward_varies = changes;
      informative =
          if is_text c.informative_group_criterion "reward_variance"
          then changes && (ltb 0 full || leb c.min_partial partial)
          else mixed;
    }

-- The checks of the condition that the group shares.
unfoldable pub check_condition : GroupConfig → List Condition → Result GroupError Condition
check_condition c [] = err mixed_conditions
check_condition c (key ∷ keys) =
    if not (all (λ k. same_condition k key) keys) then err mixed_conditions else ok key

abbrev pub outside : Option (List ℕ) → ℕ → Bool
outside none layout = false
outside (some allowed) layout = not (member layout allowed)

abbrev pub other_suite : Option ℕ → ℕ → Bool
other_suite none suite = false
other_suite (some expected) suite = not (suite == expected)

unfoldable pub check_names_of : GroupConfig → Result GroupError (Unit {0})
check_names_of c = do
  raise_if (not (one_of c.reward_source ("binary_success" ∷ "process_score" ∷ []))) bad_source
  raise_if
      (not (
        one_of c.informative_group_criterion
          ("binary_success" ∷ "full_success_mixed" ∷ "reward_variance" ∷ [])))
      bad_criterion
  raise_if
      (is_text c.informative_group_criterion "reward_variance"
        && not (is_text c.reward_source "process_score"))
      variance_needs_score

unfoldable pub validate_same_condition_group :
    (Text → Text) → GroupConfig → List Trajectory → Result GroupError Verdict
unfolding condition_of each check_condition check_names_of process_score judge
validate_same_condition_group normalize c group = do
  raise_if (not (length group == c.group_size)) wrong_size
  keys ← each (condition_of normalize) group
  seeds ← each (λ t. constant_value same_number t.policy_seeds) group
  key ← check_condition c keys
  raise_if (not (are_distinct seeds)) repeated_seeds
  raise_if (any (λ k. other_suite c.expected_suite_id k.suite_id) keys) wrong_suite
  raise_if (any (λ k. outside c.allowed_layout_ids k.layout_id) keys) outside_pool
  check_names_of c
  scores ← each (process_score (is_text c.reward_source "process_score")) group
  ok (judge c group key seeds scores)
