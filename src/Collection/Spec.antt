-- ===== src/Collection/Spec.antt =====
-- `PolicyIdentity` and `CollectionWindowSpec` of trainer/grfpo/collection_store.py.
use verl_vla.Common.{
  is_yes, ℕ, String, Bool, true, false, ◌&&◌, ◌||◌, not, Option, List, [], ◌∷◌, ltb, leb, ◌==◌,
  string_discrete, ℕ_discrete, ◌%◌, Result, raise_if, ◌>>◌, any,
}

-- A Python float, as far as the code looks at it: `finite m` is m millionths, `negative m` is -(m + 1)
-- millionths.
pub data Float : Type 0 where
  finite : (micros : ℕ) → Float
  negative : (micros : ℕ) → Float
  infinite : Float
  nan : Float

-- `0 < x < float("inf")`
abbrev pub is_finite_positive : Float → Bool
is_finite_positive (finite micros) = ltb 0 micros
is_finite_positive _ = false

abbrev pub one_of : String → List String → Bool
one_of x options = any (λ o. is_yes (string_discrete x o)) options

pub record PolicyIdentity : Type 0 where
  pub immutable_base_path : String
  pub immutable_base_sha256 : String
  pub trainer_checkpoint_path : Option String
  pub rollout_policy_version : ℕ

unfoldable pub PolicyIdentity-discrete : Discrete PolicyIdentity
PolicyIdentity-discrete = hlevel (string_discrete, ℕ_discrete)

unfoldable pub Float-discrete : Discrete Float
Float-discrete = hlevel ℕ_discrete

pub record CollectionWindowSpec : Type 0 where
  pub run_id : List ℕ
  pub intended_update : ℕ
  pub group_size : ℕ
  pub target_accepted_groups : ℕ
  pub minimum_accepted_groups : ℕ
  pub max_candidate_groups : ℕ
  pub policy : PolicyIdentity
  pub complete_round_after_target : Bool
  pub candidate_round_size : ℕ
  pub drain_candidate_budget : Bool
  pub task_names : List String
  pub suite_ids : List ℕ
  pub condition_manifest_sha256 : String
  pub group_reward_source : String
  pub informative_group_criterion : String
  pub accepted_group_reduction : String
  pub policy_seed_namespace : List ℕ
  pub raw_state_abs_limit : Float
  pub actor_objective : String
  pub flow_grpo_noise_level : Float

-- One constructor for each `raise ValueError` of `__post_init__`.
pub data SpecError : Type 0 where
  bad_run_id bad_update bad_group_size bad_minimum bad_maximum exclusive_modes : SpecError
  bad_round_size incomplete_rounds bad_reward_source bad_criterion variance_needs_score : SpecError
  bad_reduction bad_state_limit bad_objective bad_noise_level : SpecError

abbrev pub is_empty {ℓ} : {A : Type ℓ} → List A → Bool
is_empty [] = true
is_empty (x ∷ xs) = false

abbrev contains_code : ℕ → List ℕ → Bool
contains_code c text = any (λ d. d == c) text

abbrev pub is_text : String → String → Bool
is_text x y = is_yes (string_discrete x y)

-- The checks on counts and on the closing mode.
unfoldable pub check_counts : CollectionWindowSpec → Result SpecError (Unit {0})
check_counts s = do
  raise_if (is_empty s.run_id || contains_code b'/' s.run_id) bad_run_id
  raise_if (leb s.intended_update 0) bad_update
  raise_if (not (s.group_size == 8)) bad_group_size
  raise_if
      (not
        (leb 1 s.minimum_accepted_groups && leb s.minimum_accepted_groups s.target_accepted_groups))
      bad_minimum
  raise_if (ltb s.max_candidate_groups s.target_accepted_groups) bad_maximum
  raise_if (s.complete_round_after_target && s.drain_candidate_budget) exclusive_modes
  raise_if (s.complete_round_after_target && leb s.candidate_round_size 0) bad_round_size
  raise_if
      (s.complete_round_after_target && not (s.max_candidate_groups % s.candidate_round_size == 0))
      incomplete_rounds

-- The checks on the named alternatives and on the floats.
unfoldable pub check_names : CollectionWindowSpec → Result SpecError (Unit {0})
check_names s = do
  raise_if (not (one_of s.group_reward_source ("binary_success" ∷ "process_score" ∷ [])))
      bad_reward_source
  raise_if
      (not (
        one_of s.informative_group_criterion
          ("binary_success" ∷ "full_success_mixed" ∷ "reward_variance" ∷ [])))
      bad_criterion
  raise_if
      (is_text s.informative_group_criterion "reward_variance"
        && not (is_text s.group_reward_source "process_score"))
      variance_needs_score
  raise_if (not (one_of s.accepted_group_reduction ("group_equal" ∷ "task_equal" ∷ [])))
      bad_reduction
  raise_if (not (is_finite_positive s.raw_state_abs_limit)) bad_state_limit
  raise_if (not (one_of s.actor_objective ("fpo" ∷ "flow_grpo" ∷ []))) bad_objective
  raise_if (not (is_finite_positive s.flow_grpo_noise_level)) bad_noise_level

-- `__post_init__`
unfoldable pub post_init : CollectionWindowSpec → Result SpecError (Unit {0})
unfolding check_counts check_names
post_init s = check_counts s >> check_names s
