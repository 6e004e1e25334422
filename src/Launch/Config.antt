-- ===== src/Launch/Config.antt =====
-- `GRFPOChainLaunchConfig` (trainer/grfpo/launch_config.py). The numbers are not negative here: the checks
-- for a negative one cannot be reached. `train_fsdp_size` is none for -1.
use Prim.Native.String.{String}
use verl_vla.Common.{
  ℕ, ◌+◌, ◌-◌, ◌*◌, ◌%◌, Bool, true, not, ◌&&◌, ◌||◌, List, [], ◌∷◌, length, map, all, any, Option,
  none, some, Result, raise_if, ◌>>◌, ltb, leb, ◌==◌, if◌then◌else◌,
}
use verl_vla.Collection.Spec.{Float, is_finite_positive, one_of, is_text}
use verl_vla.Launch.Tasks.{Text, among, parse_names, set_of_texts, is_blank, text_of}

-- `_CANONICAL_TASK_NAMES`
abbrev pub canonical_task_names : List String
canonical_task_names =
    "stack_bowls" ∷ "fold_clothes" ∷ "put_bottles_into_dustbin" ∷ "match_and_pick_from_conveyor"
    ∷ "classify_objects" ∷ []

abbrev pub suite_count : ℕ
suite_count = 3

pub data LaunchError : Type 0 where
  launch_run_id launch_algorithm launch_updates launch_minimum launch_candidates launch_collectors :
      LaunchError
  unknown_exclusions unexpected_collectors bad_concurrency bad_preempt bad_simulators : LaunchError
  partial_round bad_gpus bad_microbatch bad_fsdp bad_actor_lr bad_kl_mode bad_target_kl :
      LaunchError
  launch_noise_level bad_transition_batch comma_in_exclusions comma_in_namespace : LaunchError

pub record LaunchConfig : Type 0 where
  pub run_id : Text
  pub algorithm : String
  pub start_theta : ℕ
  pub updates : ℕ
  pub minimum_accepted_groups : ℕ
  pub candidate_groups : ℕ
  pub early_stop : Bool
  pub process_score : Bool
  pub task_equal : Bool
  pub collector_count : ℕ
  pub collector_concurrency : ℕ
  pub opportunistic_preempt_collectors : ℕ
  pub simulators_per_gpu : ℕ
  pub excluded_task_names : Text
  pub policy_seed_namespace : Text
  pub train_gpus_per_node : ℕ
  pub train_policy_microbatch : ℕ
  pub train_fsdp_size : Option ℕ
  pub actor_lr : Float
  pub kl_early_stop_mode : String
  pub target_kl : Float
  pub flow_grpo_noise_level : Float
  pub flow_grpo_transition_batch_size : ℕ
  pub continuous : Bool

abbrev has_code : ℕ → Text → Bool
has_code c text = any (λ d. d == c) text

abbrev fsdp_fits : Option ℕ → ℕ → Bool
fsdp_fits none gpus = true
fsdp_fits (some size) gpus = not (leb size 0 || ltb gpus size || not (gpus % size == 0))

module _ (strip : Text → Text) where
  -- The set of excluded tasks.
  unfoldable pub excluded_tasks : LaunchConfig → List Text
  excluded_tasks c = set_of_texts (parse_names strip c.excluded_task_names)

  unfoldable pub expected_collectors : LaunchConfig → ℕ
  unfolding excluded_tasks
  expected_collectors c = suite_count * (length canonical_task_names - length (excluded_tasks c))

  -- `__post_init__`, up to the collectors.
  unfoldable pub check_collection : LaunchConfig → Result LaunchError (Unit {0})
  unfolding expected_collectors
  check_collection c = do
    raise_if (is_blank c.run_id || has_code b'/' c.run_id || has_code b',' c.run_id) launch_run_id
    raise_if (not (one_of c.algorithm ("grfpo" ∷ "flow_grpo" ∷ []))) launch_algorithm
    raise_if (leb c.updates 0) launch_updates
    raise_if (leb c.minimum_accepted_groups 0) launch_minimum
    raise_if (ltb c.candidate_groups c.minimum_accepted_groups) launch_candidates
    raise_if (leb c.collector_count 0) launch_collectors
    raise_if (not (all (λ t. among t (map text_of canonical_task_names)) (excluded_tasks c)))
        unknown_exclusions
    raise_if (not (c.collector_count == expected_collectors c)) unexpected_collectors
    raise_if (not (leb 1 c.collector_concurrency && leb c.collector_concurrency c.collector_count))
        bad_concurrency
    raise_if (ltb c.collector_count c.opportunistic_preempt_collectors) bad_preempt
    raise_if (not (leb 1 c.simulators_per_gpu && leb c.simulators_per_gpu 3)) bad_simulators
    raise_if (c.early_stop && not (c.candidate_groups % c.collector_count == 0)) partial_round

  -- `__post_init__`, from the trainer on.
  unfoldable pub check_training : LaunchConfig → Result LaunchError (Unit {0})
  check_training c = do
    raise_if (not (c.train_gpus_per_node == 1 || c.train_gpus_per_node == 2)) bad_gpus
    raise_if (leb c.train_policy_microbatch 0) bad_microbatch
    raise_if (not (fsdp_fits c.train_fsdp_size c.train_gpus_per_node)) bad_fsdp
    raise_if (not (is_finite_positive c.actor_lr)) bad_actor_lr
    raise_if (not (one_of c.kl_early_stop_mode ("post_epoch" ∷ "pre_optimizer" ∷ []))) bad_kl_mode
    raise_if (not (is_finite_positive c.target_kl)) bad_target_kl
    raise_if (not (is_finite_positive c.flow_grpo_noise_level)) launch_noise_level
    raise_if (leb c.flow_grpo_transition_batch_size 0) bad_transition_batch
    raise_if (has_code b',' c.excluded_task_names) comma_in_exclusions
    raise_if (has_code b',' c.policy_seed_namespace) comma_in_namespace

  unfoldable pub launch_post_init : LaunchConfig → Result LaunchError (Unit {0})
  unfolding check_collection check_training
  launch_post_init c = check_collection c >> check_training c

-- The derived properties.
abbrev pub final_theta : LaunchConfig → ℕ
final_theta c = c.start_theta + c.updates

abbrev pub group_reward_source : LaunchConfig → String
group_reward_source c = if c.process_score then "process_score" else "binary_success"

abbrev pub accepted_group_reduction : LaunchConfig → String
accepted_group_reduction c = if c.task_equal then "task_equal" else "group_equal"

abbrev pub actor_objective : LaunchConfig → String
actor_objective c = if is_text c.algorithm "flow_grpo" then "flow_grpo" else "fpo"
