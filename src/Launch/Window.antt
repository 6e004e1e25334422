-- ===== src/Launch/Window.antt =====
-- The window spec of a launch: `runtime_environment` (trainer/grfpo/launch_config.py), the settings of a
-- collection, and `_configured_task_names` and `collection_window_spec`
-- (workflows/grfpo_fragmented_collection.py).
use verl_vla.Common.{
  ℕ, ◌+◌, Bool, not, List, [], ◌∷◌, all, map, String, Result, ok, err, if◌then◌else◌,
}
use verl_vla.Collection.Spec.{CollectionWindowSpec, PolicyIdentity, Float, SpecError, post_init}
use verl_vla.Launch.Tasks.{Text, among, parse_names, set_of_texts, text_of, only, without}
use verl_vla.Launch.Config.{
  LaunchConfig, canonical_task_names, group_reward_source, accepted_group_reduction,
  actor_objective,
}

-- The fields of the workflow's configuration that the spec is made of.
pub record CollectionConfig : Type 0 where
  pub run_id : Text
  pub intended_update : ℕ
  pub collector_count : ℕ
  pub group_size : ℕ
  pub target_accepted_groups : ℕ
  pub minimum_accepted_groups : ℕ
  pub max_candidate_groups : ℕ
  pub complete_round_after_target : Bool
  pub drain_candidate_budget : Bool
  pub task_names : List String
  pub included_task_names : Text
  pub excluded_task_names : Text
  pub suite_ids : List ℕ
  pub condition_manifest_sha256 : String
  pub group_reward_source : String
  pub informative_group_criterion : String
  pub accepted_group_reduction : String
  pub policy_seed_namespace : Text
  pub raw_state_abs_limit : Float
  pub actor_objective : String
  pub flow_grpo_noise_level : Float
  pub policy : PolicyIdentity

pub data ConfigError : Type 0 where
  unknown_included unknown_excluded no_task_left : ConfigError
  bad_spec : SpecError → ConfigError

-- No name in the text includes every task.
abbrev pub keep_included : List Text → List String → List String
keep_included [] names = names
keep_included (t ∷ included) names = only (t ∷ included) names

-- At least one task is left.
abbrev pub some_left : List String → Result ConfigError (List String)
some_left [] = err no_task_left
some_left (x ∷ xs) = ok (x ∷ xs)

module _ (strip : Text → Text) where
  -- `_configured_task_names`
  unfoldable pub configured_task_names : CollectionConfig → Result ConfigError (List String)
  configured_task_names c =
      let names = c.task_names in
      let included = parse_names strip c.included_task_names in
      let excluded = set_of_texts (parse_names strip c.excluded_task_names) in
      if not (all (λ t. among t (map text_of names)) included)
      then err unknown_included
      else (let kept = keep_included included names in
          if not (all (λ t. among t (map text_of names)) excluded)
          then err unknown_excluded
          else some_left (without excluded kept))

  abbrev pub spec_of : CollectionConfig → List String → CollectionWindowSpec
  spec_of c selected = record {
    run_id = c.run_id;
    intended_update = c.intended_update;
    group_size = c.group_size;
    target_accepted_groups = c.target_accepted_groups;
    minimum_accepted_groups = c.minimum_accepted_groups;
    max_candidate_groups = c.max_candidate_groups;
    policy = c.policy;
    complete_round_after_target = c.complete_round_after_target;
    candidate_round_size = if c.complete_round_after_target then c.collector_count else 0;
    drain_candidate_budget = c.drain_candidate_budget;
    task_names = selected;
    suite_ids = c.suite_ids;
    condition_manifest_sha256 = c.condition_manifest_sha256;
    group_reward_source = c.group_reward_source;
    informative_group_criterion = c.informative_group_criterion;
    accepted_group_reduction = c.accepted_group_reduction;
    policy_seed_namespace = c.policy_seed_namespace;
    raw_state_abs_limit = c.raw_state_abs_limit;
    actor_objective = c.actor_objective;
    flow_grpo_noise_level = c.flow_grpo_noise_level;
  }

  -- `collection_window_spec`, with the checks of the spec's constructor.
  unfoldable pub collection_window_spec : CollectionConfig → Result ConfigError CollectionWindowSpec
  unfolding configured_task_names
  collection_window_spec c = elim (configured_task_names c) [
    | err e ↦ err e
    | ok selected ↦ elim (post_init (spec_of c selected)) [
      | err e ↦ err (bad_spec e)
      | ok _ ↦ ok (spec_of c selected)
    ]
  ]

-- The settings of the collectors of the update `theta + 1`: `runtime_environment` over the defaults of the
-- workflow's configuration.
unfoldable pub collection_config : LaunchConfig → ℕ → PolicyIdentity → String → CollectionConfig
collection_config c theta policy manifest_sha256 = record {
  run_id = c.run_id;
  intended_update = theta + 1;
  collector_count = c.collector_count;
  group_size = 8;
  target_accepted_groups = c.minimum_accepted_groups;
  minimum_accepted_groups = c.minimum_accepted_groups;
  max_candidate_groups = c.candidate_groups;
  complete_round_after_target = c.early_stop;
  drain_candidate_budget = not c.early_stop;
  task_names = canonical_task_names;
  included_task_names = [];
  excluded_task_names = c.excluded_task_names;
  suite_ids = 0 ∷ 1 ∷ 2 ∷ [];
  condition_manifest_sha256 = manifest_sha256;
  group_reward_source = group_reward_source c;
  informative_group_criterion = "full_success_mixed";
  accepted_group_reduction = accepted_group_reduction c;
  policy_seed_namespace = c.policy_seed_namespace;
  raw_state_abs_limit = Float.finite 100000000;
  actor_objective = actor_objective c;
  flow_grpo_noise_level = c.flow_grpo_noise_level;
  policy = policy;
}
