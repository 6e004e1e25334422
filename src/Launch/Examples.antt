-- ===== src/Launch/Examples.antt =====
-- The default launch, of four tasks in three suites, and a task list with blanks.
use verl_vla.Common.{
  ◌<◌, ◌*◌, ◌≡◌, refl, ◌⊎◌, true, false, [], ◌∷◌, length, none, string_discrete, ok, if◌then◌else◌,
  ◌==◌,
}
use verl_vla.Collection.Spec.{CollectionWindowSpec, PolicyIdentity, Float}
use verl_vla.Launch.Tasks.{Text, text_of, parse_names, same_text, set_of_texts}
use verl_vla.Launch.Config.{LaunchConfig, launch_post_init}
use verl_vla.Launch.Window.{collection_window_spec, collection_config}
use verl_vla.Launch.Valid.{launch-collects}

-- `strip` for texts with no blank but spaces before them.
abbrev strip_left : Text → Text
strip_left [] = []
strip_left (c ∷ cs) = let rest = strip_left cs in if c == 32 then rest else c ∷ cs

abbrev mainline : LaunchConfig
mainline = record {
  run_id = text_of "run";
  algorithm = "grfpo";
  start_theta = 0;
  updates = 8;
  minimum_accepted_groups = 32;
  candidate_groups = 96;
  early_stop = true;
  process_score = false;
  task_equal = false;
  collector_count = 12;
  collector_concurrency = 8;
  opportunistic_preempt_collectors = 4;
  simulators_per_gpu = 1;
  excluded_task_names = text_of "classify_objects";
  policy_seed_namespace = [];
  train_gpus_per_node = 1;
  train_policy_microbatch = 1;
  train_fsdp_size = none;
  actor_lr = Float.finite 10;
  kl_early_stop_mode = "post_epoch";
  target_kl = Float.finite 100000;
  flow_grpo_noise_level = Float.finite 10000;
  flow_grpo_transition_batch_size = 3;
  continuous = false;
}

parse_names-test :
    parse_names strip_left (text_of "a, b::c,") ≡ text_of "a" ∷ text_of "b" ∷ text_of "c" ∷ []
unfolding parse_names
parse_names-test = refl

abbrev policy : PolicyIdentity
policy = record {
  immutable_base_path = "base";
  immutable_base_sha256 = "0";
  trainer_checkpoint_path = none;
  rollout_policy_version = 0;
}

launch-collects_example :
    (spec : CollectionWindowSpec) × (collection_window_spec strip_left
        (collection_config mainline 0 policy "manifest")
      ≡ ok spec)
    × (0 < length spec.task_names)
    × (length spec.suite_ids * length spec.task_names ≡ 12)
    × ((spec.complete_round_after_target ≡ false)
        ⊎ (spec.candidate_round_size ≡ length spec.suite_ids * length spec.task_names))
unfolding launch_post_init string_discrete set_of_texts parse_names same_text
launch-collects_example = launch-collects strip_left mainline 0 policy "manifest" refl refl
