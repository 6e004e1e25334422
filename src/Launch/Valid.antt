-- ===== src/Launch/Valid.antt =====
-- From a launch that is accepted (trainer/grfpo/launch_config.py) to the specs of its windows
-- (workflows/grfpo_fragmented_collection.py).
use verl_vla.Common.{
  ℕ, ◌*◌, ◌≤◌, ◌<◌, ◌≡◌, refl, true, false, List, [], map, length, all, any, ok, arith, is_yes,
  string_discrete, ◌≢◌, ◌⊎◌, inl, inr, ◌%◌, ◌==◌, List-cases, String,
}
use verl_vla.Collection.Spec.{CollectionWindowSpec, PolicyIdentity, post_init, is_finite_positive}
use verl_vla.Collection.Validity.{HasCounts, HasNames, post_init_iff}
use verl_vla.Launch.Tasks.{Text, same_text, among, parse_names, text_of, without, is_blank}
use verl_vla.Launch.Config.{
  LaunchConfig, canonical_task_names, excluded_tasks, expected_collectors, check_collection,
  check_training, launch_post_init,
}
use verl_vla.Launch.Window.{
  CollectionConfig, configured_task_names, spec_of, some_left, collection_window_spec,
  collection_config,
}
use verl_vla.Launch.Exclusions.{IsDistinct, set_of_texts-IsDistinct, length-without}

canonical_task_names-IsDistinct : IsDistinct (map text_of canonical_task_names)
unfolding same_text
canonical_task_names-IsDistinct = (refl, (refl, (refl, (refl, (refl, tt)))))

not_same : (s t : String) → is_yes (string_discrete s t) ≡ false → s ≢ t
not_same s t h e = ground arith

module _ (strip : Text → Text) (c : LaunchConfig) where
  -- What the launch's checks say of the collection.
  record IsLaunch : Type 0 where
    run_id : is_blank c.run_id ≡ false
    one_component : any (λ d. d == b'/') c.run_id ≡ false
    minimum : 0 < c.minimum_accepted_groups
    candidates : c.minimum_accepted_groups ≤ c.candidate_groups
    some_collector : 0 < c.collector_count
    known : all (λ t. among t (map text_of canonical_task_names)) (excluded_tasks strip c) ≡ true
    collectors : c.collector_count ≡ expected_collectors strip c
    whole : c.early_stop ≡ true → c.candidate_groups % c.collector_count ≡ 0

  check_collection-IsLaunch : check_collection strip c ≡ ok tt → IsLaunch
  unfolding check_collection
  check_collection-IsLaunch h = ground (arith, h)

  check_training_noise :
      check_training strip c ≡ ok tt → is_finite_positive c.flow_grpo_noise_level ≡ true
  unfolding check_training
  check_training_noise h = ground (arith, h)

  checks :
      launch_post_init strip c ≡ ok tt
      → (check_collection strip c ≡ ok tt) × (check_training strip c ≡ ok tt)
  unfolding launch_post_init
  checks h = ground (arith, h)

  selected : List String
  selected = without (excluded_tasks strip c) canonical_task_names

  selected_lanes : IsLaunch → (3 * length selected ≡ c.collector_count) × (0 < length selected)
  unfolding excluded_tasks expected_collectors selected
  selected_lanes h =
      let left =
        length-without (excluded_tasks strip c) canonical_task_names canonical_task_names-IsDistinct
          (set_of_texts-IsDistinct (parse_names strip c.excluded_task_names)) h.known in
      omega (arith, left, h.collectors, h.some_collector)

  some_left-selected : IsLaunch → some_left selected ≡ ok selected
  some_left-selected h = elim (List-cases selected) [
    | inl none_left ↦ ground (arith, none_left, (selected_lanes h).1)
    | inr (x, more, e) ↦ rw e refl
  ]

  no_names : strip [] ≡ [] → parse_names strip [] ≡ []
  unfolding parse_names
  no_names s = rw s refl

  configured_selected :
      (theta : ℕ) (policy : PolicyIdentity) (manifest : String)
      → IsLaunch
      → strip [] ≡ []
      → configured_task_names strip (collection_config c theta policy manifest) ≡ ok selected
  unfolding configured_task_names collection_config selected excluded_tasks
  configured_selected theta policy manifest h s =
      rw (no_names s) (rw h.known (some_left-selected h))

  counts_valid :
      (theta : ℕ) (policy : PolicyIdentity) (manifest : String) (names : List String)
      → IsLaunch
      → HasCounts (spec_of strip (collection_config c theta policy manifest) names)
  unfolding collection_config
  counts_valid theta policy manifest names h = ground (arith, h)

  names_valid :
      (theta : ℕ) (policy : PolicyIdentity) (manifest : String) (names : List String)
      → is_finite_positive c.flow_grpo_noise_level ≡ true
      → HasNames (spec_of strip (collection_config c theta policy manifest) names)
  unfolding collection_config string_discrete
  names_valid theta policy manifest names h = record {
    source = ground arith;
    criterion = inr (inl refl);
    variance = λ e. absurd (not_same "full_success_mixed" "reward_variance" refl e);
    reduction = ground arith;
    state_limit = omega arith;
    objective = ground arith;
    noise_level = ground (arith, h);
  }

  built :
      (config : CollectionConfig) (names : List String)
      → configured_task_names strip config ≡ ok names
      → post_init (spec_of strip config names) ≡ ok tt
      → collection_window_spec strip config ≡ ok (spec_of strip config names)
  unfolding collection_window_spec
  built config names n v = rw (collection_window_spec, n) (rw v refl)

  suites_of :
      (theta : ℕ) (policy : PolicyIdentity) (manifest : String)
      → 3 * length selected ≡ c.collector_count
      → let spec = spec_of strip (collection_config c theta policy manifest) selected in
        length spec.suite_ids * length selected ≡ c.collector_count
  unfolding collection_config
  suites_of theta policy manifest lanes = lanes

  rounds_of :
      (theta : ℕ) (policy : PolicyIdentity) (manifest : String)
      → 3 * length selected ≡ c.collector_count
      → let spec = spec_of strip (collection_config c theta policy manifest) selected in
        (spec.complete_round_after_target ≡ false)
        ⊎ (spec.candidate_round_size ≡ length spec.suite_ids * length spec.task_names)
  unfolding collection_config
  rounds_of theta policy manifest lanes = ground (arith, lanes)

  -- Every window of an accepted launch can be collected. When `__post_init__` accepts a launch, and `strip`
  -- leaves the empty text empty, then for every update of its chain, any policy and any manifest,
  -- `collection_window_spec` raises nothing, neither for the tasks nor in the spec's constructor; the spec has
  -- some tasks, and one lane of a task and a suite for each collector; and when it closes at complete
  -- rounds, a round is as large as there are lanes.
  pub launch-collects :
      (theta : ℕ) (policy : PolicyIdentity) (manifest : String)
      → strip [] ≡ []
      → launch_post_init strip c ≡ ok tt
      → (spec : CollectionWindowSpec) × (collection_window_spec strip
            (collection_config c theta policy manifest)
          ≡ ok spec)
        × (0 < length spec.task_names)
        × (length spec.suite_ids * length spec.task_names ≡ c.collector_count)
        × ((spec.complete_round_after_target ≡ false)
            ⊎ (spec.candidate_round_size ≡ length spec.suite_ids * length spec.task_names))
  launch-collects theta policy manifest s h =
      let config = collection_config c theta policy manifest in
      let (collection, training) = checks h in
      let launch = check_collection-IsLaunch collection in
      let (lanes, some_task) = selected_lanes launch in
      let names = names_valid theta policy manifest selected (check_training_noise training) in
      let valid =
        (post_init_iff (spec_of strip config selected)).1
          (counts_valid theta policy manifest selected launch, names) in
      (
        spec_of strip config selected,
        built config selected (configured_selected theta policy manifest launch s) valid,
        some_task,
        suites_of theta policy manifest lanes,
        rounds_of theta policy manifest lanes,
      )
