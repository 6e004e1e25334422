-- ===== src/Collection/ScheduleExamples.antt =====
-- Ids, the spec and the schedule of trainer/grfpo/collection_store.py on concrete candidates, and an
-- initialization that was cut short.
use verl_vla.Common.{
  ℕ, ◌≡◌, refl, String, true, false, Option, some, List, [], ◌∷◌, arith, ok, none, string_discrete,
  ◌||◌, ◌&&◌, if◌then◌else◌, get_elem?, length,
}
use verl_vla.Collection.Names.{candidate_id, parse_candidate_id}
use verl_vla.Collection.Spec.{CollectionWindowSpec, finite, is_text}
use verl_vla.Common.Sets.{member}
use verl_vla.Collection.Window.{Assignment, Lease, GroupRecord, fresh}
use verl_vla.Collection.Leases.{claim_candidate, has_duplicates}
use verl_vla.Collection.Commit.{commit_group}
use verl_vla.Collection.System.{after, here, initialize_call}
use verl_vla.Collection.Schedule.{
  layout_slot, Layouts, candidate_assignment, is_bad_pool, with_condition, with_pool, with_layout,
  policy_seeds,
}
use verl_vla.Collection.Ids.{parse_candidate_id-candidate_id}
use verl_vla.Collection.Assigned.{Answers, candidate_assignment-ok, candidate_assignment-covers}
use verl_vla.Collection.Stuck.{interrupted_initialize-stuck}

abbrev len : ℕ → ℕ
len n = n

abbrev spec : CollectionWindowSpec
spec = record {
  run_id = 114 ∷ [];
  intended_update = 2;
  group_size = 8;
  target_accepted_groups = 3;
  minimum_accepted_groups = 1;
  max_candidate_groups = 12;
  policy = record {
    immutable_base_path = "base";
    immutable_base_sha256 = "00";
    trainer_checkpoint_path = some "step_1";
    rollout_policy_version = 1;
  };
  complete_round_after_target = false;
  candidate_round_size = 0;
  drain_candidate_budget = true;
  task_names = "lift" ∷ "stack" ∷ [];
  suite_ids = 4 ∷ 9 ∷ 2 ∷ [];
  condition_manifest_sha256 = "";
  group_reward_source = "process_score";
  informative_group_criterion = "reward_variance";
  accepted_group_reduction = "task_equal";
  policy_seed_namespace = 110 ∷ [];
  raw_state_abs_limit = finite 100_000_000;
  actor_objective = "flow_grpo";
  flow_grpo_noise_level = finite 10_000;
}

abbrev layouts : Layouts
layouts task_name suite =
    if (is_text task_name "lift" || is_text task_name "stack") && member suite (4 ∷ 9 ∷ 2 ∷ [])
    then some (30 ∷ 31 ∷ 32 ∷ [])
    else none

abbrev digest : List ℕ → ℕ
digest payload = 17

parse_candidate_id-candidate_id_example : parse_candidate_id (candidate_id 12_345) ≡ some 12_345
parse_candidate_id-candidate_id_example = parse_candidate_id-candidate_id 12_345

suites_unique : has_duplicates (4 ∷ 9 ∷ 2 ∷ []) ≡ false
unfolding has_duplicates
suites_unique = refl

pool_good : is_bad_pool (some (30 ∷ 31 ∷ 32 ∷ [])) ≡ false
unfolding is_bad_pool
pool_good = refl

candidate_assignment-ok_example :
    Answers digest spec
      ("lift" ∷ "stack" ∷ [])
      (4 ∷ 9 ∷ 2 ∷ [])
      layouts
      5
      11
      (candidate_assignment digest spec ("lift" ∷ "stack" ∷ []) (4 ∷ 9 ∷ 2 ∷ []) layouts 5 11)
unfolding string_discrete
candidate_assignment-ok_example =
    candidate_assignment-ok digest spec ("lift" ∷ "stack" ∷ []) (4 ∷ 9 ∷ 2 ∷ []) layouts 5 11
      (omega arith) refl refl suites_unique
      (
        (
          (30 ∷ 31 ∷ 32 ∷ [], refl, pool_good),
          ((30 ∷ 31 ∷ 32 ∷ [], refl, pool_good), ((30 ∷ 31 ∷ 32 ∷ [], refl, pool_good), tt)),
        ),
        (
          (
            (30 ∷ 31 ∷ 32 ∷ [], refl, pool_good),
            ((30 ∷ 31 ∷ 32 ∷ [], refl, pool_good), ((30 ∷ 31 ∷ 32 ∷ [], refl, pool_good), tt)),
          ),
          tt,
        ),
      )

-- The candidate 11: the second block of six, the task number 1 and the suite at place 2.
abbrev eleventh : Assignment
eleventh = record {
  candidate_index = 11;
  task_name = "stack";
  task_id = 1;
  suite_id = 2;
  layout_id = 30;
  policy_seeds = 17 ∷ 18 ∷ 19 ∷ 20 ∷ 21 ∷ 22 ∷ 23 ∷ 24 ∷ [];
}

assigned-test :
    candidate_assignment digest spec ("lift" ∷ "stack" ∷ []) (4 ∷ 9 ∷ 2 ∷ []) layouts 5 11
    ≡ ok eleventh
unfolding candidate_assignment with_condition with_pool with_layout has_duplicates is_bad_pool
    layout_slot policy_seeds string_discrete
assigned-test = refl

candidate_assignment-covers_example :
    (eleventh.task_id ≡ 1)
    × (get_elem? ("lift" ∷ "stack" ∷ []) 1 ≡ some eleventh.task_name)
    × (get_elem? (4 ∷ 9 ∷ 2 ∷ []) 2 ≡ some eleventh.suite_id)
    × ((pool : List ℕ) × (layouts "stack" 2 ≡ some pool)
        × (get_elem? pool (layout_slot 1 5 2 (length pool)) ≡ some 30))
candidate_assignment-covers_example =
    candidate_assignment-covers digest spec ("lift" ∷ "stack" ∷ []) (4 ∷ 9 ∷ 2 ∷ []) layouts 5 1 1 2
      eleventh (omega arith) (omega arith) assigned-test

interrupted_initialize-stuck_example :
    ((after len spec initialize_call 1 fresh).is_open ≡ false)
    × ((more : List Assignment) (owner : String) (timeout now : ℕ) (token : String)
          (preferred : Option (String × ℕ)) (l : Lease)
        → ((claim_candidate spec owner timeout now token more preferred
                (after len spec initialize_call 1 fresh)).0
              ≡ ok (some l)
            → ⊥))
    × ((a : Assignment) (rollout end_obs : ℕ) (r : GroupRecord) (lease : Option Lease)
        → (commit_group len spec a rollout end_obs r lease
            (after len spec initialize_call 1 fresh)).1
          ≡ [])
interrupted_initialize-stuck_example = interrupted_initialize-stuck len spec here
