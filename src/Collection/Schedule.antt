-- ===== src/Collection/Schedule.antt =====
-- `candidate_assignment` of trainer/grfpo/collection_store.py: the outcome-independent schedule of
-- tasks, suites, layouts and policy seeds. The SHA-256 prefix is the parameter `digest`.
use verl_vla.Common.{
  ℕ, ◌+◌, ◌-◌, ◌*◌, ◌/◌, ◌%◌, String, Bool, true, ◌||◌, not, Option, none, some, List, ◌∷◌, ◌++◌,
  Result, ok, err, ltb, if◌then◌else◌, length, get_elem?, range_from,
}
use verl_vla.Collection.Names.{decimal}
use verl_vla.Collection.Spec.{CollectionWindowSpec, is_empty}
use verl_vla.Collection.Leases.{has_duplicates}
use verl_vla.Collection.Window.{Assignment}

pub data ScheduleError : Type 0 where
  index_outside no_tasks bad_suites bad_layouts : ScheduleError

-- The predeclared layouts of a task and suite; `none` where the dict has no such key.
abbrev pub Layouts : Type 0
Layouts = String → ℕ → Option (List ℕ)

-- Position of a candidate among the conditions, and its round among those of one condition.
abbrev pub condition_slot : ℕ → ℕ → ℕ
condition_slot condition_count index = index % condition_count

abbrev pub task_slot : ℕ → ℕ → ℕ
task_slot suite_count slot = slot / suite_count

abbrev pub suite_slot : ℕ → ℕ → ℕ
suite_slot suite_count slot = slot % suite_count

unfoldable pub layout_slot : ℕ → ℕ → ℕ → ℕ → ℕ
layout_slot attempt slot update pool = (attempt * 7 + slot * 11 + update - 1) % pool

unfoldable pub is_bad_pool : Option (List ℕ) → Bool
unfolding has_duplicates
is_bad_pool none = true
is_bad_pool (some pool) = is_empty pool || has_duplicates pool

abbrev colon_text : List ℕ → List ℕ
colon_text text = b':' ∷ text

module _ (digest : List ℕ → ℕ) where
  unfoldable pub seed_payload : CollectionWindowSpec → ℕ → ℕ → List ℕ
  unfolding decimal
  seed_payload spec run_seed index =
      (if is_empty spec.policy_seed_namespace then spec.run_id else spec.policy_seed_namespace)
      ++ colon_text (decimal run_seed)
      ++ colon_text (decimal spec.policy.rollout_policy_version)
      ++ colon_text (decimal spec.intended_update)
      ++ colon_text (decimal index)

  unfoldable pub policy_seeds : CollectionWindowSpec → ℕ → ℕ → List ℕ
  unfolding seed_payload
  policy_seeds spec run_seed index =
      range_from (digest (seed_payload spec run_seed index) % 2_000_000_000) spec.group_size

  module _ (spec : CollectionWindowSpec) (task_names : List String) (suite_ids : List ℕ)
      (layouts : Layouts) (run_seed index : ℕ) where
    abbrev pub condition_count : ℕ
    condition_count = length task_names * length suite_ids

    abbrev pub slot_of : ℕ
    slot_of = condition_slot condition_count index

    -- The layout at the slot; a slot inside the pool always has one.
    unfoldable pub with_layout : String → ℕ → List ℕ → Option ℕ → Result ScheduleError Assignment
    unfolding policy_seeds
    with_layout task_name suite pool none = err bad_layouts
    with_layout task_name suite pool (some layout) = ok (record {
      candidate_index = index;
      task_name = task_name;
      task_id = task_slot (length suite_ids) slot_of;
      suite_id = suite;
      layout_id = layout;
      policy_seeds = policy_seeds spec run_seed index;
    })

    unfoldable pub with_pool : String → ℕ → Option (List ℕ) → Result ScheduleError Assignment
    unfolding with_layout layout_slot is_bad_pool
    with_pool task_name suite none = err bad_layouts
    with_pool task_name suite (some pool) =
        if is_bad_pool (some pool)
        then err bad_layouts
        else with_layout task_name suite pool (
            get_elem? pool
              (layout_slot (index / condition_count) slot_of spec.intended_update (length pool)))

    unfoldable pub with_condition : Option String → Option ℕ → Result ScheduleError Assignment
    unfolding with_pool
    with_condition (some task_name) (some suite) =
        with_pool task_name suite (layouts task_name suite)
    with_condition _ _ = err index_outside

    -- `candidate_assignment`
    unfoldable pub candidate_assignment : Result ScheduleError Assignment
    unfolding with_condition has_duplicates
    candidate_assignment =
        if not (ltb index spec.max_candidate_groups)
        then err index_outside
        else if is_empty task_names
        then err no_tasks
        else if is_empty suite_ids || has_duplicates suite_ids
        then err bad_suites
        else with_condition (get_elem? task_names (task_slot (length suite_ids) slot_of))
            (get_elem? suite_ids (suite_slot (length suite_ids) slot_of))
