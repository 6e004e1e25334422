-- ===== src/Collector/Lanes.antt =====
-- `_candidate_schedule`, `_collector_assignments` and `_candidate_physical_batch_size`
-- (workflows/grfpo_fragmented_collection.py). The condition manifest and the file of batch overrides are
-- arguments; sizes are not negative here.
use verl_vla.Common.{
  ℕ, ◌*◌, ◌%◌, String, Bool, ◌||◌, ◌&&◌, not, Option, none, some, List, [], ◌∷◌, length, any,
  Result, ok, err, raise_if, ◌>>=◌, ◌>>◌, ltb, ◌==◌, if◌then◌else◌, range_from,
}
use verl_vla.Common.Sets.{member}
use verl_vla.Collection.Names.{candidate_id}
use verl_vla.Collection.Spec.{CollectionWindowSpec, is_text, one_of}
use verl_vla.Collection.Schedule.{ScheduleError, Layouts, candidate_assignment}
use verl_vla.Collection.Window.{Assignment}
use verl_vla.Launch.Window.{CollectionConfig}
use verl_vla.Collector.World.{
  Failure, schedule_error, changed_manifest, unknown_task, unknown_suite, leaked_layouts,
  wrong_lane_count, bad_slot, bad_width,
}

-- The settings of a collector beside those that the window spec is made of.
pub record CollectorConfig : Type 0 where
  pub collection : CollectionConfig
  pub collector_slot : ℕ
  pub run_seed : ℕ
  pub physical_rollout_batch_size : ℕ
  pub max_policy_calls : ℕ
  pub candidate_lease_timeout : ℕ
  pub candidate_lease_heartbeat : ℕ
  pub simulators_per_gpu : ℕ
  pub shared_candidate_queue : Bool
  pub shared_queue_steal_any : Bool

-- A suite of a task in the condition manifest.
pub record Suite : Type 0 where
  pub train_layout_ids : List ℕ
  pub heldout_test : List ℕ

pub record ConditionManifest : Type 0 where
  pub sha256 : String
  pub tasks : String → Option (ℕ → Option Suite)

-- Some training layout is a held-out one.
abbrev pub overlaps : List ℕ → List ℕ → Bool
overlaps train heldout = any (λ l. member l heldout) train

abbrev pub check_suite : Option Suite → Result Failure (Unit {0})
check_suite none = err unknown_suite
check_suite (some s) = raise_if (overlaps s.train_layout_ids s.heldout_test) leaked_layouts

unfoldable pub check_suites : (ℕ → Option Suite) → List ℕ → Result Failure (Unit {0})
check_suites suites [] = ok tt
check_suites suites (s ∷ more) = check_suite (suites s) >> check_suites suites more

abbrev pub check_task : Option (ℕ → Option Suite) → List ℕ → Result Failure (Unit {0})
check_task none suite_ids = err unknown_task
check_task (some suites) suite_ids = check_suites suites suite_ids

unfoldable pub check_tasks : ConditionManifest → List String → List ℕ → Result Failure (Unit {0})
unfolding check_suites
check_tasks m [] suite_ids = ok tt
check_tasks m (t ∷ more) suite_ids =
    check_task (m.tasks t) suite_ids >> check_tasks m more suite_ids

abbrev train_layouts : Option (ℕ → Option Suite) → ℕ → Option (List ℕ)
train_layouts none suite = none
train_layouts (some suites) suite = elim (suites suite) [
  | none ↦ none
  | some s ↦ some s.train_layout_ids
]

-- The dict of the training layouts: its keys are the tasks and suites of the configuration.
abbrev pub training_layouts : ConditionManifest → List String → List ℕ → Layouts
training_layouts m task_names suite_ids task suite =
    if one_of task task_names && member suite suite_ids
    then train_layouts (m.tasks task) suite
    else none

module _ (digest : List ℕ → ℕ) (spec : CollectionWindowSpec) (task_names : List String)
    (config : CollectorConfig) where
  module _ (layouts : Layouts) where
    unfoldable pub assignment_at : ℕ → Result ScheduleError Assignment
    assignment_at index =
        candidate_assignment digest spec task_names config.collection.suite_ids layouts
          config.run_seed index

    unfoldable pub assign_all : List ℕ → Result Failure (List Assignment)
    unfolding candidate_assignment
    assign_all [] = ok []
    assign_all (index ∷ more) = elim (assignment_at index) [
      | err e ↦ err (schedule_error e)
      | ok a ↦ (assign_all more >>= λ rest. ok (a ∷ rest))
    ]

  -- `_candidate_schedule`
  unfoldable pub candidate_schedule : ConditionManifest → Result Failure (List Assignment)
  unfolding check_tasks assign_all
  candidate_schedule m =
      raise_if (not (is_text m.sha256 config.collection.condition_manifest_sha256)) changed_manifest
      >> check_tasks m task_names config.collection.suite_ids
      >> assign_all (training_layouts m task_names config.collection.suite_ids)
          (range_from 0 spec.max_candidate_groups)

-- The assignments of one lane of the schedule.
unfoldable pub lane : ℕ → ℕ → List Assignment → List Assignment
lane count slot [] = []
lane count slot (a ∷ more) =
    let rest = lane count slot more in if a.candidate_index % count == slot then a ∷ rest else rest

module _ (digest : List ℕ → ℕ) (spec : CollectionWindowSpec) (task_names : List String)
    (config : CollectorConfig) where
  -- `_collector_assignments`
  unfoldable pub collector_assignments : ConditionManifest → Result Failure (List Assignment)
  unfolding candidate_schedule lane
  collector_assignments m =
      let count = config.collection.collector_count in
      raise_if (not (count == length task_names * length config.collection.suite_ids))
        wrong_lane_count
      >> raise_if (not (ltb config.collector_slot count)) bad_slot
      >> (candidate_schedule digest spec task_names config m >>= λ schedule.
          ok (lane count config.collector_slot schedule))

-- The width that the file of overrides has for a candidate; 0 where it has none.
abbrev pub override_of : Option (List ℕ → Option ℕ) → List ℕ → ℕ
override_of none id = 0
override_of (some candidates) id = elim (candidates id) [ none ↦ 0 | some width ↦ width ]

-- `_candidate_physical_batch_size`
unfoldable pub candidate_physical_batch_size :
    CollectorConfig
    → CollectionWindowSpec
    → Option (List ℕ → Option ℕ)
    → Assignment
    → Result Failure ℕ
unfolding candidate_id
candidate_physical_batch_size config spec overrides a =
    let asked = config.physical_rollout_batch_size in
    let found =
      if asked == 0 then override_of overrides (candidate_id a.candidate_index) else asked in
    let width = if found == 0 then spec.group_size else found in
    if ltb width 1 || not (spec.group_size % width == 0) then err bad_width else ok width
