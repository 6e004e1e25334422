-- ===== src/Collector/Queue.antt =====
-- `_shared_queue_collector`, `_claim_shared_worker_candidate` and `run_grfpo_collection_status`
-- (workflows/grfpo_fragmented_collection.py): a collector that stays on one task and suite, and takes its
-- candidates from the window. The loops run on fuel: `polls` for waiting, `rounds` for the candidates.
use verl_vla.Common.{
  ℕ, zero, suc, ◌*◌, ◌/◌, ◌%◌, String, Bool, ◌||◌, ◌&&◌, not, Option, none, some, List, [], ◌∷◌,
  ◌++◌, ltb, ◌==◌, if◌then◌else◌, length, get_elem?, is_some, replicate, take,
}
use verl_vla.Collection.Spec.{CollectionWindowSpec, is_text}
use verl_vla.Collection.Window.{Assignment, Lease}
use verl_vla.Collection.Leases.{claim_candidate, release_candidate_lease}
use verl_vla.Collection.Close.{close_if_ready}
use verl_vla.Collector.World.{
  Surroundings, Task, done, fail, ◌>>=◌, on_machine, on_store, read_store, protect, finally,
  set_held, from_result, changed_condition, bad_slot, wrong_lane_count,
}
use verl_vla.Collector.Lanes.{CollectorConfig, candidate_physical_batch_size}
use verl_vla.Collector.Group.{Machine, Batches, Collected, plain, collect_one_group}

abbrev pub ConditionKey : Type 0
ConditionKey = String × ℕ

abbrev pub condition : Assignment → ConditionKey
condition a = (a.task_name, a.suite_id)

abbrev pub same_key : ConditionKey → ConditionKey → Bool
same_key c d = is_text c.0 d.0 && c.1 == d.1

-- The `status` of what a collector returns; `unfinished` stands for fuel that ran out.
pub data Status : Type 0 where
  condition_drained window_closed unfinished : Status
  collector_complete window_closed_at_round_boundary collector_finished : Status

pub record Finished : Type 0 where
  pub status : Status
  pub results : List Collected

abbrev pub finished : Status → List Collected → Finished
finished s results = record { status = s; results = results }

-- How waiting for a candidate ends.
pub data Waited : Type 0 where
  leased : Lease → Waited
  closed_meanwhile : Waited
  still_waiting : Waited

module _ {B S O A F : Type 0} (around : Surroundings B) (machine : Machine S O A F)
    (batches : Batches B O A F) (spec : CollectionWindowSpec) (config : CollectorConfig)
    (owner : String) (assignments : List Assignment) where
  unfoldable pub claim : Option ConditionKey → Task B S (Option Lease)
  claim preferred = on_store around λ at token.
      claim_candidate spec owner config.candidate_lease_timeout at token assignments preferred

  unfoldable pub release : Lease → Task B S (Unit {0})
  release l = do _ ← on_store around λ at token. release_candidate_lease l; done tt

  -- `if lease is not None: store.release_candidate_lease(lease)`
  abbrev pub release_of : Option Lease → Task B S (Unit {0})
  release_of none = done tt
  release_of (some l) = release l

  abbrev pub release_held : Task B S (Unit {0})
  release_held w = release_of w.held w

  -- The loop that waits for a candidate of any condition.
  unfoldable pub wait_for_candidate : ℕ → Task B S Waited
  wait_for_candidate zero = done still_waiting
  wait_for_candidate (suc polls) = do
    closed ← on_store around λ at token. close_if_ready spec at
    is_closed ← read_store around λ w. is_some w.closed
    let again = do
      lease ← claim none
      elim lease [ none ↦ wait_for_candidate polls | some l ↦ done (leased l) ]
    if is_some closed || is_closed then done closed_meanwhile else again

  abbrev pub waited_after : ℕ → Option ConditionKey → Option Lease → Task B S Waited
  waited_after polls preferred (some l) = done (leased l)
  waited_after polls (some c) none = done closed_meanwhile
  waited_after polls none none = wait_for_candidate polls

  -- `_claim_shared_worker_candidate`, which answers `None` with nothing leased.
  unfoldable pub claim_shared_worker_candidate : ℕ → Option ConditionKey → Task B S Waited
  claim_shared_worker_candidate polls preferred = do
    lease ← claim preferred
    waited_after polls preferred lease

  -- The group of a leased candidate; an exception releases the lease.
  unfoldable pub collect_leased : ℕ → Lease → Task B S Collected
  collect_leased width l =
      protect (collect_one_group around machine batches spec config width l.assignment (some l))
        (release l)

  -- `_select_candidate_on_existing_env`
  unfoldable pub select_candidate : ℕ → Assignment → Task B S (Unit {0})
  select_candidate width a =
      on_machine
        λ s. plain (machine.install (replicate width a.layout_id) (take width a.policy_seeds) s)

  -- `while lease is not None`
  unfoldable pub warm_loop :
      ℕ → ℕ → ConditionKey → List Collected → Option Lease → Task B S Finished
  warm_loop rounds width c results none = done (finished condition_drained results)
  warm_loop zero width c results (some l) = done (finished unfinished results)
  warm_loop (suc rounds) width c results (some l) =
      let work = (do
        _ ← select_candidate width l.assignment
        r ← collect_leased width l
        let more = do
          lease ← claim (some c)
          _ ← set_held lease
          warm_loop rounds width c (results ++ r ∷ []) lease
        if is_some r.closed then done (finished window_closed (results ++ r ∷ [])) else more) in
      if same_key (condition l.assignment) c then work else fail changed_condition

  -- The `try` block of the collector, with its `except BaseException`.
  unfoldable pub work_guarded : ℕ → ℕ → Lease → Task B S Finished
  work_guarded rounds width l =
      protect
        (do
          _ ← on_machine λ s. plain (machine.load_model s)
          warm_loop rounds width (condition l.assignment) [] (some l))
        release_held

  -- From the first lease on: the environment is built for its condition and closed at the end.
  unfoldable pub work_warm : ℕ → Option (List ℕ → Option ℕ) → Lease → Task B S Finished
  work_warm rounds overrides l = do
    _ ← set_held (some l)
    width ← from_result (λ e. e) (candidate_physical_batch_size config spec overrides l.assignment)
    _ ← on_machine λ s. plain (machine.build l.assignment width s)
    finally (work_guarded rounds width l) (on_machine λ s. plain (machine.close s))

  abbrev pub work_waited : ℕ → Option (List ℕ → Option ℕ) → Waited → Task B S Finished
  work_waited rounds overrides (leased l) = work_warm rounds overrides l
  work_waited rounds overrides closed_meanwhile = done (finished window_closed [])
  work_waited rounds overrides still_waiting = done (finished unfinished [])

  -- After the first claim: a condition without work is drained at once; without a condition, wait.
  abbrev pub work_claimed :
      ℕ → ℕ → Option (List ℕ → Option ℕ) → Option ConditionKey → Option Lease → Task B S Finished
  work_claimed polls rounds overrides preferred (some l) = work_warm rounds overrides l
  work_claimed polls rounds overrides (some c) none = done (finished condition_drained [])
  work_claimed polls rounds overrides none none =
      wait_for_candidate polls >>= work_waited rounds overrides

  -- The task and the suite that a collector slot starts with.
  unfoldable pub preferred_condition : List String → Option ConditionKey
  preferred_condition task_names =
      let suites = config.collection.suite_ids in
      elim (get_elem? task_names (config.collector_slot / length suites)) [
        | none ↦ none
        | some t ↦ elim (get_elem? suites (config.collector_slot % length suites)) [
          | none ↦ none
          | some s ↦ some (t, s)
        ]
      ]

  -- `_shared_queue_collector`, with its schedule.
  unfoldable pub shared_queue_collector :
      ℕ → ℕ → Option (List ℕ → Option ℕ) → List String → Task B S Finished
  shared_queue_collector polls rounds overrides task_names =
      let count = config.collection.collector_count in
      let steal = config.shared_queue_steal_any in
      let preferred = if steal then none else preferred_condition task_names in
      if not (ltb config.collector_slot count)
      then fail bad_slot
      else if not steal && not (count == length task_names * length config.collection.suite_ids)
      then fail wrong_lane_count
      else claim preferred >>= work_claimed polls rounds overrides preferred
