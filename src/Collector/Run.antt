-- ===== src/Collector/Run.antt =====
-- `run_grfpo_collector` and `run_grfpo_collection_status` (workflows/grfpo_fragmented_collection.py). The
-- workers that share one model on a GPU, `_shared_model_multiprocess_collector`, are an argument.
use verl_vla.Common.{
  ℕ, zero, suc, String, Bool, true, Option, none, List, [], ◌∷◌, ◌++◌, length, ltb, if◌then◌else◌,
  is_some, all,
}
use verl_vla.Collection.Spec.{CollectionWindowSpec}
use verl_vla.Collection.Window.{Assignment, Closing, candidate_complete}
use verl_vla.Collection.Leases.{round_ready_to_start}
use verl_vla.Collection.Close.{close_if_ready, initialize, completed_count}
use verl_vla.Collector.World.{
  Surroundings, Task, done, fail, ◌>>=◌, on_machine, on_store, read_store, finally, from_result,
  mixed_conditions, no_shared_queue,
}
use verl_vla.Collector.Lanes.{
  CollectorConfig, ConditionManifest, candidate_schedule, collector_assignments,
}
use verl_vla.Collector.Group.{Machine, Batches, Collected, plain, collect_one_group}
use verl_vla.Collector.Queue.{
  condition, same_key, Finished, finished, window_closed, unfinished, collector_complete,
  window_closed_at_round_boundary, collector_finished, shared_queue_collector,
}

-- How waiting for a round ends.
pub data Round : Type 0 where
  may_start closed_before still_closed : Round

-- One task and suite for all.
abbrev pub one_condition : List Assignment → Bool
one_condition [] = true
one_condition (a ∷ more) = all (λ x. same_key (condition x) (condition a)) more

pub record Report : Type 0 where
  pub accepted_groups : ℕ
  pub rejected_groups : ℕ
  pub completed_candidate_groups : ℕ
  pub closed : Option Closing

module _ {B S : Type 0} (around : Surroundings B) (spec : CollectionWindowSpec) where
  -- `run_grfpo_collection_status`
  unfoldable pub run_grfpo_collection_status : Task B S Report
  run_grfpo_collection_status = do
    _ ← on_store around λ at token. initialize spec
    closed ← on_store around λ at token. close_if_ready spec at
    read_store around λ w. record {
      accepted_groups = length w.accepted;
      rejected_groups = length w.rejected;
      completed_candidate_groups = completed_count w;
      closed = closed;
    }

  -- The assignments whose candidates have no outcome yet.
  unfoldable pub not_complete : List Assignment → Task B S (List Assignment)
  not_complete [] = done []
  not_complete (a ∷ more) = do
    is_complete ← read_store around λ w. candidate_complete w a.candidate_index
    rest ← not_complete more
    done (if is_complete then rest else a ∷ rest)

  -- The wait before the first candidate of a round.
  unfoldable pub wait_for_round : ℕ → ℕ → Task B S Round
  wait_for_round zero index = done still_closed
  wait_for_round (suc polls) index = do
    ready ← read_store around λ w. round_ready_to_start spec w index
    let again = do
      is_closed ← read_store around λ w. is_some w.closed
      let more = wait_for_round polls index
      if is_closed then done closed_before else more
    if ready then done may_start else again

module _ {B S O A F : Type 0} (around : Surroundings B) (machine : Machine S O A F)
    (batches : Batches B O A F) (spec : CollectionWindowSpec) (config : CollectorConfig) where
  -- After a collected group: the lane ends with the window.
  abbrev pub after_group :
      (List Collected → Task B S Finished) → List Collected → Collected → Task B S Finished
  after_group later results r =
      if is_some r.closed
      then done (finished collector_finished (results ++ r ∷ []))
      else later (results ++ r ∷ [])

  -- One assignment of a lane, in its round.
  unfoldable pub lane_turn :
      (List Collected → Task B S Finished) → List Collected → Assignment → Round → Task B S Finished
  lane_turn later results a closed_before = done (finished window_closed_at_round_boundary results)
  lane_turn later results a still_closed = done (finished unfinished results)
  lane_turn later results a may_start = do
    is_closed ← read_store around λ w. is_some w.closed
    let collect =
        collect_one_group around machine batches spec config spec.group_size a none
        >>= after_group later results
    let go_on = do
      is_complete ← read_store around λ w. candidate_complete w a.candidate_index
      if is_complete then later results else collect
    if is_closed then done (finished collector_finished results) else go_on

  -- The loop over the assignments of a lane.
  unfoldable pub lane_loop : ℕ → List Collected → List Assignment → Task B S Finished
  lane_loop polls results [] = done (finished collector_finished results)
  lane_loop polls results (a ∷ more) = do
    round ← wait_for_round around spec polls a.candidate_index
    lane_turn (λ rs. lane_loop polls rs more) results a round

  -- A lane with its assignments that are not complete.
  unfoldable pub work_lane : ℕ → List Assignment → Task B S Finished
  work_lane polls [] = done (finished collector_complete [])
  work_lane polls (a ∷ more) =
      let run_lane = (do
        _ ← on_machine λ s. plain (machine.build_lane (a ∷ more) s)
        finally (do _ ← on_machine λ s. plain (machine.load_model s); lane_loop polls [] (a ∷ more))
            (on_machine λ s. plain (machine.close s))) in
      if one_condition (a ∷ more) then run_lane else fail mixed_conditions

  module _ (digest : List ℕ → ℕ) (task_names : List String) (manifest : ConditionManifest)
      (overrides : Option (List ℕ → Option ℕ)) (owner : String) (polls rounds : ℕ)
      (multiprocess : Task B S Finished) where
    abbrev pub run_queue : Task B S Finished
    run_queue = do
      assignments ← from_result (λ e. e) (candidate_schedule digest spec task_names config manifest)
      shared_queue_collector around machine batches spec config owner assignments polls rounds
          overrides task_names

    abbrev pub run_lane : Task B S Finished
    run_lane = do
      assignments ←
          from_result (λ e. e) (collector_assignments digest spec task_names config manifest)
      todo ← not_complete around spec assignments
      work_lane polls todo

    -- `run_grfpo_collector`
    unfoldable pub run_grfpo_collector : Task B S Finished
    run_grfpo_collector = do
      _ ← on_store around λ at token. initialize spec
      is_closed ← read_store around λ w. is_some w.closed
      if is_closed
          then done (finished window_closed [])
          else if ltb 1 config.simulators_per_gpu
          then (if config.shared_candidate_queue then multiprocess else fail no_shared_queue)
          else if config.shared_candidate_queue
          then run_queue
          else run_lane
