-- ===== src/Rollout/Progress.antt =====
-- `update_progress_trajectory_counts` (utils/data.py) on one lane: the lanes of a batch do not touch each
-- other's state, and their counts are added up.
use verl_vla.Common.{ℕ, ◌+◌, Bool, false, ◌&&◌, ◌||◌, not, List, [], ◌∷◌}
use verl_vla.Common.Counting.{bit}

-- The state of a lane that is kept across chunks.
pub record LaneState : Type 0 where
  pub done : Bool
  pub success : Bool

pub record ProgressCounts : Type 0 where
  pub done_eps : ℕ
  pub succ_eps : ℕ

-- The lane within a chunk, with the counts.
pub record LaneStep : Type 0 where
  pub previous_done : Bool
  pub carried_success : Bool
  pub completed_this_chunk : Bool
  pub counts : ProgressCounts

abbrev add_counts : ProgressCounts → Bool → Bool → ProgressCounts
add_counts c newly_done succeeded = record {
  done_eps = c.done_eps + bit newly_done;
  succ_eps = c.succ_eps + bit succeeded;
}

-- The body of the loop, for a step's `done` and `success`.
unfoldable pub count_step : LaneStep → Bool → Bool → LaneStep
count_step s step_done step_success =
    let active = not s.previous_done && not s.completed_this_chunk in
    let carried = s.carried_success || (active && step_success) in
    let newly_done = active && step_done in
    let previous = s.previous_done || newly_done in
    let resumed = previous && not step_done in
    record {
      previous_done = previous && not resumed;
      carried_success = carried && not newly_done && not resumed;
      completed_this_chunk = s.completed_this_chunk || newly_done;
      counts = add_counts s.counts newly_done (newly_done && carried);
    }

unfoldable pub count_steps : LaneStep → List (Bool × Bool) → LaneStep
unfolding count_step
count_steps s [] = s
count_steps s ((d, w) ∷ steps) = count_steps (count_step s d w) steps

-- `update_progress_trajectory_counts`
unfoldable pub update_progress_trajectory_counts :
    LaneState → ProgressCounts → List (Bool × Bool) → LaneState × ProgressCounts
unfolding count_steps
update_progress_trajectory_counts lane counts steps =
    let last =
      count_steps
        (record {
          previous_done = lane.done;
          carried_success = lane.success;
          completed_this_chunk = false;
          counts = counts;
        })
        steps in
    (record { done = last.previous_done; success = last.carried_success }, last.counts)
