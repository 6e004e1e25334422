-- ===== src/Rollout/Examples.antt =====
-- A lane of four steps through trainer/sac/episode_buffer.py and utils/data.py.
use verl_vla.Common.{
  ◌≤◌, Bool, ◌+◌, ℕ, ◌≡◌, ◌↔◌, refl, true, false, List, [], ◌∷◌, ◌++◌, none, some, err, ◌==◌, flat,
  arith,
}
use verl_vla.Rollout.Buffer.{
  Step, EpisodeBuffer, ingest_lane, ingest_lanes, ingest, unfinished_lanes, lane_out_of_range,
}
use verl_vla.Rollout.Episodes.{Ingests, ingest-Ingests}
use verl_vla.Rollout.Masks.{Mask, transition_masks}
use verl_vla.Rollout.Progress.{
  LaneState, ProgressCounts, update_progress_trajectory_counts, count_steps, count_step,
}
use verl_vla.Rollout.Edges.{rises, done_after, RisesOnce, count_chunks, count_chunks-rises}
use verl_vla.Rollout.Segments.{DoneAfter, transition_masks-valid_iff}

abbrev running : ℕ → Step ℕ
running n = record { terminated = false ∷ []; truncated = false ∷ []; tensors = n }

abbrev done : ℕ → Step ℕ
done n = record { terminated = false ∷ true ∷ []; truncated = false ∷ []; tensors = n }

abbrev new_buffer : EpisodeBuffer ℕ
new_buffer = record { auto_reset = true; lanes = none }

abbrev rollout : List (List (Step ℕ))
rollout = (running 1 ∷ done 2 ∷ done 3 ∷ running 4 ∷ []) ∷ []

-- Two lanes, of which the first continues the episode in its buffer.
abbrev two_lanes : EpisodeBuffer ℕ
two_lanes = record { auto_reset = false; lanes = some ((running 0 ∷ []) ∷ [] ∷ []) }

abbrev two_rows : List (List (Step ℕ))
two_rows = (running 1 ∷ done 2 ∷ done 3 ∷ []) ∷ (running 4 ∷ done 5 ∷ running 6 ∷ []) ∷ []

two_lanes-test :
    ingest two_lanes two_rows
    ≡ (err unfinished_lanes, record two_lanes { lanes = some ([] ∷ (running 6 ∷ []) ∷ []) })
unfolding ingest ingest_lanes ingest_lane
two_lanes-test = refl

-- A rollout of three lanes into two buffers: both are filled before the error.
three_rows-test :
    ingest (record two_lanes { auto_reset = true }) (two_rows ++ (done 7 ∷ []) ∷ []) ≡ (
      err lane_out_of_range,
      record { auto_reset = true; lanes = some ([] ∷ (running 6 ∷ []) ∷ []) },
    )
unfolding ingest ingest_lanes ingest_lane
three_rows-test = refl

ingest-Ingests_example :
    Ingests false ((running 0 ∷ []) ∷ [] ∷ []) two_rows (ingest two_lanes two_rows)
ingest-Ingests_example = ingest-Ingests two_lanes two_rows ((refl, tt), (tt, tt))

abbrev done_steps : Mask
done_steps i = i == 2

abbrev success_steps : Mask
success_steps i = i == 1

transition_masks-valid_iff_example :
    ((transition_masks 4 done_steps success_steps).0 1 ≡ true) ↔ DoneAfter done_steps 1 0 4
transition_masks-valid_iff_example = transition_masks-valid_iff 4 done_steps success_steps 1

abbrev lane : LaneState
lane = record { done = false; success = true }

abbrev counts : ProgressCounts
counts = record { done_eps = 3; succ_eps = 2 }

-- Three chunks: `done` rises in the first, stays up through the second, and rises again in the third.
abbrev chunks : List (List (Bool × Bool))
chunks =
    ((false, false) ∷ (true, false) ∷ [])
    ∷ ((true, false) ∷ (true, false) ∷ [])
    ∷ ((false, true) ∷ (true, true) ∷ [])
    ∷ []

count_chunks-rises_example :
    let next = (count_chunks lane counts chunks).1 in
    (next.done_eps ≡ 3 + rises false (flat chunks))
    × (next.succ_eps ≤ 2 + rises false (flat chunks))
    × (2 ≤ next.succ_eps)
unfolding RisesOnce rises done_after
count_chunks-rises_example =
    count_chunks-rises lane counts chunks (omega arith, (omega arith, (omega arith, tt)))

chunks-test : (count_chunks lane counts chunks).1 ≡ record { done_eps = 5; succ_eps = 4 }
unfolding count_chunks update_progress_trajectory_counts count_steps count_step
chunks-test = refl
