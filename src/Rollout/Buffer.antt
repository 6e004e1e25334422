-- ===== src/Rollout/Buffer.antt =====
-- `EpisodeBuffer` (trainer/sac/episode_buffer.py): the raw steps of each lane are kept until an episode
-- is complete. A rollout is a list of lanes of steps.
use verl_vla.Common.{
  Bool, true, false, ◌||◌, not, List, [], ◌∷◌, ◌++◌, Option, none, some, length, ltb, if◌then◌else◌,
  any, Result, ok, err, ◌>>=◌,
}

-- A step with the flags of its substeps.
pub record Step (D : Type 0) : Type 0 where
  pub terminated : List Bool
  pub truncated : List Bool
  pub tensors : D

-- `reduce_substep_dims` with `any`, on both flags.
abbrev pub is_done : {D : Type 0} → Step D → Bool
is_done s = any (λ b. b) s.terminated || any (λ b. b) s.truncated

pub data BufferError : Type 0 where
  lane_out_of_range unfinished_lanes : BufferError

pub record EpisodeBuffer (D : Type 0) : Type 0 where
  pub auto_reset : Bool
  pub lanes : Option (List (List (Step D)))

module _ {D : Type 0} where
  -- The loop over the steps of one lane: what stays in its buffer, and the episodes it completes. An
  -- episode of one step is padding and is dropped.
  unfoldable pub ingest_lane : List (Step D) → List (Step D) → List (Step D) × List (List (Step D))
  ingest_lane buffer [] = (buffer, [])
  ingest_lane buffer (s ∷ steps) =
      let filled = buffer ++ s ∷ [] in
      let restarted = ingest_lane [] steps in
      let continued = ingest_lane filled steps in
      if is_done s
      then if ltb 1 (length filled) then (restarted.0, filled ∷ restarted.1) else restarted
      else continued

  -- The loop over the lanes: the episodes and the buffers; a lane without a buffer is an index out of range,
  -- which leaves the lanes before it as they are by then.
  unfoldable pub ingest_lanes :
      List (List (Step D))
      → List (List (Step D))
      → Result BufferError (List (List (Step D))) × List (List (Step D))
  unfolding ingest_lane
  ingest_lanes buffers [] = (ok [], buffers)
  ingest_lanes [] (steps ∷ rollout) = (err lane_out_of_range, [])
  ingest_lanes (buffer ∷ buffers) (steps ∷ rollout) =
      let here = ingest_lane buffer steps in
      let rest = ingest_lanes buffers rollout in
      (rest.0 >>= λ episodes. ok (here.1 ++ episodes), here.0 ∷ rest.1)

  abbrev pub empty_lanes : List (List (Step D)) → List (List (Step D))
  empty_lanes [] = []
  empty_lanes (steps ∷ rollout) = [] ∷ empty_lanes rollout

  abbrev pub buffers_of :
      Option (List (List (Step D))) → List (List (Step D)) → List (List (Step D))
  buffers_of none rollout = empty_lanes rollout
  buffers_of (some buffers) rollout = buffers

  abbrev pub is_unfinished : List (Step D) → Bool
  is_unfinished [] = false
  is_unfinished (s ∷ steps) = true

  -- Without auto reset, a lane that is left unfinished is an error; the buffers have changed by then.
  abbrev pub check_unfinished :
      Bool → List (List (Step D)) → List (List (Step D)) → Result BufferError (List (List (Step D)))
  check_unfinished auto_reset buffers episodes =
      if not auto_reset
      then if any is_unfinished buffers then err unfinished_lanes else ok episodes
      else ok episodes

  abbrev pub finish_ingest :
      EpisodeBuffer D
      → Result BufferError (List (List (Step D))) × List (List (Step D))
      → Result BufferError (List (List (Step D))) × EpisodeBuffer D
  finish_ingest b (r, buffers) =
      (r >>= check_unfinished b.auto_reset buffers, record b { lanes = some buffers })

  -- `ingest`: the episodes or the error, and the buffer after it.
  unfoldable pub ingest :
      EpisodeBuffer D
      → List (List (Step D))
      → Result BufferError (List (List (Step D))) × EpisodeBuffer D
  unfolding ingest_lanes
  ingest b rollout = finish_ingest b (ingest_lanes (buffers_of b.lanes rollout) rollout)
