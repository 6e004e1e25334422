-- ===== src/Executor/SerialResets.antt =====
-- Two exchanges of the serial executor (envs/action_executor.py) with resets in between.
use verl_vla.Common.{
  ℕ, ◌<◌, ◌≡◌, refl, sym, ap, ◌∙◌, Bool, true, false, some, List, length, take, drop, replicate,
  arith, ok, if◌then◌else◌, Result-cases, Bool-cases, inl, inr, subst,
}
use verl_vla.Executor.Chunk.{SerialActionSmoothingConfig, blend_first}
use verl_vla.Executor.Serial.{
  SerialExecutor, and_not, blend_tail, smooth_serial_action_chunks, plan_chunk, SerialPlan,
  forget_lanes,
}
use verl_vla.Executor.SerialLanes.{
  get_or, lane_actions, HasLanes, map-take, map-drop, smooth-HasLanes, length-and_not,
  get_or-and_not, blend_tail-lanes,
}

module _ {R V : Type 0} (mix : ℕ → ℕ → List R → List R → List R) (mix_value : ℕ → ℕ → V → V → V)
    (blend : ℕ → ℕ → R → R → R) (factor : ℕ) (c : SerialActionSmoothingConfig) (d : R) where
  -- What an exchange keeps of its plan, and executes of it.
  plan_chunk-Kept :
      (lanes : ℕ) (chunk : List (List R) × List V) (ex : SerialExecutor R) (p : SerialPlan R V)
      → c.enable ≡ true
      → plan_chunk mix mix_value blend factor c lanes chunk ex ≡ ok p
      → (plan : List (List R)) × (smooth_serial_action_chunks blend c ex lanes chunk.0 ≡ ok plan)
        × (p.actions ≡ take c.execution_steps plan)
        × (p.executor ≡ record {
          previous_actions = some (lanes, plan);
          previous_valid = some (replicate lanes true);
        })
  unfolding plan_chunk
  plan_chunk-Kept lanes chunk ex p on e =
      elim (Result-cases (smooth_serial_action_chunks blend c ex lanes chunk.0)) [
        | inr (f, q) ↦ absurd (ground (arith, on, e, q))
        | inl (plan, q) ↦ (plan, q, ground (arith, on, e, q), ground (arith, on, e, q))
      ]

  smoothed_kept :
      (lanes : ℕ) (valid : List Bool) (kept next plan : List (List R))
      → smooth_serial_action_chunks blend c
          (record { previous_actions = some (lanes, kept); previous_valid = some valid })
          lanes
          next
        ≡ ok plan
      → blend_tail blend c valid kept next ≡ plan
  unfolding smooth_serial_action_chunks
  smoothed_kept lanes valid kept next plan e = ground (arith, e)

  forgotten :
      (lanes : ℕ) (kept : List (List R)) (mask : List Bool) (ex : SerialExecutor R)
      → ex ≡ record {
        previous_actions = some (lanes, kept);
        previous_valid = some (replicate lanes true);
      }
      → forget_lanes mix mix_value blend factor c mask ex ≡ record {
        previous_actions = some (lanes, kept);
        previous_valid = some (and_not (replicate lanes true) mask);
      }
  unfolding forget_lanes
  forgotten lanes kept mask ex e = ap (forget_lanes mix mix_value blend factor c mask) e

  as_planned :
      (mask : List Bool) (j : ℕ) (kept next : List (List R))
      → (if get_or false (and_not (replicate (length mask) true) mask) j
          then blend_first blend c.blend_steps 0 c.blend_steps
              (lane_actions d j (drop c.execution_steps kept))
              (lane_actions d j next)
          else lane_actions d j next)
        ≡ (if get_or true mask j
            then lane_actions d j next
            else blend_first blend c.blend_steps 0 c.blend_steps
                (drop c.execution_steps (lane_actions d j kept))
                (lane_actions d j next))
  as_planned mask j kept next =
      let flip = get_or-and_not blend d mask j in
      let moved = map-drop (λ column. get_or d column j) c.execution_steps kept in
      elim (Bool-cases (get_or true mask j)) [
        | inl was_reset ↦ rw (flip, was_reset) refl
        | inr went_on ↦ rw (flip, went_on, moved) refl
      ]

  -- Smoothing never mixes two episodes. Let the serial executor plan two chunks, one after the other, with a
  -- value for each lane in every column, and let the environments of `mask` be reset in between. What it
  -- keeps of the first is the whole smoothed plan, of which it executes the first `execution_steps`
  -- columns. In the second, a lane that was reset gets its new actions just as they are planned; any other
  -- lane gets them with the first `blend_steps` of them blended with the same lane of the kept plan,
  -- from its first action not executed on.
  pub plan_chunk-lanes :
      (mask : List Bool) (j : ℕ) (first next : List (List R) × List V) (ex : SerialExecutor R)
      (p q : SerialPlan R V)
      → c.enable ≡ true
      → j < length mask
      → HasLanes (length mask) first.0
      → HasLanes (length mask) next.0
      → plan_chunk mix mix_value blend factor c (length mask) first ex ≡ ok p
      → plan_chunk mix mix_value blend factor c
          (length mask)
          next
          (forget_lanes mix mix_value blend factor c mask p.executor)
        ≡ ok q
      → (kept : List (List R)) × (smooth_serial_action_chunks blend c ex (length mask) first.0
          ≡ ok kept)
        × (p.executor.previous_actions ≡ some (length mask, kept))
        × (p.actions ≡ take c.execution_steps kept)
        × (lane_actions d j q.actions
            ≡ take c.execution_steps (
                if get_or true mask j
                then lane_actions d j next.0
                else blend_first blend c.blend_steps 0 c.blend_steps
                    (drop c.execution_steps (lane_actions d j kept))
                    (lane_actions d j next.0)))
  plan_chunk-lanes mask j first next ex p q on inside hf hn e e' =
      let lanes = length mask in
      let valid = and_not (replicate lanes true) mask in
      let (kept, smoothed, executed, state) = plan_chunk-Kept lanes first ex p on e in
      let (plan, smoothed', executed', state') =
        plan_chunk-Kept lanes next (forget_lanes mix mix_value blend factor c mask p.executor) q on
          e' in
      let tail : blend_tail blend c valid kept next.0 ≡ plan =
        smoothed_kept lanes valid kept next.0 plan (
          subst (λ x. smooth_serial_action_chunks blend c x lanes next.0 ≡ ok plan)
            (forgotten lanes kept mask p.executor state) smoothed') in
      let whole = smooth-HasLanes blend d c ex lanes first.0 kept hf smoothed in
      let same = length-and_not blend d mask in
      let by_lane =
        blend_tail-lanes blend d c valid j kept next.0 (omega (arith, same, inside))
          (subst (λ n. HasLanes n kept) (sym same) whole)
          (subst (λ n. HasLanes n next.0) (sym same) hn) in
      (
        kept,
        smoothed,
        ap (λ x. x.previous_actions) state,
        executed,
        ap (lane_actions d j) executed'
            ∙ map-take (λ column. get_or d column j) c.execution_steps plan
            ∙ ap (λ x. take c.execution_steps (lane_actions d j x)) (sym tail)
            ∙ ap (take c.execution_steps) (by_lane ∙ as_planned mask j kept next.0),
      )
