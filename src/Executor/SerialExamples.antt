-- ===== src/Executor/SerialExamples.antt =====
-- The serial executor (envs/action_executor.py) on two lanes: plans of four steps, of which two are executed and
-- two are blended into the next plan; lane 1 is reset after the first exchange.
use verl_vla.Common.{
  ℕ, ◌+◌, ◌*◌, ◌≡◌, refl, Bool, true, false, some, List, [], ◌∷◌, take, drop, arith, Result, ok,
  err,
}
use verl_vla.Executor.Chunk.{
  ExecError, SerialActionSmoothingConfig, three_dims, two_dims, blend_first, normalize_action_chunk,
  interpolate,
}
use verl_vla.Executor.Loop.{prepare}
use verl_vla.Executor.Serial.{
  SerialExecutor, new_serial, SerialPlan, Stepper, plan_chunk, forget_lanes, serial_exchange,
  smooth_serial_action_chunks, blend_tail, blend_valid, and_not, plan, run_steps, finish_steps,
  SerialError,
}
use verl_vla.Executor.SerialLanes.{lane_actions}
use verl_vla.Executor.SerialResets.{plan_chunk-lanes}

abbrev smoothing : SerialActionSmoothingConfig
smoothing = record { enable = true; execution_steps = 2; blend_steps = 2 }

abbrev mix : ℕ → ℕ → List ℕ → List ℕ → List ℕ
mix n d a b = a

abbrev mix_value : ℕ → ℕ → ℕ → ℕ → ℕ
mix_value n d a b = a

-- The old action, the new one and the number of the step can be read off the blended action.
abbrev blend : ℕ → ℕ → ℕ → ℕ → ℕ
blend i n p x = 10_000 * p + 10 * x + i

abbrev first_actions : List (List ℕ)
first_actions = (1 ∷ 5 ∷ []) ∷ (2 ∷ 6 ∷ []) ∷ (3 ∷ 7 ∷ []) ∷ (4 ∷ 8 ∷ []) ∷ []

abbrev next_actions : List (List ℕ)
next_actions = (31 ∷ 71 ∷ []) ∷ (41 ∷ 81 ∷ []) ∷ (51 ∷ 91 ∷ []) ∷ (61 ∷ 11 ∷ []) ∷ []

abbrev values : List ℕ
values = 0 ∷ 0 ∷ 0 ∷ 0 ∷ []

-- The environments record what they are sent; the first exchange ends with a reset of lane 1.
abbrev stepper : Stepper (List (List ℕ)) ℕ ℕ ℕ ℕ
stepper = record {
  step = λ a v first s. (some 0, a ∷ s);
  finish = λ steps s. (some (0, false ∷ true ∷ []), s);
}

abbrev exchange_all :
    List (List ℕ)
    → SerialExecutor ℕ × List (List ℕ)
    → Result SerialError ℕ × (SerialExecutor ℕ × List (List ℕ))
exchange_all actions state =
    serial_exchange mix mix_value blend 1 smoothing stepper (three_dims 2 actions)
      (two_dims 2 values) state

-- Lane 0 is sent the blended actions, lane 1 the planned ones.
two_exchanges-test :
    (exchange_all next_actions (exchange_all first_actions (new_serial, [])).1).1.1
    ≡ (40_411 ∷ 81 ∷ []) ∷ (30_310 ∷ 71 ∷ []) ∷ (2 ∷ 6 ∷ []) ∷ (1 ∷ 5 ∷ []) ∷ []
unfolding serial_exchange prepare normalize_action_chunk interpolate plan plan_chunk run_steps
    finish_steps forget_lanes and_not smooth_serial_action_chunks blend_tail blend_valid blend_first
two_exchanges-test = refl

abbrev plan_of : List (List ℕ) → SerialExecutor ℕ → Result ExecError (SerialPlan ℕ ℕ)
plan_of actions ex = plan_chunk mix mix_value blend 1 smoothing 2 (actions, values) ex

abbrev plan_or : SerialPlan ℕ ℕ → Result ExecError (SerialPlan ℕ ℕ) → SerialPlan ℕ ℕ
plan_or d (ok p) = p
plan_or d (err e) = d

abbrev no_plan : SerialPlan ℕ ℕ
no_plan = record { actions = []; values = []; executor = new_serial }

abbrev first_plan : SerialPlan ℕ ℕ
first_plan = plan_or no_plan (plan_of first_actions new_serial)

abbrev reset_mask : List Bool
reset_mask = false ∷ true ∷ []

abbrev next_plan : SerialPlan ℕ ℕ
next_plan = plan_or no_plan (
    plan_of next_actions
      (forget_lanes mix mix_value blend 1 smoothing reset_mask first_plan.executor))

plan_chunk-lanes_example :
    (kept : List (List ℕ)) × (smooth_serial_action_chunks blend smoothing new_serial 2 first_actions
      ≡ ok kept)
    × (first_plan.executor.previous_actions ≡ some (2, kept))
    × (first_plan.actions ≡ take 2 kept)
    × (lane_actions 0 0 next_plan.actions
        ≡ take 2 (
            blend_first blend smoothing.blend_steps 0 smoothing.blend_steps
              (drop 2 (lane_actions 0 0 kept))
              (lane_actions 0 0 next_actions)))
unfolding plan_chunk forget_lanes and_not smooth_serial_action_chunks blend_tail blend_valid
    blend_first
plan_chunk-lanes_example =
    plan_chunk-lanes mix mix_value blend 1 smoothing 0 reset_mask 0 (first_actions, values)
      (next_actions, values) new_serial first_plan next_plan refl (omega arith)
      (refl, (refl, (refl, (refl, tt)))) (refl, (refl, (refl, (refl, tt)))) refl refl
