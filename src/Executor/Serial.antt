-- ===== src/Executor/Serial.antt =====
-- `SerialActionExecutor` and `smooth_serial_action_chunks` (envs/action_executor.py). A column of actions is the list
-- of its lanes, one for each environment; `blend i n p x` is the action of one lane at the smooth step number `i`
-- of `n` from `p` to `x`. The functions that step the environments are an interface.
use verl_vla.Common.{
  ℕ, ◌+◌, Bool, true, false, ◌&&◌, not, Option, none, some, List, [], ◌∷◌, length, take, drop,
  replicate, any, Result, ok, err, ltb, ◌==◌, if◌then◌else◌,
}
use verl_vla.Executor.Chunk.{
  ExecError, short_plan, changed_shape, SerialActionSmoothingConfig, ActionArray, three_dims,
  ValueArray, blend_first,
}
use verl_vla.Executor.Loop.{prepare}

-- The fields that `SerialActionExecutor.__init__` sets; an action plan is kept with its number of lanes.
pub record SerialExecutor (R : Type 0) : Type 0 where
  pub previous_actions : Option (ℕ × List (List R))
  pub previous_valid : Option (List Bool)

abbrev pub new_serial : {R : Type 0} → SerialExecutor R
new_serial = record { previous_actions = none; previous_valid = none }

-- `a & ~b`, lane by lane.
unfoldable pub and_not : List Bool → List Bool → List Bool
and_not (a ∷ as_) (b ∷ bs) = (a && not b) ∷ and_not as_ bs
and_not _ _ = []

module _ {R : Type 0} (blend : ℕ → ℕ → R → R → R) where
  -- The lanes of a column that are valid, blended; the others as they are.
  unfoldable pub blend_valid : List Bool → ℕ → ℕ → List R → List R → List R
  blend_valid (true ∷ valid) i n (p ∷ ps) (x ∷ xs) = blend i n p x ∷ blend_valid valid i n ps xs
  blend_valid (false ∷ valid) i n (p ∷ ps) (x ∷ xs) = x ∷ blend_valid valid i n ps xs
  blend_valid _ _ _ _ xs = xs

  abbrev pub valid_of : ℕ → Option (List Bool) → List Bool
  valid_of lanes none = replicate lanes true
  valid_of lanes (some valid) = valid

  unfoldable pub blend_tail :
      SerialActionSmoothingConfig → List Bool → List (List R) → List (List R) → List (List R)
  unfolding blend_first blend_valid
  blend_tail c valid previous next =
      if any (λ v. v) valid
      then blend_first (blend_valid valid) c.blend_steps 0 c.blend_steps
          (drop c.execution_steps previous) next
      else next

  abbrev pub smooth_after :
      SerialActionSmoothingConfig
      → Option (List Bool)
      → Option (ℕ × List (List R))
      → ℕ
      → List (List R)
      → Result ExecError (List (List R))
  smooth_after c valid none lanes next = ok next
  smooth_after c valid (some (old_lanes, previous)) lanes next =
      if not (old_lanes == lanes && length previous == length next)
      then err changed_shape
      else ok (blend_tail c (valid_of lanes valid) previous next)

  -- `smooth_serial_action_chunks`
  unfoldable pub smooth_serial_action_chunks :
      SerialActionSmoothingConfig
      → SerialExecutor R
      → ℕ
      → List (List R)
      → Result ExecError (List (List R))
  unfolding blend_tail
  smooth_serial_action_chunks c ex lanes next =
      if ltb (length next) (c.execution_steps + c.blend_steps)
      then err short_plan
      else smooth_after c ex.previous_valid ex.previous_actions lanes next

-- The functions `step_fn` and `finish_fn`, over the environments' state `S`; each may raise.
pub record Stepper (S R V X Y : Type 0) : Type 0 where
  pub step : List R → V → Bool → S → Option X × S
  pub finish : List X → S → Option (Y × List Bool) × S

pub data SerialError : Type 0 where
  plan_error : ExecError → SerialError
  step_error finish_error : SerialError

-- What `exchange` is to execute, and the plan that it keeps.
pub record SerialPlan (R V : Type 0) : Type 0 where
  pub actions : List (List R)
  pub values : List V
  pub executor : SerialExecutor R

module _ {R V : Type 0} (mix : ℕ → ℕ → List R → List R → List R) (mix_value : ℕ → ℕ → V → V → V)
    (blend : ℕ → ℕ → R → R → R) (factor : ℕ) (c : SerialActionSmoothingConfig) where
  -- The smoothing of a prepared chunk: a prefix of the plan is executed, and the plan is kept.
  unfoldable pub plan_chunk :
      ℕ → List (List R) × List V → SerialExecutor R → Result ExecError (SerialPlan R V)
  unfolding smooth_serial_action_chunks
  plan_chunk lanes chunk ex =
      if not c.enable
      then ok (record { actions = chunk.0; values = chunk.1; executor = ex })
      else elim (smooth_serial_action_chunks blend c ex lanes chunk.0) [
        | err e ↦ err e
        | ok smoothed ↦ ok (record {
          actions = take c.execution_steps smoothed;
          values = take c.execution_steps chunk.1;
          executor = record {
            previous_actions = some (lanes, smoothed);
            previous_valid = some (replicate lanes true);
          };
        })
      ]

  abbrev pub lanes_of : ActionArray (List R) → ℕ
  lanes_of (three_dims lanes columns) = lanes
  lanes_of _ = 0

  unfoldable pub plan :
      ActionArray (List R) → ValueArray V → SerialExecutor R → Result ExecError (SerialPlan R V)
  unfolding prepare plan_chunk
  plan actions values ex = elim (prepare mix mix_value factor actions values) [
    | err e ↦ err e
    | ok chunk ↦ plan_chunk (lanes_of actions) chunk ex
  ]

  -- `self._previous_valid &= ~reset_mask`
  unfoldable pub forget_lanes : List Bool → SerialExecutor R → SerialExecutor R
  unfolding and_not
  forget_lanes mask ex = record ex {
    previous_valid = elim ex.previous_valid [
      | none ↦ none
      | some valid ↦ some (and_not valid mask)
    ];
  }

  module _ {S X Y : Type 0} (stepper : Stepper S R V X Y) where
    -- The steps of a plan; the first of them is told so.
    unfoldable pub run_steps : Bool → List (List R) → List V → S → Option (List X) × S
    run_steps first (a ∷ actions) (v ∷ values) s =
        let answer = stepper.step a v first s in
        let rest = run_steps false actions values answer.1 in
        elim answer.0 [
          | none ↦ (none, answer.1)
          | some x ↦ (elim rest.0 [ none ↦ none | some xs ↦ some (x ∷ xs) ], rest.1)
        ]
    run_steps first _ _ s = (some [], s)

    unfoldable pub finish_steps :
        SerialExecutor R → Option (List X) × S → Result SerialError Y × (SerialExecutor R × S)
    unfolding forget_lanes
    finish_steps ex (none, s) = (err step_error, (ex, s))
    finish_steps ex (some steps, s) = elim (stepper.finish steps s).0 [
      | none ↦ (err finish_error, (ex, (stepper.finish steps s).1))
      | some answer ↦ (ok answer.0, (forget_lanes answer.1 ex, (stepper.finish steps s).1))
    ]

    -- `SerialActionExecutor.exchange`
    unfoldable pub serial_exchange :
        ActionArray (List R)
        → ValueArray V
        → SerialExecutor R × S
        → Result SerialError Y × (SerialExecutor R × S)
    unfolding plan run_steps finish_steps
    serial_exchange actions values (ex, s) = elim (plan actions values ex) [
      | err e ↦ (err (plan_error e), (ex, s))
      | ok p ↦ finish_steps p.executor (run_steps true p.actions p.values s)
    ]

-- `SerialActionExecutor.reset`
abbrev pub reset_serial : {R : Type 0} → SerialExecutor R → SerialExecutor R
reset_serial ex = record { previous_actions = none; previous_valid = none }
