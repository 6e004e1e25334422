-- ===== src/Executor/Loop.antt =====
-- `AsyncActionExecutor` (envs/action_executor.py) as a state and the parts of its methods that run under the
-- lock: `exchange`, `reset` and `close` of the caller, who is one thread, and the parts of `_run`, the control
-- thread. What `step_fn` and `snapshot_fn` answer are arguments.
use verl_vla.Common.{
  ℕ, ◌+◌, ◌-◌, Bool, true, false, not, ◌&&◌, ◌||◌, List, [], ◌∷◌, drop, length, map, Option, none,
  some, is_some, String, Result, ok, err, ltb, leb, if◌then◌else◌,
}
use verl_vla.Executor.Chunk.{
  ExecError, short_chunk, busy, no_target, snapshot_failed, failed_from, ActionArray, ValueArray,
  normalize_action_chunk, interpolate, smooth_action_chunk_overlap,
}

pub record QueuedAction (A V : Type 0) : Type 0 where
  pub action : A
  pub value : V
  pub chunk_started : Bool

-- What the caller's thread is doing: nothing, or waiting in a method.
pub data Caller : Type 0 where
  idle exchanging resetting closing : Caller

pub record Executor (A V : Type 0) : Type 0 where
  pub action_queue : List (QueuedAction A V)
  pub completed_steps : ℕ
  pub chunk_origin_step : ℕ
  pub return_target : Option ℕ
  pub paused : Bool
  pub in_step : Bool
  pub closed : Bool
  pub error : Option String
  pub running : Bool
  pub caller : Caller

pub record ExecutorConfig : Type 0 where
  pub replan_after_steps : ℕ
  pub smooth_overlapping_actions : Bool
  pub interpolation_factor : ℕ

-- What a step shows: nothing, an action that the control thread takes, or the end of a method.
pub data Outcome (A V : Type 0) : Type 0 where
  silent : Outcome A V
  takes : QueuedAction A V → Outcome A V
  returned : Outcome A V
  raised : ExecError → Outcome A V

abbrev pub bit_of : Bool → ℕ
bit_of true = 1
bit_of false = 0

module _ {A V : Type 0} where
  -- `__init__`
  abbrev pub new_executor : Executor A V
  new_executor = record {
    action_queue = [];
    completed_steps = 0;
    chunk_origin_step = 0;
    return_target = none;
    paused = true;
    in_step = false;
    closed = false;
    error = none;
    running = true;
    caller = idle;
  }

  unfoldable pub enqueue : Bool → List A → List V → List (QueuedAction A V)
  enqueue started [] values = []
  enqueue started (a ∷ actions) [] = []
  enqueue started (a ∷ actions) (v ∷ values) =
      record { action = a; value = v; chunk_started = started } ∷ enqueue false actions values

  -- The end of `exchange`: the snapshot, which may raise or say that some environment was reset.
  unfoldable pub finish_exchange : Option Bool → Executor A V → Outcome A V × Executor A V
  finish_exchange none ex =
      (raised snapshot_failed, record ex { return_target = none; caller = idle })
  finish_exchange (some any_reset) ex = (
    returned,
    record ex {
      action_queue = if any_reset then [] else ex.action_queue;
      chunk_origin_step = ex.completed_steps;
      return_target = none;
      caller = idle;
    },
  )

  -- The test of the waiting loop of `exchange`, when the caller holds the lock.
  unfoldable pub wait_exchange : Option Bool → Executor A V → Outcome A V × Executor A V
  unfolding finish_exchange
  wait_exchange snapshot ex = elim ex.return_target [
    | none ↦ (raised no_target, record ex { caller = idle })
    | some target ↦
        if leb target ex.completed_steps then finish_exchange snapshot ex else elim ex.error [
          | some cause ↦ (raised (failed_from cause), record ex { caller = idle })
          | none ↦ (silent, record ex { caller = exchanging })
        ]
  ]

  -- `reset` up to its waiting loop, and the end of the loop.
  unfoldable pub wait_reset : Executor A V → Outcome A V × Executor A V
  wait_reset ex = if ex.in_step then (silent, record ex { caller = resetting }) else elim ex.error [
    | some cause ↦ (
      raised (failed_from cause),
      record ex { completed_steps = 0; chunk_origin_step = 0; caller = idle },
    )
    | none ↦ (returned, record ex { completed_steps = 0; chunk_origin_step = 0; caller = idle })
  ]

  unfoldable pub reset : Executor A V → Outcome A V × Executor A V
  unfolding wait_reset
  reset ex = wait_reset (record ex { paused = true; action_queue = []; return_target = none })

  -- `close` joins the control thread.
  unfoldable pub wait_close : Executor A V → Outcome A V × Executor A V
  wait_close ex =
      if ex.running
      then (silent, record ex { caller = closing })
      else (returned, record ex { caller = idle })

  unfoldable pub close : Executor A V → Outcome A V × Executor A V
  unfolding wait_close
  close ex = wait_close (record ex { closed = true })

  -- The guard of the control thread: it waits while this is true.
  unfoldable pub target_reached : Executor A V → Bool
  target_reached ex = elim ex.return_target [
    | none ↦ false
    | some target ↦ leb target ex.completed_steps
  ]

  unfoldable pub may_pop : Executor A V → Bool
  unfolding target_reached
  may_pop ex = not ex.paused && not (leb (length ex.action_queue) 0) && not (target_reached ex)

  -- The control thread at its waiting loop.
  unfoldable pub control : Executor A V → Outcome A V × Executor A V
  unfolding may_pop
  control ex =
      if not ex.running || ex.in_step
      then (silent, ex)
      else if ex.closed
      then (silent, record ex { running = false })
      else if may_pop ex
      then elim ex.action_queue [
        | [] ↦ (silent, ex)
        | queued ∷ more ↦ (takes queued, record ex { action_queue = more; in_step = true })
      ]
      else (silent, ex)

  -- `step_fn` returns, or raises and ends the thread.
  unfoldable pub step_returns : Executor A V → Executor A V
  step_returns ex = record ex { completed_steps = ex.completed_steps + 1; in_step = false }

  unfoldable pub step_raises : String → Executor A V → Executor A V
  step_raises cause ex = record ex {
    in_step = false;
    error = some cause;
    paused = true;
    running = false;
  }

  unfoldable pub elapsed_steps : Executor A V → ℕ
  elapsed_steps ex = ex.completed_steps + bit_of ex.in_step - ex.chunk_origin_step

module _ {A V : Type 0} (mix : ℕ → ℕ → A → A → A) (mix_value : ℕ → ℕ → V → V → V) (factor : ℕ) where
  -- `_prepare`
  unfoldable pub prepare : ActionArray A → ValueArray V → Result ExecError (List A × List V)
  unfolding normalize_action_chunk interpolate
  prepare actions values = elim (normalize_action_chunk actions values) [
    | err e ↦ err e
    | ok chunk ↦ elim (interpolate mix factor chunk.0) [
      | err e ↦ err e
      | ok columns ↦ elim (interpolate mix_value factor chunk.1) [
        | err e ↦ err e
        | ok column_values ↦ ok (columns, column_values)
      ]
    ]
  ]

module _ {A V : Type 0} (blend : ℕ → ℕ → A → A → A) (config : ExecutorConfig) where
  -- The queue that replaces the old one.
  unfoldable pub replacement_queue : List A → List V → Executor A V → List (QueuedAction A V)
  unfolding elapsed_steps smooth_action_chunk_overlap enqueue
  replacement_queue actions values ex =
      let rest = drop (elapsed_steps ex) actions in
      let smoothed =
        if config.smooth_overlapping_actions && not (leb (length ex.action_queue) 0)
        then smooth_action_chunk_overlap blend (map (λ q. q.action) ex.action_queue) rest
        else rest in
      enqueue true smoothed (drop (elapsed_steps ex) values)

  unfoldable pub replace_queue : List A → List V → Executor A V → Executor A V
  unfolding replacement_queue
  replace_queue actions values ex = record ex {
    action_queue = replacement_queue actions values ex;
    paused = false;
    return_target = some (ex.chunk_origin_step + config.replan_after_steps);
  }

  -- `exchange` on a prepared chunk.
  unfoldable pub submit : List A → List V → Option Bool → Executor A V → Outcome A V × Executor A V
  unfolding wait_exchange replace_queue
  submit actions values snapshot ex =
      if ltb (length actions) config.replan_after_steps
      then (raised short_chunk, ex)
      else elim ex.error [
        | some cause ↦ (raised (failed_from cause), ex)
        | none ↦
            if is_some ex.return_target
            then (raised busy, ex)
            else wait_exchange snapshot (replace_queue actions values ex)
      ]

module _ {A V : Type 0} (mix : ℕ → ℕ → A → A → A) (mix_value : ℕ → ℕ → V → V → V)
    (blend : ℕ → ℕ → A → A → A) (config : ExecutorConfig) where
  unfoldable pub exchange :
      ActionArray A → ValueArray V → Option Bool → Executor A V → Outcome A V × Executor A V
  unfolding prepare submit
  exchange actions values snapshot ex =
      elim (prepare mix mix_value config.interpolation_factor actions values) [
        | err e ↦ (raised e, ex)
        | ok chunk ↦ submit blend config chunk.0 chunk.1 snapshot ex
      ]
