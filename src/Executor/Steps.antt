-- ===== src/Executor/Steps.antt =====
-- The caller and the control thread of `AsyncActionExecutor` (envs/action_executor.py) in any order: each part
-- of a method that runs under the lock is one step, since the lock makes them take turns.
use verl_vla.Common.{ℕ, Bool, true, false, Option, String, if◌then◌else◌}
use verl_vla.Executor.Chunk.{ActionArray, ValueArray}
use verl_vla.Executor.Loop.{
  Executor, ExecutorConfig, Outcome, silent, Caller, idle, exchanging, resetting, closing, exchange,
  reset, close, wait_exchange, wait_reset, wait_close, control, step_returns, step_raises,
}

pub data Event (A V : Type 0) : Type 0 where
  call_exchange : ActionArray A → ValueArray V → Option Bool → Event A V
  call_reset call_close : Event A V
  wake : Option Bool → Event A V
  control_turn : Event A V
  step_done : Event A V
  step_failed : String → Event A V

abbrev pub is_idle : Caller → Bool
is_idle idle = true
is_idle exchanging = false
is_idle resetting = false
is_idle closing = false

module _ {A V : Type 0} where
  -- The caller wakes up in the method that it waits in.
  unfoldable pub wake_caller : Caller → Option Bool → Executor A V → Outcome A V × Executor A V
  unfolding wait_exchange wait_reset wait_close
  wake_caller idle snapshot ex = (silent, ex)
  wake_caller exchanging snapshot ex = wait_exchange snapshot ex
  wake_caller resetting snapshot ex = wait_reset ex
  wake_caller closing snapshot ex = wait_close ex

module _ {A V : Type 0} (mix : ℕ → ℕ → A → A → A) (mix_value : ℕ → ℕ → V → V → V)
    (blend : ℕ → ℕ → A → A → A) (config : ExecutorConfig) where
  unfoldable pub step : Event A V → Executor A V → Outcome A V × Executor A V
  unfolding exchange reset close wake_caller control step_returns step_raises
  step (call_exchange actions values snapshot) ex =
      if is_idle ex.caller
      then exchange mix mix_value blend config actions values snapshot ex
      else (silent, ex)
  step call_reset ex = if is_idle ex.caller then reset ex else (silent, ex)
  step call_close ex = if is_idle ex.caller then close ex else (silent, ex)
  step (wake snapshot) ex = wake_caller ex.caller snapshot ex
  step control_turn ex = control ex
  step step_done ex = if ex.in_step then (silent, step_returns ex) else (silent, ex)
  step (step_failed cause) ex = if ex.in_step then (silent, step_raises cause ex) else (silent, ex)

  -- What any allowed events make of an executor.
  pub data Execution (Allowed : Executor A V → Event A V → Type 0) (start : Executor A V)
      : Executor A V → Type 0 where
    here : Execution Allowed start start
    next :
        {ex : Executor A V} (e : Event A V)
        → Execution Allowed start ex
        → Allowed ex e
        → Execution Allowed start (step e ex).1
