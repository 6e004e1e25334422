-- ===== src/Executor/Failure.antt =====
-- The asynchronous executor after `step_fn` raised (envs/action_executor.py).
use verl_vla.Common.{
  ℕ, ◌≤◌, ◌≡◌, Bool, true, false, List, length, Option, some, String, ok, arith, inl, inr,
  Result-cases,
}
use verl_vla.Executor.Chunk.{ActionArray, ValueArray, failed_from}
use verl_vla.Executor.Loop.{
  Executor, ExecutorConfig, silent, raised, exchange, prepare, submit, reset, wait_reset, close,
  wait_close, wait_exchange, control, step_raises, finish_exchange,
}
use verl_vla.Executor.Steps.{
  Event, step, Execution, here, next, wake_caller, is_idle, wake, call_exchange, call_reset,
  call_close, control_turn, step_done, step_failed,
}
use verl_vla.Executor.Waiting.{by_test}

module _ {A V : Type 0} (mix : ℕ → ℕ → A → A → A) (mix_value : ℕ → ℕ → V → V → V)
    (blend : ℕ → ℕ → A → A → A) (config : ExecutorConfig) where
  pub record HasFailed (cause : String) (ex : Executor A V) : Type 0 where
    pub failed : ex.error ≡ some cause
    pub no_step : ex.in_step ≡ false
    pub stopped : ex.running ≡ false

  step_raises-HasFailed :
      (cause : String) (ex : Executor A V) → HasFailed cause (step_raises cause ex)
  unfolding step_raises
  step_raises-HasFailed cause ex = ground arith

  exchange-HasFailed :
      (cause : String) (actions : ActionArray A) (values : ValueArray V) (snapshot : Option Bool)
      (ex : Executor A V)
      → HasFailed cause ex
      → HasFailed cause (exchange mix mix_value blend config actions values snapshot ex).1
  unfolding exchange submit
  exchange-HasFailed cause actions values snapshot ex h =
      elim (Result-cases (prepare mix mix_value config.interpolation_factor actions values)) [
        | inr (e, refused) ↦ rw (exchange, refused) h
        | inl (chunk, prepared) ↦ rw (exchange, prepared) (ground arith)
      ]

  step-HasFailed :
      (cause : String) (e : Event A V) (ex : Executor A V)
      → HasFailed cause ex
      → HasFailed cause (step mix mix_value blend config e ex).1
  unfolding step reset wait_reset close wait_close control wake_caller wait_exchange finish_exchange
  step-HasFailed cause (call_exchange actions values snapshot) ex h =
      by_test (HasFailed cause) (is_idle ex.caller) _ _
        (λ _. exchange-HasFailed cause actions values snapshot ex h) (λ _. h)
  step-HasFailed cause call_reset ex h = ground arith
  step-HasFailed cause call_close ex h = ground arith
  step-HasFailed cause (wake snapshot) ex h = ground arith
  step-HasFailed cause control_turn ex h = ground arith
  step-HasFailed cause step_done ex h = ground arith
  step-HasFailed cause (step_failed other) ex h = ground arith

  Execution-HasFailed :
      {Allowed : Executor A V → Event A V → Type 0} {start ex : Executor A V} (cause : String)
      → HasFailed cause start
      → Execution mix mix_value blend config Allowed start ex
      → HasFailed cause ex
  Execution-HasFailed cause h here = h
  Execution-HasFailed cause h (next {ex} e r a) =
      step-HasFailed cause e ex (Execution-HasFailed cause h r)

  exchange_refused :
      (cause : String) (actions : ActionArray A) (values : ValueArray V) (chunk : List A × List V)
      (snapshot : Option Bool) (ex : Executor A V)
      → HasFailed cause ex
      → prepare mix mix_value config.interpolation_factor actions values ≡ ok chunk
      → config.replan_after_steps ≤ length chunk.0
      → exchange mix mix_value blend config actions values snapshot ex
        ≡ (raised (failed_from cause), ex)
  unfolding exchange submit
  exchange_refused cause actions values chunk snapshot ex h p l = rw (exchange, p) (ground arith)

  -- A failure is final and is reported. Once `step_fn` has raised a cause, then after any further events, in
  -- any order: the control thread takes no action any more; a free caller's `exchange` with a chunk that
  -- covers the replan interval raises the failure with that cause and changes nothing; its `reset` raises
  -- it too.
  pub step_raises-IsFinal :
      {Allowed : Executor A V → Event A V → Type 0} (cause : String) (start ex : Executor A V)
      (actions : ActionArray A) (values : ValueArray V) (chunk : List A × List V)
      (snapshot : Option Bool)
      → Execution mix mix_value blend config Allowed (step_raises cause start) ex
      → is_idle ex.caller ≡ true
      → prepare mix mix_value config.interpolation_factor actions values ≡ ok chunk
      → config.replan_after_steps ≤ length chunk.0
      → ((step mix mix_value blend config control_turn ex).0 ≡ silent)
        × (step mix mix_value blend config (call_exchange actions values snapshot) ex
            ≡ (raised (failed_from cause), ex))
        × ((step mix mix_value blend config call_reset ex).0 ≡ raised (failed_from cause))
  unfolding step reset wait_reset control
  step_raises-IsFinal cause start ex actions values chunk snapshot r i p l =
      let h = Execution-HasFailed cause (step_raises-HasFailed cause start) r in
      (
        ground arith,
        rw i (exchange_refused cause actions values chunk snapshot ex h p l),
        ground arith,
      )
