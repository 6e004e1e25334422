-- ===== src/Executor/Waiting.antt =====
-- What holds of an asynchronous executor between two events (envs/action_executor.py), for a caller that
-- waits in `exchange`, and that its wait ends.
use verl_vla.Common.{
  ℕ, ◌+◌, ◌-◌, ◌≤◌, ◌≡◌, refl, String, Bool, true, false, inl, inr, List, length, Option, none,
  some, is_some, ltb, arith, Bool-cases, if◌then◌else◌, Result-cases, Option-cases,
}
use verl_vla.Executor.Chunk.{ActionArray, ValueArray}
use verl_vla.Executor.Loop.{
  Executor, ExecutorConfig, exchanging, resetting, closing, bit_of, new_executor, wait_exchange,
  wait_reset, reset, wait_close, close, control, step_returns, step_raises, replace_queue,
  replacement_queue, submit, exchange, prepare, elapsed_steps,
}
use verl_vla.Executor.Steps.{
  Event, step, Execution, here, next, wake_caller, is_idle, wake, call_exchange, call_reset,
  call_close, control_turn, step_done, step_failed,
}
use verl_vla.Executor.Lengths.{length-prepare, length-replacement_queue}

module _ {A V : Type 0} (replan : ℕ) where
  -- `origin_past`: the origin is a completed tick. `enough`: the queue holds the actions that the waiting
  -- caller waits for.
  pub record IsExecutor (ex : Executor A V) : Type 0 where
    pub origin_past : ex.chunk_origin_step ≤ ex.completed_steps
    pub stepping_runs : ex.in_step ≡ true → ex.running ≡ true
    pub failed_stops : is_some ex.error ≡ true → (ex.in_step ≡ false) × (ex.running ≡ false)
    pub stopped_why : ex.running ≡ false → ex.error ≡ none → ex.closed ≡ true
    pub idle_free : is_idle ex.caller ≡ true → ex.error ≡ none → ex.return_target ≡ none
    pub waiting_target :
        ex.caller ≡ exchanging → ex.return_target ≡ some (ex.chunk_origin_step + replan)
    pub waiting_runs : ex.caller ≡ exchanging → ex.error ≡ none → ex.paused ≡ false
    pub waiting_before :
        ex.caller ≡ exchanging
        → ex.completed_steps + bit_of ex.in_step ≤ ex.chunk_origin_step + replan
    pub waiting_enough :
        ex.caller ≡ exchanging
        → ex.error ≡ none
        → ex.chunk_origin_step + replan
          ≤ ex.completed_steps + bit_of ex.in_step + length ex.action_queue
    pub resetting_free : ex.caller ≡ resetting → ex.return_target ≡ none
    pub closing_free : ex.caller ≡ closing → ex.error ≡ none → ex.return_target ≡ none

  new_executor-IsExecutor : IsExecutor new_executor
  new_executor-IsExecutor = ground arith

  step_returns-IsExecutor :
      (ex : Executor A V) → ex.in_step ≡ true → IsExecutor ex → IsExecutor (step_returns ex)
  unfolding step_returns
  step_returns-IsExecutor ex i h = ground arith

  step_raises-IsExecutor :
      (cause : String) (ex : Executor A V) → IsExecutor ex → IsExecutor (step_raises cause ex)
  unfolding step_raises
  step_raises-IsExecutor cause ex h = ground arith

  control-IsExecutor : (ex : Executor A V) → IsExecutor ex → IsExecutor (control ex).1
  unfolding control
  control-IsExecutor ex h = ground arith

  wait_reset-IsExecutor :
      (ex : Executor A V) → ex.return_target ≡ none → IsExecutor ex → IsExecutor (wait_reset ex).1
  unfolding wait_reset
  wait_reset-IsExecutor ex r h = ground arith

  reset-IsExecutor :
      (ex : Executor A V) → is_idle ex.caller ≡ true → IsExecutor ex → IsExecutor (reset ex).1
  unfolding reset
  reset-IsExecutor ex i h = ground arith

  wait_close-IsExecutor :
      (ex : Executor A V)
      → (ex.error ≡ none → ex.return_target ≡ none)
      → IsExecutor ex
      → IsExecutor (wait_close ex).1
  unfolding wait_close
  wait_close-IsExecutor ex r h = ground arith

  close-IsExecutor :
      (ex : Executor A V) → is_idle ex.caller ≡ true → IsExecutor ex → IsExecutor (close ex).1
  unfolding close
  close-IsExecutor ex i h = ground arith

  wait_exchange-IsExecutor :
      (snapshot : Option Bool) (ex : Executor A V)
      → ex.return_target ≡ some (ex.chunk_origin_step + replan)
      → (ex.error ≡ none
          → (ex.paused ≡ false)
            × (ex.chunk_origin_step + replan
                ≤ ex.completed_steps + bit_of ex.in_step + length ex.action_queue))
      → IsExecutor (record ex { caller = closing; return_target = none })
      → IsExecutor (wait_exchange snapshot ex).1
  unfolding wait_exchange
  wait_exchange-IsExecutor snapshot ex t e h = ground arith

module _ {A V : Type 0} (blend : ℕ → ℕ → A → A → A) (config : ExecutorConfig) where
  abbrev queue_size : List A → List V → Executor A V → ℕ
  queue_size actions values ex = length (replacement_queue blend config actions values ex)

  replace_queue-IsExecutor :
      (actions : List A) (values : List V) (snapshot : Option Bool) (ex : Executor A V)
      → queue_size actions values ex ≡ length actions - elapsed_steps ex
      → config.replan_after_steps ≤ length actions
      → is_idle ex.caller ≡ true
      → ex.error ≡ none
      → IsExecutor config.replan_after_steps ex
      → IsExecutor config.replan_after_steps
          (wait_exchange snapshot (replace_queue blend config actions values ex)).1
  unfolding replace_queue elapsed_steps
  replace_queue-IsExecutor actions values snapshot ex q l i e h =
      wait_exchange-IsExecutor config.replan_after_steps snapshot
        (replace_queue blend config actions values ex) refl
        (λ _. (refl, omega (arith, q, l, h.origin_past))) (ground arith)

  submit-IsExecutor :
      (actions : List A) (values : List V) (snapshot : Option Bool) (ex : Executor A V)
      → length actions ≡ length values
      → is_idle ex.caller ≡ true
      → IsExecutor config.replan_after_steps ex
      → IsExecutor config.replan_after_steps (submit blend config actions values snapshot ex).1
  unfolding submit
  submit-IsExecutor actions values snapshot ex l i h =
      let replaced = length-replacement_queue blend config actions values ex l in
      elim (Bool-cases (ltb (length actions) config.replan_after_steps)) [
        | inl short ↦ rw short h
        | inr long ↦ rw long (elim (Option-cases ex.error) [
          | inr (cause, failed) ↦ rw failed h
          | inl fine ↦ rw fine (elim (Bool-cases (is_some ex.return_target)) [
            | inl busy_now ↦ rw busy_now h
            | inr free ↦ rw free (
                replace_queue-IsExecutor actions values snapshot ex replaced (ground (arith, long))
                  i fine h)
          ])
        ])
      ]

-- What holds after either branch of a test holds after the test.
pub by_test :
    {X Y : Type 0} (P : Y → Type 0) (b : Bool) (x y : X × Y)
    → (b ≡ true → P x.1)
    → (b ≡ false → P y.1)
    → P (if b then x else y).1
by_test P true x y f g = f refl
by_test P false x y f g = g refl

module _ {A V : Type 0} (mix : ℕ → ℕ → A → A → A) (mix_value : ℕ → ℕ → V → V → V)
    (blend : ℕ → ℕ → A → A → A) (config : ExecutorConfig) where
  exchange-IsExecutor :
      (actions : ActionArray A) (values : ValueArray V) (snapshot : Option Bool) (ex : Executor A V)
      → is_idle ex.caller ≡ true
      → IsExecutor config.replan_after_steps ex
      → IsExecutor config.replan_after_steps
          (exchange mix mix_value blend config actions values snapshot ex).1
  unfolding exchange
  exchange-IsExecutor actions values snapshot ex i h =
      elim (Result-cases (prepare mix mix_value config.interpolation_factor actions values)) [
        | inr (e, refused) ↦ rw (exchange, refused) h
        | inl (chunk, prepared) ↦
            let same = length-prepare mix mix_value config actions values chunk prepared in
            rw (exchange, prepared)
              (submit-IsExecutor blend config chunk.0 chunk.1 snapshot ex same i h)
      ]

  wake_caller-IsExecutor :
      (snapshot : Option Bool) (ex : Executor A V)
      → IsExecutor config.replan_after_steps ex
      → IsExecutor config.replan_after_steps (wake_caller ex.caller snapshot ex).1
  unfolding wake_caller wait_exchange wait_reset wait_close
  wake_caller-IsExecutor snapshot ex h = ground arith

  pub step-IsExecutor :
      (e : Event A V) (ex : Executor A V)
      → IsExecutor config.replan_after_steps ex
      → IsExecutor config.replan_after_steps (step mix mix_value blend config e ex).1
  unfolding step
  step-IsExecutor (call_exchange actions values snapshot) ex h =
      by_test (IsExecutor config.replan_after_steps) (is_idle ex.caller) _ _
        (λ i. exchange-IsExecutor actions values snapshot ex i h) (λ _. h)
  step-IsExecutor call_reset ex h =
      by_test (IsExecutor config.replan_after_steps) (is_idle ex.caller) _ _
        (λ i. reset-IsExecutor config.replan_after_steps ex i h) (λ _. h)
  step-IsExecutor call_close ex h =
      by_test (IsExecutor config.replan_after_steps) (is_idle ex.caller) _ _
        (λ i. close-IsExecutor config.replan_after_steps ex i h) (λ _. h)
  step-IsExecutor (wake snapshot) ex h = wake_caller-IsExecutor snapshot ex h
  step-IsExecutor control_turn ex h = control-IsExecutor config.replan_after_steps ex h
  step-IsExecutor step_done ex h =
      by_test (IsExecutor config.replan_after_steps) ex.in_step _ _
        (λ i. step_returns-IsExecutor config.replan_after_steps ex i h) (λ _. h)
  step-IsExecutor (step_failed cause) ex h =
      by_test (IsExecutor config.replan_after_steps) ex.in_step _ _
        (λ _. step_raises-IsExecutor config.replan_after_steps cause ex h) (λ _. h)

  pub Execution-IsExecutor :
      {Allowed : Executor A V → Event A V → Type 0} {ex : Executor A V}
      → Execution mix mix_value blend config Allowed new_executor ex
      → IsExecutor config.replan_after_steps ex
  Execution-IsExecutor here = new_executor-IsExecutor config.replan_after_steps
  Execution-IsExecutor (next {ex} e r a) = step-IsExecutor e ex (Execution-IsExecutor r)
