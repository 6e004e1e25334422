-- ===== src/Executor/Progress.antt =====
-- How a waiting `exchange` of the asynchronous executor ends (envs/action_executor.py).
use verl_vla.Common.{ℕ, zero, suc, ◌+◌, ◌-◌, ◌≡◌, refl, Bool, false, Option, none, some, arith}
use verl_vla.Executor.Loop.{
  Executor, ExecutorConfig, returned, finish_exchange, exchanging, new_executor, control,
  step_returns, wait_exchange,
}
use verl_vla.Executor.Steps.{Event, step, Execution, wake_caller, wake, control_turn, step_done}
use verl_vla.Executor.Waiting.{IsExecutor, step-IsExecutor, Execution-IsExecutor}

module _ {A V : Type 0} (mix : ℕ → ℕ → A → A → A) (mix_value : ℕ → ℕ → V → V → V)
    (blend : ℕ → ℕ → A → A → A) (config : ExecutorConfig) where
  abbrev go : Event A V → Executor A V → Executor A V
  go e ex = (step mix mix_value blend config e ex).1

  -- `n` turns of the control thread, in each of which the step function returns.
  unfoldable pub rounds : ℕ → Executor A V → Executor A V
  rounds zero ex = ex
  rounds (suc n) ex = rounds n (go step_done (go control_turn ex))

  -- A caller waits, and the control thread is neither stopped nor failed.
  abbrev pub IsWaiting : Executor A V → Type 0
  IsWaiting ex = (ex.caller ≡ exchanging) × (ex.error ≡ none) × (ex.closed ≡ false)

  -- The ticks that are left before `exchange` may return.
  abbrev pub ticks_left : Executor A V → ℕ
  ticks_left ex = ex.chunk_origin_step + config.replan_after_steps - ex.completed_steps

  one_round :
      (n : ℕ) (ex : Executor A V)
      → IsExecutor config.replan_after_steps ex
      → IsWaiting ex
      → ticks_left ex ≡ suc n
      → IsWaiting (go step_done (go control_turn ex))
        × (ticks_left (go step_done (go control_turn ex)) ≡ n)
  unfolding step control step_returns
  one_round n ex h w l = ground arith

  rounds_end :
      (n : ℕ) (ex : Executor A V)
      → IsExecutor config.replan_after_steps ex
      → IsWaiting ex
      → ticks_left ex ≡ n
      → IsExecutor config.replan_after_steps (rounds n ex)
        × IsWaiting (rounds n ex)
        × (ticks_left (rounds n ex) ≡ 0)
  unfolding rounds
  rounds_end zero ex h w l = (h, w, l)
  rounds_end (suc n) ex h w l =
      let (still, fewer) = one_round n ex h w l in
      let kept = step-IsExecutor mix mix_value blend config control_turn ex h in
      rounds_end n (go step_done (go control_turn ex))
        (step-IsExecutor mix mix_value blend config step_done (go control_turn ex) kept) still fewer

  wake-returns :
      (any_reset : Bool) (ex : Executor A V)
      → IsExecutor config.replan_after_steps ex
      → IsWaiting ex
      → ticks_left ex ≡ 0
      → (step mix mix_value blend config (wake (some any_reset)) ex).0 ≡ returned
  unfolding step wake_caller wait_exchange finish_exchange
  wake-returns any_reset ex h w l = ground arith

  -- A waiting `exchange` is never stuck: from any state that events in any order lead to, in which the caller
  -- waits in `exchange`, no step has failed and the executor is not closed, the control thread needs no
  -- further chunk: as many of its turns as ticks are left, if the step function returns in each, bring the
  -- executor to the tick where `exchange` returns the snapshot.
  pub exchange-returns :
      {Allowed : Executor A V → Event A V → Type 0} (any_reset : Bool) (ex : Executor A V)
      → Execution mix mix_value blend config Allowed new_executor ex
      → IsWaiting ex
      → (step mix mix_value blend config (wake (some any_reset)) (rounds (ticks_left ex) ex)).0
        ≡ returned
  exchange-returns any_reset ex r w =
      let (kept, still, done) =
        rounds_end (ticks_left ex) ex (Execution-IsExecutor mix mix_value blend config r) w refl in
      wake-returns any_reset (rounds (ticks_left ex) ex) kept still done

  -- An `exchange` that had to wait returns at a tick boundary and on time: whatever events came before, when
  -- the waiting caller wakes up and returns, no step is running, and exactly as many ticks are completed
  -- since the last snapshot as the replan interval has.
  pub wake-on_time :
      {Allowed : Executor A V → Event A V → Type 0} (snapshot : Option Bool) (ex : Executor A V)
      → Execution mix mix_value blend config Allowed new_executor ex
      → ex.caller ≡ exchanging
      → (step mix mix_value blend config (wake snapshot) ex).0 ≡ returned
      → (ex.in_step ≡ false)
        × (ex.completed_steps ≡ ex.chunk_origin_step + config.replan_after_steps)
  unfolding step wake_caller wait_exchange
  wake-on_time snapshot ex r w e = ground (arith, Execution-IsExecutor mix mix_value blend config r)
