-- ===== src/Executor/Timing.antt =====
-- The tick at which the control thread of the asynchronous executor takes an action (envs/action_executor.py).
use verl_vla.Common.{
  ℕ, ◌+◌, ◌≡◌, ap, sym, subst, ◌∙◌, Bool, inl, inr, List, Option, ok, arith, Result-cases,
}
use verl_vla.Executor.Chunk.{ActionArray, ValueArray}
use verl_vla.Executor.Loop.{
  Executor, ExecutorConfig, QueuedAction, Outcome, takes, silent, returned, raised, bit_of,
  new_executor, exchange, prepare, wait_exchange, wait_reset, wait_close, finish_exchange,
}
use verl_vla.Executor.Steps.{
  Event, step, Execution, here, next, wake_caller, is_idle, wake, call_exchange, call_reset,
  call_close, control_turn, step_done, step_failed,
}
use verl_vla.Executor.Waiting.{IsExecutor, Execution-IsExecutor, by_test}
use verl_vla.Executor.Planned.{PlannedFrom, Blends, queue_head}
use verl_vla.Executor.Aligned.{
  IsAligned, control-cases, control-IsAligned, step_returns-IsAligned, step_raises-IsAligned,
  reset-IsAligned, close-IsAligned, submit-IsAligned,
}

module _ {A V : Type 0} (Plan : ℕ → A → Type 0) (mix : ℕ → ℕ → A → A → A)
    (mix_value : ℕ → ℕ → V → V → V) (blend : ℕ → ℕ → A → A → A) (config : ExecutorConfig) where
  -- A chunk is planned for the ticks from the last snapshot on.
  abbrev pub IsPlanned : Executor A V → Event A V → Type 0
  IsPlanned ex (call_exchange actions values snapshot) =
      (chunk : List A × List V)
      → prepare mix mix_value config.interpolation_factor actions values ≡ ok chunk
      → PlannedFrom Plan ex.chunk_origin_step chunk.0
  IsPlanned ex _ = Unit

  exchange-IsAligned :
      (actions : ActionArray A) (values : ValueArray V) (snapshot : Option Bool) (ex : Executor A V)
      → Blends Plan blend
      → IsPlanned ex (call_exchange actions values snapshot)
      → IsExecutor config.replan_after_steps ex
      → IsAligned Plan ex
      → IsAligned Plan (exchange mix mix_value blend config actions values snapshot ex).1
  unfolding exchange
  exchange-IsAligned actions values snapshot ex b p i h =
      elim (Result-cases (prepare mix mix_value config.interpolation_factor actions values)) [
        | inr (e, refused) ↦ rw (exchange, refused) h
        | inl (chunk, prepared) ↦
            rw (exchange, prepared)
              (submit-IsAligned Plan blend config chunk.0 chunk.1 snapshot ex b (p chunk prepared)
                i.origin_past h)
      ]

  wake_caller-IsAligned :
      (snapshot : Option Bool) (ex : Executor A V)
      → IsAligned Plan ex
      → IsAligned Plan (wake_caller ex.caller snapshot ex).1
  unfolding wake_caller wait_exchange wait_reset wait_close finish_exchange
  wake_caller-IsAligned snapshot ex h = ground arith

  step-IsAligned :
      (e : Event A V) (ex : Executor A V)
      → Blends Plan blend
      → IsPlanned ex e
      → IsExecutor config.replan_after_steps ex
      → IsAligned Plan ex
      → IsAligned Plan (step mix mix_value blend config e ex).1
  unfolding step
  step-IsAligned (call_exchange actions values snapshot) ex b p i h =
      by_test (IsAligned Plan) (is_idle ex.caller) _ _
        (λ _. exchange-IsAligned actions values snapshot ex b p i h) (λ _. h)
  step-IsAligned call_reset ex b p i h =
      by_test (IsAligned Plan) (is_idle ex.caller) _ _ (λ _. reset-IsAligned Plan ex) (λ _. h)
  step-IsAligned call_close ex b p i h =
      by_test (IsAligned Plan) (is_idle ex.caller) _ _ (λ _. close-IsAligned Plan ex h) (λ _. h)
  step-IsAligned (wake snapshot) ex b p i h = wake_caller-IsAligned snapshot ex h
  step-IsAligned control_turn ex b p i h = control-IsAligned Plan config.replan_after_steps ex i h
  step-IsAligned step_done ex b p i h =
      by_test (IsAligned Plan) ex.in_step _ _ (λ running. step_returns-IsAligned Plan ex running h)
        (λ _. h)
  step-IsAligned (step_failed cause) ex b p i h =
      by_test (IsAligned Plan) ex.in_step _ _ (λ _. step_raises-IsAligned Plan cause ex h) (λ _. h)

  Execution-IsAligned :
      {ex : Executor A V}
      → Blends Plan blend
      → Execution mix mix_value blend config IsPlanned new_executor ex
      → IsAligned Plan ex
  Execution-IsAligned b here = ground arith
  Execution-IsAligned b (next {ex} e r a) =
      step-IsAligned e ex b a (Execution-IsExecutor mix mix_value blend config r)
        (Execution-IsAligned b r)

  taken_action : QueuedAction A V → Outcome A V → A
  taken_action other (takes q) = q.action
  taken_action other silent = other.action
  taken_action other returned = other.action
  taken_action other (raised _) = other.action

  -- Actions run at the tick that they were planned for. Let the caller submit chunks of which, after the
  -- preparation, the column `k` is planned for the tick `k` ticks after the last snapshot, and let the
  -- smoothing of two actions planned for a tick be planned for that tick. Then after any such events, in
  -- any order, also when a chunk arrives late, in the middle of a tick or with a part of the last one still
  -- queued, an action that the control thread takes is planned for the tick as which it will be counted.
  pub takes-Plan :
      (ex : Executor A V) (q : QueuedAction A V)
      → Blends Plan blend
      → Execution mix mix_value blend config IsPlanned new_executor ex
      → (step mix mix_value blend config control_turn ex).0 ≡ takes q
      → Plan ex.completed_steps q.action
  unfolding step taken_action
  takes-Plan ex q b r e = elim (control-cases ex) [
    | inl (_, quiet) ↦ cc
    | inr (inl (_, quiet)) ↦ cc
    | inr (inr (first, more, queue, ready, alive, _, taken)) ↦
        let inv = Execution-IsExecutor mix mix_value blend config r in
        let aligned = Execution-IsAligned b r in
        let same = ap (λ o. taken_action q o) (sym taken ∙ e) in
        subst (λ a. Plan ex.completed_steps a) same
          (queue_head Plan (ex.completed_steps + bit_of ex.in_step) ex.completed_steps first
            ex.action_queue more (aligned.queue_planned (ground (arith, inv))) (ground arith)
            queue).0
  ]
