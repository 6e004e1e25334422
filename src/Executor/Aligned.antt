-- ===== src/Executor/Aligned.antt =====
-- That a queued action of the asynchronous executor belongs to (envs/action_executor.py): `Plan s a` says
-- that the action `a` is planned for tick `s`, counted as `_completed_steps` counts them.
use verl_vla.Common.{
  ℕ, ◌+◌, ◌≤◌, ◌≡◌, refl, Bool, true, false, not, ◌&&◌, inl, inr, ◌⊎◌, ◌||◌, List, [], ◌∷◌, drop,
  length, Option, none, arith, leb, ltb, is_some, Bool-cases, Option-cases, List-cases, String,
}
use verl_vla.Executor.Chunk.{smooth_action_chunk_overlap}
use verl_vla.Executor.Loop.{
  Executor, ExecutorConfig, QueuedAction, takes, resetting, bit_of, finish_exchange, wait_exchange,
  wait_reset, reset, wait_close, close, control, step_returns, step_raises, replacement_queue,
  replace_queue, elapsed_steps, submit, may_pop, silent,
}
use verl_vla.Executor.Waiting.{IsExecutor, by_test}
use verl_vla.Executor.Planned.{
  PlannedFrom, planned_at, actions_of, enqueue-PlannedFrom, drop-PlannedFrom, Blends,
  smooth-PlannedFrom, queue_head,
}

module _ {A V : Type 0} where
  -- The control thread leaves the executor as it is, ends, or takes the first action.
  pub control-cases :
      (ex : Executor A V)
      → (((control ex).1 ≡ ex) × ((control ex).0 ≡ silent))
        ⊎ (((control ex).1 ≡ record ex { running = false }) × ((control ex).0 ≡ silent))
        ⊎ ((q : QueuedAction A V) × (more : List (QueuedAction A V)) × (ex.action_queue ≡ q ∷ more)
            × (ex.in_step ≡ false)
            × (ex.running ≡ true)
            × ((control ex).1 ≡ record ex { action_queue = more; in_step = true })
            × ((control ex).0 ≡ takes q))
  unfolding control
  control-cases ex = elim (Bool-cases (not ex.running || ex.in_step)) [
    | inl rest ↦ ground arith
    | inr awake ↦ elim (Bool-cases ex.closed) [
      | inl shut ↦ ground arith
      | inr alive ↦ elim (Bool-cases (may_pop ex)) [
        | inr wait ↦ ground arith
        | inl pop ↦ elim (List-cases ex.action_queue) [
          | inl empty ↦ ground arith
          | inr (q, more, e) ↦
              inr (inr (q, more, e, ground arith, ground arith, ground arith, ground arith))
        ]
      ]
    ]
  ]

module _ {A V : Type 0} (Plan : ℕ → A → Type 0) where
  abbrev next_tick : Executor A V → ℕ
  next_tick ex = ex.completed_steps + bit_of ex.in_step

  pub record IsAligned (ex : Executor A V) : Type 0 where
    pub queue_planned :
        ex.error ≡ none → PlannedFrom Plan (next_tick ex) (actions_of ex.action_queue)
    pub reset_empty : ex.caller ≡ resetting → ex.action_queue ≡ []

  pub control-IsAligned :
      (replan : ℕ) (ex : Executor A V)
      → IsExecutor replan ex
      → IsAligned ex
      → IsAligned (control ex).1
  control-IsAligned replan ex i h = elim (control-cases ex) [
    | inl (same, _) ↦ rw same h
    | inr (inl (same, _)) ↦ rw same (ground (arith, h))
    | inr (inr (q, more, e, ready, alive, same, _)) ↦ rw same (record {
      queue_planned = λ fine.
          (queue_head Plan (next_tick ex) ex.completed_steps q ex.action_queue more
            (h.queue_planned fine) (ground arith) e).1;
      reset_empty = λ r. ground (arith, h.reset_empty r);
    })
  ]

  pub step_returns-IsAligned :
      (ex : Executor A V) → ex.in_step ≡ true → IsAligned ex → IsAligned (step_returns ex)
  unfolding step_returns
  step_returns-IsAligned ex i h = record {
    queue_planned = λ fine.
        planned_at Plan (next_tick ex) (ex.completed_steps + 1 + 0) (actions_of ex.action_queue)
          (ground arith) (h.queue_planned fine);
    reset_empty = h.reset_empty;
  }

  pub step_raises-IsAligned :
      (cause : String) (ex : Executor A V) → IsAligned ex → IsAligned (step_raises cause ex)
  unfolding step_raises
  step_raises-IsAligned cause ex h = record {
    queue_planned = λ fine. cc;
    reset_empty = h.reset_empty;
  }

  pub wait_reset-IsAligned :
      (ex : Executor A V) → ex.action_queue ≡ [] → IsAligned (wait_reset ex).1
  unfolding wait_reset
  wait_reset-IsAligned ex e = ground arith

  pub reset-IsAligned : (ex : Executor A V) → IsAligned (reset ex).1
  unfolding reset
  reset-IsAligned ex =
      wait_reset-IsAligned (record ex { paused = true; action_queue = []; return_target = none })
        refl

  pub wait_close-IsAligned : (ex : Executor A V) → IsAligned ex → IsAligned (wait_close ex).1
  unfolding wait_close
  wait_close-IsAligned ex h = ground arith

  pub close-IsAligned : (ex : Executor A V) → IsAligned ex → IsAligned (close ex).1
  unfolding close wait_close
  close-IsAligned ex h = ground arith

  pub wait_exchange-IsAligned :
      (snapshot : Option Bool) (ex : Executor A V)
      → (ex.error ≡ none → PlannedFrom Plan (next_tick ex) (actions_of ex.action_queue))
      → IsAligned (wait_exchange snapshot ex).1
  unfolding wait_exchange finish_exchange
  wait_exchange-IsAligned snapshot ex h = ground arith

module _ {A V : Type 0} (Plan : ℕ → A → Type 0) (blend : ℕ → ℕ → A → A → A)
    (config : ExecutorConfig) where
  replacement_queue-PlannedFrom :
      (s : ℕ) (actions : List A) (values : List V) (ex : Executor A V)
      → Blends Plan blend
      → PlannedFrom Plan s (drop (elapsed_steps ex) actions)
      → PlannedFrom Plan s (actions_of ex.action_queue)
      → PlannedFrom Plan s (actions_of (replacement_queue blend config actions values ex))
  unfolding replacement_queue
  replacement_queue-PlannedFrom s actions values ex b p q =
      let n = elapsed_steps ex in
      let rest = drop n actions in
      let before = actions_of ex.action_queue in
      let smoothed = smooth_action_chunk_overlap blend before rest in
      elim (Bool-cases
        (config.smooth_overlapping_actions && not (leb (length ex.action_queue) 0))) [
          | inl yes_smooth ↦ rw yes_smooth (
              enqueue-PlannedFrom Plan true s smoothed (drop n values)
                (smooth-PlannedFrom Plan blend s before rest b q p))
          | inr no_smooth ↦ rw no_smooth (enqueue-PlannedFrom Plan true s rest (drop n values) p)
        ]

  replace_queue-IsAligned :
      (actions : List A) (values : List V) (snapshot : Option Bool) (ex : Executor A V)
      → Blends Plan blend
      → PlannedFrom Plan ex.chunk_origin_step actions
      → ex.chunk_origin_step ≤ ex.completed_steps
      → ex.error ≡ none
      → IsAligned Plan ex
      → IsAligned Plan (wait_exchange snapshot (replace_queue blend config actions values ex)).1
  unfolding replace_queue elapsed_steps
  replace_queue-IsAligned actions values snapshot ex b p past fine h =
      let rest =
        planned_at Plan (ex.chunk_origin_step + elapsed_steps ex) (next_tick Plan ex)
          (drop (elapsed_steps ex) actions) (omega arith)
          (drop-PlannedFrom Plan (elapsed_steps ex) ex.chunk_origin_step actions p) in
      wait_exchange-IsAligned Plan snapshot (replace_queue blend config actions values ex) (λ _.
        replacement_queue-PlannedFrom (next_tick Plan ex) actions values ex b rest
          (h.queue_planned fine))

  pub submit-IsAligned :
      (actions : List A) (values : List V) (snapshot : Option Bool) (ex : Executor A V)
      → Blends Plan blend
      → PlannedFrom Plan ex.chunk_origin_step actions
      → ex.chunk_origin_step ≤ ex.completed_steps
      → IsAligned Plan ex
      → IsAligned Plan (submit blend config actions values snapshot ex).1
  unfolding submit
  submit-IsAligned actions values snapshot ex b p past h =
      by_test (IsAligned Plan) (ltb (length actions) config.replan_after_steps) _ _ (λ _. h)
        (λ _. elim (Option-cases ex.error) [
          | inr (cause, failed) ↦ rw failed h
          | inl fine ↦ rw fine (
              by_test (IsAligned Plan) (is_some ex.return_target) _ _ (λ _. h)
                (λ _. replace_queue-IsAligned actions values snapshot ex b p past fine h))
        ])
