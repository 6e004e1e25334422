-- ===== src/Executor/Examples.antt =====
-- Concrete runs of the asynchronous executor: chunks of numbers, each the tick that it is planned for.
use verl_vla.Common.{
  ℕ, ◌+◌, ◌-◌, ◌*◌, ◌/◌, subst, ap, ◌≡◌, refl, true, false, List, [], ◌∷◌, none, some, Result, ok,
  err, arith,
}
use verl_vla.Executor.Chunk.{
  ExecError, ActionArray, ValueArray, three_dims, two_dims, normalize_action_chunk, interpolate,
  failed_from,
}
use verl_vla.Executor.Loop.{
  Executor, ExecutorConfig, returned, silent, raised, exchanging, new_executor, prepare, exchange,
  step_raises,
}
use verl_vla.Executor.Steps.{
  Event, step, Execution, here, next, wake, call_exchange, call_reset, call_close, control_turn,
  step_done,
}
use verl_vla.Executor.Progress.{rounds, exchange-returns}
use verl_vla.Executor.Planned.{Blends, PlannedFrom}
use verl_vla.Executor.Timing.{IsPlanned, takes-Plan}
use verl_vla.Executor.Failure.{step_raises-IsFinal}

abbrev later : ℕ → ℕ → ℕ → ℕ → ℕ
later n d a b = b

abbrev config : ExecutorConfig
config = record {
  replan_after_steps = 2;
  smooth_overlapping_actions = true;
  interpolation_factor = 1;
}

abbrev Plan : ℕ → ℕ → Type 0
Plan s a = a ≡ s

abbrev go : Event ℕ ℕ → Executor ℕ ℕ → Executor ℕ ℕ
go e ex = (step later later later config e ex).1

abbrev Planned : Executor ℕ ℕ → Event ℕ ℕ → Type 0
Planned ex e = IsPlanned Plan later later later config ex e

abbrev Reached : Executor ℕ ℕ → Type 0
Reached ex = Execution later later later config Planned new_executor ex

abbrev chunk_from : ℕ → Event ℕ ℕ
chunk_from n =
    call_exchange (three_dims 1 (n ∷ (1 + n) ∷ (2 + n) ∷ (3 + n) ∷ []))
      (two_dims 1 (0 ∷ 0 ∷ 0 ∷ 0 ∷ [])) none

-- The columns of a prepared chunk.
abbrev columns : {V : Type 0} → Result ExecError (List ℕ × List V) → List ℕ
columns (ok chunk) = chunk.0
columns (err e) = []

abbrev first_waiting : Executor ℕ ℕ
first_waiting = go (chunk_from 0) new_executor

chunk_from-Planned :
    (n : ℕ) (ex : Executor ℕ ℕ) → ex.chunk_origin_step ≡ n → Planned ex (chunk_from n)
unfolding prepare normalize_action_chunk interpolate
chunk_from-Planned n ex e chunk p =
    subst (λ actions. PlannedFrom Plan ex.chunk_origin_step actions) (ap columns p)
      (ground (arith, e))

first_waiting-Reached : Reached first_waiting
first_waiting-Reached = next (chunk_from 0) here (chunk_from-Planned 0 new_executor refl)

waiting-test : first_waiting.caller ≡ exchanging
unfolding step exchange prepare
waiting-test = refl

exchange-returns_example :
    (step later later later config
      (wake (some false))
      (rounds later later later config 2 first_waiting)).0
    ≡ returned
unfolding step
exchange-returns_example =
    exchange-returns later later later config false first_waiting first_waiting-Reached
      (refl, refl, refl)

-- Two ticks later, the caller has its snapshot.
abbrev two_ticks : Executor ℕ ℕ
two_ticks = go step_done (go control_turn (go step_done (go control_turn first_waiting)))

two_ticks-Reached : Reached two_ticks
two_ticks-Reached =
    next step_done
      (next control_turn (next step_done (next control_turn first_waiting-Reached tt) tt) tt) tt

-- The thread runs on while the next chunk is computed, which arrives in the middle of the third tick.
abbrev third_tick : Executor ℕ ℕ
third_tick = go control_turn (go (wake (some false)) two_ticks)

abbrev after_replacement : Executor ℕ ℕ
after_replacement = go step_done (go (chunk_from 2) third_tick)

after_replacement-Reached : Reached after_replacement
unfolding step
after_replacement-Reached =
    next step_done
      (next (chunk_from 2) (next control_turn (next (wake (some false)) two_ticks-Reached tt) tt)
        (chunk_from-Planned 2 third_tick refl))
      tt

Plan-Blends : Blends Plan later
unfolding Blends
Plan-Blends i n s a b p q = q

takes-Plan_example : 3 ≡ after_replacement.completed_steps
unfolding step
takes-Plan_example =
    takes-Plan Plan later later later config after_replacement
      (record { action = 3; value = 0; chunk_started = true }) Plan-Blends after_replacement-Reached
      refl

abbrev lost : Executor ℕ ℕ
lost = step_raises "lost" third_tick

abbrev given : ActionArray ℕ
given = three_dims 1 (5 ∷ 6 ∷ [])

abbrev given_values : ValueArray ℕ
given_values = two_dims 1 (0 ∷ 0 ∷ [])

step_raises-IsFinal_example :
    ((step later later later config control_turn lost).0 ≡ silent)
    × (step later later later config (call_exchange given given_values none) lost
        ≡ (raised (failed_from "lost"), lost))
    × ((step later later later config call_reset lost).0 ≡ raised (failed_from "lost"))
unfolding prepare step_raises step
step_raises-IsFinal_example =
    step_raises-IsFinal later later later config {Allowed = Planned} "lost" third_tick lost given
      given_values (5 ∷ 6 ∷ [], 0 ∷ 0 ∷ []) none here refl refl (omega arith)

abbrev doubled : ExecutorConfig
doubled = record {
  replan_after_steps = 2;
  smooth_overlapping_actions = true;
  interpolation_factor = 2;
}

-- Positions in seconds of an interpolation, weighted.
abbrev weighted : ℕ → ℕ → ℕ → ℕ → ℕ
weighted n d a b = (a * (d - n) + b * n) / d

doubled-test : interpolate weighted 2 (0 ∷ 30 ∷ 60 ∷ []) ≡ ok (0 ∷ 12 ∷ 24 ∷ 36 ∷ 48 ∷ 60 ∷ [])
unfolding interpolate
doubled-test = refl

-- After `close`, the control thread has ended, and an `exchange` of a chunk waits.
abbrev shut : Executor ℕ ℕ
shut = go (wake none) (go control_turn (go call_close new_executor))

abbrev late : Executor ℕ ℕ
late = go (chunk_from 0) shut

closed_exchange-test :
    (late.caller ≡ exchanging)
    × (late.running ≡ false)
    × ((step later later later config (wake none) (go control_turn late)).0 ≡ silent)
unfolding step
closed_exchange-test = (refl, refl, refl)
