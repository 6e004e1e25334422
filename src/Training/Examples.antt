-- ===== src/Training/Examples.antt =====
-- One update over a window of two groups (trainer/grfpo/spooled_trainer.py).
use verl_vla.Common.{ℕ, refl, List, [], ◌∷◌, none, some, Result, ok, take}
use verl_vla.Training.Update.{
  TrainError, UpdateSpec, TrainState, untrained, fit, Trained, run_effects, fit_one_update,
  receipt_of,
}
use verl_vla.Training.Receipt.{IsDurable, Trained-IsDurable}

abbrev train : List ℕ → Result TrainError (Unit {0})
train groups = ok tt

abbrev spec : UpdateSpec
spec = record {
  intended_update = 1;
  rollout_policy_version = 0;
  trainer_checkpoint_path = none;
  group_size = 8;
}

abbrev start : TrainState
start = record { checkpoints = []; receipt = none }

abbrev trained : TrainState
trained = record { checkpoints = 1 ∷ []; receipt = some (receipt_of train spec (5 ∷ 6 ∷ [])) }

-- A first call dies after the checkpoint, a second one runs to its end.
abbrev retried : TrainState
retried =
    let cut =
      run_effects start (take 1 (fit_one_update train spec none (ok (5 ∷ 6 ∷ [])) start).1) in
    run_effects cut (take 9 (fit_one_update train spec none (ok (5 ∷ 6 ∷ [])) cut).1)

abbrev two_calls : Trained train spec start retried
two_calls = fit none (ok (5 ∷ 6 ∷ [])) 9 (fit none (ok (5 ∷ 6 ∷ [])) 1 untrained)

Trained-IsDurable_example : IsDurable train spec two_calls
Trained-IsDurable_example = Trained-IsDurable train spec two_calls refl
