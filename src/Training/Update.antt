-- ===== src/Training/Update.antt =====
-- `fit_one_update` (trainer/grfpo/spooled_trainer.py) under `training_transaction`, and
-- `write_training_receipt` (trainer/grfpo/collection_store.py). What the cluster loads and the groups that
-- the store gives are arguments of a call; the training itself is the parameter `train`.
use verl_vla.Common.{
  ℕ, ◌+◌, ◌*◌, String, ◌||◌, not, List, [], ◌∷◌, ◌++◌, Option, none, some, length, take, ◌==◌,
  if◌then◌else◌, Result, ok, err, is_yes, string_discrete, is_some,
}

pub data TrainError : Type 0 where
  not_one_update unexpected_checkpoint missing_checkpoint wrong_step wrong_path : TrainError
  no_groups not_loaded receipt_exists training_failed : TrainError

-- The part of the window's spec that the update reads.
pub record UpdateSpec : Type 0 where
  pub intended_update : ℕ
  pub rollout_policy_version : ℕ
  pub trainer_checkpoint_path : Option String
  pub group_size : ℕ

pub record Receipt : Type 0 where
  pub rollout_policy_version : ℕ
  pub new_policy_version : ℕ
  pub selected_groups : ℕ
  pub accepted_training_trajectories : ℕ

-- What survives the death of the trainer: the checkpoints and the receipt.
pub record TrainState : Type 0 where
  pub checkpoints : List ℕ
  pub receipt : Option Receipt

pub data TrainEffect : Type 0 where
  save_checkpoint : ℕ → TrainEffect
  write_receipt : Receipt → TrainEffect

unfoldable pub apply_effect : TrainState → TrainEffect → TrainState
apply_effect s (save_checkpoint step) = record s { checkpoints = s.checkpoints ++ step ∷ [] }
apply_effect s (write_receipt r) = record s { receipt = some r }

unfoldable pub run_effects : TrainState → List TrainEffect → TrainState
unfolding apply_effect
run_effects s [] = s
run_effects s (e ∷ es) = run_effects (apply_effect s e) es

-- `write_training_receipt`
unfoldable pub write_training_receipt :
    Receipt → TrainState → Result TrainError (Unit {0}) × List TrainEffect
write_training_receipt r s =
    if is_some s.receipt then (err receipt_exists, []) else (ok tt, write_receipt r ∷ [])

-- The checkpoint that was loaded is that of the policy that collected the window.
unfoldable pub check_checkpoint : UpdateSpec → Option (ℕ × String) → Result TrainError (Unit {0})
check_checkpoint spec loaded = elim spec.trainer_checkpoint_path [
  | none ↦
      if is_some loaded || not (spec.rollout_policy_version == 0)
      then err unexpected_checkpoint
      else ok tt
  | some expected ↦ elim loaded [
    | none ↦ err missing_checkpoint
    | some c ↦
        if not (c.0 == spec.rollout_policy_version)
        then err wrong_step
        else if not (is_yes (string_discrete c.1 expected))
        then err wrong_path
        else ok tt
  ]
]

module _ {G : Type 0} (train : List G → Result TrainError (Unit {0})) (spec : UpdateSpec) where
  abbrev pub receipt_of : List G → Receipt
  receipt_of groups = record {
    rollout_policy_version = spec.rollout_policy_version;
    new_policy_version = spec.intended_update;
    selected_groups = length groups;
    accepted_training_trajectories = length groups * spec.group_size;
  }

  -- The checkpoint is saved before the receipt is written.
  unfoldable pub save_update : List G → TrainState → Result TrainError Receipt × List TrainEffect
  unfolding write_training_receipt
  save_update groups s =
      let saved = save_checkpoint spec.intended_update in
      let written = write_training_receipt (receipt_of groups) (run_effects s (saved ∷ [])) in
      elim written.0 [
        | ok _ ↦ (ok (receipt_of groups), saved ∷ written.1)
        | err e ↦ (err e, saved ∷ written.1)
      ]

  unfoldable pub after_training :
      Result TrainError (Unit {0})
      → List G
      → TrainState
      → Result TrainError Receipt × List TrainEffect
  unfolding save_update
  after_training (err e) groups s = (err e, [])
  after_training (ok _) groups s = save_update groups s

  unfoldable pub train_groups :
      Result TrainError (Unit {0})
      → Result TrainError (List G)
      → TrainState
      → Result TrainError Receipt × List TrainEffect
  unfolding after_training
  train_groups (err e) groups s = (err e, [])
  train_groups (ok _) (err e) s = (err e, [])
  train_groups (ok _) (ok []) s = (err no_groups, [])
  train_groups (ok _) (ok (g ∷ groups)) s = after_training (train (g ∷ groups)) (g ∷ groups) s

  -- `fit_one_update`
  unfoldable pub fit_one_update :
      Option (ℕ × String)
      → Result TrainError (List G)
      → TrainState
      → Result TrainError Receipt × List TrainEffect
  unfolding train_groups check_checkpoint
  fit_one_update loaded groups s =
      if not (spec.intended_update == spec.rollout_policy_version + 1)
      then (err not_one_update, [])
      else elim s.receipt [
        | some r ↦ (ok r, [])
        | none ↦ train_groups (check_checkpoint spec loaded) groups s
      ]

  -- Calls one after another under the training lock, each of which may die after its first `n` effects.
  pub data Trained (start : TrainState) : TrainState → Type 0 where
    untrained : Trained start start
    fit :
        {s : TrainState} (loaded : Option (ℕ × String)) (groups : Result TrainError (List G))
        (n : ℕ)
        → Trained start s
        → Trained start (run_effects s (take n (fit_one_update loaded groups s).1))
