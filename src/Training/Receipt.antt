-- ===== src/Training/Receipt.antt =====
-- The training receipt and the checkpoint of an update (trainer/grfpo/spooled_trainer.py).
use verl_vla.Common.{
  ℕ, zero, suc, ◌+◌, ◌≡◌, refl, sym, ◌∙◌, String, true, List, [], ◌∷◌, Option, none, some, take,
  ◌==◌, Result, ok, err, Bool-cases, Option-cases, inl, inr, ◌⊎◌, arith, ap, length, ◌<◌,
}
use verl_vla.Common.Sets.{member, member-append}
use verl_vla.Training.Update.{
  TrainError, UpdateSpec, Receipt, TrainState, TrainEffect, save_checkpoint, write_receipt,
  run_effects, apply_effect, check_checkpoint, receipt_of, save_update, after_training,
  train_groups, fit_one_update, Trained, untrained, fit,
}

module _ {G : Type 0} (train : List G → Result TrainError (Unit {0})) (spec : UpdateSpec) where
  -- What a call on a state without a receipt, for the groups that it loads, may be made of: it does nothing,
  -- or it trained on those groups, some of them, and saves the checkpoint and then the receipt.
  abbrev IsUpdate : Result TrainError (List G) → List TrainEffect → Type 0
  IsUpdate given es =
      (es ≡ [])
      ⊎ ((groups : List G) × (given ≡ ok groups)
          × (0 < length groups)
          × (train groups ≡ ok tt)
          × (es
              ≡ save_checkpoint spec.intended_update
                ∷ write_receipt (receipt_of train spec groups)
                ∷ []))

  save_update-written :
      (groups : List G) (s : TrainState)
      → s.receipt ≡ none
      → (save_update train spec groups s).1
        ≡ save_checkpoint spec.intended_update ∷ write_receipt (receipt_of train spec groups) ∷ []
  unfolding save_update run_effects
  save_update-written groups s h = rw h refl

  after_training-IsUpdate :
      (trained : Result TrainError (Unit {0})) (groups : List G) (s : TrainState)
      → 0 < length groups
      → train groups ≡ trained
      → s.receipt ≡ none
      → IsUpdate (ok groups) (after_training train spec trained groups s).1
  unfolding after_training
  after_training-IsUpdate (err e) groups s pos same h = inl refl
  after_training-IsUpdate (ok _) groups s pos same h =
      inr (groups, refl, pos, same, save_update-written groups s h)

  train_groups-IsUpdate :
      (checked : Result TrainError (Unit {0})) (groups : Result TrainError (List G))
      (s : TrainState)
      → s.receipt ≡ none
      → IsUpdate groups (train_groups train spec checked groups s).1
  unfolding train_groups
  train_groups-IsUpdate (err e) groups s h = inl refl
  train_groups-IsUpdate (ok _) (err e) s h = inl refl
  train_groups-IsUpdate (ok _) (ok []) s h = inl refl
  train_groups-IsUpdate (ok _) (ok (g ∷ groups)) s h =
      after_training-IsUpdate (train (g ∷ groups)) (g ∷ groups) s (omega arith) refl h

  fit-IsUpdate :
      (loaded : Option (ℕ × String)) (groups : Result TrainError (List G)) (s : TrainState)
      → s.receipt ≡ none
      → IsUpdate groups (fit_one_update train spec loaded groups s).1
  unfolding fit_one_update
  fit-IsUpdate loaded groups s h =
      elim (Bool-cases (spec.intended_update == spec.rollout_policy_version + 1)) [
        | inl one ↦ rw (one, h) (train_groups-IsUpdate (check_checkpoint spec loaded) groups s h)
        | inr other ↦ rw other (inl refl)
      ]

  fit-done :
      (loaded : Option (ℕ × String)) (groups : Result TrainError (List G)) (s : TrainState)
      (r : Receipt)
      → s.receipt ≡ some r
      → (fit_one_update train spec loaded groups s).1 ≡ []
  unfolding fit_one_update
  fit-done loaded groups s r h =
      elim (Bool-cases (spec.intended_update == spec.rollout_policy_version + 1)) [
        | inl one ↦ rw (one, h) refl
        | inr other ↦ rw other refl
      ]

  -- The groups are those that one of the calls loaded.
  unfoldable pub WasGiven : List G → {start s : TrainState} → Trained train spec start s → Type 0
  WasGiven groups untrained = ⊥
  WasGiven groups (fit loaded given n t) = (given ≡ ok groups) ⊎ WasGiven groups t

  -- A receipt is there only with the checkpoint of the update, and says what was trained on: some groups that
  -- one of the calls loaded, and on which the training succeeded.
  abbrev pub IsDurable : {start s : TrainState} → Trained train spec start s → Type 0
  IsDurable {s = s} t =
      (r : Receipt)
      → s.receipt ≡ some r
      → (member spec.intended_update s.checkpoints ≡ true)
        × ((groups : List G) × WasGiven groups t
            × (0 < length groups)
            × (train groups ≡ ok tt)
            × (r ≡ receipt_of train spec groups))

  -- After both effects, or a first part of them.
  run-checkpoint :
      (s : TrainState) (groups : List G) (n : ℕ) (r : Receipt)
      → s.receipt ≡ none
      → (run_effects s (
          take n (
            save_checkpoint spec.intended_update
            ∷ write_receipt (receipt_of train spec groups)
            ∷ []))).receipt
        ≡ some r
      → (member spec.intended_update
            (run_effects s (
              take n (
                save_checkpoint spec.intended_update
                ∷ write_receipt (receipt_of train spec groups)
                ∷ []))).checkpoints
          ≡ true)
        × (r ≡ receipt_of train spec groups)
  unfolding run_effects apply_effect
  run-checkpoint s groups zero r h e = absurd (ground (arith, h, e))
  run-checkpoint s groups (suc zero) r h e = absurd (ground (arith, h, e))
  run-checkpoint s groups (suc (suc zero)) r h e = (
    ground (arith, member-append spec.intended_update s.checkpoints (spec.intended_update ∷ [])),
    cc,
  )
  run-checkpoint s groups (suc (suc (suc n))) r h e = (
    ground (arith, member-append spec.intended_update s.checkpoints (spec.intended_update ∷ [])),
    cc,
  )

  run_nothing : (s : TrainState) (n : ℕ) → run_effects s (take n []) ≡ s
  unfolding run_effects
  run_nothing s zero = refl
  run_nothing s (suc n) = refl

  -- A call without effects.
  idle-IsDurable :
      (loaded : Option (ℕ × String)) (groups : Result TrainError (List G)) (n : ℕ)
      {start s : TrainState} (t : Trained train spec start s)
      → (fit_one_update train spec loaded groups s).1 ≡ []
      → IsDurable t
      → IsDurable (fit loaded groups n t)
  unfolding WasGiven
  idle-IsDurable loaded groups n {s = s} t nothing h r e =
      let same : run_effects s (take n (fit_one_update train spec loaded groups s).1) ≡ s =
        ap (λ es. run_effects s (take n es)) nothing ∙ run_nothing s n in
      let (saved, (trained, given, pos, succeeded, stated)) =
        h r (ap (λ x. x.receipt) (sym same) ∙ e) in
      (rw same saved, (trained, inr given, pos, succeeded, stated))

  fit-IsDurable :
      (loaded : Option (ℕ × String)) (groups : Result TrainError (List G)) (n : ℕ)
      {start s : TrainState} (t : Trained train spec start s)
      → IsDurable t
      → IsDurable (fit loaded groups n t)
  unfolding WasGiven
  fit-IsDurable loaded groups n {s = s} t h r e = elim (Option-cases s.receipt) [
    | inr (old, found) ↦ idle-IsDurable loaded groups n t (fit-done loaded groups s old found) h r e
    | inl none_yet ↦ elim (fit-IsUpdate loaded groups s none_yet) [
      | inl nothing ↦ idle-IsDurable loaded groups n t nothing h r e
      | inr (trained, given, pos, succeeded, effects) ↦
          let e' = rw effects at e in
          let (saved, same) = run-checkpoint s trained n r none_yet e' in
          (rw effects saved, (trained, inl given, pos, succeeded, same))
    ]
  ]

  -- After any calls of `fit_one_update` from a state without a receipt, each run to its end or cut short
  -- after some of its effects: a receipt is there only if the checkpoint of the new policy was saved,
  -- and there are groups, at least one, that one of the calls loaded and on which the training
  -- succeeded, such that the receipt states their number, and that of their trajectories.
  pub Trained-IsDurable :
      {start s : TrainState} (t : Trained train spec start s) → start.receipt ≡ none → IsDurable t
  Trained-IsDurable untrained h = λ r e. cc
  Trained-IsDurable (fit {s = s} loaded groups n t) h =
      fit-IsDurable loaded groups n t (Trained-IsDurable t h)

  -- Once the receipt is written, no call saves a checkpoint or writes a receipt again.
  pub Trained-done :
      {start s : TrainState} (r : Receipt)
      → Trained train spec start s
      → start.receipt ≡ some r
      → s ≡ start
  Trained-done r untrained h = refl
  Trained-done r (fit {s = s} loaded groups n t) h =
      let same = Trained-done r t h in
      rw (fit-done loaded groups s r (ap (λ x. x.receipt) same ∙ h), run_nothing s n) same
