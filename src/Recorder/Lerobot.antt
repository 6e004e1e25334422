-- ===== src/Recorder/Lerobot.antt =====
-- `LeRobotDatasetRecorder` (recorder/impl/lerobot.py). The dataset class is a library's: its operations are
-- parameters, each of which answers or raises and leaves a dataset. A frame is what the strategy has made of
-- an observation. The root that `pop_completed` returns stands for the dataset that it holds.
use verl_vla.Common.{
  ℕ, zero, suc, Bool, true, false, not, String, List, [], ◌∷◌, ◌++◌, map, get_elem?, replicate,
  Option, none, some, Result, ok, err, if◌then◌else◌, is_yes, string_discrete,
}
use verl_vla.Recorder.Interface.{
  record_once, save_episode, clear_episode, set_mode, pop_completed, flush, finalize, Answer,
  nothing, changed, root, Recorder,
}

pub data LerobotError (E : Type 0) : Type 0 where
  no_environment no_dataset : LerobotError E
  library : E → LerobotError E

pub record Lerobot (F D : Type 0) : Type 0 where
  pub pending_frames : List (List F)
  pub has_completed_episode : Bool
  pub mode : String
  pub dataset : Option D

pub record DatasetClass (F D E : Type 0) : Type 0 where
  pub create : Result E D
  pub add_frame : F → D → Result E (Unit {0}) × D
  pub save : D → Result E (Unit {0}) × D
  pub close : D → Result E D

module _ {ℓ} {A : Type ℓ} where
  unfoldable pub update_at : ℕ → (A → A) → List A → List A
  update_at i f [] = []
  update_at zero f (x ∷ xs) = f x ∷ xs
  update_at (suc i) f (x ∷ xs) = x ∷ update_at i f xs

abbrev pub no_frames : {F : Type 0} → List (List F) → List (List F)
no_frames pending = map (λ frames. []) pending

module _ {F D E : Type 0} (dataset_class : DatasetClass F D E) where
  abbrev Outcome : Type 0
  Outcome = Result (LerobotError E) (Answer D) × Lerobot F D

  unfoldable pub new_lerobot : ℕ → Result (LerobotError E) (Lerobot F D)
  new_lerobot num_envs = elim dataset_class.create [
    | err e ↦ err (library e)
    | ok d ↦ ok (record {
      pending_frames = replicate num_envs [];
      has_completed_episode = false;
      mode = "train";
      dataset = some d;
    })
  ]

  unfoldable pub append_frame : ℕ → F → Lerobot F D → Outcome
  append_frame i frame l = elim (get_elem? l.pending_frames i) [
    | none ↦ (err no_environment, l)
    | some frames ↦ (
      ok nothing,
      record l { pending_frames = update_at i (λ old. old ++ frame ∷ []) l.pending_frames },
    )
  ]

  unfoldable pub record_frame : ℕ → F → Lerobot F D → Outcome
  unfolding append_frame
  record_frame i frame l = elim l.dataset [
    | some d ↦ append_frame i frame l
    | none ↦ elim dataset_class.create [
      | err e ↦ (err (library e), l)
      | ok d ↦ append_frame i frame (record l { dataset = some d })
    ]
  ]

  -- The loop of `save_episode`: it stops where the library raises.
  unfoldable pub add_frames : List F → D → Result E (Unit {0}) × D
  add_frames [] d = (ok tt, d)
  add_frames (frame ∷ frames) d =
      let added = dataset_class.add_frame frame d in
      elim added.0 [ err e ↦ (err e, added.1) | ok _ ↦ add_frames frames added.1 ]

  unfoldable pub save_frames : ℕ → List F → D → Lerobot F D → Outcome
  unfolding add_frames
  save_frames i frames d l =
      let added = add_frames frames d in
      elim added.0 [
        | err e ↦ (err (library e), record l { dataset = some added.1 })
        | ok _ ↦
            let saved = dataset_class.save added.1 in
            elim saved.0 [
              | err e ↦ (err (library e), record l { dataset = some saved.1 })
              | ok _ ↦ (
                ok nothing,
                record l {
                  dataset = some saved.1;
                  pending_frames = update_at i (λ old. []) l.pending_frames;
                  has_completed_episode = true;
                },
              )
            ]
      ]

  unfoldable pub save_pending : ℕ → Lerobot F D → Outcome
  unfolding save_frames
  save_pending i l = elim (get_elem? l.pending_frames i) [
    | none ↦ (err no_environment, l)
    | some [] ↦ (ok nothing, l)
    | some (frame ∷ frames) ↦ elim l.dataset [
      | none ↦ (err no_dataset, l)
      | some d ↦ save_frames i (frame ∷ frames) d l
    ]
  ]

  unfoldable pub clear_pending : ℕ → Lerobot F D → Outcome
  clear_pending i l = elim (get_elem? l.pending_frames i) [
    | none ↦ (err no_environment, l)
    | some frames ↦
        (ok nothing, record l { pending_frames = update_at i (λ old. []) l.pending_frames })
  ]

  unfoldable pub change_mode : String → Lerobot F D → Outcome
  change_mode mode l = if is_yes (string_discrete mode l.mode) then (ok (changed false), l) else (
    ok (changed true),
    record l { mode = mode; pending_frames = no_frames l.pending_frames },
  )

  unfoldable pub pop_root : Lerobot F D → Outcome
  pop_root l = if not l.has_completed_episode then (ok (root none), l) else elim l.dataset [
    | none ↦ (err no_dataset, l)
    | some d ↦ elim (dataset_class.close d) [
      | err e ↦ (err (library e), l)
      | ok closed ↦
          (ok (root (some closed)), record l { dataset = none; has_completed_episode = false })
    ]
  ]

  unfoldable pub discard : Lerobot F D → Outcome
  discard l = (
    ok nothing,
    record l {
      pending_frames = no_frames l.pending_frames;
      has_completed_episode = false;
      dataset = none;
    },
  )

  unfoldable pub lerobot_recorder : Recorder F D (LerobotError E) (Lerobot F D)
  unfolding record_frame save_pending clear_pending change_mode pop_root discard
  lerobot_recorder (record_once i frame) l = record_frame i frame l
  lerobot_recorder (save_episode i) l = save_pending i l
  lerobot_recorder (clear_episode i) l = clear_pending i l
  lerobot_recorder (set_mode mode) l = change_mode mode l
  lerobot_recorder pop_completed l = pop_root l
  lerobot_recorder flush l = (ok nothing, l)
  lerobot_recorder finalize l = discard l
