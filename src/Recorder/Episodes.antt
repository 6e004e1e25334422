-- ===== src/Recorder/Episodes.antt =====
-- What a dataset recorder promises of its episodes (recorder/impl/lerobot.py): the frames of each environment
-- since its last save or clearing, and the episodes since the last `pop_completed`.
use verl_vla.Common.{
  ℕ, zero, suc, ◌≡◌, refl, sym, subst, ap, ◌∙◌, Bool, true, false, not, String, List, [], ◌∷◌, ◌++◌,
  get_elem?, Option, none, some, ok, if◌then◌else◌, is_yes, string_discrete, arith, inl, inr,
  Option-cases, Result-cases,
}
use mathlib.Core.List.{append_assoc, append-nil}
use verl_vla.Recorder.Interface.{
  Command, record_once, save_episode, clear_episode, set_mode, pop_completed, flush, finalize,
  Answer, nothing, changed, root,
}
use verl_vla.Recorder.Lerobot.{
  Lerobot, DatasetClass, update_at, no_frames, record_frame, append_frame, add_frames, save_frames,
  save_pending, clear_pending, change_mode, pop_root, discard, lerobot_recorder,
}

pub record Episodes (F : Type 0) : Type 0 where
  pub pending : List (List F)
  pub episodes : List (List F)
  pub current_mode : String

abbrev pub is_empty : {A : Type 0} → List A → Bool
is_empty [] = true
is_empty (x ∷ xs) = false

module _ {F : Type 0} where
  abbrev finished : Option (List F) → List (List F)
  finished none = []
  finished (some []) = []
  finished (some (frame ∷ frames)) = (frame ∷ frames) ∷ []

  -- The abstract recorder, which cannot fail.
  unfoldable pub promise : Command F → Episodes F → Answer (List (List F)) × Episodes F
  promise (record_once i frame) e =
      (nothing, record e { pending = update_at i (λ old. old ++ frame ∷ []) e.pending })
  promise (save_episode i) e = (
    nothing,
    record e {
      pending = update_at i (λ old. []) e.pending;
      episodes = e.episodes ++ finished (get_elem? e.pending i);
    },
  )
  promise (clear_episode i) e = (nothing, record e { pending = update_at i (λ old. []) e.pending })
  promise (set_mode mode) e =
      if is_yes (string_discrete mode e.current_mode)
      then (changed false, e)
      else (changed true, record e { current_mode = mode; pending = no_frames e.pending })
  promise pop_completed e =
      if is_empty e.episodes
      then (root none, e)
      else (root (some e.episodes), record e { episodes = [] })
  promise flush e = (nothing, e)
  promise finalize e = (nothing, record e { pending = no_frames e.pending; episodes = [] })

nonempty : {A : Type 0} (xs : List A) (x : A) → is_empty (xs ++ x ∷ []) ≡ false
nonempty [] x = refl
nonempty (y ∷ ys) x = refl

update_at-same :
    {A : Type 0} (i : ℕ) (xs : List A) (x : A)
    → get_elem? xs i ≡ some x
    → update_at i (λ old. x) xs ≡ xs
unfolding update_at
update_at-same i [] x h = refl
update_at-same zero (y ∷ ys) x h = ground (arith, h)
update_at-same (suc i) (y ∷ ys) x h = ap (λ zs. y ∷ zs) (update_at-same i ys x h)

module _ {F D E : Type 0} (dataset_class : DatasetClass F D E)
    (view : D → List (List F) × List F) where
  -- What is documented of the dataset class: a new dataset is empty, frames collect in a buffer until `save`
  -- makes an episode of them, and closing keeps the episodes.
  pub record IsDatasetClass : Type 0 where
    pub created : (d : D) → dataset_class.create ≡ ok d → view d ≡ ([], [])
    pub added :
        (frame : F) (d : D)
        → (dataset_class.add_frame frame d).0 ≡ ok tt
        → view (dataset_class.add_frame frame d).1 ≡ ((view d).0, (view d).1 ++ frame ∷ [])
    pub saved :
        (d : D)
        → (dataset_class.save d).0 ≡ ok tt
        → view (dataset_class.save d).1 ≡ ((view d).0 ++ (view d).1 ∷ [], [])
    pub closed : (d d' : D) → dataset_class.close d ≡ ok d' → view d' ≡ view d

  abbrev Holds : Option D → List (List F) → Type 0
  Holds none episodes = episodes ≡ []
  Holds (some d) episodes = view d ≡ (episodes, [])

  pub record Keeps (e : Episodes F) (l : Lerobot F D) : Type 0 where
    pub same_pending : l.pending_frames ≡ e.pending
    pub same_mode : l.mode ≡ e.current_mode
    pub completed : l.has_completed_episode ≡ not (is_empty e.episodes)
    pub holds : Holds l.dataset e.episodes

  -- An answer as the abstract recorder gives it.
  abbrev pub seen : Answer D → Answer (List (List F))
  seen nothing = nothing
  seen (changed b) = changed b
  seen (root none) = root none
  seen (root (some d)) = root (some (view d).0)

  -- A command that does not raise does what is promised.
  abbrev Refines : Command F → Type 0
  Refines c =
      (e : Episodes F) (l : Lerobot F D) (a : Answer D)
      → Keeps e l
      → (lerobot_recorder dataset_class c l).0 ≡ ok a
      → (seen a ≡ (promise c e).0) × Keeps (promise c e).1 (lerobot_recorder dataset_class c l).1

  add_frames-view :
      IsDatasetClass
      → (frames : List F) (d : D) → (add_frames dataset_class frames d).0 ≡ ok tt
      → view (add_frames dataset_class frames d).1 ≡ ((view d).0, (view d).1 ++ frames)
  unfolding add_frames
  add_frames-view w [] d h = ap (λ buffer. ((view d).0, buffer)) (sym (append-nil (view d).1))
  add_frames-view w (frame ∷ frames) d h = elim (Result-cases (dataset_class.add_frame frame d).0) [
    | inr (e, q) ↦ ground (arith, h, q)
    | inl (_, q) ↦
        let one = w.added frame d q in
        let buffer = (view d).1 in
        let rest =
          add_frames-view w frames (dataset_class.add_frame frame d).1 (ground (arith, h, q)) in
        rw (add_frames, q)
          (rest
            ∙ ap (λ v. (v.0, v.1 ++ frames)) one
            ∙ ap (λ more. ((view d).0, more)) (append_assoc buffer (frame ∷ []) frames))
  ]

  clear-Refines : (i : ℕ) → Refines (clear_episode i)
  unfolding lerobot_recorder promise clear_pending
  clear-Refines i e l a k h = ground arith

  mode-Refines : (mode : String) → Refines (set_mode mode)
  unfolding lerobot_recorder promise change_mode
  mode-Refines mode e l a k h = ground arith

  flush-Refines : Refines flush
  unfolding lerobot_recorder promise
  flush-Refines e l a k h = ground arith

  finalize-Refines : Refines finalize
  unfolding lerobot_recorder promise discard
  finalize-Refines e l a k h = ground arith

  record-Refines : IsDatasetClass → (i : ℕ) (f : F) → Refines (record_once i f)
  unfolding lerobot_recorder promise record_frame append_frame
  record-Refines w i f e l a k h = elim (Result-cases dataset_class.create) [
    | inl (d, q) ↦ ground (arith, k, h, q, w.created d q)
    | inr (x, q) ↦ ground (arith, k, h, q)
  ]

  pop-Refines : IsDatasetClass → Refines pop_completed
  unfolding lerobot_recorder promise pop_root
  pop-Refines w e l a k h = elim (Option-cases l.dataset) [
    | inl q ↦ ground (arith, k, h, q)
    | inr (d, q) ↦ elim (Result-cases (dataset_class.close d)) [
      | inl (d', r) ↦ ground (arith, k, h, q, r, w.closed d d' r)
      | inr (x, r) ↦ ground (arith, k, h, q, r)
    ]
  ]

  saved-view :
      IsDatasetClass
      → (frames : List F) (episodes : List (List F)) (d : D) → view d ≡ (episodes, [])
      → (add_frames dataset_class frames d).0 ≡ ok tt
      → (dataset_class.save (add_frames dataset_class frames d).1).0 ≡ ok tt
      → view (dataset_class.save (add_frames dataset_class frames d).1).1
        ≡ (episodes ++ frames ∷ [], [])
  saved-view w frames episodes d v h h' =
      let all = add_frames-view w frames d h in
      w.saved (add_frames dataset_class frames d).1 h'
      ∙ ap (λ x. (x.0 ++ x.1 ∷ [], [])) (all ∙ ap (λ x. (x.0, x.1 ++ frames)) v)

  save_frames-Keeps :
      IsDatasetClass
      → (i : ℕ) (frame : F) (frames : List F) (d : D) (e : Episodes F) (l : Lerobot F D)
        (a : Answer D)
      → Keeps e l
      → get_elem? e.pending i ≡ some (frame ∷ frames)
      → l.dataset ≡ some d
      → (save_frames dataset_class i (frame ∷ frames) d l).0 ≡ ok a
      → (seen a ≡ nothing)
        × Keeps (promise (save_episode i) e).1 (save_frames dataset_class i (frame ∷ frames) d l).1
  unfolding save_frames promise
  save_frames-Keeps w i frame frames d e l a k g o h =
      let added = add_frames dataset_class (frame ∷ frames) d in
      elim (Result-cases added.0) [
        | inr (x, q) ↦ ground (arith, h, q)
        | inl (_, q) ↦ elim (Result-cases (dataset_class.save added.1).0) [
          | inr (x, r) ↦ ground (arith, h, q, r)
          | inl (_, r) ↦
              let v = saved-view w (frame ∷ frames) e.episodes d (ground (arith, k, o)) q r in
              ground (arith, k, g, o, h, q, r, v, nonempty e.episodes (frame ∷ frames))
        ]
      ]

  save_pending-save_frames :
      (i : ℕ) (frame : F) (frames : List F) (d : D) (l : Lerobot F D)
      → get_elem? l.pending_frames i ≡ some (frame ∷ frames)
      → l.dataset ≡ some d
      → save_pending dataset_class i l ≡ save_frames dataset_class i (frame ∷ frames) d l
  unfolding save_pending
  save_pending-save_frames i frame frames d l g o = ground (arith, g, o)

  save-Refines : IsDatasetClass → (i : ℕ) → Refines (save_episode i)
  unfolding lerobot_recorder promise save_pending
  save-Refines w i e l a k h = elim (Option-cases (get_elem? e.pending i)) [
    | inl g ↦ ground (arith, k, h, g)
    | inr ([], g) ↦ ground (arith, k, h, g, update_at-same i e.pending [] g, append-nil e.episodes)
    | inr (frame ∷ frames, g) ↦ elim (Option-cases l.dataset) [
      | inl o ↦ ground (arith, k, h, g, o)
      | inr (d, o) ↦
          let same = save_pending-save_frames i frame frames d l (ground (arith, k, g)) o in
          subst (λ r. (seen a ≡ nothing) × Keeps (promise (save_episode i) e).1 r.1) (sym same)
            (save_frames-Keeps w i frame frames d e l a k g o (ap (λ r. r.0) (sym same) ∙ h))
    ]
  ]

  pub execute-Refines : IsDatasetClass → (c : Command F) → Refines c
  execute-Refines w (record_once i frame) = record-Refines w i frame
  execute-Refines w (save_episode i) = save-Refines w i
  execute-Refines w (clear_episode i) = clear-Refines i
  execute-Refines w (set_mode mode) = mode-Refines mode
  execute-Refines w pop_completed = pop-Refines w
  execute-Refines w flush = flush-Refines
  execute-Refines w finalize = finalize-Refines
