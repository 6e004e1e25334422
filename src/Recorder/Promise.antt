-- ===== src/Recorder/Promise.antt =====
-- Whole runs of a dataset recorder (recorder/impl/lerobot.py) against its promise.
use verl_vla.Common.{
  ℕ, true, false, none, is_some, is_yes, string_discrete, get_elem?, ◌⊎◌, Option-cases, Bool-cases,
  ◌≡◌, refl, List, [], ◌∷◌, map, replicate, some, Result, ok, err, inl, inr, Result-cases, arith,
}
use verl_vla.Recorder.Interface.{
  Command, record_once, save_episode, clear_episode, set_mode, pop_completed, flush, finalize,
  Answer, nothing, changed, root,
}
use verl_vla.Recorder.Lerobot.{
  Lerobot, DatasetClass, LerobotError, new_lerobot, lerobot_recorder, add_frames, save_frames,
  save_pending, record_frame, append_frame, clear_pending, change_mode, pop_root, discard,
}
use verl_vla.Recorder.Episodes.{Episodes, promise, IsDatasetClass, Keeps, seen, execute-Refines}

module _ {F D E : Type 0} (dataset_class : DatasetClass F D E) where
  -- A caller that runs commands up to the first that raises.
  unfoldable pub run_commands :
      List (Command F) → Lerobot F D → Result (LerobotError E) (List (Answer D))
  run_commands [] l = ok []
  run_commands (c ∷ cs) l =
      let done = lerobot_recorder dataset_class c l in
      elim done.0 [
        | err e ↦ err e
        | ok a ↦ elim (run_commands cs done.1) [ err e ↦ err e | ok more ↦ ok (a ∷ more) ]
      ]

module _ {F : Type 0} where
  unfoldable pub promised : List (Command F) → Episodes F → List (Answer (List (List F)))
  promised [] e = []
  promised (c ∷ cs) e = (promise c e).0 ∷ promised cs (promise c e).1

  abbrev pub no_episodes : ℕ → Episodes F
  no_episodes num_envs = record {
    pending = replicate num_envs [];
    episodes = [];
    current_mode = "train";
  }

module _ {F D E : Type 0} (dataset_class : DatasetClass F D E)
    (view : D → List (List F) × List F) where
  new-Keeps :
      (num_envs : ℕ) (l : Lerobot F D)
      → IsDatasetClass dataset_class view
      → new_lerobot dataset_class num_envs ≡ ok l
      → Keeps dataset_class view (no_episodes num_envs) l
  unfolding new_lerobot
  new-Keeps num_envs l w h = elim (Result-cases dataset_class.create) [
    | inl (d, q) ↦ ground (arith, h, q, w.created d q)
    | inr (x, q) ↦ ground (arith, h, q)
  ]

  run_commands-promised :
      (cs : List (Command F)) (e : Episodes F) (l : Lerobot F D) (answers : List (Answer D))
      → IsDatasetClass dataset_class view
      → Keeps dataset_class view e l
      → run_commands dataset_class cs l ≡ ok answers
      → map (seen dataset_class view) answers ≡ promised cs e
  unfolding run_commands promised
  run_commands-promised [] e l answers w k h = ground (arith, h)
  run_commands-promised (c ∷ cs) e l answers w k h =
      let done = lerobot_recorder dataset_class c l in
      elim (Result-cases done.0) [
        | inr (x, q) ↦ ground (arith, h, q)
        | inl (a, q) ↦
            let (same, kept) = execute-Refines dataset_class view w c e l a k q in
            elim (Result-cases (run_commands dataset_class cs done.1)) [
              | inr (x, r) ↦ ground (arith, h, q, r)
              | inl (more, r) ↦
                  let rest = run_commands-promised cs (promise c e).1 done.1 more w kept r in
                  ground (arith, h, q, r, same, rest)
            ]
      ]

  -- A dataset class that never raises.
  pub record NeverRaises : Type 0 where
    pub creates : (d : D) × (dataset_class.create ≡ ok d)
    pub adds : (frame : F) (d : D) → (dataset_class.add_frame frame d).0 ≡ ok tt
    pub saves : (d : D) → (dataset_class.save d).0 ≡ ok tt
    pub closes : (d : D) → (d' : D) × (dataset_class.close d ≡ ok d')

  -- The environment exists, and no episode with frames is saved while there is no dataset.
  abbrev pub IsServed : Command F → Lerobot F D → Type 0
  IsServed (record_once i frame) l = is_some (get_elem? l.pending_frames i) ≡ true
  IsServed (clear_episode i) l = is_some (get_elem? l.pending_frames i) ≡ true
  IsServed (save_episode i) l =
      (is_some (get_elem? l.pending_frames i) ≡ true)
      × ((is_some l.dataset ≡ true) ⊎ (get_elem? l.pending_frames i ≡ some []))
  IsServed (set_mode mode) l = Unit
  IsServed pop_completed l = Unit
  IsServed flush l = Unit
  IsServed finalize l = Unit

  abbrev pub AllServed : List (Command F) → Lerobot F D → Type 0
  AllServed [] l = Unit
  AllServed (c ∷ cs) l = IsServed c l × AllServed cs (lerobot_recorder dataset_class c l).1

  Returns : Command F → Lerobot F D → Type 0
  Returns c l = (a : Answer D) × ((lerobot_recorder dataset_class c l).0 ≡ ok a)

  add_frames-total :
      NeverRaises → (frames : List F) (d : D) → (add_frames dataset_class frames d).0 ≡ ok tt
  unfolding add_frames
  add_frames-total t [] d = refl
  add_frames-total t (frame ∷ frames) d =
      let rest = add_frames-total t frames (dataset_class.add_frame frame d).1 in
      ground (arith, t.adds frame d, rest)

  save-total :
      NeverRaises
      → (i : ℕ) (l : Lerobot F D) → IsServed (save_episode i) l
      → Returns (save_episode i) l
  unfolding Returns lerobot_recorder save_pending save_frames
  save-total t i l v = elim (Option-cases (get_elem? l.pending_frames i)) [
    | inl g ↦ ground (arith, v, g)
    | inr ([], g) ↦ (nothing, ground (arith, g))
    | inr (frame ∷ frames, g) ↦ elim (Option-cases l.dataset) [
      | inl o ↦ ground (arith, v, g, o)
      | inr (d, o) ↦
          let added = add_frames-total t (frame ∷ frames) d in
          let saved = t.saves (add_frames dataset_class (frame ∷ frames) d).1 in
          (nothing, ground (arith, g, o, added, saved))
    ]
  ]

  record-total :
      NeverRaises
      → (i : ℕ) (frame : F) (l : Lerobot F D) → IsServed (record_once i frame) l
      → Returns (record_once i frame) l
  unfolding Returns lerobot_recorder record_frame append_frame
  record-total t i frame l v = (nothing, ground (arith, v, t.creates))

  pop-total :
      NeverRaises
      → (e : Episodes F) (l : Lerobot F D) → Keeps dataset_class view e l
      → Returns pop_completed l
  unfolding Returns lerobot_recorder pop_root
  pop-total t e l k = elim (Option-cases l.dataset) [
    | inl o ↦ (root none, ground (arith, k, o))
    | inr (d, o) ↦ elim (Bool-cases l.has_completed_episode) [
      | inr none_yet ↦ (root none, ground (arith, none_yet))
      | inl some_yet ↦
          let (d', closed) = t.closes d in (root (some d'), ground (arith, some_yet, o, closed))
    ]
  ]

  execute-total :
      NeverRaises
      → (c : Command F) (e : Episodes F) (l : Lerobot F D) → Keeps dataset_class view e l
      → IsServed c l
      → Returns c l
  unfolding Returns lerobot_recorder clear_pending change_mode discard
  execute-total t (record_once i frame) e l k v = record-total t i frame l v
  execute-total t (save_episode i) e l k v = save-total t i l v
  execute-total t (clear_episode i) e l k v = (nothing, ground (arith, v))
  execute-total t (set_mode mode) e l k v =
      elim (Bool-cases (is_yes (string_discrete mode l.mode))) [
        | inl same ↦ (changed false, ground (arith, same))
        | inr other ↦ (changed true, ground (arith, other))
      ]
  execute-total t pop_completed e l k v = pop-total t e l k
  execute-total t flush e l k v = (nothing, refl)
  execute-total t finalize e l k v = (nothing, refl)

  run_commands-total :
      NeverRaises
      → IsDatasetClass dataset_class view
      → (cs : List (Command F)) (e : Episodes F) (l : Lerobot F D) → Keeps dataset_class view e l
      → AllServed cs l
      → (answers : List (Answer D)) × (run_commands dataset_class cs l ≡ ok answers)
  unfolding run_commands Returns
  run_commands-total t w [] e l k v = ([], refl)
  run_commands-total t w (c ∷ cs) e l k v =
      let (a, q) = execute-total t c e l k v.0 in
      let (same, kept) = execute-Refines dataset_class view w c e l a k q in
      let (more, r) =
        run_commands-total t w cs (promise c e).1 (lerobot_recorder dataset_class c l).1 kept v.1 in
      (a ∷ more, ground (arith, q, r))

  -- The recorder keeps its promise. Take any dataset class that does what is documented of it and does not
  -- raise, and any commands to a new recorder that name its environments only and do not save an episode
  -- with frames while there is no dataset, that is after a `pop_completed` that returned a root, or a
  -- `finalize`, with no frame recorded since. Then no command raises, and the answers are those of the
  -- abstract recorder: a root that `pop_completed` returns holds exactly the episodes saved since the last one,
  -- in the order of their saving, each with exactly the frames recorded for its environment since
  -- it was last saved or cleared or the mode last changed, and no root is returned when there are none.
  pub lerobot-promised :
      (num_envs : ℕ) (l : Lerobot F D) (cs : List (Command F))
      → IsDatasetClass dataset_class view
      → NeverRaises
      → new_lerobot dataset_class num_envs ≡ ok l
      → AllServed cs l
      → (answers : List (Answer D)) × (run_commands dataset_class cs l ≡ ok answers)
        × (map (seen dataset_class view) answers ≡ promised cs (no_episodes num_envs))
  lerobot-promised num_envs l cs w t n v =
      let start = new-Keeps num_envs l w n in
      let (answers, r) = run_commands-total t w cs (no_episodes num_envs) l start v in
      (answers, r, run_commands-promised cs (no_episodes num_envs) l answers w start r)
