-- ===== src/Collection/Invariant.antt =====
-- The invariant of a collection window (trainer/grfpo/collection_store.py) and the single file operations.
use verl_vla.Common.{
  ℕ, zero, suc, ◌+◌, ◌≤◌, ◌<◌, ◌≡◌, refl, sym, true, false, none, some, List, [], ◌∷◌, arith,
  lookup, lookup-insert, has_key, take, ℕ_discrete,
}
use verl_vla.Common.Counting.{
  bit, count_below, count_below-add, count_below-none, length-insert_new,
}
use verl_vla.Collection.Spec.{CollectionWindowSpec}
use verl_vla.Collection.Close.{may_close, closing_of, completed_count, to_manifest}
use verl_vla.Collection.Window.{
  Manifest, Group, Window, Effect, fresh, run, apply, candidate_complete, write_manifest,
  write_closed, publish, write_rejected, write_skipped, Closing, Rejection, Skip,
}

module _ {B : Type 0} (len : B → ℕ) (spec : CollectionWindowSpec) where
  -- A published group is of the window's policy and size, and stands under its own candidate.
  pub record IsGroup (i : ℕ) (g : Group B) : Type 0 where
    pub policy : g.policy ≡ spec.policy
    pub size : len g.rollout ≡ spec.group_size
    pub end_size : len g.rollout_end_obs ≡ spec.group_size
    pub index : g.candidate.candidate_index ≡ i
    pub informative : g.group_record.informative ≡ true

  pub record IsSound (w : Window B) : Type 0 where
    pub once :
        (i : ℕ)
        → bit (has_key i w.accepted) + bit (has_key i w.rejected) + bit (has_key i w.skipped) ≤ 1
    pub in_budget : (i : ℕ) → candidate_complete w i ≡ true → i < spec.max_candidate_groups
    pub counted : completed_count w ≡ count_below spec.max_candidate_groups (candidate_complete w)
    pub groups : (i : ℕ) (g : Group B) → lookup i w.accepted ≡ some g → IsGroup i g
    pub stored : (m : Manifest) → w.manifest ≡ some m → m ≡ to_manifest spec
    pub closing :
        (c : Closing)
        → w.closed ≡ some c
        → (c ≡ closing_of spec w c.closed_at) × (may_close spec w ≡ true)

  -- What a file operation needs of the window in which it is done.
  abbrev pub IsFree : ℕ → Window B → Type 0
  IsFree i w =
      (candidate_complete w i ≡ false) × (w.closed ≡ none) × (i < spec.max_candidate_groups)

  abbrev pub Safe : Window B → Effect B → Type 0
  Safe w (publish i g) = IsFree i w × IsGroup i g
  Safe w (write_rejected i r) = IsFree i w
  Safe w (write_skipped i s) = IsFree i w
  Safe w (write_closed c) =
      (w.closed ≡ none) × (c ≡ closing_of spec w c.closed_at) × (may_close spec w ≡ true)
  Safe w (write_manifest m) = m ≡ to_manifest spec
  Safe w _ = Unit

  abbrev pub SafeAll : Window B → List (Effect B) → Type 0
  SafeAll w [] = Unit
  SafeAll w (e ∷ es) = Safe w e × SafeAll (apply w e) es

  absent_accepted :
      (w : Window B) (i : ℕ) → candidate_complete w i ≡ false → lookup i w.accepted ≡ none
  absent_accepted w i h = ground arith

  absent_rejected :
      (w : Window B) (i : ℕ) → candidate_complete w i ≡ false → lookup i w.rejected ≡ none
  absent_rejected w i h = ground arith

  absent_skipped :
      (w : Window B) (i : ℕ) → candidate_complete w i ≡ false → lookup i w.skipped ≡ none
  absent_skipped w i h = ground arith

  publish-IsSound :
      (w : Window B) (i : ℕ) (g : Group B)
      → IsFree i w
      → IsGroup i g
      → IsSound w
      → IsSound (apply w (publish i g))
  unfolding apply
  publish-IsSound w i g free ok s = record {
    once = λ j. ground (arith, s.once j, lookup-insert i j g w.accepted, free.0);
    in_budget = λ j. ground (arith, s.in_budget j, lookup-insert i j g w.accepted);
    counted = omega (
      arith,
      s.counted,
      length-insert_new i g w.accepted (absent_accepted w i free.0),
      count_below-add spec.max_candidate_groups i (candidate_complete w)
          (candidate_complete (apply w (publish i g))) free.2 free.0
          (ground (arith, lookup-insert i i g w.accepted))
          (λ j ne. ground (arith, lookup-insert i j g w.accepted)),
    );
    groups = λ j h e. elim (ℕ_discrete i j) [
      | yes same ↦ ground (arith, lookup-insert i j g w.accepted)
      | no other ↦ s.groups j h (ground (arith, lookup-insert i j g w.accepted))
    ];
    stored = s.stored;
    closing = λ c e. cc (free.1);
  }

  write_rejected-IsSound :
      (w : Window B) (i : ℕ) (r : Rejection)
      → IsFree i w
      → IsSound w
      → IsSound (apply w (write_rejected i r))
  unfolding apply
  write_rejected-IsSound w i r free s = record {
    once = λ j. ground (arith, s.once j, lookup-insert i j r w.rejected, free.0);
    in_budget = λ j. ground (arith, s.in_budget j, lookup-insert i j r w.rejected);
    counted = omega (
      arith,
      s.counted,
      length-insert_new i r w.rejected (absent_rejected w i free.0),
      count_below-add spec.max_candidate_groups i (candidate_complete w)
          (candidate_complete (apply w (write_rejected i r))) free.2 free.0
          (ground (arith, lookup-insert i i r w.rejected))
          (λ j ne. ground (arith, lookup-insert i j r w.rejected)),
    );
    groups = s.groups;
    stored = s.stored;
    closing = λ c e. cc (free.1);
  }

  write_skipped-IsSound :
      (w : Window B) (i : ℕ) (x : Skip)
      → IsFree i w
      → IsSound w
      → IsSound (apply w (write_skipped i x))
  unfolding apply
  write_skipped-IsSound w i x free s = record {
    once = λ j. ground (arith, s.once j, lookup-insert i j x w.skipped, free.0);
    in_budget = λ j. ground (arith, s.in_budget j, lookup-insert i j x w.skipped);
    counted = omega (
      arith,
      s.counted,
      length-insert_new i x w.skipped (absent_skipped w i free.0),
      count_below-add spec.max_candidate_groups i (candidate_complete w)
          (candidate_complete (apply w (write_skipped i x))) free.2 free.0
          (ground (arith, lookup-insert i i x w.skipped))
          (λ j ne. ground (arith, lookup-insert i j x w.skipped)),
    );
    groups = s.groups;
    stored = s.stored;
    closing = λ c e. cc (free.1);
  }

  -- Every file operation that is safe where it is done keeps the invariant.
  pub apply-IsSound : (w : Window B) (e : Effect B) → Safe w e → IsSound w → IsSound (apply w e)
  unfolding apply closing_of may_close
  apply-IsSound w (publish i g) h s = publish-IsSound w i g h.0 h.1 s
  apply-IsSound w (write_rejected i r) h s = write_rejected-IsSound w i r h s
  apply-IsSound w (write_skipped i x) h s = write_skipped-IsSound w i x h s
  apply-IsSound w (write_closed c) h s = record {
    once = s.once;
    in_budget = s.in_budget;
    counted = s.counted;
    groups = s.groups;
    stored = s.stored;
    closing = λ d e. let q : c ≡ d = cc in rw (← q) (h.1, h.2);
  }
  apply-IsSound w (write_manifest m) h s = record {
    once = s.once;
    in_budget = s.in_budget;
    counted = s.counted;
    groups = s.groups;
    stored = λ d e. let q : m ≡ d = cc in rw (← q) h;
    closing = s.closing;
  }
  apply-IsSound w _ h s = record {
    once = s.once;
    in_budget = s.in_budget;
    counted = s.counted;
    groups = s.groups;
    stored = s.stored;
    closing = s.closing;
  }

  -- So does a list of them that is safe, and any first part of it.
  pub run-IsSound :
      (w : Window B) (es : List (Effect B)) (n : ℕ)
      → SafeAll w es
      → IsSound w
      → IsSound (run w (take n es))
  unfolding run
  run-IsSound w es zero h s = s
  run-IsSound w [] (suc n) h s = s
  run-IsSound w (e ∷ es) (suc n) h s = run-IsSound (apply w e) es n h.1 (apply-IsSound w e h.0 s)

  pub fresh-IsSound : IsSound fresh
  unfolding lookup
  fresh-IsSound = record {
    once = λ i. omega arith;
    in_budget = λ i h. cc;
    counted = sym (
        count_below-none spec.max_candidate_groups (candidate_complete (fresh {B = B}))
          (λ j. refl));
    groups = λ i g h. cc;
    stored = λ m e. cc;
    closing = λ c e. cc;
  }
