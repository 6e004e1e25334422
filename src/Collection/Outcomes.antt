-- ===== src/Collection/Outcomes.antt =====
-- The recorded outcomes of candidates, and closed windows (trainer/grfpo/collection_store.py).
use verl_vla.Common.{
  ℕ, zero, suc, ◌≡◌, refl, ◌∙◌, true, Option, some, List, [], ◌∷◌, arith, lookup, lookup-insert,
  take,
}
use verl_vla.Collection.Spec.{CollectionWindowSpec}
use verl_vla.Collection.Window.{
  Group, Rejection, Skip, Window, Effect, run, apply, candidate_complete, Closing, write_closed,
  publish, write_rejected, write_skipped,
}
use verl_vla.Collection.System.{effects, after, InSchedule, Reach, here, call}
use verl_vla.Collection.Invariant.{IsSound, Safe, SafeAll}
use verl_vla.Collection.Safety.{effects-SafeAll, Reach-keeps-IsSound}

module _ {B : Type 0} where
  -- What is recorded of a candidate.
  abbrev pub recorded : Window B → ℕ → Option (Group B) × Option Rejection × Option Skip
  recorded w i = (lookup i w.accepted, lookup i w.rejected, lookup i w.skipped)

  -- What a trainer reads.
  abbrev pub results :
      Window B → List (ℕ × Group B) × List (ℕ × Rejection) × List (ℕ × Skip) × Option Closing
  results w = (w.accepted, w.rejected, w.skipped, w.closed)

module _ {B : Type 0} (len : B → ℕ) (spec : CollectionWindowSpec) where
  apply-recorded :
      (w : Window B) (e : Effect B) (i : ℕ)
      → Safe len spec w e
      → candidate_complete w i ≡ true
      → recorded (apply w e) i ≡ recorded w i
  unfolding apply
  apply-recorded w (publish j g) i h done = ground (arith, lookup-insert j i g w.accepted)
  apply-recorded w (write_rejected j r) i h done = ground (arith, lookup-insert j i r w.rejected)
  apply-recorded w (write_skipped j x) i h done = ground (arith, lookup-insert j i x w.skipped)
  apply-recorded w _ i h done = refl

  run-recorded :
      (w : Window B) (es : List (Effect B)) (n i : ℕ)
      → SafeAll len spec w es
      → candidate_complete w i ≡ true
      → recorded (run w (take n es)) i ≡ recorded w i
  unfolding run
  run-recorded w es zero i h done = refl
  run-recorded w [] (suc n) i h done = refl
  run-recorded w (e ∷ es) (suc n) i h done =
      let same = apply-recorded w e i h.0 done in
      run-recorded (apply w e) es n i h.1 (ground (arith, same)) ∙ same

  -- Once a candidate of a sound window is complete, no calls that commit candidates of the budget
  -- only, in any order and wherever they are cut short, change what is recorded of it: not its group, not its rejection, not its skip.
  pub Reach-recorded :
      {w v : Window B}
      → Reach len spec (InSchedule len spec) w v
      → IsSound len spec w
      → (i : ℕ) → candidate_complete w i ≡ true
      → recorded v i ≡ recorded w i
  unfolding after
  Reach-recorded here s i done = refl
  Reach-recorded (call {w = u} c n r h) s i done =
      let same = Reach-recorded r s i done in
      run-recorded u (effects len spec c u) n i
        (effects-SafeAll len spec c u (Reach-keeps-IsSound len spec r s) h) (ground (arith, same))
      ∙ same

  apply-results :
      (w : Window B) (e : Effect B) (c : Closing)
      → Safe len spec w e
      → w.closed ≡ some c
      → results (apply w e) ≡ results w
  unfolding apply
  apply-results w (publish j g) c h e = cc (h.0.1)
  apply-results w (write_rejected j r) c h e = cc (h.1)
  apply-results w (write_skipped j x) c h e = cc (h.1)
  apply-results w (write_closed d) c h e = cc (h.0)
  apply-results w _ c h e = refl

  run-results :
      (w : Window B) (es : List (Effect B)) (n : ℕ) (c : Closing)
      → SafeAll len spec w es
      → w.closed ≡ some c
      → results (run w (take n es)) ≡ results w
  unfolding run
  run-results w es zero c h e = refl
  run-results w [] (suc n) c h e = refl
  run-results w (x ∷ es) (suc n) c h e =
      let same = apply-results w x c h.0 e in
      run-results (apply w x) es n c h.1 (ground (arith, same)) ∙ same

  -- Once a sound window is closed, no calls that commit candidates of the budget only, in any order
  -- and wherever they are cut short, change its accepted groups, its rejections, its skips or its closing record.
  pub Reach-results :
      {w v : Window B} {c : Closing}
      → Reach len spec (InSchedule len spec) w v
      → IsSound len spec w
      → w.closed ≡ some c
      → results v ≡ results w
  unfolding after
  Reach-results here s e = refl
  Reach-results {c = c} (call {w = u} m n r h) s e =
      let same = Reach-results r s e in
      run-results u (effects len spec m u) n c
        (effects-SafeAll len spec m u (Reach-keeps-IsSound len spec r s) h) (ground (arith, same))
      ∙ same
