-- ===== src/Rollout/Masks.antt =====
-- `_build_sac_transition_masks` (utils/data.py) on one row: which steps belong to a completed episode, and
-- which to a successful one. A row is a test on step indices below its length.
use verl_vla.Common.{
  ℕ, zero, suc, ◌-◌, Bool, false, ◌&&◌, ◌||◌, List, [], ◌∷◌, leb, ltb, if◌then◌else◌,
}

abbrev pub Mask : Type 0
Mask = ℕ → Bool

-- `torch.nonzero(done_steps[row])`, from step `start` on.
unfoldable pub done_indices : Mask → ℕ → ℕ → List ℕ
done_indices done start zero = []
done_indices done start (suc n) =
    let rest = done_indices done (suc start) n in if done start then start ∷ rest else rest

-- `mask[first : last + 1] = True`
unfoldable pub set_segment : Mask → ℕ → ℕ → Mask
set_segment mask first last i = (leb first i && leb i last) || mask i

-- `steps[first : first + n].any()`
abbrev pub any_in : Mask → ℕ → ℕ → Bool
any_in steps first zero = false
any_in steps first (suc n) = steps first || any_in steps (suc first) n

abbrev pub segment_size : ℕ → ℕ → ℕ
segment_size first last = suc last - first

-- The loop over the done indices.
unfoldable pub mark_segments : Mask → ℕ → List ℕ → Mask × Mask → Mask × Mask
unfolding set_segment
mark_segments success start [] masks = masks
mark_segments success start (d ∷ ds) masks =
    let skipped = mark_segments success start ds masks in
    let succeeded =
      mark_segments success (suc d) ds (set_segment masks.0 start d, set_segment masks.1 start d) in
    let failed = mark_segments success (suc d) ds (set_segment masks.0 start d, masks.1) in
    if ltb d start
    then skipped
    else if any_in success start (segment_size start d)
    then succeeded
    else failed

-- `_build_sac_transition_masks` for a row of `n` steps.
unfoldable pub transition_masks : ℕ → Mask → Mask → Mask × Mask
unfolding mark_segments done_indices
transition_masks n done success =
    mark_segments success 0 (done_indices done 0 n) ((λ i. false), (λ i. false))
