-- ===== src/Rollout/Edges.antt =====
-- What `update_progress_trajectory_counts` (utils/data.py) counts over the chunks of a lane.
use verl_vla.Common.{
  ℕ, ◌+◌, ◌≤◌, ◌≡◌, refl, ap, ◌∙◌, Bool, true, false, ◌&&◌, ◌||◌, not, List, [], ◌∷◌, ◌++◌, arith,
  Bool-cases, inl, inr, flat, subst, sym,
}
use verl_vla.Common.Counting.{bit}
use verl_vla.Rollout.Progress.{
  LaneState, ProgressCounts, LaneStep, count_step, count_steps, update_progress_trajectory_counts,
}

-- How often `done` rises in the steps, when it was `before` ahead of them.
unfoldable pub rises : Bool → List (Bool × Bool) → ℕ
rises before [] = 0
rises before ((d, w) ∷ steps) = bit (not before && d) + rises d steps

-- The `done` of the last step.
unfoldable pub done_after : Bool → List (Bool × Bool) → Bool
done_after before [] = before
done_after before ((d, w) ∷ steps) = done_after d steps

-- A step without a rise of `done`: the flag stays what `done` is.
step_quiet :
    (s : LaneStep) (d w : Bool)
    → (not s.previous_done && d) ≡ false
    → ((count_step s d w).counts.done_eps ≡ s.counts.done_eps)
      × ((count_step s d w).counts.succ_eps ≡ s.counts.succ_eps)
      × ((count_step s d w).completed_this_chunk ≡ s.completed_this_chunk)
      × ((count_step s d w).previous_done ≡ d)
unfolding count_step
step_quiet s d w h = ground arith

-- A rise of `done`, the first of the chunk.
step_completes :
    (s : LaneStep) (d w : Bool)
    → s.completed_this_chunk ≡ false
    → (not s.previous_done && d) ≡ true
    → ((count_step s d w).counts.done_eps ≡ s.counts.done_eps + 1)
      × ((count_step s d w).counts.succ_eps ≡ s.counts.succ_eps + bit (s.carried_success || w))
      × ((count_step s d w).completed_this_chunk ≡ true)
      × ((count_step s d w).previous_done ≡ d)
unfolding count_step
step_completes s d w h k = ground arith

-- What steps do to a lane, where its flag was what `done` was.
abbrev Counts : LaneStep → List (Bool × Bool) → LaneStep → Type 0
Counts s steps t =
    (t.counts.done_eps ≡ s.counts.done_eps + rises s.previous_done steps)
    × (t.counts.succ_eps ≤ s.counts.succ_eps + rises s.previous_done steps)
    × (s.counts.succ_eps ≤ t.counts.succ_eps)
    × (t.previous_done ≡ done_after s.previous_done steps)

-- Steps in which `done` does not rise any more.
count_steps-quiet :
    (s : LaneStep) (steps : List (Bool × Bool))
    → rises s.previous_done steps ≡ 0
    → Counts s steps (count_steps s steps)
unfolding count_steps rises done_after
count_steps-quiet s [] h = (omega arith, omega arith, omega arith, refl)
count_steps-quiet s ((d, w) ∷ steps) h =
    let no_rise : (not s.previous_done && d) ≡ false = ground (arith, h) in
    let (same_done, same_succ, same_chunk, flag) = step_quiet s d w no_rise in
    let same = ap (λ b. rises b steps) flag in
    let none_later : rises d steps ≡ 0 = omega (arith, h) in
    let rest = count_steps-quiet (count_step s d w) steps (same ∙ none_later) in
    (
      omega (arith, rest.0, same_done, same, h, none_later),
      omega (arith, rest.1, same_succ, same, h, none_later),
      omega (arith, rest.2, same_succ),
      rest.3 ∙ ap (λ b. done_after b steps) flag,
    )

-- Steps of a chunk in which `done` rises at most once, before it does.
count_steps-rises :
    (s : LaneStep) (steps : List (Bool × Bool))
    → s.completed_this_chunk ≡ false
    → rises s.previous_done steps ≤ 1
    → Counts s steps (count_steps s steps)
unfolding count_steps rises done_after
count_steps-rises s [] h once = (omega arith, omega arith, omega arith, refl)
count_steps-rises s ((d, w) ∷ steps) h once = elim (Bool-cases (not s.previous_done && d)) [
  | inl newly ↦
      let (plus_done, plus_succ, completed, flag) = step_completes s d w h newly in
      let same = ap (λ b. rises b steps) flag in
      let one : bit (not s.previous_done && d) ≡ 1 = ap bit newly in
      let none_later : rises d steps ≡ 0 = omega (arith, once, one) in
      let rest = count_steps-quiet (count_step s d w) steps (same ∙ none_later) in
      let few : bit (s.carried_success || w) ≤ 1 = ground arith in
      (
        omega (arith, rest.0, plus_done, same, one),
        omega (arith, rest.1, plus_succ, same, one, few),
        omega (arith, rest.2, plus_succ),
        rest.3 ∙ ap (λ b. done_after b steps) flag,
      )
  | inr quiet ↦
      let (same_done, same_succ, same_chunk, flag) = step_quiet s d w quiet in
      let same = ap (λ b. rises b steps) flag in
      let zero_here : bit (not s.previous_done && d) ≡ 0 = ap bit quiet in
      let rest =
        count_steps-rises (count_step s d w) steps (same_chunk ∙ h) (omega (arith, once, same)) in
      (
        omega (arith, rest.0, same_done, same, zero_here),
        omega (arith, rest.1, same_succ, same, zero_here),
        omega (arith, rest.2, same_succ),
        rest.3 ∙ ap (λ b. done_after b steps) flag,
      )
]

rises-nil : (before : Bool) → rises before [] ≡ 0
unfolding rises
rises-nil before = refl

rises-append :
    (before : Bool) (xs ys : List (Bool × Bool))
    → rises before (xs ++ ys) ≡ rises before xs + rises (done_after before xs) ys
unfolding rises done_after
rises-append before [] ys = omega arith
rises-append before ((d, w) ∷ xs) ys = omega (arith, rises-append d xs ys)

-- What a chunk adds, and the flag after it.
update_progress-chunk :
    (lane : LaneState) (counts : ProgressCounts) (steps : List (Bool × Bool))
    → rises lane.done steps ≤ 1
    → (let next = update_progress_trajectory_counts lane counts steps in
        (next.1.done_eps ≡ counts.done_eps + rises lane.done steps)
        × (next.1.succ_eps ≤ counts.succ_eps + rises lane.done steps)
        × (counts.succ_eps ≤ next.1.succ_eps)
        × (next.0.done ≡ done_after lane.done steps))
unfolding update_progress_trajectory_counts
update_progress-chunk lane counts steps once = count_steps-rises _ steps refl once

-- One chunk after another.
unfoldable pub count_chunks :
    LaneState → ProgressCounts → List (List (Bool × Bool)) → LaneState × ProgressCounts
count_chunks lane counts [] = (lane, counts)
count_chunks lane counts (chunk ∷ chunks) =
    let next = update_progress_trajectory_counts lane counts chunk in
    count_chunks next.0 next.1 chunks

-- In no chunk does `done` rise twice.
unfoldable pub RisesOnce : Bool → List (List (Bool × Bool)) → Type 0
RisesOnce before [] = Unit
RisesOnce before (chunk ∷ chunks) =
    (rises before chunk ≤ 1) × RisesOnce (done_after before chunk) chunks

-- A lane is counted on the rising edges of `done` over any number of chunks, wherever the chunks are cut and
-- also when `done` stays up across them: where the flag of the lane is what `done` was before, and `done`
-- rises at most once in each chunk, the number of completed episodes grows by the number of rises in
-- the joined chunks, and the number of successful ones by no more than that.
pub count_chunks-rises :
    (lane : LaneState) (counts : ProgressCounts) (chunks : List (List (Bool × Bool)))
    → RisesOnce lane.done chunks
    → (let next = (count_chunks lane counts chunks).1 in
        (next.done_eps ≡ counts.done_eps + rises lane.done (flat chunks))
        × (next.succ_eps ≤ counts.succ_eps + rises lane.done (flat chunks))
        × (counts.succ_eps ≤ next.succ_eps))
unfolding count_chunks RisesOnce
count_chunks-rises lane counts [] once =
    let none_here = rises-nil lane.done in
    (omega (arith, none_here), omega (arith, none_here), omega arith)
count_chunks-rises lane counts (chunk ∷ chunks) once =
    let next = update_progress_trajectory_counts lane counts chunk in
    let (done, succ, grows, flag) = update_progress-chunk lane counts chunk once.0 in
    let rest =
      count_chunks-rises next.0 next.1 chunks (subst (λ b. RisesOnce b chunks) (sym flag) once.1) in
    let joined = rises-append lane.done chunk (flat chunks) in
    let same = ap (λ b. rises b (flat chunks)) flag in
    (
      omega (arith, rest.0, done, joined, same),
      omega (arith, rest.1, succ, joined, same),
      omega (arith, rest.2, grows),
    )
