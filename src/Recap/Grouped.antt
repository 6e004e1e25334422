-- ===== src/Recap/Grouped.antt =====
-- The episodes that `_compute_return_lookup` (workflows/train/recap/compute_return.py) groups its rows into, and the
-- longest of each task.
use verl_vla.Common.{
  ℕ, ◌≤◌, ◌<◌, max, Bool, List, [], ◌∷◌, ◌++◌, length, arith, lookup, insert, lookup-insert, All,
  ◌==◌, Bool-cases, inl, inr, length-append,
}
use verl_vla.Common.Sort.{insert_by, sort_by}
use verl_vla.Recap.Returns.{Frame, frames_of, group_episodes, longest, task_of, task_max_lengths}

abbrev pub Episodes : Type 0
Episodes = List (ℕ × List Frame)

module _ (P : Frame → Type 0) where
  abbrev pub AllFrames : Episodes → Type 0
  AllFrames = All λ g. All P g.1

  All-front : (front back : List Frame) → All P (front ++ back) → All P front × All P back
  All-front [] back h = (tt, h)
  All-front (f ∷ front) back h = let (p, q) = All-front front back h.1 in ((h.0, p), q)

  -- What holds in all episodes after one is replaced, holds in the new one and in the others.
  inserted :
      (episodes : Episodes) (e : ℕ) (frames : List Frame)
      → AllFrames (insert e frames episodes)
      → All P frames × (All P (frames_of (lookup e episodes)) → AllFrames episodes)
  unfolding insert lookup
  inserted [] e frames h = (h.0, λ old. tt)
  inserted ((key, first) ∷ more) e frames h = elim (Bool-cases (key == e)) [
    | inl mine ↦
        let h' = rw (insert, mine) at h in
        (h'.0, λ old. let old' = rw (lookup, mine) at old in (old', h'.1))
    | inr other ↦
        let h' = rw (insert, other) at h in
        let (new, rest) = inserted more e frames h'.1 in
        (new, λ old. let old' = rw (lookup, other) at old in (h'.0, rest old'))
  ]

  added :
      (episodes : Episodes) (e : ℕ) (f : Frame)
      → AllFrames (insert e (frames_of (lookup e episodes) ++ f ∷ []) episodes)
      → AllFrames episodes × P f
  added episodes e f h =
      let old = frames_of (lookup e episodes) in
      let (frames, rest) = inserted episodes e (old ++ f ∷ []) h in
      let (kept, new) = All-front old (f ∷ []) frames in (rest kept, new.0)

  pub group_episodes-All :
      (rows : List Frame) (episodes : Episodes)
      → AllFrames (group_episodes episodes rows)
      → AllFrames episodes × All P rows
  unfolding group_episodes
  group_episodes-All [] episodes h = (h, tt)
  group_episodes-All (f ∷ more) episodes h =
      let (grouped, rest) = group_episodes-All more _ h in
      let (before, new) = added episodes f.episode_index f grouped in (before, (new, rest))

  All-of_insert :
      (le : Frame → Frame → Bool) (a : Frame) (xs : List Frame)
      → All P (insert_by le a xs)
      → P a × All P xs
  unfolding insert_by
  All-of_insert le a [] h = h
  All-of_insert le a (x ∷ xs) h = elim (Bool-cases (le a x)) [
    | inl before ↦ ground (arith, h, before)
    | inr after ↦
        let h' = rw (insert_by, after) at h in
        let (p, rest) = All-of_insert le a xs h'.1 in (p, (h'.0, rest))
  ]

  pub All-of_sort : (le : Frame → Frame → Bool) (xs : List Frame) → All P (sort_by le xs) → All P xs
  unfolding sort_by
  All-of_sort le [] h = tt
  All-of_sort le (x ∷ xs) h =
      let (p, rest) = All-of_insert le x (sort_by le xs) h in (p, All-of_sort le xs rest)

-- No episode is empty.
abbrev pub NoneEmpty : Episodes → Type 0
NoneEmpty = All λ g. 0 < length g.1

insert-NoneEmpty :
    (episodes : Episodes) (e : ℕ) (frames : List Frame)
    → 0 < length frames
    → NoneEmpty episodes
    → NoneEmpty (insert e frames episodes)
unfolding insert
insert-NoneEmpty [] e frames pos h = (pos, tt)
insert-NoneEmpty ((key, old) ∷ more) e frames pos h =
    ground (arith, insert-NoneEmpty more e frames pos h.1, pos, h.0)

pub group_episodes-NoneEmpty :
    (rows : List Frame) (episodes : Episodes)
    → NoneEmpty episodes
    → NoneEmpty (group_episodes episodes rows)
unfolding group_episodes
group_episodes-NoneEmpty [] episodes h = h
group_episodes-NoneEmpty (f ∷ more) episodes h =
    let old = frames_of (lookup f.episode_index episodes) in
    group_episodes-NoneEmpty more _ (
      insert-NoneEmpty episodes f.episode_index (old ++ f ∷ [])
        (omega (arith, length-append old (f ∷ []))) h)

-- The table of lengths is only ever raised.
task_max_lengths-grows :
    (episodes : Episodes) (lengths : List (ℕ × ℕ)) (task : ℕ)
    → longest (lookup task lengths) ≤ longest (lookup task (task_max_lengths lengths episodes))
unfolding task_max_lengths
task_max_lengths-grows [] lengths task = omega arith
task_max_lengths-grows ((e, frames) ∷ more) lengths task =
    let n = max (longest (lookup (task_of frames) lengths)) (length frames) in
    ground (
      arith,
      task_max_lengths-grows more (insert (task_of frames) n lengths) task,
      lookup-insert (task_of frames) task n lengths,
    )

-- No episode is longer than the longest of its task.
pub task_max_lengths-max :
    (episodes : Episodes) (lengths : List (ℕ × ℕ))
    → All
        (λ g. length g.1 ≤ longest (lookup (task_of g.1) (task_max_lengths lengths episodes)))
        episodes
unfolding task_max_lengths
task_max_lengths-max [] lengths = tt
task_max_lengths-max ((e, frames) ∷ more) lengths =
    let n = max (longest (lookup (task_of frames) lengths)) (length frames) in
    (
      ground (
        arith,
        task_max_lengths-grows more (insert (task_of frames) n lengths) (task_of frames),
        lookup-insert (task_of frames) (task_of frames) n lengths,
      ),
      task_max_lengths-max more (insert (task_of frames) n lengths),
    )
