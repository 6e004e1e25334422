-- ===== src/Recap/Total.antt =====
-- The returns that `_compute_return_lookup` (workflows/train/recap/compute_return.py) gives.
use verl_vla.Common.{
  ℕ, ◌+◌, ◌*◌, ◌≤◌, ◌<◌, ◌≡◌, refl, Bool, true, false, some, List, [], ◌∷◌, length, any, map, arith,
  lookup, insert, lookup-insert, has_key, All, All-map, ok, leb, ◌==◌, Bool-cases, Option-cases,
  inl, inr,
}
use verl_vla.Common.Sort.{sort_by}
use verl_vla.Recap.Returns.{
  Frame, Return, frame_leb, group_episodes, longest, task_of, task_max_lengths, clip, target,
  episode_returns, all_returns, compute_return_lookup, return_column,
}
use verl_vla.Recap.Grouped.{
  Episodes, AllFrames, NoneEmpty, group_episodes-All, All-of_sort, group_episodes-NoneEmpty,
  task_max_lengths-max,
}

-- The return is in the clip range.
abbrev pub InRange : ℕ → ℕ → Return → Type 0
InRange lowest highest r =
    (0 < r.den) × ((r.num * 1_000_000 ≤ lowest * r.den) × (highest * r.den ≤ r.num * 1_000_000))

module _ (c_fail_coef lowest highest : ℕ) (apart : highest < lowest) where
  clip-InRange : (r : Return) → 0 < r.den → InRange lowest highest (clip lowest highest r)
  unfolding clip
  clip-InRange r pos = ground arith

  -- Every return found is in the range.
  abbrev AllInRange : List (ℕ × Return) → Type 0
  AllInRange found = (i : ℕ) (r : Return) → lookup i found ≡ some r → InRange lowest highest r

  nothing_found : AllInRange []
  unfolding lookup
  nothing_found i r e = absurd (ground (arith, e))

  insert-AllInRange :
      (i : ℕ) (r : Return) (found : List (ℕ × Return))
      → InRange lowest highest r
      → AllInRange found
      → AllInRange (insert i r found)
  insert-AllInRange i r found good all_good j s e = elim (Bool-cases (i == j)) [
    | inl same ↦
        let equal : r ≡ s = ground (arith, e, same, lookup-insert i j r found) in rw (← equal) good
    | inr other ↦ all_good j s (ground (arith, e, other, lookup-insert i j r found))
  ]

  -- The loop over an episode keeps what is found, and finds every frame of the episode.
  module _ (task_max : ℕ) (success : Bool) (pos : 0 < task_max) where
    den_pos :
        (remaining : ℕ) → 0 < (target c_fail_coef lowest highest task_max success remaining).den
    unfolding target
    den_pos remaining = omega (arith, pos)

    episode_returns-AllInRange :
        (frames : List Frame) (found : List (ℕ × Return))
        → AllInRange found
        → AllInRange (episode_returns c_fail_coef lowest highest task_max success found frames)
    unfolding episode_returns
    episode_returns-AllInRange [] found good = good
    episode_returns-AllInRange (f ∷ more) found good =
        episode_returns-AllInRange more _
          (insert-AllInRange f.index _ found (clip-InRange _ (den_pos (length more))) good)

  module _ (task_max : ℕ) (success : Bool) where
    episode_returns-keeps :
        (frames : List Frame) (found : List (ℕ × Return)) (i : ℕ)
        → has_key i found ≡ true
        → has_key i (episode_returns c_fail_coef lowest highest task_max success found frames)
          ≡ true
    unfolding episode_returns
    episode_returns-keeps [] found i h = h
    episode_returns-keeps (f ∷ more) found i h =
        let r =
          clip lowest highest (target c_fail_coef lowest highest task_max success (length more)) in
        episode_returns-keeps more (insert f.index r found) i
          (ground (arith, h, lookup-insert f.index i r found))

    episode_returns-finds :
        (frames : List Frame) (found : List (ℕ × Return))
        → All
            (λ f.
              has_key f.index
                (episode_returns c_fail_coef lowest highest task_max success found frames)
              ≡ true)
            frames
    unfolding episode_returns
    episode_returns-finds [] found = tt
    episode_returns-finds (f ∷ more) found =
        let r =
          clip lowest highest (target c_fail_coef lowest highest task_max success (length more)) in
        (
          episode_returns-keeps more (insert f.index r found) f.index
              (ground (arith, lookup-insert f.index f.index r found)),
          episode_returns-finds more (insert f.index r found),
        )

  -- The task of every episode has a length.
  abbrev HasLengths : List (ℕ × ℕ) → Episodes → Type 0
  HasLengths lengths = All λ g. 0 < longest (lookup (task_of g.1) lengths)

  -- What the loop over the episodes gives, from what is found before.
  record IsLookup (found : List (ℕ × Return)) (episodes : Episodes) (out : List (ℕ × Return))
      : Type 0 where
    pub in_range : AllInRange out
    pub kept : (i : ℕ) → has_key i found ≡ true → has_key i out ≡ true
    pub finds : AllFrames (λ f. has_key f.index out ≡ true) episodes

  all_returns-ok :
      (lengths : List (ℕ × ℕ)) (episodes : Episodes) (found : List (ℕ × Return))
      → HasLengths lengths episodes
      → AllInRange found
      → (out : List (ℕ × Return)) × (all_returns c_fail_coef lowest highest lengths found episodes
          ≡ ok out)
        × IsLookup found episodes out
  unfolding all_returns
  all_returns-ok lengths [] found pos good =
      (found, refl, record { in_range = good; kept = λ i h. h; finds = tt })
  all_returns-ok lengths ((e, frames) ∷ more) found pos good =
      let task_max = longest (lookup (task_of frames) lengths) in
      let success = any (λ (f : Frame). f.success) frames in
      let next = episode_returns c_fail_coef lowest highest task_max success found frames in
      let (out, same, rest) =
        all_returns-ok lengths more next pos.1
          (episode_returns-AllInRange task_max success pos.0 frames found good) in
      let positive : leb (task_max * 1_000_000 + task_max * c_fail_coef) 0 ≡ false =
        not_zero task_max (task_max * c_fail_coef) pos.0 in
      (
        out,
        rw (all_returns, positive) same,
        record {
          in_range = rest.in_range;
          kept = λ i h. rest.kept i (episode_returns-keeps task_max success frames found i h);
          finds = (
            All-map (λ f. has_key f.index next ≡ true) (λ f. has_key f.index out ≡ true) frames
                (λ f. rest.kept f.index) (episode_returns-finds task_max success frames found),
            rest.finds,
          );
        },
      )
    where
      not_zero : (n c : ℕ) → 0 < n → leb (n * 1_000_000 + c) 0 ≡ false
      not_zero n c h = ground arith

  return_column-ok :
      (found : List (ℕ × Return)) (rows : List Frame)
      → AllInRange found
      → All (λ f. has_key f.index found ≡ true) rows
      → (column : List Return) × (return_column found (map (λ f. f.index) rows) ≡ some column)
        × All (InRange lowest highest) column
  unfolding return_column
  return_column-ok found [] good h = ([], refl, tt)
  return_column-ok found (f ∷ rows) good h =
      let (column, same, all_good) = return_column-ok found rows good h.1 in
      elim (Option-cases (lookup f.index found)) [
        | inl missing ↦ absurd (ground (arith, h.0, missing))
        | inr (r, q) ↦ (r ∷ column, rw (q, same) refl, (good f.index r q, all_good))
      ]

  has_lengths :
      (episodes : Episodes)
      → NoneEmpty episodes
      → HasLengths (task_max_lengths [] episodes) episodes
  has_lengths episodes h =
      joined (task_max_lengths [] episodes) episodes h (task_max_lengths-max episodes [])
    where
      joined :
          (lengths : List (ℕ × ℕ)) (xs : Episodes)
          → NoneEmpty xs
          → All (λ g. length g.1 ≤ longest (lookup (task_of g.1) lengths)) xs
          → HasLengths lengths xs
      joined lengths [] n m = tt
      joined lengths (g ∷ xs) n m = (omega (arith, n.0, m.0), joined lengths xs n.1 m.1)

  -- With a coefficient that is not negative, and `clip_min` below a `clip_max` that is not positive, the returns of
  -- a dataset are always computed: no denominator is refused, the index of every row has a return, and each of
  -- these has a positive denominator and lies between the clip bounds.
  pub compute_return_lookup-ok :
      (rows : List Frame)
      → (found : List (ℕ × Return)) × (compute_return_lookup c_fail_coef lowest highest rows
          ≡ ok found)
        × (column : List Return) × (return_column found (map (λ f. f.index) rows) ≡ some column)
        × All (InRange lowest highest) column
  unfolding compute_return_lookup
  compute_return_lookup-ok rows =
      let sorted = sort_by frame_leb rows in
      let episodes = group_episodes [] sorted in
      let (out, same, is_lookup) =
        all_returns-ok (task_max_lengths [] episodes) episodes []
          (has_lengths episodes (group_episodes-NoneEmpty sorted [] tt)) nothing_found in
      let found_all =
        All-of_sort (λ f. has_key f.index out ≡ true) frame_leb rows
          (group_episodes-All (λ f. has_key f.index out ≡ true) sorted [] is_lookup.finds).1 in
      let (column, written, in_range) = return_column-ok out rows is_lookup.in_range found_all in
      (out, rw (refused apart) same, column, written, in_range)
    where
      refused : highest < lowest → leb lowest highest ≡ false
      refused h = ground arith

-- With the default bounds -1 and 0 the clip changes nothing: a frame has fewer steps after it than the
-- longest episode of its task has.
pub target-unclipped :
    (c_fail_coef task_max remaining : ℕ) (success : Bool)
    → remaining < task_max
    → clip 1_000_000 0 (target c_fail_coef 1_000_000 0 task_max success remaining)
      ≡ target c_fail_coef 1_000_000 0 task_max success remaining
unfolding clip target
target-unclipped c_fail_coef task_max remaining success h = ground arith
