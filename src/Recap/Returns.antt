-- ===== src/Recap/Returns.antt =====
-- `_compute_return_lookup` (workflows/train/recap/compute_return.py). The coefficient, which is not negative, and the clip bounds are
-- millionths, and the bounds are not positive: `clip_min` is -lowest and `clip_max` is -highest. A return is
-- minus a fraction, exact where the code has a 32-bit float.
use verl_vla.Common.{
  ℕ, ◌+◌, ◌*◌, max, Bool, Option, none, some, List, [], ◌∷◌, ◌++◌, length, any, lookup, insert,
  Result, ok, err, raise_if, ◌>>◌, ltb, leb, ◌==◌, if◌then◌else◌,
}
use verl_vla.Common.Sort.{sort_by}

pub data ReturnError : Type 0 where
  bad_clip bad_denominator : ReturnError

-- A row of the data files, as far as the code reads it.
pub record Frame : Type 0 where
  pub index : ℕ
  pub episode_index : ℕ
  pub frame_index : ℕ
  pub task_key : ℕ
  pub success : Bool

-- The return -num / den.
pub record Return : Type 0 where
  pub num : ℕ
  pub den : ℕ

-- `(item["episode_index"], item["frame_index"], item["index"])`
unfoldable pub frame_leb : Frame → Frame → Bool
frame_leb a b =
    if a.episode_index == b.episode_index
    then (if a.frame_index == b.frame_index
        then leb a.index b.index
        else ltb a.frame_index b.frame_index)
    else ltb a.episode_index b.episode_index

abbrev pub frames_of : Option (List Frame) → List Frame
frames_of none = []
frames_of (some frames) = frames

-- `episodes.setdefault(episode_index, []).append(record)`
unfoldable pub group_episodes : List (ℕ × List Frame) → List Frame → List (ℕ × List Frame)
group_episodes episodes [] = episodes
group_episodes episodes (f ∷ more) =
    group_episodes
      (insert f.episode_index (frames_of (lookup f.episode_index episodes) ++ f ∷ []) episodes) more

abbrev pub longest : Option ℕ → ℕ
longest none = 0
longest (some n) = n

-- The task of an episode is that of its first frame.
abbrev pub task_of : List Frame → ℕ
task_of [] = 0
task_of (f ∷ frames) = f.task_key

unfoldable pub task_max_lengths : List (ℕ × ℕ) → List (ℕ × List Frame) → List (ℕ × ℕ)
task_max_lengths lengths [] = lengths
task_max_lengths lengths ((e, frames) ∷ more) =
    task_max_lengths
      (insert (task_of frames) (max (longest (lookup (task_of frames) lengths)) (length frames))
        lengths)
      more

-- `np.clip(-num / den, clip_min, clip_max)`
unfoldable pub clip : ℕ → ℕ → Return → Return
clip lowest highest r =
    if ltb (lowest * r.den) (r.num * 1_000_000)
    then record { num = lowest; den = 1_000_000 }
    else if ltb (r.num * 1_000_000) (highest * r.den)
    then record { num = highest; den = 1_000_000 }
    else r

module _ (c_fail_coef lowest highest : ℕ) where
  -- The return of a frame with `remaining` steps after it, in millionths.
  unfoldable pub target : ℕ → Bool → ℕ → Return
  target task_max success remaining = record {
    num = remaining * 1_000_000 + (if success then 0 else task_max * c_fail_coef);
    den = task_max * 1_000_000 + task_max * c_fail_coef;
  }

  -- The loop over the frames of an episode.
  unfoldable pub episode_returns : ℕ → Bool → List (ℕ × Return) → List Frame → List (ℕ × Return)
  unfolding target clip
  episode_returns task_max success found [] = found
  episode_returns task_max success found (f ∷ more) =
      episode_returns task_max success
        (insert f.index (clip lowest highest (target task_max success (length more))) found) more

  unfoldable pub all_returns :
      List (ℕ × ℕ)
      → List (ℕ × Return)
      → List (ℕ × List Frame)
      → Result ReturnError (List (ℕ × Return))
  unfolding episode_returns
  all_returns lengths found [] = ok found
  all_returns lengths found ((e, frames) ∷ more) =
      let task_max = longest (lookup (task_of frames) lengths) in
      let rest =
        all_returns lengths (episode_returns task_max (any (λ f. f.success) frames) found frames)
          more in
      if leb (task_max * 1_000_000 + task_max * c_fail_coef) 0 then err bad_denominator else rest

  -- `_compute_return_lookup`, of the rows of all files.
  unfoldable pub compute_return_lookup : List Frame → Result ReturnError (List (ℕ × Return))
  unfolding all_returns group_episodes task_max_lengths frame_leb sort_by
  compute_return_lookup rows =
      let episodes = group_episodes [] (sort_by frame_leb rows) in
      raise_if (leb lowest highest) bad_clip
      >> all_returns (task_max_lengths [] episodes) [] episodes

abbrev pub column_of : Option Return → Option (List Return) → Option (List Return)
column_of none rest = none
column_of (some r) none = none
column_of (some r) (some rs) = some (r ∷ rs)

-- The column of returns of a file; `none` is the KeyError of an index that has none.
unfoldable pub return_column : List (ℕ × Return) → List ℕ → Option (List Return)
return_column found [] = some []
return_column found (i ∷ indices) = column_of (lookup i found) (return_column found indices)
