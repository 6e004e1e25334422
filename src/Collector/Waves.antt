-- ===== src/Collector/Waves.antt =====
-- The physical waves of a candidate's group (`_collect_one_group`,
-- workflows/grfpo_fragmented_collection.py): the simulator rolls out `width` trajectories at a time.
use verl_vla.Common.{
  ℕ, zero, suc, ◌+◌, Bool, ◌||◌, List, [], ◌∷◌, ltb, if◌then◌else◌, take, drop, all, any,
  range_from,
}

-- `range(start, stop, step)` for a positive step; the fuel `stop` is enough.
unfoldable pub range_by : ℕ → ℕ → ℕ → ℕ → List ℕ
range_by zero start stop step = []
range_by (suc fuel) start stop step =
    let rest = range_by fuel (start + step) stop step in if ltb start stop then start ∷ rest else []

-- `range(0, group_size, physical_batch_size)`
unfoldable pub wave_starts : ℕ → ℕ → List ℕ
unfolding range_by
wave_starts size width = range_by size 0 size width

-- `xs[start:stop]`
abbrev pub slice {ℓ} : {A : Type ℓ} → ℕ → ℕ → List A → List A
slice start stop xs = drop start (take stop xs)

-- `np.arange(wave_start, wave_stop)`
abbrev pub wave_episodes : ℕ → ℕ → List ℕ
wave_episodes start width = range_from start width

-- What a step of the simulator reports of the lanes: a row of flags for each.
pub record Feedback : Type 0 where
  pub terminated : List (List Bool)
  pub truncated : List (List Bool)

abbrev any_true : List Bool → Bool
any_true row = any (λ b. b) row

-- The lanes that a step ends: some flag of the row is set.
unfoldable pub ended : List (List Bool) → List (List Bool) → List Bool
ended (t ∷ ts) (u ∷ us) = (any_true t || any_true u) ∷ ended ts us
ended _ _ = []

-- `done |= flags`
unfoldable pub or_lanes : List Bool → List Bool → List Bool
or_lanes (d ∷ ds) (f ∷ fs) = (d || f) ∷ or_lanes ds fs
or_lanes _ _ = []

abbrev pub all_done : List Bool → Bool
all_done done = all (λ d. d) done
