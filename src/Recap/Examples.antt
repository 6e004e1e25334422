-- ===== src/Recap/Examples.antt =====
-- The returns at concrete datasets.
use verl_vla.Common.{
  ℕ, ◌≡◌, refl, true, false, some, List, [], ◌∷◌, map, ok, err, All, arith, lookup, insert,
}
use verl_vla.Common.Sort.{sort_by, insert_by}
use verl_vla.Recap.Returns.{
  Frame, Return, bad_clip, compute_return_lookup, return_column, frame_leb, group_episodes,
  task_max_lengths, clip, target, episode_returns, all_returns,
}
use verl_vla.Recap.Total.{InRange, compute_return_lookup-ok}

-- Two episodes of a task: the first succeeds after three frames, the second fails after two.
abbrev rows : List Frame
rows =
    record { index = 3; episode_index = 8; frame_index = 0; task_key = 5; success = false }
    ∷ record { index = 1; episode_index = 7; frame_index = 1; task_key = 5; success = false }
    ∷ record { index = 0; episode_index = 7; frame_index = 0; task_key = 5; success = false }
    ∷ record { index = 2; episode_index = 7; frame_index = 2; task_key = 5; success = true }
    ∷ record { index = 4; episode_index = 8; frame_index = 1; task_key = 5; success = false }
    ∷ []

abbrev minus : ℕ → Return
minus n = record { num = n; den = 6_000_000 }

-- The last frame of a failure has the return of a coefficient of one, -1/2, and that of a success 0.
rows_column :
    compute_return_lookup 1_000_000 1_000_000 0 rows
    ≡ ok (
        (0, minus 2_000_000)
        ∷ (1, minus 1_000_000)
        ∷ (2, minus 0)
        ∷ (3, minus 4_000_000)
        ∷ (4, minus 3_000_000)
        ∷ [])
unfolding compute_return_lookup all_returns episode_returns target clip task_max_lengths
    group_episodes frame_leb sort_by insert_by insert lookup
rows_column = refl

empty_range : compute_return_lookup 1_000_000 0 0 rows ≡ err bad_clip
unfolding compute_return_lookup
empty_range = refl

compute_return_lookup-ok_example :
    (found : List (ℕ × Return)) × (compute_return_lookup 1_000_000 1_000_000 0 rows ≡ ok found)
    × (column : List Return) × (return_column found (map (λ f. f.index) rows) ≡ some column)
    × All (InRange 1_000_000 0) column
compute_return_lookup-ok_example = compute_return_lookup-ok 1_000_000 1_000_000 0 (omega arith) rows
