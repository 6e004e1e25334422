-- ===== src/Replay/Counts.antt =====
-- How many rows of each sign `sample_batch` (utils/replay_pool.py) draws.
use verl_vla.Common.{ℕ, ◌+◌, ◌-◌, ◌≤◌, ◌≡◌, min, leb, ltb, if◌then◌else◌, arith}

-- The deficit is filled from the sign with more rows left first, then from the other.
unfoldable pub fill_deficit : ℕ → ℕ → ℕ → ℕ → ℕ → ℕ × ℕ
fill_deficit deficit sampled_positive sampled_negative remaining_positive remaining_negative =
    if leb remaining_negative remaining_positive
    then (
      sampled_positive + min deficit remaining_positive,
      sampled_negative + min (deficit - min deficit remaining_positive) remaining_negative,
    )
    else (
      sampled_positive + min (deficit - min deficit remaining_negative) remaining_positive,
      sampled_negative + min deficit remaining_negative,
    )

-- The counts for `target` positives out of `batch_size`; `target` is `round(batch_size * ratio)`.
unfoldable pub sample_counts : ℕ → ℕ → ℕ → ℕ → ℕ × ℕ
unfolding fill_deficit
sample_counts batch_size target positive_size negative_size =
    let sampled_positive = min target positive_size in
    let sampled_negative = min (batch_size - target) negative_size in
    let deficit = batch_size - sampled_positive - sampled_negative in
    if ltb 0 deficit
    then fill_deficit deficit sampled_positive sampled_negative (positive_size - sampled_positive)
        (negative_size - sampled_negative)
    else (sampled_positive, sampled_negative)

-- What is promised of the counts.
pub record IsCounts (batch_size target positive_size negative_size : ℕ) (c : ℕ × ℕ) : Type 0 where
  pub whole : c.0 + c.1 ≡ min batch_size (positive_size + negative_size)
  pub positives : c.0 ≤ positive_size
  pub negatives : c.1 ≤ negative_size
  pub least_positives : min target positive_size ≤ c.0
  pub least_negatives : min (batch_size - target) negative_size ≤ c.1

-- For a target of at most the batch, the counts fill the batch as far as there are rows, ask of no sign
-- more rows than it has, and give each sign what the target asks of it, or all it has.
pub sample_counts-IsCounts :
    (batch_size target positive_size negative_size : ℕ)
    → target ≤ batch_size
    → IsCounts batch_size target positive_size negative_size
        (sample_counts batch_size target positive_size negative_size)
unfolding sample_counts
sample_counts-IsCounts batch_size target positive_size negative_size l = ground arith
