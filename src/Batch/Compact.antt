-- ===== src/Batch/Compact.antt =====
-- `compact_valid_policy_chunks_for_fpo` (trainer/grfpo/rollout_batch.py) on the flattened rows of a batch; the
-- other fields of a row are its payload. The shapes that the code compares are equal, as a row has both.
use verl_vla.Common.{
  ℕ, ◌-◌, ◌*◌, ◌%◌, ◌≡◌, Bool, true, false, not, ◌&&◌, ◌||◌, List, [], ◌∷◌, ◌++◌, length, replicate,
  all, any, Result, ok, err, ltb, leb, ◌==◌, if◌then◌else◌,
}
use verl_vla.Collection.Spec.{Float, finite, infinite, is_finite_positive}

pub data CompactError : Type 0 where
  bad_sizes bad_valid_weight bad_padding_weight no_valid_chunk : CompactError
  not_divisible valid_count_changed masks_disagree : CompactError

pub record Row (P : Type 0) : Type 0 where
  pub valid : Bool
  pub loss_weight : Float
  pub advantage : Float
  pub action_valid : Bool
  pub payload : P

pub record Compacted (P : Type 0) : Type 0 where
  pub rows : List (Row P)
  pub original_physical_slots : ℕ
  pub valid_policy_chunks : ℕ
  pub sync_dummy_slots : ℕ

abbrev pub is_zero : Float → Bool
is_zero (finite micros) = micros == 0
is_zero _ = false

abbrev pub is_positive : Float → Bool
is_positive (finite micros) = ltb 0 micros
is_positive infinite = true
is_positive _ = false

-- `(-count) % divisor` of Python.
abbrev pub missing : ℕ → ℕ → ℕ
missing count divisor = (divisor - count % divisor) % divisor

module _ {P : Type 0} where
  unfoldable pub valid_rows : List (Row P) → List (Row P)
  valid_rows [] = []
  valid_rows (r ∷ rs) = let rest = valid_rows rs in if r.valid then r ∷ rest else rest

  abbrev pub dummy_of : Row P → Row P
  dummy_of r = record r {
    valid = false;
    loss_weight = finite 0;
    advantage = finite 0;
    action_valid = false;
  }

  abbrev pub same_mask : Row P → Bool
  same_mask r = if is_positive r.loss_weight then r.valid else not r.valid

  -- The copies of the first valid row that fill the last microbatches.
  abbrev pub dummies : ℕ → List (Row P) → List (Row P)
  dummies count [] = []
  dummies count (first ∷ rows) = replicate count (dummy_of first)

  -- The assertions on the result.
  unfoldable pub assert_compacted : ℕ → Compacted P → Result CompactError (Compacted P)
  unfolding valid_rows
  assert_compacted divisor c =
      if not (length c.rows % divisor == 0)
      then err not_divisible
      else if not (length (valid_rows c.rows) == c.valid_policy_chunks)
      then err valid_count_changed
      else if not (all same_mask c.rows)
      then err masks_disagree
      else ok c

  unfoldable pub fill : ℕ → ℕ → List (Row P) → Compacted P
  fill divisor slots valid =
      let count = missing (length valid) divisor in
      record {
        rows = valid ++ dummies count valid;
        original_physical_slots = slots;
        valid_policy_chunks = length valid;
        sync_dummy_slots = count;
      }

  unfoldable pub compact : ℕ → ℕ → List (Row P) → Result CompactError (Compacted P)
  unfolding assert_compacted fill
  compact world_size micro_batch_size rows =
      if leb world_size 0 || leb micro_batch_size 0
      then err bad_sizes
      else if any (λ r. r.valid && not (is_finite_positive r.loss_weight)) rows
      then err bad_valid_weight
      else if any (λ r. not r.valid && not (is_zero r.loss_weight)) rows
      then err bad_padding_weight
      else if leb (length (valid_rows rows)) 0
      then err no_valid_chunk
      else assert_compacted (world_size * micro_batch_size)
          (fill (world_size * micro_batch_size) (length rows) (valid_rows rows))

  -- What the batch promises: a valid row has a finite positive weight, and padding has none.
  abbrev pub IsWeighted : Row P → Type 0
  IsWeighted r =
      if r.valid then is_finite_positive r.loss_weight ≡ true else is_zero r.loss_weight ≡ true
