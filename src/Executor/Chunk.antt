-- ===== src/Executor/Chunk.antt =====
-- Action chunks and their preparation (envs/action_executor.py): the validation of the configuration,
-- `_normalize_action_chunk`, `interpolate_action_chunk` and the smoothing of two chunks. A chunk is the
-- list of its columns, one for each control tick. The arithmetic on a column is numpy's: the parameter
-- `mix n d a b` is the column a fraction `n / d` of the way from `a` to `b`, and `blend i n a b` that of
-- the smooth step number `i` of `n`.
use verl_vla.Common.{
  ℕ, zero, suc, ◌+◌, ◌-◌, ◌*◌, ◌/◌, ◌%◌, min, Bool, not, ◌&&◌, ◌||◌, List, [], ◌∷◌, length,
  get_elem?, range_from, Option, none, some, String, Result, ok, err, raise_if, ◌>>◌, ltb, leb,
  ◌==◌, if◌then◌else◌, is_yes, string_discrete,
}

pub data ExecError : Type 0 where
  bad_factor bad_execution_steps bad_blend_steps bad_mode bad_replan : ExecError
  bad_actions empty_chunk bad_values short_chunk short_plan changed_shape index_error : ExecError
  busy no_target snapshot_failed : ExecError
  failed_from : String → ExecError

pub record ActionInterpolationConfig : Type 0 where
  pub enable : Bool
  pub factor : ℕ

pub record SerialActionSmoothingConfig : Type 0 where
  pub enable : Bool
  pub execution_steps : ℕ
  pub blend_steps : ℕ

pub record ActionExecutionConfig : Type 0 where
  pub mode : String
  pub replan_after_steps : ℕ
  pub smooth_overlapping_actions : Bool
  pub interpolation : ActionInterpolationConfig
  pub serial_smoothing : SerialActionSmoothingConfig

unfoldable pub check_interpolation : ActionInterpolationConfig → Result ExecError (Unit {0})
check_interpolation c = raise_if (ltb c.factor 2) bad_factor

unfoldable pub check_smoothing : SerialActionSmoothingConfig → Result ExecError (Unit {0})
check_smoothing c = do
  raise_if (leb c.execution_steps 0) bad_execution_steps
  raise_if (ltb c.blend_steps 2) bad_blend_steps

unfoldable pub check_execution : ActionExecutionConfig → Result ExecError (Unit {0})
check_execution c = do
  raise_if
      (not (is_yes (string_discrete c.mode "serial") || is_yes (string_discrete c.mode "async")))
      bad_mode
  raise_if (leb c.replan_after_steps 0) bad_replan

-- `ActionExecutor.__init__`
unfoldable pub interpolation_factor : ActionInterpolationConfig → ℕ
interpolation_factor c = if c.enable then c.factor else 1

-- Arrays as far as `_normalize_action_chunk` looks at their shapes.
pub data ActionArray (A : Type 0) : Type 0 where
  three_dims : ℕ → List A → ActionArray A
  other_dims : ActionArray A

pub data ValueArray (V : Type 0) : Type 0 where
  two_dims : ℕ → List V → ValueArray V
  other_dims : ValueArray V

module _ {A V : Type 0} where
  unfoldable pub normalize_action_chunk :
      ActionArray A → ValueArray V → Result ExecError (List A × List V)
  normalize_action_chunk other_dims values = err bad_actions
  normalize_action_chunk (three_dims batch actions) other_dims =
      if leb (length actions) 0 then err empty_chunk else err bad_values
  normalize_action_chunk (three_dims batch actions) (two_dims rows values) =
      if leb (length actions) 0
      then err empty_chunk
      else if not (rows == batch && length values == length actions)
      then err bad_values
      else ok (actions, values)

module _ {A : Type 0} where
  unfoldable pub collect_columns : (ℕ → Option A) → List ℕ → Result ExecError (List A)
  collect_columns f [] = ok []
  collect_columns f (j ∷ js) = elim (f j) [
    | none ↦ err index_error
    | some a ↦ elim (collect_columns f js) [ ok rest ↦ ok (a ∷ rest) | err e ↦ err e ]
  ]

module _ {A : Type 0} (mix : ℕ → ℕ → A → A → A) where
  -- Between the columns left and right of the position `num / den`.
  unfoldable pub mix_columns : ℕ → ℕ → Option A → Option A → Option A
  mix_columns num den none right = none
  mix_columns num den (some a) none = none
  mix_columns num den (some a) (some b) = some (mix num den a b)

  -- Column `j` of `n` upsampled by `factor`: `linspace` puts it at `j * (n - 1) / (n * factor - 1)`.
  unfoldable pub upsampled : ℕ → List A → ℕ → Option A
  unfolding mix_columns
  upsampled factor columns j =
      let den = length columns * factor - 1 in
      let place = j * (length columns - 1) in
      let left = place / den in
      let right = if place % den == 0 then left else left + 1 in
      mix_columns (place % den) den (get_elem? columns left) (get_elem? columns right)

  unfoldable pub interpolate : ℕ → List A → Result ExecError (List A)
  unfolding collect_columns upsampled
  interpolate factor columns =
      if factor == 1
      then ok columns
      else collect_columns (upsampled factor columns) (range_from 0 (length columns * factor))

module _ {A : Type 0} (blend : ℕ → ℕ → A → A → A) where
  -- The first `n` columns of `next`, from number `i` on, blended with those of `previous`.
  unfoldable pub blend_first : ℕ → ℕ → ℕ → List A → List A → List A
  blend_first zero i total previous next = next
  blend_first (suc n) i total [] next = next
  blend_first (suc n) i total (p ∷ previous) [] = []
  blend_first (suc n) i total (p ∷ previous) (x ∷ next) =
      blend i total p x ∷ blend_first n (suc i) total previous next

  unfoldable pub smooth_action_chunk_overlap : List A → List A → List A
  unfolding blend_first
  smooth_action_chunk_overlap previous next =
      let overlap = min (length previous) (length next) in
      if overlap == 0 then next else blend_first overlap 0 overlap previous next
