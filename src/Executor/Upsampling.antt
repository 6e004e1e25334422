-- ===== src/Executor/Upsampling.antt =====
-- The indices that `interpolate_action_chunk` reads, and its preparation as a whole (envs/action_executor.py).
use Prim.Native.Nat.{◌/◌, ◌%◌, ◌*◌}
use native.Mathlib.Nat.{div-le_of_le-mul, div-add-mod, mul-le-mul_right}
use verl_vla.Common.{
  ℕ, zero, suc, ◌+◌, ◌-◌, ◌≤◌, ◌<◌, ◌≡◌, refl, subst, ap, ◌∙◌, false, inl, inr, List, [], ◌∷◌,
  length, get_elem?, range_from, Option, some, ok, arith, ◌==◌, ℕ_discrete, Bool-cases,
}
use verl_vla.Executor.Chunk.{
  ActionArray, ValueArray, three_dims, two_dims, interpolate, collect_columns, upsampled,
  mix_columns, normalize_action_chunk,
}
use verl_vla.Executor.Lengths.{length-interpolate}
use verl_vla.Executor.Loop.{ExecutorConfig, prepare}

left_column : (j m den : ℕ) → j ≤ den → j * m / den ≤ m
left_column j m den l = div-le_of_le-mul den (mul-le-mul_right m l)

past_end : (d x r : ℕ) → d + r ≡ x → x ≤ d → (r == 0) ≡ false → ⊥
past_end d x r e l ne = ground arith

-- Between two columns, the right one is still in the chunk.
right_column : (j m den : ℕ) → j ≤ den → (j * m % den == 0) ≡ false → j * m / den + 1 ≤ m
right_column j m den l rest = elim (ℕ_discrete (j * m / den) m) [
  | no other ↦ omega (arith, left_column j m den l)
  | yes whole ↦
      let all_of = subst (λ q. den * q + j * m % den ≡ j * m) whole (div-add-mod (j * m) den) in
      absurd (past_end (den * m) (j * m) (j * m % den) all_of (mul-le-mul_right m l) rest)
]

get_elem?-some {ℓ} :
    {A : Type ℓ} (xs : List A) (i : ℕ) → i < length xs → (a : A) × (get_elem? xs i ≡ some a)
get_elem?-some [] i l = elim l [ ]
get_elem?-some (x ∷ xs) zero l = (x, refl)
get_elem?-some (x ∷ xs) (suc i) l = get_elem?-some xs i (omega arith)

module _ {A : Type 0} (mix : ℕ → ℕ → A → A → A) where
  upsampled-some :
      (factor : ℕ) (columns : List A) (j : ℕ)
      → j < length columns * factor
      → 0 < length columns
      → (a : A) × (upsampled mix factor columns j ≡ some a)
  unfolding upsampled mix_columns
  upsampled-some factor columns j l pos =
      let m = length columns - 1 in
      let den = length columns * factor - 1 in
      let (a, ea) =
        get_elem?-some columns (j * m / den) (omega (arith, left_column j m den (omega arith))) in
      elim (Bool-cases (j * m % den == 0)) [
        | inl whole ↦ (mix (j * m % den) den a a, rw (whole, ea) refl)
        | inr part ↦
            let (b, eb) =
              get_elem?-some columns (j * m / den + 1)
                (omega (arith, right_column j m den (omega arith) part)) in
            (mix (j * m % den) den a b, rw (part, ea, eb) refl)
      ]

collect_columns-ok :
    {A : Type 0} (f : ℕ → Option A) (start n limit : ℕ)
    → ((j : ℕ) → j < limit → (a : A) × (f j ≡ some a))
    → start + n ≤ limit
    → (out : List A) × (collect_columns f (range_from start n) ≡ ok out)
unfolding collect_columns
collect_columns-ok f start zero limit h l = ([], refl)
collect_columns-ok f start (suc n) limit h l =
    let (a, ea) = h start (omega arith) in
    let (rest, er) = collect_columns-ok f (suc start) n limit h (omega arith) in
    (a ∷ rest, rw (ea, er) refl)

module _ {A : Type 0} (mix : ℕ → ℕ → A → A → A) where
  interpolate-ok :
      (factor : ℕ) (columns : List A)
      → 0 < length columns
      → (out : List A) × (interpolate mix factor columns ≡ ok out)
  unfolding interpolate
  interpolate-ok factor columns pos = elim (Bool-cases (factor == 1)) [
    | inl one ↦ (columns, rw one refl)
    | inr other ↦
        let (out, e) =
          collect_columns-ok (upsampled mix factor columns) 0 (length columns * factor)
            (length columns * factor) (λ j l. upsampled-some mix factor columns j l pos)
            (omega arith) in
        (out, rw other e)
  ]

module _ {A V : Type 0} (mix : ℕ → ℕ → A → A → A) (mix_value : ℕ → ℕ → V → V → V)
    (config : ExecutorConfig) where
  accepted :
      (batch : ℕ) (actions : List A) (values : List V)
      → 0 < length actions
      → length values ≡ length actions
      → normalize_action_chunk (three_dims batch actions) (two_dims batch values)
        ≡ ok (actions, values)
  unfolding normalize_action_chunk
  accepted batch actions values pos same = ground arith

  prepared :
      (given : ActionArray A) (given_values : ValueArray V) (actions columns : List A)
      (values column_values : List V)
      → normalize_action_chunk given given_values ≡ ok (actions, values)
      → interpolate mix config.interpolation_factor actions ≡ ok columns
      → interpolate mix_value config.interpolation_factor values ≡ ok column_values
      → prepare mix mix_value config.interpolation_factor given given_values
        ≡ ok (columns, column_values)
  unfolding prepare
  prepared given given_values actions columns values column_values n ea ev =
      rw (prepare, n) (rw (ea, ev) refl)

  -- The preparation of a chunk never reads outside it: a chunk of at least one column, with as many columns of
  -- values for the same batch, is accepted whatever the factor, and the prepared chunk has as many columns of
  -- actions and of values as the given one times the factor.
  pub prepare-ok :
      (batch : ℕ) (actions : List A) (values : List V)
      → 0 < length actions
      → length values ≡ length actions
      → (chunk : List A × List V) × (prepare mix mix_value config.interpolation_factor
            (three_dims batch actions)
            (two_dims batch values)
          ≡ ok chunk)
        × (length chunk.0 ≡ length actions * config.interpolation_factor)
        × (length chunk.1 ≡ length actions * config.interpolation_factor)
  prepare-ok batch actions values pos same =
      let (columns, ea) = interpolate-ok mix config.interpolation_factor actions pos in
      let (column_values, ev) =
        interpolate-ok mix_value config.interpolation_factor values (omega arith) in
      (
        (columns, column_values),
        prepared (three_dims batch actions) (two_dims batch values) actions columns values
            column_values (accepted batch actions values pos same) ea ev,
        length-interpolate mix config.interpolation_factor actions columns ea,
        length-interpolate mix_value config.interpolation_factor values column_values ev
            ∙ ap (λ n. n * config.interpolation_factor) same,
      )
