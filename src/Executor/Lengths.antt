-- ===== src/Executor/Lengths.antt =====
-- The lengths of chunks in their preparation (envs/action_executor.py).
use verl_vla.Common.{
  ℕ, zero, suc, ◌-◌, ◌*◌, ◌<◌, ◌≡◌, refl, ap, ◌∙◌, Bool, true, false, not, ◌&&◌, inl, inr, List, [],
  ◌∷◌, drop, length, map, range_from, Option, ok, leb, arith, Result-cases, ℕ_discrete, Bool-cases,
  Option-cases, min,
}
use verl_vla.Executor.Chunk.{
  ActionArray, ValueArray, three_dims, two_dims, other_dims, normalize_action_chunk, interpolate,
  collect_columns, upsampled, smooth_action_chunk_overlap, blend_first,
}
use verl_vla.Executor.Loop.{
  Executor, ExecutorConfig, enqueue, elapsed_steps, replacement_queue, prepare,
}

length-drop {ℓ} : {A : Type ℓ} (n : ℕ) (xs : List A) → length (drop n xs) ≡ length xs - n
length-drop zero xs = omega arith
length-drop (suc n) [] = omega arith
length-drop (suc n) (x ∷ xs) = omega (arith, length-drop n xs)

module _ {A V : Type 0} where
  length-enqueue :
      (b : Bool) (actions : List A) (values : List V)
      → length actions ≡ length values
      → length (enqueue b actions values) ≡ length actions
  unfolding enqueue
  length-enqueue b [] values h = refl
  length-enqueue b (a ∷ actions) [] h = omega (arith, h)
  length-enqueue b (a ∷ actions) (v ∷ values) h =
      ap suc (length-enqueue false actions values (omega (arith, h)))

module _ {A : Type 0} (blend : ℕ → ℕ → A → A → A) where
  length-blend_first :
      (n i total : ℕ) (previous next : List A)
      → length (blend_first blend n i total previous next) ≡ length next
  unfolding blend_first
  length-blend_first zero i total previous next = refl
  length-blend_first (suc n) i total [] next = refl
  length-blend_first (suc n) i total (p ∷ previous) [] = refl
  length-blend_first (suc n) i total (p ∷ previous) (x ∷ next) =
      ap suc (length-blend_first n (suc i) total previous next)

  length-smooth_action_chunk_overlap :
      (previous next : List A)
      → length (smooth_action_chunk_overlap blend previous next) ≡ length next
  unfolding smooth_action_chunk_overlap
  length-smooth_action_chunk_overlap previous next =
      let overlap = min (length previous) (length next) in
      let same = length-blend_first overlap 0 overlap previous next in ground (arith, same)

module _ {A : Type 0} (mix : ℕ → ℕ → A → A → A) where
  length-collect_columns :
      (f : ℕ → Option A) (js : List ℕ) (out : List A)
      → collect_columns f js ≡ ok out
      → length out ≡ length js
  unfolding collect_columns
  length-collect_columns f [] out h = ground arith
  length-collect_columns f (j ∷ js) out h = elim (Option-cases (f j)) [
    | inl e ↦ ground arith
    | inr (a, e) ↦ elim (Result-cases (collect_columns f js)) [
      | inl (rest, q) ↦ ground (arith, length-collect_columns f js rest q)
      | inr (x, q) ↦ ground arith
    ]
  ]

  length-range_from : (start n : ℕ) → length (range_from start n) ≡ n
  length-range_from start zero = refl
  length-range_from start (suc n) = ap suc (length-range_from (suc start) n)

  pub length-interpolate :
      (factor : ℕ) (columns out : List A)
      → interpolate mix factor columns ≡ ok out
      → length out ≡ length columns * factor
  unfolding interpolate
  length-interpolate factor columns out h = elim (ℕ_discrete factor 1) [
    | yes one ↦ ground (arith, h, one)
    | no other ↦
        length-collect_columns (upsampled mix factor columns)
          (range_from 0 (length columns * factor)) out (ground arith)
        ∙ length-range_from 0 (length columns * factor)
  ]

module _ {A V : Type 0} (mix : ℕ → ℕ → A → A → A) (mix_value : ℕ → ℕ → V → V → V)
    (config : ExecutorConfig) where
  length-normalize :
      (actions : ActionArray A) (values : ValueArray V) (chunk : List A × List V)
      → normalize_action_chunk actions values ≡ ok chunk
      → (length chunk.0 ≡ length chunk.1) × (0 < length chunk.0)
  unfolding normalize_action_chunk
  length-normalize (three_dims batch actions) (two_dims rows values) chunk h = ground arith
  length-normalize (three_dims batch actions) other_dims chunk h = ground arith
  length-normalize other_dims values chunk h = ground arith

  pub length-prepare :
      (actions : ActionArray A) (values : ValueArray V) (chunk : List A × List V)
      → prepare mix mix_value config.interpolation_factor actions values ≡ ok chunk
      → length chunk.0 ≡ length chunk.1
  unfolding prepare
  length-prepare actions values chunk h =
      elim (Result-cases (normalize_action_chunk actions values)) [
        | inr (e, q) ↦ ground arith
        | inl (c, q) ↦ elim (Result-cases (interpolate mix config.interpolation_factor c.0)) [
          | inr (e, qa) ↦ ground arith
          | inl (columns, qa) ↦
              elim (Result-cases (interpolate mix_value config.interpolation_factor c.1)) [
                | inr (e, qv) ↦ ground arith
                | inl (vs, qv) ↦ ground (
                  arith,
                  length-normalize actions values c q,
                  length-interpolate mix config.interpolation_factor c.0 columns qa,
                  length-interpolate mix_value config.interpolation_factor c.1 vs qv,
                )
              ]
        ]
      ]

module _ {A V : Type 0} (blend : ℕ → ℕ → A → A → A) (config : ExecutorConfig) where
  pub length-replacement_queue :
      (actions : List A) (values : List V) (ex : Executor A V)
      → length actions ≡ length values
      → length (replacement_queue blend config actions values ex)
        ≡ length actions - elapsed_steps ex
  unfolding replacement_queue
  length-replacement_queue actions values ex h =
      let n = elapsed_steps ex in
      let rest = drop n actions in
      let before = map (λ q. q.action) ex.action_queue in
      let smoothed = smooth_action_chunk_overlap blend before rest in
      let same = length-smooth_action_chunk_overlap blend before rest in
      let fewer = length-drop n actions in
      let fewer_values = length-drop n values in
      elim (Bool-cases
        (config.smooth_overlapping_actions && not (leb (length ex.action_queue) 0))) [
          | inl yes_smooth ↦ rw yes_smooth (
              length-enqueue true smoothed (drop n values)
                (omega (arith, h, same, fewer, fewer_values))
              ∙ (same ∙ fewer))
          | inr no_smooth ↦ rw no_smooth (
              length-enqueue true rest (drop n values) (omega (arith, h, fewer, fewer_values))
              ∙ fewer)
        ]
