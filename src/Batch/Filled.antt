-- ===== src/Batch/Filled.antt =====
-- The rows that `compact_valid_policy_chunks_for_fpo` keeps and adds (trainer/grfpo/rollout_batch.py).
use mathlib.Core.List.{append-nil}
use native.Mathlib.Nat.{
  mod-lt, div-add-mod, mul-mod_right, mul-add, mod-eq_of_lt, mod_self, mul-le-mul_right,
}
use verl_vla.Common.{
  ℕ, zero, suc, ◌+◌, ◌-◌, ◌*◌, ◌/◌, ◌%◌, ◌<◌, ◌≡◌, refl, ap, ◌∙◌, true, false, not, ◌&&◌, List, [],
  ◌∷◌, ◌++◌, length, replicate, all, any, All, ok, arith, length-append, length-replicate, ◌≢◌,
  ℕ_discrete,
}
use verl_vla.Collection.Spec.{is_finite_positive}
use verl_vla.Batch.Compact.{
  Row, Compacted, is_zero, valid_rows, dummy_of, same_mask, dummies, assert_compacted, missing,
  fill, compact, IsWeighted,
}

missing_lt : (v d : ℕ) → 0 < d → missing v d < d
missing_lt v d h = mod-lt (d - v % d) h

part_lt : (v d : ℕ) → v % d ≢ 0 → 0 < d → d - v % d < d
part_lt v d ne h = omega arith

next_multiple : (v d q r : ℕ) → d * q + r ≡ v → r < d → v + (d - r) ≡ d * (q + 1)
next_multiple v d q r e l = omega (arith, mul-add d q 1)

minus_zero : (d : ℕ) → d - 0 ≡ d
minus_zero d = omega arith

plus_zero : (v : ℕ) → v + 0 ≡ v
plus_zero v = omega arith

rest_zero : (v d : ℕ) → 0 < d → v % d ≡ 0 → (v + missing v d) % d ≡ 0
rest_zero v d h e =
    ap (λ r. (v + (d - r) % d) % d) e
    ∙ (ap (λ k. (v + k % d) % d) (minus_zero d)
        ∙ (ap (λ k. (v + k) % d) (mod_self d) ∙ (ap (λ k. k % d) (plus_zero v) ∙ e)))

-- The next multiple of the divisor.
missing_whole : (v d : ℕ) → 0 < d → (v + missing v d) % d ≡ 0
missing_whole v d h = elim (ℕ_discrete (v % d) 0) [
  | yes e ↦ rest_zero v d h e
  | no ne ↦
      let less = mod-eq_of_lt (part_lt v d ne h) in
      let sum = next_multiple v d (v / d) (v % d) (div-add-mod v d) (mod-lt v h) in
      ap (λ k. (v + k) % d) less ∙ (ap (λ k. k % d) sum ∙ mul-mod_right d (v / d + 1))
]

some_divisor : (w m : ℕ) → 0 < w → 0 < m → 0 < w * m
some_divisor w m hw hm = omega (arith, mul-le-mul_right {m = 1} {n = w} m hw)

module _ {P : Type 0} where
  any_bad_valid :
      (rows : List (Row P))
      → All IsWeighted rows
      → any (λ r. r.valid && not (is_finite_positive r.loss_weight)) rows ≡ false
  any_bad_valid [] h = refl
  any_bad_valid (r ∷ rows) h = ground (arith, h.0, any_bad_valid rows h.1)

  any_bad_padding :
      (rows : List (Row P))
      → All IsWeighted rows
      → any (λ r. not r.valid && not (is_zero r.loss_weight)) rows ≡ false
  any_bad_padding [] h = refl
  any_bad_padding (r ∷ rows) h = ground (arith, h.0, any_bad_padding rows h.1)

  masks_valid_rows :
      (rows more : List (Row P))
      → All IsWeighted rows
      → all same_mask more ≡ true
      → all same_mask (valid_rows rows ++ more) ≡ true
  unfolding valid_rows
  masks_valid_rows [] more h m = m
  masks_valid_rows (r ∷ rows) more h m = ground (arith, h.0, masks_valid_rows rows more h.1 m)

  masks_dummies : (n : ℕ) (r : Row P) → all same_mask (replicate n (dummy_of r)) ≡ true
  masks_dummies zero r = refl
  masks_dummies (suc n) r = masks_dummies n r

  valid_rows-dummies : (n : ℕ) (r : Row P) → valid_rows (replicate n (dummy_of r)) ≡ []
  unfolding valid_rows
  valid_rows-dummies zero r = refl
  valid_rows-dummies (suc n) r = valid_rows-dummies n r

  valid_rows-append :
      (rows more : List (Row P))
      → valid_rows (valid_rows rows ++ more) ≡ valid_rows rows ++ valid_rows more
  unfolding valid_rows
  valid_rows-append [] more = refl
  valid_rows-append (r ∷ rows) more = ground (arith, valid_rows-append rows more)

  length-dummies : (n : ℕ) (rows : List (Row P)) → 0 < length rows → length (dummies n rows) ≡ n
  length-dummies n [] h = absurd (omega arith)
  length-dummies n (r ∷ rows) h = length-replicate n (dummy_of r)

  valid_rows-dummies_of : (n : ℕ) (rows : List (Row P)) → valid_rows (dummies n rows) ≡ []
  unfolding valid_rows
  valid_rows-dummies_of n [] = refl
  valid_rows-dummies_of n (r ∷ rows) = valid_rows-dummies n r

  masks_dummies_of : (n : ℕ) (rows : List (Row P)) → all same_mask (dummies n rows) ≡ true
  masks_dummies_of n [] = refl
  masks_dummies_of n (r ∷ rows) = masks_dummies n r

  -- The filled batch.
  module _ (divisor slots : ℕ) (rows : List (Row P)) (pos : 0 < divisor)
      (some_valid : 0 < length (valid_rows rows)) where
    abbrev filled : Compacted P
    filled = fill divisor slots (valid_rows rows)

    length-filled : length filled.rows ≡ length (valid_rows rows) + filled.sync_dummy_slots
    unfolding fill
    length-filled =
        let count = missing (length (valid_rows rows)) divisor in
        length-append (valid_rows rows) (dummies count (valid_rows rows))
        ∙ ap (λ n. length (valid_rows rows) + n) (length-dummies count (valid_rows rows) some_valid)

    filled_whole : length filled.rows % divisor ≡ 0
    unfolding fill
    filled_whole =
        ap (λ n. n % divisor) length-filled ∙ missing_whole (length (valid_rows rows)) divisor pos

    valid_rows-filled : valid_rows filled.rows ≡ valid_rows rows
    unfolding fill
    valid_rows-filled =
        let count = missing (length (valid_rows rows)) divisor in
        valid_rows-append rows (dummies count (valid_rows rows))
        ∙ (ap (λ more. valid_rows rows ++ more) (valid_rows-dummies_of count (valid_rows rows))
            ∙ append-nil (valid_rows rows))

    masks_filled : All IsWeighted rows → all same_mask filled.rows ≡ true
    unfolding fill
    masks_filled h =
        let count = missing (length (valid_rows rows)) divisor in
        masks_valid_rows rows (dummies count (valid_rows rows)) h
          (masks_dummies_of count (valid_rows rows))

    few_dummies : length filled.rows < length (valid_rows rows) + divisor
    unfolding fill
    few_dummies = omega (arith, length-filled, missing_lt (length (valid_rows rows)) divisor pos)

    slots_kept : filled.original_physical_slots ≡ slots
    unfolding fill
    slots_kept = refl

    counted : filled.valid_policy_chunks ≡ length (valid_rows rows)
    unfolding fill
    counted = refl

    assert_filled : All IsWeighted rows → assert_compacted divisor filled ≡ ok filled
    unfolding assert_compacted
    assert_filled h =
        let whole = filled_whole in
        let kept = ap length valid_rows-filled in
        let masks = masks_filled h in ground (arith, whole, kept, masks, counted)

  accepted :
      (w m : ℕ) (rows : List (Row P)) (out : Compacted P)
      → 0 < w
      → 0 < m
      → 0 < length (valid_rows rows)
      → any (λ r. r.valid && not (is_finite_positive r.loss_weight)) rows ≡ false
      → any (λ r. not r.valid && not (is_zero r.loss_weight)) rows ≡ false
      → assert_compacted (w * m) (fill (w * m) (length rows) (valid_rows rows)) ≡ ok out
      → compact w m rows ≡ ok out
  unfolding compact
  accepted w m rows out hw hm some_valid good padded asserted =
      ground (arith, hw, hm, some_valid, good, padded, asserted)

  -- The compaction raises nothing and none of its assertions fails. For a positive world and microbatch, and
  -- rows of which at least one is valid, every valid one has a finite positive weight and every other one the
  -- weight zero: the result fills whole microbatches on every rank with fewer fill-in rows than
  -- one round of them has rows, its valid rows are those of the batch in their order, its weights
  -- are positive exactly on the valid rows, and it reports the number of slots before.
  pub compact-ok :
      (world_size micro_batch_size : ℕ) (rows : List (Row P))
      → 0 < world_size
      → 0 < micro_batch_size
      → All IsWeighted rows
      → 0 < length (valid_rows rows)
      → (out : Compacted P) × (compact world_size micro_batch_size rows ≡ ok out)
        × (length out.rows % (world_size * micro_batch_size) ≡ 0)
        × (length out.rows < length (valid_rows rows) + world_size * micro_batch_size)
        × (valid_rows out.rows ≡ valid_rows rows)
        × (all same_mask out.rows ≡ true)
        × (out.original_physical_slots ≡ length rows)
  compact-ok w m rows hw hm h some_valid =
      let divisor = w * m in
      let pos = some_divisor w m hw hm in
      let slots = length rows in
      let out = fill divisor slots (valid_rows rows) in
      let asserted = assert_filled divisor slots rows pos some_valid h in
      let good = any_bad_valid rows h in
      let padded = any_bad_padding rows h in
      (
        out,
        accepted w m rows out hw hm some_valid good padded asserted,
        filled_whole divisor slots rows pos some_valid,
        few_dummies divisor slots rows pos some_valid,
        valid_rows-filled divisor slots rows pos some_valid,
        masks_filled divisor slots rows pos some_valid h,
        slots_kept divisor slots rows pos some_valid,
      )
