-- ===== src/Batch/Size.antt =====
-- How many candidate groups a batch has (trainer/grfpo/grfpo_ray_trainer.py).
use native.Mathlib.Nat.{div-mul-le_self, mul-mod_left, mod-one, mul-le-mul_right, le-div_iff_mul-le}
use verl_vla.Common.{
  ℕ, ◌+◌, ◌*◌, ◌/◌, ◌%◌, ◌≤◌, ◌<◌, ◌≡◌, ap, ◌∙◌, inl, inr, min, max, Bool, false, not, ◌&&◌, ◌||◌,
  Result, ok, err, leb, ltb, ◌==◌, if◌then◌else◌, arith, Bool-cases, String, is_yes,
  string_discrete,
}

pub data SizeError : Type 0 where
  bad_bounds bad_groups_per_stage bad_envs unknown_partition bad_schedule : SizeError

unfoldable pub bounded_candidate_batch_size : ℕ → ℕ → ℕ → Result SizeError ℕ
bounded_candidate_batch_size concurrency budget slots =
    if leb concurrency 0 || leb budget 0 || leb slots 0
    then err bad_bounds
    else ok (min concurrency (min budget slots))

unfoldable pub quantized_candidate_batch_size : ℕ → ℕ → ℕ → ℕ → Result SizeError ℕ
unfolding bounded_candidate_batch_size
quantized_candidate_batch_size concurrency budget slots groups_per_stage =
    if leb groups_per_stage 0
    then err bad_groups_per_stage
    else if groups_per_stage == 1
    then bounded_candidate_batch_size concurrency budget slots
    else if leb concurrency 0 || leb budget 0 || leb slots 0
    then err bad_bounds
    else if ltb (min concurrency budget) groups_per_stage
    then ok 0
    else ok (
        min (min concurrency budget) (max slots groups_per_stage)
        / groups_per_stage
        * groups_per_stage)

-- `_candidate_groups_per_stage`, of the number of workers and the environments of each.
unfoldable pub candidate_groups_per_stage : String → ℕ → ℕ → ℕ → Result SizeError ℕ
candidate_groups_per_stage partition group_size workers envs_per_worker =
    if is_yes (string_discrete partition "stage")
    then ok 1
    else if is_yes (string_discrete partition "worker_stage")
    then (if ltb envs_per_worker group_size || not (envs_per_worker % group_size == 0)
        then err bad_envs
        else ok (workers * (envs_per_worker / group_size)))
    else err unknown_partition

unfoldable pub optional_refill_is_unnecessary : ℕ → ℕ → ℕ → ℕ → Bool
optional_refill_is_unnecessary candidates accepted initial accepted_before_refill =
    if leb initial 0 || leb accepted_before_refill 0
    then false
    else leb initial candidates && leb accepted_before_refill accepted

unfoldable pub candidate_schedule_slot_after_fixed_eval : ℕ → ℕ → Result SizeError ℕ
candidate_schedule_slot_after_fixed_eval current_slot pipeline_stages =
    if leb pipeline_stages 0 then err bad_schedule else ok (current_slot + pipeline_stages)

-- A batch size: within the concurrency and the budget, whole stages, and not a whole stage more than the
-- slots that are left; none only when the concurrency or the budget is less than a stage.
pub record IsBatchSize (concurrency budget slots stage size : ℕ) : Type 0 where
  pub concurrent : size ≤ concurrency
  pub budgeted : size ≤ budget
  pub whole : size % stage ≡ 0
  pub wanted : size < slots + stage
  pub some_group : stage ≤ concurrency → stage ≤ budget → stage ≤ size

mul_at_least : (q g : ℕ) → 1 ≤ q → g ≤ q * g
mul_at_least q g l = omega (arith, mul-le-mul_right g l)

single : (c b s g : ℕ) → 0 < c → 0 < b → 0 < s → g ≡ 1 → IsBatchSize c b s g (min c (min b s))
single c b s g hc hb hs e = record {
  concurrent = omega arith;
  budgeted = omega arith;
  whole = ap (λ k. min c (min b s) % k) e ∙ mod-one (min c (min b s));
  wanted = omega arith;
  some_group = λ _ _. omega arith;
}

-- Whole stages of at most `x` groups.
whole_stages : (x stage : ℕ) → 0 < stage → stage ≤ x → stage ≤ x / stage * stage
whole_stages x stage pos l =
    mul_at_least (x / stage) stage ((le-div_iff_mul-le pos).1 (omega (arith, l)))

-- The batch size is never refused for positive bounds: it is within the concurrency and the budget, it is made
-- of whole stages, it exceeds the slots that are left by less than one stage, and it holds at least one
-- stage whenever the concurrency and the budget allow one.
pub quantized_candidate_batch_size-ok :
    (concurrency budget slots stage : ℕ)
    → 0 < concurrency
    → 0 < budget
    → 0 < slots
    → 0 < stage
    → (size : ℕ) × (quantized_candidate_batch_size concurrency budget slots stage ≡ ok size)
      × IsBatchSize concurrency budget slots stage size
unfolding quantized_candidate_batch_size
quantized_candidate_batch_size-ok c b s g hc hb hs hg = elim (Bool-cases (g == 1)) [
  | inl one ↦ (min c (min b s), ground arith, single c b s g hc hb hs (ground arith))
  | inr many ↦ elim (Bool-cases (ltb (min c b) g)) [
    | inl less ↦ (0, ground arith, ground arith)
    | inr enough ↦
        let x = min (min c b) (max s g) in
        let size = x / g * g in
        let below = div-mul-le_self x g in
        let whole = mul-mod_left (x / g) g in
        let one = whole_stages x g hg (ground arith) in
        (
          size,
          ground arith,
          record {
            concurrent = omega (arith, below);
            budgeted = omega (arith, below);
            whole = whole;
            wanted = omega (arith, below);
            some_group = λ _ _. one;
          },
        )
  ]
]
