-- ===== src/Collection/Lanes.antt =====
-- The schedule of candidates (trainer/grfpo/collection_store.py, `candidate_assignment`): which condition
-- and layout an index gets.
use native.Mathlib.Nat.{
  add-mod_right, div-add-mod', mul-add-div_right, div-eq_of_lt, mod-eq_of_lt, mul-le-mul_right,
  mul-add-mod_self_right,
}
use verl_vla.Common.{
  ℕ, zero, suc, ◌+◌, ◌-◌, ◌*◌, ◌/◌, ◌%◌, ◌≤◌, ◌<◌, ◌≡◌, ◌≢◌, refl, ap, ◌∙◌, arith, dec_le,
}
use verl_vla.Collection.Schedule.{condition_slot, task_slot, suite_slot, layout_slot}

slot_lt : (tasks suites t u : ℕ) → t < tasks → u < suites → t * suites + u < tasks * suites
slot_lt tasks suites t u lt lu =
    omega (arith, mul-le-mul_right {m = suc t} {n = tasks} suites (omega arith))

-- The position of the candidate at place `t * suites + u` of block `r` among the conditions.
pub lane_of_index :
    (tasks suites r t u : ℕ)
    → t < tasks
    → u < suites
    → (let slot = condition_slot (tasks * suites) (r * (tasks * suites) + (t * suites + u)) in
        (task_slot suites slot ≡ t)
        × (suite_slot suites slot ≡ u)
        × ((r * (tasks * suites) + (t * suites + u)) / (tasks * suites) ≡ r)
        × (slot ≡ t * suites + u))
lane_of_index tasks suites r t u lt lu =
    let inside = slot_lt tasks suites t u lt lu in
    rw
      (
        mul-add-mod_self_right r (tasks * suites) (t * suites + u),
        mod-eq_of_lt inside,
        mul-add-div_right {m = suites} (omega (arith, lu)) t u,
        mul-add-mod_self_right t suites u,
        mod-eq_of_lt lu,
        div-eq_of_lt lu,
        mul-add-div_right {m = tasks * suites} (omega (arith, inside)) r (t * suites + u),
        div-eq_of_lt inside,
      )
      (omega arith, refl, omega arith, refl)

-- A pool of layouts that is no multiple of seven has no multiple at seven times less than its size.
no_multiple :
    (q k pool d : ℕ) → (q + k) * pool ≡ q * pool + 7 * d → pool % 7 ≢ 0 → 0 < d → d < pool → ⊥
no_multiple q zero pool d e h p l = omega arith
no_multiple q (suc zero) pool d e h p l = h (omega arith)
no_multiple q (suc (suc zero)) pool d e h p l = h (omega arith)
no_multiple q (suc (suc (suc zero))) pool d e h p l = h (omega arith)
no_multiple q (suc (suc (suc (suc zero)))) pool d e h p l = h (omega arith)
no_multiple q (suc (suc (suc (suc (suc zero))))) pool d e h p l = h (omega arith)
no_multiple q (suc (suc (suc (suc (suc (suc zero)))))) pool d e h p l = h (omega arith)
no_multiple q (suc (suc (suc (suc (suc (suc (suc k))))))) pool d e h p l = omega arith

rejoin : (a b : ℕ) → a ≤ b → a + (b - a) ≡ b
rejoin a b l = omega arith

-- Numbers at such a distance have different remainders.
mod-apart : (x pool d : ℕ) → pool % 7 ≢ 0 → 0 < d → d < pool → (x + 7 * d) % pool ≢ x % pool
mod-apart x pool d h p l e =
    let low = div-add-mod' x pool in
    let high = div-add-mod' (x + 7 * d) pool in
    elim (dec_le (x / pool) ((x + 7 * d) / pool)) [
      | yes le ↦
          no_multiple (x / pool) ((x + 7 * d) / pool - x / pool) pool d
            (ap (λ q. q * pool) (rejoin (x / pool) ((x + 7 * d) / pool) le)
              ∙ omega (arith, low, high, e))
            h p l
      | no gt ↦ omega (
        arith,
        low,
        high,
        e,
        mul-le-mul_right {m = (x + 7 * d) / pool} {n = x / pool} pool (omega arith),
      )
    ]

-- Two attempts of one lane less than a pool apart get different layouts of the pool, unless the pool
-- holds a multiple of seven layouts.
pub layout_slot-rotates :
    (pool slot update a d : ℕ)
    → 0 < update
    → pool % 7 ≢ 0
    → 0 < d
    → d < pool
    → layout_slot (a + d) slot update pool ≢ layout_slot a slot update pool
unfolding layout_slot
layout_slot-rotates pool slot update a d pos coprime p l e =
    mod-apart (a * 7 + slot * 11 + update - 1) pool d coprime p l
      (ap (λ x. x % pool) (moved pos) ∙ e)
  where
    moved :
        0 < update → a * 7 + slot * 11 + update - 1 + 7 * d ≡ (a + d) * 7 + slot * 11 + update - 1
    moved h = omega arith

-- Within an update, a lane returns to a layout after a seventh of the pool's size when that is whole.
pub layout_slot-repeats :
    (pool slot update a : ℕ)
    → 0 < update
    → pool % 7 ≡ 0
    → layout_slot (a + pool / 7) slot update pool ≡ layout_slot a slot update pool
unfolding layout_slot
layout_slot-repeats pool slot update a pos h =
    ap (λ x. x % pool) (moved pos h) ∙ add-mod_right (a * 7 + slot * 11 + update - 1) pool
  where
    moved :
        0 < update
        → pool % 7 ≡ 0
        → (a + pool / 7) * 7 + slot * 11 + update - 1 ≡ a * 7 + slot * 11 + update - 1 + pool
    moved h whole = omega arith
