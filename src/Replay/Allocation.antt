-- ===== src/Replay/Allocation.antt =====
-- `_allocate_counts_across_tasks` (utils/replay_pool.py): the samples wanted are dealt to the task pools
-- one by one, round after round.
use verl_vla.Common.{
  ℕ, zero, suc, ◌+◌, ◌-◌, ◌≤◌, ◌<◌, ◌≡◌, refl, ap, ◌∙◌, String, Bool, true, false, not, List, [],
  ◌∷◌, map, arith, ltb, ◌==◌, if◌then◌else◌, All, min, Result, ok, err, Bool-cases, inl, inr, ◌⊎◌,
}

-- A task, the size of its pool, and the number of samples allocated to it so far.
pub record Share : Type 0 where
  pub task : String
  pub available : ℕ
  pub count : ℕ

abbrev pub available_in : List Share → ℕ
available_in [] = 0
available_in (s ∷ shares) = s.available + available_in shares

abbrev pub allocated : List Share → ℕ
allocated [] = 0
allocated (s ∷ shares) = s.count + allocated shares

abbrev more : Share → Share
more s = record s { count = suc s.count }

pub data ReplayError : Type 0 where
  not_enough_samples no_eligible_pool empty_pool task_ids_mismatch : ReplayError

-- One run of the inner loop with a positive remainder: the shares, what remains, and whether any task
-- got a sample.
unfoldable pub deal : ℕ → List Share → List Share × ℕ × Bool
deal remaining [] = ([], remaining, false)
deal remaining (s ∷ shares) =
    let next = deal (remaining - 1) shares in
    let same = deal remaining shares in
    if ltb s.count s.available
    then if remaining - 1 == 0 then (more s ∷ shares, 0, true) else (more s ∷ next.0, next.1, true)
    else (s ∷ same.0, same.1, same.2)

-- The outer loop; every round but the last deals at least one sample, so `total` rounds are enough.
unfoldable pub deal_rounds : ℕ → ℕ → List Share → Result ReplayError (List Share)
unfolding deal
deal_rounds fuel zero shares = ok shares
deal_rounds zero (suc remaining) shares = err no_eligible_pool
deal_rounds (suc fuel) (suc remaining) shares =
    let round = deal (suc remaining) shares in
    let rest = deal_rounds fuel round.1 round.0 in
    if not round.2 then err no_eligible_pool else rest

abbrev pub no_samples : String × ℕ → Share
no_samples e = record { task = e.0; available = e.1; count = 0 }

abbrev pub entry : Share → String × ℕ
entry s = (s.task, s.available)

-- `_allocate_counts_across_tasks`
unfoldable pub allocate : List (String × ℕ) → ℕ → Result ReplayError (List Share)
unfolding deal_rounds
allocate sizes total =
    let shares = map no_samples sizes in
    if ltb (available_in shares) total
    then err not_enough_samples
    else deal_rounds total total shares

-- After `k` whole rounds, every task has `k` samples, or its whole pool.
abbrev IsLevel : ℕ → Share → Type 0
IsLevel k s = s.count ≡ min s.available k

-- Within round `k`, a task may be one sample ahead.
abbrev pub IsFair : ℕ → Share → Type 0
IsFair k s = (s.count ≡ min s.available k) ⊎ (s.count ≡ min s.available (suc k))

-- What one round makes of level shares.
IsDealt : ℕ → ℕ → List Share → Type 0
IsDealt k remaining shares =
    let round = deal remaining shares in
    (available_in round.0 ≡ available_in shares)
    × (allocated round.0 + round.1 ≡ allocated shares + remaining)
    × (((round.1 ≡ 0) × All (IsFair k) round.0) ⊎ ((0 < round.1) × All (IsLevel (suc k)) round.0))
    × (allocated shares < available_in shares → (round.2 ≡ true) × (round.1 < remaining))
    × (round.1 ≤ remaining)
    × (map entry round.0 ≡ map entry shares)

IsLevel-IsFair : (k : ℕ) (shares : List Share) → All (IsLevel k) shares → All (IsFair k) shares
IsLevel-IsFair k [] h = tt
IsLevel-IsFair k (s ∷ shares) h = (inl h.0, IsLevel-IsFair k shares h.1)

not_less : (a b : ℕ) → a ≤ b → ltb b a ≡ false
not_less a b l = ground arith

next_level :
    (k : ℕ) (s : Share)
    → ltb s.count s.available ≡ true
    → IsLevel k s
    → suc s.count ≡ min s.available (suc k)
next_level k s l h = ground arith

used_up :
    (k : ℕ) (s : Share) → ltb s.count s.available ≡ false → IsLevel k s → s.count ≡ s.available
used_up k s l h = ground arith

same-IsLevel :
    (k : ℕ) (s : Share) → ltb s.count s.available ≡ false → IsLevel k s → IsLevel (suc k) s
same-IsLevel k s l h = ground arith

deal-IsDealt :
    (k remaining : ℕ) (shares : List Share)
    → 0 < remaining
    → All (IsLevel k) shares
    → IsDealt k remaining shares
unfolding deal IsDealt
deal-IsDealt k remaining [] pos h =
    (refl, omega arith, inr (pos, tt), λ l. absurd (omega arith), omega arith, refl)
deal-IsDealt k remaining (s ∷ shares) pos h = elim (Bool-cases (ltb s.count s.available)) [
  | inl some_left ↦ elim (Bool-cases (remaining - 1 == 0)) [
    | inl last ↦
        rw (some_left, last)
          (
            refl,
            ground arith,
            inl (refl, (inr (ground arith), IsLevel-IsFair k shares h.1)),
            λ l. (refl, pos),
            omega arith,
            refl,
          )
    | inr others ↦
        let next = deal-IsDealt k (remaining - 1) shares (ground arith) h.1 in
        rw (some_left, others)
          (
            omega (arith, next.0),
            omega (arith, next.1, pos),
            elim next.2 [
              | inl (none, fair) ↦ inl (none, (inr (next_level k s some_left h.0), fair))
              | inr (left, level) ↦ inr (left, (next_level k s some_left h.0, level))
            ],
            λ l. (refl, omega (arith, next.4, pos)),
            omega (arith, next.4),
            ap (λ es. entry s ∷ es) next.5,
          )
  ]
  | inr none_left ↦
      let same = deal-IsDealt k remaining shares pos h.1 in
      rw none_left (
        omega (arith, same.0),
        omega (arith, same.1),
        elim same.2 [
          | inl (none, fair) ↦ inl (none, (inl h.0, fair))
          | inr (left, level) ↦ inr (left, (same-IsLevel k s none_left h.0, level))
        ],
        λ l. same.3 (omega (arith, used_up k s none_left h.0)),
        same.4,
        ap (λ es. entry s ∷ es) same.5,
      )
]

-- What is promised of the shares that the rounds return.
abbrev IsShared : ℕ → List Share → Result ReplayError (List Share) → Type 0
IsShared remaining shares r =
    (result : List Share) × (r ≡ ok result)
    × (allocated result ≡ allocated shares + remaining)
    × (map entry result ≡ map entry shares)
    × ((k : ℕ) × All (IsFair k) result)

deal_rounds-IsShared :
    (fuel k remaining : ℕ) (shares : List Share)
    → remaining ≤ fuel
    → allocated shares + remaining ≤ available_in shares
    → All (IsLevel k) shares
    → IsShared remaining shares (deal_rounds fuel remaining shares)
unfolding deal_rounds IsDealt
deal_rounds-IsShared fuel k zero shares f enough h =
    (shares, refl, omega arith, refl, (k, IsLevel-IsFair k shares h))
deal_rounds-IsShared zero k (suc remaining) shares f enough h = absurd (omega arith)
deal_rounds-IsShared (suc fuel) k (suc remaining) shares f enough h =
    let round = deal-IsDealt k (suc remaining) shares (omega arith) h in
    let (progressed, fewer) = round.3 (omega (arith, enough)) in
    rw progressed (elim round.2 [
      | inl (none, fair) ↦ rw none (_, refl, omega (arith, round.1, none), round.5, (k, fair))
      | inr (left, level) ↦
          let (result, same, sum, available, fair) =
            deal_rounds-IsShared fuel (suc k) _ _ (omega (arith, fewer, f))
              (omega (arith, round.0, round.1, enough)) level in
          (result, same, omega (arith, sum, round.1), available ∙ round.5, fair)
    ])

no_samples-IsLevel : (sizes : List (String × ℕ)) → All (IsLevel 0) (map no_samples sizes)
no_samples-IsLevel [] = tt
no_samples-IsLevel (e ∷ sizes) = (omega arith, no_samples-IsLevel sizes)

no_samples-allocated : (sizes : List (String × ℕ)) → allocated (map no_samples sizes) ≡ 0
no_samples-allocated [] = refl
no_samples-allocated (e ∷ sizes) = omega (arith, no_samples-allocated sizes)

entry-no_samples : (sizes : List (String × ℕ)) → map entry (map no_samples sizes) ≡ sizes
entry-no_samples [] = refl
entry-no_samples (e ∷ sizes) = ap (λ es. e ∷ es) (entry-no_samples sizes)

-- If the pools hold at least as many samples as are wanted, the allocation raises nothing and ends: it
-- deals exactly the number wanted among the same tasks, to none more than its pool holds, and evenly:
-- for some number of rounds every task has that many samples, or one more, or its whole pool.
pub allocate-IsShared :
    (sizes : List (String × ℕ)) (total : ℕ)
    → total ≤ available_in (map no_samples sizes)
    → (result : List Share) × (allocate sizes total ≡ ok result)
      × (allocated result ≡ total)
      × (map entry result ≡ sizes)
      × ((k : ℕ) × All (IsFair k) result)
unfolding allocate
allocate-IsShared sizes total enough =
    let (result, same, sum, available, fair) =
      deal_rounds-IsShared total 0 total (map no_samples sizes) (omega arith)
        (omega (arith, no_samples-allocated sizes)) (no_samples-IsLevel sizes) in
    rw (not_less total (available_in (map no_samples sizes)) enough) (
      result,
      same,
      omega (arith, sum, no_samples-allocated sizes),
      available ∙ entry-no_samples sizes,
      fair,
    )
