-- ===== src/Collection/Rounds.antt =====
-- When `close_if_ready` (trainer/grfpo/collection_store.py) closes a window, and what the set of completed
-- ids says about the candidates.
use verl_vla.Common.{
  ℕ, zero, suc, ◌+◌, ◌%◌, ◌≤◌, ◌<◌, ◌≡◌, refl, sym, ◌∙◌, Bool, true, ◌&&◌, none, some, List, [],
  ◌∷◌, ◌++◌, arith, ◌==◌, ltb, keys, length, All, all, range_from, ℕ_discrete, Bool-cases, and-true,
  true-of_and, lt→ltb, inl, inr, ok, ◌↔◌, dec_lt,
}
use verl_vla.Common.Counting.{count_below-gt, count_below-full, count_below-congr}
use verl_vla.Common.Sets.{
  member, member-append, member-keys, member-as_set, All-of_member, length-as_set,
}
use verl_vla.Collection.Spec.{CollectionWindowSpec}
use verl_vla.Collection.Window.{Window, candidate_complete}
use verl_vla.Collection.Close.{
  completed_count, completed_ids, is_initial_range, budget_exhausted, completed_round, may_close,
  closing_of, close_if_ready,
}
use verl_vla.Collection.Invariant.{IsSound}

all-range :
    (p : ℕ → Bool) (start n : ℕ)
    → all p (range_from start n) ≡ true
    → (j : ℕ) → start ≤ j
    → j < start + n
    → p j ≡ true
all-range p start zero h j l u = absurd (omega arith)
all-range p start (suc n) h j l u = elim (ℕ_discrete start j) [
  | yes same ↦ rw (← same) (ground arith)
  | no other ↦ all-range p (suc start) n (ground arith) j (omega arith) (omega arith)
]

pub range-all :
    (p : ℕ → Bool) (start n : ℕ)
    → ((j : ℕ) → start ≤ j → j < start + n → p j ≡ true)
    → all p (range_from start n) ≡ true
range-all p start zero h = refl
range-all p start (suc n) h =
    rw (h start (omega arith) (omega arith))
      (range-all p (suc start) n (λ j l u. h j (omega arith) (omega arith)))

all-of_All : (p : ℕ → Bool) (xs : List ℕ) → All (λ x. p x ≡ true) xs → all p xs ≡ true
all-of_All p [] h = refl
all-of_All p (x ∷ xs) h = rw (h.0) (all-of_All p xs h.1)

module _ {B : Type 0} (len : B → ℕ) (spec : CollectionWindowSpec) {w : Window B}
    (s : IsSound len spec w) where
  abbrev limit : ℕ
  limit = spec.max_candidate_groups

  ids_complete : (j : ℕ) → member j (completed_ids w) ≡ candidate_complete w j
  ids_complete j = ground (
    arith,
    member-as_set j (keys w.accepted ++ (keys w.rejected ++ keys w.skipped)),
    member-append j (keys w.accepted) (keys w.rejected ++ keys w.skipped),
    member-append j (keys w.rejected) (keys w.skipped),
    member-keys j w.accepted,
    member-keys j w.rejected,
    member-keys j w.skipped,
  )

  raw_complete :
      (j : ℕ)
      → member j (keys w.accepted ++ (keys w.rejected ++ keys w.skipped)) ≡ candidate_complete w j
  raw_complete j =
      sym (member-as_set j (keys w.accepted ++ (keys w.rejected ++ keys w.skipped)))
      ∙ ids_complete j

  length-ids : length (completed_ids w) ≡ completed_count w
  length-ids =
      length-as_set limit (keys w.accepted ++ (keys w.rejected ++ keys w.skipped))
        (All-of_member (λ j. j < limit) _ (λ j e. s.in_budget j (sym (raw_complete j) ∙ e)))
      ∙ count_below-congr limit (candidate_complete w) _ (λ j lt. raw_complete j)
      ∙ sym s.counted

  below :
      ((j : ℕ) → j < completed_count w → candidate_complete w j ≡ true)
      → (y : ℕ) → candidate_complete w y ≡ true
      → y < completed_count w
  below h y done = elim (dec_lt y (completed_count w)) [
    | yes lt ↦ lt
    | no ge ↦
        let more =
          count_below-gt limit (completed_count w) y (candidate_complete w) h (omega arith)
            (s.in_budget y done) done in
        absurd (omega (arith, s.counted))
  ]

  -- The set of completed ids is `set(range(n))` exactly when the first `n` candidates are complete.
  initial_range-of_complete :
      ((j : ℕ) → j < completed_count w → candidate_complete w j ≡ true)
      → is_initial_range (completed_ids w) ≡ true
  initial_range-of_complete h =
      and-true _ _
        (range-all (λ i. member i (completed_ids w)) 0 (length (completed_ids w))
          (λ j l u. ids_complete j ∙ h j (omega (arith, length-ids))))
        (all-of_All (λ y. ltb y (length (completed_ids w))) (completed_ids w)
          (All-of_member (λ y. ltb y (length (completed_ids w)) ≡ true) (completed_ids w)
            (λ y e. lt→ltb y _ (rw length-ids (below h y (sym (ids_complete y) ∙ e))))))

  complete-of_initial_range :
      is_initial_range (completed_ids w) ≡ true
      → (j : ℕ) → j < completed_count w
      → candidate_complete w j ≡ true
  complete-of_initial_range h j lt =
      sym (ids_complete j)
      ∙ all-range (λ i. member i (completed_ids w)) 0 (length (completed_ids w))
          (true-of_and _ _ h).0 j (omega arith) (omega (arith, length-ids))

  abbrev pub IsRound : Type 0
  IsRound =
      (0 < completed_count w)
      × (completed_count w % spec.candidate_round_size ≡ 0)
      × ((j : ℕ) → j < completed_count w → candidate_complete w j ≡ true)

  -- In a sound window the test of `close_if_ready` on the completed ids holds exactly when some
  -- candidates are complete, they fill whole rounds, and they are the first ones without a gap.
  pub completed_round_iff : (completed_round spec w ≡ true) ↔ IsRound
  unfolding completed_round
  completed_round_iff = (
    λ h.
        let some_ = true-of_and (ltb 0 (length (completed_ids w)) && whole) _ h in
        let parts = true-of_and (ltb 0 (length (completed_ids w))) whole some_.0 in
        (
          ground (arith, parts.0, length-ids),
          ground (arith, parts.1, length-ids),
          complete-of_initial_range some_.1,
        ),
    λ h. and-true _ _ (ground (arith, h.0, h.1, length-ids)) (initial_range-of_complete h.2),
  )
    where
      whole : Bool
      whole = length (completed_ids w) % spec.candidate_round_size == 0

  -- The whole budget is spent when every candidate of it is complete.
  spent : ((j : ℕ) → j < limit → candidate_complete w j ≡ true) → completed_count w ≡ limit
  spent h = s.counted ∙ count_below-full limit (candidate_complete w) h

  exhausted : ((j : ℕ) → j < limit → candidate_complete w j ≡ true) → budget_exhausted spec w ≡ true
  exhausted h = ground (arith, spent h)

  last_round :
      0 < limit
      → limit % spec.candidate_round_size ≡ 0
      → ((j : ℕ) → j < limit → candidate_complete w j ≡ true)
      → completed_round spec w ≡ true
  last_round pos rounds h =
      let e = spent h in
      completed_round_iff.1 (omega (arith, e), rw e rounds, λ j lt. h j (omega (arith, e)))

  may_close-spent :
      0 < limit
      → (spec.complete_round_after_target ≡ true → limit % spec.candidate_round_size ≡ 0)
      → ((j : ℕ) → j < limit → candidate_complete w j ≡ true)
      → may_close spec w ≡ true
  unfolding may_close
  may_close-spent pos rounds h = elim (Bool-cases spec.drain_candidate_budget) [
    | inl drain ↦ rw drain (exhausted h)
    | inr stop ↦ elim (Bool-cases spec.complete_round_after_target) [
      | inl round ↦
          rw (stop, round)
            (and-true _ _ (last_round pos (rounds round) h) (ground (arith, exhausted h)))
      | inr at_once ↦ rw (stop, at_once) (ground (arith, exhausted h))
    ]
  ]

  -- A sound open window in which every candidate of the budget is complete closes, in each of the
  -- three closing modes; in the round mode the budget must be whole rounds, as the spec's validation
  -- has it.
  pub close_if_ready-total :
      (now : ℕ)
      → w.closed ≡ none
      → 0 < limit
      → (spec.complete_round_after_target ≡ true → limit % spec.candidate_round_size ≡ 0)
      → ((j : ℕ) → j < limit → candidate_complete w j ≡ true)
      → (close_if_ready spec now w).0 ≡ ok (some (closing_of spec w now))
  unfolding close_if_ready
  close_if_ready-total now open_ pos rounds h = rw (open_, may_close-spent pos rounds h)
