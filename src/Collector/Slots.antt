-- ===== src/Collector/Slots.antt =====
-- The lanes of the schedule (`_collector_assignments`, workflows/grfpo_fragmented_collection.py).
use verl_vla.Common.{
  ℕ, ◌*◌, ◌/◌, ◌%◌, ◌≡◌, refl, ap, ◌∙◌, String, true, some, List, [], ◌∷◌, map, arith, length,
  get_elem?, range_from, All, Result, ok, err, ◌==◌, if◌then◌else◌, Result-cases, Bool-cases, inl,
  inr, subst, all, and-true,
}
use verl_vla.Collection.Spec.{CollectionWindowSpec}
use verl_vla.Collection.Schedule.{
  Layouts, candidate_assignment, with_condition, with_pool, with_layout,
}
use verl_vla.Collection.Window.{Assignment}
use verl_vla.Collector.World.{Failure}
use verl_vla.Collector.Lanes.{
  CollectorConfig, ConditionManifest, candidate_schedule, collector_assignments, assign_all, lane,
  assignment_at, training_layouts,
}
use verl_vla.Collector.Queue.{condition, same_key}
use verl_vla.Collector.Run.{one_condition}

-- The indices below the budget that belong to a slot.
unfoldable pub slot_indices : ℕ → ℕ → List ℕ → List ℕ
slot_indices count slot [] = []
slot_indices count slot (i ∷ more) =
    let rest = slot_indices count slot more in if i % count == slot then i ∷ rest else rest

module _ (digest : List ℕ → ℕ) (spec : CollectionWindowSpec) (task_names : List String)
    (config : CollectorConfig) (layouts : Layouts) where
  -- An assignment is for the task and the suite at the place of its index among the conditions.
  abbrev pub IsPlaced : Assignment → Type 0
  IsPlaced a =
      let suites = config.collection.suite_ids in
      let slot = a.candidate_index % (length task_names * length suites) in
      (get_elem? task_names (slot / length suites) ≡ some a.task_name)
      × (get_elem? suites (slot % length suites) ≡ some a.suite_id)

  assignment_at-IsPlaced :
      (index : ℕ) (a : Assignment)
      → assignment_at digest spec task_names config layouts index ≡ ok a
      → (a.candidate_index ≡ index) × IsPlaced a
  unfolding assignment_at candidate_assignment with_condition with_pool with_layout
  assignment_at-IsPlaced index a e = ground (arith, e)

  -- What a schedule for the indices must be.
  abbrev Schedules : List ℕ → Result Failure (List Assignment) → Type 0
  Schedules indices (err e) = Unit
  Schedules indices (ok xs) = (map (λ a. a.candidate_index) xs ≡ indices) × All IsPlaced xs

  assign_all-Schedules :
      (indices : List ℕ)
      → Schedules indices (assign_all digest spec task_names config layouts indices)
  unfolding assign_all
  assign_all-Schedules [] = (refl, tt)
  assign_all-Schedules (i ∷ more) =
      elim (Result-cases (assignment_at digest spec task_names config layouts i)) [
        | inr (e, q) ↦ rw (assign_all, q) tt
        | inl (a, q) ↦ elim (Result-cases (assign_all digest spec task_names config layouts more)) [
          | inr (e, q') ↦ rw (assign_all, q, q') tt
          | inl (xs, q') ↦
              let (same, placed) = assignment_at-IsPlaced i a q in
              let (rest, all_placed) = subst (Schedules more) q' (assign_all-Schedules more) in
              rw (assign_all, q, q') (ground (arith, same, rest, placed, all_placed))
        ]
      ]

lane-slot_indices :
    (count slot : ℕ) (xs : List Assignment)
    → map (λ a. a.candidate_index) (lane count slot xs)
      ≡ slot_indices count slot (map (λ a. a.candidate_index) xs)
unfolding lane slot_indices
lane-slot_indices count slot [] = refl
lane-slot_indices count slot (a ∷ xs) = ground (arith, lane-slot_indices count slot xs)

-- The task and the suite of a slot.
abbrev pub IsAt : List String → List ℕ → ℕ → Assignment → Type 0
IsAt task_names suites slot a =
    (get_elem? task_names (slot / length suites) ≡ some a.task_name)
    × (get_elem? suites (slot % length suites) ≡ some a.suite_id)

lane-IsAt :
    (task_names : List String) (suites : List ℕ) (count slot : ℕ) (xs : List Assignment)
    → All (λ a. IsAt task_names suites (a.candidate_index % count) a) xs
    → All (IsAt task_names suites slot) (lane count slot xs)
unfolding lane
lane-IsAt task_names suites count slot [] h = tt
lane-IsAt task_names suites count slot (a ∷ xs) h =
    elim (Bool-cases (a.candidate_index % count == slot)) [
      | inr other ↦ rw other (lane-IsAt task_names suites count slot xs h.1)
      | inl mine ↦
          let same : a.candidate_index % count ≡ slot = ground (arith, mine) in
          rw mine (
            subst (λ k. IsAt task_names suites k a) same h.0,
            lane-IsAt task_names suites count slot xs h.1,
          )
    ]

same_place :
    (task_names : List String) (suites : List ℕ) (slot : ℕ) (a b : Assignment)
    → IsAt task_names suites slot a
    → IsAt task_names suites slot b
    → same_key (condition b) (condition a) ≡ true
same_place task_names suites slot a b (t, s) (u, v) = ground (arith, t, s, u, v)

IsAt-one_condition :
    (task_names : List String) (suites : List ℕ) (slot : ℕ) (xs : List Assignment)
    → All (IsAt task_names suites slot) xs
    → one_condition xs ≡ true
IsAt-one_condition task_names suites slot [] h = refl
IsAt-one_condition task_names suites slot (a ∷ xs) h = same_rest xs h.1
  where
    same_rest :
        (ys : List Assignment)
        → All (IsAt task_names suites slot) ys
        → all (λ y. same_key (condition y) (condition a)) ys ≡ true
    same_rest [] h' = refl
    same_rest (y ∷ ys) h' =
        and-true _ _ (same_place task_names suites slot a y h.0 h'.0) (same_rest ys h'.1)

-- A lane of the legacy collector: where its assignments can be made, they are for just those
-- candidates of the budget whose index leaves the slot as its remainder by the number of collectors, in
-- their order, and all of them are for the one task and suite at the place of the slot; so the
-- collector never refuses its own lane for mixing conditions.
pub collector_assignments-lane :
    (digest : List ℕ → ℕ) (spec : CollectionWindowSpec) (task_names : List String)
    (config : CollectorConfig) (m : ConditionManifest) (xs : List Assignment)
    → collector_assignments digest spec task_names config m ≡ ok xs
    → (map (λ a. a.candidate_index) xs
        ≡ slot_indices config.collection.collector_count config.collector_slot
            (range_from 0 spec.max_candidate_groups))
      × All (IsAt task_names config.collection.suite_ids config.collector_slot) xs
      × (one_condition xs ≡ true)
unfolding collector_assignments candidate_schedule
collector_assignments-lane digest spec task_names config m xs e =
    let layouts = training_layouts m task_names config.collection.suite_ids in
    let indices = range_from 0 spec.max_candidate_groups in
    elim (Result-cases (assign_all digest spec task_names config layouts indices)) [
      | inr (f, q) ↦ ground (arith, e, q)
      | inl (schedule, q) ↦
          let count = config.collection.collector_count in
          let suites = config.collection.suite_ids in
          let same_count : length task_names * length suites ≡ count = ground (arith, e) in
          let is_lane : lane count config.collector_slot schedule ≡ xs = ground (arith, e, q) in
          let (listed, placed) =
            subst (Schedules digest spec task_names config layouts indices) q
              (assign_all-Schedules digest spec task_names config layouts indices) in
          let all_at = lane-IsAt task_names suites count config.collector_slot schedule (
            subst (λ n. All (λ a. IsAt task_names suites (a.candidate_index % n) a) schedule)
              same_count placed) in
          rw (← is_lane) (
            lane-slot_indices count config.collector_slot schedule
                ∙ ap (slot_indices count config.collector_slot) listed,
            all_at,
            IsAt-one_condition task_names suites config.collector_slot _ all_at,
          )
    ]
