-- ===== src/Collection/Assigned.antt =====
-- The assignments that `candidate_assignment` (trainer/grfpo/collection_store.py) makes.
use native.Mathlib.Nat.{mod-lt, div-lt_iff_lt-mul, mul-pos}
use verl_vla.Common.{
  ℕ, zero, suc, ◌*◌, ◌/◌, ◌%◌, ◌<◌, ◌≡◌, refl, ap, String, true, false, List, [], ◌∷◌, some, length,
  get_elem?, arith, Result, ok, lt→ltb, range_from, All, subst, Option-cases, inl, inr, ◌+◌, ◌∙◌,
  Option, none,
}
use verl_vla.Common.Sets.{member}
use verl_vla.Collection.Spec.{CollectionWindowSpec, is_empty}
use verl_vla.Collection.Leases.{has_duplicates}
use verl_vla.Collection.Window.{Assignment}
use verl_vla.Collection.Lanes.{lane_of_index}
use verl_vla.Collection.Schedule.{
  ScheduleError, Layouts, condition_slot, task_slot, suite_slot, layout_slot, is_bad_pool,
  policy_seeds, candidate_assignment, with_condition, with_pool, with_layout, condition_count,
  slot_of,
}

All-of_get {ℓ κ} :
    {A : Type ℓ} (P : A → Type κ) (xs : List A) (i : ℕ) (a : A)
    → get_elem? xs i ≡ some a
    → All P xs
    → P a
All-of_get P [] i a e h = cc
All-of_get P (x ∷ xs) zero a e h = let same : x ≡ a = cc in subst P same h.0
All-of_get P (x ∷ xs) (suc i) a e h = All-of_get P xs i a e h.1

get_elem?-total {ℓ} :
    {A : Type ℓ} (xs : List A) (i : ℕ) → i < length xs → (a : A) × (get_elem? xs i ≡ some a)
get_elem?-total [] i l = elim l [ ]
get_elem?-total (x ∷ xs) zero l = (x, refl)
get_elem?-total (x ∷ xs) (suc i) l = get_elem?-total xs i (omega arith)

member-of_get : (xs : List ℕ) (i a : ℕ) → get_elem? xs i ≡ some a → member a xs ≡ true
member-of_get [] i a e = cc
member-of_get (x ∷ xs) zero a e = ground arith
member-of_get (x ∷ xs) (suc i) a e = ground (arith, member-of_get xs i a e)

length-range : (start n : ℕ) → length (range_from start n) ≡ n
length-range start zero = refl
length-range start (suc n) = ap suc (length-range (suc start) n)

length-pos {ℓ} : {A : Type ℓ} (xs : List A) → is_empty xs ≡ false → 0 < length xs
length-pos [] e = cc
length-pos (x ∷ xs) e = omega arith

module _ (digest : List ℕ → ℕ) (spec : CollectionWindowSpec) (task_names : List String)
    (suite_ids : List ℕ) (layouts : Layouts) (run_seed index : ℕ) where
  -- A task and suite have a pool of layouts, not empty and without repetition.
  abbrev pub HasPool : String → ℕ → Type 0
  HasPool task_name suite =
      (pool : List ℕ) × (layouts task_name suite ≡ some pool) × (is_bad_pool (some pool) ≡ false)

  -- Every scheduled task and suite do.
  abbrev pub HasPools : Type 0
  HasPools = All (λ task_name. All (HasPool task_name) suite_ids) task_names

  -- The assignment is for the index, its task is the one at its task number, its suite and layout are
  -- predeclared ones, and it has a policy seed for each trajectory of the group.
  pub record IsAssigned (a : Assignment) : Type 0 where
    pub index_ : a.candidate_index ≡ index
    pub task : get_elem? task_names a.task_id ≡ some a.task_name
    pub suite : member a.suite_id suite_ids ≡ true
    pub pool : List ℕ
    pub predeclared : layouts a.task_name a.suite_id ≡ some pool
    pub layout : member a.layout_id pool ≡ true
    pub seeds : length a.policy_seeds ≡ spec.group_size

  -- The result of a step is an assignment for the index.
  abbrev pub Answers : Result ScheduleError Assignment → Type 0
  Answers r = (a : Assignment) × (r ≡ ok a) × IsAssigned a

  with_pool-ok :
      (task_name : String) (suite : ℕ) (pool : List ℕ)
      → get_elem? task_names (
          task_slot
            (length suite_ids)
            (slot_of digest spec task_names suite_ids layouts run_seed index))
        ≡ some task_name
      → member suite suite_ids ≡ true
      → layouts task_name suite ≡ some pool
      → is_bad_pool (some pool) ≡ false
      → Answers (
          with_pool digest spec task_names suite_ids layouts run_seed index task_name suite
            (some pool))
  unfolding with_pool with_layout layout_slot policy_seeds
  with_pool-ok task_name suite pool at_ suite_in declared good =
      let found =
        get_elem?-total pool
          (layout_slot
            (index / condition_count digest spec task_names suite_ids layouts run_seed index)
            (slot_of digest spec task_names suite_ids layouts run_seed index) spec.intended_update
            (length pool))
          (mod-lt _ (length-pos pool (ground (arith, good)))) in
      rw (good, found.1)
        (
          _,
          refl,
          record {
            index_ = refl;
            task = at_;
            suite = suite_in;
            pool = pool;
            predeclared = declared;
            layout = member-of_get pool _ found.0 found.1;
            seeds = length-range _ spec.group_size;
          },
        )

  -- With some tasks, some suites without repetition, and a pool of layouts, not empty and without
  -- repetition, for every scheduled task and suite, every index of the candidate budget has an assignment; it is for that index,
  -- its task is the one at its task number, its suite and layout are predeclared ones, and it has a
  -- policy seed for each trajectory of the group.
  pub candidate_assignment-ok :
      index < spec.max_candidate_groups
      → is_empty task_names ≡ false
      → is_empty suite_ids ≡ false
      → has_duplicates suite_ids ≡ false
      → HasPools
      → Answers (candidate_assignment digest spec task_names suite_ids layouts run_seed index)
  unfolding candidate_assignment with_condition
  candidate_assignment-ok inside tasks suites unique pools =
      let some_tasks = length-pos task_names tasks in
      let some_suites = length-pos suite_ids suites in
      let slot = index % (length task_names * length suite_ids) in
      let (task_name, at_) =
        get_elem?-total task_names (slot / length suite_ids)
          ((div-lt_iff_lt-mul some_suites).1 (mod-lt index (mul-pos some_tasks some_suites))) in
      let (suite, suite_at) =
        get_elem?-total suite_ids (slot % length suite_ids) (mod-lt slot some_suites) in
      let (pool, declared, good) =
        All-of_get (HasPool task_name) suite_ids (slot % length suite_ids) suite suite_at (
          All-of_get (λ t. All (HasPool t) suite_ids) task_names (slot / length suite_ids) task_name
            at_ pools) in
      rw
        (
          lt→ltb index spec.max_candidate_groups inside,
          tasks,
          suites,
          unique,
          at_,
          suite_at,
          declared,
        )
        (with_pool-ok task_name suite pool at_
          (member-of_get suite_ids (slot % length suite_ids) suite suite_at) declared good)

module _ (digest : List ℕ → ℕ) (spec : CollectionWindowSpec) (task_names : List String)
    (suite_ids : List ℕ) (layouts : Layouts) (run_seed index : ℕ) where
  abbrev the_slot : ℕ
  the_slot = condition_slot (length task_names * length suite_ids) index

  abbrev attempt : ℕ
  attempt = index / (length task_names * length suite_ids)

  -- The assignment for a task and a suite takes the layout of its attempt from their pool.
  from_pool :
      (task_name : String) (suite : ℕ) (pool : List ℕ) (a : Assignment)
      → with_pool digest spec task_names suite_ids layouts run_seed index task_name suite
          (some pool)
        ≡ ok a
      → (a.task_id ≡ task_slot (length suite_ids) the_slot)
        × (task_name ≡ a.task_name)
        × (suite ≡ a.suite_id)
        × (get_elem? pool (layout_slot attempt the_slot spec.intended_update (length pool))
            ≡ some a.layout_id)
  unfolding with_pool with_layout
  from_pool task_name suite pool a e =
      elim (Option-cases
        (get_elem? pool (layout_slot attempt the_slot spec.intended_update (length pool)))) [
          | inl nothing ↦ absurd (ground (arith, e, nothing))
          | inr (layout, found) ↦ ground (arith, e, found)
        ]

  -- An assignment for the numbers of a task and a suite, and the layout of an attempt of their lane.
  abbrev IsMadeOf : ℕ → ℕ → ℕ → ℕ → Assignment → Type 0
  IsMadeOf task suite round slot a =
      (a.task_id ≡ task)
      × (get_elem? task_names task ≡ some a.task_name)
      × (get_elem? suite_ids suite ≡ some a.suite_id)
      × ((pool : List ℕ) × (layouts a.task_name a.suite_id ≡ some pool)
          × (get_elem? pool (layout_slot round slot spec.intended_update (length pool))
              ≡ some a.layout_id))

  abbrev IsMade : Assignment → Type 0
  IsMade a =
      IsMadeOf (task_slot (length suite_ids) the_slot) (suite_slot (length suite_ids) the_slot)
        attempt the_slot a

  with_condition-IsMade :
      (task : Option String) (suite : Option ℕ) (a : Assignment)
      → get_elem? task_names (task_slot (length suite_ids) the_slot) ≡ task
      → get_elem? suite_ids (suite_slot (length suite_ids) the_slot) ≡ suite
      → with_condition digest spec task_names suite_ids layouts run_seed index task suite ≡ ok a
      → IsMade a
  unfolding with_condition with_pool
  with_condition-IsMade none suite a t u e = absurd (ground (arith, e))
  with_condition-IsMade (some task) none a t u e = absurd (ground (arith, e))
  with_condition-IsMade (some task) (some suite) a t u e =
      elim (Option-cases (layouts task suite)) [
        | inl missing ↦ absurd (ground (arith, e, missing))
        | inr (pool, found) ↦
            let pooled = rw (with_condition, found) at e in
            let (id, same_task, same_suite, layout) = from_pool task suite pool a pooled in
            (
              id,
              t ∙ ap some same_task,
              u ∙ ap some same_suite,
              (pool, rw (← same_task, ← same_suite) found, layout),
            )
      ]

  assigned-IsMade :
      (a : Assignment)
      → candidate_assignment digest spec task_names suite_ids layouts run_seed index ≡ ok a
      → IsMade a
  unfolding candidate_assignment
  assigned-IsMade a e = with_condition-IsMade _ _ a refl refl (ground (arith, e))

-- Every block of as many candidates as there are conditions covers each condition once, in one order: where
-- the candidate at place `t * suites + u` of block `r` has an assignment, it is for the task number `t` and
-- the suite at place `u`, and has the layout of the attempt `r` at that place in their pool.
pub candidate_assignment-covers :
    (digest : List ℕ → ℕ) (spec : CollectionWindowSpec) (task_names : List String)
    (suite_ids : List ℕ) (layouts : Layouts) (run_seed r t u : ℕ) (a : Assignment)
    → t < length task_names
    → u < length suite_ids
    → candidate_assignment digest spec task_names suite_ids layouts run_seed
        (r * (length task_names * length suite_ids) + (t * length suite_ids + u))
      ≡ ok a
    → (a.task_id ≡ t)
      × (get_elem? task_names t ≡ some a.task_name)
      × (get_elem? suite_ids u ≡ some a.suite_id)
      × ((pool : List ℕ) × (layouts a.task_name a.suite_id ≡ some pool)
          × (get_elem? pool
                (layout_slot r (t * length suite_ids + u) spec.intended_update (length pool))
              ≡ some a.layout_id))
candidate_assignment-covers digest spec task_names suite_ids layouts run_seed r t u a lt lu e =
    let (task, suite, round, slot) =
      lane_of_index (length task_names) (length suite_ids) r t u lt lu in
    numbered task suite round slot
      (assigned-IsMade digest spec task_names suite_ids layouts run_seed _ a e)
  where
    numbered :
        {task task' suite suite' round round' slot slot' : ℕ}
        → task ≡ task'
        → suite ≡ suite'
        → round ≡ round'
        → slot ≡ slot'
        → IsMadeOf digest spec task_names suite_ids layouts run_seed r task suite round slot a
        → IsMadeOf digest spec task_names suite_ids layouts run_seed r task' suite' round' slot' a
    numbered p q v w made = rw (← p, ← q, ← v, ← w) made
