-- ===== src/Replay/Sound.antt =====
-- What `add_batch` (utils/replay_pool.py) keeps true of a replay pool.
use verl_vla.Common.{
  ℕ, ◌+◌, ◌<◌, ◌≡◌, refl, String, Bool, true, false, ◌&&◌, not, List, [], ◌∷◌, length,
  length-replicate, ◌==◌, arith, ok, All, Bool-cases, inl, inr, is_some,
}
use verl_vla.Replay.Ring.{IsRing, insert_block-IsRing}
use verl_vla.Replay.Pool.{
  Row, TaskPool, ReplayPool, keep, zip, same_task, distinct_tasks, new_ring, new_task_pool, rows_of,
  insert_rows_of, update_task, insert_tasks, total_positive, total_negative, is_valid_row,
  mark_rows, tasks_in, add_valid, add_batch,
}

same_test : (a b : ℕ) → a ≡ b → (a == b) ≡ true
same_test a b e = ground arith

module _ {D : Type 0} (blank : D) where
  -- A stored row of the given sign is valid and has that sign.
  abbrev pub IsStored : Bool → Row D → Type 0
  IsStored sign r = (r.valid ≡ true) × (r.success ≡ sign)

  abbrev pub IsTaskPool : ℕ → String × TaskPool D → Type 0
  IsTaskPool capacity e =
      IsRing (IsStored true) capacity e.1.positive × IsRing (IsStored false) capacity e.1.negative

  -- Every ring is well formed and holds only valid rows of its sign, and the totals are those of the
  -- task pools.
  pub record IsPool (s : ReplayPool D) : Type 0 where
    pub rings : All (IsTaskPool s.single_pool_capacity) s.task_pools
    pub positives : s.positive_size ≡ total_positive blank s.task_pools
    pub negatives : s.negative_size ≡ total_negative blank s.task_pools
    pub whole : s.size ≡ s.positive_size + s.negative_size

  new_ring-IsRing :
      (P : Row D → Type 0) (capacity : ℕ)
      → 0 < capacity
      → IsRing P capacity (new_ring blank capacity)
  new_ring-IsRing P capacity pos = record {
    bound = omega arith;
    inside = pos;
    room = length-replicate capacity _;
    start = λ l. refl;
    live = λ i l. absurd (omega arith);
  }

  abbrev IsValid : List (Row D × String) → Type 0
  IsValid rows = All (λ e. e.0.valid ≡ true) rows

  rows_of-IsStored :
      (task : String) (sign : Bool) (rows : List (Row D × String))
      → IsValid rows
      → All (IsStored sign) (rows_of blank task sign rows)
  rows_of-IsStored task sign [] h = tt
  rows_of-IsStored task true ((r, t) ∷ more) h =
      let rest = rows_of-IsStored task true more h.1 in ground (arith, rest, h.0)
  rows_of-IsStored task false ((r, t) ∷ more) h =
      let rest = rows_of-IsStored task false more h.1 in ground (arith, rest, h.0)

  insert_rows_of-IsTaskPool :
      (capacity : ℕ) (only : Bool) (rows : List (Row D × String)) (task name : String)
      (p : TaskPool D)
      → IsValid rows
      → IsTaskPool capacity (name, p)
      → IsTaskPool capacity (name, insert_rows_of blank capacity only rows task p)
  unfolding insert_rows_of
  insert_rows_of-IsTaskPool capacity true rows task name p v h = (
    insert_block-IsRing (IsStored true) capacity _ p.positive (rows_of-IsStored task true rows v)
        h.0,
    h.1,
  )
  insert_rows_of-IsTaskPool capacity false rows task name p v h = (
    insert_block-IsRing (IsStored true) capacity _ p.positive (rows_of-IsStored task true rows v)
        h.0,
    insert_block-IsRing (IsStored false) capacity _ p.negative (rows_of-IsStored task false rows v)
        h.1,
  )

  update_task-All :
      (capacity : ℕ) (task : String) (f : TaskPool D → TaskPool D)
      (pools : List (String × TaskPool D))
      → 0 < capacity
      → ((name : String) (p : TaskPool D)
          → IsTaskPool capacity (name, p)
          → IsTaskPool capacity (name, f p))
      → All (IsTaskPool capacity) pools
      → All (IsTaskPool capacity) (update_task blank capacity task f pools)
  unfolding update_task
  update_task-All capacity task f [] pos k h = (
    k task (new_task_pool blank capacity) (
      new_ring-IsRing (IsStored true) capacity pos,
      new_ring-IsRing (IsStored false) capacity pos,
    ),
    tt,
  )
  update_task-All capacity task f ((t, p) ∷ pools) pos k h = elim (Bool-cases (same_task t task)) [
    | inl same ↦ rw same (k t p h.0, h.1)
    | inr other ↦ rw other (h.0, update_task-All capacity task f pools pos k h.1)
  ]

  insert_tasks-All :
      (capacity : ℕ) (only : Bool) (rows : List (Row D × String)) (tasks : List String)
      (pools : List (String × TaskPool D))
      → 0 < capacity
      → IsValid rows
      → All (IsTaskPool capacity) pools
      → All (IsTaskPool capacity) (insert_tasks blank capacity only rows tasks pools)
  unfolding insert_tasks
  insert_tasks-All capacity only rows [] pools pos v h = h
  insert_tasks-All capacity only rows (t ∷ tasks) pools pos v h =
      insert_tasks-All capacity only rows tasks _ pos v (
        update_task-All capacity t (insert_rows_of blank capacity only rows t) pools pos
          (λ name p. insert_rows_of-IsTaskPool capacity only rows t name p v) h)

  keep-IsValid : (rows : List (Row D × String)) → IsValid (keep (is_valid_row blank) rows)
  keep-IsValid [] = tt
  keep-IsValid ((r, t) ∷ rows) = let rest = keep-IsValid rows in ground (arith, rest)

  mark_rows-IsValid :
      (only : Bool) (rows : List (Row D × String))
      → IsValid rows
      → IsValid (mark_rows blank only rows)
  mark_rows-IsValid only [] h = tt
  mark_rows-IsValid true ((r, t) ∷ rows) h = (h.0, mark_rows-IsValid true rows h.1)
  mark_rows-IsValid false ((r, t) ∷ rows) h = (h.0, mark_rows-IsValid false rows h.1)

  add_valid-IsPool :
      (rows : List (Row D × String)) (s : ReplayPool D)
      → 0 < s.single_pool_capacity
      → IsValid rows
      → IsPool s
      → IsPool (add_valid blank rows s)
  unfolding add_valid
  add_valid-IsPool rows s pos v h = record {
    rings =
        insert_tasks-All s.single_pool_capacity s.positive_only
          (mark_rows blank s.positive_only rows)
          (distinct_tasks (tasks_in blank (mark_rows blank s.positive_only rows))) s.task_pools pos
          (mark_rows-IsValid s.positive_only rows v) h.rings;
    positives = refl;
    negatives = refl;
    whole = refl;
  }

  -- A batch with a task id for each row is never refused, and leaves every ring well formed, with
  -- valid rows only, successes in the positive rings and failures in the negative ones, and the
  -- totals equal to the sums over the task pools.
  pub add_batch-IsPool :
      (batch : List (Row D)) (task_ids : List String) (s : ReplayPool D)
      → 0 < s.single_pool_capacity
      → length task_ids ≡ length batch
      → IsPool s
      → (next : ReplayPool D) × (add_batch blank batch task_ids s ≡ ok next) × IsPool next
  unfolding add_batch
  add_batch-IsPool batch task_ids s pos ids h =
      let rows = keep (is_valid_row blank) (zip batch task_ids) in
      elim (Bool-cases (length batch == 0)) [
        | inl nothing ↦ rw nothing (s, refl, h)
        | inr some_rows ↦
            rw (some_rows, same_test (length task_ids) (length batch) ids)
              (elim (Bool-cases (length rows == 0)) [
                | inl invalid ↦
                    rw invalid (elim (Bool-cases (s.size == 0 && not (is_some s.invalid_sample))) [
                      | inl first ↦ rw first (
                        _,
                        refl,
                        record {
                          rings = h.rings;
                          positives = h.positives;
                          negatives = h.negatives;
                          whole = h.whole;
                        },
                      )
                      | inr later ↦ rw later (s, refl, h)
                    ])
                | inr valid ↦
                    rw valid
                      (_, refl, add_valid-IsPool rows s pos (keep-IsValid (zip batch task_ids)) h)
              ])
      ]
