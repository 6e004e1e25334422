-- ===== src/Replay/Pool.antt =====
-- The state of `SACReplayPool` and `add_batch` (utils/replay_pool.py). A row of a batch has its validity
-- and success flags and its other tensors; task ids are the texts that `_normalize_task_id` gives.
use verl_vla.Common.{
  ℕ, ◌+◌, String, Bool, true, false, ◌&&◌, not, List, [], ◌∷◌, Option, none, some, length,
  replicate, ◌==◌, if◌then◌else◌, Result, ok, err, is_yes, string_discrete, is_some,
}
use verl_vla.Replay.Ring.{Ring, insert_block}
use verl_vla.Replay.Allocation.{ReplayError, task_ids_mismatch}

pub record Row (D : Type 0) : Type 0 where
  pub valid : Bool
  pub success : Bool
  pub tensors : D

-- `_DualPoolState`
pub record TaskPool (D : Type 0) : Type 0 where
  pub positive : Ring (Row D)
  pub negative : Ring (Row D)

pub record ReplayPool (D : Type 0) : Type 0 where
  pub single_pool_capacity : ℕ
  pub positive_only : Bool
  pub task_pools : List (String × TaskPool D)
  pub size : ℕ
  pub positive_size : ℕ
  pub negative_size : ℕ
  pub invalid_sample : Option (Row D)

abbrev pub keep {ℓ} : {A : Type ℓ} → (A → Bool) → List A → List A
keep p [] = []
keep p (x ∷ xs) = let rest = keep p xs in if p x then x ∷ rest else rest

abbrev pub zip : {A B : Type 0} → List A → List B → List (A × B)
zip (x ∷ xs) (y ∷ ys) = (x, y) ∷ zip xs ys
zip _ _ = []

abbrev pub same_task : String → String → Bool
same_task a b = is_yes (string_discrete a b)

-- The tasks of the rows, each once, in the order in which they first appear.
unfoldable pub distinct_tasks : List String → List String
distinct_tasks [] = []
distinct_tasks (t ∷ tasks) = t ∷ keep (λ u. not (same_task u t)) (distinct_tasks tasks)

module _ {D : Type 0} (blank : D) where
  abbrev pub blank_row : Row D
  blank_row = record { valid = false; success = false; tensors = blank }

  -- The zeroed storage of `_get_or_create_task_pool`.
  abbrev pub new_ring : ℕ → Ring (Row D)
  new_ring capacity = record { slots = replicate capacity blank_row; size = 0; position = 0 }

  abbrev pub new_task_pool : ℕ → TaskPool D
  new_task_pool capacity = record { positive = new_ring capacity; negative = new_ring capacity }

  -- The rows of one task, with a sign.
  abbrev pub rows_of : String → Bool → List (Row D × String) → List (Row D)
  rows_of task sign [] = []
  rows_of task sign ((r, t) ∷ more) =
      let rest = rows_of task sign more in
      if same_task t task && (if sign then r.success else not r.success) then r ∷ rest else rest

  -- The insertions for one task; a positive-only pool has no negative storage.
  unfoldable pub insert_rows_of :
      ℕ → Bool → List (Row D × String) → String → TaskPool D → TaskPool D
  unfolding insert_block
  insert_rows_of capacity positive_only rows task p = record {
    positive = insert_block capacity (rows_of task true rows) p.positive;
    negative =
        if positive_only
        then p.negative
        else insert_block capacity (rows_of task false rows) p.negative;
  }

  -- The pool of a task is created when it is first needed.
  unfoldable pub update_task :
      ℕ
      → String
      → (TaskPool D → TaskPool D)
      → List (String × TaskPool D)
      → List (String × TaskPool D)
  update_task capacity task f [] = (task, f (new_task_pool capacity)) ∷ []
  update_task capacity task f ((t, p) ∷ pools) =
      let rest = update_task capacity task f pools in
      if same_task t task then (t, f p) ∷ pools else (t, p) ∷ rest

  unfoldable pub insert_tasks :
      ℕ
      → Bool
      → List (Row D × String)
      → List String
      → List (String × TaskPool D)
      → List (String × TaskPool D)
  unfolding insert_rows_of update_task
  insert_tasks capacity positive_only rows [] pools = pools
  insert_tasks capacity positive_only rows (t ∷ tasks) pools =
      insert_tasks capacity positive_only rows tasks
        (update_task capacity t (insert_rows_of capacity positive_only rows t) pools)

  abbrev pub total_positive : List (String × TaskPool D) → ℕ
  total_positive [] = 0
  total_positive ((t, p) ∷ pools) = p.positive.size + total_positive pools

  abbrev pub total_negative : List (String × TaskPool D) → ℕ
  total_negative [] = 0
  total_negative ((t, p) ∷ pools) = p.negative.size + total_negative pools

  -- `_refresh_global_stats`
  abbrev pub refresh_global_stats : ReplayPool D → ReplayPool D
  refresh_global_stats s = record s {
    positive_size = total_positive s.task_pools;
    negative_size = total_negative s.task_pools;
    size = total_positive s.task_pools + total_negative s.task_pools;
  }

  abbrev pub is_valid_row : Row D × String → Bool
  is_valid_row e = e.0.valid

  -- A positive-only pool counts every valid row as a success.
  abbrev pub mark_rows : Bool → List (Row D × String) → List (Row D × String)
  mark_rows positive_only [] = []
  mark_rows positive_only ((r, t) ∷ more) =
      (if positive_only then record r { success = true } else r, t) ∷ mark_rows positive_only more

  abbrev pub tasks_in : List (Row D × String) → List String
  tasks_in [] = []
  tasks_in ((r, t) ∷ more) = t ∷ tasks_in more

  abbrev pub first_row : List (Row D) → Option (Row D)
  first_row [] = none
  first_row (r ∷ rows) = some r

  -- The rows that are left when the invalid ones are dropped.
  unfoldable pub add_valid : List (Row D × String) → ReplayPool D → ReplayPool D
  unfolding insert_tasks distinct_tasks
  add_valid rows s =
      let marked = mark_rows s.positive_only rows in
      refresh_global_stats (record s {
        task_pools =
            insert_tasks s.single_pool_capacity s.positive_only marked
              (distinct_tasks (tasks_in marked)) s.task_pools;
      })

  -- `add_batch`
  unfoldable pub add_batch :
      List (Row D) → List String → ReplayPool D → Result ReplayError (ReplayPool D)
  unfolding add_valid
  add_batch batch task_ids s =
      let rows = keep is_valid_row (zip batch task_ids) in
      if length batch == 0
      then ok s
      else if not (length task_ids == length batch)
      then err task_ids_mismatch
      else if length rows == 0
      then if s.size == 0 && not (is_some s.invalid_sample)
        then ok (record s { invalid_sample = first_row batch })
        else ok s
      else ok (add_valid rows s)
