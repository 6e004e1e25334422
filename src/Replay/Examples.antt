-- ===== src/Replay/Examples.antt =====
-- A small replay pool (utils/replay_pool.py): capacity two, and rows of one number.
use verl_vla.Common.{
  ℕ, zero, suc, ◌<◌, ◌≤◌, ◌≡◌, refl, String, true, false, none, List, [], ◌∷◌, map, arith, ok, take,
  min, All, Result, err, ap, sym, subst, string_discrete,
}
use verl_vla.Replay.Ring.{Ring, IsRing, insert_block, Holds, write_rows, set_at}
use verl_vla.Replay.Fifo.{insert_block-push_all}
use verl_vla.Replay.Queue.{arrivals, push_all}
use verl_vla.Replay.Allocation.{
  ReplayError, Share, allocate, allocated, entry, IsFair, allocate-IsShared,
}
use verl_vla.Replay.Pool.{
  Row, ReplayPool, add_batch, add_valid, insert_tasks, update_task, insert_rows_of, distinct_tasks,
}
use verl_vla.Replay.Sound.{IsPool, add_batch-IsPool}
use verl_vla.Replay.Storage.{save, load, load-save}
use verl_vla.Replay.Counts.{sample_counts, IsCounts, sample_counts-IsCounts}

abbrev ring : Ring ℕ
ring = record { slots = 7 ∷ 0 ∷ []; size = 1; position = 1 }

abbrev IsPositive : ℕ → Type 0
IsPositive n = 1 ≤ n

ring-live : (i : ℕ) → i < 1 → Holds IsPositive (7 ∷ 0 ∷ []) i
ring-live zero l = (7, refl, omega arith)
ring-live (suc i) l = absurd (omega arith)

ring-IsRing : IsRing IsPositive 2 ring
ring-IsRing = record {
  bound = omega arith;
  inside = omega arith;
  room = refl;
  start = λ l. refl;
  live = ring-live;
}

insert_block-push_all_example :
    arrivals 2 (insert_block 2 (8 ∷ 9 ∷ []) ring)
    ≡ push_all 2 (arrivals 2 ring) (take (min 2 2) (8 ∷ 9 ∷ []))
insert_block-push_all_example = insert_block-push_all IsPositive 2 (8 ∷ 9 ∷ []) ring ring-IsRing

abbrev sizes : List (String × ℕ)
sizes = ("lift", 1) ∷ ("stack", 5) ∷ []

allocate-IsShared_example :
    (result : List Share) × (allocate sizes 4 ≡ ok result)
    × (allocated result ≡ 4)
    × (map entry result ≡ sizes)
    × ((k : ℕ) × All (IsFair k) result)
allocate-IsShared_example = allocate-IsShared sizes 4 (omega arith)

abbrev pool : ReplayPool ℕ
pool = record {
  single_pool_capacity = 2;
  positive_only = false;
  task_pools = [];
  size = 0;
  positive_size = 0;
  negative_size = 0;
  invalid_sample = none;
}

pool-IsPool : IsPool 0 pool
pool-IsPool = record { rings = tt; positives = refl; negatives = refl; whole = refl }

abbrev batch : List (Row ℕ)
batch =
    record { valid = true; success = true; tensors = 1 }
    ∷ record { valid = false; success = true; tensors = 2 }
    ∷ record { valid = true; success = false; tensors = 3 }
    ∷ []

add_batch-IsPool_example :
    (next : ReplayPool ℕ) × (add_batch 0 batch ("lift" ∷ "lift" ∷ "stack" ∷ []) pool ≡ ok next)
    × IsPool 0 next
add_batch-IsPool_example =
    add_batch-IsPool 0 batch ("lift" ∷ "lift" ∷ "stack" ∷ []) pool (omega arith) refl pool-IsPool

sample_counts-IsCounts_example : IsCounts 8 4 1 20 (sample_counts 8 4 1 20)
sample_counts-IsCounts_example = sample_counts-IsCounts 8 4 1 20 (omega arith)

abbrev other : ReplayPool ℕ
other = record pool { single_pool_capacity = 9 }

-- The pool after the batch: a success of one task and a failure of another.
abbrev pool_or : ReplayPool ℕ → Result ReplayError (ReplayPool ℕ) → ReplayPool ℕ
pool_or d (ok s) = s
pool_or d (err e) = d

abbrev filled : ReplayPool ℕ
filled = pool_or pool (add_batch 0 batch ("lift" ∷ "lift" ∷ "stack" ∷ []) pool)

filled-IsPool : IsPool 0 filled
filled-IsPool =
    let (next, same, good) = add_batch-IsPool_example in
    subst (IsPool 0) (ap (pool_or pool) (sym same)) good

filled-test :
    (map (λ t. t.0) filled.task_pools ≡ "lift" ∷ "stack" ∷ [])
    × (filled.positive_only ≡ false)
    × (filled.size ≡ 2)
    × (filled.positive_size ≡ 1)
unfolding add_batch add_valid insert_tasks update_task insert_rows_of distinct_tasks insert_block
    write_rows set_at string_discrete
filled-test = (refl, refl, refl, refl)

load-save_example :
    let loaded = load 0 (save 0 filled) other in
    (loaded.single_pool_capacity ≡ filled.single_pool_capacity)
    × (loaded.positive_only ≡ filled.positive_only)
    × (loaded.task_pools ≡ filled.task_pools)
    × (loaded.size ≡ filled.size)
    × (loaded.positive_size ≡ filled.positive_size)
    × (loaded.negative_size ≡ filled.negative_size)
    × (loaded.invalid_sample ≡ none)
load-save_example = load-save 0 filled other filled-IsPool filled-test.1
