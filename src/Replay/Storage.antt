-- ===== src/Replay/Storage.antt =====
-- `save` and `load` of `SACReplayPool` (utils/replay_pool.py), for payloads of version 4 and later. The
-- file holds what `torch.save` was given.
use verl_vla.Common.{
  ℕ, ◌≡◌, refl, sym, ap, ◌∙◌, String, Bool, true, false, List, [], ◌∷◌, Option, none, some,
  if◌then◌else◌,
}
use verl_vla.Replay.Pool.{
  Row, TaskPool, ReplayPool, new_ring, total_positive, total_negative, refresh_global_stats,
}
use verl_vla.Replay.Sound.{IsPool}

pub record TaskPayload (D : Type 0) : Type 0 where
  pub positive_pool : List (Row D)
  pub negative_pool : Option (List (Row D))
  pub positive_size : ℕ
  pub negative_size : ℕ
  pub positive_position : ℕ
  pub negative_position : ℕ

pub record Payload (D : Type 0) : Type 0 where
  pub single_pool_capacity : ℕ
  pub positive_only : Bool
  pub tasks : List (String × TaskPayload D)

module _ {D : Type 0} (blank : D) where
  -- A positive-only pool has no negative storage.
  abbrev pub task_payload : Bool → TaskPool D → TaskPayload D
  task_payload positive_only p = record {
    positive_pool = p.positive.slots;
    negative_pool = if positive_only then none else some p.negative.slots;
    positive_size = p.positive.size;
    negative_size = p.negative.size;
    positive_position = p.positive.position;
    negative_position = p.negative.position;
  }

  abbrev pub tasks_payload : Bool → List (String × TaskPool D) → List (String × TaskPayload D)
  tasks_payload positive_only [] = []
  tasks_payload positive_only ((t, p) ∷ pools) =
      (t, task_payload positive_only p) ∷ tasks_payload positive_only pools

  -- `save`
  unfoldable pub save : ReplayPool D → Payload D
  save s = record {
    single_pool_capacity = s.single_pool_capacity;
    positive_only = s.positive_only;
    tasks = tasks_payload s.positive_only s.task_pools;
  }

  abbrev pub negative_slots : ℕ → Bool → Option (List (Row D)) → List (Row D)
  negative_slots capacity true stored = (new_ring blank capacity).slots
  negative_slots capacity false none = (new_ring blank capacity).slots
  negative_slots capacity false (some slots) = slots

  abbrev pub load_task : ℕ → Bool → TaskPayload D → TaskPool D
  load_task capacity positive_only q = record {
    positive = record {
      slots = q.positive_pool;
      size = q.positive_size;
      position = q.positive_position;
    };
    negative = record {
      slots = negative_slots capacity positive_only q.negative_pool;
      size = if positive_only then 0 else q.negative_size;
      position = q.negative_position;
    };
  }

  abbrev pub load_tasks : ℕ → Bool → List (String × TaskPayload D) → List (String × TaskPool D)
  load_tasks capacity positive_only [] = []
  load_tasks capacity positive_only ((t, q) ∷ tasks) =
      (t, load_task capacity positive_only q) ∷ load_tasks capacity positive_only tasks

  -- `load` into the pool `s`, when the file is there.
  unfoldable pub load : Payload D → ReplayPool D → ReplayPool D
  load payload s = refresh_global_stats blank (record s {
    single_pool_capacity = payload.single_pool_capacity;
    positive_only = payload.positive_only;
    task_pools = load_tasks payload.single_pool_capacity payload.positive_only payload.tasks;
  })

  load_tasks-tasks_payload :
      (capacity : ℕ) (pools : List (String × TaskPool D))
      → load_tasks capacity false (tasks_payload false pools) ≡ pools
  load_tasks-tasks_payload capacity [] = refl
  load_tasks-tasks_payload capacity ((t, p) ∷ pools) =
      ap (λ rest. (t, p) ∷ rest) (load_tasks-tasks_payload capacity pools)

  loaded_tasks :
      (capacity : ℕ) (only : Bool) (pools : List (String × TaskPool D))
      → only ≡ false
      → load_tasks capacity only (tasks_payload only pools) ≡ pools
  loaded_tasks capacity only pools e = rw e (load_tasks-tasks_payload capacity pools)

  -- A well-formed pool that keeps both signs is read back from its file into any pool: capacity, task
  -- pools and totals are those that were saved, and only the sample of an invalid row is that of the
  -- pool that loads.
  pub load-save :
      (s target : ReplayPool D)
      → IsPool blank s
      → s.positive_only ≡ false
      → (let loaded = load (save s) target in
          (loaded.single_pool_capacity ≡ s.single_pool_capacity)
          × (loaded.positive_only ≡ s.positive_only)
          × (loaded.task_pools ≡ s.task_pools)
          × (loaded.size ≡ s.size)
          × (loaded.positive_size ≡ s.positive_size)
          × (loaded.negative_size ≡ s.negative_size)
          × (loaded.invalid_sample ≡ target.invalid_sample))
  unfolding load save
  load-save s target h both =
      let same = loaded_tasks s.single_pool_capacity s.positive_only s.task_pools both in
      let positives = ap (total_positive blank) same ∙ sym h.positives in
      let negatives = ap (total_negative blank) same ∙ sym h.negatives in
      (refl, refl, same, cc (positives, negatives, h.whole), positives, negatives, refl)
