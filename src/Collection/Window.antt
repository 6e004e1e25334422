-- ===== src/Collection/Window.antt =====
-- The shared directory of one collection window (trainer/grfpo/collection_store.py), and the single
-- file operations by which the store changes it. Every method computes a list of them under the
-- window lock; a process that dies has done a first part of its list.
-- A file `candidate_0007.json` or directory `candidate_0007` stands under the index 7.
use verl_vla.Common.{
  ℕ, String, Bool, true, false, ◌||◌, Option, none, some, List, [], ◌∷◌, ◌++◌, insert, remove,
  has_key, Result, string_discrete, ℕ_discrete,
}
use verl_vla.Collection.Spec.{PolicyIdentity, Float}

-- `CandidateAssignment`
pub record Assignment : Type 0 where
  pub candidate_index : ℕ
  pub task_name : String
  pub task_id : ℕ
  pub suite_id : ℕ
  pub layout_id : ℕ
  pub policy_seeds : List ℕ

unfoldable pub Assignment-discrete : Discrete Assignment
Assignment-discrete = hlevel (string_discrete, ℕ_discrete)

-- `CandidateLease`; times are counts of the clock's ticks.
pub record Lease : Type 0 where
  pub assignment : Assignment
  pub owner_id : String
  pub token : String
  pub claimed_at : ℕ
  pub heartbeat_at : ℕ
  pub expires_at : ℕ

-- The fields of a `group_record` that the store reads.
pub record GroupRecord : Type 0 where
  pub group_id : List ℕ
  pub rollout_policy_version : ℕ
  pub informative : Bool
  pub task_name : String

-- The directory `accepted/candidate_...`: two saved batches and `metadata.json`.
pub record Group (B : Type 0) : Type 0 where
  pub rollout : B
  pub rollout_end_obs : B
  pub candidate : Assignment
  pub policy : PolicyIdentity
  pub group_record : GroupRecord

-- `rejected/candidate_....json`
pub record Rejection : Type 0 where
  pub candidate : Assignment
  pub policy : PolicyIdentity
  pub group_record : GroupRecord

-- `skipped/candidate_....json`
pub record Skip : Type 0 where
  pub reason : String
  pub skipped_at : ℕ

pub data Outcome : Type 0 where
  ready insufficient_informative_groups : Outcome

-- `CLOSED.json`; the path of a selected group is the index of its candidate.
pub record Closing : Type 0 where
  pub outcome : Outcome
  pub accepted_groups : ℕ
  pub rejected_groups : ℕ
  pub skipped_candidate_groups : ℕ
  pub completed_candidate_groups : ℕ
  pub selected : List ℕ
  pub closed_at : ℕ

pub data EventKind : Type 0 where
  claim reclaim abandon integrity_failure : EventKind

-- A line of `LEASE_EVENTS.jsonl`.
pub record Event : Type 0 where
  pub kind : EventKind
  pub candidate_index : ℕ
  pub owner_id : Option String
  pub token : Option String
  pub at : ℕ

-- `manifest.json`: `none` is a key that a window of an older release lacks.
pub record Manifest : Type 0 where
  pub run_id : List ℕ
  pub intended_update : ℕ
  pub group_size : ℕ
  pub target_accepted_groups : ℕ
  pub minimum_accepted_groups : ℕ
  pub max_candidate_groups : ℕ
  pub policy : PolicyIdentity
  pub complete_round_after_target : Option Bool
  pub candidate_round_size : Option ℕ
  pub drain_candidate_budget : Option Bool
  pub task_names : Option (List String)
  pub suite_ids : Option (List ℕ)
  pub condition_manifest_sha256 : Option String
  pub group_reward_source : Option String
  pub informative_group_criterion : Option String
  pub accepted_group_reduction : Option String
  pub policy_seed_namespace : Option (List ℕ)
  pub raw_state_abs_limit : Option Float
  pub actor_objective : Option String
  pub flow_grpo_noise_level : Option Float

-- `is_open` is the file `OPEN`. What is under `accepted` has its `COMMITTED` file: the directory is
-- moved there whole.
pub record Window (B : Type 0) : Type 0 where
  pub manifest : Option Manifest
  pub is_open : Bool
  pub closed : Option Closing
  pub accepted : List (ℕ × Group B)
  pub rejected : List (ℕ × Rejection)
  pub skipped : List (ℕ × Skip)
  pub leases : List (ℕ × Lease)
  pub failures : List ℕ
  pub events : List Event

pub data Effect (B : Type 0) : Type 0 where
  write_manifest : Manifest → Effect B
  touch_open : Effect B
  unlink_open : Effect B
  write_closed : Closing → Effect B
  publish : ℕ → Group B → Effect B
  write_rejected : ℕ → Rejection → Effect B
  write_skipped : ℕ → Skip → Effect B
  write_lease : ℕ → Lease → Effect B
  unlink_lease : ℕ → Effect B
  write_failure : ℕ → Effect B
  append_event : Event → Effect B

module _ {B : Type 0} where
  unfoldable pub apply : Window B → Effect B → Window B
  apply w (write_manifest m) = record w { manifest = some m }
  apply w touch_open = record w { is_open = true }
  apply w unlink_open = record w { is_open = false }
  apply w (write_closed c) = record w { closed = some c }
  apply w (publish i g) = record w { accepted = insert i g w.accepted }
  apply w (write_rejected i r) = record w { rejected = insert i r w.rejected }
  apply w (write_skipped i s) = record w { skipped = insert i s w.skipped }
  apply w (write_lease i l) = record w { leases = insert i l w.leases }
  apply w (unlink_lease i) = record w { leases = remove i w.leases }
  apply w (write_failure i) = record w { failures = w.failures ++ i ∷ [] }
  apply w (append_event e) = record w { events = w.events ++ e ∷ [] }

  unfoldable pub run : Window B → List (Effect B) → Window B
  unfolding apply
  run w [] = w
  run w (e ∷ es) = run (apply w e) es

  -- `candidate_complete`
  abbrev pub candidate_complete : Window B → ℕ → Bool
  candidate_complete w i = has_key i w.accepted || has_key i w.rejected || has_key i w.skipped

  -- The directory before `initialize`.
  abbrev pub fresh : Window B
  fresh = record {
    manifest = none;
    is_open = false;
    closed = none;
    accepted = [];
    rejected = [];
    skipped = [];
    leases = [];
    failures = [];
    events = [];
  }

-- One constructor for each exception that a method of the store raises.
pub data StoreError : Type 0 where
  empty_owner bad_timeout duplicate_assignments window_closed lease_missing : StoreError
  lease_reassigned wrong_group_size wrong_policy_version wrong_group_id lease_mismatch : StoreError
  empty_arguments invalid_candidate_id index_out_of_range duplicate_ids no_window : StoreError
  manifest_mismatch not_closed not_trainable foreign_group other_policy invalid_group : StoreError

-- What a method returns or raises, beside the file operations that it performs.
abbrev pub Action : Type 0 → Type 0 → Type 0
Action B A = Window B → Result StoreError A × List (Effect B)
