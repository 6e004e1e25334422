-- ===== src/Collection/System.antt =====
-- The window as a shared object: any number of processes call the methods of the store, one at a time
-- under the window lock, and any of them may die after a first part of a method's file operations.
use verl_vla.Common.{Bool, ℕ, ◌<◌, String, Option, List, take}
use verl_vla.Collection.Spec.{CollectionWindowSpec}
use verl_vla.Collection.Leases.{
  claim_candidate, renew_candidate_lease, release_candidate_lease, abandon_owner_leases,
  record_integrity_failure,
}
use verl_vla.Collection.Commit.{commit_group, skip_window_candidates}
use verl_vla.Collection.Close.{initialize, close_if_ready}
use verl_vla.Collection.Window.{Assignment, Lease, GroupRecord, Window, Effect, run}

-- A call of a method, with its arguments, the clock's reading and the random token.
pub data Call (B : Type 0) : Type 0 where
  initialize_call : Call B
  claim_call : List Assignment → String → ℕ → Option (String × ℕ) → ℕ → String → Call B
  renew_call : Lease → ℕ → ℕ → Call B
  release_call : Lease → Call B
  abandon_call : Bool → String → ℕ → Call B
  failure_call : Assignment → Option Lease → ℕ → Call B
  skip_call : List (List ℕ) → String → ℕ → Call B
  commit_call : Assignment → B → B → GroupRecord → Option Lease → Call B
  close_call : ℕ → Call B

module _ {B : Type 0} (len : B → ℕ) (spec : CollectionWindowSpec) where
  -- The file operations of a call in a window.
  unfoldable pub effects : Call B → Window B → List (Effect B)
  effects initialize_call w = (initialize spec w).1
  effects (claim_call assigned owner timeout preferred now token) w =
      (claim_candidate spec owner timeout now token assigned preferred w).1
  effects (renew_call l timeout now) w = (renew_candidate_lease l timeout now w).1
  effects (release_call l) w = (release_candidate_lease l w).1
  effects (abandon_call has_lock owner now) w = (abandon_owner_leases has_lock owner now w).1
  effects (failure_call a l now) w = (record_integrity_failure a l now w).1
  effects (skip_call ids reason now) w = (skip_window_candidates ids reason now w).1
  effects (commit_call a rollout end_obs r lease) w =
      (commit_group len spec a rollout end_obs r lease w).1
  effects (close_call now) w = (close_if_ready spec now w).1

  -- The candidates of a call come from the schedule, whose indices are below the budget.
  abbrev pub InSchedule : Call B → Type 0
  InSchedule (commit_call a _ _ _ _) = a.candidate_index < spec.max_candidate_groups
  InSchedule _ = Unit

  -- A call that does its first `n` file operations; for a large `n` it runs to its end.
  unfoldable pub after : Call B → ℕ → Window B → Window B
  unfolding effects run
  after c n w = run w (take n (effects c w))

  -- What any allowed calls make of a window, in any order, whether they run to their ends or not.
  pub data Reach (Allowed : Call B → Type 0) (start : Window B) : Window B → Type 0 where
    here : Reach Allowed start start
    call :
        {w : Window B} (c : Call B) (n : ℕ)
        → Reach Allowed start w
        → Allowed c
        → Reach Allowed start (after c n w)
