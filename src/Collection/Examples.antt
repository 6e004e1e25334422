-- ===== src/Collection/Examples.antt =====
-- Runs of the candidate store (trainer/grfpo/collection_store.py) on a small window: batches are their
-- lengths, and times are seconds.
use verl_vla.Common.{
  ℕ, ◌≤◌, ◌≡◌, refl, true, false, none, some, List, [], ◌∷◌, arith, lookup, ok, ◌↔◌, subst, insert,
  string_discrete, ℕ_discrete, length,
}
use verl_vla.Collection.Names.{candidate_id}
use verl_vla.Collection.Spec.{CollectionWindowSpec, PolicyIdentity, finite}
use verl_vla.Collection.Window.{
  Assignment, Assignment-discrete, Lease, GroupRecord, Window, Closing, fresh, run,
  candidate_complete, ready,
}
use verl_vla.Collection.Leases.{
  claim_candidate, lease_is_current, new_lease, renew_candidate_lease, release_candidate_lease,
  record_integrity_failure,
}
use verl_vla.Collection.Commit.{commit_group}
use verl_vla.Collection.Close.{
  close_if_ready, closing_of, completed_round, load_selected_groups, initialize, Loaded,
}
use verl_vla.Collection.System.{
  after, InSchedule, Reach, here, call, initialize_call, claim_call, release_call, commit_call,
  close_call,
}
use verl_vla.Collection.Invariant.{IsSound}
use verl_vla.Collection.Safety.{Reach-IsSound}
use verl_vla.Collection.Outcomes.{recorded, results, Reach-recorded, Reach-results}
use verl_vla.Collection.Claims.{IsClaim, claim_candidate-IsClaim}
use verl_vla.Collection.Fencing.{lost_lease-fenced}
use verl_vla.Collection.Rounds.{IsRound, completed_round_iff, close_if_ready-total}
use verl_vla.Collection.Loading.{load_selected_groups-ok}

abbrev len : ℕ → ℕ
len n = n

abbrev policy : PolicyIdentity
policy = record {
  immutable_base_path = "base";
  immutable_base_sha256 = "00";
  trainer_checkpoint_path = none;
  rollout_policy_version = 3;
}

abbrev spec : CollectionWindowSpec
spec = record {
  run_id = 114 ∷ [];
  intended_update = 1;
  group_size = 8;
  target_accepted_groups = 1;
  minimum_accepted_groups = 1;
  max_candidate_groups = 1;
  policy = policy;
  complete_round_after_target = true;
  candidate_round_size = 1;
  drain_candidate_budget = false;
  task_names = "lift" ∷ [];
  suite_ids = 0 ∷ [];
  condition_manifest_sha256 = "";
  group_reward_source = "binary_success";
  informative_group_criterion = "full_success_mixed";
  accepted_group_reduction = "group_equal";
  policy_seed_namespace = [];
  raw_state_abs_limit = finite 100_000_000;
  actor_objective = "fpo";
  flow_grpo_noise_level = finite 10_000;
}

abbrev assignment : Assignment
assignment = record {
  candidate_index = 0;
  task_name = "lift";
  task_id = 0;
  suite_id = 0;
  layout_id = 4;
  policy_seeds = 1 ∷ 2 ∷ 3 ∷ 4 ∷ 5 ∷ 6 ∷ 7 ∷ 8 ∷ [];
}

abbrev group_record : GroupRecord
group_record = record {
  group_id = candidate_id 0;
  rollout_policy_version = 3;
  informative = true;
  task_name = "lift";
}

abbrev lease : Lease
lease = new_lease assignment "alice" 60 100 "t1"

abbrev next_lease : Lease
next_lease = new_lease assignment "bob" 60 200 "t2"

abbrev initialized : Window ℕ
initialized = after len spec initialize_call 2 fresh

abbrev claimed : Window ℕ
claimed = after len spec (claim_call (assignment ∷ []) "alice" 60 none 100 "t1") 2 initialized

-- The lease of the first worker expired, and another worker claims the candidate.
abbrev reclaimed : Window ℕ
reclaimed = after len spec (claim_call (assignment ∷ []) "bob" 60 none 200 "t2") 2 claimed

abbrev committed : Window ℕ
committed = after len spec (commit_call assignment 8 8 group_record (some next_lease)) 2 reclaimed

abbrev closed : Window ℕ
closed = after len spec (close_call 300) 2 committed

to_committed : Reach len spec (InSchedule len spec) fresh committed
to_committed =
    call (commit_call assignment 8 8 group_record (some next_lease)) 2
      (call (claim_call (assignment ∷ []) "bob" 60 none 200 "t2") 2
        (call (claim_call (assignment ∷ []) "alice" 60 none 100 "t1") 2
          (call initialize_call 2 here tt) tt)
        tt)
      (omega arith)

to_closed : Reach len spec (InSchedule len spec) fresh closed
to_closed = call (close_call 300) 2 to_committed tt

Reach-IsSound_example : IsSound len spec closed
Reach-IsSound_example = Reach-IsSound len spec to_closed

committed-IsSound : IsSound len spec committed
committed-IsSound = Reach-IsSound len spec to_committed

committed-done : candidate_complete committed 0 ≡ true
unfolding after lookup commit_group Assignment-discrete ℕ_discrete string_discrete claim_candidate
    initialize insert
committed-done = refl

committed-open : committed.closed ≡ none
unfolding after lookup commit_group Assignment-discrete ℕ_discrete string_discrete claim_candidate
    initialize insert
committed-open = refl

abbrev closing : Closing
closing = closing_of spec committed 300

closed-closing : closed.closed ≡ some closing
unfolding after lookup commit_group Assignment-discrete ℕ_discrete string_discrete claim_candidate
    initialize insert close_if_ready
closed-closing = refl

closing-ready : closing.outcome ≡ ready
unfolding after lookup commit_group Assignment-discrete ℕ_discrete string_discrete claim_candidate
    initialize insert closing_of
closing-ready = refl

Reach-recorded_example : recorded closed 0 ≡ recorded committed 0
Reach-recorded_example =
    Reach-recorded len spec (call (close_call 300) 2 here tt) committed-IsSound 0 committed-done

Reach-results_example : results (after len spec (release_call next_lease) 1 closed) ≡ results closed
Reach-results_example =
    Reach-results len spec (call (release_call next_lease) 1 here tt) Reach-IsSound_example
      closed-closing

claims :
    (claim_candidate spec "alice" 60 100 "t1" (assignment ∷ []) none initialized).0
    ≡ ok (some lease)
unfolding after lookup commit_group Assignment-discrete ℕ_discrete string_discrete claim_candidate
    initialize insert
claims = refl

claim_candidate-IsClaim_example :
    IsClaim spec "alice" 60 100 "t1" initialized
      (run initialized
        (claim_candidate spec "alice" 60 100 "t1" (assignment ∷ []) none initialized).1)
      lease
claim_candidate-IsClaim_example =
    claim_candidate-IsClaim spec "alice" 60 100 "t1" (assignment ∷ []) none initialized lease claims

lease_lost : lease_is_current reclaimed lease ≡ false
unfolding after lookup commit_group Assignment-discrete ℕ_discrete string_discrete claim_candidate
    initialize insert lease_is_current
lease_lost = refl

lost_lease-fenced_example :
    ((commit_group len spec assignment 8 8 group_record (some lease) closed).1 ≡ [])
    × ((renew_candidate_lease lease 60 301 closed).1 ≡ [])
    × ((release_candidate_lease lease closed).1 ≡ [])
    × ((record_integrity_failure assignment (some lease) 301 closed).1 ≡ [])
lost_lease-fenced_example =
    lost_lease-fenced lease len spec assignment 8 8 group_record 60 301 lease_lost (
      call (close_call 300) 2
        (call (commit_call assignment 8 8 group_record (some next_lease)) 2 here tt) tt)

completed_round_iff_example :
    (completed_round spec committed ≡ true) ↔ IsRound len spec committed-IsSound
completed_round_iff_example = completed_round_iff len spec committed-IsSound

close_if_ready-total_example :
    (close_if_ready spec 300 committed).0 ≡ ok (some (closing_of spec committed 300))
close_if_ready-total_example =
    close_if_ready-total len spec committed-IsSound 300 committed-open (omega arith) (λ r. refl)
      (λ j l. subst (λ i. candidate_complete committed i ≡ true) (omega arith) committed-done)

load_selected_groups-ok_example :
    (gs : List (Loaded len spec)) × (load_selected_groups len spec closed ≡ ok gs)
    × (length gs ≡ length closing.selected)
    × (1 ≤ length gs)
load_selected_groups-ok_example =
    load_selected_groups-ok len spec closed closing Reach-IsSound_example closed-closing
      closing-ready (omega arith)
