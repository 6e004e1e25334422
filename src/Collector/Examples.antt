-- ===== src/Collector/Examples.antt =====
-- A collector of workflows/grfpo_fragmented_collection.py on a small schedule: two tasks, two suites, six candidates. The
-- simulator has four lanes, ends every episode at its first step, and counts its steps; a batch is its length.
use verl_vla.Common.{
  ℕ, ◌+◌, ◌*◌, ◌≡◌, ◌≢◌, refl, String, true, false, none, some, List, [], ◌∷◌, ◌++◌, flat, map,
  length, ok, err, range_from, All, Result, string_discrete, ℕ_discrete, lookup, insert, remove,
  ◌⊎◌, is_some,
}
use verl_vla.Common.Sort.{sort_by, insert_by}
use verl_vla.Collection.Names.{candidate_id, decimal, decimal_from, same_text, text_leb, zero_pad}
use verl_vla.Collection.Spec.{CollectionWindowSpec, finite}
use verl_vla.Collection.Window.{Assignment, Assignment-discrete, Lease, Window, fresh, run, apply}
use verl_vla.Collection.Leases.{
  new_lease, claim_candidate, release_candidate_lease, lease_is_current, prefer, has_duplicates,
  held_by_other, round_ready_to_start, claim_loop, is_same_lease, renew_candidate_lease,
}
use verl_vla.Collection.Commit.{
  rejected, commit_group, check_candidate, commit_locked, publish_locked,
}
use verl_vla.Collection.Close.{close_if_ready, close_open, closing_of, may_close, selected_groups}
use verl_vla.Collection.System.{here}
use verl_vla.Collection.Schedule.{
  candidate_assignment, with_condition, with_pool, with_layout, layout_slot, is_bad_pool,
  policy_seeds, seed_payload,
}
use verl_vla.Collection.Refused.{IsRefused, claim_candidate-IsRefused}
use verl_vla.Collector.World.{
  World, Surroundings, Failure, machine_error, changed_condition, ◌>>=◌, on_store, on_machine,
  read_store, read_timer, protect, finally,
}
use verl_vla.Launch.Window.{CollectionConfig}
use verl_vla.Collector.Lanes.{
  CollectorConfig, ConditionManifest, collector_assignments, candidate_physical_batch_size,
  candidate_schedule, check_tasks, check_suites, assign_all, assignment_at, lane,
}
use verl_vla.Collector.Waves.{Feedback, wave_starts, ended, or_lanes, range_by}
use verl_vla.Collector.Group.{
  Machine, Batches, collect_one_group, beat, collect_wave, collect_waves, finish_group, interact,
  publish_group, renew_lease_if_due, roll_out, Collected,
}
use verl_vla.Collector.Queue.{
  ConditionKey, Finished, unfinished, claim, warm_loop, work_guarded, work_warm,
  shared_queue_collector, preferred_condition, select_candidate, collect_leased, release,
}
use verl_vla.Collector.Warm.{shared_queue_collector-steady}
use verl_vla.Collector.Released.{work_guarded-releases}
use verl_vla.Collector.Logged.{Log, IsLog}
use verl_vla.Collector.Tiling.{collect_one_group-tiles}
use verl_vla.Collector.Slots.{slot_indices, IsAt, collector_assignments-lane}
use verl_vla.Collector.Run.{one_condition}

abbrev spec : CollectionWindowSpec
spec = record {
  run_id = 114 ∷ [];
  intended_update = 2;
  group_size = 8;
  target_accepted_groups = 6;
  minimum_accepted_groups = 1;
  max_candidate_groups = 6;
  policy = record {
    immutable_base_path = "base";
    immutable_base_sha256 = "00";
    trainer_checkpoint_path = none;
    rollout_policy_version = 1;
  };
  complete_round_after_target = false;
  candidate_round_size = 0;
  drain_candidate_budget = true;
  task_names = "lift" ∷ "stack" ∷ [];
  suite_ids = 4 ∷ 9 ∷ [];
  condition_manifest_sha256 = "ab";
  group_reward_source = "binary_success";
  informative_group_criterion = "full_success_mixed";
  accepted_group_reduction = "group_equal";
  policy_seed_namespace = [];
  raw_state_abs_limit = finite 100_000_000;
  actor_objective = "fpo";
  flow_grpo_noise_level = finite 10_000;
}

abbrev collection : CollectionConfig
collection = record {
  run_id = 114 ∷ [];
  intended_update = 2;
  collector_count = 4;
  group_size = 8;
  target_accepted_groups = 6;
  minimum_accepted_groups = 1;
  max_candidate_groups = 6;
  complete_round_after_target = false;
  drain_candidate_budget = true;
  task_names = "lift" ∷ "stack" ∷ [];
  included_task_names = [];
  excluded_task_names = [];
  suite_ids = 4 ∷ 9 ∷ [];
  condition_manifest_sha256 = "ab";
  group_reward_source = "binary_success";
  informative_group_criterion = "full_success_mixed";
  accepted_group_reduction = "group_equal";
  policy_seed_namespace = [];
  raw_state_abs_limit = finite 100_000_000;
  actor_objective = "fpo";
  flow_grpo_noise_level = finite 10_000;
  policy = spec.policy;
}

abbrev config : CollectorConfig
config = record {
  collection = collection;
  collector_slot = 1;
  run_seed = 7;
  physical_rollout_batch_size = 4;
  max_policy_calls = 3;
  candidate_lease_timeout = 60;
  candidate_lease_heartbeat = 2;
  simulators_per_gpu = 1;
  shared_candidate_queue = true;
  shared_queue_steal_any = false;
}

abbrev around : Surroundings ℕ
around = record { others = λ n w. w; clock = λ n. 100 + n; timer = λ n. n; token = λ n. "t" }

abbrev machine : Machine ℕ ℕ ℕ Feedback
machine = record {
  build = λ a width s. some s;
  build_lane = λ xs s. some s;
  load_model = λ s. some s;
  install = λ layout_ids seeds s. some s;
  restart = λ s. some s;
  callbacks = λ s. 1;
  reset = λ s. some (s, s);
  label = λ ids obs s. (obs, s);
  infer = λ obs s. some (obs, s);
  step = λ action s. some (
    (
      s,
      record {
        terminated = (true ∷ []) ∷ (false ∷ []) ∷ (true ∷ []) ∷ (true ∷ []) ∷ [];
        truncated = (false ∷ []) ∷ (true ∷ []) ∷ (false ∷ []) ∷ (false ∷ []) ∷ [];
      },
    ),
    s + 1,
  );
  flags = λ f. f;
  close = λ s. some s;
}

abbrev batches : Batches ℕ ℕ ℕ Feedback
batches = record {
  size = λ n. n;
  collate = λ slots. 4;
  final = λ obs. 4;
  join = λ rollouts ends. some (4 * length rollouts, 4 * length ends);
  is_intact = λ rollout end_obs. true;
  has_trace = λ rollout. false;
  is_informative = λ a rollout. some true;
}

abbrev opened : Window ℕ
opened = record (fresh {B = ℕ}) { is_open = true }

abbrev start : World ℕ ℕ
start = record { window = opened; machine = 0; held = none; turn = 0 }

abbrev assignment : ℕ → String → ℕ → Assignment
assignment index task suite = record {
  candidate_index = index;
  task_name = task;
  task_id = 0;
  suite_id = suite;
  layout_id = 30;
  policy_seeds = range_from (10 * index) 8;
}

abbrev schedule : List Assignment
schedule =
    assignment 0 "lift" 4
    ∷ assignment 1 "lift" 9
    ∷ assignment 2 "stack" 4
    ∷ assignment 3 "stack" 9
    ∷ assignment 4 "lift" 4
    ∷ assignment 5 "lift" 9
    ∷ []

-- The collector of slot 1 works through the two candidates of its condition.
drained-test :
    map
      (λ r. r.candidate_index)
      (elim (shared_queue_collector around machine batches spec config "me" schedule 3 9 none
        spec.task_names start).0 [ ok f ↦ f.results | err e ↦ [] ])
    ≡ 1 ∷ 5 ∷ []
unfolding shared_queue_collector claim ◌>>=◌ on_store claim_candidate string_discrete
    preferred_condition lookup work_warm candidate_physical_batch_size on_machine finally
    work_guarded protect warm_loop select_candidate collect_leased collect_one_group read_timer
    ℕ_discrete close_if_ready close_open closing_of may_close selected_groups check_candidate
    commit_group commit_locked publish_locked claim_loop has_duplicates held_by_other is_same_lease
    lease_is_current prefer release_candidate_lease renew_candidate_lease round_ready_to_start
    candidate_id decimal decimal_from same_text text_leb zero_pad Assignment-discrete apply run beat
    collect_wave collect_waves finish_group interact publish_group renew_lease_if_due roll_out
    release ended or_lanes range_by wave_starts read_store insert remove insert_by sort_by
drained-test = refl

shared_queue_collector-steady_example :
    (shared_queue_collector around machine batches spec config "me" schedule 3 9 none
      spec.task_names start).0
    ≢ err changed_condition
shared_queue_collector-steady_example =
    shared_queue_collector-steady around machine batches spec config "me" schedule 3 9 none
      spec.task_names start

-- A simulator that only keeps the log of what it is told, and ends every trajectory in its first step.
abbrev logging : Machine Log ℕ ℕ Feedback
logging = record {
  build = λ a width l. some l;
  build_lane = λ xs l. some l;
  load_model = λ l. some l;
  install = λ layout_ids seeds l. some (l.0 ++ seeds ∷ [], l.1);
  restart = λ l. some l;
  callbacks = λ l. 0;
  reset = λ l. some (0, l);
  label = λ ids obs l. (obs, (l.0, l.1 ++ ids ∷ []));
  infer = λ obs l. some (obs, l);
  step = λ action l. some (
    (
      1,
      record {
        terminated = (true ∷ []) ∷ (true ∷ []) ∷ (true ∷ []) ∷ (true ∷ []) ∷ [];
        truncated = (false ∷ []) ∷ (false ∷ []) ∷ (false ∷ []) ∷ (false ∷ []) ∷ [];
      },
    ),
    l,
  );
  flags = λ f. f;
  close = λ l. some l;
}

logging-IsLog : IsLog logging (λ l. l)
logging-IsLog = record {
  installed = λ layouts seeds s t e. cc;
  labelled_ = λ ids obs s. refl;
  restarted = λ s t e. cc;
  was_reset = λ s t obs e. cc;
  inferred = λ obs s t action e. cc;
  stepped = λ action s t seen e. cc;
}

abbrev unlogged : World ℕ Log
unlogged = record { window = opened; machine = ([], []); held = none; turn = 0 }

abbrev collected_of : Result Failure Collected × World ℕ Log → Collected
collected_of (ok r, w) = r
collected_of (err e, w) = record {
  status = rejected;
  candidate_index = 0;
  accepted = 0;
  closed = none;
}

abbrev logged : Result Failure Collected × World ℕ Log
logged =
    collect_one_group around logging batches spec config 4 (assignment 0 "lift" 4) none unlogged

logged-ok : logged ≡ (ok (collected_of logged), logged.1)
unfolding claim_candidate protect ◌>>=◌ on_store on_machine collect_one_group read_timer ℕ_discrete
    close_if_ready close_open closing_of may_close selected_groups check_candidate commit_group
    commit_locked publish_locked has_duplicates is_same_lease lease_is_current candidate_id decimal
    decimal_from same_text text_leb zero_pad Assignment-discrete apply run beat collect_wave
    collect_waves finish_group interact publish_group renew_lease_if_due roll_out ended or_lanes
    range_by wave_starts read_store insert remove insert_by sort_by string_discrete lookup
logged-ok = refl

collect_one_group-tiles_example :
    (seeds : List (List ℕ)) × (ids : List (List ℕ)) × (logged.1.machine ≡ (seeds, ids))
    × All (λ wave. length wave ≡ 4) seeds
    × (flat seeds ≡ range_from 0 8)
    × (flat ids ≡ range_from 0 8)
collect_one_group-tiles_example =
    collect_one_group-tiles around logging batches spec config 4 (λ l. l) logging-IsLog
      (assignment 0 "lift" 4) none unlogged logged.1 (collected_of logged) refl logged-ok

abbrev lift_9 : ConditionKey
lift_9 = ("lift", 9)

abbrev whole_run : Result Failure Finished × World ℕ ℕ
whole_run =
    (claim around machine batches spec config "me" schedule (some lift_9)
        >>= warm_loop around machine batches spec config "me" schedule 6 4 lift_9 [])
      start

abbrev last : Finished
last = elim whole_run.0 [ ok f ↦ f | err e ↦ record { status = unfinished; results = [] } ]

-- The model cannot be loaded.
abbrev broken : Machine ℕ ℕ ℕ Feedback
broken = record machine { load_model = λ s. none }

abbrev mine : Lease
mine = new_lease (assignment 1 "lift" 9) "me" 60 100 "t"

abbrev leased_world : World ℕ ℕ
leased_world = record {
  window = record opened { leases = (1, mine) ∷ [] };
  machine = 0;
  held = some mine;
  turn = 1;
}

abbrev abandoned : Window ℕ
abandoned =
    (work_guarded around broken batches spec config "me" schedule 3 4 mine leased_world).1.window

work_guarded-releases_example :
    (lease_is_current abandoned mine ≡ false)
    × ((commit_group batches.size spec mine.assignment 8 8
          (record {
            group_id = candidate_id 1;
            rollout_policy_version = 1;
            informative = true;
            task_name = "lift";
          })
          (some mine)
          abandoned).1
        ≡ [])
unfolding work_guarded protect on_machine ◌>>=◌ release on_store release_candidate_lease lookup
    is_same_lease string_discrete run apply remove
work_guarded-releases_example =
    work_guarded-releases around broken batches spec config "me" schedule 3 4 mine leased_world
      machine_error mine abandoned mine.assignment 8 8 _ refl refl here

abbrev digest : List ℕ → ℕ
digest payload = 17

abbrev manifest : ConditionManifest
manifest = record {
  sha256 = "ab";
  tasks = λ task.
      some (λ suite. some (record { train_layout_ids = 30 ∷ 31 ∷ 32 ∷ []; heldout_test = 9 ∷ [] }));
}

abbrev assigned : Result Failure (List Assignment)
assigned = collector_assignments digest spec ("lift" ∷ "stack" ∷ []) config manifest

abbrev lane_1 : List Assignment
lane_1 = elim assigned [ ok xs ↦ xs | err e ↦ [] ]

collector_assignments-lane_example :
    (map (λ a. a.candidate_index) lane_1 ≡ slot_indices 4 1 (range_from 0 6))
    × All (IsAt ("lift" ∷ "stack" ∷ []) (4 ∷ 9 ∷ []) 1) lane_1
    × (one_condition lane_1 ≡ true)
unfolding collector_assignments candidate_schedule check_tasks check_suites assign_all assignment_at
    lane candidate_assignment with_condition with_pool with_layout layout_slot is_bad_pool
    policy_seeds seed_payload decimal decimal_from has_duplicates string_discrete
collector_assignments-lane_example =
    collector_assignments-lane digest spec ("lift" ∷ "stack" ∷ []) config manifest lane_1 refl

-- Another owner holds the only candidate.
abbrev theirs : Window ℕ
theirs = record opened { leases = (1, new_lease (assignment 1 "lift" 9) "you" 60 100 "s") ∷ [] }

claim_candidate-IsRefused_example :
    (is_some theirs.closed ≡ true)
    ⊎ All
        (IsRefused spec "me" 60 130 "t" theirs)
        (prefer (some lift_9) (assignment 0 "lift" 4 ∷ assignment 1 "lift" 9 ∷ []))
unfolding claim_candidate claim_loop has_duplicates sort_by insert_by prefer string_discrete
    round_ready_to_start held_by_other lookup
claim_candidate-IsRefused_example =
    claim_candidate-IsRefused spec "me" 60 130 "t"
      (assignment 0 "lift" 4 ∷ assignment 1 "lift" 9 ∷ []) (some lift_9) theirs refl

-- The environment cannot be built: the claimed lease stays the stored one, until it expires.
unbuilt_lease-test :
    lease_is_current
      (work_warm around
        (record machine { build = λ a width s. none })
        batches
        spec
        config
        "me"
        schedule
        3
        none
        mine
        leased_world).1.window
      mine
    ≡ true
unfolding work_warm candidate_physical_batch_size on_machine ◌>>=◌ lease_is_current is_same_lease
    string_discrete lookup
unbuilt_lease-test = refl
