-- ===== src/Collection/Close.antt =====
-- Scanning, closing and reading back a window (trainer/grfpo/collection_store.py), and `initialize`.
use verl_vla.Common.{
  is_yes, ℕ, ◌+◌, ◌%◌, Bool, false, ◌&&◌, ◌||◌, not, Option, none, some, List, [], ◌∷◌, ◌++◌, map,
  Result, ok, err, string_discrete, ℕ_discrete, ltb, leb, ◌==◌, if◌then◌else◌, all, range_from,
  length, take, lookup, keys, ◌>>=◌,
}
use verl_vla.Common.Sets.{member, as_set}
use verl_vla.Common.Sort.{sort_by}
use verl_vla.Collection.Names.{entry_leb}
use verl_vla.Collection.Spec.{CollectionWindowSpec, PolicyIdentity-discrete, finite}
use verl_vla.Collection.Window.{
  GroupRecord, Group, Window, write_manifest, touch_open, unlink_open, write_closed, Closing, ready,
  insufficient_informative_groups, Manifest, Action, StoreError, manifest_mismatch, not_closed,
  not_trainable, foreign_group, other_policy, invalid_group,
}

-- `to_dict`: a new window stores every key.
abbrev pub to_manifest : CollectionWindowSpec → Manifest
to_manifest s = record {
  run_id = s.run_id;
  intended_update = s.intended_update;
  group_size = s.group_size;
  target_accepted_groups = s.target_accepted_groups;
  minimum_accepted_groups = s.minimum_accepted_groups;
  max_candidate_groups = s.max_candidate_groups;
  policy = s.policy;
  complete_round_after_target = some s.complete_round_after_target;
  candidate_round_size = some s.candidate_round_size;
  drain_candidate_budget = some s.drain_candidate_budget;
  task_names = some s.task_names;
  suite_ids = some s.suite_ids;
  condition_manifest_sha256 = some s.condition_manifest_sha256;
  group_reward_source = some s.group_reward_source;
  informative_group_criterion = some s.informative_group_criterion;
  accepted_group_reduction = some s.accepted_group_reduction;
  policy_seed_namespace = some s.policy_seed_namespace;
  raw_state_abs_limit = some s.raw_state_abs_limit;
  actor_objective = some s.actor_objective;
  flow_grpo_noise_level = some s.flow_grpo_noise_level;
}

-- `setdefault` of one key.
abbrev default {ℓ} : {A : Type ℓ} → A → Option A → Option A
default d none = some d
default d (some a) = some a

-- The stored manifest with the defaults of the older releases.
unfoldable pub normalized : CollectionWindowSpec → Manifest → Manifest
normalized s m = record m {
  complete_round_after_target = default false m.complete_round_after_target;
  candidate_round_size = default 0 m.candidate_round_size;
  drain_candidate_budget = default false m.drain_candidate_budget;
  task_names = default s.task_names m.task_names;
  suite_ids = default s.suite_ids m.suite_ids;
  condition_manifest_sha256 = default s.condition_manifest_sha256 m.condition_manifest_sha256;
  group_reward_source = default "binary_success" m.group_reward_source;
  informative_group_criterion = default "full_success_mixed" m.informative_group_criterion;
  accepted_group_reduction = default "group_equal" m.accepted_group_reduction;
  policy_seed_namespace = default [] m.policy_seed_namespace;
  raw_state_abs_limit = default (finite 100_000_000) m.raw_state_abs_limit;
  actor_objective = default "fpo" m.actor_objective;
  flow_grpo_noise_level = default (finite 10_000) m.flow_grpo_noise_level;
}

unfoldable pub Manifest-discrete : Discrete Manifest
Manifest-discrete = hlevel (string_discrete, ℕ_discrete)

module _ {B : Type 0} (spec : CollectionWindowSpec) where
  unfoldable pub initialize_with : Option Manifest → Action B (Unit {0})
  unfolding normalized
  initialize_with none w = (ok tt, write_manifest (to_manifest spec) ∷ touch_open ∷ [])
  initialize_with (some m) w =
      if not (is_yes (Manifest-discrete (normalized spec m) (to_manifest spec)))
      then (err manifest_mismatch, [])
      else (ok tt, [])

  -- `initialize`
  unfoldable pub initialize : Action B (Unit {0})
  unfolding initialize_with
  initialize w = initialize_with w.manifest w

-- `completed_ids == set(range(len(completed_ids)))`
abbrev pub is_initial_range : List ℕ → Bool
is_initial_range s =
    all (λ j. member j s) (range_from 0 (length s)) && all (λ y. ltb y (length s)) s

module _ {B : Type 0} where
  -- The counts of `scan`.
  abbrev pub completed_count : Window B → ℕ
  completed_count w = length w.accepted + length w.rejected + length w.skipped

  abbrev pub completed_ids : Window B → List ℕ
  completed_ids w = as_set (keys w.accepted ++ (keys w.rejected ++ keys w.skipped))

  -- The accepted candidates in the order of `sorted`.
  abbrev pub sorted_accepted : Window B → List ℕ
  sorted_accepted w = map (λ e. e.0) (sort_by entry_leb w.accepted)

  module _ (spec : CollectionWindowSpec) where
    abbrev pub budget_exhausted : Window B → Bool
    budget_exhausted w = leb spec.max_candidate_groups (completed_count w)

    unfoldable pub completed_round : Window B → Bool
    unfolding as_set
    completed_round w =
        let ids = completed_ids w in
        ltb 0 (length ids) && length ids % spec.candidate_round_size == 0 && is_initial_range ids

    -- Whether the conditions of the closing mode hold.
    unfoldable pub may_close : Window B → Bool
    unfolding completed_round
    may_close w =
        let reached = leb spec.target_accepted_groups (length w.accepted) || budget_exhausted w in
        if spec.drain_candidate_budget
        then budget_exhausted w
        else if spec.complete_round_after_target
        then completed_round w && reached
        else reached

    unfoldable pub selected_groups : Window B → List ℕ
    unfolding sort_by
    selected_groups w =
        if ltb (length w.accepted) spec.minimum_accepted_groups
        then []
        else if spec.complete_round_after_target || spec.drain_candidate_budget
        then sorted_accepted w
        else take spec.target_accepted_groups (sorted_accepted w)

    unfoldable pub closing_of : Window B → ℕ → Closing
    unfolding selected_groups
    closing_of w now = record {
      outcome =
          if ltb (length w.accepted) spec.minimum_accepted_groups
          then insufficient_informative_groups
          else ready;
      accepted_groups = length w.accepted;
      rejected_groups = length w.rejected;
      skipped_candidate_groups = length w.skipped;
      completed_candidate_groups = completed_count w;
      selected = selected_groups w;
      closed_at = now;
    }

    unfoldable pub close_open : ℕ → Option Closing → Action B (Option Closing)
    unfolding may_close closing_of
    close_open now (some c) w = (ok (some c), [])
    close_open now none w =
        if not (may_close w)
        then (ok none, [])
        else (ok (some (closing_of w now)), write_closed (closing_of w now) ∷ unlink_open ∷ [])

    -- `close_if_ready`
    unfoldable pub close_if_ready : ℕ → Action B (Option Closing)
    unfolding close_open
    close_if_ready now w = close_open now w.closed w

module _ {B : Type 0} (len : B → ℕ) (spec : CollectionWindowSpec) where
  abbrev pub Loaded : Type 0
  Loaded = B × B × GroupRecord

  -- One turn of the loop of `load_selected_groups`.
  unfoldable pub load_group : Option (Group B) → Result StoreError Loaded
  load_group none = err foreign_group
  load_group (some g) =
      if not (is_yes (PolicyIdentity-discrete g.policy spec.policy))
      then err other_policy
      else if not (len g.rollout == spec.group_size)
          || not (len g.rollout_end_obs == spec.group_size)
      then err invalid_group
      else ok (g.rollout, g.rollout_end_obs, g.group_record)

  unfoldable pub load_groups : List ℕ → Window B → Result StoreError (List Loaded)
  unfolding load_group
  load_groups [] w = ok []
  load_groups (i ∷ is) w = do
    g ← load_group (lookup i w.accepted)
    gs ← load_groups is w
    ok (g ∷ gs)

  unfoldable pub load_closed : Option Closing → Window B → Result StoreError (List Loaded)
  unfolding load_groups
  load_closed none w = err not_closed
  load_closed (some c) w = elim c.outcome [
    | ready ↦ load_groups c.selected w
    | insufficient_informative_groups ↦ err not_trainable
  ]

  -- `load_selected_groups`
  unfoldable pub load_selected_groups : Window B → Result StoreError (List Loaded)
  unfolding load_closed
  load_selected_groups w = load_closed w.closed w
