-- ===== src/Collector/Group.antt =====
-- `_collect_one_group` (workflows/grfpo_fragmented_collection.py): a candidate's group is rolled out wave by
-- wave, checked, published, and the window is closed when it is ready. The simulator with the model, and the
-- operations on batches, are interfaces.
use verl_vla.Common.{
  ℕ, zero, suc, ◌+◌, ◌%◌, Bool, false, ◌||◌, ◌&&◌, not, Option, none, some, List, [], ◌∷◌, ◌++◌,
  ltb, ◌==◌, if◌then◌else◌, length, replicate,
}
use verl_vla.Collection.Names.{candidate_id}
use verl_vla.Collection.Spec.{CollectionWindowSpec, is_text}
use verl_vla.Collection.Window.{Assignment, Lease, GroupRecord, Closing}
use verl_vla.Collection.Leases.{renew_candidate_lease, record_integrity_failure}
use verl_vla.Collection.Commit.{Committed, commit_group}
use verl_vla.Collection.Close.{close_if_ready}
use verl_vla.Collector.World.{
  Surroundings, Task, done, fail, ◌>>=◌, on_machine, on_store, read_store, read_timer, bad_width,
  no_interaction, unsound_state, missing_trace, bad_group,
}
use verl_vla.Collector.Lanes.{CollectorConfig}
use verl_vla.Collector.Waves.{
  wave_starts, slice, wave_episodes, Feedback, ended, or_lanes, all_done,
}

-- The simulator with the policy model, in the states `S`: it is built for one task and suite, with a number of
-- environments; each call may raise.
pub record Machine (S O A F : Type 0) : Type 0 where
  pub build : Assignment → ℕ → S → Option S
  pub build_lane : List Assignment → S → Option S
  pub load_model : S → Option S
  pub install : List ℕ → List ℕ → S → Option S
  pub restart : S → Option S
  pub callbacks : S → ℕ
  pub reset : S → Option (O × S)
  pub label : List ℕ → O → S → O × S
  pub infer : O → S → Option (A × S)
  pub step : A → S → Option ((O × F) × S)
  pub flags : F → Feedback
  pub close : S → Option S

-- What the collector does with batches: collation of the slots of a wave, the final observation, the
-- joining of waves, the integrity test, the trace test, and the validation of a group.
pub record Batches (B O A F : Type 0) : Type 0 where
  pub size : B → ℕ
  pub collate : List (O × A × F) → B
  pub final : O → B
  pub join : List B → List B → Option (B × B)
  pub is_intact : B → B → Bool
  pub has_trace : B → Bool
  pub is_informative : Assignment → B → Option Bool

-- The variables `lease` and `last_lease_heartbeat` of `_collect_one_group`.
pub record Pulse : Type 0 where
  pub lease : Option Lease
  pub last : ℕ

-- The variables of the loop over policy calls.
pub record Rolling (O A F : Type 0) : Type 0 where
  pub pulse : Pulse
  pub obs : O
  pub slots : List (O × A × F)
  pub finished : List Bool

pub record Waved (B : Type 0) : Type 0 where
  pub pulse : Pulse
  pub rollouts : List B
  pub ends : List B

-- The returned dictionary, as far as the collectors read it.
pub record Collected : Type 0 where
  pub status : Committed
  pub candidate_index : ℕ
  pub accepted : ℕ
  pub closed : Option Closing

-- The call of the machine that gives no value.
abbrev pub plain : {S : Type 0} → Option S → Option (Unit {0} × S)
plain none = none
plain (some s) = some (tt, s)

abbrev pub record_of : CollectionWindowSpec → Assignment → Bool → GroupRecord
record_of spec a informative = record {
  group_id = candidate_id a.candidate_index;
  rollout_policy_version = spec.policy.rollout_policy_version;
  informative = informative;
  task_name = a.task_name;
}

-- The first observation of a wave, after the episode ids are written to it and to the environment.
abbrev pub labelled : {S O : Type 0} → (O → S → O × S) → Option (O × S) → Option (O × S)
labelled label none = none
labelled label (some (obs, s)) = some (label obs s)

module _ {B S : Type 0} (around : Surroundings B) (config : CollectorConfig) where
  abbrev pub renewal : Lease → ℕ → Task B S Pulse
  renewal l now = do
    renewed ← on_store around λ at token. renew_candidate_lease l config.candidate_lease_timeout at
    done (record { lease = some renewed; last = now })

  abbrev pub renew_at : Pulse → Option Lease → ℕ → Task B S Pulse
  renew_at p none now = done p
  renew_at p (some l) now =
      let due = renewal l now in
      if ltb now (p.last + config.candidate_lease_heartbeat) then done p else due

  -- `renew_lease_if_due`
  unfoldable pub renew_lease_if_due : Pulse → Task B S Pulse
  renew_lease_if_due p = do now ← read_timer around; renew_at p p.lease now

  -- The progress callback of a reset, called any number of times.
  unfoldable pub beat : ℕ → Pulse → Task B S Pulse
  beat zero p = done p
  beat (suc n) p = do q ← renew_lease_if_due p; beat n q

module _ {B S O A F : Type 0} (around : Surroundings B) (machine : Machine S O A F)
    (batches : Batches B O A F) (spec : CollectionWindowSpec) (config : CollectorConfig)
    (width : ℕ) where
  abbrev pub next_turn : Rolling O A F → Pulse → A → O × F → Rolling O A F
  next_turn t p action (obs, feedback) = record {
    pulse = p;
    obs = obs;
    slots = t.slots ++ (t.obs, action, feedback) ∷ [];
    finished =
        or_lanes t.finished
          (ended (machine.flags feedback).terminated (machine.flags feedback).truncated);
  }

  -- `for _ in range(max_policy_calls)`
  unfoldable pub interact : ℕ → Rolling O A F → Task B S (Rolling O A F)
  interact zero t = done t
  interact (suc calls) t = do
    p ← renew_lease_if_due around config t.pulse
    action ← on_machine (machine.infer t.obs)
    seen ← on_machine (machine.step action)
    let next = next_turn t p action seen
    let rest = interact calls next
    if all_done next.finished then done next else rest

  -- `collate_candidate_trajectory`
  abbrev pub collated : Rolling O A F → List (O × A × F) → Task B S (Pulse × (B × B))
  collated t [] = fail no_interaction
  collated t (s ∷ slots) = done (t.pulse, (batches.collate (s ∷ slots), batches.final t.obs))

  -- One turn of the loop over the waves.
  unfoldable pub collect_wave : Assignment → ℕ → Pulse → Task B S (Pulse × (B × B))
  collect_wave a start p = do
    _ ← on_machine λ s. plain (
        machine.install (replicate width a.layout_id) (slice start (start + width) a.policy_seeds)
          s)
    _ ← on_machine λ s. plain (machine.restart s)
    calls ← on_machine λ s. some (machine.callbacks s, s)
    q ← beat around config calls p
    obs ← on_machine λ s. labelled (machine.label (wave_episodes start width)) (machine.reset s)
    t ←
        interact config.max_policy_calls
          (record { pulse = q; obs = obs; slots = []; finished = replicate width false })
    collated t t.slots

  unfoldable pub collect_waves : Assignment → List ℕ → Pulse → Task B S (Waved B)
  collect_waves a [] p = done (record { pulse = p; rollouts = []; ends = [] })
  collect_waves a (start ∷ more) p = do
    wave ← collect_wave a start p
    rest ← collect_waves a more wave.0
    done (record {
      pulse = rest.pulse;
      rollouts = wave.1.0 ∷ rest.rollouts;
      ends = wave.1.1 ∷ rest.ends;
    })

  abbrev pub or_raise : {X : Type 0} → Option X → Task B S X
  or_raise none = fail bad_group
  or_raise (some x) = done x

  -- A single wave is the group; several are joined.
  abbrev pub gather : List B → List B → Task B S (B × B)
  gather (rollout ∷ []) (end_obs ∷ []) = done (rollout, end_obs)
  gather rollouts ends = or_raise (batches.join rollouts ends)

  -- The end of `_collect_one_group`, with a sound rollout.
  unfoldable pub publish_group : Assignment → Pulse → B → B → Task B S Collected
  publish_group a p rollout end_obs = do
    informative ← or_raise (batches.is_informative a rollout)
    status ← on_store around λ at token.
        commit_group batches.size spec a rollout end_obs (record_of spec a informative) p.lease
    closed ← on_store around λ at token. close_if_ready spec at
    accepted ← read_store around λ w. length w.accepted
    done (record {
      status = status;
      candidate_index = a.candidate_index;
      accepted = accepted;
      closed = closed;
    })

  unfoldable pub finish_group : Assignment → Pulse → B → B → Task B S Collected
  finish_group a p rollout end_obs =
      let unsound = on_store around (λ at token. record_integrity_failure a p.lease at) >>= λ _.
      fail unsound_state in
      if not (batches.is_intact rollout end_obs)
      then unsound
      else if is_text spec.actor_objective "flow_grpo" && not (batches.has_trace rollout)
      then fail missing_trace
      else publish_group a p rollout end_obs

  unfoldable pub roll_out : Assignment → Pulse → Task B S Collected
  roll_out a p = do
    waves ← collect_waves a (wave_starts spec.group_size width) p
    group ← gather waves.rollouts waves.ends
    finish_group a waves.pulse group.0 group.1

  -- `_collect_one_group`
  unfoldable pub collect_one_group : Assignment → Option Lease → Task B S Collected
  collect_one_group a lease = do
    start ← read_timer around
    let group = roll_out a (record { lease = lease; last = start })
    if ltb width 1 || not (spec.group_size % width == 0) then fail bad_width else group
