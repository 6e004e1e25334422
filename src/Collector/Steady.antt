-- ===== src/Collector/Steady.antt =====
-- What the parts of a collector (workflows/grfpo_fragmented_collection.py) do not raise: the refusal of a
-- candidate of another condition.
use verl_vla.Common.{
  ℕ, zero, suc, ◌+◌, ◌%◌, ◌==◌, ◌&&◌, ◌||◌, not, ◌≡◌, refl, String, Bool, true, false, Option, none,
  some, List, [], ◌∷◌, arith, Result, ok, err, ltb, if◌then◌else◌, subst,
}
use verl_vla.Collection.Spec.{CollectionWindowSpec, is_text}
use verl_vla.Collection.Window.{Window, Assignment, Lease, Action}
use verl_vla.Collector.World.{
  World, Surroundings, Task, Failure, changed_condition, missing_trace, bad_width, done, fail,
  ◌>>=◌, on_store, read_store, read_timer, on_machine, protect, finally,
}
use verl_vla.Collector.Lanes.{CollectorConfig}
use verl_vla.Collector.Waves.{all_done}
use verl_vla.Collector.Rules.{bind-rule, protect-rule, reraise-rule, finally-rule}
use verl_vla.Collector.Group.{
  Machine, Batches, Pulse, Rolling, renew_lease_if_due, beat, interact, collect_wave, collect_waves,
  publish_group, finish_group, roll_out, collect_one_group, renew_at, collated, gather, next_turn,
  or_raise,
}

abbrev pub is_changed : {A : Type 0} → Result Failure A → Bool
is_changed (ok a) = false
is_changed (err changed_condition) = true
is_changed (err e) = false

-- The task never raises that the condition has changed.
pub record IsSteady {B S A : Type 0} (m : Task B S A) : Type 0 where
  pub steady : (w : World B S) → is_changed (m w).0 ≡ false

-- A task that ends at once.
abbrev pub at_once :
    {B S A : Type 0} {m : Task B S A} → ((w : World B S) → is_changed (m w).0 ≡ false) → IsSteady m
at_once h = record { steady = h }

steady_at :
    {A C : Type 0} {r s : Result Failure A × C}
    → r ≡ s
    → is_changed r.0 ≡ false
    → is_changed s.0 ≡ false
steady_at same h = subst (λ t. is_changed t.0 ≡ false) same h

module _ {B S : Type 0} where
  pub bind-IsSteady :
      {A C : Type 0} (m : Task B S A) (k : A → Task B S C)
      → IsSteady m
      → ((a : A) → IsSteady (k a))
      → IsSteady (m >>= k)
  bind-IsSteady m k first more = at_once λ w.
      bind-rule m k w (λ r. is_changed r.0 ≡ false) (λ a v same. (more a).steady v)
        λ e v same. steady_at same (first.steady w)

  -- What holds of every answer of the first task may be used for the second.
  pub bind_given-IsSteady :
      {A C : Type 0} (m : Task B S A) (k : A → Task B S C) (P : A → Type 0)
      → IsSteady m
      → ((w v : World B S) (a : A) → m w ≡ (ok a, v) → P a)
      → ((a : A) → P a → IsSteady (k a))
      → IsSteady (m >>= k)
  bind_given-IsSteady m k P first given more = at_once λ w.
      bind-rule m k w (λ r. is_changed r.0 ≡ false)
        (λ a v same. (more a (given w v a same)).steady v)
        λ e v same. steady_at same (first.steady w)

  pub done-IsSteady : {A : Type 0} (a : A) → IsSteady {B = B} {S = S} (done a)
  done-IsSteady a = at_once λ w. refl

  pub protect-IsSteady :
      {A : Type 0} (m : Task B S A) (cleanup : Task B S (Unit {0}))
      → IsSteady m
      → IsSteady cleanup
      → IsSteady (protect m cleanup)
  protect-IsSteady m cleanup first last = at_once λ w.
      protect-rule m cleanup w (λ r. is_changed r.0 ≡ false) (λ a v same. refl)
        λ e v same.
          reraise-rule cleanup v (λ r. is_changed r.0 ≡ false) e
            (λ u same'. steady_at same (first.steady w))
            λ f u same'. steady_at same' (last.steady v)

  pub finally-IsSteady :
      {A : Type 0} (m : Task B S A) (last : Task B S (Unit {0}))
      → IsSteady m
      → IsSteady last
      → IsSteady (finally m last)
  finally-IsSteady m last first after = at_once λ w.
      finally-rule m last w (λ r. is_changed r.0 ≡ false) (λ v same. first.steady w)
        λ f v same. steady_at same (after.steady (m w).1)

  pub on_store-IsSteady :
      {A : Type 0} (around : Surroundings B) (method : ℕ → String → Action B A)
      → IsSteady {S = S} (on_store around method)
  unfolding on_store
  on_store-IsSteady around method = at_once λ w. ground arith

  pub read_store-IsSteady :
      {A : Type 0} (around : Surroundings B) (look : Window B → A)
      → IsSteady {S = S} (read_store around look)
  unfolding read_store
  read_store-IsSteady around look = at_once λ w. refl

  pub read_timer-IsSteady : (around : Surroundings B) → IsSteady {S = S} (read_timer around)
  unfolding read_timer
  read_timer-IsSteady around = at_once λ w. refl

  pub on_machine-IsSteady : {A : Type 0} (f : S → Option (A × S)) → IsSteady {B = B} (on_machine f)
  unfolding on_machine
  on_machine-IsSteady f = at_once λ w. ground arith

  pub if-IsSteady :
      {A : Type 0} (b : Bool) (m k : Task B S A)
      → IsSteady m
      → IsSteady k
      → IsSteady (if b then m else k)
  if-IsSteady true m k first second = first
  if-IsSteady false m k first second = second

module _ {B S : Type 0} (around : Surroundings B) (config : CollectorConfig) where
  renew_at-IsSteady :
      (p : Pulse) (l : Option Lease) (now : ℕ)
      → IsSteady {B = B} {S = S} (renew_at around config p l now)
  renew_at-IsSteady p none now = done-IsSteady p
  renew_at-IsSteady p (some l) now =
      if-IsSteady (ltb now (p.last + config.candidate_lease_heartbeat)) _ _ (done-IsSteady p)
        (bind-IsSteady _ _ (on_store-IsSteady around _) λ renewed. at_once λ w. refl)

  pub renew_lease_if_due-IsSteady :
      (p : Pulse) → IsSteady {B = B} {S = S} (renew_lease_if_due around config p)
  unfolding renew_lease_if_due
  renew_lease_if_due-IsSteady p =
      bind-IsSteady _ _ (read_timer-IsSteady around) λ now. renew_at-IsSteady p p.lease now

  pub beat-IsSteady : (n : ℕ) (p : Pulse) → IsSteady {B = B} {S = S} (beat around config n p)
  unfolding beat
  beat-IsSteady zero p = at_once λ w. refl
  beat-IsSteady (suc n) p = bind-IsSteady _ _ (renew_lease_if_due-IsSteady p) λ q. beat-IsSteady n q

module _ {B S O A F : Type 0} (around : Surroundings B) (machine : Machine S O A F)
    (batches : Batches B O A F) (spec : CollectionWindowSpec) (config : CollectorConfig)
    (width : ℕ) where
  interact-IsSteady :
      (n : ℕ) (t : Rolling O A F)
      → IsSteady {B = B} {S = S} (interact around machine batches spec config width n t)
  unfolding interact
  interact-IsSteady zero t = at_once λ w. refl
  interact-IsSteady (suc n) t =
      bind-IsSteady _ _ (renew_lease_if_due-IsSteady around config t.pulse) λ p.
        bind-IsSteady _ _ (on_machine-IsSteady _) λ action.
          bind-IsSteady _ _ (on_machine-IsSteady _) λ seen.
            let t' = next_turn around machine batches spec config width t p action seen in
            if-IsSteady (all_done t'.finished) (done t')
              (interact around machine batches spec config width n t') (at_once λ w. refl)
              (interact-IsSteady n t')

  collated-IsSteady :
      (t : Rolling O A F) (slots : List (O × A × F))
      → IsSteady {B = B} {S = S} (collated around machine batches spec config width t slots)
  collated-IsSteady t [] = at_once λ w. refl
  collated-IsSteady t (s ∷ slots) = at_once λ w. refl

  collect_wave-IsSteady :
      (a : Assignment) (start : ℕ) (p : Pulse)
      → IsSteady {B = B} {S = S} (collect_wave around machine batches spec config width a start p)
  unfolding collect_wave
  collect_wave-IsSteady a start p = bind-IsSteady _ _ (on_machine-IsSteady _) λ u.
      bind-IsSteady _ _ (on_machine-IsSteady _) λ v.
        bind-IsSteady _ _ (on_machine-IsSteady _) λ calls.
          bind-IsSteady _ _ (beat-IsSteady around config calls p) λ q.
            bind-IsSteady _ _ (on_machine-IsSteady _) λ obs.
              bind-IsSteady _ _ (interact-IsSteady config.max_policy_calls _)
                λ t. collated-IsSteady t t.slots

  collect_waves-IsSteady :
      (a : Assignment) (starts : List ℕ) (p : Pulse)
      → IsSteady {B = B} {S = S} (collect_waves around machine batches spec config width a starts p)
  unfolding collect_waves
  collect_waves-IsSteady a [] p = at_once λ w. refl
  collect_waves-IsSteady a (start ∷ more) p =
      bind-IsSteady _ _ (collect_wave-IsSteady a start p)
        λ wave. bind-IsSteady _ _ (collect_waves-IsSteady a more wave.0) λ rest. at_once λ w. refl

  or_raise-IsSteady :
      {X : Type 0} (o : Option X)
      → IsSteady {B = B} {S = S} (or_raise around machine batches spec config width o)
  or_raise-IsSteady none = at_once λ w. refl
  or_raise-IsSteady (some x) = at_once λ w. refl

  gather-IsSteady :
      (rollouts ends : List B)
      → IsSteady {B = B} {S = S} (gather around machine batches spec config width rollouts ends)
  gather-IsSteady [] ends = or_raise-IsSteady _
  gather-IsSteady (r ∷ s ∷ more) ends = or_raise-IsSteady _
  gather-IsSteady (r ∷ []) [] = or_raise-IsSteady _
  gather-IsSteady (r ∷ []) (e ∷ []) = at_once λ w. refl
  gather-IsSteady (r ∷ []) (e ∷ f ∷ more) = or_raise-IsSteady _

  publish_group-IsSteady :
      (a : Assignment) (p : Pulse) (rollout end_obs : B)
      → IsSteady {B = B} {S = S}
          (publish_group around machine batches spec config width a p rollout end_obs)
  unfolding publish_group
  publish_group-IsSteady a p rollout end_obs =
      bind-IsSteady _ _ (or_raise-IsSteady _) λ informative.
        bind-IsSteady _ _ (on_store-IsSteady around _) λ status.
          bind-IsSteady _ _ (on_store-IsSteady around _)
            λ closed. bind-IsSteady _ _ (read_store-IsSteady around _) λ accepted. at_once λ w. refl

  finish_group-IsSteady :
      (a : Assignment) (p : Pulse) (rollout end_obs : B)
      → IsSteady {B = B} {S = S}
          (finish_group around machine batches spec config width a p rollout end_obs)
  unfolding finish_group
  finish_group-IsSteady a p rollout end_obs =
      if-IsSteady (not (batches.is_intact rollout end_obs)) _ _
        (bind-IsSteady _ _ (on_store-IsSteady around _) λ u. at_once λ w. refl)
        (if-IsSteady (is_text spec.actor_objective "flow_grpo" && not (batches.has_trace rollout))
          (fail missing_trace)
          (publish_group around machine batches spec config width a p rollout end_obs)
          (at_once λ w. refl) (publish_group-IsSteady a p rollout end_obs))

  roll_out-IsSteady :
      (a : Assignment) (p : Pulse)
      → IsSteady {B = B} {S = S} (roll_out around machine batches spec config width a p)
  unfolding roll_out
  roll_out-IsSteady a p = bind-IsSteady _ _ (collect_waves-IsSteady a _ p) λ waves.
      bind-IsSteady _ _ (gather-IsSteady waves.rollouts waves.ends)
        λ group. finish_group-IsSteady a waves.pulse group.0 group.1

  pub collect_one_group-IsSteady :
      (a : Assignment) (lease : Option Lease)
      → IsSteady {B = B} {S = S}
          (collect_one_group around machine batches spec config width a lease)
  unfolding collect_one_group
  collect_one_group-IsSteady a lease = bind-IsSteady _ _ (read_timer-IsSteady around) λ start.
      if-IsSteady (ltb width 1 || not (spec.group_size % width == 0)) (fail bad_width) _
        (at_once λ w. refl) (roll_out-IsSteady a (record { lease = lease; last = start }))
