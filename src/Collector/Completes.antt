-- ===== src/Collector/Completes.antt =====
-- The group of a lease that is not taken away (workflows/grfpo_fragmented_collection.py): where its collection does
-- not raise, its candidate has an outcome, or the window is closed.
use verl_vla.Common.{
  ℕ, zero, suc, ◌≡◌, refl, sym, ap, ◌∙◌, String, true, not, ◌&&◌, ◌||◌, Option, none, some, List,
  [], ◌∷◌, arith, ok, is_some, lookup-insert, ltb, ◌%◌, ◌==◌, ◌⊎◌, inl, inr, Bool-cases,
  Result-cases, Option-cases,
}
use verl_vla.Collection.Spec.{CollectionWindowSpec, is_text}
use verl_vla.Collection.Window.{
  Window, Assignment, Lease, GroupRecord, Closing, candidate_complete, run, apply,
}
use verl_vla.Collection.Leases.{lease_is_current}
use verl_vla.Collection.Commit.{
  Committed, commit_group, commit_locked, publish_locked, check_candidate, group_of, rejection_of,
}
use verl_vla.Collection.Close.{close_if_ready, close_open}
use verl_vla.Collector.World.{
  Surroundings, missing_trace, bad_width, unsound_state, no_interaction, bad_group,
}
use verl_vla.Collector.Lanes.{CollectorConfig}
use verl_vla.Collector.Waves.{all_done, wave_starts}
use verl_vla.Collector.Group.{
  Machine, Batches, Pulse, Rolling, next_turn, interact, collated, collect_wave, collect_waves,
  or_raise, gather, publish_group, finish_group, roll_out, collect_one_group, record_of,
}
use verl_vla.Collector.Gives.{
  Gives, Gives-bind, Gives-done, Gives-fail, Gives-if, Gives-on_machine, Gives-read_timer,
  Gives-read_store, Gives-on_store, Gives-pre,
}
use verl_vla.Collector.Live.{
  Grown, IsCalm, IsLive, calm-IsLive, renew_lease_if_due-IsLive, beat-IsLive,
}

module _ {B : Type 0} (len : B → ℕ) (spec : CollectionWindowSpec) (a : Assignment)
    (rollout end_obs : B) (r : GroupRecord) (w : Window B) (status : Committed) where
  publish_locked-Grown : Grown w (run w (publish_locked len spec a rollout end_obs r w).1)
  unfolding publish_locked run apply
  publish_locked-Grown i h =
      let g = group_of len spec a rollout end_obs r in
      let x = rejection_of len spec a r in
      ground (
        arith,
        h,
        lookup-insert a.candidate_index i g w.accepted,
        lookup-insert a.candidate_index i x w.rejected,
      )

  publish_locked-completes :
      (publish_locked len spec a rollout end_obs r w).0 ≡ ok status
      → let v = run w (publish_locked len spec a rollout end_obs r w).1 in
        (candidate_complete v a.candidate_index ≡ true) ⊎ (is_some v.closed ≡ true)
  unfolding publish_locked run apply
  publish_locked-completes answered =
      let i = a.candidate_index in
      let g = group_of len spec a rollout end_obs r in
      let x = rejection_of len spec a r in
      elim (Bool-cases (candidate_complete w i)) [
        | inl old ↦ rw old (inl old)
        | inr todo ↦ elim (Bool-cases (is_some w.closed)) [
          | inl late ↦ rw (todo, late) (inr late)
          | inr open_still ↦ elim (Bool-cases w.is_open) [
            | inr shut ↦ absurd (ground (arith, answered, todo, open_still, shut))
            | inl is_open ↦ elim (Bool-cases r.informative) [
              | inl yes_ ↦
                  rw (todo, open_still, is_open, yes_)
                    (inl (ground (arith, lookup-insert i i g w.accepted)))
              | inr no_ ↦
                  rw (todo, open_still, is_open, no_)
                    (inl (ground (arith, lookup-insert i i x w.rejected)))
            ]
          ]
        ]
      ]

  -- With a current lease of its candidate, a commit that answers comes to the locked section.
  commit_group-is_publish :
      (l : Lease)
      → l.assignment ≡ a
      → lease_is_current w l ≡ true
      → (commit_group len spec a rollout end_obs r (some l) w).0 ≡ ok status
      → commit_group len spec a rollout end_obs r (some l) w
        ≡ publish_locked len spec a rollout end_obs r w
  unfolding commit_group commit_locked
  commit_group-is_publish l same current answered =
      elim (Result-cases (check_candidate len spec a rollout end_obs r)) [
        | inr (e, q) ↦ absurd (ground (arith, answered, q))
        | inl (u, q) ↦ rw (q, current) (ground (arith, same))
      ]

-- The candidate has an outcome, or the window is closed; no outcome of `u` is lost.
abbrev Settled : {B : Type 0} → Window B → ℕ → Window B → Type 0
Settled u i w = ((candidate_complete w i ≡ true) ⊎ (is_some w.closed ≡ true)) × Grown u w

-- What the answer of a collected group says of the window.
abbrev pub IsDone : {B : Type 0} → Window B → ℕ → Option Closing → Window B → Type 0
IsDone u i closed w = ((candidate_complete w i ≡ true) ⊎ (is_some closed ≡ true)) × Grown u w

module _ {B : Type 0} (owner : String) (u : Window B) (spec : CollectionWindowSpec) where
  calm-Settled :
      {around : Surroundings B} (calm : IsCalm around owner) (i n : ℕ) (w : Window B)
      → Settled u i w
      → Settled u i (around.others n w)
  calm-Settled calm i n w (inl done_, grown) =
      (inl (calm.outcomes n w i done_), λ j h. calm.outcomes n w j (grown j h))
  calm-Settled calm i n w (inr shut, grown) =
      (inr (calm.closing n w shut), λ j h. calm.outcomes n w j (grown j h))

  close-keeps :
      (at i : ℕ) (w : Window B)
      → candidate_complete (run w (close_if_ready spec at w).1) i ≡ candidate_complete w i
  unfolding close_if_ready close_open run apply
  close-keeps at i w = elim (Option-cases w.closed) [
    | inl open_ ↦ rw (close_open, open_) (ground arith)
    | inr (c, q) ↦ rw (close_open, q) refl
  ]

  close-tells :
      (at : ℕ) (w : Window B) (closed : Option Closing)
      → is_some w.closed ≡ true
      → (close_if_ready spec at w).0 ≡ ok closed
      → is_some closed ≡ true
  unfolding close_if_ready close_open
  close-tells at w closed shut answered = elim (Option-cases w.closed) [
    | inl open_ ↦ ground (arith, shut, open_)
    | inr (c, q) ↦ ground (arith, answered, q)
  ]

  close-IsDone :
      (i at : ℕ) (w : Window B) (closed : Option Closing)
      → Settled u i w
      → (close_if_ready spec at w).0 ≡ ok closed
      → IsDone u i closed (run w (close_if_ready spec at w).1)
  close-IsDone i at w closed (inl done_, grown) answered =
      (inl (close-keeps at i w ∙ done_), λ j h. close-keeps at j w ∙ grown j h)
  close-IsDone i at w closed (inr shut, grown) answered =
      (inr (close-tells at w closed shut answered), λ j h. close-keeps at j w ∙ grown j h)

  calm-IsDone :
      {around : Surroundings B} (calm : IsCalm around owner) (i : ℕ) (closed : Option Closing)
      (n : ℕ) (w : Window B)
      → IsDone u i closed w
      → IsDone u i closed (around.others n w)
  calm-IsDone calm i closed n w (inl done_, grown) =
      (inl (calm.outcomes n w i done_), λ j h. calm.outcomes n w j (grown j h))
  calm-IsDone calm i closed n w (inr shut, grown) =
      (inr shut, λ j h. calm.outcomes n w j (grown j h))

module _ {B S O A F : Type 0} (around : Surroundings B) (machine : Machine S O A F)
    (batches : Batches B O A F) (spec : CollectionWindowSpec) (config : CollectorConfig) (width : ℕ)
    (owner : String) (calm : IsCalm around owner) (u : Window B) (a : Assignment) where
  interact-IsLive :
      (n : ℕ) (t : Rolling O A F)
      → Gives {S = S}
          (IsLive owner u a t.pulse)
          (interact around machine batches spec config width n t)
          (λ t'. IsLive owner u a t'.pulse)
  unfolding interact
  interact-IsLive zero t = Gives-done t λ w live. live
  interact-IsLive (suc n) t =
      Gives-bind (renew_lease_if_due-IsLive owner u a around calm config t.pulse) λ p.
        Gives-bind (Gives-on_machine (machine.infer t.obs)) λ action.
          Gives-bind (Gives-on_machine (machine.step action)) λ seen.
            let t' = next_turn around machine batches spec config width t p action seen in
            Gives-if (all_done t'.finished) (Gives-done t' λ w live. live) (interact-IsLive n t')

  collated-IsLive :
      (t : Rolling O A F) (slots : List (O × A × F))
      → Gives {S = S}
          (IsLive owner u a t.pulse)
          (collated around machine batches spec config width t slots)
          (λ x. IsLive owner u a x.0)
  collated-IsLive t [] = Gives-fail no_interaction
  collated-IsLive t (s ∷ slots) = Gives-done _ λ w live. live

  collect_wave-IsLive :
      (start : ℕ) (p : Pulse)
      → Gives {S = S}
          (IsLive owner u a p)
          (collect_wave around machine batches spec config width a start p)
          (λ x. IsLive owner u a x.0)
  unfolding collect_wave
  collect_wave-IsLive start p = Gives-bind (Gives-on_machine _) λ x.
      Gives-bind (Gives-on_machine _) λ y. Gives-bind (Gives-on_machine _) λ calls.
        Gives-bind (beat-IsLive owner u a around calm config calls p) λ q.
          Gives-bind (Gives-on_machine _) λ obs.
            Gives-bind (interact-IsLive config.max_policy_calls _) λ t. collated-IsLive t t.slots

  collect_waves-IsLive :
      (starts : List ℕ) (p : Pulse)
      → Gives {S = S}
          (IsLive owner u a p)
          (collect_waves around machine batches spec config width a starts p)
          (λ x. IsLive owner u a x.pulse)
  unfolding collect_waves
  collect_waves-IsLive [] p = Gives-done _ λ w live. live
  collect_waves-IsLive (start ∷ more) p =
      Gives-bind (collect_wave-IsLive start p)
        λ wave. Gives-bind (collect_waves-IsLive more wave.0) λ rest. Gives-done _ λ w live. live

  or_raise-keeps :
      (P : Window B → Type 0) {X : Type 0} (o : Option X)
      → Gives {S = S} P (or_raise around machine batches spec config width o) (λ x. P)
  or_raise-keeps P none = Gives-fail bad_group
  or_raise-keeps P (some x) = Gives-done x λ w p. p

  gather-keeps :
      (P : Window B → Type 0) (rollouts ends : List B)
      → Gives {S = S} P (gather around machine batches spec config width rollouts ends) (λ x. P)
  gather-keeps P [] ends = or_raise-keeps P _
  gather-keeps P (r ∷ s ∷ more) ends = or_raise-keeps P _
  gather-keeps P (r ∷ []) [] = or_raise-keeps P _
  gather-keeps P (r ∷ []) (e ∷ []) = Gives-done (r, e) λ w p. p
  gather-keeps P (r ∷ []) (e ∷ f ∷ more) = or_raise-keeps P _

  commit-Settled :
      (p : Pulse) (rollout end_obs : B) (r : GroupRecord) (w : Window B) (status : Committed)
      → IsLive owner u a p w
      → (commit_group batches.size spec a rollout end_obs r p.lease w).0 ≡ ok status
      → Settled u a.candidate_index
          (run w (commit_group batches.size spec a rollout end_obs r p.lease w).1)
  commit-Settled p rollout end_obs r w status live answered =
      let answered' = rw live.is_lease at answered in
      let same =
        commit_group-is_publish batches.size spec a rollout end_obs r w status live.lease live.same
          live.current answered' in
      rw (live.is_lease, same)
        (
          publish_locked-completes batches.size spec a rollout end_obs r w status
              (sym (ap (λ x. x.0) same) ∙ answered'),
          λ i h.
              publish_locked-Grown batches.size spec a rollout end_obs r w status i
                (live.grown i h),
        )

  publish_group-IsDone :
      (p : Pulse) (rollout end_obs : B)
      → Gives {S = S}
          (IsLive owner u a p)
          (publish_group around machine batches spec config width a p rollout end_obs)
          (λ r. IsDone u a.candidate_index r.closed)
  unfolding publish_group
  publish_group-IsDone p rollout end_obs =
      Gives-bind (or_raise-keeps (IsLive owner u a p) _) λ informative.
        Gives-bind
          (Gives-on_store around _ (calm-IsLive owner u a p calm) λ at token w status live answered.
            commit-Settled p rollout end_obs (record_of spec a informative) w status live answered)
          λ status.
            Gives-bind
              (Gives-on_store around _ (calm-Settled owner u spec calm a.candidate_index)
                λ at token w closed settled answered.
                  close-IsDone owner u spec a.candidate_index at w closed settled answered)
              λ closed.
                Gives-bind
                  (Gives-read_store around _
                    (calm-IsDone owner u spec calm a.candidate_index closed))
                  λ accepted. Gives-done _ λ w d. d

  finish_group-IsDone :
      (p : Pulse) (rollout end_obs : B)
      → Gives {S = S}
          (IsLive owner u a p)
          (finish_group around machine batches spec config width a p rollout end_obs)
          (λ r. IsDone u a.candidate_index r.closed)
  unfolding finish_group
  finish_group-IsDone p rollout end_obs =
      Gives-if (not (batches.is_intact rollout end_obs))
        (Gives-bind {Q = λ x w. Unit}
          (Gives-on_store around _ (calm-IsLive owner u a p calm) λ at token w x live answered. tt)
          λ x. Gives-fail unsound_state)
        (Gives-if (is_text spec.actor_objective "flow_grpo" && not (batches.has_trace rollout))
          (Gives-fail missing_trace) (publish_group-IsDone p rollout end_obs))

  -- The group of a live lease: where it does not raise, the candidate has an outcome or the window is closed.
  pub collect_one_group-IsDone :
      (l : Lease)
      → l.owner_id ≡ owner
      → l.assignment ≡ a
      → Gives {S = S}
          (λ w. (lease_is_current w l ≡ true) × Grown u w)
          (collect_one_group around machine batches spec config width a (some l))
          (λ r. IsDone u a.candidate_index r.closed)
  unfolding collect_one_group roll_out
  collect_one_group-IsDone l owned same = Gives-bind (Gives-read_timer around) λ start.
      Gives-if (ltb width 1 || not (spec.group_size % width == 0)) (Gives-fail bad_width) (
        Gives-bind
          (Gives-pre (begun start) (
            collect_waves-IsLive (wave_starts spec.group_size width)
              (record { lease = some l; last = start })))
          λ waves.
            Gives-bind (gather-keeps (IsLive owner u a waves.pulse) waves.rollouts waves.ends)
              λ group. finish_group-IsDone waves.pulse group.0 group.1)
    where
      begun :
          (start : ℕ) (w : Window B)
          → (lease_is_current w l ≡ true) × Grown u w
          → IsLive owner u a (record { lease = some l; last = start }) w
      begun start w (current, grown) = record {
        lease = l;
        is_lease = refl;
        same = same;
        owned = owned;
        current = current;
        grown = grown;
      }
