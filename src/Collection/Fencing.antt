-- ===== src/Collection/Fencing.antt =====
-- The calls of a worker that lost its lease (trainer/grfpo/collection_store.py).
use verl_vla.Common.{
  ℕ, zero, suc, ◌≡◌, ◌≢◌, refl, String, true, false, some, List, [], ◌∷◌, arith, lookup-insert,
  lookup-remove, take, All, All-map, inl, inr, Result, ok, err,
}
use verl_vla.Collection.Spec.{CollectionWindowSpec}
use verl_vla.Collection.Window.{
  Assignment, Lease, GroupRecord, Window, Effect, run, apply, write_lease, unlink_lease, StoreError,
}
use verl_vla.Collection.Leases.{
  is_same_lease, lease_is_current, renewed, renew_candidate_lease, release_candidate_lease,
  record_integrity_failure,
}
use verl_vla.Collection.Origins.{renew_cases, Origin, effects-Origin}
use verl_vla.Collection.Commit.{commit_group, check_candidate, when_valid, commit_locked}
use verl_vla.Collection.System.{Call, effects, after, Reach, here, call, claim_call, renew_call}

-- No later claim draws the token again.
abbrev pub Avoids : {B : Type 0} → String → Call B → Type 0
Avoids token (claim_call _ _ _ _ _ drawn) = drawn ≢ token
Avoids token _ = Unit

module _ {B : Type 0} (lost : Lease) where
  -- The operation does not store the lost lease again.
  abbrev NotStored : Effect B → Type 0
  NotStored (write_lease i l) =
      i ≡ lost.assignment.candidate_index → is_same_lease lost (some l) ≡ false
  NotStored _ = Unit

  apply-stale :
      (w : Window B) (e : Effect B)
      → NotStored e
      → lease_is_current w lost ≡ false
      → lease_is_current (apply w e) lost ≡ false
  unfolding apply lease_is_current
  apply-stale w (write_lease i l) h s =
      ground (arith, lookup-insert i lost.assignment.candidate_index l w.leases)
  apply-stale w (unlink_lease i) h s =
      ground (arith, lookup-remove i lost.assignment.candidate_index w.leases)
  apply-stale w _ h s = s

  run-stale :
      (w : Window B) (es : List (Effect B)) (n : ℕ)
      → All NotStored es
      → lease_is_current w lost ≡ false
      → lease_is_current (run w (take n es)) lost ≡ false
  unfolding run
  run-stale w es zero h s = s
  run-stale w [] (suc n) h s = s
  run-stale w (e ∷ es) (suc n) h s = run-stale (apply w e) es n h.1 (apply-stale w e h.0 s)

  module _ (len : B → ℕ) (spec : CollectionWindowSpec) where
    renewed-not_same :
        (c l : Lease) (timeout now : ℕ)
        → is_same_lease l (some c) ≡ true
        → is_same_lease lost (some c) ≡ false
        → is_same_lease lost (some (renewed l timeout now)) ≡ false
    unfolding is_same_lease
    renewed-not_same c l timeout now mine other = ground arith

    -- No call whose claims draw another token stores a lost lease again.
    NotStored-of_Origin :
        (c : Call B) (w : Window B) (e : Effect B)
        → lease_is_current w lost ≡ false
        → Avoids lost.token c
        → Origin c w e
        → NotStored e
    unfolding is_same_lease lease_is_current
    NotStored-of_Origin (claim_call _ _ _ _ _ drawn) w (write_lease i l) s h o = λ _. ground arith
    NotStored-of_Origin (renew_call old timeout now) w (write_lease i l) s h (x, found, mine, e) =
        λ same. rw e (renewed-not_same x old timeout now mine (rw (← same, found) at s))
    NotStored-of_Origin c w (write_lease i l) s h o = absurd o
    NotStored-of_Origin c w _ s h o = tt

    effects-NotStored :
        (c : Call B) (w : Window B)
        → lease_is_current w lost ≡ false
        → Avoids lost.token c
        → All NotStored (effects len spec c w)
    effects-NotStored c w s h =
        All-map (Origin c w) NotStored (effects len spec c w) (λ e. NotStored-of_Origin c w e s h)
          (effects-Origin len spec c w)

    Reach-stale :
        {w v : Window B}
        → Reach len spec (Avoids lost.token) w v
        → lease_is_current w lost ≡ false
        → lease_is_current v lost ≡ false
    unfolding after
    Reach-stale here s = s
    Reach-stale (call {w = u} c n r h) s =
        let t = Reach-stale r s in
        run-stale u (effects len spec c u) n (effects-NotStored c u t h) t

    stale-commit_locked :
        (a : Assignment) (rollout end_obs : B) (r : GroupRecord) (v : Window B)
        (checked : Result StoreError (Unit {0}))
        → lease_is_current v lost ≡ false
        → (when_valid len spec checked (commit_locked len spec a rollout end_obs r (some lost)) v).1
          ≡ []
    unfolding commit_locked
    stale-commit_locked a rollout end_obs r v (err e) s = refl
    stale-commit_locked a rollout end_obs r v (ok tt) s = rw s (ground arith)

    stale-commit :
        (a : Assignment) (rollout end_obs : B) (r : GroupRecord) (v : Window B)
        → lease_is_current v lost ≡ false
        → (commit_group len spec a rollout end_obs r (some lost) v).1 ≡ []
    unfolding commit_group
    stale-commit a rollout end_obs r v s =
        stale-commit_locked a rollout end_obs r v (check_candidate len spec a rollout end_obs r) s

    stale-renew :
        (timeout now : ℕ) (v : Window B)
        → lease_is_current v lost ≡ false
        → (renew_candidate_lease lost timeout now v).1 ≡ []
    unfolding lease_is_current
    stale-renew timeout now v s = elim (renew_cases lost timeout now v) [
      | inl nothing ↦ nothing
      | inr (c, found, mine, wrote) ↦ cc (found, mine, s)
    ]

    stale-release :
        (v : Window B) → lease_is_current v lost ≡ false → (release_candidate_lease lost v).1 ≡ []
    unfolding release_candidate_lease lease_is_current
    stale-release v s = rw s (ground arith)

    stale-failure :
        (a : Assignment) (now : ℕ) (v : Window B)
        → lease_is_current v lost ≡ false
        → (record_integrity_failure a (some lost) now v).1 ≡ []
    unfolding record_integrity_failure
    stale-failure a now v s = rw s

    -- A lease that is no longer the stored one stays without effect for good: after any calls whose
    -- claims draw other tokens, in any order and wherever they are cut short, its holder can neither
    -- publish nor reject a candidate with it, nor renew it, nor release it, nor record an integrity
    -- failure with it: each of these calls does no file operation at all.
    pub lost_lease-fenced :
        {w v : Window B} (a : Assignment) (rollout end_obs : B) (r : GroupRecord) (timeout now : ℕ)
        → lease_is_current w lost ≡ false
        → Reach len spec (Avoids lost.token) w v
        → ((commit_group len spec a rollout end_obs r (some lost) v).1 ≡ [])
          × ((renew_candidate_lease lost timeout now v).1 ≡ [])
          × ((release_candidate_lease lost v).1 ≡ [])
          × ((record_integrity_failure a (some lost) now v).1 ≡ [])
    lost_lease-fenced {v = v} a rollout end_obs r timeout now s reach =
        let t = Reach-stale reach s in
        (
          stale-commit a rollout end_obs r v t,
          stale-renew timeout now v t,
          stale-release v t,
          stale-failure a now v t,
        )
