-- ===== src/Collection/Safety.antt =====
-- The file operations of each method of the store (trainer/grfpo/collection_store.py) against the invariant.
use verl_vla.Common.{
  ℕ, ◌<◌, ◌≡◌, refl, Option, none, some, List, [], ◌∷◌, String, arith, All, Bool-cases, Result, ok,
  err, inl, inr,
}
use verl_vla.Collection.Names.{entry_leb, parse_candidate_id}
use verl_vla.Collection.Spec.{CollectionWindowSpec, is_text}
use verl_vla.Collection.Leases.{
  index_leb, prefer, claim_loop, claim_candidate, renew_candidate_lease, release_candidate_lease,
  abandon_loop, abandon_owner_leases, record_integrity_failure,
}
use verl_vla.Common.Sort.{sort_by}
use verl_vla.Collection.Commit.{
  commit_group, check_candidate, commit_locked, publish_locked, skip_loop, skip_locked,
  skip_window_candidates, skip_manifest, parse_ids, parse_next, when_valid,
}
use verl_vla.Collection.Close.{
  initialize, initialize_with, close_if_ready, close_open, closing_of, may_close, to_manifest,
}
use verl_vla.Collection.Window.{
  Assignment, Lease, GroupRecord, Window, fresh, apply, unlink_lease, StoreError, Manifest,
  candidate_complete, Closing,
}
use verl_vla.Collection.System.{
  Call, effects, after, InSchedule, Reach, here, call, initialize_call, claim_call, renew_call,
  release_call, abandon_call, failure_call, skip_call, commit_call, close_call,
}
use verl_vla.Collection.Invariant.{IsSound, SafeAll, run-IsSound, fresh-IsSound}

parse_next-InBudget :
    (maximum : ℕ) (o : Option ℕ) (rest : Result StoreError (List ℕ)) (indices : List ℕ)
    → ((later : List ℕ) → rest ≡ ok later → All (λ i. i < maximum) later)
    → parse_next maximum o rest ≡ ok indices
    → All (λ i. i < maximum) indices
parse_next-InBudget maximum none rest indices h e = cc
parse_next-InBudget maximum (some i) (err x) indices h e = ground arith
parse_next-InBudget maximum (some i) (ok later) [] h e = ground arith
parse_next-InBudget maximum (some i) (ok later) (j ∷ indices) h e =
    (ground arith, h indices (ground arith))

parse_ids-InBudget :
    (maximum : ℕ) (texts : List (List ℕ)) (indices : List ℕ)
    → parse_ids maximum texts ≡ ok indices
    → All (λ i. i < maximum) indices
unfolding parse_ids
parse_ids-InBudget maximum [] [] e = tt
parse_ids-InBudget maximum [] (i ∷ indices) e = cc
parse_ids-InBudget maximum (text ∷ texts) indices e =
    parse_next-InBudget maximum (parse_candidate_id text) (parse_ids maximum texts) indices
      (parse_ids-InBudget maximum texts) e

module _ {B : Type 0} (len : B → ℕ) (spec : CollectionWindowSpec) where
  claim_loop-SafeAll :
      (owner : String) (timeout now : ℕ) (token : String) (more : List Assignment) (w : Window B)
      → SafeAll len spec w (claim_loop spec owner timeout now token more w).1
  unfolding claim_loop
  claim_loop-SafeAll owner timeout now token [] w = tt
  claim_loop-SafeAll owner timeout now token (a ∷ more) w = ground (
    arith,
    claim_loop-SafeAll owner timeout now token more w,
    claim_loop-SafeAll owner timeout now token more (apply w (unlink_lease a.candidate_index)),
  )

  abandon_loop-SafeAll :
      (owner : String) (now : ℕ) (ls : List (ℕ × Lease)) (w : Window B)
      → SafeAll len spec w (abandon_loop owner now ls).1
  unfolding abandon_loop
  abandon_loop-SafeAll owner now [] w = tt
  abandon_loop-SafeAll owner now ((i, l) ∷ ls) w = elim (Bool-cases (is_text l.owner_id owner)) [
    | inl mine ↦ rw mine (tt, (tt, abandon_loop-SafeAll owner now ls _))
    | inr other ↦ rw other (abandon_loop-SafeAll owner now ls w)
  ]

  publish_locked-SafeAll :
      (a : Assignment) (rollout end_obs : B) (r : GroupRecord) (w : Window B)
      → a.candidate_index < spec.max_candidate_groups
      → check_candidate len spec a rollout end_obs r ≡ ok tt
      → SafeAll len spec w (publish_locked len spec a rollout end_obs r w).1
  unfolding publish_locked check_candidate
  publish_locked-SafeAll a rollout end_obs r w bound valid = ground arith

  abbrev InBudget : List ℕ → Type 0
  InBudget indices = All (λ i. i < spec.max_candidate_groups) indices

  skip_loop-SafeAll :
      (reason : String) (now : ℕ) (indices : List ℕ) (w : Window B)
      → w.closed ≡ none
      → InBudget indices
      → SafeAll len spec w (skip_loop reason now indices w).1
  unfolding skip_loop apply
  skip_loop-SafeAll reason now [] w open_ h = tt
  skip_loop-SafeAll reason now (i ∷ indices) w open_ h =
      elim (Bool-cases (candidate_complete w i)) [
        | inl done ↦ rw done (skip_loop-SafeAll reason now indices w open_ h.1)
        | inr free ↦
            rw free ((free, open_, h.0), (tt, skip_loop-SafeAll reason now indices _ open_ h.1))
      ]

  skip_locked-SafeAll :
      (reason : String) (now : ℕ) (ids : Result StoreError (List ℕ)) (w : Window B)
      → ((indices : List ℕ) → ids ≡ ok indices → InBudget indices)
      → SafeAll len spec w (skip_locked reason now ids w).1
  unfolding skip_locked
  skip_locked-SafeAll reason now (err e) w h = tt
  skip_locked-SafeAll reason now (ok indices) w h =
      ground (arith, skip_loop-SafeAll reason now indices w, h indices refl)

  skip_manifest-SafeAll :
      (ids : List (List ℕ)) (reason : String) (now : ℕ) (m : Option Manifest) (w : Window B)
      → ((x : Manifest) → m ≡ some x → x ≡ to_manifest spec)
      → SafeAll len spec w (skip_manifest ids reason now m w).1
  unfolding skip_manifest
  skip_manifest-SafeAll ids reason now none w h = tt
  skip_manifest-SafeAll ids reason now (some m) w h =
      skip_locked-SafeAll reason now (parse_ids m.max_candidate_groups ids) w
        λ indices e. rw (h m refl) at (parse_ids-InBudget m.max_candidate_groups ids indices e)

  initialize-SafeAll :
      (m : Option Manifest) (w : Window B) → SafeAll len spec w (initialize_with spec m w).1
  unfolding initialize_with
  initialize-SafeAll none w = (refl, (tt, tt))
  initialize-SafeAll (some m) w = ground arith

  close-SafeAll :
      (now : ℕ) (c : Option Closing) (w : Window B)
      → w.closed ≡ c
      → SafeAll len spec w (close_open spec now c w).1
  unfolding close_open closing_of
  close-SafeAll now none w e = elim (Bool-cases (may_close spec w)) [
    | inl yes_ ↦ rw yes_ ((e, refl, yes_), (tt, tt))
    | inr no_ ↦ rw no_ tt
  ]
  close-SafeAll now (some c) w e = tt

  commit_locked-SafeAll :
      (a : Assignment) (rollout end_obs : B) (r : GroupRecord) (lease : Option Lease) (w : Window B)
      → a.candidate_index < spec.max_candidate_groups
      → check_candidate len spec a rollout end_obs r ≡ ok tt
      → SafeAll len spec w (commit_locked len spec a rollout end_obs r lease w).1
  unfolding commit_locked
  commit_locked-SafeAll a rollout end_obs r none w bound valid =
      publish_locked-SafeAll a rollout end_obs r w bound valid
  commit_locked-SafeAll a rollout end_obs r (some l) w bound valid =
      ground (arith, publish_locked-SafeAll a rollout end_obs r w bound valid)

  commit-SafeAll :
      (a : Assignment) (rollout end_obs : B) (r : GroupRecord) (lease : Option Lease) (w : Window B)
      (v : Result StoreError (Unit {0}))
      → a.candidate_index < spec.max_candidate_groups
      → check_candidate len spec a rollout end_obs r ≡ v
      → SafeAll len spec w
          (when_valid len spec v (commit_locked len spec a rollout end_obs r lease) w).1
  commit-SafeAll a rollout end_obs r lease w (ok tt) bound valid =
      commit_locked-SafeAll a rollout end_obs r lease w bound valid
  commit-SafeAll a rollout end_obs r lease w (err e) bound valid = tt

  -- Whatever a method of the store does to a sound window is safe.
  pub effects-SafeAll :
      (c : Call B) (w : Window B)
      → IsSound len spec w
      → InSchedule len spec c
      → SafeAll len spec w (effects len spec c w)
  unfolding effects initialize claim_candidate renew_candidate_lease release_candidate_lease
      abandon_owner_leases record_integrity_failure skip_window_candidates commit_group
      close_if_ready
  effects-SafeAll initialize_call w s h = initialize-SafeAll w.manifest w
  effects-SafeAll (claim_call more owner timeout preferred now token) w s h = ground (
    arith,
    claim_loop-SafeAll owner timeout now token (sort_by index_leb (prefer preferred more)) w,
  )
  effects-SafeAll (renew_call l timeout now) w s h = ground arith
  effects-SafeAll (release_call l) w s h = ground arith
  effects-SafeAll (abandon_call has_lock owner now) w s h =
      ground (arith, abandon_loop-SafeAll owner now (sort_by entry_leb w.leases) w)
  effects-SafeAll (failure_call a l now) w s h = ground arith
  effects-SafeAll (skip_call ids reason now) w s h =
      ground (arith, skip_manifest-SafeAll ids reason now w.manifest w s.stored)
  effects-SafeAll (commit_call a rollout end_obs r lease) w s h =
      commit-SafeAll a rollout end_obs r lease w (check_candidate len spec a rollout end_obs r) h
        refl
  effects-SafeAll (close_call now) w s h = close-SafeAll now w.closed w refl

  -- The invariant carries over from any sound window.
  pub Reach-keeps-IsSound :
      {w v : Window B}
      → Reach len spec (InSchedule len spec) w v
      → IsSound len spec w
      → IsSound len spec v
  unfolding after
  Reach-keeps-IsSound here s = s
  Reach-keeps-IsSound (call {w = u} c n r h) s =
      let t = Reach-keeps-IsSound r s in
      run-IsSound len spec u (effects len spec c u) n (effects-SafeAll c u t h) t

  -- After any calls of the store's methods by any processes, which commit candidates of the budget
  -- only, each run to its end or cut short after some of its file operations, from a directory that
  -- was empty: no candidate has two outcomes, all
  -- that have one lie within the candidate budget and `scan` counts each once, every published group
  -- has the window's policy and size and its own candidate's id, the stored manifest is that of the
  -- spec, and a closed window was closed under the conditions of its closing mode, with the groups,
  -- counts and outcome that those conditions give.
  pub Reach-IsSound :
      {w : Window B} → Reach len spec (InSchedule len spec) fresh w → IsSound len spec w
  Reach-IsSound r = Reach-keeps-IsSound r (fresh-IsSound len spec)
