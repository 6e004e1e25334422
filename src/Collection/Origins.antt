-- ===== src/Collection/Origins.antt =====
-- Which calls of the store (trainer/grfpo/collection_store.py) do which file operations.
use verl_vla.Common.{
  ℕ, ◌≡◌, refl, String, true, Option, none, some, List, [], ◌∷◌, arith, lookup, leb, All,
  Bool-cases, Option-cases, ◌⊎◌, inl, inr, Result, ok, err,
}
use verl_vla.Common.Sort.{sort_by}
use verl_vla.Collection.Names.{entry_leb}
use verl_vla.Collection.Spec.{CollectionWindowSpec}
use verl_vla.Collection.Window.{
  Assignment, Lease, GroupRecord, Window, Effect, apply, candidate_complete, write_lease,
  write_manifest, touch_open, unlink_lease, Manifest, Closing, StoreError,
}
use verl_vla.Collection.Leases.{
  claim_loop, claim_candidate, prefer, index_leb, is_same_lease, renewed, renew_candidate_lease,
  release_candidate_lease, abandon_loop, abandon_owner_leases, record_integrity_failure,
}
use verl_vla.Collection.Claims.{claim_loop-cons}
use verl_vla.Collection.Commit.{
  commit_group, skip_loop, skip_locked, skip_manifest, parse_ids, skip_window_candidates,
}
use verl_vla.Collection.Close.{initialize, initialize_with, close_if_ready, close_open}
use verl_vla.Collection.System.{
  Call, effects, initialize_call, claim_call, renew_call, release_call, abandon_call, failure_call,
  skip_call, commit_call, close_call,
}

-- A renewal writes nothing, or writes over the very lease that is renewed.
pub renew_cases :
    {B : Type 0} (l : Lease) (timeout now : ℕ) (w : Window B)
    → ((renew_candidate_lease l timeout now w).1 ≡ [])
      ⊎ ((c : Lease) × (lookup l.assignment.candidate_index w.leases ≡ some c)
          × (is_same_lease l (some c) ≡ true)
          × ((renew_candidate_lease l timeout now w).1
              ≡ write_lease l.assignment.candidate_index (renewed l timeout now) ∷ []))
unfolding renew_candidate_lease
renew_cases l timeout now w = elim (Bool-cases (leb timeout 0)) [
  | inl bad ↦ inl (rw bad)
  | inr good ↦ elim (Option-cases (lookup l.assignment.candidate_index w.leases)) [
    | inl missing ↦ inl (rw (good, missing))
    | inr (c, found) ↦ elim (Bool-cases (is_same_lease l (some c))) [
      | inl mine ↦ inr (c, found, mine, rw (good, found, mine))
      | inr other ↦ inl (rw (good, found, other))
    ]
  ]
]

-- The lease that a call may write.
abbrev WritesLease : {B : Type 0} → Call B → Window B → ℕ → Lease → Type 0
WritesLease (claim_call _ _ _ _ _ drawn) w i l = l.token ≡ drawn
WritesLease (renew_call old timeout now) w i l =
    (c : Lease) × (lookup i w.leases ≡ some c)
    × (is_same_lease old (some c) ≡ true)
    × (l ≡ renewed old timeout now)
WritesLease _ w i l = ⊥

module _ {B : Type 0} where
  -- What a call `c` in the window `w` has to be for the operation to be among its own.
  abbrev pub Origin : Call B → Window B → Effect B → Type 0
  Origin c w (write_lease i l) = WritesLease c w i l
  Origin c w (write_manifest m) = w.manifest ≡ none
  Origin c w touch_open = w.manifest ≡ none
  Origin c w _ = Unit

  module _ (len : B → ℕ) (spec : CollectionWindowSpec) (c : Call B) (v : Window B) where
    claim_loop-Origin :
        (owner : String) (timeout now : ℕ) (token : String) (more : List Assignment) (w : Window B)
        → ((i : ℕ) (l : Lease) → l.token ≡ token → WritesLease c v i l)
        → All (Origin c v) (claim_loop spec owner timeout now token more w).1
    claim_loop-Origin owner timeout now token [] w h = unfold claim_loop in tt
    claim_loop-Origin owner timeout now token (a ∷ more) w h =
        elim (claim_loop-cons spec owner timeout now token a more w) [
          | inl same ↦ rw same (claim_loop-Origin owner timeout now token more w h)
          | inr (inl (_, same)) ↦ rw same (
            tt,
            claim_loop-Origin owner timeout now token more
                (apply w (unlink_lease a.candidate_index)) h,
          )
          | inr (inr (_, same)) ↦ rw same (h _ _ refl, (tt, tt))
        ]

    abandon_loop-Origin :
        (owner : String) (now : ℕ) (ls : List (ℕ × Lease))
        → All (Origin c v) (abandon_loop owner now ls).1
    unfolding abandon_loop
    abandon_loop-Origin owner now [] = tt
    abandon_loop-Origin owner now ((i, l) ∷ ls) = ground (arith, abandon_loop-Origin owner now ls)

    skip_loop-Origin :
        (reason : String) (now : ℕ) (indices : List ℕ) (w : Window B)
        → All (Origin c v) (skip_loop reason now indices w).1
    unfolding skip_loop
    skip_loop-Origin reason now [] w = tt
    skip_loop-Origin reason now (i ∷ indices) w = elim (Bool-cases (candidate_complete w i)) [
      | inl done ↦ rw done (skip_loop-Origin reason now indices w)
      | inr free ↦ rw free (tt, (tt, skip_loop-Origin reason now indices _))
    ]

    skip_locked-Origin :
        (reason : String) (now : ℕ) (ids : Result StoreError (List ℕ)) (w : Window B)
        → All (Origin c v) (skip_locked reason now ids w).1
    unfolding skip_locked
    skip_locked-Origin reason now (err e) w = tt
    skip_locked-Origin reason now (ok indices) w =
        ground (arith, skip_loop-Origin reason now indices w)

    skip_manifest-Origin :
        (ids : List (List ℕ)) (reason : String) (now : ℕ) (m : Option Manifest) (w : Window B)
        → All (Origin c v) (skip_manifest ids reason now m w).1
    unfolding skip_manifest
    skip_manifest-Origin ids reason now none w = tt
    skip_manifest-Origin ids reason now (some m) w =
        skip_locked-Origin reason now (parse_ids m.max_candidate_groups ids) w

    initialize-Origin :
        (m : Option Manifest) (w : Window B)
        → v.manifest ≡ m
        → All (Origin c v) (initialize_with spec m w).1
    unfolding initialize_with
    initialize-Origin none w e = (e, (e, tt))
    initialize-Origin (some m) w e = ground arith

    close-Origin :
        (now : ℕ) (x : Option Closing) (w : Window B) → All (Origin c v) (close_open spec now x w).1
    unfolding close_open
    close-Origin now none w = ground arith
    close-Origin now (some x) w = tt

    commit-Origin :
        (a : Assignment) (rollout end_obs : B) (r : GroupRecord) (lease : Option Lease)
        (w : Window B)
        → All (Origin c v) (commit_group len spec a rollout end_obs r lease w).1
    unfolding commit_group
    commit-Origin a rollout end_obs r none w = ground arith
    commit-Origin a rollout end_obs r (some l) w = ground arith

  renew-Origin :
      (l : Lease) (timeout now : ℕ) (w : Window B)
      → All (Origin (renew_call l timeout now) w) (renew_candidate_lease l timeout now w).1
  renew-Origin l timeout now w = elim (renew_cases l timeout now w) [
    | inl nothing ↦ rw nothing tt
    | inr (x, found, mine, wrote) ↦ rw wrote ((x, found, mine, refl), tt)
  ]

  module _ (len : B → ℕ) (spec : CollectionWindowSpec) where
    -- Every file operation of every call is of its origin.
    pub effects-Origin : (c : Call B) (w : Window B) → All (Origin c w) (effects len spec c w)
    unfolding effects initialize claim_candidate abandon_owner_leases record_integrity_failure
        release_candidate_lease skip_window_candidates close_if_ready
    effects-Origin initialize_call w =
        initialize-Origin len spec initialize_call w w.manifest w refl
    effects-Origin (claim_call more owner timeout preferred now token) w = ground (
      arith,
      claim_loop-Origin len spec (claim_call more owner timeout preferred now token) w owner timeout
          now token (sort_by index_leb (prefer preferred more)) w (λ i l e. e),
    )
    effects-Origin (renew_call l timeout now) w = renew-Origin l timeout now w
    effects-Origin (release_call l) w = ground arith
    effects-Origin (abandon_call has_lock owner now) w = ground (
      arith,
      abandon_loop-Origin len spec (abandon_call has_lock owner now) w owner now
          (sort_by entry_leb w.leases),
    )
    effects-Origin (failure_call a l now) w = ground arith
    effects-Origin (skip_call ids reason now) w = ground (
      arith,
      skip_manifest-Origin len spec (skip_call ids reason now) w ids reason now w.manifest w,
    )
    effects-Origin (commit_call a rollout end_obs r lease) w =
        commit-Origin len spec (commit_call a rollout end_obs r lease) w a rollout end_obs r lease w
    effects-Origin (close_call now) w = close-Origin len spec (close_call now) w now w.closed w
