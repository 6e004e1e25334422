-- ===== src/Collection/Commit.antt =====
-- Publishing a candidate's outcome, and skipping candidates (trainer/grfpo/collection_store.py). What
-- is written to a private temporary directory before the lock is taken is not part of the window.
use verl_vla.Common.{
  is_yes, ℕ, String, ◌||◌, not, Option, none, some, List, [], ◌∷◌, Result, ok, err, ◌==◌, ltb,
  if◌then◌else◌, is_some, ◌>>=◌,
}
use verl_vla.Collection.Names.{candidate_id, parse_candidate_id, same_text}
use verl_vla.Collection.Spec.{CollectionWindowSpec, is_text, is_empty}
use verl_vla.Collection.Leases.{lease_is_current, has_duplicates}
use verl_vla.Collection.Window.{
  Assignment, Assignment-discrete, Lease, GroupRecord, Group, Rejection, Skip, Window, Effect,
  publish, write_rejected, write_skipped, unlink_lease, apply, candidate_complete, Action,
  StoreError, window_closed, wrong_group_size, wrong_policy_version, wrong_group_id, lease_mismatch,
  empty_arguments, invalid_candidate_id, index_out_of_range, duplicate_ids, Manifest, no_window,
}

-- The answer of `commit_group`.
pub data Committed : Type 0 where
  accepted rejected duplicate late stale_lease : Committed

module _ {B : Type 0} (len : B → ℕ) (spec : CollectionWindowSpec) where
  -- The validation before any file is written.
  unfoldable pub check_candidate : Assignment → B → B → GroupRecord → Result StoreError (Unit {0})
  unfolding same_text candidate_id
  check_candidate a rollout end_obs r =
      if not (len rollout == spec.group_size) || not (len end_obs == spec.group_size)
      then err wrong_group_size
      else if not (r.rollout_policy_version == spec.policy.rollout_policy_version)
      then err wrong_policy_version
      else if not (same_text r.group_id (candidate_id a.candidate_index))
      then err wrong_group_id
      else ok tt

  abbrev pub group_of : Assignment → B → B → GroupRecord → Group B
  group_of a rollout end_obs r = record {
    rollout = rollout;
    rollout_end_obs = end_obs;
    candidate = a;
    policy = spec.policy;
    group_record = r;
  }

  abbrev pub rejection_of : Assignment → GroupRecord → Rejection
  rejection_of a r = record { candidate = a; policy = spec.policy; group_record = r }

  -- The locked section, after the lease was found to be current.
  unfoldable pub publish_locked : Assignment → B → B → GroupRecord → Action B Committed
  publish_locked a rollout end_obs r w =
      let i = a.candidate_index in
      if candidate_complete w i
      then (ok duplicate, [])
      else if is_some w.closed
      then (ok late, [])
      else if not w.is_open
      then (err window_closed, [])
      else if r.informative
      then (ok accepted, publish i (group_of a rollout end_obs r) ∷ unlink_lease i ∷ [])
      else (ok rejected, write_rejected i (rejection_of a r) ∷ unlink_lease i ∷ [])

  unfoldable pub commit_locked :
      Assignment → B → B → GroupRecord → Option Lease → Action B Committed
  unfolding publish_locked lease_is_current
  commit_locked a rollout end_obs r none w = publish_locked a rollout end_obs r w
  commit_locked a rollout end_obs r (some l) w =
      if not (is_yes (Assignment-discrete l.assignment a))
      then (err lease_mismatch, [])
      else if not (lease_is_current w l)
      then (ok stale_lease, [])
      else publish_locked a rollout end_obs r w

  abbrev pub when_valid : Result StoreError (Unit {0}) → Action B Committed → Action B Committed
  when_valid (ok _) m w = m w
  when_valid (err e) m w = (err e, [])

  -- `commit_group`
  unfoldable pub commit_group : Assignment → B → B → GroupRecord → Option Lease → Action B Committed
  unfolding check_candidate commit_locked
  commit_group a rollout end_obs r lease =
      when_valid (check_candidate a rollout end_obs r) (commit_locked a rollout end_obs r lease)

-- One turn of the loop over the ids, with what the later ids give.
abbrev pub parse_next : ℕ → Option ℕ → Result StoreError (List ℕ) → Result StoreError (List ℕ)
parse_next maximum none rest = err invalid_candidate_id
parse_next maximum (some index) rest =
    if not (ltb index maximum)
    then err index_out_of_range
    else (rest >>= λ indices. ok (index ∷ indices))

-- The ids of `skip_window_candidates`, as indices.
unfoldable pub parse_ids : ℕ → List (List ℕ) → Result StoreError (List ℕ)
unfolding parse_candidate_id
parse_ids maximum [] = ok []
parse_ids maximum (text ∷ texts) =
    let rest = parse_ids maximum texts in parse_next maximum (parse_candidate_id text) rest

module _ {B : Type 0} where
  unfoldable pub skip_loop : String → ℕ → List ℕ → Window B → List ℕ × List (Effect B)
  skip_loop reason now [] w = ([], [])
  skip_loop reason now (i ∷ indices) w =
      let same = skip_loop reason now indices w in
      let s : Skip = record { reason = reason; skipped_at = now } in
      let next =
        skip_loop reason now indices (apply (apply w (write_skipped i s)) (unlink_lease i)) in
      if candidate_complete w i
      then same
      else (i ∷ next.0, write_skipped i s ∷ unlink_lease i ∷ next.1)

  unfoldable pub skip_locked : String → ℕ → Result StoreError (List ℕ) → Action B (List ℕ)
  unfolding skip_loop has_duplicates
  skip_locked reason now (err e) w = (err e, [])
  skip_locked reason now (ok indices) w =
      if has_duplicates indices
      then (err duplicate_ids, [])
      else if is_some w.closed || not w.is_open
      then (err window_closed, [])
      else let result = skip_loop reason now indices w in (ok result.0, result.1)

  unfoldable pub skip_manifest : List (List ℕ) → String → ℕ → Option Manifest → Action B (List ℕ)
  unfolding skip_locked parse_ids
  skip_manifest ids reason now none w = (err no_window, [])
  skip_manifest ids reason now (some m) w =
      skip_locked reason now (parse_ids m.max_candidate_groups ids) w

  -- `skip_window_candidates`
  unfoldable pub skip_window_candidates : List (List ℕ) → String → ℕ → Action B (List ℕ)
  unfolding skip_manifest
  skip_window_candidates ids reason now w =
      if is_empty ids || is_text reason ""
      then (err empty_arguments, [])
      else skip_manifest ids reason now w.manifest w
