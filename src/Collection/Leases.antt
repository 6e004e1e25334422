-- ===== src/Collection/Leases.antt =====
-- Candidate leases (trainer/grfpo/collection_store.py): claim, renew, release, and the release of all
-- leases of a dead owner. The clock's reading and the random token come from outside.
use verl_vla.Common.{
  ℕ, ◌+◌, ◌*◌, ◌/◌, String, Bool, true, false, ◌&&◌, ◌||◌, not, Option, none, some, List, [], ◌∷◌,
  map, lookup, ok, err, ltb, leb, ◌==◌, if◌then◌else◌, all, any, range_from, is_some,
}
use verl_vla.Common.Sort.{sort_by}
use verl_vla.Collection.Names.{entry_leb}
use verl_vla.Collection.Spec.{CollectionWindowSpec, is_text}
use verl_vla.Collection.Window.{
  Assignment, Lease, Window, Effect, write_lease, unlink_lease, append_event, write_failure, apply,
  candidate_complete, claim, reclaim, abandon, integrity_failure, Event, Action, empty_owner,
  bad_timeout, duplicate_assignments, window_closed, lease_missing, lease_reassigned, no_window,
}

-- `len(values) != len(set(values))`
unfoldable pub has_duplicates : List ℕ → Bool
has_duplicates [] = false
has_duplicates (x ∷ xs) = any (λ y. y == x) xs || has_duplicates xs

abbrev pub is_index : Assignment → ℕ
is_index a = a.candidate_index

abbrev pub index_leb : Assignment → Assignment → Bool
index_leb a b = leb a.candidate_index b.candidate_index

-- A condition preference keeps the assignments of one task and suite.
unfoldable pub prefer : Option (String × ℕ) → List Assignment → List Assignment
prefer none more = more
prefer (some c) [] = []
prefer (some c) (a ∷ more) =
    let rest = prefer (some c) more in
    if is_text a.task_name c.0 && a.suite_id == c.1 then a ∷ rest else rest

-- The lease found is that of another owner, and has not expired.
unfoldable pub held_by_other : String → ℕ → Option Lease → Bool
held_by_other owner now none = false
held_by_other owner now (some l) = not (is_text l.owner_id owner) && ltb now l.expires_at

abbrev pub new_lease : Assignment → String → ℕ → ℕ → String → Lease
new_lease a owner timeout now token = record {
  assignment = a;
  owner_id = owner;
  token = token;
  claimed_at = now;
  heartbeat_at = now;
  expires_at = now + timeout;
}

abbrev pub claim_event : Lease → Bool → Event
claim_event l reclaimed = record {
  kind = if reclaimed then reclaim else claim;
  candidate_index = l.assignment.candidate_index;
  owner_id = some l.owner_id;
  token = some l.token;
  at = l.claimed_at;
}

-- The stored lease is the given one.
unfoldable pub is_same_lease : Lease → Option Lease → Bool
is_same_lease l none = false
is_same_lease l (some c) = is_text c.token l.token && is_text c.owner_id l.owner_id

abbrev pub renewed : Lease → ℕ → ℕ → Lease
renewed l timeout now = record l { heartbeat_at = now; expires_at = now + timeout }

-- The event names the candidate of the lease file: `asdict` drops the property `candidate_id`.
abbrev pub abandon_event : ℕ → Lease → String → ℕ → Event
abandon_event i l owner now = record {
  kind = abandon;
  candidate_index = i;
  owner_id = some owner;
  token = some l.token;
  at = now;
}

abbrev pub failure_event : Assignment → Option Lease → ℕ → Event
failure_event a l now = record {
  kind = integrity_failure;
  candidate_index = a.candidate_index;
  owner_id = elim l [ none ↦ none | some x ↦ some x.owner_id ];
  token = none;
  at = now;
}

module _ {B : Type 0} where
  -- The barrier before a new round: every candidate of the earlier rounds is complete.
  unfoldable pub round_ready_to_start : CollectionWindowSpec → Window B → ℕ → Bool
  round_ready_to_start spec w index =
      if not spec.complete_round_after_target
      then true
      else all (candidate_complete w)
          (range_from 0 ((index / spec.candidate_round_size) * spec.candidate_round_size))

  module _ (spec : CollectionWindowSpec) (owner : String) (timeout now : ℕ) (token : String) where
    -- The loop over the sorted assignments.
    unfoldable pub claim_loop : List Assignment → Window B → Option Lease × List (Effect B)
    unfolding round_ready_to_start held_by_other
    claim_loop [] w = (none, [])
    claim_loop (a ∷ more) w =
        let i = a.candidate_index in
        let later = claim_loop more w in
        let swept = claim_loop more (apply w (unlink_lease i)) in
        let found = lookup i w.leases in
        let lease = new_lease a owner timeout now token in
        if not (round_ready_to_start spec w i)
        then later
        else if candidate_complete w i
        then (swept.0, unlink_lease i ∷ swept.1)
        else if held_by_other owner now found
        then later
        else (
          some lease,
          write_lease i lease ∷ append_event (claim_event lease (is_some found)) ∷ [],
        )

    -- `claim_candidate`
    unfoldable pub claim_candidate : List Assignment → Option (String × ℕ) → Action B (Option Lease)
    unfolding claim_loop sort_by has_duplicates prefer
    claim_candidate assignments preferred w =
        if is_text owner ""
        then (err empty_owner, [])
        else if leb timeout 0
        then (err bad_timeout, [])
        else if has_duplicates (map is_index assignments)
        then (err duplicate_assignments, [])
        else if is_some w.closed
        then (ok none, [])
        else if not w.is_open
        then (err window_closed, [])
        else let result = claim_loop (sort_by index_leb (prefer preferred assignments)) w in
          (ok result.0, result.1)

  -- `_lease_is_current_locked`
  unfoldable pub lease_is_current : Window B → Lease → Bool
  unfolding is_same_lease
  lease_is_current w l = is_same_lease l (lookup l.assignment.candidate_index w.leases)

  -- `renew_candidate_lease`
  unfoldable pub renew_candidate_lease : Lease → ℕ → ℕ → Action B Lease
  unfolding is_same_lease
  renew_candidate_lease l timeout now w =
      let i = l.assignment.candidate_index in
      let found = lookup i w.leases in
      if leb timeout 0
      then (err bad_timeout, [])
      else if not (is_some found)
      then (err lease_missing, [])
      else if not (is_same_lease l found)
      then (err lease_reassigned, [])
      else (ok (renewed l timeout now), write_lease i (renewed l timeout now) ∷ [])

  -- `release_candidate_lease`
  unfoldable pub release_candidate_lease : Lease → Action B Bool
  unfolding is_same_lease
  release_candidate_lease l w =
      let i = l.assignment.candidate_index in
      let found = lookup i w.leases in
      if not (is_some found)
      then (ok false, [])
      else if not (is_same_lease l found)
      then (ok false, [])
      else (ok true, unlink_lease i ∷ [])

  -- The loop of `abandon_owner_leases` over the lease files.
  unfoldable pub abandon_loop : String → ℕ → List (ℕ × Lease) → List ℕ × List (Effect B)
  abandon_loop owner now [] = ([], [])
  abandon_loop owner now ((i, l) ∷ ls) =
      let rest = abandon_loop owner now ls in
      if is_text l.owner_id owner
      then (i ∷ rest.0, unlink_lease i ∷ append_event (abandon_event i l owner now) ∷ rest.1)
      else rest

  -- `abandon_owner_leases`; `has_lock` says whether the lock file is there, which the first call of a method that
  -- takes the lock creates.
  unfoldable pub abandon_owner_leases : Bool → String → ℕ → Action B (List ℕ)
  unfolding abandon_loop sort_by
  abandon_owner_leases has_lock owner now w =
      if is_text owner ""
      then (err empty_owner, [])
      else if not has_lock
      then (err no_window, [])
      else let result = abandon_loop owner now (sort_by entry_leb w.leases) in
        (ok result.0, result.1)

  abbrev pub is_stale : Window B → Option Lease → Bool
  is_stale w none = false
  is_stale w (some l) = not (lease_is_current w l)

  -- `record_integrity_failure`; the answer says whether a record was written.
  unfoldable pub record_integrity_failure : Assignment → Option Lease → ℕ → Action B Bool
  unfolding lease_is_current
  record_integrity_failure a l now w =
      if is_stale w l
      then (ok false, [])
      else (ok true, write_failure a.candidate_index ∷ append_event (failure_event a l now) ∷ [])
