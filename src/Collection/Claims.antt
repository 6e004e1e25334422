-- ===== src/Collection/Claims.antt =====
-- The leases that `claim_candidate` (trainer/grfpo/collection_store.py) returns.
use verl_vla.Common.{
  ℕ, ◌≡◌, refl, String, true, false, Option, some, List, [], ◌∷◌, arith, insert, lookup,
  lookup-insert, lookup-remove, is_some, Bool-cases, inl, inr, ◌⊎◌, ok,
}
use verl_vla.Common.Sort.{sort_by}
use verl_vla.Collection.Spec.{CollectionWindowSpec}
use verl_vla.Collection.Window.{
  Assignment, Lease, Window, Effect, run, apply, candidate_complete, unlink_lease, write_lease,
  append_event,
}
use verl_vla.Collection.Leases.{
  claim_event, new_lease, held_by_other, round_ready_to_start, claim_loop, claim_candidate, prefer,
  index_leb,
}

module _ {B : Type 0} (spec : CollectionWindowSpec) (owner : String) (timeout now : ℕ)
    (token : String) where
  abbrev pub swept : Assignment → List Assignment → Window B → Option Lease × List (Effect B)
  swept a more w =
      let later =
        claim_loop spec owner timeout now token more (apply w (unlink_lease a.candidate_index)) in
      (later.0, unlink_lease a.candidate_index ∷ later.1)

  abbrev pub claimed : Assignment → Window B → Option Lease × List (Effect B)
  claimed a w =
      let lease = new_lease a owner timeout now token in
      (
        some lease,
        write_lease a.candidate_index lease
            ∷ append_event (claim_event lease (is_some (lookup a.candidate_index w.leases)))
            ∷ [],
      )

  -- The assignment may be claimed in `w`.
  pub record IsUnclaimed (w : Window B) (a : Assignment) : Type 0 where
    pub incomplete : candidate_complete w a.candidate_index ≡ false
    pub ready : round_ready_to_start spec w a.candidate_index ≡ true
    pub unheld : held_by_other owner now (lookup a.candidate_index w.leases) ≡ false

  -- A lease handed out in `w`, where the claim leaves `v`.
  pub record IsClaim (w v : Window B) (l : Lease) : Type 0 where
    pub incomplete : candidate_complete w l.assignment.candidate_index ≡ false
    pub ready : round_ready_to_start spec w l.assignment.candidate_index ≡ true
    pub unheld : held_by_other owner now (lookup l.assignment.candidate_index w.leases) ≡ false
    pub terms : l ≡ new_lease l.assignment owner timeout now token
    pub stored : lookup l.assignment.candidate_index v.leases ≡ some l

  swept-IsClaim :
      (w v : Window B) (i : ℕ) (l : Lease)
      → candidate_complete w i ≡ true
      → IsClaim (apply w (unlink_lease i)) v l
      → IsClaim w v l
  unfolding apply round_ready_to_start
  swept-IsClaim w v i l done c = record {
    incomplete = c.incomplete;
    ready = c.ready;
    unheld = ground (
      arith,
      c.incomplete,
      c.unheld,
      done,
      lookup-remove i l.assignment.candidate_index w.leases,
    );
    terms = c.terms;
    stored = c.stored;
  }

  new-IsClaim :
      (w v : Window B) (a : Assignment) (l : Lease)
      → IsUnclaimed w a
      → v.leases ≡ insert a.candidate_index (new_lease a owner timeout now token) w.leases
      → ◌≡◌ {A = Option Lease} (some (new_lease a owner timeout now token)) (some l)
      → IsClaim w v l
  new-IsClaim w v a l u leases e =
      let same : new_lease a owner timeout now token ≡ l = cc in
      rw (← same) (record {
        incomplete = u.incomplete;
        ready = u.ready;
        unheld = u.unheld;
        terms = refl;
        stored = rw leases (
            ground (
              arith,
              lookup-insert a.candidate_index a.candidate_index
                  (new_lease a owner timeout now token) w.leases,
            ));
      })

  -- The three ways on from the first assignment: it is passed over, its lease file is swept away, or
  -- it is claimed.
  pub claim_loop-cons :
      (a : Assignment) (more : List Assignment) (w : Window B)
      → (claim_loop spec owner timeout now token (a ∷ more) w
          ≡ claim_loop spec owner timeout now token more w)
        ⊎ ((candidate_complete w a.candidate_index ≡ true)
              × (claim_loop spec owner timeout now token (a ∷ more) w ≡ swept a more w)
            ⊎ (IsUnclaimed w a
                × (claim_loop spec owner timeout now token (a ∷ more) w ≡ claimed a w)))
  unfolding claim_loop
  claim_loop-cons a more w =
      let i = a.candidate_index in
      elim (Bool-cases (round_ready_to_start spec w i)) [
        | inr early ↦ inl (rw early)
        | inl ready ↦ elim (Bool-cases (candidate_complete w i)) [
          | inl done ↦ inr (inl (done, rw (ready, done)))
          | inr todo ↦ elim (Bool-cases (held_by_other owner now (lookup i w.leases))) [
            | inl held ↦ inl (rw (ready, todo, held))
            | inr unheld ↦ inr (
                inr (
                  record { incomplete = todo; ready = ready; unheld = unheld },
                  rw (ready, todo, unheld),
                ))
          ]
        ]
      ]

  claim_loop-IsClaim :
      (more : List Assignment) (w : Window B) (l : Lease)
      → (claim_loop spec owner timeout now token more w).0 ≡ some l
      → IsClaim w (run w (claim_loop spec owner timeout now token more w).1) l
  unfolding run
  claim_loop-IsClaim [] w l e = unfold claim_loop in cc
  claim_loop-IsClaim (a ∷ more) w l e = elim (claim_loop-cons a more w) [
    | inl same ↦ rw same (claim_loop-IsClaim more w l (rw same at e))
    | inr (inl (done, same)) ↦ rw same (
        swept-IsClaim w _ a.candidate_index l done
          (claim_loop-IsClaim more (apply w (unlink_lease a.candidate_index)) l (rw same at e)))
    | inr (inr (u, same)) ↦ rw same (new-IsClaim w _ a l u refl (rw same at e))
  ]

  -- A lease that `claim_candidate` returns is on a candidate with no outcome yet, whose round may
  -- start, and which no other owner holds under a lease that has not expired; it has the caller's
  -- owner, token and expiry, and is the one stored for its candidate when the call ends.
  pub claim_candidate-IsClaim :
      (assignments : List Assignment) (preferred : Option (String × ℕ)) (w : Window B) (l : Lease)
      → (claim_candidate spec owner timeout now token assignments preferred w).0 ≡ ok (some l)
      → IsClaim w (run w (claim_candidate spec owner timeout now token assignments preferred w).1) l
  unfolding claim_candidate
  claim_candidate-IsClaim assignments preferred w l e =
      ground (arith, claim_loop-IsClaim (sort_by index_leb (prefer preferred assignments)) w l)
