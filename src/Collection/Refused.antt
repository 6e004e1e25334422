-- ===== src/Collection/Refused.antt =====
-- A claim that hands out nothing (`claim_candidate`, trainer/grfpo/collection_store.py).
use verl_vla.Common.{
  ℕ, ◌≡◌, String, Bool, true, false, Option, none, List, [], ◌∷◌, arith, lookup, lookup-remove,
  is_some, Bool-cases, inl, inr, ◌⊎◌, ok, All, All-map,
}
use verl_vla.Common.Sort.{insert_by, sort_by}
use verl_vla.Collection.Spec.{CollectionWindowSpec}
use verl_vla.Collection.Window.{Assignment, Window, apply, candidate_complete, unlink_lease}
use verl_vla.Collection.Leases.{
  held_by_other, round_ready_to_start, claim_loop, claim_candidate, prefer, index_leb,
}

module _ {B : Type 0} (spec : CollectionWindowSpec) (owner : String) (timeout now : ℕ)
    (token : String) where
  -- Why a candidate is not handed out: it has an outcome, its round may not start, or another owner holds it
  -- under a lease that has not expired.
  abbrev pub IsRefused : Window B → Assignment → Type 0
  IsRefused w a =
      (candidate_complete w a.candidate_index ≡ true)
      ⊎ ((round_ready_to_start spec w a.candidate_index ≡ false)
          ⊎ (held_by_other owner now (lookup a.candidate_index w.leases) ≡ true))

  -- The sweep of a complete candidate's lease hides no other reason.
  swept-IsRefused :
      (w : Window B) (i : ℕ) (a : Assignment)
      → candidate_complete w i ≡ true
      → IsRefused (apply w (unlink_lease i)) a
      → IsRefused w a
  unfolding apply round_ready_to_start held_by_other
  swept-IsRefused w i a done (inl complete) = inl complete
  swept-IsRefused w i a done (inr (inl early)) = inr (inl early)
  swept-IsRefused w i a done (inr (inr held)) =
      ground (arith, done, held, lookup-remove i a.candidate_index w.leases)

  claim_loop-IsRefused :
      (xs : List Assignment) (w : Window B)
      → (claim_loop spec owner timeout now token xs w).0 ≡ none
      → All (IsRefused w) xs
  unfolding claim_loop
  claim_loop-IsRefused [] w e = tt
  claim_loop-IsRefused (a ∷ xs) w e =
      let i = a.candidate_index in
      elim (Bool-cases (round_ready_to_start spec w i)) [
        | inr early ↦ (inr (inl early), claim_loop-IsRefused xs w (ground (arith, e, early)))
        | inl ready ↦ elim (Bool-cases (candidate_complete w i)) [
          | inl done ↦ (
            inl done,
            All-map (IsRefused (apply w (unlink_lease i))) (IsRefused w) xs
                (λ x. swept-IsRefused w i x done)
                (claim_loop-IsRefused xs (apply w (unlink_lease i))
                  (ground (arith, e, ready, done))),
          )
          | inr todo ↦ elim (Bool-cases (held_by_other owner now (lookup i w.leases))) [
            | inl held ↦
                (inr (inr held), claim_loop-IsRefused xs w (ground (arith, e, ready, todo, held)))
            | inr unheld ↦ absurd (ground (arith, e, ready, todo, unheld))
          ]
        ]
      ]

module _ (P : Assignment → Type 0) (le : Assignment → Assignment → Bool) where
  All-of_insert_by :
      (a : Assignment) (xs : List Assignment) → All P (insert_by le a xs) → P a × All P xs
  unfolding insert_by
  All-of_insert_by a [] h = h
  All-of_insert_by a (x ∷ xs) h = elim (Bool-cases (le a x)) [
    | inl before ↦ ground (arith, h, before)
    | inr after ↦
        let h' = rw (insert_by, after) at h in
        let (p, rest) = All-of_insert_by a xs h'.1 in (p, (h'.0, rest))
  ]

  All-of_sort_by : (xs : List Assignment) → All P (sort_by le xs) → All P xs
  unfolding sort_by
  All-of_sort_by [] h = tt
  All-of_sort_by (x ∷ xs) h =
      let (p, rest) = All-of_insert_by x (sort_by le xs) h in (p, All-of_sort_by xs rest)

module _ {B : Type 0} (spec : CollectionWindowSpec) (owner : String) (timeout now : ℕ)
    (token : String) where
  -- A claim that answers with no lease was not refused by chance: the window is closed, or every assignment of
  -- the preferred condition (of the whole list where none is preferred) has an outcome, belongs to a
  -- round that may not start yet, or is held by another owner under a lease that has not expired.
  pub claim_candidate-IsRefused :
      (assignments : List Assignment) (preferred : Option (String × ℕ)) (w : Window B)
      → (claim_candidate spec owner timeout now token assignments preferred w).0 ≡ ok none
      → (is_some w.closed ≡ true)
        ⊎ All (IsRefused spec owner timeout now token w) (prefer preferred assignments)
  unfolding claim_candidate
  claim_candidate-IsRefused assignments preferred w e = elim (Bool-cases (is_some w.closed)) [
    | inl closed ↦ inl closed
    | inr still ↦ inr (
        All-of_sort_by (IsRefused spec owner timeout now token w) index_leb
          (prefer preferred assignments)
          (claim_loop-IsRefused spec owner timeout now token
            (sort_by index_leb (prefer preferred assignments)) w (ground (arith, e, still))))
  ]
