-- ===== src/Collection/Loading.antt =====
-- What a trainer finds in a closed window (`load_selected_groups` of trainer/grfpo/collection_store.py).
use verl_vla.Common.{
  ℕ, suc, ◌≤◌, ◌≡◌, refl, sym, subst, ◌∙◌, ap, Bool, true, some, List, [], ◌∷◌, map, arith, lookup,
  length, length-map, length-take, All, All-take, is_some, ok, Option-cases, Bool-cases, inl, inr,
}
use verl_vla.Common.Sort.{insert_by, sort_by}
use verl_vla.Collection.Names.{entry_leb}
use verl_vla.Collection.Spec.{CollectionWindowSpec}
use verl_vla.Collection.Window.{Group, Window, Closing, ready}
use verl_vla.Collection.Close.{
  sorted_accepted, selected_groups, closing_of, load_group, load_groups, load_closed,
  load_selected_groups, Loaded,
}
use verl_vla.Collection.Invariant.{IsSound, IsGroup}

module _ {ℓ} {A : Type ℓ} (le : A → A → Bool) where
  insert_by-All {κ} :
      (P : A → Type κ) (a : A) (xs : List A) → P a → All P xs → All P (insert_by le a xs)
  unfolding insert_by
  insert_by-All P a [] p h = (p, tt)
  insert_by-All P a (x ∷ xs) p h = elim (Bool-cases (le a x)) [
    | inl first ↦ rw first (p, h)
    | inr later ↦ rw later (h.0, insert_by-All P a xs p h.1)
  ]

  pub sort_by-All {κ} : (P : A → Type κ) (xs : List A) → All P xs → All P (sort_by le xs)
  unfolding sort_by
  sort_by-All P [] h = tt
  sort_by-All P (x ∷ xs) h = insert_by-All P x (sort_by le xs) h.0 (sort_by-All P xs h.1)

  length-insert_by : (a : A) (xs : List A) → length (insert_by le a xs) ≡ suc (length xs)
  unfolding insert_by
  length-insert_by a [] = refl
  length-insert_by a (x ∷ xs) = elim (Bool-cases (le a x)) [
    | inl first ↦ rw first
    | inr later ↦ rw later (ap suc (length-insert_by a xs))
  ]

  pub length-sort_by : (xs : List A) → length (sort_by le xs) ≡ length xs
  unfolding sort_by
  length-sort_by [] = refl
  length-sort_by (x ∷ xs) = length-insert_by x (sort_by le xs) ∙ ap suc (length-sort_by xs)

All-keys {ℓ} :
    {V : Type ℓ} (all_ m : List (ℕ × V))
    → ((i : ℕ) → is_some (lookup i m) ≡ true → is_some (lookup i all_) ≡ true)
    → All (λ e. is_some (lookup e.0 all_) ≡ true) m
unfolding lookup
All-keys all_ [] h = tt
All-keys all_ ((i, v) ∷ m) h = (h i (ground arith), All-keys all_ m (λ j e. h j (ground arith)))

All-map_keys {ℓ} :
    {V : Type ℓ} (P : ℕ → Type 0) (m : List (ℕ × V)) → All (λ e. P e.0) m → All P (map (λ e. e.0) m)
All-map_keys P [] h = tt
All-map_keys P (e ∷ m) h = (h.0, All-map_keys P m h.1)

module _ {B : Type 0} (len : B → ℕ) (spec : CollectionWindowSpec) where
  abbrev IsAccepted : Window B → ℕ → Type 0
  IsAccepted w i = is_some (lookup i w.accepted) ≡ true

  sorted_accepted-IsAccepted : (w : Window B) → All (IsAccepted w) (sorted_accepted w)
  sorted_accepted-IsAccepted w = All-map_keys (IsAccepted w) (sort_by entry_leb w.accepted) (
      sort_by-All entry_leb (λ e. IsAccepted w e.0) w.accepted
        (All-keys w.accepted w.accepted (λ i e. e)))

  length-sorted_accepted : (w : Window B) → length (sorted_accepted w) ≡ length w.accepted
  length-sorted_accepted w =
      length-map _ (sort_by entry_leb w.accepted) ∙ length-sort_by entry_leb w.accepted

  selected-IsAccepted : (w : Window B) → All (IsAccepted w) (selected_groups spec w)
  unfolding selected_groups
  selected-IsAccepted w = ground (
    arith,
    sorted_accepted-IsAccepted w,
    All-take (IsAccepted w) spec.target_accepted_groups (sorted_accepted w)
        (sorted_accepted-IsAccepted w),
  )

  -- A published group of a sound window passes every check of the loader.
  load_group-ok :
      (i : ℕ) (g : Group B)
      → IsGroup len spec i g
      → load_group len spec (some g) ≡ ok (g.rollout, g.rollout_end_obs, g.group_record)
  unfolding load_group
  load_group-ok i g h = ground (arith, h.policy, h.size, h.end_size)

  load_cons :
      (w : Window B) (i : ℕ) (is : List ℕ) (g : Group B) (gs : List (Loaded len spec))
      {x : Loaded len spec}
      → lookup i w.accepted ≡ some g
      → load_group len spec (some g) ≡ ok x
      → load_groups len spec is w ≡ ok gs
      → load_groups len spec (i ∷ is) w ≡ ok (x ∷ gs)
  unfolding load_groups
  load_cons w i is g gs found one rest = cc (ap (load_group len spec) found)

  load_groups-ok :
      (w : Window B) (is : List ℕ)
      → IsSound len spec w
      → All (IsAccepted w) is
      → (gs : List (Loaded len spec)) × (load_groups len spec is w ≡ ok gs)
        × (length gs ≡ length is)
  unfolding load_groups
  load_groups-ok w [] s h = ([], refl, refl)
  load_groups-ok w (i ∷ is) s h = elim (Option-cases (lookup i w.accepted)) [
    | inl missing ↦ absurd (ground (arith, h.0, missing))
    | inr (g, found) ↦
        let (gs, loaded, size) = load_groups-ok w is s h.1 in
        (
          (g.rollout, g.rollout_end_obs, g.group_record) ∷ gs,
          load_cons w i is g gs found (load_group-ok i g (s.groups i g found)) loaded,
          ap suc size,
        )
  ]

  -- A window that closed as ready selects at least the required number of groups.
  minimum-le-selected :
      (w : Window B) (now : ℕ)
      → (closing_of spec w now).outcome ≡ ready
      → spec.minimum_accepted_groups ≤ spec.target_accepted_groups
      → spec.minimum_accepted_groups ≤ length (selected_groups spec w)
  unfolding closing_of
  minimum-le-selected w now e order =
      ground (
        arith,
        length-sorted_accepted w,
        length-take spec.target_accepted_groups (sorted_accepted w),
      )

  load_ready :
      (w : Window B) (c : Closing)
      → w.closed ≡ some c
      → c.outcome ≡ ready
      → load_selected_groups len spec w ≡ load_groups len spec c.selected w
  unfolding load_selected_groups
  load_ready w c closed e = ap (λ x. load_closed len spec x w) closed ∙ rw e

  picked :
      (w : Window B) (c : Closing)
      → c ≡ closing_of spec w c.closed_at
      → c.selected ≡ selected_groups spec w
  unfolding closing_of
  picked w c e = ap (λ x. x.selected) e

  -- If a sound window is closed as ready, `load_selected_groups` raises nothing: it returns one loaded
  -- group for each selected one, and at least as many as the spec's minimum, when that is at most
  -- the target.
  pub load_selected_groups-ok :
      (w : Window B) (c : Closing)
      → IsSound len spec w
      → w.closed ≡ some c
      → c.outcome ≡ ready
      → spec.minimum_accepted_groups ≤ spec.target_accepted_groups
      → (gs : List (Loaded len spec)) × (load_selected_groups len spec w ≡ ok gs)
        × (length gs ≡ length c.selected)
        × (spec.minimum_accepted_groups ≤ length gs)
  load_selected_groups-ok w c s closed e order =
      let made = (s.closing c closed).0 in
      let same = picked w c made in
      let (gs, loaded, size) =
        load_groups-ok w c.selected s
          (subst (All (IsAccepted w)) (sym same) (selected-IsAccepted w)) in
      (
        gs,
        load_ready w c closed e ∙ loaded,
        size,
        subst (λ n. spec.minimum_accepted_groups ≤ n) (sym (size ∙ ap length same))
            (minimum-le-selected w c.closed_at (sym (ap (λ x. x.outcome) made) ∙ e) order),
      )
