-- ===== src/Executor/SerialLanes.antt =====
-- What the serial executor (envs/action_executor.py) sends to each environment when it smooths its plans.
use verl_vla.Common.{
  ℕ, zero, suc, ◌<◌, ◌≡◌, refl, ap, ◌∙◌, Bool, true, false, not, List, [], ◌∷◌, map, length, take,
  drop, replicate, any, All, arith, ok, if◌then◌else◌, Bool-cases, Option-cases, subst, inl, inr,
}
use verl_vla.Executor.Chunk.{SerialActionSmoothingConfig, blend_first}
use verl_vla.Executor.Serial.{
  SerialExecutor, and_not, blend_valid, blend_tail, smooth_serial_action_chunks, valid_of,
}

abbrev pub get_or {ℓ} : {A : Type ℓ} → A → List A → ℕ → A
get_or d [] j = d
get_or d (x ∷ xs) zero = x
get_or d (x ∷ xs) (suc j) = get_or d xs j

-- The actions of one lane.
abbrev pub lane_actions {ℓ} : {R : Type ℓ} → R → ℕ → List (List R) → List R
lane_actions d j columns = map (λ column. get_or d column j) columns

-- Every column has an action for each of the lanes.
abbrev pub HasLanes {ℓ} : {R : Type ℓ} → ℕ → List (List R) → Type 0
HasLanes lanes = All λ column. length column ≡ lanes

pub map-take {ℓ κ} :
    {A : Type ℓ} {B : Type κ} (f : A → B) (n : ℕ) (xs : List A)
    → map f (take n xs) ≡ take n (map f xs)
map-take f zero xs = refl
map-take f (suc n) [] = refl
map-take f (suc n) (x ∷ xs) = ap (◌∷◌ (f x)) (map-take f n xs)

pub map-drop {ℓ κ} :
    {A : Type ℓ} {B : Type κ} (f : A → B) (n : ℕ) (xs : List A)
    → map f (drop n xs) ≡ drop n (map f xs)
map-drop f zero xs = refl
map-drop f (suc n) [] = refl
map-drop f (suc n) (x ∷ xs) = map-drop f n xs

All-drop {ℓ κ} : {A : Type ℓ} (P : A → Type κ) (n : ℕ) (xs : List A) → All P xs → All P (drop n xs)
All-drop P zero xs h = h
All-drop P (suc n) [] h = tt
All-drop P (suc n) (x ∷ xs) h = All-drop P n xs h.1

module _ {R : Type 0} (blend : ℕ → ℕ → R → R → R) (d : R) where
  get_or-blend_valid :
      (valid : List Bool) (i n : ℕ) (p x : List R) (j : ℕ)
      → j < length valid
      → length p ≡ length valid
      → length x ≡ length valid
      → get_or d (blend_valid blend valid i n p x) j
        ≡ (if get_or false valid j then blend i n (get_or d p j) (get_or d x j) else get_or d x j)
  unfolding blend_valid
  get_or-blend_valid [] i n p x j l lp lx = absurd (omega arith)
  get_or-blend_valid (b ∷ valid) i n [] x j l lp lx = absurd (omega arith)
  get_or-blend_valid (b ∷ valid) i n (p ∷ ps) [] j l lp lx = absurd (omega arith)
  get_or-blend_valid (true ∷ valid) i n (p ∷ ps) (x ∷ xs) zero l lp lx = refl
  get_or-blend_valid (false ∷ valid) i n (p ∷ ps) (x ∷ xs) zero l lp lx = refl
  get_or-blend_valid (true ∷ valid) i n (p ∷ ps) (x ∷ xs) (suc j) l lp lx =
      get_or-blend_valid valid i n ps xs j (omega arith) (omega arith) (omega arith)
  get_or-blend_valid (false ∷ valid) i n (p ∷ ps) (x ∷ xs) (suc j) l lp lx =
      get_or-blend_valid valid i n ps xs j (omega arith) (omega arith) (omega arith)

  module _ (valid : List Bool) (j : ℕ) (inside : j < length valid) where
    lane-valid :
        (n i total : ℕ) (previous next : List (List R))
        → HasLanes (length valid) previous
        → HasLanes (length valid) next
        → get_or false valid j ≡ true
        → lane_actions d j (blend_first (blend_valid blend valid) n i total previous next)
          ≡ blend_first blend n i total (lane_actions d j previous) (lane_actions d j next)
    unfolding blend_first
    lane-valid zero i total previous next hp hn v = refl
    lane-valid (suc n) i total [] next hp hn v = refl
    lane-valid (suc n) i total (p ∷ previous) [] hp hn v = refl
    lane-valid (suc n) i total (p ∷ previous) (x ∷ next) hp hn v =
        let column = get_or-blend_valid valid i total p x j inside hp.0 hn.0 in
        let rest = lane-valid n (suc i) total previous next hp.1 hn.1 v in
        ground (arith, column, rest, v)

    lane-invalid :
        (n i total : ℕ) (previous next : List (List R))
        → HasLanes (length valid) previous
        → HasLanes (length valid) next
        → get_or false valid j ≡ false
        → lane_actions d j (blend_first (blend_valid blend valid) n i total previous next)
          ≡ lane_actions d j next
    unfolding blend_first
    lane-invalid zero i total previous next hp hn v = refl
    lane-invalid (suc n) i total [] next hp hn v = refl
    lane-invalid (suc n) i total (p ∷ previous) [] hp hn v = refl
    lane-invalid (suc n) i total (p ∷ previous) (x ∷ next) hp hn v =
        let column = get_or-blend_valid valid i total p x j inside hp.0 hn.0 in
        let rest = lane-invalid n (suc i) total previous next hp.1 hn.1 v in
        ground (arith, column, rest, v)

  some_valid :
      (valid : List Bool) (j : ℕ) → any (λ v. v) valid ≡ false → get_or false valid j ≡ false
  some_valid [] j h = refl
  some_valid (b ∷ valid) zero h = ground (arith, h)
  some_valid (b ∷ valid) (suc j) h = some_valid valid j (ground (arith, h))

  length-blend_valid :
      (valid : List Bool) (i n : ℕ) (p x : List R)
      → length (blend_valid blend valid i n p x) ≡ length x
  unfolding blend_valid
  length-blend_valid [] i n p x = refl
  length-blend_valid (true ∷ valid) i n [] x = refl
  length-blend_valid (false ∷ valid) i n [] x = refl
  length-blend_valid (true ∷ valid) i n (p ∷ ps) [] = refl
  length-blend_valid (false ∷ valid) i n (p ∷ ps) [] = refl
  length-blend_valid (true ∷ valid) i n (p ∷ ps) (x ∷ xs) =
      ap suc (length-blend_valid valid i n ps xs)
  length-blend_valid (false ∷ valid) i n (p ∷ ps) (x ∷ xs) =
      ap suc (length-blend_valid valid i n ps xs)

  blend_first-HasLanes :
      (lanes : ℕ) (valid : List Bool) (n i total : ℕ) (previous next : List (List R))
      → HasLanes lanes next
      → HasLanes lanes (blend_first (blend_valid blend valid) n i total previous next)
  unfolding blend_first
  blend_first-HasLanes lanes valid zero i total previous next h = h
  blend_first-HasLanes lanes valid (suc n) i total [] next h = h
  blend_first-HasLanes lanes valid (suc n) i total (p ∷ previous) [] h = tt
  blend_first-HasLanes lanes valid (suc n) i total (p ∷ previous) (x ∷ next) h = (
    length-blend_valid valid i total p x ∙ h.0,
    blend_first-HasLanes lanes valid n (suc i) total previous next h.1,
  )

  blend_tail-HasLanes :
      (c : SerialActionSmoothingConfig) (lanes : ℕ) (valid : List Bool)
      (previous next : List (List R))
      → HasLanes lanes next
      → HasLanes lanes (blend_tail blend c valid previous next)
  unfolding blend_tail
  blend_tail-HasLanes c lanes valid previous next h = ground (
    arith,
    h,
    blend_first-HasLanes lanes valid c.blend_steps 0 c.blend_steps (drop c.execution_steps previous)
        next h,
  )

  -- The smoothing keeps the lanes of the chunk.
  pub smooth-HasLanes :
      (c : SerialActionSmoothingConfig) (ex : SerialExecutor R) (lanes : ℕ)
      (next smoothed : List (List R))
      → HasLanes lanes next
      → smooth_serial_action_chunks blend c ex lanes next ≡ ok smoothed
      → HasLanes lanes smoothed
  unfolding smooth_serial_action_chunks
  smooth-HasLanes c ex lanes next smoothed h e = elim (Option-cases ex.previous_actions) [
    | inl nothing ↦
        let same : next ≡ smoothed = ground (arith, e, nothing) in subst (HasLanes lanes) same h
    | inr (old, q) ↦
        let valid = valid_of blend lanes ex.previous_valid in
        let same : blend_tail blend c valid old.1 next ≡ smoothed = ground (arith, e, q) in
        subst (HasLanes lanes) same (blend_tail-HasLanes c lanes valid old.1 next h)
  ]

  -- The lanes that were not reset.
  pub length-and_not :
      (mask : List Bool) → length (and_not (replicate (length mask) true) mask) ≡ length mask
  unfolding and_not
  length-and_not [] = refl
  length-and_not (b ∷ mask) = ap suc (length-and_not mask)

  pub get_or-and_not :
      (mask : List Bool) (j : ℕ)
      → get_or false (and_not (replicate (length mask) true) mask) j ≡ not (get_or true mask j)
  unfolding and_not
  get_or-and_not [] j = refl
  get_or-and_not (b ∷ mask) zero = refl
  get_or-and_not (b ∷ mask) (suc j) = get_or-and_not mask j

  -- The smoothing of a plan after one whose lanes were all valid, lane by lane.
  pub blend_tail-lanes :
      (c : SerialActionSmoothingConfig) (valid : List Bool) (j : ℕ) (kept next : List (List R))
      → j < length valid
      → HasLanes (length valid) kept
      → HasLanes (length valid) next
      → lane_actions d j (blend_tail blend c valid kept next) ≡ (
          if get_or false valid j
          then blend_first blend c.blend_steps 0 c.blend_steps
              (lane_actions d j (drop c.execution_steps kept))
              (lane_actions d j next)
          else lane_actions d j next)
  unfolding blend_tail
  blend_tail-lanes c valid j kept next inside hk hn =
      let tail_lanes =
        All-drop (λ column. length column ≡ length valid) c.execution_steps kept hk in
      elim (Bool-cases (any (λ v. v) valid)) [
        | inr nobody ↦ rw (nobody, some_valid valid j nobody) refl
        | inl somebody ↦ elim (Bool-cases (get_or false valid j)) [
          | inl v ↦
              rw (somebody, v)
                (lane-valid valid j inside c.blend_steps 0 c.blend_steps
                  (drop c.execution_steps kept) next tail_lanes hn v)
          | inr v ↦
              rw (somebody, v)
                (lane-invalid valid j inside c.blend_steps 0 c.blend_steps
                  (drop c.execution_steps kept) next tail_lanes hn v)
        ]
      ]
