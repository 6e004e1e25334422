-- ===== src/Replay/Queue.antt =====
-- One row inserted into a ring of the replay pool (utils/replay_pool.py), read in the order of arrival.
use verl_vla.Common.{
  ℕ, zero, suc, ◌+◌, ◌-◌, ◌%◌, ◌≤◌, ◌<◌, ◌≡◌, refl, sym, ap, ◌∙◌, List, [], ◌∷◌, ◌++◌, length, take,
  drop, min, arith, if◌then◌else◌, ◌==◌, ltb, dec_lt, length-take, false, lt→ltb, subst,
  length-append,
}
use mathlib.Core.List.{append-nil, append_assoc}
use native.Mathlib.Nat.{mod-lt, mod-eq_of_lt, mod_self}
use verl_vla.Replay.Ring.{Ring, set_at, length-set_at}

min_left : (a b : ℕ) → a ≤ b → min a b ≡ a
min_left a b l = omega arith

min_right : (a b : ℕ) → b ≤ a → min a b ≡ b
min_right a b l = omega arith

pub add_zero : (a : ℕ) → a ≡ a + 0
add_zero a = omega arith

pub add_suc : (a b : ℕ) → suc a + b ≡ a + suc b
add_suc a b = omega arith

pub suc_test : (n : ℕ) → (suc n == 0) ≡ false
suc_test n = ground arith

ltb_refl : (a : ℕ) → ltb a a ≡ false
ltb_refl a = ground arith

ltb_no : (a b : ℕ) → ¬ (a < b) → ltb a b ≡ false
ltb_no a b h = ground arith

wraps : (p capacity : ℕ) → p < capacity → ¬ (suc p < capacity) → suc p % capacity ≡ 0
wraps p capacity l last = subst (λ n. n % capacity ≡ 0) (omega arith) (mod_self capacity)

module _ {R : Type 0} where
  -- The rows in use, from the oldest to the newest.
  unfoldable pub arrivals : ℕ → Ring R → List R
  arrivals capacity r =
      if ltb r.size capacity
      then take r.size r.slots
      else drop r.position r.slots ++ take r.position r.slots

  -- A bounded queue.
  unfoldable pub push : ℕ → List R → R → List R
  push capacity xs x = if ltb (length xs) capacity then xs ++ x ∷ [] else drop 1 xs ++ x ∷ []

  unfoldable pub push_all : ℕ → List R → List R → List R
  unfolding push
  push_all capacity xs [] = xs
  push_all capacity xs (y ∷ ys) = push_all capacity (push capacity xs y) ys

  take-set_at : (i : ℕ) (x : R) (ys : List R) → take i (set_at i x ys) ≡ take i ys
  unfolding set_at
  take-set_at zero x ys = refl
  take-set_at (suc i) x [] = refl
  take-set_at (suc i) x (y ∷ ys) = ap (λ t. y ∷ t) (take-set_at i x ys)

  take-suc-set_at :
      (i : ℕ) (x : R) (ys : List R)
      → i < length ys
      → take (suc i) (set_at i x ys) ≡ take i ys ++ x ∷ []
  unfolding set_at
  take-suc-set_at i x [] l = elim l [ ]
  take-suc-set_at zero x (y ∷ ys) l = refl
  take-suc-set_at (suc i) x (y ∷ ys) l = ap (λ t. y ∷ t) (take-suc-set_at i x ys (omega arith))

  drop-set_at : (i : ℕ) (x : R) (ys : List R) → drop (suc i) (set_at i x ys) ≡ drop (suc i) ys
  unfolding set_at
  drop-set_at i x [] = refl
  drop-set_at zero x (y ∷ ys) = refl
  drop-set_at (suc i) x (y ∷ ys) = drop-set_at i x ys

  drop_one-append :
      (i : ℕ) (ys zs : List R) → i < length ys → drop 1 (drop i ys ++ zs) ≡ drop (suc i) ys ++ zs
  drop_one-append i [] zs l = elim l [ ]
  drop_one-append zero (y ∷ ys) zs l = refl
  drop_one-append (suc i) (y ∷ ys) zs l = drop_one-append i ys zs (omega arith)

  drop_whole : (n : ℕ) (ys : List R) → length ys ≤ n → drop n ys ≡ []
  drop_whole zero [] l = refl
  drop_whole zero (y ∷ ys) l = absurd (omega arith)
  drop_whole (suc n) [] l = refl
  drop_whole (suc n) (y ∷ ys) l = drop_whole n ys (omega arith)

  take_whole : (n : ℕ) (ys : List R) → length ys ≤ n → take n ys ≡ ys
  take_whole zero [] l = refl
  take_whole zero (y ∷ ys) l = absurd (omega arith)
  take_whole (suc n) [] l = refl
  take_whole (suc n) (y ∷ ys) l = ap (λ t. y ∷ t) (take_whole n ys (omega arith))

  length-drop : (n : ℕ) (ys : List R) → length (drop n ys) ≡ length ys - n
  length-drop zero ys = omega arith
  length-drop (suc n) [] = omega arith
  length-drop (suc n) (y ∷ ys) = omega (arith, length-drop n ys)

  -- One row inserted.
  unfoldable pub insert_row : ℕ → Ring R → R → Ring R
  insert_row capacity r x = record {
    slots = set_at (r.position % capacity) x r.slots;
    size = min (suc r.size) capacity;
    position = suc r.position % capacity;
  }

  -- The whole storage after a write to its last slot.
  last_written :
      (p : ℕ) (x : R) (ys : List R) → suc p ≡ length ys → set_at p x ys ≡ take p ys ++ x ∷ []
  last_written p x ys e =
      sym (take_whole (suc p) (set_at p x ys) (omega (arith, length-set_at p x ys)))
      ∙ take-suc-set_at p x ys (omega arith)

  -- A row written when the ring is not full.
  fill :
      (capacity : ℕ) (x : R) (slots : List R) (size : ℕ)
      → length slots ≡ capacity
      → size < capacity
      → arrivals capacity (record {
        slots = set_at size x slots;
        size = min (suc size) capacity;
        position = suc size % capacity;
      })
        ≡ take size slots ++ x ∷ []
  unfolding arrivals
  fill capacity x slots size room l = elim (dec_lt (suc size) capacity) [
    | yes more ↦
        rw (min_left (suc size) capacity (omega arith), lt→ltb (suc size) capacity more)
          (take-suc-set_at size x slots (omega arith))
    | no last ↦
        rw
          (
            min_right (suc size) capacity (omega arith),
            ltb_refl capacity,
            wraps size capacity l last,
          )
          (append-nil _ ∙ last_written size x slots (omega arith))
  ]

  -- A row written over the oldest one.
  overwrite :
      (capacity : ℕ) (x : R) (slots : List R) (p : ℕ)
      → length slots ≡ capacity
      → p < capacity
      → arrivals capacity
          (record { slots = set_at p x slots; size = capacity; position = suc p % capacity })
        ≡ drop 1 (drop p slots ++ take p slots) ++ x ∷ []
  unfolding arrivals
  overwrite capacity x slots p room l =
      rw (ltb_refl capacity, drop_one-append p slots (take p slots) (omega arith))
        (elim (dec_lt (suc p) capacity) [
          | yes more ↦
              rw (mod-eq_of_lt more, drop-set_at p x slots, take-suc-set_at p x slots (omega arith))
                (sym (append_assoc (drop (suc p) slots) (take p slots) (x ∷ [])))
          | no last ↦
              rw (wraps p capacity l last, drop_whole (suc p) slots (omega arith))
                (append-nil _ ∙ last_written p x slots (omega arith))
        ])

  -- What the order of arrival needs of a ring.
  abbrev pub Shape : ℕ → Ring R → Type 0
  Shape capacity r =
      (r.size ≤ capacity)
      × (r.position < capacity)
      × (length r.slots ≡ capacity)
      × (r.size < capacity → r.position ≡ r.size)

  pub insert_row-Shape :
      (capacity : ℕ) (r : Ring R) (x : R)
      → Shape capacity r
      → Shape capacity (insert_row capacity r x)
  unfolding insert_row
  insert_row-Shape capacity r x (bound, inside, room, start) = (
    omega arith,
    mod-lt (suc r.position) (omega arith),
    length-set_at (r.position % capacity) x r.slots ∙ room,
    λ part.
        mod-eq_of_lt {n = suc r.position} {m = capacity} (omega (arith, start (omega arith)))
        ∙ omega (arith, start (omega arith)),
  )

  length-arrivals :
      (capacity : ℕ) (r : Ring R) → Shape capacity r → length (arrivals capacity r) ≡ r.size
  unfolding arrivals
  length-arrivals capacity r (bound, inside, room, start) = elim (dec_lt r.size capacity) [
    | yes part ↦ rw (lt→ltb r.size capacity part) (length-take r.size r.slots ∙ omega arith)
    | no full ↦ rw (ltb_no r.size capacity full) (
        omega (
          arith,
          length-append (drop r.position r.slots) (take r.position r.slots),
          length-take r.position r.slots,
          length-drop r.position r.slots,
        ))
  ]

  arrivals_part :
      (capacity : ℕ) (r : Ring R) → r.size < capacity → arrivals capacity r ≡ take r.size r.slots
  unfolding arrivals
  arrivals_part capacity r part = rw (lt→ltb r.size capacity part)

  arrivals_full :
      (capacity : ℕ) (r : Ring R)
      → ¬ (r.size < capacity)
      → arrivals capacity r ≡ drop r.position r.slots ++ take r.position r.slots
  unfolding arrivals
  arrivals_full capacity r full = rw (ltb_no r.size capacity full)

  pub arrivals-insert_row :
      (capacity : ℕ) (r : Ring R) (x : R)
      → Shape capacity r
      → arrivals capacity (insert_row capacity r x) ≡ push capacity (arrivals capacity r) x
  unfolding insert_row push
  arrivals-insert_row capacity r x h =
      rw (length-arrivals capacity r h, mod-eq_of_lt h.1)
        (elim (dec_lt r.size capacity) [
          | yes part ↦
              rw (lt→ltb r.size capacity part, arrivals_part capacity r part, h.3 part)
                (fill capacity x r.slots r.size h.2 part)
          | no full ↦
              rw
                (
                  ltb_no r.size capacity full,
                  min_right (suc r.size) capacity (omega arith),
                  arrivals_full capacity r full,
                )
                (overwrite capacity x r.slots r.position h.2 h.1)
        ])
