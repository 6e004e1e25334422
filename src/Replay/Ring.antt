-- ===== src/Replay/Ring.antt =====
-- One ring of `SACReplayPool` (utils/replay_pool.py): `_insert_block_to_pool` on the storage of one task
-- and one sign. The tensors of a pool are a list of rows, as long as the capacity.
use verl_vla.Common.{
  ℕ, zero, suc, ◌+◌, ◌%◌, ◌≤◌, ◌<◌, ◌≡◌, refl, ap, ◌∙◌, List, [], ◌∷◌, some, length, get_elem?,
  take, min, arith, All, All-take, if◌then◌else◌, ◌==◌, dec_lt, ◌≢◌, false, length-take, ℕ_discrete,
}
use native.Mathlib.Nat.{mod-lt, mod-eq_of_lt}

pub record Ring (R : Type 0) : Type 0 where
  pub slots : List R
  pub size : ℕ
  pub position : ℕ

test_no : (a b : ℕ) → a ≢ b → (a == b) ≡ false
test_no a b h = ground arith

module _ {R : Type 0} where
  -- A row written at an index; past the end nothing is written.
  unfoldable pub set_at : ℕ → R → List R → List R
  set_at i x [] = []
  set_at zero x (y ∷ ys) = x ∷ ys
  set_at (suc i) x (y ∷ ys) = y ∷ set_at i x ys

  -- `index_copy_` at the indices `(position + k) % capacity`.
  unfoldable pub write_rows : ℕ → ℕ → List R → List R → List R
  unfolding set_at
  write_rows capacity position [] slots = slots
  write_rows capacity position (x ∷ xs) slots =
      write_rows capacity (suc position) xs (set_at (position % capacity) x slots)

  -- `_insert_block_to_pool`
  unfoldable pub insert_block : ℕ → List R → Ring R → Ring R
  unfolding write_rows
  insert_block capacity source r =
      let count = min (length source) capacity in
      if length source == 0 then r else record {
        slots = write_rows capacity r.position (take count source) r.slots;
        size = min (r.size + count) capacity;
        position = (r.position + count) % capacity;
      }

  -- The slot holds a row that satisfies `P`.
  abbrev pub Holds : (R → Type 0) → List R → ℕ → Type 0
  Holds P slots i = (x : R) × (get_elem? slots i ≡ some x) × P x

  -- The first `size` slots are in use, and their rows satisfy `P`.
  pub record IsRing (P : R → Type 0) (capacity : ℕ) (r : Ring R) : Type 0 where
    pub bound : r.size ≤ capacity
    pub inside : r.position < capacity
    pub room : length r.slots ≡ capacity
    pub start : r.size < capacity → r.position ≡ r.size
    pub live : (i : ℕ) → i < r.size → Holds P r.slots i

  pub length-set_at : (i : ℕ) (x : R) (ys : List R) → length (set_at i x ys) ≡ length ys
  unfolding set_at
  length-set_at i x [] = refl
  length-set_at zero x (y ∷ ys) = refl
  length-set_at (suc i) x (y ∷ ys) = ap suc (length-set_at i x ys)

  pub length-write_rows :
      (capacity position : ℕ) (xs slots : List R)
      → length (write_rows capacity position xs slots) ≡ length slots
  unfolding write_rows
  length-write_rows capacity position [] slots = refl
  length-write_rows capacity position (x ∷ xs) slots =
      length-write_rows capacity (suc position) xs (set_at (position % capacity) x slots)
      ∙ length-set_at (position % capacity) x slots

  module _ (P : R → Type 0) where
    set_at-Holds :
        (i : ℕ) (x : R) (ys : List R) (j : ℕ) → P x → Holds P ys j → Holds P (set_at i x ys) j
    unfolding set_at
    set_at-Holds i x [] j p h = h
    set_at-Holds zero x (y ∷ ys) zero p h = (x, refl, p)
    set_at-Holds zero x (y ∷ ys) (suc j) p h = h
    set_at-Holds (suc i) x (y ∷ ys) zero p h = h
    set_at-Holds (suc i) x (y ∷ ys) (suc j) p h = set_at-Holds i x ys j p h

    set_at-written : (i : ℕ) (x : R) (ys : List R) → i < length ys → P x → Holds P (set_at i x ys) i
    unfolding set_at
    set_at-written i x [] l p = elim l [ ]
    set_at-written zero x (y ∷ ys) l p = (x, refl, p)
    set_at-written (suc i) x (y ∷ ys) l p = set_at-written i x ys (omega arith) p

    write_rows-Holds :
        (capacity position : ℕ) (xs slots : List R) (j : ℕ)
        → All P xs
        → Holds P slots j
        → Holds P (write_rows capacity position xs slots) j
    unfolding write_rows
    write_rows-Holds capacity position [] slots j all_ h = h
    write_rows-Holds capacity position (x ∷ xs) slots j all_ h =
        write_rows-Holds capacity (suc position) xs (set_at (position % capacity) x slots) j all_.1
          (set_at-Holds (position % capacity) x slots j all_.0 h)

    write_rows-written :
        (capacity position : ℕ) (xs slots : List R) (j : ℕ)
        → All P xs
        → length slots ≡ capacity
        → position ≤ j
        → j < capacity
        → j < position + length xs
        → Holds P (write_rows capacity position xs slots) j
    unfolding write_rows
    write_rows-written capacity position [] slots j all_ room low cap high = absurd (omega arith)
    write_rows-written capacity position (x ∷ xs) slots j all_ room low cap high =
        elim (ℕ_discrete position j) [
          | yes here ↦
              write_rows-Holds capacity (suc position) xs (set_at (position % capacity) x slots) j
                all_.1
                (rw (mod-eq_of_lt {n = position} {m = capacity} (omega arith), here)
                  (set_at-written j x slots (omega arith) all_.0))
          | no later ↦
              write_rows-written capacity (suc position) xs (set_at (position % capacity) x slots) j
                all_.1 (length-set_at (position % capacity) x slots ∙ room) (omega arith) cap
                (omega arith)
        ]

    written :
        {capacity : ℕ} (xs : List R) (r : Ring R) (count : ℕ)
        → length xs ≡ count
        → count ≤ capacity
        → All P xs
        → IsRing P capacity r
        → IsRing P capacity (record {
          slots = write_rows capacity r.position xs r.slots;
          size = min (r.size + count) capacity;
          position = (r.position + count) % capacity;
        })
    written {capacity = capacity} xs r count len fits all_ h = record {
      bound = omega arith;
      inside = mod-lt _ (omega (arith, h.inside));
      room = length-write_rows capacity r.position xs r.slots ∙ h.room;
      start = λ part. advanced part (h.start (omega arith));
      live = λ i l. elim (dec_lt i r.size) [
        | yes old ↦ write_rows-Holds capacity r.position xs r.slots i all_ (h.live i old)
        | no new ↦
            write_rows-written capacity r.position xs r.slots i all_ h.room
              (omega (arith, h.start (omega arith))) (omega arith)
              (omega (arith, h.start (omega arith), len))
      ];
    }
      where
        advanced :
            min (r.size + count) capacity < capacity
            → r.position ≡ r.size
            → (r.position + count) % capacity ≡ min (r.size + count) capacity
        advanced part e =
            mod-eq_of_lt {n = r.position + count} {m = capacity} (omega arith) ∙ omega arith

    -- An insertion keeps a ring well formed: its size is at most the capacity, and every slot in use
    -- holds a row that satisfies what all inserted rows satisfy; in particular none is a blank one.
    pub insert_block-IsRing :
        (capacity : ℕ) (source : List R) (r : Ring R)
        → All P source
        → IsRing P capacity r
        → IsRing P capacity (insert_block capacity source r)
    unfolding insert_block
    insert_block-IsRing capacity source r all_ h = elim (ℕ_discrete (length source) 0) [
      | yes e ↦ rw e h
      | no some_rows ↦ rw (test_no (length source) 0 some_rows) (
          let count = min (length source) capacity in
          written (take count source) r count (length-take count source ∙ omega arith) (omega arith)
            (All-take P count source all_) h)
    ]
