-- ===== src/Replay/Fifo.antt =====
-- A block of rows inserted into a ring of the replay pool (utils/replay_pool.py), in the order of arrival.
use verl_vla.Common.{
  ℕ, zero, suc, ◌+◌, ◌%◌, ◌≤◌, ◌<◌, ◌≡◌, refl, sym, ap, ◌∙◌, List, [], ◌∷◌, length, take, min,
  arith, length-take,
}
use native.Mathlib.Nat.{mod-eq_of_lt, mod-mod, suc-mod}
use verl_vla.Replay.Ring.{Ring, set_at, write_rows, insert_block, IsRing}
use verl_vla.Replay.Queue.{
  arrivals, push_all, insert_row, insert_row-Shape, arrivals-insert_row, Shape, add_zero, add_suc,
  suc_test,
}

module _ {R : Type 0} where
  insert_rows : ℕ → Ring R → List R → Ring R
  insert_rows capacity r [] = r
  insert_rows capacity r (x ∷ xs) = insert_rows capacity (insert_row capacity r x) xs

  arrivals-insert_rows :
      (capacity : ℕ) (r : Ring R) (xs : List R)
      → Shape capacity r
      → arrivals capacity (insert_rows capacity r xs) ≡ push_all capacity (arrivals capacity r) xs
  unfolding insert_rows push_all
  arrivals-insert_rows capacity r [] h = refl
  arrivals-insert_rows capacity r (x ∷ xs) h =
      arrivals-insert_rows capacity (insert_row capacity r x) xs (insert_row-Shape capacity r x h)
      ∙ ap (λ a. push_all capacity a xs) (arrivals-insert_row capacity r x h)

  same_ring :
      {a b p q : ℕ} (slots : List R)
      → a ≡ b
      → p ≡ q
      → ◌≡◌ {A = Ring R}
          (record { slots = slots; size = a; position = p })
          (record { slots = slots; size = b; position = q })
  same_ring {b = b} {p = p} slots e f =
      ap (λ n. record { slots = slots; size = n; position = p }) e
      ∙ ap (λ n. record { slots = slots; size = b; position = n }) f

  -- The block of rows that the code writes at once is the rows written one by one.
  insert_rows-block :
      (capacity position size : ℕ) (slots xs : List R)
      → size ≤ capacity
      → insert_rows capacity
          (record { slots = slots; size = size; position = position % capacity })
          xs
        ≡ record {
          slots = write_rows capacity position xs slots;
          size = min (size + length xs) capacity;
          position = (position + length xs) % capacity;
        }
  unfolding insert_rows insert_row write_rows
  insert_rows-block capacity position size slots [] l =
      same_ring slots (omega arith) (ap (λ p. p % capacity) (add_zero position))
  insert_rows-block capacity position size slots (x ∷ xs) l =
      ap (λ r. insert_rows capacity r xs)
        (ap
            (λ p. record {
              slots = set_at p x slots;
              size = min (suc size) capacity;
              position = suc (position % capacity) % capacity;
            })
            (mod-mod position capacity)
          ∙ same_ring (set_at (position % capacity) x slots) refl (sym (suc-mod position capacity)))
      ∙ insert_rows-block capacity (suc position) (min (suc size) capacity)
          (set_at (position % capacity) x slots) xs (omega arith)
      ∙ same_ring (write_rows capacity (suc position) xs (set_at (position % capacity) x slots))
          (omega arith) (ap (λ p. p % capacity) (add_suc position (length xs)))

  take_nil : (n : ℕ) → take {A = R} n [] ≡ []
  take_nil zero = refl
  take_nil (suc n) = refl

  written_rows :
      (capacity count : ℕ) (rows : List R) (r : Ring R)
      → r.position < capacity
      → r.size ≤ capacity
      → length rows ≡ count
      → ◌≡◌ {A = Ring R}
          (record {
            slots = write_rows capacity r.position rows r.slots;
            size = min (r.size + count) capacity;
            position = (r.position + count) % capacity;
          })
          (insert_rows capacity r rows)
  written_rows capacity count rows r inside bound len =
      same_ring (write_rows capacity r.position rows r.slots) (omega (arith, len))
        (ap (λ n. (r.position + n) % capacity) (sym len))
      ∙ sym (insert_rows-block capacity r.position r.size r.slots rows bound)
      ∙ ap
          (λ p. insert_rows capacity (record { slots = r.slots; size = r.size; position = p }) rows)
          (mod-eq_of_lt inside)

  -- Inserting a block of rows into a ring is pushing its first rows, at most as many as the capacity,
  -- one by one into a bounded queue that drops its oldest row when it is full: the ring read in the
  -- order of arrival is that queue.
  pub insert_block-push_all :
      (P : R → Type 0) (capacity : ℕ) (source : List R) (r : Ring R)
      → IsRing P capacity r
      → arrivals capacity (insert_block capacity source r)
        ≡ push_all capacity (arrivals capacity r) (take (min (length source) capacity) source)
  unfolding insert_block push_all
  insert_block-push_all P capacity [] r h =
      ap (push_all capacity (arrivals capacity r)) (sym (take_nil (min 0 capacity)))
  insert_block-push_all P capacity (x ∷ xs) r h =
      let count = min (length (x ∷ xs)) capacity in
      let rows = take count (x ∷ xs) in
      rw (suc_test (length xs)) (
        ap (arrivals capacity) (
          written_rows capacity count rows r h.inside h.bound
            (length-take count (x ∷ xs) ∙ omega arith))
        ∙ arrivals-insert_rows capacity r rows (h.bound, h.inside, h.room, h.start))
