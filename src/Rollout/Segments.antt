-- ===== src/Rollout/Segments.antt =====
-- What the transition masks (utils/data.py) mean.
use verl_vla.Common.{
  ℕ, zero, suc, ◌+◌, ◌≤◌, ◌<◌, ◌≡◌, ◌↔◌, ◌⊎◌, inl, inr, Bool, true, false, arith, ltb, Bool-cases,
  dec_le, ℕ_discrete, ap, sym, ◌∙◌,
}
use verl_vla.Rollout.Masks.{
  Mask, done_indices, set_segment, mark_segments, transition_masks, any_in, segment_size,
}

not_before : (a start : ℕ) → start ≤ a → ltb a start ≡ false
not_before a start l = ground arith

-- A done step at or after `i`, from step `a` on, among `n` steps.
abbrev pub DoneAfter : Mask → ℕ → ℕ → ℕ → Type 0
DoneAfter done i a n = (j : ℕ) × (i ≤ j) × (a ≤ j) × (j < a + n) × (done j ≡ true)

widen : (done : Mask) (i a n : ℕ) → DoneAfter done i (suc a) n → DoneAfter done i a (suc n)
widen done i a n (j, x, y, z, w) = (j, x, omega arith, omega arith, w)

narrow :
    (done : Mask) (i a n : ℕ)
    → (done a ≡ false) ⊎ (suc a ≤ i)
    → DoneAfter done i a (suc n)
    → DoneAfter done i (suc a) n
narrow done i a n h (j, x, y, z, w) = elim (ℕ_discrete j a) [
  | yes same ↦ elim h [
    | inl other ↦ absurd (clash (done a) other (ap done (sym same) ∙ w))
    | inr later ↦ absurd (omega arith)
  ]
  | no apart ↦ (j, x, omega arith, omega arith, w)
]
  where
    clash : (b : Bool) → b ≡ false → b ≡ true → ⊥
    clash b p q = cc (p, q)

in_segment :
    (mask : Mask) (first last i : ℕ) → first ≤ i → i ≤ last → set_segment mask first last i ≡ true
unfolding set_segment
in_segment mask first last i x y = ground arith

beside_segment :
    (mask : Mask) (first last i : ℕ) → mask i ≡ true → set_segment mask first last i ≡ true
unfolding set_segment
beside_segment mask first last i e = ground arith

of_segment :
    (mask : Mask) (first last i : ℕ)
    → set_segment mask first last i ≡ true
    → (mask i ≡ true) ⊎ ((first ≤ i) × (i ≤ last))
unfolding set_segment
of_segment mask first last i e = ground arith

-- The steps in question, before and after the segment that ends at the done step `a`.
Marked : Mask → Mask → ℕ → ℕ → ℕ → ℕ → Type 0
Marked done mask start i a n = (mask i ≡ true) ⊎ ((start ≤ i) × DoneAfter done i a n)

after_segment :
    (done mask : Mask) (start i a n : ℕ)
    → start ≤ a
    → done a ≡ true
    → Marked done (set_segment mask start a) (suc a) i (suc a) n
      ↔ Marked done mask start i a (suc n)
unfolding Marked
after_segment done mask start i a n l d = (
  λ h. elim h [
    | inl e ↦ elim (of_segment mask start a i e) [
      | inl old ↦ inl old
      | inr (x, y) ↦ inr (x, (a, y, omega arith, omega arith, d))
    ]
    | inr (x, more) ↦ inr (omega arith, widen done i a n more)
  ],
  λ h. elim h [
    | inl old ↦ inl (beside_segment mask start a i old)
    | inr (x, more) ↦ elim (dec_le i a) [
      | yes y ↦ inl (in_segment mask start a i x y)
      | no y ↦ inr (omega arith, narrow done i a n (inr (omega arith)) more)
    ]
  ],
)

before_segment :
    (done mask : Mask) (start i a n : ℕ)
    → done a ≡ false
    → Marked done mask start i (suc a) n ↔ Marked done mask start i a (suc n)
unfolding Marked
before_segment done mask start i a n d = (
  λ h. elim h [ inl e ↦ inl e | inr (x, more) ↦ inr (x, widen done i a n more) ],
  λ h. elim h [ inl e ↦ inl e | inr (x, more) ↦ inr (x, narrow done i a n (inl d) more) ],
)

iff_trans : {A B E : Type 0} → A ↔ B → B ↔ E → A ↔ E
iff_trans f g = (λ a. g.0 (f.0 a), λ c. f.1 (g.1 c))

-- What the loop makes of the valid mask: it adds the steps from `start` on that a done step follows.
valid_iff :
    (done success : Mask) (n a start i : ℕ) (masks : Mask × Mask)
    → start ≤ a
    → ((mark_segments success start (done_indices done a n) masks).0 i ≡ true)
      ↔ Marked done masks.0 start i a n
unfolding done_indices mark_segments Marked
valid_iff done success zero a start i masks l =
    (λ e. inl e, λ h. elim h [ inl e ↦ e | inr (_, (j, x, y, z, w)) ↦ absurd (omega arith) ])
valid_iff done success (suc n) a start i masks l = elim (Bool-cases (done a)) [
  | inr other ↦ rw other (
      iff_trans (valid_iff done success n (suc a) start i masks (omega arith))
        (before_segment done masks.0 start i a n other))
  | inl ends ↦
      rw (ends, not_before a start l)
        (elim (Bool-cases (any_in success start (segment_size start a))) [
          | inl good ↦ rw good (
              iff_trans (valid_iff done success n (suc a) (suc a) i _ (omega arith))
                (after_segment done masks.0 start i a n l ends))
          | inr bad ↦ rw bad (
              iff_trans (valid_iff done success n (suc a) (suc a) i _ (omega arith))
                (after_segment done masks.0 start i a n l ends))
        ])
]

-- A step of a row is valid exactly when it or a later step of the row is done.
pub transition_masks-valid_iff :
    (n : ℕ) (done success : Mask) (i : ℕ)
    → ((transition_masks n done success).0 i ≡ true) ↔ DoneAfter done i 0 n
unfolding transition_masks Marked
transition_masks-valid_iff n done success i =
    iff_trans (valid_iff done success n 0 0 i (λ k. false, λ k. false) (omega arith))
      (λ h. elim h [ inl e ↦ cc | inr (x, more) ↦ more ], λ more. inr (omega arith, more))
