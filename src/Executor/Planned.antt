-- ===== src/Executor/Planned.antt =====
-- Which tick a queued action of the asynchronous executor belongs to (envs/action_executor.py): `Plan s a` says
-- that the action `a` is planned for tick `s`, counted as `_completed_steps` counts them.
use verl_vla.Common.{
  ℕ, zero, suc, ◌+◌, ◌≡◌, subst, Bool, false, inl, inr, List, [], ◌∷◌, drop, map, length, min,
  arith, ◌==◌, Bool-cases,
}
use verl_vla.Executor.Chunk.{blend_first, smooth_action_chunk_overlap}
use verl_vla.Executor.Loop.{QueuedAction, enqueue}

module _ {A V : Type 0} where
  abbrev pub actions_of : List (QueuedAction A V) → List A
  actions_of queue = map (λ q. q.action) queue

module _ {A : Type 0} (Plan : ℕ → A → Type 0) where
  -- The actions are planned for the ticks from `s` on.
  abbrev pub PlannedFrom : ℕ → List A → Type 0
  PlannedFrom s [] = Unit
  PlannedFrom s (a ∷ actions) = Plan s a × PlannedFrom (suc s) actions

  pub planned_at :
      (s t : ℕ) (actions : List A) → s ≡ t → PlannedFrom s actions → PlannedFrom t actions
  planned_at s t actions e h = rw (← e) h

  pub drop-PlannedFrom :
      (n s : ℕ) (actions : List A) → PlannedFrom s actions → PlannedFrom (s + n) (drop n actions)
  drop-PlannedFrom zero s actions h = planned_at s (s + 0) actions (omega arith) h
  drop-PlannedFrom (suc n) s [] h = tt
  drop-PlannedFrom (suc n) s (a ∷ actions) h =
      planned_at (suc s + n) (s + suc n) (drop n actions) (omega arith)
        (drop-PlannedFrom n (suc s) actions h.1)

  unfoldable pub Blends : (ℕ → ℕ → A → A → A) → Type 0
  Blends blend = (i n s : ℕ) (a b : A) → Plan s a → Plan s b → Plan s (blend i n a b)

  pub blend_first-PlannedFrom :
      (blend : ℕ → ℕ → A → A → A) (n i total s : ℕ) (previous later : List A)
      → Blends blend
      → PlannedFrom s previous
      → PlannedFrom s later
      → PlannedFrom s (blend_first blend n i total previous later)
  unfolding blend_first Blends
  blend_first-PlannedFrom blend zero i total s previous later b p q = q
  blend_first-PlannedFrom blend (suc n) i total s [] later b p q = q
  blend_first-PlannedFrom blend (suc n) i total s (x ∷ previous) [] b p q = tt
  blend_first-PlannedFrom blend (suc n) i total s (x ∷ previous) (y ∷ later) b p q = (
    b i total s x y p.0 q.0,
    blend_first-PlannedFrom blend n (suc i) total (suc s) previous later b p.1 q.1,
  )

module _ {A : Type 0} (Plan : ℕ → A → Type 0) (blend : ℕ → ℕ → A → A → A) where
  pub smooth-PlannedFrom :
      (s : ℕ) (previous later : List A)
      → Blends Plan blend
      → PlannedFrom Plan s previous
      → PlannedFrom Plan s later
      → PlannedFrom Plan s (smooth_action_chunk_overlap blend previous later)
  unfolding smooth_action_chunk_overlap
  smooth-PlannedFrom s previous later b p q =
      let overlap = min (length previous) (length later) in
      let blended = blend_first-PlannedFrom Plan blend overlap 0 overlap s previous later b p q in
      elim (Bool-cases (overlap == 0)) [ inl e ↦ rw e q | inr e ↦ rw e blended ]

module _ {A V : Type 0} (Plan : ℕ → A → Type 0) where
  pub enqueue-PlannedFrom :
      (started : Bool) (s : ℕ) (actions : List A) (values : List V)
      → PlannedFrom Plan s actions
      → PlannedFrom Plan s (actions_of (enqueue started actions values))
  unfolding enqueue
  enqueue-PlannedFrom started s [] values h = tt
  enqueue-PlannedFrom started s (a ∷ actions) [] h = tt
  enqueue-PlannedFrom started s (a ∷ actions) (v ∷ values) h =
      (h.0, enqueue-PlannedFrom false (suc s) actions values h.1)

  pub queue_head :
      (s c : ℕ) (q : QueuedAction A V) (queue more : List (QueuedAction A V))
      → PlannedFrom Plan s (actions_of queue)
      → s ≡ c
      → queue ≡ q ∷ more
      → Plan c q.action × PlannedFrom Plan (c + 1) (actions_of more)
  queue_head s c q queue more h same e =
      let planned =
        subst (λ z. PlannedFrom Plan c (actions_of z)) e
          (planned_at Plan s c (actions_of queue) same h) in
      (planned.0, planned_at Plan (suc c) (c + 1) (actions_of more) (omega arith) planned.1)
