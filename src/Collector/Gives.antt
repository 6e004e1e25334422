-- ===== src/Collector/Gives.antt =====
-- What a collector's program (workflows/grfpo_fragmented_collection.py) makes of the window where it does not
-- raise: conditions on the window before and after, composed as the program is.
use verl_vla.Common.{
  ℕ, ◌+◌, ◌≡◌, refl, subst, String, Bool, true, false, Option, none, some, Result, ok, err,
  if◌then◌else◌,
}
use verl_vla.Collection.Window.{Window, Lease, Action, run, StoreError}
use verl_vla.Collector.World.{
  World, Surroundings, Task, Failure, done, ◌>>=◌, on_machine, on_store, read_store, read_timer,
  protect, lift_store, machine_answer, set_held,
}
use verl_vla.Collector.Rules.{bind-rule, protect-rule, reraise-rule, task-rule}

-- From a window with `P`, a result leaves a window with `Q`.
pub record Gives {B S A : Type 0} (P : Window B → Type 0) (m : Task B S A)
    (Q : A → Window B → Type 0) : Type 0 where
  pub gives : (w v : World B S) (a : A) → P w.window → m w ≡ (ok a, v) → Q a v.window

module _ {B S : Type 0} where
  -- The condition at a known outcome, and none at an exception.
  abbrev After : {A : Type 0} → (A → Window B → Type 0) → Result Failure A × World B S → Type 0
  After Q (ok a, v) = Q a v.window
  After Q (err e, v) = Unit

  After-Gives :
      {A : Type 0} (P : Window B → Type 0) (m : Task B S A) (Q : A → Window B → Type 0)
      → ((w : World B S) → P w.window → After Q (m w))
      → Gives P m Q
  After-Gives P m Q h = record { gives = λ w v a p same. subst (After Q) same (h w p) }

  Gives-After :
      {A : Type 0} (P : Window B → Type 0) (m : Task B S A) (Q : A → Window B → Type 0)
      (w : World B S)
      → Gives P m Q
      → P w.window
      → After Q (m w)
  Gives-After P m Q w g p =
      task-rule m w (After Q) (λ a v same. g.gives w v a p same) λ e v same. tt

  pub Gives-bind :
      {A C : Type 0} {P : Window B → Type 0} {m : Task B S A} {k : A → Task B S C}
      {Q : A → Window B → Type 0} {R : C → Window B → Type 0}
      → Gives P m Q
      → ((a : A) → Gives (Q a) (k a) R)
      → Gives P (m >>= k) R
  Gives-bind {P = P} {m = m} {k = k} {Q = Q} {R = R} first more = After-Gives P (m >>= k) R λ w p.
      bind-rule m k w (After R)
        (λ a v same. Gives-After (Q a) (k a) R v (more a) (first.gives w v a p same)) λ e v same. tt

  pub Gives-done :
      {A : Type 0} {P : Window B → Type 0} {Q : A → Window B → Type 0} (a : A)
      → ((w : Window B) → P w → Q a w)
      → Gives P (done {B = B} {S = S} a) Q
  Gives-done {P = P} {Q = Q} a h = After-Gives P (done a) Q λ w p. h w.window p

  pub Gives-fail :
      {A : Type 0} {P : Window B → Type 0} {Q : A → Window B → Type 0} (e : Failure)
      → Gives P (λ (w : World B S). (err e, w)) Q
  Gives-fail {P = P} {Q = Q} e = After-Gives P (λ w. (err e, w)) Q λ w p. tt

  pub Gives-if :
      {A : Type 0} {P : Window B → Type 0} {Q : A → Window B → Type 0} (b : Bool) {m k : Task B S A}
      → Gives P m Q
      → Gives P k Q
      → Gives P (if b then m else k) Q
  Gives-if true first second = first
  Gives-if false first second = second

  -- Each branch may use the outcome of the test.
  pub Gives-test :
      {A : Type 0} {P : Window B → Type 0} {Q : A → Window B → Type 0} (b : Bool) {m k : Task B S A}
      → (b ≡ true → Gives P m Q)
      → (b ≡ false → Gives P k Q)
      → Gives P (if b then m else k) Q
  Gives-test true first second = first refl
  Gives-test false first second = second refl

  pub Gives-on_machine :
      {A : Type 0} {P : Window B → Type 0} (f : S → Option (A × S))
      → Gives P (on_machine f) (λ a. P)
  unfolding on_machine
  Gives-on_machine {A = A} {P = P} f =
      After-Gives P (on_machine f) (λ a. P) λ w p. answered w (f w.machine) p
    where
      answered :
          (w : World B S) (o : Option (A × S)) → P w.window → After (λ a. P) (machine_answer w o)
      answered w none p = tt
      answered w (some (a, s)) p = p

  -- A weaker condition before.
  pub Gives-pre :
      {A : Type 0} {P P' : Window B → Type 0} {m : Task B S A} {Q : A → Window B → Type 0}
      → ((w : Window B) → P' w → P w)
      → Gives P m Q
      → Gives P' m Q
  Gives-pre h g = record { gives = λ w v a p same. g.gives w v a (h w.window p) same }

  -- A part of the condition that does not speak of the window.
  pub Gives-given :
      {A : Type 0} {X : Type 0} {P : X → Window B → Type 0} {m : Task B S A}
      {Q : A → Window B → Type 0}
      → ((x : X) → Gives (P x) m Q)
      → Gives (λ w. (x : X) × P x w) m Q
  Gives-given h = record { gives = λ w v a p same. (h p.0).gives w v a p.1 same }

  pub Gives-set_held :
      {P : Window B → Type 0} (l : Option Lease) → Gives {S = S} P (set_held l) (λ a. P)
  Gives-set_held {P = P} l = After-Gives P (set_held l) (λ a. P) λ w p. p

  pub Gives-protect :
      {A : Type 0} {P : Window B → Type 0} {Q : A → Window B → Type 0} {m : Task B S A}
      (cleanup : Task B S (Unit {0}))
      → Gives P m Q
      → Gives P (protect m cleanup) Q
  Gives-protect {P = P} {Q = Q} {m = m} cleanup g = After-Gives P (protect m cleanup) Q λ w p.
      protect-rule m cleanup w (After Q) (λ a v same. g.gives w v a p same)
        λ e v same. reraise-rule cleanup v (After Q) e (λ u again. tt) λ f u again. tt

  module _ (around : Surroundings B) where
    pub Gives-read_timer : {P : Window B → Type 0} → Gives {S = S} P (read_timer around) (λ a. P)
    unfolding read_timer
    Gives-read_timer {P = P} = After-Gives P (read_timer around) (λ a. P) λ w p. p

    pub Gives-read_store :
        {A : Type 0} {P : Window B → Type 0} (look : Window B → A)
        → ((n : ℕ) (w : Window B) → P w → P (around.others n w))
        → Gives {S = S} P (read_store around look) (λ a. P)
    unfolding read_store
    Gives-read_store {P = P} look calm =
        After-Gives P (read_store around look) (λ a. P) λ w p. calm w.turn w.window p

    pub Gives-on_store :
        {A : Type 0} {P : Window B → Type 0} {Q : A → Window B → Type 0}
        (method : ℕ → String → Action B A)
        → ((n : ℕ) (w : Window B) → P w → P (around.others n w))
        → ((at : ℕ) (token : String) (w : Window B) (a : A)
            → P w
            → (method at token w).0 ≡ ok a
            → Q a (run w (method at token w).1))
        → Gives {S = S} P (on_store around method) Q
    unfolding on_store
    Gives-on_store {A = A} {P = P} {Q = Q} method calm each =
        After-Gives P (on_store around method) Q λ w p.
          answered
            (method (around.clock w.turn) (around.token w.turn) (around.others w.turn w.window)).0
            (record w {
              window =
                  run (around.others w.turn w.window)
                    (method (around.clock w.turn) (around.token w.turn)
                      (around.others w.turn w.window)).1;
              turn = w.turn + 1;
            })
            (around.others w.turn w.window)
            (each (around.clock w.turn) (around.token w.turn) (around.others w.turn w.window))
            (calm w.turn w.window p)
      where
        answered :
            (r : Result StoreError A) (v : World B S) (u : Window B)
            → ((a : A) → P u → r ≡ ok a → Q a v.window)
            → P u
            → After Q (lift_store r, v)
        answered (ok a) v u h p = h a p refl
        answered (err e) v u h p = tt
