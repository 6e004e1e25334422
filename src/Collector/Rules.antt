-- ===== src/Collector/Rules.antt =====
-- How to reason about a collector's program (workflows/grfpo_fragmented_collection.py): a rule for each way of
-- composing its calls. Each says what is left to show of the result where a part of the program is split off.
use verl_vla.Common.{◌≡◌, refl, Result, ok, err}
use verl_vla.Collector.World.{
  World, Task, Failure, ◌>>=◌, next_of, protect, on_error, reraise, finally, and_last,
}

-- What a task gives in a world: its result, or its exception, and the world that it leaves.
module _ {B S A : Type 0} (m : Task B S A) (w : World B S)
    (Q : Result Failure A × World B S → Type 0) where
  result_cases :
      ((a : A) (v : World B S) → m w ≡ (ok a, v) → Q (ok a, v))
      → ((e : Failure) (v : World B S) → m w ≡ (err e, v) → Q (err e, v))
      → (r : Result Failure A × World B S) → m w ≡ r
      → Q r
  result_cases good bad (ok a, v) same = good a v same
  result_cases good bad (err e, v) same = bad e v same

  pub task-rule :
      ((a : A) (v : World B S) → m w ≡ (ok a, v) → Q (ok a, v))
      → ((e : Failure) (v : World B S) → m w ≡ (err e, v) → Q (err e, v))
      → Q (m w)
  task-rule good bad = result_cases good bad (m w) refl

module _ {B S A C : Type 0} (m : Task B S A) (k : A → Task B S C) (w : World B S)
    (Q : Result Failure C × World B S → Type 0) where
  pub bind-rule :
      ((a : A) (v : World B S) → m w ≡ (ok a, v) → Q (k a v))
      → ((e : Failure) (v : World B S) → m w ≡ (err e, v) → Q (err e, v))
      → Q ((m >>= k) w)
  unfolding ◌>>=◌
  bind-rule good bad = task-rule m w (λ r. Q (next_of k r)) good bad

module _ {B S A : Type 0} (m : Task B S A) (cleanup : Task B S (Unit {0})) (w : World B S)
    (Q : Result Failure A × World B S → Type 0) where
  pub protect-rule :
      ((a : A) (v : World B S) → m w ≡ (ok a, v) → Q (ok a, v))
      → ((e : Failure) (v : World B S) → m w ≡ (err e, v) → Q (reraise e (cleanup v)))
      → Q (protect m cleanup w)
  unfolding protect
  protect-rule good bad = task-rule m w (λ r. Q (on_error cleanup r)) good bad

  pub finally-rule :
      ((v : World B S) → cleanup (m w).1 ≡ (ok tt, v) → Q ((m w).0, v))
      → ((f : Failure) (v : World B S) → cleanup (m w).1 ≡ (err f, v) → Q (err f, v))
      → Q (finally m cleanup w)
  unfolding finally
  finally-rule good bad = task-rule cleanup (m w).1 (λ r. Q (and_last (m w).0 r)) (λ u. good) bad

module _ {B S A : Type 0} (cleanup : Task B S (Unit {0})) (w : World B S)
    (Q : Result Failure A × World B S → Type 0) where
  pub reraise-rule :
      (e : Failure)
      → ((v : World B S) → cleanup w ≡ (ok tt, v) → Q (err e, v))
      → ((f : Failure) (v : World B S) → cleanup w ≡ (err f, v) → Q (err f, v))
      → Q (reraise e (cleanup w))
  reraise-rule e good bad = task-rule cleanup w (λ r. Q (reraise e r)) (λ u. good) bad
