-- ===== src/Recorder/Interface.antt =====
-- The interface of a recorder (recorder/base.py), its commands as data, and `MultiRecorder`
-- (recorder/recorder.py), which passes each command on to a list of recorders.
use verl_vla.Common.{
  ℕ, String, Bool, false, ◌||◌, List, [], ◌∷◌, Option, none, Result, ok, err, is_some,
  if◌then◌else◌,
}

-- A call of a recorder, with its environment and the frame that it records.
pub data Command (F : Type 0) : Type 0 where
  record_once : ℕ → F → Command F
  save_episode clear_episode : ℕ → Command F
  set_mode : String → Command F
  pop_completed flush finalize : Command F

-- What a command returns.
pub data Answer (P : Type 0) : Type 0 where
  nothing : Answer P
  changed : Bool → Answer P
  root : Option P → Answer P

-- A recorder of states `S`: what a command answers or raises, and the state that it leaves.
abbrev pub Recorder : Type 0 → Type 0 → Type 0 → Type 0 → Type 0
Recorder F P E S = Command F → S → Result E (Answer P) × S

module _ {F P E S : Type 0} (recorder : Recorder F P E S) where
  -- The answers of two recorders to one command: `set_mode` says whether any has changed.
  abbrev pub join_answers : Answer P → Answer P → Answer P
  join_answers (changed a) (changed b) = changed (b || a)
  join_answers (changed a) other = changed a
  join_answers nothing other = other
  join_answers (root a) other = other

  -- `pop_completed` stops at the first recorder that has a root.
  abbrev pub stops : Answer P → Bool
  stops (root found) = is_some found
  stops nothing = false
  stops (changed b) = false

  -- `MultiRecorder`: the recorders in order, up to one that raises.
  unfoldable pub execute_all : Command F → Answer P → List S → Result E (Answer P) × List S
  execute_all c so_far [] = (ok so_far, [])
  execute_all c so_far (s ∷ states) =
      let here = recorder c s in
      elim here.0 [
        | err e ↦ (err e, here.1 ∷ states)
        | ok a ↦
            if stops a
            then (ok a, here.1 ∷ states)
            else let rest = execute_all c (join_answers so_far a) states in
              (rest.0, here.1 ∷ rest.1)
      ]

  -- What a command answers when there is no recorder.
  abbrev pub empty_answer : Command F → Answer P
  empty_answer (set_mode mode) = changed false
  empty_answer pop_completed = root none
  empty_answer _ = nothing

  unfoldable pub multi_recorder : Recorder F P E (List S)
  unfolding execute_all
  multi_recorder c states = execute_all c (empty_answer c) states
