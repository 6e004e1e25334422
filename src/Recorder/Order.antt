-- ===== src/Recorder/Order.antt =====
-- The order of the commands of an asynchronous recorder (recorder/async_recorder.py): those that its caller
-- issued, and those that its worker has run.
use verl_vla.Common.{
  ℕ, ◌≡◌, refl, ap, true, false, ◌||◌, List, [], ◌∷◌, ◌++◌, Option, none, some, is_some, Result,
  if◌then◌else◌,
}
use verl_vla.Recorder.Interface.{Command, Answer, Recorder}
use verl_vla.Recorder.Async.{
  AsyncRecorder, Entry, entry, stop, Caller, idle, waiting, joining, putting, Event, calls, puts,
  receives, works, new_async, step, error_after,
}

module _ {F : Type 0} where
  -- The commands that are issued and not run: those in the queue, and the one that the caller puts.
  abbrev pub queued : List (Entry F) → List (Command F)
  queued [] = []
  queued (entry c sync ∷ more) = c ∷ queued more
  queued (stop ∷ more) = queued more

  abbrev pub in_hand : Caller F → List (Command F)
  in_hand idle = []
  in_hand waiting = []
  in_hand joining = []
  in_hand (putting (entry c sync)) = c ∷ []
  in_hand (putting stop) = []

  -- A queue of commands without a caller that waits, the same with end markers, and a queue of which only the
  -- last command has a caller that waits.
  abbrev pub IsQuiet : List (Entry F) → Type 0
  IsQuiet [] = Unit
  IsQuiet (entry c true ∷ more) = ⊥
  IsQuiet (entry c false ∷ more) = IsQuiet more
  IsQuiet (stop ∷ more) = ⊥

  abbrev pub NoSync : List (Entry F) → Type 0
  NoSync [] = Unit
  NoSync (entry c true ∷ more) = ⊥
  NoSync (entry c false ∷ more) = NoSync more
  NoSync (stop ∷ more) = NoSync more

  abbrev pub EndsSync : List (Entry F) → Type 0
  EndsSync [] = ⊥
  EndsSync (entry c true ∷ more) = more ≡ []
  EndsSync (entry c false ∷ more) = EndsSync more
  EndsSync (stop ∷ more) = ⊥

  pub queued-put :
      (commands : List (Entry F)) (e : Entry F)
      → queued (commands ++ e ∷ []) ≡ queued commands ++ in_hand (putting e)
  queued-put [] (entry c sync) = refl
  queued-put [] stop = refl
  queued-put (entry c sync ∷ more) e = ap (λ cs. c ∷ cs) (queued-put more e)
  queued-put (stop ∷ more) e = queued-put more e

  pub IsQuiet-put :
      (commands : List (Entry F)) (c : Command F)
      → IsQuiet commands
      → IsQuiet (commands ++ entry c false ∷ [])
  IsQuiet-put [] c h = tt
  IsQuiet-put (entry d false ∷ more) c h = IsQuiet-put more c h
  IsQuiet-put (entry d true ∷ more) c h = h
  IsQuiet-put (stop ∷ more) c h = h

  pub EndsSync-put :
      (commands : List (Entry F)) (c : Command F)
      → IsQuiet commands
      → EndsSync (commands ++ entry c true ∷ [])
  EndsSync-put [] c h = refl
  EndsSync-put (entry d false ∷ more) c h = EndsSync-put more c h
  EndsSync-put (entry d true ∷ more) c h = absurd h
  EndsSync-put (stop ∷ more) c h = absurd h

  pub NoSync-put : (commands : List (Entry F)) → NoSync commands → NoSync (commands ++ stop ∷ [])
  NoSync-put [] h = tt
  NoSync-put (entry d false ∷ more) h = NoSync-put more h
  NoSync-put (entry d true ∷ more) h = h
  NoSync-put (stop ∷ more) h = NoSync-put more h

  pub IsQuiet-NoSync : (commands : List (Entry F)) → IsQuiet commands → NoSync commands
  IsQuiet-NoSync [] h = tt
  IsQuiet-NoSync (entry d false ∷ more) h = IsQuiet-NoSync more h
  IsQuiet-NoSync (entry d true ∷ more) h = h
  IsQuiet-NoSync (stop ∷ more) h = absurd h

-- The wrapped recorder by itself, running commands one after another: its state, the last error, and the
-- last result.
pub record Direct (P E S : Type 0) : Type 0 where
  pub state : S
  pub failure : Option E
  pub last : Option (Result E (Answer P))

module _ {F P E S : Type 0} (run : Recorder F P E S) where
  unfoldable pub advance : Command F → Direct P E S → Direct P E S
  advance c d =
      let done = run c d.state in
      record { state = done.1; failure = error_after done.0 d.failure; last = some done.0 }

  unfoldable pub direct_from : Direct P E S → List (Command F) → Direct P E S
  unfolding advance
  direct_from d [] = d
  direct_from d (c ∷ cs) = direct_from (advance c d) cs

  unfoldable pub direct : S → List (Command F) → Direct P E S
  unfolding direct_from
  direct s cs = direct_from (record { state = s; failure = none; last = none }) cs

  -- The calls that pass their checks, and the command that the worker runs.
  abbrev pub issued_by : Event F → AsyncRecorder F P E S → List (Command F)
  issued_by (calls c) a = elim a.caller [
    | idle ↦ if a.closed || is_some a.error then [] else c ∷ []
    | putting e ↦ []
    | waiting ↦ []
    | joining ↦ []
  ]
  issued_by puts a = []
  issued_by receives a = []
  issued_by works a = []

  abbrev pub next_command : List (Entry F) → List (Command F)
  next_command [] = []
  next_command (entry c sync ∷ more) = c ∷ []
  next_command (stop ∷ more) = []

  abbrev pub done_by : Event F → AsyncRecorder F P E S → List (Command F)
  done_by (calls c) a = []
  done_by puts a = []
  done_by receives a = []
  done_by works a = if a.running then next_command a.commands else []

  -- The runs of an asynchronous recorder, with the commands issued and the commands run, in their orders.
  pub data Runs (queue_size : ℕ) (s : S)
      : List (Command F) → List (Command F) → AsyncRecorder F P E S → Type 0 where
    fresh : Runs queue_size s [] [] (new_async s)
    after :
        {issued done : List (Command F)} {a : AsyncRecorder F P E S} (e : Event F)
        → Runs queue_size s issued done a
        → Runs queue_size s
            (issued ++ issued_by e a)
            (done ++ done_by e a)
            (step run queue_size e a).1
