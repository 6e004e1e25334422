-- ===== src/Recorder/Sync.antt =====
-- What the caller of an asynchronous recorder is told (recorder/async_recorder.py), against the wrapped
-- recorder by itself.
use mathlib.Core.List.{append_assoc, append-nil}
use verl_vla.Common.{
  ℕ, ◌≡◌, refl, sym, ap, ◌∙◌, true, false, ◌||◌, inl, inr, List, [], ◌∷◌, ◌++◌, none, some, is_some,
  Result, arith, if◌then◌else◌, Bool-cases,
}
use verl_vla.Recorder.Interface.{Command, Answer, Recorder}
use verl_vla.Recorder.Async.{
  AsyncRecorder, Entry, entry, stop, Caller, idle, waiting, joining, putting, Event, calls, puts,
  receives, works, new_async, step, call, put, receive, work, leave,
}
use verl_vla.Recorder.Order.{
  queued, in_hand, IsQuiet, EndsSync, queued-put, IsQuiet-put, EndsSync-put, NoSync, NoSync-put,
  IsQuiet-NoSync, Direct, advance, direct_from, direct, issued_by, done_by, next_command, Runs,
  fresh, after,
}

module _ {F P E S : Type 0} where
  -- What the parts of the state are while the caller is where it is.
  abbrev ShapeOf : Caller F → AsyncRecorder F P E S → Type 0
  ShapeOf idle a =
      (a.response ≡ none)
      × (if a.closed then NoSync a.commands else ((a.running ≡ true) × IsQuiet a.commands))
  ShapeOf (putting (entry c sync)) a =
      (a.response ≡ none) × (a.closed ≡ false) × (a.running ≡ true) × IsQuiet a.commands
  ShapeOf (putting stop) a = (a.response ≡ none) × (a.closed ≡ true) × NoSync a.commands
  ShapeOf waiting a =
      (a.closed ≡ false)
      × (a.running ≡ true)
      × (if is_some a.response then a.commands ≡ [] else EndsSync a.commands)
  ShapeOf joining a = (a.response ≡ none) × (a.closed ≡ true) × NoSync a.commands

module _ {F P E S : Type 0} (run : Recorder F P E S) (s : S) where
  direct_from-append :
      (d : Direct P E S) (xs ys : List (Command F))
      → direct_from run d (xs ++ ys) ≡ direct_from run (direct_from run d xs) ys
  unfolding direct_from
  direct_from-append d [] ys = refl
  direct_from-append d (c ∷ xs) ys = direct_from-append (advance run c d) xs ys

  pub record IsRun (issued done : List (Command F)) (a : AsyncRecorder F P E S) : Type 0 where
    pub in_order : issued ≡ done ++ (queued a.commands ++ in_hand a.caller)
    pub state_is : a.recorder ≡ (direct run s done).state
    pub error_is : a.error ≡ (direct run s done).failure
    pub answer_is :
        (r : Result E (Answer P)) → a.response ≡ some r → (direct run s done).last ≡ some r
    pub shape : ShapeOf a.caller a

  fresh-IsRun : IsRun [] [] (new_async s)
  unfolding new_async direct direct_from
  fresh-IsRun = ground arith

  appended :
      (e : Entry F) (issued done : List (Command F)) (commands : List (Entry F))
      → issued ≡ done ++ (queued commands ++ in_hand (putting e))
      → issued ≡ done ++ (queued (commands ++ e ∷ []) ++ [])
  appended e issued done commands h =
      h
      ∙ ap (λ cs. done ++ cs)
          (sym (append-nil (queued (commands ++ e ∷ [])) ∙ queued-put commands e))

  put-IsRun_from :
      (caller : Caller F) (queue_size : ℕ) (issued done : List (Command F))
      (a : AsyncRecorder F P E S)
      → a.caller ≡ caller
      → IsRun issued done a
      → IsRun issued done (put queue_size a).1
  unfolding put
  put-IsRun_from idle queue_size issued done a e h = ground (arith, e, h)
  put-IsRun_from waiting queue_size issued done a e h = ground (arith, e, h)
  put-IsRun_from joining queue_size issued done a e h = ground (arith, e, h)
  put-IsRun_from (putting stop) queue_size issued done a e h =
      let order = appended stop issued done a.commands (ground (arith, e, h.in_order)) in
      ground (arith, e, h, order, NoSync-put a.commands)
  put-IsRun_from (putting (entry c true)) queue_size issued done a e h =
      let order = appended (entry c true) issued done a.commands (ground (arith, e, h.in_order)) in
      ground (arith, e, h, order, EndsSync-put a.commands c)
  put-IsRun_from (putting (entry c false)) queue_size issued done a e h =
      let order = appended (entry c false) issued done a.commands (ground (arith, e, h.in_order)) in
      ground (arith, e, h, order, IsQuiet-put a.commands c)

  receive-IsRun :
      (issued done : List (Command F)) (a : AsyncRecorder F P E S)
      → IsRun issued done a
      → IsRun issued done (receive a).1
  unfolding receive leave
  receive-IsRun issued done a h = ground arith

  issue :
      (c : Command F) (issued done : List (Command F)) (commands : List (Entry F))
      → issued ≡ done ++ (queued commands ++ [])
      → issued ++ c ∷ [] ≡ done ++ (queued commands ++ c ∷ [])
  issue c issued done commands h =
      ap (λ cs. cs ++ c ∷ []) (h ∙ ap (λ cs. done ++ cs) (append-nil (queued commands)))
      ∙ append_assoc done (queued commands) (c ∷ [])

  call-IsRun :
      (c : Command F) (issued done : List (Command F)) (a : AsyncRecorder F P E S)
      → a.caller ≡ idle
      → IsRun issued done a
      → IsRun (issued ++ (if a.closed || is_some a.error then [] else c ∷ [])) done (call c a).1
  unfolding call leave
  call-IsRun c issued done a i h =
      let order = issue c issued done a.commands (ground (arith, i, h.in_order)) in
      ground (arith, i, h, order, append-nil issued, IsQuiet-NoSync a.commands)

  -- Running one more command.
  direct-advance :
      (done : List (Command F)) (c : Command F)
      → direct run s (done ++ c ∷ []) ≡ advance run c (direct run s done)
  unfolding direct direct_from
  direct-advance done c =
      direct_from-append (record { state = s; failure = none; last = none }) done (c ∷ [])

  one_less :
      (c : Command F) (issued done more rest : List (Command F))
      → issued ≡ done ++ (c ∷ more ++ rest)
      → issued ≡ done ++ c ∷ [] ++ (more ++ rest)
  one_less c issued done more rest h = h ∙ sym (append_assoc done (c ∷ []) (more ++ rest))

  pub work-IsRun_from :
      (commands : List (Entry F)) (issued done : List (Command F)) (a : AsyncRecorder F P E S)
      → a.commands ≡ commands
      → a.running ≡ true
      → IsRun issued done a
      → IsRun issued (done ++ next_command run commands) (work run a)
  unfolding work advance
  work-IsRun_from [] issued done a e r h = ground (arith, e, r, h, append-nil done)
  work-IsRun_from (stop ∷ more) issued done a e r h = ground (arith, e, r, h, append-nil done)
  work-IsRun_from (entry c true ∷ more) issued done a e r h =
      let order =
        one_less c issued done (queued more) (in_hand a.caller) (ground (arith, e, h.in_order)) in
      let moved = direct-advance done c in ground (arith, e, r, h, order, moved)
  work-IsRun_from (entry c false ∷ more) issued done a e r h =
      let order =
        one_less c issued done (queued more) (in_hand a.caller) (ground (arith, e, h.in_order)) in
      let moved = direct-advance done c in ground (arith, e, r, h, order, moved)

  same-IsRun :
      {issued done issued' done' : List (Command F)} {a a' : AsyncRecorder F P E S}
      → issued' ≡ issued
      → done' ≡ done
      → a' ≡ a
      → IsRun issued done a
      → IsRun issued' done' a'
  same-IsRun p q r h = rw (p, q, r) h

  calls-IsRun :
      (caller : Caller F) (queue_size : ℕ) (c : Command F) (issued done : List (Command F))
      (a : AsyncRecorder F P E S)
      → a.caller ≡ caller
      → IsRun issued done a
      → IsRun (issued ++ issued_by run (calls c) a) done (step run queue_size (calls c) a).1
  unfolding step
  calls-IsRun idle queue_size c issued done a e h =
      same-IsRun (ground (arith, e)) refl (ground (arith, e)) (call-IsRun c issued done a e h)
  calls-IsRun waiting queue_size c issued done a e h =
      same-IsRun (ground (arith, e, append-nil issued)) refl (ground (arith, e)) h
  calls-IsRun joining queue_size c issued done a e h =
      same-IsRun (ground (arith, e, append-nil issued)) refl (ground (arith, e)) h
  calls-IsRun (putting x) queue_size c issued done a e h =
      same-IsRun (ground (arith, e, append-nil issued)) refl (ground (arith, e)) h

  works-IsRun :
      (queue_size : ℕ) (issued done : List (Command F)) (a : AsyncRecorder F P E S)
      → IsRun issued done a
      → IsRun issued (done ++ done_by run works a) (step run queue_size works a).1
  unfolding step work
  works-IsRun queue_size issued done a h = elim (Bool-cases a.running) [
    | inl r ↦
        same-IsRun refl (ground (arith, r)) refl (work-IsRun_from a.commands issued done a refl r h)
    | inr r ↦ same-IsRun refl (ground (arith, r, append-nil done)) (ground (arith, r)) h
  ]

  step-IsRun :
      (queue_size : ℕ) (e : Event F) (issued done : List (Command F)) (a : AsyncRecorder F P E S)
      → IsRun issued done a
      → IsRun (issued ++ issued_by run e a) (done ++ done_by run e a) (step run queue_size e a).1
  unfolding step
  step-IsRun queue_size (calls c) issued done a h =
      rw (append-nil done) (calls-IsRun a.caller queue_size c issued done a refl h)
  step-IsRun queue_size puts issued done a h =
      rw (append-nil done, append-nil issued)
        (put-IsRun_from a.caller queue_size issued done a refl h)
  step-IsRun queue_size receives issued done a h =
      rw (append-nil done, append-nil issued) (receive-IsRun issued done a h)
  step-IsRun queue_size works issued done a h =
      rw (append-nil issued) (works-IsRun queue_size issued done a h)

  pub Runs-IsRun :
      {queue_size : ℕ} {issued done : List (Command F)} {a : AsyncRecorder F P E S}
      → Runs run queue_size s issued done a
      → IsRun issued done a
  Runs-IsRun fresh = fresh-IsRun
  Runs-IsRun {queue_size} (after {issued} {done} {a} e r) =
      step-IsRun queue_size e issued done a (Runs-IsRun r)
