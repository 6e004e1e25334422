-- ===== src/Recorder/Barrier.antt =====
-- The calls of an asynchronous recorder that wait for an answer (recorder/async_recorder.py).
use mathlib.Core.List.{append-nil}
use verl_vla.Common.{
  ℕ, zero, suc, ◌≡◌, ◌≢◌, refl, true, List, ◌++◌, length, none, some, ok, err, arith, inl, inr,
  Option-cases, List-cases,
}
use verl_vla.Recorder.Interface.{Command, Recorder}
use verl_vla.Recorder.Async.{
  AsyncRecorder, waiting, Shown, quiet, returns, raises, worker_failed, raised, receive, work,
  leave,
}
use verl_vla.Recorder.Order.{Direct, direct, next_command, Runs}
use verl_vla.Recorder.Sync.{IsRun, Runs-IsRun, work-IsRun_from}

-- What a caller is told when the wrapped recorder runs its command directly: its answer or its exception, or
-- that an earlier command failed.
unfoldable pub told : {P E S : Type 0} → Direct P E S → Shown P E
told d = elim d.last [
  | none ↦ quiet
  | some (err e) ↦ raises (raised e)
  | some (ok answer) ↦ elim d.failure [ some e ↦ raises (worker_failed e) | none ↦ returns answer ]
]

module _ {F P E S : Type 0} (run : Recorder F P E S) (s : S) where
  -- The worker's next turns.
  unfoldable pub work_times : ℕ → AsyncRecorder F P E S → AsyncRecorder F P E S
  work_times zero a = a
  work_times (suc n) a = work_times n (work run a)

  work-waiting :
      (n : ℕ) (a : AsyncRecorder F P E S)
      → a.running ≡ true
      → a.caller ≡ waiting
      → length a.commands ≡ suc n
      → ((work run a).caller ≡ waiting) × (length (work run a).commands ≡ n)
  unfolding work
  work-waiting n a r w l = ground arith

  waiting_runs :
      (issued done : List (Command F)) (a : AsyncRecorder F P E S)
      → IsRun run s issued done a
      → a.caller ≡ waiting
      → a.running ≡ true
  waiting_runs issued done a h w = ground (arith, h.shape)

  drained :
      (n : ℕ) (issued done : List (Command F)) (a : AsyncRecorder F P E S)
      → IsRun run s issued done a
      → a.caller ≡ waiting
      → length a.commands ≡ n
      → (all : List (Command F)) × IsRun run s issued all (work_times n a)
        × ((work_times n a).caller ≡ waiting)
        × (length (work_times n a).commands ≡ 0)
  unfolding work_times
  drained zero issued done a h w l = (done, h, w, l)
  drained (suc n) issued done a h w l =
      let alive = waiting_runs issued done a h w in
      let (still, fewer) = work-waiting n a alive w l in
      drained n issued (done ++ next_command run a.commands) (work run a)
        (work-IsRun_from run s a.commands issued done a refl alive h) still fewer

  all_run :
      (issued all : List (Command F)) (a : AsyncRecorder F P E S)
      → IsRun run s issued all a
      → a.caller ≡ waiting
      → length a.commands ≡ 0
      → issued ≡ all
  all_run issued all a h w l = elim (List-cases a.commands) [
    | inl e ↦ ground (arith, h.in_order, w, e, append-nil all)
    | inr (x, more, e) ↦ ground arith
  ]

  answered :
      (issued all : List (Command F)) (a : AsyncRecorder F P E S)
      → IsRun run s issued all a
      → a.caller ≡ waiting
      → length a.commands ≡ 0
      → a.response ≢ none
  answered issued all a h w l e = elim (List-cases a.commands) [
    | inl empty ↦ ground (arith, h.shape, w, e, empty)
    | inr (x, more, full) ↦ ground arith
  ]

  receive-told :
      (issued all : List (Command F)) (a : AsyncRecorder F P E S)
      → IsRun run s issued all a
      → a.caller ≡ waiting
      → length a.commands ≡ 0
      → (receive a).0 ≡ told (direct run s issued)
  unfolding receive told leave
  receive-told issued all a h w l =
      let same = all_run issued all a h w l in
      elim (Option-cases a.response) [
        | inl empty ↦ absurd (answered issued all a h w l empty)
        | inr (r, e) ↦
            let last = h.answer_is r e in rw same (ground (arith, w, e, last, h.error_is))
      ]

  -- A call that waits is answered as by the wrapped recorder. Take any calls of one thread and any turns of the
  -- worker, with any size of the queue, up to a state in which the caller waits for the answer of
  -- its last command. As many turns of the worker as there are commands in the queue give the answer, and it
  -- is what the wrapped recorder, running all the issued commands one after another, tells of the last
  -- one: its value or its exception, or, when an earlier one raised, that failure.
  pub waiting-told :
      {queue_size : ℕ} {issued done : List (Command F)} (a : AsyncRecorder F P E S)
      → Runs run queue_size s issued done a
      → a.caller ≡ waiting
      → (receive (work_times (length a.commands) a)).0 ≡ told (direct run s issued)
  waiting-told {issued = issued} {done = done} a r w =
      let (all, h, still, empty) =
        drained (length a.commands) issued done a (Runs-IsRun run s r) w refl in
      receive-told issued all (work_times (length a.commands) a) h still empty
