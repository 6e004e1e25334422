-- ===== src/Recorder/Async.antt =====
-- `AsyncRecorder` (recorder/async_recorder.py): a caller's thread, a queue of commands, and a worker's thread
-- that runs them on the wrapped recorder. Each step is one part of a method between two operations of the
-- queue, which are atomic.
use verl_vla.Common.{
  ℕ, Bool, true, false, not, ◌&&◌, ◌||◌, List, [], ◌∷◌, ◌++◌, length, Option, none, some, Result,
  ok, err, ltb, ◌==◌, if◌then◌else◌,
}
use verl_vla.Recorder.Interface.{
  Command, record_once, save_episode, clear_episode, set_mode, pop_completed, flush, finalize,
  Answer, nothing, Recorder,
}

-- `_RecorderCommand`: a command, and whether its caller waits for the response. `stop` is the `None` that ends
-- the worker.
pub data Entry (F : Type 0) : Type 0 where
  entry : Command F → Bool → Entry F
  stop : Entry F

-- What the caller's thread is doing: nothing, putting an entry, waiting for a response, or joining the worker.
pub data Caller (F : Type 0) : Type 0 where
  idle waiting joining : Caller F
  putting : Entry F → Caller F

pub data AsyncError (E : Type 0) : Type 0 where
  worker_failed : E → AsyncError E
  already_finalized : AsyncError E
  raised : E → AsyncError E

pub record AsyncRecorder (F P E S : Type 0) : Type 0 where
  pub recorder : S
  pub commands : List (Entry F)
  pub error : Option E
  pub closed : Bool
  pub running : Bool
  pub caller : Caller F
  pub response : Option (Result E (Answer P))
  pub finalizing : Bool

-- What a step shows to the caller.
pub data Shown (P E : Type 0) : Type 0 where
  quiet : Shown P E
  returns : Answer P → Shown P E
  raises : AsyncError E → Shown P E

-- The commands for which the caller waits.
abbrev pub is_sync : {F : Type 0} → Command F → Bool
is_sync (record_once i f) = false
is_sync (save_episode i) = false
is_sync (clear_episode i) = false
is_sync (set_mode mode) = true
is_sync pop_completed = true
is_sync flush = true
is_sync finalize = true

abbrev pub is_finalize : {F : Type 0} → Command F → Bool
is_finalize finalize = true
is_finalize _ = false

abbrev pub after_put : {F : Type 0} → Entry F → Caller F
after_put (entry c true) = waiting
after_put (entry c false) = idle
after_put stop = joining

abbrev pub error_after : {P E : Type 0} → Result E (Answer P) → Option E → Option E
error_after (ok answer) before = before
error_after (err e) before = some e

module _ {F P E S : Type 0} where
  unfoldable pub new_async : S → AsyncRecorder F P E S
  new_async s = record {
    recorder = s;
    commands = [];
    error = none;
    closed = false;
    running = true;
    caller = idle;
    response = none;
    finalizing = false;
  }

  -- The `finally` of `finalize`: the caller closes the recorder and puts the end marker.
  unfoldable pub leave : Shown P E → AsyncRecorder F P E S → Shown P E × AsyncRecorder F P E S
  leave shown a =
      if a.finalizing
      then (shown, record a { closed = true; caller = putting stop; response = none })
      else (shown, record a { caller = idle; response = none })

  -- A call: `finalize` does nothing when closed; the others check for an error and for the end.
  unfoldable pub call : Command F → AsyncRecorder F P E S → Shown P E × AsyncRecorder F P E S
  unfolding leave
  call c a = if is_finalize c && a.closed then (returns nothing, a) else elim a.error [
    | some e ↦ leave (raises (worker_failed e)) (record a { finalizing = is_finalize c })
    | none ↦ if a.closed then (raises already_finalized, a) else (
      quiet,
      record a { caller = putting (entry c (is_sync c)); finalizing = is_finalize c },
    )
  ]

  -- `put` waits while the queue is full; size 0 has no limit.
  unfoldable pub put : ℕ → AsyncRecorder F P E S → Shown P E × AsyncRecorder F P E S
  put queue_size a = elim a.caller [
    | putting e ↦
        if queue_size == 0 || ltb (length a.commands) queue_size
        then (quiet, record a { commands = a.commands ++ e ∷ []; caller = after_put e })
        else (quiet, a)
    | idle ↦ (quiet, a)
    | waiting ↦ (quiet, a)
    | joining ↦ (quiet, a)
  ]

  -- The end of `_run_sync`, when there is a response.
  unfoldable pub receive : AsyncRecorder F P E S → Shown P E × AsyncRecorder F P E S
  unfolding leave
  receive a = elim a.caller [
    | waiting ↦ elim a.response [
      | none ↦ (quiet, a)
      | some (err e) ↦ leave (raises (raised e)) a
      | some (ok answer) ↦ elim a.error [
        | some e ↦ leave (raises (worker_failed e)) a
        | none ↦ leave (returns answer) a
      ]
    ]
    | idle ↦ (quiet, a)
    | putting e ↦ (quiet, a)
    | joining ↦ if a.running then (quiet, a) else (quiet, record a { caller = idle })
  ]

  -- The worker runs the next command; an exception is kept as the error, and the worker goes on.
  unfoldable pub work : Recorder F P E S → AsyncRecorder F P E S → AsyncRecorder F P E S
  work run a = if not a.running then a else elim a.commands [
    | [] ↦ a
    | stop ∷ more ↦ record a { commands = more; running = false }
    | entry c sync ∷ more ↦
        let done = run c a.recorder in
        record a {
          recorder = done.1;
          commands = more;
          error = error_after done.0 a.error;
          response = if sync then some done.0 else a.response;
        }
  ]

pub data Event (F : Type 0) : Type 0 where
  calls : Command F → Event F
  puts receives works : Event F

module _ {F P E S : Type 0} (run : Recorder F P E S) (queue_size : ℕ) where
  -- A free caller may call; the other steps go on with what its thread and the worker are doing.
  unfoldable pub step : Event F → AsyncRecorder F P E S → Shown P E × AsyncRecorder F P E S
  unfolding call put receive work
  step (calls c) a = elim a.caller [
    | idle ↦ call c a
    | putting e ↦ (quiet, a)
    | waiting ↦ (quiet, a)
    | joining ↦ (quiet, a)
  ]
  step puts a = put queue_size a
  step receives a = receive a
  step works a = (quiet, work run a)
