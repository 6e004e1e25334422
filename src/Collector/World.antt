-- ===== src/Collector/World.antt =====
-- A collector process (workflows/grfpo_fragmented_collection.py) as a program on the shared window, the
-- simulator with the model, and its own variable `lease`. It may raise; what else happens to the window
-- between its calls of the store, and what its clocks and its random tokens are, comes from outside.
use verl_vla.Common.{ℕ, ◌+◌, String, Option, none, some, Result, ok, err}
use verl_vla.Collection.Schedule.{ScheduleError}
use verl_vla.Collection.Window.{Window, Lease, StoreError, Action, run}
use verl_vla.Launch.Window.{ConfigError}

-- What a collector raises.
pub data Failure : Type 0 where
  store_error : StoreError → Failure
  schedule_error : ScheduleError → Failure
  config_error : ConfigError → Failure
  changed_manifest unknown_task unknown_suite leaked_layouts : Failure
  wrong_lane_count bad_slot no_shared_queue : Failure
  machine_error bad_width no_interaction unsound_state missing_trace bad_group : Failure
  changed_condition mixed_conditions : Failure

-- `others n` is what the other processes do to the window between the turns before `n` and turn `n`; at
-- turn `n` the clocks `time` and `perf_counter` show `clock n` and `timer n`, and a claim draws `token n`.
pub record Surroundings (B : Type 0) : Type 0 where
  pub others : ℕ → Window B → Window B
  pub clock : ℕ → ℕ
  pub timer : ℕ → ℕ
  pub token : ℕ → String

-- `machine` is the state of the simulator and the model, `held` the variable `lease` of a collector.
pub record World (B S : Type 0) : Type 0 where
  pub window : Window B
  pub machine : S
  pub held : Option Lease
  pub turn : ℕ

abbrev pub Task : Type 0 → Type 0 → Type 0 → Type 0
Task B S A = World B S → Result Failure A × World B S

abbrev pub done : {B S A : Type 0} → A → Task B S A
done a w = (ok a, w)

abbrev pub fail : {B S A : Type 0} → Failure → Task B S A
fail e w = (err e, w)

abbrev pub next_of :
    {B S A C : Type 0}
    → (A → Task B S C)
    → Result Failure A × World B S
    → Result Failure C × World B S
next_of k (ok a, w) = k a w
next_of k (err e, w) = (err e, w)

infixl 5 ◌>>=◌ ◌>>◌
unfoldable pub ◌>>=◌ : {B S A C : Type 0} → Task B S A → (A → Task B S C) → Task B S C
(m >>= k) w = next_of k (m w)

abbrev pub ◌>>◌ : {B S C : Type 0} → Task B S (Unit {0}) → Task B S C → Task B S C
m >> k = m >>= λ _. k

-- A value, or an exception of the schedule or the configuration.
abbrev pub from_result : {B S A E : Type 0} → (E → Failure) → Result E A → Task B S A
from_result f (ok a) w = (ok a, w)
from_result f (err e) w = (err (f e), w)

-- `try: m` with `except BaseException: cleanup; raise`; an exception of `cleanup` replaces that of `m`.
abbrev pub reraise :
    {B S A : Type 0}
    → Failure
    → Result Failure (Unit {0}) × World B S
    → Result Failure A × World B S
reraise e (ok _, w) = (err e, w)
reraise e (err f, w) = (err f, w)

abbrev pub on_error :
    {B S A : Type 0}
    → Task B S (Unit {0})
    → Result Failure A × World B S
    → Result Failure A × World B S
on_error cleanup (ok a, w) = (ok a, w)
on_error cleanup (err e, w) = reraise e (cleanup w)

unfoldable pub protect : {B S A : Type 0} → Task B S A → Task B S (Unit {0}) → Task B S A
protect m cleanup w = on_error cleanup (m w)

-- `try: m` with `finally: last`
abbrev pub and_last :
    {B S A : Type 0}
    → Result Failure A
    → Result Failure (Unit {0}) × World B S
    → Result Failure A × World B S
and_last r (ok _, w) = (r, w)
and_last r (err f, w) = (err f, w)

unfoldable pub finally : {B S A : Type 0} → Task B S A → Task B S (Unit {0}) → Task B S A
finally m last w = let r = m w in and_last r.0 (last r.1)

abbrev pub set_held : {B S : Type 0} → Option Lease → Task B S (Unit {0})
set_held l w = (ok tt, record w { held = l })

-- A call of the simulator or the model, which may raise.
abbrev pub machine_answer :
    {B S A : Type 0} → World B S → Option (A × S) → Result Failure A × World B S
machine_answer w none = (err machine_error, w)
machine_answer w (some (a, s)) = (ok a, record w { machine = s })

unfoldable pub on_machine : {B S A : Type 0} → (S → Option (A × S)) → Task B S A
on_machine f w = machine_answer w (f w.machine)

abbrev pub lift_store : {A : Type 0} → Result StoreError A → Result Failure A
lift_store (ok a) = ok a
lift_store (err e) = err (store_error e)

module _ {B S : Type 0} (around : Surroundings B) where
  abbrev pub before_call : World B S → Window B
  before_call w = around.others w.turn w.window

  -- A call of a method of the store, after what the others have done.
  unfoldable pub on_store : {A : Type 0} → (ℕ → String → Action B A) → Task B S A
  unfolding run
  on_store method w =
      let answer = method (around.clock w.turn) (around.token w.turn) (before_call w) in
      (lift_store answer.0, record w { window = run (before_call w) answer.1; turn = w.turn + 1 })

  -- `store.scan`, of which the collectors read whether the window is closed.
  unfoldable pub read_store : {A : Type 0} → (Window B → A) → Task B S A
  read_store look w =
      (ok (look (before_call w)), record w { window = before_call w; turn = w.turn + 1 })

  -- `time.perf_counter`
  unfoldable pub read_timer : Task B S ℕ
  read_timer w = (ok (around.timer w.turn), record w { turn = w.turn + 1 })
