-- ===== src/Recorder/Examples.antt =====
-- Concrete runs of the recorders, with numbers as frames and a dataset held in memory.
use verl_vla.Common.{ℕ, ◌≡◌, refl, false, inl, List, [], ◌∷◌, ◌++◌, map, none, some, ok, err, arith}
use verl_vla.Recorder.Interface.{
  Command, record_once, save_episode, clear_episode, pop_completed, Answer, nothing, root, Recorder,
  multi_recorder,
}
use verl_vla.Recorder.Async.{
  AsyncRecorder, returns, calls, puts, works, Event, new_async, step, receive,
}
use verl_vla.Recorder.Order.{fresh, after, direct}
use verl_vla.Recorder.Barrier.{work_times, waiting-told, told}
use verl_vla.Recorder.Lerobot.{
  Lerobot, update_at, DatasetClass, LerobotError, no_dataset, lerobot_recorder, new_lerobot,
}
use verl_vla.Recorder.Episodes.{IsDatasetClass, seen, promise}
use verl_vla.Recorder.Promise.{NeverRaises, run_commands, promised, no_episodes, lerobot-promised}

-- Episodes, and the frames of the next one.
abbrev Memory : Type 0
Memory = List (List ℕ) × List ℕ

abbrev in_memory : DatasetClass ℕ Memory ℕ
in_memory = record {
  create = ok ([], []);
  add_frame = λ frame d. (ok tt, (d.0, d.1 ++ frame ∷ []));
  save = λ d. (ok tt, (d.0 ++ d.1 ∷ [], []));
  close = λ d. ok d;
}

abbrev view : Memory → List (List ℕ) × List ℕ
view d = d

in_memory-IsDatasetClass : IsDatasetClass in_memory view
in_memory-IsDatasetClass = record {
  created = λ d h. ground arith;
  added = λ frame d h. refl;
  saved = λ d h. refl;
  closed = λ d d' h. ground arith;
}

in_memory-NeverRaises : NeverRaises in_memory view
in_memory-NeverRaises = record {
  creates = (([], []), refl);
  adds = λ frame d. refl;
  saves = λ d. refl;
  closes = λ d. (d, refl);
}

-- Two environments, of which the first is saved, cleared and saved again.
abbrev session : List (Command ℕ)
session =
    record_once 0 1
    ∷ record_once 1 7
    ∷ record_once 0 2
    ∷ save_episode 0
    ∷ record_once 0 3
    ∷ clear_episode 0
    ∷ record_once 0 4
    ∷ save_episode 0
    ∷ pop_completed
    ∷ pop_completed
    ∷ record_once 1 8
    ∷ save_episode 1
    ∷ pop_completed
    ∷ []

abbrev two_envs : Lerobot ℕ Memory
two_envs = record {
  pending_frames = [] ∷ [] ∷ [];
  has_completed_episode = false;
  mode = "train";
  dataset = some ([], []);
}

lerobot-promised_example :
    (answers : List (Answer Memory)) × (run_commands in_memory session two_envs ≡ ok answers)
    × (map (seen in_memory view) answers ≡ promised session (no_episodes 2))
unfolding new_lerobot lerobot_recorder update_at
lerobot-promised_example =
    lerobot-promised in_memory view 2 two_envs session in_memory-IsDatasetClass
      in_memory-NeverRaises refl
      (
        refl,
        (
          refl,
          (
            refl,
            (
              (refl, inl refl),
              (
                refl,
                (
                  refl,
                  (refl, ((refl, inl refl), (tt, (tt, (refl, ((refl, inl refl), (tt, tt))))))),
                ),
              ),
            ),
          ),
        ),
      )

promised-test :
    promised session (no_episodes 2)
    ≡ nothing
      ∷ nothing
      ∷ nothing
      ∷ nothing
      ∷ nothing
      ∷ nothing
      ∷ nothing
      ∷ nothing
      ∷ root (some ((1 ∷ 2 ∷ []) ∷ (4 ∷ []) ∷ []))
      ∷ root none
      ∷ nothing
      ∷ nothing
      ∷ root (some ((7 ∷ 8 ∷ []) ∷ []))
      ∷ []
unfolding promised promise update_at
promised-test = refl

-- A save of frames that were recorded before the last root was returned.
late_save-test :
    run_commands in_memory
      (record_once 0 1 ∷ record_once 1 2 ∷ save_episode 1 ∷ pop_completed ∷ save_episode 0 ∷ [])
      two_envs
    ≡ err no_dataset
unfolding run_commands lerobot_recorder update_at
late_save-test = refl

-- The asynchronous recorder around two such recorders.
abbrev both : Recorder ℕ Memory (LerobotError ℕ) (List (Lerobot ℕ Memory))
both = multi_recorder (lerobot_recorder in_memory)

abbrev go :
    Event ℕ
    → AsyncRecorder ℕ Memory (LerobotError ℕ) (List (Lerobot ℕ Memory))
    → AsyncRecorder ℕ Memory (LerobotError ℕ) (List (Lerobot ℕ Memory))
go e a = (step both 2 e a).1

abbrev start : AsyncRecorder ℕ Memory (LerobotError ℕ) (List (Lerobot ℕ Memory))
start = new_async (two_envs ∷ two_envs ∷ [])

abbrev events_done : AsyncRecorder ℕ Memory (LerobotError ℕ) (List (Lerobot ℕ Memory))
events_done = go puts (
    go (calls pop_completed) (
      go works
        (go puts (go (calls (save_episode 0)) (go puts (go (calls (record_once 0 5)) start))))))

waiting-told_example :
    (receive (work_times both (two_envs ∷ two_envs ∷ []) 2 events_done)).0
    ≡ told (
        direct both
          (two_envs ∷ two_envs ∷ [])
          (record_once 0 5 ∷ save_episode 0 ∷ pop_completed ∷ []))
unfolding step new_async multi_recorder lerobot_recorder
waiting-told_example =
    waiting-told both (two_envs ∷ two_envs ∷ []) {queue_size = 2} {done = record_once 0 5 ∷ []}
      events_done
      (after puts (
        after (calls pop_completed) (
          after works (
            after puts (
              after (calls (save_episode 0))
                (after puts (after (calls (record_once 0 5)) fresh)))))))
      refl

told-test :
    told (
      direct both
        (two_envs ∷ two_envs ∷ [])
        (record_once 0 5 ∷ save_episode 0 ∷ pop_completed ∷ []))
    ≡ returns (root (some ((5 ∷ []) ∷ [], [])))
unfolding told direct multi_recorder lerobot_recorder update_at
told-test = refl
