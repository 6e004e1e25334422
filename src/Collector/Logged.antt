-- ===== src/Collector/Logged.antt =====
-- What a collector (`_collect_one_group`, workflows/grfpo_fragmented_collection.py) tells its simulator, as a
-- log of the simulator shows it.
use mathlib.Core.List.{append_assoc, append-nil}
use verl_vla.Common.{
  ℕ, zero, suc, ◌+◌, ◌≡◌, refl, sym, ap, ◌∙◌, Bool, true, false, Option, none, some, List, [], ◌∷◌,
  ◌++◌, map, Result, ok, err, if◌then◌else◌, subst, replicate, arith, String, ltb,
}
use verl_vla.Collection.Spec.{CollectionWindowSpec}
use verl_vla.Collection.Window.{Window, Assignment, Lease, Action}
use verl_vla.Collector.World.{
  World, Surroundings, Task, Failure, no_interaction, done, fail, ◌>>=◌, on_machine, on_store,
  read_store, read_timer, machine_answer,
}
use verl_vla.Collector.Rules.{bind-rule}
use verl_vla.Collector.Lanes.{CollectorConfig}
use verl_vla.Collector.Waves.{slice, wave_episodes}
use verl_vla.Collector.Group.{
  Machine, Batches, Pulse, Rolling, plain, labelled, renew_at, renew_lease_if_due, beat, interact,
  collated, collect_wave, collect_waves,
}

-- For each wave, the policy seeds that were installed; and the episode ids that were written.
abbrev pub Log : Type 0
Log = List (List ℕ) × List (List ℕ)

-- `log` shows what a simulator was told, and each of its other calls leaves that as it is.
pub record IsLog {S O A F : Type 0} (machine : Machine S O A F) (log : S → Log) : Type 0 where
  pub installed :
      (layouts seeds : List ℕ) (s t : S)
      → machine.install layouts seeds s ≡ some t
      → log t ≡ ((log s).0 ++ seeds ∷ [], (log s).1)
  pub labelled_ :
      (ids : List ℕ) (obs : O) (s : S)
      → log (machine.label ids obs s).1 ≡ ((log s).0, (log s).1 ++ ids ∷ [])
  pub restarted : (s t : S) → machine.restart s ≡ some t → log t ≡ log s
  pub was_reset : (s t : S) (obs : O) → machine.reset s ≡ some (obs, t) → log t ≡ log s
  pub inferred :
      (obs : O) (s t : S) (action : A) → machine.infer obs s ≡ some (action, t) → log t ≡ log s
  pub stepped :
      (action : A) (s t : S) (seen : O × F) → machine.step action s ≡ some (seen, t) → log t ≡ log s

both : {l m : Log} → l.0 ≡ m.0 → l.1 ≡ m.1 → l ≡ m
both p q = cc

module _ {B S : Type 0} (log : S → Log) where
  -- Where the task gives a result, it has changed the log so.
  pub record Logs {A : Type 0} (m : Task B S A) (change : Log → Log) : Type 0 where
    pub logs : (w v : World B S) (a : A) → m w ≡ (ok a, v) → log v.machine ≡ change (log w.machine)

  abbrev Changed : {A : Type 0} → Log → Result Failure A × World B S → Type 0
  Changed l (ok a, v) = log v.machine ≡ l
  Changed l (err e, v) = Unit

  Changed-Logs :
      {A : Type 0} (m : Task B S A) (change : Log → Log)
      → ((w : World B S) → Changed (change (log w.machine)) (m w))
      → Logs m change
  Changed-Logs m change h = record {
    logs = λ w v a same. subst (Changed (change (log w.machine))) same (h w);
  }

  pub Logs-bind :
      {A C : Type 0} {m : Task B S A} {k : A → Task B S C} {first second : Log → Log}
      → Logs m first
      → ((a : A) → Logs (k a) second)
      → Logs (m >>= k) (λ l. second (first l))
  Logs-bind {A = A} {C = C} {m = m} {k = k} {first = first} {second = second} h more =
      Changed-Logs (m >>= k) (λ l. second (first l))
        λ w.
          bind-rule m k w (Changed (second (first (log w.machine))))
            (λ a v same. continued w a v (k a v) refl (h.logs w v a same)) λ e v same. tt
    where
      continued :
          (w : World B S) (a : A) (v : World B S) (r : Result Failure C × World B S)
          → k a v ≡ r
          → log v.machine ≡ first (log w.machine)
          → Changed (second (first (log w.machine))) r
      continued w a v (ok c, u) same here = (more a).logs v u c same ∙ ap second here
      continued w a v (err e, u) same here = tt

  pub Logs-done : {A : Type 0} (a : A) → Logs (done a) (λ l. l)
  Logs-done a = Changed-Logs (done a) (λ l. l) λ w. refl

  pub Logs-fail : {A : Type 0} (e : Failure) (change : Log → Log) → Logs {A = A} (fail e) change
  Logs-fail e change = Changed-Logs (fail e) change λ w. tt

  Logs-on_machine :
      {A : Type 0} (f : S → Option (A × S)) (change : Log → Log)
      → ((s t : S) (a : A) → f s ≡ some (a, t) → log t ≡ change (log s))
      → Logs (on_machine f) change
  unfolding on_machine
  Logs-on_machine {A = A} f change h =
      Changed-Logs (on_machine f) change λ w. answered w (f w.machine) refl
    where
      answered :
          (w : World B S) (o : Option (A × S))
          → f w.machine ≡ o
          → Changed (change (log w.machine)) (machine_answer w o)
      answered w none same = tt
      answered w (some (a, t)) same = h w.machine t a same

  pub Logs-on_store :
      {A : Type 0} (around : Surroundings B) (method : ℕ → String → Action B A)
      → Logs (on_store around method) (λ l. l)
  unfolding on_store
  Logs-on_store around method = record { logs = λ w v a same. ap (λ r. log r.1.machine) (sym same) }

  pub Logs-read_timer : (around : Surroundings B) → Logs (read_timer around) (λ l. l)
  unfolding read_timer
  Logs-read_timer around = record { logs = λ w v a same. ap (λ r. log r.1.machine) (sym same) }

  pub Logs-read_store :
      {A : Type 0} (around : Surroundings B) (look : Window B → A)
      → Logs (read_store around look) (λ l. l)
  unfolding read_store
  Logs-read_store around look = record { logs = λ w v a same. ap (λ r. log r.1.machine) (sym same) }

  pub Logs-if :
      {A : Type 0} (b : Bool) {m k : Task B S A} {change : Log → Log}
      → Logs m change
      → Logs k change
      → Logs (if b then m else k) change
  Logs-if true first second = first
  Logs-if false first second = second

  -- Another way to write the change.
  pub Logs-same :
      {A : Type 0} {m : Task B S A} {change : Log → Log} (other : Log → Log)
      → ((l : Log) → change l ≡ other l)
      → Logs m change
      → Logs m other
  Logs-same other same h = record { logs = λ w v a e. h.logs w v a e ∙ same (log w.machine) }

  module _ (around : Surroundings B) (config : CollectorConfig) where
    renew_at-Logs :
        (p : Pulse) (lease : Option Lease) (now : ℕ)
        → Logs (renew_at around config p lease now) (λ l. l)
    renew_at-Logs p none now = Logs-done p
    renew_at-Logs p (some l) now =
        Logs-if (ltb now (p.last + config.candidate_lease_heartbeat)) (Logs-done p)
          (Logs-bind (Logs-on_store around _) λ renewed. Logs-done _)

    renew_lease_if_due-Logs : (p : Pulse) → Logs (renew_lease_if_due around config p) (λ l. l)
    unfolding renew_lease_if_due
    renew_lease_if_due-Logs p =
        Logs-bind (Logs-read_timer around) λ now. renew_at-Logs p p.lease now

    beat-Logs : (n : ℕ) (p : Pulse) → Logs (beat around config n p) (λ l. l)
    unfolding beat
    beat-Logs zero p = Logs-done p
    beat-Logs (suc n) p = Logs-bind (renew_lease_if_due-Logs p) λ q. beat-Logs n q

module _ {B S O A F : Type 0} (around : Surroundings B) (machine : Machine S O A F)
    (batches : Batches B O A F) (spec : CollectionWindowSpec) (config : CollectorConfig) (width : ℕ)
    (log : S → Log) (is_log : IsLog machine log) where
  interact-Logs :
      (calls : ℕ) (t : Rolling O A F)
      → Logs log (interact around machine batches spec config width calls t) (λ l. l)
  unfolding interact
  interact-Logs zero t = Logs-done log t
  interact-Logs (suc calls) t =
      Logs-bind log (renew_lease_if_due-Logs log around config t.pulse) λ p.
        Logs-bind log
          (Logs-on_machine log (machine.infer t.obs) (λ l. l)
            λ s u a e. is_log.inferred t.obs s u a e)
          λ action.
            Logs-bind log
              (Logs-on_machine log (machine.step action) (λ l. l)
                λ s u x e. is_log.stepped action s u x e)
              λ seen. Logs-if log _ (Logs-done log _) (interact-Logs calls _)

  collated-Logs :
      (t : Rolling O A F) (slots : List (O × A × F))
      → Logs log (collated around machine batches spec config width t slots) (λ l. l)
  collated-Logs t [] = Logs-fail log no_interaction (λ l. l)
  collated-Logs t (s ∷ slots) = Logs-done log _

  plain-some : (o : Option S) (x : Unit {0}) (t : S) → plain o ≡ some (x, t) → o ≡ some t
  plain-some none x t e = absurd (ground (arith, e))
  plain-some (some s) x t e = ground (arith, e)

  -- The simulator's calls in a wave.
  install_log :
      (layouts seeds : List ℕ) (s t : S) (x : Unit {0})
      → plain (machine.install layouts seeds s) ≡ some (x, t)
      → log t ≡ ((log s).0 ++ seeds ∷ [], (log s).1)
  install_log layouts seeds s t x e =
      is_log.installed layouts seeds s t (plain-some (machine.install layouts seeds s) x t e)

  restart_log : (s t : S) (x : Unit {0}) → plain (machine.restart s) ≡ some (x, t) → log t ≡ log s
  restart_log s t x e = is_log.restarted s t (plain-some (machine.restart s) x t e)

  callbacks_log :
      (s t : S) (n : ℕ)
      → ◌≡◌ {A = Option (ℕ × S)} (some (machine.callbacks s, s)) (some (n, t))
      → log t ≡ log s
  callbacks_log s t n e = let same : s ≡ t = ground (arith, e) in ap log (sym same)

  label_log :
      (ids : List ℕ) (s t : S) (obs : O) (o : Option (O × S))
      → machine.reset s ≡ o
      → labelled (machine.label ids) o ≡ some (obs, t)
      → log t ≡ ((log s).0, (log s).1 ++ ids ∷ [])
  label_log ids s t obs none q e = absurd (ground (arith, e))
  label_log ids s t obs (some (first, u)) q e =
      let same : (machine.label ids first u).1 ≡ t = ground (arith, e) in
      ap log (sym same)
      ∙ is_log.labelled_ ids first u
      ∙ ap (λ l. (l.0, l.1 ++ ids ∷ [])) (is_log.was_reset s u first q)

  -- A wave installs its slice of the seeds, and writes its episode ids.
  collect_wave-Logs :
      (a : Assignment) (start : ℕ) (p : Pulse)
      → Logs log (collect_wave around machine batches spec config width a start p) (λ l. (
        l.0 ++ slice start (start + width) a.policy_seeds ∷ [],
        l.1 ++ wave_episodes start width ∷ [],
      ))
  unfolding collect_wave
  collect_wave-Logs a start p =
      let seeds = slice start (start + width) a.policy_seeds in
      Logs-bind log {first = λ l. (l.0 ++ seeds ∷ [], l.1)}
        (Logs-on_machine log _ _ λ s t x e. install_log (replicate width a.layout_id) seeds s t x e)
        λ u.
          Logs-bind log {first = λ l. l} (Logs-on_machine log _ _ λ s t x e. restart_log s t x e)
            λ v.
              Logs-bind log {first = λ l. l}
                (Logs-on_machine log _ _ λ s t x e. callbacks_log s t x e)
                λ calls. Logs-bind log (beat-Logs log around config calls p) λ q.
                  Logs-bind log {first = λ l. (l.0, l.1 ++ wave_episodes start width ∷ [])}
                    (Logs-on_machine log _ _ λ s t x e.
                      label_log (wave_episodes start width) s t x (machine.reset s) refl e)
                    λ obs.
                      Logs-bind log (interact-Logs config.max_policy_calls _)
                        λ t. collated-Logs t t.slots

  -- The seeds and the episode ids of some waves.
  abbrev pub after_waves : List ℕ → List ℕ → Log → Log
  after_waves seeds starts l = (
    l.0 ++ map (λ s. slice s (s + width) seeds) starts,
    l.1 ++ map (λ s. wave_episodes s width) starts,
  )

  pub collect_waves-Logs :
      (a : Assignment) (starts : List ℕ) (p : Pulse)
      → Logs log
          (collect_waves around machine batches spec config width a starts p)
          (after_waves a.policy_seeds starts)
  unfolding collect_waves
  collect_waves-Logs a [] p =
      Logs-same log (after_waves a.policy_seeds [])
        (λ l. both (sym (append-nil l.0)) (sym (append-nil l.1))) (Logs-done log _)
  collect_waves-Logs a (start ∷ more) p =
      Logs-same log (after_waves a.policy_seeds (start ∷ more))
        (λ l. both (append_assoc l.0 _ _) (append_assoc l.1 _ _))
        (Logs-bind log (collect_wave-Logs a start p)
          λ wave. Logs-bind log (collect_waves-Logs a more wave.0) λ rest. Logs-done log _)
