-- ===== src/Collector/Tiling.antt =====
-- The waves of a candidate (`_collect_one_group`, workflows/grfpo_fragmented_collection.py) cover its group: what they
-- tell the simulator.
use native.Mathlib.Nat.{div-add-mod', div-le_self}
use verl_vla.Common.{
  ℕ, zero, suc, ◌+◌, ◌*◌, ◌/◌, ◌%◌, ◌≤◌, ◌<◌, ◌≡◌, refl, sym, ap, ◌∙◌, List, [], ◌∷◌, ◌++◌, map,
  arith, length, take, drop, range_from, All, lt→ltb, flat, ltb, ◌||◌, not, ◌==◌, Option, none,
  some, ok, Bool-cases, inl, inr, true, ◌≢◌, ◌&&◌,
}
use verl_vla.Collection.Spec.{CollectionWindowSpec, is_text}
use verl_vla.Collection.Leases.{record_integrity_failure}
use verl_vla.Collection.Window.{Assignment, Lease}
use verl_vla.Collector.World.{
  World, Surroundings, ◌>>=◌, read_timer, bad_group, bad_width, missing_trace, unsound_state,
}
use verl_vla.Collector.Lanes.{CollectorConfig}
use verl_vla.Collector.Group.{
  Machine, Batches, Pulse, Collected, or_raise, gather, publish_group, finish_group, roll_out,
  collect_one_group,
}
use verl_vla.Collector.Logged.{
  Log, IsLog, Logs, Logs-fail, Logs-bind, Logs-done, Logs-on_store, Logs-read_timer,
  Logs-read_store, Logs-if, after_waves, collect_waves-Logs,
}
use verl_vla.Collector.Waves.{range_by, wave_starts, slice, wave_episodes}

module _ {ℓ} {A : Type ℓ} where
  take-append-drop : (n : ℕ) (xs : List A) → take n xs ++ drop n xs ≡ xs
  take-append-drop zero xs = refl
  take-append-drop (suc n) [] = refl
  take-append-drop (suc n) (x ∷ xs) = ap (◌∷◌ x) (take-append-drop n xs)

  -- A slice and what follows it.
  slice-append-drop : (s t w : ℕ) (xs : List A) → t ≡ s + w → slice s t xs ++ drop t xs ≡ drop s xs
  slice-append-drop zero t w xs e = take-append-drop t xs
  slice-append-drop (suc s) zero w xs e = absurd (omega arith)
  slice-append-drop (suc s) (suc t) w [] e = refl
  slice-append-drop (suc s) (suc t) w (x ∷ xs) e = slice-append-drop s t w xs (omega arith)

  length-slice : (s t w : ℕ) (xs : List A) → t ≡ s + w → t ≤ length xs → length (slice s t xs) ≡ w
  length-slice zero zero w xs e l = omega arith
  length-slice zero (suc t) w [] e l = omega arith
  length-slice zero (suc t) w (x ∷ xs) e l =
      omega (arith, length-slice zero t t xs (omega arith) (omega arith))
  length-slice (suc s) zero w xs e l = omega arith
  length-slice (suc s) (suc t) w [] e l = omega arith
  length-slice (suc s) (suc t) w (x ∷ xs) e l = length-slice s t w xs (omega arith) (omega arith)

  drop_all : (n : ℕ) (xs : List A) → length xs ≤ n → drop n xs ≡ []
  drop_all zero [] l = refl
  drop_all zero (x ∷ xs) l = absurd (omega arith)
  drop_all (suc n) [] l = refl
  drop_all (suc n) (x ∷ xs) l = drop_all n xs (omega arith)

range_from-append :
    (a b n m t : ℕ) → b ≡ a + n → t ≡ n + m → range_from a n ++ range_from b m ≡ range_from a t
range_from-append a b zero m t e f =
    let same_start : b ≡ a = omega arith in
    let same_count : m ≡ t = omega arith in rw (same_start, same_count) refl
range_from-append a b (suc n) m zero e f = absurd (omega arith)
range_from-append a b (suc n) m (suc t) e f =
    ap (◌∷◌ a) (range_from-append (suc a) b n m t (omega arith) (omega arith))

-- What the starts in steps of `width` from `start` to `size` are.
module _ (size width : ℕ) (pos : 0 < width) where
  range_by-nil : (fuel start : ℕ) → size ≤ start → range_by fuel start size width ≡ []
  unfolding range_by
  range_by-nil zero start l = refl
  range_by-nil (suc fuel) start l = ground arith

  range_by-cons :
      (fuel start : ℕ)
      → start < size
      → range_by (suc fuel) start size width ≡ start ∷ range_by fuel (start + width) size width
  unfolding range_by
  range_by-cons fuel start l = rw (lt→ltb start size l)

  flat-slices {ℓ} :
      {A : Type ℓ} (xs : List A) (blocks fuel start : ℕ)
      → length xs ≡ size
      → blocks ≤ fuel
      → start + blocks * width ≡ size
      → flat (map (λ s. slice s (s + width) xs) (range_by fuel start size width)) ≡ drop start xs
  flat-slices xs zero fuel start len enough e =
      rw (range_by-nil fuel start (omega arith)) (sym (drop_all start xs (omega arith)))
  flat-slices xs (suc blocks) zero start len enough e = absurd (omega arith)
  flat-slices xs (suc blocks) (suc fuel) start len enough e =
      rw (range_by-cons fuel start (omega arith)) (
        ap (λ rest. slice start (start + width) xs ++ rest)
          (flat-slices xs blocks fuel (start + width) len (omega arith) (omega arith))
        ∙ slice-append-drop start (start + width) width xs refl)

  flat-episodes :
      (blocks fuel start : ℕ)
      → blocks ≤ fuel
      → start + blocks * width ≡ size
      → flat (map (λ s. wave_episodes s width) (range_by fuel start size width))
        ≡ range_from start (blocks * width)
  flat-episodes zero fuel start enough e =
      let no_lanes : 0 ≡ 0 * width = omega arith in
      rw (range_by-nil fuel start (omega arith)) (ap (range_from start) no_lanes)
  flat-episodes (suc blocks) zero start enough e = absurd (omega arith)
  flat-episodes (suc blocks) (suc fuel) start enough e =
      rw (range_by-cons fuel start (omega arith)) (
        ap (λ rest. wave_episodes start width ++ rest)
          (flat-episodes blocks fuel (start + width) (omega arith) (omega arith))
        ∙ range_from-append start (start + width) width (blocks * width) (suc blocks * width) refl
            (omega arith))

  whole-slices {ℓ} :
      {A : Type ℓ} (xs : List A) (blocks fuel start : ℕ)
      → length xs ≡ size
      → blocks ≤ fuel
      → start + blocks * width ≡ size
      → All (λ s. length (slice s (s + width) xs) ≡ width) (range_by fuel start size width)
  whole-slices xs zero fuel start len enough e = rw (range_by-nil fuel start (omega arith)) tt
  whole-slices xs (suc blocks) zero start len enough e = absurd (omega arith)
  whole-slices xs (suc blocks) (suc fuel) start len enough e =
      rw (range_by-cons fuel start (omega arith)) (
        length-slice start (start + width) width xs refl (omega arith),
        whole-slices xs blocks fuel (start + width) len (omega arith) (omega arith),
      )

blocks_of : (size width : ℕ) → 0 < width → size % width ≡ 0 → size / width * width ≡ size
blocks_of size width pos whole = omega (arith, div-add-mod' size width)

-- The slices at the starts of the waves, and their episode ids.
wave_starts-tile :
    (size width : ℕ) (seeds : List ℕ)
    → 0 < width
    → size % width ≡ 0
    → length seeds ≡ size
    → All (λ s. length (slice s (s + width) seeds) ≡ width) (wave_starts size width)
      × (flat (map (λ s. slice s (s + width) seeds) (wave_starts size width)) ≡ seeds)
      × (flat (map (λ s. wave_episodes s width) (wave_starts size width)) ≡ range_from 0 size)
unfolding wave_starts
wave_starts-tile size width seeds pos whole len =
    let exact = blocks_of size width pos whole in
    let few : size / width ≤ size = div-le_self size width in
    (
      whole-slices size width pos seeds (size / width) size 0 len few (omega (arith, exact)),
      flat-slices size width pos seeds (size / width) size 0 len few (omega (arith, exact)),
      flat-episodes size width pos (size / width) size 0 few (omega (arith, exact))
          ∙ ap (range_from 0) exact,
    )

All-of_map {ℓ κ} :
    {A B : Type ℓ} (P : B → Type κ) (f : A → B) (xs : List A)
    → All (λ x. P (f x)) xs
    → All P (map f xs)
All-of_map P f [] h = tt
All-of_map P f (x ∷ xs) h = (h.0, All-of_map P f xs h.1)

module _ {B S O A F : Type 0} (around : Surroundings B) (machine : Machine S O A F)
    (batches : Batches B O A F) (spec : CollectionWindowSpec) (config : CollectorConfig) (width : ℕ)
    (log : S → Log) (is_log : IsLog machine log) where
  or_raise-Logs :
      {X : Type 0} (o : Option X)
      → Logs log (or_raise around machine batches spec config width o) (λ l. l)
  or_raise-Logs none = Logs-fail log bad_group (λ l. l)
  or_raise-Logs (some x) = Logs-done log x

  gather-Logs :
      (rollouts ends : List B)
      → Logs log (gather around machine batches spec config width rollouts ends) (λ l. l)
  gather-Logs [] ends = or_raise-Logs _
  gather-Logs (rollout ∷ []) [] = or_raise-Logs _
  gather-Logs (rollout ∷ []) (end_obs ∷ []) = Logs-done log _
  gather-Logs (rollout ∷ []) (end_obs ∷ e ∷ ends) = or_raise-Logs _
  gather-Logs (rollout ∷ r ∷ rollouts) ends = or_raise-Logs _

  publish_group-Logs :
      (a : Assignment) (p : Pulse) (rollout end_obs : B)
      → Logs log
          (publish_group around machine batches spec config width a p rollout end_obs)
          (λ l. l)
  unfolding publish_group
  publish_group-Logs a p rollout end_obs = Logs-bind log (or_raise-Logs _) λ informative.
      Logs-bind log (Logs-on_store log around _) λ status.
        Logs-bind log (Logs-on_store log around _)
          λ closed. Logs-bind log (Logs-read_store log around _) λ accepted. Logs-done log _

  finish_group-Logs :
      (a : Assignment) (p : Pulse) (rollout end_obs : B)
      → Logs log
          (finish_group around machine batches spec config width a p rollout end_obs)
          (λ l. l)
  unfolding finish_group
  finish_group-Logs a p rollout end_obs =
      let publish =
        Logs-if log (is_text spec.actor_objective "flow_grpo" && not (batches.has_trace rollout))
          (Logs-fail log missing_trace (λ l. l)) (publish_group-Logs a p rollout end_obs) in
      Logs-if log (not (batches.is_intact rollout end_obs))
        (Logs-bind log (Logs-on_store log around λ at token. record_integrity_failure a p.lease at)
          λ u. Logs-fail log unsound_state (λ l. l))
        publish

  roll_out-Logs :
      (a : Assignment) (p : Pulse)
      → Logs log (roll_out around machine batches spec config width a p) (
          after_waves around machine batches spec config width log is_log a.policy_seeds
            (wave_starts spec.group_size width))
  unfolding roll_out
  roll_out-Logs a p =
      Logs-bind log (collect_waves-Logs around machine batches spec config width log is_log a _ p)
        λ waves.
          Logs-bind log (gather-Logs waves.rollouts waves.ends)
            λ group. finish_group-Logs a waves.pulse group.0 group.1

  collect_one_group-Logs :
      (a : Assignment) (lease : Option Lease)
      → Logs log (collect_one_group around machine batches spec config width a lease) (
          after_waves around machine batches spec config width log is_log a.policy_seeds
            (wave_starts spec.group_size width))
  unfolding collect_one_group
  collect_one_group-Logs a lease = Logs-bind log (Logs-read_timer log around) λ start.
      Logs-if log (ltb width 1 || not (spec.group_size % width == 0)) (Logs-fail log bad_width _)
        (roll_out-Logs a _)

  -- A width that does not divide the size of the group is refused.
  misfit :
      (a : Assignment) (lease : Option Lease) (w v : World B S) (r : Collected)
      → (ltb width 1 || not (spec.group_size % width == 0)) ≡ true
      → collect_one_group around machine batches spec config width a lease w ≢ (ok r, v)
  unfolding collect_one_group ◌>>=◌ read_timer
  misfit a lease w v r bad e = ground (arith, bad, e)

  -- The waves of a group: take any simulator with a log of the policy seeds that are installed and of the episode
  -- ids that are written, which its other calls leave as it is. Where `_collect_one_group` returns for a
  -- candidate with a seed for each trajectory, it has installed a seed for each lane in every wave; the
  -- seeds of the waves, one wave after another, are the candidate's seeds, and the episode ids number
  -- the trajectories from zero without a gap.
  pub collect_one_group-tiles :
      (a : Assignment) (lease : Option Lease) (w v : World B S) (r : Collected)
      → length a.policy_seeds ≡ spec.group_size
      → collect_one_group around machine batches spec config width a lease w ≡ (ok r, v)
      → (seeds : List (List ℕ)) × (ids : List (List ℕ)) × (log v.machine
          ≡ ((log w.machine).0 ++ seeds, (log w.machine).1 ++ ids))
        × All (λ wave. length wave ≡ width) seeds
        × (flat seeds ≡ a.policy_seeds)
        × (flat ids ≡ range_from 0 spec.group_size)
  collect_one_group-tiles a lease w v r len e =
      elim (Bool-cases (ltb width 1 || not (spec.group_size % width == 0))) [
        | inl bad ↦ absurd (misfit a lease w v r bad e)
        | inr fits ↦
            let (each, all_seeds, all_ids) =
              wave_starts-tile spec.group_size width a.policy_seeds (ground (arith, fits))
                (ground (arith, fits)) len in
            (
              map (λ s. slice s (s + width) a.policy_seeds) (wave_starts spec.group_size width),
              map (λ s. wave_episodes s width) (wave_starts spec.group_size width),
              (collect_one_group-Logs a lease).logs w v r e,
              All-of_map (λ wave. length wave ≡ width) _ (wave_starts spec.group_size width) each,
              all_seeds,
              all_ids,
            )
      ]
