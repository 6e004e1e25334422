-- ===== src/Collector/Warm.antt =====
-- A collector that is warm for one condition (workflows/grfpo_fragmented_collection.py, with `claim_candidate` of
-- trainer/grfpo/collection_store.py) gets candidates of that condition only.
use verl_vla.Common.{
  ℕ, zero, suc, ◌≡◌, ◌≢◌, ◌||◌, refl, ap, String, Bool, true, Option, none, some, List, [], ◌∷◌,
  ◌++◌, arith, ok, err, inl, inr, All, is_some, length, ltb, not, ◌*◌, ◌==◌, ◌&&◌,
}
use verl_vla.Common.Sort.{insert_by, sort_by}
use verl_vla.Collection.Spec.{CollectionWindowSpec, is_text}
use verl_vla.Collection.Window.{Window, Assignment, Lease, apply, unlink_lease}
use verl_vla.Collection.Leases.{prefer, index_leb, claim_loop, claim_candidate}
use verl_vla.Collection.Claims.{claim_loop-cons}
use verl_vla.Collector.World.{
  World, Surroundings, changed_condition, bad_slot, wrong_lane_count, done, fail, on_store,
  from_result, set_held,
}
use verl_vla.Collector.Lanes.{CollectorConfig, candidate_physical_batch_size}
use verl_vla.Collector.Group.{Machine, Batches, Collected}
use verl_vla.Collector.Queue.{
  ConditionKey, condition, same_key, Waited, leased, closed_meanwhile, still_waiting, claim,
  release, collect_leased, select_candidate, warm_loop, work_guarded, work_warm, wait_for_candidate,
  shared_queue_collector, release_of, work_claimed, work_waited,
}
use verl_vla.Collector.Steady.{
  IsSteady, at_once, bind-IsSteady, bind_given-IsSteady, done-IsSteady, protect-IsSteady,
  finally-IsSteady, on_store-IsSteady, read_store-IsSteady, on_machine-IsSteady, if-IsSteady,
  collect_one_group-IsSteady,
}

module _ (P : Assignment → Type 0) where
  insert_by-All :
      (le : Assignment → Assignment → Bool) (a : Assignment) (xs : List Assignment)
      → P a
      → All P xs
      → All P (insert_by le a xs)
  unfolding insert_by
  insert_by-All le a [] p h = (p, tt)
  insert_by-All le a (x ∷ xs) p h = ground (arith, insert_by-All le a xs p h.1)

  pub sort_by-All :
      (le : Assignment → Assignment → Bool) (xs : List Assignment)
      → All P xs
      → All P (sort_by le xs)
  unfolding sort_by
  sort_by-All le [] h = tt
  sort_by-All le (x ∷ xs) h = insert_by-All le x (sort_by le xs) h.0 (sort_by-All le xs h.1)

  -- What all assignments satisfy, the claimed one satisfies.
  pub claim_loop-All :
      {B : Type 0} (spec : CollectionWindowSpec) (owner : String) (timeout now : ℕ) (token : String)
      (xs : List Assignment) (w : Window B) (l : Lease)
      → All P xs
      → (claim_loop spec owner timeout now token xs w).0 ≡ some l
      → P l.assignment
  claim_loop-All spec owner timeout now token [] w l h e = unfold claim_loop in cc
  claim_loop-All spec owner timeout now token (a ∷ xs) w l h e =
      elim (claim_loop-cons spec owner timeout now token a xs w) [
        | inl same ↦ claim_loop-All spec owner timeout now token xs w l h.1 (rw same at e)
        | inr (inl (done, same)) ↦
            claim_loop-All spec owner timeout now token xs
              (apply w (unlink_lease a.candidate_index)) l h.1 (rw same at e)
        | inr (inr (u, same)) ↦ ground (arith, h.0, (rw same at e))
      ]

prefer-All :
    (c : ConditionKey) (xs : List Assignment)
    → All (λ a. same_key (condition a) c ≡ true) (prefer (some c) xs)
unfolding prefer
prefer-All c [] = tt
prefer-All c (a ∷ xs) = ground (arith, prefer-All c xs)

is_text_refl : (x : String) → is_text x x ≡ true
is_text_refl x = ground arith

same_key_refl : (c : ConditionKey) → same_key c c ≡ true
same_key_refl c = ground (arith, is_text_refl c.0)

module _ {B S O A F : Type 0} (around : Surroundings B) (machine : Machine S O A F)
    (batches : Batches B O A F) (spec : CollectionWindowSpec) (config : CollectorConfig)
    (owner : String) (assignments : List Assignment) where
  select_candidate-IsSteady :
      (width : ℕ) (a : Assignment)
      → IsSteady {B = B} {S = S}
          (select_candidate around machine batches spec config owner assignments width a)
  unfolding select_candidate
  select_candidate-IsSteady width a = on_machine-IsSteady _

  width-IsSteady :
      (overrides : Option (List ℕ → Option ℕ)) (a : Assignment)
      → IsSteady {B = B} {S = S}
          (from_result (λ e. e) (candidate_physical_batch_size config spec overrides a))
  unfolding candidate_physical_batch_size
  width-IsSteady overrides a = at_once λ w. ground arith

  abbrev Fits : ConditionKey → Option Lease → Type 0
  Fits c none = Unit
  Fits c (some l) = same_key (condition l.assignment) c ≡ true

  claimed-Fits :
      (c : ConditionKey) (w v : World B S) (l : Option Lease)
      → claim around machine batches spec config owner assignments (some c) w ≡ (ok l, v)
      → Fits c l
  unfolding claim on_store claim_candidate
  claimed-Fits c w v none e = tt
  claimed-Fits c w v (some l) e = ground (
    arith,
    ap (λ r. r.0) e,
    claim_loop-All (λ a. same_key (condition a) c ≡ true) spec owner config.candidate_lease_timeout
        (around.clock w.turn) (around.token w.turn)
        (sort_by index_leb (prefer (some c) assignments)) (around.others w.turn w.window) l
        (sort_by-All (λ a. same_key (condition a) c ≡ true) index_leb (prefer (some c) assignments)
          (prefer-All c assignments)),
  )

  release-IsSteady :
      (l : Lease)
      → IsSteady {B = B} {S = S} (release around machine batches spec config owner assignments l)
  unfolding release
  release-IsSteady l = bind-IsSteady _ _ (on_store-IsSteady around _) λ u. done-IsSteady tt

  release_of-IsSteady :
      (l : Option Lease)
      → IsSteady {B = B} {S = S} (release_of around machine batches spec config owner assignments l)
  release_of-IsSteady none = done-IsSteady tt
  release_of-IsSteady (some l) = release-IsSteady l

  collect_leased-IsSteady :
      (width : ℕ) (l : Lease)
      → IsSteady {B = B} {S = S}
          (collect_leased around machine batches spec config owner assignments width l)
  unfolding collect_leased
  collect_leased-IsSteady width l =
      protect-IsSteady _ _
        (collect_one_group-IsSteady around machine batches spec config width l.assignment (some l))
        (release-IsSteady l)

  claim-IsSteady :
      (preferred : Option ConditionKey)
      → IsSteady {B = B} {S = S}
          (claim around machine batches spec config owner assignments preferred)
  unfolding claim
  claim-IsSteady preferred = on_store-IsSteady around _

  warm_loop-IsSteady :
      (rounds width : ℕ) (c : ConditionKey) (results : List Collected) (l : Option Lease)
      → Fits c l
      → IsSteady {B = B} {S = S}
          (warm_loop around machine batches spec config owner assignments rounds width c results l)
  unfolding warm_loop
  warm_loop-IsSteady zero width c results none h = done-IsSteady _
  warm_loop-IsSteady (suc rounds) width c results none h = done-IsSteady _
  warm_loop-IsSteady zero width c results (some l) h = done-IsSteady _
  warm_loop-IsSteady (suc rounds) width c results (some l) h =
      let claim_some = claim around machine batches spec config owner assignments (some c) in
      rw h (
        bind-IsSteady _ _ (select_candidate-IsSteady width l.assignment) λ u.
          bind-IsSteady _ _ (collect_leased-IsSteady width l) λ r.
            if-IsSteady (is_some r.closed) (done _) _ (done-IsSteady _) (
              bind_given-IsSteady claim_some _ (Fits c) (claim-IsSteady (some c)) (claimed-Fits c)
                λ lease fits.
                  bind-IsSteady (set_held lease) _ (at_once λ w. refl)
                    λ x. warm_loop-IsSteady rounds width c (results ++ r ∷ []) lease fits))

  work_guarded-IsSteady :
      (rounds width : ℕ) (l : Lease)
      → IsSteady {B = B} {S = S}
          (work_guarded around machine batches spec config owner assignments rounds width l)
  unfolding work_guarded
  work_guarded-IsSteady rounds width l =
      protect-IsSteady _ _
        (bind-IsSteady _ _ (on_machine-IsSteady _) λ y.
          warm_loop-IsSteady rounds width (condition l.assignment) [] (some l)
            (same_key_refl (condition l.assignment)))
        (at_once λ w. (release_of-IsSteady w.held).steady w)

  work_warm-IsSteady :
      (rounds : ℕ) (overrides : Option (List ℕ → Option ℕ)) (l : Lease)
      → IsSteady {B = B} {S = S}
          (work_warm around machine batches spec config owner assignments rounds overrides l)
  unfolding work_warm
  work_warm-IsSteady rounds overrides l =
      bind-IsSteady (set_held (some l)) _ (at_once λ w. refl) λ u.
        bind-IsSteady _ _ (width-IsSteady overrides l.assignment) λ width.
          bind-IsSteady _ _ (on_machine-IsSteady _)
            λ x. finally-IsSteady _ _ (work_guarded-IsSteady rounds width l) (on_machine-IsSteady _)

  waited-IsSteady :
      (polls : ℕ) (l : Option Lease)
      → IsSteady {B = B} {S = S}
          (wait_for_candidate around machine batches spec config owner assignments polls)
      → IsSteady {B = B} {S = S} (elim l [
        | none ↦ wait_for_candidate around machine batches spec config owner assignments polls
        | some x ↦ done (leased x)
      ])
  waited-IsSteady polls none h = h
  waited-IsSteady polls (some x) h = done-IsSteady _

  wait_for_candidate-IsSteady :
      (polls : ℕ)
      → IsSteady {B = B} {S = S}
          (wait_for_candidate around machine batches spec config owner assignments polls)
  unfolding wait_for_candidate
  wait_for_candidate-IsSteady zero = done-IsSteady _
  wait_for_candidate-IsSteady (suc polls) = bind-IsSteady _ _ (on_store-IsSteady around _) λ closed.
      bind-IsSteady _ _ (read_store-IsSteady around _) λ is_closed.
        if-IsSteady (is_some closed || is_closed) (done _) _ (done-IsSteady _) (
          bind-IsSteady _ _ (claim-IsSteady none)
            λ l. waited-IsSteady polls l (wait_for_candidate-IsSteady polls))

  work_waited-IsSteady :
      (rounds : ℕ) (overrides : Option (List ℕ → Option ℕ)) (waited : Waited)
      → IsSteady {B = B} {S = S}
          (work_waited around machine batches spec config owner assignments rounds overrides waited)
  work_waited-IsSteady rounds overrides (leased l) = work_warm-IsSteady rounds overrides l
  work_waited-IsSteady rounds overrides closed_meanwhile = done-IsSteady _
  work_waited-IsSteady rounds overrides still_waiting = done-IsSteady _

  work_claimed-IsSteady :
      (polls rounds : ℕ) (overrides : Option (List ℕ → Option ℕ)) (preferred : Option ConditionKey)
      (l : Option Lease)
      → IsSteady {B = B} {S = S} (
          work_claimed around machine batches spec config owner assignments polls rounds overrides
            preferred l)
  work_claimed-IsSteady polls rounds overrides preferred (some l) =
      work_warm-IsSteady rounds overrides l
  work_claimed-IsSteady polls rounds overrides (some c) none = done-IsSteady _
  work_claimed-IsSteady polls rounds overrides none none =
      bind-IsSteady _ _ (wait_for_candidate-IsSteady polls) (work_waited-IsSteady rounds overrides)

  shared_queue_collector-IsSteady :
      (polls rounds : ℕ) (overrides : Option (List ℕ → Option ℕ)) (task_names : List String)
      → IsSteady {B = B} {S = S} (
          shared_queue_collector around machine batches spec config owner assignments polls rounds
            overrides task_names)
  unfolding shared_queue_collector
  shared_queue_collector-IsSteady polls rounds overrides task_names =
      if-IsSteady (not (ltb config.collector_slot config.collection.collector_count))
        (fail bad_slot) _ (at_once λ w. refl)
        (if-IsSteady
          (not config.shared_queue_steal_any
            && not (
                config.collection.collector_count
                == length task_names * length config.collection.suite_ids))
          (fail wrong_lane_count) _ (at_once λ w. refl)
          (bind-IsSteady _ _ (claim-IsSteady _) (work_claimed-IsSteady polls rounds overrides _)))

  -- A warm collector never meets a candidate of another task or suite: whatever the other processes, the
  -- simulator and the model do, and however the fuel is chosen, the shared queue collector does not
  -- raise "A warm RoboDojo process cannot change task/suite".
  pub shared_queue_collector-steady :
      (polls rounds : ℕ) (overrides : Option (List ℕ → Option ℕ)) (task_names : List String)
      (w : World B S)
      → (shared_queue_collector around machine batches spec config owner assignments polls rounds
          overrides task_names w).0
        ≢ err changed_condition
  shared_queue_collector-steady polls rounds overrides task_names w e =
      ground
        (arith, e, (shared_queue_collector-IsSteady polls rounds overrides task_names).steady w)
