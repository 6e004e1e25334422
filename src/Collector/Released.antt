-- ===== src/Collector/Released.antt =====
-- The leases of a collector that raises (workflows/grfpo_fragmented_collection.py).
use verl_vla.Common.{
  ℕ, ◌≡◌, refl, String, false, Option, none, some, List, [], arith, err, lookup-remove, ap, subst,
}
use verl_vla.Collection.Spec.{CollectionWindowSpec}
use verl_vla.Collection.Window.{Window, Assignment, Lease, GroupRecord, run, apply}
use verl_vla.Collection.Leases.{release_candidate_lease, lease_is_current, is_same_lease}
use verl_vla.Collection.Commit.{commit_group}
use verl_vla.Collection.System.{Reach}
use verl_vla.Collection.Fencing.{Avoids, lost_lease-fenced}
use verl_vla.Collector.World.{World, Surroundings, Failure, reraise, on_store, ◌>>=◌}
use verl_vla.Collector.Lanes.{CollectorConfig}
use verl_vla.Collector.Rules.{protect-rule, reraise-rule}
use verl_vla.Collector.Group.{Machine, Batches}
use verl_vla.Collector.Queue.{release, release_of, release_held, work_guarded, Finished}

module _ {B S O A F : Type 0} (around : Surroundings B) (machine : Machine S O A F)
    (batches : Batches B O A F) (spec : CollectionWindowSpec) (config : CollectorConfig)
    (owner : String) (assignments : List Assignment) where
  -- After a release the lease is not the stored one, whatever it was before.
  release-stale :
      (l : Lease) (w : World B S)
      → lease_is_current
          (release around machine batches spec config owner assignments l w).1.window
          l
        ≡ false
  unfolding release ◌>>=◌ on_store release_candidate_lease lease_is_current is_same_lease run apply
  release-stale l w = ground (
    arith,
    lookup-remove l.assignment.candidate_index l.assignment.candidate_index
        (around.others w.turn w.window).leases,
  )

  release-held :
      (l : Lease) (w : World B S)
      → (release around machine batches spec config owner assignments l w).1.held ≡ w.held
  unfolding release ◌>>=◌ on_store
  release-held l w = ground arith

  -- No lease that the collector still holds is the stored one.
  abbrev AllReleased : World B S → Type 0
  AllReleased v = (h : Lease) → v.held ≡ some h → lease_is_current v.window h ≡ false

  released-AllReleased :
      (l : Lease) (v : World B S)
      → v.held ≡ some l
      → AllReleased (release around machine batches spec config owner assignments l v).1
  released-AllReleased l v held h e =
      let same : l ≡ h = ground (arith, held, e, release-held l v) in
      subst
        (λ x.
          lease_is_current
            (release around machine batches spec config owner assignments l v).1.window x
          ≡ false)
        same (release-stale l v)

  release_of-AllReleased :
      (A : Type 0) (e : Failure) (o : Option Lease) (v : World B S)
      → v.held ≡ o
      → AllReleased
          (reraise {A = A} e
            (release_of around machine batches spec config owner assignments o v)).1
  release_of-AllReleased A e none v held = λ h some_held. cc
  release_of-AllReleased A e (some l) v held =
      reraise-rule (release around machine batches spec config owner assignments l) v
        (λ r. AllReleased r.1) e (λ u same. released_at u (ap (λ r. r.1) same))
        λ f u same. released_at u (ap (λ r. r.1) same)
    where
      released_at :
          (u : World B S)
          → (release around machine batches spec config owner assignments l v).1 ≡ u
          → AllReleased u
      released_at u same = subst AllReleased same (released-AllReleased l v held)

  raised_guarded :
      (rounds width : ℕ) (l : Lease) (w : World B S) (e : Failure)
      → (work_guarded around machine batches spec config owner assignments rounds width l w).0
        ≡ err e
      → AllReleased
          (work_guarded around machine batches spec config owner assignments rounds width l w).1
  unfolding work_guarded
  raised_guarded rounds width l w e =
      protect-rule _ (release_held around machine batches spec config owner assignments) w
        (λ r. r.0 ≡ err e → AllReleased r.1) (λ a v same raised. absurd (ground (arith, raised)))
        λ f v same raised. release_of-AllReleased Finished f v.held v refl

  -- Where the `try` block of the shared queue collector ends with an exception, wherever it was raised, the
  -- lease in its variable `lease` is not the stored one any more; and after any later calls of the store
  -- whose claims draw other tokens, in any order and wherever they are cut short, no group can be
  -- published or rejected with it.
  pub work_guarded-releases :
      (rounds width : ℕ) (l : Lease) (w : World B S) (e : Failure) (h : Lease) (v : Window B)
      (a : Assignment) (rollout end_obs : B) (r : GroupRecord)
      → (work_guarded around machine batches spec config owner assignments rounds width l w).0
        ≡ err e
      → (work_guarded around machine batches spec config owner assignments rounds width l w).1.held
        ≡ some h
      → Reach batches.size spec
          (Avoids h.token)
          (work_guarded around machine batches spec config owner assignments rounds width l
            w).1.window
          v
      → (lease_is_current
            (work_guarded around machine batches spec config owner assignments rounds width l
              w).1.window
            h
          ≡ false)
        × ((commit_group batches.size spec a rollout end_obs r (some h) v).1 ≡ [])
  work_guarded-releases rounds width l w e h v a rollout end_obs r raised held reach =
      let stale = raised_guarded rounds width l w e raised h held in
      (stale, (lost_lease-fenced h batches.size spec a rollout end_obs r 0 0 stale reach).0)
