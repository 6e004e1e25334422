-- ===== src/Collector/Ends.antt =====
-- The loop of a warm collector ends (workflows/grfpo_fragmented_collection.py): each of its turns gives one more
-- candidate of its list an outcome.
use verl_vla.Common.{
  ℕ, suc, ◌<◌, ◌≡◌, ◌≢◌, String, true, false, Option, none, some, List, [], ◌∷◌, if◌then◌else◌,
}
use verl_vla.Collection.Spec.{CollectionWindowSpec}
use verl_vla.Collection.Window.{Window, Assignment, Lease, candidate_complete}
use verl_vla.Collection.Leases.{lease_is_current}
use verl_vla.Collector.World.{World, Surroundings}
use verl_vla.Collector.Lanes.{CollectorConfig}
use verl_vla.Collector.Group.{Machine, Batches}
use verl_vla.Collector.Queue.{unfinished, Finished}
use verl_vla.Collector.Gives.{Gives}
use verl_vla.Collector.Live.{Grown, IsCalm}

-- How many candidates of a list have no outcome yet.
unfoldable pub open_count : {B : Type 0} → Window B → List Assignment → ℕ
open_count w [] = 0
open_count w (a ∷ more) =
    let rest = open_count w more in
    if candidate_complete w a.candidate_index then rest else suc rest

module _ (B : Type 0) where
  -- Once the candidate of `a` has an outcome, fewer of the list are open.
  abbrev Drops : List Assignment → Assignment → Type 0
  Drops xs a =
      (u v : Window B)
      → Grown u v
      → candidate_complete u a.candidate_index ≡ false
      → candidate_complete v a.candidate_index ≡ true
      → open_count v xs < open_count u xs

  -- An open candidate of the list counts.
  abbrev Counts : List Assignment → Assignment → Type 0
  Counts xs a =
      (u : Window B) → candidate_complete u a.candidate_index ≡ false → 0 < open_count u xs

module _ {B S O A F : Type 0} (around : Surroundings B) (machine : Machine S O A F)
    (batches : Batches B O A F) (spec : CollectionWindowSpec) (config : CollectorConfig)
    (owner : String) (assignments : List Assignment) (calm : IsCalm around owner) where
  -- A claimed candidate, which was open in `u` with less than `bound` open candidates.
  pub record IsFresh (bound : ℕ) (l : Lease) (u : Window B) : Type 0 where
    pub owned : l.owner_id ≡ owner
    pub was_open : candidate_complete u l.assignment.candidate_index ≡ false
    pub drops : Drops B assignments l.assignment
    pub counts : Counts B assignments l.assignment
    pub few : open_count u assignments < bound

  -- What a claim answers where fewer than `bound` candidates are open.
  abbrev Claimed : ℕ → Option Lease → Window B → Type 0
  Claimed bound none w = Unit
  Claimed bound (some l) w =
      (u : Window B) × (IsFresh bound l u × ((lease_is_current w l ≡ true) × Grown u w))

  abbrev Ended : Finished → Window B → Type 0
  Ended f w = f.status ≢ unfinished
