-- ===== src/Collector/Live.antt =====
-- A collector whose lease is not taken away (workflows/grfpo_fragmented_collection.py) keeps it through the waves,
-- and its group is then complete, or the window is closed.
use verl_vla.Common.{
  ℕ, zero, suc, ◌+◌, ◌≡◌, refl, String, true, Option, none, some, [], ◌∷◌, arith, ok, is_some,
  lookup-insert, ltb,
}
use verl_vla.Collection.Window.{
  Window, Assignment, Lease, candidate_complete, run, apply, write_lease,
}
use verl_vla.Collection.Leases.{renew_candidate_lease, renewed, lease_is_current, is_same_lease}
use verl_vla.Collector.World.{Surroundings}
use verl_vla.Collector.Lanes.{CollectorConfig}
use verl_vla.Collector.Group.{Pulse, renew_at, renew_lease_if_due, beat}
use verl_vla.Collector.Gives.{
  Gives, Gives-bind, Gives-done, Gives-if, Gives-read_timer, Gives-on_store,
}

-- Every outcome of `u` is there in `v`.
abbrev pub Grown : {B : Type 0} → Window B → Window B → Type 0
Grown u v = (i : ℕ) → candidate_complete u i ≡ true → candidate_complete v i ≡ true

-- What the other processes do keeps outcomes, the closing of the window, and the current leases of `owner`.
pub record IsCalm {B : Type 0} (around : Surroundings B) (owner : String) : Type 0 where
  pub outcomes : (n : ℕ) (w : Window B) → Grown w (around.others n w)
  pub closing :
      (n : ℕ) (w : Window B) → is_some w.closed ≡ true → is_some (around.others n w).closed ≡ true
  pub leases :
      (n : ℕ) (w : Window B) (l : Lease)
      → l.owner_id ≡ owner
      → lease_is_current w l ≡ true
      → lease_is_current (around.others n w) l ≡ true

module _ {B : Type 0} (owner : String) (u : Window B) (a : Assignment) where
  -- The lease of the pulse is the owner's, for the assignment, and the stored one; no outcome of `u` is lost.
  pub record IsLive (p : Pulse) (w : Window B) : Type 0 where
    pub lease : Lease
    pub is_lease : p.lease ≡ some lease
    pub same : lease.assignment ≡ a
    pub owned : lease.owner_id ≡ owner
    pub current : lease_is_current w lease ≡ true
    pub grown : Grown u w

  pub calm-IsLive :
      {around : Surroundings B} (p : Pulse) (calm : IsCalm around owner) (n : ℕ) (w : Window B)
      → IsLive p w
      → IsLive p (around.others n w)
  calm-IsLive p calm n w live = record {
    lease = live.lease;
    is_lease = live.is_lease;
    same = live.same;
    owned = live.owned;
    current = calm.leases n w live.lease live.owned live.current;
    grown = λ i h. calm.outcomes n w i (live.grown i h);
  }

  renewed_ok :
      (l r : Lease) (timeout at : ℕ) (w : Window B)
      → (renew_candidate_lease l timeout at w).0 ≡ ok r
      → (r ≡ renewed l timeout at)
        × ((renew_candidate_lease l timeout at w).1
            ≡ write_lease l.assignment.candidate_index (renewed l timeout at) ∷ [])
  unfolding renew_candidate_lease
  renewed_ok l r timeout at w answered = ground (arith, answered)

  current-renewed :
      (l : Lease) (timeout at : ℕ) (w : Window B)
      → lease_is_current
          (apply w (write_lease l.assignment.candidate_index (renewed l timeout at)))
          (renewed l timeout at)
        ≡ true
  unfolding apply lease_is_current is_same_lease
  current-renewed l timeout at w =
      let i = l.assignment.candidate_index in
      ground (arith, lookup-insert i i (renewed l timeout at) w.leases)

  renew-IsLive :
      (p : Pulse) (l r : Lease) (timeout now at : ℕ) (w : Window B)
      → p.lease ≡ some l
      → IsLive p w
      → (renew_candidate_lease l timeout at w).0 ≡ ok r
      → IsLive
          (record { lease = some r; last = now })
          (run w (renew_candidate_lease l timeout at w).1)
  unfolding run apply
  renew-IsLive p l r timeout now at w e live answered =
      let same_lease : live.lease ≡ l = ground (arith, e, live.is_lease) in
      let (same_renewed, wrote) = renewed_ok l r timeout at w answered in
      rw (same_renewed, wrote)
        (record {
          lease = renewed l timeout at;
          is_lease = refl;
          same = rw (← same_lease) live.same;
          owned = rw (← same_lease) live.owned;
          current = current-renewed l timeout at w;
          grown = live.grown;
        })

  module _ {S : Type 0} (around : Surroundings B) (calm : IsCalm around owner)
      (config : CollectorConfig) where
    renew_at-IsLive :
        (p : Pulse) (o : Option Lease) (now : ℕ)
        → p.lease ≡ o
        → Gives {S = S} (IsLive p) (renew_at around config p o now) IsLive
    renew_at-IsLive p none now e = Gives-done p λ w live. live
    renew_at-IsLive p (some l) now e =
        Gives-if (ltb now (p.last + config.candidate_lease_heartbeat)) (Gives-done p λ w live. live)
          (Gives-bind
            (Gives-on_store around _ (calm-IsLive p calm) λ at token w r live answered.
              renew-IsLive p l r config.candidate_lease_timeout now at w e live answered)
            λ r. Gives-done _ λ w live. live)

    pub renew_lease_if_due-IsLive :
        (p : Pulse) → Gives {S = S} (IsLive p) (renew_lease_if_due around config p) IsLive
    unfolding renew_lease_if_due
    renew_lease_if_due-IsLive p =
        Gives-bind (Gives-read_timer around) λ now. renew_at-IsLive p p.lease now refl

    pub beat-IsLive : (n : ℕ) (p : Pulse) → Gives {S = S} (IsLive p) (beat around config n p) IsLive
    unfolding beat
    beat-IsLive zero p = Gives-done p λ w live. live
    beat-IsLive (suc n) p = Gives-bind (renew_lease_if_due-IsLive p) λ q. beat-IsLive n q
