-- ===== src/Collection/Stuck.antt =====
-- What becomes of a window whose `initialize` (trainer/grfpo/collection_store.py) died between the
-- manifest and the file `OPEN`.
use verl_vla.Common.{
  ℕ, zero, suc, ◌≡◌, refl, String, true, false, Option, none, some, List, [], ◌∷◌, arith, is_some,
  take, All, All-map, Result, ok, err,
}
use verl_vla.Collection.Spec.{CollectionWindowSpec}
use verl_vla.Collection.Window.{
  Assignment, Lease, GroupRecord, Window, Effect, fresh, run, apply, write_manifest, touch_open,
  unlink_open, StoreError,
}
use verl_vla.Collection.Leases.{claim_candidate}
use verl_vla.Collection.Commit.{commit_group, commit_locked, check_candidate, when_valid}
use verl_vla.Collection.Close.{initialize}
use verl_vla.Collection.Origins.{Origin, effects-Origin}
use verl_vla.Collection.System.{Call, effects, after, Reach, here, call, initialize_call}

module _ {B : Type 0} where
  -- The window has its manifest, and not the file `OPEN`.
  abbrev pub IsShut : Window B → Type 0
  IsShut w = (w.is_open ≡ false) × (is_some w.manifest ≡ true)

  abbrev KeepsShut : Effect B → Type 0
  KeepsShut (write_manifest m) = ⊥
  KeepsShut touch_open = ⊥
  KeepsShut _ = Unit

  run-IsShut :
      (w : Window B) (es : List (Effect B)) (n : ℕ)
      → All KeepsShut es
      → IsShut w
      → IsShut (run w (take n es))
  unfolding run apply
  run-IsShut w es zero h s = s
  run-IsShut w [] (suc n) h s = s
  run-IsShut w (touch_open ∷ es) (suc n) h s = absurd (h.0)
  run-IsShut w (write_manifest m ∷ es) (suc n) h s = absurd (h.0)
  run-IsShut w (unlink_open ∷ es) (suc n) h s =
      run-IsShut (apply w unlink_open) es n h.1 (refl, s.1)
  run-IsShut w (e ∷ es) (suc n) h s = run-IsShut (apply w e) es n h.1 s

  KeepsShut-of_Origin :
      (c : Call B) (w : Window B) (e : Effect B) → IsShut w → Origin c w e → KeepsShut e
  KeepsShut-of_Origin c w (write_manifest m) s o = ground (arith, s.1, o)
  KeepsShut-of_Origin c w touch_open s o = ground (arith, s.1, o)
  KeepsShut-of_Origin c w _ s o = tt

  module _ (len : B → ℕ) (spec : CollectionWindowSpec) where
    Reach-IsShut : {w v : Window B} → Reach len spec (λ c. Unit) w v → IsShut w → IsShut v
    unfolding after
    Reach-IsShut here s = s
    Reach-IsShut (call {w = u} c n r h) s =
        let t = Reach-IsShut r s in
        run-IsShut u (effects len spec c u) n
          (All-map (Origin c u) KeepsShut (effects len spec c u) (λ e. KeepsShut-of_Origin c u e t)
            (effects-Origin len spec c u))
          t

    shut-commit :
        (a : Assignment) (rollout end_obs : B) (r : GroupRecord) (lease : Option Lease)
        (v : Window B) (checked : Result StoreError (Unit {0}))
        → IsShut v
        → (when_valid len spec checked (commit_locked len spec a rollout end_obs r lease) v).1 ≡ []
    unfolding commit_locked
    shut-commit a rollout end_obs r lease v (err e) s = refl
    shut-commit a rollout end_obs r none v (ok tt) s = ground arith
    shut-commit a rollout end_obs r (some l) v (ok tt) s = ground arith

    shut-claim :
        (more : List Assignment) (owner : String) (timeout now : ℕ) (token : String)
        (preferred : Option (String × ℕ)) (v : Window B) (l : Lease)
        → IsShut v
        → (claim_candidate spec owner timeout now token more preferred v).0 ≡ ok (some l)
        → ⊥
    unfolding claim_candidate
    shut-claim more owner timeout now token preferred v l s e = ground arith

    -- When the process that initializes a window dies after it wrote the manifest and before it
    -- touched `OPEN`, the window never opens: after any further calls, also of `initialize`, in any
    -- order and wherever they are cut short, no claim returns a lease and no commit does any file
    -- operation.
    pub interrupted_initialize-stuck :
        {v : Window B}
        → Reach len spec (λ c. Unit) (after len spec initialize_call 1 fresh) v
        → (v.is_open ≡ false)
          × ((more : List Assignment) (owner : String) (timeout now : ℕ) (token : String)
                (preferred : Option (String × ℕ)) (l : Lease)
              → ((claim_candidate spec owner timeout now token more preferred v).0 ≡ ok (some l)
                  → ⊥))
          × ((a : Assignment) (rollout end_obs : B) (r : GroupRecord) (lease : Option Lease)
              → (commit_group len spec a rollout end_obs r lease v).1 ≡ [])
    unfolding after initialize commit_group
    interrupted_initialize-stuck {v = v} r =
        let s = Reach-IsShut r (refl, refl) in
        (
          s.0,
          λ more owner timeout now token preferred l e.
              shut-claim more owner timeout now token preferred v l s e,
          λ a rollout end_obs g lease.
              shut-commit a rollout end_obs g lease v (check_candidate len spec a rollout end_obs g)
                s,
        )
