-- ===== src/Transaction/Passed.antt =====
-- The tests that a live workflow of transaction.py makes before it changes anything.
use nixos_control_manager.Prelude.{
  ℕ, String, Bool, true, not, ◌≡◌, refl, ◌⊎◌, inl, inr, Option, List, all, All, All-of_all, ◌==◌,
}
use nixos_control_manager.Transaction.Errors.{Failure, Outcome, ok, err, dead}
use nixos_control_manager.Transaction.State.{Change, World}
use nixos_control_manager.Transaction.Host.{Host}
use nixos_control_manager.Transaction.Exec.{Exec, require}
use nixos_control_manager.Transaction.Disk.{is_empty}
use nixos_control_manager.Transaction.Recover.{Validation}
use nixos_control_manager.Transaction.Roots.{Places, require_live_managed_root}
use nixos_control_manager.Transaction.Workflows.{
  Identity, LockValidation, ManagedPlan, identity, matches, is_validated, managed_identity,
  validate_managed_plan, is_managed_path, lock_scope, apply_managed_plan_live,
  apply_flake_lock_update_live, lift,
}
use nixos_control_manager.Transaction.Triple.{
  Post, Triple, Triple-pure, Triple-check, Triple-bind, Triple-then,
}

module _ {T : Type 0} (F : Type 0) where
  constant-Post : (x : Outcome T × World) → F → Post (λ _ _. F) (λ _. F) x
  constant-Post (ok t, w) f = f
  constant-Post (err e, w) f = f
  constant-Post (dead, w) f = f

module _ (before : World) where
  -- The world is as it was before, and something is known.
  abbrev pub Still : Type 0 → World → Type 0
  Still F w = (w ≡ before) × F

  -- Nothing has changed, or it is permitted.
  abbrev pub Only : Type 0 → World → Type 0
  Only F w = (w ≡ before) ⊎ F

  lift-Still :
      {T : Type 0} (F : Type 0) (o : Outcome T)
      → Triple (Still Unit) (λ t. Still (o ≡ ok t)) (Only F) (lift o)
  unfolding lift
  lift-Still F (ok t) = record { at = λ w p. (p.0, refl) }
  lift-Still F (err e) = record { at = λ w p. inl p.0 }
  lift-Still F dead = record { at = λ w p. inl p.0 }

  check-Still :
      (F G : Type 0) (b : Bool) (e : Failure)
      → Triple (Still G) (λ _. Still (G × (b ≡ true))) (Only F) (require b e)
  check-Still F G b e = Triple-check b e (λ w p. inl p.0) (λ k w p. (p.0, (p.1, k)))

  permitted-Post :
      {T : Type 0} (F : Type 0) (x : Outcome T × World)
      → Post (λ _ _. F) (λ _. F) x
      → Post (λ _ _. F) (Only F) x
  permitted-Post F (ok t, w) p = p
  permitted-Post F (err e, w) p = inr p
  permitted-Post F (dead, w) p = inr p

  permitted :
      {T : Type 0} (F G : Type 0) (m : Exec T) → (G → F) → Triple (Still G) (λ _ _. F) (Only F) m
  permitted F G m k = record { at = λ w p. permitted-Post F (m w) (constant-Post F (m w) (k p.1)) }

pub only :
    {T : Type 0} {before : World} (F : Type 0) (x : Outcome T × World)
    → Post (λ _ _. F) (Only before F) x
    → (x.1 ≡ before) ⊎ F
only F (ok t, w) p = inr p
only F (err e, w) p = p
only F (dead, w) p = p

module _ (h : Host) (places : Places) (dumps : Identity → List ℕ) (fault : Option ℕ)
    (crash : Bool) where
  -- The tests that a managed plan has passed.
  abbrev pub PassedManaged : ManagedPlan → Validation → Type 0
  PassedManaged p v =
      ((root : String) × ((require_live_managed_root places p.root ≡ ok root)
          × ((p.root == root) ≡ true)
          × (not (is_empty p.changes) ≡ true)))
      × (is_validated h places dumps v ≡ true)
      × (matches h places dumps v
            (identity h places dumps (managed_identity h places dumps p) p.changes)
          ≡ true)
      × All (λ c. is_managed_path h places dumps fault crash c.relative_path ≡ true) p.changes

  module _ (before : World) (p : ManagedPlan) (v : Validation) where
    abbrev Validated : String → Type 0
    Validated root =
        (((require_live_managed_root places p.root ≡ ok root) × (not (is_empty p.changes) ≡ true))
          × (is_validated h places dumps v ≡ true))
        × (matches h places dumps v
              (identity h places dumps (managed_identity h places dumps p) p.changes)
            ≡ true)

    validate-Still :
        (F : Type 0) (root : String)
        → Triple
            (Still before (require_live_managed_root places p.root ≡ ok root))
            (λ _. Still before (Validated root × ((p.root == root) ≡ true)))
            (Only before F)
            (validate_managed_plan h places dumps p v root)
    unfolding validate_managed_plan
    validate-Still F root =
        Triple-then (Still before (Validated root × ((p.root == root) ≡ true))) _ _
          (Triple-then (Still before (Validated root)) _ _
            (Triple-then
              (Still before (
                ((require_live_managed_root places p.root ≡ ok root)
                  × (not (is_empty p.changes) ≡ true))
                × (is_validated h places dumps v ≡ true)))
              _ _
              (Triple-then
                (Still before (
                  (require_live_managed_root places p.root ≡ ok root)
                  × (not (is_empty p.changes) ≡ true)))
                _ _ (check-Still before F _ _ _) (check-Still before F _ _ _))
              (check-Still before F _ _ _))
            (check-Still before F _ _ _))
          (Triple-pure _ (λ w q. q))

    pub managed-Triple :
        Triple
          (Still before Unit)
          (λ _ _. PassedManaged p v)
          (Only before (PassedManaged p v))
          (apply_managed_plan_live h places dumps fault crash p v)
    unfolding apply_managed_plan_live
    managed-Triple =
        Triple-bind {R = λ root. Still before (require_live_managed_root places p.root ≡ ok root)} _
          _ (lift-Still before (PassedManaged p v) _)
          λ root.
            Triple-bind {R = λ _. Still before (Validated root × ((p.root == root) ≡ true))} _ _
              (validate-Still (PassedManaged p v) root)
              λ fingerprint.
                Triple-then
                  (Still before (
                    (Validated root × ((p.root == root) ≡ true))
                    × (all (λ c. is_managed_path h places dumps fault crash c.relative_path)
                          p.changes
                        ≡ true)))
                  _ _ (check-Still before (PassedManaged p v) _ _ _)
                  (permitted before (PassedManaged p v) _ _ (λ k. (
                    (root, (k.0.0.0.0.0, k.0.1, k.0.0.0.0.1)),
                    k.0.0.0.1,
                    k.0.0.1,
                    All-of_all _ p.changes k.1,
                  )))

  -- The tests that an update of flake.lock has passed.
  abbrev pub PassedLock : Change → String → String → String → LockValidation → Type 0
  PassedLock c path root fingerprint v =
      (resolved : String) × ((require_live_managed_root places root ≡ ok resolved)
        × (lock_scope h places dumps fault crash c path fingerprint v resolved ≡ true))

  module _ (before : World) (c : Change) (path root fingerprint : String) (v : LockValidation) where
    pub lock-Triple :
        Triple
          (Still before Unit)
          (λ _ _. PassedLock c path root fingerprint v)
          (Only before (PassedLock c path root fingerprint v))
          (apply_flake_lock_update_live h places dumps fault crash c path root fingerprint v)
    unfolding apply_flake_lock_update_live
    lock-Triple =
        let F = PassedLock c path root fingerprint v in
        Triple-bind {R = λ r. Still before (require_live_managed_root places root ≡ ok r)} _ _
          (lift-Still before F _)
          λ r.
            Triple-then
              (Still before (
                (require_live_managed_root places root ≡ ok r)
                × (lock_scope h places dumps fault crash c path fingerprint v r ≡ true)))
              _ _ (check-Still before F _ _ _) (permitted before F _ _ (λ k. (r, k)))
