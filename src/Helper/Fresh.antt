-- ===== src/Helper/Fresh.antt =====
-- The receipts that `_prune_receipts` of helper_service.py leaves.
mod Loops
use nixos_control_manager.Prelude.{
  ℕ, String, Bool, true, false, ◌≡◌, refl, sym, ◌<◌, ◌⊎◌, inl, inr, Bool-cases, Option, none, some,
  List, [], ◌∷◌, leb, arith, ◌==◌, eq_iff, if◌then◌else◌,
}
use nixos_control_manager.Prelude.Dict.{Dict, lookup, erase, lookup-erase}
use nixos_control_manager.Protocol.{Result, ok, err}
use nixos_control_manager.Helper.Target.{Target}
use nixos_control_manager.Helper.State.{
  Dispatcher, World, Event, Exec, Call, Pending, PendingTestActivation, call, modify, pure, gets,
  monotonic, continue, ◌>>=◌, ◌>>◌, clock, called,
}
use nixos_control_manager.Helper.Prune.{
  discard, prune_entries, prune_tests, prune_receipts, drop_plan, drop_home_manager, drop_managed,
  drop_flake_lock,
}
use nixos_control_manager.Helper.Yields.{
  Yields, Returned, Yields-pure, Yields-gets, Yields-if, Yields-modify, Yields-bind,
}
use nixos_control_manager.Helper.Fresh.Loops.{
  Fresh, In, Left, prune_entries-Fresh, prune_tests-Fresh, snapshot-Left,
}

-- No receipt of any of the five tables has expired.
pub record IsFresh (now : ℕ) (w : World) : Type 0 where
  pub plans : Fresh (λ p. p.expires_at) now w.pending
  pub home_plans : Fresh (λ p. p.expires_at) now w.pending_home_manager
  pub managed_plans : Fresh (λ p. p.expires_at) now w.pending_managed
  pub lock_updates : Fresh (λ p. p.expires_at) now w.pending_flake_lock
  pub tests : Fresh (λ p. p.expires_at) now w.pending_tests

-- The tables that have been looked at, one after another, beside a fact that no step touches.
module _ (K : Type 0) (now : ℕ) where
  abbrev UpToPlans : World → Type 0
  UpToPlans w = K × Fresh (λ p. p.expires_at) now w.pending

  abbrev UpToHomePlans : World → Type 0
  UpToHomePlans w = UpToPlans w × Fresh (λ p. p.expires_at) now w.pending_home_manager

  abbrev UpToManagedPlans : World → Type 0
  UpToManagedPlans w = UpToHomePlans w × Fresh (λ p. p.expires_at) now w.pending_managed

  abbrev UpToLockUpdates : World → Type 0
  UpToLockUpdates w = UpToManagedPlans w × Fresh (λ p. p.expires_at) now w.pending_flake_lock

Fresh-all :
    (n now : ℕ) (w : World)
    → UpToLockUpdates (now ≡ n) now w × Fresh (λ p. p.expires_at) now w.pending_tests
    → IsFresh n w
Fresh-all n now w h =
    let (((((same, plans), home_plans), managed_plans), lock_updates), tests) = h in
    record {
      plans = rw same at plans;
      home_plans = rw same at home_plans;
      managed_plans = rw same at managed_plans;
      lock_updates = rw same at lock_updates;
      tests = rw same at tests;
    }

Returned-Fresh :
    (n now : ℕ) (r : Result (Unit {0})) (w : World)
    → Returned
        (λ _ v. UpToLockUpdates (now ≡ n) now v × Fresh (λ p. p.expires_at) now v.pending_tests)
        (r, w)
    → Returned (λ _. IsFresh n) (r, w)
Returned-Fresh n now (ok a) w h = Fresh-all n now w h
Returned-Fresh n now (err e) w h = tt

Returned-ok :
    (R : Unit {0} → World → Type 0) (r : Result (Unit {0})) (w : World)
    → r ≡ ok tt
    → Returned R (r, w)
    → R tt w
Returned-ok R (ok a) w e h = h
Returned-ok R (err f) w e h = cc

-- If `_prune_receipts` returns, no receipt of any of the five tables has expired by the clock that
-- it read.
pub prune_receipts-IsFresh :
    (d : Dispatcher) (w : World)
    → (prune_receipts d w).0 ≡ ok tt
    → IsFresh (d.monotonic w.log) (prune_receipts d w).1
unfolding prune_receipts drop_plan drop_home_manager drop_managed drop_flake_lock monotonic
prune_receipts-IsFresh d w returned =
    let K : ℕ → Type 0 = λ now. now ≡ d.monotonic w.log in
    let body : Yields (λ v. v ≡ w) (λ _. IsFresh (d.monotonic w.log)) (prune_receipts d) =
      Yields-bind {R = λ now _. K now} _ _ (record { at = λ v e. rw e refl })
        λ now. Yields-bind _ _ (snapshot-Left d _ now (λ v. K now) (λ v. v.pending)) λ plans.
          Yields-bind _ _
            (prune_entries-Fresh d now _ (λ v. v.pending) (λ v. K now) (λ e v. refl) (λ r v. refl)
              (λ e v h. h) (λ r v h. h) _ _ plans)
            λ _.
              Yields-bind _ _
                (snapshot-Left d _ now (UpToPlans (K now) now) (λ v. v.pending_home_manager))
                λ home_plans.
                  Yields-bind _ _
                    (prune_entries-Fresh d now _ (λ v. v.pending_home_manager)
                      (UpToPlans (K now) now) (λ e v. refl) (λ r v. refl) (λ e v h. h) (λ r v h. h)
                      _ _ home_plans)
                    λ _.
                      Yields-bind _ _
                        (snapshot-Left d _ now (UpToHomePlans (K now) now) (λ v. v.pending_managed))
                        λ managed_plans.
                          Yields-bind _ _
                            (prune_entries-Fresh d now _ (λ v. v.pending_managed)
                              (UpToHomePlans (K now) now) (λ e v. refl) (λ r v. refl) (λ e v h. h)
                              (λ r v h. h) _ _ managed_plans)
                            λ _.
                              Yields-bind _ _
                                (snapshot-Left d _ now (UpToManagedPlans (K now) now)
                                  (λ v. v.pending_flake_lock))
                                λ lock_updates.
                                  Yields-bind _ _
                                    (prune_entries-Fresh d now _ (λ v. v.pending_flake_lock)
                                      (UpToManagedPlans (K now) now) (λ e v. refl) (λ r v. refl)
                                      (λ e v h. h) (λ r v h. h) _ _ lock_updates)
                                    λ _.
                                      Yields-bind _ _
                                        (snapshot-Left d _ now (UpToLockUpdates (K now) now)
                                          (λ v. v.pending_tests))
                                        λ tests. record {
                                          at = λ v h. Returned-Fresh (d.monotonic w.log) now _ _ (
                                              (prune_tests-Fresh d now (UpToLockUpdates (K now) now)
                                                  (λ r u q. q) tests).at
                                                v h);
                                        } in
    Returned-ok _ _ _ returned (body.at w refl)
