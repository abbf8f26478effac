-- ===== src/Helper/Prune.antt =====
-- `_prune_receipts` of helper_service.py: expired entries are dropped, and the backend is told.
use nixos_control_manager.Prelude.{ℕ, String, Option, none, some, [], ◌∷◌, leb}
use nixos_control_manager.Prelude.Dict.{Dict, lookup, erase}
use nixos_control_manager.Helper.Target.{Target}
use nixos_control_manager.Helper.State.{
  Dispatcher, World, Exec, Call, Pending, PendingTestActivation, pure, gets, modify, call,
  monotonic, ◌>>=◌, ◌>>◌, if◌then◌else◌, discard_validated_plan,
  discard_validated_home_manager_plan, discard_validated_managed_plan,
  discard_validated_flake_lock_update,
}

module _ (d : Dispatcher) where
  -- The call of an optional method, where the target is known and the backend has the method.
  unfoldable pub discard : Option Target → (Target → Call) → Exec (Unit {0})
  discard none c = pure tt
  discard (some t) c = if d.has_discard (c t) then call d (c t) >> pure tt else pure tt

  module _ {P : Type 0} (now : ℕ) (drop : String → World → World) where
    -- The loop over one table of receipts, on a snapshot of its entries.
    unfoldable pub prune_entries :
        (P → String) → (Target → P → ℕ → Call) → Dict (Pending P) → Exec (Unit {0})
    prune_entries target_of c [] = pure tt
    prune_entries target_of c ((receipt, p) ∷ entries) = do
      if leb p.expires_at now
          then modify (drop receipt)
            >> discard (lookup (target_of p.payload) d.targets) (λ t. c t p.payload p.peer_uid)
          else pure tt
      prune_entries target_of c entries

  -- The loop over the test receipts, which have no discard method.
  unfoldable pub prune_tests : ℕ → Dict PendingTestActivation → Exec (Unit {0})
  prune_tests now [] = pure tt
  prune_tests now ((receipt, p) ∷ entries) = do
    if leb p.expires_at now
        then modify (λ w. record w { pending_tests = erase receipt w.pending_tests })
        else pure tt
    prune_tests now entries

  unfoldable pub drop_plan : String → World → World
  drop_plan r w = record w { pending = erase r w.pending }

  unfoldable pub drop_home_manager : String → World → World
  drop_home_manager r w = record w { pending_home_manager = erase r w.pending_home_manager }

  unfoldable pub drop_managed : String → World → World
  drop_managed r w = record w { pending_managed = erase r w.pending_managed }

  unfoldable pub drop_flake_lock : String → World → World
  drop_flake_lock r w = record w { pending_flake_lock = erase r w.pending_flake_lock }

  -- `_prune_receipts`
  unfoldable pub prune_receipts : Exec (Unit {0})
  unfolding drop_plan drop_home_manager drop_managed drop_flake_lock
  prune_receipts = do
    now ← monotonic d
    plans ← gets (λ w. w.pending)
    prune_entries now drop_plan (λ p. p.target_id) discard_validated_plan plans
    home_plans ← gets (λ w. w.pending_home_manager)
    prune_entries now drop_home_manager (λ p. p.target_id) discard_validated_home_manager_plan
        home_plans
    managed_plans ← gets (λ w. w.pending_managed)
    prune_entries now drop_managed (λ p. p.target_id) discard_validated_managed_plan managed_plans
    lock_updates ← gets (λ w. w.pending_flake_lock)
    prune_entries now drop_flake_lock (λ p. p.target_id) discard_validated_flake_lock_update
        lock_updates
    tests ← gets (λ w. w.pending_tests)
    prune_tests now tests
