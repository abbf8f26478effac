-- ===== src/Helper/Sound/Prune.antt =====
-- The dispatcher's invariant and `_prune_receipts` of helper_service.py.
use nixos_control_manager.Prelude.{ℕ, String, ◌≡◌, refl, Option, none, some, [], ◌∷◌}
use nixos_control_manager.Prelude.Dict.{Dict, AllValues-erase}
use nixos_control_manager.Helper.Target.{Target}
use nixos_control_manager.Helper.State.{Dispatcher, World, Call, Pending, PendingTestActivation}
use nixos_control_manager.Helper.Prune.{discard, prune_entries, prune_tests, prune_receipts}
use nixos_control_manager.Helper.Holds.{
  Holds, Holds-pure, Holds-if, Holds-gets, Holds-modify, Holds-bind,
}
use nixos_control_manager.Helper.Sanction.{
  consent, IsPermitted, IsPlanFor, IsHomePlanFor, IsManagedPlanFor, IsLockUpdateFor, Ready,
  ReadyTest, IsSound,
}
use nixos_control_manager.Helper.Sound.{same, monotonic-IsSound, call-IsSound}
use nixos_control_manager.Helper.Sound.Tables.{
  with_plans, with_home_plans, with_managed_plans, with_lock_updates, with_tests,
}

module _ (d : Dispatcher) where
  discard-IsSound :
      (o : Option Target) (c : Target → Call)
      → ((t : Target) → IsPermitted d (c t))
      → ((t : Target) → consent (c t) ≡ none)
      → Holds (IsSound d) (IsSound d) (discard d o c)
  unfolding discard
  discard-IsSound none c p e = Holds-pure _
  discard-IsSound (some t) c p e =
      Holds-if _ _ _ (λ _. Holds-bind (same _) _ _ (call-IsSound d _ (p t) (e t)) λ _. Holds-pure _)
        λ _. Holds-pure _

  module _ {P : Type 0} (now : ℕ) (drop : String → World → World) (target_of : P → String)
      (c : Target → P → ℕ → Call)
      (keeps : (r : String) (w : World) → IsSound d w → IsSound d (drop r w))
      (permitted : (t : Target) (p : P) (uid : ℕ) → IsPermitted d (c t p uid))
      (free : (t : Target) (p : P) (uid : ℕ) → consent (c t p uid) ≡ none) where
    prune_entries-IsSound :
        (entries : Dict (Pending P))
        → Holds (IsSound d) (IsSound d) (prune_entries d now drop target_of c entries)
    unfolding prune_entries
    prune_entries-IsSound [] = Holds-pure _
    prune_entries-IsSound ((r, p) ∷ entries) =
        Holds-bind (same _) _ _
          (Holds-if _ _ _
            (λ _. Holds-bind (same _) _ _ (Holds-modify _ (keeps r)) λ _.
              discard-IsSound _ _ (λ t. permitted t p.payload p.peer_uid)
                λ t. free t p.payload p.peer_uid)
            λ _. Holds-pure _)
          λ _. prune_entries-IsSound entries

  prune_tests-IsSound :
      (now : ℕ) (entries : Dict PendingTestActivation)
      → Holds (IsSound d) (IsSound d) (prune_tests d now entries)
  unfolding prune_tests
  prune_tests-IsSound now [] = Holds-pure _
  prune_tests-IsSound now ((r, p) ∷ entries) =
      Holds-bind (same _) _ _
        (Holds-if _ _ _
          (λ _.
            Holds-modify _
              λ w h. with_tests d h _ (AllValues-erase (ReadyTest d) r w.pending_tests h.tests))
          λ _. Holds-pure _)
        λ _. prune_tests-IsSound now entries

  pub prune_receipts-IsSound : Holds (IsSound d) (IsSound d) (prune_receipts d)
  unfolding prune_receipts
  prune_receipts-IsSound = Holds-bind (same _) _ _ (monotonic-IsSound d) λ now.
      Holds-gets (λ _. Unit {0}) _ _ (λ w h. tt)
        λ plans _.
          Holds-bind (same _) _ _
            (prune_entries-IsSound now _ _ _
              (λ r w h.
                with_plans d h _ (AllValues-erase (Ready d (IsPlanFor d)) r w.pending h.plans))
              (λ t p uid. tt) (λ t p uid. refl) plans)
            λ _.
              Holds-gets (λ _. Unit {0}) _ _ (λ w h. tt)
                λ home_plans _.
                  Holds-bind (same _) _ _
                    (prune_entries-IsSound now _ _ _
                      (λ r w h. with_home_plans d h _ (
                        AllValues-erase (Ready d (IsHomePlanFor d)) r w.pending_home_manager
                          h.home_plans))
                      (λ t p uid. tt) (λ t p uid. refl) home_plans)
                    λ _.
                      Holds-gets (λ _. Unit {0}) _ _ (λ w h. tt)
                        λ managed_plans _.
                          Holds-bind (same _) _ _
                            (prune_entries-IsSound now _ _ _
                              (λ r w h. with_managed_plans d h _ (
                                AllValues-erase (Ready d (IsManagedPlanFor d)) r w.pending_managed
                                  h.managed_plans))
                              (λ t p uid. tt) (λ t p uid. refl) managed_plans)
                            λ _.
                              Holds-gets (λ _. Unit {0}) _ _ (λ w h. tt)
                                λ lock_updates _.
                                  Holds-bind (same _) _ _
                                    (prune_entries-IsSound now _ _ _
                                      (λ r w h. with_lock_updates d h _ (
                                        AllValues-erase (Ready d (IsLockUpdateFor d)) r
                                          w.pending_flake_lock h.lock_updates))
                                      (λ t p uid. tt) (λ t p uid. refl) lock_updates)
                                    λ _.
                                      Holds-gets (λ _. Unit {0}) _ _ (λ w h. tt)
                                        λ tests _. prune_tests-IsSound now tests
