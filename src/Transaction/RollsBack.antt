-- ===== src/Transaction/RollsBack.antt =====
-- `_rollback_transaction` of transaction.py, for one change among the others.
use nixos_control_manager.Prelude.{String, Bool, true, false, not, ◌≡◌, refl, Option, none}
use nixos_control_manager.Transaction.Errors.{Failure}
use nixos_control_manager.Transaction.State.{Verification, Manifest, World}
use nixos_control_manager.Transaction.Host.{Host}
use nixos_control_manager.Transaction.Recover.{
  transaction_paths, check_manifest, roll_back_loaded, rollback_transaction,
}
use nixos_control_manager.Transaction.Triple.{
  Triple, Triple-check, Triple-weaken, Triple-finally, Triple-bind, Triple-then, Triple-given,
}
use nixos_control_manager.Transaction.Focus.{Label, is_away_from_itself}
use nixos_control_manager.Transaction.Stays
use nixos_control_manager.Transaction.Quiet.{Quiet, Looks-acquire_lock, Looks-release_lock}
use nixos_control_manager.Transaction.Fine.{Subject, Fine, Now}
use nixos_control_manager.Transaction.Recoverable.{
  Recoverable, Settled, Recoverable-Quiet, Settled-Quiet,
}
use nixos_control_manager.Transaction.Recovers.{
  write_final-Settled, restore-Back, recoverable, Loaded, Loaded-Recoverable, Loaded-Now,
  load_manifest-Loaded,
}

module _ (h : Host) (l : Label) (s : Subject) (own : is_away_from_itself h l.id s.entry ≡ true)
    (root : String) (reason : Failure) (v : Option Verification) (fixture : Bool)
    (kind : Option String) where
  abbrev Rec : World → Type 0
  Rec = Recoverable h l s

  abbrev Set : World → Type 0
  Set = Settled h l s

  quiet : Quiet Rec
  quiet = Recoverable-Quiet h l s

  check_manifest-Loaded :
      (m : Manifest)
      → Triple
          (Loaded h l s own m)
          (λ _. Loaded h l s own m)
          Rec
          (check_manifest h root fixture kind m)
  unfolding check_manifest
  check_manifest-Loaded m =
      Triple-then (Loaded h l s own m) _ _
        (Triple-then (Loaded h l s own m) _ _
          (Triple-check _ _ (Loaded-Recoverable h l s own m) (λ _ w p. p))
          (Triple-check _ _ (Loaded-Recoverable h l s own m) (λ _ w p. p)))
        (Triple-check _ _ (Loaded-Recoverable h l s own m) (λ _ w p. p))

  unfinished : (b : Bool) → not b ≡ true → b ≡ false
  unfinished true e = cc
  unfinished false e = refl

  roll_back_loaded-Settled :
      (m : Manifest)
      → Triple
          (Loaded h l s own m)
          (λ _. Set)
          Rec
          (roll_back_loaded h root l.id reason v fixture kind m)
  unfolding roll_back_loaded
  roll_back_loaded-Settled m =
      Triple-given _ (λ w p. p.0)
        λ u. write_final-Settled h l s own u _ _ _ (
          Triple-then (Now h l s (Fine s)) _ _
            (Triple-then (Now h l s (Fine s)) _ _
              (Triple-then (Now h l s (Fine s)) _ _
                (Triple-then (Loaded h l s own m) _ _ (check_manifest-Loaded m) (
                  Triple-check _ _ (Loaded-Recoverable h l s own m)
                    λ e. Loaded-Now h l s own m (unfinished _ e)))
                (Triple-weaken _ (λ _ w p. p) (recoverable h l s own u)
                  (Stays.state-Held h l s.entry false (Fine s) _
                    (λ n p. (false, ((p.1.0.0, p.1.0.1, refl), λ e. e))))))
              (Triple-weaken _ (λ _ w p. p) (recoverable h l s own u)
                (Stays.Stays-atomic_json h l s.entry false (Fine s))))
            (restore-Back h l s own u _))

  transaction_paths-Recoverable : Triple Rec (λ _. Rec) Rec (transaction_paths h root l.id)
  unfolding transaction_paths
  transaction_paths-Recoverable =
      Triple-then Rec _ _
        (Triple-then Rec _ _
          (Triple-then Rec _ _ (Triple-check _ _ (λ w p. p) (λ _ w p. p))
            (Triple-check _ _ (λ w p. p) (λ _ w p. p)))
          (Triple-check _ _ (λ w p. p) (λ _ w p. p)))
        (Triple-check _ _ (λ w p. p) (λ _ w p. p))

  pub rollback-Settled :
      Triple Rec (λ _. Set) Rec (rollback_transaction h root l.id reason v fixture kind)
  unfolding rollback_transaction
  rollback-Settled =
      Triple-then Rec _ _
        (Triple-then Rec _ _ transaction_paths-Recoverable
          (Looks-acquire_lock h Rec Rec quiet quiet (λ w p. p)))
        (Triple-finally {E = Rec} {R = λ _. Set} _ _
          (Triple-bind {R = Loaded h l s own} _ _
            (load_manifest-Loaded h l s own none l.fixture refl refl) roll_back_loaded-Settled)
          (λ w p. p) (λ _. Looks-release_lock h Set Rec (Settled-Quiet h l s) quiet (λ w p. p.1))
          (Looks-release_lock h Rec Rec quiet quiet (λ w p. p)))
