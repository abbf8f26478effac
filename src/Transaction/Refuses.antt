-- ===== src/Transaction/Refuses.antt =====
-- `_rollback_transaction` of transaction.py, for a transaction that is in a final state.
use nixos_control_manager.Prelude.{
  String, Bool, true, false, not, ◌≡◌, refl, sym, subst, ap, ◌∙◌, Option, none, some, ◌≢◌,
}
use nixos_control_manager.Prelude.Dict.{Dict, lookup}
use nixos_control_manager.Transaction.Errors.{Failure, Outcome, ok, err, dead}
use nixos_control_manager.Transaction.State.{
  File, Verification, Manifest, Stored, unreadable, stored, World, is_finished,
}
use nixos_control_manager.Transaction.Host.{Host}
use nixos_control_manager.Transaction.Exec.{Exec, gets}
use nixos_control_manager.Transaction.Disk.{load_manifest, loaded}
use nixos_control_manager.Transaction.Apply.{TransactionResult}
use nixos_control_manager.Transaction.Recover.{
  transaction_paths, check_manifest, roll_back_loaded, rollback_transaction,
}
use nixos_control_manager.Transaction.Triple.{
  Post, Triple, Triple-pure, Triple-check, Triple-modify, Triple-finally, Triple-bind, Triple-then,
  Triple-given, Triple-pre,
}
use nixos_control_manager.Transaction.Quiet
use nixos_control_manager.Transaction.Finalizes.{Holds, Holds-Quiet}

module _ (h : Host) (files : Dict File) (id : String) (m : Manifest)
    (finished : is_finished m.state ≡ true) where
  abbrev Kept : World → Type 0
  Kept = Holds h files id m

  abbrev Never : World → Type 0
  Never w = ⊥

  never : {T : Type 0} (n : Exec T) (R : T → World → Type 0) → Triple Never R Kept n
  never n R = record { at = λ w p. elim p [ ] }

  loaded-Kept :
      (o : Option Stored)
      → o ≡ some (stored m)
      → Triple Kept (λ n w. Kept w × (n ≡ m)) Kept (loaded h o)
  loaded-Kept none e = cc
  loaded-Kept (some unreadable) e = cc
  loaded-Kept (some (stored n)) e = Triple-pure n (λ w p. (p, cc))

  load_manifest-Kept : Triple Kept (λ n w. Kept w × (n ≡ m)) Kept (load_manifest h id)
  unfolding load_manifest gets
  load_manifest-Kept =
      Triple-bind {R = λ n w. Kept w × (n ≡ m)} _ _
        (Triple-bind {R = λ o w. Kept w × (o ≡ some (stored m))} _ _
          (Triple-then Kept _ _
            (Quiet.Looks-read_text h Kept Kept (Holds-Quiet h files id m) (Holds-Quiet h files id m)
              (λ w p. p))
            (record { at = λ w p. (p, p.1) }))
          λ o. Triple-given _ (λ w p. p.1) λ e. Triple-pre _ (λ w p. p.0) (loaded-Kept o e))
        λ n.
          Triple-then (λ w. Kept w × (n ≡ m)) _ _ (Triple-modify _ (λ w p. p))
            (Triple-pure n (λ w p. p))

  module _ (root : String) (reason : Failure) (v : Option Verification) (fixture : Bool)
      (kind : Option String) where
    absurd : (b : Bool) → b ≡ true → not b ≡ true → ⊥
    absurd b e n = let wrong : false ≡ true = ap not (sym e) ∙ n in cc

    roll_back_loaded-Kept :
        Triple Kept (λ _. Never) Kept (roll_back_loaded h root id reason v fixture kind m)
    unfolding roll_back_loaded check_manifest
    roll_back_loaded-Kept =
        Triple-then Never _ _
          (Triple-then Never _ _
            (Triple-then Never _ _
              (Triple-then Never _ _
                (Triple-then Never _ _
                  (Triple-then Never _ _
                    (Triple-then Kept _ _
                      (Triple-then Kept _ _
                        (Triple-then Kept _ _ (Triple-check _ _ (λ w p. p) (λ _ w p. p))
                          (Triple-check _ _ (λ w p. p) (λ _ w p. p)))
                        (Triple-check _ _ (λ w p. p) (λ _ w p. p)))
                      (Triple-check _ _ (λ w p. p) (λ e w p. absurd _ finished e)))
                    (never _ _))
                  (never _ _))
                (never _ _))
              (never _ _))
            (never _ _))
          (never _ _)

    rollback-Kept :
        Triple Kept (λ _. Never) Kept (rollback_transaction h root id reason v fixture kind)
    unfolding rollback_transaction transaction_paths
    rollback-Kept =
        let q = Holds-Quiet h files id m in
        Triple-then Kept _ _
          (Triple-then Kept _ _
            (Triple-then Kept _ _
              (Triple-then Kept _ _
                (Triple-then Kept _ _ (Triple-check _ _ (λ w p. p) (λ _ w p. p))
                  (Triple-check _ _ (λ w p. p) (λ _ w p. p)))
                (Triple-check _ _ (λ w p. p) (λ _ w p. p)))
              (Triple-check _ _ (λ w p. p) (λ _ w p. p)))
            (Quiet.Looks-acquire_lock h Kept Kept q q (λ w p. p)))
          (Triple-finally {E = Kept} {R = λ _. Never} _ _
            (Triple-bind {R = λ n w. Kept w × (n ≡ m)} _ _ load_manifest-Kept λ n.
              Triple-given _ (λ w p. p.1)
                λ e.
                  Triple-pre _ (λ w p. p.0)
                    (subst
                      (λ x.
                        Triple Kept (λ _. Never) Kept
                          (roll_back_loaded h root id reason v fixture kind x))
                      (sym e) roll_back_loaded-Kept))
            (λ w p. p) (λ _. never _ _) (Quiet.Looks-release_lock h Kept Kept q q (λ w p. p)))

no_result :
    {T : Type 0} (E : World → Type 0) (x : Outcome T × World)
    → Post (λ _ _. ⊥) E x
    → ((t : T) → x.0 ≢ ok t) × E x.1
no_result E (ok t, w) p = elim p [ ]
no_result E (err e, w) p = (λ t q. cc, p)
no_result E (dead, w) p = (λ t q. cc, p)

-- A transaction whose manifest the journal holds in a final state (committed, rolled back or
-- recovered) cannot be rolled back: `_rollback_transaction` never returns for it, and leaves every
-- file of the configuration and the manifest as they were.
pub rollback_transaction-is_finished :
    (h : Host) (root id : String) (reason : Failure) (v : Option Verification) (fixture : Bool)
    (kind : Option String) (m : Manifest) (before : World)
    → is_finished m.state ≡ true
    → lookup id before.manifests ≡ some (stored m)
    → ((result : TransactionResult)
        → (rollback_transaction h root id reason v fixture kind before).0 ≢ ok result)
      × (((rollback_transaction h root id reason v fixture kind before).1.files ≡ before.files)
          × (lookup id (rollback_transaction h root id reason v fixture kind before).1.manifests
              ≡ some (stored m)))
rollback_transaction-is_finished h root id reason v fixture kind m before finished there =
    no_result (Holds h before.files id m)
      (rollback_transaction h root id reason v fixture kind before)
      ((rollback-Kept h before.files id m finished root reason v fixture kind).at before
        (refl, there))
