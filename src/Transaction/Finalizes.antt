-- ===== src/Transaction/Finalizes.antt =====
-- `_finalize_validated_transaction` of transaction.py, against the files that are installed and the
-- manifest that the journal holds, however the call ends.
use nixos_control_manager.Prelude.{
  refl, ap, String, Bool, true, ◌&&◌, ◌≡◌, sym, subst, Option, none, some, List, All, ◌==◌, eq_iff,
  and_elim, ◌⊎◌, inl, inr,
}
use nixos_control_manager.Prelude.Dict.{Dict, lookup}
use nixos_control_manager.Transaction.Errors.{Failure, Outcome, ok, err, dead}
use nixos_control_manager.Transaction.State.{File, Manifest, Stored, unreadable, stored, World}
use nixos_control_manager.Transaction.Host.{Host}
use nixos_control_manager.Transaction.Exec.{gets, require}
use nixos_control_manager.Transaction.Disk.{load_manifest, loaded, is_empty}
use nixos_control_manager.Transaction.Apply.{TransactionResult}
use nixos_control_manager.Transaction.Recover.{
  Validation, verification_summary, has_evaluation, transaction_paths, finish, check_manifest,
  finalize_loaded, finalize_validated_transaction, has_mode, allows, kind_of,
}
use nixos_control_manager.Transaction.Triple.{
  Post, Triple, Triple-pure, Triple-check, Triple-modify, Triple-finally, Triple-bind, Triple-then,
  Triple-given, Triple-pre, Triple-weaken,
}
use nixos_control_manager.Transaction.Quiet
use nixos_control_manager.Transaction.Quiet.{Quiet}
use nixos_control_manager.Transaction.Installed
use nixos_control_manager.Transaction.Installed.{
  IsInstalled, Unsaved, atomic_json-Saved, verify_all_installed-All,
}
use nixos_control_manager.Transaction.Verified.{
  has_evaluation-Evaluated, is_empty-eq, allows-eq, IsVerified, concluded,
}

module _ (h : Host) (files : Dict File) (id : String) (m : Manifest) where
  -- The manifest that the journal holds.
  abbrev pub Holds : World → Type 0
  Holds w = (w.files ≡ files) × (lookup id w.manifests ≡ some (stored m))

  pub Holds-Quiet : Quiet Holds
  Holds-Quiet = record { quiet = λ n b w p. p }

  -- It is the one in memory too.
  abbrev Loaded : World → Type 0
  Loaded w = (w.files ≡ files) × (lookup id w.manifests ≡ some (stored m)) × (w.memory ≡ m)

  Loaded-Quiet : Quiet Loaded
  Loaded-Quiet = record { quiet = λ n b w p. p }

  module _ (root : String) (v : Validation) (kind : String) (fixture : Bool) where
    -- The targets have their candidates, and the transaction may be finalized.
    abbrev pub IsSound : Type 0
    IsSound = All (IsInstalled h files) m.changes × IsVerified root kind v m

    -- The journal holds the concluded manifest, rightly.
    abbrev pub Concluded : World → Type 0
    Concluded w = (lookup id w.manifests ≡ some (stored (concluded v m))) × IsSound

    abbrev Ending : World → Type 0
    Ending w = (w.files ≡ files) × ((lookup id w.manifests ≡ some (stored m)) ⊎ Concluded w)

    abbrev Done : World → Type 0
    Done w = (w.files ≡ files) × Concluded w

    Ending-Quiet : Quiet Ending
    Ending-Quiet = record { quiet = λ n b w p. p }

    Done-Quiet : Quiet Done
    Done-Quiet = record { quiet = λ n b w p. p }

    same : (w : World) → Holds w → Ending w
    same w p = (p.0, inl p.1)

    loaded_same : (w : World) → Loaded w → Ending w
    loaded_same w p = (p.0, inl p.1)

    written : IsSound → (w : World) → Installed.Either h files id m (concluded v m) w → Ending w
    written sound w (f, inl e) = (f, inl e)
    written sound w (f, inr e) = (f, inr (e, sound))

    loaded-eq :
        (o : Option Stored)
        → o ≡ some (stored m)
        → Triple Holds (λ n w. Holds w × (n ≡ m)) Ending (loaded h o)
    loaded-eq none e = cc
    loaded-eq (some unreadable) e = cc
    loaded-eq (some (stored n)) e = Triple-pure n (λ w p. (p, cc))

    load_manifest-Loaded : Triple Holds (λ n w. Loaded w × (n ≡ m)) Ending (load_manifest h id)
    unfolding load_manifest gets
    load_manifest-Loaded =
        Triple-bind {R = λ n w. Holds w × (n ≡ m)} _ _
          (Triple-bind {R = λ o w. Holds w × (o ≡ some (stored m))} _ _
            (Triple-then Holds _ _
              (Quiet.Looks-read_text h Holds Ending Holds-Quiet Ending-Quiet same)
              (record { at = λ w p. (p, p.1) }))
            λ o. Triple-given _ (λ w p. p.1) λ e. Triple-pre _ (λ w p. p.0) (loaded-eq o e))
          λ n.
            Triple-then (λ w. Loaded w × (n ≡ m)) _ _
              (Triple-modify _ (λ w p. ((p.0.0, p.0.1, p.1), p.1))) (Triple-pure n (λ w p. p))

    -- A test, and those before it.
    guard :
        (G : Type 0) (b : Bool) (e : Failure)
        → Triple (λ w. Loaded w × G) (λ _ w. Loaded w × (G × (b ≡ true))) Ending (require b e)
    guard G b e = Triple-check b e (λ w p. loaded_same w p.0) (λ k w p. (p.0, (p.1, k)))

    finish-Done :
        (paths : List String)
        → IsVerified root kind v m
        → Triple Loaded (λ _. Done) Ending (finish h id m (verification_summary v) paths fixture)
    unfolding finish
    finish-Done paths k =
        Triple-then Done _ _
          (Triple-then (λ w. Installed.Unsaved h files id m (concluded v m) w × IsSound) _ _
            (Triple-then (λ w. Loaded w × All (IsInstalled h files) m.changes) _ _
              (verify_all_installed-All h files Loaded Ending Loaded-Quiet Ending-Quiet loaded_same
                (λ w p. p.0) m.changes)
              (Triple-modify _ (λ w p. ((p.0.0, p.0.1, ap (concluded v) p.0.2), (p.1, k)))))
            (Triple-given _ (λ w p. p.1)
              λ sound.
                Triple-weaken _ (λ _ w p. (p.0, (p.1, sound))) (written sound)
                  (Triple-pre _ (λ w p. p.0) (atomic_json-Saved h files id m (concluded v m)))))
          (Triple-pure _ (λ w p. p))

    abbrev Guards : Type 0
    Guards =
        (((((((Unit {0}) × ((m.configuration_root == root) ≡ true))
                  × (has_mode m.fixture_only fixture ≡ true))
                × (allows (some kind) (kind_of m.transaction_kind) ≡ true))
              × ((m.state == "awaiting-verification") ≡ true))
            × ((v.status == "passed" && v.working_copy_removed) ≡ true))
          × (is_empty v.candidate_files ≡ true))
        × (has_evaluation v.checks ≡ true)

    Guards-IsVerified : Guards → IsVerified root kind v m
    Guards-IsVerified g =
        let (passed, removed) = and_elim (v.status == "passed") v.working_copy_removed g.0.0.1 in
        record {
          own_root = (eq_iff m.configuration_root root).0 g.0.0.0.0.0.0.1;
          own_kind = allows-eq kind (kind_of m.transaction_kind) g.0.0.0.0.1;
          awaiting = (eq_iff m.state "awaiting-verification").0 g.0.0.0.1;
          passed = (eq_iff v.status "passed").0 passed;
          removed = removed;
          no_changes = is_empty-eq v.candidate_files g.0.1;
          evaluated = has_evaluation-Evaluated v.checks g.1;
        }

    finalize_loaded-Done :
        Triple Loaded (λ _. Done) Ending (finalize_loaded h root id v kind fixture m)
    unfolding finalize_loaded check_manifest
    finalize_loaded-Done =
        Triple-then (λ w. Loaded w × Guards) _ _
          (Triple-pre _ (λ w p. (p, tt))
            (Triple-then _ _ _
              (Triple-then _ _ _
                (Triple-then _ _ _
                  (Triple-then _ _ _
                    (Triple-then _ _ _ (Triple-then _ _ _ (guard Unit _ _) (guard _ _ _))
                      (guard _ _ _))
                    (guard _ _ _))
                  (guard _ _ _))
                (guard _ _ _))
              (guard _ _ _)))
          (Triple-given _ (λ w p. p.1)
            λ g. Triple-pre _ (λ w p. p.0) (finish-Done _ (Guards-IsVerified g)))

    transaction_paths-Holds : Triple Holds (λ _. Holds) Ending (transaction_paths h root id)
    unfolding transaction_paths
    transaction_paths-Holds =
        Triple-then Holds _ _
          (Triple-then Holds _ _
            (Triple-then Holds _ _ (Triple-check _ _ same (λ _ w p. p))
              (Triple-check _ _ same (λ _ w p. p)))
            (Triple-check _ _ same (λ _ w p. p)))
          (Triple-check _ _ same (λ _ w p. p))

    finalize-Done :
        Triple Holds (λ _. Done) Ending (finalize_validated_transaction h root id v kind fixture)
    unfolding finalize_validated_transaction
    finalize-Done =
        Triple-then Holds _ _
          (Triple-then Holds _ _ transaction_paths-Holds
            (Quiet.Looks-acquire_lock h Holds Ending Holds-Quiet Ending-Quiet same))
          (Triple-finally {E = Ending} {R = λ _. Done} _ _
            (Triple-bind {R = λ n w. Loaded w × (n ≡ m)} _ _ load_manifest-Loaded λ n.
              Triple-given _ (λ w p. p.1)
                λ e.
                  Triple-pre _ (λ w p. p.0)
                    (subst
                      (λ x.
                        Triple Loaded (λ _. Done) Ending
                          (finalize_loaded h root id v kind fixture x))
                      (sym e) finalize_loaded-Done))
            (λ w p. p)
            (λ _.
              Quiet.Looks-release_lock h Done Ending Done-Quiet Ending-Quiet
                (λ w p. (p.0, inr p.1)))
            (Quiet.Looks-release_lock h Ending Ending Ending-Quiet Ending-Quiet (λ w p. p)))

    -- However it has ended, and what it has left if it returned.
    abbrev Ended : Outcome TransactionResult × World → Type 0
    Ended x =
        (x.1.files ≡ files)
        × ((lookup id x.1.manifests ≡ some (stored m)) ⊎ Concluded x.1)
        × ((result : TransactionResult) → x.0 ≡ ok result → Concluded x.1)

    Post-Ended : (x : Outcome TransactionResult × World) → Post (λ _. Done) Ending x → Ended x
    Post-Ended (ok t, w) p = (p.0, inr p.1, λ r e. p.1)
    Post-Ended (err e, w) p = (p.0, p.1, λ r q. cc)
    Post-Ended (dead, w) p = (p.0, p.1, λ r q. cc)

-- However `_finalize_validated_transaction` ends (by a return, an error or the end of the process
-- at any call) for a transaction whose manifest the journal holds, it has left every file of the
-- configuration as it was, and the journal holds the manifest as it was or the concluded one. It
-- holds the concluded one, whose state is committed, only if each of the manifest's targets has
-- content with the candidate's digest, the transaction was awaiting verification, with this root
-- and workflow, and the verification passed, removed its working copy, proposed no change, and
-- evaluated the configuration. If the call returns, it holds the concluded one.
pub finalize_validated_transaction-IsInstalled :
    (h : Host) (root id : String) (v : Validation) (kind : String) (fixture : Bool) (m : Manifest)
    (before : World)
    → lookup id before.manifests ≡ some (stored m)
    → let x = finalize_validated_transaction h root id v kind fixture before in
      (x.1.files ≡ before.files)
      × ((lookup id x.1.manifests ≡ some (stored m))
          ⊎ Concluded h before.files id m root v kind fixture x.1)
      × ((result : TransactionResult)
          → x.0 ≡ ok result
          → Concluded h before.files id m root v kind fixture x.1)
finalize_validated_transaction-IsInstalled h root id v kind fixture m before there =
    Post-Ended h before.files id m root v kind fixture
      (finalize_validated_transaction h root id v kind fixture before)
      ((finalize-Done h before.files id m root v kind fixture).at before (refl, there))
