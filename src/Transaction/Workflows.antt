-- ===== src/Transaction/Workflows.antt =====
-- The entry points of transaction.py: which plan, with which validation, each workflow applies, and
-- which transactions it finalizes, rolls back and recovers.
use nixos_control_manager.Prelude.{
  ℕ, String, Bool, true, false, not, ◌&&◌, Option, none, some, List, [], ◌∷◌, map, ◌==◌, ◌<>◌, all,
  contains,
}
use nixos_control_manager.Format.{is_sha256}
use nixos_control_manager.Transaction.Errors.{refused, Outcome}
use nixos_control_manager.Transaction.State.{Change}
use nixos_control_manager.Transaction.Host.{Host}
use nixos_control_manager.Transaction.Exec.{Exec, pure, ◌>>=◌, ◌>>◌, require}
use nixos_control_manager.Transaction.Disk.{is_empty}
use nixos_control_manager.Transaction.Apply.{
  TransactionResult, Request, candidate_sha256, apply_validated_changes, is_modify,
}
use nixos_control_manager.Transaction.Recover.{
  Validation, has_evaluation, is_passed, is_true, is_fingerprint,
}
use nixos_control_manager.Transaction.Roots.{
  Places, require_fixture_root, require_live_home_manager_root, require_live_managed_root,
}

-- The plans, the fields that transaction.py reads and those that their identities cover.
pub record AdoptionPlan : Type 0 where
  pub safe_to_apply : Bool
  pub config_root : String
  pub configuration_mode : String
  pub changes : List Change

pub record HomeManagerAdoptionPlan : Type 0 where
  pub status : String
  pub username : String
  pub integration : String
  pub root : String
  pub candidate_state : String
  pub changes : List Change

pub record ManagedPlan : Type 0 where
  pub root : String
  pub configuration_mode : String
  pub flake_target : Option String
  pub changes : List Change

-- The mapping that a plan's fingerprint is the digest of.
pub data Identity : Type 0 where
  adoption : String → String → Option String → List Change → Identity
  home_manager : String → String → String → Option String → String → List Change → Identity
  managed : String → String → Option String → List Change → Identity

-- The mapping that a caller of the flake lock's workflow gives.
pub record LockValidation : Type 0 where
  pub status : Option String
  pub working_copy_removed : Option Bool
  pub plan_fingerprint : Option String
  pub write_scope : Option (List String)

abbrev pub same_pairs : List (String × String) → List (String × String) → Bool
same_pairs [] [] = true
same_pairs ((a, b) ∷ ps) ((c, d) ∷ qs) = a == c && b == d && same_pairs ps qs
same_pairs _ _ = false

-- Neither `None` nor empty.
abbrev pub has_text : Option String → Bool
has_text none = false
has_text (some f) = not (f == "")

abbrev pub only_flake_lock : Option (List String) → Bool
only_flake_lock (some (p ∷ [])) = p == "flake.lock"
only_flake_lock _ = false

unfoldable pub lift : {T : Type 0} → Outcome T → Exec T
lift o w = (o, w)

-- `dumps`: the canonical JSON text of an identity, as bytes.
module _ (h : Host) (places : Places) (dumps : Identity → List ℕ) where
  abbrev digests : List Change → List (String × String)
  digests cs = map (λ c. (c.relative_path, candidate_sha256 h c)) cs

  -- `plan_identity`, `home_manager_plan_identity` and `managed_plan_identity`
  unfoldable pub identity : Identity → List Change → String × List (String × String)
  identity i cs = (h.digest (dumps i), digests cs)

  -- The two comparisons that end each of the three checks, before that of the root.
  unfoldable pub matches : Validation → String × List (String × String) → Bool
  matches v i = is_fingerprint h i.0 v.plan_fingerprint && same_pairs i.1 v.candidate_digests

  abbrev pub is_validated : Validation → Bool
  is_validated v =
      v.status == "passed"
      && v.working_copy_removed
      && has_text v.plan_fingerprint
      && has_evaluation v.checks

  abbrev adoption_identity : AdoptionPlan → Validation → Identity
  adoption_identity p v = adoption p.config_root p.configuration_mode v.flake_target p.changes

  -- `_validate_plan`
  unfoldable pub validate_plan : AdoptionPlan → Validation → String → Exec String
  validate_plan p v root =
      require p.safe_to_apply (refused "The adoption plan is not safe to apply")
      >> require (v.status == "passed" && has_text v.plan_fingerprint)
          (refused "A successful candidate validation is required")
      >> require (matches v (identity (adoption_identity p v) p.changes))
          (refused "The validated plan no longer matches")
      >> require (p.config_root == root)
          (refused "The adoption plan targets a different configuration root")
      >> pure (identity (adoption_identity p v) p.changes).0

  abbrev home_manager_identity : HomeManagerAdoptionPlan → Validation → Identity
  home_manager_identity p v =
      home_manager p.root p.username p.integration v.flake_target p.candidate_state p.changes

  -- `_validate_home_manager_plan`
  unfoldable pub validate_home_manager_plan :
      HomeManagerAdoptionPlan → Validation → String → Exec String
  validate_home_manager_plan p v root =
      require (p.status == "ready" && not (is_empty p.changes))
        (refused "A non-empty Home Manager adoption plan is required")
      >> require (is_validated v)
          (refused "A successful Home Manager candidate validation is required")
      >> require (matches v (identity (home_manager_identity p v) p.changes))
          (refused "The validated Home Manager plan no longer matches")
      >> require (p.root == root) (refused "The Home Manager plan targets a different fixture root")
      >> pure (identity (home_manager_identity p v) p.changes).0

  abbrev pub managed_identity : ManagedPlan → Identity
  managed_identity p = managed p.root p.configuration_mode p.flake_target p.changes

  -- `_validate_managed_plan`
  unfoldable pub validate_managed_plan : ManagedPlan → Validation → String → Exec String
  validate_managed_plan p v root =
      require (not (is_empty p.changes)) (refused "A non-empty managed plan is required")
      >> require (is_validated v) (refused "A successful managed candidate validation is required")
      >> require (matches v (identity (managed_identity p) p.changes))
          (refused "The validated managed plan no longer matches")
      >> require (p.root == root)
          (refused "The managed plan targets a different configuration root")
      >> pure (identity (managed_identity p) p.changes).0

  module _ (fault_after_commits : Option ℕ) (simulate_crash : Bool) where
    abbrev request : String → String → String → Bool → Request
    request root fingerprint kind fixture = record {
      root = root;
      fingerprint = fingerprint;
      transaction_kind = kind;
      fixture_only = fixture;
      fault_after_commits = fault_after_commits;
      simulate_crash = simulate_crash;
    }

    unfoldable pub apply_plan_in_fixture : AdoptionPlan → Validation → Exec TransactionResult
    apply_plan_in_fixture p v = lift (require_fixture_root places p.config_root) >>= λ root.
        validate_plan p v root >>= λ fingerprint.
        apply_validated_changes h (request root fingerprint "nixos-adoption" true) p.changes

    unfoldable pub apply_home_manager_plan_in_fixture :
        HomeManagerAdoptionPlan → Validation → Exec TransactionResult
    apply_home_manager_plan_in_fixture p v = lift (require_fixture_root places p.root) >>= λ root.
        validate_home_manager_plan p v root >>= λ fingerprint.
        apply_validated_changes h (request root fingerprint "home-manager-adoption" true) p.changes

    unfoldable pub apply_home_manager_plan_live :
        HomeManagerAdoptionPlan → Validation → Exec TransactionResult
    apply_home_manager_plan_live p v =
        lift (require_live_home_manager_root places p.root) >>= λ root.
        validate_home_manager_plan p v root >>= λ fingerprint.
        apply_validated_changes h (request root fingerprint "home-manager-adoption" false) p.changes

    abbrev pub is_managed_path : String → Bool
    is_managed_path p = contains ("ncm/state.json" ∷ "ncm/packages.nix" ∷ []) p

    unfoldable pub apply_managed_plan_live : ManagedPlan → Validation → Exec TransactionResult
    apply_managed_plan_live p v = lift (require_live_managed_root places p.root) >>= λ root.
        validate_managed_plan p v root >>= λ fingerprint.
        require (all (λ c. is_managed_path c.relative_path) p.changes)
          (refused "Managed transaction exceeds its exact two-file scope")
        >> apply_validated_changes h (request root fingerprint "managed-state" false) p.changes

    abbrev pub lock_scope : Change → String → String → LockValidation → String → Bool
    lock_scope c path fingerprint v root =
        c.relative_path == "flake.lock"
        && path == root <> "/flake.lock"
        && is_modify c.action
        && is_sha256 fingerprint
        && is_passed h v.status
        && is_true h v.working_copy_removed
        && is_fingerprint h fingerprint v.plan_fingerprint
        && only_flake_lock v.write_scope

    -- `change.path` is given apart.
    unfoldable pub apply_flake_lock_update_live :
        Change → String → String → String → LockValidation → Exec TransactionResult
    apply_flake_lock_update_live c path root fingerprint v =
        lift (require_live_managed_root places root) >>= λ resolved.
        require (lock_scope c path fingerprint v resolved)
          (refused "Flake lock transaction exceeds its exact one-file scope")
        >> apply_validated_changes h (request resolved fingerprint "flake-lock-update" false)
            (c ∷ [])
