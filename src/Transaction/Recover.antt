-- ===== src/Transaction/Recover.antt =====
-- Finalizing, rolling back and recovering a transaction, in transaction.py. The configuration's root
-- is the path that `_transaction_root` has returned.
use nixos_control_manager.Prelude.{
  String, Bool, true, false, not, ◌&&◌, ◌||◌, Option, none, some, List, [], ◌∷◌, map, ◌==◌, ◌++◌,
  is_some,
}
use nixos_control_manager.Prelude.Dict.{lookup}
use nixos_control_manager.Format.{is_transaction_id}
use nixos_control_manager.Transaction.Errors.{
  Failure, journal_link, journal_inside, crosses_link, installed_missing, installed_changed,
  invalid_identifier, other_root, other_mode, other_workflow, wrong_state, unverified,
  extra_changes, no_evaluation, needs_attention, refused,
}
use nixos_control_manager.Transaction.State.{
  Check, Verification, summary, mapping, Entry, Manifest, World, is_finished,
}
use nixos_control_manager.Transaction.Host.{Host}
use nixos_control_manager.Transaction.Exec.{
  Exec, pure, raise, require, ◌>>=◌, ◌>>◌, if◌then◌else◌, catch, finally, modify_state, gets,
}
use nixos_control_manager.Transaction.Disk.{
  is_file, set_memory, safe_target, atomic_json, load_manifest, acquire_lock, release_lock,
  target_digest, set_state, is_empty,
}
use nixos_control_manager.Transaction.Restore.{same_digest, restore_from_manifest}
use nixos_control_manager.Transaction.Apply.{TransactionResult, result}
use text.Mathlib.Text.{starts_with}

-- `CandidateValidation`, the fields that transaction.py reads.
pub record Validation : Type 0 where
  pub status : String
  pub flake_target : Option String
  pub candidate_files : List String
  pub checks : List Check
  pub plan_fingerprint : Option String
  pub candidate_digests : List (String × String)
  pub working_copy_removed : Bool

abbrev pub verification_summary : Validation → Verification
verification_summary v = summary v.status v.flake_target v.working_copy_removed v.checks

-- `check.status == "passed" and check.name.startswith("Evaluate")`, of any check
unfoldable pub has_evaluation : List Check → Bool
has_evaluation [] = false
has_evaluation (c ∷ cs) = c.status == "passed" && starts_with c.name "Evaluate" || has_evaluation cs

-- `manifest.get("transactionKind", "nixos-adoption")`
abbrev pub kind_of : Option String → String
kind_of none = "nixos-adoption"
kind_of (some k) = k

-- `manifest.get("fixtureOnly", True) is fixture_only`
abbrev pub has_mode : Option Bool → Bool → Bool
has_mode none fixture = fixture
has_mode (some true) fixture = fixture
has_mode (some false) fixture = not fixture

-- A filter that is absent lets everything through.
abbrev pub allows : Option String → String → Bool
allows none k = true
allows (some wanted) k = k == wanted

abbrev pub valid_identifier : Option String → Bool
valid_identifier none = true
valid_identifier (some id) = is_transaction_id id

abbrev pub entry_paths : Manifest → List String
entry_paths m = map (λ e. e.path) m.changes

module _ (h : Host) where
  -- `_transaction_paths`
  unfoldable pub transaction_paths : String → String → Exec (Unit {0})
  transaction_paths root id =
      require (is_transaction_id id) invalid_identifier
      >> require (not h.journal_is_link) journal_link
      >> require (not (h.journal_is_inside root)) journal_inside
      >> require (not (h.is_journal_link id)) journal_link

  unfoldable pub verify_installed : Entry → Exec (Unit {0})
  verify_installed e = safe_target h e.path >> gets (is_file e.path) >>= λ there.
      require there (installed_missing e.path) >> target_digest h e.path >>= λ d.
      require (same_digest d (some e.candidate_sha256)) (installed_changed e.path)

  -- `_verify_installed_candidates`
  unfoldable pub verify_all_installed : List Entry → Exec (Unit {0})
  verify_all_installed [] = pure tt
  verify_all_installed (e ∷ es) = verify_installed e >> verify_all_installed es

  abbrev pub conclude : Verification → Manifest → Manifest
  conclude v m = record m { post_verification = some v; state = "committed" }

  -- The end of both finalizing functions.
  unfoldable pub finish :
      String → Manifest → Verification → List String → Bool → Exec TransactionResult
  finish id m v files fixture =
      verify_all_installed m.changes
      >> modify_state (set_memory (conclude v))
      >> atomic_json h id
      >> pure (result h id "committed" files fixture)

  unfoldable pub check_manifest : String → Bool → Option String → Manifest → Exec (Unit {0})
  check_manifest root fixture kind m =
      require (m.configuration_root == root) other_root
      >> require (has_mode m.fixture_only fixture) other_mode
      >> require (allows kind (kind_of m.transaction_kind)) other_workflow

  unfoldable pub finalize_loaded :
      String → String → Validation → String → Bool → Manifest → Exec TransactionResult
  finalize_loaded root id v kind fixture m =
      check_manifest root fixture (some kind) m
      >> require (m.state == "awaiting-verification") (wrong_state m.state)
      >> require (v.status == "passed" && v.working_copy_removed) unverified
      >> require (is_empty v.candidate_files) extra_changes
      >> require (has_evaluation v.checks) no_evaluation
      >> finish id m (verification_summary v) (entry_paths m) fixture

  -- `_finalize_validated_transaction`
  unfoldable pub finalize_validated_transaction :
      String → String → Validation → String → Bool → Exec TransactionResult
  finalize_validated_transaction root id v kind fixture =
      transaction_paths root id
      >> acquire_lock h
      >> finally (load_manifest h id >>= finalize_loaded root id v kind fixture) (release_lock h)

  abbrev pub is_passed : Option String → Bool
  is_passed none = false
  is_passed (some s) = s == "passed"

  abbrev pub is_true : Option Bool → Bool
  is_true none = false
  is_true (some b) = b

  abbrev pub is_fingerprint : String → Option String → Bool
  is_fingerprint f none = false
  is_fingerprint f (some g) = g == f

  abbrev passed_mapping : String → Verification → Bool
  passed_mapping f (mapping status removed fingerprint) =
      is_passed status && is_true removed && is_fingerprint f fingerprint
  passed_mapping f (summary status target removed checks) = false

  unfoldable pub finalize_flake_loaded :
      String → String → String → Verification → Manifest → Exec TransactionResult
  finalize_flake_loaded root id fingerprint v m =
      require
        (m.configuration_root == root
          && has_mode m.fixture_only false
          && is_fingerprint "flake-lock-update" m.transaction_kind
          && m.plan_fingerprint == fingerprint
          && m.state == "awaiting-verification")
        (refused "Flake lock transaction cannot be finalized")
      >> require (passed_mapping fingerprint v) unverified
      >> finish id m v ("flake.lock" ∷ []) false

  -- `finalize_flake_lock_live_transaction`
  unfoldable pub finalize_flake_lock_live_transaction :
      String → String → String → Verification → Exec TransactionResult
  finalize_flake_lock_live_transaction root id fingerprint v =
      transaction_paths root id
      >> acquire_lock h
      >> finally (load_manifest h id >>= finalize_flake_loaded root id fingerprint v)
          (release_lock h)

  -- The `except` of both restoring functions.
  unfoldable pub need_attention : String → String → Failure → Exec (Unit {0})
  need_attention id named e =
      modify_state
        (set_memory (λ m. record m { state = "recovery-required"; recovery_error = some e }))
      >> atomic_json h id
      >> raise (needs_attention named e)

  abbrev pub rolling_back : Failure → Option Verification → Manifest → Manifest
  rolling_back reason v m = record m {
    state = "rolling-back";
    error = some reason;
    post_verification = v;
  }

  unfoldable pub roll_back_loaded :
      String
      → String
      → Failure
      → Option Verification
      → Bool
      → Option String
      → Manifest
      → Exec TransactionResult
  roll_back_loaded root id reason v fixture kind m =
      check_manifest root fixture kind m
      >> require (not (is_finished m.state)) (wrong_state m.state)
      >> modify_state (set_memory (rolling_back reason v))
      >> atomic_json h id
      >> catch (restore_from_manifest h id) (need_attention id id)
      >> set_state "rolled-back"
      >> atomic_json h id
      >> pure (result h id "rolled-back" (entry_paths m) fixture)

  -- `_rollback_transaction`
  unfoldable pub rollback_transaction :
      String
      → String
      → Failure
      → Option Verification
      → Bool
      → Option String
      → Exec TransactionResult
  rollback_transaction root id reason v fixture kind =
      transaction_paths root id
      >> acquire_lock h
      >> finally (load_manifest h id >>= roll_back_loaded root id reason v fixture kind)
          (release_lock h)

  abbrev pub Recovered : Type 0
  Recovered = List TransactionResult

  unfoldable pub restore_pending : String → Bool → Manifest → Exec Recovered
  restore_pending id fixture m =
      set_state "recovering"
      >> atomic_json h id
      >> catch (restore_from_manifest h id) (need_attention id m.transaction_id)
      >> set_state "recovered"
      >> atomic_json h id
      >> pure (result h m.transaction_id "recovered" (entry_paths m) fixture ∷ [])

  -- A transaction of another mode or workflow is an error where it was asked for by its identifier.
  unfoldable pub skip_unless_named : Bool → Failure → Exec Recovered
  skip_unless_named is_named e = if is_named then raise e else pure []

  unfoldable pub recover_loaded :
      String → String → Bool → Option String → Bool → Manifest → Exec Recovered
  recover_loaded root id is_named kind fixture m =
      if not (m.configuration_root == root)
      then pure []
      else if not (has_mode m.fixture_only fixture)
      then skip_unless_named is_named other_mode
      else if not (allows kind (kind_of m.transaction_kind))
      then skip_unless_named is_named other_workflow
      else if is_finished m.state
      then pure []
      else restore_pending id fixture m

  abbrev has_manifest : String → World → Bool
  has_manifest id w = is_some (lookup id w.manifests)

  unfoldable pub recover_folder : String → Bool → Option String → Bool → String → Exec Recovered
  recover_folder root is_named kind fixture id =
      require (not (h.is_journal_link id)) (crosses_link id) >> gets (has_manifest id) >>= λ there.
      if there then load_manifest h id >>= recover_loaded root id is_named kind fixture else pure []

  unfoldable pub recover_folders :
      String → Option String → Option String → Bool → List String → Exec Recovered
  recover_folders root wanted kind fixture [] = pure []
  recover_folders root wanted kind fixture (id ∷ ids) =
      (if allows wanted id then recover_folder root (is_some wanted) kind fixture id else pure [])
      >>= λ recovered.
          recover_folders root wanted kind fixture ids >>= λ rest. pure (recovered ++ rest)

  -- `_recover_pending_transactions`
  unfoldable pub recover_pending_transactions :
      String → Option String → Option String → Bool → Exec Recovered
  recover_pending_transactions root wanted kind fixture =
      require (valid_identifier wanted) invalid_identifier
      >> require (not h.journal_is_link) journal_link
      >> (if h.journal_exists
          then acquire_lock h
            >> finally (gets (λ w. h.sorted w.folders) >>= recover_folders root wanted kind fixture)
                (release_lock h)
          else pure [])
