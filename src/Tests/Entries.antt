-- ===== src/Tests/Entries.antt =====
-- A finalized transaction of transaction.py and two entry points, and the theorems applied to them.
use nixos_control_manager.Transaction.Refuses.{rollback_transaction-is_finished}
use nixos_control_manager.Prelude.{String, true, false, ◌≡◌, refl, ◌≢◌, none, some, [], ◌∷◌}
use nixos_control_manager.Format.{codes, is_transaction_id, is_sha256, repeated, hex}
use nixos_control_manager.Transaction.State.{
  Content, File, create, Change, committed, Manifest, stored, World,
}
use nixos_control_manager.Transaction.Apply.{result, TransactionResult}
use nixos_control_manager.Transaction.Errors.{Outcome, ok, injected}
use nixos_control_manager.Transaction.Recover.{Validation}
use nixos_control_manager.Transaction.Finalizes.{
  Concluded, finalize_validated_transaction-IsInstalled,
}
use nixos_control_manager.Prelude.Dict.{Dict, lookup, insert, erase}
use nixos_control_manager.Transaction.State.{set_status}
use nixos_control_manager.Transaction.Exec.{
  pure, raise, if◌then◌else◌, ◌>>=◌, catch, finally, require, modify_state, gets, perform,
}
use nixos_control_manager.Transaction.Disk.{
  crosses, safe_label, safe_target, safe_backup, sync_directory, replace, write_temporary,
  remove_temporary, atomic_json, read_text, load_manifest, acquire_lock, release_lock, digest_of,
  target_digest, backup_digest, copy_to_backup, copy_from_backup, sync_file, write_stage, unlink,
  stat_mode, make_directories, create_parents, remove_directory, mark, set_state,
}
use nixos_control_manager.Transaction.Restore.{
  same_digest, leave, mark_restored, put_back, put_back_from, restore_modified, restore_created,
  restore_by, restore_entry, restore_entries, unlink_stage, unlink_stages, remove_directories,
  cleanup, restore_from_manifest,
}
use nixos_control_manager.Transaction.Apply.{
  is_valid_fault, is_fault, plan_from, check_state, verify_change, verify_changes, back_up, prepare,
  prepare_all, inject, commit, commit_all, begin, prepare_and_commit, give_up, undo, on_failure,
  apply_validated_changes,
}
use nixos_control_manager.Transaction.Recover.{
  has_evaluation, transaction_paths, verify_installed, verify_all_installed, finish, check_manifest,
  finalize_loaded, finalize_validated_transaction, finalize_flake_loaded,
  finalize_flake_lock_live_transaction, need_attention, roll_back_loaded, rollback_transaction,
  restore_pending, skip_unless_named, recover_loaded, recover_folder, recover_folders,
  recover_pending_transactions,
}
use nixos_control_manager.Tests.Transaction.{id, host, faultless, before, change_a}
use nixos_control_manager.Transaction.Roots.{
  Places, Marker, require_live_managed_root, safe_managed_root, check_managed_path, is_live,
}
use nixos_control_manager.Transaction.Workflows.{
  validate_managed_plan, matches, identity, lift, ManagedPlan, LockValidation, Identity,
  apply_managed_plan_live, apply_flake_lock_update_live,
}

abbrev validation : Validation
validation = record {
  status = "passed";
  flake_target = none;
  candidate_files = [];
  checks =
      record { name = "Evaluate system"; status = "passed"; exit_code = some 0; duration_ms = 5 }
      ∷ [];
  plan_fingerprint = some "f";
  candidate_digests = [];
  working_copy_removed = true;
}

-- A transaction of one change that awaits its verification.
abbrev waiting : Manifest
waiting = record {
  transaction_id = id;
  configuration_root = "/fixture";
  transaction_kind = some "nixos-adoption";
  fixture_only = some true;
  plan_fingerprint = "f";
  state = "awaiting-verification";
  created_directories = [];
  changes =
      record {
        path = "a.nix";
        action = create;
        previous_sha256 = none;
        candidate_sha256 = "xx";
        backup_path = none;
        staged_path = ".a.nix.tmp";
        status = committed;
      }
      ∷ [];
  error = none;
  recovery_error = none;
  post_verification = none;
}

abbrev waiting_files : Dict File
waiting_files = ("a.nix", record { content = 50 ∷ 50 ∷ []; mode = 420 }) ∷ []

abbrev waiting_world : World
waiting_world = record before { files = waiting_files; manifests = (id, stored waiting) ∷ [] }

abbrev finalized : World
finalized =
    (finalize_validated_transaction (host faultless) "/fixture" id validation "nixos-adoption" true
      waiting_world).1

finalize_validated_transaction-IsInstalled_example :
    Concluded
      (host faultless)
      waiting_files
      id
      waiting
      "/fixture"
      validation
      "nixos-adoption"
      true
      finalized
unfolding lookup insert erase set_status pure raise if◌then◌else◌ ◌>>=◌ catch finally require
    modify_state gets perform crosses safe_label safe_target safe_backup sync_directory replace
    write_temporary remove_temporary atomic_json read_text load_manifest acquire_lock release_lock
    digest_of target_digest backup_digest copy_to_backup copy_from_backup sync_file write_stage
    unlink stat_mode make_directories create_parents remove_directory mark set_state same_digest
    leave mark_restored put_back put_back_from restore_modified restore_created restore_by
    restore_entry restore_entries unlink_stage unlink_stages remove_directories cleanup
    restore_from_manifest is_valid_fault is_fault plan_from check_state verify_change verify_changes
    back_up prepare prepare_all inject commit commit_all begin prepare_and_commit give_up undo
    on_failure apply_validated_changes has_evaluation transaction_paths verify_installed
    verify_all_installed finish check_manifest finalize_loaded finalize_validated_transaction
    finalize_flake_loaded finalize_flake_lock_live_transaction need_attention roll_back_loaded
    rollback_transaction restore_pending skip_unless_named recover_loaded recover_folder
    recover_folders recover_pending_transactions is_transaction_id repeated hex
finalize_validated_transaction-IsInstalled_example =
    (finalize_validated_transaction-IsInstalled (host faultless) "/fixture" id validation
        "nixos-adoption" true waiting waiting_world refl).2
      (result (host faultless) id "committed" ("a.nix" ∷ []) true) refl

abbrev places : Places
places = record {
  resolve = λ p. p;
  is_link = λ p. false;
  is_directory = λ p. true;
  is_file = λ p. true;
  exists = λ p. true;
  in_store = λ p. false;
  marker = λ p. Marker.no_file;
}

abbrev dumps : Identity → Content
dumps i = codes "f"

abbrev new_state : Change
new_state = record change_a { relative_path = "ncm/state.json"; action = create }

abbrev managed_plan : ManagedPlan
managed_plan = record {
  root = "/etc/nixos";
  configuration_mode = "flake";
  flake_target = none;
  changes = new_state ∷ [];
}

abbrev managed_validation : Validation
managed_validation = record validation {
  plan_fingerprint = some "x";
  candidate_digests = ("ncm/state.json", "xx") ∷ [];
}

abbrev managed_run : Outcome TransactionResult × World
managed_run =
    apply_managed_plan_live (host faultless) places dumps none false managed_plan managed_validation
      before

managed_run-ok :
    managed_run.0
    ≡ ok (result (host faultless) id "awaiting-verification" ("ncm/state.json" ∷ []) false)
unfolding lookup insert erase set_status pure raise if◌then◌else◌ ◌>>=◌ catch finally require
    modify_state gets perform crosses safe_label safe_target safe_backup sync_directory replace
    write_temporary remove_temporary atomic_json read_text load_manifest acquire_lock release_lock
    digest_of target_digest backup_digest copy_to_backup copy_from_backup sync_file write_stage
    unlink stat_mode make_directories create_parents remove_directory mark set_state same_digest
    leave mark_restored put_back put_back_from restore_modified restore_created restore_by
    restore_entry restore_entries unlink_stage unlink_stages remove_directories cleanup
    restore_from_manifest is_valid_fault is_fault plan_from check_state verify_change verify_changes
    back_up prepare prepare_all inject commit commit_all begin prepare_and_commit give_up undo
    on_failure apply_validated_changes has_evaluation transaction_paths verify_installed
    verify_all_installed finish check_manifest finalize_loaded finalize_validated_transaction
    finalize_flake_loaded finalize_flake_lock_live_transaction need_attention roll_back_loaded
    rollback_transaction restore_pending skip_unless_named recover_loaded recover_folder
    recover_folders recover_pending_transactions is_transaction_id repeated hex
    apply_managed_plan_live validate_managed_plan matches identity lift require_live_managed_root
    safe_managed_root check_managed_path is_live
managed_run-ok = refl

abbrev fingerprint : String
fingerprint = "0123456789abcdef0123456789abcdef0123456789abcdef0123456789abcdef"

abbrev lock_validation : LockValidation
lock_validation = record {
  status = some "passed";
  working_copy_removed = some true;
  plan_fingerprint = some fingerprint;
  write_scope = some ("flake.lock" ∷ []);
}

abbrev lock_change : Change
lock_change = record change_a { relative_path = "flake.lock" }

abbrev with_lock_file : World
with_lock_file = record before {
  files = ("flake.lock", record { content = codes "1"; mode = 384 }) ∷ [];
}

abbrev lock_run : Outcome TransactionResult × World
lock_run =
    apply_flake_lock_update_live (host faultless) places dumps none false lock_change
      "/etc/nixos/flake.lock" "/etc/nixos" fingerprint lock_validation with_lock_file

lock_run-ok :
    lock_run.0 ≡ ok (result (host faultless) id "awaiting-verification" ("flake.lock" ∷ []) false)
unfolding lookup insert erase set_status pure raise if◌then◌else◌ ◌>>=◌ catch finally require
    modify_state gets perform crosses safe_label safe_target safe_backup sync_directory replace
    write_temporary remove_temporary atomic_json read_text load_manifest acquire_lock release_lock
    digest_of target_digest backup_digest copy_to_backup copy_from_backup sync_file write_stage
    unlink stat_mode make_directories create_parents remove_directory mark set_state same_digest
    leave mark_restored put_back put_back_from restore_modified restore_created restore_by
    restore_entry restore_entries unlink_stage unlink_stages remove_directories cleanup
    restore_from_manifest is_valid_fault is_fault plan_from check_state verify_change verify_changes
    back_up prepare prepare_all inject commit commit_all begin prepare_and_commit give_up undo
    on_failure apply_validated_changes has_evaluation transaction_paths verify_installed
    verify_all_installed finish check_manifest finalize_loaded finalize_validated_transaction
    finalize_flake_loaded finalize_flake_lock_live_transaction need_attention roll_back_loaded
    rollback_transaction restore_pending skip_unless_named recover_loaded recover_folder
    recover_folders recover_pending_transactions is_transaction_id repeated hex
    apply_flake_lock_update_live lift require_live_managed_root safe_managed_root check_managed_path
    is_live is_sha256
lock_run-ok = refl

-- The same transaction, once it has been finalized.
abbrev finished : Manifest
finished = record waiting { state = "committed" }

abbrev concluded_world : World
concluded_world = record waiting_world { manifests = (id, stored finished) ∷ [] }

abbrev refused_rollback : Outcome TransactionResult × World
refused_rollback =
    rollback_transaction (host faultless) "/fixture" id (injected 1) none true none concluded_world

rollback_transaction-is_finished_example :
    ((r : TransactionResult) → refused_rollback.0 ≢ ok r)
    × ((refused_rollback.1.files ≡ waiting_files)
        × (lookup id refused_rollback.1.manifests ≡ some (stored finished)))
unfolding lookup
rollback_transaction-is_finished_example =
    rollback_transaction-is_finished (host faultless) "/fixture" id (injected 1) none true none
      finished concluded_world refl refl
