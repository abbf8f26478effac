-- ===== src/Tests/Transaction.antt =====
-- Runs of transaction.py on a small plan, and the theorems applied to them.
use nixos_control_manager.Prelude.{
  ℕ, zero, suc, String, true, false, ◌≡◌, refl, ◌⊎◌, inl, none, some, List, [], ◌∷◌, ◌<>◌, ◌==◌,
  eq_iff,
}
use nixos_control_manager.Format.{codes, is_transaction_id, repeated, hex}
use nixos_control_manager.Transaction.Errors.{injected, os_error, ok, err, dead}
use nixos_control_manager.Transaction.State.{Content, create, modify, Change, World}
use nixos_control_manager.Transaction.Host.{Fate, done, killed, untouched, Host}
use nixos_control_manager.Transaction.Apply.{Planned, planned_entry, Request, new_manifest, result}
use nixos_control_manager.Transaction.Sound
use nixos_control_manager.Transaction.Separate.{separate}
use nixos_control_manager.Transaction.Sound.{content_at, restart}
use nixos_control_manager.Prelude.Dict.{lookup, insert, erase}
use nixos_control_manager.Transaction.State.{set_status}
use nixos_control_manager.Transaction.Exec.{
  pure, raise, if◌then◌else◌, ◌>>=◌, catch, finally, require, modify_state, gets, perform,
}
use nixos_control_manager.Transaction.Disk.{
  crosses, safe_label, safe_target, safe_backup, sync_directory, replace, write_temporary,
  remove_temporary, atomic_json, read_text, load_manifest, acquire_lock, release_lock, digest_of,
  target_digest, backup_digest, copy_to_backup, copy_from_backup, sync_file, write_stage, unlink,
  stat_mode, make_directories, create_parents, remove_directory, mark, set_state,
}
use nixos_control_manager.Transaction.Restore.{
  same_digest, leave, mark_restored, put_back, put_back_from, restore_modified, restore_created,
  restore_by, restore_entry, restore_entries, unlink_stage, unlink_stages, remove_directories,
  cleanup, restore_from_manifest,
}
use nixos_control_manager.Transaction.Apply.{
  is_valid_fault, is_fault, plan_from, check_state, verify_change, verify_changes, back_up, prepare,
  prepare_all, inject, commit, commit_all, begin, prepare_and_commit, give_up, undo, on_failure,
  apply_validated_changes,
}
use nixos_control_manager.Transaction.Recover.{
  has_evaluation, transaction_paths, verify_installed, verify_all_installed, finish, check_manifest,
  finalize_loaded, finalize_validated_transaction, finalize_flake_loaded,
  finalize_flake_lock_live_transaction, need_attention, roll_back_loaded, rollback_transaction,
  restore_pending, skip_unless_named, recover_loaded, recover_folder, recover_folders,
  recover_pending_transactions,
}

abbrev pub id : String
id = "0123456789abcdef01234567"

abbrev length_digest : Content → String
length_digest [] = ""
length_digest (n ∷ ns) = "x" <> length_digest ns

abbrev strokes : ℕ → String
strokes zero = ""
strokes (suc n) = "I" <> strokes n

-- The call with the given number ends the process before it does anything; the others are done.
abbrev killed_at : ℕ → ℕ → Fate
killed_at zero zero = killed untouched
killed_at (suc n) (suc m) = killed_at n m
killed_at n m = done

abbrev pub faultless : ℕ → Fate
faultless n = done

abbrev pub host : (ℕ → Fate) → Host
host fate = record {
  fate = fate;
  digest = length_digest;
  utf8 = codes;
  torn = λ c. [];
  parts = λ p. p ∷ [];
  is_absolute = λ p. false;
  name = λ p. p;
  with_name = λ p n. n;
  above = λ p. [];
  is_below = λ d p. false;
  is_link = λ p. false;
  is_journal_link = λ p. false;
  journal_is_link = false;
  journal_is_inside = λ r. false;
  journal_exists = true;
  sorted = λ ds. ds;
  token = id;
  digits = strokes;
  four_digits = strokes;
  new_mode = 420;
}

abbrev pub change_a : Change
change_a = record { relative_path = "a.nix"; action = modify; previous = "1"; candidate = "22" }

abbrev change_b : Change
change_b = record { relative_path = "b.nix"; action = create; previous = ""; candidate = "333" }

abbrev changes : List Change
changes = change_a ∷ change_b ∷ []

abbrev request : Request
request = record {
  root = "/fixture";
  fingerprint = "f";
  transaction_kind = "nixos-adoption";
  fixture_only = true;
  fault_after_commits = none;
  simulate_crash = false;
}

abbrev pub before : World
before = record {
  files = ("a.nix", record { content = codes "1"; mode = 384 }) ∷ [];
  directories = [];
  folders = [];
  manifests = [];
  temporaries = [];
  backups = [];
  is_locked = false;
  memory = new_manifest request "";
  clock = 0;
}

abbrev planned_a : Planned
planned_a = record {
  index = 0;
  change = change_a;
  entry = planned_entry (host faultless) id 0 change_a;
}

tells_a : length_digest (codes "1") ≡ length_digest (codes "22") → codes "1" ≡ codes "22"
tells_a e = let absurd : ("x" == "xx") ≡ true = (eq_iff "x" "xx").1 e in cc

ok_run :
    (apply_validated_changes (host faultless) request changes before).0
    ≡ ok (result (host faultless) id "awaiting-verification" ("a.nix" ∷ "b.nix" ∷ []) true)
unfolding lookup insert erase set_status pure raise if◌then◌else◌ ◌>>=◌ catch finally require
    modify_state gets perform crosses safe_label safe_target safe_backup sync_directory replace
    write_temporary remove_temporary atomic_json read_text load_manifest acquire_lock release_lock
    digest_of target_digest backup_digest copy_to_backup copy_from_backup sync_file write_stage
    unlink stat_mode make_directories create_parents remove_directory mark set_state same_digest
    leave mark_restored put_back put_back_from restore_modified restore_created restore_by
    restore_entry restore_entries unlink_stage unlink_stages remove_directories cleanup
    restore_from_manifest is_valid_fault is_fault plan_from check_state verify_change verify_changes
    back_up prepare prepare_all inject commit commit_all begin prepare_and_commit give_up undo
    on_failure apply_validated_changes has_evaluation transaction_paths verify_installed
    verify_all_installed finish check_manifest finalize_loaded finalize_validated_transaction
    finalize_flake_loaded finalize_flake_lock_live_transaction need_attention roll_back_loaded
    rollback_transaction restore_pending skip_unless_named recover_loaded recover_folder
    recover_folders recover_pending_transactions
ok_run = refl

abbrev stopped : World
stopped = (apply_validated_changes (host (killed_at 32)) request changes before).1

killed_run : (apply_validated_changes (host (killed_at 32)) request changes before).0 ≡ dead
unfolding lookup insert erase set_status pure raise if◌then◌else◌ ◌>>=◌ catch finally require
    modify_state gets perform crosses safe_label safe_target safe_backup sync_directory replace
    write_temporary remove_temporary atomic_json read_text load_manifest acquire_lock release_lock
    digest_of target_digest backup_digest copy_to_backup copy_from_backup sync_file write_stage
    unlink stat_mode make_directories create_parents remove_directory mark set_state same_digest
    leave mark_restored put_back put_back_from restore_modified restore_created restore_by
    restore_entry restore_entries unlink_stage unlink_stages remove_directories cleanup
    restore_from_manifest is_valid_fault is_fault plan_from check_state verify_change verify_changes
    back_up prepare prepare_all inject commit commit_all begin prepare_and_commit give_up undo
    on_failure apply_validated_changes has_evaluation transaction_paths verify_installed
    verify_all_installed finish check_manifest finalize_loaded finalize_validated_transaction
    finalize_flake_loaded finalize_flake_lock_live_transaction need_attention roll_back_loaded
    rollback_transaction restore_pending skip_unless_named recover_loaded recover_folder
    recover_folders recover_pending_transactions is_transaction_id repeated hex
killed_run = refl

stopped_content : content_at "a.nix" stopped ≡ some (codes "22")
unfolding lookup insert erase set_status pure raise if◌then◌else◌ ◌>>=◌ catch finally require
    modify_state gets perform crosses safe_label safe_target safe_backup sync_directory replace
    write_temporary remove_temporary atomic_json read_text load_manifest acquire_lock release_lock
    digest_of target_digest backup_digest copy_to_backup copy_from_backup sync_file write_stage
    unlink stat_mode make_directories create_parents remove_directory mark set_state same_digest
    leave mark_restored put_back put_back_from restore_modified restore_created restore_by
    restore_entry restore_entries unlink_stage unlink_stages remove_directories cleanup
    restore_from_manifest is_valid_fault is_fault plan_from check_state verify_change verify_changes
    back_up prepare prepare_all inject commit commit_all begin prepare_and_commit give_up undo
    on_failure apply_validated_changes has_evaluation transaction_paths verify_installed
    verify_all_installed finish check_manifest finalize_loaded finalize_validated_transaction
    finalize_flake_loaded finalize_flake_lock_live_transaction need_attention roll_back_loaded
    rollback_transaction restore_pending skip_unless_named recover_loaded recover_folder
    recover_folders recover_pending_transactions is_transaction_id repeated hex
stopped_content = refl

recovered_run :
    (recover_pending_transactions
      (host (killed_at 32))
      "/fixture"
      (some id)
      none
      true
      (restart stopped)).0
    ≡ ok (result (host faultless) id "recovered" ("a.nix" ∷ "b.nix" ∷ []) true ∷ [])
unfolding lookup insert erase set_status pure raise if◌then◌else◌ ◌>>=◌ catch finally require
    modify_state gets perform crosses safe_label safe_target safe_backup sync_directory replace
    write_temporary remove_temporary atomic_json read_text load_manifest acquire_lock release_lock
    digest_of target_digest backup_digest copy_to_backup copy_from_backup sync_file write_stage
    unlink stat_mode make_directories create_parents remove_directory mark set_state same_digest
    leave mark_restored put_back put_back_from restore_modified restore_created restore_by
    restore_entry restore_entries unlink_stage unlink_stages remove_directories cleanup
    restore_from_manifest is_valid_fault is_fault plan_from check_state verify_change verify_changes
    back_up prepare prepare_all inject commit commit_all begin prepare_and_commit give_up undo
    on_failure apply_validated_changes has_evaluation transaction_paths verify_installed
    verify_all_installed finish check_manifest finalize_loaded finalize_validated_transaction
    finalize_flake_loaded finalize_flake_lock_live_transaction need_attention roll_back_loaded
    rollback_transaction restore_pending skip_unless_named recover_loaded recover_folder
    recover_folders recover_pending_transactions is_transaction_id repeated hex
recovered_run = refl

-- Killed between the temporary manifest and its move: the first recovery meets that file.
abbrev stopped_in_write : World
stopped_in_write = (apply_validated_changes (host (killed_at 34)) request changes before).1

refused_run :
    (recover_pending_transactions
      (host (killed_at 34))
      "/fixture"
      (some id)
      none
      true
      (restart stopped_in_write)).0
    ≡ err os_error
unfolding lookup insert erase set_status pure raise if◌then◌else◌ ◌>>=◌ catch finally require
    modify_state gets perform crosses safe_label safe_target safe_backup sync_directory replace
    write_temporary remove_temporary atomic_json read_text load_manifest acquire_lock release_lock
    digest_of target_digest backup_digest copy_to_backup copy_from_backup sync_file write_stage
    unlink stat_mode make_directories create_parents remove_directory mark set_state same_digest
    leave mark_restored put_back put_back_from restore_modified restore_created restore_by
    restore_entry restore_entries unlink_stage unlink_stages remove_directories cleanup
    restore_from_manifest is_valid_fault is_fault plan_from check_state verify_change verify_changes
    back_up prepare prepare_all inject commit commit_all begin prepare_and_commit give_up undo
    on_failure apply_validated_changes has_evaluation transaction_paths verify_installed
    verify_all_installed finish check_manifest finalize_loaded finalize_validated_transaction
    finalize_flake_loaded finalize_flake_lock_live_transaction need_attention roll_back_loaded
    rollback_transaction restore_pending skip_unless_named recover_loaded recover_folder
    recover_folders recover_pending_transactions is_transaction_id repeated hex
refused_run = refl

abbrev all_done : World
all_done = (apply_validated_changes (host faultless) request changes before).1

apply_validated_changes-candidate_example : content_at "a.nix" all_done ≡ some (codes "22")
unfolding lookup insert erase set_status pure raise if◌then◌else◌ ◌>>=◌ catch finally require
    modify_state gets perform crosses safe_label safe_target safe_backup sync_directory replace
    write_temporary remove_temporary atomic_json read_text load_manifest acquire_lock release_lock
    digest_of target_digest backup_digest copy_to_backup copy_from_backup sync_file write_stage
    unlink stat_mode make_directories create_parents remove_directory mark set_state same_digest
    leave mark_restored put_back put_back_from restore_modified restore_created restore_by
    restore_entry restore_entries unlink_stage unlink_stages remove_directories cleanup
    restore_from_manifest is_valid_fault is_fault plan_from check_state verify_change verify_changes
    back_up prepare prepare_all inject commit commit_all begin prepare_and_commit give_up undo
    on_failure apply_validated_changes has_evaluation transaction_paths verify_installed
    verify_all_installed finish check_manifest finalize_loaded finalize_validated_transaction
    finalize_flake_loaded finalize_flake_lock_live_transaction need_attention roll_back_loaded
    rollback_transaction restore_pending skip_unless_named recover_loaded recover_folder
    recover_folders recover_pending_transactions is_transaction_id repeated hex separate
apply_validated_changes-candidate_example =
    Sound.apply_validated_changes-candidate (host faultless) request changes planned_a before
      (inl refl) refl tells_a refl
      (result (host faultless) id "awaiting-verification" ("a.nix" ∷ "b.nix" ∷ []) true) all_done
      refl

apply_validated_changes-either_example :
    (content_at "a.nix" stopped ≡ some (codes "1"))
    ⊎ (content_at "a.nix" stopped ≡ some (codes "22"))
unfolding lookup insert erase set_status pure raise if◌then◌else◌ ◌>>=◌ catch finally require
    modify_state gets perform crosses safe_label safe_target safe_backup sync_directory replace
    write_temporary remove_temporary atomic_json read_text load_manifest acquire_lock release_lock
    digest_of target_digest backup_digest copy_to_backup copy_from_backup sync_file write_stage
    unlink stat_mode make_directories create_parents remove_directory mark set_state same_digest
    leave mark_restored put_back put_back_from restore_modified restore_created restore_by
    restore_entry restore_entries unlink_stage unlink_stages remove_directories cleanup
    restore_from_manifest is_valid_fault is_fault plan_from check_state verify_change verify_changes
    back_up prepare prepare_all inject commit commit_all begin prepare_and_commit give_up undo
    on_failure apply_validated_changes has_evaluation transaction_paths verify_installed
    verify_all_installed finish check_manifest finalize_loaded finalize_validated_transaction
    finalize_flake_loaded finalize_flake_lock_live_transaction need_attention roll_back_loaded
    rollback_transaction restore_pending skip_unless_named recover_loaded recover_folder
    recover_folders recover_pending_transactions is_transaction_id repeated hex separate
apply_validated_changes-either_example =
    Sound.apply_validated_changes-either (host (killed_at 32)) request changes planned_a before
      (inl refl) refl tells_a refl

abbrev recovered_after : World
recovered_after =
    (recover_pending_transactions (host (killed_at 32)) "/fixture" (some id) none true
      (restart stopped)).1

recover_pending_transactions-original_example :
    content_at "a.nix" recovered_after ≡ some (codes "1")
unfolding lookup insert erase set_status pure raise if◌then◌else◌ ◌>>=◌ catch finally require
    modify_state gets perform crosses safe_label safe_target safe_backup sync_directory replace
    write_temporary remove_temporary atomic_json read_text load_manifest acquire_lock release_lock
    digest_of target_digest backup_digest copy_to_backup copy_from_backup sync_file write_stage
    unlink stat_mode make_directories create_parents remove_directory mark set_state same_digest
    leave mark_restored put_back put_back_from restore_modified restore_created restore_by
    restore_entry restore_entries unlink_stage unlink_stages remove_directories cleanup
    restore_from_manifest is_valid_fault is_fault plan_from check_state verify_change verify_changes
    back_up prepare prepare_all inject commit commit_all begin prepare_and_commit give_up undo
    on_failure apply_validated_changes has_evaluation transaction_paths verify_installed
    verify_all_installed finish check_manifest finalize_loaded finalize_validated_transaction
    finalize_flake_loaded finalize_flake_lock_live_transaction need_attention roll_back_loaded
    rollback_transaction restore_pending skip_unless_named recover_loaded recover_folder
    recover_folders recover_pending_transactions is_transaction_id repeated hex separate
recover_pending_transactions-original_example =
    Sound.recover_pending_transactions-original (host (killed_at 32)) request changes planned_a
      before (inl refl) refl tells_a refl none refl refl refl
      (result (host faultless) id "recovered" ("a.nix" ∷ "b.nix" ∷ []) true ∷ []) recovered_after
      refl

abbrev rolled_back_after : World
rolled_back_after =
    (rollback_transaction (host faultless) "/fixture" id (injected 1) none true none
      (restart all_done)).1

rollback_transaction-original_example : content_at "a.nix" rolled_back_after ≡ some (codes "1")
unfolding lookup insert erase set_status pure raise if◌then◌else◌ ◌>>=◌ catch finally require
    modify_state gets perform crosses safe_label safe_target safe_backup sync_directory replace
    write_temporary remove_temporary atomic_json read_text load_manifest acquire_lock release_lock
    digest_of target_digest backup_digest copy_to_backup copy_from_backup sync_file write_stage
    unlink stat_mode make_directories create_parents remove_directory mark set_state same_digest
    leave mark_restored put_back put_back_from restore_modified restore_created restore_by
    restore_entry restore_entries unlink_stage unlink_stages remove_directories cleanup
    restore_from_manifest is_valid_fault is_fault plan_from check_state verify_change verify_changes
    back_up prepare prepare_all inject commit commit_all begin prepare_and_commit give_up undo
    on_failure apply_validated_changes has_evaluation transaction_paths verify_installed
    verify_all_installed finish check_manifest finalize_loaded finalize_validated_transaction
    finalize_flake_loaded finalize_flake_lock_live_transaction need_attention roll_back_loaded
    rollback_transaction restore_pending skip_unless_named recover_loaded recover_folder
    recover_folders recover_pending_transactions is_transaction_id repeated hex separate
rollback_transaction-original_example =
    Sound.rollback_transaction-original (host faultless) request changes planned_a before (inl refl)
      refl tells_a refl (injected 1) none true none "/fixture"
      (result (host faultless) id "rolled-back" ("a.nix" ∷ "b.nix" ∷ []) true) rolled_back_after
      refl
