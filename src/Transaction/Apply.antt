-- ===== src/Transaction/Apply.antt =====
-- `_verify_change_precondition` and `_apply_validated_changes` of transaction.py.
use nixos_control_manager.Prelude.{
  ℕ, suc, String, Bool, true, false, not, Option, none, some, List, [], ◌∷◌, ◌++◌, map, ◌==◌, ◌<>◌,
  contains, leb, nat_eq,
}
use nixos_control_manager.Transaction.Errors.{
  Failure, os_error, journal_link, journal_inside, bad_fault, candidate_mismatch, expected_absent,
  expected_file, concurrent_edit, unsupported_action, backup_mismatch, simulated_crash, injected,
  failed_and_restored, failed_and_not_restored,
}
use nixos_control_manager.Transaction.State.{
  Action, create, modify, other, Change, planned, prepared, committed, Entry, Manifest, in_folder,
}
use nixos_control_manager.Transaction.Host.{Host}
use nixos_control_manager.Transaction.Exec.{
  Exec, pure, raise, require, ◌>>=◌, ◌>>◌, if◌then◌else◌, catch, finally, modify_state, gets,
  perform,
}
use nixos_control_manager.Transaction.Disk.{
  unchanged, is_file, exists, set_memory, safe_target, sync_directory, replace, atomic_json,
  acquire_lock, release_lock, target_digest, backup_digest, copy_to_backup, sync_file, write_stage,
  stat_mode, create_parents, mark, set_state,
}
use nixos_control_manager.Transaction.Restore.{same_digest, restore_from_manifest}

-- `TransactionResult`; its journal path is that of its transaction.
pub record TransactionResult : Type 0 where
  pub transaction_id : String
  pub state : String
  pub changed_files : List String
  pub fixture_only : Bool

-- What the callers choose.
pub record Request : Type 0 where
  pub root : String
  pub fingerprint : String
  pub transaction_kind : String
  pub fixture_only : Bool
  pub fault_after_commits : Option ℕ
  pub simulate_crash : Bool

-- A change with its place in the plan and its entry in the manifest.
pub record Planned : Type 0 where
  pub index : ℕ
  pub change : Change
  pub entry : Entry

abbrev pub is_modify : Action → Bool
is_modify modify = true
is_modify _ = false

unfoldable pub is_valid_fault : Option ℕ → Bool
is_valid_fault none = true
is_valid_fault (some n) = leb 1 n

-- `fault_after_commits == index + 1`
unfoldable pub is_fault : Option ℕ → ℕ → Bool
is_fault none i = false
is_fault (some n) i = nat_eq n (suc i)

abbrev pub crash_or_failure : Bool → ℕ → Failure
crash_or_failure true n = simulated_crash n
crash_or_failure false n = injected n

abbrev pub is_simulated : Failure → Bool
is_simulated (simulated_crash n) = true
is_simulated _ = false

abbrev pub new_manifest : Request → String → Manifest
new_manifest r id = record {
  transaction_id = id;
  configuration_root = r.root;
  transaction_kind = some r.transaction_kind;
  fixture_only = some r.fixture_only;
  plan_fingerprint = r.fingerprint;
  state = "preparing";
  created_directories = [];
  changes = [];
  error = none;
  recovery_error = none;
  post_verification = none;
}

abbrev pub backup_name : Bool → String → Option String
backup_name false digits = none
backup_name true digits = some ("backups/" <> digits <> ".bin")

module _ (h : Host) where
  abbrev pub candidate_sha256 : Change → String
  candidate_sha256 c = h.digest (h.utf8 c.candidate)

  abbrev previous_when : Bool → Change → Option String
  previous_when false c = none
  previous_when true c = some (h.digest (h.utf8 c.previous))

  abbrev pub previous_sha256 : Change → Option String
  previous_sha256 c = previous_when (is_modify c.action) c

  abbrev pub planned_entry : String → ℕ → Change → Entry
  planned_entry id i c = record {
    path = c.relative_path;
    action = c.action;
    previous_sha256 = previous_sha256 c;
    candidate_sha256 = candidate_sha256 c;
    backup_path = backup_name (is_modify c.action) (h.four_digits i);
    staged_path =
        h.with_name c.relative_path
          ("." <> h.name c.relative_path <> ".ncm-" <> id <> "-" <> h.digits i <> ".tmp");
    status = planned;
  }

  unfoldable pub plan_from : String → ℕ → List Change → List Planned
  plan_from id i [] = []
  plan_from id i (c ∷ cs) =
      record { index = i; change = c; entry = planned_entry id i c } ∷ plan_from id (suc i) cs

  unfoldable pub check_state : Change → Action → Exec (Unit {0})
  check_state c create = gets (exists c.relative_path) >>= λ there.
      require (not there) (expected_absent c.relative_path)
  check_state c modify = gets (is_file c.relative_path) >>= λ there.
      require there (expected_file c.relative_path) >> target_digest h c.relative_path >>= λ d.
      require (same_digest d (previous_sha256 c)) (concurrent_edit c.relative_path)
  check_state c (other a) = raise (unsupported_action a)

  -- `_verify_change_precondition`
  unfoldable pub verify_change : Change → Exec (Unit {0})
  verify_change c =
      safe_target h c.relative_path
      >> require (h.digest (h.utf8 c.candidate) == candidate_sha256 c)
          (candidate_mismatch c.relative_path)
      >> check_state c c.action

  unfoldable pub verify_changes : List Change → Exec (Unit {0})
  verify_changes [] = pure tt
  verify_changes (c ∷ cs) = verify_change c >> verify_changes cs

  -- The backup of a modified file, with the mode of its stage.
  unfoldable pub back_up : String → Change → Option String → Exec ℕ
  back_up id c none = pure 420
  back_up id c (some b) =
      copy_to_backup h c.relative_path (in_folder id b)
      >> sync_file h
      >> backup_digest h (in_folder id b)
      >>= λ d.
          require (same_digest d (previous_sha256 c)) (backup_mismatch c.relative_path)
          >> stat_mode h c.relative_path

  unfoldable pub prepare : String → Planned → Exec (Unit {0})
  prepare id p = create_parents h p.change.relative_path >>= λ created.
      modify_state
        (set_memory (λ m. record m { created_directories = m.created_directories ++ created }))
      >> back_up id p.change p.entry.backup_path
      >>= λ mode.
          safe_target h p.entry.staged_path
          >> write_stage h p.entry.staged_path (h.utf8 p.change.candidate) mode
          >> mark p.index prepared
          >> atomic_json h id

  unfoldable pub prepare_all : String → List Planned → Exec (Unit {0})
  prepare_all id [] = pure tt
  prepare_all id (p ∷ ps) = prepare id p >> prepare_all id ps

  unfoldable pub inject : Request → ℕ → Exec (Unit {0})
  inject r i =
      if is_fault r.fault_after_commits i
      then raise (crash_or_failure r.simulate_crash (suc i))
      else pure tt

  unfoldable pub commit : String → Planned → Exec (Unit {0})
  commit id p =
      safe_target h p.entry.staged_path
      >> verify_change p.change
      >> replace h p.entry.staged_path p.change.relative_path
      >> sync_directory h
      >> mark p.index committed
      >> atomic_json h id

  unfoldable pub commit_all : Request → String → List Planned → Exec (Unit {0})
  commit_all r id [] = pure tt
  commit_all r id (p ∷ ps) = commit id p >> inject r p.index >> commit_all r id ps

  -- The transaction's directory, its backups' and the first manifest.
  unfoldable pub begin : String → List Planned → Exec (Unit {0})
  begin id ps = gets (λ w. contains w.folders id) >>= λ there.
      require (not there) os_error
      >> perform h unchanged (λ w. record w { folders = id ∷ w.folders })
      >> perform h unchanged unchanged
      >> modify_state (set_memory (λ m. record m { changes = map (λ p. p.entry) ps }))
      >> atomic_json h id

  abbrev pub result : String → String → List String → Bool → TransactionResult
  result id state files fixture = record {
    transaction_id = id;
    state = state;
    changed_files = files;
    fixture_only = fixture;
  }

  -- The body of the `try`.
  unfoldable pub prepare_and_commit :
      Request → String → List Change → List Planned → Exec TransactionResult
  prepare_and_commit r id cs ps =
      prepare_all id ps
      >> set_state "committing"
      >> atomic_json h id
      >> commit_all r id ps
      >> set_state "awaiting-verification"
      >> atomic_json h id
      >> pure (result id "awaiting-verification" (map (λ c. c.relative_path) cs) r.fixture_only)

  -- `except Exception as recovery_error`
  unfoldable pub give_up : String → Failure → Exec (Unit {0})
  give_up id e =
      modify_state
        (set_memory (λ m. record m { state = "recovery-required"; recovery_error = some e }))
      >> atomic_json h id
      >> raise (failed_and_not_restored e)

  -- `except Exception as error`
  unfoldable pub undo : String → Failure → Exec TransactionResult
  undo id e =
      modify_state (set_memory (λ m. record m { state = "rolling-back"; error = some e }))
      >> atomic_json h id
      >> catch (restore_from_manifest h id >> set_state "rolled-back" >> atomic_json h id)
          (give_up id)
      >> raise (failed_and_restored e)

  unfoldable pub on_failure : String → Failure → Exec TransactionResult
  on_failure id e = if is_simulated e then raise e else undo id e

  -- `_apply_validated_changes`
  unfoldable pub apply_validated_changes : Request → List Change → Exec TransactionResult
  apply_validated_changes r cs =
      require (not h.journal_is_link) journal_link
      >> require (not (h.journal_is_inside r.root)) journal_inside
      >> require (is_valid_fault r.fault_after_commits) bad_fault
      >> verify_changes cs
      >> acquire_lock h
      >> modify_state (set_memory (λ _. new_manifest r h.token))
      >> catch (begin h.token (plan_from h.token 0 cs)) (λ e. release_lock h >> raise e)
      >> finally
          (catch (prepare_and_commit r h.token cs (plan_from h.token 0 cs)) (on_failure h.token))
          (release_lock h)
