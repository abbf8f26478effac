-- ===== src/Transaction/Errors.antt =====
-- The errors of transaction.py, one constructor for each message, and the outcomes of an action.
use nixos_control_manager.Prelude.{ℕ, String}

-- `TransactionError` by its message, with the file or the error that the message names;
-- `os_error` is an `OSError` of a call of the system.
pub data Failure : Type 0 where
  os_error : Failure
  unsafe_path : String → Failure
  crosses_link : String → Failure
  journal_link : Failure
  journal_inside : Failure
  bad_fault : Failure
  lock_held : Failure
  unreadable_journal : Failure
  candidate_mismatch : String → Failure
  expected_absent : String → Failure
  expected_file : String → Failure
  concurrent_edit : String → Failure
  unsupported_action : String → Failure
  parent_link : String → Failure
  backup_mismatch : String → Failure
  backup_failed : String → Failure
  refused_overwrite : String → Failure
  refused_remove : String → Failure
  installed_missing : String → Failure
  installed_changed : String → Failure
  injected : ℕ → Failure
  -- `SimulatedTransactionCrash`
  simulated_crash : ℕ → Failure
  failed_and_restored : Failure → Failure
  failed_and_not_restored : Failure → Failure
  invalid_identifier : Failure
  other_root : Failure
  other_mode : Failure
  other_workflow : Failure
  wrong_state : String → Failure
  unverified : Failure
  extra_changes : Failure
  no_evaluation : Failure
  needs_attention : String → Failure → Failure
  -- A precondition of a wrapper, by its message.
  refused : String → Failure

-- A value, an exception, or the end of the process in the midst of the action.
pub data Outcome (A : Type 0) : Type 0 where
  ok : A → Outcome A
  err : Failure → Outcome A
  dead : Outcome A
