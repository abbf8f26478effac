-- ===== src/Transaction/Entries.antt =====
-- The entry points of transaction.py that finalize, roll back and recover: each names its workflow.
use nixos_control_manager.Prelude.{String, Bool, true, false, Option, none, some}
use nixos_control_manager.Transaction.Errors.{Failure}
use nixos_control_manager.Transaction.State.{Verification}
use nixos_control_manager.Transaction.Host.{Host}
use nixos_control_manager.Transaction.Exec.{Exec, ◌>>=◌}
use nixos_control_manager.Transaction.Apply.{TransactionResult}
use nixos_control_manager.Transaction.Recover.{
  Validation, verification_summary, Recovered, finalize_validated_transaction, rollback_transaction,
  recover_pending_transactions,
}
use nixos_control_manager.Transaction.Roots.{Places, transaction_root, require_live_managed_root}
use nixos_control_manager.Transaction.Workflows.{lift}

abbrev summary_of : Option Validation → Option Verification
summary_of none = none
summary_of (some v) = some (verification_summary v)

module _ (h : Host) (places : Places) where
  -- The root, and then the function that works below it.
  abbrev finalize : String → String → Validation → String → Bool → Exec TransactionResult
  finalize root id v kind fixture = lift (transaction_root places fixture root) >>= λ r.
      finalize_validated_transaction h r id v kind fixture

  abbrev roll_back :
      String
      → String
      → Failure
      → Option Verification
      → Bool
      → Option String
      → Exec TransactionResult
  roll_back root id reason v fixture kind = lift (transaction_root places fixture root) >>= λ r.
      rollback_transaction h r id reason v fixture kind

  abbrev recover : String → Option String → Option String → Bool → Exec (Recovered h)
  recover root wanted kind fixture = lift (transaction_root places fixture root) >>= λ r.
      recover_pending_transactions h r wanted kind fixture

  unfoldable pub finalize_fixture_transaction :
      String → String → Validation → Exec TransactionResult
  finalize_fixture_transaction root id v = finalize root id v "nixos-adoption" true

  unfoldable pub finalize_home_manager_fixture_transaction :
      String → String → Validation → Exec TransactionResult
  finalize_home_manager_fixture_transaction root id v =
      finalize root id v "home-manager-adoption" true

  unfoldable pub finalize_home_manager_live_transaction :
      String → String → Validation → Exec TransactionResult
  finalize_home_manager_live_transaction root id v =
      finalize root id v "home-manager-adoption" false

  unfoldable pub finalize_managed_live_transaction :
      String → String → Validation → Exec TransactionResult
  finalize_managed_live_transaction root id v =
      lift (require_live_managed_root places root) >>= λ _. finalize root id v "managed-state" false

  unfoldable pub rollback_fixture_transaction :
      String → String → Failure → Option Validation → Exec TransactionResult
  rollback_fixture_transaction root id reason v = roll_back root id reason (summary_of v) true none

  unfoldable pub rollback_home_manager_live_transaction :
      String → String → Failure → Option Validation → Exec TransactionResult
  rollback_home_manager_live_transaction root id reason v =
      roll_back root id reason (summary_of v) false (some "home-manager-adoption")

  unfoldable pub rollback_managed_live_transaction :
      String → String → Failure → Option Validation → Exec TransactionResult
  rollback_managed_live_transaction root id reason v =
      lift (require_live_managed_root places root) >>= λ _.
      roll_back root id reason (summary_of v) false (some "managed-state")

  unfoldable pub rollback_flake_lock_live_transaction :
      String → String → Failure → Option Verification → Exec TransactionResult
  rollback_flake_lock_live_transaction root id reason v =
      lift (require_live_managed_root places root) >>= λ _.
      roll_back root id reason v false (some "flake-lock-update")

  unfoldable pub recover_pending_fixture_transactions :
      String → Option String → Option String → Exec (Recovered h)
  recover_pending_fixture_transactions root wanted kind = recover root wanted kind true

  unfoldable pub recover_pending_home_manager_live_transactions :
      String → Option String → Exec (Recovered h)
  recover_pending_home_manager_live_transactions root wanted =
      recover root wanted (some "home-manager-adoption") false

  unfoldable pub recover_pending_managed_live_transactions :
      String → Option String → Exec (Recovered h)
  recover_pending_managed_live_transactions root wanted =
      lift (require_live_managed_root places root) >>= λ _.
      recover root wanted (some "managed-state") false

  unfoldable pub recover_pending_flake_lock_live_transactions :
      String → Option String → Exec (Recovered h)
  recover_pending_flake_lock_live_transactions root wanted =
      lift (require_live_managed_root places root) >>= λ _.
      recover root wanted (some "flake-lock-update") false
