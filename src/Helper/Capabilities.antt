-- ===== src/Helper/Capabilities.antt =====
-- The reply to the operation `capabilities`, and `validate_empty_payload`.
use nixos_control_manager.Prelude.{String, false, not, ◌&&◌, ◌||◌, [], ◌∷◌, map}
use nixos_control_manager.Json.{
  Json, Fields, bool, int, pos, str, arr, items, fields, object, strings,
}
use nixos_control_manager.Protocol.{Result, ◌>>=◌, mapping, exact_keys, supported_operations}
use nixos_control_manager.Protocol.Plans.{sorted}
use nixos_control_manager.Helper.Target.{Target}
use nixos_control_manager.Helper.State.{
  Dispatcher, ActionId, apply_action, recover_action, home_manager_apply_action,
  home_manager_recover_action, managed_apply_action, managed_recover_action,
  flake_lock_apply_action, flake_lock_recover_action, preview_activation_action,
  test_activation_action, recover_test_activation_action, commit_tested_system_action,
  rollback_committed_system_action,
}
use nixos_control_manager.Helper.Steps.{home_manager_permitted}

-- `validate_empty_payload`
unfoldable pub empty_payload : Json → Result (Unit {0})
unfolding exact_keys
empty_payload raw = do fs ← mapping raw; exact_keys fs []

-- The constants `…_ACTION_ID`
abbrev pub action_id : ActionId → String
action_id apply_action = "org.nixos.nix-control-manager.apply-validated-plan"
action_id recover_action = "org.nixos.nix-control-manager.recover-transaction"
action_id home_manager_apply_action =
    "org.nixos.nix-control-manager.apply-validated-home-manager-plan"
action_id home_manager_recover_action =
    "org.nixos.nix-control-manager.recover-home-manager-transaction"
action_id managed_apply_action = "org.nixos.nix-control-manager.apply-validated-managed-plan"
action_id managed_recover_action = "org.nixos.nix-control-manager.recover-managed-transaction"
action_id flake_lock_apply_action =
    "org.nixos.nix-control-manager.apply-validated-flake-lock-update"
action_id flake_lock_recover_action = "org.nixos.nix-control-manager.recover-flake-lock-transaction"
action_id preview_activation_action = "org.nixos.nix-control-manager.preview-activation"
action_id test_activation_action = "org.nixos.nix-control-manager.test-activation"
action_id recover_test_activation_action = "org.nixos.nix-control-manager.recover-test-activation"
action_id commit_tested_system_action = "org.nixos.nix-control-manager.commit-tested-system"
action_id rollback_committed_system_action =
    "org.nixos.nix-control-manager.rollback-committed-system"

target_capabilities : Target → Json
unfolding sorted
target_capabilities t = object (
    ("targetId", str t.target_id)
    ∷ ("allowedRelativePaths", strings (sorted t.allowed_relative_paths))
    ∷ ("fixtureOnly", bool t.fixture_only)
    ∷ ("liveTarget", bool (not t.fixture_only))
    ∷ ("readOnly", bool (not t.apply_enabled))
    ∷ ("applyEnabled", bool t.apply_enabled)
    ∷ ("recoveryEnabled", bool t.apply_enabled)
    ∷ ("homeManagerFixtureEnabled", bool (t.fixture_only && t.apply_enabled))
    ∷ ("homeManagerApplyEnabled", bool (home_manager_permitted t))
    ∷ ("homeManagerLiveWriteEnabled", bool t.home_manager_apply_enabled)
    ∷ ("managedWriteEnabled", bool t.managed_write_enabled)
    ∷ ("managedRecoveryEnabled", bool t.managed_write_enabled)
    ∷ ("flakeLockWriteEnabled", bool t.flake_lock_write_enabled)
    ∷ ("flakeLockRecoveryEnabled", bool t.flake_lock_write_enabled)
    ∷ (
      "dryActivatePreviewEnabled",
      bool (
          not t.fixture_only
          && not t.home_manager_apply_enabled
          && (not t.managed_write_enabled || t.permanent_switch_enabled)),
    )
    ∷ ("testActivationEnabled", bool t.test_activation_enabled)
    ∷ ("permanentSwitchEnabled", bool t.permanent_switch_enabled)
    ∷ ("rollbackGenerationEnabled", bool t.permanent_switch_enabled)
    ∷ [])

authorization_actions : Json
authorization_actions = object (
    ("apply-validated-plan", str (action_id apply_action))
    ∷ ("recover-transaction", str (action_id recover_action))
    ∷ ("apply-validated-home-manager-plan", str (action_id home_manager_apply_action))
    ∷ ("recover-home-manager-transaction", str (action_id home_manager_recover_action))
    ∷ ("apply-validated-managed-plan", str (action_id managed_apply_action))
    ∷ ("recover-managed-transaction", str (action_id managed_recover_action))
    ∷ ("apply-validated-flake-lock-update", str (action_id flake_lock_apply_action))
    ∷ ("recover-flake-lock-transaction", str (action_id flake_lock_recover_action))
    ∷ ("preview-activation", str (action_id preview_activation_action))
    ∷ ("test-activation", str (action_id test_activation_action))
    ∷ ("recover-test-activation", str (action_id recover_test_activation_action))
    ∷ ("commit-tested-system", str (action_id commit_tested_system_action))
    ∷ ("rollback-committed-system", str (action_id rollback_committed_system_action))
    ∷ [])

unfoldable pub capabilities_result : Dispatcher → Fields
unfolding target_capabilities authorization_actions sorted
capabilities_result d = fields (
    ("protocolVersion", int (pos 1))
    ∷ ("operations", strings (sorted (map (λ o. o.0) supported_operations)))
    ∷ ("targets", arr (items (map (λ t. target_capabilities t.1) d.targets)))
    ∷ ("authorizationActions", authorization_actions)
    ∷ ("arbitraryCommandsAccepted", bool false)
    ∷ ("activationEnabled", bool false)
    ∷ [])
