-- ===== src/Protocol.antt =====
-- helper_protocol.py: errors, the checks that every message passes, and the request envelope.
-- The text of an error message is not modelled: no code reads it, and it takes no part in a branch.
mod Errors
pub mod Candidate
pub mod Plans
pub mod Receipts
pub mod Sound
pub mod RoundTrip
unfoldable pub use Errors.*
use nixos_control_manager.Prelude.{
  String, Bool, true, false, ◌&&◌, Option, none, some, List, [], ◌∷◌,
}
use nixos_control_manager.Prelude.Dict.{Dict, lookup}
use nixos_control_manager.Json.{Json, Fields, str, obj, get, keys, covers, is_one}
use nixos_control_manager.Format.{is_request_id, is_target_id, is_sha256}

-- `_mapping`
abbrev pub mapping : Json → Result Fields
mapping (obj fs) = ok fs
mapping _ = err (protocol invalid_request)

-- `_exact_keys`: first the unknown fields, then the missing ones.
unfoldable pub exact_keys : Fields → List String → Result (Unit {0})
unfolding covers
exact_keys fs expected = do
  require (covers expected (keys fs)) invalid_request
  require (covers (keys fs) expected) invalid_request

-- `_string`
abbrev pub string : Json → Result String
string (str s) = ok s
string _ = err (protocol invalid_request)

-- `fs[key]`; a missing key is a `KeyError`.
abbrev or_key_error : Option Json → Result Json
or_key_error none = err crash
or_key_error (some v) = ok v

unfoldable pub item : Fields → String → Result Json
unfolding get
item fs k = or_key_error (get k fs)

-- `_target_id`
unfoldable pub target_id : Json → Result String
target_id v = do target ← string v; require (is_target_id target) invalid_target; ok target

-- `_sha256`
unfoldable pub sha256_text : Json → Result String
sha256_text v = do digest ← string v; require (is_sha256 digest) invalid_digest; ok digest

-- `SUPPORTED_OPERATIONS`
pub data Operation : Type 0 where
  capabilities : Operation
  validate_plan apply_validated_plan recover_transaction : Operation
  validate_home_manager_plan apply_validated_home_manager_plan : Operation
  recover_home_manager_transaction : Operation
  validate_managed_plan apply_validated_managed_plan recover_managed_transaction : Operation
  validate_flake_lock_update apply_validated_flake_lock_update : Operation
  recover_flake_lock_transaction : Operation
  preview_activation test_activation recover_test_activation : Operation
  commit_tested_system rollback_committed_system activation_session_status : Operation

abbrev pub supported_operations : Dict Operation
supported_operations =
    ("capabilities", capabilities)
    ∷ ("validate-plan", validate_plan)
    ∷ ("preview-activation", preview_activation)
    ∷ ("test-activation", test_activation)
    ∷ ("recover-test-activation", recover_test_activation)
    ∷ ("commit-tested-system", commit_tested_system)
    ∷ ("rollback-committed-system", rollback_committed_system)
    ∷ ("activation-session-status", activation_session_status)
    ∷ ("apply-validated-plan", apply_validated_plan)
    ∷ ("recover-transaction", recover_transaction)
    ∷ ("validate-home-manager-plan", validate_home_manager_plan)
    ∷ ("apply-validated-home-manager-plan", apply_validated_home_manager_plan)
    ∷ ("recover-home-manager-transaction", recover_home_manager_transaction)
    ∷ ("validate-managed-plan", validate_managed_plan)
    ∷ ("apply-validated-managed-plan", apply_validated_managed_plan)
    ∷ ("recover-managed-transaction", recover_managed_transaction)
    ∷ ("validate-flake-lock-update", validate_flake_lock_update)
    ∷ ("apply-validated-flake-lock-update", apply_validated_flake_lock_update)
    ∷ ("recover-flake-lock-transaction", recover_flake_lock_transaction)
    ∷ []

abbrev supported : Option Operation → Result Operation
supported none = err (protocol unsupported_operation)
supported (some o) = ok o

pub record HelperRequest : Type 0 where
  pub request_id : String
  pub operation : Operation
  pub payload : Fields

-- `HelperRequest.from_mapping`
unfoldable pub parse_request : Json → Result HelperRequest
unfolding exact_keys item lookup
parse_request raw = do
  fs ← mapping raw
  exact_keys fs ("schemaVersion" ∷ "requestId" ∷ "operation" ∷ "payload" ∷ [])
  version ← item fs "schemaVersion"
  require (is_one version) unsupported_version
  request_id ← string (← item fs "requestId")
  require (is_request_id request_id) invalid_request
  operation ← string (← item fs "operation")
  known ← supported (lookup operation supported_operations)
  payload ← mapping (← item fs "payload")
  ok (record { request_id = request_id; operation = known; payload = payload })
