-- ===== src/Protocol/Receipts.antt =====
-- The payloads of helper_protocol.py that name a receipt, a session or a transaction.
use nixos_control_manager.Prelude.{String, [], ◌∷◌}
use nixos_control_manager.Json.{Json}
use nixos_control_manager.Format.{is_store_path, is_receipt, is_transaction_id}
use nixos_control_manager.Protocol.{
  Result, ok, ◌>>=◌, ◌>>◌, require, invalid_request, invalid_store_path, invalid_receipt, mapping,
  exact_keys, string, item, target_id, sha256_text,
}

pub record TestActivationPayload : Type 0 where
  pub target_id : String
  pub plan_fingerprint : String
  pub system_path : String
  pub test_receipt : String

-- Also `ActivationSessionPayload`, which has the same fields and parser.
pub record RecoverTestActivationPayload : Type 0 where
  pub target_id : String
  pub session_id : String

-- The four classes `ApplyValidated…Payload` have these fields, and the same checks.
pub record ApplyPayload : Type 0 where
  pub target_id : String
  pub plan_fingerprint : String
  pub validation_receipt : String

-- The four classes `Recover…TransactionPayload` have these fields, and the same checks.
pub record RecoverPayload : Type 0 where
  pub target_id : String
  pub transaction_id : String

-- `TestActivationPayload.from_mapping`
unfoldable pub parse_test_activation : Json → Result TestActivationPayload
unfolding exact_keys item target_id sha256_text
parse_test_activation raw = do
  fs ← mapping raw
  exact_keys fs ("targetId" ∷ "planFingerprint" ∷ "systemPath" ∷ "testReceipt" ∷ [])
  system_path ← string (← item fs "systemPath")
  require (is_store_path system_path) invalid_store_path
  receipt ← string (← item fs "testReceipt")
  require (is_receipt receipt) invalid_receipt
  target ← target_id (← item fs "targetId")
  fingerprint ← sha256_text (← item fs "planFingerprint")
  ok (record {
    target_id = target;
    plan_fingerprint = fingerprint;
    system_path = system_path;
    test_receipt = receipt;
  })

-- `RecoverTestActivationPayload.from_mapping`
unfoldable pub parse_session : Json → Result RecoverTestActivationPayload
unfolding exact_keys item target_id
parse_session raw = do
  fs ← mapping raw
  exact_keys fs ("targetId" ∷ "sessionId" ∷ [])
  session_id ← string (← item fs "sessionId")
  require (is_transaction_id session_id) invalid_request
  target ← target_id (← item fs "targetId")
  ok (record { target_id = target; session_id = session_id })

-- `ApplyValidatedPlanPayload.from_mapping`
unfoldable pub parse_apply : Json → Result ApplyPayload
unfolding exact_keys item target_id sha256_text
parse_apply raw = do
  fs ← mapping raw
  exact_keys fs ("targetId" ∷ "planFingerprint" ∷ "validationReceipt" ∷ [])
  receipt ← string (← item fs "validationReceipt")
  require (is_receipt receipt) invalid_receipt
  target ← target_id (← item fs "targetId")
  fingerprint ← sha256_text (← item fs "planFingerprint")
  ok (record { target_id = target; plan_fingerprint = fingerprint; validation_receipt = receipt })

-- `RecoverTransactionPayload.from_mapping`
unfoldable pub parse_recover : Json → Result RecoverPayload
unfolding exact_keys item target_id
parse_recover raw = do
  fs ← mapping raw
  exact_keys fs ("targetId" ∷ "transactionId" ∷ [])
  transaction_id ← string (← item fs "transactionId")
  require (is_transaction_id transaction_id) invalid_request
  target ← target_id (← item fs "targetId")
  ok (record { target_id = target; transaction_id = transaction_id })
