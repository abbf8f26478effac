-- ===== src/Helper/Managed.antt =====
-- The managed-state methods of `HelperDispatcher` in helper_service.py.
use nixos_control_manager.Prelude.{ℕ, String, true, false, not, [], ◌∷◌}
use nixos_control_manager.Prelude.Dict.{lookup, insert, erase}
use nixos_control_manager.Json.{Json, bool, str, obj, fields, covers}
use nixos_control_manager.Protocol.{operation_disabled, path_not_allowed}
use nixos_control_manager.Protocol.Plans.{parse_plan, paths}
use nixos_control_manager.Protocol.Receipts.{parse_apply, parse_recover}
use nixos_control_manager.Helper.Target.{managed_paths}
use nixos_control_manager.Helper.State.{
  Dispatcher, Exec, PeerIdentity, pure, gets, lift, modify, require, call, token_urlsafe, ◌>>=◌,
  ◌>>◌, if◌then◌else◌, managed_apply_action, managed_recover_action, validate_managed_plan,
  apply_validated_managed_plan, recover_managed_transaction,
}
use nixos_control_manager.Helper.Response.{Response, ok_response, failed_validation, matching}
use nixos_control_manager.Helper.Steps.{allowed, target, expiry, respond, with_consent, passed, ttl}

abbrev pub write_scope : String
write_scope = "ncm/state.json:ncm/packages.nix"

module _ (d : Dispatcher) where
  -- `_validate_managed`
  unfoldable pub validate_managed : String → Json → ℕ → Exec Response
  validate_managed request_id raw uid = do
    payload ← lift (parse_plan d.sha256 false raw)
    t ← lift (target d payload.target_id)
    require t.managed_write_enabled operation_disabled
    require (covers managed_paths (paths payload.changes)) path_not_allowed
    require (allowed t payload.changes) path_not_allowed
    validation ← call d (validate_managed_plan t payload uid)
    if not (passed validation) then pure (failed_validation request_id validation) else do
      receipt ← token_urlsafe d
      expires_at ← expiry d
      modify (λ w. record w {
        pending_managed =
            insert receipt
              (record {
                receipt = receipt;
                peer_uid = uid;
                payload = payload;
                expires_at = expires_at;
                validation_result = validation;
              })
              w.pending_managed;
      })
      pure (
          ok_response request_id (
            fields (
              ("validationReceipt", str receipt)
              ∷ ("expiresInSeconds", ttl d)
              ∷ ("targetId", str payload.target_id)
              ∷ ("planFingerprint", str payload.plan_fingerprint)
              ∷ ("validation", obj validation)
              ∷ ("fixtureOnly", bool false)
              ∷ ("managedWriteEnabled", bool true)
              ∷ ("activationEnabled", bool false)
              ∷ [])))

  -- `_apply_managed`
  unfoldable pub apply_managed : String → Json → PeerIdentity → Exec Response
  apply_managed request_id raw peer = do
    payload ← lift (parse_apply raw)
    t ← lift (target d payload.target_id)
    require t.managed_write_enabled operation_disabled
    found ← gets (λ w. lookup payload.validation_receipt w.pending_managed)
    entry ← lift (
        matching (λ p. p.target_id) (λ p. p.plan_fingerprint) found peer.uid payload.target_id
          payload.plan_fingerprint)
    with_consent d request_id managed_apply_action peer
        (("targetId", payload.target_id)
          ∷ ("planFingerprint", payload.plan_fingerprint)
          ∷ ("writeScope", write_scope)
          ∷ [])
        (do
          modify (λ w. record w {
            pending_managed = erase payload.validation_receipt w.pending_managed;
          })
          respond d request_id (apply_validated_managed_plan t entry peer.uid))

  -- `_recover_managed`
  unfoldable pub recover_managed : String → Json → PeerIdentity → Exec Response
  recover_managed request_id raw peer = do
    payload ← lift (parse_recover raw)
    t ← lift (target d payload.target_id)
    require t.managed_write_enabled operation_disabled
    with_consent d request_id managed_recover_action peer
        (("targetId", payload.target_id)
          ∷ ("transactionId", payload.transaction_id)
          ∷ ("writeScope", write_scope)
          ∷ [])
        (respond d request_id (recover_managed_transaction t payload.transaction_id peer.uid))
