-- ===== src/Helper/FlakeLock.antt =====
-- The flake.lock methods of `HelperDispatcher` in helper_service.py.
use nixos_control_manager.Prelude.{ℕ, String, true, false, not, [], ◌∷◌}
use nixos_control_manager.Prelude.Dict.{lookup, insert, erase}
use nixos_control_manager.Json.{Json, bool, str, obj, fields}
use nixos_control_manager.Protocol.{operation_disabled}
use nixos_control_manager.Protocol.Plans.{parse_flake_lock_update}
use nixos_control_manager.Protocol.Receipts.{parse_apply, parse_recover}
use nixos_control_manager.Helper.State.{
  Dispatcher, Exec, PeerIdentity, pure, gets, lift, modify, require, call, token_urlsafe, ◌>>=◌,
  ◌>>◌, if◌then◌else◌, flake_lock_apply_action, flake_lock_recover_action,
  validate_flake_lock_update, apply_validated_flake_lock_update, recover_flake_lock_transaction,
}
use nixos_control_manager.Helper.Response.{Response, ok_response, failed_validation, matching}
use nixos_control_manager.Helper.Steps.{target, expiry, respond, with_consent, passed, ttl}

module _ (d : Dispatcher) where
  -- `_validate_flake_lock`
  unfoldable pub validate_flake_lock : String → Json → ℕ → Exec Response
  validate_flake_lock request_id raw uid = do
    payload ← lift (parse_flake_lock_update d.sha256 raw)
    t ← lift (target d payload.target_id)
    require t.flake_lock_write_enabled operation_disabled
    validation ← call d (validate_flake_lock_update t payload uid)
    if not (passed validation) then pure (failed_validation request_id validation) else do
      receipt ← token_urlsafe d
      expires_at ← expiry d
      modify (λ w. record w {
        pending_flake_lock =
            insert receipt
              (record {
                receipt = receipt;
                peer_uid = uid;
                payload = payload;
                expires_at = expires_at;
                validation_result = validation;
              })
              w.pending_flake_lock;
      })
      pure (
          ok_response request_id (
            fields (
              ("validationReceipt", str receipt)
              ∷ ("expiresInSeconds", ttl d)
              ∷ ("targetId", str payload.target_id)
              ∷ ("planFingerprint", str payload.plan_fingerprint)
              ∷ ("inputName", str payload.input_name)
              ∷ ("validation", obj validation)
              ∷ ("fixtureOnly", bool false)
              ∷ ("flakeLockWriteEnabled", bool true)
              ∷ ("activationEnabled", bool false)
              ∷ [])))

  -- `_apply_flake_lock`
  unfoldable pub apply_flake_lock : String → Json → PeerIdentity → Exec Response
  apply_flake_lock request_id raw peer = do
    payload ← lift (parse_apply raw)
    t ← lift (target d payload.target_id)
    require t.flake_lock_write_enabled operation_disabled
    found ← gets (λ w. lookup payload.validation_receipt w.pending_flake_lock)
    entry ← lift (
        matching (λ p. p.target_id) (λ p. p.plan_fingerprint) found peer.uid payload.target_id
          payload.plan_fingerprint)
    with_consent d request_id flake_lock_apply_action peer
        (("targetId", payload.target_id)
          ∷ ("planFingerprint", payload.plan_fingerprint)
          ∷ ("inputName", entry.payload.input_name)
          ∷ ("writeScope", "flake.lock")
          ∷ [])
        (do
          modify (λ w. record w {
            pending_flake_lock = erase payload.validation_receipt w.pending_flake_lock;
          })
          respond d request_id (apply_validated_flake_lock_update t entry peer.uid))

  -- `_recover_flake_lock`
  unfoldable pub recover_flake_lock : String → Json → PeerIdentity → Exec Response
  recover_flake_lock request_id raw peer = do
    payload ← lift (parse_recover raw)
    t ← lift (target d payload.target_id)
    require t.flake_lock_write_enabled operation_disabled
    with_consent d request_id flake_lock_recover_action peer
        (("targetId", payload.target_id) ∷ ("transactionId", payload.transaction_id) ∷ [])
        (respond d request_id (recover_flake_lock_transaction t payload.transaction_id peer.uid))
