-- ===== src/Helper/Plans.antt =====
-- The methods of `HelperDispatcher` that validate plans, apply them and recover transactions.
use nixos_control_manager.Prelude.{ℕ, String, true, false, not, [], ◌∷◌}
use nixos_control_manager.Prelude.Dict.{lookup, insert, erase}
use nixos_control_manager.Json.{Json, bool, str, obj, fields}
use nixos_control_manager.Protocol.{operation_disabled, path_not_allowed}
use nixos_control_manager.Protocol.Plans.{parse_plan}
use nixos_control_manager.Protocol.Receipts.{parse_apply, parse_recover}
use nixos_control_manager.Helper.State.{
  Dispatcher, Exec, PeerIdentity, pure, gets, lift, modify, require, call, token_urlsafe, ◌>>=◌,
  ◌>>◌, if◌then◌else◌, apply_action, recover_action, validate_plan, apply_validated_plan,
  recover_transaction,
}
use nixos_control_manager.Helper.Response.{Response, ok_response, failed_validation, matching}
use nixos_control_manager.Helper.Steps.{allowed, target, expiry, respond, with_consent, passed, ttl}

module _ (d : Dispatcher) where
  -- `_validate`
  unfoldable pub validate : String → Json → ℕ → Exec Response
  validate request_id raw uid = do
    payload ← lift (parse_plan d.sha256 false raw)
    t ← lift (target d payload.target_id)
    require (allowed t payload.changes) path_not_allowed
    validation ← call d (validate_plan t payload uid)
    if not (passed validation)
        then pure (failed_validation request_id validation)
        else if not t.apply_enabled
        then pure (
            ok_response request_id (
              fields (
                ("targetId", str payload.target_id)
                ∷ ("planFingerprint", str payload.plan_fingerprint)
                ∷ ("validation", obj validation)
                ∷ ("readOnly", bool true)
                ∷ ("applyEnabled", bool false)
                ∷ ("activationEnabled", bool false)
                ∷ [])))
        else do
          receipt ← token_urlsafe d
          expires_at ← expiry d
          modify (λ w. record w {
            pending =
                insert receipt
                  (record {
                    receipt = receipt;
                    peer_uid = uid;
                    payload = payload;
                    expires_at = expires_at;
                    validation_result = validation;
                  })
                  w.pending;
          })
          pure (
              ok_response request_id (
                fields (
                  ("validationReceipt", str receipt)
                  ∷ ("expiresInSeconds", ttl d)
                  ∷ ("targetId", str payload.target_id)
                  ∷ ("planFingerprint", str payload.plan_fingerprint)
                  ∷ ("validation", obj validation)
                  ∷ ("activationEnabled", bool false)
                  ∷ [])))

  -- `_apply`
  unfoldable pub apply : String → Json → PeerIdentity → Exec Response
  apply request_id raw peer = do
    payload ← lift (parse_apply raw)
    t ← lift (target d payload.target_id)
    require t.apply_enabled operation_disabled
    found ← gets (λ w. lookup payload.validation_receipt w.pending)
    entry ← lift (
        matching (λ p. p.target_id) (λ p. p.plan_fingerprint) found peer.uid payload.target_id
          payload.plan_fingerprint)
    with_consent d request_id apply_action peer
        (("targetId", payload.target_id) ∷ ("planFingerprint", payload.plan_fingerprint) ∷ [])
        (do
          modify (λ w. record w { pending = erase payload.validation_receipt w.pending })
          respond d request_id (apply_validated_plan t entry peer.uid))

  -- `_recover`
  unfoldable pub recover : String → Json → PeerIdentity → Exec Response
  recover request_id raw peer = do
    payload ← lift (parse_recover raw)
    t ← lift (target d payload.target_id)
    require t.apply_enabled operation_disabled
    with_consent d request_id recover_action peer
        (("targetId", payload.target_id) ∷ ("transactionId", payload.transaction_id) ∷ [])
        (respond d request_id (recover_transaction t payload.transaction_id peer.uid))
