-- ===== src/Helper/HomeManager.antt =====
-- The Home Manager methods of `HelperDispatcher` in helper_service.py.
use nixos_control_manager.Prelude.{ℕ, String, false, not, [], ◌∷◌}
use nixos_control_manager.Prelude.Dict.{lookup, insert, erase}
use nixos_control_manager.Json.{Json, bool, str, obj, fields}
use nixos_control_manager.Protocol.{operation_disabled, path_not_allowed}
use nixos_control_manager.Protocol.Plans.{parse_home_manager_plan}
use nixos_control_manager.Protocol.Receipts.{parse_apply, parse_recover}
use nixos_control_manager.Helper.State.{
  Dispatcher, Exec, PeerIdentity, pure, gets, lift, modify, require, call, token_urlsafe, ◌>>=◌,
  ◌>>◌, if◌then◌else◌, home_manager_apply_action, home_manager_recover_action,
  validate_home_manager_plan, apply_validated_home_manager_plan, recover_home_manager_transaction,
}
use nixos_control_manager.Helper.Response.{Response, ok_response, failed_validation, matching}
use nixos_control_manager.Helper.Steps.{
  allowed, home_manager_permitted, target, expiry, respond, with_consent, passed, ttl,
}

module _ (d : Dispatcher) where
  -- `_validate_home_manager`
  unfoldable pub validate_home_manager : String → Json → ℕ → Exec Response
  validate_home_manager request_id raw uid = do
    payload ← lift (parse_home_manager_plan d.sha256 raw)
    t ← lift (target d payload.target_id)
    require (home_manager_permitted t) operation_disabled
    require (allowed t payload.changes) path_not_allowed
    validation ← call d (validate_home_manager_plan t payload uid)
    if not (passed validation) then pure (failed_validation request_id validation) else do
      receipt ← token_urlsafe d
      expires_at ← expiry d
      modify (λ w. record w {
        pending_home_manager =
            insert receipt
              (record {
                receipt = receipt;
                peer_uid = uid;
                payload = payload;
                expires_at = expires_at;
                validation_result = validation;
              })
              w.pending_home_manager;
      })
      pure (
          ok_response request_id (
            fields (
              ("validationReceipt", str receipt)
              ∷ ("expiresInSeconds", ttl d)
              ∷ ("targetId", str payload.target_id)
              ∷ ("planFingerprint", str payload.plan_fingerprint)
              ∷ ("username", str payload.username)
              ∷ ("integration", str payload.integration)
              ∷ ("validation", obj validation)
              ∷ ("fixtureOnly", bool t.fixture_only)
              ∷ ("liveWriteEnabled", bool t.home_manager_apply_enabled)
              ∷ ("activationEnabled", bool false)
              ∷ [])))

  -- `_apply_home_manager`
  unfoldable pub apply_home_manager : String → Json → PeerIdentity → Exec Response
  apply_home_manager request_id raw peer = do
    payload ← lift (parse_apply raw)
    t ← lift (target d payload.target_id)
    require (home_manager_permitted t) operation_disabled
    found ← gets (λ w. lookup payload.validation_receipt w.pending_home_manager)
    entry ← lift (
        matching (λ p. p.target_id) (λ p. p.plan_fingerprint) found peer.uid payload.target_id
          payload.plan_fingerprint)
    with_consent d request_id home_manager_apply_action peer
        (("targetId", payload.target_id)
          ∷ ("planFingerprint", payload.plan_fingerprint)
          ∷ ("username", entry.payload.username)
          ∷ ("integration", entry.payload.integration)
          ∷ [])
        (do
          modify (λ w. record w {
            pending_home_manager = erase payload.validation_receipt w.pending_home_manager;
          })
          respond d request_id (apply_validated_home_manager_plan t entry peer.uid))

  -- `_recover_home_manager`
  unfoldable pub recover_home_manager : String → Json → PeerIdentity → Exec Response
  recover_home_manager request_id raw peer = do
    payload ← lift (parse_recover raw)
    t ← lift (target d payload.target_id)
    require (home_manager_permitted t) operation_disabled
    with_consent d request_id home_manager_recover_action peer
        (("targetId", payload.target_id) ∷ ("transactionId", payload.transaction_id) ∷ [])
        (respond d request_id (recover_home_manager_transaction t payload.transaction_id peer.uid))
