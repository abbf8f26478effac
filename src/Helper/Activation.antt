-- ===== src/Helper/Activation.antt =====
-- The activation methods of `HelperDispatcher` in helper_service.py.
use nixos_control_manager.Prelude.{ℕ, String, true, false, not, ◌||◌, [], ◌∷◌}
use nixos_control_manager.Prelude.Dict.{lookup, insert, erase}
use nixos_control_manager.Json.{Json, Fields, bool, str, put}
use nixos_control_manager.Protocol.{operation_disabled, path_not_allowed}
use nixos_control_manager.Protocol.Plans.{PreviewActivationPayload, parse_preview, parse_commit}
use nixos_control_manager.Protocol.Receipts.{parse_test_activation, parse_session}
use nixos_control_manager.Helper.Target.{Target}
use nixos_control_manager.Helper.State.{
  Dispatcher, Exec, PeerIdentity, pure, gets, lift, modify, require, call, token_urlsafe, ◌>>=◌,
  ◌>>◌, if◌then◌else◌, preview_activation_action, test_activation_action,
  recover_test_activation_action, commit_tested_system_action, rollback_committed_system_action,
  preview_activation, test_activation, recover_test_activation, commit_tested_system,
  rollback_committed_system, activation_session_status,
}
use nixos_control_manager.Helper.Response.{Response, ok_response, matching_test}
use nixos_control_manager.Helper.Steps.{allowed, target, expiry, respond, with_consent, ttl}

module _ (d : Dispatcher) where
  -- The rest of `_preview_activation`, once the backend has replied.
  unfoldable pub prepare_test :
      String → Target → PreviewActivationPayload → ℕ → Fields → Exec Response
  prepare_test request_id t payload uid result =
      if t.test_activation_enabled
      then (do
        receipt ← token_urlsafe d
        expires_at ← expiry d
        modify (λ w. record w {
          pending_tests =
              insert receipt
                (record {
                  receipt = receipt;
                  peer_uid = uid;
                  payload = payload;
                  expires_at = expires_at;
                })
                w.pending_tests;
        })
        pure (
            ok_response request_id (
              put "testReceiptExpiresInSeconds" (ttl d) (
                put "testReceipt" (str receipt)
                  (put "testActivationPrepared" (bool true) result)))))
      else pure (ok_response request_id (put "testActivationPrepared" (bool false) result))

  -- `_preview_activation`
  unfoldable pub preview : String → Json → PeerIdentity → Exec Response
  preview request_id raw peer = do
    payload ← lift (parse_preview d.sha256 raw)
    t ← lift (target d payload.target_id)
    require (not (t.fixture_only || t.apply_enabled || t.home_manager_apply_enabled))
        operation_disabled
    require (allowed t payload.changes) path_not_allowed
    with_consent d request_id preview_activation_action peer
        (("targetId", payload.target_id)
          ∷ ("planFingerprint", payload.plan_fingerprint)
          ∷ ("systemPath", payload.system_path)
          ∷ [])
        (do
          result ← call d (preview_activation t payload peer.uid)
          prepare_test request_id t payload peer.uid result)

  -- `_test_activation`
  unfoldable pub test : String → Json → PeerIdentity → Exec Response
  test request_id raw peer = do
    payload ← lift (parse_test_activation raw)
    t ← lift (target d payload.target_id)
    require t.test_activation_enabled operation_disabled
    found ← gets (λ w. lookup payload.test_receipt w.pending_tests)
    entry ← lift (matching_test found peer.uid payload)
    with_consent d request_id test_activation_action peer
        (("targetId", payload.target_id)
          ∷ ("planFingerprint", payload.plan_fingerprint)
          ∷ ("systemPath", payload.system_path)
          ∷ [])
        (do
          modify (λ w. record w { pending_tests = erase payload.test_receipt w.pending_tests })
          respond d request_id (test_activation t entry.payload peer.uid))

  -- `_recover_test_activation`
  unfoldable pub recover_test : String → Json → PeerIdentity → Exec Response
  recover_test request_id raw peer = do
    payload ← lift (parse_session raw)
    t ← lift (target d payload.target_id)
    require t.test_activation_enabled operation_disabled
    with_consent d request_id recover_test_activation_action peer
        (("targetId", payload.target_id) ∷ ("sessionId", payload.session_id) ∷ [])
        (respond d request_id (recover_test_activation t payload.session_id peer.uid))

  -- `_commit_tested_system`
  unfoldable pub commit : String → Json → PeerIdentity → Exec Response
  commit request_id raw peer = do
    payload ← lift (parse_commit d.sha256 raw)
    t ← lift (target d payload.target_id)
    require t.permanent_switch_enabled operation_disabled
    with_consent d request_id commit_tested_system_action peer
        (("targetId", payload.target_id)
          ∷ ("sessionId", payload.session_id)
          ∷ ("planFingerprint", payload.plan_fingerprint)
          ∷ ("systemPath", payload.system_path)
          ∷ [])
        (respond d request_id (commit_tested_system t payload peer.uid))

  -- `_rollback_committed_system`
  unfoldable pub rollback : String → Json → PeerIdentity → Exec Response
  rollback request_id raw peer = do
    payload ← lift (parse_session raw)
    t ← lift (target d payload.target_id)
    require t.permanent_switch_enabled operation_disabled
    with_consent d request_id rollback_committed_system_action peer
        (("targetId", payload.target_id) ∷ ("sessionId", payload.session_id) ∷ [])
        (respond d request_id (rollback_committed_system t payload.session_id peer.uid))

  -- `_activation_session_status`
  unfoldable pub session_status : String → Json → ℕ → Exec Response
  session_status request_id raw uid = do
    payload ← lift (parse_session raw)
    t ← lift (target d payload.target_id)
    require t.permanent_switch_enabled operation_disabled
    respond d request_id (activation_session_status t payload.session_id uid)
