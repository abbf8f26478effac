-- ===== src/Helper/Sound/Activation.antt =====
-- The dispatcher's invariant and the activation methods of helper_service.py.
use nixos_control_manager.Prelude.{
  ℕ, String, Bool, true, false, not, ◌||◌, ◌≡◌, refl, some, arith, subst,
}
use nixos_control_manager.Prelude.Dict.{AllValues-insert, AllValues-erase, AllValues-lookup}
use nixos_control_manager.Json.{Json, Fields}
use nixos_control_manager.Protocol.Plans.{PreviewActivationPayload}
use nixos_control_manager.Helper.Target.{Target}
use nixos_control_manager.Helper.State.{Dispatcher, PendingTestActivation, PeerIdentity}
use nixos_control_manager.Helper.Response.{matching_test-eq_ok}
use nixos_control_manager.Helper.Steps.{respond}
use nixos_control_manager.Helper.Activation.{
  prepare_test, preview, test, recover_test, commit, rollback, session_status,
}
use nixos_control_manager.Helper.Holds.{
  Holds, Holds-pure, Holds-if, Holds-require, Holds-lift, Holds-gets, Holds-modify, Holds-bind,
}
use nixos_control_manager.Helper.Sanction.{IsPreviewFor, ReadyTest, IsSound, IsKeyed}
use nixos_control_manager.Helper.Sound.{
  same, target-eq_ok, token_urlsafe-IsSound, expiry-IsSound, call-IsSound, call-IsGranted,
  respond-IsGranted, spend-IsSound, with_consent-IsSound,
}
use nixos_control_manager.Helper.Sound.Tables.{with_tests}

read_only_live : (a b c : Bool) → not (a || b || c) ≡ true → (a ≡ false) × (b ≡ false) × (c ≡ false)
read_only_live a b c h = ground arith

module _ (d : Dispatcher) where
  prepare_test-IsSound :
      (id : String) (t : Target) (payload : PreviewActivationPayload) (uid : ℕ) (result : Fields)
      → IsPreviewFor d t payload
      → Holds (IsSound d) (IsSound d) (prepare_test d id t payload uid result)
  unfolding prepare_test
  prepare_test-IsSound id t payload uid result fits =
      Holds-if _ _ _
        (λ _. Holds-bind (same _) _ _ (token_urlsafe-IsSound d) λ receipt.
          Holds-bind (same _) _ _ (expiry-IsSound d) λ expires_at.
            Holds-bind (same _) _ _
              (Holds-modify _ λ w h.
                with_tests d h _
                  (AllValues-insert (ReadyTest d) receipt _ w.pending_tests (t, fits) h.tests))
              λ _. Holds-pure _)
        λ _. Holds-pure _

  pub preview-IsSound :
      (id : String) (raw : Json) (peer : PeerIdentity)
      → Holds (IsSound d) (IsSound d) (preview d id raw peer)
  unfolding preview
  preview-IsSound id raw peer = Holds-lift (same _) _ _ λ payload parsed.
      Holds-lift (same _) _ _ λ t found. Holds-require (same _) _ _ _ λ live.
        Holds-require (same _) _ _ _ λ within.
          let fits : IsPreviewFor d t payload = record {
            configured = target-eq_ok d payload.target_id found;
            within = within;
          } in
          let (a, b, c) =
            read_only_live t.fixture_only t.apply_enabled t.home_manager_apply_enabled live in
          with_consent-IsSound d _ _ _ _ _ (
            Holds-bind (same _) _ _ (call-IsGranted d _ _ (a, b, c, fits) refl)
              λ result. prepare_test-IsSound id t payload peer.uid result fits)

  pub test-IsSound :
      (id : String) (raw : Json) (peer : PeerIdentity)
      → Holds (IsSound d) (IsSound d) (test d id raw peer)
  unfolding test
  test-IsSound id raw peer = Holds-lift (same _) _ _ λ payload parsed.
      Holds-lift (same _) _ _ λ t found. Holds-require (same _) _ _ _ λ enabled.
        Holds-gets (λ o. (p : PendingTestActivation) → o ≡ some p → ReadyTest d p) _ _
          (λ w h p e. AllValues-lookup (ReadyTest d) payload.test_receipt w.pending_tests h.tests e)
          λ o fact. Holds-lift (same _) _ _ λ entry matched.
            let (held, own, target, digest, path) =
              matching_test-eq_ok o peer.uid payload matched in
            let (t', fits) = fact entry held in
            let one : t' ≡ t =
              cc (fits.configured, target, target-eq_ok d payload.target_id found) in
            with_consent-IsSound d _ _ _ _ _ (
              spend-IsSound d _ _ _ _
                (λ w h. with_tests d h _ (AllValues-erase (ReadyTest d) _ w.pending_tests h.tests))
                (λ w. refl) (enabled, subst (λ t. IsPreviewFor d t entry.payload) one fits)
                (cc (target, digest, path)))

  pub recover_test-IsSound :
      IsKeyed d
      → (id : String) (raw : Json) (peer : PeerIdentity)
      → Holds (IsSound d) (IsSound d) (recover_test d id raw peer)
  unfolding recover_test
  recover_test-IsSound keyed id raw peer = Holds-lift (same _) _ _ λ payload parsed.
      Holds-lift (same _) _ _ λ t found. Holds-require (same _) _ _ _ λ enabled.
        let own : t.target_id ≡ payload.target_id =
          keyed _ t (target-eq_ok d payload.target_id found) in
        with_consent-IsSound d _ _ _ _ _ (respond-IsGranted d _ _ _ enabled (rw own))

  pub commit-IsSound :
      (id : String) (raw : Json) (peer : PeerIdentity)
      → Holds (IsSound d) (IsSound d) (commit d id raw peer)
  unfolding commit
  commit-IsSound id raw peer = Holds-lift (same _) _ _ λ payload parsed.
      Holds-lift (same _) _ _ λ t found.
        Holds-require (same _) _ _ _
          λ enabled. with_consent-IsSound d _ _ _ _ _ (respond-IsGranted d _ _ _ enabled refl)

  pub rollback-IsSound :
      IsKeyed d
      → (id : String) (raw : Json) (peer : PeerIdentity)
      → Holds (IsSound d) (IsSound d) (rollback d id raw peer)
  unfolding rollback
  rollback-IsSound keyed id raw peer = Holds-lift (same _) _ _ λ payload parsed.
      Holds-lift (same _) _ _ λ t found. Holds-require (same _) _ _ _ λ enabled.
        let own : t.target_id ≡ payload.target_id =
          keyed _ t (target-eq_ok d payload.target_id found) in
        with_consent-IsSound d _ _ _ _ _ (respond-IsGranted d _ _ _ enabled (rw own))

  pub session_status-IsSound :
      (id : String) (raw : Json) (uid : ℕ)
      → Holds (IsSound d) (IsSound d) (session_status d id raw uid)
  unfolding session_status respond
  session_status-IsSound id raw uid = Holds-lift (same _) _ _ λ payload parsed.
      Holds-lift (same _) _ _ λ t found.
        Holds-require (same _) _ _ _
          λ enabled. Holds-bind (same _) _ _ (call-IsSound d _ enabled refl) λ fs. Holds-pure _
