-- ===== src/Helper/Sound/HomeManager.antt =====
-- The dispatcher's invariant and the Home Manager methods of helper_service.py.
use nixos_control_manager.Prelude.{ℕ, String, ◌≡◌, refl}
use nixos_control_manager.Prelude.Dict.{AllValues-insert, AllValues-erase}
use nixos_control_manager.Json.{Json}
use nixos_control_manager.Helper.State.{Dispatcher, PeerIdentity}
use nixos_control_manager.Helper.HomeManager.{
  validate_home_manager, apply_home_manager, recover_home_manager,
}
use nixos_control_manager.Helper.Holds.{
  Holds, Holds-pure, Holds-if, Holds-require, Holds-lift, Holds-modify, Holds-bind,
}
use nixos_control_manager.Helper.Sanction.{IsHomePlanFor, Ready, IsSound, IsKeyed}
use nixos_control_manager.Helper.Sound.{
  same, target-eq_ok, token_urlsafe-IsSound, expiry-IsSound, call-IsSound, respond-IsGranted,
  redeem-IsSound, spend-IsSound, with_consent-IsSound,
}
use nixos_control_manager.Helper.Sound.Tables.{with_home_plans}

module _ (d : Dispatcher) where
  pub validate_home_manager-IsSound :
      (id : String) (raw : Json) (uid : ℕ)
      → Holds (IsSound d) (IsSound d) (validate_home_manager d id raw uid)
  unfolding validate_home_manager
  validate_home_manager-IsSound id raw uid = Holds-lift (same _) _ _ λ payload parsed.
      Holds-lift (same _) _ _ λ t found. Holds-require (same _) _ _ _ λ enabled.
        Holds-require (same _) _ _ _ λ within.
          let fits : IsHomePlanFor d t payload = record {
            configured = target-eq_ok d payload.target_id found;
            within = within;
          } in
          Holds-bind (same _) _ _ (call-IsSound d _ (enabled, fits) refl) λ validation.
            Holds-if _ _ _ (λ _. Holds-pure _)
              λ _. Holds-bind (same _) _ _ (token_urlsafe-IsSound d) λ receipt.
                Holds-bind (same _) _ _ (expiry-IsSound d) λ expires_at.
                  Holds-bind (same _) _ _
                    (Holds-modify _ λ w h. with_home_plans d h _ (
                      AllValues-insert (Ready d (IsHomePlanFor d)) receipt _ w.pending_home_manager
                        (t, fits) h.home_plans))
                    λ _. Holds-pure _

  pub recover_home_manager-IsSound :
      IsKeyed d
      → (id : String) (raw : Json) (peer : PeerIdentity)
      → Holds (IsSound d) (IsSound d) (recover_home_manager d id raw peer)
  unfolding recover_home_manager
  recover_home_manager-IsSound keyed id raw peer = Holds-lift (same _) _ _ λ payload parsed.
      Holds-lift (same _) _ _ λ t found. Holds-require (same _) _ _ _ λ enabled.
        let own : t.target_id ≡ payload.target_id =
          keyed _ t (target-eq_ok d payload.target_id found) in
        with_consent-IsSound d _ _ _ _ _ (respond-IsGranted d _ _ _ enabled (rw own))

  pub apply_home_manager-IsSound :
      (id : String) (raw : Json) (peer : PeerIdentity)
      → Holds (IsSound d) (IsSound d) (apply_home_manager d id raw peer)
  unfolding apply_home_manager
  apply_home_manager-IsSound id raw peer = Holds-lift (same _) _ _ λ payload parsed.
      Holds-lift (same _) _ _ λ t found. Holds-require (same _) _ _ _ λ enabled.
        redeem-IsSound d (λ p. p.target_id) (λ p. p.plan_fingerprint) (IsHomePlanFor d)
          (λ w. w.pending_home_manager) (λ t p fits. fits.configured) (λ w h. h.home_plans) _ _ _ _
          t _ (target-eq_ok d payload.target_id found)
          λ entry own target fingerprint fits. with_consent-IsSound d _ _ _ _ _ (
            spend-IsSound d _ _ _ _
              (λ w h.
                with_home_plans d h _ (
                  AllValues-erase (Ready d (IsHomePlanFor d)) _ w.pending_home_manager
                    h.home_plans))
              (λ w. refl) (enabled, own, fits) (cc (target, fingerprint)))
