-- ===== src/Helper/Sound/Managed.antt =====
-- The dispatcher's invariant and the managed-state methods of helper_service.py.
use nixos_control_manager.Prelude.{ℕ, String, false, ◌≡◌, refl}
use nixos_control_manager.Prelude.Dict.{AllValues-insert, AllValues-erase}
use nixos_control_manager.Json.{Json}
use nixos_control_manager.Protocol.Sound.{parse_plan-IsPlan}
use nixos_control_manager.Helper.State.{Dispatcher, PeerIdentity}
use nixos_control_manager.Helper.Managed.{validate_managed, apply_managed, recover_managed}
use nixos_control_manager.Helper.Holds.{
  Holds, Holds-pure, Holds-if, Holds-require, Holds-lift, Holds-modify, Holds-bind,
}
use nixos_control_manager.Helper.Sanction.{IsManagedPlanFor, Ready, IsSound, IsKeyed}
use nixos_control_manager.Helper.Sound.{
  same, target-eq_ok, token_urlsafe-IsSound, expiry-IsSound, call-IsSound, respond-IsGranted,
  redeem-IsSound, spend-IsSound, with_consent-IsSound,
}
use nixos_control_manager.Helper.Sound.Tables.{with_managed_plans}

module _ (d : Dispatcher) where
  pub validate_managed-IsSound :
      (id : String) (raw : Json) (uid : ℕ)
      → Holds (IsSound d) (IsSound d) (validate_managed d id raw uid)
  unfolding validate_managed
  validate_managed-IsSound id raw uid = Holds-lift (same _) _ _ λ payload parsed.
      Holds-lift (same _) _ _ λ t found. Holds-require (same _) _ _ _ λ enabled.
        Holds-require (same _) _ _ _ λ owned. Holds-require (same _) _ _ _ λ within.
          let fits : IsManagedPlanFor d t payload = record {
            configured = target-eq_ok d payload.target_id found;
            within = within;
            owned = owned;
            plan = parse_plan-IsPlan d.sha256 false raw parsed;
          } in
          Holds-bind (same _) _ _ (call-IsSound d _ (enabled, fits) refl) λ validation.
            Holds-if _ _ _ (λ _. Holds-pure _)
              λ _. Holds-bind (same _) _ _ (token_urlsafe-IsSound d) λ receipt.
                Holds-bind (same _) _ _ (expiry-IsSound d) λ expires_at.
                  Holds-bind (same _) _ _
                    (Holds-modify _ λ w h. with_managed_plans d h _ (
                      AllValues-insert (Ready d (IsManagedPlanFor d)) receipt _ w.pending_managed
                        (t, fits) h.managed_plans))
                    λ _. Holds-pure _

  pub recover_managed-IsSound :
      IsKeyed d
      → (id : String) (raw : Json) (peer : PeerIdentity)
      → Holds (IsSound d) (IsSound d) (recover_managed d id raw peer)
  unfolding recover_managed
  recover_managed-IsSound keyed id raw peer = Holds-lift (same _) _ _ λ payload parsed.
      Holds-lift (same _) _ _ λ t found. Holds-require (same _) _ _ _ λ enabled.
        let own : t.target_id ≡ payload.target_id =
          keyed _ t (target-eq_ok d payload.target_id found) in
        with_consent-IsSound d _ _ _ _ _ (respond-IsGranted d _ _ _ enabled (rw own))

  pub apply_managed-IsSound :
      (id : String) (raw : Json) (peer : PeerIdentity)
      → Holds (IsSound d) (IsSound d) (apply_managed d id raw peer)
  unfolding apply_managed
  apply_managed-IsSound id raw peer = Holds-lift (same _) _ _ λ payload parsed.
      Holds-lift (same _) _ _ λ t found. Holds-require (same _) _ _ _ λ enabled.
        redeem-IsSound d (λ p. p.target_id) (λ p. p.plan_fingerprint) (IsManagedPlanFor d)
          (λ w. w.pending_managed) (λ t p fits. fits.configured) (λ w h. h.managed_plans) _ _ _ _ t
          _ (target-eq_ok d payload.target_id found)
          λ entry own target fingerprint fits. with_consent-IsSound d _ _ _ _ _ (
            spend-IsSound d _ _ _ _
              (λ w h. with_managed_plans d h _ (
                AllValues-erase (Ready d (IsManagedPlanFor d)) _ w.pending_managed h.managed_plans))
              (λ w. refl) (enabled, own, fits) (cc (target, fingerprint)))
