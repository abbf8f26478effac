-- ===== src/Helper/Sound/FlakeLock.antt =====
-- The dispatcher's invariant and the flake.lock methods of helper_service.py.
use nixos_control_manager.Prelude.{ℕ, String, ◌≡◌, refl}
use nixos_control_manager.Prelude.Dict.{AllValues-insert, AllValues-erase}
use nixos_control_manager.Json.{Json}
use nixos_control_manager.Protocol.Sound.{parse_flake_lock_update-paths}
use nixos_control_manager.Helper.State.{Dispatcher, PeerIdentity}
use nixos_control_manager.Helper.FlakeLock.{
  validate_flake_lock, apply_flake_lock, recover_flake_lock,
}
use nixos_control_manager.Helper.Holds.{
  Holds, Holds-pure, Holds-if, Holds-require, Holds-lift, Holds-modify, Holds-bind,
}
use nixos_control_manager.Helper.Sanction.{IsLockUpdateFor, Ready, IsSound, IsKeyed}
use nixos_control_manager.Helper.Sound.{
  same, target-eq_ok, token_urlsafe-IsSound, expiry-IsSound, call-IsSound, respond-IsGranted,
  redeem-IsSound, spend-IsSound, with_consent-IsSound,
}
use nixos_control_manager.Helper.Sound.Tables.{with_lock_updates}

module _ (d : Dispatcher) where
  pub validate_flake_lock-IsSound :
      (id : String) (raw : Json) (uid : ℕ)
      → Holds (IsSound d) (IsSound d) (validate_flake_lock d id raw uid)
  unfolding validate_flake_lock
  validate_flake_lock-IsSound id raw uid = Holds-lift (same _) _ _ λ payload parsed.
      Holds-lift (same _) _ _ λ t found. Holds-require (same _) _ _ _ λ enabled.
        let fits : IsLockUpdateFor d t payload = record {
          configured = target-eq_ok d payload.target_id found;
          only_lock = parse_flake_lock_update-paths d.sha256 raw parsed;
        } in
        Holds-bind (same _) _ _ (call-IsSound d _ (enabled, fits) refl) λ validation.
          Holds-if _ _ _ (λ _. Holds-pure _)
            λ _. Holds-bind (same _) _ _ (token_urlsafe-IsSound d) λ receipt.
              Holds-bind (same _) _ _ (expiry-IsSound d) λ expires_at.
                Holds-bind (same _) _ _
                  (Holds-modify _ λ w h. with_lock_updates d h _ (
                    AllValues-insert (Ready d (IsLockUpdateFor d)) receipt _ w.pending_flake_lock
                      (t, fits) h.lock_updates))
                  λ _. Holds-pure _

  pub recover_flake_lock-IsSound :
      IsKeyed d
      → (id : String) (raw : Json) (peer : PeerIdentity)
      → Holds (IsSound d) (IsSound d) (recover_flake_lock d id raw peer)
  unfolding recover_flake_lock
  recover_flake_lock-IsSound keyed id raw peer = Holds-lift (same _) _ _ λ payload parsed.
      Holds-lift (same _) _ _ λ t found. Holds-require (same _) _ _ _ λ enabled.
        let own : t.target_id ≡ payload.target_id =
          keyed _ t (target-eq_ok d payload.target_id found) in
        with_consent-IsSound d _ _ _ _ _ (respond-IsGranted d _ _ _ enabled (rw own))

  pub apply_flake_lock-IsSound :
      (id : String) (raw : Json) (peer : PeerIdentity)
      → Holds (IsSound d) (IsSound d) (apply_flake_lock d id raw peer)
  unfolding apply_flake_lock
  apply_flake_lock-IsSound id raw peer = Holds-lift (same _) _ _ λ payload parsed.
      Holds-lift (same _) _ _ λ t found. Holds-require (same _) _ _ _ λ enabled.
        redeem-IsSound d (λ p. p.target_id) (λ p. p.plan_fingerprint) (IsLockUpdateFor d)
          (λ w. w.pending_flake_lock) (λ t p fits. fits.configured) (λ w h. h.lock_updates) _ _ _ _
          t _ (target-eq_ok d payload.target_id found)
          λ entry own target fingerprint fits. with_consent-IsSound d _ _ _ _ _ (
            spend-IsSound d _ _ _ _
              (λ w h. with_lock_updates d h _ (
                AllValues-erase (Ready d (IsLockUpdateFor d)) _ w.pending_flake_lock
                  h.lock_updates))
              (λ w. refl) (enabled, own, fits) (cc (target, fingerprint)))
