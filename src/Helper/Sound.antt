-- ===== src/Helper/Sound.antt =====
-- The dispatcher's invariant and the steps that the methods of helper_service.py share.
mod Tables
pub mod Plans
pub mod HomeManager
pub mod Managed
pub mod FlakeLock
pub mod Activation
pub mod Prune
pub mod Handle
use nixos_control_manager.Prelude.{
  ℕ, String, Bool, true, false, ◌≡◌, refl, Option, none, some, List, ◌∷◌, arith, subst,
}
use nixos_control_manager.Prelude.Dict.{Dict, lookup, AllValues, AllValues-lookup}
use nixos_control_manager.Protocol.{Result, ok, err}
use nixos_control_manager.Helper.Target.{Target}
use nixos_control_manager.Helper.State.{
  Dispatcher, World, Exec, ActionId, PeerIdentity, Details, Answer, granted, denied, failed, asked,
  Event, Call, Pending, pure, gets, lift, modify, ◌>>◌, call, authorize, monotonic, token_urlsafe,
  ◌>>=◌, if◌then◌else◌, outcome, continue,
}
use nixos_control_manager.Helper.Response.{Response, denied_response, matching, matching-eq_ok}
use nixos_control_manager.Helper.Steps.{target, expiry, respond, with_consent, known_target}
use nixos_control_manager.Helper.Holds.{
  Holds, Holds-bind, Holds-pure, Holds-modify, Holds-gets, Holds-lift,
}
use nixos_control_manager.Helper.Sanction.{
  Consent, consent, Consented, IsPermitted, IsSound, IsGranted, Sanctioned, Ready,
}

abbrev pub same : (P : World → Type 0) (w : World) → P w → P w
same P w h = h

module _ (d : Dispatcher) where
  pub target-eq_ok : (id : String) {t : Target} → target d id ≡ ok t → lookup id d.targets ≡ some t
  unfolding target
  target-eq_ok id h = ground arith

  -- A longer log changes nothing else.
  logged :
      (log : List Event) (w : World)
      → IsSound d w
      → Sanctioned d log
      → IsSound d (record w { log = log })
  logged log w h calls = record {
    plans = h.plans;
    home_plans = h.home_plans;
    managed_plans = h.managed_plans;
    lock_updates = h.lock_updates;
    tests = h.tests;
    calls = calls;
  }

  pub monotonic-IsSound : Holds (IsSound d) (IsSound d) (monotonic d)
  unfolding monotonic
  monotonic-IsSound = record { at = λ w h. logged _ w h h.calls }

  pub token_urlsafe-IsSound : Holds (IsSound d) (IsSound d) (token_urlsafe d)
  unfolding token_urlsafe
  token_urlsafe-IsSound = record { at = λ w h. logged _ w h h.calls }

  pub expiry-IsSound : Holds (IsSound d) (IsSound d) (expiry d)
  unfolding expiry
  expiry-IsSound = Holds-bind (same _) _ _ monotonic-IsSound λ now. Holds-pure _

  -- A call that needs no consent.
  pub call-IsSound :
      (c : Call) → IsPermitted d c → consent c ≡ none → Holds (IsSound d) (IsSound d) (call d c)
  unfolding call
  call-IsSound c p e = record { at = λ w h. logged _ w h (p, rw e tt, h.calls) }

  -- A call whose consent has just been granted.
  pub call-IsGranted :
      (c : Call) (g : Consent)
      → IsPermitted d c
      → consent c ≡ some g
      → Holds (IsGranted d g) (IsSound d) (call d c)
  unfolding call
  call-IsGranted c g p e = record {
    at = λ w h. logged _ w h.sound (p, rw e h.consented, h.sound.calls);
  }

  pub respond-IsGranted :
      (id : String) (c : Call) (g : Consent)
      → IsPermitted d c
      → consent c ≡ some g
      → Holds (IsGranted d g) (IsSound d) (respond d id c)
  unfolding respond
  respond-IsGranted id c g p e = Holds-bind (same _) _ _ (call-IsGranted c g p e) λ fs. Holds-pure _

  module _ (id : String) (action : ActionId) (peer : PeerIdentity) (details : Details)
      (rest : Exec Response)
      (after : Holds (IsGranted d (action, peer.uid, details)) (IsSound d) rest) where
    pub with_consent-IsSound :
        Holds (IsSound d) (IsSound d) (with_consent d id action peer details rest)
    unfolding with_consent authorize ◌>>=◌ pure if◌then◌else◌
    with_consent-IsSound = record {
      at = λ w h.
          elim (d.authorize w.log action peer details)
            as (λ a.
              IsSound d
                (continue (outcome d a) (λ yes_. if yes_ then rest else pure (denied_response id))
                  (record w { log = asked action peer details a ∷ w.log })).1) [
                    | granted ↦ after.at _ (record {
                      sound = logged _ w h h.calls;
                      consented = (refl, refl, refl, refl);
                    })
                    | denied ↦ logged _ w h h.calls
                    | failed ↦ logged _ w h h.calls
                  ];
    }

  -- A receipt is dropped, and the call that it stood for is made.
  pub spend-IsSound :
      (id : String) (c : Call) (g : Consent) (drop : World → World)
      → ((w : World) → IsSound d w → IsSound d (drop w))
      → ((w : World) → (drop w).log ≡ w.log)
      → IsPermitted d c
      → consent c ≡ some g
      → Holds (IsGranted d g) (IsSound d) (modify drop >> respond d id c)
  spend-IsSound id c g drop keeps quiet p e =
      let dropped : (w : World) → IsGranted d g w → IsGranted d g (drop w) =
        λ w h. record { sound = keeps w h.sound; consented = rw (quiet w) h.consented } in
      Holds-bind (λ w h. h.sound) _ _ (Holds-modify drop dropped) λ _. respond-IsGranted id c g p e

  module _ {P : Type 0} (target_of fingerprint_of : P → String) (R : Target → P → Type 0)
      (table : World → Dict (Pending P))
      (configured : (t : Target) (p : P) → R t p → lookup (target_of p) d.targets ≡ some t)
      (ready : (w : World) → IsSound d w → AllValues (Ready d R) (table w)) where
    -- What is known of the entry that a receipt is exchanged for.
    pub redeem-IsSound :
        (receipt : String) (uid : ℕ) (id fingerprint : String) (t : Target)
        (f : Pending P → Exec Response)
        → lookup id d.targets ≡ some t
        → ((p : Pending P)
            → p.peer_uid ≡ uid
            → target_of p.payload ≡ id
            → fingerprint_of p.payload ≡ fingerprint
            → R t p.payload
            → Holds (IsSound d) (IsSound d) (f p))
        → Holds (IsSound d) (IsSound d) (
            gets (λ w. lookup receipt (table w)) >>= λ found.
            lift (matching target_of fingerprint_of found uid id fingerprint) >>= f)
    redeem-IsSound receipt uid id fingerprint t f found k =
        Holds-gets (λ o. (p : Pending P) → o ≡ some p → Ready d R p) _ _
          (λ w h p e. AllValues-lookup (Ready d R) receipt (table w) (ready w h) e)
          λ o fact. Holds-lift (same _) _ _ λ p matched.
            let (held, own, target, digest) =
              matching-eq_ok target_of fingerprint_of o uid id fingerprint matched in
            let (t', fits) = fact p held in
            let one : t' ≡ t = cc (configured t' p.payload fits, target, found) in
            k p own target digest (subst (λ t. R t p.payload) one fits)
