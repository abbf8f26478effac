-- ===== src/Helper/Receipts.antt =====
-- The receipt that `_apply` of helper_service.py is given.
use nixos_control_manager.Prelude.{
  String, ◌≡◌, ◌≢◌, ◌⊎◌, inl, inr, refl, sym, ap, ◌∙◌, none, some, true, [], ◌∷◌,
}
use nixos_control_manager.Prelude.Dict.{lookup, erase}
use nixos_control_manager.Json.{Json}
use nixos_control_manager.Protocol.{Result, ok, err}
use nixos_control_manager.Protocol.Receipts.{ApplyPayload, parse_apply}
use nixos_control_manager.Helper.State.{
  Pending, called, apply_action, apply_validated_plan, Dispatcher, World, Exec, Call, asked,
  ActionId, PeerIdentity, Details, Answer, granted, denied, failed, call, authorize, outcome, pure,
  modify, continue, ◌>>=◌, ◌>>◌, if◌then◌else◌,
}
use nixos_control_manager.Helper.Holds.{Holds, Holds-lift, Holds-require, Holds-gets}
use nixos_control_manager.Helper.Response.{Response, denied_response, matching-eq_ok}
use nixos_control_manager.Helper.Steps.{target, respond, with_consent}
use nixos_control_manager.Helper.Target.{Target}
use nixos_control_manager.Protocol.Plans.{ValidatePlanPayload}
use nixos_control_manager.Helper.Plans.{apply}

-- Nothing has happened, but for a consent that was asked for and not granted.
abbrev pub Refused : World → World → Type 0
Refused w w' =
    (w' ≡ w)
    ⊎ ((a : ActionId) × (p : PeerIdentity) × (ds : Details) × (x : Answer) × (x ≢ granted)
        × (w' ≡ record w { log = asked a p ds x ∷ w.log }))

-- From `w` to `w'` the receipt is spent, or nothing has happened but for a refused consent.
abbrev pub IsSpent : String → World → World → Type 0
IsSpent receipt w w' = (lookup receipt w'.pending ≡ none) ⊎ Refused w w'

module _ (d : Dispatcher) where
  -- After a consent, the rest has run, or there was a refusal.
  with_consent-Refused :
      (Q : World → Type 0) (id : String) (a : ActionId) (peer : PeerIdentity) (ds : Details)
      (rest : Exec Response) (w : World)
      → Q (rest (record w { log = asked a peer ds granted ∷ w.log })).1
      → Q (with_consent d id a peer ds rest w).1 ⊎ Refused w (with_consent d id a peer ds rest w).1
  unfolding with_consent authorize ◌>>=◌ pure if◌then◌else◌
  with_consent-Refused Q id a peer ds rest w q =
      elim (d.authorize w.log a peer ds)
        as (λ x.
          let w' =
            (continue (outcome d x) (λ yes_. if yes_ then rest else pure (denied_response id))
              (record w { log = asked a peer ds x ∷ w.log })).1 in
          Q w' ⊎ Refused w w') [
            | granted ↦ inl q
            | denied ↦ inr (inr (a, peer, ds, denied, (λ e. cc), refl))
            | failed ↦ inr (inr (a, peer, ds, failed, (λ e. cc), refl))
          ]

  continue-pure :
      {A B : Type 0} (r : Result A) (f : A → B) (w : World) → (continue r (λ a. pure (f a)) w).1 ≡ w
  unfolding pure
  continue-pure (ok a) f w = refl
  continue-pure (err e) f w = refl

  -- A request to apply with a receipt that the table does not hold changes nothing and asks nobody:
  -- no consent, and no call of the backend.
  pub apply-no_receipt :
      (id : String) (raw : Json) (peer : PeerIdentity) (w : World) (payload : ApplyPayload)
      → parse_apply raw ≡ ok payload
      → lookup payload.validation_receipt w.pending ≡ none
      → (apply d id raw peer w).1 ≡ w
  unfolding apply
  apply-no_receipt id raw peer w payload parsed gone =
      let weaker : (v : World) → v ≡ w → v ≡ w = λ v e. e in
      let body : Holds (λ v. v ≡ w) (λ v. v ≡ w) (apply d id raw peer) =
        Holds-lift weaker _ _ λ payload' parsed'. Holds-lift weaker _ _ λ t found.
          Holds-require weaker _ _ _ λ enabled.
            let same : payload'.validation_receipt ≡ payload.validation_receipt = cc in
            Holds-gets (λ o. o ≡ none) _ _ (λ v e. rw (e, same) gone)
              λ o none_.
                Holds-lift weaker _ _
                  λ entry matched. let (held, _, _, _) = matching-eq_ok _ _ _ _ _ _ matched in cc in
      body.at w refl

-- What the peer is asked to consent to.
abbrev pub apply_details : ApplyPayload → Details
apply_details payload =
    ("targetId", payload.target_id) ∷ ("planFingerprint", payload.plan_fingerprint) ∷ []

-- One plan has been applied, and nothing else has happened: the receipt was this peer's, for a plan
-- with the target and the fingerprint of the request, the peer was asked and consented, the backend
-- was called with that plan, and the receipt is gone.
pub record IsOneApplication (d : Dispatcher) (payload : ApplyPayload) (peer : PeerIdentity)
    (w w' : World) : Type 0 where
  pub on : Target
  pub entry : Pending ValidatePlanPayload
  pub known : target d payload.target_id ≡ ok on
  pub enabled : on.apply_enabled ≡ true
  pub held : lookup payload.validation_receipt w.pending ≡ some entry
  pub own_peer : entry.peer_uid ≡ peer.uid
  pub own_target : entry.payload.target_id ≡ payload.target_id
  pub own_plan : entry.payload.plan_fingerprint ≡ payload.plan_fingerprint
  pub after : w' ≡ record w {
    pending = erase payload.validation_receipt w.pending;
    log =
        called (apply_validated_plan on entry peer.uid)
        ∷ asked apply_action peer (apply_details payload) granted
        ∷ w.log;
  }

swap : {A B : Type 0} → A ⊎ B → B ⊎ A
swap (inl a) = inr a
swap (inr b) = inl b

module _ (d : Dispatcher) where
  spend-called :
      (id receipt : String) (c : Call) (w : World)
      → ((modify (λ u. record u { pending = erase receipt u.pending }) >> respond d id c) w).1
        ≡ record w { pending = erase receipt w.pending; log = called c ∷ w.log }
  unfolding respond call modify ◌>>=◌
  spend-called id receipt c w = continue-pure d _ _ _

  -- A request to apply that parses, whatever the authorizer and the backend answer: either nothing
  -- has happened, but for at most one consent that was asked for and not granted, or exactly one
  -- plan has been applied, with consent: the one that the receipt was given for, to this peer, with
  -- the target and the fingerprint of the request, for a target that permits it; and the receipt is
  -- gone.
  pub apply-IsOneApplication :
      (id : String) (raw : Json) (peer : PeerIdentity) (w : World) (payload : ApplyPayload)
      → parse_apply raw ≡ ok payload
      → Refused w (apply d id raw peer w).1
        ⊎ IsOneApplication d payload peer w (apply d id raw peer w).1
  unfolding apply
  apply-IsOneApplication id raw peer w payload parsed =
      let Q : World → Type 0 = λ v. Refused w v ⊎ IsOneApplication d payload peer w v in
      let weaker : (v : World) → v ≡ w → Q v = λ v e. inl (inl e) in
      let body : Holds (λ v. v ≡ w) Q (apply d id raw peer) =
        Holds-lift weaker _ _ λ payload' parsed'. Holds-lift weaker _ _ λ t found.
          Holds-require weaker _ _ _ λ enabled.
            Holds-gets (λ o. o ≡ lookup payload'.validation_receipt w.pending) _ _
              (λ v e. ap (λ u. lookup payload'.validation_receipt u.pending) e)
              λ o fact. Holds-lift weaker _ _ λ entry matched.
                let (held, uid, own, plan) = matching-eq_ok _ _ _ _ _ _ matched in
                let same : payload ≡ payload' = cc in
                record {
                  at = λ v e.
                      rw (e, same)
                        (swap (
                          with_consent-Refused d (IsOneApplication d payload' peer w) _ _ _ _ _ _
                            (record {
                              on = t;
                              entry = entry;
                              known = found;
                              enabled = enabled;
                              held = sym fact ∙ held;
                              own_peer = uid;
                              own_target = own;
                              own_plan = plan;
                              after = spend-called id payload'.validation_receipt _ _;
                            })));
                } in
      body.at w refl
