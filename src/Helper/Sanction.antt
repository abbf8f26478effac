-- ===== src/Helper/Sanction.antt =====
-- What must have happened, and must hold, when the dispatcher calls its backend.
use nixos_control_manager.Prelude.{
  ℕ, String, true, false, ◌≡◌, Option, none, some, List, [], ◌∷◌, ◌∷◌,
}
use nixos_control_manager.Prelude.Dict.{lookup, AllValues}
use nixos_control_manager.Json.{covers}
use nixos_control_manager.Protocol.Plans.{
  ValidatePlanPayload, ValidateHomeManagerPlanPayload, ValidateFlakeLockUpdatePayload,
  PreviewActivationPayload, paths,
}
use nixos_control_manager.Protocol.Sound.{IsPlan}
use nixos_control_manager.Helper.Target.{Target, managed_paths}
use nixos_control_manager.Helper.State.{
  Dispatcher, World, Pending, PendingTestActivation, ActionId, PeerIdentity, Details, Answer,
  granted, Event, asked, called, clock, token, Call,
}
use nixos_control_manager.Helper.State
use nixos_control_manager.Helper.Steps.{allowed, home_manager_permitted}
use nixos_control_manager.Helper.Managed.{write_scope}

-- The consent that a call needs: the Polkit action, the peer's uid, and the exact details.
abbrev pub Consent : Type 0
Consent = ActionId × ℕ × Details

abbrev plan_details : String → String → Details → Details
plan_details target fingerprint rest =
    ("targetId", target) ∷ ("planFingerprint", fingerprint) ∷ rest

abbrev transaction_details : Target → String → Details → Details
transaction_details t id rest = ("targetId", t.target_id) ∷ ("transactionId", id) ∷ rest

-- No consent is needed to validate a plan, to read a session's state or to discard a receipt.
abbrev pub consent : Call → Option Consent
consent (State.apply_validated_plan t p uid) =
    some (State.apply_action, uid, plan_details p.payload.target_id p.payload.plan_fingerprint [])
consent (State.apply_validated_home_manager_plan t p uid) = some (
  State.home_manager_apply_action,
  uid,
  plan_details p.payload.target_id p.payload.plan_fingerprint
      (("username", p.payload.username) ∷ ("integration", p.payload.integration) ∷ []),
)
consent (State.apply_validated_managed_plan t p uid) = some (
  State.managed_apply_action,
  uid,
  plan_details p.payload.target_id p.payload.plan_fingerprint (("writeScope", write_scope) ∷ []),
)
consent (State.apply_validated_flake_lock_update t p uid) = some (
  State.flake_lock_apply_action,
  uid,
  plan_details p.payload.target_id p.payload.plan_fingerprint
      (("inputName", p.payload.input_name) ∷ ("writeScope", "flake.lock") ∷ []),
)
consent (State.recover_transaction t id uid) =
    some (State.recover_action, uid, transaction_details t id [])
consent (State.recover_home_manager_transaction t id uid) =
    some (State.home_manager_recover_action, uid, transaction_details t id [])
consent (State.recover_managed_transaction t id uid) =
    some (
      State.managed_recover_action,
      uid,
      transaction_details t id (("writeScope", write_scope) ∷ []),
    )
consent (State.recover_flake_lock_transaction t id uid) =
    some (State.flake_lock_recover_action, uid, transaction_details t id [])
consent (State.preview_activation t p uid) = some (
  State.preview_activation_action,
  uid,
  plan_details p.target_id p.plan_fingerprint (("systemPath", p.system_path) ∷ []),
)
consent (State.test_activation t p uid) = some (
  State.test_activation_action,
  uid,
  plan_details p.target_id p.plan_fingerprint (("systemPath", p.system_path) ∷ []),
)
consent (State.recover_test_activation t id uid) =
    some (
      State.recover_test_activation_action,
      uid,
      ("targetId", t.target_id) ∷ ("sessionId", id) ∷ [],
    )
consent (State.commit_tested_system t p uid) = some (
  State.commit_tested_system_action,
  uid,
  ("targetId", p.target_id)
      ∷ ("sessionId", p.session_id)
      ∷ ("planFingerprint", p.plan_fingerprint)
      ∷ ("systemPath", p.system_path)
      ∷ [],
)
consent (State.rollback_committed_system t id uid) = some (
  State.rollback_committed_system_action,
  uid,
  ("targetId", t.target_id) ∷ ("sessionId", id) ∷ [],
)
consent _ = none

-- The latest event is that consent, granted.
abbrev pub Consented : Option Consent → List Event → Type 0
Consented none log = Unit
Consented (some c) (asked action peer details answer ∷ log) =
    (action ≡ c.0) × (peer.uid ≡ c.1) × (details ≡ c.2) × (answer ≡ granted)
Consented (some c) _ = ⊥

module _ (d : Dispatcher) where
  -- The plan is one that the protocol accepts, for this target, and within its allow-list.
  pub record IsPlanFor (t : Target) (p : ValidatePlanPayload) : Type 0 where
    pub configured : lookup p.target_id d.targets ≡ some t
    pub within : allowed t p.changes ≡ true
    pub plan : IsPlan d.sha256 1 p

  pub record IsHomePlanFor (t : Target) (p : ValidateHomeManagerPlanPayload) : Type 0 where
    pub configured : lookup p.target_id d.targets ≡ some t
    pub within : allowed t p.changes ≡ true

  pub record IsManagedPlanFor (t : Target) (p : ValidatePlanPayload) : Type 0 where
    pub configured : lookup p.target_id d.targets ≡ some t
    pub within : allowed t p.changes ≡ true
    pub owned : covers managed_paths (paths p.changes) ≡ true
    pub plan : IsPlan d.sha256 1 p

  pub record IsLockUpdateFor (t : Target) (p : ValidateFlakeLockUpdatePayload) : Type 0 where
    pub configured : lookup p.target_id d.targets ≡ some t
    pub only_lock : paths p.changes ≡ "flake.lock" ∷ []

  pub record IsPreviewFor (t : Target) (p : PreviewActivationPayload) : Type 0 where
    pub configured : lookup p.target_id d.targets ≡ some t
    pub within : allowed t p.changes ≡ true

  -- The rights that the target must have, and what the arguments must be.
  abbrev pub IsPermitted : Call → Type 0
  IsPermitted (State.validate_plan t p uid) = IsPlanFor t p
  IsPermitted (State.apply_validated_plan t p uid) =
      (t.apply_enabled ≡ true) × (p.peer_uid ≡ uid) × IsPlanFor t p.payload
  IsPermitted (State.recover_transaction t id uid) = t.apply_enabled ≡ true
  IsPermitted (State.validate_home_manager_plan t p uid) =
      (home_manager_permitted t ≡ true) × IsHomePlanFor t p
  IsPermitted (State.apply_validated_home_manager_plan t p uid) =
      (home_manager_permitted t ≡ true) × (p.peer_uid ≡ uid) × IsHomePlanFor t p.payload
  IsPermitted (State.recover_home_manager_transaction t id uid) = home_manager_permitted t ≡ true
  IsPermitted (State.validate_managed_plan t p uid) =
      (t.managed_write_enabled ≡ true) × IsManagedPlanFor t p
  IsPermitted (State.apply_validated_managed_plan t p uid) =
      (t.managed_write_enabled ≡ true) × (p.peer_uid ≡ uid) × IsManagedPlanFor t p.payload
  IsPermitted (State.recover_managed_transaction t id uid) = t.managed_write_enabled ≡ true
  IsPermitted (State.validate_flake_lock_update t p uid) =
      (t.flake_lock_write_enabled ≡ true) × IsLockUpdateFor t p
  IsPermitted (State.apply_validated_flake_lock_update t p uid) =
      (t.flake_lock_write_enabled ≡ true) × (p.peer_uid ≡ uid) × IsLockUpdateFor t p.payload
  IsPermitted (State.recover_flake_lock_transaction t id uid) = t.flake_lock_write_enabled ≡ true
  IsPermitted (State.preview_activation t p uid) =
      (t.fixture_only ≡ false)
      × (t.apply_enabled ≡ false)
      × (t.home_manager_apply_enabled ≡ false)
      × IsPreviewFor t p
  IsPermitted (State.test_activation t p uid) =
      (t.test_activation_enabled ≡ true) × IsPreviewFor t p
  IsPermitted (State.recover_test_activation t id uid) = t.test_activation_enabled ≡ true
  IsPermitted (State.commit_tested_system t p uid) = t.permanent_switch_enabled ≡ true
  IsPermitted (State.rollback_committed_system t id uid) = t.permanent_switch_enabled ≡ true
  IsPermitted (State.activation_session_status t id uid) = t.permanent_switch_enabled ≡ true
  IsPermitted _ = Unit

  -- Every call was permitted, and its consent was granted in the event just before it.
  abbrev pub Sanctioned : List Event → Type 0
  Sanctioned [] = Unit
  Sanctioned (called c ∷ log) = IsPermitted c × Consented (consent c) log × Sanctioned log
  Sanctioned (asked action peer details answer ∷ log) = Sanctioned log
  Sanctioned (clock now ∷ log) = Sanctioned log
  Sanctioned (token t ∷ log) = Sanctioned log

  -- Some configured target permits the entry's plan.
  abbrev pub Ready : {P : Type 0} → (Target → P → Type 0) → Pending P → Type 0
  Ready R p = (t : Target) × R t p.payload

  abbrev pub ReadyTest : PendingTestActivation → Type 0
  ReadyTest p = (t : Target) × IsPreviewFor t p.payload

  -- The invariant of the dispatcher: each receipt stands for a plan within its target's scope.
  pub record IsSound (w : World) : Type 0 where
    pub plans : AllValues (Ready IsPlanFor) w.pending
    pub home_plans : AllValues (Ready IsHomePlanFor) w.pending_home_manager
    pub managed_plans : AllValues (Ready IsManagedPlanFor) w.pending_managed
    pub lock_updates : AllValues (Ready IsLockUpdateFor) w.pending_flake_lock
    pub tests : AllValues ReadyTest w.pending_tests
    pub calls : Sanctioned w.log

  -- The state just after a consent was granted.
  pub record IsGranted (c : Consent) (w : World) : Type 0 where
    pub sound : IsSound w
    pub consented : Consented (some c) w.log

  -- Each target is found under its own identifier.
  abbrev pub IsKeyed : Type 0
  IsKeyed = (id : String) (t : Target) → lookup id d.targets ≡ some t → t.target_id ≡ id
