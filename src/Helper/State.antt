-- ===== src/Helper/State.antt =====
-- The state of `HelperDispatcher` in helper_service.py, what it asks of its collaborators, and
-- the actions in which its methods are written.
use nixos_control_manager.Prelude.{ℕ, String, Bool, true, false, Option, List, ◌∷◌}
use nixos_control_manager.Prelude.Dict.{Dict}
use nixos_control_manager.Json.{Fields}
use nixos_control_manager.Protocol.{Code, Raised, protocol, crash, Result, ok, err}
use nixos_control_manager.Protocol.Plans.{
  ValidatePlanPayload, ValidateHomeManagerPlanPayload, ValidateFlakeLockUpdatePayload,
  PreviewActivationPayload, CommitTestedSystemPayload,
}
use nixos_control_manager.Helper.Target.{Target}

-- `PendingValidatedPlan`, and the other three classes, which differ in their payload.
pub record Pending (P : Type 0) : Type 0 where
  pub receipt : String
  pub peer_uid : ℕ
  pub payload : P
  pub expires_at : ℕ
  pub validation_result : Fields

pub record PendingTestActivation : Type 0 where
  pub receipt : String
  pub peer_uid : ℕ
  pub payload : PreviewActivationPayload
  pub expires_at : ℕ

pub record PeerIdentity : Type 0 where
  pub uid : ℕ
  pub pid : Option ℕ
  pub gid : Option ℕ

-- The Polkit actions, `…_ACTION_ID`.
pub data ActionId : Type 0 where
  apply_action recover_action : ActionId
  home_manager_apply_action home_manager_recover_action : ActionId
  managed_apply_action managed_recover_action : ActionId
  flake_lock_apply_action flake_lock_recover_action : ActionId
  preview_activation_action test_activation_action recover_test_activation_action : ActionId
  commit_tested_system_action rollback_committed_system_action : ActionId

-- A call of `HelperBackend`, with its arguments; the last number is the peer's uid. The last
-- four are the optional `discard_…` methods.
pub data Call : Type 0 where
  validate_plan : Target → ValidatePlanPayload → ℕ → Call
  apply_validated_plan : Target → Pending ValidatePlanPayload → ℕ → Call
  recover_transaction : Target → String → ℕ → Call
  validate_home_manager_plan : Target → ValidateHomeManagerPlanPayload → ℕ → Call
  apply_validated_home_manager_plan : Target → Pending ValidateHomeManagerPlanPayload → ℕ → Call
  recover_home_manager_transaction : Target → String → ℕ → Call
  validate_managed_plan : Target → ValidatePlanPayload → ℕ → Call
  apply_validated_managed_plan : Target → Pending ValidatePlanPayload → ℕ → Call
  recover_managed_transaction : Target → String → ℕ → Call
  validate_flake_lock_update : Target → ValidateFlakeLockUpdatePayload → ℕ → Call
  apply_validated_flake_lock_update : Target → Pending ValidateFlakeLockUpdatePayload → ℕ → Call
  recover_flake_lock_transaction : Target → String → ℕ → Call
  preview_activation : Target → PreviewActivationPayload → ℕ → Call
  test_activation : Target → PreviewActivationPayload → ℕ → Call
  recover_test_activation : Target → String → ℕ → Call
  commit_tested_system : Target → CommitTestedSystemPayload → ℕ → Call
  rollback_committed_system : Target → String → ℕ → Call
  activation_session_status : Target → String → ℕ → Call
  discard_validated_plan : Target → ValidatePlanPayload → ℕ → Call
  discard_validated_home_manager_plan : Target → ValidateHomeManagerPlanPayload → ℕ → Call
  discard_validated_managed_plan : Target → ValidatePlanPayload → ℕ → Call
  discard_validated_flake_lock_update : Target → ValidateFlakeLockUpdatePayload → ℕ → Call

-- The `details` of an authorization, as the Polkit dialog gets them.
abbrev pub Details : Type 0
Details = Dict String

pub data Answer : Type 0 where
  granted denied failed : Answer

pub data Reply : Type 0 where
  returned : Fields → Reply
  raised : Raised → Reply

-- What the dispatcher has done and been told, the latest event first.
pub data Event : Type 0 where
  asked : ActionId → PeerIdentity → Details → Answer → Event
  called : Call → Event
  clock : ℕ → Event
  token : String → Event

-- The collaborators answer by all that has happened so far; `time.monotonic` and
-- `secrets.token_urlsafe` are two of them. `sha256` is the hex digest of a text's UTF-8 bytes,
-- `has_discard` says whether the backend has an optional method, and `ticks` is the number of
-- units of the clock in a second.
pub record Environment : Type 0 where
  pub sha256 : String → String
  pub authorize : List Event → ActionId → PeerIdentity → Details → Answer
  pub reply : List Event → Call → Reply
  pub monotonic : List Event → ℕ
  pub token_urlsafe : List Event → String
  pub has_discard : Call → Bool
  pub ticks : ℕ

-- The attributes of a dispatcher that its methods change, and the events.
pub record World : Type 0 where
  pub pending : Dict (Pending ValidatePlanPayload)
  pub pending_home_manager : Dict (Pending ValidateHomeManagerPlanPayload)
  pub pending_managed : Dict (Pending ValidatePlanPayload)
  pub pending_flake_lock : Dict (Pending ValidateFlakeLockUpdatePayload)
  pub pending_tests : Dict PendingTestActivation
  pub log : List Event

-- The attributes that `__init__` sets and no method changes.
pub record Dispatcher : Type 0 where
  pub targets : Dict Target
  pub receipt_ttl_seconds : ℕ
  pub environment : Environment
  pub open environment use {sha256, authorize, reply, monotonic, token_urlsafe, has_discard, ticks}

-- A method may raise; what it has changed before stays changed.
abbrev pub Exec : Type 0 → Type 0
Exec A = World → Result A × World

module _ {A : Type 0} where
  unfoldable pub pure : A → Exec A
  pure a w = (ok a, w)

  unfoldable pub raise : Raised → Exec A
  raise e w = (err e, w)

  unfoldable pub lift : Result A → Exec A
  lift r w = (r, w)

  unfoldable pub gets : (World → A) → Exec A
  gets f w = (ok (f w), w)

-- A branch in a method, shut like the other steps.
module _ {A : Type 0} where
  infix 1 if◌then◌else◌
  unfoldable pub if◌then◌else◌ : Bool → Exec A → Exec A → Exec A
  if true then m else n = m
  if false then m else n = n

unfoldable pub modify : (World → World) → Exec (Unit {0})
modify f w = (ok tt, f w)

module _ {A B : Type 0} where
  abbrev pub continue : Result A → (A → Exec B) → Exec B
  continue (ok a) f w = f a w
  continue (err e) f w = (err e, w)

  infixl 5 ◌>>=◌ ◌>>◌
  unfoldable pub ◌>>=◌ : Exec A → (A → Exec B) → Exec B
  ◌>>=◌ m f w = let (r, w') = m w in continue r f w'

  abbrev pub ◌>>◌ : Exec A → Exec B → Exec B
  m >> n = m >>= λ _. n

-- `if not test: raise HelperProtocolError(code, …)`
unfoldable pub require : Bool → Code → Exec (Unit {0})
require true c w = (ok tt, w)
require false c w = (err (protocol c), w)

module _ (d : Dispatcher) where
  abbrev pub outcome : Answer → Result Bool
  outcome granted = ok true
  outcome denied = ok false
  outcome failed = err crash

  -- `self.authorizer.authorize(action, peer, details)`
  unfoldable pub authorize : ActionId → PeerIdentity → Details → Exec Bool
  authorize action peer details w =
      let answer = d.authorize w.log action peer details in
      (outcome answer, record w { log = asked action peer details answer ∷ w.log })

  abbrev result : Reply → Result Fields
  result (returned fs) = ok fs
  result (raised e) = err e

  -- A call of a method of `self.backend`.
  unfoldable pub call : Call → Exec Fields
  call c w = (result (d.reply w.log c), record w { log = called c ∷ w.log })

  -- `time.monotonic()`
  unfoldable pub monotonic : Exec ℕ
  monotonic w = let now = d.monotonic w.log in (ok now, record w { log = clock now ∷ w.log })

  -- `secrets.token_urlsafe(32)`
  unfoldable pub token_urlsafe : Exec String
  token_urlsafe w = let t = d.token_urlsafe w.log in (ok t, record w { log = token t ∷ w.log })
