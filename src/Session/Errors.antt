-- ===== src/Session/Errors.antt =====
-- The failures of activation_session.py, and results that may be one.
use nixos_control_manager.Prelude.{Bool, true, false}

-- `ActivationSessionError`, by the place that raises it; `os_error` is an exception of the
-- operating system that a write of the journal lets through.
pub data Failure : Type 0 where
  invalid_session missing_session existing_session insecure_journal wrong_state : Failure
  closure_unavailable runtime_changed tools_unavailable timer_not_stopped session_changed : Failure
  profile_not_restored command_failed not_restored not_reached : Failure
  os_error : Failure

pub data Result {ℓ} (A : Type ℓ) : Type ℓ where
  ok : A → Result A
  err : Failure → Result A

module _ {ℓ κ} {A : Type ℓ} {B : Type κ} where
  infixl 5 ◌>>=◌
  unfoldable pub ◌>>=◌ : Result A → (A → Result B) → Result B
  ok value >>= next = next value
  err failure >>= next = err failure

-- A step whose value, the only one of its type, is not used.
infixl 5 ◌>>◌
abbrev pub ◌>>◌ {ℓ} : {B : Type ℓ} → Result (Unit {0}) → Result B → Result B
first >> second = first >>= λ _. second

-- `if not test: raise ActivationSessionError(…)`
unfoldable pub require : Bool → Failure → Result (Unit {0})
require true e = ok tt
require false e = err e
