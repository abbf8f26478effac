-- ===== src/Session/Recover.antt =====
-- `recover_activation_session` of activation_session.py.
use nixos_control_manager.Prelude.{
  String, Bool, true, false, ◌&&◌, Option, none, some, List, [], ◌∷◌, ◌==◌,
}
use nixos_control_manager.Session.Errors.{
  Failure, wrong_state, closure_unavailable, profile_not_restored, command_failed, not_restored,
}
use nixos_control_manager.Session.Record.{Session, State, recovering, recovery_required}
use nixos_control_manager.Session.Host.{Host, Ran, exited, not_run}
use nixos_control_manager.Session.Exec.{Exec, pure, raise, require, ◌>>=◌, ◌>>◌, if◌then◌else◌}
use nixos_control_manager.Session.Machine.{
  lock, load, write, run, runtime, profile, is_ready, which,
}
use nixos_control_manager.Session.Commands.{
  switch_of, system_profile, set_profile, is_zero, is_at, found, is_unset_or_at,
}

abbrev pub is_recoverable : State → Bool
is_recoverable State.prepared = true
is_recoverable State.activating = true
is_recoverable State.active = true
is_recoverable State.activation_failed = true
is_recoverable State.recovery_required = true
is_recoverable State.recovering = true
is_recoverable State.commit_prepared = true
is_recoverable State.committing = true
is_recoverable State.commit_failed = true
is_recoverable _ = false

abbrev pub is_recovered : State → Bool
is_recovered State.recovered = true
is_recovered _ = false

abbrev pub recovery_state : Bool → State
recovery_state true = State.recovered
recovery_state false = State.recovery_required

-- The mode of `switch-to-configuration`, by whether the profile was set back.
abbrev pub switch_mode : Bool → String
switch_mode true = "switch"
switch_mode false = "test"

-- The result: the session as written, the command, if one has run, and `idempotent`.
pub record Recovery : Type 0 where
  pub session : Session
  pub command : Option (List String)
  pub idempotent : Bool

module _ (h : Host) where
  -- The write before each of the errors.
  unfoldable pub give_up : {A : Type 0} → Session → Failure → Exec A
  give_up s e = write h false (record s { state = recovery_required }) >> raise e

  abbrev pub restored_profile : Session → Ran → Exec Bool
  restored_profile s not_run = give_up s profile_not_restored
  restored_profile s (exited n) = if is_zero n then pure true else give_up s profile_not_restored

  abbrev pub with_nix_env : Session → Option String → Exec Bool
  with_nix_env s none = give_up s profile_not_restored
  with_nix_env s (some nix_env) =
      run h (set_profile nix_env system_profile s.previous_system_path) >>= restored_profile s

  -- Whether the profile had to be set back.
  unfoldable pub restore_profile : Session → Option String → Exec Bool
  restore_profile s none = pure false
  restore_profile s (some p) =
      if p == s.previous_system_path
      then pure false
      else which h "nix-env" >>= λ tool. with_nix_env s (found tool)

  -- What follows the switch.
  unfoldable pub conclude : Session → List String → Ran → Exec Recovery
  conclude s command not_run = give_up s command_failed
  conclude s command (exited n) = do
    current ← runtime h
    profile_after ← profile h
    let restored =
        is_zero n
        && is_at current s.previous_system_path
        && is_unset_or_at profile_after s.previous_system_path
    let final = record s { state = recovery_state restored; recovery_exit_code = some n }
    write h false final
    require restored not_restored
    pure (record { session = final; command = some command; idempotent = false })

  -- The recovery of a session in a state that allows it.
  unfoldable pub restore : Session → Exec Recovery
  restore session = do
    ready ← is_ready h session.previous_system_path
    require ready closure_unavailable
    let s = record session { state = recovering }
    write h false s
    profile_before ← profile h
    profile_restored ← restore_profile s profile_before
    let command = switch_of s.previous_system_path ∷ switch_mode profile_restored ∷ []
    completed ← run h command
    conclude s command completed

  -- `recover_activation_session`
  unfoldable pub recover_session : String → Exec Recovery
  recover_session id = do
    lock h
    session ← load h id
    if is_recovered session.state
        then pure (record { session = session; command = none; idempotent = true })
        else require (is_recoverable session.state) wrong_state >> restore session
