-- ===== src/Session/Transition.antt =====
-- `transition_activation_session` of activation_session.py, for the links' standard places.
use nixos_control_manager.Prelude.{
  String, Bool, true, false, not, ◌&&◌, Option, none, some, [], ◌∷◌, ◌==◌, ◌<>◌,
}
use nixos_control_manager.Json.{ℤ, pos}
use nixos_control_manager.Session.Errors.{
  Failure, wrong_state, closure_unavailable, runtime_changed, tools_unavailable, timer_not_stopped,
  session_changed, not_reached,
}
use nixos_control_manager.Session.Record.{Session, State, state_text}
use nixos_control_manager.Session.Host.{Host, Ran, exited, not_run}
use nixos_control_manager.Session.Exec.{Exec, pure, raise, require, ◌>>=◌, ◌>>◌, if◌then◌else◌}
use nixos_control_manager.Session.Machine.{
  lock, load, write, run, runtime, profile, is_ready, which,
}
use nixos_control_manager.Session.Commands.{
  switch_of, system_profile, set_profile, is_zero, is_at, found,
}

-- The two values of `mode` that are supported.
pub data Mode : Type 0 where
  commit rollback : Mode

abbrev pub expected : Mode → State
expected commit = State.commit_prepared
expected rollback = State.rollback_prepared

abbrev pub running : Mode → State
running commit = State.committing
running rollback = State.rolling_back

-- The state after a transition that is stopped before it starts.
abbrev pub blocked : Mode → State
blocked commit = State.recovery_required
blocked rollback = State.rollback_required

-- `final_state`, by `ok` and `compensated`.
abbrev pub final_state : Mode → Bool → Bool → State
final_state commit true compensated = State.committed
final_state rollback true compensated = State.rolled_back
final_state commit false true = State.recovered
final_state rollback false true = State.committed
final_state commit false false = State.recovery_required
final_state rollback false false = State.rollback_required

abbrev pub destination : Mode → Session → String
destination commit s = s.candidate_system_path
destination rollback s = s.previous_system_path

-- `compensation`
abbrev pub origin : Mode → Session → String
origin commit s = s.previous_system_path
origin rollback s = s.candidate_system_path

-- The code of a command; one that has not run counts as 125.
abbrev pub code_of : Ran → ℤ
code_of (exited n) = n
code_of not_run = pos 125

abbrev pub is_success : Option ℤ → Bool
is_success none = false
is_success (some n) = is_zero n

-- `switch_result.returncode if switch_result is not None else profile_result.returncode`
abbrev pub last_code : ℤ → Option ℤ → ℤ
last_code profile_code none = profile_code
last_code profile_code (some n) = n

abbrev with_code : Mode → ℤ → Session → Session
with_code commit n s = record s { activation_exit_code = some n }
with_code rollback n s = record s { recovery_exit_code = some n }

abbrev pub finished : Mode → State → ℤ → Session → Session
finished mode state n s = with_code mode n (record s { state = state })

pub record Tools : Type 0 where
  pub systemctl : String
  pub nix_env : String

-- How the two commands of an attempt ended, and whether both links are then at its system.
pub record Attempt : Type 0 where
  pub profile_code : ℤ
  pub switch_code : Option ℤ
  pub current_matches : Bool
  pub profile_matches : Bool

unfoldable pub is_reached : Attempt → Bool
is_reached a =
    is_zero a.profile_code && is_success a.switch_code && a.current_matches && a.profile_matches

-- The result of a transition that has reached its destination.
pub record Transition : Type 0 where
  pub session : Session
  pub system_path : String
  pub attempt : Attempt

module _ (h : Host) (mode : Mode) where
  unfoldable pub refuse : {A : Type 0} → Session → Failure → Exec A
  refuse s e = lock h >> write h false (record s { state = blocked mode }) >> raise e

  abbrev pub both_tools : Session → Option String → Option String → Exec Tools
  both_tools s (some systemctl) (some nix_env) =
      pure (record { systemctl = systemctl; nix_env = nix_env })
  both_tools s _ _ = refuse s tools_unavailable

  -- The checks before anything is done.
  unfoldable pub preflight : Session → Exec Tools
  preflight s = do
    ready ← is_ready h (destination mode s)
    if not ready then refuse s closure_unavailable else do
      current_before ← runtime h
      profile_before ← profile h
      if not (is_at current_before s.candidate_system_path && is_at profile_before (origin mode s))
          then refuse s runtime_changed
          else do
            systemctl ← which h "systemctl"
            nix_env ← which h "nix-env"
            both_tools s (found systemctl) (found nix_env)

  abbrev pub after_stop : Session → Ran → Exec (Unit {0})
  after_stop s not_run = refuse s timer_not_stopped
  after_stop s (exited n) = if is_zero n then pure tt else refuse s timer_not_stopped

  -- The profile is set, the system is switched if that went well, and both links are read.
  unfoldable pub attempt : String → String → Exec Attempt
  attempt nix_env path = do
    set ← run h (set_profile nix_env system_profile path)
    let profile_code = code_of set
    switch_code ←
        if is_zero profile_code
        then run h (switch_of path ∷ "switch" ∷ []) >>= (λ r. pure (some (code_of r)))
        else pure none
    current ← runtime h
    profile_after ← profile h
    pure (record {
      profile_code = profile_code;
      switch_code = switch_code;
      current_matches = is_at current path;
      profile_matches = is_at profile_after path;
    })

  -- The body of `if not ok`: whether the previous state was reached again. A command that has
  -- not run makes both fail, as a code other than zero does.
  unfoldable pub compensate : Session → String → Bool → Exec Bool
  compensate s nix_env true = pure false
  compensate s nix_env false = do a ← attempt nix_env (origin mode s); pure (is_reached a)

  -- What follows the claim of the session.
  unfoldable pub perform : Session → String → String → Exec Transition
  perform s path nix_env = do
    a ← attempt nix_env path
    compensated ← compensate s nix_env (is_reached a)
    let final =
        finished mode (final_state mode (is_reached a) compensated)
          (last_code a.profile_code a.switch_code) s
    lock h
    write h false final
    require (is_reached a) not_reached
    pure (record { session = final; system_path = path; attempt = a })

  -- The session is read again, and marked as running.
  unfoldable pub claim : String → Exec Session
  claim id = do
    lock h
    s ← load h id
    require (state_text s.state == state_text (expected mode)) session_changed
    let s' = record s { state = running mode }
    write h false s'
    pure s'

abbrev pub timer_of : String → String
timer_of id = "ncm-test-rollback-" <> id <> ".timer"

module _ (h : Host) where
  -- The timer of the automatic recovery is stopped before a commit, and only then.
  unfoldable pub stop_timer : Mode → Session → String → String → Exec (Unit {0})
  stop_timer rollback s id systemctl = pure tt
  stop_timer commit s id systemctl =
      run h (systemctl ∷ "stop" ∷ timer_of id ∷ []) >>= after_stop h commit s

  -- `transition_activation_session`
  unfoldable pub transition : Mode → String → Exec Transition
  transition mode id = do
    lock h
    first ← load h id
    require (state_text first.state == state_text (expected mode)) wrong_state
    tools ← preflight h mode first
    stop_timer mode first id tools.systemctl
    s ← claim h mode id
    perform h mode s (destination mode first) tools.nix_env
