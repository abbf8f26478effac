-- ===== src/Session/RoundTrip.antt =====
-- `to_mapping` and `from_mapping` of `ActivationSession` in activation_session.py, together.
use nixos_control_manager.Prelude.{String, Bool, true, ◌≡◌, refl, Option, none, some}
use nixos_control_manager.Json.{ℤ, str, is_one}
use nixos_control_manager.Format.{is_transaction_id, is_target_id, is_sha256, is_store_path}
use nixos_control_manager.Session.Errors.{ok, ◌>>=◌, require}
use nixos_control_manager.Session.Record.{
  Session, State, state_text, parse_state, text_where, exit_code, code_json, natural, parse_session,
  session_mapping,
}

-- What `__post_init__` asks of a session beyond the types of its fields.
pub record IsSession (s : Session) : Type 0 where
  pub identifier : is_transaction_id s.session_id ≡ true
  pub target : is_target_id s.target_id ≡ true
  pub fingerprint : is_sha256 s.plan_fingerprint ≡ true
  pub candidate : is_store_path s.candidate_system_path ≡ true
  pub previous : is_store_path s.previous_system_path ≡ true

pub parse_state-state_text : (state : State) → parse_state (str (state_text state)) ≡ ok state
unfolding parse_state
parse_state-state_text State.prepared = refl
parse_state-state_text State.activating = refl
parse_state-state_text State.active = refl
parse_state-state_text State.recovering = refl
parse_state-state_text State.recovered = refl
parse_state-state_text State.activation_failed = refl
parse_state-state_text State.recovery_required = refl
parse_state-state_text State.commit_prepared = refl
parse_state-state_text State.committing = refl
parse_state-state_text State.committed = refl
parse_state-state_text State.commit_failed = refl
parse_state-state_text State.rollback_prepared = refl
parse_state-state_text State.rolling_back = refl
parse_state-state_text State.rolled_back = refl
parse_state-state_text State.rollback_required = refl

exit_code-code_json : (n : Option ℤ) → exit_code (code_json n) ≡ ok n
unfolding exit_code
exit_code-code_json none = refl
exit_code-code_json (some n) = refl

text_where-str :
    (test : String → Bool) (s : String) → test s ≡ true → text_where test (str s) ≡ ok s
unfolding text_where ◌>>=◌ require
text_where-str test s h = rw (h, require)

-- The journal keeps a session whole: what `to_mapping` writes of a session that passes the
-- checks of `__post_init__`, `from_mapping` reads as the same session.
pub parse_session-session_mapping :
    (s : Session) → IsSession s → parse_session (session_mapping s) ≡ ok s
unfolding parse_session session_mapping ◌>>=◌ require natural is_one
parse_session-session_mapping s h = simp (
  text_where-str is_transaction_id s.session_id h.identifier,
  parse_state-state_text s.state,
  text_where-str is_target_id s.target_id h.target,
  text_where-str is_sha256 s.plan_fingerprint h.fingerprint,
  text_where-str is_store_path s.candidate_system_path h.candidate,
  text_where-str is_store_path s.previous_system_path h.previous,
  exit_code-code_json s.activation_exit_code,
  exit_code-code_json s.recovery_exit_code,
)
