-- ===== src/Session/Record.antt =====
-- `ActivationSession` of activation_session.py: the record, its checks and its journal entry.
use nixos_control_manager.Prelude.{ℕ, String, Bool, ◌&&◌, Option, none, some, List, [], ◌∷◌}
use nixos_control_manager.Prelude.Dict.{Dict, lookup}
use nixos_control_manager.Json.{
  Json, ℤ, pos, null, int, str, obj, get, keys, covers, is_one, Fields, fields,
}
use nixos_control_manager.Format.{is_transaction_id, is_target_id, is_sha256, is_store_path}
use nixos_control_manager.Session.Errors.{invalid_session, Result, ok, err, ◌>>=◌, ◌>>◌, require}

-- `_STATES`
pub data State : Type 0 where
  prepared activating active recovering recovered activation_failed recovery_required : State
  commit_prepared committing committed commit_failed : State
  rollback_prepared rolling_back rolled_back rollback_required : State

abbrev pub state_text : State → String
state_text prepared = "prepared"
state_text activating = "activating"
state_text active = "active"
state_text recovering = "recovering"
state_text recovered = "recovered"
state_text activation_failed = "activation-failed"
state_text recovery_required = "recovery-required"
state_text commit_prepared = "commit-prepared"
state_text committing = "committing"
state_text committed = "committed"
state_text commit_failed = "commit-failed"
state_text rollback_prepared = "rollback-prepared"
state_text rolling_back = "rolling-back"
state_text rolled_back = "rolled-back"
state_text rollback_required = "rollback-required"

abbrev states : Dict State
states =
    ("prepared", prepared)
    ∷ ("activating", activating)
    ∷ ("active", active)
    ∷ ("recovering", recovering)
    ∷ ("recovered", recovered)
    ∷ ("activation-failed", activation_failed)
    ∷ ("recovery-required", recovery_required)
    ∷ ("commit-prepared", commit_prepared)
    ∷ ("committing", committing)
    ∷ ("committed", committed)
    ∷ ("commit-failed", commit_failed)
    ∷ ("rollback-prepared", rollback_prepared)
    ∷ ("rolling-back", rolling_back)
    ∷ ("rolled-back", rolled_back)
    ∷ ("rollback-required", rollback_required)
    ∷ []

pub record Session : Type 0 where
  pub session_id : String
  pub state : State
  pub target_id : String
  pub peer_uid : ℕ
  pub plan_fingerprint : String
  pub candidate_system_path : String
  pub previous_system_path : String
  pub created_at : ℕ
  pub recovery_deadline : ℕ
  pub activation_exit_code : Option ℤ
  pub recovery_exit_code : Option ℤ

abbrev or_invalid {ℓ} : {A : Type ℓ} → Option A → Result A
or_invalid none = err invalid_session
or_invalid (some a) = ok a

-- A text that passes a test; the match of a pattern against anything else is a `TypeError`.
unfoldable pub text_where : (String → Bool) → Json → Result String
text_where test (str s) = require (test s) invalid_session >> ok s
text_where test _ = err invalid_session

unfoldable pub parse_state : Json → Result State
unfolding lookup
parse_state (str s) = or_invalid (lookup s states)
parse_state _ = err invalid_session

unfoldable pub natural : Json → Result ℕ
natural (int (pos n)) = ok n
natural _ = err invalid_session

unfoldable pub exit_code : Json → Result (Option ℤ)
exit_code null = ok none
exit_code (int n) = ok (some n)
exit_code _ = err invalid_session

abbrev journal_keys : List String
journal_keys =
    "schemaVersion" ∷ "sessionId" ∷ "state" ∷ "targetId" ∷ "peerUid" ∷ "planFingerprint"
    ∷ "candidateSystemPath" ∷ "previousSystemPath" ∷ "createdAt" ∷ "recoveryDeadline"
    ∷ "activationExitCode" ∷ "recoveryExitCode" ∷ []

abbrev mapping : Json → Result Fields
mapping (obj fs) = ok fs
mapping _ = err invalid_session

-- `ActivationSession.from_mapping`, with the checks of `__post_init__`.
unfoldable pub parse_session : Json → Result Session
unfolding get covers
parse_session raw = do
  fs ← mapping raw
  require (covers journal_keys (keys fs) && covers (keys fs) journal_keys) invalid_session
  require (is_one (← or_invalid (get "schemaVersion" fs))) invalid_session
  session_id ← text_where is_transaction_id (← or_invalid (get "sessionId" fs))
  state ← parse_state (← or_invalid (get "state" fs))
  target_id ← text_where is_target_id (← or_invalid (get "targetId" fs))
  peer_uid ← natural (← or_invalid (get "peerUid" fs))
  plan_fingerprint ← text_where is_sha256 (← or_invalid (get "planFingerprint" fs))
  candidate ← text_where is_store_path (← or_invalid (get "candidateSystemPath" fs))
  previous ← text_where is_store_path (← or_invalid (get "previousSystemPath" fs))
  created_at ← natural (← or_invalid (get "createdAt" fs))
  recovery_deadline ← natural (← or_invalid (get "recoveryDeadline" fs))
  activation ← exit_code (← or_invalid (get "activationExitCode" fs))
  recovery ← exit_code (← or_invalid (get "recoveryExitCode" fs))
  ok (record {
    session_id = session_id;
    state = state;
    target_id = target_id;
    peer_uid = peer_uid;
    plan_fingerprint = plan_fingerprint;
    candidate_system_path = candidate;
    previous_system_path = previous;
    created_at = created_at;
    recovery_deadline = recovery_deadline;
    activation_exit_code = activation;
    recovery_exit_code = recovery;
  })

abbrev pub code_json : Option ℤ → Json
code_json none = null
code_json (some n) = int n

-- `ActivationSession.to_mapping`
unfoldable pub session_mapping : Session → Json
session_mapping s = obj (
    fields (
      ("schemaVersion", int (pos 1))
      ∷ ("sessionId", str s.session_id)
      ∷ ("state", str (state_text s.state))
      ∷ ("targetId", str s.target_id)
      ∷ ("peerUid", int (pos s.peer_uid))
      ∷ ("planFingerprint", str s.plan_fingerprint)
      ∷ ("candidateSystemPath", str s.candidate_system_path)
      ∷ ("previousSystemPath", str s.previous_system_path)
      ∷ ("createdAt", int (pos s.created_at))
      ∷ ("recoveryDeadline", int (pos s.recovery_deadline))
      ∷ ("activationExitCode", code_json s.activation_exit_code)
      ∷ ("recoveryExitCode", code_json s.recovery_exit_code)
      ∷ []))
