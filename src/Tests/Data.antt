-- ===== src/Tests/Data.antt =====
-- A configured target, its dispatcher and one plan of a single change.
use nixos_control_manager.Prelude.{String, true, false, none, some, [], ◌∷◌}
use nixos_control_manager.Json.{Json, int, pos, str, arr, obj, nil, cons, Fields, fields}
use nixos_control_manager.Protocol.Candidate.{CandidateFile}
use nixos_control_manager.Protocol.Candidate
use nixos_control_manager.Protocol.Plans.{ValidatePlanPayload, ValidateFlakeLockUpdatePayload}
use nixos_control_manager.Helper.Target.{HelperTarget, Target, PathLookup}
use nixos_control_manager.Helper.State.{
  Environment, Dispatcher, World, Pending, PeerIdentity, granted, returned,
}

abbrev pub digest : String
digest = "0123456789abcdef0123456789abcdef0123456789abcdef0123456789abcdef"

abbrev pub receipt : String
receipt = "abcdefghijklmnopqrstuvwxyz_-012345"

-- A digest function for the tests, which is not injective.
abbrev pub sha256 : String → String
sha256 text = digest

abbrev pub change : CandidateFile
change = record {
  relative_path = "ncm/packages.nix";
  action = Candidate.modify;
  previous_sha256 = some digest;
  candidate_sha256 = digest;
  candidate = "{ }";
}

abbrev pub change_json : Json
change_json = obj (
    fields (
      ("relativePath", str "ncm/packages.nix")
      ∷ ("action", str "modify")
      ∷ ("previousSha256", str digest)
      ∷ ("candidateSha256", str digest)
      ∷ ("candidate", str "{ }")
      ∷ []))

abbrev pub lock_change : CandidateFile
lock_change = record change { relative_path = "flake.lock" }

abbrev lock_change_json : Json
lock_change_json = obj (
    fields (
      ("relativePath", str "flake.lock")
      ∷ ("action", str "modify")
      ∷ ("previousSha256", str digest)
      ∷ ("candidateSha256", str digest)
      ∷ ("candidate", str "{ }")
      ∷ []))

abbrev pub lock_update : ValidateFlakeLockUpdatePayload
lock_update = record {
  target_id = "desk";
  plan_fingerprint = digest;
  input_name = "nixpkgs";
  source_fingerprint = digest;
  changes = lock_change ∷ [];
}

abbrev pub lock_update_json : Json
lock_update_json = obj (
    fields (
      ("targetId", str "desk")
      ∷ ("planFingerprint", str digest)
      ∷ ("inputName", str "nixpkgs")
      ∷ ("sourceFingerprint", str digest)
      ∷ ("changes", arr (cons lock_change_json nil))
      ∷ []))

abbrev pub plan : ValidatePlanPayload
plan = record { target_id = "desk"; plan_fingerprint = digest; changes = change ∷ [] }

abbrev pub plan_fields : Fields
plan_fields = fields (
    ("targetId", str "desk")
    ∷ ("planFingerprint", str digest)
    ∷ ("changes", arr (cons change_json nil))
    ∷ [])

abbrev pub apply_fields : Fields
apply_fields = fields (
    ("targetId", str "desk")
    ∷ ("planFingerprint", str digest)
    ∷ ("validationReceipt", str receipt)
    ∷ [])

abbrev request : String → Fields → Json
request operation payload = obj (
    fields (
      ("schemaVersion", int (pos 1))
      ∷ ("requestId", str "request-1")
      ∷ ("operation", str operation)
      ∷ ("payload", obj payload)
      ∷ []))

abbrev pub validate_request : Json
validate_request = request "validate-plan" plan_fields

abbrev pub apply_request : Json
apply_request = request "apply-validated-plan" apply_fields

-- A fixture target with the right to apply plans.
abbrev pub fixture : {P : Type 0} → P → HelperTarget P
fixture root = record {
  target_id = "desk";
  configuration_root = root;
  allowed_relative_paths = "ncm/state.json" ∷ "ncm/packages.nix" ∷ [];
  fixture_only = true;
  apply_enabled = true;
  journal_root = none;
  flake_target = none;
  test_activation_enabled = false;
  test_journal_root = none;
  test_timeout_seconds = 120;
  home_manager_apply_enabled = false;
  home_manager_root = none;
  home_manager_journal_root = none;
  managed_write_enabled = false;
  managed_journal_root = none;
  permanent_switch_enabled = false;
  flake_lock_write_enabled = false;
  flake_lock_journal_root = none;
}

abbrev pub target : Target
target = fixture ("etc" ∷ "nixos" ∷ [])

abbrev pub file_system : PathLookup
file_system = record { resolve = λ p. "etc" ∷ "nixos" ∷ []; is_symlink = λ p. false }

-- Every consent is granted, every validation passes, and the clock stands still.
abbrev pub environment : Environment
environment = record {
  sha256 = sha256;
  authorize = λ log a p ds. granted;
  reply = λ log c. returned (fields (("status", str "passed") ∷ []));
  monotonic = λ log. 7;
  token_urlsafe = λ log. receipt;
  has_discard = λ c. false;
  ticks = 1;
}

abbrev pub dispatcher : Dispatcher
dispatcher = record {
  targets = ("desk", target) ∷ [];
  receipt_ttl_seconds = 300;
  environment = environment;
}

abbrev pub peer : PeerIdentity
peer = record { uid = 1000; pid = none; gid = none }

abbrev pub entry : Pending ValidatePlanPayload
entry = record {
  receipt = receipt;
  peer_uid = 1000;
  payload = plan;
  expires_at = 307;
  validation_result = fields (("status", str "passed") ∷ []);
}

abbrev pub empty : World
empty = record {
  pending = [];
  pending_home_manager = [];
  pending_managed = [];
  pending_flake_lock = [];
  pending_tests = [];
  log = [];
}
