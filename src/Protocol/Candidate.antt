-- ===== src/Protocol/Candidate.antt =====
-- `CandidateFile` of helper_protocol.py: one file change of a submitted plan.
use Prim.Native.String.{len}
use nixos_control_manager.Prelude.{
  ℕ, String, Bool, not, Option, none, some, List, [], ◌∷◌, nat_eq, leb, all, ◌==◌, if◌then◌else◌,
}
use nixos_control_manager.Json.{Json, null, str, obj, field, end}
use nixos_control_manager.Format.{codes}
use nixos_control_manager.Format.Labels.{is_plain_label}
use nixos_control_manager.Protocol.{
  Result, ok, err, protocol, ◌>>=◌, ◌>>◌, require, invalid_request, invalid_digest,
  path_not_allowed, request_too_large, mapping, exact_keys, string, item, sha256_text,
}

-- `MAX_CANDIDATE_BYTES`
abbrev pub max_candidate_bytes : ℕ
max_candidate_bytes = 1000000

pub data Action : Type 0 where
  create modify : Action

pub record CandidateFile : Type 0 where
  pub relative_path : String
  pub action : Action
  pub previous_sha256 : Option String
  pub candidate_sha256 : String
  pub candidate : String

abbrev pub action_text : Action → String
action_text create = "create"
action_text modify = "modify"

unfoldable pub parse_action : String → Result Action
parse_action s =
    if s == "create"
    then ok create
    else if s == "modify"
    then ok modify
    else err (protocol invalid_request)

-- A new file has no previous digest, a changed one has a well-formed one.
unfoldable pub parse_previous : Action → Json → Result (Option String)
unfolding sha256_text
parse_previous create null = ok none
parse_previous create _ = err (protocol invalid_digest)
parse_previous modify v = do digest ← sha256_text v; ok (some digest)

abbrev pub no_nul : String → Bool
no_nul s = all (λ c. not (nat_eq c 0)) (codes s)

abbrev pub candidate_keys : List String
candidate_keys = "relativePath" ∷ "action" ∷ "previousSha256" ∷ "candidateSha256" ∷ "candidate" ∷ []

module _ (sha256 : String → String) where
  -- `CandidateFile.from_mapping`; `sha256` is the hex digest of the text's UTF-8 bytes.
  unfoldable pub parse_candidate : Json → Result CandidateFile
  unfolding exact_keys item parse_action parse_previous sha256_text
  parse_candidate raw = do
    fs ← mapping raw
    exact_keys fs candidate_keys
    relative_path ← string (← item fs "relativePath")
    require (is_plain_label (codes relative_path)) path_not_allowed
    action_name ← string (← item fs "action")
    action ← parse_action action_name
    previous ← parse_previous action (← item fs "previousSha256")
    candidate ← string (← item fs "candidate")
    require (no_nul candidate) invalid_request
    require (leb (len candidate) max_candidate_bytes) request_too_large
    digest ← sha256_text (← item fs "candidateSha256")
    require (sha256 candidate == digest) invalid_digest
    ok (record {
      relative_path = relative_path;
      action = action;
      previous_sha256 = previous;
      candidate_sha256 = digest;
      candidate = candidate;
    })

abbrev pub previous_json : Option String → Json
previous_json none = null
previous_json (some d) = str d

-- `CandidateFile.to_mapping`
unfoldable pub candidate_mapping : CandidateFile → Bool → Json
candidate_mapping c include_candidate = obj (
    field "relativePath" (str c.relative_path) (
      field "action" (str (action_text c.action)) (
        field "previousSha256" (previous_json c.previous_sha256) (
          field "candidateSha256" (str c.candidate_sha256)
            (if include_candidate then field "candidate" (str c.candidate) end else end)))))
