-- ===== src/Protocol/Plans.antt =====
-- The payloads of helper_protocol.py that carry file changes.
use nixos_control_manager.Prelude.{
  ℕ, String, Bool, true, false, ◌&&◌, List, [], ◌∷◌, nat_eq, leb, ◌==◌, ◌||◌, if◌then◌else◌, map,
  distinct, length,
}
use nixos_control_manager.Json.{Json, Items, arr, nil, cons, elements, obj, field, end}
use nixos_control_manager.Format.{
  codes, is_user_name, is_attribute_path, is_input_name, is_store_path, is_transaction_id,
}
use nixos_control_manager.Protocol.{
  Result, ok, err, protocol, ◌>>=◌, ◌>>◌, require, invalid_request, invalid_user,
  invalid_integration, invalid_package, invalid_store_path, path_not_allowed, mapping, exact_keys,
  string, item, target_id, sha256_text,
}
use nixos_control_manager.Protocol.Candidate.{CandidateFile, parse_candidate}

-- `MAX_CHANGES`, `MAX_HOME_MANAGER_PACKAGES`
abbrev pub max_changes : ℕ
max_changes = 16

abbrev pub max_home_manager_packages : ℕ
max_home_manager_packages = 500

pub record ValidatePlanPayload : Type 0 where
  pub target_id : String
  pub plan_fingerprint : String
  pub changes : List CandidateFile

pub record ValidateHomeManagerPlanPayload : Type 0 where
  pub target_id : String
  pub plan_fingerprint : String
  pub username : String
  pub integration : String
  pub packages : List String
  pub changes : List CandidateFile

pub record ValidateFlakeLockUpdatePayload : Type 0 where
  pub target_id : String
  pub plan_fingerprint : String
  pub input_name : String
  pub source_fingerprint : String
  pub changes : List CandidateFile

pub record PreviewActivationPayload : Type 0 where
  pub target_id : String
  pub plan_fingerprint : String
  pub changes : List CandidateFile
  pub system_path : String

pub record CommitTestedSystemPayload : Type 0 where
  pub target_id : String
  pub session_id : String
  pub plan_fingerprint : String
  pub changes : List CandidateFile
  pub system_path : String

-- `isinstance(value, list)`
abbrev list_items : Json → Result Items
list_items (arr vs) = ok vs
list_items _ = err (protocol invalid_request)

abbrev pub paths : List CandidateFile → List String
paths = map (λ c. c.relative_path)

-- The mapping that the longer payloads hand to `ValidatePlanPayload.from_mapping`.
abbrev plan_mapping : Json → Json → Json → Json
plan_mapping target fingerprint changes =
    obj
      (field "targetId" target (field "planFingerprint" fingerprint (field "changes" changes end)))

-- The loop over the packages of a Home Manager plan.
unfoldable pub parse_packages : Items → Result (List String)
parse_packages nil = ok []
parse_packages (cons v vs) = do
  name ← string v
  require (is_attribute_path name) invalid_package
  rest ← parse_packages vs
  ok (name ∷ rest)

-- The order of Python's texts, by code points.
text_le : List ℕ → List ℕ → Bool
text_le [] ds = true
text_le (c ∷ cs) [] = false
text_le (c ∷ cs) (d ∷ ds) = let rest = text_le cs ds in if nat_eq c d then rest else leb c d

insert_sorted : String → List String → List String
unfolding text_le
insert_sorted s [] = s ∷ []
insert_sorted s (t ∷ ts) =
    let rest = insert_sorted s ts in if text_le (codes s) (codes t) then s ∷ t ∷ ts else t ∷ rest

-- `sorted(packages)`
unfoldable pub sorted : List String → List String
unfolding insert_sorted
sorted [] = []
sorted (s ∷ ss) = insert_sorted s (sorted ss)

-- `len(changes) == 1 and changes[0].relative_path == "flake.lock"`
abbrev pub only_flake_lock : List CandidateFile → Bool
only_flake_lock (c ∷ []) = c.relative_path == "flake.lock"
only_flake_lock _ = false

module _ (sha256 : String → String) where
  -- `tuple(CandidateFile.from_mapping(item) for item in changes_raw)`
  unfoldable pub parse_changes : Items → Result (List CandidateFile)
  parse_changes nil = ok []
  parse_changes (cons v vs) = do
    change ← parse_candidate sha256 v
    rest ← parse_changes vs
    ok (change ∷ rest)

  -- `ValidatePlanPayload.from_mapping`
  unfoldable pub parse_plan : Bool → Json → Result ValidatePlanPayload
  unfolding parse_changes exact_keys item target_id sha256_text
  parse_plan allow_empty_changes raw = do
    fs ← mapping raw
    exact_keys fs ("targetId" ∷ "planFingerprint" ∷ "changes" ∷ [])
    changes_raw ← list_items (← item fs "changes")
    let minimum = if allow_empty_changes then 0 else 1
    let count = length (elements changes_raw)
    require (leb minimum count && leb count max_changes) invalid_request
    changes ← parse_changes changes_raw
    require (distinct (paths changes)) invalid_request
    target ← target_id (← item fs "targetId")
    fingerprint ← sha256_text (← item fs "planFingerprint")
    ok (record { target_id = target; plan_fingerprint = fingerprint; changes = changes })

  -- `ValidateHomeManagerPlanPayload.from_mapping`
  unfoldable pub parse_home_manager_plan : Json → Result ValidateHomeManagerPlanPayload
  unfolding parse_plan parse_packages exact_keys item sorted
  parse_home_manager_plan raw = do
    fs ← mapping raw
    exact_keys fs
        ("targetId" ∷ "planFingerprint" ∷ "username" ∷ "integration" ∷ "packages" ∷ "changes" ∷ [])
    username ← string (← item fs "username")
    require (is_user_name username) invalid_user
    integration ← string (← item fs "integration")
    require (integration == "nixos-module" || integration == "standalone") invalid_integration
    packages_raw ← list_items (← item fs "packages")
    require (leb (length (elements packages_raw)) max_home_manager_packages) invalid_request
    packages ← parse_packages packages_raw
    require (distinct packages) invalid_request
    target ← item fs "targetId"
    fingerprint ← item fs "planFingerprint"
    changes ← item fs "changes"
    validated ← parse_plan false (plan_mapping target fingerprint changes)
    ok (record {
      target_id = validated.target_id;
      plan_fingerprint = validated.plan_fingerprint;
      username = username;
      integration = integration;
      packages = sorted packages;
      changes = validated.changes;
    })

  -- `ValidateFlakeLockUpdatePayload.from_mapping`
  unfoldable pub parse_flake_lock_update : Json → Result ValidateFlakeLockUpdatePayload
  unfolding parse_plan exact_keys item sha256_text
  parse_flake_lock_update raw = do
    fs ← mapping raw
    exact_keys fs
        ("targetId" ∷ "planFingerprint" ∷ "inputName" ∷ "sourceFingerprint" ∷ "changes" ∷ [])
    target ← item fs "targetId"
    fingerprint ← item fs "planFingerprint"
    changes ← item fs "changes"
    validated ← parse_plan false (plan_mapping target fingerprint changes)
    input_name ← string (← item fs "inputName")
    require (is_input_name input_name) invalid_request
    require (only_flake_lock validated.changes) path_not_allowed
    source_fingerprint ← sha256_text (← item fs "sourceFingerprint")
    ok (record {
      target_id = validated.target_id;
      plan_fingerprint = validated.plan_fingerprint;
      input_name = input_name;
      source_fingerprint = source_fingerprint;
      changes = validated.changes;
    })

  -- `PreviewActivationPayload.from_mapping`
  unfoldable pub parse_preview : Json → Result PreviewActivationPayload
  unfolding parse_plan exact_keys item
  parse_preview raw = do
    fs ← mapping raw
    exact_keys fs ("targetId" ∷ "planFingerprint" ∷ "changes" ∷ "systemPath" ∷ [])
    target ← item fs "targetId"
    fingerprint ← item fs "planFingerprint"
    changes ← item fs "changes"
    validated ← parse_plan true (plan_mapping target fingerprint changes)
    system_path ← string (← item fs "systemPath")
    require (is_store_path system_path) invalid_store_path
    ok (record {
      target_id = validated.target_id;
      plan_fingerprint = validated.plan_fingerprint;
      changes = validated.changes;
      system_path = system_path;
    })

  -- `CommitTestedSystemPayload.from_mapping`
  unfoldable pub parse_commit : Json → Result CommitTestedSystemPayload
  unfolding parse_preview exact_keys item
  parse_commit raw = do
    fs ← mapping raw
    exact_keys fs ("targetId" ∷ "sessionId" ∷ "planFingerprint" ∷ "changes" ∷ "systemPath" ∷ [])
    target ← item fs "targetId"
    fingerprint ← item fs "planFingerprint"
    changes ← item fs "changes"
    path ← item fs "systemPath"
    preview ← parse_preview (
        obj (
          field "targetId" target (
            field "planFingerprint" fingerprint
              (field "changes" changes (field "systemPath" path end)))))
    session_id ← string (← item fs "sessionId")
    require (is_transaction_id session_id) invalid_request
    ok (record {
      target_id = preview.target_id;
      session_id = session_id;
      plan_fingerprint = preview.plan_fingerprint;
      changes = preview.changes;
      system_path = preview.system_path;
    })
