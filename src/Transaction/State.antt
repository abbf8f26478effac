-- ===== src/Transaction/State.antt =====
-- The configuration tree, the journal and the manifest of transaction.py.
use nixos_control_manager.Prelude.{
  ℕ, zero, suc, String, Bool, ◌||◌, Option, none, some, List, [], ◌∷◌, ◌==◌, ◌<>◌,
}
use nixos_control_manager.Prelude.Dict.{Dict}
use nixos_control_manager.Transaction.Errors.{Failure}

abbrev pub Content : Type 0
Content = List ℕ

-- A regular file.
pub record File : Type 0 where
  pub content : Content
  pub mode : ℕ

pub data Action : Type 0 where
  create : Action
  modify : Action
  other : String → Action

-- `PlannedFileChange`, the fields that transaction.py reads.
pub record Change : Type 0 where
  pub relative_path : String
  pub action : Action
  pub previous : String
  pub candidate : String

pub data Status : Type 0 where
  planned : Status
  prepared : Status
  committed : Status
  rolled_back : Status

-- `ValidationCheck`, the fields that the journal keeps.
pub record Check : Type 0 where
  pub name : String
  pub status : String
  pub exit_code : Option ℕ
  pub duration_ms : ℕ

-- What `_verification_summary` makes of a validation, and what a caller of the flake lock gives.
pub data Verification : Type 0 where
  summary :
      (status : String) (flake_target : Option String) (working_copy_removed : Bool)
      → List Check
      → Verification
  mapping :
      (status : Option String) (working_copy_removed : Option Bool)
      (plan_fingerprint : Option String)
      → Verification

-- An element of the manifest's "changes".
pub record Entry : Type 0 where
  pub path : String
  pub action : Action
  pub previous_sha256 : Option String
  pub candidate_sha256 : String
  pub backup_path : Option String
  pub staged_path : String
  pub status : Status

pub record Manifest : Type 0 where
  pub transaction_id : String
  pub configuration_root : String
  -- `none` where the key is missing
  pub transaction_kind : Option String
  pub fixture_only : Option Bool
  pub plan_fingerprint : String
  pub state : String
  pub created_directories : List String
  pub changes : List Entry
  pub error : Option Failure
  pub recovery_error : Option Failure
  pub post_verification : Option Verification

-- A manifest file that exists: what `_load_manifest` makes of it.
pub data Stored : Type 0 where
  unreadable : Stored
  stored : Manifest → Stored

-- What transaction.py sees and changes. Files and directories of the configuration are named by
-- their path from its root, those of the journal by their path from the journal's.
pub record World : Type 0 where
  pub files : Dict File
  pub directories : List String
  -- the directories of the journal, and what each holds
  pub folders : List String
  pub manifests : Dict Stored
  pub temporaries : List String
  pub backups : Dict Content
  pub is_locked : Bool
  -- the `manifest` object of the running function
  pub memory : Manifest
  -- the calls of the system so far
  pub clock : ℕ

abbrev pub content_of : Option File → Option Content
content_of none = none
content_of (some f) = some f.content

-- `transaction_dir / relative`
abbrev pub in_folder : String → String → String
in_folder id relative = id <> "/" <> relative

-- `state in {"committed", "rolled-back", "recovered"}`
abbrev pub is_finished : String → Bool
is_finished s = s == "committed" || s == "rolled-back" || s == "recovered"

-- `entry["status"] = …`, of the entry at an index
unfoldable pub set_status : ℕ → Status → List Entry → List Entry
set_status i s [] = []
set_status zero s (e ∷ es) = record e { status = s } ∷ es
set_status (suc i) s (e ∷ es) = e ∷ set_status i s es
