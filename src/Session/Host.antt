-- ===== src/Session/Host.antt =====
-- What activation_session.py changes and asks of the host: the journal of
-- `ActivationSessionStore`, the commands that are run and the links that are read.
use nixos_control_manager.Prelude.{String, Bool, Option, List}
use nixos_control_manager.Prelude.Dict.{Dict}
use nixos_control_manager.Json.{Json, ℤ}
use nixos_control_manager.Session.Record.{Session}

-- A file of the journal: a link or another thing that is no file, a text that is not JSON, or a
-- JSON value.
pub data File : Type 0 where
  no_file broken : File
  json : Json → File

-- What became of a command: it ended with a code, or raised `OSError` or `TimeoutExpired`. Its
-- output, which no code reads but to hand it on, is not kept.
pub data Ran : Type 0 where
  exited : ℤ → Ran
  not_run : Ran

-- What became of a write: `os.replace` may not be reached, and what follows it may raise.
pub data Written : Type 0 where
  written not_written written_and_raised : Written

-- What has been done and seen, the latest first. A link is seen resolved.
pub data Event : Type 0 where
  locked : Event
  ran : List String → Ran → Event
  saw_runtime saw_profile : Option String → Event
  wrote : Session → Written → Event

-- The host answers by all that has happened so far. `others` is what other holders of the lock
-- have made of the journal before it is taken, `is_secure` is the test of the journal's
-- directory, `is_ready` that of a closure and its `switch-to-configuration`, and `runtime` and
-- `profile` are the targets of /run/current-system and /nix/var/nix/profiles/system.
pub record Host : Type 0 where
  pub is_secure : List Event → Bool
  pub others : List Event → Dict File → Dict File
  pub write : List Event → Session → Written
  pub run : List Event → List String → Ran
  pub runtime : List Event → Option String
  pub profile : List Event → Option String
  pub is_ready : List Event → String → Bool
  pub which : List Event → String → Option String

pub record World : Type 0 where
  pub journal : Dict File
  pub log : List Event
