-- ===== src/Session/Machine.antt =====
-- The methods of `ActivationSessionStore` and the calls of the host, as actions.
use nixos_control_manager.Prelude.{
  String, Bool, true, false, not, ◌&&◌, Option, none, some, List, ◌∷◌, if◌then◌else◌,
}
use nixos_control_manager.Prelude.Dict.{Dict, lookup, insert}
use nixos_control_manager.Format.{is_transaction_id}
use nixos_control_manager.Session.Errors.{
  invalid_session, missing_session, existing_session, insecure_journal, os_error, Result, ok, err,
}
use nixos_control_manager.Session.Record.{Session, parse_session, session_mapping}
use nixos_control_manager.Session.Host.{
  File, no_file, broken, json, Ran, Written, written, not_written, locked, ran, saw_runtime,
  saw_profile, wrote, Host, World,
}
use nixos_control_manager.Session.Exec.{Exec}

abbrev pub read : Option File → Result Session
read none = err missing_session
read (some no_file) = err missing_session
read (some broken) = err invalid_session
read (some (json v)) = parse_session v

abbrev is_written : Written → Bool
is_written not_written = false
is_written _ = true

abbrev pub outcome : Written → Result (Unit {0})
outcome written = ok tt
outcome _ = err os_error

-- `destination.exists() or destination.is_symlink()`
abbrev exists : Option File → Bool
exists none = false
exists (some f) = true

-- The journal after a write.
abbrev replaced : Session → Written → Dict File → Dict File
replaced s o journal =
    if is_written o then insert s.session_id (json (session_mapping s)) journal else journal

-- The state after a write with a given outcome.
abbrev pub after_write : Session → Written → World → World
after_write s o w = record { journal = replaced s o w.journal; log = wrote s o ∷ w.log }

module _ (h : Host) where
  -- `with store.lock()`, up to its body.
  unfoldable pub lock : Exec (Unit {0})
  lock w =
      if h.is_secure w.log
      then (ok tt, record { journal = h.others w.log w.journal; log = locked ∷ w.log })
      else (err insecure_journal, w)

  -- `load`
  unfoldable pub load : String → Exec Session
  load id w =
      if h.is_secure w.log
      then if is_transaction_id id
        then (read (lookup id w.journal), w)
        else (err invalid_session, w)
      else (err insecure_journal, w)

  -- `write`; the record's identifier has passed the test of its path.
  unfoldable pub write : Bool → Session → Exec (Unit {0})
  unfolding lookup insert
  write create s w =
      if not (h.is_secure w.log)
      then (err insecure_journal, w)
      else if create && exists (lookup s.session_id w.journal)
      then (err existing_session, w)
      else (let o = h.write w.log s in (outcome o, after_write s o w))

  -- `runner(command, …)`
  unfoldable pub run : List String → Exec Ran
  run command w = let r = h.run w.log command in (ok r, record w { log = ran command r ∷ w.log })

  -- `str(link.resolve()) if link.exists() else None`, of the two links
  unfoldable pub runtime : Exec (Option String)
  runtime w = let r = h.runtime w.log in (ok r, record w { log = saw_runtime r ∷ w.log })

  unfoldable pub profile : Exec (Option String)
  profile w = let r = h.profile w.log in (ok r, record w { log = saw_profile r ∷ w.log })

  unfoldable pub is_ready : String → Exec Bool
  is_ready path w = (ok (h.is_ready w.log path), w)

  unfoldable pub which : String → Exec (Option String)
  which name w = (ok (h.which w.log name), w)
