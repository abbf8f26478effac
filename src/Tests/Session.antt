-- ===== src/Tests/Session.antt =====
-- A commit and a recovery on a concrete host.
use nixos_control_manager.Prelude.{
  String, Bool, true, false, ◌≡◌, ◌⊎◌, second_of, refl, ◌<>◌, ◌||◌, ◌==◌, Option, none, some, List,
  [], ◌∷◌, if◌then◌else◌,
}
use nixos_control_manager.Prelude.Dict.{lookup, insert}
use nixos_control_manager.Json.{pos}
use nixos_control_manager.Json
use nixos_control_manager.Format
use nixos_control_manager.Session.Errors.{Result, ok}
use nixos_control_manager.Session.Errors
use nixos_control_manager.Session.Record.{
  Session, State, session_mapping, parse_session, text_where, parse_state, natural, exit_code,
}
use nixos_control_manager.Session.RoundTrip.{IsSession, parse_session-session_mapping}
use nixos_control_manager.Session.Host.{Event, Ran, exited, wrote, written, Host, World, json, ran}
use nixos_control_manager.Session.Transition.{
  commit, Transition, transition, preflight, stop_timer, claim, perform, attempt, compensate,
  is_reached,
}
use nixos_control_manager.Session.Recover.{
  Recovery, recover_session, restore, restore_profile, conclude,
}
use nixos_control_manager.Session.Exec
use nixos_control_manager.Session.Machine.{
  lock, load, write, run, runtime, profile, is_ready, which,
}
use nixos_control_manager.Session.Commands.{switch_of, is_zero, is_at, found, is_unset_or_at}
use nixos_control_manager.Session.Refusals.{
  with_lock, IsHeld, IsPrepared, IsRecoverable, again, transition-IsPrepared,
  recover_session-IsRecoverable,
}
use nixos_control_manager.Session.Attested.{Attested, AttestedSince}
use nixos_control_manager.Session.Sound.{KeepsSystems, transition-Attested, transition-IsDone}
use nixos_control_manager.Session.Sound.Perform.{IsDone}
use nixos_control_manager.Session.Sound.Recover.{
  IsRecovered, recover_session-Attested, recover_session-IsRecovered,
}
use nixos_control_manager.Tests.Data.{digest}

abbrev id : String
id = "0123456789abcdef01234567"

abbrev candidate : String
candidate = "/nix/store/0123456789abcdfghijklmnpqrsvwxyz-new"

abbrev previous : String
previous = "/nix/store/0123456789abcdfghijklmnpqrsvwxyz-old"

abbrev session : State → Session
session state = record {
  session_id = id;
  state = state;
  target_id = "desk";
  peer_uid = 1000;
  plan_fingerprint = digest;
  candidate_system_path = candidate;
  previous_system_path = previous;
  created_at = 10;
  recovery_deadline = 20;
  activation_exit_code = none;
  recovery_exit_code = none;
}

-- Whether the profile has been set.
abbrev is_set : List Event → Bool
is_set [] = false
is_set (ran (tool ∷ option ∷ link ∷ action ∷ path ∷ []) r ∷ log) = true
is_set (e ∷ log) = is_set log

-- Every command succeeds; the profile is the candidate once it has been set.
abbrev host : Host
host = record {
  is_secure = λ log. true;
  others = λ log journal. journal;
  write = λ log s. written;
  run = λ log command. exited (pos 0);
  runtime = λ log. some candidate;
  profile = λ log. some (if is_set log then candidate else previous);
  is_ready = λ log path. true;
  which = λ log name. some name;
}

-- A host whose links are at the previous system.
abbrev old_host : Host
old_host = record host { runtime = λ log. some previous; profile = λ log. some previous }

abbrev world : State → World
world state = record { journal = (id, json (session_mapping (session state))) ∷ []; log = [] }

abbrev committed : Session
committed = record (session State.committed) { activation_exit_code = some (pos 0) }

abbrev committed_result : Transition
committed_result = record {
  session = committed;
  system_path = candidate;
  attempt = record {
    profile_code = pos 0;
    switch_code = some (pos 0);
    current_matches = true;
    profile_matches = true;
  };
}

abbrev recovered_result : Recovery
recovered_result = record {
  session = record (session State.recovered) { recovery_exit_code = some (pos 0) };
  command = some ((previous <> "/bin/switch-to-configuration") ∷ "test" ∷ []);
  idempotent = false;
}

host-KeepsSystems : KeepsSystems host
host-KeepsSystems = record { kept = λ log journal id s e. (s, e, refl, refl) }

session-IsSession : IsSession (session State.active)
unfolding Format.is_transaction_id Format.is_target_id Format.is_sha256 Format.is_store_path
session-IsSession = record {
  identifier = refl;
  target = refl;
  fingerprint = refl;
  candidate = refl;
  previous = refl;
}

transition-committed :
    (transition host commit id (world State.commit_prepared)).0 ≡ ok committed_result
unfolding transition preflight stop_timer claim perform attempt compensate is_reached Exec.◌>>=◌
    Exec.pure Exec.require Exec.if◌then◌else◌ lock load write run runtime profile is_ready which
    lookup insert parse_session session_mapping Errors.◌>>=◌ Errors.require Json.is_one text_where
    parse_state natural exit_code Format.is_transaction_id Format.is_target_id Format.is_sha256
    Format.is_store_path is_zero is_at found is_unset_or_at
transition-committed = refl

recover_session-recovered :
    (recover_session old_host id (world State.active)).0 ≡ ok recovered_result
unfolding recover_session restore restore_profile conclude Exec.◌>>=◌ Exec.pure Exec.require
    Exec.if◌then◌else◌ lock load write run runtime profile is_ready which lookup insert
    parse_session session_mapping Errors.◌>>=◌ Errors.require Json.is_one text_where parse_state
    natural exit_code Format.is_transaction_id Format.is_target_id Format.is_sha256
    Format.is_store_path is_zero is_at found is_unset_or_at
recover_session-recovered = refl

round_trip_session_example :
    parse_session (session_mapping (session State.active)) ≡ ok (session State.active)
round_trip_session_example = parse_session-session_mapping (session State.active) session-IsSession

-- Whether the system has been switched back.
abbrev is_back : List Event → Bool
is_back [] = false
is_back (ran (tool ∷ action ∷ []) r ∷ log) = tool == switch_of previous || is_back log
is_back (e ∷ log) = is_back log

abbrev failing_run : List String → Ran
failing_run (tool ∷ action ∷ []) =
    if tool == switch_of candidate then exited (pos 1) else exited (pos 0)
failing_run command = exited (pos 0)

-- The switch to the candidate fails, and the one back goes well.
abbrev failing_host : Host
failing_host = record host {
  run = λ log command. failing_run command;
  runtime = λ log. some (if is_back log then previous else candidate);
  profile = λ log. some previous;
}

abbrev compensated : World
compensated = (transition failing_host commit id (world State.commit_prepared)).1

abbrev last_state : List Event → Option State
last_state (wrote s o ∷ log) = some s.state
last_state log = none

failing_host-KeepsSystems : KeepsSystems failing_host
failing_host-KeepsSystems = record { kept = λ log journal id s e. (s, e, refl, refl) }

transition-compensated : last_state compensated.log ≡ some State.recovered
unfolding transition preflight stop_timer claim perform attempt compensate is_reached Exec.◌>>=◌
    Exec.pure Exec.raise Exec.require Exec.if◌then◌else◌ lock load write run runtime profile
    is_ready which lookup insert parse_session session_mapping Errors.◌>>=◌ Errors.require
    Json.is_one text_where parse_state natural exit_code Format.is_transaction_id
    Format.is_target_id Format.is_sha256 Format.is_store_path is_zero is_at found is_unset_or_at
transition-compensated = refl

transition_example : AttestedSince [] compensated.log × (Attested [] → Attested compensated.log)
transition_example =
    transition-Attested failing_host failing_host-KeepsSystems commit id
      (world State.commit_prepared)

commit_example :
    IsDone commit committed_result (transition host commit id (world State.commit_prepared)).1
commit_example =
    transition-IsDone host host-KeepsSystems commit id (world State.commit_prepared) tt
      committed_result transition-committed

recovery_log_example : Attested (recover_session old_host id (world State.active)).1.log
recovery_log_example = recover_session-Attested old_host id (world State.active) tt

recovered_example :
    IsRecovered recovered_result (recover_session old_host id (world State.active)).1
recovered_example =
    recover_session-IsRecovered old_host id (world State.active) tt recovered_result
      recover_session-recovered

prepared_example :
    (s : Session) × (IsHeld host id (world State.commit_prepared) s × IsPrepared commit s.state)
prepared_example =
    second_of (transition-IsPrepared host id (world State.commit_prepared) commit)
      (λ p. p.0 committed_result transition-committed)

recoverable_example :
    let w = world State.active in
    let x = recover_session old_host id w in
    ((s : Session) × (IsHeld old_host id w s
        × (s.state ≡ State.recovered)
        × (x ≡ (ok (again old_host id w s), with_lock old_host w))))
    ⊎ ((s : Session) × (IsHeld old_host id w s × IsRecoverable s.state))
recoverable_example =
    second_of (recover_session-IsRecoverable old_host id (world State.active))
      (λ p. p.0 recovered_result recover_session-recovered)
