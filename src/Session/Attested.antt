-- ===== src/Session/Attested.antt =====
-- What the final states of a session in activation_session.py are to rest on.
pub mod Steps
use nixos_control_manager.Prelude.{
  String, true, false, ◌≡◌, refl, ap, eq_iff, not, Option, none, some, List, [], ◌∷◌,
}
use nixos_control_manager.Prelude.Dict.{Dict, lookup}
use nixos_control_manager.Format.{is_transaction_id}
use nixos_control_manager.Session.Errors.{ok}
use nixos_control_manager.Session.Record.{Session, State}
use nixos_control_manager.Session.Host.{
  File, Event, Ran, locked, ran, saw_runtime, saw_profile, wrote, Written, written, not_written,
  written_and_raised, Host, World,
}
use nixos_control_manager.Session.Exec.{Exec}
use nixos_control_manager.Session.Machine.{
  lock, load, write, run, runtime, profile, is_ready, which, read, outcome, after_write,
}
use nixos_control_manager.Session.Commands.{is_unset_or_at, is_at}
use nixos_control_manager.Session.Triple.{Triple, Post, Post-if, Post-result}

-- What must have been seen of the links: nothing, both at a path, or the running system at a path
-- and the profile there too or not set.
pub data Sight : Type 0 where
  nothing : Sight
  both_at : String → Sight
  at_or_unset : String → Sight

-- What a session's final states rest on; no other state rests on anything.
abbrev pub settled : State → Session → Sight
settled State.committed s = both_at s.candidate_system_path
settled State.rolled_back s = both_at s.previous_system_path
settled State.recovered s = at_or_unset s.previous_system_path
settled _ s = nothing

-- It was the last thing seen.
abbrev pub Seen : Sight → List Event → Type 0
Seen nothing log = Unit
Seen sight (locked ∷ log) = Seen sight log
Seen (both_at path) (saw_profile p ∷ saw_runtime r ∷ log) = (is_at p path ≡ true) × (r ≡ some path)
Seen (at_or_unset path) (saw_profile p ∷ saw_runtime r ∷ log) =
    (is_unset_or_at p path ≡ true) × (r ≡ some path)
Seen sight _ = ⊥

-- Whenever a session was written in a final state, its system had just been seen.
abbrev pub Attested : List Event → Type 0
Attested [] = Unit
Attested (wrote s o ∷ log) = Seen (settled s.state s) log × Attested log
Attested (locked ∷ log) = Attested log
Attested (ran command r ∷ log) = Attested log
Attested (saw_runtime r ∷ log) = Attested log
Attested (saw_profile p ∷ log) = Attested log

abbrev pub IsAttested : World → Type 0
IsAttested w = Attested w.log

-- What a transition's writes are to rest on: both links at the system of the state.
abbrev pub settled_both : State → Session → Sight
settled_both State.committed s = both_at s.candidate_system_path
settled_both State.rolled_back s = both_at s.previous_system_path
settled_both State.recovered s = both_at s.previous_system_path
settled_both _ s = nothing

-- The log has grown from `before`, and each session written since in a final state was written
-- just after both links had been seen at the system of that state.
pub data AttestedSince (before : List Event) : List Event → Type 0 where
  start : AttestedSince before before
  on_lock : {log : List Event} → AttestedSince before log → AttestedSince before (locked ∷ log)
  on_run :
      {log : List Event} {c : List String} {r : Ran}
      → AttestedSince before log
      → AttestedSince before (ran c r ∷ log)
  on_runtime :
      {log : List Event} {r : Option String}
      → AttestedSince before log
      → AttestedSince before (saw_runtime r ∷ log)
  on_profile :
      {log : List Event} {p : Option String}
      → AttestedSince before log
      → AttestedSince before (saw_profile p ∷ log)
  on_write :
      {log : List Event} {s : Session} {o : Written}
      → Seen (settled_both s.state s) log
      → AttestedSince before log
      → AttestedSince before (wrote s o ∷ log)

abbrev pub IsAttestedSince : List Event → World → Type 0
IsAttestedSince before w = AttestedSince before w.log

-- What neither a command nor a look at a link can break.
pub record Lasting (A : List Event → Type 0) : Type 0 where
  pub past_run : (c : List String) (r : Ran) (log : List Event) → A log → A (ran c r ∷ log)
  pub past_runtime : (r : Option String) (log : List Event) → A log → A (saw_runtime r ∷ log)
  pub past_profile : (p : Option String) (log : List Event) → A log → A (saw_profile p ∷ log)

pub Attested-Lasting : Lasting Attested
Attested-Lasting = record {
  past_run = λ c r log a. a;
  past_runtime = λ r log a. a;
  past_profile = λ p log a. a;
}

pub AttestedSince-Lasting : (before : List Event) → Lasting (AttestedSince before)
AttestedSince-Lasting before = record {
  past_run = λ c r log a. on_run a;
  past_runtime = λ r log a. on_runtime a;
  past_profile = λ p log a. on_profile a;
}

-- The journal is `journal`, and the log has grown well.
pub record IsAt (before : List Event) (journal : Dict File) (w : World) : Type 0 where
  pub same : w.journal ≡ journal
  pub attested : AttestedSince before w.log

is_at-is_unset_or_at :
    (p : Option String) (path : String) → is_at p path ≡ true → is_unset_or_at p path ≡ true
unfolding is_at is_unset_or_at
is_at-is_unset_or_at none path h = refl
is_at-is_unset_or_at (some q) path h = h

-- Both links at a path do where the profile may also be unset.
Seen-both :
    (path : String) (log : List Event) → Seen (both_at path) log → Seen (at_or_unset path) log
Seen-both path (locked ∷ log) h = Seen-both path log h
Seen-both path (saw_profile p ∷ saw_runtime r ∷ log) h = (is_at-is_unset_or_at p path h.0, h.1)
Seen-both path [] h = elim h [ ]
Seen-both path (ran _ _ ∷ log) h = elim h [ ]
Seen-both path (saw_runtime _ ∷ log) h = elim h [ ]
Seen-both path (saw_profile p ∷ []) h = elim h [ ]
Seen-both path (saw_profile p ∷ (locked ∷ log)) h = elim h [ ]
Seen-both path (saw_profile p ∷ (ran _ _ ∷ log)) h = elim h [ ]
Seen-both path (saw_profile p ∷ (saw_profile _ ∷ log)) h = elim h [ ]
Seen-both path (saw_profile p ∷ (wrote _ _ ∷ log)) h = elim h [ ]
Seen-both path (wrote _ _ ∷ log) h = elim h [ ]

Seen-settled :
    (state : State) (s : Session) (log : List Event)
    → Seen (settled_both state s) log
    → Seen (settled state s) log
Seen-settled State.recovered s log h = Seen-both s.previous_system_path log h
Seen-settled state s log h = h

-- A log that has grown well from an attested one is attested.
pub Attested-AttestedSince :
    {before log : List Event} → Attested before → AttestedSince before log → Attested log
Attested-AttestedSince h start = h
Attested-AttestedSince h (on_lock a) = Attested-AttestedSince h a
Attested-AttestedSince h (on_run a) = Attested-AttestedSince h a
Attested-AttestedSince h (on_runtime a) = Attested-AttestedSince h a
Attested-AttestedSince h (on_profile a) = Attested-AttestedSince h a
Attested-AttestedSince h (on_write {log} {s} {o} seen a) =
    (Seen-settled s.state s log seen, Attested-AttestedSince h a)

pub Seen-locked : (sight : Sight) (log : List Event) → Seen sight log → Seen sight (locked ∷ log)
Seen-locked nothing log h = tt
Seen-locked (both_at path) log h = h
Seen-locked (at_or_unset path) log h = h
