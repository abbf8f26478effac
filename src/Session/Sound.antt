-- ===== src/Session/Sound.antt =====
-- `transition_activation_session` of activation_session.py, against the log of its writes.
pub mod Perform
pub mod Recover
use nixos_control_manager.Prelude.{
  String, Bool, true, false, not, ◌&&◌, ◌≡◌, refl, sym, ap, ◌∙◌, Option, none, some, List, [], ◌∷◌,
  arith, ◌==◌, eq_iff,
}
use nixos_control_manager.Prelude.Dict.{Dict, lookup}
use nixos_control_manager.Json.{ℤ}
use nixos_control_manager.Session.Errors.{Failure, Result, ok, err, wrong_state}
use nixos_control_manager.Session.Record.{Session, State, state_text}
use nixos_control_manager.Session.Host.{
  File, Event, Ran, exited, not_run, locked, ran, saw_runtime, saw_profile, wrote, Written, written,
  Host, World,
}
use nixos_control_manager.Session.Exec.{Exec, pure, raise, require, ◌>>=◌, ◌>>◌, if◌then◌else◌}
use nixos_control_manager.Session.Machine.{read, run, lock, write, after_write}
use nixos_control_manager.Session.Commands.{is_at, set_profile, system_profile, switch_of, is_zero}
use nixos_control_manager.Session.Transition.{
  Mode, commit, rollback, destination, origin, running, blocked, expected, final_state, finished,
  last_code, Attempt, is_reached, Tools, Transition, refuse, both_tools, after_stop, preflight,
  attempt, compensate, perform, claim, stop_timer, transition, is_success,
}
use nixos_control_manager.Session.Triple.{
  Triple, Post, Triple-pure, Triple-raise, Triple-if, Triple-require, Triple-bind,
}
use nixos_control_manager.Session.Attested.{
  settled_both, Seen, Attested, AttestedSince, start, on_lock, on_write, IsAttestedSince,
  Attested-AttestedSince, IsAt, Seen-locked,
}
use nixos_control_manager.Session.Attested.Steps.{
  lock-Triple, load-Triple, write-Triple, Sighted, BothSighted, runtime-Sighted, run-IsAttested,
  profile-BothSighted, runtime-IsAt, profile-IsAt, run-IsAt, is_ready-IsAt, which-IsAt,
}
use nixos_control_manager.Session.Sound.Perform.{
  refuse-IsAttested, perform-IsDone, IsDone, IsDoneSince, Seen-running, attested,
}

destination_same :
    (mode : Mode) (s t : Session)
    → s.candidate_system_path ≡ t.candidate_system_path
    → s.previous_system_path ≡ t.previous_system_path
    → destination mode s ≡ destination mode t
destination_same commit s t c p = c
destination_same rollback s t c p = p

destination_state :
    (mode : Mode) (s : Session) (state : State)
    → destination mode (record s { state = state }) ≡ destination mode s
destination_state commit s state = refl
destination_state rollback s state = refl

-- The other holders of the journal's lock change no session's systems, and make no new session
-- readable.
pub record KeepsSystems (h : Host) : Type 0 where
  pub kept :
      (log : List Event) (journal : Dict File) (id : String) (s : Session)
      → read (lookup id (h.others log journal)) ≡ ok s
      → (s₀ : Session) × (read (lookup id journal) ≡ ok s₀)
        × (s.candidate_system_path ≡ s₀.candidate_system_path)
        × (s.previous_system_path ≡ s₀.previous_system_path)

module _ (h : Host) (before : List Event) where
  abbrev Good : World → Type 0
  Good = IsAttestedSince before

  module _ (mode : Mode) where
    after_stop-IsAt :
        (journal : Dict File) (s : Session) (r : Ran)
        → Triple (IsAt before journal) (λ _. IsAt before journal) Good (after_stop h mode s r)
    after_stop-IsAt journal s not_run =
        refuse-IsAttested h before mode _ s _ (attested h before journal)
    after_stop-IsAt journal s (exited n) =
        Triple-if _ _ _ (λ _. Triple-pure _ λ w p. p)
          (λ _. refuse-IsAttested h before mode _ s _ (attested h before journal))

    both_tools-IsAt :
        (journal : Dict File) (s : Session) (systemctl nix_env : Option String)
        → Triple
            (IsAt before journal)
            (λ _. IsAt before journal)
            Good
            (both_tools h mode s systemctl nix_env)
    both_tools-IsAt journal s none nix_env =
        refuse-IsAttested h before mode _ s _ (attested h before journal)
    both_tools-IsAt journal s (some systemctl) none =
        refuse-IsAttested h before mode _ s _ (attested h before journal)
    both_tools-IsAt journal s (some systemctl) (some nix_env) = Triple-pure _ λ w p. p

    preflight-IsAt :
        (journal : Dict File) (s : Session)
        → Triple (IsAt before journal) (λ _. IsAt before journal) Good (preflight h mode s)
    unfolding preflight
    preflight-IsAt journal s = Triple-bind _ _ (is_ready-IsAt h before journal _) λ ready.
        Triple-if _ _ _ (λ _. refuse-IsAttested h before mode _ s _ (attested h before journal))
          λ _. Triple-bind _ _ (runtime-IsAt h before journal) λ current.
            Triple-bind _ _ (profile-IsAt h before journal) λ profile_before.
              Triple-if _ _ _
                (λ _. refuse-IsAttested h before mode _ s _ (attested h before journal))
                λ _. Triple-bind _ _ (which-IsAt h before journal _) λ systemctl.
                  Triple-bind _ _ (which-IsAt h before journal _)
                    λ nix_env. both_tools-IsAt journal s _ _

    claim-destination :
        KeepsSystems h
        → (journal : Dict File) (id : String) (first : Session)
        → read (lookup id journal) ≡ ok first
        → Triple
            (IsAt before journal)
            (λ s w. Good w × (destination mode first ≡ destination mode s))
            Good
            (claim h mode id)
    unfolding claim
    claim-destination kept journal id first found =
        Triple-bind _ _
          (lock-Triple h
            {Q = λ w. Good w × ((log : List Event) × (w.journal ≡ h.others log journal))}
            (attested h before journal)
            (λ w p. (on_lock p.attested, (w.log, ap (h.others w.log) p.same))))
          λ _.
            Triple-bind _ _
              (load-Triple h {Q = λ s w. Good w × (destination mode first ≡ destination mode s)} id
                (λ w p. p.0)
                (λ s w p e. (
                  p.0,
                  let (s₀, found₀, c, q) = kept.kept p.1.0 journal id s (rw p.1.1 at e) in
                      let one : s₀ ≡ first = cc in
                      destination_same mode first s (cc (one, c)) (cc (one, q)),
                )))
              λ s.
                Triple-require _ _ _ (λ w p. p.0)
                  λ _.
                    Triple-bind _ _
                      (write-Triple h
                        {Q = λ w. Good w × (destination mode first ≡ destination mode s)} _
                        (λ w p. p.0) (λ o w p. on_write (Seen-running mode _ _) p.0)
                        (λ w p. (on_write (Seen-running mode _ _) p.0, p.1)))
                      λ _. Triple-pure _ λ w p. (p.0, p.1 ∙ sym (destination_state mode s _))

  stop_timer-IsAt :
      (mode : Mode) (journal : Dict File) (s : Session) (id systemctl : String)
      → Triple
          (IsAt before journal)
          (λ _. IsAt before journal)
          Good
          (stop_timer h mode s id systemctl)
  unfolding stop_timer
  stop_timer-IsAt rollback journal s id systemctl = Triple-pure _ λ w p. p
  stop_timer-IsAt commit journal s id systemctl =
      Triple-bind _ _ (run-IsAt h before journal _) (after_stop-IsAt commit journal s)

  -- The part of a transition behind the first load.
  rest-IsDone :
      KeepsSystems h
      → (mode : Mode) (id : String) (journal : Dict File) (first : Session)
      → read (lookup id journal) ≡ ok first
      → Triple (IsAt before journal) (IsDoneSince before mode) Good (
          require (state_text first.state == state_text (expected mode)) wrong_state
          >> (preflight h mode first >>= λ tools.
              stop_timer h mode first id tools.systemctl
              >> (claim h mode id >>= λ s.
                  perform h mode s (destination mode first) tools.nix_env)))
  rest-IsDone kept mode id journal first found =
      Triple-require _ _ _ (attested h before journal) λ _.
        Triple-bind _ _ (preflight-IsAt mode journal first) λ tools.
          Triple-bind _ _ (stop_timer-IsAt mode journal first id tools.systemctl) λ _.
            Triple-bind _ _ (claim-destination mode kept journal id first found) λ s. record {
              at = λ w p. (perform-IsDone h before mode s _ tools.nix_env p.1).at w p.0;
            }

  transition-Triple :
      KeepsSystems h
      → (mode : Mode) (id : String)
      → Triple Good (IsDoneSince before mode) Good (transition h mode id)
  unfolding transition
  transition-Triple kept mode id =
      Triple-bind _ _ (lock-Triple h {Q = Good} (λ w p. p) (λ w p. on_lock p)) λ _.
        Triple-bind _ _
          (load-Triple h {Q = λ first w. Good w × (read (lookup id w.journal) ≡ ok first)} id
            (λ w p. p) (λ first w p e. (p, e)))
          λ first. record {
            at = λ w p.
                (rest-IsDone kept mode id w.journal first p.1).at w
                  (record { same = refl; attested = p.0 });
          }

module _ {before : List Event} (mode : Mode) where
  Post-AttestedSince :
      (r : Result Transition) (w : World)
      → Post (IsDoneSince before mode) (IsAttestedSince before) (r, w)
      → AttestedSince before w.log
  Post-AttestedSince (ok r) w h = h.since
  Post-AttestedSince (err e) w h = h

  IsDone-since :
      (r : Transition) (w : World) → Attested before → IsDoneSince before mode r w → IsDone mode r w
  IsDone-since r w p d = record {
    attested = Attested-AttestedSince p d.since;
    state = d.state;
    log = d.log;
    last = d.last;
    seen = d.seen;
  }

-- A commit or rollback, on a host where the other holders of the journal's lock change no
-- session's systems and make no other session readable: whether it returns or raises, at any
-- step, it has only added to the log, and each write that it has added of a session as committed
-- comes just after both links were seen at its candidate, and each of one as rolled back, or as
-- recovered, just after both were seen at its previous system; a profile that is not set does not
-- do. So a log that was attested stays attested.
pub transition-Attested :
    (h : Host)
    → KeepsSystems h
    → (mode : Mode) (id : String) (w : World)
    → AttestedSince w.log (transition h mode id w).1.log
      × (Attested w.log → Attested (transition h mode id w).1.log)
transition-Attested h kept mode id w =
    let since =
      Post-AttestedSince mode (transition h mode id w).0 _
        ((transition-Triple h w.log kept mode id).at w start) in
    (since, λ p. Attested-AttestedSince p since)

-- A commit or rollback that returns, on a host where the other holders of the journal's lock change
-- no session's systems and make no other session readable, after a log that is attested: its
-- session was written, as the last thing done, in the state of success, and just before that both
-- links had been seen at the system that the result names.
pub transition-IsDone :
    (h : Host)
    → KeepsSystems h
    → (mode : Mode) (id : String) (w : World) → Attested w.log
    → (r : Transition) → (transition h mode id w).0 ≡ ok r
    → IsDone mode r (transition h mode id w).1
transition-IsDone h kept mode id w p r e =
    IsDone-since mode r _ p (rw e at ((transition-Triple h w.log kept mode id).at w start))
