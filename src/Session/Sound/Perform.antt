-- ===== src/Session/Sound/Perform.antt =====
-- A transition that has been claimed: its attempt, its compensation and its final write.
use nixos_control_manager.Prelude.{String, Bool, true, false, ◌≡◌, refl, List, ◌∷◌, arith}
use nixos_control_manager.Prelude.Dict.{Dict}
use nixos_control_manager.Json.{ℤ}
use nixos_control_manager.Session.Errors.{Failure}
use nixos_control_manager.Session.Record.{Session}
use nixos_control_manager.Session.Host.{File, Event, wrote, written, Host, World}
use nixos_control_manager.Session.Transition.{
  Mode, commit, rollback, destination, origin, running, blocked, final_state, finished, last_code,
  is_reached, Transition, refuse, attempt, compensate, perform,
}
use nixos_control_manager.Session.Triple.{
  Triple, Triple-pure, Triple-raise, Triple-if, Triple-require, Triple-bind,
}
use nixos_control_manager.Session.Attested.{
  settled_both, Seen, Attested, AttestedSince, on_lock, on_write, IsAttestedSince, Lasting,
  AttestedSince-Lasting, IsAt, Seen-locked, both_at,
}
use nixos_control_manager.Session.Attested.Steps.{
  lock-Triple, write-Triple, runtime-Sighted, run-IsAttested, profile-BothSighted, Seen-at,
}

Seen-final :
    (mode : Mode) (reached compensated : Bool) (s : Session) (n : ℤ) (log : List Event)
    → (reached ≡ true → Seen (both_at (destination mode s)) log)
    → (reached ≡ false → compensated ≡ true → Seen (both_at (origin mode s)) log)
    → let final = finished mode (final_state mode reached compensated) n s in
      Seen (settled_both final.state final) log
Seen-final commit true c s n log h k = h refl
Seen-final rollback true c s n log h k = h refl
Seen-final commit false true s n log h k = k refl refl
Seen-final rollback false true s n log h k = k refl refl
Seen-final commit false false s n log h k = tt
Seen-final rollback false false s n log h k = tt

Seen-blocked :
    (mode : Mode) (s : Session) (log : List Event) → Seen (settled_both (blocked mode) s) log
Seen-blocked commit s log = tt
Seen-blocked rollback s log = tt

pub Seen-running :
    (mode : Mode) (s : Session) (log : List Event) → Seen (settled_both (running mode) s) log
Seen-running commit s log = tt
Seen-running rollback s log = tt

-- What a returned transition has left: as the last thing done its session was written, in the
-- state of success, and both links had just been seen at its system.
pub record IsDone (mode : Mode) (r : Transition) (w : World) : Type 0 where
  pub attested : Attested w.log
  pub state : r.session.state ≡ final_state mode true false
  pub log : List Event
  pub last : w.log ≡ wrote r.session written ∷ log
  pub seen : Seen (both_at r.system_path) log

-- The same, with what has been written since `before`.
pub record IsDoneSince (before : List Event) (mode : Mode) (r : Transition) (w : World)
    : Type 0 where
  pub since : AttestedSince before w.log
  pub state : r.session.state ≡ final_state mode true false
  pub log : List Event
  pub last : w.log ≡ wrote r.session written ∷ log
  pub seen : Seen (both_at r.system_path) log

finished_state :
    (mode : Mode) (reached c : Bool) (n : ℤ) (s : Session)
    → reached ≡ true
    → (finished mode (final_state mode reached c) n s).state ≡ final_state mode true false
finished_state commit true c n s e = refl
finished_state rollback true c n s e = refl
finished_state mode false c n s e = cc

module _ (h : Host) (before : List Event) where
  abbrev Good : World → Type 0
  Good = IsAttestedSince before

  pub attested : (journal : Dict File) (w : World) → IsAt before journal w → Good w
  attested journal w p = p.attested

  lasting : Lasting (AttestedSince before)
  lasting = AttestedSince-Lasting before

  module _ (mode : Mode) where
    -- A refusal leaves the log attested.
    pub refuse-IsAttested :
        (P : World → Type 0) {A : Type 0} {R : A → World → Type 0} (s : Session) (e : Failure)
        → ((w : World) → P w → Good w)
        → Triple P R Good (refuse h mode s e)
    unfolding refuse
    refuse-IsAttested P s e weaker =
        Triple-bind _ _
          (Triple-bind _ _ (lock-Triple h weaker (λ w p. on_lock (weaker w p))) λ _.
            write-Triple h _ (λ w p. p) (λ o w p. on_write (Seen-blocked mode _ _) p)
              (λ w p. on_write (Seen-blocked mode _ _) p))
          λ _. Triple-raise e (λ w p. p)

    -- An attempt that reaches its system has seen it.
    attempt-Seen :
        (nix_env path : String)
        → Triple Good
            (λ a w. Good w × (is_reached a ≡ true → Seen (both_at path) w.log))
            Good
            (attempt h mode nix_env path)
    unfolding attempt is_reached
    attempt-Seen nix_env path =
        Triple-bind _ _ (run-IsAttested h (AttestedSince before) lasting (λ w p. p) _) λ set.
          Triple-bind {R = λ _. Good} _ _
            (Triple-if _ _ _
              (λ _.
                Triple-bind _ _ (run-IsAttested h (AttestedSince before) lasting (λ w p. p) _)
                  λ r. Triple-pure _ (λ w p. p))
              (λ _. Triple-pure _ (λ w p. p)))
            λ switch_code.
              Triple-bind _ _ (runtime-Sighted h (AttestedSince before) lasting (λ w p. p))
                λ current.
                  Triple-bind _ _ (profile-BothSighted h (AttestedSince before) lasting current)
                    λ after. Triple-pure _ λ w p. (
                      p.0,
                      λ reached. Seen-at current after path w p.1 (ground arith) (ground arith),
                    )

    -- So does a compensation.
    compensate-Seen :
        (s : Session) (nix_env path : String) (reached : Bool)
        → Triple
            (λ w. Good w × (reached ≡ true → Seen (both_at path) w.log))
            (λ c w.
              Good w
              × (reached ≡ true → Seen (both_at path) w.log)
              × (reached ≡ false → c ≡ true → Seen (both_at (origin mode s)) w.log))
            Good
            (compensate h mode s nix_env reached)
    unfolding compensate
    compensate-Seen s nix_env path true = Triple-pure _ λ w p. (p.0, p.1, λ e. cc)
    compensate-Seen s nix_env path false =
        Triple-bind _ _ (record { at = λ w p. (attempt-Seen nix_env (origin mode s)).at w p.0 })
          λ a. Triple-pure _ λ w p. (p.0, (λ e. cc), λ _. p.1)

    pub perform-IsDone :
        (s : Session) (path nix_env : String)
        → path ≡ destination mode s
        → Triple Good (IsDoneSince before mode) Good (perform h mode s path nix_env)
    unfolding perform
    perform-IsDone s path nix_env here = Triple-bind _ _ (attempt-Seen nix_env path) λ a.
        Triple-bind _ _ (compensate-Seen s nix_env path (is_reached a)) λ c.
          let n = last_code a.profile_code a.switch_code in
          let final = finished mode (final_state mode (is_reached a) c) n s in
          Triple-bind _ _
            (lock-Triple h
              {Q = λ w.
                Good w
                × Seen (settled_both final.state final) w.log
                × (is_reached a ≡ true → Seen (both_at path) w.log)}
              (λ w p. p.0)
              (λ w p. (
                on_lock p.0,
                Seen-locked (settled_both final.state final) w.log
                    (Seen-final mode _ c s n w.log (λ e. rw (← here) (p.1 e)) p.2),
                p.1,
              )))
            λ _.
              Triple-bind _ _
                (write-Triple h
                  {Q = λ w.
                    Good w
                    × ((log : List Event) × (w.log ≡ wrote final written ∷ log)
                        × (is_reached a ≡ true → Seen (both_at path) log))}
                  final (λ w p. p.0) (λ o w p. on_write p.1 p.0)
                  (λ w p. (on_write p.1 p.0, (w.log, refl, p.2))))
                λ _.
                  Triple-require _ _ _ (λ w p. p.0)
                    λ reached. Triple-pure _ λ w p. record {
                      since = p.0;
                      state = finished_state mode _ c n s reached;
                      log = p.1.0;
                      last = p.1.1;
                      seen = p.1.2 reached;
                    }
