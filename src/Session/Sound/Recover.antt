-- ===== src/Session/Sound/Recover.antt =====
-- `recover_activation_session` of activation_session.py, against the log of its writes.
use nixos_control_manager.Prelude.{
  String, Bool, true, false, ◌&&◌, ◌≡◌, refl, Option, none, some, List, ◌∷◌, arith,
}
use nixos_control_manager.Session.Errors.{Failure, Result, ok, err}
use nixos_control_manager.Session.Record.{Session}
use nixos_control_manager.Session.Host.{Event, Ran, exited, not_run, wrote, written, Host, World}
use nixos_control_manager.Session.Machine.{which, is_ready, profile}
use nixos_control_manager.Session.Commands.{is_zero, is_at, is_unset_or_at}
use nixos_control_manager.Session.Recover.{
  Recovery, recovery_state, give_up, restored_profile, with_nix_env, restore_profile, conclude,
  restore, recover_session, is_recovered,
}
use nixos_control_manager.Session.Triple.{
  Triple, Post, Triple-pure, Triple-raise, Triple-if, Triple-require, Triple-bind,
}
use nixos_control_manager.Session.Attested.{
  settled, Seen, at_or_unset, Attested, IsAttested, Attested-Lasting,
}
use nixos_control_manager.Session.Attested.Steps.{
  lock-Triple, load-Triple, write-Triple, BothSighted, runtime-Sighted, run-IsAttested,
  profile-BothSighted, Seen-unset,
}

Seen-recovery :
    (restored : Bool) (s : Session) (log : List Event)
    → (restored ≡ true → Seen (at_or_unset s.previous_system_path) log)
    → Seen (settled (recovery_state restored) s) log
Seen-recovery true s log h = h refl
Seen-recovery false s log h = tt

same : (w : World) → IsAttested w → IsAttested w
same w p = p

is_recovered-recovery_state :
    (restored : Bool) → restored ≡ true → is_recovered (recovery_state restored) ≡ true
is_recovered-recovery_state true e = refl
is_recovered-recovery_state false e = cc

-- What a returned recovery has left: the session was recovered before, or it was written so as
-- the last thing done, just after the running system had been seen at its previous system, and
-- the profile there too or not set.
pub data IsRecovered (r : Recovery) (w : World) : Type 0 where
  already :
      Attested w.log → r.idempotent ≡ true → is_recovered r.session.state ≡ true → IsRecovered r w
  restored :
      Attested w.log
      → (log : List Event) → w.log ≡ wrote r.session written ∷ log
      → is_recovered r.session.state ≡ true
      → Seen (at_or_unset r.session.previous_system_path) log
      → IsRecovered r w

module _ (h : Host) where
  give_up-IsAttested :
      {A : Type 0} (R : A → World → Type 0) (s : Session) (e : Failure)
      → Triple IsAttested R IsAttested (give_up h s e)
  unfolding give_up
  give_up-IsAttested R s e =
      Triple-bind {R = λ _. IsAttested} _ _
        (write-Triple h _ same (λ o w p. (tt, p)) (λ w p. (tt, p))) λ _. Triple-raise e same

  restored_profile-IsAttested :
      (s : Session) (r : Ran)
      → Triple IsAttested (λ _. IsAttested) IsAttested (restored_profile h s r)
  restored_profile-IsAttested s not_run = give_up-IsAttested _ s _
  restored_profile-IsAttested s (exited n) =
      Triple-if _ _ _ (λ _. Triple-pure _ same) (λ _. give_up-IsAttested _ s _)

  with_nix_env-IsAttested :
      (s : Session) (tool : Option String)
      → Triple IsAttested (λ _. IsAttested) IsAttested (with_nix_env h s tool)
  with_nix_env-IsAttested s none = give_up-IsAttested _ s _
  with_nix_env-IsAttested s (some nix_env) =
      Triple-bind _ _ (run-IsAttested h Attested Attested-Lasting same _)
        (restored_profile-IsAttested s)

  restore_profile-IsAttested :
      (s : Session) (p : Option String)
      → Triple IsAttested (λ _. IsAttested) IsAttested (restore_profile h s p)
  unfolding restore_profile which
  restore_profile-IsAttested s none = Triple-pure _ same
  restore_profile-IsAttested s (some p) =
      Triple-if _ _ _ (λ _. Triple-pure _ same)
        λ _.
          Triple-bind {R = λ _. IsAttested} _ _ (record { at = λ w p. p })
            λ tool. with_nix_env-IsAttested s _

  conclude-IsRecovered :
      (s : Session) (command : List String) (r : Ran)
      → Triple IsAttested IsRecovered IsAttested (conclude h s command r)
  unfolding conclude
  conclude-IsRecovered s command not_run = give_up-IsAttested _ s _
  conclude-IsRecovered s command (exited n) =
      Triple-bind _ _ (runtime-Sighted h Attested Attested-Lasting same) λ current.
        Triple-bind _ _ (profile-BothSighted h Attested Attested-Lasting current) λ after.
          let path = s.previous_system_path in
          let good = is_zero n && is_at current path && is_unset_or_at after path in
          let final = record s { state = recovery_state good; recovery_exit_code = some n } in
          let seen : (w : World)
              → BothSighted Attested current after w
              → good ≡ true
              → Seen (at_or_unset path) w.log =
            λ w p e. Seen-unset current after path w p.1 (ground arith) (ground arith) in
          Triple-bind _ _
            (write-Triple h
              {Q = λ w.
                IsAttested w
                × ((log : List Event) × (w.log ≡ wrote final written ∷ log)
                    × (good ≡ true → Seen (at_or_unset path) log))}
              final (λ w p. p.0) (λ o w p. (Seen-recovery good final w.log (seen w p), p.0))
              (λ w p. ((Seen-recovery good final w.log (seen w p), p.0), (w.log, refl, seen w p))))
            λ _.
              Triple-require _ _ _ (λ w p. p.0)
                λ passed. Triple-pure _ λ w p.
                  restored p.0 p.1.0 p.1.1 (is_recovered-recovery_state good passed) (p.1.2 passed)

  restore-IsRecovered : (s : Session) → Triple IsAttested IsRecovered IsAttested (restore h s)
  unfolding restore is_ready profile
  restore-IsRecovered s =
      Triple-bind {R = λ _. IsAttested} _ _ (record { at = λ w p. p })
        λ ready. Triple-require _ _ _ same λ _.
          Triple-bind {R = λ _. IsAttested} _ _
            (write-Triple h _ same (λ o w p. (tt, p)) (λ w p. (tt, p)))
            λ _.
              Triple-bind {R = λ _. IsAttested} _ _ (record { at = λ w p. p })
                λ before. Triple-bind _ _ (restore_profile-IsAttested _ before) λ profile_restored.
                  Triple-bind _ _ (run-IsAttested h Attested Attested-Lasting same _)
                    λ completed. conclude-IsRecovered _ _ completed

  recover_session-Triple :
      (id : String) → Triple IsAttested IsRecovered IsAttested (recover_session h id)
  unfolding recover_session
  recover_session-Triple id = Triple-bind _ _ (lock-Triple h {Q = IsAttested} same same) λ _.
      Triple-bind _ _ (load-Triple h {Q = λ _. IsAttested} id same (λ s w p e. p)) λ s.
        Triple-if _ _ _ (λ e. Triple-pure _ λ w p. already p refl e)
          λ _. Triple-require _ _ _ same λ _. restore-IsRecovered s

IsRecovered-Attested :
    (r : Result Recovery) (w : World) → Post IsRecovered IsAttested (r, w) → Attested w.log
IsRecovered-Attested (ok r) w (already p i e) = p
IsRecovered-Attested (ok r) w (restored p log last e seen) = p
IsRecovered-Attested (err e) w p = p

-- A recovery, whether it returns or raises, at any step: each write of a session as recovered
-- comes just after the running system was seen at its previous system, and the profile there too
-- or not set, if the log before it was so; and it writes none as committed or rolled back without
-- both links having been seen at the system of that state.
pub recover_session-Attested :
    (h : Host) (id : String) (w : World) → Attested w.log → Attested (recover_session h id w).1.log
recover_session-Attested h id w p =
    IsRecovered-Attested (recover_session h id w).0 _ ((recover_session-Triple h id).at w p)

-- A recovery that returns, if the log before it was attested: the session had been recovered
-- before, or as the last thing done it was written as recovered, just after the running system
-- had been seen at its previous system, and the profile there too or not set.
pub recover_session-IsRecovered :
    (h : Host) (id : String) (w : World)
    → Attested w.log
    → (r : Recovery) → (recover_session h id w).0 ≡ ok r
    → IsRecovered r (recover_session h id w).1
recover_session-IsRecovered h id w p r e = rw e at ((recover_session-Triple h id).at w p)
