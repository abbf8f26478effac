-- ===== src/Session/Refusals.antt =====
-- Which sessions a transition and a recovery of activation_session.py start from.
use nixos_control_manager.Prelude.{
  String, true, false, ◌≡◌, ◌≢◌, refl, sym, subst, ap, ◌∙◌, ◌⊎◌, inl, inr, ◌∷◌, none, eq_iff, ◌==◌,
}
use nixos_control_manager.Prelude.Dict.{lookup}
use nixos_control_manager.Json.{str}
use nixos_control_manager.Session.Errors.{Result, ok, err}
use nixos_control_manager.Session.Record.{Session, State, state_text, parse_state}
use nixos_control_manager.Session.Host.{locked, Host, World}
use nixos_control_manager.Session.Exec.{Exec}
use nixos_control_manager.Session.Machine.{lock, load, read}
use nixos_control_manager.Session.Recover.{Recovery, is_recovered, is_recoverable, recover_session}
use nixos_control_manager.Session.Transition.{
  Mode, commit, rollback, expected, Transition, transition,
}
use nixos_control_manager.Session.Triple.{
  Post, Triple, Triple-pure, Triple-if, Triple-require, Triple-bind,
}
use nixos_control_manager.Session.Attested.Steps.{lock-Triple, load-Triple}
use nixos_control_manager.Session.RoundTrip.{parse_state-state_text}

-- The state once the lock is taken.
abbrev pub with_lock : Host → World → World
with_lock h w = record { journal = h.others w.log w.journal; log = locked ∷ w.log }

-- Nothing has been done but, at most, the lock taken.
abbrev pub Untouched : Host → World → World → Type 0
Untouched h w after = (after ≡ w) ⊎ (after ≡ with_lock h w)

-- The session is the one that the journal holds once the lock is taken.
abbrev pub IsHeld : Host → String → World → Session → Type 0
IsHeld h id w s = read (lookup id (h.others w.log w.journal)) ≡ ok s

-- What a commit and a rollback start from.
abbrev pub IsPrepared : Mode → State → Type 0
IsPrepared commit state = state ≡ State.commit_prepared
IsPrepared rollback state = state ≡ State.rollback_prepared

-- What a recovery starts from.
pub data IsRecoverable : State → Type 0 where
  from_prepared : IsRecoverable State.prepared
  from_activating : IsRecoverable State.activating
  from_active : IsRecoverable State.active
  from_activation_failed : IsRecoverable State.activation_failed
  from_recovery_required : IsRecoverable State.recovery_required
  from_recovering : IsRecoverable State.recovering
  from_commit_prepared : IsRecoverable State.commit_prepared
  from_committing : IsRecoverable State.committing
  from_commit_failed : IsRecoverable State.commit_failed

state_text-eq : (a b : State) → (state_text a == state_text b) ≡ true → a ≡ b
state_text-eq a b e =
    let same : state_text a ≡ state_text b = (eq_iff (state_text a) (state_text b)).0 e in
    let one : ok a ≡ ok b =
      sym (parse_state-state_text a)
      ∙ ap (λ t. parse_state (str t)) same
      ∙ parse_state-state_text b in
    cc

expected-IsPrepared :
    (mode : Mode) (state : State)
    → (state_text state == state_text (expected mode)) ≡ true
    → IsPrepared mode state
expected-IsPrepared commit state e = state_text-eq state State.commit_prepared e
expected-IsPrepared rollback state e = state_text-eq state State.rollback_prepared e

is_recovered-eq : (state : State) → is_recovered state ≡ true → state ≡ State.recovered
is_recovered-eq State.recovered e = refl
is_recovered-eq _ e = cc

not_both : false ≡ true → ⊥
not_both e = cc

is_recoverable-IsRecoverable : (state : State) → is_recoverable state ≡ true → IsRecoverable state
is_recoverable-IsRecoverable State.prepared e = from_prepared
is_recoverable-IsRecoverable State.activating e = from_activating
is_recoverable-IsRecoverable State.active e = from_active
is_recoverable-IsRecoverable State.activation_failed e = from_activation_failed
is_recoverable-IsRecoverable State.recovery_required e = from_recovery_required
is_recoverable-IsRecoverable State.recovering e = from_recovering
is_recoverable-IsRecoverable State.commit_prepared e = from_commit_prepared
is_recoverable-IsRecoverable State.committing e = from_committing
is_recoverable-IsRecoverable State.commit_failed e = from_commit_failed
is_recoverable-IsRecoverable State.recovered e = elim (not_both e) [ ]
is_recoverable-IsRecoverable State.committed e = elim (not_both e) [ ]
is_recoverable-IsRecoverable State.rollback_prepared e = elim (not_both e) [ ]
is_recoverable-IsRecoverable State.rolling_back e = elim (not_both e) [ ]
is_recoverable-IsRecoverable State.rolled_back e = elim (not_both e) [ ]
is_recoverable-IsRecoverable State.rollback_required e = elim (not_both e) [ ]

module _ {A : Type 0} (F : Type 0) (R : A → World → Type 0) (E : World → Type 0)
    (returned : F → (a : A) (w : World) → R a w) (raised : F → (w : World) → E w) where
  known-Post : (x : Result A × World) → F → Post R E x
  known-Post (ok a, w) f = returned f a w
  known-Post (err e, w) f = raised f w

  -- A fact that is enough for what follows, whatever that does.
  known : {P : World → Type 0} (m : Exec A) → ((w : World) → P w → F) → Triple P R E m
  known m fact = record { at = λ w p. known-Post (m w) (fact w p) }

module _ (h : Host) (id : String) (w : World) where
  -- Nothing done, or a session held in one of the states `G`.
  abbrev Held : (State → Type 0) → Type 0
  Held G = (s : Session) × (IsHeld h id w s × G s.state)

  abbrev Only : (State → Type 0) → World → Type 0
  Only G after = Untouched h w after ⊎ Held G

  abbrev Read : Session → World → Type 0
  Read s after = (after ≡ with_lock h w) × IsHeld h id w s

  module _ (G : State → Type 0) where
    at_lock : (after : World) → after ≡ with_lock h w → Only G after
    at_lock after e = inl (inr e)

    lock-Only : Triple (λ v. v ≡ w) (λ _ v. v ≡ with_lock h w) (Only G) (lock h)
    lock-Only = lock-Triple h (λ v p. inl (inl p)) (λ v p. ap (with_lock h) p)

    load-Only : Triple (λ v. v ≡ with_lock h w) Read (Only G) (load h id)
    load-Only =
        load-Triple h id at_lock
          (λ s v p e. (p, subst (λ x. read (lookup id x.journal) ≡ ok s) p e))

  transition-Held :
      (mode : Mode)
      → Triple
          (λ v. v ≡ w)
          (λ _ _. Held (IsPrepared mode))
          (Only (IsPrepared mode))
          (transition h mode id)
  unfolding transition
  transition-Held mode =
      let G = IsPrepared mode in
      Triple-bind _ _ (lock-Only G) λ _. Triple-bind _ _ (load-Only G) λ s.
        Triple-require _ _ _ (λ v p. at_lock G v p.0)
          λ e.
            known (Held G) _ (Only G) (λ f a v. f) (λ f v. inr f) _
              (λ v p. (s, (p.1, expected-IsPrepared mode s.state e)))

  -- What is returned for a session that has been recovered.
  abbrev pub again : Session → Recovery
  again s = record { session = s; command = none; idempotent = true }

  abbrev Recovers : Recovery → World → Type 0
  Recovers r after =
      ((s : Session) × (IsHeld h id w s
          × (s.state ≡ State.recovered)
          × (r ≡ again s)
          × (after ≡ with_lock h w)))
      ⊎ Held IsRecoverable

  recover_session-Held : Triple (λ v. v ≡ w) Recovers (Only IsRecoverable) (recover_session h id)
  unfolding recover_session
  recover_session-Held = Triple-bind _ _ (lock-Only IsRecoverable) λ _.
      Triple-bind _ _ (load-Only IsRecoverable) λ s.
        Triple-if _ _ _
          (λ e. Triple-pure _ λ v p. inl (s, (p.1, is_recovered-eq s.state e, refl, p.0)))
          λ _.
            Triple-require _ _ _ (λ v p. at_lock IsRecoverable v p.0)
              λ e.
                known (Held IsRecoverable) Recovers (Only IsRecoverable) (λ f a v. inr f)
                  (λ f v. inr f) _ (λ v p. (s, (p.1, is_recoverable-IsRecoverable s.state e)))

  refused :
      {A : Type 0} (F : Type 0) (R : A → World → Type 0) (x : Result A × World)
      → Post R (λ v. Untouched h w v ⊎ F) x
      → (((a : A) → x.0 ≢ ok a) × Untouched h w x.1) ⊎ (F ⊎ ((a : A) × ((x.0 ≡ ok a) × R a x.1)))
  refused F R (ok a, v) p = inr (inr (a, (refl, p)))
  refused F R (err e, v) (inl p) = inl (λ a k. cc, p)
  refused F R (err e, v) (inr f) = inr (inl f)

  -- A commit or a rollback, on any host and for any id, either raises with nothing done but at most
  -- the lock taken (no command, no look at a link, no write), or the session that the journal holds
  -- once the lock is taken has been prepared for just that: for a commit it is commit_prepared, for
  -- a rollback rollback_prepared.
  pub transition-IsPrepared :
      (mode : Mode)
      → let x = transition h mode id w in
        (((r : Transition) → x.0 ≢ ok r) × Untouched h w x.1)
        ⊎ ((s : Session) × (IsHeld h id w s × IsPrepared mode s.state))
  transition-IsPrepared mode =
      elim (refused (Held (IsPrepared mode)) _ (transition h mode id w)
        ((transition-Held mode).at w refl)) [
          | inl p ↦ inl p
          | inr (inl f) ↦ inr f
          | inr (inr (r, (e, f))) ↦ inr f
        ]

  -- A recovery, on any host and for any id, either raises with nothing done but at most the lock
  -- taken, or finds a recovered session and returns it as it is, with nothing done but the lock
  -- taken, or the session that the journal holds once the lock is taken is in one of the states
  -- that are listed: prepared, activating, active, activation_failed, recovery_required, recovering,
  -- commit_prepared, committing and commit_failed.
  pub recover_session-IsRecoverable :
      let x = recover_session h id w in
      (((r : Recovery) → x.0 ≢ ok r) × Untouched h w x.1)
      ⊎ (((s : Session) × (IsHeld h id w s
              × (s.state ≡ State.recovered)
              × (x ≡ (ok (again s), with_lock h w))))
          ⊎ ((s : Session) × (IsHeld h id w s × IsRecoverable s.state)))
  recover_session-IsRecoverable =
      elim (refused (Held IsRecoverable) Recovers (recover_session h id w)
        (recover_session-Held.at w refl)) [
          | inl p ↦ inl p
          | inr (inl f) ↦ inr (inr f)
          | inr (inr (r, (e, inr f))) ↦ inr (inr f)
          | inr (inr (r, (e, inl (s, (held, done, same, after))))) ↦ inr (inl (s, (held, done, cc)))
        ]
