-- ===== src/Session/Attested/Steps.antt =====
-- The steps of activation_session.py that take the lock, read, write and look, and what they make of
-- the log.
use nixos_control_manager.Prelude.{
  String, true, false, ◌≡◌, refl, ap, eq_iff, not, Option, none, some, List, ◌∷◌,
}
use nixos_control_manager.Prelude.Dict.{Dict, lookup}
use nixos_control_manager.Format.{is_transaction_id}
use nixos_control_manager.Session.Errors.{ok}
use nixos_control_manager.Session.Record.{Session}
use nixos_control_manager.Session.Host.{
  File, Event, locked, saw_runtime, saw_profile, Written, written, not_written, written_and_raised,
  Host, World,
}
use nixos_control_manager.Session.Exec.{Exec}
use nixos_control_manager.Session.Machine.{
  lock, load, write, run, runtime, profile, is_ready, which, read, outcome, after_write,
}
use nixos_control_manager.Session.Commands.{is_unset_or_at, is_at}
use nixos_control_manager.Session.Triple.{Triple, Post, Post-if, Post-result}
use nixos_control_manager.Session.Attested.{
  both_at, at_or_unset, Seen, on_run, on_runtime, on_profile, IsAttestedSince, Lasting, IsAt,
}

Post-write :
    (E Q : World → Type 0) (after : Written → World) (o : Written)
    → ((o' : Written) → E (after o'))
    → Q (after written)
    → Post (λ _. Q) E (outcome o, after o)
Post-write E Q after written fail k = k
Post-write E Q after not_written fail k = fail not_written
Post-write E Q after written_and_raised fail k = fail written_and_raised

module _ (h : Host) {P E : World → Type 0} where
  pub lock-Triple :
      {Q : World → Type 0}
      → ((w : World) → P w → E w)
      → ((w : World)
          → P w
          → Q (record { journal = h.others w.log w.journal; log = locked ∷ w.log }))
      → Triple P (λ _. Q) E (lock h)
  unfolding lock
  lock-Triple weaker k = record {
    at = λ w p. Post-if _ _ (h.is_secure w.log) _ _ (λ _. k w p) (λ _. weaker w p);
  }

  pub load-Triple :
      {Q : Session → World → Type 0} (id : String)
      → ((w : World) → P w → E w)
      → ((s : Session) (w : World) → P w → read (lookup id w.journal) ≡ ok s → Q s w)
      → Triple P Q E (load h id)
  unfolding load
  load-Triple id weaker k = record {
    at = λ w p.
        Post-if _ _ (h.is_secure w.log) _ _
          (λ _.
            Post-if _ _ (is_transaction_id id) _ _
              (λ _. Post-result _ _ _ w (weaker w p) (λ s e. k s w p e)) (λ _. weaker w p))
          (λ _. weaker w p);
  }

  pub write-Triple :
      {Q : World → Type 0} (s : Session)
      → ((w : World) → P w → E w)
      → ((o : Written) (w : World) → P w → E (after_write s o w))
      → ((w : World) → P w → Q (after_write s written w))
      → Triple P (λ _. Q) E (write h false s)
  unfolding write
  write-Triple s weaker fail k = record {
    at = λ w p.
        Post-if _ _ (not (h.is_secure w.log)) _ _ (λ _. weaker w p)
          (λ _.
            Post-write _ _ (λ o. after_write s o w) (h.write w.log s) (λ o. fail o w p) (k w p));
  }

-- The running system has just been seen, and then the profile too.
abbrev pub Sighted : (List Event → Type 0) → Option String → World → Type 0
Sighted A r w = A w.log × ((log : List Event) × (w.log ≡ saw_runtime r ∷ log))

abbrev pub SightOfBoth : Option String → Option String → World → Type 0
SightOfBoth r p w = (log : List Event) × (w.log ≡ saw_profile p ∷ saw_runtime r ∷ log)

abbrev pub BothSighted : (List Event → Type 0) → Option String → Option String → World → Type 0
BothSighted A r p w = A w.log × SightOfBoth r p w

module _ (h : Host) (A : List Event → Type 0) (lasting : Lasting A) {P E : World → Type 0} where
  pub runtime-Sighted : ((w : World) → P w → A w.log) → Triple P (Sighted A) E (runtime h)
  unfolding runtime
  runtime-Sighted attested = record {
    at = λ w p. (lasting.past_runtime _ w.log (attested w p), (w.log, refl));
  }

  pub run-IsAttested :
      ((w : World) → P w → A w.log) → (c : List String) → Triple P (λ _ w. A w.log) E (run h c)
  unfolding run
  run-IsAttested attested c = record { at = λ w p. lasting.past_run _ _ w.log (attested w p) }

module _ (h : Host) (A : List Event → Type 0) (lasting : Lasting A) {E : World → Type 0} where
  pub profile-BothSighted :
      (r : Option String) → Triple (Sighted A r) (BothSighted A r) E (profile h)
  unfolding profile
  profile-BothSighted r = record {
    at = λ w p. (
      lasting.past_profile _ w.log p.0,
      (p.1.0, ap (λ l. saw_profile (h.profile w.log) ∷ l) p.1.1),
    );
  }

-- What both links show is what the log says was seen.
pub Seen-unset :
    (r p : Option String) (path : String) (w : World)
    → SightOfBoth r p w
    → is_at r path ≡ true
    → is_unset_or_at p path ≡ true
    → Seen (at_or_unset path) w.log
unfolding is_at
Seen-unset none p path w b e f = cc
Seen-unset (some q) p path w b e f = rw b.1 (f, ap some ((eq_iff q path).0 e))

pub Seen-at :
    (r p : Option String) (path : String) (w : World)
    → SightOfBoth r p w
    → is_at r path ≡ true
    → is_at p path ≡ true
    → Seen (both_at path) w.log
unfolding is_at
Seen-at none p path w b e f = cc
Seen-at (some q) p path w b e f = rw b.1 (f, ap some ((eq_iff q path).0 e))

module _ (h : Host) (before : List Event) (journal : Dict File) where
  abbrev StaysAt : {A : Type 0} → Exec A → Type 0
  StaysAt m = Triple (IsAt before journal) (λ _. IsAt before journal) (IsAttestedSince before) m

  pub runtime-IsAt : StaysAt (runtime h)
  unfolding runtime
  runtime-IsAt = record { at = λ w p. record { same = p.same; attested = on_runtime p.attested } }

  pub profile-IsAt : StaysAt (profile h)
  unfolding profile
  profile-IsAt = record { at = λ w p. record { same = p.same; attested = on_profile p.attested } }

  pub run-IsAt : (c : List String) → StaysAt (run h c)
  unfolding run
  run-IsAt c = record { at = λ w p. record { same = p.same; attested = on_run p.attested } }

  pub is_ready-IsAt : (s : String) → StaysAt (is_ready h s)
  unfolding is_ready
  is_ready-IsAt s = record { at = λ w p. p }

  pub which-IsAt : (s : String) → StaysAt (which h s)
  unfolding which
  which-IsAt s = record { at = λ w p. p }
