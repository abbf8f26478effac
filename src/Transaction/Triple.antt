-- ===== src/Transaction/Triple.antt =====
-- Before and after an action: what holds if it returns, what holds if it raises or the process
-- ends, and one rule for each form of step.
use nixos_control_manager.Prelude.{Bool, true, false, ◌≡◌, refl}
use nixos_control_manager.Transaction.Errors.{Failure, Outcome, ok, err, dead}
use nixos_control_manager.Transaction.State.{World}
use nixos_control_manager.Transaction.Host.{
  Extent, untouched, halfway, finished, Fate, done, failed, killed, Host, tick,
}
use nixos_control_manager.Transaction.Exec.{
  Exec, pure, raise, if◌then◌else◌, continue, ◌>>=◌, ◌>>◌, handle, catch, close, finally, require,
  modify_state, gets, reach, befall, perform,
}

abbrev pub Post :
    {T : Type 0} → (T → World → Type 0) → (World → Type 0) → Outcome T × World → Type 0
Post R E (ok t, w) = R t w
Post R E (err e, w) = E w
Post R E (dead, w) = E w

pub record Triple {T : Type 0} (P : World → Type 0) (R : T → World → Type 0) (E : World → Type 0)
    (m : Exec T) : Type 0 where
  pub at : (w : World) → P w → Post R E (m w)

module _ {T : Type 0} {P E : World → Type 0} {R : T → World → Type 0} where
  pub Triple-pure : (t : T) → ((w : World) → P w → R t w) → Triple P R E (pure t)
  unfolding pure
  Triple-pure t k = record { at = k }

  pub Triple-raise : (e : Failure) → ((w : World) → P w → E w) → Triple P R E (raise e)
  unfolding raise
  Triple-raise e k = record { at = k }

  pub Triple-if :
      (b : Bool) (m n : Exec T)
      → (b ≡ true → Triple P R E m)
      → (b ≡ false → Triple P R E n)
      → Triple P R E (if b then m else n)
  unfolding if◌then◌else◌
  Triple-if true m n hm hn = hm refl
  Triple-if false m n hm hn = hn refl

  -- A test that raises if it fails.
  pub Triple-require :
      (b : Bool) (e : Failure) (m : Exec T)
      → ((w : World) → P w → E w)
      → (b ≡ true → Triple P R E m)
      → Triple P R E (require b e >> m)
  unfolding require ◌>>=◌
  Triple-require true e m weaker k = k refl
  Triple-require false e m weaker k = record { at = weaker }

  -- A value of the state, with what it is, or forgetting what it is.
  pub Triple-gets :
      {U : Type 0} (f : World → U) (k : U → Exec T)
      → ((u : U) → Triple (λ w. P w × (f w ≡ u)) R E (k u))
      → Triple P R E (gets f >>= k)
  unfolding gets ◌>>=◌
  Triple-gets f k t = record { at = λ w p. (t (f w)).at w (p, refl) }

  pub Triple-look :
      {U : Type 0} (f : World → U) (k : U → Exec T)
      → ((u : U) → Triple P R E (k u))
      → Triple P R E (gets f >>= k)
  unfolding gets ◌>>=◌
  Triple-look f k t = record { at = λ w p. (t (f w)).at w p }

module _ (E Q : World → Type 0) where
  reach-Post :
      (x : Extent) (half full : World → World) (w : World)
      → E w
      → E (half w)
      → E (full w)
      → E (reach x half full w)
  reach-Post untouched half full w a b c = a
  reach-Post halfway half full w a b c = b
  reach-Post finished half full w a b c = c

  befall-Post :
      (x : Fate) (half full : World → World) (w : World)
      → E w
      → E (half w)
      → E (full w)
      → Q (full w)
      → Post (λ _. Q) E (befall x half full w)
  befall-Post done half full w a b c q = q
  befall-Post (failed x) half full w a b c q = reach-Post x half full w a b c
  befall-Post (killed x) half full w a b c q = reach-Post x half full w a b c

module _ {P E Q : World → Type 0} where
  pub Triple-modify :
      (f : World → World) → ((w : World) → P w → Q (f w)) → Triple P (λ _. Q) E (modify_state f)
  unfolding modify_state
  Triple-modify f k = record { at = k }

  pub Triple-check :
      (b : Bool) (e : Failure)
      → ((w : World) → P w → E w)
      → (b ≡ true → (w : World) → P w → Q w)
      → Triple P (λ _. Q) E (require b e)
  unfolding require
  Triple-check true e weaker k = record { at = k refl }
  Triple-check false e weaker k = record { at = weaker }

  pub Triple-perform :
      (h : Host) (half full : World → World)
      → ((w : World) → P w → E (tick w))
      → ((w : World) → P w → E (half (tick w)))
      → ((w : World) → P w → E (full (tick w)))
      → ((w : World) → P w → Q (full (tick w)))
      → Triple P (λ _. Q) E (perform h half full)
  unfolding perform
  Triple-perform h half full a b c q = record {
    at = λ w p. befall-Post E Q (h.fate w.clock) half full (tick w) (a w p) (b w p) (c w p) (q w p);
  }

module _ {T : Type 0} (E E' : World → Type 0) where
  handle-Post :
      (R : T → World → Type 0) (o : Outcome T) (w : World) (k : Failure → Exec T)
      → ((v : World) → E v → E' v)
      → ((e : Failure) → Triple E R E' (k e))
      → Post R E (o, w)
      → Post R E' (handle o k w)
  handle-Post R (ok t) w k weaker hk p = p
  handle-Post R (err e) w k weaker hk p = (hk e).at w p
  handle-Post R dead w k weaker hk p = weaker w p

  weaken-Post :
      (R R' : T → World → Type 0) (x : Outcome T × World)
      → ((t : T) (w : World) → R t w → R' t w)
      → ((w : World) → E w → E' w)
      → Post R E x
      → Post R' E' x
  weaken-Post R R' (ok t, w) r e p = r t w p
  weaken-Post R R' (err f, w) r e p = e w p
  weaken-Post R R' (dead, w) r e p = e w p

module _ {T : Type 0} (E' : World → Type 0) where
  continue-ok :
      (R : T → World → Type 0) (x : Outcome Unit × World) (t : T)
      → Post (λ _. R t) E' x
      → Post R E' (continue x.0 (λ _. pure t) x.1)
  unfolding pure
  continue-ok R (ok u, w) t p = p
  continue-ok R (err e, w) t p = p
  continue-ok R (dead, w) t p = p

  continue-err :
      (R : T → World → Type 0) (x : Outcome Unit × World) (e : Failure)
      → Post (λ _. E') E' x
      → Post R E' (continue x.0 (λ _. raise e) x.1)
  unfolding raise
  continue-err R (ok u, w) f p = p
  continue-err R (err e, w) f p = p
  continue-err R (dead, w) f p = p

  close-Post :
      (E : World → Type 0) (R R' : T → World → Type 0) (o : Outcome T) (w : World) (c : Exec Unit)
      → ((v : World) → E v → E' v)
      → ((t : T) → Triple (R t) (λ _. R' t) E' c)
      → Triple E (λ _. E') E' c
      → Post R E (o, w)
      → Post R' E' (close o c w)
  unfolding ◌>>=◌
  close-Post E R R' (ok t) w c weaker hr he p = continue-ok R' (c w) t ((hr t).at w p)
  close-Post E R R' (err e) w c weaker hr he p = continue-err R' (c w) e (he.at w p)
  close-Post E R R' dead w c weaker hr he p = weaker w p

module _ {T : Type 0} {P E E' : World → Type 0} where
  pub Triple-weaken :
      {R R' : T → World → Type 0} (m : Exec T)
      → ((t : T) (w : World) → R t w → R' t w)
      → ((w : World) → E w → E' w)
      → Triple P R E m
      → Triple P R' E' m
  Triple-weaken {R} {R'} m r e t = record { at = λ w p. weaken-Post E E' R R' (m w) r e (t.at w p) }

  pub Triple-catch :
      {R : T → World → Type 0} (m : Exec T) (k : Failure → Exec T)
      → Triple P R E m
      → ((w : World) → E w → E' w)
      → ((e : Failure) → Triple E R E' (k e))
      → Triple P R E' (catch m k)
  unfolding catch
  Triple-catch {R} m k hm weaker hk = record {
    at = λ w p. handle-Post E E' R (m w).0 (m w).1 k weaker hk (hm.at w p);
  }

  pub Triple-finally :
      {R R' : T → World → Type 0} (m : Exec T) (c : Exec Unit)
      → Triple P R E m
      → ((w : World) → E w → E' w)
      → ((t : T) → Triple (R t) (λ _. R' t) E' c)
      → Triple E (λ _. E') E' c
      → Triple P R' E' (finally m c)
  unfolding finally
  Triple-finally {R} {R'} m c hm weaker hr he = record {
    at = λ w p. close-Post E' E R R' (m w).0 (m w).1 c weaker hr he (hm.at w p);
  }

module _ {T U : Type 0} {E : World → Type 0} {R : T → World → Type 0} {S : U → World → Type 0} where
  continue-Post :
      (o : Outcome T) (w : World) (k : T → Exec U)
      → Post R E (o, w)
      → ((t : T) → Triple (R t) S E (k t))
      → Post S E (continue o k w)
  continue-Post (ok t) w k p hk = (hk t).at w p
  continue-Post (err e) w k p hk = p
  continue-Post dead w k p hk = p

  pub Triple-bind :
      {P : World → Type 0} (m : Exec T) (k : T → Exec U)
      → Triple P R E m
      → ((t : T) → Triple (R t) S E (k t))
      → Triple P S E (m >>= k)
  unfolding ◌>>=◌
  Triple-bind m k hm hk = record { at = λ w p. continue-Post (m w).0 (m w).1 k (hm.at w p) hk }

-- An action followed by another, whose middle does not depend on a value.
module _ {U : Type 0} {P E : World → Type 0} {S : U → World → Type 0} (Q : World → Type 0) where
  pub Triple-then :
      {T : Type 0} (m : Exec T) (n : Exec U)
      → Triple P (λ _. Q) E m
      → Triple Q S E n
      → Triple P S E (m >> n)
  Triple-then m n hm hn = Triple-bind {R = λ _. Q} m (λ _. n) hm (λ _. hn)

module _ {T : Type 0} {P E : World → Type 0} {R : T → World → Type 0} where
  -- A fact that holds whenever the action starts.
  pub Triple-given :
      {F : Type 0} (m : Exec T) → ((w : World) → P w → F) → (F → Triple P R E m) → Triple P R E m
  Triple-given m fact k = record { at = λ w p. (k (fact w p)).at w p }

  pub Triple-pre :
      {P' : World → Type 0} (m : Exec T)
      → ((w : World) → P' w → P w)
      → Triple P R E m
      → Triple P' R E m
  Triple-pre m k t = record { at = λ w p. t.at w (k w p) }
