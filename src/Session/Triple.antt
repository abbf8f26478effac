-- ===== src/Session/Triple.antt =====
-- Before and after an action: what holds if it returns, what holds if it raises, and one rule
-- for each form of step.
use nixos_control_manager.Prelude.{Bool, true, false, ◌≡◌, refl}
use nixos_control_manager.Prelude
use nixos_control_manager.Session.Errors.{Failure, Result, ok, err}
use nixos_control_manager.Session.Host.{World}
use nixos_control_manager.Session.Exec.{
  Exec, continue, pure, raise, require, ◌>>=◌, ◌>>◌, if◌then◌else◌,
}

abbrev pub Post : {A : Type 0} → (A → World → Type 0) → (World → Type 0) → Result A × World → Type 0
Post R E (ok a, w) = R a w
Post R E (err e, w) = E w

pub record Triple {A : Type 0} (P : World → Type 0) (R : A → World → Type 0) (E : World → Type 0)
    (m : Exec A) : Type 0 where
  pub at : (w : World) → P w → Post R E (m w)

module _ {A : Type 0} {P E : World → Type 0} {R : A → World → Type 0} where
  pub Triple-pure : (a : A) → ((w : World) → P w → R a w) → Triple P R E (pure a)
  unfolding pure
  Triple-pure a k = record { at = k }

  pub Triple-raise : (e : Failure) → ((w : World) → P w → E w) → Triple P R E (raise e)
  unfolding raise
  Triple-raise e k = record { at = k }

  pub Triple-if :
      (b : Bool) (m n : Exec A)
      → (b ≡ true → Triple P R E m)
      → (b ≡ false → Triple P R E n)
      → Triple P R E (if b then m else n)
  unfolding if◌then◌else◌
  Triple-if true m n hm hn = hm refl
  Triple-if false m n hm hn = hn refl

  -- A test that raises if it fails.
  pub Triple-require :
      (b : Bool) (e : Failure) (m : Exec A)
      → ((w : World) → P w → E w)
      → (b ≡ true → Triple P R E m)
      → Triple P R E (require b e >> m)
  unfolding require ◌>>=◌
  Triple-require true e m weaker k = k refl
  Triple-require false e m weaker k = record { at = weaker }

module _ {A : Type 0} (R : A → World → Type 0) (E : World → Type 0) where
  pub Post-if :
      (b : Bool) (x y : Result A × World)
      → (b ≡ true → Post R E x)
      → (b ≡ false → Post R E y)
      → Post R E (Prelude.if◌then◌else◌ b x y)
  Post-if true x y hx hy = hx refl
  Post-if false x y hx hy = hy refl

  pub Post-result :
      (r : Result A) (w : World) → E w → ((a : A) → r ≡ ok a → R a w) → Post R E (r, w)
  Post-result (ok a) w weaker k = k a refl
  Post-result (err e) w weaker k = weaker

module _ {A B : Type 0} {E : World → Type 0} {R : A → World → Type 0} {S : B → World → Type 0} where
  continue-Post :
      (r : Result A) (w : World) (f : A → Exec B)
      → Post R E (r, w)
      → ((a : A) → Triple (R a) S E (f a))
      → Post S E (continue r f w)
  continue-Post (ok a) w f h k = (k a).at w h
  continue-Post (err e) w f h k = h

  pub Triple-bind :
      {P : World → Type 0} (m : Exec A) (f : A → Exec B)
      → Triple P R E m
      → ((a : A) → Triple (R a) S E (f a))
      → Triple P S E (m >>= f)
  unfolding ◌>>=◌
  Triple-bind m f h k = record { at = λ w p. continue-Post (m w).0 (m w).1 f (h.at w p) k }
