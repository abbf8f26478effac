-- ===== src/Helper/Yields.antt =====
-- What holds after an action of the dispatcher that has returned, with a rule for each form of
-- step.
use nixos_control_manager.Prelude.{Bool, true, false, ◌≡◌, refl}
use nixos_control_manager.Protocol.{Result, ok, err}
use nixos_control_manager.Helper.State.{
  World, Exec, continue, pure, gets, modify, ◌>>=◌, if◌then◌else◌,
}

abbrev pub Returned : {A : Type 0} → (A → World → Type 0) → Result A × World → Type 0
Returned R (ok a, w) = R a w
Returned R (err e, w) = Unit

pub record Yields {A : Type 0} (P : World → Type 0) (R : A → World → Type 0) (m : Exec A)
    : Type 0 where
  pub at : (w : World) → P w → Returned R (m w)

module _ {A : Type 0} {P : World → Type 0} {R : A → World → Type 0} where
  pub Yields-pure : (a : A) → ((w : World) → P w → R a w) → Yields P R (pure a)
  unfolding pure
  Yields-pure a k = record { at = k }

  pub Yields-gets : (f : World → A) → ((w : World) → P w → R (f w) w) → Yields P R (gets f)
  unfolding gets
  Yields-gets f k = record { at = k }

  pub Yields-if :
      (b : Bool) (m n : Exec A)
      → (b ≡ true → Yields P R m)
      → (b ≡ false → Yields P R n)
      → Yields P R (if b then m else n)
  unfolding if◌then◌else◌
  Yields-if true m n hm hn = hm refl
  Yields-if false m n hm hn = hn refl

module _ {P Q : World → Type 0} where
  pub Yields-modify :
      (f : World → World) → ((w : World) → P w → Q (f w)) → Yields P (λ _. Q) (modify f)
  unfolding modify
  Yields-modify f k = record { at = k }

module _ {A B : Type 0} {R : A → World → Type 0} {S : B → World → Type 0} where
  continue-Returned :
      (r : Result A) (w : World) (f : A → Exec B)
      → Returned R (r, w)
      → ((a : A) → Yields (R a) S (f a))
      → Returned S (continue r f w)
  continue-Returned (ok a) w f h k = (k a).at w h
  continue-Returned (err e) w f h k = tt

  pub Yields-bind :
      {P : World → Type 0} (m : Exec A) (f : A → Exec B)
      → Yields P R m
      → ((a : A) → Yields (R a) S (f a))
      → Yields P S (m >>= f)
  unfolding ◌>>=◌
  Yields-bind m f h k = record { at = λ w p. continue-Returned (m w).0 (m w).1 f (h.at w p) k }
