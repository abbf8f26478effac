-- ===== src/Helper/Holds.antt =====
-- Before and after an action, whether it returns or raises: one rule for each form of step.
use nixos_control_manager.Prelude.{Bool, true, false, ◌≡◌, refl}
use nixos_control_manager.Protocol.{Code, Result, ok, err}
use nixos_control_manager.Helper.State.{
  World, Exec, continue, pure, lift, gets, modify, require, ◌>>=◌, ◌>>◌, if◌then◌else◌,
}

pub record Holds {A : Type 0} (P Q : World → Type 0) (m : Exec A) : Type 0 where
  pub at : (w : World) → P w → Q (m w).1

module _ {A : Type 0} {P : World → Type 0} where
  pub Holds-pure : (a : A) → Holds P P (pure a)
  unfolding pure
  Holds-pure a = record { at = λ w h. h }

  pub Holds-if :
      {Q : World → Type 0} (b : Bool) (m n : Exec A)
      → (b ≡ true → Holds P Q m)
      → (b ≡ false → Holds P Q n)
      → Holds P Q (if b then m else n)
  unfolding if◌then◌else◌
  Holds-if true m n hm hn = hm refl
  Holds-if false m n hm hn = hn refl

module _ {A : Type 0} {P Q : World → Type 0} (weaker : (w : World) → P w → Q w) where
  -- A test that has passed.
  pub Holds-require :
      (b : Bool) (c : Code) (m : Exec A) → (b ≡ true → Holds P Q m) → Holds P Q (require b c >> m)
  unfolding require ◌>>=◌
  Holds-require true c m k = k refl
  Holds-require false c m k = record { at = weaker }

module _ {A B : Type 0} {P Q : World → Type 0} where
  -- A step that touches no state, and returned.
  pub Holds-lift :
      ((w : World) → P w → Q w)
      → (r : Result A) (f : A → Exec B) → ((a : A) → r ≡ ok a → Holds P Q (f a))
      → Holds P Q (lift r >>= f)
  unfolding lift ◌>>=◌
  Holds-lift weaker (ok a) f k = record { at = λ w h. (k a refl).at w h }
  Holds-lift weaker (err e) f k = record { at = weaker }

  -- What is read from a state where `P` holds, with a fact that `P` gives of it.
  pub Holds-gets :
      (F : A → Type 0) (g : World → A) (f : A → Exec B)
      → ((w : World) → P w → F (g w))
      → ((a : A) → F a → Holds P Q (f a))
      → Holds P Q (gets g >>= f)
  unfolding gets ◌>>=◌
  Holds-gets F g f fact k = record { at = λ w h. (k (g w) (fact w h)).at w h }

module _ {P Q : World → Type 0} where
  pub Holds-modify : (g : World → World) → ((w : World) → P w → Q (g w)) → Holds P Q (modify g)
  unfolding modify
  Holds-modify g step = record { at = step }

module _ {A B : Type 0} {P Q R : World → Type 0} where
  pub Holds-bind :
      ((w : World) → Q w → R w)
      → (m : Exec A) (f : A → Exec B) → Holds P Q m
      → ((a : A) → Holds Q R (f a))
      → Holds P R (m >>= f)
  unfolding ◌>>=◌
  Holds-bind weaker m f hm k = record { at = λ w h. ending (m w).0 (m w).1 (hm.at w h) }
    where
      ending : (r : Result A) (w : World) → Q w → R (continue r f w).1
      ending (ok a) w h = (k a).at w h
      ending (err e) w h = weaker w h
