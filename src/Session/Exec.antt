-- ===== src/Session/Exec.antt =====
-- The actions in which activation_session.py is modelled: each may raise, and what it has changed
-- before stays changed.
use nixos_control_manager.Prelude.{Bool, true, false}
use nixos_control_manager.Session.Errors.{Failure, Result, ok, err}
use nixos_control_manager.Session.Host.{World}

abbrev pub Exec : Type 0 → Type 0
Exec A = World → Result A × World

module _ {A : Type 0} where
  unfoldable pub pure : A → Exec A
  pure a w = (ok a, w)

  unfoldable pub raise : Failure → Exec A
  raise e w = (err e, w)

  unfoldable pub lift : Result A → Exec A
  lift r w = (r, w)

  infix 1 if◌then◌else◌
  unfoldable pub if◌then◌else◌ : Bool → Exec A → Exec A → Exec A
  if true then m else n = m
  if false then m else n = n

module _ {A B : Type 0} where
  abbrev pub continue : Result A → (A → Exec B) → Exec B
  continue (ok a) f w = f a w
  continue (err e) f w = (err e, w)

  infixl 5 ◌>>=◌ ◌>>◌
  unfoldable pub ◌>>=◌ : Exec A → (A → Exec B) → Exec B
  ◌>>=◌ m f w = let (r, w') = m w in continue r f w'

  abbrev pub ◌>>◌ : Exec A → Exec B → Exec B
  m >> n = m >>= λ _. n

unfoldable pub require : Bool → Failure → Exec (Unit {0})
require true e w = (ok tt, w)
require false e w = (err e, w)
