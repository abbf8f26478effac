-- ===== src/Transaction/Exec.antt =====
-- The actions in which transaction.py is modelled: each may raise, or end with the process; what it
-- has changed before stays changed.
use nixos_control_manager.Prelude.{Bool, true, false}
use nixos_control_manager.Transaction.Errors.{Failure, os_error, Outcome, ok, err, dead}
use nixos_control_manager.Transaction.State.{World}
use nixos_control_manager.Transaction.Host.{
  Extent, untouched, halfway, finished, Fate, done, failed, killed, Host, tick,
}

abbrev pub Exec : Type 0 → Type 0
Exec A = World → Outcome A × World

module _ {T : Type 0} where
  unfoldable pub pure : T → Exec T
  pure t w = (ok t, w)

  unfoldable pub raise : Failure → Exec T
  raise e w = (err e, w)

  infix 1 if◌then◌else◌
  unfoldable pub if◌then◌else◌ : Bool → Exec T → Exec T → Exec T
  if true then m else n = m
  if false then m else n = n

module _ {T U : Type 0} where
  abbrev pub continue : Outcome T → (T → Exec U) → Exec U
  continue (ok t) k w = k t w
  continue (err e) k w = (err e, w)
  continue dead k w = (dead, w)

  infixl 5 ◌>>=◌ ◌>>◌
  unfoldable pub ◌>>=◌ : Exec T → (T → Exec U) → Exec U
  ◌>>=◌ m k w = let (o, w') = m w in continue o k w'

  abbrev pub ◌>>◌ : Exec T → Exec U → Exec U
  m >> n = m >>= λ _. n

module _ {T : Type 0} where
  abbrev pub handle : Outcome T → (Failure → Exec T) → Exec T
  handle (ok t) k w = (ok t, w)
  handle (err e) k w = k e w
  handle dead k w = (dead, w)

  -- `try: … except Exception as error: …`
  unfoldable pub catch : Exec T → (Failure → Exec T) → Exec T
  catch m k w = let (o, w') = m w in handle o k w'

  abbrev pub close : Outcome T → Exec (Unit {0}) → Exec T
  close (ok t) c w = (c >>= λ _. pure t) w
  close (err e) c w = (c >>= λ _. raise e) w
  close dead c w = (dead, w)

  -- `try: … finally: …`
  unfoldable pub finally : Exec T → Exec (Unit {0}) → Exec T
  finally m c w = let (o, w') = m w in close o c w'

unfoldable pub require : Bool → Failure → Exec (Unit {0})
require true e w = (ok tt, w)
require false e w = (err e, w)

-- A change of the running program's own data.
unfoldable pub modify_state : (World → World) → Exec (Unit {0})
modify_state f w = (ok tt, f w)

unfoldable pub gets : {T : Type 0} → (World → T) → Exec T
gets f w = (ok (f w), w)

abbrev pub reach : Extent → (World → World) → (World → World) → World → World
reach untouched half full w = w
reach halfway half full w = half w
reach finished half full w = full w

abbrev pub befall : Fate → (World → World) → (World → World) → Exec (Unit {0})
befall done half full w = (ok tt, full w)
befall (failed x) half full w = (err os_error, reach x half full w)
befall (killed x) half full w = (dead, reach x half full w)

module _ (h : Host) where
  -- A call of the system: what it leaves behind half done, and done.
  unfoldable pub perform : (World → World) → (World → World) → Exec (Unit {0})
  perform half full w = befall (h.fate w.clock) half full (tick w)
