-- ===== src/Transaction/Recoverable.antt =====
-- The worlds from which the recovery of transaction.py can bring a change back.
use nixos_control_manager.Prelude.{
  ℕ, String, Bool, true, false, ◌≡◌, refl, inl, Option, none, some, List,
}
use nixos_control_manager.Prelude.Dict.{lookup}
use nixos_control_manager.Transaction.State.{Manifest, Stored, unreadable, stored, World}
use nixos_control_manager.Transaction.Host.{Host}
use nixos_control_manager.Transaction.Focus.{Label, IsManifest, Filed, OnDisk, Holding, sight}
use nixos_control_manager.Transaction.Quiet.{Quiet}
use nixos_control_manager.Transaction.Fine.{Subject, Suits, Back, Fine, Now}

-- There is no manifest and the target is as it was; or the manifest tells what to restore, and the
-- target is as it was if the state is a final one.
pub data Recoverable (h : Host) (l : Label) (s : Subject) (w : World) : Type 0 where
  untouched : lookup l.id w.manifests ≡ none → Back s (sight l.id s.entry w) → Recoverable h l s w
  filed :
      Suits h s s.entry.action
      → (m : Manifest) → lookup l.id w.manifests ≡ some (stored m)
      → (c : Bool) → IsManifest h l s.entry c m
      → (c ≡ true → Back s (sight l.id s.entry w))
      → Fine s (sight l.id s.entry w)
      → Recoverable h l s w

-- The change has been brought back, for good.
abbrev pub Settled : Host → Label → Subject → World → Type 0
Settled h l s w = Back s (sight l.id s.entry w) × Recoverable h l s w

module _ (h : Host) (l : Label) (s : Subject) (u : Suits h s s.entry.action) where
  on_disk :
      (b : Bool) (o : Option Stored) (w : World)
      → lookup l.id w.manifests ≡ o
      → OnDisk h l s.entry b o
      → (b ≡ true → Back s (sight l.id s.entry w))
      → Fine s (sight l.id s.entry w)
      → Recoverable h l s w
  on_disk b none w e d k f = elim d [ ]
  on_disk b (some unreadable) w e d k f = elim d [ ]
  on_disk b (some (stored m)) w e d k f = filed u m e d.0 d.1.0 (λ c. k (d.1.1 c)) f

  pub Recoverable-Fine : (w : World) → Now h l s (Fine s) w → Recoverable h l s w
  Recoverable-Fine w p = on_disk false (lookup l.id w.manifests) w refl p.1 (λ e. cc) p.2

  pub Settled-Back : (w : World) → Holding h l s.entry true (Back s) w → Settled h l s w
  Settled-Back w p = (p.2, on_disk true (lookup l.id w.manifests) w refl p.1 (λ e. p.2) (inl p.2))

  -- What was not to be in a final state may be.
  may_finish : (m : Manifest) → Filed h l s.entry false m → Filed h l s.entry true m
  may_finish m p = (p.0, (p.1.0, λ e. refl))

  may_finish-OnDisk : (o : Option Stored) → OnDisk h l s.entry false o → OnDisk h l s.entry true o
  may_finish-OnDisk none p = p
  may_finish-OnDisk (some unreadable) p = p
  may_finish-OnDisk (some (stored m)) p = may_finish m p

  pub finishing : (w : World) → Now h l s (Back s) w → Holding h l s.entry true (Back s) w
  finishing w p = (may_finish w.memory p.0, may_finish-OnDisk (lookup l.id w.manifests) p.1, p.2)

module _ (h : Host) (l : Label) (s : Subject) where
  quiet-Recoverable :
      (n : ℕ) (locked : Bool) (w : World)
      → Recoverable h l s w
      → Recoverable h l s (record w { clock = n; is_locked = locked })
  quiet-Recoverable n locked w (untouched e b) = untouched e b
  quiet-Recoverable n locked w (filed u m e c i k f) = filed u m e c i k f

  pub Recoverable-Quiet : Quiet (Recoverable h l s)
  Recoverable-Quiet = record { quiet = quiet-Recoverable }

  pub Settled-Quiet : Quiet (Settled h l s)
  Settled-Quiet = record { quiet = λ n b w p. (p.0, quiet-Recoverable n b w p.1) }

  -- What becomes of the temporary file of the manifest does not matter.
  pub temporaries-Recoverable :
      (n : ℕ) (ts : List String) (w : World)
      → Recoverable h l s w
      → Recoverable h l s (record w { clock = n; temporaries = ts })
  temporaries-Recoverable n ts w (untouched e b) = untouched e b
  temporaries-Recoverable n ts w (filed u m e c i k f) = filed u m e c i k f
