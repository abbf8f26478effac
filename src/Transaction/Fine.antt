-- ===== src/Transaction/Fine.antt =====
-- How far one change of a transaction of transaction.py can have come, and what is known of it.
use nixos_control_manager.Prelude.{
  String, true, false, ◌≡◌, ◌⊎◌, Option, none, some, arith, ◌==◌, contains,
}
use nixos_control_manager.Transaction.State.{Content, Action, create, modify, other, Entry, World}
use nixos_control_manager.Transaction.Host.{Host}
use nixos_control_manager.Transaction.Restore.{restore_path}
use nixos_control_manager.Transaction.Focus.{
  Sight, Label, Holding, watched, is_away, other_backup, is_away_from_itself,
}

-- The change in view: its entry, what was at its target, and what is to be there.
pub record Subject : Type 0 where
  pub entry : Entry
  pub original : Option Content
  pub candidate : Content

-- The entry is that of a change from the original to the candidate. The digests of the two tell
-- them apart.
abbrev pub Suits : Host → Subject → Action → Type 0
Suits h s create = (s.original ≡ none) × (s.entry.candidate_sha256 ≡ h.digest s.candidate)
Suits h s modify =
    (o : Content) × ((s.original ≡ some o)
      × (s.entry.previous_sha256 ≡ some (h.digest o))
      × (s.entry.candidate_sha256 ≡ h.digest s.candidate)
      × (h.digest o ≡ h.digest s.candidate → o ≡ s.candidate)
      × ((b : String) × (s.entry.backup_path ≡ some b)))
Suits h s (other a) = ⊥

-- The original is in its backup.
abbrev pub Saved : Subject → Action → Sight → Type 0
Saved s modify g = g.backup ≡ s.original
Saved s _ g = Unit

-- The target as it was.
abbrev pub Back : Subject → Sight → Type 0
Back s g = g.target ≡ s.original

-- The candidate in its place, and the original in the backup.
abbrev pub Placed : Subject → Sight → Type 0
Placed s g = (g.target ≡ some s.candidate) × Saved s s.entry.action g

-- All is prepared for the candidate to take its place.
abbrev pub Ready : Subject → Sight → Type 0
Ready s g = Back s g × (g.staged ≡ some s.candidate) × Saved s s.entry.action g

-- The target is as it was, or holds the candidate and can be put back.
abbrev pub Fine : Subject → Sight → Type 0
Fine s g = Back s g ⊎ Placed s g

abbrev pub Now : Host → Label → Subject → (Sight → Type 0) → World → Type 0
Now h l s K w = Holding h l s.entry false K w

-- What the test says, one by one.
pub is_away-facts :
    (h : Host) (id : String) (f e : Entry)
    → is_away h id f e ≡ true
    → (contains (watched f) e.path ≡ false)
      × (contains (watched f) e.staged_path ≡ false)
      × (contains (watched f) (restore_path h id id e.path) ≡ false)
      × (other_backup id f.backup_path e.backup_path ≡ true)
is_away-facts h id f e a = (ground arith, ground arith, ground arith, ground arith)

pub is_away_from_itself-facts :
    (h : Host) (id : String) (f : Entry)
    → is_away_from_itself h id f ≡ true
    → ((f.path == f.staged_path) ≡ false)
      × (contains (watched f) (restore_path h id id f.path) ≡ false)
is_away_from_itself-facts h id f a = (ground arith, ground arith)
