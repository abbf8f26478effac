-- ===== src/Transaction/Host.antt =====
-- What transaction.py takes from Python and from the system, as parameters.
use nixos_control_manager.Prelude.{ℕ, suc, String, Bool, List}
use nixos_control_manager.Transaction.State.{Content, World}

-- How far a call had come when it was interrupted.
pub data Extent : Type 0 where
  untouched : Extent
  halfway : Extent
  finished : Extent

-- What becomes of a call of the system.
pub data Fate : Type 0 where
  done : Fate
  failed : Extent → Fate
  killed : Extent → Fate

pub record Host : Type 0 where
  -- of the call with the given number
  pub fate : ℕ → Fate
  -- hashlib.sha256(…).hexdigest()
  pub digest : Content → String
  pub utf8 : String → Content
  -- the part of a text that has reached the disk when a write breaks off
  pub torn : Content → Content
  -- pathlib
  pub parts : String → List String
  pub is_absolute : String → Bool
  pub name : String → String
  pub with_name : String → String → String
  -- the directories above a file, the nearest first, without the root
  pub above : String → List String
  pub is_below : String → String → Bool
  -- which paths of the configuration, and of the journal, are symbolic links
  pub is_link : String → Bool
  pub is_journal_link : String → Bool
  -- the journal's root itself
  pub journal_is_link : Bool
  pub journal_is_inside : String → Bool
  pub journal_exists : Bool
  pub sorted : List String → List String
  -- secrets.token_hex(12), of this run
  pub token : String
  -- f"{index}" and f"{index:04d}"
  pub digits : ℕ → String
  pub four_digits : ℕ → String
  -- the mode that a new file gets
  pub new_mode : ℕ

abbrev pub tick : World → World
tick w = record w { clock = suc w.clock }
