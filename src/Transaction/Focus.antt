-- ===== src/Transaction/Focus.antt =====
-- One change of a transaction of transaction.py among the others: the files it is about, which steps
-- leave them alone, and what the journal keeps of it.
use nixos_control_manager.Prelude.{
  ℕ, zero, suc, String, Bool, true, false, not, ◌&&◌, ◌≡◌, refl, ◌⊎◌, inl, inr, Option, none, some,
  List, [], ◌∷◌, ◌==◌, contains, All, arith, eq_iff,
}
use nixos_control_manager.Prelude.Dict.{Dict, lookup, insert, erase, lookup-insert, lookup-erase}
use nixos_control_manager.Transaction.State.{
  Content, File, Status, planned, Entry, Manifest, Stored, unreadable, stored, World, content_of,
  in_folder, is_finished, set_status,
}
use nixos_control_manager.Transaction.Host.{Host}
use nixos_control_manager.Transaction.Disk.{put, drop, put_backup}
use nixos_control_manager.Transaction.Restore.{restore_path}

-- The two paths of the configuration that a change is about.
abbrev pub watched : Entry → List String
watched f = f.path ∷ f.staged_path ∷ []

abbrev pub other_backup : String → Option String → Option String → Bool
other_backup id none b = true
other_backup id (some a) none = true
other_backup id (some a) (some b) = not (in_folder id b == in_folder id a)

-- The files that the change of an entry needs are not those of the change in view.
abbrev pub is_away : Host → String → Entry → Entry → Bool
is_away h id f e =
    not (contains (watched f) e.path)
    && not (contains (watched f) e.staged_path)
    && not (contains (watched f) (restore_path h id id e.path))
    && other_backup id f.backup_path e.backup_path

abbrev pub is_away_from_itself : Host → String → Entry → Bool
is_away_from_itself h id f =
    not (f.path == f.staged_path) && not (contains (watched f) (restore_path h id id f.path))

abbrev pub blank : Entry → Entry
blank e = record e { status = planned }

-- The entries are those of other changes, but for one, that of the change in view.
abbrev pub Spotted : Host → String → Entry → List Entry → Type 0
Spotted h id f [] = ⊥
Spotted h id f (e ∷ es) =
    ((blank e ≡ blank f) × All (λ o. is_away h id f o ≡ true) es)
    ⊎ ((is_away h id f e ≡ true) × Spotted h id f es)

-- What there is of the change: the contents of its target, its stage and its backup.
pub record Sight : Type 0 where
  pub target : Option Content
  pub staged : Option Content
  pub backup : Option Content

abbrev pub backup_at : String → Option String → Dict Content → Option Content
backup_at id none d = none
backup_at id (some b) d = lookup (in_folder id b) d

abbrev pub sight : String → Entry → World → Sight
sight id f w = record {
  target = content_of (lookup f.path w.files);
  staged = content_of (lookup f.staged_path w.files);
  backup = backup_at id f.backup_path w.backups;
}

-- What names the transaction in its manifest.
pub record Label : Type 0 where
  pub id : String
  pub root : String
  pub kind : String
  pub fixture : Bool

abbrev pub Labelled : Label → Manifest → Type 0
Labelled l m =
    (m.transaction_id ≡ l.id)
    × (m.configuration_root ≡ l.root)
    × (m.transaction_kind ≡ some l.kind)
    × (m.fixture_only ≡ some l.fixture)

-- A manifest of the transaction, whose state is a final one or not.
abbrev pub IsManifest : Host → Label → Entry → Bool → Manifest → Type 0
IsManifest h l f b m = Spotted h l.id f m.changes × Labelled l m × (is_finished m.state ≡ b)

-- Its state is a final one only if it may be.
abbrev pub Filed : Host → Label → Entry → Bool → Manifest → Type 0
Filed h l f b m = (c : Bool) × (IsManifest h l f c m × (c ≡ true → b ≡ true))

abbrev pub OnDisk : Host → Label → Entry → Bool → Option Stored → Type 0
OnDisk h l f b none = ⊥
OnDisk h l f b (some unreadable) = ⊥
OnDisk h l f b (some (stored m)) = Filed h l f b m

-- The manifest is that of the transaction, in memory and on the disk, and the change has come to `K`.
abbrev pub Holding : Host → Label → Entry → Bool → (Sight → Type 0) → World → Type 0
Holding h l f b K w =
    Filed h l f b w.memory × OnDisk h l f b (lookup l.id w.manifests) × K (sight l.id f w)

module _ (h : Host) (id : String) (f : Entry) where
  away-set_status :
      (i : ℕ) (s : Status) (es : List Entry)
      → All (λ o. is_away h id f o ≡ true) es
      → All (λ o. is_away h id f o ≡ true) (set_status i s es)
  unfolding set_status
  away-set_status i s [] a = tt
  away-set_status zero s (e ∷ es) a = a
  away-set_status (suc i) s (e ∷ es) a = (a.0, away-set_status i s es a.1)

  pub Spotted-set_status :
      (i : ℕ) (s : Status) (es : List Entry)
      → Spotted h id f es
      → Spotted h id f (set_status i s es)
  unfolding set_status
  Spotted-set_status i s [] p = p
  Spotted-set_status zero s (e ∷ es) (inl p) = inl p
  Spotted-set_status zero s (e ∷ es) (inr p) = inr p
  Spotted-set_status (suc i) s (e ∷ es) (inl p) = inl (p.0, away-set_status i s es p.1)
  Spotted-set_status (suc i) s (e ∷ es) (inr p) = inr (p.0, Spotted-set_status i s es p.1)

pub lookup-put_other :
    {V : Type 0} (p q : String) (v : V) (d : Dict V)
    → (p == q) ≡ false
    → lookup q (insert p v d) ≡ lookup q d
lookup-put_other p q v d n = ground (arith, lookup-insert p q v d)

pub lookup-drop_other :
    {V : Type 0} (p q : String) (d : Dict V) → (p == q) ≡ false → lookup q (erase p d) ≡ lookup q d
lookup-drop_other p q d n = ground (arith, lookup-erase p q d)

backup_at-other :
    (id : String) (a : Option String) (k : String) (x : Content) (d : Dict Content)
    → other_backup id a (some k) ≡ true
    → backup_at id a (insert (in_folder id k) x d) ≡ backup_at id a d
backup_at-other id none k x d m = refl
backup_at-other id (some a) k x d m =
    lookup-put_other (in_folder id k) (in_folder id a) x d (ground arith)

module _ (id : String) (f : Entry) where
  pub sight-same :
      (w v : World)
      → lookup f.path v.files ≡ lookup f.path w.files
      → lookup f.staged_path v.files ≡ lookup f.staged_path w.files
      → backup_at id f.backup_path v.backups ≡ backup_at id f.backup_path w.backups
      → sight id f v ≡ sight id f w
  sight-same w v a b c = simp (a, b, c)

  pub sight-put :
      (p : String) (x : File) (w : World)
      → contains (watched f) p ≡ false
      → sight id f (put p x w) ≡ sight id f w
  sight-put p x w n =
      sight-same w (put p x w)
        (lookup-put_other p f.path x w.files (ground (arith, eq_iff f.path p, eq_iff p f.path)))
        (lookup-put_other p f.staged_path x w.files
          (ground (arith, eq_iff f.staged_path p, eq_iff p f.staged_path)))
        refl

  pub sight-drop :
      (p : String) (w : World)
      → contains (watched f) p ≡ false
      → sight id f (drop p w) ≡ sight id f w
  sight-drop p w n =
      sight-same w (drop p w)
        (lookup-drop_other p f.path w.files (ground (arith, eq_iff f.path p, eq_iff p f.path)))
        (lookup-drop_other p f.staged_path w.files
          (ground (arith, eq_iff f.staged_path p, eq_iff p f.staged_path)))
        refl

  pub sight-put_backup :
      (b : Option String) (x : Content) (k : String) (w : World)
      → b ≡ some k
      → other_backup id f.backup_path b ≡ true
      → sight id f (put_backup (in_folder id k) x w) ≡ sight id f w
  sight-put_backup b x k w e n =
      sight-same w (put_backup (in_folder id k) x w) refl refl
        (backup_at-other id f.backup_path k x w.backups (rw e at n))
