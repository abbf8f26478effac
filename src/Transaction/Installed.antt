-- ===== src/Transaction/Installed.antt =====
-- `_verify_installed_candidates` and the atomic write of a manifest, in transaction.py, with what
-- they leave as it is.
use nixos_control_manager.Prelude.{
  String, true, ◌≡◌, sym, ap, ◌∙◌, Option, none, some, List, [], ◌∷◌, All, eq_iff, ◌⊎◌, inl, inr,
}
use nixos_control_manager.Prelude.Dict.{Dict, lookup, insert}
use nixos_control_manager.Transaction.State.{File, Entry, Manifest, stored, World, content_of}
use nixos_control_manager.Transaction.Host.{Host}
use nixos_control_manager.Transaction.Exec.{gets}
use nixos_control_manager.Transaction.Disk.{
  digest_of, target_digest, atomic_json, write_temporary, remove_temporary, sync_directory,
}
use nixos_control_manager.Transaction.Restore.{same_digest}
use nixos_control_manager.Transaction.Recover.{verify_installed, verify_all_installed}
use nixos_control_manager.Transaction.Stays
use nixos_control_manager.Transaction.Triple.{
  Triple, Triple-pure, Triple-check, Triple-look, Triple-perform, Triple-catch, Triple-finally,
  Triple-bind, Triple-then, Triple-weaken, Triple-given, Triple-pre,
}
use nixos_control_manager.Transaction.Quiet
use nixos_control_manager.Transaction.Quiet.{Quiet}

-- What a file's content is by its digest: a candidate.
abbrev pub IsInstalled : Host → Dict File → Entry → Type 0
IsInstalled h files e = digest_of h (content_of (lookup e.path files)) ≡ some e.candidate_sha256

same_digest-eq : (d : Option String) (e : String) → same_digest d (some e) ≡ true → d ≡ some e
unfolding same_digest
same_digest-eq none e k = cc
same_digest-eq (some d) e k = ap some ((eq_iff d e).0 k)

-- A check of the targets, before which `P` holds and files are known.
module _ (h : Host) (files : Dict File) (P E : World → Type 0) (quiet : Quiet P) (quiet' : Quiet E)
    (weaker : (w : World) → P w → E w) (known : (w : World) → P w → w.files ≡ files) where
  digest-known :
      (p : String)
      → Triple P
          (λ d w. P w × (d ≡ digest_of h (content_of (lookup p files))))
          E
          (target_digest h p)
  unfolding target_digest gets
  digest-known p =
      Triple-then P _ _ (Quiet.Looks-unchanged h P E quiet quiet' weaker)
        (record { at = λ w q. (q, ap (λ d. digest_of h (content_of (lookup p d))) (known w q)) })

  verify_installed-IsInstalled :
      (e : Entry) → Triple P (λ _ w. P w × IsInstalled h files e) E (verify_installed h e)
  unfolding verify_installed gets
  verify_installed-IsInstalled e =
      Triple-bind {R = λ _. P} _ _
        (Triple-then P _ _ (Quiet.Looks-safe_target h P E quiet quiet' weaker e.path)
          (record { at = λ w p. p }))
        λ there.
          Triple-bind {R = λ d w. P w × (d ≡ digest_of h (content_of (lookup e.path files)))} _ _
            (Triple-then P _ _ (Triple-check _ _ weaker (λ _ w p. p)) (digest-known e.path))
            λ d.
              Triple-check _ _ (λ w p. weaker w p.0)
                λ k w p. (p.0, sym p.1 ∙ same_digest-eq d e.candidate_sha256 k)

  pub verify_all_installed-All :
      (es : List Entry)
      → Triple P (λ _ w. P w × All (IsInstalled h files) es) E (verify_all_installed h es)
  unfolding verify_all_installed
  verify_all_installed-All [] = Triple-pure tt (λ w p. (p, tt))
  verify_all_installed-All (e ∷ es) =
      Triple-then (λ w. P w × IsInstalled h files e) _ _ (verify_installed-IsInstalled e)
        (Triple-given _ (λ w p. p.1)
          λ here.
            Triple-weaken _ (λ _ w p. (p.0, (here, p.1))) (λ w p. p)
              (Triple-pre _ (λ w p. p.0) (verify_all_installed-All es)))

-- The write of the manifest `new`, of a journal that holds `old`.
module _ (h : Host) (files : Dict File) (id : String) (old new : Manifest) where
  -- Before the write, and after it.
  abbrev pub Unsaved : World → Type 0
  Unsaved w = (w.files ≡ files) × (lookup id w.manifests ≡ some (stored old)) × (w.memory ≡ new)

  abbrev pub Saved : World → Type 0
  Saved w = (w.files ≡ files) × (lookup id w.manifests ≡ some (stored new))

  -- The journal holds the one manifest or the other, whole.
  abbrev pub Either : World → Type 0
  Either w =
      (w.files ≡ files)
      × ((lookup id w.manifests ≡ some (stored old)) ⊎ (lookup id w.manifests ≡ some (stored new)))

  before_save : (w : World) → Unsaved w → Either w
  before_save w p = (p.0, inl p.1)

  after_save : (w : World) → Saved w → Either w
  after_save w p = (p.0, inr p.1)

  lookup-save :
      (w : World)
      → w.memory ≡ new
      → lookup id (insert id (stored w.memory) w.manifests) ≡ some (stored new)
  lookup-save w e =
      Stays.lookup-insert_same id (stored w.memory) w.manifests ∙ ap (λ n. some (stored n)) e

  write_temporary-Unsaved : Triple Unsaved (λ _. Unsaved) Either (write_temporary h id)
  unfolding write_temporary
  write_temporary-Unsaved = Triple-look _ _ λ there.
      Triple-then Unsaved _ _ (Triple-check _ _ before_save (λ _ w p. p))
        (Triple-perform h _ _ before_save before_save before_save (λ w p. p))

  sync_directory-Saved : Triple Saved (λ _. Saved) Either (sync_directory h)
  unfolding sync_directory
  sync_directory-Saved =
      Triple-catch {E = Saved} _ _
        (Triple-perform h _ _ (λ w p. p) (λ w p. p) (λ w p. p) (λ w p. p)) after_save
        (λ _. Triple-pure tt (λ w p. p))

  remove_temporary-Saved : Triple Saved (λ _. Saved) Either (remove_temporary h id)
  unfolding remove_temporary
  remove_temporary-Saved =
      Triple-look _ _ λ there. Triple-perform h _ _ after_save after_save after_save (λ w p. p)

  remove_temporary-Either : Triple Either (λ _. Either) Either (remove_temporary h id)
  unfolding remove_temporary
  remove_temporary-Either =
      Triple-look _ _ λ there. Triple-perform h _ _ (λ w p. p) (λ w p. p) (λ w p. p) (λ w p. p)

  pub atomic_json-Saved : Triple Unsaved (λ _. Saved) Either (atomic_json h id)
  unfolding atomic_json
  atomic_json-Saved =
      Triple-finally {E = Either} {R = λ _. Saved} _ _
        (Triple-then Saved _ _
          (Triple-then Unsaved _ _ write_temporary-Unsaved (
            Triple-perform h _ _ before_save before_save (λ w p. (p.0, inr (lookup-save w p.2)))
              (λ w p. (p.0, lookup-save w p.2))))
          sync_directory-Saved)
        (λ w p. p) (λ _. remove_temporary-Saved) remove_temporary-Either
