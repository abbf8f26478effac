-- ===== src/Transaction/Undone.antt =====
-- `_restore_from_manifest` of transaction.py, for the change in view itself.
use nixos_control_manager.Prelude.{
  String, true, false, ◌≡◌, refl, sym, subst, ◌∙◌, inl, inr, Option, none, some, eq_refl, contains,
  is_some, arith,
}
use nixos_control_manager.Prelude.Dict.{Dict, lookup, insert, erase, lookup-insert, lookup-erase}
use nixos_control_manager.Transaction.State.{
  Content, File, modify, Entry, World, content_of, in_folder,
}
use nixos_control_manager.Transaction.Host.{Host, tick}
use nixos_control_manager.Transaction.Exec.{Exec, gets}
use nixos_control_manager.Transaction.Disk.{
  moved, overwrite, digest_of, halves_of, target_digest, copy_from_backup, replace, sync_file,
  mode_of, or_else,
}
use nixos_control_manager.Transaction.Restore.{restore_path, put_back, put_back_from}
use nixos_control_manager.Transaction.Triple.{
  Triple, Triple-raise, Triple-require, Triple-gets, Triple-perform, Triple-weaken, Triple-bind,
  Triple-then, Triple-given, Triple-pre,
}
use nixos_control_manager.Transaction.Focus.{Sight, sight, Label, watched}
use nixos_control_manager.Transaction.Stays
use nixos_control_manager.Transaction.Fine.{Subject, Saved, Back, Placed, Fine, Now}

pub content_of-put :
    (p : String) (x : File) (d : Dict File) → content_of (lookup p (insert p x d)) ≡ some x.content
content_of-put p x d = ground (arith, lookup-insert p p x d, eq_refl p)

pub content_of-drop : (p : String) (d : Dict File) → content_of (lookup p (erase p d)) ≡ none
content_of-drop p d = ground (arith, lookup-erase p p d, eq_refl p)

module _ (h : Host) (l : Label) (s : Subject) where
  abbrev f : Entry
  f = s.entry

  -- An action that comes from `K` to `J`, and stays fine on the way.
  abbrev pub Goes : (J K : Sight → Type 0) {T : Type 0} → Exec T → Type 0
  Goes K J m = Triple (Now h l s K) (λ _. Now h l s J) (Now h l s (Fine s)) m

  now :
      {K J : Sight → Type 0}
      → ((g : Sight) → K g → J g)
      → (w : World) → Now h l s K w
      → Now h l s J w
  now k w p = (p.0, p.1, k _ p.2)

  pub weaken_right : (w : World) → Now h l s (Placed s) w → Now h l s (Fine s) w
  weaken_right w p = (p.0, p.1, inr p.2)

  pub weaken_left : (w : World) → Now h l s (Back s) w → Now h l s (Fine s) w
  weaken_left w p = (p.0, p.1, inl p.2)

  -- A step that leaves the change as it is.
  pub Goes-Stays :
      {T : Type 0} (K : Sight → Type 0) (m : Exec T)
      → ((g : Sight) → K g → Fine s g)
      → Stays.Stays h l f false K m
      → Goes K K m
  Goes-Stays K m fine t = Triple-weaken m (λ _ w p. p) (now fine) t

  pub Back-Fine : (g : Sight) → Back s g → Fine s g
  Back-Fine g p = inl p

  -- What the digest of the target tells.
  abbrev pub Told : (Sight → Type 0) → Option String → Sight → Type 0
  Told K d g = K g × (d ≡ digest_of h g.target)

  pub target_digest-Told :
      (K : Sight → Type 0)
      → ((g : Sight) → K g → Fine s g)
      → Triple
          (Now h l s K)
          (λ d. Now h l s (Told K d))
          (Now h l s (Fine s))
          (target_digest h f.path)
  unfolding target_digest gets
  target_digest-Told K fine =
      Triple-then (Now h l s K) _ _ (Goes-Stays K _ fine (Stays.Stays-unchanged h l f false K))
        (record { at = λ w p. (p.0, p.1, (p.2, refl)) })

  -- The copy beside the target has the original's content.
  abbrev Copied : Option Content → World → Type 0
  Copied c w = content_of (lookup (restore_path h l.id l.id f.path) w.files) ≡ c

  halves_of-Copied :
      (c : Option Content)
      → contains (watched f) (restore_path h l.id l.id f.path) ≡ false
      → Triple
          (Now h l s (Placed s))
          (λ _ w. Now h l s (Placed s) w × Copied c w)
          (Now h l s (Fine s))
          (halves_of h (overwrite h (restore_path h l.id l.id f.path)) c)
  halves_of-Copied none n = Triple-raise _ (weaken_right)
  halves_of-Copied (some c) n =
      Triple-perform h _ _ weaken_right
        (λ w p.
          weaken_right (overwrite h (restore_path h l.id l.id f.path) (h.torn c) (tick w))
            (Stays.overwrite-Held h l f false (Placed s) _ (h.torn c) (tick w) n p))
        (λ w p.
          weaken_right (overwrite h (restore_path h l.id l.id f.path) c (tick w))
            (Stays.overwrite-Held h l f false (Placed s) _ c (tick w) n p))
        (λ w p. (
          Stays.overwrite-Held h l f false (Placed s) _ c (tick w) n p,
          content_of-put (restore_path h l.id l.id f.path)
              (record {
                content = c;
                mode =
                    or_else (mode_of (lookup (restore_path h l.id l.id f.path) w.files)) h.new_mode;
              })
              w.files,
        ))

  -- The copy takes the place of the target.
  moved-Back :
      (x : Option File) (r : String) (w : World)
      → content_of x ≡ s.original
      → is_some x ≡ true
      → Now h l s (Placed s) w
      → Now h l s (Back s) (moved r f.path x w)
  moved-Back none r w e i p = cc
  moved-Back (some x) r w e i p = (p.0, p.1, content_of-put f.path x (erase r w.files) ∙ e)

  replace-Back :
      Triple
        (λ w. Now h l s (Placed s) w × Copied s.original w)
        (λ _. Now h l s (Back s))
        (Now h l s (Fine s))
        (replace h (restore_path h l.id l.id f.path) f.path)
  unfolding replace
  replace-Back = Triple-gets _ _ λ there.
      Triple-require there _ _ (λ w p. weaken_right w p.0.0)
        λ e.
          Triple-perform h _ _ (λ w p. weaken_right w p.0.0) (λ w p. weaken_right w p.0.0)
            (λ w p.
              weaken_left
                (moved (restore_path h l.id l.id f.path) f.path
                  (lookup (restore_path h l.id l.id f.path) w.files) (tick w))
                (moved-Back _ _ (tick w) p.0.1 (p.1 ∙ e) p.0.0))
            (λ w p. moved-Back _ _ (tick w) p.0.1 (p.1 ∙ e) p.0.0)

  module _ (b : String) (own : contains (watched f) (restore_path h l.id l.id f.path) ≡ false)
      (is_modify : f.action ≡ modify) (has_backup : f.backup_path ≡ some b) where
    saved : (w : World) → Now h l s (Placed s) w → lookup (in_folder l.id b) w.backups ≡ s.original
    saved w p = rw has_backup at (subst (λ a. Saved s a (sight l.id f w)) is_modify p.2.1)

    copy_from_backup-Copied :
        Triple
          (Now h l s (Placed s))
          (λ _ w. Now h l s (Placed s) w × Copied s.original w)
          (Now h l s (Fine s))
          (copy_from_backup h (in_folder l.id b) (restore_path h l.id l.id f.path))
    unfolding copy_from_backup
    copy_from_backup-Copied = Triple-gets _ _ λ c.
        Triple-given _ (λ w p. sym p.1 ∙ saved w p.0)
          λ e.
            Triple-pre _ (λ w p. p.0)
              (subst
                (λ o.
                  Triple (Now h l s (Placed s)) (λ _ w. Now h l s (Placed s) w × Copied o w)
                    (Now h l s (Fine s))
                    (halves_of h (overwrite h (restore_path h l.id l.id f.path)) c))
                e (halves_of-Copied c own))

    sync_file-Copied :
        Triple
          (λ w. Now h l s (Placed s) w × Copied s.original w)
          (λ _ w. Now h l s (Placed s) w × Copied s.original w)
          (Now h l s (Fine s))
          (sync_file h)
    unfolding sync_file
    sync_file-Copied =
        Triple-perform h _ _ (λ w p. weaken_right w p.0) (λ w p. weaken_right w p.0)
          (λ w p. weaken_right w p.0) (λ w p. p)

    put_back-Back : Goes (Placed s) (Back s) (put_back h l.id l.id f b)
    unfolding put_back
    put_back-Back =
        Triple-bind {R = λ _. Now h l s (Placed s)} _ _
          (Goes-Stays (Placed s) _ (λ g. inr)
            (Stays.Stays-then h l f false (Placed s) _ _
              (Stays.Stays-safe_backup h l f false (Placed s) _ _)
              (Stays.Stays-backup_digest h l f false (Placed s) _)))
          λ d.
            Triple-then (Now h l s (Back s)) _ _
              (Triple-then (λ w. Now h l s (Placed s) w × Copied s.original w) _ _
                (Triple-then (λ w. Now h l s (Placed s) w × Copied s.original w) _ _
                  (Triple-then (Now h l s (Placed s)) _ _
                    (Goes-Stays (Placed s) _ (λ g. inr)
                      (Stays.Stays-require h l f false (Placed s) _ _))
                    copy_from_backup-Copied)
                  sync_file-Copied)
                replace-Back)
              (Goes-Stays (Back s) _ Back-Fine (Stays.Stays-sync_directory h l f false (Back s)))

    pub put_back_from-Back :
        (o : Option String) → o ≡ some b → Goes (Placed s) (Back s) (put_back_from h l.id l.id f o)
    unfolding put_back_from
    put_back_from-Back o e =
        subst (λ x. Goes (Placed s) (Back s) (put_back_from h l.id l.id f x)) (sym e) put_back-Back
