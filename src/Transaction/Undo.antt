-- ===== src/Transaction/Undo.antt =====
-- `_restore_from_manifest` of transaction.py, for one change among the others.
use nixos_control_manager.Prelude.{
  ℕ, suc, String, true, false, ◌≡◌, Option, none, some, List, [], ◌∷◌, All,
}
use nixos_control_manager.Transaction.Errors.{Failure}
use nixos_control_manager.Transaction.State.{
  Action, create, modify, other, Status, rolled_back, Entry, World,
}
use nixos_control_manager.Transaction.Host.{Host}
use nixos_control_manager.Transaction.Exec.{Exec, ◌>>◌}
use nixos_control_manager.Transaction.Restore.{
  leave, mark_restored, put_back, put_back_from, restore_modified, restore_created, restore_by,
  restore_entry, restore_entries,
}
use nixos_control_manager.Transaction.Triple.{Triple-pure, Triple-raise, Triple-if, Triple-bind}
use nixos_control_manager.Transaction.Focus.{Sight, Label, Holding, is_away}
use nixos_control_manager.Transaction.Stays
use nixos_control_manager.Transaction.Fine.{is_away-facts}

-- Restoring the other changes leaves this one as it is.
module _ (h : Host) (l : Label) (f : Entry) (K : Sight → Type 0) where
  abbrev Still : {T : Type 0} → Exec T → Type 0
  Still m = Stays.Stays h l f false K m

  same : (w : World) → Holding h l f false K w → Holding h l f false K w
  same w p = p

  Still-then : {T U : Type 0} (m : Exec T) (n : Exec U) → Still m → Still n → Still (m >> n)
  Still-then m n a b = Stays.Stays-then h l f false K m n a b

  pub Still-mark_restored : (i : ℕ) → Still (mark_restored h l.id l.id i)
  unfolding mark_restored
  Still-mark_restored i =
      Still-then _ _ (Stays.Stays-mark h l f false K i rolled_back)
        (Stays.Stays-atomic_json h l f false K)

  Still-put_back :
      (e : Entry) (b : String) → is_away h l.id f e ≡ true → Still (put_back h l.id l.id e b)
  unfolding put_back
  Still-put_back e b a =
      let facts = is_away-facts h l.id f e a in
      Triple-bind {R = λ _. Holding h l f false K} _ _
        (Still-then _ _ (Stays.Stays-safe_backup h l f false K _ _)
          (Stays.Stays-backup_digest h l f false K _))
        λ d.
          Still-then _ _
            (Still-then _ _
              (Still-then _ _
                (Still-then _ _ (Stays.Stays-require h l f false K _ _)
                  (Stays.Stays-copy_from_backup h l f false K _ _ facts.2))
                (Stays.Stays-sync_file h l f false K))
              (Stays.Stays-replace h l f false K _ _ facts.2 facts.0))
            (Stays.Stays-sync_directory h l f false K)

  Still-put_back_from :
      (e : Entry) (b : Option String)
      → is_away h l.id f e ≡ true
      → Still (put_back_from h l.id l.id e b)
  unfolding put_back_from
  Still-put_back_from e none a = Triple-raise _ same
  Still-put_back_from e (some b) a = Still-put_back e b a

  Still-leave : (s : Status) (e : Failure) → Still (leave h l.id l.id s e)
  unfolding leave
  Still-leave s e = Stays.Stays-require h l f false K _ e

  Still-restore_by :
      (a : Action) (i : ℕ) (e : Entry) (d : Option String)
      → is_away h l.id f e ≡ true
      → Still (restore_by h l.id l.id a i e d)
  unfolding restore_by restore_modified restore_created
  Still-restore_by modify i e d a =
      Triple-if _ _ _ (λ _. Stays.Stays-mark h l f false K i rolled_back)
        λ _.
          Triple-if _ _ _
            (λ _. Still-then _ _ (Still-put_back_from e e.backup_path a) (Still-mark_restored i))
            (λ _. Still-leave _ _)
  Still-restore_by create i e d a =
      Triple-if _ _ _ (λ _. Stays.Stays-mark h l f false K i rolled_back)
        λ _.
          Triple-if _ _ _
            (λ _.
              Still-then _ _
                (Still-then _ _ (Stays.Stays-unlink h l f false K _ (is_away-facts h l.id f e a).0)
                  (Stays.Stays-sync_directory h l f false K))
                (Still-mark_restored i))
            (λ _. Still-leave _ _)
  Still-restore_by (other n) i e d a = Still-mark_restored i

  pub Still-restore_entry :
      (i : ℕ) (e : Entry) → is_away h l.id f e ≡ true → Still (restore_entry h l.id l.id i e)
  unfolding restore_entry
  Still-restore_entry i e a =
      Triple-bind {R = λ _. Holding h l f false K} _ _
        (Still-then _ _ (Stays.Stays-safe_target h l f false K _)
          (Stays.Stays-target_digest h l f false K _))
        (λ d. Still-restore_by e.action i e d a)

  pub Still-restore_entries :
      (i : ℕ) (es : List Entry)
      → All (λ o. is_away h l.id f o ≡ true) es
      → Still (restore_entries h l.id l.id i es)
  unfolding restore_entries
  Still-restore_entries i [] a = Triple-pure tt same
  Still-restore_entries i (e ∷ es) a =
      Still-then _ _ (Still-restore_entries (suc i) es a.1) (Still-restore_entry i e a.0)
