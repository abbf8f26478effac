-- ===== src/Transaction/PreparesOthers.antt =====
-- The preparing loop of `_apply_validated_changes` of transaction.py, for the other changes.
use nixos_control_manager.Prelude.{
  String, true, false, ◌≡◌, refl, ◌⊎◌, Option, none, some, List, [], ◌∷◌, ◌++◌, All,
}
use nixos_control_manager.Transaction.State.{prepared, Entry}
use nixos_control_manager.Transaction.Host.{Host}
use nixos_control_manager.Transaction.Exec.{Exec, ◌>>◌, modify_state}
use nixos_control_manager.Transaction.Disk.{set_memory}
use nixos_control_manager.Transaction.Apply.{Planned, back_up, prepare, prepare_all}
use nixos_control_manager.Transaction.Triple.{Triple-pure, Triple-bind}
use nixos_control_manager.Transaction.Focus.{
  Sight, Label, Holding, is_away, other_backup, sight-put_backup,
}
use nixos_control_manager.Transaction.Stays
use nixos_control_manager.Transaction.Fine.{is_away-facts}

-- The entry of a planned change is away from the one in view, and it is of that change.
abbrev pub IsOther : Host → String → Entry → Planned → Type 0
IsOther h id f p = (is_away h id f p.entry ≡ true) × (p.entry.path ≡ p.change.relative_path)

-- One of the planned changes is the one in view, the others are away from it.
abbrev pub Chosen : Host → String → Entry → Planned → List Planned → Type 0
Chosen h id f x [] = ⊥
Chosen h id f x (p ∷ ps) =
    ((p ≡ x) × All (IsOther h id f) ps) ⊎ (IsOther h id f p × Chosen h id f x ps)

module _ (h : Host) (l : Label) (f : Entry) (K : Sight → Type 0) where
  abbrev Still : {T : Type 0} → Exec T → Type 0
  Still m = Stays.Stays h l f false K m

  Still-then : {T U : Type 0} (m : Exec T) (n : Exec U) → Still m → Still n → Still (m >> n)
  Still-then m n a b = Stays.Stays-then h l f false K m n a b

  pub Still-note :
      (created : List String)
      → Still (
          modify_state
            (set_memory (λ m. record m { created_directories = m.created_directories ++ created })))
  Still-note created = Stays.state-Held h l f false K _ (λ m p. p)

  Still-back_up :
      (p : Planned) (b : Option String)
      → other_backup l.id f.backup_path b ≡ true
      → Still (back_up h l.id p.change b)
  unfolding back_up
  Still-back_up p none n = Triple-pure 420 (λ w q. q)
  Still-back_up p (some k) n =
      Triple-bind {R = λ _. Holding h l f false K} _ _
        (Still-then _ _
          (Still-then _ _
            (Stays.Stays-copy_to_backup h l f false K _ _
              (λ x w. sight-put_backup l.id f (some k) x k w refl n))
            (Stays.Stays-sync_file h l f false K))
          (Stays.Stays-backup_digest h l f false K _))
        λ d.
          Still-then _ _ (Stays.Stays-require h l f false K _ _)
            (Stays.Stays-stat_mode h l f false K _)

  pub Still-prepare : (p : Planned) → IsOther h l.id f p → Still (prepare h l.id p)
  unfolding prepare
  Still-prepare p a =
      let facts = is_away-facts h l.id f p.entry a.0 in
      Triple-bind {R = λ _. Holding h l f false K} _ _ (Stays.Stays-create_parents h l f false K _)
        λ created.
          Triple-bind {R = λ _. Holding h l f false K} _ _
            (Still-then _ _ (Still-note created) (Still-back_up p p.entry.backup_path facts.3))
            λ mode.
              Still-then _ _
                (Still-then _ _
                  (Still-then _ _ (Stays.Stays-safe_target h l f false K _)
                    (Stays.Stays-write_stage h l f false K _ _ mode facts.1))
                  (Stays.Stays-mark h l f false K _ prepared))
                (Stays.Stays-atomic_json h l f false K)

  pub Still-prepare_all :
      (ps : List Planned) → All (IsOther h l.id f) ps → Still (prepare_all h l.id ps)
  unfolding prepare_all
  Still-prepare_all [] a = Triple-pure tt (λ w q. q)
  Still-prepare_all (p ∷ ps) a = Still-then _ _ (Still-prepare p a.0) (Still-prepare_all ps a.1)
