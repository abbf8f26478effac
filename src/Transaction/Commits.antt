-- ===== src/Transaction/Commits.antt =====
-- The committing loop of `_apply_validated_changes` of transaction.py, for one change among the others.
use nixos_control_manager.Prelude.{
  ℕ, false, ◌≡◌, refl, sym, subst, ap, ◌∙◌, inl, inr, Option, none, some, List, [], ◌∷◌, contains,
  All,
}
use nixos_control_manager.Prelude.Dict.{lookup, erase}
use nixos_control_manager.Transaction.State.{Change, File, committed, Entry, World, content_of}
use nixos_control_manager.Transaction.Host.{Host, tick}
use nixos_control_manager.Transaction.Exec.{Exec, ◌>>◌}
use nixos_control_manager.Transaction.Disk.{moved, replace}
use nixos_control_manager.Transaction.Apply.{
  Planned, Request, inject, verify_change, commit, commit_all,
}
use nixos_control_manager.Transaction.Triple.{
  Triple-pure, Triple-raise, Triple-if, Triple-gets, Triple-require, Triple-perform, Triple-then,
}
use nixos_control_manager.Transaction.Focus.{Sight, Label, sight, Holding, watched}
use nixos_control_manager.Transaction.Stays
use nixos_control_manager.Transaction.Quiet.{Quiet}
use nixos_control_manager.Transaction.Fine.{Subject, Placed, Ready, Now, is_away-facts}
use nixos_control_manager.Transaction.Undone.{Goes, Goes-Stays, content_of-put}
use nixos_control_manager.Transaction.Verifies.{Looks-verify_change}
use nixos_control_manager.Transaction.PreparesOthers.{IsOther, Chosen}
use nixos_control_manager.Transaction.Prepares.{Saved-backup}

module _ (h : Host) (l : Label) (f : Entry) (K : Sight → Type 0) where
  abbrev Still : {T : Type 0} → Exec T → Type 0
  Still m = Stays.Stays h l f false K m

  Still-then : {T U : Type 0} (m : Exec T) (n : Exec U) → Still m → Still n → Still (m >> n)
  Still-then m n a b = Stays.Stays-then h l f false K m n a b

  Held-Quiet : Quiet (Holding h l f false K)
  Held-Quiet = record { quiet = λ n b w p. p }

  pub Still-verify_change : (c : Change) → Still (verify_change h c)
  Still-verify_change c =
      Looks-verify_change h (Holding h l f false K) (Holding h l f false K) Held-Quiet Held-Quiet
        (λ w p. p) c

  pub Still-inject : (r : Request) (i : ℕ) → Still (inject h r i)
  unfolding inject
  Still-inject r i =
      Triple-if _ _ _ (λ _. Triple-raise _ (λ w p. p)) (λ _. Triple-pure tt (λ w p. p))

  Still-commit : (p : Planned) → IsOther h l.id f p → Still (commit h l.id p)
  unfolding commit
  Still-commit p a =
      let facts = is_away-facts h l.id f p.entry a.0 in
      Still-then _ _
        (Still-then _ _
          (Still-then _ _
            (Still-then _ _
              (Still-then _ _ (Stays.Stays-safe_target h l f false K _)
                (Still-verify_change p.change))
              (Stays.Stays-replace h l f false K _ _ facts.1
                (subst (λ x. contains (watched f) x ≡ false) a.1 facts.0)))
            (Stays.Stays-sync_directory h l f false K))
          (Stays.Stays-mark h l f false K _ committed))
        (Stays.Stays-atomic_json h l f false K)

  pub Still-commit_all :
      (r : Request) (ps : List Planned) → All (IsOther h l.id f) ps → Still (commit_all h r l.id ps)
  unfolding commit_all
  Still-commit_all r [] a = Triple-pure tt (λ w p. p)
  Still-commit_all r (p ∷ ps) a =
      Still-then _ _ (Still-then _ _ (Still-commit p a.0) (Still-inject r p.index))
        (Still-commit_all r ps a.1)

module _ (h : Host) (l : Label) (s : Subject) where
  ready :
      {T : Type 0} (m : Exec T)
      → Stays.Stays h l s.entry false (Ready s) m
      → Goes h l s (Ready s) (Ready s) m
  ready m t = Goes-Stays h l s (Ready s) m (λ g p. inl p.0) t

  placed :
      {T : Type 0} (m : Exec T)
      → Stays.Stays h l s.entry false (Placed s) m
      → Goes h l s (Placed s) (Placed s) m
  placed m t = Goes-Stays h l s (Placed s) m (λ g p. inr p) t

  moved-Placed :
      (x : Option File) (w : World)
      → content_of x ≡ some s.candidate
      → Now h l s (Ready s) w
      → Now h l s (Placed s) (moved s.entry.staged_path s.entry.path x w)
  moved-Placed none w e p = cc
  moved-Placed (some x) w e p = (
    p.0,
    p.1,
    (
      content_of-put s.entry.path x (erase s.entry.staged_path w.files) ∙ e,
      Saved-backup s s.entry.action (sight l.id s.entry w)
          (sight l.id s.entry (moved s.entry.staged_path s.entry.path (some x) w)) refl p.2.2,
    ),
  )

  replace-Placed : Goes h l s (Ready s) (Placed s) (replace h s.entry.staged_path s.entry.path)
  unfolding replace
  replace-Placed = Triple-gets _ _ λ there.
      Triple-require there _ _ (λ w p. (p.0.0, p.0.1, inl p.0.2.0))
        λ e.
          Triple-perform h _ _ (λ w p. (p.0.0, p.0.1, inl p.0.2.0))
            (λ w p. (p.0.0, p.0.1, inl p.0.2.0))
            (λ w p.
              let q = moved-Placed (lookup s.entry.staged_path w.files) (tick w) p.0.2.1 p.0 in
              (q.0, q.1, inr q.2))
            (λ w p. moved-Placed (lookup s.entry.staged_path w.files) (tick w) p.0.2.1 p.0)

  commit-Placed :
      (p : Planned)
      → p.entry ≡ s.entry
      → p.change.relative_path ≡ s.entry.path
      → Goes h l s (Ready s) (Placed s) (commit h l.id p)
  unfolding commit
  commit-Placed p e q =
      Triple-then (Now h l s (Placed s)) _ _
        (Triple-then (Now h l s (Placed s)) _ _
          (Triple-then (Now h l s (Placed s)) _ _
            (Triple-then (Now h l s (Ready s)) _ _
              (ready _ (
                Stays.Stays-then h l s.entry false (Ready s) _ _
                  (Stays.Stays-safe_target h l s.entry false (Ready s) _)
                  (Still-verify_change h l s.entry (Ready s) p.change)))
              (subst (λ x. Goes h l s (Ready s) (Placed s) (replace h x p.change.relative_path))
                (ap (λ x. x.staged_path) (sym e))
                (subst (λ x. Goes h l s (Ready s) (Placed s) (replace h s.entry.staged_path x))
                  (sym q) replace-Placed)))
            (placed _ (Stays.Stays-sync_directory h l s.entry false (Placed s))))
          (placed _ (Stays.Stays-mark h l s.entry false (Placed s) _ committed)))
        (placed _ (Stays.Stays-atomic_json h l s.entry false (Placed s)))

  pub commit_all-Placed :
      (r : Request) (x : Planned) (ps : List Planned)
      → x.entry ≡ s.entry
      → x.change.relative_path ≡ s.entry.path
      → Chosen h l.id s.entry x ps
      → Goes h l s (Ready s) (Placed s) (commit_all h r l.id ps)
  unfolding commit_all
  commit_all-Placed r x [] e q k = elim k [ ]
  commit_all-Placed r x (p ∷ ps) e q (inl k) =
      Triple-then (Now h l s (Placed s)) _ _
        (Triple-then (Now h l s (Placed s)) _ _
          (subst (λ y. Goes h l s (Ready s) (Placed s) (commit h l.id y)) (sym k.0)
            (commit-Placed x e q))
          (placed _ (Still-inject h l s.entry (Placed s) r p.index)))
        (placed _ (Still-commit_all h l s.entry (Placed s) r ps k.1))
  commit_all-Placed r x (p ∷ ps) e q (inr k) =
      Triple-then (Now h l s (Ready s)) _ _
        (ready _ (
          Stays.Stays-then h l s.entry false (Ready s) _ _
            (Still-commit h l s.entry (Ready s) p k.0)
            (Still-inject h l s.entry (Ready s) r p.index)))
        (commit_all-Placed r x ps e q k.1)
