-- ===== src/Transaction/Prepares.antt =====
-- The preparing loop of `_apply_validated_changes` of transaction.py, for one change among the others.
use nixos_control_manager.Prelude.{
  ℕ, String, false, ◌≡◌, refl, sym, subst, ap, ◌∙◌, inl, inr, Option, none, some, List, [], ◌∷◌,
  arith, ◌==◌, eq_iff,
}
use nixos_control_manager.Prelude.Dict.{lookup, insert}
use nixos_control_manager.Transaction.State.{
  Content, File, Action, create, modify, other, prepared, World, content_of, in_folder,
}
use nixos_control_manager.Transaction.Host.{Host, tick}
use nixos_control_manager.Transaction.Exec.{Exec}
use nixos_control_manager.Transaction.Disk.{
  put, put_backup, halves_of, copy_to_backup, write_stage, mode_of, or_else,
}
use nixos_control_manager.Transaction.Apply.{Planned, back_up, prepare, prepare_all}
use nixos_control_manager.Transaction.Triple.{
  Triple-pure, Triple-raise, Triple-gets, Triple-look, Triple-perform, Triple-bind, Triple-then,
  Triple-pre, Triple-given,
}
use nixos_control_manager.Transaction.Focus.{Sight, Label, sight, backup_at, lookup-put_other}
use nixos_control_manager.Transaction.Stays
use nixos_control_manager.Transaction.Fine.{Subject, Suits, Saved, Back, Ready, Fine, Now}
use nixos_control_manager.Transaction.Undone.{
  Goes, Goes-Stays, Back-Fine, weaken_left, content_of-put,
}
use nixos_control_manager.Transaction.PreparesOthers.{
  Chosen, Still-note, Still-prepare, Still-prepare_all,
}

Saved-same : (s : Subject) (a : Action) (g : Sight) → g.backup ≡ s.original → Saved s a g
Saved-same s create g e = tt
Saved-same s modify g e = e
Saved-same s (other n) g e = tt

pub Saved-backup :
    (s : Subject) (a : Action) (g k : Sight) → g.backup ≡ k.backup → Saved s a g → Saved s a k
Saved-backup s create g k e p = tt
Saved-backup s modify g k e p = sym e ∙ p
Saved-backup s (other n) g k e p = tt

module _ (h : Host) (l : Label) (s : Subject) (u : Suits h s s.entry.action) where
  -- The original is in the backup.
  abbrev Kept : Sight → Type 0
  Kept g = Back s g × Saved s s.entry.action g

  kept-Fine : (g : Sight) → Kept g → Fine s g
  kept-Fine g p = inl p.0

  Saved-none : (a : Action) (g : Sight) → Suits h s a → s.entry.backup_path ≡ none → Saved s a g
  Saved-none create g v e = tt
  Saved-none modify g v e = let absurd : some v.1.4.0 ≡ none = sym v.1.4.1 ∙ e in cc
  Saved-none (other n) g v e = tt

  put_backup-Kept :
      (k : String) (x : Content) (w : World)
      → s.entry.backup_path ≡ some k
      → some x ≡ s.original
      → Now h l s (Back s) w
      → Now h l s Kept (put_backup (in_folder l.id k) x w)
  put_backup-Kept k x w e f p = (
    p.0,
    p.1,
    (
      p.2,
      Saved-same s s.entry.action (sight l.id s.entry (put_backup (in_folder l.id k) x w)) (
          subst (λ o. backup_at l.id o (insert (in_folder l.id k) x w.backups) ≡ s.original) (sym e)
            (Stays.lookup-insert_same (in_folder l.id k) x w.backups ∙ f)),
    ),
  )

  halves_of-Kept :
      (k : String) (c : Option Content)
      → s.entry.backup_path ≡ some k
      → c ≡ s.original
      → Goes h l s (Back s) Kept (halves_of h (put_backup (in_folder l.id k)) c)
  halves_of-Kept k none e f = Triple-raise _ (weaken_left h l s)
  halves_of-Kept k (some c) e f =
      Triple-perform h _ _ (weaken_left h l s) (λ w p. (p.0, p.1, inl p.2))
        (λ w p. (p.0, p.1, inl p.2)) (λ w p. put_backup-Kept k c (tick w) e f p)

  copy_to_backup-Kept :
      (k : String)
      → s.entry.backup_path ≡ some k
      → Goes h l s (Back s) Kept (copy_to_backup h s.entry.path (in_folder l.id k))
  unfolding copy_to_backup
  copy_to_backup-Kept k e = Triple-gets _ _ λ c.
      Triple-given _ (λ w p. sym p.1 ∙ p.0.2)
        λ f. Triple-pre _ (λ w p. p.0) (halves_of-Kept k c e f)

  kept : {T : Type 0} (m : Exec T) → Stays.Stays h l s.entry false Kept m → Goes h l s Kept Kept m
  kept m t = Goes-Stays h l s Kept m kept-Fine t

  back_up-Kept :
      (p : Planned) (b : Option String)
      → p.change.relative_path ≡ s.entry.path
      → s.entry.backup_path ≡ b
      → Goes h l s (Back s) Kept (back_up h l.id p.change b)
  unfolding back_up
  back_up-Kept p none q e =
      Triple-pure 420
        (λ w r. (r.0, r.1, (r.2, Saved-none s.entry.action (sight l.id s.entry w) u e)))
  back_up-Kept p (some k) q e =
      Triple-bind {R = λ _. Now h l s Kept} _ _
        (Triple-then (Now h l s Kept) _ _
          (Triple-then (Now h l s Kept) _ _
            (subst (λ x. Goes h l s (Back s) Kept (copy_to_backup h x (in_folder l.id k))) (sym q)
              (copy_to_backup-Kept k e))
            (kept _ (Stays.Stays-sync_file h l s.entry false Kept)))
          (kept _ (Stays.Stays-backup_digest h l s.entry false Kept _)))
        λ d. kept _ (
          Stays.Stays-then h l s.entry false Kept _ _
            (Stays.Stays-require h l s.entry false Kept _ _)
            (Stays.Stays-stat_mode h l s.entry false Kept _))

  -- The stage is not the target.
  module _ (apart : (s.entry.path == s.entry.staged_path) ≡ false) where
    put_stage-Back :
        (x : File) (w : World) → Now h l s Kept w → Now h l s Kept (put s.entry.staged_path x w)
    put_stage-Back x w p = (
      p.0,
      p.1,
      (
        ap content_of (
              lookup-put_other s.entry.staged_path s.entry.path x w.files (
                ground (
                  arith,
                  eq_iff s.entry.path s.entry.staged_path,
                  eq_iff s.entry.staged_path s.entry.path,
                )))
            ∙ p.2.0,
        Saved-backup s s.entry.action (sight l.id s.entry w)
            (sight l.id s.entry (put s.entry.staged_path x w)) refl p.2.1,
      ),
    )

    put_stage-Ready :
        (x : File) (w : World)
        → x.content ≡ s.candidate
        → Now h l s Kept w
        → Now h l s (Ready s) (put s.entry.staged_path x w)
    put_stage-Ready x w e p =
        let q = put_stage-Back x w p in
        (q.0, q.1, (q.2.0, content_of-put s.entry.staged_path x w.files ∙ ap some e, q.2.1))

    weaken_put :
        (x : File) (w : World) → Now h l s Kept w → Now h l s (Fine s) (put s.entry.staged_path x w)
    weaken_put x w p = let q = put_stage-Back x w p in (q.0, q.1, inl q.2.0)

    abbrev made : Content → World → File
    made c w = record {
      content = c;
      mode = or_else (mode_of (lookup s.entry.staged_path w.files)) h.new_mode;
    }

    write_stage-Ready :
        (c : Content) (mode : ℕ)
        → c ≡ s.candidate
        → Goes h l s Kept (Ready s) (write_stage h s.entry.staged_path c mode)
    unfolding write_stage
    write_stage-Ready c mode e = Triple-look _ _ λ there.
        Triple-then (Now h l s Kept) _ _
          (Triple-then (Now h l s Kept) _ _
            (kept _ (Stays.Stays-require h l s.entry false Kept _ _))
            (Triple-perform h _ _ (λ w p. (p.0, p.1, inl p.2.0))
              (λ w p. weaken_put (made (h.torn c) w) (tick w) p)
              (λ w p. weaken_put (made c w) (tick w) p)
              (λ w p. put_stage-Back (made c w) (tick w) p)))
          (Triple-perform h _ _ (λ w p. (p.0, p.1, inl p.2.0)) (λ w p. (p.0, p.1, inl p.2.0))
            (λ w p. weaken_put (record { content = c; mode = mode }) (tick w) p)
            (λ w p. put_stage-Ready (record { content = c; mode = mode }) (tick w) e p))

    ready :
        {T : Type 0} (m : Exec T)
        → Stays.Stays h l s.entry false (Ready s) m
        → Goes h l s (Ready s) (Ready s) m
    ready m t = Goes-Stays h l s (Ready s) m (λ g p. inl p.0) t

    prepare-Ready :
        (p : Planned)
        → p.entry ≡ s.entry
        → p.change.relative_path ≡ s.entry.path
        → h.utf8 p.change.candidate ≡ s.candidate
        → Goes h l s (Back s) (Ready s) (prepare h l.id p)
    unfolding prepare
    prepare-Ready p e q c =
        Triple-bind {R = λ _. Now h l s (Back s)} _ _
          (Goes-Stays h l s (Back s) _ (Back-Fine h l s)
            (Stays.Stays-create_parents h l s.entry false (Back s) _))
          λ created.
            Triple-bind {R = λ _. Now h l s Kept} _ _
              (Triple-then (Now h l s (Back s)) _ _
                (Goes-Stays h l s (Back s) _ (Back-Fine h l s)
                  (Still-note h l s.entry (Back s) created))
                (back_up-Kept p p.entry.backup_path q (ap (λ x. x.backup_path) (sym e))))
              λ mode.
                Triple-then (Now h l s (Ready s)) _ _
                  (Triple-then (Now h l s (Ready s)) _ _
                    (Triple-then (Now h l s Kept) _ _
                      (kept _ (Stays.Stays-safe_target h l s.entry false Kept _))
                      (subst
                        (λ x.
                          Goes h l s Kept (Ready s)
                            (write_stage h x (h.utf8 p.change.candidate) mode))
                        (ap (λ x. x.staged_path) (sym e)) (write_stage-Ready _ mode c)))
                    (ready _ (Stays.Stays-mark h l s.entry false (Ready s) _ prepared)))
                  (ready _ (Stays.Stays-atomic_json h l s.entry false (Ready s)))

    pub prepare_all-Ready :
        (x : Planned) (ps : List Planned)
        → x.entry ≡ s.entry
        → x.change.relative_path ≡ s.entry.path
        → h.utf8 x.change.candidate ≡ s.candidate
        → Chosen h l.id s.entry x ps
        → Goes h l s (Back s) (Ready s) (prepare_all h l.id ps)
    unfolding prepare_all
    prepare_all-Ready x [] e q c k = elim k [ ]
    prepare_all-Ready x (p ∷ ps) e q c (inl k) =
        Triple-then (Now h l s (Ready s)) _ _
          (subst (λ y. Goes h l s (Back s) (Ready s) (prepare h l.id y)) (sym k.0)
            (prepare-Ready x e q c))
          (ready _ (Still-prepare_all h l s.entry (Ready s) ps k.1))
    prepare_all-Ready x (p ∷ ps) e q c (inr k) =
        Triple-then (Now h l s (Back s)) _ _
          (Goes-Stays h l s (Back s) _ (Back-Fine h l s) (Still-prepare h l s.entry (Back s) p k.0))
          (prepare_all-Ready x ps e q c k.1)
