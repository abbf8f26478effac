-- ===== src/Transaction/RestoresAll.antt =====
-- `_restore_from_manifest` of transaction.py as a whole, its cleaning up included.
use nixos_control_manager.Prelude.{
  String, true, false, ◌≡◌, sym, subst, ap, ◌∙◌, inl, inr, List, [], ◌∷◌, ◌==◌, eq_iff, All, arith,
}
use nixos_control_manager.Transaction.State.{Entry, World, content_of}
use nixos_control_manager.Transaction.Host.{Host, tick}
use nixos_control_manager.Transaction.Exec.{Exec}
use nixos_control_manager.Transaction.Disk.{drop}
use nixos_control_manager.Transaction.Restore.{
  restore_entries, unlink_stage, unlink_stages, remove_directories, cleanup, restore_from_manifest,
}
use nixos_control_manager.Transaction.Triple.{
  Triple-pure, Triple-if, Triple-look, Triple-gets, Triple-perform, Triple-then, Triple-given,
  Triple-pre,
}
use nixos_control_manager.Transaction.Focus.{
  Label, is_away, is_away_from_itself, Spotted, lookup-drop_other,
}
use nixos_control_manager.Transaction.Stays
use nixos_control_manager.Transaction.Undone.{Back-Fine, weaken_left, Goes, Goes-Stays}
use nixos_control_manager.Transaction.Restores.{restore_entries-Back}
use nixos_control_manager.Transaction.Fine.{
  Subject, Suits, Back, Fine, Now, is_away-facts, is_away_from_itself-facts,
}

module _ (h : Host) (l : Label) (s : Subject)
    (own : is_away_from_itself h l.id s.entry ≡ true) where
  abbrev Clean : {T : Type 0} → Exec T → Type 0
  Clean m = Goes h l s (Back s) (Back s) m

  drop-Clean :
      (p : String) (w : World)
      → (p == s.entry.path) ≡ false
      → Now h l s (Back s) w
      → Now h l s (Back s) (drop p w)
  drop-Clean p w n b = (b.0, b.1, ap content_of (lookup-drop_other p s.entry.path w.files n) ∙ b.2)

  stays : {T : Type 0} (m : Exec T) → Stays.Stays h l s.entry false (Back s) m → Clean m
  stays m t = Goes-Stays h l s (Back s) m (Back-Fine h l s) t

  Clean-unlink_stage : (p : String) → (p == s.entry.path) ≡ false → Clean (unlink_stage h p)
  unfolding unlink_stage
  Clean-unlink_stage p n = Triple-look _ _ λ there.
      Triple-if _ _ _
        (λ _.
          Triple-perform h _ _ (weaken_left h l s) (weaken_left h l s)
            (λ w b. weaken_left h l s (drop p (tick w)) (drop-Clean p (tick w) n b))
            (λ w b. drop-Clean p (tick w) n b))
        (λ _. stays _ (Stays.Stays-unchanged h l s.entry false (Back s)))

  Clean-stage :
      (e : Entry)
      → (e.staged_path == s.entry.path) ≡ false
      → (es : List Entry) → Clean (unlink_stages h es)
      → Clean (unlink_stages h (e ∷ es))
  unfolding unlink_stages
  Clean-stage e n es t =
      Triple-then (Now h l s (Back s)) _ _
        (Triple-then (Now h l s (Back s)) _ _
          (stays _ (Stays.Stays-safe_target h l s.entry false (Back s) _))
          (Clean-unlink_stage e.staged_path n))
        t

  Clean-away :
      (es : List Entry) → All (λ o. is_away h l.id s.entry o ≡ true) es → Clean (unlink_stages h es)
  unfolding unlink_stages
  Clean-away [] a = Triple-pure tt (λ w b. b)
  Clean-away (e ∷ es) a =
      Clean-stage e
        (ground (
          arith,
          is_away-facts h l.id s.entry e a.0,
          eq_iff e.staged_path s.entry.path,
          eq_iff s.entry.path e.staged_path,
        ))
        es (Clean-away es a.1)

  Clean-unlink_stages : (es : List Entry) → Spotted h l.id s.entry es → Clean (unlink_stages h es)
  Clean-unlink_stages [] p = elim p [ ]
  Clean-unlink_stages (e ∷ es) (inl p) =
      Clean-stage e
        (let same : e.staged_path ≡ s.entry.staged_path = ap (λ x. x.staged_path) p.0 in
          let apart = is_away_from_itself-facts h l.id s.entry own in
          ground
            (arith, eq_iff e.staged_path s.entry.path, eq_iff s.entry.path s.entry.staged_path))
        es (Clean-away es p.1)
  Clean-unlink_stages (e ∷ es) (inr p) =
      Clean-stage e
        (ground (
          arith,
          is_away-facts h l.id s.entry e p.0,
          eq_iff e.staged_path s.entry.path,
          eq_iff s.entry.path e.staged_path,
        ))
        es (Clean-unlink_stages es p.1)

  Clean-remove_directories : (ds : List String) → Clean (remove_directories h ds)
  unfolding remove_directories
  Clean-remove_directories [] = Triple-pure tt (λ w b. b)
  Clean-remove_directories (d ∷ ds) =
      Triple-then (Now h l s (Back s)) _ _ (Clean-remove_directories ds)
        (stays _ (Stays.Stays-remove_directory h l s.entry false (Back s) d))

  -- From any point it has come to, the change is brought back, or the restoring stops with an error
  -- at a point from which it can be tried again.
  pub restore_from_manifest-Back :
      Suits h s s.entry.action → Goes h l s (Fine s) (Back s) (restore_from_manifest h l.id)
  unfolding restore_from_manifest cleanup
  restore_from_manifest-Back u = Triple-gets _ _ λ m.
      Triple-given _ (λ w p. subst (λ x. Spotted h l.id s.entry x.changes) p.1 p.0.0.1.0.0)
        λ spotted.
          Triple-given _ (λ w p. subst (λ x. x.transaction_id ≡ l.id) p.1 p.0.0.1.0.1.0)
            λ named.
              Triple-pre _ (λ w p. p.0)
                (Triple-then (Now h l s (Back s)) _ _
                  (subst (λ x. Goes h l s (Fine s) (Back s) (restore_entries h l.id x 0 m.changes))
                    (sym named)
                    (restore_entries-Back h l s (is_away_from_itself-facts h l.id s.entry own).1 0
                      m.changes u spotted))
                  (Triple-then (Now h l s (Back s)) _ _ (Clean-unlink_stages m.changes spotted)
                    (Clean-remove_directories m.created_directories)))
