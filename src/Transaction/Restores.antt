-- ===== src/Transaction/Restores.antt =====
-- What `_restore_from_manifest` of transaction.py makes of one change, from any point it has come to.
use nixos_control_manager.Prelude.{
  ℕ, suc, String, true, false, ◌≡◌, refl, sym, subst, ap, ◌∙◌, inl, inr, Option, none, some, List,
  [], ◌∷◌, eq_iff, eq_refl, contains,
}
use nixos_control_manager.Transaction.State.{
  Content, Action, create, modify, other, Status, rolled_back, Entry, World,
}
use nixos_control_manager.Transaction.Host.{Host, tick}
use nixos_control_manager.Transaction.Exec.{Exec}
use nixos_control_manager.Transaction.Disk.{digest_of, drop, mark, unlink}
use nixos_control_manager.Transaction.Restore.{
  same_digest, restore_path, mark_restored, put_back, put_back_from, restore_modified,
  restore_created, restore_by, restore_entry, restore_entries,
}
use nixos_control_manager.Transaction.Triple.{
  Triple-if, Triple-look, Triple-perform, Triple-bind, Triple-then, Triple-given, Triple-pre,
}
use nixos_control_manager.Transaction.Focus.{Sight, Label, sight, watched, Spotted}
use nixos_control_manager.Transaction.Stays
use nixos_control_manager.Transaction.Undo.{
  Still-mark_restored, Still-restore_entries, Still-restore_entry,
}
use nixos_control_manager.Transaction.Undone.{
  Back-Fine, weaken_right, weaken_left, content_of-drop, Goes, Goes-Stays, Told, target_digest-Told,
  put_back_from-Back,
}
use nixos_control_manager.Transaction.Fine.{Subject, Suits, Back, Placed, Fine, Now}

abbrev with_status : Status → Entry → Entry
with_status t e = record e { status = t }

pub same_digest-some : (a b : String) → same_digest (some a) (some b) ≡ true → a ≡ b
unfolding same_digest
same_digest-some a b e = (eq_iff a b).0 e

same_digest_refl : (a : String) → same_digest (some a) (some a) ≡ true
unfolding same_digest
same_digest_refl a = eq_refl a

module _ (h : Host) (s : Subject) (g : Sight) (d : Option String)
    (told : d ≡ digest_of h g.target) where
  told-some : (c : Content) → g.target ≡ some c → d ≡ some (h.digest c)
  unfolding digest_of
  told-some c e = told ∙ ap (digest_of h) e

  told-none : g.target ≡ none → d ≡ none
  unfolding digest_of
  told-none e = told ∙ ap (digest_of h) e

  Back-digest :
      Suits h s modify → Fine s g → same_digest d s.entry.previous_sha256 ≡ true → Back s g
  Back-digest u (inl b) e = b
  Back-digest u (inr p) e =
      p.0
      ∙ ap some (
          sym (
            u.1.3 (
              sym (
                same_digest-some (h.digest s.candidate) (h.digest u.0) (
                  sym (ap (λ x. same_digest x (some (h.digest u.0))) (told-some s.candidate p.0))
                  ∙ sym (ap (same_digest d) u.1.1)
                  ∙ e)))))
      ∙ sym u.1.0

  Placed-digest :
      Suits h s modify → Fine s g → same_digest d s.entry.previous_sha256 ≡ false → Placed s g
  Placed-digest u (inr p) e = p
  Placed-digest u (inl b) e =
      let absurd : true ≡ false =
        sym (same_digest_refl (h.digest u.0))
        ∙ sym (ap (λ x. same_digest x (some (h.digest u.0))) (told-some u.0 (b ∙ u.1.0)))
        ∙ sym (ap (same_digest d) u.1.1)
        ∙ e in
      cc

  is_candidate :
      s.entry.candidate_sha256 ≡ h.digest s.candidate
      → Placed s g
      → same_digest d (some s.entry.candidate_sha256) ≡ false
      → ⊥
  is_candidate u p e =
      let absurd : true ≡ false =
        sym (same_digest_refl (h.digest s.candidate))
        ∙ sym (ap (λ x. same_digest x (some (h.digest s.candidate))) (told-some s.candidate p.0))
        ∙ sym (ap (λ x. same_digest d (some x)) u)
        ∙ e in
      cc

  gone-Back : Suits h s create → Fine s g → same_digest d none ≡ true → Back s g
  unfolding same_digest
  gone-Back u (inl b) e = b
  gone-Back u (inr p) e =
      let absurd : true ≡ false =
        sym e ∙ ap (λ x. same_digest x none) (told-some s.candidate p.0) in
      cc

  there-Placed : Suits h s create → Fine s g → same_digest d none ≡ false → Placed s g
  unfolding same_digest
  there-Placed u (inr p) e = p
  there-Placed u (inl b) e =
      let absurd : false ≡ true = sym e ∙ ap (λ x. same_digest x none) (told-none (b ∙ u.0)) in cc

module _ (h : Host) (l : Label) (s : Subject)
    (own : contains (watched s.entry) (restore_path h l.id l.id s.entry.path) ≡ false) where
  abbrev To : (J K : Sight → Type 0) {T : Type 0} → Exec T → Type 0
  To J K m = Goes h l s J K m

  Told-pre :
      (J K : Sight → Type 0) (d : Option String) {T : Type 0} (m : Exec T)
      → ((g : Sight) → d ≡ digest_of h g.target → J g → K g)
      → To K (Back s) m
      → To (Told h l s J d) (Back s) m
  Told-pre J K d m k t = Triple-pre m (λ w p. (p.0, p.1, k (sight l.id s.entry w) p.2.1 p.2.0)) t

  Told-still :
      (J K : Sight → Type 0) (d : Option String) {T : Type 0} (m : Exec T)
      → ((g : Sight) → d ≡ digest_of h g.target → J g → K g)
      → To (Told h l s K d) (Back s) m
      → To (Told h l s J d) (Back s) m
  Told-still J K d m k t =
      Triple-pre m (λ w p. (p.0, p.1, (k (sight l.id s.entry w) p.2.1 p.2.0, p.2.1))) t

  absurd-pre :
      (J : Sight → Type 0) (d : Option String) {T : Type 0} (m : Exec T)
      → ((g : Sight) → d ≡ digest_of h g.target → J g → ⊥)
      → To (Told h l s J d) (Back s) m
  absurd-pre J d m k =
      Triple-given m (λ w p. k (sight l.id s.entry w) p.2.1 p.2.0) (λ e. elim e [ ])

  mark-Back : (i : ℕ) → To (Back s) (Back s) (mark i rolled_back)
  mark-Back i =
      Goes-Stays h l s (Back s) _ (Back-Fine h l s)
        (Stays.Stays-mark h l s.entry false (Back s) i rolled_back)

  mark_restored-Back : (i : ℕ) → To (Back s) (Back s) (mark_restored h l.id l.id i)
  mark_restored-Back i =
      Goes-Stays h l s (Back s) _ (Back-Fine h l s) (Still-mark_restored h l s.entry (Back s) i)

  restore_modified-Back :
      (i : ℕ) (d : Option String) (t : Status)
      → s.entry.action ≡ modify
      → Suits h s modify
      → To
          (Told h l s (Fine s) d)
          (Back s)
          (restore_modified h l.id l.id i (record s.entry { status = t }) d)
  unfolding restore_modified put_back_from put_back
  restore_modified-Back i d t a u =
      Triple-if _ _ _
        (λ e. Told-pre (Fine s) (Back s) d _ (λ g q p. Back-digest h s g d q u p e) (mark-Back i))
        λ e.
          Told-still (Fine s) (Placed s) d _ (λ g q p. Placed-digest h s g d q u p e)
            (Triple-if _ _ _
              (λ c.
                Told-pre (Placed s) (Placed s) d _ (λ g q p. p)
                  (Triple-then (Now h l s (Back s)) _ _
                    (put_back_from-Back h l s u.1.4.0 own a u.1.4.1 s.entry.backup_path u.1.4.1)
                    (mark_restored-Back i)))
              (λ c. absurd-pre (Placed s) d _ (λ g q p. is_candidate h s g d q u.1.2 p c)))

  drop-Back :
      (w : World)
      → s.original ≡ none
      → Now h l s (Placed s) w
      → Now h l s (Back s) (drop s.entry.path w)
  drop-Back w e p = (p.0, p.1, content_of-drop s.entry.path w.files ∙ sym e)

  unlink-Back : s.original ≡ none → To (Placed s) (Back s) (unlink h s.entry.path)
  unfolding unlink
  unlink-Back e = Triple-look _ _ λ there.
      Triple-then (Now h l s (Placed s)) _ _
        (Goes-Stays h l s (Placed s) _ (λ g. inr)
          (Stays.Stays-require h l s.entry false (Placed s) _ _))
        (Triple-perform h _ _ (weaken_right h l s) (weaken_right h l s)
          (λ w p. weaken_left h l s (drop s.entry.path (tick w)) (drop-Back (tick w) e p))
          (λ w p. drop-Back (tick w) e p))

  restore_created-Back :
      (i : ℕ) (d : Option String) (t : Status)
      → Suits h s create
      → To
          (Told h l s (Fine s) d)
          (Back s)
          (restore_created h l.id l.id i (record s.entry { status = t }) d)
  unfolding restore_created
  restore_created-Back i d t u =
      Triple-if _ _ _
        (λ e. Told-pre (Fine s) (Back s) d _ (λ g q p. gone-Back h s g d q u p e) (mark-Back i))
        λ e.
          Told-still (Fine s) (Placed s) d _ (λ g q p. there-Placed h s g d q u p e)
            (Triple-if _ _ _
              (λ c.
                Told-pre (Placed s) (Placed s) d _ (λ g q p. p)
                  (Triple-then (Now h l s (Back s)) _ _
                    (Triple-then (Now h l s (Back s)) _ _ (unlink-Back u.0) (
                      Goes-Stays h l s (Back s) _ (Back-Fine h l s)
                        (Stays.Stays-sync_directory h l s.entry false (Back s))))
                    (mark_restored-Back i)))
              (λ c. absurd-pre (Placed s) d _ (λ g q p. is_candidate h s g d q u.1 p c)))

  restore_by-Back :
      (a : Action) (i : ℕ) (d : Option String) (t : Status)
      → s.entry.action ≡ a
      → Suits h s a
      → To
          (Told h l s (Fine s) d)
          (Back s)
          (restore_by h l.id l.id a i (record s.entry { status = t }) d)
  unfolding restore_by
  restore_by-Back create i d t e u = restore_created-Back i d t u
  restore_by-Back modify i d t e u = restore_modified-Back i d t e u
  restore_by-Back (other n) i d t e u = elim u [ ]

  restore_entry-Back :
      (i : ℕ) (t : Status)
      → Suits h s s.entry.action
      → To (Fine s) (Back s) (restore_entry h l.id l.id i (record s.entry { status = t }))
  unfolding restore_entry
  restore_entry-Back i t u =
      Triple-bind {R = λ d. Now h l s (Told h l s (Fine s) d)} _ _
        (Triple-then (Now h l s (Fine s)) _ _
          (Goes-Stays h l s (Fine s) _ (λ g p. p)
            (Stays.Stays-safe_target h l s.entry false (Fine s) _))
          (target_digest-Told h l s (Fine s) (λ g p. p)))
        (λ d. restore_by-Back s.entry.action i d t refl u)

  -- Whatever the others' statuses, the loop brings the change back.
  pub restore_entries-Back :
      (i : ℕ) (es : List Entry)
      → Suits h s s.entry.action
      → Spotted h l.id s.entry es
      → To (Fine s) (Back s) (restore_entries h l.id l.id i es)
  unfolding restore_entries
  restore_entries-Back i [] u p = elim p [ ]
  restore_entries-Back i (e ∷ es) u (inl p) =
      Triple-then (Now h l s (Fine s)) _ _
        (Goes-Stays h l s (Fine s) _ (λ g q. q)
          (Still-restore_entries h l s.entry (Fine s) (suc i) es p.1))
        (subst (λ x. To (Fine s) (Back s) (restore_entry h l.id l.id i x))
          (sym (ap (with_status e.status) p.0)) (restore_entry-Back i e.status u))
  restore_entries-Back i (e ∷ es) u (inr p) =
      Triple-then (Now h l s (Back s)) _ _ (restore_entries-Back (suc i) es u p.1) (
        Goes-Stays h l s (Back s) _ (Back-Fine h l s)
          (Still-restore_entry h l s.entry (Back s) i e p.0))
