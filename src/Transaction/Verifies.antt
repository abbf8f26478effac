-- ===== src/Transaction/Verifies.antt =====
-- `_verify_change_precondition` of transaction.py: what it tells of a change.
use nixos_control_manager.Prelude.{
  ℕ, String, Bool, true, false, ◌≡◌, refl, sym, subst, ap, ◌∙◌, Option, none, some, is_some, List,
  [], ◌∷◌, arith, ◌<>◌,
}
use nixos_control_manager.Prelude.Dict.{lookup}
use nixos_control_manager.Transaction.State.{
  Content, File, Action, create, modify, other, Change, World, content_of,
}
use nixos_control_manager.Transaction.Host.{Host}
use nixos_control_manager.Transaction.Exec.{Exec, gets}
use nixos_control_manager.Transaction.Disk.{exists, is_file, digest_of, target_digest}
use nixos_control_manager.Transaction.Restore.{same_digest}
use nixos_control_manager.Transaction.Apply.{
  previous_sha256, planned_entry, check_state, verify_change, verify_changes,
}
use nixos_control_manager.Transaction.Triple.{
  Triple, Triple-pure, Triple-raise, Triple-check, Triple-gets, Triple-look, Triple-bind,
  Triple-then,
}
use nixos_control_manager.Transaction.Quiet
use nixos_control_manager.Transaction.Quiet.{Quiet}
use nixos_control_manager.Transaction.Fine.{Subject, Suits}
use nixos_control_manager.Transaction.Restores.{same_digest-some}

-- The change of a plan as a subject: what it makes of the content that is at its target.
abbrev pub subject : Host → String → ℕ → Change → Option Content → Subject
subject h id i c original = record {
  entry = planned_entry h id i c;
  original = original;
  candidate = h.utf8 c.candidate;
}

-- The digest tells the content at the target from the candidate.
abbrev pub Tells : Host → Change → Option Content → Type 0
Tells h c none = Unit
Tells h c (some o) = h.digest o ≡ h.digest (h.utf8 c.candidate) → o ≡ h.utf8 c.candidate

module _ (h : Host) (P E : World → Type 0) (q : Quiet P) (r : Quiet E)
    (weaker : (w : World) → P w → E w) where
  abbrev Looks : {T : Type 0} → Exec T → Type 0
  Looks m = Quiet.Looks h P E q r weaker m

  Looks-check_state : (c : Change) (a : Action) → Looks (check_state h c a)
  unfolding check_state
  Looks-check_state c create = Triple-look _ _ λ there. Triple-check _ _ weaker (λ _ w p. p)
  Looks-check_state c modify = Triple-look _ _ λ there.
      Triple-bind {R = λ _. P} _ _
        (Triple-then P _ _ (Triple-check _ _ weaker (λ _ w p. p))
          (Quiet.Looks-target_digest h P E q r weaker _))
        λ d. Triple-check _ _ weaker (λ _ w p. p)
  Looks-check_state c (other a) = Triple-raise _ weaker

  pub Looks-verify_change : (c : Change) → Looks (verify_change h c)
  unfolding verify_change
  Looks-verify_change c =
      Triple-then P _ _
        (Triple-then P _ _ (Quiet.Looks-safe_target h P E q r weaker _)
          (Triple-check _ _ weaker (λ _ w p. p)))
        (Looks-check_state c c.action)

  pub Looks-verify_changes : (cs : List Change) → Looks (verify_changes h cs)
  unfolding verify_changes
  Looks-verify_changes [] = Triple-pure tt (λ w p. p)
  Looks-verify_changes (c ∷ cs) =
      Triple-then P _ _ (Looks-verify_change c) (Looks-verify_changes cs)

  module _ (id : String) (i : ℕ) (c : Change) (original : Option Content)
      (tells : Tells h c original)
      (at : (w : World) → P w → content_of (lookup c.relative_path w.files) ≡ original) where
    abbrev s : Subject
    s = subject h id i c original

    Suits-create : c.action ≡ create → original ≡ none → Suits h s create
    Suits-create a e = (e, refl)

    Suits-modify :
        (t : Option Content)
        → c.action ≡ modify
        → original ≡ t
        → Tells h c t
        → is_some t ≡ true
        → same_digest (digest_of h t) (previous_sha256 h c) ≡ true
        → Suits h s modify
    unfolding digest_of
    Suits-modify none a e k there d = cc
    Suits-modify (some o) a e k there d =
        let before : previous_sha256 h c ≡ some (h.digest (h.utf8 c.previous)) = rw a refl in
        (
          o,
          (
            e,
            before
                ∙ ap some (
                    sym (
                      same_digest-some (h.digest o) (h.digest (h.utf8 c.previous))
                        (sym (ap (same_digest (some (h.digest o))) before) ∙ d))),
            refl,
            k,
            ("backups/" <> h.four_digits i <> ".bin", rw a refl),
          ),
        )

    -- What the check has shown, where the next steps start.
    abbrev Shown : World → Type 0
    Shown w = P w × Suits h s c.action

    absent-none : (o : Option File) → is_some o ≡ false → content_of o ≡ none
    absent-none none e = refl
    absent-none (some f) e = cc

    there-some : (o : Option File) → is_some o ≡ true → is_some (content_of o) ≡ true
    there-some none e = cc
    there-some (some f) e = refl

    module _ (there : Bool) where
      abbrev IsFile : World → Type 0
      IsFile w = (P w × (is_file c.relative_path w ≡ there)) × (there ≡ true)

      IsFile-Quiet : Quiet IsFile
      IsFile-Quiet = record { quiet = λ n b w p. ((q.quiet n b w p.0.0, p.0.1), p.1) }

      digest-Told :
          Triple IsFile
            (λ d w.
              (P w × (is_file c.relative_path w ≡ there))
              × ((there ≡ true) × (d ≡ digest_of h (content_of (lookup c.relative_path w.files)))))
            E
            (target_digest h c.relative_path)
      unfolding target_digest gets
      digest-Told =
          Triple-then IsFile _ _
            (Quiet.Looks-unchanged h IsFile E IsFile-Quiet r (λ w p. weaker w p.0.0))
            (record { at = λ w p. (p.0, (p.1, refl)) })

    check_state-Shown :
        (a : Action) → c.action ≡ a → Triple P (λ _ w. P w × Suits h s a) E (check_state h c a)
    unfolding check_state
    check_state-Shown create a = Triple-gets _ _ λ there.
        Triple-check _ _ (λ w p. weaker w p.0)
          λ e w p. (
            p.0,
            Suits-create a (
                sym (at w p.0)
                ∙ absent-none (lookup c.relative_path w.files)
                    (let absent : exists c.relative_path w ≡ there = p.1 in ground arith)),
          )
    check_state-Shown modify a = Triple-gets _ _ λ there.
        Triple-bind
          {R = λ d w.
            (P w × (is_file c.relative_path w ≡ there))
            × ((there ≡ true) × (d ≡ digest_of h (content_of (lookup c.relative_path w.files))))}
          _ _
          (Triple-then (λ w. (P w × (is_file c.relative_path w ≡ there)) × (there ≡ true)) _ _
            (Triple-check _ _ (λ w p. weaker w p.0) (λ e w p. (p, e))) (digest-Told there))
          λ d.
            Triple-check _ _ (λ w p. weaker w p.0.0)
              λ e w p. (
                p.0.0,
                Suits-modify (content_of (lookup c.relative_path w.files)) a (sym (at w p.0.0))
                    (subst (Tells h c) (sym (at w p.0.0)) tells)
                    (there-some (lookup c.relative_path w.files) (p.0.1 ∙ p.1.0))
                    (sym (ap (λ x. same_digest x (previous_sha256 h c)) p.1.1) ∙ e),
              )
    check_state-Shown (other n) a = Triple-raise _ weaker

    pub verify_change-Shown : Triple P (λ _. Shown) E (verify_change h c)
    unfolding verify_change
    verify_change-Shown =
        Triple-then P _ _
          (Triple-then P _ _ (Quiet.Looks-safe_target h P E q r weaker _)
            (Triple-check _ _ weaker (λ _ w p. p)))
          (check_state-Shown c.action refl)
