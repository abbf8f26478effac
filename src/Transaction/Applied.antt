-- ===== src/Transaction/Applied.antt =====
-- What `_apply_validated_changes` of transaction.py and the recovery after it leave at a target.
use nixos_control_manager.Prelude.{
  true, false, ◌≡◌, refl, sym, subst, inl, inr, Option, some, List, [], ◌∷◌, map,
}
use nixos_control_manager.Prelude.Dict.{lookup}
use nixos_control_manager.Transaction.State.{Content, Change, World, content_of}
use nixos_control_manager.Transaction.Host.{Host}
use nixos_control_manager.Transaction.Exec.{Exec}
use nixos_control_manager.Transaction.Disk.{set_memory}
use nixos_control_manager.Transaction.Apply.{
  Planned, Request, new_manifest, plan_from, verify_change, verify_changes, begin,
  prepare_and_commit, apply_validated_changes,
}
use nixos_control_manager.Transaction.Triple.{
  Triple, Triple-pure, Triple-raise, Triple-check, Triple-look, Triple-modify, Triple-perform,
  Triple-weaken, Triple-catch, Triple-finally, Triple-then, Triple-given, Triple-pre,
}
use nixos_control_manager.Transaction.Focus.{Label, Filed, is_away_from_itself}
use nixos_control_manager.Transaction.Stays
use nixos_control_manager.Transaction.Quiet.{Quiet, Looks-acquire_lock, Looks-release_lock}
use nixos_control_manager.Transaction.Fine.{
  Subject, Suits, Back, Ready, Placed, Fine, Now, is_away_from_itself-facts,
}
use nixos_control_manager.Transaction.Undone.{Goes, Goes-Stays}
use nixos_control_manager.Transaction.Recoverable.{untouched, Recoverable-Quiet}
use nixos_control_manager.Transaction.Verifies.{
  subject, Tells, Looks-verify_change, Looks-verify_changes, verify_change-Shown,
}
use nixos_control_manager.Transaction.PreparesOthers.{Chosen}
use nixos_control_manager.Transaction.Prepares.{prepare_all-Ready}
use nixos_control_manager.Transaction.Commits.{commit_all-Placed}
use nixos_control_manager.Transaction.Separate.{
  Among, separate, plan_from-IsPlanned, Among-IsPlanned, Among-change, separate-own,
  separate-Chosen, Chosen-Spotted,
}
use nixos_control_manager.Transaction.Applies.{
  Rec, Start, Start-Rec, Begun, first_write, Fine-Rec, on_failure-Rec,
}

abbrev pub label : Host → Request → Label
label h r = record {
  id = h.token;
  root = r.root;
  kind = r.transaction_kind;
  fixture = r.fixture_only;
}

module _ (h : Host) (r : Request) (cs : List Change) (p : Planned) (original : Option Content)
    (planned : Among p (plan_from h h.token 0 cs))
    (apart : separate h h.token (plan_from h h.token 0 cs) ≡ true)
    (tells : Tells h p.change original) where
  abbrev l : Label
  l = label h r

  abbrev s : Subject
  s = subject h h.token p.index p.change original

  abbrev ps : List Planned
  ps = plan_from h h.token 0 cs

  own_entry : p.entry ≡ s.entry
  own_entry = Among-IsPlanned h h.token p cs planned

  pub own : is_away_from_itself h h.token s.entry ≡ true
  own =
      subst (λ e. is_away_from_itself h h.token e ≡ true) own_entry
        (separate-own h h.token p ps planned apart)

  chosen : Chosen h h.token s.entry p ps
  chosen =
      subst (λ e. Chosen h h.token e p ps) own_entry
        (separate-Chosen h h.token p ps (plan_from-IsPlanned h h.token 0 cs) planned apart)

  abbrev Known : World → Type 0
  Known w = Start h l s w × Suits h s s.entry.action

  Start-Quiet : Quiet (Start h l s)
  Start-Quiet = record { quiet = λ n b w q. q }

  Known-Quiet : Quiet Known
  Known-Quiet = record { quiet = λ n b w q. q }

  Rec-Quiet : Quiet (Rec h l s)
  Rec-Quiet = Recoverable-Quiet h l s

  Known-Rec : (w : World) → Known w → Rec h l s w
  Known-Rec w q = Start-Rec h l s w q.0

  verify_changes-Known :
      (ds : List Change)
      → Among p.change ds
      → Triple (Start h l s) (λ _. Known) (Rec h l s) (verify_changes h ds)
  unfolding verify_changes
  verify_changes-Known [] m = elim m [ ]
  verify_changes-Known (d ∷ ds) (inl e) =
      Triple-then Known _ _
        (subst (λ x. Triple (Start h l s) (λ _. Known) (Rec h l s) (verify_change h x)) (sym e)
          (verify_change-Shown h (Start h l s) (Rec h l s) Start-Quiet Rec-Quiet (Start-Rec h l s)
            h.token p.index p.change original tells (λ w q. q.0)))
        (Looks-verify_changes h Known (Rec h l s) Known-Quiet Rec-Quiet Known-Rec ds)
  verify_changes-Known (d ∷ ds) (inr m) =
      Triple-then (Start h l s) _ _
        (Looks-verify_change h (Start h l s) (Rec h l s) Start-Quiet Rec-Quiet (Start-Rec h l s) d)
        (verify_changes-Known ds m)

  -- The new manifest is in memory.
  abbrev Fresh : World → Type 0
  Fresh w = Known w × (w.memory ≡ new_manifest r h.token)

  begun :
      (w : World)
      → Fresh w
      → Begun h l s (set_memory (λ m. record m { changes = map (λ x. x.entry) ps }) w)
  begun w q = (
    q.0.0,
    subst (λ m. Filed h l s.entry false (record m { changes = map (λ x. x.entry) ps })) (sym q.1)
        (
          false,
          (
            (
              Chosen-Spotted h h.token s.entry p ps own_entry chosen,
              (refl, refl, refl, refl),
              refl,
            ),
            λ e. e,
          ),
        ),
  )

  abbrev Open : World → Type 0
  Open w = Now h l s (Back s) w × Suits h s s.entry.action

  begin-Open : Triple Fresh (λ _. Open) (Rec h l s) (begin h h.token ps)
  unfolding begin
  begin-Open =
      Triple-given _ (λ w q. q.0.1)
        λ u.
          Triple-weaken _ (λ _ w q. (q, u)) (λ w q. q)
            (Triple-look _ _ λ there.
              Triple-then (Begun h l s) _ _
                (Triple-then Fresh _ _
                  (Triple-then Fresh _ _
                    (Triple-then Fresh _ _ (Triple-check _ _ (λ w q. Known-Rec w q.0) (λ _ w q. q))
                      (Triple-perform h _ _ (λ w q. untouched q.0.0.1 q.0.0.0)
                        (λ w q. untouched q.0.0.1 q.0.0.0) (λ w q. untouched q.0.0.1 q.0.0.0)
                        (λ w q. q)))
                    (Triple-perform h _ _ (λ w q. untouched q.0.0.1 q.0.0.0)
                      (λ w q. untouched q.0.0.1 q.0.0.0) (λ w q. untouched q.0.0.1 q.0.0.0)
                      (λ w q. q)))
                  (Triple-modify _ begun))
                (first_write h l s u))

  ready :
      {T : Type 0} (m : Exec T)
      → Stays.Stays h l s.entry false (Ready s) m
      → Goes h l s (Ready s) (Ready s) m
  ready m t = Goes-Stays h l s (Ready s) m (λ g q. inl q.0) t

  placed :
      {T : Type 0} (m : Exec T)
      → Stays.Stays h l s.entry false (Placed s) m
      → Goes h l s (Placed s) (Placed s) m
  placed m t = Goes-Stays h l s (Placed s) m (λ g q. inr q) t

  body-Placed :
      Suits h s s.entry.action
      → Goes h l s (Back s) (Placed s) (prepare_and_commit h r h.token cs ps)
  unfolding prepare_and_commit
  body-Placed u =
      Triple-then (Now h l s (Placed s)) _ _
        (Triple-then (Now h l s (Placed s)) _ _
          (Triple-then (Now h l s (Placed s)) _ _
            (Triple-then (Now h l s (Ready s)) _ _
              (Triple-then (Now h l s (Ready s)) _ _
                (Triple-then (Now h l s (Ready s)) _ _
                  (prepare_all-Ready h l s u (is_away_from_itself-facts h h.token s.entry own).0 p
                    ps own_entry refl refl chosen)
                  (ready _ (Stays.Stays-set_state h l s.entry false (Ready s) _ (λ e. e))))
                (ready _ (Stays.Stays-atomic_json h l s.entry false (Ready s))))
              (commit_all-Placed h l s r p ps own_entry refl chosen))
            (placed _ (Stays.Stays-set_state h l s.entry false (Placed s) _ (λ e. e))))
          (placed _ (Stays.Stays-atomic_json h l s.entry false (Placed s))))
        (Triple-pure _ (λ w q. q))

  abbrev Installed : World → Type 0
  Installed w =
      (content_of (lookup p.change.relative_path w.files) ≡ some (h.utf8 p.change.candidate))
      × Rec h l s w

  Installed-Quiet : Quiet Installed
  Installed-Quiet = record { quiet = λ n b w q. (q.0, Rec-Quiet.quiet n b w q.1) }

  pub apply-Triple :
      Triple (Start h l s) (λ _. Installed) (Rec h l s) (apply_validated_changes h r cs)
  unfolding apply_validated_changes
  apply-Triple =
      Triple-then Open _ _
        (Triple-then Fresh _ _
          (Triple-then Known _ _
            (Triple-then Known _ _
              (Triple-then (Start h l s) _ _
                (Triple-then (Start h l s) _ _
                  (Triple-then (Start h l s) _ _ (Triple-check _ _ (Start-Rec h l s) (λ _ w q. q))
                    (Triple-check _ _ (Start-Rec h l s) (λ _ w q. q)))
                  (Triple-check _ _ (Start-Rec h l s) (λ _ w q. q)))
                (verify_changes-Known cs (Among-change h h.token p 0 cs planned)))
              (Looks-acquire_lock h Known (Rec h l s) Known-Quiet Rec-Quiet Known-Rec))
            (Triple-modify _ (λ w q. (q, refl))))
          (Triple-catch {E = Rec h l s} _ _ begin-Open (λ w q. q)
            λ e.
              Triple-then (Rec h l s) _ _
                (Looks-release_lock h (Rec h l s) (Rec h l s) Rec-Quiet Rec-Quiet (λ w q. q))
                (Triple-raise _ (λ w q. q))))
        (Triple-given _ (λ w q. q.1)
          λ u.
            Triple-pre _ (λ w q. q.0)
              (Triple-finally {E = Rec h l s} {R = λ _. Installed} _ _
                (Triple-catch {E = Now h l s (Fine s)} {R = λ _. Installed} _ _
                  (Triple-weaken _ (λ _ w q. (q.2.0, Fine-Rec h l s u w (q.0, q.1, inr q.2)))
                    (λ w q. q) (body-Placed u))
                  (Fine-Rec h l s u) (λ e. on_failure-Rec h l s u own (λ _. Installed) e))
                (λ w q. q)
                (λ _.
                  Looks-release_lock h Installed (Rec h l s) Installed-Quiet Rec-Quiet (λ w q. q.1))
                (Looks-release_lock h (Rec h l s) (Rec h l s) Rec-Quiet Rec-Quiet (λ w q. q))))
