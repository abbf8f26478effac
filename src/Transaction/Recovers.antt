-- ===== src/Transaction/Recovers.antt =====
-- `_recover_pending_transactions` of transaction.py, asked for one transaction, for one of its changes.
use nixos_control_manager.Prelude.{
  String, Bool, true, false, not, ◌≡◌, refl, sym, subst, ap, ◌∙◌, inl, inr, Option, none, some,
  is_some, List, [], ◌∷◌, ◌==◌, contains, Bool-cases, arith, eq_iff,
}
use nixos_control_manager.Prelude.Dict.{lookup}
use nixos_control_manager.Transaction.Errors.{Failure}
use nixos_control_manager.Transaction.State.{
  Manifest, Stored, unreadable, stored, World, is_finished,
}
use nixos_control_manager.Transaction.Host.{Host}
use nixos_control_manager.Transaction.Exec.{Exec, pure, catch, gets, ◌>>◌}
use nixos_control_manager.Transaction.Disk.{load_manifest, loaded, set_state, atomic_json}
use nixos_control_manager.Transaction.Restore.{restore_from_manifest}
use nixos_control_manager.Transaction.Recover.{
  kind_of, has_mode, allows, need_attention, restore_pending, recover_loaded, recover_folder,
  recover_folders, recover_pending_transactions,
}
use nixos_control_manager.Transaction.Triple.{
  Triple, Triple-pure, Triple-raise, Triple-check, Triple-if, Triple-gets, Triple-modify,
  Triple-weaken, Triple-catch, Triple-finally, Triple-bind, Triple-then, Triple-given, Triple-pre,
}
use nixos_control_manager.Transaction.Focus.{
  Label, Labelled, IsManifest, Filed, OnDisk, Holding, sight, is_away_from_itself,
}
use nixos_control_manager.Transaction.Stays
use nixos_control_manager.Transaction.Fine.{Subject, Suits, Back, Fine, Now}
use nixos_control_manager.Transaction.RestoresAll.{restore_from_manifest-Back}
use nixos_control_manager.Transaction.Quiet.{
  Quiet, Looks-read_text, Looks-acquire_lock, Looks-release_lock,
}
use nixos_control_manager.Transaction.Recoverable.{
  Recoverable-Quiet, Settled-Quiet, Recoverable, untouched, filed, Settled, Recoverable-Fine,
  Settled-Back, finishing,
}

mode : (b : Bool) → has_mode (some b) b ≡ true
mode true = refl
mode false = refl

module _ (h : Host) (l : Label) (s : Subject)
    (own : is_away_from_itself h l.id s.entry ≡ true) where
  abbrev Rec : World → Type 0
  Rec = Recoverable h l s

  abbrev Set : World → Type 0
  Set = Settled h l s

  abbrev Finished : World → Type 0
  Finished = Holding h l s.entry true (Back s)

  module _ (u : Suits h s s.entry.action) where
    pub recoverable : (w : World) → Now h l s (Fine s) w → Rec w
    recoverable = Recoverable-Fine h l s u

    settled : (w : World) → Finished w → Set w
    settled = Settled-Back h l s u

    -- Once all is back, the final state is written.
    pub write_final-Settled :
        {P : World → Type 0} (m : Exec Unit) (t : String) {T : Type 0} (v : T)
        → Triple P (λ _. Now h l s (Back s)) Rec m
        → Triple P (λ _. Set) Rec (m >> set_state t >> atomic_json h l.id >> pure v)
    write_final-Settled m t v before =
        Triple-then Set _ _
          (Triple-then Finished _ _
            (Triple-then (Now h l s (Back s)) _ _ before (
              Triple-pre _ (finishing h l s u) (
                Triple-weaken _ (λ _ w p. p) (λ w p. (settled w p).1)
                  (Stays.Stays-set_state h l s.entry true (Back s) t (λ e. refl)))))
            (Triple-weaken _ (λ _. settled) (λ w p. (settled w p).1)
              (Stays.Stays-atomic_json h l s.entry true (Back s))))
          (Triple-pure v (λ w p. p))

    need_attention-Recoverable :
        (R : World → Type 0) (named : String) (e : Failure)
        → Triple (Now h l s (Fine s)) (λ _. R) Rec (need_attention h l.id named e)
    unfolding need_attention
    need_attention-Recoverable R named e =
        Triple-then (Now h l s (Fine s)) _ _
          (Triple-weaken _ (λ _ w p. p) recoverable
            (Stays.Stays-then h l s.entry false (Fine s) _ _
              (Stays.state-Held h l s.entry false (Fine s) _
                (λ m p. (false, ((p.1.0.0, p.1.0.1, refl), λ e. e))))
              (Stays.Stays-atomic_json h l s.entry false (Fine s))))
          (Triple-raise _ recoverable)

    pub restore-Back :
        (named : String)
        → Triple
            (Now h l s (Fine s))
            (λ _. Now h l s (Back s))
            Rec
            (catch (restore_from_manifest h l.id) (need_attention h l.id named))
    restore-Back named =
        Triple-catch _ _ (restore_from_manifest-Back h l s own u) recoverable
          (need_attention-Recoverable (Now h l s (Back s)) named)

    restore_pending-Settled :
        (fixture : Bool) (m : Manifest)
        → Triple (Now h l s (Fine s)) (λ _. Set) Rec (restore_pending h l.id fixture m)
    unfolding restore_pending
    restore_pending-Settled fixture m = write_final-Settled _ _ _ (
        Triple-then (Now h l s (Fine s)) _ _
          (Triple-weaken _ (λ _ w p. p) recoverable
            (Stays.Stays-then h l s.entry false (Fine s) _ _
              (Stays.Stays-set_state h l s.entry false (Fine s) _ (λ e. e))
              (Stays.Stays-atomic_json h l s.entry false (Fine s))))
          (restore-Back m.transaction_id))

  -- The manifest that was loaded, and what it says of the change.
  abbrev pub Loaded : Manifest → World → Type 0
  Loaded m w =
      Suits h s s.entry.action
      × ((c : Bool) × (IsManifest h l s.entry c m × (c ≡ true → Back s (sight l.id s.entry w))))
      × Fine s (sight l.id s.entry w)
      × (w.memory ≡ m)
      × (lookup l.id w.manifests ≡ some (stored m))

  pub Loaded-Recoverable : (m : Manifest) (w : World) → Loaded m w → Rec w
  Loaded-Recoverable m w p = filed p.0 m p.4 p.1.0 p.1.1.0 p.1.1.1 p.2

  Loaded-Settled : (m : Manifest) → is_finished m.state ≡ true → (w : World) → Loaded m w → Set w
  Loaded-Settled m e w p = (p.1.1.1 (sym p.1.1.0.2 ∙ e), Loaded-Recoverable m w p)

  pub Loaded-Now :
      (m : Manifest) → is_finished m.state ≡ false → (w : World) → Loaded m w → Now h l s (Fine s) w
  Loaded-Now m e w p =
      let unfinished : Filed h l s.entry false m = (p.1.0, (p.1.1.0, λ c. sym e ∙ p.1.1.0.2 ∙ c)) in
      (
        subst (Filed h l s.entry false) (sym p.3) unfinished,
        subst (OnDisk h l s.entry false) (sym p.4) unfinished,
        p.2,
      )

  absurd-not : (b : Bool) → b ≡ true → not b ≡ true → ⊥
  absurd-not b e n = let absurd : false ≡ true = ap not (sym e) ∙ n in cc

  module _ (kind : Option String) (fixture : Bool) (same_mode : fixture ≡ l.fixture)
      (same_kind : allows kind l.kind ≡ true) where
    is_own_root : (m : Manifest) → Labelled l m → (m.configuration_root == l.root) ≡ true
    is_own_root m p = (eq_iff m.configuration_root l.root).1 p.1

    has_own_mode : (m : Manifest) → Labelled l m → has_mode m.fixture_only fixture ≡ true
    has_own_mode m p =
        ap (λ x. has_mode x fixture) p.3 ∙ ap (has_mode (some l.fixture)) same_mode ∙ mode l.fixture

    has_own_kind : (m : Manifest) → Labelled l m → allows kind (kind_of m.transaction_kind) ≡ true
    has_own_kind m p = ap (λ x. allows kind (kind_of x)) p.2 ∙ same_kind

    recover_loaded-Settled :
        (is_named : Bool) (m : Manifest)
        → Triple (Loaded m) (λ _. Set) Rec (recover_loaded h l.root l.id is_named kind fixture m)
    unfolding recover_loaded
    recover_loaded-Settled is_named m =
        Triple-given _ (λ w p. p.1.1.0.1)
          λ labelled.
            Triple-if _ _ _ (λ e. elim (absurd-not _ (is_own_root m labelled) e) [ ])
              λ _.
                Triple-if _ _ _ (λ e. elim (absurd-not _ (has_own_mode m labelled) e) [ ])
                  λ _.
                    Triple-if _ _ _ (λ e. elim (absurd-not _ (has_own_kind m labelled) e) [ ])
                      λ _.
                        Triple-if _ _ _ (λ e. Triple-pure _ (Loaded-Settled m e))
                          λ e.
                            Triple-given _ (λ w p. p.0)
                              λ u.
                                Triple-pre _ (Loaded-Now m e) (restore_pending-Settled u fixture m)

    -- The manifest as it was read, before it is the running function's.
    abbrev Read : Manifest → World → Type 0
    Read m w =
        Suits h s s.entry.action
        × ((c : Bool) × (IsManifest h l s.entry c m × (c ≡ true → Back s (sight l.id s.entry w))))
        × Fine s (sight l.id s.entry w)
        × (lookup l.id w.manifests ≡ some (stored m))

    Read-Recoverable :
        (m : Manifest) (w : World) → Rec w → lookup l.id w.manifests ≡ some (stored m) → Read m w
    Read-Recoverable m w (untouched e b) f = cc
    Read-Recoverable m w (filed u n e c i k g) f =
        let same : n ≡ m = cc in (u, (c, (subst (λ x. IsManifest h l s.entry c x) same i, k)), g, f)

    loaded-Read :
        (o : Option Stored)
        → Triple (λ w. Rec w × (lookup l.id w.manifests ≡ o)) Read Rec (loaded h o)
    loaded-Read none = Triple-raise _ (λ w p. p.0)
    loaded-Read (some unreadable) = Triple-raise _ (λ w p. p.0)
    loaded-Read (some (stored m)) = Triple-pure m (λ w p. Read-Recoverable m w p.0 p.1)

    quiet : Quiet Rec
    quiet = Recoverable-Quiet h l s

    pub load_manifest-Loaded : Triple Rec Loaded Rec (load_manifest h l.id)
    unfolding load_manifest gets
    load_manifest-Loaded =
        Triple-bind {R = Read} _ _
          (Triple-bind {R = λ o w. Rec w × (lookup l.id w.manifests ≡ o)} _ _
            (Triple-then Rec _ _ (Looks-read_text h Rec Rec quiet quiet (λ w p. p))
              (record { at = λ w p. (p, refl) }))
            loaded-Read)
          λ m.
            Triple-then (Loaded m) _ _ (Triple-modify _ (λ w p. (p.0, p.1, p.2, refl, p.3)))
              (Triple-pure m (λ w p. p))

    not_there-Settled : (w : World) → Rec w → is_some (lookup l.id w.manifests) ≡ false → Set w
    not_there-Settled w (untouched e b) n = (b, untouched e b)
    not_there-Settled w (filed u m e c i k g) n =
        let absurd : true ≡ false = sym (ap is_some e) ∙ n in cc

    recover_folder-Settled :
        (is_named : Bool)
        → Triple Rec (λ _. Set) Rec (recover_folder h l.root is_named kind fixture l.id)
    unfolding recover_folder gets
    recover_folder-Settled is_named =
        Triple-bind {R = λ b w. Rec w × (is_some (lookup l.id w.manifests) ≡ b)} _ _
          (Triple-then Rec _ _ (Triple-check _ _ (λ w p. p) (λ _ w p. p))
            (record { at = λ w p. (p, refl) }))
          λ there.
            Triple-if _ _ _
              (λ _.
                Triple-pre _ (λ w p. p.0)
                  (Triple-bind {R = Loaded} _ _ load_manifest-Loaded
                    (recover_loaded-Settled is_named)))
              (λ e. Triple-pure _ (λ w p. not_there-Settled w p.0 (p.1 ∙ e)))

    recover_folders-Set :
        (ids : List String)
        → Triple Set (λ _. Set) Rec (recover_folders h l.root (some l.id) kind fixture ids)
    unfolding recover_folders
    recover_folders-Set [] = Triple-pure _ (λ w p. p)
    recover_folders-Set (id ∷ ids) =
        Triple-bind {R = λ _. Set} _ _
          (Triple-if _ _ _
            (λ e.
              subst (λ x. Triple Set (λ _. Set) Rec (recover_folder h l.root true kind fixture x))
                (sym ((eq_iff id l.id).0 e))
                (Triple-pre _ (λ w p. p.1) (recover_folder-Settled true)))
            (λ _. Triple-pure _ (λ w p. p)))
          λ r.
            Triple-bind {R = λ _. Set} _ _ (recover_folders-Set ids)
              λ rest. Triple-pure _ (λ w p. p)

    recover_folders-Settled :
        (ids : List String)
        → contains ids l.id ≡ true
        → Triple Rec (λ _. Set) Rec (recover_folders h l.root (some l.id) kind fixture ids)
    unfolding recover_folders
    recover_folders-Settled [] c = cc
    recover_folders-Settled (id ∷ ids) c = elim (Bool-cases (id == l.id)) [
      | inl e ↦
          Triple-bind {R = λ _. Set} _ _
            (Triple-if _ _ _
              (λ _.
                subst (λ x. Triple Rec (λ _. Set) Rec (recover_folder h l.root true kind fixture x))
                  (sym ((eq_iff id l.id).0 e)) (recover_folder-Settled true))
              (λ n. cc))
            λ r.
              Triple-bind {R = λ _. Set} _ _ (recover_folders-Set ids)
                λ rest. Triple-pure _ (λ w p. p)
      | inr n ↦
          Triple-bind {R = λ _. Rec} _ _ (Triple-if _ _ _ (λ e. cc) (λ _. Triple-pure _ (λ w p. p)))
            λ r.
              Triple-bind {R = λ _. Set} _ _ (recover_folders-Settled ids (ground (arith, n, c)))
                λ rest. Triple-pure _ (λ w p. p)
    ]

    -- The transaction is in the journal's directory.
    abbrev pub Listed : World → Type 0
    Listed w = Rec w × (contains (h.sorted w.folders) l.id ≡ true)

    Listed-Quiet : Quiet Listed
    Listed-Quiet = record { quiet = λ n b w p. (quiet.quiet n b w p.0, p.1) }

    pub recover-Settled :
        h.journal_exists ≡ true
        → Triple Listed
            (λ _. Set)
            Rec
            (recover_pending_transactions h l.root (some l.id) kind fixture)
    unfolding recover_pending_transactions
    recover-Settled there =
        Triple-then Listed _ _
          (Triple-then Listed _ _ (Triple-check _ _ (λ w p. p.0) (λ _ w p. p))
            (Triple-check _ _ (λ w p. p.0) (λ _ w p. p)))
          (Triple-if _ _ _
            (λ _.
              Triple-then Listed _ _
                (Looks-acquire_lock h Listed Rec Listed-Quiet quiet (λ w p. p.0))
                (Triple-finally {E = Rec} {R = λ _. Set} _ _
                  (Triple-gets _ _ λ ids.
                    Triple-given _ (λ w p. subst (λ x. contains x l.id ≡ true) p.1 p.0.1)
                      λ c. Triple-pre _ (λ w p. p.0.0) (recover_folders-Settled ids c))
                  (λ w p. p)
                  (λ _. Looks-release_lock h Set Rec (Settled-Quiet h l s) quiet (λ w p. p.1))
                  (Looks-release_lock h Rec Rec quiet quiet (λ w p. p))))
            (λ n. cc))
