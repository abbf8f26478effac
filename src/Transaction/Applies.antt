-- ===== src/Transaction/Applies.antt =====
-- `_apply_validated_changes` of transaction.py, for one planned change, whatever call of the system fails
-- or ends the process.
use nixos_control_manager.Prelude.{
  suc, Bool, true, false, ◌≡◌, refl, sym, subst, ◌⊎◌, inl, inr, none,
}
use nixos_control_manager.Prelude.Dict.{lookup}
use nixos_control_manager.Transaction.Errors.{Failure}
use nixos_control_manager.Transaction.State.{stored, World}
use nixos_control_manager.Transaction.Host.{Host, tick}
use nixos_control_manager.Transaction.Exec.{catch, ◌>>◌}
use nixos_control_manager.Transaction.Disk.{
  atomic_json, write_temporary, remove_temporary, save, set_state,
}
use nixos_control_manager.Transaction.Restore.{restore_from_manifest}
use nixos_control_manager.Transaction.Apply.{TransactionResult, give_up, undo, on_failure}
use nixos_control_manager.Transaction.Triple.{
  Post, Triple, Triple-raise, Triple-if, Triple-check, Triple-look, Triple-perform, Triple-weaken,
  Triple-catch, Triple-finally, Triple-then, Triple-pre,
}
use nixos_control_manager.Transaction.Focus.{
  Label, Filed, OnDisk, Holding, Sight, sight, is_away_from_itself,
}
use nixos_control_manager.Transaction.Stays
use nixos_control_manager.Transaction.Fine.{Subject, Suits, Back, Fine, Now}
use nixos_control_manager.Transaction.RestoresAll.{restore_from_manifest-Back}
use nixos_control_manager.Transaction.Recoverable.{
  Recoverable, untouched, Recoverable-Fine, Settled-Back, finishing, temporaries-Recoverable,
}

module _ (h : Host) (l : Label) (s : Subject) where
  abbrev pub Rec : World → Type 0
  Rec = Recoverable h l s

  -- Before the first manifest is written.
  abbrev pub Start : World → Type 0
  Start w = Back s (sight l.id s.entry w) × (lookup l.id w.manifests ≡ none)

  pub Start-Rec : (w : World) → Start w → Rec w
  Start-Rec w p = untouched p.1 p.0

  -- The manifest in memory has all its entries.
  abbrev pub Begun : World → Type 0
  Begun w = Start w × Filed h l s.entry false w.memory

  module _ (u : Suits h s s.entry.action) where
    first_save : (w : World) → Begun w → Now h l s (Back s) (save h l.id w)
    first_save w p = (
      p.1,
      subst (OnDisk h l s.entry false)
          (sym (Stays.lookup-insert_same l.id (stored w.memory) w.manifests)) p.1,
      p.0.0,
    )

    now_Rec : (w : World) → Now h l s (Back s) w → Rec w
    now_Rec w p = Recoverable-Fine h l s u w (p.0, p.1, inl p.2)

    write_temporary-Begun : Triple Begun (λ _. Begun) Rec (write_temporary h l.id)
    unfolding write_temporary
    write_temporary-Begun = Triple-look _ _ λ there.
        Triple-then Begun _ _ (Triple-check _ _ (λ w p. Start-Rec w p.0) (λ _ w p. p)) (
          Triple-perform h _ _ (λ w p. untouched p.0.1 p.0.0) (λ w p. untouched p.0.1 p.0.0)
            (λ w p. untouched p.0.1 p.0.0) (λ w p. p))

    remove_temporary-Rec : Triple Rec (λ _. Rec) Rec (remove_temporary h l.id)
    unfolding remove_temporary
    remove_temporary-Rec = Triple-look _ _ λ there.
        Triple-perform h _ _ (λ w p. temporaries-Recoverable h l s (suc w.clock) w.temporaries w p)
          (λ w p. temporaries-Recoverable h l s (suc w.clock) w.temporaries w p)
          (λ w p. temporaries-Recoverable h l s (suc w.clock) _ w p)
          (λ w p. temporaries-Recoverable h l s (suc w.clock) _ w p)

    -- The first write of the manifest.
    pub first_write : Triple Begun (λ _. Now h l s (Back s)) Rec (atomic_json h l.id)
    unfolding atomic_json
    first_write =
        Triple-finally {E = Rec} {R = λ _. Now h l s (Back s)} _ _
          (Triple-then (Now h l s (Back s)) _ _
            (Triple-then Begun _ _ write_temporary-Begun (
              Triple-perform h _ _ (λ w p. untouched p.0.1 p.0.0) (λ w p. untouched p.0.1 p.0.0)
                (λ w p. now_Rec (save h l.id (tick w)) (first_save (tick w) p))
                (λ w p. first_save (tick w) p)))
            (Triple-weaken _ (λ _ w p. p) now_Rec
              (Stays.Stays-sync_directory h l s.entry false (Back s))))
          (λ w p. p)
          (λ _.
            Triple-weaken _ (λ _ w p. p) now_Rec
              (Stays.Stays-remove_temporary h l s.entry false (Back s) l.id))
          remove_temporary-Rec

    -- Writing "recovery-required" and raising, from wherever it is still recoverable.
    give_up-Rec :
        (b : Bool) (K : Sight → Type 0) (e : Failure) (R : World → Type 0)
        → ((w : World) → Holding h l s.entry b K w → Rec w)
        → Triple (Holding h l s.entry b K) (λ _. R) Rec (give_up h l.id e)
    unfolding give_up
    give_up-Rec b K e R k =
        Triple-then (Holding h l s.entry b K) _ _
          (Triple-weaken _ (λ _ w p. p) k
            (Stays.Stays-then h l s.entry b K _ _
              (Stays.state-Held h l s.entry b K _
                (λ m p. (false, ((p.1.0.0, p.1.0.1, refl), λ c. cc))))
              (Stays.Stays-atomic_json h l s.entry b K)))
          (Triple-raise _ k)

    abbrev Finished : World → Type 0
    Finished = Holding h l s.entry true (Back s)

    abbrev Midway : World → Type 0
    Midway w = Now h l s (Fine s) w ⊎ Finished w

    pub Fine-Rec : (w : World) → Now h l s (Fine s) w → Rec w
    Fine-Rec = Recoverable-Fine h l s u

    Finished-Rec : (w : World) → Finished w → Rec w
    Finished-Rec w p = (Settled-Back h l s u w p).1

    Midway-Rec : (w : World) → Midway w → Rec w
    Midway-Rec w (inl p) = Fine-Rec w p
    Midway-Rec w (inr p) = Finished-Rec w p

    give_up-at : (e : Failure) (w : World) → Midway w → Post (λ _. Rec) Rec (give_up h l.id e w)
    give_up-at e w (inl p) = (give_up-Rec false (Fine s) e Rec Fine-Rec).at w p
    give_up-at e w (inr p) = (give_up-Rec true (Back s) e Rec Finished-Rec).at w p

    restore-Rec :
        (own : is_away_from_itself h l.id s.entry ≡ true)
        → Triple
            (Now h l s (Fine s))
            (λ _. Rec)
            Rec
            (catch
              (restore_from_manifest h l.id >> set_state "rolled-back" >> atomic_json h l.id)
              (give_up h l.id))
    restore-Rec own =
        Triple-catch {E = Midway} {R = λ _. Rec} _ _
          (Triple-then Finished _ _
            (Triple-then (Now h l s (Back s)) _ _
              (Triple-weaken _ (λ _ w p. p) (λ w. inl) (restore_from_manifest-Back h l s own u))
              (Triple-pre _ (finishing h l s u) (
                Triple-weaken _ (λ _ w p. p) (λ w. inr)
                  (Stays.Stays-set_state h l s.entry true (Back s) _ (λ e. refl)))))
            (Triple-weaken _ (λ _. Finished-Rec) (λ w. inr)
              (Stays.Stays-atomic_json h l s.entry true (Back s))))
          Midway-Rec (λ e. record { at = give_up-at e })

    pub on_failure-Rec :
        (own : is_away_from_itself h l.id s.entry ≡ true) (R : TransactionResult → World → Type 0)
        (e : Failure)
        → Triple (Now h l s (Fine s)) R Rec (on_failure h l.id e)
    unfolding on_failure undo
    on_failure-Rec own R e =
        Triple-if _ _ _ (λ _. Triple-raise _ Fine-Rec)
          λ _.
            Triple-then Rec _ _
              (Triple-then (Now h l s (Fine s)) _ _
                (Triple-weaken _ (λ _ w p. p) Fine-Rec
                  (Stays.Stays-then h l s.entry false (Fine s) _ _
                    (Stays.state-Held h l s.entry false (Fine s) _
                      (λ m p. (false, ((p.1.0.0, p.1.0.1, refl), λ c. cc))))
                    (Stays.Stays-atomic_json h l s.entry false (Fine s))))
                (restore-Rec own))
              (Triple-raise _ (λ w p. p))
