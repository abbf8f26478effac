-- ===== src/Transaction/Stays.antt =====
-- The steps of transaction.py that leave one change of a transaction as it is.
use nixos_control_manager.Prelude.{
  ℕ, String, Bool, true, false, ◌≡◌, refl, sym, subst, Option, none, some, List, [], ◌∷◌, contains,
  arith, eq_refl, if◌then◌else◌,
}
use nixos_control_manager.Prelude.Dict.{Dict, lookup, insert, lookup-insert}
use nixos_control_manager.Transaction.Errors.{Failure, os_error}
use nixos_control_manager.Transaction.State.{
  Content, File, Status, Entry, Manifest, stored, World, is_finished,
}
use nixos_control_manager.Transaction.Host.{Host}
use nixos_control_manager.Transaction.Exec.{Exec, require, ◌>>◌, modify_state, gets, perform}
use nixos_control_manager.Transaction.Disk.{
  unchanged, put, drop, moved, put_backup, set_memory, mode_of, or_else, safe_target, safe_backup,
  sync_directory, replace, write_temporary, save, remove_temporary, atomic_json, release_lock,
  target_digest, backup_digest, halves_of, copy_to_backup, overwrite, copy_from_backup, sync_file,
  write_stage, unlink, known_mode, stat_mode, make_directories, create_parents, remove_directory,
  mark, set_state,
}
use nixos_control_manager.Transaction.Triple.{
  Triple, Triple-pure, Triple-raise, Triple-check, Triple-look, Triple-modify, Triple-perform,
  Triple-catch, Triple-finally, Triple-bind, Triple-then,
}
use nixos_control_manager.Transaction.Focus.{
  Sight, Label, Filed, Holding, OnDisk, sight, watched, sight-put, sight-drop, Spotted-set_status,
}

pub lookup-insert_same :
    {V : Type 0} (k : String) (v : V) (d : Dict V) → lookup k (insert k v d) ≡ some v
lookup-insert_same k v d = ground (arith, lookup-insert k k v d, eq_refl k)

module _ (h : Host) (l : Label) (f : Entry) (b : Bool) (K : Sight → Type 0) where
  abbrev Held : World → Type 0
  Held = Holding h l f b K

  abbrev pub Stays : {T : Type 0} → Exec T → Type 0
  Stays m = Triple Held (λ _. Held) Held m

  same : (w : World) → Held w → Held w
  same w s = s

  pub Stays-then : {T U : Type 0} (m : Exec T) (n : Exec U) → Stays m → Stays n → Stays (m >> n)
  Stays-then m n hm hn = Triple-then Held m n hm hn

  pub Stays-perform :
      (half full : World → World)
      → ((w : World) → Held w → Held (half w))
      → ((w : World) → Held w → Held (full w))
      → Stays (perform h half full)
  Stays-perform half full a c =
      Triple-perform h half full same (λ w s. a _ s) (λ w s. c _ s) (λ w s. c _ s)

  pub Stays-unchanged : Stays (perform h unchanged unchanged)
  Stays-unchanged = Stays-perform unchanged unchanged same same

  pub Stays-require : (t : Bool) (e : Failure) → Stays (require t e)
  Stays-require t e = Triple-check t e same (λ _. same)

  pub Stays-safe_target : (p : String) → Stays (safe_target h p)
  unfolding safe_target
  Stays-safe_target p = Stays-then _ _ (Stays-require _ _) (Stays-require _ _)

  pub Stays-safe_backup : (id p : String) → Stays (safe_backup h id p)
  unfolding safe_backup
  Stays-safe_backup id p = Stays-then _ _ (Stays-require _ _) (Stays-require _ _)

  pub Stays-sync_directory : Stays (sync_directory h)
  unfolding sync_directory
  Stays-sync_directory = Triple-catch _ _ Stays-unchanged same (λ _. Triple-pure tt same)

  pub put-Held :
      (p : String) (x : File) (w : World)
      → contains (watched f) p ≡ false
      → Held w
      → Held (put p x w)
  put-Held p x w n s = (s.0, s.1, subst K (sym (sight-put l.id f p x w n)) s.2)

  pub overwrite-Held :
      (p : String) (c : Content) (w : World)
      → contains (watched f) p ≡ false
      → Held w
      → Held (overwrite h p c w)
  overwrite-Held p c w n s =
      put-Held p (record { content = c; mode = or_else (mode_of (lookup p w.files)) h.new_mode }) w
        n s

  pub drop-Held :
      (p : String) (w : World) → contains (watched f) p ≡ false → Held w → Held (drop p w)
  drop-Held p w n s = (s.0, s.1, subst K (sym (sight-drop l.id f p w n)) s.2)

  moved-Held :
      (p q : String) (x : Option File) (w : World)
      → contains (watched f) p ≡ false
      → contains (watched f) q ≡ false
      → Held w
      → Held (moved p q x w)
  moved-Held p q none w n m s = s
  moved-Held p q (some x) w n m s = put-Held q x (drop p w) m (drop-Held p w n s)

  pub Stays-replace :
      (p q : String)
      → contains (watched f) p ≡ false
      → contains (watched f) q ≡ false
      → Stays (replace h p q)
  unfolding replace
  Stays-replace p q n m = Triple-look _ _ λ there.
      Stays-then _ _ (Stays-require there os_error)
        (Stays-perform _ _ same (λ w s. moved-Held p q (lookup p w.files) w n m s))

  pub save-Held : (w : World) → Held w → Held (save h l.id w)
  save-Held w s = (
    s.0,
    subst (OnDisk h l f b) (sym (lookup-insert_same l.id (stored w.memory) w.manifests)) s.0,
    s.2,
  )

  pub Stays-remove_temporary : (id : String) → Stays (remove_temporary h id)
  unfolding remove_temporary
  Stays-remove_temporary id = Triple-look _ _ λ there. Stays-perform _ _ same same

  pub Stays-write_temporary : (id : String) → Stays (write_temporary h id)
  unfolding write_temporary
  Stays-write_temporary id =
      Triple-look _ _ λ there. Stays-then _ _ (Stays-require _ _) (Stays-perform _ _ same same)

  pub Stays-atomic_json : Stays (atomic_json h l.id)
  unfolding atomic_json
  Stays-atomic_json =
      Triple-finally _ _
        (Stays-then _ _
          (Stays-then _ _ (Stays-write_temporary l.id) (Stays-perform _ _ same save-Held))
          Stays-sync_directory)
        same (λ _. Stays-remove_temporary l.id) (Stays-remove_temporary l.id)

  pub Stays-release_lock : Stays (release_lock h)
  unfolding release_lock
  Stays-release_lock =
      Triple-finally _ _ Stays-unchanged same (λ _. Triple-modify _ same) (Triple-modify _ same)

  pub Stays-target_digest : (p : String) → Stays (target_digest h p)
  unfolding target_digest gets
  Stays-target_digest p = Stays-then _ _ Stays-unchanged (record { at = same })

  pub Stays-backup_digest : (p : String) → Stays (backup_digest h p)
  unfolding backup_digest gets
  Stays-backup_digest p = Stays-then _ _ Stays-unchanged (record { at = same })

  pub Stays-sync_file : Stays (sync_file h)
  unfolding sync_file
  Stays-sync_file = Stays-unchanged

  Stays-halves_of :
      (write : Content → World → World) (c : Option Content)
      → ((x : Content) (w : World) → Held w → Held (write x w))
      → Stays (halves_of h write c)
  Stays-halves_of write none k = Triple-raise _ same
  Stays-halves_of write (some c) k = Stays-perform _ _ (k (h.torn c)) (k c)

  pub Stays-copy_to_backup :
      (p k : String)
      → ((x : Content) (w : World) → sight l.id f (put_backup k x w) ≡ sight l.id f w)
      → Stays (copy_to_backup h p k)
  unfolding copy_to_backup
  Stays-copy_to_backup p k n =
      Triple-look _ _
        λ c. Stays-halves_of (put_backup k) c (λ x w s. (s.0, s.1, subst K (sym (n x w)) s.2))

  pub Stays-copy_from_backup :
      (k p : String) → contains (watched f) p ≡ false → Stays (copy_from_backup h k p)
  unfolding copy_from_backup
  Stays-copy_from_backup k p n =
      Triple-look _ _ λ c. Stays-halves_of (overwrite h p) c (λ x w s. overwrite-Held p x w n s)

  pub Stays-write_stage :
      (p : String) (c : Content) (mode : ℕ)
      → contains (watched f) p ≡ false
      → Stays (write_stage h p c mode)
  unfolding write_stage
  Stays-write_stage p c mode n = Triple-look _ _ λ there.
      Stays-then _ _
        (Stays-then _ _ (Stays-require _ _) (
          Stays-perform _ _ (λ w s. overwrite-Held p (h.torn c) w n s)
            (λ w s. overwrite-Held p c w n s)))
        (Stays-perform _ _ same (λ w s. put-Held p (record { content = c; mode = mode }) w n s))

  pub Stays-unlink : (p : String) → contains (watched f) p ≡ false → Stays (unlink h p)
  unfolding unlink
  Stays-unlink p n = Triple-look _ _ λ there.
      Stays-then _ _ (Stays-require _ _) (Stays-perform _ _ same (λ w s. drop-Held p w n s))

  Stays-known_mode : (m : Option ℕ) → Stays (known_mode h m)
  Stays-known_mode none = Triple-raise _ same
  Stays-known_mode (some m) = Triple-pure m same

  pub Stays-stat_mode : (p : String) → Stays (stat_mode h p)
  unfolding stat_mode gets
  Stays-stat_mode p =
      Triple-bind {R = λ _. Held} _ _ (Stays-then _ _ Stays-unchanged (record { at = same }))
        Stays-known_mode

  Stays-make_directories : (ds : List String) → Stays (make_directories h ds)
  unfolding make_directories
  Stays-make_directories [] = Triple-pure [] same
  Stays-make_directories (d ∷ ds) =
      Triple-bind {R = λ _. Held} _ _ (Stays-make_directories ds) λ created.
        Stays-then _ _ (Stays-then _ _ (Stays-perform _ _ same same) Stays-unchanged)
          (Triple-pure _ same)

  pub Stays-create_parents : (p : String) → Stays (create_parents h p)
  unfolding create_parents gets
  Stays-create_parents p = Triple-look _ _ λ at_link.
      Triple-bind {R = λ _. Held} _ _ (Stays-then _ _ (Stays-require _ _) (record { at = same }))
        Stays-make_directories

  either-Held : (t : Bool) (v w : World) → Held v → Held w → Held (if t then v else w)
  either-Held true v w a c = a
  either-Held false v w a c = c

  pub Stays-remove_directory : (d : String) → Stays (remove_directory h d)
  unfolding remove_directory
  Stays-remove_directory d =
      Triple-catch _ _ (Stays-perform _ _ same (λ w s. either-Held _ _ _ s s)) same
        (λ _. Triple-pure tt same)

  pub Stays-mark : (i : ℕ) (s : Status) → Stays (mark i s)
  unfolding mark
  Stays-mark i s = Triple-modify _ (λ w p. (
    (
      p.0.0,
      ((Spotted-set_status h l.id f i s w.memory.changes p.0.1.0.0, p.0.1.0.1, p.0.1.0.2), p.0.1.1),
    ),
    p.1,
    p.2,
  ))

  -- A new state, which may be a final one only if that is allowed.
  pub state-Held :
      (g : Manifest → Manifest)
      → ((m : Manifest) → Filed h l f b m → Filed h l f b (g m))
      → Stays (modify_state (set_memory g))
  state-Held g k = Triple-modify _ (λ w p. (k w.memory p.0, p.1, p.2))

  pub Stays-set_state : (t : String) → (is_finished t ≡ true → b ≡ true) → Stays (set_state t)
  unfolding set_state
  Stays-set_state t k = state-Held _ (λ m p. (is_finished t, ((p.1.0.0, p.1.0.1, refl), k)))
