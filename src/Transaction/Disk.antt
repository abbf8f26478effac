-- ===== src/Transaction/Disk.antt =====
-- The calls of the system and the helpers of transaction.py: safe paths, the manifest's atomic
-- write, the lock, stages, backups and directories.
use nixos_control_manager.Prelude.{
  ℕ, String, Bool, true, false, not, ◌&&◌, ◌||◌, Option, none, some, List, [], ◌∷◌, ◌++◌, ◌==◌,
  ◌<>◌, contains, all, is_some, if◌then◌else◌,
}
use nixos_control_manager.Prelude.Dict.{Dict, lookup, insert, erase}
use nixos_control_manager.Transaction.Errors.{
  os_error, unsafe_path, crosses_link, lock_held, journal_link, unreadable_journal, parent_link,
}
use nixos_control_manager.Transaction.State.{
  Content, File, Status, Manifest, Stored, unreadable, stored, World, content_of, in_folder,
  set_status,
}
use nixos_control_manager.Transaction.Host.{Host}
use nixos_control_manager.Transaction.Exec.{
  Exec, pure, raise, require, ◌>>=◌, ◌>>◌, catch, finally, modify_state, gets, perform,
}

abbrev pub unchanged : World → World
unchanged w = w

abbrev pub put : String → File → World → World
put p f w = record w { files = insert p f w.files }

abbrev pub drop : String → World → World
drop p w = record w { files = erase p w.files }

abbrev pub moved : String → String → Option File → World → World
moved source target none w = w
moved source target (some f) w = record w { files = insert target f (erase source w.files) }

abbrev pub put_backup : String → Content → World → World
put_backup k c w = record w { backups = insert k c w.backups }

abbrev pub set_memory : (Manifest → Manifest) → World → World
set_memory f w = record w { memory = f w.memory }

-- `path.is_file()` and `path.exists()`
abbrev pub is_file : String → World → Bool
is_file p w = is_some (lookup p w.files)

abbrev pub exists : String → World → Bool
exists p w = is_file p w || contains w.directories p

abbrev pub without : String → List String → List String
without p [] = []
without p (q ∷ qs) = if q == p then without p qs else q ∷ without p qs

-- `current = current / part; if current.is_symlink()`, for every part
unfoldable pub crosses : (String → Bool) → String → List String → Bool
crosses is_link above [] = false
crosses is_link above (p ∷ ps) = is_link (above <> p) || crosses is_link (above <> p <> "/") ps

abbrev is_plain_part : String → Bool
is_plain_part p = not (p == "" || p == "." || p == "..")

abbrev pub is_empty {ℓ} : {T : Type ℓ} → List T → Bool
is_empty [] = true
is_empty _ = false

-- The mode of a file, if it is there.
abbrev pub mode_of : Option File → Option ℕ
mode_of none = none
mode_of (some f) = some f.mode

abbrev pub or_else : Option ℕ → ℕ → ℕ
or_else none m = m
or_else (some n) m = n

module _ (h : Host) where
  unfoldable pub safe_label : String → Bool
  safe_label label =
      not (h.is_absolute label)
      && not (is_empty (h.parts label))
      && all is_plain_part (h.parts label)

  -- `_safe_target`, below the configuration's root and below a folder of the journal
  unfoldable pub safe_target : String → Exec (Unit {0})
  safe_target label =
      require (safe_label label) (unsafe_path label)
      >> require (not (crosses h.is_link "" (h.parts label))) (crosses_link label)

  unfoldable pub safe_backup : String → String → Exec (Unit {0})
  safe_backup id label =
      require (safe_label label) (unsafe_path label)
      >> require (not (crosses h.is_journal_link (in_folder id "") (h.parts label)))
          (crosses_link label)

  -- `_fsync_directory`, which swallows every error
  unfoldable pub sync_directory : Exec (Unit {0})
  sync_directory = catch (perform h unchanged unchanged) (λ _. pure tt)

  -- `os.replace(source, target)`
  unfoldable pub replace : String → String → Exec (Unit {0})
  replace source target = gets (is_file source) >>= λ there.
      require there os_error
      >> perform h unchanged (λ w. moved source target (lookup source w.files) w)

  -- The three calls of `_atomic_json`: the temporary file, its move, and the `finally`.
  unfoldable pub write_temporary : String → Exec (Unit {0})
  write_temporary id = gets (λ w. contains w.temporaries id) >>= λ there.
      require (not there) os_error
      >> perform h (λ w. record w { temporaries = id ∷ w.temporaries })
          (λ w. record w { temporaries = id ∷ w.temporaries })

  abbrev pub save : String → World → World
  save id w = record w {
    manifests = insert id (stored w.memory) w.manifests;
    temporaries = without id w.temporaries;
  }

  unfoldable pub remove_temporary : String → Exec (Unit {0})
  remove_temporary id = gets (λ w. contains w.temporaries id) >>= λ there.
      perform h unchanged (λ w. record w { temporaries = without id w.temporaries })

  -- `_atomic_json(transaction_dir / "manifest.json", manifest)`
  unfoldable pub atomic_json : String → Exec (Unit {0})
  atomic_json id =
      finally (write_temporary id >> perform h unchanged (save id) >> sync_directory)
        (remove_temporary id)

  abbrev pub loaded : Option Stored → Exec Manifest
  loaded none = raise unreadable_journal
  loaded (some unreadable) = raise unreadable_journal
  loaded (some (stored m)) = pure m

  -- `path.read_text`, whose errors become the one that names the journal
  unfoldable pub read_text : Exec (Unit {0})
  read_text = catch (perform h unchanged unchanged) (λ _. raise unreadable_journal)

  -- `manifest = _load_manifest(path)`
  unfoldable pub load_manifest : String → Exec Manifest
  load_manifest id = read_text >> gets (λ w. lookup id w.manifests) >>= loaded >>= λ m.
      modify_state (set_memory (λ _. m)) >> pure m

  -- `_acquire_lock` and `_release_lock`
  unfoldable pub acquire_lock : Exec (Unit {0})
  acquire_lock =
      perform h unchanged unchanged
      >> require (not h.journal_is_link) journal_link
      >> perform h unchanged unchanged
      >> catch (perform h unchanged (λ w. record w { is_locked = true })) (λ _. raise lock_held)

  unfoldable pub release_lock : Exec (Unit {0})
  release_lock =
      finally (perform h unchanged unchanged) (modify_state (λ w. record w { is_locked = false }))

  -- `_digest_bytes(path.read_bytes()) if path.is_file() else None`
  unfoldable pub digest_of : Option Content → Option String
  digest_of none = none
  digest_of (some c) = some (h.digest c)

  unfoldable pub target_digest : String → Exec (Option String)
  target_digest p =
      perform h unchanged unchanged >> gets (λ w. digest_of (content_of (lookup p w.files)))

  unfoldable pub backup_digest : String → Exec (Option String)
  backup_digest k = perform h unchanged unchanged >> gets (λ w. digest_of (lookup k w.backups))

  abbrev pub halves_of : (Content → World → World) → Option Content → Exec (Unit {0})
  halves_of write none = raise os_error
  halves_of write (some c) = perform h (write (h.torn c)) (write c)

  -- `shutil.copyfile(target, backup)`
  unfoldable pub copy_to_backup : String → String → Exec (Unit {0})
  copy_to_backup p k = gets (λ w. content_of (lookup p w.files)) >>= halves_of (put_backup k)

  -- `shutil.copyfile(backup, restore)`: a file that is there keeps its mode.
  abbrev pub overwrite : String → Content → World → World
  overwrite p c w =
      put p (record { content = c; mode = or_else (mode_of (lookup p w.files)) h.new_mode }) w

  unfoldable pub copy_from_backup : String → String → Exec (Unit {0})
  copy_from_backup k p = gets (λ w. lookup k w.backups) >>= halves_of (overwrite p)

  -- `_fsync_file`
  unfoldable pub sync_file : Exec (Unit {0})
  sync_file = perform h unchanged unchanged

  -- `_write_stage`, its file and its mode
  unfoldable pub write_stage : String → Content → ℕ → Exec (Unit {0})
  write_stage p c mode = gets (exists p) >>= λ there.
      require (not there) os_error
      >> perform h (overwrite p (h.torn c)) (overwrite p c)
      >> perform h unchanged (put p (record { content = c; mode = mode }))

  -- `path.unlink()`
  unfoldable pub unlink : String → Exec (Unit {0})
  unlink p = gets (is_file p) >>= λ there. require there os_error >> perform h unchanged (drop p)

  -- `target.stat().st_mode & 0o777`
  abbrev pub known_mode : Option ℕ → Exec ℕ
  known_mode none = raise os_error
  known_mode (some m) = pure m

  unfoldable pub stat_mode : String → Exec ℕ
  stat_mode p =
      perform h unchanged unchanged >> gets (λ w. mode_of (lookup p w.files)) >>= known_mode

  -- `_create_parents`
  abbrev pub missing : World → List String → List String
  missing w [] = []
  missing w (d ∷ ds) = let rest = missing w ds in if exists d w then [] else d ∷ rest

  abbrev pub stops_at_link : World → List String → Bool
  stops_at_link w [] = false
  stops_at_link w (d ∷ ds) =
      let rest = stops_at_link w ds in if exists d w then h.is_link d else rest

  -- `mkdir` and `chmod`, from the last one on
  unfoldable pub make_directories : List String → Exec (List String)
  make_directories [] = pure []
  make_directories (d ∷ ds) = make_directories ds >>= λ created.
      perform h unchanged (λ w. record w { directories = d ∷ w.directories })
      >> perform h unchanged unchanged
      >> pure (created ++ (d ∷ []))

  unfoldable pub create_parents : String → Exec (List String)
  create_parents p = gets (λ w. stops_at_link w (h.above p)) >>= λ at_link.
      require (not at_link) (parent_link p)
      >> gets (λ w. missing w (h.above p))
      >>= make_directories

  -- `path.rmdir()`, its errors swallowed; a directory that is not empty stays.
  abbrev holds_none : String → List String → Bool
  holds_none d ps = all (λ p. not (h.is_below d p)) ps

  abbrev labels : Dict File → List String
  labels [] = []
  labels ((p, f) ∷ ps) = p ∷ labels ps

  abbrev pub without_empty : String → World → World
  without_empty d w =
      if holds_none d (labels w.files) && holds_none d w.directories
      then record w { directories = without d w.directories }
      else w

  unfoldable pub remove_directory : String → Exec (Unit {0})
  remove_directory d = catch (perform h unchanged (without_empty d)) (λ _. pure tt)

-- `entry["status"] = …`
unfoldable pub mark : ℕ → Status → Exec (Unit {0})
mark i s = modify_state (set_memory (λ m. record m { changes = set_status i s m.changes }))

-- `manifest["state"] = …`
unfoldable pub set_state : String → Exec (Unit {0})
set_state s = modify_state (set_memory (λ m. record m { state = s }))
