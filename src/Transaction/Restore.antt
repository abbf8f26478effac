-- ===== src/Transaction/Restore.antt =====
-- `_restore_from_manifest` and `_cleanup_stages_and_directories` of transaction.py.
use nixos_control_manager.Prelude.{
  ℕ, suc, String, Bool, true, false, not, ◌&&◌, Option, none, some, List, [], ◌∷◌, ◌==◌, ◌<>◌,
}
use nixos_control_manager.Transaction.Errors.{
  Failure, unsafe_path, refused_overwrite, refused_remove, backup_failed,
}
use nixos_control_manager.Transaction.State.{
  Action, create, modify, other, Status, committed, rolled_back, Entry, Manifest, in_folder,
}
use nixos_control_manager.Transaction.Host.{Host}
use nixos_control_manager.Transaction.Exec.{
  Exec, pure, raise, require, ◌>>=◌, ◌>>◌, gets, perform, if◌then◌else◌,
}
use nixos_control_manager.Transaction.Disk.{
  unchanged, drop, is_file, safe_target, safe_backup, sync_directory, replace, atomic_json,
  target_digest, backup_digest, copy_from_backup, sync_file, unlink, remove_directory, mark,
}

-- `target_digest == entry["previousSha256"]`, either of which may be `None`
unfoldable pub same_digest : Option String → Option String → Bool
same_digest none none = true
same_digest (some d) (some e) = d == e
same_digest _ _ = false

abbrev pub is_committed : Status → Bool
is_committed committed = true
is_committed _ = false

-- In the folder `id` of the journal, for a manifest with the "transactionId" `named`.
module _ (h : Host) (id named : String) where
  -- `target.with_name(f".{target.name}.{manifest['transactionId']}.restore")`
  abbrev pub restore_path : String → String
  restore_path p = h.with_name p ("." <> h.name p <> "." <> named <> ".restore")

  -- A target whose content is neither digest: an error if it was committed, else left alone.
  unfoldable pub leave : Status → Failure → Exec (Unit {0})
  leave s e = require (not (is_committed s)) e

  -- `entry["status"] = "rolled-back"` and the write of the manifest
  unfoldable pub mark_restored : ℕ → Exec (Unit {0})
  mark_restored i = mark i rolled_back >> atomic_json h id

  -- The backup's check, its copy beside the target, and the replacement.
  unfoldable pub put_back : Entry → String → Exec (Unit {0})
  put_back e b = safe_backup h id b >> backup_digest h (in_folder id b) >>= λ d.
      require (same_digest d e.previous_sha256 && not (same_digest d none)) (backup_failed e.path)
      >> copy_from_backup h (in_folder id b) (restore_path e.path)
      >> sync_file h
      >> replace h (restore_path e.path) e.path
      >> sync_directory h

  -- `Path(None)` is a `TypeError`.
  unfoldable pub put_back_from : Entry → Option String → Exec (Unit {0})
  put_back_from e none = raise (unsafe_path "None")
  put_back_from e (some b) = put_back e b

  unfoldable pub restore_modified : ℕ → Entry → Option String → Exec (Unit {0})
  restore_modified i e d =
      if same_digest d e.previous_sha256
      then mark i rolled_back
      else if same_digest d (some e.candidate_sha256)
      then put_back_from e e.backup_path >> mark_restored i
      else leave e.status (refused_overwrite e.path)

  unfoldable pub restore_created : ℕ → Entry → Option String → Exec (Unit {0})
  restore_created i e d =
      if same_digest d none
      then mark i rolled_back
      else if same_digest d (some e.candidate_sha256)
      then unlink h e.path >> sync_directory h >> mark_restored i
      else leave e.status (refused_remove e.path)

  unfoldable pub restore_by : Action → ℕ → Entry → Option String → Exec (Unit {0})
  restore_by modify i e d = restore_modified i e d
  restore_by create i e d = restore_created i e d
  restore_by (other a) i e d = mark_restored i

  unfoldable pub restore_entry : ℕ → Entry → Exec (Unit {0})
  restore_entry i e =
      safe_target h e.path >> target_digest h e.path >>= λ d. restore_by e.action i e d

  -- `for entry in reversed(manifest["changes"])`
  unfoldable pub restore_entries : ℕ → List Entry → Exec (Unit {0})
  restore_entries i [] = pure tt
  restore_entries i (e ∷ es) = restore_entries (suc i) es >> restore_entry i e

module _ (h : Host) where
  unfoldable pub unlink_stage : String → Exec (Unit {0})
  unlink_stage p = gets (is_file p) >>= λ there.
      if there then perform h unchanged (drop p) else perform h unchanged unchanged

  unfoldable pub unlink_stages : List Entry → Exec (Unit {0})
  unlink_stages [] = pure tt
  unlink_stages (e ∷ es) =
      safe_target h e.staged_path >> unlink_stage e.staged_path >> unlink_stages es

  -- `for relative in reversed(manifest["createdDirectories"])`
  unfoldable pub remove_directories : List String → Exec (Unit {0})
  remove_directories [] = pure tt
  remove_directories (d ∷ ds) = remove_directories ds >> remove_directory h d

  unfoldable pub cleanup : Manifest → Exec (Unit {0})
  cleanup m = unlink_stages m.changes >> remove_directories m.created_directories

  -- The statuses that the loop reads are those of its start, since it sets each after it.
  unfoldable pub restore_from_manifest : String → Exec (Unit {0})
  restore_from_manifest id =
      gets (λ w. w.memory) >>= λ m. restore_entries h id m.transaction_id 0 m.changes >> cleanup m
