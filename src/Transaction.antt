-- ===== src/Transaction.antt =====
-- The transaction engine, transaction.py: prepare, commit, verify, roll back, recover.
pub mod Errors
pub mod State
pub mod Exec
pub mod Host
pub mod Disk
pub mod Restore
pub mod Apply
pub mod Recover
pub mod Triple
pub mod Focus
pub mod Stays
pub mod Fine
pub mod Undo
pub mod Undone
pub mod Restores
pub mod RestoresAll
pub mod Recoverable
pub mod Recovers
pub mod Quiet
pub mod Verifies
pub mod PreparesOthers
pub mod Prepares
pub mod Commits
pub mod Separate
pub mod Applies
pub mod Applied
pub mod RollsBack
pub mod Sound
pub mod Installed
pub mod Verified
pub mod Finalizes
pub mod Roots
pub mod LiveRoots
pub mod Workflows
pub mod Entries
pub mod Passed
pub mod Permitted
pub mod Refuses
