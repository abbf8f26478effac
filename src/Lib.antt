-- ===== src/Lib.antt =====
-- Nix Control Manager: the privileged helper and its transactions.
--
-- A client sends JSON requests to a helper that runs as root. The helper parses each request,
-- finds the configured target, asks a backend to validate a plan, hands out a receipt for it, and
-- redeems the receipt after Polkit has granted the peer the action. Tests of a new system, their
-- recovery, their commit and their rollback go through a journal of sessions. Plans are written to
-- the configuration by transactions, whose journal lets a later process undo them.
--
-- The files, and what they model (paths from the repository's root, under src/nix_control_manager):
--   Prelude, Prelude/*: tests on numbers and texts, lists, and dictionaries as association lists.
--   Json: what json.loads gives; a number with a fraction part that is not zero is kept as text.
--   Format, Format/Labels: the patterns of helper_protocol.py, and its pathlib test of a path.
--   Protocol, Protocol/Candidate, Plans, Receipts: helper_protocol.py, one parser for each
--     from_mapping; Errors has HelperProtocolError, HelperBackendError and all other exceptions as
--     `crash`. Sound and RoundTrip have the theorems.
--   Helper/Target: HelperTarget of helper_service.py and its __post_init__; Target/Safe has the
--     theorem on it.
--   Helper/State: the attributes of HelperDispatcher, and what it asks of its collaborators, in a
--     log of events; Response, Steps, Plans, HomeManager, Managed, FlakeLock, Activation, Prune,
--     Capabilities and Handle have its methods, one function for each.
--   Helper/Holds has the rules for actions, Helper/Yields those for actions that return.
--     Helper/Sanction says when a call of the backend is sanctioned; Helper/Sound, Helper/Receipts
--     and Helper/Fresh have the theorems.
--   Session/Record, Host, Exec, Machine, Commands: ActivationSession and ActivationSessionStore of
--     activation_session.py; Session/Recover has recover_activation_session, Session/Transition
--     has transition_activation_session. Triple has the rules for actions, Attested says when a
--     log of writes is attested and when it has grown well, Attested/Steps has the rules of its
--     steps, and Sound, Refusals and RoundTrip have the theorems.
--   Transaction/State, Host, Exec: the tree, the journal and the manifests of transaction.py, and
--     actions whose every call of the system may fail, or end the process, before, midway or after
--     its effect. Disk has the helpers (_safe_target, _atomic_json, _acquire_lock, _write_stage,
--     _create_parents and others), Restore has _restore_from_manifest, Apply has
--     _apply_validated_changes, Recover has the finalizing, _rollback_transaction and
--     _recover_pending_transactions. Roots has the checks of a configuration's root, those of
--     managed_plan.py included; Workflows has the checks of plans, the identities of candidate.py,
--     home_manager_adoption.py and managed_plan.py, and the functions that apply a plan; Entries has
--     the functions that finalize, roll back and recover one workflow's transactions.
--   Transaction/Triple has the rules for these actions; Focus, Fine and Recoverable say how far one
--     change of a plan can have come; Stays and Quiet treat the steps that leave it alone; Verifies,
--     PreparesOthers, Prepares, Commits, Applies and Applied follow it through an application,
--     Undo, Undone, Restores and RestoresAll through a restoring, Recovers, RollsBack and
--     Installed through the rest.
--     Separate says when the changes of a plan keep apart, Verified what finalizing asks for,
--     LiveRoots what a live root is, and Passed which tests a live workflow makes; Sound, Finalizes,
--     Refuses and Permitted have the theorems.
--   Tests: runs of the code on concrete data, and each theorem applied to such data.
--
-- How they interact: Helper uses the parsers of Protocol, whose Sound lemmas its invariant rests
-- on; Session uses Json and the patterns of Format. The backends that call the session code from
-- the dispatcher are not modelled, so Helper and Session meet in no theorem, nor does Transaction,
-- which uses the pattern of transaction identifiers, meet Helper.
--
-- The collaborators are parameters: the digest function, the authorizer, the backend, the clock and
-- the tokens of the dispatcher (`Environment`), and the host of a session (`Host`: the commands, the
-- links, the journal's directory and the other holders of its lock). Each answers by all that has
-- happened before, so the theorems hold for every behaviour of theirs, failures included. The clock
-- is a natural number of ticks. A command either ends with a code or raises OSError or
-- TimeoutExpired; other exceptions of it are not modelled, nor is a process that is killed midway
-- there.
--
-- In Transaction the host answers by the number of calls so far, so one host stands for the failures
-- and the end of one process and for those of the next. A path is its label from the root, in
-- pathlib's normal form; which paths are links does not change. Files have a content and a mode. A
-- write that breaks off leaves the host's torn content. Nobody else writes to the tree or the journal
-- while a function runs. A manifest that is read has all its keys but for the two with a default.
-- What the file system answers about a root is a parameter (`Places`) that does not change, and so is
-- the canonical JSON text of a plan's identity.
--
-- Texts hold no lone surrogates. A journal file that is not UTF-8 counts as one that is not JSON.
-- All loops are structural recursion, so no fuel is needed.
--
-- Not modelled: the text of error messages, commands' output and their time limits; the backends,
-- the planning and validation around transactions, generators, inspectors,
-- catalogs, transport, server and user interface.
pub mod Prelude
pub mod Json
pub mod Format
pub mod Protocol
pub mod Helper
pub mod Session
pub mod Transaction
pub mod Tests
