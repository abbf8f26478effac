-- ===== src/Transaction/Sound.antt =====
-- Applying, rolling back and recovering in transaction.py, against the tree before the transaction. Any
-- call of the system may fail or end the process; nobody else writes to the tree meanwhile.
use nixos_control_manager.Prelude.{
  String, Bool, true, false, ◌≡◌, refl, subst, ◌⊎◌, inl, inr, Option, none, some, List, contains,
}
use nixos_control_manager.Prelude.Dict.{lookup}
use nixos_control_manager.Transaction.Errors.{Failure, Outcome, ok, err, dead}
use nixos_control_manager.Transaction.State.{Content, Change, Verification, World, content_of}
use nixos_control_manager.Transaction.Host.{Host}
use nixos_control_manager.Transaction.Recover.{
  Recovered, allows, rollback_transaction, recover_pending_transactions,
}
use nixos_control_manager.Transaction.Apply.{
  Planned, Request, TransactionResult, plan_from, apply_validated_changes,
}
use nixos_control_manager.Transaction.Triple.{Post}
use nixos_control_manager.Transaction.Focus.{is_away_from_itself}
use nixos_control_manager.Transaction.Fine.{Subject}
use nixos_control_manager.Transaction.Recoverable.{Recoverable, untouched, filed, Recoverable-Quiet}
use nixos_control_manager.Transaction.Verifies.{subject, Tells}
use nixos_control_manager.Transaction.Separate.{Among, separate}
use nixos_control_manager.Transaction.Recovers.{recover-Settled}
use nixos_control_manager.Transaction.RollsBack.{rollback-Settled}
use nixos_control_manager.Transaction.Applied.{label, apply-Triple, own}

-- The content at a path.
abbrev pub content_at : String → World → Option Content
content_at p w = content_of (lookup p w.files)

-- A new process: the lock of the old one is gone.
abbrev pub restart : World → World
restart w = record w { is_locked = false }

Post-ok :
    {T : Type 0} (R : T → World → Type 0) (E : World → Type 0) (x : Outcome T × World) (t : T)
    (w : World)
    → x ≡ (ok t, w)
    → Post R E x
    → R t w
Post-ok R E x t w e p = subst (Post R E) e p

Post-any :
    {T : Type 0} (R : T → World → Type 0) (E : World → Type 0) (x : Outcome T × World)
    → ((t : T) (w : World) → R t w → E w)
    → Post R E x
    → E x.1
Post-any R E (ok t, w) k p = k t w p
Post-any R E (err e, w) k p = p
Post-any R E (dead, w) k p = p

-- A plan whose changes do not get in each other's way, one of its changes, and the tree before.
module _ (h : Host) (r : Request) (cs : List Change) (p : Planned) (before : World)
    (planned : Among p (plan_from h h.token 0 cs))
    (apart : separate h h.token (plan_from h h.token 0 cs) ≡ true)
    (tells : Tells h p.change (content_at p.change.relative_path before))
    (unused : lookup h.token before.manifests ≡ none) where
  abbrev original : Option Content
  original = content_at p.change.relative_path before

  abbrev s : Subject
  s = subject h h.token p.index p.change original

  applied :
      Post
        (λ _ w.
          (content_at p.change.relative_path w ≡ some (h.utf8 p.change.candidate))
          × Recoverable h (label h r) s w)
        (Recoverable h (label h r) s)
        (apply_validated_changes h r cs before)
  applied = (apply-Triple h r cs p original planned apart tells).at before (refl, unused)

  after-Recoverable : Recoverable h (label h r) s (apply_validated_changes h r cs before).1
  after-Recoverable = Post-any _ _ (apply_validated_changes h r cs before) (λ _ w q. q.1) applied

  Recoverable-either :
      (w : World)
      → Recoverable h (label h r) s w
      → (content_at p.change.relative_path w ≡ original)
        ⊎ (content_at p.change.relative_path w ≡ some (h.utf8 p.change.candidate))
  Recoverable-either w (untouched e b) = inl b
  Recoverable-either w (filed u m e c i k (inl b)) = inl b
  Recoverable-either w (filed u m e c i k (inr b)) = inr b.0

  -- For every change of a plan whose changes keep apart, with a transaction identifier that is not in
  -- use and a digest that tells the change's original content from its candidate: if
  -- `_apply_validated_changes` returns, the target holds the candidate.
  pub apply_validated_changes-candidate :
      (result : TransactionResult) (after : World)
      → apply_validated_changes h r cs before ≡ (ok result, after)
      → content_at p.change.relative_path after ≡ some (h.utf8 p.change.candidate)
  apply_validated_changes-candidate result after e =
      (Post-ok _ (Recoverable h (label h r) s) (apply_validated_changes h r cs before) result after
        e applied).0

  -- For every change of a plan whose changes keep apart, with a transaction identifier that is not in
  -- use and a digest that tells the change's original content from its candidate: however
  -- `_apply_validated_changes` ends (it returns, it raises, or the process ends at some call), the
  -- target holds its original content or the candidate, nothing else.
  pub apply_validated_changes-either :
      (content_at p.change.relative_path (apply_validated_changes h r cs before).1
        ≡ content_at p.change.relative_path before)
      ⊎ (content_at p.change.relative_path (apply_validated_changes h r cs before).1
          ≡ some (h.utf8 p.change.candidate))
  apply_validated_changes-either =
      Recoverable-either (apply_validated_changes h r cs before).1 after-Recoverable

  own_path : is_away_from_itself h h.token s.entry ≡ true
  own_path = own h r cs p original planned apart tells

  -- For every change of a plan whose changes keep apart, with a transaction identifier that is not in
  -- use and a digest that tells the change's original content from its candidate, and after
  -- `_apply_validated_changes` has ended in any way: if a new process finds the transaction's
  -- directory in the journal and `_recover_pending_transactions`, asked for it in its mode and
  -- workflow, returns, the target has its original content again.
  pub recover_pending_transactions-original :
      (kind : Option String)
      → allows kind r.transaction_kind ≡ true
      → h.journal_exists ≡ true
      → contains (h.sorted (apply_validated_changes h r cs before).1.folders) h.token ≡ true
      → (recovered : Recovered h) (after : World)
      → recover_pending_transactions h r.root
          (some h.token)
          kind
          r.fixture_only
          (restart (apply_validated_changes h r cs before).1)
        ≡ (ok recovered, after)
      → content_at p.change.relative_path after ≡ content_at p.change.relative_path before
  recover_pending_transactions-original kind k there listed recovered after e =
      (Post-ok _ (Recoverable h (label h r) s) _ recovered after e (
        (recover-Settled h (label h r) s own_path kind r.fixture_only refl k there).at
          (restart (apply_validated_changes h r cs before).1)
          ((Recoverable-Quiet h (label h r) s).quiet _ false _ after-Recoverable, listed))).0

  -- For every change of a plan whose changes keep apart, with a transaction identifier that is not in
  -- use and a digest that tells the change's original content from its candidate, and after
  -- `_apply_validated_changes` has ended in any way: if `_rollback_transaction` of the transaction
  -- returns, the target has its original content again.
  pub rollback_transaction-original :
      (reason : Failure) (v : Option Verification) (fixture : Bool) (kind : Option String)
      (root : String) (result : TransactionResult) (after : World)
      → rollback_transaction h root h.token reason v fixture kind
          (restart (apply_validated_changes h r cs before).1)
        ≡ (ok result, after)
      → content_at p.change.relative_path after ≡ content_at p.change.relative_path before
  rollback_transaction-original reason v fixture kind root result after e =
      (Post-ok _ (Recoverable h (label h r) s) _ result after e (
        (rollback-Settled h (label h r) s own_path root reason v fixture kind).at
          (restart (apply_validated_changes h r cs before).1)
          ((Recoverable-Quiet h (label h r) s).quiet _ false _ after-Recoverable))).0
