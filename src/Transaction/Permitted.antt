-- ===== src/Transaction/Permitted.antt =====
-- What must hold before a live workflow of transaction.py changes anything.
use nixos_control_manager.Prelude.{
  ℕ, String, true, ◌≡◌, ◌≢◌, ◌⊎◌, Option, none, some, List, [], ◌∷◌, map, All, eq_iff, ◌==◌, ◌<>◌,
  arith,
}
use nixos_control_manager.Format.{IsSha256}
use nixos_control_manager.Transaction.State.{modify, Change}
use nixos_control_manager.Transaction.Host.{Host}
use nixos_control_manager.Transaction.Recover.{Validation}
use nixos_control_manager.Transaction.Roots.{Places}
use nixos_control_manager.Transaction.LiveRoots.{IsLiveRoot}
use nixos_control_manager.Transaction.Verified.{Evaluated}
use nixos_control_manager.Transaction.Workflows.{
  Identity, managed, LockValidation, ManagedPlan, has_text,
}

some_injective : (a b : String) → some a ≡ some b → a ≡ b
some_injective a b e = cc

has_text-ne : (f : Option String) → has_text f ≡ true → (f ≢ none) × (f ≢ some "")
has_text-ne none e = cc
has_text-ne (some f) e = (
  λ k. cc,
  λ k. let empty : (f == "") ≡ true = (eq_iff f "").1 (some_injective f "" k) in ground arith,
)

-- The plan changes something, and only the two managed files of the live root, which is its own;
-- the validation passed, with its working copy removed and with an evaluation; and the fingerprint
-- and the digests that it is of are those of this very plan.
pub record IsManagedScope (h : Host) (places : Places) (dumps : Identity → List ℕ) (p : ManagedPlan)
    (v : Validation) : Type 0 where
  pub root : IsLiveRoot places p.root p.root
  pub some_change : p.changes ≢ []
  pub passed : v.status ≡ "passed"
  pub removed : v.working_copy_removed ≡ true
  pub evaluated : Evaluated v.checks
  pub fingerprint :
      v.plan_fingerprint
      ≡ some (h.digest (dumps (managed p.root p.configuration_mode p.flake_target p.changes)))
  pub digests :
      v.candidate_digests ≡ map (λ c. (c.relative_path, h.digest (h.utf8 c.candidate))) p.changes
  pub two_files :
      All
        (λ c. (c.relative_path ≡ "ncm/state.json") ⊎ (c.relative_path ≡ "ncm/packages.nix"))
        p.changes

-- The update modifies flake.lock of the live root, which `root` resolves to, and nothing else, and
-- the validation passed for its fingerprint, with its working copy removed and flake.lock as its
-- whole scope.
pub record IsLockScope (places : Places) (c : Change) (path root fingerprint : String)
    (v : LockValidation) : Type 0 where
  pub resolved : String
  pub live : IsLiveRoot places root resolved
  pub own_name : c.relative_path ≡ "flake.lock"
  pub own_path : path ≡ resolved <> "/flake.lock"
  pub modifies : c.action ≡ modify
  pub digest : IsSha256 fingerprint
  pub passed : v.status ≡ some "passed"
  pub removed : v.working_copy_removed ≡ some true
  pub printed : v.plan_fingerprint ≡ some fingerprint
  pub one_file : v.write_scope ≡ some ("flake.lock" ∷ [])
