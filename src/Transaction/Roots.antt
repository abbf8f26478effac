-- ===== src/Transaction/Roots.antt =====
-- The checks of a configuration's root, in transaction.py and managed_plan.py. What the file system and
-- pathlib answer about a path is a parameter.
use nixos_control_manager.Prelude.{
  ℕ, String, Bool, true, false, not, ◌&&◌, ◌||◌, List, [], ◌∷◌, map, ◌==◌, ◌<>◌, nat_eq,
  if◌then◌else◌,
}
use nixos_control_manager.Format.{codes}
use nixos_control_manager.Transaction.Errors.{refused, Outcome, ok, err, dead}

-- The marker of a fixture: a link, not a file, not readable, or its text.
pub data Marker : Type 0 where
  link : Marker
  no_file : Marker
  unreadable_marker : Marker
  text : String → Marker

pub record Places : Type 0 where
  -- `str(path.expanduser().resolve())`, and whether the path before that is a link
  pub resolve : String → String
  pub is_link : String → Bool
  pub is_directory : String → Bool
  pub is_file : String → Bool
  pub exists : String → Bool
  -- below /nix/store
  pub in_store : String → Bool
  pub marker : String → Marker

abbrev pub check : Bool → String → Outcome (Unit {0})
check true s = ok tt
check false s = err (refused s)

infixl 5 ◌then◌
abbrev pub ◌then◌ : {T : Type 0} → Outcome (Unit {0}) → Outcome T → Outcome T
◌then◌ (ok u) r = r
◌then◌ (err e) r = err e
◌then◌ dead r = dead

-- `path.replace("\\", "/")`
abbrev pub forward : List ℕ → List ℕ
forward cs = map (λ c. if nat_eq c 92 then b'/' else c) cs

abbrev pub codes_eq : List ℕ → List ℕ → Bool
codes_eq [] [] = true
codes_eq (c ∷ cs) (d ∷ ds) = nat_eq c d && codes_eq cs ds
codes_eq _ _ = false

-- `cs.endswith(suffix)`
abbrev pub ends_with : List ℕ → List ℕ → Bool
ends_with suffix [] = codes_eq [] suffix
ends_with suffix (c ∷ cs) = codes_eq (c ∷ cs) suffix || ends_with suffix cs

-- The test of both functions: the root is this directory, or ends in its path.
unfoldable pub is_live : String → String → Bool
is_live live root = root == live || ends_with (codes live) (forward (codes root))

module _ (p : Places) where
  -- `_refuse_live_root`
  unfoldable pub refuse_live_root : String → Outcome (Unit {0})
  refuse_live_root root =
      check (not (is_live "/etc/nixos" root)) "The fixture transaction engine refuses /etc/nixos"
      then check
          (not (root == p.resolve "~/.config/home-manager" || is_live "/etc/home-manager" root))
          "The fixture transaction engine refuses live Home Manager roots"

  unfoldable pub check_marker : Marker → Outcome (Unit {0})
  check_marker link = err (refused "Fixture marker is required")
  check_marker no_file = err (refused "Fixture marker is required")
  check_marker unreadable_marker = err (refused "Could not read fixture marker")
  check_marker (text t) =
      check (t == "nix-control-manager-transaction-fixture-v1\n")
        "Fixture marker content is invalid"

  -- `_require_fixture_root`
  unfoldable pub require_fixture_root : String → Outcome String
  require_fixture_root root =
      refuse_live_root (p.resolve root)
      then check_marker (p.marker (p.resolve root))
      then ok (p.resolve root)

  -- `_require_live_home_manager_root`
  unfoldable pub require_live_home_manager_root : String → Outcome String
  require_live_home_manager_root root =
      check (not (p.is_link root)) "The live Home Manager root cannot be a symbolic link"
      then check (p.is_directory (p.resolve root))
          "The live Home Manager root must be an existing directory"
      then check (not (p.resolve root == "/" || p.in_store (p.resolve root)))
          "Unsafe live Home Manager configuration root"
      then ok (p.resolve root)

  -- `_transaction_root`
  unfoldable pub transaction_root : Bool → String → Outcome String
  transaction_root true root = require_fixture_root root
  transaction_root false root = require_live_home_manager_root root

  unfoldable pub check_managed_path : String → Outcome (Unit {0})
  check_managed_path path =
      check (not (p.is_link path)) "Managed path cannot be a symbolic link"
      then check (not (p.exists path && not (p.is_file path))) "Managed path must be a regular file"

  -- `_safe_managed_root` of managed_plan.py
  unfoldable pub safe_managed_root : String → Outcome String
  safe_managed_root root =
      check (not (p.is_link root)) "The managed configuration root cannot be a symbolic link"
      then check (p.is_directory (p.resolve root))
          "The managed configuration root must be an existing directory"
      then check (not (p.resolve root == "/" || p.in_store (p.resolve root)))
          "Unsafe managed configuration root"
      then check (not (p.is_link (p.resolve root <> "/ncm")))
          "The managed ncm directory cannot be a symbolic link"
      then check_managed_path (p.resolve root <> "/ncm/state.json")
      then check_managed_path (p.resolve root <> "/ncm/packages.nix")
      then ok (p.resolve root)

  abbrev pub live_only : Outcome String → Outcome String
  live_only (ok root) =
      check (is_live "/etc/nixos" root) "Live managed writes are restricted to /etc/nixos"
      then ok root
  live_only (err e) = err e
  live_only dead = dead

  -- `require_live_managed_root` of managed_plan.py
  unfoldable pub require_live_managed_root : String → Outcome String
  require_live_managed_root root = live_only (safe_managed_root root)
