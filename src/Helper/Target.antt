-- ===== src/Helper/Target.antt =====
-- `HelperTarget` of helper_service.py: a configured target, and the checks of `__post_init__`.
pub mod Safe
use nixos_control_manager.Prelude.{
  ℕ, String, Bool, true, false, not, ◌&&◌, ◌||◌, Option, none, some, List, [], ◌∷◌, leb, all, ◌==◌,
  is_none, is_some, ◌≡◌, if◌then◌else◌,
}
use nixos_control_manager.Json.{covers}
use nixos_control_manager.Format.{codes, is_target_id}
use nixos_control_manager.Format.Labels.{is_plain_label}
use nixos_control_manager.Protocol.{Result, ok, err, crash, ◌>>=◌, ◌>>◌}

-- The components of a resolved path.
abbrev pub FilePath : Type 0
FilePath = List String

-- What the file system answers about a configured path: `path.expanduser().resolve()`, and
-- `path.expanduser().is_symlink()`.
pub record PathLookup : Type 0 where
  pub resolve : String → FilePath
  pub is_symlink : String → Bool

-- The fields, before (`P` a text) and after (`P` a resolved path) `__post_init__`.
pub record HelperTarget (P : Type 0) : Type 0 where
  pub target_id : String
  pub configuration_root : P
  pub allowed_relative_paths : List String
  pub fixture_only : Bool
  pub apply_enabled : Bool
  pub journal_root : Option P
  pub flake_target : Option String
  pub test_activation_enabled : Bool
  pub test_journal_root : Option P
  pub test_timeout_seconds : ℕ
  pub home_manager_apply_enabled : Bool
  pub home_manager_root : Option P
  pub home_manager_journal_root : Option P
  pub managed_write_enabled : Bool
  pub managed_journal_root : Option P
  pub permanent_switch_enabled : Bool
  pub flake_lock_write_enabled : Bool
  pub flake_lock_journal_root : Option P

abbrev pub Target : Type 0
Target = HelperTarget FilePath

-- `if not test: raise ValueError(…)`
unfoldable pub check : Bool → Result (Unit {0})
check true = ok tt
check false = err crash

unfoldable pub path_eq : FilePath → FilePath → Bool
path_eq [] [] = true
path_eq [] (b ∷ bs) = false
path_eq (a ∷ as_) [] = false
path_eq (a ∷ as_) (b ∷ bs) = a == b && path_eq as_ bs

-- `path.is_relative_to(root)`
unfoldable pub is_relative_to : FilePath → FilePath → Bool
is_relative_to path [] = true
is_relative_to [] (r ∷ rs) = false
is_relative_to (p ∷ ps) (r ∷ rs) = p == r && is_relative_to ps rs

-- Equality of optional paths, as of the members of a Python set.
abbrev pub option_path_eq : Option FilePath → Option FilePath → Bool
option_path_eq none none = true
option_path_eq none (some _) = false
option_path_eq (some _) none = false
option_path_eq (some a) (some b) = path_eq a b

-- `len({a, b, c}) == 3`
abbrev pub three_distinct : Option FilePath → Option FilePath → Option FilePath → Bool
three_distinct a b c =
    not (option_path_eq a b) && not (option_path_eq a c) && not (option_path_eq b c)

-- `path == root or path.is_relative_to(root)` does not hold
abbrev pub outside : FilePath → FilePath → Bool
outside path root = not (path_eq path root || is_relative_to path root)

abbrev pub outside? : Option FilePath → FilePath → Bool
outside? none root = true
outside? (some path) root = outside path root

abbrev pub managed_paths : List String
managed_paths = "ncm/state.json" ∷ "ncm/packages.nix" ∷ []

-- Equality of sets
abbrev pub same_set : List String → List String → Bool
same_set as_ bs = covers as_ bs && covers bs as_

abbrev pub nonempty : List String → Bool
nonempty [] = false
nonempty (x ∷ xs) = true

abbrev pub plain : String → Bool
plain label = is_plain_label (codes label)

module _ (fs : PathLookup) where
  open fs use {resolve, is_symlink}

  abbrev resolved : Option String → Option FilePath
  resolved none = none
  resolved (some p) = some (resolve p)

  abbrev real : Option String → Bool
  real none = true
  real (some p) = not (is_symlink p)

  resolve_paths : HelperTarget String → Target
  resolve_paths t = record {
    target_id = t.target_id;
    configuration_root = resolve t.configuration_root;
    allowed_relative_paths = t.allowed_relative_paths;
    fixture_only = t.fixture_only;
    apply_enabled = t.apply_enabled;
    journal_root = resolved t.journal_root;
    flake_target = t.flake_target;
    test_activation_enabled = t.test_activation_enabled;
    test_journal_root = resolved t.test_journal_root;
    test_timeout_seconds = t.test_timeout_seconds;
    home_manager_apply_enabled = t.home_manager_apply_enabled;
    home_manager_root = resolved t.home_manager_root;
    home_manager_journal_root = resolved t.home_manager_journal_root;
    managed_write_enabled = t.managed_write_enabled;
    managed_journal_root = resolved t.managed_journal_root;
    permanent_switch_enabled = t.permanent_switch_enabled;
    flake_lock_write_enabled = t.flake_lock_write_enabled;
    flake_lock_journal_root = resolved t.flake_lock_journal_root;
  }

-- `not (a and b)`, where the source raises if both hold.
abbrev pub unless : Bool → Bool → Bool
unless a b = not a || b

-- The checks on the resolved target, in order.
check_test : Target → Result (Unit {0})
unfolding check
check_test t = do
  check (
      unless t.test_activation_enabled
        (not (t.fixture_only || t.apply_enabled || is_none t.test_journal_root)))
  check (t.test_activation_enabled || is_none t.test_journal_root)

abbrev home_manager_paths : Option FilePath → Option FilePath → Bool
home_manager_paths (some root) (some journal) = outside journal root
home_manager_paths _ _ = false

check_home_manager : Target → Result (Unit {0})
unfolding check path_eq is_relative_to
check_home_manager t =
    if t.home_manager_apply_enabled
    then (do
      check (not (t.fixture_only || t.apply_enabled || t.test_activation_enabled))
      check (is_some t.home_manager_root && is_some t.home_manager_journal_root)
      check (home_manager_paths t.home_manager_root t.home_manager_journal_root))
    else check (is_none t.home_manager_root && is_none t.home_manager_journal_root)

check_managed : Target → Result (Unit {0})
unfolding check path_eq is_relative_to covers
check_managed t =
    if t.managed_write_enabled
    then (do
      check (
          not (
            t.fixture_only
            || t.apply_enabled
            || t.home_manager_apply_enabled
            || is_none t.managed_journal_root))
      check (same_set t.allowed_relative_paths managed_paths)
      check (outside? t.managed_journal_root t.configuration_root))
    else check (is_none t.managed_journal_root)

check_permanent : Target → Result (Unit {0})
unfolding check
check_permanent t = check (
    unless t.permanent_switch_enabled (
      not (
        t.fixture_only
        || t.apply_enabled
        || not t.test_activation_enabled
        || not t.managed_write_enabled
        || is_none t.test_journal_root)))

check_flake_lock : Target → Result (Unit {0})
unfolding check path_eq is_relative_to
check_flake_lock t =
    if t.flake_lock_write_enabled
    then (do
      check (
          not (
            not t.permanent_switch_enabled
            || is_none t.flake_target
            || is_none t.flake_lock_journal_root))
      check (
          three_distinct t.flake_lock_journal_root t.managed_journal_root t.test_journal_root
          && outside? t.flake_lock_journal_root t.configuration_root))
    else check (is_none t.flake_lock_journal_root)

module _ (fs : PathLookup) where
  -- `HelperTarget.__post_init__`
  unfoldable pub make_target : HelperTarget String → Result Target
  unfolding resolve_paths check_test check_home_manager check_managed check_permanent
      check_flake_lock
  make_target raw = do
    check (is_target_id raw.target_id)
    check (real fs raw.home_manager_root)
    check (real fs raw.home_manager_journal_root)
    check (real fs raw.managed_journal_root)
    check (real fs raw.flake_lock_journal_root)
    let t = resolve_paths fs raw
    check (nonempty t.allowed_relative_paths)
    check (t.fixture_only || not t.apply_enabled)
    check_test t
    check_home_manager t
    check_managed t
    check_permanent t
    check_flake_lock t
    check (leb 30 t.test_timeout_seconds && leb t.test_timeout_seconds 1800)
    check (all plain t.allowed_relative_paths)
    ok t
