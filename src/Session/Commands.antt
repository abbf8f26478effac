-- ===== src/Session/Commands.antt =====
-- The commands that activation_session.py runs, and its tests of what it reads.
use nixos_control_manager.Prelude.{
  String, Bool, true, false, Option, none, some, List, [], ◌∷◌, ◌==◌, ◌<>◌, nat_eq, if◌then◌else◌,
}
use nixos_control_manager.Json.{ℤ, pos}

-- `previous / "bin" / "switch-to-configuration"`
abbrev pub switch_of : String → String
switch_of system_path = system_path <> "/bin/switch-to-configuration"

abbrev pub system_profile : String
system_profile = "/nix/var/nix/profiles/system"

-- `[nix_env, "--profile", …, "--set", path]`
abbrev pub set_profile : String → String → String → List String
set_profile nix_env link path = nix_env ∷ "--profile" ∷ link ∷ "--set" ∷ path ∷ []

-- `returncode == 0`
unfoldable pub is_zero : ℤ → Bool
is_zero (pos n) = nat_eq n 0
is_zero _ = false

unfoldable pub is_at : Option String → String → Bool
is_at none path = false
is_at (some p) path = p == path

-- `not tool`, of what `which` has found.
unfoldable pub found : Option String → Option String
found none = none
found (some p) = if p == "" then none else some p

-- `profile_after is None or profile_after == session.previous_system_path`
unfoldable pub is_unset_or_at : Option String → String → Bool
is_unset_or_at none path = true
is_unset_or_at (some p) path = p == path
