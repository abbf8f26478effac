-- ===== src/Helper/Steps.antt =====
-- The steps that the methods of `HelperDispatcher` share.
use nixos_control_manager.Prelude.{
  ℕ, ◌+◌, ◌*◌, String, Bool, Option, none, some, List, all, contains, ◌&&◌, ◌||◌,
}
use nixos_control_manager.Prelude.Dict.{lookup}
use nixos_control_manager.Json.{Json, Fields, get, is_text, int, pos}
use nixos_control_manager.Protocol.{protocol, err, ok, Result, unknown_target}
use nixos_control_manager.Protocol.Candidate.{CandidateFile}
use nixos_control_manager.Helper.Target.{Target}
use nixos_control_manager.Helper.State.{
  Dispatcher, Exec, Call, ActionId, PeerIdentity, Details, pure, call, authorize, monotonic, ◌>>=◌,
  if◌then◌else◌,
}
use nixos_control_manager.Helper.Response.{Response, ok_response, denied_response}

abbrev pub known_target : Option Target → Result Target
known_target none = err (protocol unknown_target)
known_target (some t) = ok t

-- Every path of the plan is on the target's allow-list.
abbrev pub allowed : Target → List CandidateFile → Bool
allowed t = all (λ c. contains t.allowed_relative_paths c.relative_path)

-- `(target.fixture_only and target.apply_enabled) or target.home_manager_apply_enabled`
abbrev pub home_manager_permitted : Target → Bool
home_manager_permitted t = (t.fixture_only && t.apply_enabled) || t.home_manager_apply_enabled

abbrev pub passed : Fields → Bool
passed validation = is_text "passed" (get "status" validation)

module _ (d : Dispatcher) where
  abbrev pub ttl : Json
  ttl = int (pos d.receipt_ttl_seconds)

  -- `_target`
  unfoldable pub target : String → Result Target
  target id = known_target (lookup id d.targets)

  -- `time.monotonic() + self.receipt_ttl_seconds`
  unfoldable pub expiry : Exec ℕ
  expiry = do now ← monotonic d; pure (now + d.receipt_ttl_seconds * d.ticks)

  -- A backend call whose result is the response's.
  unfoldable pub respond : String → Call → Exec Response
  respond request_id c = do result ← call d c; pure (ok_response request_id result)

  -- `if not self.authorizer.authorize(…): return` the denial, and the rest of the method.
  unfoldable pub with_consent :
      String → ActionId → PeerIdentity → Details → Exec Response → Exec Response
  with_consent request_id action peer details rest = do
    allowed ← authorize d action peer details
    if allowed then rest else pure (denied_response request_id)
