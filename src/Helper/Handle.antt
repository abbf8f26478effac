-- ===== src/Helper/Handle.antt =====
-- `HelperDispatcher.handle` and `__init__` of helper_service.py.
use nixos_control_manager.Prelude.{
  ℕ, String, ◌&&◌, Option, none, some, List, [], ◌∷◌, map, leb, distinct, if◌then◌else◌,
}
use nixos_control_manager.Prelude.Dict.{Dict}
use nixos_control_manager.Json.{Json, ℤ, pos, negsuc, obj}
use nixos_control_manager.Protocol.{
  Operation, Result, ok, err, protocol, crash, invalid_peer, HelperRequest, parse_request,
}
use nixos_control_manager.Helper.Target.{Target}
use nixos_control_manager.Helper.State.{
  Environment, Dispatcher, World, Exec, PeerIdentity, pure, lift, ◌>>◌,
}
use nixos_control_manager.Helper.Response.{Response, ok_response, error_response, response_id}
use nixos_control_manager.Helper.Prune.{prune_receipts}
use nixos_control_manager.Helper.Capabilities.{empty_payload, capabilities_result}
use nixos_control_manager.Helper.Plans.{validate, apply, recover}
use nixos_control_manager.Helper.HomeManager.{
  validate_home_manager, apply_home_manager, recover_home_manager,
}
use nixos_control_manager.Helper.Managed.{validate_managed, apply_managed, recover_managed}
use nixos_control_manager.Helper.FlakeLock.{
  validate_flake_lock, apply_flake_lock, recover_flake_lock,
}
use nixos_control_manager.Helper.Activation.{
  preview, test, recover_test, commit, rollback, session_status,
}

abbrev pub by_id : List Target → Dict Target
by_id [] = []
by_id (t ∷ ts) = (t.target_id, t) ∷ by_id ts

-- `__init__`; the targets of the dictionary are those given, each under its identifier.
unfoldable pub make_dispatcher : List Target → Environment → ℕ → Result Dispatcher
make_dispatcher targets environment ttl =
    if leb 1 ttl && leb ttl 3600 && distinct (map (λ t. t.target_id) targets)
    then ok
        (record { targets = by_id targets; receipt_ttl_seconds = ttl; environment = environment })
    else err crash

unfoldable pub initial_world : World
initial_world = record {
  pending = [];
  pending_home_manager = [];
  pending_managed = [];
  pending_flake_lock = [];
  pending_tests = [];
  log = [];
}

-- The peer of a request: given whole, or by its uid.
unfoldable pub peer_of : Option ℤ → Option PeerIdentity → Result PeerIdentity
peer_of none (some peer) = ok peer
peer_of (some uid) (some peer) = err (protocol invalid_peer)
peer_of (some (pos uid)) none = ok (record { uid = uid; pid = none; gid = none })
peer_of (some (negsuc n)) none = err (protocol invalid_peer)
peer_of none none = err (protocol invalid_peer)

module _ (d : Dispatcher) where
  -- The chain of tests on `request.operation`.
  unfoldable pub operate : Operation → String → Json → PeerIdentity → Exec Response
  operate Operation.capabilities id raw peer =
      lift (empty_payload raw) >> pure (ok_response id (capabilities_result d))
  operate Operation.validate_plan id raw peer = validate d id raw peer.uid
  operate Operation.validate_home_manager_plan id raw peer = validate_home_manager d id raw peer.uid
  operate Operation.validate_managed_plan id raw peer = validate_managed d id raw peer.uid
  operate Operation.validate_flake_lock_update id raw peer = validate_flake_lock d id raw peer.uid
  operate Operation.preview_activation id raw peer = preview d id raw peer
  operate Operation.test_activation id raw peer = test d id raw peer
  operate Operation.recover_test_activation id raw peer = recover_test d id raw peer
  operate Operation.commit_tested_system id raw peer = commit d id raw peer
  operate Operation.rollback_committed_system id raw peer = rollback d id raw peer
  operate Operation.activation_session_status id raw peer = session_status d id raw peer.uid
  operate Operation.apply_validated_plan id raw peer = apply d id raw peer
  operate Operation.apply_validated_home_manager_plan id raw peer = apply_home_manager d id raw peer
  operate Operation.apply_validated_managed_plan id raw peer = apply_managed d id raw peer
  operate Operation.apply_validated_flake_lock_update id raw peer = apply_flake_lock d id raw peer
  operate Operation.recover_transaction id raw peer = recover d id raw peer
  operate Operation.recover_home_manager_transaction id raw peer =
      recover_home_manager d id raw peer
  operate Operation.recover_managed_transaction id raw peer = recover_managed d id raw peer
  operate Operation.recover_flake_lock_transaction id raw peer = recover_flake_lock d id raw peer

  abbrev pub answered : String → Result Response → Response
  answered id (ok response) = response
  answered id (err e) = error_response id e

  -- The part of `handle` behind the parse of the request.
  unfoldable pub process : HelperRequest → PeerIdentity → World → Response × World
  process request peer w =
      let (r, w') =
        (prune_receipts d
            >> operate request.operation request.request_id (obj request.payload) peer)
          w in
      (answered request.request_id r, w')

  abbrev pub proceed : Json → PeerIdentity → Result HelperRequest → World → Response × World
  proceed raw peer (ok request) w = process request peer w
  proceed raw peer (err e) w = (error_response (response_id raw) e, w)

  abbrev pub admit : Json → Result PeerIdentity → World → Response × World
  admit raw (ok peer) w = proceed raw peer (parse_request raw) w
  admit raw (err e) w = (error_response (response_id raw) e, w)

  -- `handle`
  unfoldable pub handle : Json → Option ℤ → Option PeerIdentity → World → Response × World
  unfolding peer_of parse_request process response_id
  handle raw peer_uid peer w = admit raw (peer_of peer_uid peer) w

  -- The requests of a connection, one after another.
  unfoldable pub serve : List (Json × Option ℤ × Option PeerIdentity) → World → World
  serve [] w = w
  serve ((raw, peer_uid, peer) ∷ requests) w = serve requests (handle raw peer_uid peer w).1
