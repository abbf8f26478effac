-- ===== src/Helper/Sound/Handle.antt =====
-- The dispatcher's invariant and `handle` of helper_service.py.
use nixos_control_manager.Prelude.{ℕ, String, ◌≡◌, Option, some, List, [], ◌∷◌, arith, eq_iff}
use nixos_control_manager.Prelude.Dict.{lookup}
use nixos_control_manager.Json.{Json, ℤ, obj}
use nixos_control_manager.Protocol.{Operation, Result, ok, err, HelperRequest, parse_request}
use nixos_control_manager.Helper.Target.{Target}
use nixos_control_manager.Helper.State.{Environment, Dispatcher, World, PeerIdentity}
use nixos_control_manager.Helper.Handle.{
  by_id, make_dispatcher, initial_world, peer_of, operate, process, proceed, admit, handle, serve,
}
use nixos_control_manager.Helper.Holds.{Holds, Holds-pure, Holds-lift, Holds-bind}
use nixos_control_manager.Helper.Sanction.{Sanctioned, IsSound, IsKeyed}
use nixos_control_manager.Helper.Sound.{same}
use nixos_control_manager.Helper.Sound.Plans.{validate-IsSound, apply-IsSound, recover-IsSound}
use nixos_control_manager.Helper.Sound.HomeManager.{
  validate_home_manager-IsSound, apply_home_manager-IsSound, recover_home_manager-IsSound,
}
use nixos_control_manager.Helper.Sound.Managed.{
  validate_managed-IsSound, apply_managed-IsSound, recover_managed-IsSound,
}
use nixos_control_manager.Helper.Sound.FlakeLock.{
  validate_flake_lock-IsSound, apply_flake_lock-IsSound, recover_flake_lock-IsSound,
}
use nixos_control_manager.Helper.Sound.Activation.{
  preview-IsSound, test-IsSound, recover_test-IsSound, commit-IsSound, rollback-IsSound,
  session_status-IsSound,
}
use nixos_control_manager.Helper.Sound.Prune.{prune_receipts-IsSound}

module _ (d : Dispatcher) (keyed : IsKeyed d) where
  operate-IsSound :
      (o : Operation) (id : String) (raw : Json) (peer : PeerIdentity)
      → Holds (IsSound d) (IsSound d) (operate d o id raw peer)
  unfolding operate
  operate-IsSound Operation.capabilities id raw peer = Holds-lift (same _) _ _ λ _ _. Holds-pure _
  operate-IsSound Operation.validate_plan id raw peer = validate-IsSound d id raw peer.uid
  operate-IsSound Operation.validate_home_manager_plan id raw peer =
      validate_home_manager-IsSound d id raw peer.uid
  operate-IsSound Operation.validate_managed_plan id raw peer =
      validate_managed-IsSound d id raw peer.uid
  operate-IsSound Operation.validate_flake_lock_update id raw peer =
      validate_flake_lock-IsSound d id raw peer.uid
  operate-IsSound Operation.preview_activation id raw peer = preview-IsSound d id raw peer
  operate-IsSound Operation.test_activation id raw peer = test-IsSound d id raw peer
  operate-IsSound Operation.recover_test_activation id raw peer =
      recover_test-IsSound d keyed id raw peer
  operate-IsSound Operation.commit_tested_system id raw peer = commit-IsSound d id raw peer
  operate-IsSound Operation.rollback_committed_system id raw peer =
      rollback-IsSound d keyed id raw peer
  operate-IsSound Operation.activation_session_status id raw peer =
      session_status-IsSound d id raw peer.uid
  operate-IsSound Operation.apply_validated_plan id raw peer = apply-IsSound d id raw peer
  operate-IsSound Operation.apply_validated_home_manager_plan id raw peer =
      apply_home_manager-IsSound d id raw peer
  operate-IsSound Operation.apply_validated_managed_plan id raw peer =
      apply_managed-IsSound d id raw peer
  operate-IsSound Operation.apply_validated_flake_lock_update id raw peer =
      apply_flake_lock-IsSound d id raw peer
  operate-IsSound Operation.recover_transaction id raw peer = recover-IsSound d keyed id raw peer
  operate-IsSound Operation.recover_home_manager_transaction id raw peer =
      recover_home_manager-IsSound d keyed id raw peer
  operate-IsSound Operation.recover_managed_transaction id raw peer =
      recover_managed-IsSound d keyed id raw peer
  operate-IsSound Operation.recover_flake_lock_transaction id raw peer =
      recover_flake_lock-IsSound d keyed id raw peer

  process-IsSound :
      (r : HelperRequest) (peer : PeerIdentity) (w : World)
      → IsSound d w
      → IsSound d (process d r peer w).1
  unfolding process
  process-IsSound r peer =
      (Holds-bind (same _) _ _ (prune_receipts-IsSound d)
        λ _. operate-IsSound r.operation r.request_id (obj r.payload) peer).at

  proceed-IsSound :
      (raw : Json) (peer : PeerIdentity) (r : Result HelperRequest) (w : World)
      → IsSound d w
      → IsSound d (proceed d raw peer r w).1
  proceed-IsSound raw peer (ok request) w h = process-IsSound request peer w h
  proceed-IsSound raw peer (err e) w h = h

  admit-IsSound :
      (raw : Json) (p : Result PeerIdentity) (w : World)
      → IsSound d w
      → IsSound d (admit d raw p w).1
  admit-IsSound raw (err e) w h = h
  admit-IsSound raw (ok peer) w h = proceed-IsSound raw peer (parse_request raw) w h

  -- Whatever the request, the invariant of the dispatcher is kept.
  pub handle-IsSound :
      (raw : Json) (peer_uid : Option ℤ) (peer : Option PeerIdentity) (w : World)
      → IsSound d w
      → IsSound d (handle d raw peer_uid peer w).1
  unfolding handle
  handle-IsSound raw peer_uid peer w h = admit-IsSound raw (peer_of peer_uid peer) w h

  serve-IsSound :
      (requests : List (Json × Option ℤ × Option PeerIdentity)) (w : World)
      → IsSound d w
      → IsSound d (serve d requests w)
  unfolding serve
  serve-IsSound [] w h = h
  serve-IsSound ((raw, peer_uid, peer) ∷ requests) w h =
      serve-IsSound requests _ (handle-IsSound raw peer_uid peer w h)

  initial_world-IsSound : IsSound d initial_world
  unfolding initial_world
  initial_world-IsSound = record {
    plans = tt;
    home_plans = tt;
    managed_plans = tt;
    lock_updates = tt;
    tests = tt;
    calls = tt;
  }

lookup-by_id :
    (targets : List Target) (id : String) (t : Target)
    → lookup id (by_id targets) ≡ some t
    → t.target_id ≡ id
unfolding lookup
lookup-by_id [] id t h = cc
lookup-by_id (u ∷ targets) id t h = ground (arith, eq_iff u.target_id id, lookup-by_id targets id t)

make_dispatcher-IsKeyed :
    (targets : List Target) (e : Environment) (ttl : ℕ) {d : Dispatcher}
    → make_dispatcher targets e ttl ≡ ok d
    → IsKeyed d
unfolding make_dispatcher
make_dispatcher-IsKeyed targets e ttl {d} h id t found =
    let given : d.targets ≡ by_id targets = ground arith in
    lookup-by_id targets id t (rw given at found)

-- For every sequence of requests to a dispatcher that `__init__` has made: each call of the
-- backend is one that the target's flags permit; each call that applies a plan, recovers,
-- previews, tests, commits or rolls back comes right after the authorizer granted the peer that
-- very action, with details that name the call's target and subject; and a plan that is applied
-- stands in a receipt of that peer, and stays within the allow-list of a configured target or, a
-- flake.lock update, changes that file alone.
pub serve-Sanctioned :
    (targets : List Target) (e : Environment) (ttl : ℕ) (d : Dispatcher)
    → make_dispatcher targets e ttl ≡ ok d
    → (requests : List (Json × Option ℤ × Option PeerIdentity))
    → Sanctioned d (serve d requests initial_world).log
serve-Sanctioned targets e ttl d made requests =
    let keyed = make_dispatcher-IsKeyed targets e ttl made in
    (serve-IsSound d keyed requests initial_world (initial_world-IsSound d keyed)).calls
