-- ===== src/Tests/Helper.antt =====
-- The dispatcher on concrete requests.
use nixos_control_manager.Prelude.{
  ◌≡◌, inl, inr, sym, ap, ◌∙◌, second_of, refl, none, some, ◌∷◌, [],
}
use nixos_control_manager.Prelude.Dict.{lookup, insert, erase}
use nixos_control_manager.Json.{obj, pos, str, fields}
use nixos_control_manager.Protocol.{ok}
use nixos_control_manager.Protocol.Receipts.{ApplyPayload, parse_apply}
use nixos_control_manager.Helper.Target.{make_target}
use nixos_control_manager.Helper.Target.Safe.{IsSafeTarget, make_target-IsSafeTarget}
use nixos_control_manager.Helper.State.{
  World, Event, asked, called, clock, token, apply_action, granted, validate_plan,
  apply_validated_plan,
}
use nixos_control_manager.Helper.Plans.{validate, apply}
use nixos_control_manager.Protocol
use nixos_control_manager.Json
use nixos_control_manager.Format
use nixos_control_manager.Format.Labels.{is_plain_label}
use nixos_control_manager.Protocol.Plans.{parse_plan}
use nixos_control_manager.Protocol.Candidate.{parse_candidate}
use nixos_control_manager.Helper.State.{monotonic, gets, pure, lift, call, authorize, modify}
use nixos_control_manager.Helper.State
use nixos_control_manager.Helper.Steps
use nixos_control_manager.Helper.Steps.{expiry, with_consent, respond}
use nixos_control_manager.Helper.Response.{matching, error_of}
use nixos_control_manager.Helper.Prune.{
  discard, drop_plan, prune_receipts, prune_entries, prune_tests,
}
use nixos_control_manager.Helper.Handle.{operate}
use nixos_control_manager.Helper.Handle.{make_dispatcher, initial_world, handle, serve}
use nixos_control_manager.Helper.Sanction.{Sanctioned}
use nixos_control_manager.Helper.Sound.Handle.{serve-Sanctioned}
use nixos_control_manager.Helper.Fresh.{IsFresh, prune_receipts-IsFresh}
use nixos_control_manager.Helper.Receipts.{
  Refused, IsOneApplication, apply-no_receipt, apply-IsOneApplication,
}
use nixos_control_manager.Tests.Data.{
  digest, receipt, plan, validate_request, apply_request, apply_fields, fixture, target,
  file_system, environment, dispatcher, peer, entry, empty,
}

abbrev payload : ApplyPayload
payload = record { target_id = "desk"; plan_fingerprint = digest; validation_receipt = receipt }

abbrev issued : World
issued = record empty { pending = (receipt, entry) ∷ [] }

make_target-target : make_target file_system (fixture "/etc/nixos") ≡ ok target
unfolding make_target nixos_control_manager.Protocol.◌>>=◌ nixos_control_manager.Format.is_target_id
    nixos_control_manager.Format.Labels.is_plain_label
make_target-target = refl

make_dispatcher-dispatcher : make_dispatcher (target ∷ []) environment 300 ≡ ok dispatcher
unfolding make_dispatcher
make_dispatcher-dispatcher = refl

parse_apply-payload : parse_apply (obj apply_fields) ≡ ok payload
unfolding parse_apply nixos_control_manager.Protocol.◌>>=◌ nixos_control_manager.Protocol.require
    nixos_control_manager.Format.is_receipt nixos_control_manager.Format.is_target_id
    nixos_control_manager.Format.is_sha256
parse_apply-payload = refl

-- A plan is validated and applied, and a second request to apply it is refused.
serve_run :
    (serve dispatcher
      ((validate_request, some (pos 1000), none)
        ∷ (apply_request, some (pos 1000), none)
        ∷ (apply_request, some (pos 1000), none)
        ∷ [])
      initial_world).log
    ≡ clock 7
      ∷ called (apply_validated_plan target entry 1000)
      ∷ asked apply_action peer (("targetId", "desk") ∷ ("planFingerprint", digest) ∷ []) granted
      ∷ clock 7
      ∷ clock 7
      ∷ token receipt
      ∷ called (validate_plan target plan 1000)
      ∷ clock 7
      ∷ []
unfolding serve handle initial_world Protocol.◌>>=◌ Protocol.require Json.is_one
    Format.is_request_id State.◌>>=◌ prune_receipts monotonic gets prune_entries prune_tests pure
    operate validate apply lift parse_plan parse_candidate parse_apply is_plain_label
    Format.is_receipt Format.is_target_id Format.is_sha256 Steps.target State.require call
    State.if◌then◌else◌ State.token_urlsafe expiry modify matching with_consent authorize respond
    lookup insert erase error_of
serve_run = refl

target_example : IsSafeTarget target
target_example = make_target-IsSafeTarget file_system (fixture "/etc/nixos") make_target-target

serve_example :
    Sanctioned dispatcher
      (serve dispatcher
        ((validate_request, some (pos 1000), none) ∷ (apply_request, some (pos 1000), none) ∷ [])
        initial_world).log
serve_example =
    serve-Sanctioned (target ∷ []) environment 300 dispatcher make_dispatcher-dispatcher
      ((validate_request, some (pos 1000), none) ∷ (apply_request, some (pos 1000), none) ∷ [])

no_receipts : lookup payload.validation_receipt empty.pending ≡ none
unfolding lookup
no_receipts = refl

replay_example : (apply dispatcher "request-1" (obj apply_fields) peer empty).1 ≡ empty
replay_example =
    apply-no_receipt dispatcher "request-1" (obj apply_fields) peer empty payload
      parse_apply-payload no_receipts

-- A receipt that ran out, and one that did not.
abbrev two_receipts : World
two_receipts = record empty {
  pending = ("old", record entry { expires_at = 7 }) ∷ (receipt, entry) ∷ [];
}

prune_receipts-two : (prune_receipts dispatcher two_receipts).0 ≡ ok tt
unfolding prune_receipts prune_entries prune_tests discard State.◌>>=◌ State.if◌then◌else◌ monotonic
    gets modify pure lookup erase
prune_receipts-two = refl

prune_run : (prune_receipts dispatcher two_receipts).1.pending ≡ (receipt, entry) ∷ []
unfolding prune_receipts prune_entries prune_tests discard drop_plan State.◌>>=◌ State.if◌then◌else◌
    monotonic gets modify pure lookup erase
prune_run = refl

prune_example : IsFresh 7 (prune_receipts dispatcher two_receipts).1
prune_example = prune_receipts-IsFresh dispatcher two_receipts prune_receipts-two

target-desk : Steps.target dispatcher "desk" ≡ ok target
unfolding Steps.target lookup
target-desk = refl

abbrev applied : World
applied = (apply dispatcher "request-1" (obj apply_fields) peer issued).1

applied_run : applied.pending ≡ []
unfolding serve handle initial_world Protocol.◌>>=◌ Protocol.require Json.is_one
    Format.is_request_id State.◌>>=◌ prune_receipts monotonic gets prune_entries prune_tests pure
    operate validate apply lift parse_plan parse_candidate parse_apply is_plain_label
    Format.is_receipt Format.is_target_id Format.is_sha256 Steps.target State.require call
    State.if◌then◌else◌ State.token_urlsafe expiry modify matching with_consent authorize respond
    lookup insert erase error_of
applied_run = refl

issued-Refused : Refused issued applied → ⊥
issued-Refused (inl e) =
    let wrong : [] ≡ issued.pending = sym applied_run ∙ ap (λ w. w.pending) e in cc
issued-Refused (inr (a, p, ds, x, n, e)) =
    let wrong : [] ≡ issued.pending = sym applied_run ∙ ap (λ w. w.pending) e in cc

applied_example : IsOneApplication dispatcher payload peer issued applied
applied_example =
    second_of
      (apply-IsOneApplication dispatcher "request-1" (obj apply_fields) peer issued payload
        parse_apply-payload)
      issued-Refused
