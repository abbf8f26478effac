-- ===== src/Tests/Protocol.antt =====
-- The parsers on concrete messages.
use nixos_control_manager.Prelude.{true, false, ◌≡◌, ◌↔◌, refl, all, ◌∷◌, []}
use nixos_control_manager.Json.{obj}
use nixos_control_manager.Format.{codes, is_sha256}
use nixos_control_manager.Format.Labels.{is_plain_label, is_component, split, is_plain_label_iff}
use nixos_control_manager.Format
use nixos_control_manager.Protocol.{ok}
use nixos_control_manager.Protocol
use nixos_control_manager.Protocol.Candidate.{parse_candidate, candidate_mapping}
use nixos_control_manager.Protocol.Plans.{parse_plan, parse_flake_lock_update, paths}
use nixos_control_manager.Protocol.Sound.{
  IsCandidate, IsPlan, parse_candidate-IsCandidate, parse_plan-IsPlan,
  parse_flake_lock_update-paths,
}
use nixos_control_manager.Protocol.RoundTrip.{parse_candidate-candidate_mapping}
use nixos_control_manager.Tests.Data.{
  sha256, change, change_json, plan, plan_fields, lock_update, lock_update_json,
}

parse_candidate-change : parse_candidate sha256 change_json ≡ ok change
unfolding parse_candidate Protocol.◌>>=◌ Protocol.require is_plain_label is_sha256
parse_candidate-change = refl

parse_plan-plan : parse_plan sha256 false (obj plan_fields) ≡ ok plan
unfolding parse_plan Protocol.◌>>=◌ Protocol.require parse_candidate is_plain_label is_sha256
    Format.is_target_id
parse_plan-plan = refl

parse_flake_lock_update-update : parse_flake_lock_update sha256 lock_update_json ≡ ok lock_update
unfolding parse_flake_lock_update Protocol.◌>>=◌ Protocol.require parse_candidate is_plain_label
    is_sha256 Format.is_target_id Format.is_input_name
parse_flake_lock_update-update = refl

label_example :
    (is_plain_label (codes "ncm/../x") ≡ true)
    ↔ (all is_component (split (codes "ncm/../x")) ≡ true)
label_example = is_plain_label_iff (codes "ncm/../x")

candidate_example : IsCandidate sha256 change
candidate_example = parse_candidate-IsCandidate sha256 change_json parse_candidate-change

plan_example : IsPlan sha256 1 plan
plan_example = parse_plan-IsPlan sha256 false (obj plan_fields) parse_plan-plan

lock_update_example : paths lock_update.changes ≡ "flake.lock" ∷ []
lock_update_example =
    parse_flake_lock_update-paths sha256 lock_update_json parse_flake_lock_update-update

round_trip_example : parse_candidate sha256 (candidate_mapping change true) ≡ ok change
round_trip_example = parse_candidate-candidate_mapping sha256 change candidate_example
