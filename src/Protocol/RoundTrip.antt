-- ===== src/Protocol/RoundTrip.antt =====
-- `to_mapping` and `from_mapping` of `CandidateFile` in helper_protocol.py, together.
use Prim.Native.String.{len}
use nixos_control_manager.Prelude.{
  String, true, ◌≡◌, refl, Option, none, some, ◌==◌, eq_iff, arith, leb,
}
use nixos_control_manager.Json.{str}
use nixos_control_manager.Format.{is_sha256}
use nixos_control_manager.Protocol.{ok, ◌>>=◌, require, sha256_text}
use nixos_control_manager.Protocol.Candidate.{
  Action, create, modify, CandidateFile, parse_candidate, candidate_mapping, parse_action,
  parse_previous, action_text, previous_json, max_candidate_bytes,
}
use nixos_control_manager.Protocol.Sound.{IsCandidate, IsPrevious}

parse_action-action_text : (a : Action) → parse_action (action_text a) ≡ ok a
unfolding parse_action
parse_action-action_text create = refl
parse_action-action_text modify = refl

sha256_text-str : (d : String) → is_sha256 d ≡ true → sha256_text (str d) ≡ ok d
unfolding sha256_text ◌>>=◌ require
sha256_text-str d h = rw (h, require)

parse_previous-previous_json :
    (a : Action) (d : Option String) → IsPrevious a d → parse_previous a (previous_json d) ≡ ok d
unfolding parse_previous ◌>>=◌
parse_previous-previous_json create none h = refl
parse_previous-previous_json create (some d) h = absurd h
parse_previous-previous_json modify none h = absurd h
parse_previous-previous_json modify (some d) h = rw (sha256_text-str d h)

module _ (sha256 : String → String) where
  -- Every well-formed change survives the wire: what `to_mapping` writes, with its content,
  -- `from_mapping` accepts and reads as the same change.
  pub parse_candidate-candidate_mapping :
      (c : CandidateFile)
      → IsCandidate sha256 c
      → parse_candidate sha256 (candidate_mapping c true) ≡ ok c
  unfolding parse_candidate candidate_mapping ◌>>=◌ require
  parse_candidate-candidate_mapping c h =
      let fits : leb (len c.candidate) max_candidate_bytes ≡ true = ground arith in
      let same : (sha256 c.candidate == c.candidate_sha256) ≡ true =
        (eq_iff (sha256 c.candidate) c.candidate_sha256).1 h.digest in
      simp (
        h.plain,
        parse_action-action_text c.action,
        parse_previous-previous_json c.action c.previous_sha256 h.previous,
        h.text,
        fits,
        sha256_text-str c.candidate_sha256 h.well_formed,
        same,
      )
