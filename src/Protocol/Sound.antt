-- ===== src/Protocol/Sound.antt =====
-- What the parsers of helper_protocol.py are to ensure of a message.
use Prim.Native.String.{len}
use nixos_control_manager.Prelude.{
  ℕ, String, Bool, true, ◌≡◌, refl, ◌≤◌, Option, none, some, List, [], ◌∷◌, All, arith, length,
  distinct, eq_iff, ap, suc, if◌then◌else◌,
}
use nixos_control_manager.Json.{Json, Items, nil, cons, elements}
use nixos_control_manager.Format.{codes, is_target_id, is_sha256}
use nixos_control_manager.Format.Labels.{is_plain_label}
use nixos_control_manager.Protocol.{
  ok, Ensures, returns, raises, Ensures-eq_ok, step, known, checked, both, target_id, sha256_text,
}
use nixos_control_manager.Protocol.Candidate.{
  Action, create, modify, CandidateFile, parse_candidate, parse_previous, no_nul,
  max_candidate_bytes,
}
use nixos_control_manager.Protocol.Plans.{
  ValidatePlanPayload, ValidateFlakeLockUpdatePayload, parse_changes, parse_plan, paths,
  parse_flake_lock_update, only_flake_lock, max_changes,
}

-- A create has no previous digest, and a modify has a well-formed one.
abbrev pub IsPrevious : Action → Option String → Type 0
IsPrevious create none = Unit
IsPrevious create (some d) = ⊥
IsPrevious modify none = ⊥
IsPrevious modify (some d) = is_sha256 d ≡ true

pub record IsCandidate (sha256 : String → String) (c : CandidateFile) : Type 0 where
  pub plain : is_plain_label (codes c.relative_path) ≡ true
  pub previous : IsPrevious c.action c.previous_sha256
  pub text : no_nul c.candidate ≡ true
  pub fits : len c.candidate ≤ max_candidate_bytes
  pub well_formed : is_sha256 c.candidate_sha256 ≡ true
  pub digest : sha256 c.candidate ≡ c.candidate_sha256

pub record IsPlan (sha256 : String → String) (least : ℕ) (p : ValidatePlanPayload) : Type 0 where
  pub target : is_target_id p.target_id ≡ true
  pub fingerprint : is_sha256 p.plan_fingerprint ≡ true
  pub at_least : least ≤ length p.changes
  pub at_most : length p.changes ≤ max_changes
  pub distinct_paths : distinct (paths p.changes) ≡ true
  pub candidates : All (IsCandidate sha256) p.changes

target_id-Ensures : (v : Json) → Ensures (λ t. is_target_id t ≡ true) (target_id v)
unfolding target_id
target_id-Ensures v = step _ _ λ t. checked _ _ _ λ h. returns h

sha256_text-Ensures : (v : Json) → Ensures (λ t. is_sha256 t ≡ true) (sha256_text v)
unfolding sha256_text
sha256_text-Ensures v = step _ _ λ t. checked _ _ _ λ h. returns h

parse_previous-Ensures : (a : Action) (v : Json) → Ensures (IsPrevious a) (parse_previous a v)
unfolding parse_previous
parse_previous-Ensures create Json.null = returns tt
parse_previous-Ensures create _ = raises
parse_previous-Ensures modify v = known _ _ (sha256_text-Ensures v) λ d h. returns h

only_flake_lock-paths :
    (cs : List CandidateFile) → only_flake_lock cs ≡ true → paths cs ≡ "flake.lock" ∷ []
only_flake_lock-paths [] h = cc
only_flake_lock-paths (c ∷ []) h = ap (λ p. p ∷ []) ((eq_iff c.relative_path "flake.lock").0 h)
only_flake_lock-paths (c ∷ d ∷ cs) h = cc

module _ (sha256 : String → String) where
  parse_candidate-Ensures : (v : Json) → Ensures (IsCandidate sha256) (parse_candidate sha256 v)
  unfolding parse_candidate
  parse_candidate-Ensures v = step _ _ λ fs. step _ _ λ _. step _ _ λ _. step _ _ λ path.
      checked _ _ _ λ plain. step _ _ λ _. step _ _ λ _. step _ _ λ action. step _ _ λ before.
        known _ _ (parse_previous-Ensures action before) λ previous h. step _ _ λ _.
          step _ _ λ text. checked _ _ _ λ clean. checked _ _ _ λ fits. step _ _ λ _.
            known _ _ (sha256_text-Ensures _) λ digest well_formed. checked _ _ _ λ same.
              returns (record {
                plain = plain;
                previous = h;
                text = clean;
                fits = ground arith;
                well_formed = well_formed;
                digest = (eq_iff (sha256 text) digest).0 same;
              })

  -- A change that the protocol accepts is well formed: its path is a plain relative label, a
  -- create has no previous digest and a modify has one of 64 hex digits, the content has no NUL
  -- and at most 1,000,000 bytes, and the digest is that of the content.
  pub parse_candidate-IsCandidate :
      (v : Json) {c : CandidateFile} → parse_candidate sha256 v ≡ ok c → IsCandidate sha256 c
  parse_candidate-IsCandidate v e = Ensures-eq_ok (IsCandidate sha256) (parse_candidate-Ensures v) e

  parse_changes-Ensures :
      (vs : Items) → Ensures (All (IsCandidate sha256)) (parse_changes sha256 vs)
  unfolding parse_changes
  parse_changes-Ensures nil = returns tt
  parse_changes-Ensures (cons v vs) =
      known _ _ (parse_candidate-Ensures v)
        λ c h. known _ _ (parse_changes-Ensures vs) λ cs hs. returns (h, hs)

  parse_changes-length :
      (vs : Items) → Ensures (λ cs. length cs ≡ length (elements vs)) (parse_changes sha256 vs)
  unfolding parse_changes
  parse_changes-length nil = returns refl
  parse_changes-length (cons v vs) =
      step _ _ λ c. known _ _ (parse_changes-length vs) λ cs h. returns (ap suc h)

  parse_changes-known :
      (vs : Items)
      → Ensures
          (λ cs. All (IsCandidate sha256) cs × (length cs ≡ length (elements vs)))
          (parse_changes sha256 vs)
  parse_changes-known vs = both (parse_changes-Ensures vs) (parse_changes-length vs)

  abbrev least : Bool → ℕ
  least allow_empty = if allow_empty then 0 else 1

  parse_plan-Ensures :
      (allow_empty : Bool) (v : Json)
      → Ensures (IsPlan sha256 (least allow_empty)) (parse_plan sha256 allow_empty v)
  unfolding parse_plan
  parse_plan-Ensures allow_empty v = step _ _ λ fs. step _ _ λ _. step _ _ λ _. step _ _ λ items.
      checked _ _ _ λ bounds. known _ _ (parse_changes-known items) λ changes good.
        checked _ _ _ λ apart. step _ _ λ _. known _ _ (target_id-Ensures _) λ target is_target.
          step _ _ λ _. known _ _ (sha256_text-Ensures _) λ fingerprint is_digest. returns (record {
            target = is_target;
            fingerprint = is_digest;
            at_least = ground arith;
            at_most = ground arith;
            distinct_paths = apart;
            candidates = good.0;
          })

  -- A plan that the protocol accepts names a target and a fingerprint of the right form, has one
  -- to sixteen changes (or none, where that is allowed), no path twice, and only well-formed
  -- changes.
  pub parse_plan-IsPlan :
      (allow_empty : Bool) (v : Json) {p : ValidatePlanPayload}
      → parse_plan sha256 allow_empty v ≡ ok p
      → IsPlan sha256 (least allow_empty) p
  parse_plan-IsPlan allow_empty v e =
      Ensures-eq_ok (IsPlan sha256 (least allow_empty)) (parse_plan-Ensures allow_empty v) e

  parse_flake_lock_update-Ensures :
      (v : Json)
      → Ensures (λ u. paths u.changes ≡ "flake.lock" ∷ []) (parse_flake_lock_update sha256 v)
  unfolding parse_flake_lock_update
  parse_flake_lock_update-Ensures v = step _ _ λ fs. step _ _ λ _. step _ _ λ _. step _ _ λ _.
      step _ _ λ _. step _ _ λ plan. step _ _ λ _. step _ _ λ _. checked _ _ _ λ _.
        checked _ _ _
          λ only. step _ _ λ _. step _ _ λ _. returns (only_flake_lock-paths plan.changes only)

  -- A flake.lock update that the protocol accepts has exactly one change, and that is of
  -- `flake.lock`.
  pub parse_flake_lock_update-paths :
      (v : Json) {u : ValidateFlakeLockUpdatePayload}
      → parse_flake_lock_update sha256 v ≡ ok u
      → paths u.changes ≡ "flake.lock" ∷ []
  parse_flake_lock_update-paths v e =
      Ensures-eq_ok (λ u. paths u.changes ≡ "flake.lock" ∷ []) (parse_flake_lock_update-Ensures v) e
