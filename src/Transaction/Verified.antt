-- ===== src/Transaction/Verified.antt =====
-- What `_finalize_validated_transaction` of transaction.py asks of a validation and a manifest.
use nixos_control_manager.Prelude.{
  refl, String, true, ◌&&◌, ◌≡◌, some, List, [], ◌∷◌, ◌==◌, eq_iff, and_elim, or_elim, ◌⊎◌, inl,
  inr,
}
use nixos_control_manager.Transaction.State.{Check, Manifest}
use nixos_control_manager.Transaction.Disk.{is_empty}
use nixos_control_manager.Transaction.Recover.{
  Validation, verification_summary, has_evaluation, allows, kind_of,
}
use text.Mathlib.Text.{starts_with}

-- One of the checks evaluated the configuration, and passed.
abbrev pub Evaluated : List Check → Type 0
Evaluated [] = ⊥
Evaluated (c ∷ cs) = ((c.status ≡ "passed") × (starts_with c.name "Evaluate" ≡ true)) ⊎ Evaluated cs

check-passed :
    (c : Check)
    → (c.status == "passed" && starts_with c.name "Evaluate") ≡ true
    → (c.status ≡ "passed") × (starts_with c.name "Evaluate" ≡ true)
check-passed c e = let (a, b) = and_elim _ _ e in ((eq_iff c.status "passed").0 a, b)

pub has_evaluation-Evaluated : (cs : List Check) → has_evaluation cs ≡ true → Evaluated cs
unfolding has_evaluation
has_evaluation-Evaluated [] e = cc
has_evaluation-Evaluated (c ∷ cs) e =
    elim (or_elim (c.status == "passed" && starts_with c.name "Evaluate") (has_evaluation cs) e) [
      | inl here ↦ inl (check-passed c here)
      | inr there ↦ inr (has_evaluation-Evaluated cs there)
    ]

pub is_empty-eq : (xs : List String) → is_empty xs ≡ true → xs ≡ []
is_empty-eq [] e = refl
is_empty-eq (x ∷ xs) e = cc

pub allows-eq : (wanted k : String) → allows (some wanted) k ≡ true → k ≡ wanted
allows-eq wanted k e = (eq_iff k wanted).0 e

-- What has been checked when a transaction of one workflow is finalized.
pub record IsVerified (root kind : String) (v : Validation) (m : Manifest) : Type 0 where
  pub own_root : m.configuration_root ≡ root
  pub own_kind : kind_of m.transaction_kind ≡ kind
  pub awaiting : m.state ≡ "awaiting-verification"
  pub passed : v.status ≡ "passed"
  pub removed : v.working_copy_removed ≡ true
  pub no_changes : v.candidate_files ≡ []
  pub evaluated : Evaluated v.checks

-- The manifest that a finalized transaction has.
abbrev pub concluded : Validation → Manifest → Manifest
concluded v m = record m { post_verification = some (verification_summary v); state = "committed" }
