-- ===== src/Protocol/Errors.antt =====
-- The exceptions of the helper, and results that may raise one.
use nixos_control_manager.Prelude.{String, Bool, true, false, ◌≡◌, refl, subst}

-- The `code` of a `HelperProtocolError`.
pub data Code : Type 0 where
  invalid_request invalid_target invalid_digest invalid_user invalid_integration : Code
  invalid_package invalid_store_path invalid_receipt invalid_peer : Code
  unsupported_version unsupported_operation path_not_allowed request_too_large : Code
  unknown_target operation_disabled : Code

-- `backend` is a `HelperBackendError` with its code and message, and `crash` any exception other than the two classes of the helper.
pub data Raised : Type 0 where
  protocol : Code → Raised
  backend : String → String → Raised
  crash : Raised

pub data Result {ℓ} (A : Type ℓ) : Type ℓ where
  ok : A → Result A
  err : Raised → Result A

module _ {ℓ κ} {A : Type ℓ} {B : Type κ} where
  infixl 5 ◌>>=◌
  unfoldable pub ◌>>=◌ : Result A → (A → Result B) → Result B
  ok value >>= next = next value
  err failure >>= next = err failure

-- A step whose value, the only one of its type, is not used.
infixl 5 ◌>>◌
abbrev pub ◌>>◌ {ℓ} : {B : Type ℓ} → Result (Unit {0}) → Result B → Result B
first >> second = first >>= λ _. second

-- `if not test: raise HelperProtocolError(code, …)`
unfoldable pub require : Bool → Code → Result (Unit {0})
require true c = ok tt
require false c = err (protocol c)

-- What holds of the value, if one is returned: a family, and a rule for each form of step.
pub data Ensures {ℓ κ} {A : Type ℓ} (P : A → Type κ) : Result A → Type (ℓ ⊔ κ) where
  returns : {a : A} → P a → Ensures P (ok a)
  raises : {e : Raised} → Ensures P (err e)

module _ {ℓ κ} {A : Type ℓ} (P : A → Type κ) where
  pub Ensures-eq_ok : {a : A} {r : Result A} → Ensures P r → r ≡ ok a → P a
  Ensures-eq_ok {a} (returns {a = a'} p) e = let same : a' ≡ a = cc in subst P same p
  Ensures-eq_ok raises e = cc

module _ {ℓ κ μ} {A : Type ℓ} {B : Type κ} {P : B → Type μ} where
  -- A step of which nothing is used.
  pub step : (m : Result A) (f : A → Result B) → ((a : A) → Ensures P (f a)) → Ensures P (m >>= f)
  unfolding ◌>>=◌
  step (ok a) f k = k a
  step (err e) f k = raises

module _ {ℓ κ μ ν} {A : Type ℓ} {B : Type κ} {P : B → Type μ} {Q : A → Type ν} where
  -- A step that ensures `Q`.
  pub known :
      (m : Result A) (f : A → Result B)
      → Ensures Q m
      → ((a : A) → Q a → Ensures P (f a))
      → Ensures P (m >>= f)
  unfolding ◌>>=◌
  known (ok a) f (returns q) k = k a q
  known (err e) f raises k = raises

module _ {ℓ κ} {B : Type ℓ} {P : B → Type κ} where
  -- A test that has passed.
  pub checked :
      (b : Bool) (c : Code) (r : Result B) → (b ≡ true → Ensures P r) → Ensures P (require b c >> r)
  unfolding ◌>>=◌ require
  checked true c r k = k refl
  checked false c r k = raises

module _ {ℓ κ μ} {A : Type ℓ} {P : A → Type κ} {Q : A → Type μ} where
  pub both : {r : Result A} → Ensures P r → Ensures Q r → Ensures (λ a. P a × Q a) r
  both {r = ok a} (returns p) (returns q) = returns (p, q)
  both {r = err e} raises raises = raises

-- Every step ensures the equation of its own outcome.
pub Ensures-self {ℓ} : {A : Type ℓ} (m : Result A) → Ensures (λ a. m ≡ ok a) m
Ensures-self (ok a) = returns refl
Ensures-self (err e) = raises
