-- ===== src/Helper/Response.antt =====
-- `response_mapping` and `_response_id`, and the receipts' common test.
use Prim.Native.String.{count}
use nixos_control_manager.Prelude.{
  ℕ, String, ◌&&◌, ◌≡◌, Option, none, some, ◌==◌, eq_iff, nat_eq, leb, arith, if◌then◌else◌,
}
use nixos_control_manager.Json.{Json, Fields, str, obj, get}
use nixos_control_manager.Protocol.{
  Code, Raised, protocol, backend, crash, Result, ok, err, invalid_receipt,
}
use nixos_control_manager.Protocol.Receipts.{TestActivationPayload}
use nixos_control_manager.Helper.State.{Pending, PendingTestActivation}

pub data Status : Type 0 where
  status_ok status_error status_denied : Status

-- The `code` of a response's error.
pub data ErrorCode : Type 0 where
  code : Code → ErrorCode
  backend_code : String → ErrorCode
  internal_error validation_failed authorization_denied : ErrorCode

pub record Response : Type 0 where
  pub request_id : String
  pub status : Status
  pub result : Option Fields
  pub error : Option ErrorCode

abbrev pub ok_response : String → Fields → Response
ok_response request_id fs = record {
  request_id = request_id;
  status = status_ok;
  result = some fs;
  error = none;
}

abbrev pub denied_response : String → Response
denied_response request_id = record {
  request_id = request_id;
  status = status_denied;
  result = none;
  error = some authorization_denied;
}

abbrev pub failed_validation : String → Fields → Response
failed_validation request_id fs = record {
  request_id = request_id;
  status = status_error;
  result = some fs;
  error = some validation_failed;
}

-- The three `except` clauses of `handle`. An error is left out if its code or message is empty.
unfoldable pub error_of : Raised → Option ErrorCode
error_of (protocol c) = some (code c)
error_of (backend c message) =
    if c == "" then none else if message == "" then none else some (backend_code c)
error_of crash = some internal_error

unfoldable pub error_response : String → Raised → Response
unfolding error_of
error_response request_id e = record {
  request_id = request_id;
  status = status_error;
  result = none;
  error = error_of e;
}

abbrev usable_id : Option Json → String
usable_id (some (str s)) = if leb 1 (count s) && leb (count s) 64 then s else "unknown-request"
usable_id _ = "unknown-request"

-- `_response_id`
unfoldable pub response_id : Json → String
unfolding get
response_id (obj fs) = usable_id (get "requestId" fs)
response_id _ = "unknown-request"

module _ {P : Type 0} (target_of fingerprint_of : P → String) where
  -- The test that the four `_apply…` methods make of a receipt's entry.
  unfoldable pub matching : Option (Pending P) → ℕ → String → String → Result (Pending P)
  matching none uid target fingerprint = err (protocol invalid_receipt)
  matching (some p) uid target fingerprint =
      if nat_eq p.peer_uid uid
        && target_of p.payload == target
        && fingerprint_of p.payload == fingerprint
      then ok p
      else err (protocol invalid_receipt)

  -- An entry that passes is the one found; its user, target and fingerprint are the request's.
  pub matching-eq_ok :
      (o : Option (Pending P)) (uid : ℕ) (target fingerprint : String) {p : Pending P}
      → matching o uid target fingerprint ≡ ok p
      → (o ≡ some p)
        × (p.peer_uid ≡ uid)
        × (target_of p.payload ≡ target)
        × (fingerprint_of p.payload ≡ fingerprint)
  unfolding matching
  matching-eq_ok none uid target fingerprint h = cc
  matching-eq_ok (some q) uid target fingerprint h =
      ground
        (arith, eq_iff (target_of q.payload) target, eq_iff (fingerprint_of q.payload) fingerprint)

-- The test that `_test_activation` makes of a test receipt's entry.
unfoldable pub matching_test :
    Option PendingTestActivation → ℕ → TestActivationPayload → Result PendingTestActivation
matching_test none uid payload = err (protocol invalid_receipt)
matching_test (some p) uid payload =
    if nat_eq p.peer_uid uid
      && p.payload.target_id == payload.target_id
      && p.payload.plan_fingerprint == payload.plan_fingerprint
      && p.payload.system_path == payload.system_path
    then ok p
    else err (protocol invalid_receipt)

pub matching_test-eq_ok :
    (o : Option PendingTestActivation) (uid : ℕ) (payload : TestActivationPayload)
    {p : PendingTestActivation}
    → matching_test o uid payload ≡ ok p
    → (o ≡ some p)
      × (p.peer_uid ≡ uid)
      × (p.payload.target_id ≡ payload.target_id)
      × (p.payload.plan_fingerprint ≡ payload.plan_fingerprint)
      × (p.payload.system_path ≡ payload.system_path)
unfolding matching_test
matching_test-eq_ok none uid payload h = cc
matching_test-eq_ok (some q) uid payload h = ground (
  arith,
  eq_iff q.payload.target_id payload.target_id,
  eq_iff q.payload.plan_fingerprint payload.plan_fingerprint,
  eq_iff q.payload.system_path payload.system_path,
)
