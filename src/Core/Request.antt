-- ===== src/Core/Request.antt =====
-- des-core/src/request.rs: requests, their attempts and responses. A string is its bytes.
use des_cartes.Prelude.{ℕ, Bool, true, false, Option, none, List, []}
use des_cartes.Core.Time.{SimTime}

abbrev pub RequestId : Type 0
RequestId = ℕ

abbrev pub RequestAttemptId : Type 0
RequestAttemptId = ℕ

pub data RequestStatus : Type 0 where
  pending success exhausted : RequestStatus
  failed : (reason : List ℕ) → RequestStatus

pub record Request : Type 0 where
  pub id : RequestId
  pub created_at : SimTime
  pub payload : List ℕ
  pub attempts : List RequestAttemptId
  pub completed_at : Option SimTime
  pub status : RequestStatus

pub data AttemptStatus : Type 0 where
  pending success timeout server_error rejected : AttemptStatus

pub record RequestAttempt : Type 0 where
  pub id : RequestAttemptId
  pub request_id : RequestId
  pub attempt_number : ℕ
  pub started_at : SimTime
  pub completed_at : Option SimTime
  pub status : AttemptStatus
  pub payload : List ℕ

pub data ResponseStatus : Type 0 where
  ok : ResponseStatus
  error : (code : ℕ) (message : List ℕ) → ResponseStatus

pub record Response : Type 0 where
  pub attempt_id : RequestAttemptId
  pub request_id : RequestId
  pub completed_at : SimTime
  pub payload : List ℕ
  pub status : ResponseStatus

-- `RequestAttempt::new`.
abbrev pub new_attempt : RequestAttemptId → RequestId → ℕ → SimTime → List ℕ → RequestAttempt
new_attempt id request_id attempt_number started_at payload = record {
  id = id;
  request_id = request_id;
  attempt_number = attempt_number;
  started_at = started_at;
  completed_at = none;
  status = AttemptStatus.pending;
  payload = payload;
}

-- `Response::success` and `Response::error`.
abbrev pub success_response : RequestAttemptId → RequestId → SimTime → List ℕ → Response
success_response attempt_id request_id completed_at payload = record {
  attempt_id = attempt_id;
  request_id = request_id;
  completed_at = completed_at;
  payload = payload;
  status = ok;
}

abbrev pub error_response : RequestAttemptId → RequestId → SimTime → ℕ → List ℕ → Response
error_response attempt_id request_id completed_at code message = record {
  attempt_id = attempt_id;
  request_id = request_id;
  completed_at = completed_at;
  payload = [];
  status = error code message;
}

abbrev is_ok : ResponseStatus → Bool
is_ok ok = true
is_ok (error code message) = false

-- `Response::is_success`.
abbrev pub is_success : Response → Bool
is_success r = is_ok r.status
