-- ===== src/Tower.antt =====
-- des-tower/src/tower: layers around a service. The service within is a parameter; a poll of its
-- future is pending, done or failed. State that the clones of a layer share is passed explicitly.
pub mod Breaker
pub mod Concurrency
use des_cartes.Prelude.{ℕ, List}

-- `ServiceError` of des-tower/src/tower/mod.rs.
pub data ServiceError : Type 0 where
  not_ready cancelled overloaded : ServiceError
  timeout : (duration : ℕ) → ServiceError
  internal http : (text : List ℕ) → ServiceError
  circuit_breaker_invalid_state rate_limiter_invalid_state : ServiceError
  http_response_builder : (message : List ℕ) → ServiceError

-- `Poll<Result<A, ServiceError>>`.
pub data Polled (A : Type 0) : Type 0 where
  pending : Polled A
  done : A → Polled A
  failed : ServiceError → Polled A

-- The trait `Service` with the future of its calls.
pub record Service (S F Req A : Type 0) : Type 0 where
  pub poll_ready : S → Polled Unit × S
  pub call : Req → S → F × S
  pub poll : F → Polled A × F
