-- ===== src/Tower/Breaker.antt =====
-- des-tower/src/tower/circuit_breaker/mod.rs: the circuit breaker. A recovery timer is the task that
-- sleeps for the recovery timeout; it carries the generation of the opening that spawned it.
pub mod Guarded
use des_cartes.Prelude.{
  ℕ, Bool, true, false, Option, none, some, List, [], ◌∷◌, leb, if◌then◌else◌, ◌==◌, get_elem?,
  erase_idx, add_u64,
}
use des_cartes.Tower.{
  ServiceError, overloaded, circuit_breaker_invalid_state, Polled, pending, done, failed, Service,
}

pub data BreakerState : Type 0 where
  closed : (failure_count : ℕ) → BreakerState
  opened : (generation : ℕ) → BreakerState
  half_open : BreakerState

-- `DesCircuitBreakerFuture`.
pub record BreakerFuture (F : Type 0) : Type 0 where
  pub inner : Option F
  pub immediate_error : Option ServiceError

abbrev pub new : BreakerState
new = closed 0

abbrev pub should_allow_request : BreakerState → Bool
should_allow_request (closed failure_count) = true
should_allow_request (opened generation) = false
should_allow_request half_open = true

-- The new state after a failure, and the generation of the recovery timer that it spawns.
abbrev pub on_failure : ℕ → BreakerState → BreakerState × Option ℕ
on_failure threshold (closed failure_count) =
    let new_count = add_u64 failure_count 1 in
    if leb threshold new_count then (opened 1, some 1) else (closed new_count, none)
on_failure threshold half_open = (opened 1, some 1)
on_failure threshold (opened generation) = (opened generation, none)

-- What a recovery timer does when it is over.
abbrev pub recover : ℕ → BreakerState → BreakerState
recover generation (opened g) = if g == generation then half_open else opened g
recover generation (closed failure_count) = closed failure_count
recover generation half_open = half_open

module _ {S F Req A : Type 0} (service : Service S F Req A) where
  abbrev pub poll_ready : BreakerState → S → Polled Unit × S
  poll_ready state inner =
      if should_allow_request state then service.poll_ready inner else (failed overloaded, inner)

  abbrev pub call : Req → BreakerState → S → BreakerFuture F × S
  call req state inner =
      let (f, inner') = service.call req inner in
      if should_allow_request state
      then (record { inner = some f; immediate_error = none }, inner')
      else (record { inner = none; immediate_error = some overloaded }, inner)

  abbrev pub after_inner : ℕ → BreakerState → Polled A → Polled A × BreakerState × Option ℕ
  after_inner threshold state pending = (pending, state, none)
  after_inner threshold state (done response) = (done response, closed 0, none)
  after_inner threshold state (failed error) =
      let (state', timer) = on_failure threshold state in (failed error, state', timer)

  -- The answer, the state, the timer to spawn and what is left of the future.
  abbrev pub poll_inner :
      ℕ → BreakerState → Option F → Polled A × BreakerState × Option ℕ × BreakerFuture F
  poll_inner threshold state none = (
    failed circuit_breaker_invalid_state,
    state,
    none,
    record { inner = none; immediate_error = none },
  )
  poll_inner threshold state (some f) =
      let (result, f') = service.poll f in
      let (answer, state', timer) = after_inner threshold state result in
      (answer, state', timer, record { inner = some f'; immediate_error = none })

  abbrev pub poll :
      ℕ → BreakerState → BreakerFuture F → Polled A × BreakerState × Option ℕ × BreakerFuture F
  poll threshold state future = elim future.immediate_error [
    | some error ↦ (failed error, state, none, record future { immediate_error = none })
    | none ↦ poll_inner threshold state future.inner
  ]

-- The shared state with the recovery timers that are asleep.
pub record Shared : Type 0 where
  pub state : BreakerState
  pub timers : List ℕ

abbrev pub spawn : Option ℕ → List ℕ → List ℕ
spawn none timers = timers
spawn (some generation) timers = generation ∷ timers

abbrev pub shared_poll :
    {S F Req A : Type 0} → Service S F Req A → ℕ → BreakerFuture F → Shared → Shared
shared_poll service threshold future w =
    let (answer, state, timer, future') = poll service threshold w.state future in
    record { state = state; timers = spawn timer w.timers }

-- The timer at an index is over.
abbrev pub fire : ℕ → Shared → Shared
fire i w = elim (get_elem? w.timers i) [
  | none ↦ w
  | some generation ↦ record { state = recover generation w.state; timers = erase_idx w.timers i }
]
