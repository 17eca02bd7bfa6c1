-- ===== src/Tower/Concurrency.antt =====
-- des-tower/src/tower/limit/concurrency/mod.rs: the concurrency limit. The counter is a usize, a
-- waker a value of the type `W` that is returned when it is woken.
pub mod Slots
use des_cartes.Prelude.{
  ℕ, ◌+◌, ◌-◌, ◌%◌, ◌^◌, Bool, true, false, ◌&&◌, Option, none, some, List, [], ◌∷◌, ◌++◌, ltb,
  if◌then◌else◌, add_u64,
}
use des_cartes.Tower.{ServiceError, not_ready, Polled, pending, done, failed, Service}

-- What the clones of a limit share.
pub record Limiter (W : Type 0) : Type 0 where
  pub current_concurrency : ℕ
  pub waiters : List W

-- `DesConcurrencyLimitFuture`.
pub record LimitFuture (F : Type 0) : Type 0 where
  pub inner : Option F
  pub acquired : Bool
  pub immediate_error : Option ServiceError

module _ {W : Type 0} where
  abbrev pub new : Limiter W
  new = record { current_concurrency = 0; waiters = [] }

  -- `strong` is false where the weak exchange fails although the counter has not changed.
  abbrev pub try_acquire : ℕ → Bool → Limiter W → Bool × Limiter W
  try_acquire max_concurrency strong l =
      if ltb l.current_concurrency max_concurrency && strong
      then (true, record l { current_concurrency = add_u64 l.current_concurrency 1 })
      else (false, l)

  abbrev pub register_waker : W → Limiter W → Limiter W
  register_waker waker l = record l { waiters = l.waiters ++ waker ∷ [] }

  -- `fetch_sub(1)`, and the wakers that are woken.
  abbrev pub release : Limiter W → List W × Limiter W
  release l = (
    l.waiters,
    record { current_concurrency = (l.current_concurrency + (2 ^ 64 - 1)) % 2 ^ 64; waiters = [] },
  )

  -- `permit` is the flag of the service that is polled.
  abbrev pub ready_now : ℕ → Bool → W → Bool → Limiter W → Polled Unit × Bool × Limiter W
  ready_now max_concurrency strong waker true l = (done tt, true, l)
  ready_now max_concurrency strong waker false l =
      let (taken, l') = try_acquire max_concurrency strong l in
      if taken then (done tt, true, l') else (pending, false, register_waker waker l')

  -- `answer` is that of the service within.
  abbrev pub poll_ready :
      ℕ → Bool → W → Polled Unit → Bool → Limiter W → Polled Unit × Bool × Limiter W
  poll_ready max_concurrency strong waker (done _) permit l =
      ready_now max_concurrency strong waker permit l
  poll_ready max_concurrency strong waker (failed error) permit l = (failed error, permit, l)
  poll_ready max_concurrency strong waker pending permit l = (pending, permit, l)

  -- Whether the call has a slot.
  abbrev pub acquire_slot : ℕ → Bool → Bool → Limiter W → Bool × Limiter W
  acquire_slot max_concurrency strong true l = (true, l)
  acquire_slot max_concurrency strong false l = try_acquire max_concurrency strong l

  module _ {S F Req A : Type 0} (service : Service S F Req A) where
    -- The future, the service within and the limiter; the permit is used up.
    abbrev pub call : ℕ → Bool → Req → Bool → S → Limiter W → LimitFuture F × S × Limiter W
    call max_concurrency strong req permit inner l =
        let (acquired, l') = acquire_slot max_concurrency strong permit l in
        let (f, inner') = service.call req inner in
        if acquired
        then (record { inner = some f; acquired = true; immediate_error = none }, inner', l')
        else (
          record { inner = none; acquired = false; immediate_error = some not_ready },
          inner,
          l',
        )

    abbrev pub finished :
        Polled A → F → Bool → Limiter W → Polled A × LimitFuture F × List W × Limiter W
    finished pending f acquired l =
        (pending, record { inner = some f; acquired = acquired; immediate_error = none }, [], l)
    finished answer f true l =
        let (woken, l') = release l in
        (answer, record { inner = some f; acquired = false; immediate_error = none }, woken, l')
    finished answer f false l =
        (answer, record { inner = some f; acquired = false; immediate_error = none }, [], l)

    abbrev pub poll_inner :
        Option F → Bool → Limiter W → Polled A × LimitFuture F × List W × Limiter W
    poll_inner none acquired l = (
      failed not_ready,
      record { inner = none; acquired = acquired; immediate_error = none },
      [],
      l,
    )
    poll_inner (some f) acquired l =
        let (answer, f') = service.poll f in finished answer f' acquired l

    abbrev pub poll : LimitFuture F → Limiter W → Polled A × LimitFuture F × List W × Limiter W
    poll future l = elim future.immediate_error [
      | some error ↦ (failed error, record future { immediate_error = none }, [], l)
      | none ↦ poll_inner future.inner future.acquired l
    ]

  abbrev pub drop_future : {F : Type 0} → LimitFuture F → Limiter W → List W × Limiter W
  drop_future future l = if future.acquired then release l else ([], l)
