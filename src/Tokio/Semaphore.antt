-- ===== src/Tokio/Semaphore.antt =====
-- des-tokio/src/sync/batch_semaphore.rs: the FIFO semaphore on which `Semaphore` and `RwLock` stand.
-- A `Waker` is a value of the type `W`; an operation returns the wakers that it wakes, in order.
-- `none` is the panic "permit count overflow". The std mutex around the state serialises the calls.
pub mod Invariant
pub mod Polling
pub mod Reach
pub mod Ledger
pub mod Service
use des_cartes.Prelude.{
  ℕ, zero, suc, ◌+◌, ◌-◌, min, ◌≡◌, Bool, true, false, Option, none, some, List, [], ◌∷◌, ◌++◌, ltb,
  leb, ◌==◌, if◌then◌else◌, ◌>>=◌, is_empty, contains, insert, remove, add_u64, checked_add,
}

pub data TryAcquireError : Type 0 where
  closed no_permits : TryAcquireError

pub data TryAcquire : Type 0 where
  ok : TryAcquire
  err : TryAcquireError → TryAcquire

pub record Waiter {ℓ} (W : Type ℓ) : Type ℓ where
  pub waiter_id : ℕ
  pub required : ℕ
  pub remaining : ℕ
  pub waker : W

pub record State {ℓ} (W : Type ℓ) : Type ℓ where
  pub permits : ℕ
  pub is_closed : Bool
  pub next_waiter_id : ℕ
  pub queue : List (Waiter W)
  pub ready : List ℕ

-- What the loop of `add_permits_locked` leaves: the permits that nobody took, the queue, the set of
-- satisfied waiters, and the wakers in the order in which they are pushed.
pub record Assigned {ℓ} (W : Type ℓ) : Type ℓ where
  pub permits : ℕ
  pub queue : List (Waiter W)
  pub ready : List ℕ
  pub to_wake : List W

pub data Poll : Type 0 where
  ready_ok ready_err pending panicked : Poll

-- The future that `Semaphore::acquire` returns.
pub record Acquire : Type 0 where
  pub permits : ℕ
  pub waiter_id : Option ℕ
  pub completed : Bool

unfoldable pub acquire : ℕ → Acquire
acquire permits = record { permits = permits; waiter_id = none; completed = false }

module _ {ℓ} {W : Type ℓ} where
  unfoldable pub new : ℕ → State W
  new permits = record {
    permits = permits;
    is_closed = false;
    next_waiter_id = 0;
    queue = [];
    ready = [];
  }

  unfoldable pub assign : ℕ → List (Waiter W) → List ℕ → Assigned W
  assign available [] ready = record {
    permits = available;
    queue = [];
    ready = ready;
    to_wake = [];
  }
  assign available (front ∷ rest) ready =
      let left = front.remaining - min available front.remaining in
      let next =
        assign (available - min available front.remaining) rest (insert front.waiter_id ready) in
      if available == 0
      then record { permits = 0; queue = front ∷ rest; ready = ready; to_wake = [] }
      else if left == 0
      then record next { to_wake = front.waker ∷ next.to_wake }
      else record {
        permits = 0;
        queue = record front { remaining = left } ∷ rest;
        ready = ready;
        to_wake = [];
      }

  abbrev apply_assigned : State W → Assigned W → State W × List W
  apply_assigned s r =
      (record s { permits = r.permits; queue = r.queue; ready = r.ready }, r.to_wake)

  unfoldable pub add_permits_locked : ℕ → State W → Option (State W × List W)
  add_permits_locked added s = do
    available ← checked_add s.permits added
    some (apply_assigned s (assign available s.queue s.ready))

  unfoldable pub find_waiter : ℕ → List (Waiter W) → Option (Waiter W)
  find_waiter i [] = none
  find_waiter i (w ∷ ws) = if w.waiter_id == i then some w else find_waiter i ws

  unfoldable pub remove_waiter : ℕ → List (Waiter W) → List (Waiter W)
  remove_waiter i [] = []
  remove_waiter i (w ∷ ws) = if w.waiter_id == i then ws else w ∷ remove_waiter i ws

  -- The waiter with the id gets a new waker.
  unfoldable pub set_waker : ℕ → W → List (Waiter W) → List (Waiter W)
  set_waker i waker [] = []
  set_waker i waker (w ∷ ws) =
      if w.waiter_id == i then record w { waker = waker } ∷ ws else w ∷ set_waker i waker ws

  abbrev pub available_permits : State W → ℕ
  available_permits s = s.permits

  unfoldable pub try_acquire : ℕ → State W → TryAcquire × State W
  try_acquire permits s =
      if permits == 0
      then (ok, s)
      else if s.is_closed
      then (err closed, s)
      else if is_empty s.queue
      then (if ltb s.permits permits
          then (err no_permits, s)
          else (ok, record s { permits = s.permits - permits }))
      else (err no_permits, s)

  unfoldable pub add_permits : ℕ → State W → Option (State W × List W)
  unfolding add_permits_locked
  add_permits permits s = if permits == 0 then some (s, []) else add_permits_locked permits s

  abbrev pub wakers : List (Waiter W) → List W
  wakers [] = []
  wakers (w ∷ ws) = w.waker ∷ wakers ws

  unfoldable pub close : State W → State W × List W
  close s =
      if s.is_closed then (s, []) else (record s { is_closed = true; queue = [] }, wakers s.queue)

  -- A queued waiter leaves the queue and gives back what it was assigned so far.
  unfoldable pub cancel_queued : ℕ → State W → Option (State W × List W)
  unfolding find_waiter remove_waiter add_permits_locked
  cancel_queued i s = elim (find_waiter i s.queue) [
    | none ↦ some (s, [])
    | some w ↦
        let s' = record s { queue = remove_waiter i s.queue } in
        if w.required - w.remaining == 0
        then some (s', [])
        else add_permits_locked (w.required - w.remaining) s'
  ]

  unfoldable pub cancel_locked : Acquire → State W → Option (State W × List W)
  unfolding cancel_queued add_permits_locked
  cancel_locked f s = elim f.waiter_id [
    | none ↦ some (s, [])
    | some i ↦
        if contains i s.ready
        then add_permits_locked f.permits (record s { ready = remove i s.ready })
        else cancel_queued i s
  ]

  abbrev waiter : ℕ → ℕ → ℕ → W → Waiter W
  waiter i required remaining waker = record {
    waiter_id = i;
    required = required;
    remaining = remaining;
    waker = waker;
  }

  -- `poll` of a future that waits under the id `i`.
  unfoldable pub poll_waiting : ℕ → W → Acquire → State W → Poll × Acquire × State W
  unfolding find_waiter set_waker
  poll_waiting i waker f s =
      if contains i s.ready
      then (
        ready_ok,
        record f { waiter_id = none; completed = true },
        record s { ready = remove i s.ready },
      )
      else elim (find_waiter i s.queue) [
        | some w ↦ (pending, f, record s { queue = set_waker i waker s.queue })
        | none ↦ (ready_ok, record f { waiter_id = none; completed = true }, s)
      ]

  -- `poll` of a future that does not wait yet.
  unfoldable pub poll_first : W → Acquire → State W → Poll × Acquire × State W
  poll_first waker f s =
      let i = s.next_waiter_id in
      if is_empty s.queue
      then (if leb f.permits s.permits
          then (
            ready_ok,
            record f { completed = true },
            record s { permits = s.permits - f.permits },
          )
          else (
            pending,
            record f { waiter_id = some i },
            record s {
              permits = 0;
              next_waiter_id = add_u64 i 1;
              queue = waiter i f.permits (f.permits - s.permits) waker ∷ [];
            },
          ))
      else (
        pending,
        record f { waiter_id = some i },
        record s {
          next_waiter_id = add_u64 i 1;
          queue = s.queue ++ waiter i f.permits f.permits waker ∷ [];
        },
      )

  -- `Acquire::poll` by a task of the runtime, or outside of it (`none`).
  unfoldable pub poll : Option ℕ → W → Acquire → State W → Poll × Acquire × State W
  unfolding poll_waiting poll_first
  poll task waker f s = if f.completed then (ready_ok, f, s) else elim task [
    | none ↦ (panicked, f, s)
    | some _ ↦
        if s.is_closed
        then (ready_err, f, s)
        else elim f.waiter_id [ some i ↦ poll_waiting i waker f s | none ↦ poll_first waker f s ]
  ]

  -- `Drop for Acquire`.
  unfoldable pub drop_acquire : Acquire → State W → Option (State W × List W)
  unfolding cancel_locked
  drop_acquire f s = if f.completed then some (s, []) else cancel_locked f s
