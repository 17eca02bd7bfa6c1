-- ===== src/Tokio/Mutex.antt =====
-- des-tokio/src/sync/mutex.rs: the mutex. A `Waker` is a value of the type `W`; the operations are
-- given the id of the calling task and the current time, and return the concurrency event that they
-- record. `try_lock` and `poll` are called while a task is polled; a guard may also be dropped when no
-- task is polled, as by `cancel_task`, and then has no id of a task. The installed policy that chooses
-- a waiter is a parameter with a state of the type `P`.
pub mod Guards
use des_cartes.Prelude.{
  ℕ, zero, suc, ◌+◌, ◌-◌, min, Bool, true, false, Option, none, some, List, [], ◌∷◌, ◌++◌, ◌==◌,
  if◌then◌else◌, map, length, add_u64, contains, ◌>>=◌,
}
use des_cartes.Core.Time.{SimTime}

pub record WaiterInfo : Type 0 where
  pub waiter_id : ℕ
  pub task_id : ℕ

-- The trait `MutexWaiterPolicy`.
pub record WaiterPolicy {κ} (P : Type κ) : Type κ where
  pub choose : P → SimTime → List WaiterInfo → ℕ × P

abbrev pub fifo_waiter_policy : WaiterPolicy (Unit {0})
fifo_waiter_policy = record { choose = λ p t waiters. (0, p) }

pub record Waiter {ℓ} (W : Type ℓ) : Type ℓ where
  pub waiter_id : ℕ
  pub task_id : ℕ
  pub waker : W

pub record State {ℓ} (W : Type ℓ) : Type ℓ where
  pub locked : Bool
  pub owner_task_id : Option ℕ
  pub next_waiter_id : ℕ
  pub waiters : List (Waiter W)

pub data MutexEvent : Type 0 where
  contended : (task_id : ℕ) (time_nanos : Option ℕ) (waiter_count : ℕ) → MutexEvent
  acquired released : (task_id : ℕ) (time_nanos : Option ℕ) → MutexEvent

-- `VecDeque::remove`.
unfoldable pub remove_at {ℓ} : {A : Type ℓ} → List A → ℕ → Option (A × List A)
remove_at [] i = none
remove_at (x ∷ xs) zero = some (x, xs)
remove_at (x ∷ xs) (suc i) = remove_at xs i >>= λ r. some (r.0, x ∷ r.1)

module _ {ℓ} {W : Type ℓ} where
  abbrev pub new : State W
  new = record { locked = false; owner_task_id = none; next_waiter_id = 0; waiters = [] }

  abbrev pub acquire : ℕ → State W → State W
  acquire task_id s = record s { locked = true; owner_task_id = some task_id }

  -- Whether a guard is given out.
  unfoldable pub try_lock : ℕ → Option ℕ → State W → Bool × State W × MutexEvent
  try_lock task_id now s =
      if s.locked
      then (false, s, contended task_id now (length s.waiters))
      else (true, acquire task_id s, acquired task_id now)

  abbrev pub task_ids : List (Waiter W) → List ℕ
  task_ids = map (λ w. w.task_id)

  -- The first waiter of the task gets the new waker.
  unfoldable pub renew : ℕ → W → List (Waiter W) → List (Waiter W)
  renew task_id waker [] = []
  renew task_id waker (w ∷ ws) =
      let rest = renew task_id waker ws in
      if w.task_id == task_id then record w { waker = waker } ∷ ws else w ∷ rest

  -- The waiters after a poll of a locked mutex.
  unfoldable pub enqueue : ℕ → ℕ → W → List (Waiter W) → List (Waiter W)
  unfolding renew
  enqueue waiter_id task_id waker waiters =
      if contains task_id (task_ids waiters)
      then renew task_id waker waiters
      else waiters ++ record { waiter_id = waiter_id; task_id = task_id; waker = waker } ∷ []

  -- `LockFuture::poll`: whether it is ready with a guard.
  unfoldable pub poll : ℕ → Option ℕ → W → State W → Bool × State W × MutexEvent
  unfolding enqueue
  poll task_id now waker s =
      if s.locked
      then (
        false,
        record s {
          next_waiter_id = add_u64 s.next_waiter_id 1;
          waiters = enqueue s.next_waiter_id task_id waker s.waiters;
        },
        contended task_id now (length s.waiters),
      )
      else (true, acquire task_id s, acquired task_id now)

  abbrev pub to_info : Waiter W → WaiterInfo
  to_info w = record { waiter_id = w.waiter_id; task_id = w.task_id }

  abbrev pub unlocked : State W → State W
  unlocked s = record s { locked = false; owner_task_id = none }

  module _ {P : Type ℓ} (policy : WaiterPolicy P) where
    -- The waiter that the policy chooses is taken out; `none` is the failed `expect`.
    unfoldable pub wake_chosen :
        List (Waiter W) → P → SimTime → State W → Option (State W × P × List W)
    unfolding remove_at
    wake_chosen [] p time s = some (unlocked s, p, [])
    wake_chosen (w ∷ ws) p time s =
        let (chosen, p') = policy.choose p time (map to_info (w ∷ ws)) in
        remove_at (w ∷ ws) (min chosen (length (w ∷ ws) - 1)) >>= λ r.
        some (record (unlocked s) { waiters = r.1 }, p', r.0.waker ∷ [])

    -- `drop` of a guard, and the event that it records. Where no task is polled, the panic of
    -- `current_task_id_u64` comes first.
    unfoldable pub drop_guard :
        Option ℕ
        → Option ℕ
        → P
        → SimTime
        → State W
        → Option (State W × P × List W) × Option MutexEvent
    unfolding wake_chosen
    drop_guard none now p time s = (none, none)
    drop_guard (some task_id) now p time s =
        (wake_chosen s.waiters p time s, some (released task_id now))
