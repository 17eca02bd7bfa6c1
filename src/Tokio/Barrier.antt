-- ===== src/Tokio/Barrier.antt =====
-- des-tokio/src/sync/barrier.rs: the barrier. A `Waker` is a value of the type `W`; a poll returns the
-- wakers that it wakes, in order, and is given the id of the task that polls.
pub mod Present
pub mod Soundness
pub mod Generations
use des_cartes.Prelude.{
  ℕ, ◌+◌, ◌-◌, Bool, true, false, not, Option, none, some, List, [], ◌∷◌, ◌++◌, ◌==◌, if◌then◌else◌,
  map, add_u64,
}

pub record Waiter {ℓ} (W : Type ℓ) : Type ℓ where
  pub task_id : ℕ
  pub waker : W

pub record Barrier {ℓ} (W : Type ℓ) : Type ℓ where
  pub parties : ℕ
  pub arrived : ℕ
  pub generation : ℕ
  pub waiters : List (Waiter W)

pub record Wait : Type 0 where
  pub generation : ℕ
  pub task_id : Option ℕ
  pub registered : Bool

pub data WaitPoll : Type 0 where
  ready : (is_leader : Bool) → WaitPoll
  pending : WaitPoll

-- The task that polls first is the future's task.
abbrev pub task_of : Option ℕ → ℕ → ℕ
task_of none task = task
task_of (some id) task = id

module _ {ℓ} {W : Type ℓ} where
  -- `none` is the failed assertion.
  unfoldable pub new : ℕ → Option (Barrier W)
  new parties =
      if parties == 0
      then none
      else some (record { parties = parties; arrived = 0; generation = 0; waiters = [] })

  abbrev pub wait : Barrier W → Wait
  wait b = record { generation = b.generation; task_id = none; registered = false }

  -- The first waiter of the task gets the new waker.
  unfoldable pub renew : ℕ → W → List (Waiter W) → List (Waiter W)
  renew task_id waker [] = []
  renew task_id waker (w ∷ ws) =
      let rest = renew task_id waker ws in
      if w.task_id == task_id then record w { waker = waker } ∷ ws else w ∷ rest

  -- The first poll in the current generation.
  unfoldable pub arrive : ℕ → W → Wait → Barrier W → WaitPoll × Wait × Barrier W × List W
  arrive task_id waker f b =
      if b.arrived + 1 == b.parties
      then (
        ready true,
        f,
        record b { generation = add_u64 b.generation 1; arrived = 0; waiters = [] },
        map (λ w. w.waker) b.waiters,
      )
      else (
        pending,
        record f { registered = true },
        record b {
          arrived = b.arrived + 1;
          waiters = b.waiters ++ record { task_id = task_id; waker = waker } ∷ [];
        },
        [],
      )

  unfoldable pub poll : ℕ → W → Wait → Barrier W → WaitPoll × Wait × Barrier W × List W
  unfolding renew arrive
  poll task waker f b =
      let task_id = task_of f.task_id task in
      let started : Wait = record f { task_id = some task_id } in
      if not (b.generation == f.generation)
      then (ready false, started, b, [])
      else if f.registered
      then (pending, started, record b { waiters = renew task_id waker b.waiters }, [])
      else arrive task_id waker started b

  -- The waiters without the first one of the task, and whether there was one.
  unfoldable pub remove_waiter : ℕ → List (Waiter W) → Bool × List (Waiter W)
  remove_waiter task_id [] = (false, [])
  remove_waiter task_id (w ∷ ws) =
      let (found, rest) = remove_waiter task_id ws in
      if w.task_id == task_id then (true, ws) else (found, w ∷ rest)

  abbrev leave : Option ℕ → Barrier W → Barrier W
  leave none b = b
  leave (some task_id) b =
      let (found, waiters) = remove_waiter task_id b.waiters in
      if found then record b { waiters = waiters; arrived = b.arrived - 1 } else b

  -- `drop` of the future.
  unfoldable pub drop_wait : Wait → Barrier W → Barrier W
  unfolding remove_waiter
  drop_wait f b =
      if not f.registered
      then b
      else if not (b.generation == f.generation)
      then b
      else leave f.task_id b
