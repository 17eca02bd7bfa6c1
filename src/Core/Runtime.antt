-- ===== src/Core/Runtime.antt =====
-- des-core/src/async_runtime.rs: the runtime that polls async tasks as a component of a simulation.
-- A task's future is a value of the type `F`, and what its `poll` does is a parameter: the runtime's
-- interface calls that it makes, in order. Wakers (des-core/src/waker.rs) and timers reach the
-- runtime as events, which are deferred until its handler returns. The runtime's events are events
-- of the simulation by `wrap`. What the drop of a cancelled task's future does is left out.
pub mod Timers
pub mod Pending
pub mod Cycle
pub mod Rounds
pub mod Events
pub mod Wakeups
pub mod Waking
pub mod Woken
pub mod Frame
pub mod Deadlines
pub mod Sleep
unfoldable pub use Timers.*
use des_cartes.Prelude.{
  ℕ, zero, suc, ◌+◌, ◌-◌, min, Bool, true, false, Option, none, some, List, [], ◌∷◌, ◌++◌, map, leb,
  ltb, ◌==◌, if◌then◌else◌, length, is_empty, lookup, insert_key, remove_key, add_u64,
}
use des_cartes.Core.Time.{SimTime, Duration, from_duration, add_time, time_zero}
use des_cartes.Core.Ids.{Uuid}
use des_cartes.Core.Scheduler.{swap_remove}
use des_cartes.Core.Simulation.{DeferredWake}

pub data RuntimeEvent : Type 0 where
  on_poll on_timer_tick : RuntimeEvent
  on_wake on_cancel : (task_id : ℕ) → RuntimeEvent
  on_register_timer on_cancel_timer : (task_id : ℕ) (deadline : SimTime) → RuntimeEvent

-- The trait `ReadyTaskPolicy`.
pub record ReadyPolicy {κ} (P : Type κ) : Type κ where
  pub choose : P → SimTime → List ℕ → ℕ × P

abbrev pub fifo_ready_policy : ReadyPolicy (Unit {0})
fifo_ready_policy = record { choose = λ p t ready. (0, p) }

pub record Task {ℓ} (F : Type ℓ) : Type ℓ where
  pub future : F
  pub queued : Bool

pub record Runtime {ℓ} (F P : Type ℓ) : Type ℓ where
  pub next_task_id : ℕ
  pub tasks : List (ℕ × Task F)
  pub ready_queue : List ℕ
  pub policy_state : P
  pub spawn_queue : List (ℕ × F)
  pub spawn_queue_local : List (ℕ × F)
  pub timers : TimerMap
  pub next_timer_deadline : Option SimTime
  pub runtime_key : Option Uuid

-- What a future may do with the runtime while it is polled, by the handles, wakers and sleeps, and
-- when it is dropped after it was ready.
pub data Call {ℓ} (F : Type ℓ) : Type ℓ where
  spawns spawns_local : F → Call F
  cancels cancels_local wakes : ℕ → Call F
  registers unregisters : SimTime → Call F

pub record Polled {ℓ} (F : Type ℓ) : Type ℓ where
  pub is_ready : Bool
  pub future : F
  pub calls : List (Call F)

-- `Future::poll` of a task with an id, while the given id is the next one and at the given time.
abbrev pub Futures {ℓ} : Type ℓ → Type ℓ
Futures F = ℕ → ℕ → SimTime → F → Polled F

-- `retain(|req| req.task_id != id)` on a spawn queue.
abbrev pub forget_request {ℓ} : {F : Type ℓ} → ℕ → List (ℕ × F) → List (ℕ × F)
forget_request = remove_key

unfoldable pub new {ℓ} : {F P : Type ℓ} → P → Runtime F P
new policy_state = record {
  next_task_id = 0;
  tasks = [];
  ready_queue = [];
  policy_state = policy_state;
  spawn_queue = [];
  spawn_queue_local = [];
  timers = [];
  next_timer_deadline = none;
  runtime_key = none;
}

module _ {ℓ} {F P : Type ℓ} where
  unfoldable pub spawn : F → Runtime F P → ℕ × Runtime F P
  spawn future rt = (
    rt.next_task_id,
    record rt {
      next_task_id = add_u64 rt.next_task_id 1;
      tasks = insert_key rt.next_task_id (record { future = future; queued = true }) rt.tasks;
      ready_queue = rt.ready_queue ++ rt.next_task_id ∷ [];
    },
  )

  -- A spawn queue is drained into the tasks and the ready queue.
  unfoldable pub drain_spawns : List (ℕ × F) → Runtime F P → Runtime F P
  drain_spawns [] rt = rt
  drain_spawns ((id, future) ∷ requests) rt = drain_spawns requests (record rt {
    tasks = insert_key id (record { future = future; queued = true }) rt.tasks;
    ready_queue = rt.ready_queue ++ id ∷ [];
  })

  unfoldable pub drain_spawn_queues : Runtime F P → Runtime F P
  unfolding drain_spawns
  drain_spawn_queues rt =
      drain_spawns rt.spawn_queue_local
        (drain_spawns rt.spawn_queue (record rt { spawn_queue = []; spawn_queue_local = [] }))

  unfoldable pub queue_task : Option (Task F) → ℕ → Runtime F P → Runtime F P
  queue_task none id rt = rt
  queue_task (some t) id rt = if t.queued then rt else record rt {
    tasks = insert_key id (record t { queued = true }) rt.tasks;
    ready_queue = rt.ready_queue ++ id ∷ [];
  }

  abbrev pub wake_task : ℕ → Runtime F P → Runtime F P
  wake_task id rt = queue_task (lookup id rt.tasks) id rt

  unfoldable pub wake_tasks : List ℕ → Runtime F P → Runtime F P
  unfolding queue_task
  wake_tasks [] rt = rt
  wake_tasks (id ∷ ids) rt = wake_tasks ids (wake_task id rt)

-- What a poll cycle changes: the runtime, the deferred wakes, and the log of the polled tasks.
pub record Turn {ℓ} (E F P : Type ℓ) : Type ℓ where
  pub runtime : Runtime F P
  pub deferred : List (DeferredWake E)
  pub polled : List ℕ

abbrev pub start {ℓ} : {E F P : Type ℓ} → Runtime F P → Turn E F P
start rt = record { runtime = rt; deferred = []; polled = [] }

module _ {ℓ} {E : Type ℓ} (wrap : RuntimeEvent → E) where
  -- `defer_wake`.
  abbrev pub defer_wake : Uuid → RuntimeEvent → DeferredWake E
  defer_wake key event = record { delay = time_zero; target = key; event = wrap event }

  module _ {F P : Type ℓ} where
    abbrev deferring : Uuid → RuntimeEvent → Runtime F P → Turn E F P → Turn E F P
    deferring key event rt c = record c {
      runtime = rt;
      deferred = c.deferred ++ defer_wake key event ∷ [];
    }

    -- A call by the task `id`: `spawn` and `cancel` of the two handles, a waker's `wake`,
    -- `register_timer_at` and `cancel_timer_at`.
    unfoldable pub apply_call : Uuid → ℕ → Call F → Turn E F P → Turn E F P
    apply_call key id (spawns future) c =
        let rt = c.runtime in
        deferring key on_poll
          (record rt {
            next_task_id = add_u64 rt.next_task_id 1;
            spawn_queue = rt.spawn_queue ++ (rt.next_task_id, future) ∷ [];
          })
          c
    apply_call key id (spawns_local future) c =
        let rt = c.runtime in
        deferring key on_poll
          (record rt {
            next_task_id = add_u64 rt.next_task_id 1;
            spawn_queue_local = rt.spawn_queue_local ++ (rt.next_task_id, future) ∷ [];
          })
          c
    apply_call key id (cancels task_id) c =
        let rt = c.runtime in
        deferring key (on_cancel task_id)
          (record rt { spawn_queue = forget_request task_id rt.spawn_queue }) c
    apply_call key id (cancels_local task_id) c =
        let rt = c.runtime in
        deferring key (on_cancel task_id)
          (record rt { spawn_queue_local = forget_request task_id rt.spawn_queue_local }) c
    apply_call key id (wakes task_id) c = deferring key (on_wake task_id) c.runtime c
    apply_call key id (registers deadline) c =
        deferring key (on_register_timer id deadline) c.runtime c
    apply_call key id (unregisters deadline) c =
        deferring key (on_cancel_timer id deadline) c.runtime c

    unfoldable pub apply_calls : Uuid → ℕ → List (Call F) → Turn E F P → Turn E F P
    unfolding apply_call
    apply_calls key id [] c = c
    apply_calls key id (call ∷ calls) c = apply_calls key id calls (apply_call key id call c)

    abbrev pub put_task : ℕ → Option (Task F) → Turn E F P → Turn E F P
    put_task id t c =
        let rt = c.runtime in
        record c {
          runtime = record rt {
            tasks = elim t [
              | none ↦ remove_key id rt.tasks
              | some task ↦ insert_key id task rt.tasks
            ];
          };
        }

    module _ (poll : Futures F) where
      -- `poll_task`, and the removal of a task that is done. Before the first event there is no key.
      unfoldable pub run_task : Option Uuid → SimTime → ℕ → F → Turn E F P → Turn E F P
      unfolding apply_calls
      run_task none now id future c = c
      run_task (some key) now id future c =
          let result = poll id c.runtime.next_task_id now future in
          put_task id
            (if result.is_ready
              then none
              else some (record { future = result.future; queued = false }))
            (apply_calls key id result.calls (record c { polled = c.polled ++ id ∷ [] }))

      -- A task of the poll set: one that is gone is skipped.
      unfoldable pub poll_member : Option (Task F) → SimTime → ℕ → Turn E F P → Turn E F P
      unfolding run_task
      poll_member none now id c = c
      poll_member (some t) now id c =
          run_task c.runtime.runtime_key now id t.future
            (put_task id (some (record t { queued = false })) c)

      module _ (policy : ReadyPolicy P) where
        abbrev choose : SimTime → List ℕ → Turn E F P → ℕ × Turn E F P
        choose now poll_set c =
            let rt = c.runtime in
            let (chosen, p) = policy.choose rt.policy_state now poll_set in
            (
              min chosen (length poll_set - 1),
              record c { runtime = record rt { policy_state = p } },
            )

        -- The loop over the poll set, which shrinks by one in each round: its length is the fuel.
        -- `none` would be a panic of `swap_remove`.
        unfoldable pub poll_loop : ℕ → SimTime → List ℕ → Turn E F P → Turn E F P
        unfolding swap_remove poll_member
        poll_loop zero now poll_set c = c
        poll_loop (suc fuel) now [] c = c
        poll_loop (suc fuel) now (t ∷ ts) c =
            let (chosen, c') = choose now (t ∷ ts) c in
            elim (swap_remove (t ∷ ts) chosen) [
              | none ↦ c'
              | some (id, rest) ↦
                  poll_loop fuel now rest (poll_member (lookup id c'.runtime.tasks) now id c')
            ]

        unfoldable pub poll_ready_tasks : SimTime → Turn E F P → Turn E F P
        unfolding drain_spawn_queues poll_loop
        poll_ready_tasks now c =
            let rt = drain_spawn_queues c.runtime in
            poll_loop (length rt.ready_queue) now rt.ready_queue
              (record c { runtime = record rt { ready_queue = [] } })
