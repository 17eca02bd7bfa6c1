-- ===== src/Core/Scheduler.antt =====
-- des-core/src/scheduler.rs: the event queue and the clock. The payload of a component event, a boxed
-- task and a boxed result are values of the types `E`, `T` and `R`. Ids and the clock are u64.
pub mod Entry
pub mod Frontier
pub mod Rules
pub mod Validity
pub mod Fifo
pub mod Conservation
unfoldable pub use Entry.*
unfoldable pub use Frontier.*
use des_cartes.Prelude.{
  ℕ, zero, suc, ◌+◌, ◌-◌, ◌%◌, ◌^◌, ◌≤◌, min, ◌≡◌, Bool, true, false, Option, none, some, List, [],
  ◌∷◌, ◌++◌, map, if◌then◌else◌, ◌==◌, leb, length, contains, insert, remove, lookup, remove_key,
  insert_key, add_u64,
}
use des_cartes.Core.Time.{SimTime, time_zero, from_duration, add_time}
use des_cartes.Core.Ids.{Uuid, deterministic_uuid, uuid_domain_task}
use des_cartes.Core.Heap
use des_cartes.Core.Heap.{Ord}

pub record Scheduler {ℓ} (E T R : Type ℓ) : Type ℓ where
  pub next_event_id : ℕ
  pub id_seed : ℕ
  pub next_task_id : ℕ
  pub events : List (EventEntry E)
  pub clock : ℕ
  pub pending_tasks : List (ℕ × T)
  pub completed_task_results : List (ℕ × R)
  pub cancelled_tasks : List ℕ
  pub executing_task_id : Option ℕ

-- The clock holds nanoseconds: `as u64` cuts to 64 bits.
abbrev pub simtime_to_nanos : SimTime → ℕ
simtime_to_nanos t = t % 2 ^ 64

abbrev pub nanos_to_simtime : ℕ → SimTime
nanos_to_simtime nanos = from_duration nanos

module _ {ℓ} {E : Type ℓ} where
  abbrev pub push_all : List (EventEntry E) → List (EventEntry E) → List (EventEntry E)
  push_all [] h = h
  push_all (e ∷ es) h = push_all es (Heap.push e h)

  -- The index of the entry to run: the policy is asked only where there is a choice.
  unfoldable pub choose_index {κ} :
      {P : Type κ} → Policy P → P → SimTime → List (EventEntry E) → ℕ × P
  unfolding to_frontier_event
  choose_index policy p t entries =
      if leb (length entries) 1 then (0, p) else policy.choose p t (map to_frontier_event entries)

module _ {ℓ} {E T R : Type ℓ} where
  unfoldable pub with_seed : ℕ → Scheduler E T R
  with_seed id_seed = record {
    next_event_id = 0;
    id_seed = id_seed;
    next_task_id = 0;
    events = [];
    clock = 0;
    pending_tasks = [];
    completed_task_results = [];
    cancelled_tasks = [];
    executing_task_id = none;
  }

  unfoldable pub time : Scheduler E T R → SimTime
  unfolding from_duration
  time s = nanos_to_simtime s.clock

  unfoldable pub schedule : SimTime → Uuid → E → Scheduler E T R → Scheduler E T R
  unfolding time add_time
  schedule delay target event s =
      let id = add_u64 s.next_event_id 1 in
      record s {
        next_event_id = id;
        events =
            Heap.push
              (component (record {
                event_id = id;
                time = add_time (time s) delay;
                component = target;
                inner = event;
              }))
              s.events;
      }

  abbrev pub schedule_now : Uuid → E → Scheduler E T R → Scheduler E T R
  schedule_now = schedule time_zero

  abbrev pub event_count : Scheduler E T R → ℕ
  event_count s = length s.events

  abbrev pub peek : Scheduler E T R → Option (EventEntry E)
  peek s = Heap.peek s.events

  -- Whether the event belongs to a cancelled task, whose mark is then taken back.
  unfoldable pub is_cancelled_task_event : EventEntry E → Scheduler E T R → Bool × Scheduler E T R
  is_cancelled_task_event (component e) s = (false, s)
  is_cancelled_task_event (task e) s =
      if contains e.task_id s.cancelled_tasks
      then (true, record s { cancelled_tasks = remove e.task_id s.cancelled_tasks })
      else (false, s)

  -- Pops entries until one is not cancelled. The fuel is the number of entries.
  unfoldable pub next_live : ℕ → Scheduler E T R → Option (EventEntry E) × Scheduler E T R
  unfolding is_cancelled_task_event
  next_live zero s = (none, s)
  next_live (suc fuel) s = elim (Heap.pop s.events) [
    | none ↦ (none, s)
    | some (event, rest) ↦
        let (cancelled, s') = is_cancelled_task_event event (record s { events = rest }) in
        elim cancelled [ true ↦ next_live fuel s' | false ↦ (some event, s') ]
  ]

  unfoldable pub pop : Scheduler E T R → Option (EventEntry E) × Scheduler E T R
  unfolding next_live
  pop s =
      let (found, s') = next_live (length s.events) s in
      elim found [
        | none ↦ (none, s')
        | some event ↦ (some event, record s' { clock = simtime_to_nanos (entry_time event) })
      ]

  -- The entries of the frontier's time that are not cancelled, in the order of the heap.
  unfoldable pub collect : ℕ → SimTime → Scheduler E T R → List (EventEntry E) × Scheduler E T R
  unfolding is_cancelled_task_event
  collect zero t s = ([], s)
  collect (suc fuel) t s = elim (Heap.pop s.events) [
    | none ↦ ([], s)
    | some (event, rest) ↦ elim (entry_time event == t) [
      | false ↦ ([], s)
      | true ↦
          let (cancelled, s') = is_cancelled_task_event event (record s { events = rest }) in
          let (more, s'') = collect fuel t s' in
          if cancelled then (more, s'') else (event ∷ more, s'')
    ]
  ]

  module _ {κ} {P : Type κ} (policy : Policy P) where
    -- `none` in the middle is a panic of `swap_remove`, which a frontier that is not empty excludes.
    unfoldable pub take_chosen :
        P
        → SimTime
        → List (EventEntry E)
        → Scheduler E T R
        → Option (EventEntry E) × P × Scheduler E T R
    unfolding choose_index swap_remove
    take_chosen p t entries s =
        let (index, p') = choose_index policy p t entries in
        elim (swap_remove entries (min index (length entries - 1))) [
          | none ↦ (none, p', s)
          | some (chosen, remaining) ↦ (
            some chosen,
            p',
            record s { events = push_all remaining s.events; clock = simtime_to_nanos t },
          )
        ]

    unfoldable pub pop_with_policy :
        P → Scheduler E T R → Option (EventEntry E) × P × Scheduler E T R
    unfolding next_live collect take_chosen
    pop_with_policy p s =
        let (found, s') = next_live (length s.events) s in
        elim found [
          | none ↦ (none, p, s')
          | some first ↦
              let t = entry_time first in
              let (others, s'') = collect (length s'.events) t s' in
              take_chosen p t (first ∷ others) s''
        ]

  unfoldable pub schedule_task_at : SimTime → Uuid → T → Scheduler E T R → Scheduler E T R
  schedule_task_at t task_id boxed s =
      let id = add_u64 s.next_event_id 1 in
      record s {
        pending_tasks = insert_key task_id boxed s.pending_tasks;
        next_event_id = id;
        events = Heap.push (task (record { event_id = id; time = t; task_id = task_id })) s.events;
      }

  -- The handle that is returned is the id of the task.
  unfoldable pub schedule_task : SimTime → T → Scheduler E T R → Uuid × Scheduler E T R
  unfolding schedule_task_at time add_time
  schedule_task delay boxed s =
      let counter = add_u64 s.next_task_id 1 in
      let task_id = deterministic_uuid s.id_seed uuid_domain_task counter in
      (
        task_id,
        schedule_task_at (add_time (time s) delay) task_id boxed
            (record s { next_task_id = counter }),
      )

  unfoldable pub cancel_task : Uuid → Scheduler E T R → Bool × Scheduler E T R
  cancel_task task_id s = elim (lookup task_id s.pending_tasks) [
    | none ↦ (false, s)
    | some _ ↦ (
      true,
      record s {
        pending_tasks = remove_key task_id s.pending_tasks;
        cancelled_tasks = insert task_id s.cancelled_tasks;
      },
    )
  ]

  -- A result is kept unless it is `()`, which is `none` here.
  unfoldable pub store_result : Uuid → Option R → Scheduler E T R → Scheduler E T R
  store_result task_id none s = s
  store_result task_id (some r) s = record s {
    completed_task_results = insert_key task_id r s.completed_task_results;
  }

  -- A task that has scheduled itself again under its id is still pending: its result is not kept.
  unfoldable pub finish_task : Uuid → Option R → Scheduler E T R → Scheduler E T R
  unfolding store_result
  finish_task task_id result s = elim (lookup task_id s.pending_tasks) [
    | some _ ↦ s
    | none ↦ store_result task_id result s
  ]

  -- `run` is the boxed task's `execute`.
  unfoldable pub run_task :
      (T → Scheduler E T R → Option R × Scheduler E T R)
      → Uuid
      → T
      → Scheduler E T R
      → Scheduler E T R
  unfolding finish_task
  run_task run task_id boxed s =
      let (result, after) = run boxed (record s {
        pending_tasks = remove_key task_id s.pending_tasks;
        executing_task_id = some task_id;
      }) in
      finish_task task_id result (record after { executing_task_id = s.executing_task_id })

  unfoldable pub execute_task :
      (T → Scheduler E T R → Option R × Scheduler E T R)
      → Uuid
      → Scheduler E T R
      → Bool × Scheduler E T R
  unfolding run_task
  execute_task run task_id s =
      if contains task_id s.cancelled_tasks
      then (false, record s { cancelled_tasks = remove task_id s.cancelled_tasks })
      else elim (lookup task_id s.pending_tasks) [
        | none ↦ (false, s)
        | some boxed ↦ (true, run_task run task_id boxed s)
      ]

  -- The stored result, if it is of the type that the caller asks for (`downcast`).
  unfoldable pub get_task_result :
      {Out : Type ℓ} → (R → Option Out) → Uuid → Scheduler E T R → Option Out × Scheduler E T R
  get_task_result downcast task_id s = elim (lookup task_id s.completed_task_results) [
    | none ↦ (none, s)
    | some boxed ↦ (
      downcast boxed,
      record s { completed_task_results = remove_key task_id s.completed_task_results },
    )
  ]
