-- ===== src/Examples/Runtime.antt =====
-- The theorems on the async runtime and the queues at concrete inputs.
use mathlib.Core.List.Perm
use des_cartes.Prelude.{
  ℕ, ◌+◌, ◌-◌, ◌<◌, ◌≡◌, refl, inl, inr, true, false, not, ◌&&◌, ◌||◌, none, some, List, [], ◌∷◌,
  ltb, ◌==◌, if◌then◌else◌, arith, All,
}
use des_cartes.Core.Time.{from_duration, add_time}
use des_cartes.Core.Request.{new_attempt}
use des_cartes.Core.Scheduler.{Scheduler, with_seed, time, ComponentEventEntry, component}
use des_cartes.Core.Runtime.{
  RuntimeEvent, on_timer_tick, on_wake, on_cancel_timer, fifo_ready_policy, Runtime, registers,
  wakes, Futures, take_due, push_timer, drop_timer, drop_task, drain_spawn_queues, poll_ready_tasks,
  start,
}
use des_cartes.Core.Runtime.Rounds.{Round, IsConsistent, poll_ready_tasks-Round}
use des_cartes.Core.Runtime.Events.{process_event, handle_timer_tick}
use des_cartes.Core.Runtime.Wakeups.{Attended, process_event-Attended}
use des_cartes.Core.Runtime.Woken.{Answered, woken_by, process_event-Answered}
use des_cartes.Core.Runtime.Deadlines.{IsTicking, process_event-IsTicking, handle_timer_tick-Later}
use des_cartes.Core.Runtime.Timers.Ordered.{IsOrdered, Later}
use des_cartes.Core.Runtime.Timers.Registered.{registered, timers-registered}
use des_cartes.Core.Runtime.Sleep.{sleep, poll_at, Slept, sleep-poll_at}
use des_cartes.Explore.Frontier.{TraceEvent}
use des_cartes.Explore.Ready.{recording, replaying, decisions_of, from_trace_events}
use des_cartes.Explore.Polls.{IsApart, erase}
use des_cartes.Explore.CycleReplay.{restate, poll_ready_tasks-replaying}
use des_cartes.Components.Queue.{QueueItem, with_priority, priority, new_priority, fifo, new_fifo}
use des_cartes.Components.Queue.Waiting.{
  by_priority, last, line, QueueCall, enqueues, dequeues, peeks, counts, answers,
}
use des_cartes.Components.Queue.Refinement.{fifo-answers}
use des_cartes.Components.Queue.ByPriority.{priority-answers}

-- A future that is ready after some polls; each earlier poll wakes its own task again.
abbrev countdown : Futures ℕ
countdown id next now n =
    if n == 0
    then record { is_ready = true; future = 0; calls = [] }
    else record { is_ready = false; future = n - 1; calls = wakes id ∷ registers (now + 5) ∷ [] }

abbrev itself : RuntimeEvent → RuntimeEvent
itself event = event

-- Task 0 is queued, task 1 waits, and task 2 is to be spawned; 3 was queued and cancelled.
abbrev two_tasks : Runtime ℕ (Unit {0})
two_tasks = record {
  next_task_id = 4;
  tasks =
      (0, record { future = 1; queued = true }) ∷ (1, record { future = 0; queued = false }) ∷ [];
  ready_queue = 0 ∷ 3 ∷ [];
  policy_state = tt;
  spawn_queue = (2, 0) ∷ [];
  spawn_queue_local = [];
  timers = (10, 1 ∷ []) ∷ (20, 0 ∷ 1 ∷ []) ∷ [];
  next_timer_deadline = some 10;
  runtime_key = some 77;
}

abbrev idle : Scheduler RuntimeEvent (Unit {0}) (Unit {0})
idle = with_seed 0

abbrev tick_entry : ComponentEventEntry RuntimeEvent
tick_entry = record { event_id = 1; time = 10; component = 77; inner = on_timer_tick }

abbrev ticking : Scheduler RuntimeEvent (Unit {0}) (Unit {0})
ticking = record idle { next_event_id = 1; events = component tick_entry ∷ [] }

two_tasks-IsConsistent : IsConsistent two_tasks
two_tasks-IsConsistent = (inr refl, (inl refl, tt))

two_tasks-IsOrdered : IsOrdered two_tasks.timers
two_tasks-IsOrdered = (refl, (omega arith, tt), (refl, tt, tt))

poll_ready_tasks-Round_example :
    Round itself countdown fifo_ready_policy two_tasks
      (poll_ready_tasks itself countdown fifo_ready_policy 3 (start two_tasks))
poll_ready_tasks-Round_example =
    poll_ready_tasks-Round itself countdown fifo_ready_policy 77 3 two_tasks refl

process_event-Answered_example :
    let c = (process_event itself countdown fifo_ready_policy 77 (on_wake 1) two_tasks idle).0 in
    IsConsistent c.runtime
    × All (Answered two_tasks c) (woken_by (on_wake 1) (time idle) two_tasks.timers)
process_event-Answered_example =
    process_event-Answered itself countdown fifo_ready_policy 77 (on_wake 1) two_tasks idle
      two_tasks-IsConsistent

process_event-Attended_example :
    Attended itself 77
      (process_event itself countdown fifo_ready_policy 77 (on_cancel_timer 1 10) two_tasks idle)
process_event-Attended_example =
    process_event-Attended itself countdown fifo_ready_policy 77 (on_cancel_timer 1 10) two_tasks
      idle two_tasks-IsConsistent

two_tasks-IsTicking : IsTicking itself 77 two_tasks ticking
unfolding time from_duration with_seed
two_tasks-IsTicking = record {
  ordered = two_tasks-IsOrdered;
  first = refl;
  tick = record {
    entry = tick_entry;
    others = [];
    pending = Perm.rfl;
    target = refl;
    inner = refl;
    exact = refl;
  };
}

process_event-IsTicking_example :
    let r =
      process_event itself countdown fifo_ready_policy 77
        (on_cancel_timer 1 10)
        two_tasks
        ticking in
    IsTicking itself 77 r.0.runtime r.1
process_event-IsTicking_example =
    process_event-IsTicking itself countdown fifo_ready_policy 77 (on_cancel_timer 1 10) two_tasks
      ticking two_tasks-IsTicking

handle_timer_tick-Later_example :
    let r = handle_timer_tick itself countdown fifo_ready_policy 77 two_tasks idle in
    IsTicking itself 77 r.0.runtime r.1 × Later (time idle) r.0.runtime.timers
handle_timer_tick-Later_example =
    handle_timer_tick-Later itself countdown fifo_ready_policy 77 two_tasks idle two_tasks-IsOrdered

timers-registered_example :
    let ts = two_tasks.timers in
    (registered 20 1 (push_timer 20 1 ts) ≡ (registered 20 1 ts || ((20 == 20) && (1 == 1))))
    × (registered 20 1 (drop_timer 20 1 ts).1
        ≡ (registered 20 1 ts && not ((20 == 20) && (1 == 1))))
    × (registered 20 1 (drop_task 1 ts) ≡ (registered 20 1 ts && not (1 == 1)))
    × (registered 20 1 (take_due 20 ts).1 ≡ (registered 20 1 ts && ltb 20 20))
timers-registered_example = timers-registered 20 20 1 1 two_tasks.timers two_tasks-IsOrdered

all_early : All (λ t. t < add_time 10 (from_duration 40)) (10 ∷ 20 ∷ 49 ∷ [])
unfolding add_time from_duration
all_early = (omega arith, (omega arith, (omega arith, tt)))

sleep-poll_at_example :
    Slept (add_time 10 (from_duration 40)) 60 (poll_at (10 ∷ 20 ∷ 49 ∷ []) (sleep 40))
sleep-poll_at_example = sleep-poll_at 40 10 (20 ∷ 49 ∷ []) 60 all_early

abbrev item : ℕ → ℕ → QueueItem
item n p = with_priority (new_attempt n n 1 0 []) 0 p

abbrev calls : List QueueCall
calls =
    enqueues (item 1 5)
    ∷ enqueues (item 2 3)
    ∷ enqueues (item 3 5)
    ∷ enqueues (item 4 1)
    ∷ peeks
    ∷ dequeues
    ∷ counts
    ∷ []

priority-answers_example :
    answers priority calls (new_priority (some 3))
    ≡ answers (line by_priority) calls (record { waiting = []; capacity = some 3 })
priority-answers_example = priority-answers (some 3) calls (omega arith)

fifo-answers_example :
    answers fifo calls (new_fifo (some 3))
    ≡ answers (line last) calls (record { waiting = []; capacity = some 3 })
fifo-answers_example = fifo-answers (some 3) calls

abbrev recorded_tasks : Runtime ℕ (Unit {0} × List (TraceEvent ℕ))
recorded_tasks = restate (tt, []) two_tasks

recorded_tasks-IsApart : IsApart (drain_spawn_queues recorded_tasks).ready_queue
unfolding drain_spawn_queues
recorded_tasks-IsApart k = ground arith

no_decisions : decisions_of {X = ℕ} [] ≡ []
unfolding decisions_of
no_decisions = refl

poll_ready_tasks-replaying_example :
    let recorded =
      poll_ready_tasks itself countdown
        (recording fifo_ready_policy {X = ℕ})
        3
        (start recorded_tasks) in
    let replay =
      poll_ready_tasks itself countdown replaying 3
        (start (restate (from_trace_events recorded.runtime.policy_state.1) recorded_tasks)) in
    (erase recorded ≡ erase replay) × (replay.runtime.policy_state.error ≡ none)
poll_ready_tasks-replaying_example =
    poll_ready_tasks-replaying itself countdown fifo_ready_policy 3 recorded_tasks no_decisions
      recorded_tasks-IsApart
