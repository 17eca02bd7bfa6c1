-- ===== src/Core/Runtime/Events.antt =====
-- des-core/src/async_runtime.rs: the runtime's event handler and its timers.
use des_cartes.Prelude.{
  ℕ, ◌-◌, Bool, true, false, Option, none, some, leb, ◌==◌, if◌then◌else◌, is_empty, lookup,
  remove_key,
}
use des_cartes.Core.Time.{SimTime, from_duration, time_zero}
use des_cartes.Core.Ids.{Uuid}
use des_cartes.Core.Scheduler.{Scheduler, schedule, schedule_now, time}
use des_cartes.Core.Runtime.{
  RuntimeEvent, on_poll, on_timer_tick, on_wake, on_cancel, on_register_timer, on_cancel_timer,
  ReadyPolicy, Runtime, Futures, Turn, first_deadline, push_timer, drop_timer, drop_task, take_due,
  queue_task, wake_task, wake_tasks, poll_ready_tasks, start,
}

abbrev pub same_deadline : Option SimTime → Option SimTime → Bool
same_deadline none none = true
same_deadline none (some b) = false
same_deadline (some a) none = false
same_deadline (some a) (some b) = a == b

-- The key is stored on the first event.
abbrev pub keyed {ℓ} : {F P : Type ℓ} → Uuid → Runtime F P → Runtime F P
keyed self_id rt = record rt {
  runtime_key = elim rt.runtime_key [ none ↦ some self_id | some key ↦ some key ];
}

module _ {ℓ} {E : Type ℓ} (wrap : RuntimeEvent → E) where
  module _ {T R : Type ℓ} where
    -- The next deadline's tick, `delay` from now, where the deadline has changed.
    unfoldable pub arm : Option SimTime → Uuid → Scheduler E T R → Scheduler E T R
    unfolding time schedule from_duration
    arm none self_id s = s
    arm (some deadline) self_id s =
        schedule (if leb deadline (time s) then time_zero else from_duration (deadline - time s))
          self_id (wrap on_timer_tick) s

  module _ {F P T R : Type ℓ} where
    unfoldable pub schedule_next_timer_tick :
        Uuid → Runtime F P → Scheduler E T R → Runtime F P × Scheduler E T R
    unfolding arm
    schedule_next_timer_tick self_id rt s =
        let next_deadline = first_deadline rt.timers in
        if same_deadline next_deadline rt.next_timer_deadline
        then (rt, s)
        else (record rt { next_timer_deadline = next_deadline }, arm next_deadline self_id s)

    unfoldable pub register_timer :
        ℕ → SimTime → Uuid → Runtime F P → Scheduler E T R → Runtime F P × Scheduler E T R
    unfolding push_timer schedule_next_timer_tick
    register_timer id deadline self_id rt s = elim (lookup id rt.tasks) [
      | none ↦ (rt, s)
      | some t ↦
          schedule_next_timer_tick self_id (record rt { timers = push_timer deadline id rt.timers })
            s
    ]

    unfoldable pub cancel_timer :
        ℕ → SimTime → Uuid → Runtime F P → Scheduler E T R → Runtime F P × Scheduler E T R
    unfolding drop_timer schedule_next_timer_tick
    cancel_timer id deadline self_id rt s =
        let (emptied, timers) = drop_timer deadline id rt.timers in
        let rt' = record rt { timers = timers } in
        if emptied then schedule_next_timer_tick self_id rt' s else (rt', s)

    unfoldable pub cancel_task :
        ℕ → Uuid → Runtime F P → Scheduler E T R → Runtime F P × Scheduler E T R
    unfolding drop_task schedule_next_timer_tick
    cancel_task id self_id rt s =
        schedule_next_timer_tick self_id
          (record rt { tasks = remove_key id rt.tasks; timers = drop_task id rt.timers }) s

    -- Another poll is scheduled while tasks are ready.
    unfoldable pub reschedule : Uuid → Turn E F P × Scheduler E T R → Turn E F P × Scheduler E T R
    unfolding schedule
    reschedule self_id (c, s) =
        if is_empty c.runtime.ready_queue
        then (c, s)
        else (c, schedule_now self_id (wrap on_poll) s)

    module _ (poll : Futures F) (policy : ReadyPolicy P) where
      abbrev poll_all : Runtime F P → Scheduler E T R → Turn E F P × Scheduler E T R
      poll_all rt s = (poll_ready_tasks wrap poll policy (time s) (start rt), s)

      unfoldable pub handle_timer_tick :
          Uuid → Runtime F P → Scheduler E T R → Turn E F P × Scheduler E T R
      unfolding take_due wake_tasks schedule_next_timer_tick poll_ready_tasks time
      handle_timer_tick self_id rt s =
          let (due, timers) = take_due (time s) rt.timers in
          let (rt', s') =
            schedule_next_timer_tick self_id
              (wake_tasks due (record rt { timers = timers; next_timer_deadline = none })) s in
          poll_all rt' s'

      abbrev quiet : Runtime F P × Scheduler E T R → Turn E F P × Scheduler E T R
      quiet (rt, s) = (start rt, s)

      unfoldable pub handle :
          Uuid → RuntimeEvent → Runtime F P → Scheduler E T R → Turn E F P × Scheduler E T R
      unfolding poll_ready_tasks queue_task cancel_task register_timer cancel_timer
          handle_timer_tick time
      handle self_id on_poll rt s = poll_all rt s
      handle self_id (on_wake id) rt s = poll_all (wake_task id rt) s
      handle self_id (on_cancel id) rt s = quiet (cancel_task id self_id rt s)
      handle self_id (on_register_timer id deadline) rt s =
          quiet (register_timer id deadline self_id rt s)
      handle self_id (on_cancel_timer id deadline) rt s =
          quiet (cancel_timer id deadline self_id rt s)
      handle self_id on_timer_tick rt s = handle_timer_tick self_id rt s

      -- `Component::process_event`.
      unfoldable pub process_event :
          Uuid → RuntimeEvent → Runtime F P → Scheduler E T R → Turn E F P × Scheduler E T R
      unfolding handle reschedule
      process_event self_id event rt s =
          reschedule self_id (handle self_id event (keyed self_id rt) s)
