-- ===== src/Core/Runtime/Deadlines.antt =====
-- The deadlines of des-core/src/async_runtime.rs: a tick of the timers is pending for the first one.
use mathlib.Core.List.{Perm}
use mathlib.Core.List.Perm
use des_cartes.Prelude.{
  ℕ, ◌-◌, min, max, ◌≡◌, refl, sym, ap, ◌∙◌, subst, true, Option, none, some, List, ◌∷◌,
  if◌then◌else◌, if_ind, is_empty, leb, ==_iff, lookup, remove_key, arith, u64_max, OnSome,
}
use des_cartes.Core.Time.{SimTime, time_zero, from_duration, add_time}
use des_cartes.Core.Ids.{Uuid}
use des_cartes.Core.Scheduler.{
  Scheduler, EventEntry, ComponentEventEntry, component, schedule, time,
}
use des_cartes.Core.Runtime.{
  RuntimeEvent, on_poll, on_timer_tick, on_wake, on_cancel, on_register_timer, on_cancel_timer,
  ReadyPolicy, Runtime, Task, Futures, Turn, take_due, drop_timer, drop_task, push_timer,
  first_deadline, wake_task, wake_tasks,
}
use des_cartes.Core.Runtime.Timers.Ordered.{
  IsOrdered, push_timer-IsOrdered, drop_timer-IsOrdered, drop_timer-first_deadline,
  drop_task-IsOrdered, take_due-lem, later_timers, later_timers-Later, later_timers-IsOrdered,
  Later,
}
use des_cartes.Core.Runtime.Frame.{
  deadlines, queue_task-deadlines, wake_tasks-deadlines, poll_ready_tasks-deadlines,
}
use des_cartes.Core.Runtime.Events.{
  keyed, same_deadline, arm, schedule_next_timer_tick, register_timer, cancel_timer, cancel_task,
  handle_timer_tick, handle, reschedule, process_event,
}

same_deadline-eq : (a b : Option SimTime) → same_deadline a b ≡ true → a ≡ b
same_deadline-eq none none e = refl
same_deadline-eq none (some b) e = absurd (cc)
same_deadline-eq (some a) none e = absurd (cc)
same_deadline-eq (some a) (some b) e = ap some ((==_iff a b).0 e)

tick_time :
    (d now : SimTime)
    → add_time now (if leb d now then time_zero else from_duration (d - now))
      ≡ min (max d now) u64_max
unfolding add_time from_duration
tick_time d now = ground arith

module _ {ℓ} {E : Type ℓ} (wrap : RuntimeEvent → E) where
  -- The scheduler holds a tick of the runtime for the deadline, or for now when that has passed.
  pub record HasTick {T R : Type ℓ} (self_id : Uuid) (s : Scheduler E T R) (d : SimTime)
      : Type ℓ where
    pub entry : ComponentEventEntry E
    pub others : List (EventEntry E)
    pub pending : Perm s.events (component entry ∷ others)
    pub target : entry.component ≡ self_id
    pub inner : entry.inner ≡ wrap on_timer_tick
    pub exact : entry.time ≡ min (max d (time s)) u64_max

  -- The deadline that the runtime waits for is that of its first timer, and has its tick.
  pub record IsTicking {F P T R : Type ℓ} (self_id : Uuid) (rt : Runtime F P) (s : Scheduler E T R)
      : Type ℓ where
    pub ordered : IsOrdered rt.timers
    pub first : rt.next_timer_deadline ≡ first_deadline rt.timers
    pub tick : OnSome (HasTick self_id s) rt.next_timer_deadline

  module _ {T R : Type ℓ} where
    arm-HasTick :
        (o : Option SimTime) (self_id : Uuid) (s : Scheduler E T R)
        → OnSome (HasTick self_id (arm wrap o self_id s)) o
    unfolding arm schedule time add_time from_duration
    arm-HasTick none self_id s = tt
    arm-HasTick (some d) self_id s = record {
      entry = _;
      others = s.events;
      pending = Perm.rfl;
      target = refl;
      inner = refl;
      exact = tick_time d (time s);
    }

    schedule-HasTick :
        (delay : SimTime) (target self_id : Uuid) (event : E) (s : Scheduler E T R)
        (o : Option SimTime)
        → OnSome (HasTick self_id s) o
        → OnSome (HasTick self_id (schedule delay target event s)) o
    unfolding schedule time
    schedule-HasTick delay target self_id event s none h = tt
    schedule-HasTick delay target self_id event s (some d) h = record {
      entry = h.entry;
      others = _ ∷ h.others;
      pending = Perm.trans (Perm.cons _ h.pending) (Perm.swap _ _ _);
      target = h.target;
      inner = h.inner;
      exact = h.exact;
    }

  module _ {F P T R : Type ℓ} where
    -- After the deadline was looked at, it has its tick, if what it was before had one.
    schedule_next_timer_tick-IsTicking :
        (self_id : Uuid) (rt : Runtime F P) (s : Scheduler E T R)
        → IsOrdered rt.timers
        → OnSome (HasTick self_id s) rt.next_timer_deadline
        → let r = schedule_next_timer_tick wrap self_id rt s in IsTicking self_id r.0 r.1
    unfolding schedule_next_timer_tick
    schedule_next_timer_tick-IsTicking self_id rt s h t =
        if_ind (λ (r : Runtime F P × Scheduler E T R). IsTicking self_id r.0 r.1)
          (same_deadline (first_deadline rt.timers) rt.next_timer_deadline)
          (λ e. record { ordered = h; first = sym (same_deadline-eq _ _ e); tick = t })
          (λ _. record {
            ordered = h;
            first = refl;
            tick = arm-HasTick (first_deadline rt.timers) self_id s;
          })

    schedule_next_timer_tick-timers :
        (self_id : Uuid) (rt : Runtime F P) (s : Scheduler E T R)
        → (schedule_next_timer_tick wrap self_id rt s).0.timers ≡ rt.timers
    unfolding schedule_next_timer_tick
    schedule_next_timer_tick-timers self_id rt s =
        if_ind (λ (r : Runtime F P × Scheduler E T R). r.0.timers ≡ rt.timers)
          (same_deadline (first_deadline rt.timers) rt.next_timer_deadline) (λ _. refl) (λ _. refl)

    register_timer-IsTicking :
        (self_id : Uuid) (id : ℕ) (deadline : SimTime) (rt : Runtime F P) (s : Scheduler E T R)
        → IsTicking self_id rt s
        → let r = register_timer wrap id deadline self_id rt s in IsTicking self_id r.0 r.1
    unfolding register_timer
    register_timer-IsTicking self_id id deadline rt s h = by (lookup id rt.tasks)
      where
        by :
            (o : Option (Task F))
            → let r = elim o as (λ _. Runtime F P × Scheduler E T R) [
              | none ↦ (rt, s)
              | some t ↦
                  schedule_next_timer_tick wrap self_id
                    (record rt { timers = push_timer deadline id rt.timers })
                    s
            ] in
              IsTicking self_id r.0 r.1
        by none = h
        by (some t) =
            schedule_next_timer_tick-IsTicking self_id
              (record rt { timers = push_timer deadline id rt.timers }) s
              (push_timer-IsOrdered deadline id rt.timers h.ordered) h.tick

    cancel_timer-IsTicking :
        (self_id : Uuid) (id : ℕ) (deadline : SimTime) (rt : Runtime F P) (s : Scheduler E T R)
        → IsTicking self_id rt s
        → let r = cancel_timer wrap id deadline self_id rt s in IsTicking self_id r.0 r.1
    unfolding cancel_timer
    cancel_timer-IsTicking self_id id deadline rt s h =
        let rt' : Runtime F P = record rt { timers = (drop_timer deadline id rt.timers).1 } in
        let ordered = drop_timer-IsOrdered deadline id rt.timers h.ordered in
        if_ind (λ (r : Runtime F P × Scheduler E T R). IsTicking self_id r.0 r.1)
          (drop_timer deadline id rt.timers).0
          (λ _. schedule_next_timer_tick-IsTicking self_id rt' s ordered h.tick)
          (λ e. record {
            ordered = ordered;
            first = h.first ∙ sym (drop_timer-first_deadline deadline id rt.timers e);
            tick = h.tick;
          })

    cancel_task-IsTicking :
        (self_id : Uuid) (id : ℕ) (rt : Runtime F P) (s : Scheduler E T R)
        → IsTicking self_id rt s
        → let r = cancel_task wrap id self_id rt s in IsTicking self_id r.0 r.1
    unfolding cancel_task
    cancel_task-IsTicking self_id id rt s h =
        schedule_next_timer_tick-IsTicking self_id
          (record rt { tasks = remove_key id rt.tasks; timers = drop_task id rt.timers }) s
          (drop_task-IsOrdered id rt.timers h.ordered) h.tick

    -- Only the timers and the next deadline matter.
    IsTicking-deadlines :
        (self_id : Uuid) (rt rt' : Runtime F P) (s : Scheduler E T R)
        → deadlines rt' ≡ deadlines rt
        → IsTicking self_id rt s
        → IsTicking self_id rt' s
    IsTicking-deadlines self_id rt rt' s e h =
        let timers = ap (λ p. p.0) e in
        let next = ap (λ p. p.1) e in
        record {
          ordered = subst IsOrdered (sym timers) h.ordered;
          first = next ∙ h.first ∙ ap first_deadline (sym timers);
          tick = subst (OnSome (HasTick self_id s)) (sym next) h.tick;
        }

    module _ (poll : Futures F) (policy : ReadyPolicy P) where
      -- If the timers are in order, then after a tick, whether or not one was pending before, the
      -- next deadline is that of the first timer and has its tick in the scheduler, and every timer
      -- that is left lies after the current time.
      pub handle_timer_tick-Later :
          (self_id : Uuid) (rt : Runtime F P) (s : Scheduler E T R)
          → IsOrdered rt.timers
          → let r = handle_timer_tick wrap poll policy self_id rt s in
            IsTicking self_id r.0.runtime r.1 × Later (time s) r.0.runtime.timers
      unfolding handle_timer_tick
      handle_timer_tick-Later self_id rt s h =
          let (due, timers) = take_due (time s) rt.timers in
          let later : timers ≡ later_timers (time s) rt.timers =
            ap (λ p. p.1) (take_due-lem (time s) rt.timers h) in
          let taken : Runtime F P = record rt { timers = timers; next_timer_deadline = none } in
          let woken = wake_tasks due taken in
          let same = wake_tasks-deadlines due taken in
          let left : woken.timers ≡ later_timers (time s) rt.timers = ap (λ p. p.0) same ∙ later in
          let none_waits : woken.next_timer_deadline ≡ none = ap (λ p. p.1) same in
          let (rt', s') = schedule_next_timer_tick wrap self_id woken s in
          let polled = poll_ready_tasks-deadlines wrap poll policy (time s') rt' in
          (
            IsTicking-deadlines self_id rt' _ s' polled (
                schedule_next_timer_tick-IsTicking self_id woken s
                  (subst IsOrdered (sym left) (later_timers-IsOrdered (time s) rt.timers h))
                  (subst (OnSome (HasTick self_id s)) (sym none_waits) tt)),
            subst (Later (time s))
                (sym
                  (ap (λ p. p.0) polled ∙ schedule_next_timer_tick-timers self_id woken s ∙ left))
                (later_timers-Later (time s) rt.timers),
          )

      handle-IsTicking :
          (self_id : Uuid) (event : RuntimeEvent) (rt : Runtime F P) (s : Scheduler E T R)
          → IsTicking self_id rt s
          → let r = handle wrap poll policy self_id event rt s in IsTicking self_id r.0.runtime r.1
      unfolding handle
      handle-IsTicking self_id on_poll rt s h =
          IsTicking-deadlines self_id rt _ s
            (poll_ready_tasks-deadlines wrap poll policy (time s) rt) h
      handle-IsTicking self_id (on_wake id) rt s h =
          IsTicking-deadlines self_id rt _ s
            (poll_ready_tasks-deadlines wrap poll policy (time s) (wake_task id rt)
              ∙ queue_task-deadlines (lookup id rt.tasks) id rt)
            h
      handle-IsTicking self_id (on_cancel id) rt s h = cancel_task-IsTicking self_id id rt s h
      handle-IsTicking self_id (on_register_timer id d) rt s h =
          register_timer-IsTicking self_id id d rt s h
      handle-IsTicking self_id (on_cancel_timer id d) rt s h =
          cancel_timer-IsTicking self_id id d rt s h
      handle-IsTicking self_id on_timer_tick rt s h =
          (handle_timer_tick-Later self_id rt s h.ordered).0

      reschedule-IsTicking :
          (self_id : Uuid) (r : Turn E F P × Scheduler E T R)
          → IsTicking self_id r.0.runtime r.1
          → let q = reschedule wrap self_id r in IsTicking self_id q.0.runtime q.1
      unfolding reschedule
      reschedule-IsTicking self_id (c, s) h =
          if_ind (λ (q : Turn E F P × Scheduler E T R). IsTicking self_id q.0.runtime q.1)
            (is_empty c.runtime.ready_queue) (λ _. h)
            (λ _. record {
              ordered = h.ordered;
              first = h.first;
              tick =
                  schedule-HasTick time_zero self_id self_id (wrap on_poll) s
                    c.runtime.next_timer_deadline h.tick;
            })

      -- If the timers are in order, the next deadline is that of the first one and a tick for it is
      -- in the scheduler, at that deadline or at the current time when that is later, cut to the
      -- range of a u64, then all this holds after any event of the runtime.
      pub process_event-IsTicking :
          (self_id : Uuid) (event : RuntimeEvent) (rt : Runtime F P) (s : Scheduler E T R)
          → IsTicking self_id rt s
          → let r = process_event wrap poll policy self_id event rt s in
            IsTicking self_id r.0.runtime r.1
      unfolding process_event
      process_event-IsTicking self_id event rt s h = reschedule-IsTicking self_id _ (
          handle-IsTicking self_id event (keyed self_id rt) s
            (record { ordered = h.ordered; first = h.first; tick = h.tick }))
