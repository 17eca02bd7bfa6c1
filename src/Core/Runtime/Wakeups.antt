-- ===== src/Core/Runtime/Wakeups.antt =====
-- The queued tasks of the runtime across its events (des-core/src/async_runtime.rs).
use des_cartes.Prelude.{
  ℕ, ◌≡◌, refl, subst, ◌⊎◌, inl, inr, true, Option, none, some, List, [], ◌∷◌, if_ind, is_empty,
  lookup, remove_key, remove_key-All, contains-last, All, All-mono, Option-cases,
}
use des_cartes.Core.Time.{SimTime}
use des_cartes.Core.Ids.{Uuid}
use des_cartes.Core.Scheduler.{Scheduler, schedule_now, time}
use des_cartes.Core.Runtime.{
  RuntimeEvent, on_poll, on_timer_tick, on_wake, on_cancel, on_register_timer, on_cancel_timer,
  ReadyPolicy, Runtime, Task, Futures, Turn, take_due, drop_timer, drop_task, push_timer,
  first_deadline, queue_task, wake_task, wake_tasks, poll_ready_tasks, start,
}
use des_cartes.Core.Runtime.Pending.{Pending}
use des_cartes.Core.Runtime.Rounds.{IsConsistent, Pending-snoc, poll_ready_tasks-Unqueued}
use des_cartes.Core.Runtime.Events.{
  keyed, same_deadline, schedule_next_timer_tick, register_timer, cancel_timer, cancel_task,
  handle_timer_tick, handle, reschedule, process_event,
}

Pending-none {ℓ} : {F : Type ℓ} (set : List ℕ) (e : ℕ × Task F) → Pending [] e → Pending set e
Pending-none set e (inl h) = inl h
Pending-none set e (inr h) = absurd (cc)

is_empty-eq_nil {ℓ} : {A : Type ℓ} (xs : List A) → is_empty xs ≡ true → xs ≡ []
is_empty-eq_nil [] e = refl
is_empty-eq_nil (x ∷ xs) e = absurd (cc)

-- No task is queued, or the runtime's poll is scheduled for the current time.
abbrev pub Attended {ℓ} :
    {E : Type ℓ}
    → (RuntimeEvent → E)
    → {F P T R : Type ℓ} → Uuid
    → Turn E F P × Scheduler E T R
    → Type ℓ
Attended {E = E} wrap {T = T} {R = R} self_id (c, s) =
    All (Pending []) c.runtime.tasks
    ⊎ ((s' : Scheduler E T R) × (s ≡ schedule_now self_id (wrap on_poll) s'))

module _ {ℓ} {F P : Type ℓ} where
  -- What stays: the key, and that queued tasks stand in the ready queue.
  pub record Kept (key : Uuid) (rt : Runtime F P) : Type ℓ where
    pub runtime_key : rt.runtime_key ≡ some key
    pub consistent : IsConsistent rt

  pub queue_task-Kept :
      (key : Uuid) (o : Option (Task F)) (id : ℕ) (rt : Runtime F P)
      → Kept key rt
      → Kept key (queue_task o id rt)
  unfolding queue_task
  queue_task-Kept key none id rt h = h
  queue_task-Kept key (some t) id rt h =
      if_ind (Kept key) t.queued (λ _. h)
        (λ _. record {
          runtime_key = h.runtime_key;
          consistent = (
            inr (contains-last id rt.ready_queue),
            remove_key-All id rt.tasks (λ e q n. Pending-snoc id rt.ready_queue e q) h.consistent,
          );
        })

  pub wake_tasks-Kept :
      (key : Uuid) (woken : List ℕ) (rt : Runtime F P)
      → Kept key rt
      → Kept key (wake_tasks woken rt)
  unfolding wake_tasks
  wake_tasks-Kept key [] rt h = h
  wake_tasks-Kept key (id ∷ woken) rt h =
      wake_tasks-Kept key woken (wake_task id rt) (queue_task-Kept key (lookup id rt.tasks) id rt h)

  pub keyed-Kept :
      (self_id : Uuid) (rt : Runtime F P)
      → IsConsistent rt
      → (key : Uuid) × Kept key (keyed self_id rt)
  keyed-Kept self_id rt h = elim (Option-cases rt.runtime_key) [
    | inl n ↦ (self_id, record { runtime_key = rw n refl; consistent = h })
    | inr (key, e) ↦ (key, record { runtime_key = rw e refl; consistent = h })
  ]

module _ {ℓ} {E : Type ℓ} (wrap : RuntimeEvent → E) {F P : Type ℓ} (poll : Futures F)
    (policy : ReadyPolicy P) where
  poll_ready_tasks-Kept :
      (key : Uuid) (now : SimTime) (rt : Runtime F P)
      → Kept key rt
      → IsConsistent (poll_ready_tasks wrap poll policy now (start rt)).runtime
  poll_ready_tasks-Kept key now rt h =
      let c = poll_ready_tasks wrap poll policy now (start rt) in
      All-mono c.runtime.tasks (Pending-none c.runtime.ready_queue)
        (poll_ready_tasks-Unqueued wrap poll policy key now rt h.runtime_key h.consistent)

module _ {ℓ} {E : Type ℓ} (wrap : RuntimeEvent → E) {F P T R : Type ℓ} where
  pub schedule_next_timer_tick-Kept :
      (key self_id : Uuid) (rt : Runtime F P) (s : Scheduler E T R)
      → Kept key rt
      → Kept key (schedule_next_timer_tick wrap self_id rt s).0
  unfolding schedule_next_timer_tick
  schedule_next_timer_tick-Kept key self_id rt s h =
      if_ind (λ (r : Runtime F P × Scheduler E T R). Kept key r.0)
        (same_deadline (first_deadline rt.timers) rt.next_timer_deadline) (λ _. h)
        (λ _. record { runtime_key = h.runtime_key; consistent = h.consistent })

  register_timer-Kept :
      (key self_id : Uuid) (id : ℕ) (deadline : SimTime) (rt : Runtime F P) (s : Scheduler E T R)
      → Kept key rt
      → Kept key (register_timer wrap id deadline self_id rt s).0
  unfolding register_timer
  register_timer-Kept key self_id id deadline rt s h = by (lookup id rt.tasks)
    where
      by :
          (o : Option (Task F))
          → Kept key
              (elim o as (λ _. Runtime F P × Scheduler E T R) [
                | none ↦ (rt, s)
                | some t ↦
                    schedule_next_timer_tick wrap self_id
                      (record rt { timers = push_timer deadline id rt.timers })
                      s
              ]).0
      by none = h
      by (some t) =
          schedule_next_timer_tick-Kept key self_id
            (record rt { timers = push_timer deadline id rt.timers }) s
            (record { runtime_key = h.runtime_key; consistent = h.consistent })

  cancel_timer-Kept :
      (key self_id : Uuid) (id : ℕ) (deadline : SimTime) (rt : Runtime F P) (s : Scheduler E T R)
      → Kept key rt
      → Kept key (cancel_timer wrap id deadline self_id rt s).0
  unfolding cancel_timer
  cancel_timer-Kept key self_id id deadline rt s h =
      let rt' : Runtime F P = record rt { timers = (drop_timer deadline id rt.timers).1 } in
      let same : Kept key rt' = record { runtime_key = h.runtime_key; consistent = h.consistent } in
      if_ind (λ (r : Runtime F P × Scheduler E T R). Kept key r.0)
        (drop_timer deadline id rt.timers).0
        (λ _. schedule_next_timer_tick-Kept key self_id rt' s same) (λ _. same)

  cancel_task-Kept :
      (key self_id : Uuid) (id : ℕ) (rt : Runtime F P) (s : Scheduler E T R)
      → Kept key rt
      → Kept key (cancel_task wrap id self_id rt s).0
  unfolding cancel_task
  cancel_task-Kept key self_id id rt s h =
      schedule_next_timer_tick-Kept key self_id
        (record rt { tasks = remove_key id rt.tasks; timers = drop_task id rt.timers }) s
        (record {
          runtime_key = h.runtime_key;
          consistent = remove_key-All id rt.tasks (λ e q n. q) h.consistent;
        })

  reschedule-IsConsistent :
      (self_id : Uuid) (r : Turn E F P × Scheduler E T R)
      → IsConsistent r.0.runtime
      → IsConsistent (reschedule wrap self_id r).0.runtime
  unfolding reschedule
  reschedule-IsConsistent self_id (c, s) h =
      if_ind (λ (r : Turn E F P × Scheduler E T R). IsConsistent r.0.runtime)
        (is_empty c.runtime.ready_queue) (λ _. h) (λ _. h)

  module _ (poll : Futures F) (policy : ReadyPolicy P) where
    handle-IsConsistent :
        (key self_id : Uuid) (event : RuntimeEvent) (rt : Runtime F P) (s : Scheduler E T R)
        → Kept key rt
        → IsConsistent (handle wrap poll policy self_id event rt s).0.runtime
    unfolding handle handle_timer_tick
    handle-IsConsistent key self_id on_poll rt s h =
        poll_ready_tasks-Kept wrap poll policy key (time s) rt h
    handle-IsConsistent key self_id (on_wake id) rt s h =
        poll_ready_tasks-Kept wrap poll policy key (time s) (wake_task id rt)
          (queue_task-Kept key (lookup id rt.tasks) id rt h)
    handle-IsConsistent key self_id (on_cancel id) rt s h =
        (cancel_task-Kept key self_id id rt s h).consistent
    handle-IsConsistent key self_id (on_register_timer id d) rt s h =
        (register_timer-Kept key self_id id d rt s h).consistent
    handle-IsConsistent key self_id (on_cancel_timer id d) rt s h =
        (cancel_timer-Kept key self_id id d rt s h).consistent
    handle-IsConsistent key self_id on_timer_tick rt s h =
        let (due, timers) = take_due (time s) rt.timers in
        let woken : Runtime F P =
          wake_tasks due (record rt { timers = timers; next_timer_deadline = none }) in
        let ticked = schedule_next_timer_tick wrap self_id woken s in
        poll_ready_tasks-Kept wrap poll policy key (time ticked.1) ticked.0 (
          schedule_next_timer_tick-Kept key self_id woken s (
            wake_tasks-Kept key due (record rt { timers = timers; next_timer_deadline = none })
              (record { runtime_key = h.runtime_key; consistent = h.consistent })))

    pub process_event-IsConsistent :
        (self_id : Uuid) (event : RuntimeEvent) (rt : Runtime F P) (s : Scheduler E T R)
        → IsConsistent rt
        → IsConsistent (process_event wrap poll policy self_id event rt s).0.runtime
    unfolding process_event
    process_event-IsConsistent self_id event rt s h =
        let (key, kept) = keyed-Kept self_id rt h in
        reschedule-IsConsistent self_id _
          (handle-IsConsistent key self_id event (keyed self_id rt) s kept)

    -- If every queued task stands in the ready queue, then after any event of the runtime no task
    -- is queued, or a poll of the runtime is the last thing that was scheduled, for the current
    -- time.
    pub process_event-Attended :
        (self_id : Uuid) (event : RuntimeEvent) (rt : Runtime F P) (s : Scheduler E T R)
        → IsConsistent rt
        → Attended wrap self_id (process_event wrap poll policy self_id event rt s)
    unfolding process_event reschedule
    process_event-Attended self_id event rt s h =
        let (key, kept) = keyed-Kept self_id rt h in
        let r = handle wrap poll policy self_id event (keyed self_id rt) s in
        if_ind (Attended wrap self_id) (is_empty r.0.runtime.ready_queue)
          (λ e. inl (
            subst (λ q. All (Pending q) r.0.runtime.tasks) (is_empty-eq_nil _ e)
              (handle-IsConsistent key self_id event (keyed self_id rt) s kept)))
          (λ _. inr (r.1, refl))
