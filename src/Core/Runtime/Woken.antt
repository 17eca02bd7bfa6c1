-- ===== src/Core/Runtime/Woken.antt =====
-- The tasks that an event of the runtime wakes (des-core/src/async_runtime.rs).
use des_cartes.Prelude.{
  ℕ, ◌≡◌, refl, sym, ◌∙◌, subst, ◌⊎◌, inl, inr, true, none, some, List, [], ◌∷◌, if_ind, is_empty,
  lookup, contains, contains-Perm, All, All-mono,
}
use des_cartes.Core.Time.{SimTime}
use des_cartes.Core.Ids.{Uuid}
use des_cartes.Core.Scheduler.{Scheduler, time}
use des_cartes.Core.Runtime.{
  RuntimeEvent, on_poll, on_timer_tick, on_wake, on_cancel, on_register_timer, on_cancel_timer,
  ReadyPolicy, Runtime, Futures, Turn, take_due, first_deadline, wake_task, wake_tasks,
  poll_ready_tasks, start,
}
use des_cartes.Core.Runtime.Rounds.{IsConsistent, poll_ready_tasks-Round}
use des_cartes.Core.Runtime.Events.{
  keyed, same_deadline, schedule_next_timer_tick, handle_timer_tick, handle, reschedule,
  process_event,
}
use des_cartes.Core.Runtime.Wakeups.{
  Kept, queue_task-Kept, wake_tasks-Kept, keyed-Kept, schedule_next_timer_tick-Kept,
  process_event-IsConsistent,
}
use des_cartes.Core.Runtime.Waking.{
  contains-left, contains-append, All-contains, Ready, queue_task-Ready, wake_tasks-Ready,
}

module _ {ℓ} {F P : Type ℓ} where
  -- What a wake-up did for a task: there was none, or it was polled, or it is gone.
  abbrev pub Answered : {E : Type ℓ} → Runtime F P → Turn E F P → ℕ → Type ℓ
  Answered rt c id =
      (lookup id rt.tasks ≡ none)
      ⊎ (contains id c.polled ≡ true)
      ⊎ (lookup id c.runtime.tasks ≡ none)

-- The tasks that an event wakes: all with a deadline that has passed, on a tick.
abbrev pub woken_by : RuntimeEvent → SimTime → List (SimTime × List ℕ) → List ℕ
woken_by on_poll now timers = []
woken_by (on_wake id) now timers = id ∷ []
woken_by (on_cancel id) now timers = []
woken_by (on_register_timer id deadline) now timers = []
woken_by (on_cancel_timer id deadline) now timers = []
woken_by on_timer_tick now timers = (take_due now timers).0

module _ {ℓ} {E : Type ℓ} (wrap : RuntimeEvent → E) {F P : Type ℓ} (poll : Futures F)
    (policy : ReadyPolicy P) where
  -- A task that stands in the ready queue is polled, or gone.
  poll_ready_tasks-polled :
      (key : Uuid) (now : SimTime) (id : ℕ) (rt : Runtime F P)
      → rt.runtime_key ≡ some key
      → contains id rt.ready_queue ≡ true
      → let c = poll_ready_tasks wrap poll policy now (start rt) in
        (contains id c.polled ≡ true) ⊎ (lookup id c.runtime.tasks ≡ none)
  poll_ready_tasks-polled key now id rt k h =
      let c = poll_ready_tasks wrap poll policy now (start rt) in
      let r = poll_ready_tasks-Round wrap poll policy key now rt k in
      let there = sym (contains-Perm id r.perm) ∙ contains-left id rt.ready_queue _ h in
      elim (contains-append id c.polled r.skipped there) [
        | inl p ↦ inl p
        | inr g ↦ inr (All-contains (λ i. lookup i c.runtime.tasks ≡ none) id r.skipped r.gone g)
      ]

  Ready-Answered :
      (key : Uuid) (now : SimTime) (id : ℕ) (rt rt' : Runtime F P)
      → rt'.runtime_key ≡ some key
      → Ready rt rt' id
      → Answered rt (poll_ready_tasks wrap poll policy now (start rt')) id
  Ready-Answered key now id rt rt' k (inl n) = inl n
  Ready-Answered key now id rt rt' k (inr c) = inr (poll_ready_tasks-polled key now id rt' k c)

module _ {ℓ} {E : Type ℓ} (wrap : RuntimeEvent → E) {F P T R : Type ℓ} where
  ticked-ready_queue :
      (self_id : Uuid) (rt : Runtime F P) (s : Scheduler E T R)
      → (schedule_next_timer_tick wrap self_id rt s).0.ready_queue ≡ rt.ready_queue
  unfolding schedule_next_timer_tick
  ticked-ready_queue self_id rt s =
      if_ind (λ (r : Runtime F P × Scheduler E T R). r.0.ready_queue ≡ rt.ready_queue)
        (same_deadline (first_deadline rt.timers) rt.next_timer_deadline) (λ _. refl) (λ _. refl)

  reschedule-turn :
      (self_id : Uuid) (r : Turn E F P × Scheduler E T R) → (reschedule wrap self_id r).0 ≡ r.0
  unfolding reschedule
  reschedule-turn self_id (c, s) =
      if_ind (λ (r : Turn E F P × Scheduler E T R). r.0 ≡ c) (is_empty c.runtime.ready_queue)
        (λ _. refl) (λ _. refl)

  module _ (poll : Futures F) (policy : ReadyPolicy P) where
    tick-Answered :
        (key self_id : Uuid) (rt : Runtime F P) (s : Scheduler E T R)
        → Kept key rt
        → All
            (Answered rt (handle_timer_tick wrap poll policy self_id rt s).0)
            (take_due (time s) rt.timers).0
    unfolding handle_timer_tick
    tick-Answered key self_id rt s h =
        let (due, timers) = take_due (time s) rt.timers in
        let rt1 : Runtime F P = record rt { timers = timers; next_timer_deadline = none } in
        let kept1 : Kept key rt1 = record {
          runtime_key = h.runtime_key;
          consistent = h.consistent;
        } in
        let rt2 = wake_tasks due rt1 in
        let ticked = schedule_next_timer_tick wrap self_id rt2 s in
        let kept =
          schedule_next_timer_tick-Kept wrap key self_id rt2 s
            (wake_tasks-Kept key due rt1 kept1) in
        let same : rt2.ready_queue ≡ ticked.0.ready_queue =
          sym (ticked-ready_queue self_id rt2 s) in
        All-mono due
          (λ id q.
            Ready-Answered wrap poll policy key (time ticked.1) id rt ticked.0 kept.runtime_key
              (subst (λ r. (lookup id rt.tasks ≡ none) ⊎ (contains id r ≡ true)) same q))
          (wake_tasks-Ready key due rt1 kept1)

    handle-Answered :
        (key self_id : Uuid) (event : RuntimeEvent) (rt : Runtime F P) (s : Scheduler E T R)
        → Kept key rt
        → All
            (Answered rt (handle wrap poll policy self_id event rt s).0)
            (woken_by event (time s) rt.timers)
    unfolding handle
    handle-Answered key self_id on_poll rt s h = tt
    handle-Answered key self_id (on_wake id) rt s h = (
      Ready-Answered wrap poll policy key (time s) id rt (wake_task id rt)
          (queue_task-Kept key (lookup id rt.tasks) id rt h).runtime_key
          (queue_task-Ready id rt (lookup id rt.tasks) refl h.consistent),
      tt,
    )
    handle-Answered key self_id (on_cancel id) rt s h = tt
    handle-Answered key self_id (on_register_timer id deadline) rt s h = tt
    handle-Answered key self_id (on_cancel_timer id deadline) rt s h = tt
    handle-Answered key self_id on_timer_tick rt s h = tick-Answered key self_id rt s h

    -- If every queued task stands in the ready queue, then after any event of the runtime, whatever
    -- the polled futures call and the policy chooses, this holds again, and each task that the
    -- event wakes, the one of a wake event or those whose timers a tick finds due, either was not
    -- there, was polled while the event was handled, or is gone.
    pub process_event-Answered :
        (self_id : Uuid) (event : RuntimeEvent) (rt : Runtime F P) (s : Scheduler E T R)
        → IsConsistent rt
        → let c = (process_event wrap poll policy self_id event rt s).0 in
          IsConsistent c.runtime × All (Answered rt c) (woken_by event (time s) rt.timers)
    unfolding process_event
    process_event-Answered self_id event rt s h =
        let (key, kept) = keyed-Kept self_id rt h in
        let r = handle wrap poll policy self_id event (keyed self_id rt) s in
        (
          process_event-IsConsistent wrap poll policy self_id event rt s h,
          subst (λ c. All (Answered rt c) (woken_by event (time s) rt.timers))
              (sym (reschedule-turn self_id r))
              (handle-Answered key self_id event (keyed self_id rt) s kept),
        )
