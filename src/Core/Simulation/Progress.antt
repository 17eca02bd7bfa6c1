-- ===== src/Core/Simulation/Progress.antt =====
-- Time in a simulation never runs backwards, whatever the handlers do with the scheduler.
use des_cartes.Prelude.{
  ℕ, ◌+◌, inl, inr, ◌≤◌, ◌<◌, ◌≡◌, refl, Bool, true, false, Option, none, some, List, [], ◌∷◌,
  arith, lookup, contains, remove_key, u64_max, length, Option-cases, if_ind,
}
use native.Mathlib.Nat.{le_refl, le_trans}
use des_cartes.Core.Scheduler.{
  Scheduler, schedule, schedule_task, schedule_task_at, cancel_task, get_task_result, execute_task,
  store_result, finish_task, run_task,
}
use des_cartes.Core.Scheduler.Validity.{
  IsValid, schedule-IsValid, schedule_task-IsValid, schedule_task_at-IsValid, cancel_task-IsValid,
}
use des_cartes.Core.Simulation.{DeferredWake, drain_deferred_wakes}

module _ {ℓ} {E T R : Type ℓ} where
  -- What a handler may do with the scheduler that it is lent: any calls of its interface.
  pub data Calls (s : Scheduler E T R) : Scheduler E T R → Type (ℓ + 1) where
    done : Calls s s
    schedules :
        {t : Scheduler E T R} (delay target : ℕ) (event : E)
        → Calls s t
        → t.next_event_id < u64_max
        → Calls s (schedule delay target event t)
    schedules_task :
        {t : Scheduler E T R} (delay : ℕ) (boxed : T)
        → Calls s t
        → t.next_event_id < u64_max
        → Calls s (schedule_task delay boxed t).1
    reschedules :
        {t : Scheduler E T R} (at id : ℕ) (boxed : T)
        → Calls s t
        → t.next_event_id < u64_max
        → t.clock ≤ at
        → at ≤ u64_max
        → Calls s (schedule_task_at at id boxed t)
    cancels : {t : Scheduler E T R} (id : ℕ) → Calls s t → Calls s (cancel_task id t).1
    fetches :
        {t : Scheduler E T R} {Out : Type ℓ} (downcast : R → Option Out) (id : ℕ)
        → Calls s t
        → Calls s (get_task_result downcast id t).1

  -- The invariant holds and the clock did not go back.
  pub record Onward (s t : Scheduler E T R) : Type 0 where
    pub valid : IsValid t
    pub forward : s.clock ≤ t.clock

  get_task_result-IsValid :
      {Out : Type ℓ} (downcast : R → Option Out) (id : ℕ) (s : Scheduler E T R)
      → IsValid s
      → IsValid (get_task_result downcast id s).1
  unfolding get_task_result
  get_task_result-IsValid downcast id s v =
      elim (Option-cases (lookup id s.completed_task_results)) [
        | inl e ↦ rw (e, get_task_result) v
        | inr (x, e) ↦ rw (e, get_task_result) (record { in_range = v.in_range; due = v.due })
      ]

  clock-schedule : (d c : ℕ) (x : E) (s : Scheduler E T R) → (schedule d c x s).clock ≡ s.clock
  unfolding schedule
  clock-schedule d c x s = refl

  clock-schedule_task :
      (d : ℕ) (x : T) (s : Scheduler E T R) → (schedule_task d x s).1.clock ≡ s.clock
  unfolding schedule_task
  clock-schedule_task d x s = refl

  clock-schedule_task_at :
      (t id : ℕ) (x : T) (s : Scheduler E T R) → (schedule_task_at t id x s).clock ≡ s.clock
  unfolding schedule_task_at
  clock-schedule_task_at t id x s = refl

  clock-cancel_task : (id : ℕ) (s : Scheduler E T R) → (cancel_task id s).1.clock ≡ s.clock
  unfolding cancel_task
  clock-cancel_task id s = ground arith

  clock-get_task_result :
      {Out : Type ℓ} (downcast : R → Option Out) (id : ℕ) (s : Scheduler E T R)
      → (get_task_result downcast id s).1.clock ≡ s.clock
  unfolding get_task_result
  clock-get_task_result downcast id s = ground arith

  pub Calls-Onward : {s t : Scheduler E T R} → Calls s t → IsValid s → Onward s t
  Calls-Onward done v = record { valid = v; forward = le_refl _ }
  Calls-Onward (schedules {t} d c x k room) v =
      let h = Calls-Onward k v in
      record {
        valid = schedule-IsValid d c x t room h.valid;
        forward = omega (arith, clock-schedule d c x t, h.forward);
      }
  Calls-Onward (schedules_task {t} d x k room) v =
      let h = Calls-Onward k v in
      record {
        valid = schedule_task-IsValid d x t room h.valid;
        forward = omega (arith, clock-schedule_task d x t, h.forward);
      }
  Calls-Onward (reschedules {t} at id x k room lo hi) v =
      let h = Calls-Onward k v in
      record {
        valid = schedule_task_at-IsValid at id x t room lo hi h.valid;
        forward = omega (arith, clock-schedule_task_at at id x t, h.forward);
      }
  Calls-Onward (cancels {t} id k) v =
      let h = Calls-Onward k v in
      record {
        valid = cancel_task-IsValid id t h.valid;
        forward = omega (arith, clock-cancel_task id t, h.forward);
      }
  Calls-Onward (fetches {t} f id k) v =
      let h = Calls-Onward k v in
      record {
        valid = get_task_result-IsValid f id t h.valid;
        forward = omega (arith, clock-get_task_result f id t, h.forward);
      }

  pub Onward-trans : {s t u : Scheduler E T R} → Onward s t → Onward t u → Onward s u
  Onward-trans h k = record { valid = k.valid; forward = le_trans h.forward k.forward }

  pub drain_deferred_wakes-Onward :
      (ws : List (DeferredWake E)) (s : Scheduler E T R)
      → s.next_event_id + length ws ≤ u64_max
      → IsValid s
      → Onward s (drain_deferred_wakes ws s)
        × ((drain_deferred_wakes ws s).next_event_id ≡ s.next_event_id + length ws)
  unfolding drain_deferred_wakes
  drain_deferred_wakes-Onward [] s room v = (record { valid = v; forward = le_refl _ }, omega arith)
  drain_deferred_wakes-Onward (w ∷ ws) s room v =
      let s' = schedule w.delay w.target w.event s in
      let v' = schedule-IsValid w.delay w.target w.event s (omega arith) v in
      let next = numbers-schedule w.delay w.target w.event s (omega arith) in
      let ih = drain_deferred_wakes-Onward ws s' (omega (arith, next)) v' in
      (
        Onward-trans
            (record {
              valid = v';
              forward = omega (arith, clock-schedule w.delay w.target w.event s);
            })
            ih.0,
        omega (arith, ih.1, next),
      )
    where
      numbers-schedule :
          (d c : ℕ) (x : E) (s : Scheduler E T R)
          → s.next_event_id < u64_max
          → (schedule d c x s).next_event_id ≡ s.next_event_id + 1
      numbers-schedule d c x s room = omega arith

  -- Two states with the same clock, numbers and events.
  abbrev Alike : Scheduler E T R → Scheduler E T R → Type ℓ
  Alike s t = (t.clock ≡ s.clock) × (t.next_event_id ≡ s.next_event_id) × (t.events ≡ s.events)

  finish_task-Alike :
      (id : ℕ) (result : Option R) (s : Scheduler E T R) → Alike s (finish_task id result s)
  unfolding finish_task
  finish_task-Alike id result s = elim (Option-cases (lookup id s.pending_tasks)) [
    | inl e ↦ rw (e, finish_task) (stored result)
    | inr (x, e) ↦ rw (e, finish_task) (refl, refl, refl)
  ]
    where
      stored : (o : Option R) → Alike s (store_result id o s)
      stored none = (refl, refl, refl)
      stored (some r) = (refl, refl, refl)

  IsValid-Alike : {s t : Scheduler E T R} → Alike s t → IsValid s → IsValid t
  IsValid-Alike {s} {t} a v = record {
    in_range = omega (arith, a.0, v.in_range);
    due = rw (a.0, a.1, a.2) v.due;
  }

  module _ (run : T → Scheduler E T R → Option R × Scheduler E T R) (id : ℕ) where
    run_task-Onward :
        (boxed : T) (s : Scheduler E T R)
        → ((t : Scheduler E T R) → t.next_event_id ≡ s.next_event_id → Calls t (run boxed t).1)
        → IsValid s
        → Onward s (run_task run id boxed s)
    unfolding run_task
    run_task-Onward boxed s calls v =
        let before : Scheduler E T R = record s {
          pending_tasks = remove_key id s.pending_tasks;
          executing_task_id = some id;
        } in
        let h = Calls-Onward (calls before refl) (record { in_range = v.in_range; due = v.due }) in
        let after = (run boxed before).1 in
        let last : Scheduler E T R = record after { executing_task_id = s.executing_task_id } in
        let a = finish_task-Alike id (run boxed before).0 last in
        record {
          valid = IsValid-Alike {s = after} (a.0, a.1, a.2) h.valid;
          forward = omega (arith, a.0, h.forward);
        }

    -- A task that only makes calls of the scheduler's interface moves the simulation on.
    pub execute_task-Onward :
        (s : Scheduler E T R)
        → ((boxed : T) (t : Scheduler E T R)
            → t.next_event_id ≡ s.next_event_id
            → Calls t (run boxed t).1)
        → IsValid s
        → Onward s (execute_task run id s).1
    unfolding execute_task
    execute_task-Onward s calls v =
        if_ind (λ (r : Bool × Scheduler E T R). Onward s r.1) (contains id s.cancelled_tasks)
          (λ _. record {
            valid = record { in_range = v.in_range; due = v.due };
            forward = le_refl _;
          })
          (λ _. ran (lookup id s.pending_tasks))
      where
        ran :
            (o : Option T)
            → Onward s
                (elim o as (λ _. Bool × Scheduler E T R) [
                  | none ↦ (false, s)
                  | some boxed ↦ (true, run_task run id boxed s)
                ]).1
        ran none = record { valid = v; forward = le_refl _ }
        ran (some boxed) = run_task-Onward boxed s (calls boxed) v

    pub execute_task-missing :
        (s : Scheduler E T R)
        → lookup id s.pending_tasks ≡ none
        → (execute_task run id s).1.next_event_id ≡ s.next_event_id
    unfolding execute_task
    execute_task-missing s e =
        if_ind (λ (r : Bool × Scheduler E T R). r.1.next_event_id ≡ s.next_event_id)
          (contains id s.cancelled_tasks) (λ _. refl) (λ _. rw e refl)
