-- ===== src/Components/World/Steps.antt =====
-- The steps of a simulation of servers and clients (des-core/src/lib.rs with des-components/src), and
-- the invariants of all of them.
use des_cartes.Prelude.{
  ℕ, zero, suc, ◌≡◌, refl, sym, Bool, if_ind, true, false, Option, none, some, List, [], ◌∷◌,
  lookup, insert_key, remove_key, OnSome-mono, arith, contains,
}
use des_cartes.Core.Time.{Duration}
use des_cartes.Core.Ids.{Uuid}
use des_cartes.Core.Scheduler.{
  Scheduler, EventEntry, component, task, Policy, pop_with_policy, execute_task, run_task,
  finish_task, store_result,
}
use des_cartes.Core.Scheduler.Conservation.{found, Accounts, pop_with_policy-Accounts}
use des_cartes.Core.Simulation.{
  Handlers, Simulation, DeferredWake, process_event_entry, drain_deferred_wakes, run_event, step,
  execute_steps,
}
use des_cartes.Components.Queue.{Queue}
use des_cartes.Components.Queue.Contents.{Holds}
use des_cartes.Components.Retry.{RetryPolicy}
use des_cartes.Components.Service.{ServiceEvent, addressed}
use des_cartes.Components.Server.Threads.{completes}
use des_cartes.Components.World.{Part, handle_part, service_handlers}
use des_cartes.Components.World.Effects.{Grows, refl-Grows}
use des_cartes.Components.World.Soundness.{Accounts-sum, move-Held, AllHeld, run_component-AllHeld}

module _ {T R : Type 0} where
  -- What a task leaves behind is no event.
  finish_task-events :
      (task_id : Uuid) (result : Option R) (s : Scheduler ServiceEvent T R)
      → (finish_task task_id result s).events ≡ s.events
  unfolding finish_task store_result
  finish_task-events task_id result s = go (lookup task_id s.pending_tasks) result
    where
      go :
          (o : Option T) (result : Option R)
          → let s' : Scheduler ServiceEvent T R = elim o [
            | some _ ↦ s
            | none ↦ store_result task_id result s
          ] in
            s'.events ≡ s.events
      go (some boxed) result = refl
      go none none = refl
      go none (some r) = refl

  same_events :
      (id : Uuid) (s t s' : Scheduler ServiceEvent T R)
      → s'.events ≡ t.events
      → Grows id s t
      → Grows id s s'
  same_events id s t s' e h = record {
    more = λ f. rw e (h.more f);
    same_completions = λ j ne. rw e (h.same_completions j ne);
  }

  from_start :
      (id : Uuid) (s t u : Scheduler ServiceEvent T R)
      → u.events ≡ s.events
      → Grows id u t
      → Grows id s t
  from_start id s t u e h = record {
    more = λ f. rw (sym e) (h.more f);
    same_completions = λ j ne. rw (sym e) (h.same_completions j ne);
  }

  module _ (execute : T → Scheduler ServiceEvent T R → Option R × Scheduler ServiceEvent T R)
      (tame : (id : Uuid) (boxed : T) (s : Scheduler ServiceEvent T R)
        → Grows id s (execute boxed s).1) where
    execute_task-Grows :
        (id task_id : Uuid) (s : Scheduler ServiceEvent T R)
        → Grows id s (execute_task execute task_id s).1
    unfolding execute_task run_task
    execute_task-Grows id task_id s =
        if_ind (λ (r : Bool × Scheduler ServiceEvent T R). Grows id s r.1)
          (contains task_id s.cancelled_tasks) (λ h. same_events id s s _ refl (refl-Grows id s))
          (λ h. ran (lookup task_id s.pending_tasks))
      where
        ran :
            (o : Option T)
            → let r : Bool × Scheduler ServiceEvent T R = elim o [
              | none ↦ (false, s)
              | some boxed ↦ (true, run_task execute task_id boxed s)
            ] in
              Grows id s r.1
        ran none = refl-Grows id s
        ran (some boxed) =
            let started : Scheduler ServiceEvent T R = record s {
              pending_tasks = remove_key task_id s.pending_tasks;
              executing_task_id = some task_id;
            } in
            let r = execute boxed started in
            let ended : Scheduler ServiceEvent T R = record r.1 {
              executing_task_id = s.executing_task_id;
            } in
            same_events id s r.1 (finish_task task_id r.0 ended)
              (finish_task-events task_id r.0 ended)
              (from_start id s r.1 started refl (tame id boxed started))

module _ {Q D P T R : Type 0} (impl : Queue Q) (holds : Holds impl)
    (sample : D → List ℕ → Duration × D) (policy : RetryPolicy P) (body : ℕ → List ℕ)
    (execute : T → Scheduler ServiceEvent T R → Option R × Scheduler ServiceEvent T R)
    (tame : (id : Uuid) (boxed : T) (s : Scheduler ServiceEvent T R)
      → Grows id s (execute boxed s).1) where
  -- The handlers of the simulation.
  abbrev pub handlers : Handlers (Part Q D P) ServiceEvent T R
  handlers = service_handlers impl sample policy body execute

  after_task-AllHeld :
      (task_id : Uuid) (parts : List (Uuid × Part Q D P)) (s : Scheduler ServiceEvent T R)
      → AllHeld impl (λ id f. 0) parts s
      → AllHeld impl (λ id f. 0) parts (execute_task execute task_id s).1
  after_task-AllHeld task_id parts s h j =
      let t = (execute_task execute task_id s).1 in
      let grows = execute_task-Grows execute tame (suc j) task_id s in
      OnSome-mono (lookup j parts)
        (λ part v.
          move-Held impl (λ f. 0) (λ f. 0) s t j part
            (omega (arith, grows.same_completions j (grind arith)))
            (λ f. omega (arith, grows.more (addressed f j))) v)
        (h j)

  -- One event is run.
  process_event_entry-AllHeld :
      (e : EventEntry ServiceEvent) (parts : List (Uuid × Part Q D P))
      (s : Scheduler ServiceEvent T R)
      → AllHeld impl (λ id f. addressed f id e) parts s
      → let r = process_event_entry handlers e parts s in
        AllHeld impl (λ id f. 0) r.0 (drain_deferred_wakes r.2 r.1)
  unfolding process_event_entry service_handlers drain_deferred_wakes
  process_event_entry-AllHeld (component e) parts s h = go (lookup e.component parts) refl
    where
      go :
          (o : Option (Part Q D P))
          → lookup e.component parts ≡ o
          → let r : List (Uuid × Part Q D P)
                × Scheduler ServiceEvent T R
                × List (DeferredWake ServiceEvent) =
              elim o [
                | none ↦ (parts, s, [])
                | some part ↦
                    let p = handle_part impl sample policy body e.component e.inner part s in
                    (insert_key e.component p.0 parts, p.1, [])
              ] in
            AllHeld impl (λ id f. 0) r.0 (drain_deferred_wakes r.2 r.1)
      go none n = run_component-AllHeld impl holds sample policy body e parts s none n h
      go (some part) n =
          run_component-AllHeld impl holds sample policy body e parts s (some part) n h
  process_event_entry-AllHeld (task e) parts s h = go (lookup e.task_id s.pending_tasks)
    where
      go :
          (o : Option T)
          → AllHeld impl
              (λ id f. 0)
              parts
              (drain_deferred_wakes
                (elim o as (λ _. List (DeferredWake ServiceEvent)) [ none ↦ [] | some boxed ↦ [] ])
                (execute_task execute e.task_id s).1)
      go none = after_task-AllHeld e.task_id parts s h
      go (some boxed) = after_task-AllHeld e.task_id parts s h

  module _ {F : Type 0} (frontier : Policy F) where
    abbrev pub IsSound : Simulation (Part Q D P) ServiceEvent T R F → Type 0
    IsSound sim = AllHeld impl (λ id f. 0) sim.components sim.scheduler

    step-IsSound :
        (sim : Simulation (Part Q D P) ServiceEvent T R F)
        → IsSound sim
        → IsSound (step handlers frontier sim).1
    unfolding step run_event
    step-IsSound sim h =
        go (pop_with_policy frontier sim.policy_state sim.scheduler)
          (pop_with_policy-Accounts frontier sim.policy_state sim.scheduler)
      where
        go :
            (r : Option (EventEntry ServiceEvent) × F × Scheduler ServiceEvent T R)
            → Accounts sim.scheduler (found r.0) r.2.events
            → let o : Bool × Simulation (Part Q D P) ServiceEvent T R F = elim r.0 [
              | none ↦ (false, record sim { scheduler = r.2; policy_state = r.1 })
              | some e ↦ (true, run_event handlers frontier e r.1 r.2 sim)
            ] in
              IsSound o.1
        go (none, p, s) a = λ j.
            OnSome-mono (lookup j sim.components)
              (λ part v.
                move-Held impl (λ f. 0) (λ f. 0) sim.scheduler s j part
                  (omega (arith, Accounts-sum completes j sim.scheduler [] s.events a))
                  (λ f. omega (arith, Accounts-sum f j sim.scheduler [] s.events a)) v)
              (h j)
        go (some e, p, s) a = process_event_entry-AllHeld e sim.components s (λ j.
            OnSome-mono (lookup j sim.components)
              (λ part v.
                move-Held impl (λ f. 0) (λ f. addressed f j e) sim.scheduler s j part
                  (omega (arith, Accounts-sum completes j sim.scheduler (e ∷ []) s.events a))
                  (λ f. omega (arith, Accounts-sum f j sim.scheduler (e ∷ []) s.events a)) v)
              (h j))

    -- Take a simulation of servers, whose queues keep what they take, and clients, with tasks that
    -- take no event back and schedule no completion, under any frontier policy. If each server has
    -- as many active threads as completions due for it, within its capacity, and a look at the
    -- queue due whenever a thread is free and a request waits, and each request that waits in a
    -- client has the timeout of its last attempt or a retry due, then all this holds after any
    -- number of steps.
    pub execute_steps-IsSound :
        (n : ℕ) (sim : Simulation (Part Q D P) ServiceEvent T R F)
        → IsSound sim
        → IsSound (execute_steps handlers frontier n sim)
    unfolding execute_steps
    execute_steps-IsSound zero sim h = h
    execute_steps-IsSound (suc n) sim h =
        let h' = step-IsSound sim h in
        go (step handlers frontier sim).0 h' (execute_steps-IsSound n _ h')
      where
        go :
            (more : Bool)
            → IsSound (step handlers frontier sim).1
            → IsSound (execute_steps handlers frontier n (step handlers frontier sim).1)
            → let sim' = (step handlers frontier sim).1 in
              IsSound (elim more [ true ↦ execute_steps handlers frontier n sim' | false ↦ sim' ])
        go true h rest = rest
        go false h rest = h
