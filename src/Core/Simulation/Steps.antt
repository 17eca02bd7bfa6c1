-- ===== src/Core/Simulation/Steps.antt =====
-- A step of the simulation and the executors keep the invariant and never move the clock back.
use des_cartes.Prelude.{
  ℕ, zero, suc, ◌+◌, ◌*◌, inl, inr, ◌≤◌, ◌≡◌, refl, Bool, true, false, Option, none, some, List, [],
  arith, lookup, u64_max, length, Option-cases,
}
use native.Mathlib.Nat.{le_refl}
use des_cartes.Core.Ids.{Uuid}
use des_cartes.Core.Scheduler.{
  Scheduler, EventEntry, component, task, ComponentEventEntry, execute_task, pop_with_policy,
  Policy,
}
use des_cartes.Core.Scheduler.Validity.{IsValid, AfterChoice, pop_with_policy-AfterChoice}
use des_cartes.Core.Simulation.{
  Simulation, Handlers, DeferredWake, process_event_entry, run_event, step, execute_steps,
}
use des_cartes.Core.Simulation.Progress.{
  Calls, Onward, Onward-trans, Calls-Onward, drain_deferred_wakes-Onward, execute_task-Onward,
  execute_task-missing,
}

-- The handlers only make calls of the scheduler's interface, and each hands out at most `budget` event
-- numbers, those for the wakes that it defers included.
pub record Behaves {ℓ} {C E T R : Type ℓ} (h : Handlers C E T R) (budget : ℕ) : Type (ℓ + 1) where
  pub component_calls :
      (c : C) (e : ComponentEventEntry E) (s : Scheduler E T R)
      → s.next_event_id + budget ≤ u64_max
      → Calls s (h.process_event c e s).1
        × ((h.process_event c e s).1.next_event_id + length (h.process_event c e s).2
            ≤ s.next_event_id + budget)
  pub task_calls :
      (boxed : T) (s : Scheduler E T R)
      → s.next_event_id + budget ≤ u64_max
      → Calls s (h.execute boxed s).1
  pub task_numbers :
      (boxed : T) (id : ℕ) (s : Scheduler E T R)
      → s.next_event_id + budget ≤ u64_max
      → (execute_task h.execute id s).1.next_event_id + length (h.defers boxed s)
        ≤ s.next_event_id + budget

-- The scheduler moved on and used at most `budget` numbers.
abbrev pub Within {ℓ} : {E T R : Type ℓ} → ℕ → Scheduler E T R → Scheduler E T R → Type 0
Within budget s t = Onward s t × (t.next_event_id ≤ s.next_event_id + budget)

module _ {ℓ} {C E T R : Type ℓ} (h : Handlers C E T R) (budget : ℕ) (b : Behaves h budget) where
  abbrev Drained :
      Scheduler E T R → List (Uuid × C) × Scheduler E T R × List (DeferredWake E) → Type 0
  Drained s r = Onward s r.1 × (r.1.next_event_id + length r.2 ≤ s.next_event_id + budget)

  process_event_entry-Onward :
      (e : EventEntry E) (cs : List (Uuid × C)) (s : Scheduler E T R)
      → s.next_event_id + budget ≤ u64_max
      → IsValid s
      → Drained s (process_event_entry h e cs s)
  unfolding process_event_entry
  process_event_entry-Onward (component e) cs s room v =
      elim (Option-cases (lookup e.component cs)) [
        | inl n ↦
            rw (n, process_event_entry) (record { valid = v; forward = le_refl _ }, omega arith)
        | inr (c, f) ↦
            let calls = b.component_calls c e s room in
            rw (f, process_event_entry) (Calls-Onward calls.0 v, calls.1)
      ]
  process_event_entry-Onward (task e) cs s room v = ran (lookup e.task_id s.pending_tasks) refl
    where
      onward : Onward s (execute_task h.execute e.task_id s).1
      onward =
          execute_task-Onward h.execute e.task_id s
            (λ boxed t n. b.task_calls boxed t (omega (arith, n))) v

      ran :
          (o : Option T)
          → lookup e.task_id s.pending_tasks ≡ o
          → Onward s (execute_task h.execute e.task_id s).1
            × ((execute_task h.execute e.task_id s).1.next_event_id
                  + length (elim o as (λ _. List (DeferredWake E)) [
                    | none ↦ []
                    | some boxed ↦ h.defers boxed s
                  ])
                ≤ s.next_event_id + budget)
      ran none f = (onward, omega (arith, execute_task-missing h.execute e.task_id s f))
      ran (some boxed) f = (onward, b.task_numbers boxed e.task_id s room)

  module _ {P : Type ℓ} (policy : Policy P) where
    abbrev After : Simulation C E T R P → Bool × Simulation C E T R P → Type 0
    After sim r = Within budget sim.scheduler r.1.scheduler

    pub run_event-Within :
        (e : EventEntry E) (p : P) (s : Scheduler E T R) (sim : Simulation C E T R P)
        → s.next_event_id + budget ≤ u64_max
        → IsValid s
        → Within budget s (run_event h policy e p s sim).scheduler
    unfolding run_event
    run_event-Within e p s sim room v =
        let ran = process_event_entry-Onward e sim.components s room v in
        let result = process_event_entry h e sim.components s in
        let drained =
          drain_deferred_wakes-Onward result.2 result.1 (omega (arith, ran.1)) ran.0.valid in
        (Onward-trans ran.0 drained.0, omega (arith, ran.1, drained.1))

    -- For handlers that only call the scheduler and use at most `budget` event numbers, and any
    -- frontier policy: a step from a state whose events all lie between the clock and the end of
    -- time, with `budget` numbers left, leads to such a state, does not move the clock back and
    -- uses at most `budget` numbers.
    pub step-Within :
        (sim : Simulation C E T R P)
        → sim.scheduler.next_event_id + budget ≤ u64_max
        → IsValid sim.scheduler
        → Within budget sim.scheduler (step h policy sim).1.scheduler
    unfolding step
    step-Within sim room v =
        go (pop_with_policy policy sim.policy_state sim.scheduler)
          (pop_with_policy-AfterChoice policy sim.policy_state sim.scheduler v)
      where
        go :
            (r : Option (EventEntry E) × P × Scheduler E T R)
            → AfterChoice sim.scheduler r
            → After sim (elim r.0 [
              | none ↦ (false, record sim { scheduler = r.2; policy_state = r.1 })
              | some e ↦ (true, run_event h policy e r.1 r.2 sim)
            ])
        go (none, p, s) a =
            (record { valid = a.0; forward = omega (arith, a.1) }, omega (arith, a.3))
        go (some e, p, s) a =
            let ran = run_event-Within e p s sim (omega (arith, a.numbers)) a.valid in
            (
              Onward-trans (record { valid = a.valid; forward = a.forward }) ran.0,
              omega (arith, ran.1, a.numbers),
            )

    -- For handlers that only call the scheduler and use at most `budget` event numbers each, the
    -- executor of up to `n` steps, from a state whose events all lie between the clock and the end
    -- of time and with `n` times `budget` numbers left, leads to such a state, does not move the
    -- clock back and uses at most those numbers.
    pub execute_steps-Within :
        (n : ℕ) (sim : Simulation C E T R P)
        → sim.scheduler.next_event_id + n * budget ≤ u64_max
        → IsValid sim.scheduler
        → Within (n * budget) sim.scheduler (execute_steps h policy n sim).scheduler
    unfolding execute_steps
    execute_steps-Within zero sim room v = (record { valid = v; forward = le_refl _ }, omega arith)
    execute_steps-Within (suc n) sim room v =
        let once = step-Within sim (omega arith) v in
        let rest =
          execute_steps-Within n (step h policy sim).1 (omega (arith, once.1)) once.0.valid in
        go (step h policy sim).0 once rest
      where
        go :
            (more : Bool)
            → Within budget sim.scheduler (step h policy sim).1.scheduler
            → Within
                (n * budget)
                (step h policy sim).1.scheduler
                (execute_steps h policy n (step h policy sim).1).scheduler
            → Within
                (suc n * budget)
                sim.scheduler
                (elim more as (λ _. Simulation C E T R P) [
                  | true ↦ execute_steps h policy n (step h policy sim).1
                  | false ↦ (step h policy sim).1
                ]).scheduler
        go true once rest = (Onward-trans once.0 rest.0, omega (arith, once.1, rest.1))
        go false once rest = (once.0, omega (arith, once.1))
