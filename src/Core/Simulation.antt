-- ===== src/Core/Simulation.antt =====
-- des-core/src/lib.rs and execute.rs: components, one step of the simulation, and the executors.
-- A component is a value of the type `C`; its handler and the tasks' `execute` are parameters. What
-- they defer by `defer_wake_after` is collected in the order of the calls.
pub mod Progress
pub mod Steps
pub mod Limits
use des_cartes.Prelude.{
  ℕ, zero, suc, ◌≤◌, ◌≡◌, Bool, true, false, Option, none, some, List, [], ◌∷◌, leb, if◌then◌else◌,
  lookup, insert_key, remove_key, add_u64,
}
use des_cartes.Core.Time.{SimTime, time_zero}
use des_cartes.Core.Ids.{Uuid, deterministic_uuid, uuid_domain_component}
use des_cartes.Core.Scheduler.{
  Scheduler, EventEntry, ComponentEventEntry, component, task, entry_time, schedule, peek,
  pop_with_policy, execute_task, Policy, with_seed,
}

pub record DeferredWake {ℓ} (E : Type ℓ) : Type ℓ where
  pub delay : SimTime
  pub target : Uuid
  pub event : E

-- What the simulation runs: the components' handler, the tasks, and the wakes that a task defers.
pub record Handlers {ℓ} (C E T R : Type ℓ) : Type ℓ where
  pub process_event :
      C → ComponentEventEntry E → Scheduler E T R → C × Scheduler E T R × List (DeferredWake E)
  pub execute : T → Scheduler E T R → Option R × Scheduler E T R
  pub defers : T → Scheduler E T R → List (DeferredWake E)

pub record Simulation {ℓ} (C E T R P : Type ℓ) : Type ℓ where
  pub scheduler : Scheduler E T R
  pub policy_state : P
  pub next_component_id : ℕ
  pub components : List (Uuid × C)
  pub seed : ℕ

module _ {ℓ} {E T R : Type ℓ} where
  -- `drain_deferred_wakes`: the oldest first.
  unfoldable pub drain_deferred_wakes : List (DeferredWake E) → Scheduler E T R → Scheduler E T R
  unfolding schedule
  drain_deferred_wakes [] s = s
  drain_deferred_wakes (w ∷ ws) s = drain_deferred_wakes ws (schedule w.delay w.target w.event s)

module _ {ℓ} {C E T R : Type ℓ} (h : Handlers C E T R) where
  unfoldable pub process_event_entry :
      EventEntry E
      → List (Uuid × C)
      → Scheduler E T R
      → List (Uuid × C) × Scheduler E T R × List (DeferredWake E)
  unfolding execute_task
  process_event_entry (component e) components s = elim (lookup e.component components) [
    | none ↦ (components, s, [])
    | some c ↦
        let (c', s', wakes) = h.process_event c e s in
        (insert_key e.component c' components, s', wakes)
  ]
  process_event_entry (task e) components s = (
    components,
    (execute_task h.execute e.task_id s).1,
    elim (lookup e.task_id s.pending_tasks) [ none ↦ [] | some boxed ↦ h.defers boxed s ],
  )

module _ {ℓ} {C E T R P : Type ℓ} where
  unfoldable pub new : ℕ → P → Simulation C E T R P
  unfolding with_seed
  new seed policy_state = record {
    scheduler = with_seed seed;
    policy_state = policy_state;
    next_component_id = 0;
    components = [];
    seed = seed;
  }

  unfoldable pub add_component : C → Simulation C E T R P → Uuid × Simulation C E T R P
  add_component c sim =
      let counter = add_u64 sim.next_component_id 1 in
      let id = deterministic_uuid sim.seed uuid_domain_component counter in
      (id, record sim { next_component_id = counter; components = insert_key id c sim.components })

  unfoldable pub remove_component : Uuid → Simulation C E T R P → Option C × Simulation C E T R P
  remove_component id sim =
      (lookup id sim.components, record sim { components = remove_key id sim.components })

  abbrev pub peek_next_event_time : Simulation C E T R P → Option SimTime
  peek_next_event_time sim = elim (peek sim.scheduler) [
    | none ↦ none
    | some e ↦ some (entry_time e)
  ]

  -- `peek_next_event_time().is_some_and(|t| t <= time)`.
  abbrev pub next_event_within : SimTime → Simulation C E T R P → Bool
  next_event_within limit sim = elim (peek_next_event_time sim) [
    | none ↦ false
    | some t ↦ leb t limit
  ]

  module _ (h : Handlers C E T R) (policy : Policy P) where
    -- The event is run and the deferred wakes are scheduled.
    unfoldable pub run_event :
        EventEntry E → P → Scheduler E T R → Simulation C E T R P → Simulation C E T R P
    unfolding process_event_entry drain_deferred_wakes
    run_event e p s sim =
        let (components', s', wakes) = process_event_entry h e sim.components s in
        record sim {
          scheduler = drain_deferred_wakes wakes s';
          policy_state = p;
          components = components';
        }

    unfoldable pub step : Simulation C E T R P → Bool × Simulation C E T R P
    unfolding pop_with_policy run_event
    step sim =
        let (event, p, s) = pop_with_policy policy sim.policy_state sim.scheduler in
        elim event [
          | none ↦ (false, record sim { scheduler = s; policy_state = p })
          | some e ↦ (true, run_event e p s sim)
        ]

    -- `Executor::steps`.
    unfoldable pub execute_steps : ℕ → Simulation C E T R P → Simulation C E T R P
    unfolding step
    execute_steps zero sim = sim
    execute_steps (suc n) sim =
        let (more, sim') = step sim in elim more [ true ↦ execute_steps n sim' | false ↦ sim' ]

    -- `Executor::unbound`, on fuel; the flag says that the loop ended by itself.
    unfoldable pub execute_until_empty : ℕ → Simulation C E T R P → Bool × Simulation C E T R P
    unfolding step
    execute_until_empty zero sim = (false, sim)
    execute_until_empty (suc fuel) sim =
        let (more, sim') = step sim in
        elim more [ true ↦ execute_until_empty fuel sim' | false ↦ (true, sim') ]

    -- `Executor::timed`, on fuel; the flag says that the loop ended by itself.
    unfoldable pub execute_until : ℕ → SimTime → Simulation C E T R P → Bool × Simulation C E T R P
    unfolding step
    execute_until zero limit sim = (false, sim)
    execute_until (suc fuel) limit sim = elim (next_event_within limit sim) [
      | true ↦ execute_until fuel limit (step sim).1
      | false ↦ (true, sim)
    ]
