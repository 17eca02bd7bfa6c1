-- ===== src/Examples/Core.antt =====
-- A small event queue and its handlers: des-core.
use des_cartes.Prelude.{true, ℕ, ◌+◌, ◌*◌, ◌<◌, ◌≡◌, refl, none, some, [], ◌∷◌, arith}
use des_cartes.Core.Heap
use des_cartes.Core.Scheduler.{
  Scheduler, EventEntry, TaskEventEntry, component, task, schedule, execute_task, run_task,
  finish_task, store_result, pop, pop_with_policy, fifo_policy, Policy, entry_ord,
}
use des_cartes.Core.Scheduler.Validity.{IsValid, AfterChoice, pop_with_policy-AfterChoice}
use des_cartes.Core.Scheduler.Fifo.{pop_with_policy-pop}
use des_cartes.Core.Scheduler.Conservation.{found, Accounts, pop_with_policy-Accounts}
use des_cartes.Core.Simulation.{next_event_within, Simulation, Handlers, step, execute_steps}
use des_cartes.Core.Simulation.Progress.{done, schedules}
use des_cartes.Core.Simulation.Steps.{Behaves, Within, step-Within, execute_steps-Within}
use des_cartes.Core.Simulation.Limits.{next_event_within-pop_with_policy}

abbrev marked_task : TaskEventEntry
marked_task = record { event_id = 2; time = 5; task_id = 9 }

abbrev first_event : EventEntry ℕ
first_event = component (record { event_id = 1; time = 5; component = 1; inner = 10 })

abbrev late_event : EventEntry ℕ
late_event = component (record { event_id = 3; time = 8; component = 1; inner = 30 })

abbrev three : Scheduler ℕ ℕ ℕ
three = record {
  next_event_id = 3;
  id_seed = 7;
  next_task_id = 1;
  events = late_event ∷ task marked_task ∷ first_event ∷ [];
  clock = 2;
  pending_tasks = (9, 4) ∷ [];
  completed_task_results = [];
  cancelled_tasks = [];
  executing_task_id = none;
}

three-IsValid : IsValid three
three-IsValid = record {
  in_range = omega arith;
  due = (
    (omega arith, omega arith, omega arith),
    ((omega arith, omega arith, omega arith), ((omega arith, omega arith, omega arith), tt)),
  );
}

-- The task's event is first, and the task is cancelled.
abbrev cancelled : Scheduler ℕ ℕ ℕ
cancelled = record three {
  events = late_event ∷ task marked_task ∷ [];
  pending_tasks = [];
  cancelled_tasks = 9 ∷ [];
}

-- A policy that chooses the last entry of the frontier, and counts its choices.
abbrev last_policy : Policy ℕ
last_policy = record { choose = λ n t frontier. (5, n + 1) }

-- A component that schedules itself again after one nanosecond; a task that gives its own number.
abbrev ticking : Handlers ℕ ℕ ℕ ℕ
ticking = record {
  process_event = λ c e s. (c + 1, schedule 1 e.component c s, []);
  execute = λ boxed s. (some boxed, s);
  defers = λ boxed s. [];
}

abbrev ticking_simulation : Simulation ℕ ℕ ℕ ℕ ℕ
ticking_simulation = record {
  scheduler = three;
  policy_state = 0;
  next_component_id = 1;
  components = (1, 100) ∷ [];
  seed = 7;
}

next_event_id-ticking :
    (id : ℕ) (s : Scheduler ℕ ℕ ℕ)
    → (execute_task ticking.execute id s).1.next_event_id ≡ s.next_event_id
unfolding execute_task run_task finish_task store_result
next_event_id-ticking id s = ground arith

ticking-Behaves : Behaves ticking 1
unfolding schedule
ticking-Behaves = record {
  component_calls =
      λ c e s room. (schedules 1 e.component c done (omega (arith, room)), omega (arith, room));
  task_calls = λ boxed s room. done;
  task_numbers = λ boxed id s room. omega (arith, next_event_id-ticking id s);
}

step-Within_example : Within 1 three (step ticking last_policy ticking_simulation).1.scheduler
step-Within_example =
    step-Within ticking 1 ticking-Behaves last_policy ticking_simulation (omega arith) three-IsValid

execute_steps-Within_example :
    Within (4 * 1) three (execute_steps ticking last_policy 4 ticking_simulation).scheduler
execute_steps-Within_example =
    execute_steps-Within ticking 1 ticking-Behaves last_policy 4 ticking_simulation (omega arith)
      three-IsValid

pop_with_policy-Accounts_example :
    Accounts three
      (found (pop_with_policy last_policy 0 three).0)
      (pop_with_policy last_policy 0 three).2.events
pop_with_policy-Accounts_example = pop_with_policy-Accounts last_policy 0 three

pop_with_policy-pop_example :
    ((pop_with_policy fifo_policy tt three).0 ≡ (pop three).0)
    × ((pop_with_policy fifo_policy tt three).2.clock ≡ (pop three).1.clock)
pop_with_policy-pop_example = pop_with_policy-pop three

pop_with_policy-AfterChoice_example : AfterChoice three (pop_with_policy last_policy 0 three)
pop_with_policy-AfterChoice_example = pop_with_policy-AfterChoice last_policy 0 three three-IsValid

abbrev cancelled_simulation : Simulation ℕ ℕ ℕ ℕ ℕ
cancelled_simulation = record ticking_simulation { scheduler = cancelled }

next_event_within-pop_with_policy_example :
    (next_event_within 6 cancelled_simulation ≡ true)
    × (6 < (pop_with_policy last_policy 0 cancelled).2.clock)
unfolding Heap.pop
next_event_within-pop_with_policy_example =
    next_event_within-pop_with_policy last_policy 6 cancelled_simulation marked_task late_event
      (late_event ∷ []) [] refl (omega arith) refl refl (λ k. k) (omega arith) (omega arith)
