-- ===== src/Core/Scheduler/Validity.antt =====
-- The invariant of the scheduler: no event lies in the past. Every operation keeps it.
use des_cartes.Prelude.{
  ℕ, ◌-◌, ◌%◌, ◌^◌, ◌≤◌, ◌<◌, min, ◌≡◌, ◌≢◌, refl, sym, ◌∙◌, subst, inl, inr, true, Option, none,
  some, List, [], ◌∷◌, length, All, All-mono, OnSome, Option-cases, arith, u64_max, is_empty,
  lookup, add_u64,
}
use des_cartes.Core.Time.{add_time, add_time_bounds}
use des_cartes.Core.Heap.{Le}
use des_cartes.Core.Scheduler.{
  Scheduler, EventEntry, entry_time, entry_seq, task, next_live, collect, swap_remove,
  swap_remove-All, swap_remove-ne_none, push_all, entry_ord, time, schedule, schedule_task_at,
  schedule_task, cancel_task, pop, pop_with_policy, take_chosen, choose_index, Policy, with_seed,
}
use des_cartes.Core.Scheduler.Rules.{
  Earliest, Everywhere, SameClock, next_live-Earliest, next_live-SameClock, next_live-All,
  collect-SameClock, collect-time, collect-All, Outcome,
}

module _ {ℓ} {E : Type ℓ} where
  -- An event that lies between the clock and the end of time, with a number that was handed out.
  abbrev pub Due : ℕ → ℕ → EventEntry E → Type 0
  Due clock last e = (clock ≤ entry_time e) × (entry_time e ≤ u64_max) × (entry_seq e ≤ last)

  -- Earlier in the order of the heap means no later, and at the same time scheduled no later.
  pub Le-time :
      (x e : EventEntry E)
      → Le x e
      → (entry_time e ≤ entry_time x) × ((entry_time e ≡ entry_time x) → entry_seq e ≤ entry_seq x)
  Le-time x e h = (ground arith, λ same. ground arith)

  push_all-All {κ} :
      (P : EventEntry E → Type κ) (es h : List (EventEntry E))
      → All P es
      → All P h
      → All P (push_all es h)
  push_all-All P [] h a b = b
  push_all-All P (e ∷ es) h a b = push_all-All P es (e ∷ h) a.1 (a.0, b)

module _ {ℓ} {E T R : Type ℓ} where
  pub record IsValid (s : Scheduler E T R) : Type 0 where
    pub in_range : s.clock ≤ u64_max
    pub due : All (Due s.clock s.next_event_id) s.events

  pub time-clock : (s : Scheduler E T R) → IsValid s → time s ≡ s.clock
  unfolding time
  time-clock s v = ground arith

  pub with_seed-IsValid : (seed : ℕ) → IsValid (with_seed seed)
  unfolding with_seed
  with_seed-IsValid seed = record { in_range = omega arith; due = tt }

  -- One more event that is due, under the next number.
  push-IsValid :
      (s : Scheduler E T R) (e : EventEntry E)
      → s.next_event_id < u64_max
      → IsValid s
      → Due s.clock (add_u64 s.next_event_id 1) e
      → IsValid (record s { next_event_id = add_u64 s.next_event_id 1; events = e ∷ s.events })
  push-IsValid s e room v d = record {
    in_range = v.in_range;
    due = (d, All-mono s.events (λ x h. (h.0, h.1, omega (arith, h.2))) v.due);
  }

  -- Scheduling an event, while event numbers are left, keeps every event between the clock and the
  -- end of time, also where the sum of clock and delay saturates.
  pub schedule-IsValid :
      (delay target : ℕ) (event : E) (s : Scheduler E T R)
      → s.next_event_id < u64_max
      → IsValid s
      → IsValid (schedule delay target event s)
  unfolding schedule
  schedule-IsValid delay target event s room v =
      let at = time-clock s v in
      let bounds = add_time_bounds (time s) delay (omega (arith, at, v.in_range)) in
      push-IsValid s _ room v (omega (arith, at, bounds), bounds.1, omega arith)

  pub schedule_task_at-IsValid :
      (t id : ℕ) (boxed : T) (s : Scheduler E T R)
      → s.next_event_id < u64_max
      → (s.clock ≤ t)
      → (t ≤ u64_max)
      → IsValid s
      → IsValid (schedule_task_at t id boxed s)
  unfolding schedule_task_at
  schedule_task_at-IsValid t id boxed s room lo hi v =
      let w =
        push-IsValid s
          (task (record { event_id = add_u64 s.next_event_id 1; time = t; task_id = id })) room v
          (lo, hi, omega arith) in
      record { in_range = w.in_range; due = w.due }

  -- Scheduling a task, while event numbers are left, keeps every event between the clock and the
  -- end of time, also where the sum of clock and delay saturates.
  pub schedule_task-IsValid :
      (delay : ℕ) (boxed : T) (s : Scheduler E T R)
      → s.next_event_id < u64_max
      → IsValid s
      → IsValid (schedule_task delay boxed s).1
  unfolding schedule_task
  schedule_task-IsValid delay boxed s room v =
      let at = time-clock s v in
      let bounds = add_time_bounds (time s) delay (omega (arith, at, v.in_range)) in
      schedule_task_at-IsValid (add_time (time s) delay) _ boxed _ room (omega (arith, at, bounds))
        bounds.1 (record { in_range = v.in_range; due = v.due })

  pub cancel_task-IsValid :
      (id : ℕ) (s : Scheduler E T R) → IsValid s → IsValid (cancel_task id s).1
  unfolding cancel_task
  cancel_task-IsValid id s v = elim (Option-cases (lookup id s.pending_tasks)) [
    | inl e ↦ rw (e, cancel_task) v
    | inr (x, e) ↦ rw (e, cancel_task) (record { in_range = v.in_range; due = v.due })
  ]

  -- The clock after an event was taken: it shows the event's time, it did not go back, no event that
  -- is left lies before it, and those at the same time were scheduled later.
  pub record Advances (s : Scheduler E T R) (e : EventEntry E) (t : Scheduler E T R) : Type 0 where
    pub shows : t.clock ≡ entry_time e
    pub forward : s.clock ≤ t.clock
    pub valid : IsValid t
    pub numbers : t.next_event_id ≡ s.next_event_id

  abbrev pub AfterPop : Scheduler E T R → Outcome E T R → Type 0
  AfterPop s (none, t) = IsValid t × (t.clock ≡ s.clock) × (is_empty t.events ≡ true)
  AfterPop s (some e, t) = Advances s e t × All (λ x. Le x e) t.events

  Due-from :
      (s : Scheduler E T R) (now : ℕ) (e : EventEntry E) (es : List (EventEntry E))
      → now ≡ entry_time e
      → All (Due s.clock s.next_event_id) es
      → All (λ x. Le x e) es
      → All (Due now s.next_event_id) es
  Due-from s now e [] eq d l = tt
  Due-from s now e (x ∷ es) eq d l =
      ((omega (arith, eq, Le-time x e l.0), d.0.1, d.0.2), Due-from s now e es eq d.1 l.1)

  -- In a state whose events all lie between the clock and the end of time, `pop` gives an event
  -- that no entry left precedes in time or, at its time, in number, moves the clock to its time and
  -- not back, and keeps the property; without an event it leaves an empty queue and the clock.
  pub pop-AfterPop : (s : Scheduler E T R) → IsValid s → AfterPop s (pop s)
  unfolding pop
  pop-AfterPop s v =
      go (next_live (length s.events) s) (next_live-Earliest s) (next_live-SameClock s)
        (next_live-All (Due s.clock s.next_event_id) s v.due)
    where
      go :
          (r : Outcome E T R)
          → Earliest s r
          → SameClock s r.1
          → Everywhere (Due s.clock s.next_event_id) r
          → AfterPop s (elim r.0 [
            | none ↦ (none, r.1)
            | some e ↦ (some e, record r.1 { clock = entry_time e % 2 ^ 64 })
          ])
      go (none, t) first same every = (
        record {
          in_range = omega (arith, same.clock, v.in_range);
          due = rw (same.clock, same.numbers) every.1;
        },
        same.clock,
        first,
      )
      go (some e, t) first same every =
          let now : entry_time e % 2 ^ 64 ≡ entry_time e = omega (arith, every.0) in
          (
            record {
              shows = now;
              forward = omega (arith, now, every.0);
              numbers = same.numbers;
              valid = record {
                in_range = omega arith;
                due = rw same.numbers (Due-from s _ e t.events now every.1 first);
              };
            },
            first,
          )

  abbrev pub AfterChoice {κ} :
      {P : Type κ} → Scheduler E T R → Option (EventEntry E) × P × Scheduler E T R → Type 0
  AfterChoice s (none, p, t) =
      IsValid t
      × (t.clock ≡ s.clock)
      × (is_empty t.events ≡ true)
      × (t.next_event_id ≡ s.next_event_id)
  AfterChoice s (some e, p, t) = Advances s e t

  module _ {κ} {P : Type κ} (policy : Policy P) where
    take_chosen-Advances :
        (p : P) (first : EventEntry E) (others : List (EventEntry E)) (s t : Scheduler E T R)
        → All (λ x. entry_time x ≡ entry_time first) others
        → s.clock ≤ entry_time first
        → entry_time first ≤ u64_max
        → All (Due (entry_time first) t.next_event_id) (first ∷ others)
        → All (Due (entry_time first) t.next_event_id) t.events
        → t.next_event_id ≡ s.next_event_id
        → AfterChoice s (take_chosen policy p (entry_time first) (first ∷ others) t)
    unfolding take_chosen
    take_chosen-Advances p first others s t same lo hi here there numbers =
        let entries = first ∷ others in
        let index = min (choose_index policy p (entry_time first) entries).0 (length entries - 1) in
        go (swap_remove entries index) (swap_remove-ne_none entries index (omega arith))
          (swap_remove-All (λ x. (entry_time x ≡ entry_time first)) entries index (refl, same))
          (swap_remove-All (Due (entry_time first) t.next_event_id) entries index here)
      where
        now : entry_time first % 2 ^ 64 ≡ entry_time first
        now = omega arith

        go :
            (r : Option (EventEntry E × List (EventEntry E)))
            → r ≢ none
            → OnSome
                (λ (r : EventEntry E × List (EventEntry E)).
                  (entry_time r.0 ≡ entry_time first)
                  × All (λ x. entry_time x ≡ entry_time first) r.1)
                r
            → OnSome
                (λ (r : EventEntry E × List (EventEntry E)).
                  Due (entry_time first) t.next_event_id r.0
                  × All (Due (entry_time first) t.next_event_id) r.1)
                r
            → AfterChoice {P = P} s (elim r [
              | none ↦ (none, (choose_index policy p (entry_time first) (first ∷ others)).1, t)
              | some (chosen, remaining) ↦ (
                some chosen,
                (choose_index policy p (entry_time first) (first ∷ others)).1,
                record t {
                  events = push_all remaining t.events;
                  clock = entry_time first % 2 ^ 64;
                },
              )
            ])
        go none n a b = absurd (n refl)
        go (some (chosen, remaining)) n a b = record {
          shows = now ∙ sym a.0;
          forward = omega (arith, now, lo);
          numbers = numbers;
          valid = record {
            in_range = omega (arith, now, hi);
            due = rw now (
                push_all-All (Due (entry_time first) t.next_event_id) remaining t.events b.1 there);
          };
        }

    -- In a state whose events all lie between the clock and the end of time, whatever the policy
    -- chooses: the clock moves to the time of the event that is taken and not back, and the state
    -- that is left has the same property, so that no event that is left lies before it; without an
    -- event the queue is empty and the clock unchanged.
    pub pop_with_policy-AfterChoice :
        (p : P) (s : Scheduler E T R) → IsValid s → AfterChoice s (pop_with_policy policy p s)
    unfolding pop_with_policy
    pop_with_policy-AfterChoice p s v =
        go (next_live (length s.events) s) (next_live-Earliest s) (next_live-SameClock s)
          (next_live-All (Due s.clock s.next_event_id) s v.due)
      where
        go :
            (r : Outcome E T R)
            → Earliest s r
            → SameClock s r.1
            → Everywhere (Due s.clock s.next_event_id) r
            → AfterChoice {P = P} s (elim r.0 [
              | none ↦ (none, p, r.1)
              | some first ↦
                  let c = collect (length r.1.events) (entry_time first) r.1 in
                  take_chosen policy p (entry_time first) (first ∷ c.0) c.1
            ])
        go (none, t) first same every = (
          record {
            in_range = omega (arith, same.clock, v.in_range);
            due = rw (same.clock, same.numbers) every.1;
          },
          same.clock,
          first,
          same.numbers,
        )
        go (some e, t) first same every =
            let n = length t.events in
            let same' = collect-SameClock n (entry_time e) t in
            let later = Due-from s (entry_time e) e t.events refl every.1 first in
            let split = collect-All (Due (entry_time e) s.next_event_id) n (entry_time e) t later in
            let numbers = same'.numbers ∙ same.numbers in
            take_chosen-Advances p e (collect n (entry_time e) t).0 s (collect n (entry_time e) t).1
              (collect-time n (entry_time e) t) every.0.0 every.0.1
              (subst (λ k. All (Due (entry_time e) k) (e ∷ (collect n (entry_time e) t).0))
                (sym numbers) ((omega arith, every.0.1, every.0.2), split.0))
              (subst (λ k. All (Due (entry_time e) k) (collect n (entry_time e) t).1.events)
                (sym numbers) split.1)
              numbers
