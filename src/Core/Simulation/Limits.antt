-- ===== src/Core/Simulation/Limits.antt =====
-- The timed executor and its limit: what its test of the next event says of the step that follows.
use des_cartes.Prelude.{
  le→leb, ℕ, suc, ◌-◌, ◌%◌, ◌^◌, inl, inr, ◌≤◌, ◌<◌, min, ◌≡◌, ◌≢◌, refl, sym, subst, true, false,
  Option, none, some, List, [], ◌∷◌, arith, u64_max, length, contains, OnSome-eq_some,
}
use native.Mathlib.Nat.{mod-le, le_trans}
use des_cartes.Core.Heap
use des_cartes.Core.Heap.{Splits, pop-Splits, pop-All, Both}
use des_cartes.Core.Scheduler.{
  Scheduler, EventEntry, TaskEventEntry, component, task, entry_time, pop_with_policy, take_chosen,
  choose_index, next_live, collect, swap_remove, swap_remove-ne_none, push_all, Policy, entry_ord,
  is_cancelled_task_event, peek,
}
use des_cartes.Core.Simulation.{Simulation, next_event_within}
use des_cartes.Core.Scheduler.Rules.{IsCancelled, is_cancelled_cases, forget, Outcome}

no_marks : (id : ℕ) → ¬ (contains id [] ≡ true)
no_marks id k = cc

peek-pop {ℓ} :
    {E : Type ℓ} (o : Option (EventEntry E × List (EventEntry E))) (e : EventEntry E)
    → (elim o as (λ _. Option (EventEntry E)) [ none ↦ none | some (m, rest) ↦ some m ]) ≡ some e
    → (rest : List (EventEntry E)) × (o ≡ some (e, rest))
peek-pop none e h = cc
peek-pop (some (m, rest)) e h = (rest, cc)

module _ {ℓ} {E T R : Type ℓ} where
  marked_task :
      (s : Scheduler E T R) (d : TaskEventEntry) (rest : List (EventEntry E))
      → contains d.task_id s.cancelled_tasks ≡ true
      → is_cancelled_task_event (task d) (record s { events = rest })
        ≡ (true, forget (task d) rest s)
  unfolding is_cancelled_task_event
  marked_task s d rest k = rw k refl

  next_live-live :
      (n : ℕ) (s : Scheduler E T R) (e : EventEntry E) (rest : List (EventEntry E))
      → Heap.pop s.events ≡ some (e, rest)
      → ¬ IsCancelled e s
      → (next_live (suc n) s).0 ≡ some e
  unfolding next_live
  next_live-live n s e rest p live =
      rw (p, next_live)
        (elim (is_cancelled_cases e rest s) [
          | inl c ↦
              subst
                (λ r.
                  (elim r.0 as (λ _. Outcome E T R) [
                    | true ↦ next_live n r.1
                    | false ↦ (some e, r.1)
                  ]).0
                  ≡ some e)
                (sym c) refl
          | inr (k, c) ↦ absurd (live k)
        ])

  next_live-skip :
      (n : ℕ) (s : Scheduler E T R) (d : TaskEventEntry) (rest : List (EventEntry E))
      → Heap.pop s.events ≡ some (task d, rest)
      → contains d.task_id s.cancelled_tasks ≡ true
      → next_live (suc n) s ≡ next_live n (forget (task d) rest s)
  unfolding next_live
  next_live-skip n s d rest p k =
      rw (p, next_live)
        (subst
          (λ r.
            (elim r.0 as (λ _. Outcome E T R) [
              | true ↦ next_live n r.1
              | false ↦ (some (task d), r.1)
            ])
            ≡ next_live n (forget (task d) rest s))
          (sym (marked_task s d rest k)) refl)

  module _ {κ} {P : Type κ} (policy : Policy P) where
    take_chosen-clock :
        (p : P) (t : ℕ) (first : EventEntry E) (others : List (EventEntry E)) (s : Scheduler E T R)
        → (take_chosen policy p t (first ∷ others) s).2.clock ≡ t % 2 ^ 64
    unfolding take_chosen
    take_chosen-clock p t first others s =
        let c = choose_index policy p t (first ∷ others) in
        let index = min c.0 (length (first ∷ others) - 1) in
        go c.1 (swap_remove (first ∷ others) index)
          (swap_remove-ne_none (first ∷ others) index (omega arith))
      where
        go :
            (p' : P) (o : Option (EventEntry E × List (EventEntry E)))
            → o ≢ none
            → (elim o as (λ _. Option (EventEntry E) × P × Scheduler E T R) [
              | none ↦ (none, p', s)
              | some (chosen, remaining) ↦ (
                some chosen,
                p',
                record s { events = push_all remaining s.events; clock = t % 2 ^ 64 },
              )
            ]).2.clock
              ≡ t % 2 ^ 64
        go p' none n = absurd (n refl)
        go p' (some r) n = refl

    -- The clock shows the time of the first live event, whichever of the frontier is chosen.
    pop_with_policy-clock :
        (p : P) (s : Scheduler E T R) (e : EventEntry E)
        → (next_live (length s.events) s).0 ≡ some e
        → (pop_with_policy policy p s).2.clock ≡ entry_time e % 2 ^ 64
    unfolding pop_with_policy
    pop_with_policy-clock p s e found =
        let s' = (next_live (length s.events) s).1 in
        let c = collect (length s'.events) (entry_time e) s' in
        rw (found, pop_with_policy) (take_chosen-clock p (entry_time e) e c.0 c.1)

    -- If no cancellation is on record and the entry that `peek` shows is within the limit, the
    -- clock is within the limit after `pop_with_policy`, whatever the policy chooses.
    pub pop_with_policy-within :
        (limit : ℕ) (p : P) (s : Scheduler E T R) (e : EventEntry E)
        → s.cancelled_tasks ≡ []
        → peek s ≡ some e
        → entry_time e ≤ limit
        → (pop_with_policy policy p s).2.clock ≤ limit
    unfolding Heap.peek
    pop_with_policy-within limit p s e none_cancelled next within =
        let (rest, popped) = peek-pop (Heap.pop s.events) e next in
        let sp = OnSome-eq_some (Splits s.events) (pop-Splits s.events) popped in
        let live = next_live-live (length rest) s e rest popped (not_cancelled e) in
        let found = subst (λ n. (next_live n s).0 ≡ some e) (sym sp.shorter) live in
        rw (pop_with_policy-clock p s e found) (le_trans (mod-le (entry_time e) (2 ^ 64)) within)
      where
        not_cancelled : (e : EventEntry E) → ¬ IsCancelled e s
        not_cancelled (component c) k = k
        not_cancelled (task d) k =
            absurd (no_marks d.task_id (subst (λ c. contains d.task_id c ≡ true) none_cancelled k))

    -- A cancelled task's entry hides the event behind it: the timed executor sees an entry within its
    -- limit, and the step runs an event beyond it.
    pop_with_policy-overruns :
        (limit : ℕ) (p : P) (s : Scheduler E T R) (d : TaskEventEntry) (e : EventEntry E)
        (rest rest' : List (EventEntry E))
        → Heap.pop s.events ≡ some (task d, rest)
        → contains d.task_id s.cancelled_tasks ≡ true
        → Heap.pop rest ≡ some (e, rest')
        → ¬ IsCancelled e (forget (task d) rest s)
        → limit < entry_time e
        → entry_time e ≤ u64_max
        → limit < (pop_with_policy policy p s).2.clock
    pop_with_policy-overruns limit p s d e rest rest' popped marked behind live late fits =
        let sp = OnSome-eq_some (Splits s.events) (pop-Splits s.events) popped in
        let sp' = OnSome-eq_some (Splits rest) (pop-Splits rest) behind in
        let s' = forget (task d) rest s in
        let first = next_live-skip (length rest) s d rest popped marked in
        let found =
          subst (λ n. (next_live n s').0 ≡ some e) (sym sp'.shorter)
            (next_live-live (length rest') s' e rest' behind live) in
        let all =
          subst (λ n. (next_live n s).0 ≡ some e) (sym sp.shorter)
            (subst (λ r. r.0 ≡ some e) (sym first) found) in
        rw (pop_with_policy-clock p s e all) (omega arith)

module _ {ℓ} {C E T R P : Type ℓ} (policy : Policy P) where
  -- If the entry at the head of the queue is within the limit and belongs to a cancelled task, and
  -- the live entry behind it lies beyond the limit, the timed executor's test passes and
  -- `pop_with_policy` moves the clock beyond the limit.
  pub next_event_within-pop_with_policy :
      (limit : ℕ) (sim : Simulation C E T R P) (d : TaskEventEntry) (e : EventEntry E)
      (rest rest' : List (EventEntry E))
      → Heap.pop sim.scheduler.events ≡ some (task d, rest)
      → d.time ≤ limit
      → contains d.task_id sim.scheduler.cancelled_tasks ≡ true
      → Heap.pop rest ≡ some (e, rest')
      → ¬ IsCancelled e (forget (task d) rest sim.scheduler)
      → limit < entry_time e
      → entry_time e ≤ u64_max
      → (next_event_within limit sim ≡ true)
        × (limit < (pop_with_policy policy sim.policy_state sim.scheduler).2.clock)
  unfolding Heap.peek
  next_event_within-pop_with_policy limit sim d e rest rest' popped within marked behind live late
        fits =
      (
        rw (popped, next_event_within) (le→leb d.time limit within),
        pop_with_policy-overruns policy limit sim.policy_state sim.scheduler d e rest rest' popped
            marked behind live late fits,
      )
