-- ===== src/Core/Scheduler/Fifo.antt =====
-- The default policy: ties at one time are broken by the order of scheduling.
use des_cartes.Prelude.{
  ℕ, ◌+◌, ◌-◌, ◌%◌, ◌^◌, ◌≤◌, min, ◌≡◌, refl, sym, Option, none, some, List, [], ◌∷◌, ltb, leb,
  length, All, if_ind, arith, map,
}
use des_cartes.Core.Heap.{Le}
use des_cartes.Core.Scheduler.{
  Scheduler, EventEntry, entry_time, entry_seq, component, task, next_live, collect, swap_remove,
  entry_ord, pop, pop_with_policy, take_chosen, choose_index, fifo_policy, fifo_choose, min_index,
  FrontierEvent, to_frontier_event,
}
use des_cartes.Core.Scheduler.Rules.{
  Earliest, next_live-Earliest, collect-time, collect-All, Outcome,
}
use des_cartes.Core.Scheduler.Validity.{Le-time}

-- The first entry is chosen where no later one has a lower number.
min_index-least :
    (i best least : ℕ) (es : List FrontierEvent)
    → All (λ e. least ≤ e.seq) es
    → min_index i best least es ≡ best
unfolding min_index
min_index-least i best least [] h = refl
min_index-least i best least (e ∷ es) h =
    if_ind (λ k. k ≡ best) (ltb e.seq least) (λ lower. absurd (ground arith))
      (λ _. min_index-least (i + 1) best least es h.1)

module _ {ℓ} {E : Type ℓ} where
  seq-to_frontier_event : (e : EventEntry E) → (to_frontier_event e).seq ≡ entry_seq e
  unfolding to_frontier_event
  seq-to_frontier_event (component e) = refl
  seq-to_frontier_event (task e) = refl

  least_of :
      (first : EventEntry E) (others : List (EventEntry E))
      → All (λ x. Le x first) others
      → All (λ x. entry_time x ≡ entry_time first) others
      → All (λ e. (to_frontier_event first).seq ≤ e.seq) (map to_frontier_event others)
  least_of first [] l t = tt
  least_of first (x ∷ xs) l t = (
    omega (
      arith,
      seq-to_frontier_event first,
      seq-to_frontier_event x,
      (Le-time x first l.0).1 (sym t.0),
    ),
    least_of first xs l.1 t.1,
  )

  choose_index-fifo :
      (t : ℕ) (first : EventEntry E) (others : List (EventEntry E))
      → All (λ x. Le x first) others
      → All (λ x. entry_time x ≡ entry_time first) others
      → (choose_index fifo_policy tt t (first ∷ others)).0 ≡ 0
  unfolding choose_index fifo_choose
  choose_index-fifo t first others l same =
      if_ind (λ (r : ℕ × Unit {0}). r.0 ≡ 0) (leb (length (first ∷ others)) 1) (λ _. refl)
        (λ _. min_index-least 1 0 _ (map to_frontier_event others) (least_of first others l same))

module _ {ℓ} {E T R : Type ℓ} where
  take_chosen-fifo :
      (t : ℕ) (first : EventEntry E) (others : List (EventEntry E)) (s : Scheduler E T R)
      → All (λ x. Le x first) others
      → All (λ x. entry_time x ≡ entry_time first) others
      → ((take_chosen fifo_policy tt t (first ∷ others) s).0 ≡ some first)
        × ((take_chosen fifo_policy tt t (first ∷ others) s).2.clock ≡ t % 2 ^ 64)
  unfolding take_chosen swap_remove
  take_chosen-fifo t first others s l same =
      let zeroth : min (choose_index fifo_policy tt t (first ∷ others)).0
            (length (first ∷ others) - 1)
          ≡ 0 =
        omega (arith, choose_index-fifo t first others l same) in
      rw (zeroth, take_chosen) (refl, refl)

  -- Under the FIFO policy `pop_with_policy` gives the event that `pop` gives and sets the same
  -- clock.
  pub pop_with_policy-pop :
      (s : Scheduler E T R)
      → ((pop_with_policy fifo_policy tt s).0 ≡ (pop s).0)
        × ((pop_with_policy fifo_policy tt s).2.clock ≡ (pop s).1.clock)
  unfolding pop_with_policy pop
  pop_with_policy-pop s = go (next_live (length s.events) s) (next_live-Earliest s)
    where
      go :
          (r : Outcome E T R)
          → Earliest s r
          → let a : Option (EventEntry E) × Unit {0} × Scheduler E T R = elim r.0 [
            | none ↦ (none, tt, r.1)
            | some first ↦
                let c = collect (length r.1.events) (entry_time first) r.1 in
                take_chosen fifo_policy tt (entry_time first) (first ∷ c.0) c.1
          ] in
            let b : Outcome E T R = elim r.0 [
              | none ↦ (none, r.1)
              | some e ↦ (some e, record r.1 { clock = entry_time e % 2 ^ 64 })
            ] in
            (a.0 ≡ b.0) × (a.2.clock ≡ b.1.clock)
      go (none, t) first = (refl, refl)
      go (some e, t) first =
          let n = length t.events in
          take_chosen-fifo (entry_time e) e (collect n (entry_time e) t).0
            (collect n (entry_time e) t).1 (collect-All (λ x. Le x e) n (entry_time e) t first).0
            (collect-time n (entry_time e) t)
