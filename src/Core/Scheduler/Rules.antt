-- ===== src/Core/Scheduler/Rules.antt =====
-- Proof rules for the loops of `pop` and `pop_with_policy`, and what they keep of the queue.
use native.Mathlib.Nat.{le_refl}
use des_cartes.Prelude.{
  ℕ, zero, suc, ◌≤◌, ◌≡◌, refl, sym, subst, is_empty, ap, ◌⊎◌, inl, inr, Bool, true, false, Option,
  none, some, List, [], ◌∷◌, if◌then◌else◌, ◌==◌, length, contains, remove, All, OnSome,
  OnSome-eq_some, Bool-cases, Option-cases, ==_iff, arith,
}
use des_cartes.Core.Heap
use des_cartes.Core.Heap.{Splits, pop-Splits, pop-eq_none, pop-All, Le, Both}
use des_cartes.Core.Scheduler.{
  Scheduler, EventEntry, entry_time, entry_task_id, component, task, is_cancelled_task_event,
  next_live, collect, entry_ord,
}

shorter-le {ℓ} :
    {E : Type ℓ} (h : List (EventEntry E)) {rest : List (EventEntry E)} {e : EventEntry E}
    (fuel : ℕ)
    → Heap.pop h ≡ some (e, rest)
    → length h ≤ suc fuel
    → length rest ≤ fuel
shorter-le h fuel p l =
    let sp = OnSome-eq_some (Splits h) (pop-Splits h) p in omega (arith, sp.shorter)

-- What the loop of `pop` finds, and the state that it leaves.
abbrev pub Outcome {ℓ} : Type ℓ → Type ℓ → Type ℓ → Type ℓ
Outcome E T R = Option (EventEntry E) × Scheduler E T R

module _ {ℓ} {E T R : Type ℓ} where
  -- The event is that of a task whose cancellation is on record.
  abbrev pub IsCancelled : EventEntry E → Scheduler E T R → Type 0
  IsCancelled e s = elim (entry_task_id e) [
    | none ↦ ⊥
    | some id ↦ contains id s.cancelled_tasks ≡ true
  ]

  abbrev pub forget : EventEntry E → List (EventEntry E) → Scheduler E T R → Scheduler E T R
  forget e rest s = record s {
    events = rest;
    cancelled_tasks = elim (entry_task_id e) [
      | none ↦ s.cancelled_tasks
      | some id ↦ remove id s.cancelled_tasks
    ];
  }

  -- The two outcomes of the test, with the state that it leaves.
  pub is_cancelled_cases :
      (e : EventEntry E) (rest : List (EventEntry E)) (s : Scheduler E T R)
      → (is_cancelled_task_event e (record s { events = rest })
          ≡ (false, record s { events = rest }))
        ⊎ (IsCancelled e s
            × (is_cancelled_task_event e (record s { events = rest }) ≡ (true, forget e rest s)))
  unfolding is_cancelled_task_event
  is_cancelled_cases (component e) rest s = inl refl
  is_cancelled_cases (task e) rest s = elim (Bool-cases (contains e.task_id s.cancelled_tasks)) [
    | inl h ↦ inr (h, rw h)
    | inr h ↦ inl (rw h)
  ]

  -- What to show of `next_live`, for any relation of a state to the outcome.
  pub record LiveRule {κ} (Q : Scheduler E T R → Option (EventEntry E) × Scheduler E T R → Type κ)
      : Type (ℓ ⊔ κ) where
    pub empty : (s : Scheduler E T R) → s.events ≡ [] → Q s (none, s)
    pub live :
        (s : Scheduler E T R) (e : EventEntry E) (rest : List (EventEntry E))
        → Heap.pop s.events ≡ some (e, rest)
        → Q s (some e, record s { events = rest })
    pub skip :
        (s : Scheduler E T R) (e : EventEntry E) (rest : List (EventEntry E))
        (r : Option (EventEntry E) × Scheduler E T R)
        → Heap.pop s.events ≡ some (e, rest)
        → IsCancelled e s
        → Q (forget e rest s) r
        → Q s r

  module _ {κ} {Q : Scheduler E T R → Option (EventEntry E) × Scheduler E T R → Type κ}
      (rule : LiveRule Q) where
    pub next_live_ind :
        (fuel : ℕ) (s : Scheduler E T R) → length s.events ≤ fuel → Q s (next_live fuel s)
    unfolding next_live
    next_live_ind zero s h = rule.empty s (no_events s.events h)
      where
        no_events : (l : List (EventEntry E)) → length l ≤ 0 → l ≡ []
        no_events [] h = refl
        no_events (x ∷ l) h = absurd (omega arith)
    next_live_ind (suc fuel) s h = elim (Option-cases (Heap.pop s.events)) [
      | inl e ↦ rw (e, next_live) (rule.empty s (pop-eq_none s.events e))
      | inr ((e, rest), p) ↦
          rw (p, next_live)
            (elim (is_cancelled_cases e rest s) [
              | inl c ↦ subst (after e) (sym c) (rule.live s e rest p)
              | inr (k, c) ↦ subst (after e) (sym c) (
                  rule.skip s e rest _ p k
                    (next_live_ind fuel (forget e rest s) (shorter-le s.events fuel p h)))
            ])
    ]
      where
        after : EventEntry E → Bool × Scheduler E T R → Type κ
        after e c = Q s (elim c.0 [ true ↦ next_live fuel c.1 | false ↦ (some e, c.1) ])

  -- Nothing is left where nothing is found; what is found is earliest among what is left.
  abbrev pub Earliest : Scheduler E T R → Outcome E T R → Type 0
  Earliest s (none, t) = is_empty t.events ≡ true
  Earliest s (some e, t) = All (λ x. Le x e) t.events

  Earliest-rule : LiveRule Earliest
  Earliest-rule = record {
    empty = λ s e. ap is_empty e;
    live = λ s e rest p. (OnSome-eq_some (Splits s.events) (pop-Splits s.events) p).greatest;
    skip = λ s e rest r p k h. skip s (forget e rest s) r h;
  }
    where
      skip : (s t : Scheduler E T R) (r : Outcome E T R) → Earliest t r → Earliest s r
      skip s t (none, u) h = h
      skip s t (some e, u) h = h

  pub next_live-Earliest : (s : Scheduler E T R) → Earliest s (next_live (length s.events) s)
  next_live-Earliest s = next_live_ind Earliest-rule (length s.events) s (le_refl _)

  -- The fields that the search for a live entry leaves alone.
  pub record SameClock (s t : Scheduler E T R) : Type ℓ where
    pub clock : t.clock ≡ s.clock
    pub numbers : t.next_event_id ≡ s.next_event_id
    pub pending : t.pending_tasks ≡ s.pending_tasks

  pub next_live-SameClock : (s : Scheduler E T R) → SameClock s (next_live (length s.events) s).1
  next_live-SameClock s =
      next_live_ind {Q = λ s r. SameClock s r.1}
        (record {
          empty = λ s e. same;
          live = λ s e rest p. same;
          skip = λ s e rest r p k h. record {
            clock = h.clock;
            numbers = h.numbers;
            pending = h.pending;
          };
        })
        (length s.events) s (le_refl _)
    where
      same :
          {s : Scheduler E T R} {es : List (EventEntry E)} → SameClock s (record s { events = es })
      same = record { clock = refl; numbers = refl; pending = refl }

  module _ {κ} (P : EventEntry E → Type κ) where
    abbrev pub Everywhere : Outcome E T R → Type κ
    Everywhere (found, t) = OnSome P found × All P t.events

    pub next_live-All :
        (s : Scheduler E T R) → All P s.events → Everywhere (next_live (length s.events) s)
    next_live-All s =
        next_live_ind {Q = λ s r. All P s.events → Everywhere r}
          (record {
            empty = λ s e a. (tt, a);
            live = λ s e rest p a. OnSome-eq_some (Both P) (pop-All P s.events a) p;
            skip = λ s e rest r p k h a. h (OnSome-eq_some (Both P) (pop-All P s.events a) p).1;
          })
          (length s.events) s (le_refl _)

  -- What to show of `collect`.
  pub record FrontierRule {κ} (Q : Scheduler E T R → List (EventEntry E) × Scheduler E T R → Type κ)
      (t : ℕ) : Type (ℓ ⊔ κ) where
    pub stop : (s : Scheduler E T R) → Q s ([], s)
    pub keep :
        (s : Scheduler E T R) (e : EventEntry E) (rest : List (EventEntry E))
        (r : List (EventEntry E) × Scheduler E T R)
        → Heap.pop s.events ≡ some (e, rest)
        → entry_time e ≡ t
        → Q (record s { events = rest }) r
        → Q s (e ∷ r.0, r.1)
    pub skip :
        (s : Scheduler E T R) (e : EventEntry E) (rest : List (EventEntry E))
        (r : List (EventEntry E) × Scheduler E T R)
        → Heap.pop s.events ≡ some (e, rest)
        → IsCancelled e s
        → Q (forget e rest s) r
        → Q s r

  module _ {κ} {Q : Scheduler E T R → List (EventEntry E) × Scheduler E T R → Type κ} {t : ℕ}
      (rule : FrontierRule Q t) where
    pub collect_ind : (fuel : ℕ) (s : Scheduler E T R) → Q s (collect fuel t s)
    unfolding collect
    collect_ind zero s = rule.stop s
    collect_ind (suc fuel) s = elim (Option-cases (Heap.pop s.events)) [
      | inl e ↦ rw (e, collect) (rule.stop s)
      | inr ((e, rest), p) ↦
          rw (p, collect)
            (elim (Bool-cases (entry_time e == t)) [
              | inr other ↦ rw other (rule.stop s)
              | inl now ↦ rw now (elim (is_cancelled_cases e rest s) [
                | inl c ↦ subst (after e) (sym c) (
                    rule.keep s e rest _ p ((==_iff (entry_time e) t).0 now)
                      (collect_ind fuel (record s { events = rest })))
                | inr (k, c) ↦
                    subst (after e) (sym c)
                      (rule.skip s e rest _ p k (collect_ind fuel (forget e rest s)))
              ])
            ])
    ]
      where
        after : EventEntry E → Bool × Scheduler E T R → Type κ
        after e c =
            Q s
              (let (more, s'') = collect fuel t c.1 in if c.0 then (more, s'') else (e ∷ more, s''))

  pub collect-SameClock : (fuel t : ℕ) (s : Scheduler E T R) → SameClock s (collect fuel t s).1
  collect-SameClock fuel t s =
      collect_ind {Q = λ s r. SameClock s r.1}
        (record {
          stop = λ s. record { clock = refl; numbers = refl; pending = refl };
          keep = λ s e rest r p now h. record {
            clock = h.clock;
            numbers = h.numbers;
            pending = h.pending;
          };
          skip = λ s e rest r p k h. record {
            clock = h.clock;
            numbers = h.numbers;
            pending = h.pending;
          };
        })
        fuel s

  pub collect-time :
      (fuel t : ℕ) (s : Scheduler E T R) → All (λ e. entry_time e ≡ t) (collect fuel t s).0
  collect-time fuel t s =
      collect_ind {Q = λ s r. All (λ e. entry_time e ≡ t) r.0}
        (record {
          stop = λ s. tt;
          keep = λ s e rest r p now h. (now, h);
          skip = λ s e rest r p k h. h;
        })
        fuel s

  pub collect-All {κ} :
      (P : EventEntry E → Type κ) (fuel t : ℕ) (s : Scheduler E T R)
      → All P s.events
      → All P (collect fuel t s).0 × All P (collect fuel t s).1.events
  collect-All P fuel t s =
      collect_ind {Q = λ s r. All P s.events → All P r.0 × All P r.1.events}
        (record {
          stop = λ s a. (tt, a);
          keep = λ s e rest r p now h a.
              let both = OnSome-eq_some (Both P) (pop-All P s.events a) p in
              ((both.0, (h both.1).0), (h both.1).1);
          skip = λ s e rest r p k h a. h (OnSome-eq_some (Both P) (pop-All P s.events a) p).1;
        })
        fuel s
