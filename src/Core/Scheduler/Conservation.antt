-- ===== src/Core/Scheduler/Conservation.antt =====
-- No event is lost or run twice: what leaves the queue is the event that runs and the events of
-- cancelled tasks.
use mathlib.Core.List.{Perm, perm_middle, perm_append_comm}
use mathlib.Core.List.Perm
use native.Mathlib.Nat.{le_refl}
use des_cartes.Prelude.{
  ℕ, ◌-◌, ◌%◌, ◌^◌, min, ◌≡◌, ◌≢◌, refl, true, Option, none, some, List, [], ◌∷◌, ◌++◌, length,
  contains, remove, All, All-mono, All-append, OnSome, OnSome-eq_some, arith, append_assoc,
}
use des_cartes.Core.Heap
use des_cartes.Core.Heap.{Splits, pop-Splits}
use des_cartes.Core.Scheduler.{
  Scheduler, EventEntry, entry_time, component, task, next_live, collect, swap_remove,
  swap_remove-perm, swap_remove-ne_none, push_all, entry_ord, pop_with_policy, take_chosen,
  choose_index, Policy,
}
use des_cartes.Core.Scheduler.Rules.{next_live_ind, collect_ind, IsCancelled, forget, Outcome}

contains-remove-true :
    (i j : ℕ) (ids : List ℕ) → contains j (remove i ids) ≡ true → contains j ids ≡ true
contains-remove-true i j [] h = h
contains-remove-true i j (x ∷ ids) h = ground (arith, contains-remove-true i j ids)

abbrev pub found {ℓ} : {E : Type ℓ} → Option (EventEntry E) → List (EventEntry E)
found none = []
found (some e) = e ∷ []

move_in {ℓ} :
    {A : Type ℓ} (x : A) (out mid after : List A)
    → Perm (x ∷ (out ++ (mid ++ after))) (out ++ (x ∷ (mid ++ after)))
move_in x out mid after = Perm.symm (perm_middle out (mid ++ after))

push_all-perm {ℓ} : {E : Type ℓ} (es h : List (EventEntry E)) → Perm (es ++ h) (push_all es h)
push_all-perm [] h = Perm.rfl
push_all-perm (e ∷ es) h = Perm.trans (Perm.symm (perm_middle es h)) (push_all-perm es (e ∷ h))

-- The accounts of the two loops, joined: `x` is chosen among the frontier `first ∷ others`.
join {ℓ} :
    {A : Type ℓ} (first x : A) (d₁ d₂ others remaining u : List A)
    → Perm (first ∷ others) (x ∷ remaining)
    → Perm (first ∷ (d₁ ++ (others ++ (d₂ ++ u)))) (x ∷ ((d₁ ++ d₂) ++ (remaining ++ u)))
join first x d₁ d₂ others remaining u p = Perm.trans (move_in first d₁ others (d₂ ++ u)) (
    Perm.trans (Perm.append_left d₁ (Perm.append_right (d₂ ++ u) p)) (
      Perm.trans (perm_middle d₁ (remaining ++ (d₂ ++ u))) (
        Perm.cons x (
          rw (append_assoc d₁ d₂ (remaining ++ u)) (
            Perm.append_left d₁ (
              rw (← append_assoc remaining d₂ u, ← append_assoc d₂ remaining u)
                (Perm.append_right u (perm_append_comm remaining d₂))))))))

module _ {ℓ} {E T R : Type ℓ} where
  IsCancelled-forget :
      (d e : EventEntry E) (rest : List (EventEntry E)) (s : Scheduler E T R)
      → IsCancelled d (forget e rest s)
      → IsCancelled d s
  IsCancelled-forget (component d) e rest s h = h
  IsCancelled-forget (task d) (component e) rest s h = h
  IsCancelled-forget (task d) (task e) rest s h =
      contains-remove-true e.task_id d.task_id s.cancelled_tasks h

  -- The queue `before` holds the entries `out`, some events of tasks that `s` has cancelled, and the
  -- entries `after`, each as often as it is listed.
  pub record Accounts (s : Scheduler E T R) (out after : List (EventEntry E)) : Type ℓ where
    pub dropped : List (EventEntry E)
    pub cancelled : All (λ d. IsCancelled d s) dropped
    pub perm : Perm s.events (out ++ (dropped ++ after))

  skip-Accounts :
      (s : Scheduler E T R) (e : EventEntry E) (rest out after : List (EventEntry E))
      → Heap.pop s.events ≡ some (e, rest)
      → IsCancelled e s
      → Accounts (forget e rest s) out after
      → Accounts s out after
  skip-Accounts s e rest out after p k h = record {
    dropped = e ∷ h.dropped;
    cancelled = (k, All-mono h.dropped (λ d. IsCancelled-forget d e rest s) h.cancelled);
    perm =
        Perm.trans (OnSome-eq_some (Splits s.events) (pop-Splits s.events) p).perm
          (Perm.trans (Perm.cons e h.perm) (move_in e out h.dropped after));
  }

  next_live-Accounts :
      (s : Scheduler E T R)
      → let r = next_live (length s.events) s in Accounts s (found r.0) r.1.events
  next_live-Accounts s =
      next_live_ind {Q = λ s r. Accounts s (found r.0) r.1.events}
        (record {
          empty = λ s e. record { dropped = []; cancelled = tt; perm = Perm.rfl };
          live = λ s e rest p. record {
            dropped = [];
            cancelled = tt;
            perm = (OnSome-eq_some (Splits s.events) (pop-Splits s.events) p).perm;
          };
          skip = λ s e rest r p k h. skip-Accounts s e rest _ _ p k h;
        })
        (length s.events) s (le_refl _)

  collect-Accounts :
      (fuel t : ℕ) (s : Scheduler E T R) → let r = collect fuel t s in Accounts s r.0 r.1.events
  collect-Accounts fuel t s =
      collect_ind {Q = λ s r. Accounts s r.0 r.1.events}
        (record {
          stop = λ s. record { dropped = []; cancelled = tt; perm = Perm.rfl };
          keep = λ s e rest r p now h. record {
            dropped = h.dropped;
            cancelled = h.cancelled;
            perm =
                Perm.trans (OnSome-eq_some (Splits s.events) (pop-Splits s.events) p).perm
                  (Perm.cons e h.perm);
          };
          skip = λ s e rest r p k h. skip-Accounts s e rest _ _ p k h;
        })
        fuel s

  next_live-cancelled :
      (s : Scheduler E T R) (d : EventEntry E)
      → IsCancelled d (next_live (length s.events) s).1
      → IsCancelled d s
  next_live-cancelled s d =
      next_live_ind {Q = λ s r. IsCancelled d r.1 → IsCancelled d s}
        (record {
          empty = λ s e h. h;
          live = λ s e rest p h. same d s rest h;
          skip = λ s e rest r p k ih h. IsCancelled-forget d e rest s (ih h);
        })
        (length s.events) s (le_refl _)
    where
      same :
          (d : EventEntry E) (s : Scheduler E T R) (rest : List (EventEntry E))
          → IsCancelled d (record s { events = rest })
          → IsCancelled d s
      same (component d) s rest h = h
      same (task d) s rest h = h

  -- The accounts after one of the frontier's entries is taken out and the others are put back.
  swap-Accounts :
      (e : EventEntry E) (others : List (EventEntry E)) (s t u : Scheduler E T R)
      → Accounts s (e ∷ []) t.events
      → Accounts t others u.events
      → ((d : EventEntry E) → IsCancelled d t → IsCancelled d s)
      → (x : EventEntry E) (remaining : List (EventEntry E)) → Perm (e ∷ others) (x ∷ remaining)
      → Accounts s (x ∷ []) (push_all remaining u.events)
  swap-Accounts e others s t u h k back x remaining q = record {
    dropped = h.dropped ++ k.dropped;
    cancelled = All-append _ h.dropped k.dropped h.cancelled (All-mono k.dropped back k.cancelled);
    perm = Perm.trans h.perm (
        Perm.trans (Perm.cons e (Perm.append_left h.dropped k.perm)) (
          Perm.trans (join e x h.dropped k.dropped others remaining u.events q) (
            Perm.cons x
              (Perm.append_left (h.dropped ++ k.dropped) (push_all-perm remaining u.events)))));
  }

  module _ {κ} {P : Type κ} (policy : Policy P) where
    take_chosen-Accounts :
        (p : P) (e : EventEntry E) (others : List (EventEntry E)) (s t u : Scheduler E T R)
        → Accounts s (e ∷ []) t.events
        → Accounts t others u.events
        → ((d : EventEntry E) → IsCancelled d t → IsCancelled d s)
        → let r = take_chosen policy p (entry_time e) (e ∷ others) u in
          Accounts s (found r.0) r.2.events
    unfolding take_chosen
    take_chosen-Accounts p e others s t u h k back =
        let c = choose_index policy p (entry_time e) (e ∷ others) in
        let index = min c.0 (length (e ∷ others) - 1) in
        pick c.1 (swap_remove (e ∷ others) index)
          (swap_remove-ne_none (e ∷ others) index (omega arith))
          (swap_remove-perm (e ∷ others) index)
      where
        pick :
            (p' : P) (o : Option (EventEntry E × List (EventEntry E)))
            → o ≢ none
            → OnSome (λ (r : EventEntry E × List (EventEntry E)). Perm (e ∷ others) (r.0 ∷ r.1)) o
            → let r : Option (EventEntry E) × P × Scheduler E T R = elim o [
              | none ↦ (none, p', u)
              | some (x, remaining) ↦ (
                some x,
                p',
                record u { events = push_all remaining u.events; clock = entry_time e % 2 ^ 64 },
              )
            ] in
              Accounts s (found r.0) r.2.events
        pick p' none n q = absurd (n refl)
        pick p' (some (x, remaining)) n q = swap-Accounts e others s t u h k back x remaining q

    -- Taking the next event loses and repeats nothing, whatever the policy chooses: the queue was a
    -- permutation of the event that is taken, if there is one, of entries of tasks that were
    -- cancelled, and of the entries that stay.
    pub pop_with_policy-Accounts :
        (p : P) (s : Scheduler E T R)
        → let r = pop_with_policy policy p s in Accounts s (found r.0) r.2.events
    unfolding pop_with_policy
    pop_with_policy-Accounts p s =
        go (next_live (length s.events) s) (next_live-Accounts s) (next_live-cancelled s)
      where
        go :
            (r : Outcome E T R)
            → Accounts s (found r.0) r.1.events
            → ((d : EventEntry E) → IsCancelled d r.1 → IsCancelled d s)
            → let a : Option (EventEntry E) × P × Scheduler E T R = elim r.0 [
              | none ↦ (none, p, r.1)
              | some first ↦
                  let c = collect (length r.1.events) (entry_time first) r.1 in
                  take_chosen policy p (entry_time first) (first ∷ c.0) c.1
            ] in
              Accounts s (found a.0) a.2.events
        go (none, t) h back = h
        go (some e, t) h back =
            let c = collect (length t.events) (entry_time e) t in
            take_chosen-Accounts p e c.0 s t c.1 h
              (collect-Accounts (length t.events) (entry_time e) t) back
