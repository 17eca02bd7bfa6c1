-- ===== src/Tokio/Semaphore/Polling.antt =====
-- Polling and dropping an acquisition keep the invariant: des-tokio/src/sync/batch_semaphore.rs.
use des_cartes.Prelude.{
  ℕ, suc, leb, ◌==◌, if_ind, add_u64, All-append, if◌then◌else◌, ◌-◌, ◌≤◌, ◌<◌, ◌≡◌, refl, inl, inr,
  true, Option, none, some, List, [], ◌∷◌, ◌++◌, arith, is_empty, contains, remove, u64_max,
  Option-cases,
}
use des_cartes.Tokio.Semaphore.{
  Waiter, State, Acquire, Poll, panicked, ready_err, remove_waiter, set_waker, find_waiter,
  cancel_queued, cancel_locked, poll_waiting, poll_first, poll, drop_acquire,
}
use des_cartes.Tokio.Semaphore.Invariant.{
  Issued-mono, Issued-remove, Issued-fresh, still, Ordered, Apart, IsValid, Ordered-mono,
  Apart-remove, KeepsValid, add_permits_locked-IsValid,
}

module _ {ℓ} {W : Type ℓ} where
  Ordered-remove :
      (i lo hi : ℕ) (ws : List (Waiter W)) → Ordered lo hi ws → Ordered lo hi (remove_waiter i ws)
  unfolding remove_waiter
  Ordered-remove i lo hi [] h = tt
  Ordered-remove i lo hi (w ∷ ws) h = ground (
    arith,
    Ordered-remove i (suc w.waiter_id) hi ws h.3,
    Ordered-mono (suc w.waiter_id) lo hi hi ws,
  )

  Apart-remove_waiter :
      (i : ℕ) (ready : List ℕ) (ws : List (Waiter W))
      → Apart ready ws
      → Apart ready (remove_waiter i ws)
  unfolding remove_waiter
  Apart-remove_waiter i ready [] h = tt
  Apart-remove_waiter i ready (w ∷ ws) h = ground (arith, Apart-remove_waiter i ready ws h.1)

  Ordered-set_waker :
      (i lo hi : ℕ) (k : W) (ws : List (Waiter W))
      → Ordered lo hi ws
      → Ordered lo hi (set_waker i k ws)
  unfolding set_waker
  Ordered-set_waker i lo hi k [] h = tt
  Ordered-set_waker i lo hi k (w ∷ ws) h =
      ground (arith, Ordered-set_waker i (suc w.waiter_id) hi k ws h.3)

  Apart-set_waker :
      (i : ℕ) (k : W) (ready : List ℕ) (ws : List (Waiter W))
      → Apart ready ws
      → Apart ready (set_waker i k ws)
  unfolding set_waker
  Apart-set_waker i k ready [] h = tt
  Apart-set_waker i k ready (w ∷ ws) h = ground (arith, Apart-set_waker i k ready ws h.1)

  Ordered-append :
      (lo hi i : ℕ) (ws vs : List (Waiter W))
      → lo ≤ i
      → i ≤ hi
      → Ordered lo i ws
      → Ordered i hi vs
      → Ordered lo hi (ws ++ vs)
  Ordered-append lo hi i [] vs p q h k = Ordered-mono i lo hi hi vs p (omega arith) k
  Ordered-append lo hi i (w ∷ ws) vs p q h k =
      (h.0, omega arith, h.2, Ordered-append (suc w.waiter_id) hi i ws vs (omega arith) q h.3 k)

  is_empty-remove_waiter :
      (i : ℕ) (ws : List (Waiter W)) → is_empty ws ≡ true → is_empty (remove_waiter i ws) ≡ true
  unfolding remove_waiter
  is_empty-remove_waiter i [] e = refl
  is_empty-remove_waiter i (w ∷ ws) e = cc

  is_empty-set_waker :
      (i : ℕ) (k : W) (ws : List (Waiter W))
      → is_empty ws ≡ true
      → is_empty (set_waker i k ws) ≡ true
  unfolding set_waker
  is_empty-set_waker i k [] e = refl
  is_empty-set_waker i k (w ∷ ws) e = cc

  pub remove_waiter-IsValid :
      (i : ℕ) (s : State W) → IsValid s → IsValid (record s { queue = remove_waiter i s.queue })
  remove_waiter-IsValid i s v = record {
    head_of_line = still (is_empty-remove_waiter i s.queue) v.head_of_line;
    ordered = Ordered-remove i 0 s.next_waiter_id s.queue v.ordered;
    apart = Apart-remove_waiter i s.ready s.queue v.apart;
    issued = v.issued;
  }

  set_waker-IsValid :
      (i : ℕ) (k : W) (s : State W)
      → IsValid s
      → IsValid (record s { queue = set_waker i k s.queue })
  set_waker-IsValid i k s v = record {
    head_of_line = still (is_empty-set_waker i k s.queue) v.head_of_line;
    ordered = Ordered-set_waker i 0 s.next_waiter_id k s.queue v.ordered;
    apart = Apart-set_waker i k s.ready s.queue v.apart;
    issued = v.issued;
  }

  pub observe-IsValid :
      (i : ℕ) (s : State W) → IsValid s → IsValid (record s { ready = remove i s.ready })
  observe-IsValid i s v = record {
    head_of_line = v.head_of_line;
    ordered = v.ordered;
    apart = Apart-remove i s.ready s.queue v.apart;
    issued = Issued-remove i s.next_waiter_id s.ready v.issued;
  }

  cancel_queued-IsValid : (i : ℕ) (s : State W) → IsValid s → KeepsValid (cancel_queued i s)
  unfolding cancel_queued
  cancel_queued-IsValid i s v = elim (Option-cases (find_waiter i s.queue)) [
    | inl e ↦ rw (e, cancel_queued) v
    | inr (w, e) ↦
        rw (e, cancel_queued)
          (let v' = remove_waiter-IsValid i s v in
            if_ind KeepsValid (w.required - w.remaining == 0) (λ _. v')
              (λ _. add_permits_locked-IsValid _ _ v'))
  ]

  cancel_locked-IsValid : (f : Acquire) (s : State W) → IsValid s → KeepsValid (cancel_locked f s)
  unfolding cancel_locked
  cancel_locked-IsValid f s v = elim (Option-cases f.waiter_id) [
    | inl e ↦ rw (e, cancel_locked) v
    | inr (i, e) ↦
        rw (e, cancel_locked)
          (if_ind KeepsValid (contains i s.ready)
            (λ _. add_permits_locked-IsValid f.permits _ (observe-IsValid i s v))
            (λ _. cancel_queued-IsValid i s v))
  ]

  -- Dropping a future keeps the invariant, whether the future was done, satisfied, queued or new.
  pub drop_acquire-IsValid : (f : Acquire) (s : State W) → IsValid s → KeepsValid (drop_acquire f s)
  unfolding drop_acquire
  drop_acquire-IsValid f s v =
      if_ind KeepsValid f.completed (λ _. v) (λ _. cancel_locked-IsValid f s v)

  abbrev PollValid : Poll × Acquire × State W → Type 0
  PollValid r = IsValid r.2

  poll_waiting-IsValid :
      (i : ℕ) (k : W) (f : Acquire) (s : State W) → IsValid s → PollValid (poll_waiting i k f s)
  unfolding poll_waiting
  poll_waiting-IsValid i k f s v =
      if_ind PollValid (contains i s.ready) (λ _. observe-IsValid i s v)
        λ _. elim (Option-cases (find_waiter i s.queue)) [
          | inl e ↦ rw e v
          | inr (w, e) ↦ rw e (set_waker-IsValid i k s v)
        ]

  Apart-append :
      (ready : List ℕ) (ws vs : List (Waiter W))
      → Apart ready ws
      → Apart ready vs
      → Apart ready (ws ++ vs)
  Apart-append ready = All-append _

  poll_first-IsValid :
      (k : W) (f : Acquire) (s : State W)
      → s.next_waiter_id < u64_max
      → IsValid s
      → PollValid (poll_first k f s)
  unfolding poll_first
  poll_first-IsValid k f s room v =
      let i = s.next_waiter_id in
      let next : add_u64 i 1 ≡ suc i = omega arith in
      let fresh = Issued-fresh i s.ready v.issued in
      let issued = Issued-mono i (suc i) s.ready (omega arith) v.issued in
      rw next (
        if_ind PollValid (is_empty s.queue)
          (λ e.
            if_ind PollValid (leb f.permits s.permits)
              (λ _. record {
                head_of_line = inl e;
                ordered = v.ordered;
                apart = v.apart;
                issued = v.issued;
              })
              (λ _. record {
                head_of_line = inr refl;
                ordered = (omega arith, omega arith, omega arith, tt);
                apart = (fresh, tt);
                issued = issued;
              }))
          (λ e. record {
            head_of_line = ground arith;
            ordered =
                Ordered-append 0 (suc i) i s.queue _ (omega arith) (omega arith) v.ordered
                  (omega arith, omega arith, omega arith, tt);
            apart = Apart-append s.ready s.queue _ v.apart (fresh, tt);
            issued = issued;
          }))

  -- Polling an acquisition keeps the invariant while ids are left to hand out.
  pub poll-IsValid :
      (task : Option ℕ) (k : W) (f : Acquire) (s : State W)
      → s.next_waiter_id < u64_max
      → IsValid s
      → PollValid (poll task k f s)
  unfolding poll
  poll-IsValid task k f s room v = if_ind PollValid f.completed (λ _. v) λ _. in_task task
    where
      waits :
          (o : Option ℕ)
          → PollValid (elim o [ some i ↦ poll_waiting i k f s | none ↦ poll_first k f s ])
      waits none = poll_first-IsValid k f s room v
      waits (some i) = poll_waiting-IsValid i k f s v

      in_task :
          (o : Option ℕ)
          → PollValid (elim o [
            | none ↦ (panicked, f, s)
            | some _ ↦
                if s.is_closed
                then (ready_err, f, s)
                else elim f.waiter_id [ some i ↦ poll_waiting i k f s | none ↦ poll_first k f s ]
          ])
      in_task none = v
      in_task (some _) = if_ind PollValid s.is_closed (λ _. v) (λ _. waits f.waiter_id)
