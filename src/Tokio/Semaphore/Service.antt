-- ===== src/Tokio/Semaphore/Service.antt =====
-- Whom the batch semaphore serves: des-tokio/src/sync/batch_semaphore.rs.
use des_cartes.Prelude.{
  ℕ, min, leb, ◌==◌, if_ind, OnSome, ◌+◌, ◌-◌, ◌<◌, ◌≡◌, refl, ap, ◌⊎◌, inl, inr, true, false, List,
  [], ◌∷◌, ◌++◌, arith, is_empty, insert, u64_max, Bool-cases,
}
use des_cartes.Tokio.Semaphore.{
  TryAcquire, Waiter, State, Assigned, ok, err, closed, no_permits, assign, add_permits_locked,
  add_permits, try_acquire, wakers,
}
use des_cartes.Tokio.Semaphore.Invariant.{IsValid, assign-IsAssigned}

module _ {ℓ} {W : Type ℓ} where
  assign-fifo :
      (n : ℕ) (ws : List (Waiter W)) (ready : List ℕ)
      → let r = assign n ws ready in r.to_wake ++ wakers r.queue ≡ wakers ws
  unfolding assign
  assign-fifo n [] ready = refl
  assign-fifo n (w ∷ ws) ready =
      let P = λ (r : Assigned W). r.to_wake ++ wakers r.queue ≡ wakers (w ∷ ws) in
      if_ind P (n == 0) (λ _. refl)
        λ _.
          if_ind P (w.remaining - min n w.remaining == 0)
            (λ _.
              ap (λ l. w.waker ∷ l)
                (assign-fifo (n - min n w.remaining) ws (insert w.waiter_id ready)))
            (λ _. refl)

  -- In a valid state, unless the permit count overflows: the wakers that `add_permits` wakes,
  -- followed by those of the waiters that go on waiting, are the wakers before the call in their
  -- order, and afterwards nobody waits or no permit is free.
  pub add_permits-fifo :
      (n : ℕ) (s : State W)
      → IsValid s
      → OnSome
          (λ (r : State W × List W).
            (r.1 ++ wakers r.0.queue ≡ wakers s.queue)
            × ((is_empty r.0.queue ≡ true) ⊎ (r.0.permits ≡ 0)))
          (add_permits n s)
  unfolding add_permits add_permits_locked
  add_permits-fifo n s v =
      if_ind (OnSome Served) (n == 0) (λ _. (refl, v.head_of_line))
        λ _. elim (Bool-cases (leb (s.permits + n) u64_max)) [
          | inl fits ↦ rw fits (
            assign-fifo (s.permits + n) s.queue s.ready,
            (assign-IsAssigned 0 s.next_waiter_id (s.permits + n) s.queue s.ready v.ordered v.apart
                v.issued).head_of_line,
          )
          | inr over ↦ rw over tt
        ]
    where
      Served : State W × List W → Type ℓ
      Served r =
          (r.1 ++ wakers r.0.queue ≡ wakers s.queue)
          × ((is_empty r.0.queue ≡ true) ⊎ (r.0.permits ≡ 0))

module _ {W : Type 0} where
  -- The semaphore was open, nobody waited, and exactly `n` permits were taken.
  abbrev pub TookAll : ℕ → State W → State W → Type 0
  TookAll n s t =
      (s.is_closed ≡ false)
      × (is_empty s.queue ≡ true)
      × (t.permits + n ≡ s.permits)
      × (t.queue ≡ s.queue)
      × (t.ready ≡ s.ready)

  -- The reason of a refusal.
  abbrev pub Refused : ℕ → State W → TryAcquire → Type 0
  Refused n s result =
      ((result ≡ err closed) × (s.is_closed ≡ true))
      ⊎ ((result ≡ err no_permits)
          × (s.is_closed ≡ false)
          × ((is_empty s.queue ≡ false) ⊎ (s.permits < n)))

  abbrev pub Tries : ℕ → State W → TryAcquire × State W → Type 0
  Tries n s (result, t) = ((result ≡ ok) × TookAll n s t) ⊎ ((t ≡ s) × Refused n s result)

  -- `try_acquire` of at least one permit either succeeds, and then the semaphore is open, nobody
  -- waits and exactly what was asked for is taken; or it changes nothing and reports that the
  -- semaphore is closed, or that it is open and somebody waits or too few permits are free.
  pub try_acquire_cases : (n : ℕ) (s : State W) → 0 < n → Tries n s (try_acquire n s)
  unfolding try_acquire
  try_acquire_cases n s h = ground arith
