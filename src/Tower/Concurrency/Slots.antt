-- ===== src/Tower/Concurrency/Slots.antt =====
-- The slots of the concurrency limit of des-tower/src/tower/limit/concurrency/mod.rs.
use des_cartes.Prelude.{
  ℕ, ◌+◌, ◌-◌, ◌^◌, ◌≤◌, ◌<◌, ◌≡◌, refl, subst, Bool, true, false, Option, none, some, List, [],
  ltb, if◌then◌else◌, is_empty, arith, Bool-cases, inl, inr,
}
use des_cartes.Tower.{ServiceError, not_ready, Polled, pending, done, failed, Service}
use des_cartes.Tower.Concurrency.{
  Limiter, LimitFuture, new, try_acquire, register_waker, release, ready_now, poll_ready,
  acquire_slot, call, finished, poll, drop_future,
}

-- The slots that a flag stands for.
abbrev pub slots : Bool → ℕ
slots true = 1
slots false = 0

module _ {W : Type 0} (max_concurrency : ℕ) where
  -- The counter counts the permits of the services, the slots of the calls and the slots that were
  -- lost, never more than the limit; tasks wait only where no slot is free.
  pub record IsCounted (l : Limiter W) (held : ℕ) : Type 0 where
    pub counted : l.current_concurrency ≡ held
    pub within : held ≤ max_concurrency
    pub awake : is_empty l.waiters ≡ false → max_concurrency ≤ held

  module _ {S F Req A : Type 0} (service : Service S F Req A) where
    -- A service that is dropped or replaced by a clone keeps its permit, so that its slot stays held.
    pub data Step : Limiter W → ℕ → Limiter W → ℕ → Type 0 where
      polls_ready :
          (waker : W) (answer : Polled Unit) (permit : Bool) (l : Limiter W) (held : ℕ)
          → slots permit ≤ held
          → Step l held (poll_ready max_concurrency true waker answer permit l).2 (
              (held - slots permit)
              + slots (poll_ready max_concurrency true waker answer permit l).1)
      calls :
          (req : Req) (permit : Bool) (inner : S) (l : Limiter W) (held : ℕ)
          → slots permit ≤ held
          → Step l held (call service max_concurrency true req permit inner l).2 (
              (held - slots permit)
              + slots (call service max_concurrency true req permit inner l).0.acquired)
      polls :
          (future : LimitFuture F) (l : Limiter W) (held : ℕ)
          → slots future.acquired ≤ held
          → Step l held
              (poll service future l).3
              ((held - slots future.acquired) + slots (poll service future l).1.acquired)
      drops :
          (future : LimitFuture F) (l : Limiter W) (held : ℕ)
          → slots future.acquired ≤ held
          → Step l held (drop_future future l).1 (held - slots future.acquired)

    pub data Reach : Limiter W → ℕ → Type 0 where
      start : Reach new 0
      next :
          {l l' : Limiter W} {held held' : ℕ} → Reach l held → Step l held l' held' → Reach l' held'

  acquired-IsCounted :
      (l : Limiter W) (held : ℕ)
      → max_concurrency < 2 ^ 64
      → IsCounted l held
      → let r = try_acquire max_concurrency true l in IsCounted r.1 (held + slots r.0)
  acquired-IsCounted l held room h = elim (Bool-cases (ltb l.current_concurrency max_concurrency)) [
    | inl e ↦ rw e (record {
      counted = ground (arith, h.counted, e, room);
      within = ground (arith, h.counted, e);
      awake = λ w. ground (arith, h.awake w);
    })
    | inr e ↦ rw e (record {
      counted = omega (arith, h.counted);
      within = omega (arith, h.within);
      awake = λ w. omega (arith, h.awake w);
    })
  ]

  released-IsCounted :
      (l : Limiter W) (held : ℕ)
      → max_concurrency < 2 ^ 64
      → 1 ≤ held
      → IsCounted l held
      → IsCounted (release l).1 (held - 1)
  released-IsCounted l held room some_held h = record {
    counted = omega (arith, h.counted, h.within);
    within = omega (arith, h.within);
    awake = λ w. absurd (ground (arith, w));
  }

  moved-IsCounted :
      (l : Limiter W) (held held' : ℕ) → held ≡ held' → IsCounted l held → IsCounted l held'
  moved-IsCounted l held held' e h = subst (IsCounted l) e h

  -- A task registers its waker where no slot was free.
  registered-IsCounted :
      (waker : W) (l : Limiter W) (held : ℕ)
      → max_concurrency ≤ held
      → IsCounted l held
      → IsCounted (register_waker waker l) held
  registered-IsCounted waker l held full h = record {
    counted = h.counted;
    within = h.within;
    awake = λ w. full;
  }

  ready_now-IsCounted :
      (waker : W) (permit : Bool) (l : Limiter W) (held : ℕ)
      → max_concurrency < 2 ^ 64
      → slots permit ≤ held
      → IsCounted l held
      → let r = ready_now max_concurrency true waker permit l in
        IsCounted r.2 ((held - slots permit) + slots r.1)
  ready_now-IsCounted waker true l held room p h = record {
    counted = omega (arith, h.counted, p);
    within = omega (arith, h.within, p);
    awake = λ w. omega (arith, h.awake w, p);
  }
  ready_now-IsCounted waker false l held room p h =
      elim (Bool-cases (ltb l.current_concurrency max_concurrency)) [
        | inl e ↦ rw e (record {
          counted = ground (arith, h.counted, e, room);
          within = ground (arith, h.counted, e);
          awake = λ w. ground (arith, h.awake w);
        })
        | inr e ↦ rw e (
            registered-IsCounted waker l ((held - 0) + 0) (ground (arith, e, h.counted))
              (moved-IsCounted l held _ (omega arith) h))
      ]

  acquire_slot-IsCounted :
      (permit : Bool) (l : Limiter W) (held : ℕ)
      → max_concurrency < 2 ^ 64
      → slots permit ≤ held
      → IsCounted l held
      → let r = acquire_slot max_concurrency true permit l in
        IsCounted r.1 ((held - slots permit) + slots r.0)
  acquire_slot-IsCounted true l held room p h = moved-IsCounted l held _ (omega (arith, p)) h
  acquire_slot-IsCounted false l held room p h =
      moved-IsCounted (try_acquire max_concurrency true l).1
        (held + slots (try_acquire max_concurrency true l).0) _ (omega arith)
        (acquired-IsCounted l held room h)

  poll_ready-IsCounted :
      (waker : W) (answer : Polled Unit) (permit : Bool) (l : Limiter W) (held : ℕ)
      → max_concurrency < 2 ^ 64
      → slots permit ≤ held
      → IsCounted l held
      → let r = poll_ready max_concurrency true waker answer permit l in
        IsCounted r.2 ((held - slots permit) + slots r.1)
  poll_ready-IsCounted waker (done _) permit l held room p h =
      ready_now-IsCounted waker permit l held room p h
  poll_ready-IsCounted waker pending permit l held room p h =
      moved-IsCounted l held _ (omega (arith, p)) h
  poll_ready-IsCounted waker (failed error) permit l held room p h =
      moved-IsCounted l held _ (omega (arith, p)) h

  module _ {S F Req A : Type 0} (service : Service S F Req A) where
    finished-IsCounted :
        (answer : Polled A) (f : F) (acquired : Bool) (l : Limiter W) (held : ℕ)
        → max_concurrency < 2 ^ 64
        → slots acquired ≤ held
        → IsCounted l held
        → let r = finished service answer f acquired l in
          IsCounted r.3 ((held - slots acquired) + slots r.1.acquired)
    finished-IsCounted pending f acquired l held room p h =
        moved-IsCounted l held _ (omega (arith, p)) h
    finished-IsCounted (done a) f true l held room p h =
        moved-IsCounted (release l).1 (held - 1) _ (omega arith)
          (released-IsCounted l held room p h)
    finished-IsCounted (failed a) f true l held room p h =
        moved-IsCounted (release l).1 (held - 1) _ (omega arith)
          (released-IsCounted l held room p h)
    finished-IsCounted (done a) f false l held room p h = moved-IsCounted l held _ (omega arith) h
    finished-IsCounted (failed a) f false l held room p h = moved-IsCounted l held _ (omega arith) h

    poll-IsCounted :
        (future : LimitFuture F) (l : Limiter W) (held : ℕ)
        → max_concurrency < 2 ^ 64
        → slots future.acquired ≤ held
        → IsCounted l held
        → let r = poll service future l in
          IsCounted r.3 ((held - slots future.acquired) + slots r.1.acquired)
    poll-IsCounted future l held room p h = go future.immediate_error future.inner
      where
        go :
            (e : Option ServiceError) (inner : Option F)
            → let r =
                poll service
                  (record { inner = inner; acquired = future.acquired; immediate_error = e })
                  l in
              IsCounted r.3 ((held - slots future.acquired) + slots r.1.acquired)
        go (some error) inner = moved-IsCounted l held _ (omega (arith, p)) h
        go none none = moved-IsCounted l held _ (omega (arith, p)) h
        go none (some f) =
            finished-IsCounted (service.poll f).0 (service.poll f).1 future.acquired l held room p h

    drop-IsCounted :
        (future : LimitFuture F) (l : Limiter W) (held : ℕ)
        → max_concurrency < 2 ^ 64
        → slots future.acquired ≤ held
        → IsCounted l held
        → IsCounted (drop_future future l).1 (held - slots future.acquired)
    drop-IsCounted future l held room p h = go future.acquired p
      where
        go :
            (acquired : Bool)
            → slots acquired ≤ held
            → let r : List W × Limiter W = if acquired then release l else ([], l) in
              IsCounted r.1 (held - slots acquired)
        go true p = released-IsCounted l held room p h
        go false p = moved-IsCounted l held _ (omega arith) h

    call-IsCounted :
        (req : Req) (permit : Bool) (inner : S) (l : Limiter W) (held : ℕ)
        → max_concurrency < 2 ^ 64
        → slots permit ≤ held
        → IsCounted l held
        → let r = call service max_concurrency true req permit inner l in
          IsCounted r.2 ((held - slots permit) + slots r.0.acquired)
    call-IsCounted req permit inner l held room p h =
        go (acquire_slot max_concurrency true permit l)
          (acquire_slot-IsCounted permit l held room p h)
      where
        go :
            (a : Bool × Limiter W)
            → IsCounted a.1 ((held - slots permit) + slots a.0)
            → let c = service.call req inner in
              let r : LimitFuture F × S × Limiter W =
                if a.0
                then (
                  record { inner = some c.0; acquired = true; immediate_error = none },
                  c.1,
                  a.1,
                )
                else (
                  record { inner = none; acquired = false; immediate_error = some not_ready },
                  inner,
                  a.1,
                ) in
              IsCounted r.2 ((held - slots permit) + slots r.0.acquired)
        go (true, l') k = k
        go (false, l') k = k

    -- For a limit in a usize, and an exchange that does not fail for no reason: in every state that
    -- polling services, calling them, polling and dropping their futures, in any order, reaches
    -- from a new limit, the counter counts the permits of services, the calls that hold a slot, and
    -- the permits of services that were dropped; these are never more than the limit; and wakers
    -- are waiting only while no slot is free.
    pub Reach-IsCounted :
        (l : Limiter W) (held : ℕ)
        → max_concurrency < 2 ^ 64
        → Reach service l held
        → IsCounted l held
    Reach-IsCounted l held room Reach.start = record {
      counted = refl;
      within = omega arith;
      awake = λ w. absurd (ground (arith, w));
    }
    Reach-IsCounted _ _ room (Reach.next r (Step.polls_ready waker answer permit l held p)) =
        poll_ready-IsCounted waker answer permit l held room p (Reach-IsCounted l held room r)
    Reach-IsCounted _ _ room (Reach.next r (Step.calls req permit inner l held p)) =
        call-IsCounted req permit inner l held room p (Reach-IsCounted l held room r)
    Reach-IsCounted _ _ room (Reach.next r (Step.polls future l held p)) =
        poll-IsCounted future l held room p (Reach-IsCounted l held room r)
    Reach-IsCounted _ _ room (Reach.next r (Step.drops future l held p)) =
        drop-IsCounted future l held room p (Reach-IsCounted l held room r)
