-- ===== src/Tokio/Semaphore/Invariant.antt =====
-- The invariant of the batch semaphore, and that every operation keeps it.
use des_cartes.Prelude.{
  ℕ, suc, min, leb, ltb, ◌==◌, if_ind, OnSome, ◌+◌, ◌-◌, ◌≤◌, ◌<◌, ◌≡◌, refl, ◌⊎◌, inl, inr, Bool,
  true, false, Option, List, [], ◌∷◌, arith, is_empty, contains, insert, remove, All, u64_max,
  Bool-cases,
}
use des_cartes.Tokio.Semaphore.{
  Waiter, State, Assigned, TryAcquire, assign, add_permits_locked, add_permits, try_acquire, close,
}

pub contains-insert_ne :
    (i j : ℕ) (ready : List ℕ)
    → i < j
    → contains j ready ≡ false
    → contains j (insert i ready) ≡ false
contains-insert_ne i j ready p h = ground arith

pub Issued-insert :
    (i hi : ℕ) (ready : List ℕ)
    → i < hi
    → All (λ j. j < hi) ready
    → All (λ j. j < hi) (insert i ready)
Issued-insert i hi ready p h = ground arith

pub Issued-mono :
    (lo hi : ℕ) (ready : List ℕ) → lo ≤ hi → All (λ j. j < lo) ready → All (λ j. j < hi) ready
Issued-mono lo hi [] p h = tt
Issued-mono lo hi (x ∷ xs) p h = (omega arith, Issued-mono lo hi xs p h.1)

pub Issued-remove :
    (i hi : ℕ) (ready : List ℕ) → All (λ j. j < hi) ready → All (λ j. j < hi) (remove i ready)
Issued-remove i hi [] h = tt
Issued-remove i hi (x ∷ xs) h = ground (arith, Issued-remove i hi xs h.1)

pub Issued-fresh : (i : ℕ) (ready : List ℕ) → All (λ j. j < i) ready → contains i ready ≡ false
Issued-fresh i [] h = refl
Issued-fresh i (x ∷ xs) h = ground (arith, Issued-fresh i xs h.1)

pub contains-remove :
    (i j : ℕ) (ready : List ℕ) → contains j ready ≡ false → contains j (remove i ready) ≡ false
contains-remove i j [] h = refl
contains-remove i j (x ∷ xs) h = ground (arith, contains-remove i j xs)

pub still :
    {b c : Bool} {n : ℕ} → (b ≡ true → c ≡ true) → (b ≡ true) ⊎ (n ≡ 0) → (c ≡ true) ⊎ (n ≡ 0)
still f (inl e) = inl (f e)
still f (inr e) = inr e

module _ {ℓ} {W : Type ℓ} where
  -- Waiters stand in the order of their ids, from `lo` on and below `hi`, and miss at most what they
  -- asked for.
  abbrev pub Ordered : ℕ → ℕ → List (Waiter W) → Type 0
  Ordered lo hi [] = Unit
  Ordered lo hi (w ∷ ws) =
      (lo ≤ w.waiter_id)
      × (w.waiter_id < hi)
      × (w.remaining ≤ w.required)
      × Ordered (suc w.waiter_id) hi ws

  abbrev pub Apart : List ℕ → List (Waiter W) → Type 0
  Apart ready ws = All (λ w. contains w.waiter_id ready ≡ false) ws

  -- Nobody waits while a permit is free; ids are handed out in order, once, and no waiter is both
  -- queued and satisfied.
  pub record IsValid (s : State W) : Type 0 where
    pub head_of_line : (is_empty s.queue ≡ true) ⊎ (s.permits ≡ 0)
    pub ordered : Ordered 0 s.next_waiter_id s.queue
    pub apart : Apart s.ready s.queue
    pub issued : All (λ i. i < s.next_waiter_id) s.ready

  pub Ordered-mono :
      (lo lo' hi hi' : ℕ) (ws : List (Waiter W))
      → lo' ≤ lo
      → hi ≤ hi'
      → Ordered lo hi ws
      → Ordered lo' hi' ws
  Ordered-mono lo lo' hi hi' [] p q h = tt
  Ordered-mono lo lo' hi hi' (w ∷ ws) p q h = (
    omega arith,
    omega arith,
    h.2,
    Ordered-mono (suc w.waiter_id) (suc w.waiter_id) hi hi' ws (omega arith) q h.3,
  )

  pub Apart-insert :
      (i lo hi : ℕ) (ready : List ℕ) (ws : List (Waiter W))
      → i < lo
      → Ordered lo hi ws
      → Apart ready ws
      → Apart (insert i ready) ws
  Apart-insert i lo hi ready [] p o h = tt
  Apart-insert i lo hi ready (w ∷ ws) p o h = (
    contains-insert_ne i w.waiter_id ready (omega arith) h.0,
    Apart-insert i (suc w.waiter_id) hi ready ws (omega arith) o.3 h.1,
  )

  pub Apart-remove :
      (i : ℕ) (ready : List ℕ) (ws : List (Waiter W)) → Apart ready ws → Apart (remove i ready) ws
  Apart-remove i ready [] h = tt
  Apart-remove i ready (w ∷ ws) h =
      (contains-remove i w.waiter_id ready h.0, Apart-remove i ready ws h.1)

  -- The invariant of the parts that the loop of `add_permits_locked` leaves.
  pub record IsAssigned (lo hi : ℕ) (r : Assigned W) : Type 0 where
    pub head_of_line : (is_empty r.queue ≡ true) ⊎ (r.permits ≡ 0)
    pub ordered : Ordered lo hi r.queue
    pub apart : Apart r.ready r.queue
    pub issued : All (λ i. i < hi) r.ready

  pub assign-IsAssigned :
      (lo hi available : ℕ) (ws : List (Waiter W)) (ready : List ℕ)
      → Ordered lo hi ws
      → Apart ready ws
      → All (λ i. i < hi) ready
      → IsAssigned lo hi (assign available ws ready)
  unfolding assign
  assign-IsAssigned lo hi available [] ready o a i = ground arith
  assign-IsAssigned lo hi available (w ∷ ws) ready o a i =
      let rest = assign (available - min available w.remaining) ws (insert w.waiter_id ready) in
      let ih =
        assign-IsAssigned (suc w.waiter_id) hi (available - min available w.remaining) ws
          (insert w.waiter_id ready) o.3
          (Apart-insert w.waiter_id (suc w.waiter_id) hi ready ws (omega arith) o.3 a.1)
          (Issued-insert w.waiter_id hi ready o.1 i) in
      ground (arith, ih, Ordered-mono (suc w.waiter_id) lo hi hi rest.queue)

  abbrev pub KeepsValid : Option (State W × List W) → Type 0
  KeepsValid = OnSome (λ (r : State W × List W). IsValid r.0)

  pub add_permits_locked-IsValid :
      (n : ℕ) (s : State W) → IsValid s → KeepsValid (add_permits_locked n s)
  unfolding add_permits_locked
  add_permits_locked-IsValid n s v = elim (Bool-cases (leb (s.permits + n) u64_max)) [
    | inl fits ↦ rw fits (
        let r =
          assign-IsAssigned 0 s.next_waiter_id (s.permits + n) s.queue s.ready v.ordered v.apart
            v.issued in
        record {
          head_of_line = r.head_of_line;
          ordered = r.ordered;
          apart = r.apart;
          issued = r.issued;
        })
    | inr over ↦ rw over tt
  ]

  pub add_permits-IsValid : (n : ℕ) (s : State W) → IsValid s → KeepsValid (add_permits n s)
  unfolding add_permits
  add_permits-IsValid n s v =
      if_ind KeepsValid (n == 0) (λ _. v) (λ _. add_permits_locked-IsValid n s v)

  pub try_acquire-IsValid : (n : ℕ) (s : State W) → IsValid s → IsValid (try_acquire n s).1
  unfolding try_acquire
  try_acquire-IsValid n s v =
      let P = λ (r : TryAcquire × State W). IsValid r.1 in
      if_ind P (n == 0) (λ _. v)
        λ _.
          if_ind P s.is_closed (λ _. v)
            λ _.
              if_ind P (is_empty s.queue)
                (λ e.
                  if_ind P (ltb s.permits n) (λ _. v)
                    λ _. record {
                      head_of_line = inl e;
                      ordered = v.ordered;
                      apart = v.apart;
                      issued = v.issued;
                    })
                (λ _. v)

  pub close-IsValid : (s : State W) → IsValid s → IsValid (close s).0
  unfolding close
  close-IsValid s v =
      if_ind (λ (r : State W × List W). IsValid r.0) s.is_closed (λ _. v)
        (λ _. record { head_of_line = inl refl; ordered = tt; apart = tt; issued = v.issued })
