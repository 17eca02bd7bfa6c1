-- ===== src/Tokio/Semaphore/Ledger.antt =====
-- No permit of the batch semaphore is lost or made up.
use des_cartes.Prelude.{
  ℕ, suc, min, leb, ◌==◌, if_ind, OnSome, if◌then◌else◌, ◌+◌, ◌-◌, ◌≡◌, refl, ◌∙◌, ◌⊎◌, inl, inr,
  true, false, Option, none, some, List, [], ◌∷◌, ◌++◌, arith, is_empty, contains, insert, remove,
  All, ==_iff, u64_max, Bool-cases, Option-cases, map,
}
use des_cartes.Tokio.Semaphore.{
  Waiter, State, Assigned, Acquire, waiter, Poll, ready_ok, ready_err, pending, panicked, assign,
  add_permits_locked, add_permits, remove_waiter, set_waker, find_waiter, cancel_queued,
  cancel_locked, poll_waiting, poll_first, poll, drop_acquire,
}
use des_cartes.Tokio.Semaphore.Invariant.{IsValid, Ordered, Apart, Apart-insert}
use des_cartes.Tokio.Semaphore.Polling.{remove_waiter-IsValid, observe-IsValid}

-- What the satisfied waiters own, where `req i` is what the waiter with the id `i` asked for.
abbrev pub granted : (ℕ → ℕ) → List ℕ → ℕ
granted req [] = 0
granted req (i ∷ is) = req i + granted req is

-- What a poll hands over: all that was asked for, when it reports success.
abbrev pub taken : Poll → ℕ → ℕ
taken ready_ok n = n
taken _ n = 0

granted-insert :
    (req : ℕ → ℕ) (i : ℕ) (is : List ℕ)
    → contains i is ≡ false
    → granted req (insert i is) ≡ req i + granted req is
granted-insert req i is h = rw h

granted-remove :
    (req : ℕ → ℕ) (i : ℕ) (is : List ℕ)
    → contains i is ≡ true
    → req i + granted req (remove i is) ≡ granted req is
granted-remove req i [] h = cc
granted-remove req i (j ∷ is) h = ground (arith, granted-remove req i is, ==_iff j i)

module _ {ℓ} {W : Type ℓ} (req : ℕ → ℕ) where
  -- What queued waiters were assigned so far.
  abbrev pub assigned : List (Waiter W) → ℕ
  assigned [] = 0
  assigned (w ∷ ws) = (w.required - w.remaining) + assigned ws

  abbrev pub Agrees : List (Waiter W) → Type 0
  Agrees ws = All (λ w. req w.waiter_id ≡ w.required) ws

  -- All permits that are not in the hands of a holder.
  abbrev pub total : State W → ℕ
  total s = s.permits + assigned s.queue + granted req s.ready

  abbrev sum_of : Assigned W → ℕ
  sum_of r = r.permits + assigned r.queue + granted req r.ready

  assign-total :
      (lo hi n : ℕ) (ws : List (Waiter W)) (ready : List ℕ)
      → Ordered lo hi ws
      → Apart ready ws
      → Agrees ws
      → sum_of (assign n ws ready) ≡ n + assigned ws + granted req ready
  unfolding assign
  assign-total lo hi n [] ready o a g = refl
  assign-total lo hi n (w ∷ ws) ready o a g =
      let ih =
        assign-total (suc w.waiter_id) hi (n - min n w.remaining) ws (insert w.waiter_id ready) o.3
          (Apart-insert w.waiter_id (suc w.waiter_id) hi ready ws (omega arith) o.3 a.1) g.1 in
      let new = granted-insert req w.waiter_id ready a.0 in
      if_ind (λ r. sum_of r ≡ n + assigned (w ∷ ws) + granted req ready) (n == 0)
        (λ e. ground arith)
        λ e.
          if_ind (λ r. sum_of r ≡ n + assigned (w ∷ ws) + granted req ready)
            (w.remaining - min n w.remaining == 0) (λ e'. ground (arith, ih, new, g.0, o.2))
            (λ e'. ground (arith, o.2))

  -- The total grows by `n`, where the call does not overflow.
  abbrev Adds : ℕ → ℕ → Option (State W × List W) → Type 0
  Adds n before = OnSome (λ (r : State W × List W). total r.0 ≡ before + n)

  add_permits_locked-total :
      (n : ℕ) (s : State W) → IsValid s → Agrees s.queue → Adds n (total s) (add_permits_locked n s)
  unfolding add_permits_locked
  add_permits_locked-total n s v g = elim (Bool-cases (leb (s.permits + n) u64_max)) [
    | inl fits ↦ rw fits (
        omega (
          arith,
          assign-total 0 s.next_waiter_id (s.permits + n) s.queue s.ready v.ordered v.apart g,
        ))
    | inr over ↦ rw over tt
  ]

  -- In a valid state, where `req` gives what each waiter asked for, adding `n` permits makes
  -- exactly `n` more that are not in the hands of holders, wherever they go, unless the permit
  -- count overflows.
  pub add_permits-total :
      (n : ℕ) (s : State W) → IsValid s → Agrees s.queue → Adds n (total s) (add_permits n s)
  unfolding add_permits
  add_permits-total n s v g =
      if_ind (Adds n (total s)) (n == 0) (λ e. ground arith) (λ _. add_permits_locked-total n s v g)

  assigned-remove_waiter :
      (i : ℕ) (ws : List (Waiter W)) {w : Waiter W}
      → find_waiter i ws ≡ some w
      → (w.required - w.remaining) + assigned (remove_waiter i ws) ≡ assigned ws
  unfolding find_waiter remove_waiter
  assigned-remove_waiter i [] e = cc
  assigned-remove_waiter i (x ∷ ws) {w} e = elim (Bool-cases (x.waiter_id == i)) [
    | inl h ↦ rw h (let same : x ≡ w = ground arith in rw same refl)
    | inr h ↦ rw h (omega (arith, assigned-remove_waiter i ws {w = w} (ground arith)))
  ]

  Agrees-remove_waiter : (i : ℕ) (ws : List (Waiter W)) → Agrees ws → Agrees (remove_waiter i ws)
  unfolding remove_waiter
  Agrees-remove_waiter i [] g = tt
  Agrees-remove_waiter i (w ∷ ws) g =
      if_ind Agrees (w.waiter_id == i) (λ _. g.1) (λ _. (g.0, Agrees-remove_waiter i ws g.1))

  assigned-set_waker :
      (i : ℕ) (k : W) (ws : List (Waiter W)) → assigned (set_waker i k ws) ≡ assigned ws
  unfolding set_waker
  assigned-set_waker i k [] = refl
  assigned-set_waker i k (w ∷ ws) =
      if_ind (λ r. assigned r ≡ assigned (w ∷ ws)) (w.waiter_id == i) (λ _. refl)
        (λ _. omega (arith, assigned-set_waker i k ws))

  assigned-append : (ws vs : List (Waiter W)) → assigned (ws ++ vs) ≡ assigned ws + assigned vs
  assigned-append [] vs = omega arith
  assigned-append (w ∷ ws) vs = omega (arith, assigned-append ws vs)

  abbrev ids : List (Waiter W) → List ℕ
  ids = map (λ w. w.waiter_id)

  -- The future waits under an id of its own, which stands for what it asked for; one that was not
  -- polled yet will get the next id.
  abbrev pub Registered : Acquire → State W → Option ℕ → Type 0
  Registered f s none = req s.next_waiter_id ≡ f.permits
  Registered f s (some i) =
      (req i ≡ f.permits) × ((contains i s.ready ≡ true) ⊎ (contains i (ids s.queue) ≡ true))

  abbrev pub IsRegistered : Acquire → State W → Type 0
  IsRegistered f s = Registered f s f.waiter_id

  find_waiter-ids :
      (i : ℕ) (ws : List (Waiter W))
      → contains i (ids ws) ≡ true
      → (w : Waiter W) × (find_waiter i ws ≡ some w)
  unfolding find_waiter
  find_waiter-ids i [] h = cc
  find_waiter-ids i (w ∷ ws) h = elim (Bool-cases (w.waiter_id == i)) [
    | inl e ↦ (w, rw e)
    | inr e ↦ rw e (find_waiter-ids i ws (ground arith))
  ]

  shift : (n a b : ℕ) → a + n ≡ b + 0 → (o : Option (State W × List W)) → Adds n a o → Adds 0 b o
  shift n a b e none h = tt
  shift n a b e (some r) h = h ∙ e

  cancel_queued-total :
      (i : ℕ) (s : State W) → IsValid s → Agrees s.queue → Adds 0 (total s) (cancel_queued i s)
  unfolding cancel_queued
  cancel_queued-total i s v g = elim (Option-cases (find_waiter i s.queue)) [
    | inl e ↦ rw (e, cancel_queued) (omega arith)
    | inr (w, e) ↦
        let lost = assigned-remove_waiter i s.queue {w = w} e in
        let s' = record s { queue = remove_waiter i s.queue } in
        rw (e, cancel_queued)
          (if_ind (Adds 0 (total s)) (w.required - w.remaining == 0) (λ z. ground (arith, lost))
            (λ _.
              shift (w.required - w.remaining) (total s') (total s) (omega (arith, lost))
                (add_permits_locked _ s')
                (add_permits_locked-total (w.required - w.remaining) s'
                  (remove_waiter-IsValid i s v) (Agrees-remove_waiter i s.queue g))))
  ]

  cancel_locked-total :
      (f : Acquire) (s : State W) (o : Option ℕ)
      → f.waiter_id ≡ o
      → IsValid s
      → Agrees s.queue
      → Registered f s o
      → Adds 0 (total s) (cancel_locked f s)
  unfolding cancel_locked
  cancel_locked-total f s none e v g reg = rw (e, cancel_locked) (omega arith)
  cancel_locked-total f s (some i) e v g reg =
      rw (e, cancel_locked)
        (elim (Bool-cases (contains i s.ready)) [
          | inl h ↦ rw h (
              shift f.permits _ _ (omega (arith, granted-remove req i s.ready h, reg.0)) _ (
                add_permits_locked-total f.permits (record s { ready = remove i s.ready })
                  (observe-IsValid i s v) g))
          | inr h ↦ rw h (cancel_queued-total i s v g)
        ])

  -- In a valid state, where `req` gives what each waiter asked for, dropping a registered future
  -- keeps the number of permits that are not in the hands of holders, unless the permit count
  -- overflows: what the future was assigned comes back.
  pub drop_acquire-total :
      (f : Acquire) (s : State W)
      → IsValid s
      → Agrees s.queue
      → IsRegistered f s
      → Adds 0 (total s) (drop_acquire f s)
  unfolding drop_acquire
  drop_acquire-total f s v g reg =
      if_ind (Adds 0 (total s)) f.completed (λ _. omega arith)
        (λ _. cancel_locked-total f s f.waiter_id refl v g reg)

  abbrev Hands : Acquire → State W → Poll × Acquire × State W → Type 0
  Hands f s r = taken r.0 f.permits + total r.2 ≡ total s

  poll_first-total : (k : W) (f : Acquire) (s : State W) → IsValid s → Hands f s (poll_first k f s)
  unfolding poll_first
  poll_first-total k f s v =
      if_ind (Hands f s) (is_empty s.queue)
        (λ e. if_ind (Hands f s) (leb f.permits s.permits) (λ h. ground arith) (λ h. ground arith))
        (λ e.
          omega
            (arith, assigned-append s.queue (waiter s.next_waiter_id f.permits f.permits k ∷ [])))

  poll_waiting-total :
      (i : ℕ) (k : W) (f : Acquire) (s : State W)
      → Registered f s (some i)
      → Hands f s (poll_waiting i k f s)
  unfolding poll_waiting
  poll_waiting-total i k f s (here, there) =
      if_ind (Hands f s) (contains i s.ready)
        (λ h. omega (arith, granted-remove req i s.ready h, here)) λ h. queued h there
    where
      found :
          (o : Option (Waiter W))
          → (w : Waiter W) × (o ≡ some w)
          → Hands f s (elim o [
            | some w ↦ (pending, f, record s { queue = set_waker i k s.queue })
            | none ↦ (ready_ok, record f { waiter_id = none; completed = true }, s)
          ])
      found none (w, e) = cc
      found (some w) e = omega (arith, assigned-set_waker i k s.queue)

      queued :
          contains i s.ready ≡ false
          → (contains i s.ready ≡ true) ⊎ (contains i (ids s.queue) ≡ true)
          → Hands f s (elim (find_waiter i s.queue) [
            | some w ↦ (pending, f, record s { queue = set_waker i k s.queue })
            | none ↦ (ready_ok, record f { waiter_id = none; completed = true }, s)
          ])
      queued h (inl h') = cc
      queued h (inr h') = found (find_waiter i s.queue) (find_waiter-ids i s.queue h')

  -- In a valid state, where `req` gives what each waiter asked for, polling a registered future
  -- that is not done neither loses nor makes up permits: those not in the hands of holders shrink
  -- by exactly what was asked for if the poll reports success, and stay as they were otherwise.
  pub poll-total :
      (task : Option ℕ) (k : W) (f : Acquire) (s : State W)
      → f.completed ≡ false
      → IsValid s
      → IsRegistered f s
      → taken (poll task k f s).0 f.permits + total (poll task k f s).2 ≡ total s
  unfolding poll
  poll-total task k f s e v reg = rw (e, poll) (in_task task)
    where
      waits :
          (o : Option ℕ)
          → Registered f s o
          → Hands f s (elim o [ some i ↦ poll_waiting i k f s | none ↦ poll_first k f s ])
      waits none reg' = poll_first-total k f s v
      waits (some i) reg' = poll_waiting-total i k f s reg'

      in_task :
          (o : Option ℕ)
          → Hands f s (elim o [
            | none ↦ (panicked, f, s)
            | some _ ↦
                if s.is_closed
                then (ready_err, f, s)
                else elim f.waiter_id [ some i ↦ poll_waiting i k f s | none ↦ poll_first k f s ]
          ])
      in_task none = omega arith
      in_task (some _) =
          if_ind (Hands f s) s.is_closed (λ _. omega arith) (λ _. waits f.waiter_id reg)
