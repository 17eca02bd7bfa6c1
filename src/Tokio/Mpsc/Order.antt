-- ===== src/Tokio/Mpsc/Order.antt =====
-- The channel delivers what was sent, in order, within its capacity: des-tokio/src/sync/mpsc.rs.
use des_cartes.Prelude.{
  remove_key-All, ℕ, ◌≤◌, ◌≡◌, refl, sym, ap, subst, false, Option, none, some, List, [], ◌∷◌, ◌++◌,
  ◌==◌, if_ind, length, arith, length-append, append-nil,
}
use des_cartes.Tokio.Mpsc.{
  State, SendFuture, SendPoll, TrySend, TryRecv, RecvPoll, wake_one_sender, try_send,
  try_recv_front, poll_recv_front, enqueue, refuse, forget_waiter, poll_send, register, is_full,
  push_back,
}
use des_cartes.Tokio.Mpsc.Wakers.{Tracked, wake_one-Tracked, register-Tracked}

-- What a call accepts for the queue, and what it takes from it.
abbrev pub accepted {ℓ} : {T : Type ℓ} → T → TrySend → List T
accepted v TrySend.ok = v ∷ []
accepted v (TrySend.err e) = []

abbrev pub sent {ℓ} : {T : Type ℓ} → Option T → SendPoll T → List T
sent (some v) SendPoll.ready_ok = v ∷ []
sent _ _ = []

abbrev pub taken {ℓ} : {T : Type ℓ} → TryRecv T → List T
taken (TryRecv.ok v) = v ∷ []
taken (TryRecv.err e) = []

abbrev pub received {ℓ} : {T : Type ℓ} → RecvPoll T → List T
received (RecvPoll.ready (some v)) = v ∷ []
received (RecvPoll.ready none) = []
received RecvPoll.pending = []

sent-pending {ℓ} : {T : Type ℓ} (value : Option T) → sent value SendPoll.pending ≡ []
sent-pending none = refl
sent-pending (some x) = refl

module _ {ℓ} {W T : Type ℓ} where
  pub record IsValid (s : State W T) : Type 0 where
    pub bounded : length s.queue ≤ s.capacity
    pub tracked : Tracked s.send_wait_order s.send_waiters

  -- A valid state after which the queue holds what it held and `put`, less `got` from its front.
  pub record Moves (put got : List T) (s t : State W T) : Type ℓ where
    pub valid : IsValid t
    pub queue : s.queue ++ put ≡ got ++ t.queue
    pub same : t.capacity ≡ s.capacity

  pub stays : (s : State W T) → IsValid s → Moves [] [] s s
  stays s v = record { valid = v; queue = append-nil s.queue; same = refl }

  push_back-Moves :
      (x : T) (s : State W T)
      → is_full s ≡ false
      → IsValid s
      → Moves (x ∷ []) [] s (push_back x s).0
  push_back-Moves x s room v = record {
    valid = record {
      bounded = ground (arith, room, length-append s.queue (x ∷ []));
      tracked = v.tracked;
    };
    queue = refl;
    same = refl;
  }

  pub try_send-Moves :
      (x : T) (s : State W T)
      → IsValid s
      → Moves (accepted x (try_send x s).0) [] s (try_send x s).1
  unfolding try_send
  try_send-Moves x s v =
      let P : TrySend × State W T × List W → Type ℓ = λ r. Moves (accepted x r.0) [] s r.1 in
      if_ind P s.receiver_alive
        (λ _. if_ind P (is_full s) (λ _. stays s v) (λ room. push_back-Moves x s room v))
        (λ _. stays s v)

  pop_front-Moves :
      (x : T) (rest : List T) (s : State W T)
      → s.queue ≡ x ∷ rest
      → IsValid s
      → Moves [] (x ∷ []) s (wake_one_sender (record s { queue = rest })).0
  unfolding wake_one_sender
  pop_front-Moves x rest s e v = record {
    valid = record {
      bounded = omega (arith, v.bounded, ap length e);
      tracked = wake_one-Tracked s.send_wait_order s.send_waiters v.tracked;
    };
    queue = rw (e) (append-nil _);
    same = refl;
  }

  pub try_recv-Moves :
      (q : List T) (s : State W T)
      → s.queue ≡ q
      → IsValid s
      → Moves [] (taken (try_recv_front q s).0) s (try_recv_front q s).1
  unfolding try_recv_front
  try_recv-Moves (x ∷ rest) s e v = pop_front-Moves x rest s e v
  try_recv-Moves [] s e v =
      let P : TryRecv T × State W T × List W → Type ℓ = λ r. Moves [] (taken r.0) s r.1 in
      if_ind P (s.sender_count == 0) (λ _. stays s v) (λ _. stays s v)

  pub poll_recv-Moves :
      (waker : W) (q : List T) (s : State W T)
      → s.queue ≡ q
      → IsValid s
      → Moves [] (received (poll_recv_front waker q s).0) s (poll_recv_front waker q s).1
  unfolding poll_recv_front
  poll_recv-Moves waker (x ∷ rest) s e v = pop_front-Moves x rest s e v
  poll_recv-Moves waker [] s e v =
      let P : RecvPoll T × State W T × List W → Type ℓ = λ r. Moves [] (received r.0) s r.1 in
      if_ind P (s.sender_count == 0) (λ _. stays s v)
        (λ _. record {
          valid = record { bounded = v.bounded; tracked = v.tracked };
          queue = append-nil s.queue;
          same = refl;
        })

  pub forget_waiter-Moves :
      (id : Option ℕ) (put got : List T) (s t : State W T)
      → Moves put got s t
      → Moves put got s (forget_waiter id t)
  forget_waiter-Moves none put got s t m = m
  forget_waiter-Moves (some id) put got s t m = record {
    valid = record {
      bounded = m.valid.bounded;
      tracked = remove_key-All id t.send_waiters (λ _ h _. h) m.valid.tracked;
    };
    queue = m.queue;
    same = m.same;
  }

  register-Moves :
      (waker : W) (value : Option T) (id : Option ℕ) (s : State W T)
      → IsValid s
      → Moves [] [] s (register waker value id s).1
  unfolding register
  register-Moves waker value none s v = record {
    valid = record {
      bounded = v.bounded;
      tracked = register-Tracked s.next_waiter_id waker s.send_wait_order s.send_waiters v.tracked;
    };
    queue = append-nil s.queue;
    same = refl;
  }
  register-Moves waker value (some id) s v = record {
    valid = record {
      bounded = v.bounded;
      tracked = register-Tracked id waker s.send_wait_order s.send_waiters v.tracked;
    };
    queue = append-nil s.queue;
    same = refl;
  }

  enqueue-Moves :
      (value : Option T) (id : Option ℕ) (s : State W T)
      → is_full s ≡ false
      → IsValid s
      → Moves (sent value (enqueue value id s).0) [] s (enqueue value id s).2
  unfolding enqueue
  enqueue-Moves none id s room v = stays s v
  enqueue-Moves (some x) id s room v =
      forget_waiter-Moves id (x ∷ []) [] s (push_back x s).0 (push_back-Moves x s room v)

  refuse-Moves :
      (value : Option T) (id : Option ℕ) (s : State W T)
      → IsValid s
      → Moves (sent value (refuse value id s).0) [] s (refuse value id s).2
  unfolding refuse
  refuse-Moves none id s v = stays s v
  refuse-Moves (some x) id s v = stays s v

  pub poll_send-Moves :
      (waker : W) (f : SendFuture T) (s : State W T)
      → IsValid s
      → Moves (sent f.value (poll_send waker f s).0) [] s (poll_send waker f s).2
  unfolding poll_send
  poll_send-Moves waker f s v =
      let P : SendPoll T × SendFuture T × State W T × List W → Type ℓ =
        λ r. Moves (sent f.value r.0) [] s r.2 in
      if_ind P s.receiver_alive
        (λ _.
          if_ind P (is_full s)
            (λ _.
              subst (λ put. Moves put [] s (register waker f.value f.waiter_id s).1)
                (sym (sent-pending f.value)) (register-Moves waker f.value f.waiter_id s v))
            (λ room. enqueue-Moves f.value f.waiter_id s room v))
        (λ _. refuse-Moves f.value f.waiter_id s v)
