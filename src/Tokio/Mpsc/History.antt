-- ===== src/Tokio/Mpsc/History.antt =====
-- Every history of a channel: des-tokio/src/sync/mpsc.rs.
use des_cartes.Prelude.{
  ℕ, ◌-◌, ◌≤◌, ◌≡◌, ◌≢◌, refl, sym, ap, ◌∙◌, subst, Option, some, List, [], ◌∷◌, ◌++◌, ◌==◌, if_ind,
  length, arith, append_assoc, append-nil,
}
use des_cartes.Tokio.Mpsc.{
  State, SendFuture, try_send, try_recv, poll_recv, poll_recv_front, poll_send, drop_send,
  drop_sender, drop_receiver, clone_sender, channel, new, wake_one_sender,
}
use des_cartes.Tokio.Mpsc.Wakers.{wake_one-ne_nil}
use des_cartes.Tokio.Mpsc.Order.{
  IsValid, Moves, accepted, sent, taken, received, stays, forget_waiter-Moves, try_send-Moves,
  try_recv-Moves, poll_recv-Moves, poll_send-Moves,
}

module _ {ℓ} {W T : Type ℓ} where
  -- A call on the channel, with the values that it put into the queue and those that it took out.
  pub data Step : State W T → List T → List T → State W T → Type ℓ where
    tried_send : (x : T) (s : State W T) → Step s (accepted x (try_send x s).0) [] (try_send x s).1
    polled_send :
        (waker : W) (f : SendFuture T) (s : State W T)
        → Step s (sent f.value (poll_send waker f s).0) [] (poll_send waker f s).2
    dropped_send : (f : SendFuture T) (s : State W T) → Step s [] [] (drop_send f s)
    cloned_sender : (s : State W T) → Step s [] [] (clone_sender s)
    dropped_sender : (s : State W T) → Step s [] [] (drop_sender s).0
    tried_recv : (s : State W T) → Step s [] (taken (try_recv s).0) (try_recv s).1
    polled_recv :
        (waker : W) (s : State W T)
        → Step s [] (received (poll_recv waker s).0) (poll_recv waker s).1
    dropped_receiver : (s : State W T) → Step s [] [] (drop_receiver s).0

  -- The states that calls lead to from a channel of the capacity, with all the values put and taken.
  pub data Reach (capacity : ℕ) : State W T → List T → List T → Type ℓ where
    start : {s : State W T} → channel capacity ≡ some s → Reach capacity s [] []
    next :
        {s t : State W T} {puts gots put got : List T}
        → Reach capacity s puts gots
        → Step s put got t
        → Reach capacity t (puts ++ put) (gots ++ got)

  channel-IsValid :
      (capacity : ℕ) (s : State W T)
      → channel capacity ≡ some s
      → IsValid s × ([] ≡ s.queue) × (s.capacity ≡ capacity)
  unfolding channel
  channel-IsValid capacity s =
      let P : Option (State W T) → Type ℓ =
        λ o. o ≡ some s → IsValid s × ([] ≡ s.queue) × (s.capacity ≡ capacity) in
      if_ind P (capacity == 0) (λ _ e. cc)
        (λ _ e.
          let made : new capacity ≡ s = cc in
          subst (λ t. IsValid t × ([] ≡ t.queue) × (t.capacity ≡ capacity)) made
            (record { bounded = omega arith; tracked = tt }, refl, refl))

  drop_sender-Moves : (s : State W T) → IsValid s → Moves [] [] s (drop_sender s).0
  unfolding drop_sender
  drop_sender-Moves s v =
      let P : State W T × List W → Type ℓ = λ r. Moves [] [] s r.0 in
      let same : (n : ℕ) (o : Option W)
          → Moves [] [] s (record s { sender_count = n; receiver_waker = o }) =
        λ n o. record {
          valid = record { bounded = v.bounded; tracked = v.tracked };
          queue = append-nil s.queue;
          same = refl;
        } in
      if_ind P (s.sender_count - 1 == 0) (λ _. same _ _) (λ _. same _ _)

  Step-Moves :
      {s t : State W T} {put got : List T} → Step s put got t → IsValid s → Moves put got s t
  unfolding clone_sender drop_receiver drop_send
  Step-Moves (Step.tried_send x s) v = try_send-Moves x s v
  Step-Moves (Step.polled_send waker f s) v = poll_send-Moves waker f s v
  Step-Moves (Step.dropped_send f s) v = forget_waiter-Moves f.waiter_id [] [] s s (stays s v)
  Step-Moves (Step.cloned_sender s) v = record {
    valid = record { bounded = v.bounded; tracked = v.tracked };
    queue = append-nil s.queue;
    same = refl;
  }
  Step-Moves (Step.dropped_sender s) v = drop_sender-Moves s v
  Step-Moves (Step.tried_recv s) v = try_recv-Moves s.queue s refl v
  Step-Moves (Step.polled_recv waker s) v = poll_recv-Moves waker s.queue s refl v
  Step-Moves (Step.dropped_receiver s) v = record {
    valid = record { bounded = v.bounded; tracked = tt };
    queue = append-nil s.queue;
    same = refl;
  }

  abbrev pub Delivers : ℕ → State W T → List T → List T → Type ℓ
  Delivers capacity s puts gots =
      (puts ≡ gots ++ s.queue) × (length s.queue ≤ capacity) × IsValid s × (s.capacity ≡ capacity)

  -- After any calls in any order on a new channel, the values received and then those in the queue
  -- are the values sent, in order; the queue keeps to the capacity, which does not change, and
  -- every blocked sender stands in the order in which senders are woken.
  pub Reach-Delivers :
      (capacity : ℕ) {s : State W T} {puts gots : List T}
      → Reach capacity s puts gots
      → Delivers capacity s puts gots
  Reach-Delivers capacity (start {s} e) =
      let (v, q, c) = channel-IsValid capacity s e in (q, omega (arith, v.bounded, c), v, c)
  Reach-Delivers capacity (next {s} {t} {puts} {gots} {put} {got} r step) =
      let (q, _, v, c) = Reach-Delivers capacity r in
      let m = Step-Moves step v in
      (
        ap (λ xs. xs ++ put) q
            ∙ append_assoc gots s.queue put
            ∙ ap (λ xs. gots ++ xs) m.queue
            ∙ sym (append_assoc gots got t.queue),
        omega (arith, m.valid.bounded, m.same, c),
        m.valid,
        m.same ∙ c,
      )

  -- In a valid state, polling for a value while one is queued and a sender waits wakes somebody.
  pub poll_recv-wakes :
      (waker : W) (s : State W T)
      → IsValid s
      → s.send_waiters ≢ []
      → s.queue ≢ []
      → (poll_recv waker s).2 ≢ []
  unfolding poll_recv_front wake_one_sender
  poll_recv-wakes waker s v waiting full = go s.queue full
    where
      go : (q : List T) → q ≢ [] → (poll_recv_front waker q s).2 ≢ []
      go [] n = absurd (n refl)
      go (x ∷ q) n = wake_one-ne_nil s.send_wait_order s.send_waiters v.tracked waiting
