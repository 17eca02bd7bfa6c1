-- ===== src/Examples/Sync.antt =====
-- A semaphore with a waiter, and a channel with a value and a blocked sender: des-tokio.
use des_cartes.Prelude.{
  ℕ, ◌+◌, ◌≡◌, ◌≢◌, refl, inr, ◌⊎◌, ◌++◌, true, false, none, some, List, [], ◌∷◌, arith, is_empty,
  OnSome,
}
use des_cartes.Tokio.Semaphore.{State, Acquire, acquire, poll, add_permits, new, wakers}
use des_cartes.Tokio.Semaphore.Invariant as Permits
use des_cartes.Tokio.Semaphore.Reach.{start, next, polls, Reach-IsValid}
use des_cartes.Tokio.Semaphore.Ledger.{total, taken, poll-total}
use des_cartes.Tokio.Semaphore.Service.{add_permits-fifo}
use des_cartes.Tokio.Mpsc as Channel
use des_cartes.Tokio.Mpsc.History as History
use des_cartes.Tokio.Mpsc.History.{Reach-Delivers, poll_recv-wakes, Delivers}
use des_cartes.Tokio.Mpsc.Order as Order

-- One of three permits that the waiter 0 wants is there.
abbrev waiting : State ℕ
waiting = record {
  permits = 0;
  is_closed = false;
  next_waiter_id = 1;
  queue = record { waiter_id = 0; required = 3; remaining = 2; waker = 50 } ∷ [];
  ready = [];
}

abbrev waiting_future : Acquire
waiting_future = record { permits = 3; waiter_id = some 0; completed = false }

waiting-IsValid : Permits.IsValid waiting
waiting-IsValid = record {
  head_of_line = inr refl;
  ordered = (omega arith, omega arith, omega arith, tt);
  apart = (refl, tt);
  issued = tt;
}

abbrev asks : ℕ → ℕ
asks i = 3

Reach-IsValid_example : Permits.IsValid {W = ℕ} (poll (some 7) 50 (acquire 3) (new 1)).2
unfolding new
Reach-IsValid_example = Reach-IsValid 1 (next start (polls (some 7) 50 (acquire 3) (omega arith)))

poll-total_example :
    taken (poll (some 7) 51 waiting_future waiting).0 3
      + total asks (poll (some 7) 51 waiting_future waiting).2
    ≡ total asks waiting
poll-total_example =
    poll-total asks (some 7) 51 waiting_future waiting refl waiting-IsValid (refl, inr refl)

add_permits-fifo_example :
    OnSome
      (λ (r : State ℕ × List ℕ).
        (r.1 ++ wakers r.0.queue ≡ 50 ∷ []) × ((is_empty r.0.queue ≡ true) ⊎ (r.0.permits ≡ 0)))
      (add_permits 4 waiting)
add_permits-fifo_example = add_permits-fifo 4 waiting waiting-IsValid

-- A full channel of the capacity 1 with a blocked sender.
abbrev full_channel : Channel.State ℕ ℕ
full_channel = record {
  capacity = 1;
  queue = 10 ∷ [];
  receiver_alive = true;
  sender_count = 2;
  receiver_waker = none;
  next_waiter_id = 1;
  send_wait_order = 0 ∷ [];
  send_waiters = (0, 60) ∷ [];
}

full_channel-IsValid : Order.IsValid full_channel
full_channel-IsValid = record { bounded = omega arith; tracked = (refl, tt) }

Reach-Delivers_example :
    Delivers {W = ℕ} {T = ℕ} 1
      (Channel.try_send 10 (Channel.new {W = ℕ} 1)).1
      ([] ++ 10 ∷ [])
      ([] ++ [])
unfolding Channel.try_send Channel.channel
Reach-Delivers_example =
    Reach-Delivers 1 (History.next (History.start refl) (History.tried_send 10 (Channel.new 1)))

poll_recv-wakes_example : (Channel.poll_recv 61 full_channel).2 ≢ []
poll_recv-wakes_example = poll_recv-wakes 61 full_channel full_channel-IsValid (λ e. cc) (λ e. cc)
