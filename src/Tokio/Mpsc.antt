-- ===== src/Tokio/Mpsc.antt =====
-- des-tokio/src/sync/mpsc.rs: the bounded channel. A `Waker` is a value of the type `W`; an operation
-- returns the wakers that it wakes, in order. The std mutex around the state serialises the calls,
-- and no other task runs between the regions of one `poll`.
pub mod Order
pub mod Wakers
pub mod History
use des_cartes.Prelude.{
  ℕ, zero, suc, ◌+◌, ◌-◌, Bool, true, false, not, Option, none, some, List, [], ◌∷◌, ◌++◌, leb,
  ◌==◌, if◌then◌else◌, length, lookup, insert_key, remove_key, add_u64,
}

pub data TrySendError : Type 0 where
  full closed : TrySendError

pub data TryRecvError : Type 0 where
  empty closed : TryRecvError

pub data TrySend : Type 0 where
  ok : TrySend
  err : TrySendError → TrySend

pub data TryRecv {ℓ} (T : Type ℓ) : Type ℓ where
  ok : T → TryRecv T
  err : TryRecvError → TryRecv T

-- `panicked` is the failed `expect` on a future that is polled after its completion.
pub data SendPoll {ℓ} (T : Type ℓ) : Type ℓ where
  ready_ok : SendPoll T
  ready_err : T → SendPoll T
  pending : SendPoll T
  panicked : SendPoll T

pub data RecvPoll {ℓ} (T : Type ℓ) : Type ℓ where
  ready : Option T → RecvPoll T
  pending : RecvPoll T

pub record State {ℓ} (W T : Type ℓ) : Type ℓ where
  pub capacity : ℕ
  pub queue : List T
  pub receiver_alive : Bool
  pub sender_count : ℕ
  pub receiver_waker : Option W
  pub next_waiter_id : ℕ
  pub send_wait_order : List ℕ
  pub send_waiters : List (ℕ × W)

pub record SendFuture {ℓ} (T : Type ℓ) : Type ℓ where
  pub value : Option T
  pub waiter_id : Option ℕ

module _ {ℓ} {W : Type ℓ} where
  abbrev pub option_list : Option W → List W
  option_list none = []
  option_list (some w) = w ∷ []

  -- The loop of `wake_one_sender`: the order and the map that are left, and the waker.
  unfoldable pub wake_one : List ℕ → List (ℕ × W) → List ℕ × List (ℕ × W) × List W
  wake_one [] waiters = ([], waiters, [])
  wake_one (id ∷ order) waiters = elim (lookup id waiters) [
    | some w ↦ (order, remove_key id waiters, w ∷ [])
    | none ↦ wake_one order waiters
  ]

  -- The loops of `wake_all_senders`: by the order, then what is left in the map.
  unfoldable pub wake_all : List ℕ → List (ℕ × W) → List W
  wake_all [] [] = []
  wake_all [] ((id, w) ∷ waiters) = w ∷ wake_all [] waiters
  wake_all (id ∷ order) waiters = elim (lookup id waiters) [
    | some w ↦ w ∷ wake_all order (remove_key id waiters)
    | none ↦ wake_all order waiters
  ]

module _ {ℓ} {W T : Type ℓ} where
  -- `State::new`.
  abbrev pub new : ℕ → State W T
  new capacity = record {
    capacity = capacity;
    queue = [];
    receiver_alive = true;
    sender_count = 1;
    receiver_waker = none;
    next_waiter_id = 0;
    send_wait_order = [];
    send_waiters = [];
  }

  -- `none` is the failed assertion on the capacity.
  unfoldable pub channel : ℕ → Option (State W T)
  channel capacity = if capacity == 0 then none else some (new capacity)

  abbrev pub wake_receiver : State W T → State W T × List W
  wake_receiver s = (record s { receiver_waker = none }, option_list s.receiver_waker)

  unfoldable pub wake_one_sender : State W T → State W T × List W
  unfolding wake_one
  wake_one_sender s =
      let (order, waiters, woken) = wake_one s.send_wait_order s.send_waiters in
      (record s { send_wait_order = order; send_waiters = waiters }, woken)

  abbrev pub push_back : T → State W T → State W T × List W
  push_back value s = wake_receiver (record s { queue = s.queue ++ value ∷ [] })

  abbrev pub answer {κ} : {R : Type κ} → R → State W T × List W → R × State W T × List W
  answer r p = (r, p.0, p.1)

  abbrev pub is_full : State W T → Bool
  is_full s = leb s.capacity (length s.queue)

  unfoldable pub try_send : T → State W T → TrySend × State W T × List W
  try_send value s =
      if s.receiver_alive
      then (if is_full s then (err full, s, []) else answer TrySend.ok (push_back value s))
      else (err TrySendError.closed, s, [])

  -- `Clone for Sender` and `Drop for Sender`.
  unfoldable pub clone_sender : State W T → State W T
  clone_sender s = record s { sender_count = s.sender_count + 1 }

  unfoldable pub drop_sender : State W T → State W T × List W
  drop_sender s =
      let s' = record s { sender_count = s.sender_count - 1 } in
      if s.sender_count - 1 == 0 then wake_receiver s' else (s', [])

  -- `Drop for Receiver`.
  unfoldable pub drop_receiver : State W T → State W T × List W
  unfolding wake_all
  drop_receiver s = (
    record s {
      receiver_alive = false;
      receiver_waker = none;
      send_wait_order = [];
      send_waiters = [];
    },
    wake_all s.send_wait_order s.send_waiters,
  )

  unfoldable pub try_recv_front : List T → State W T → TryRecv T × State W T × List W
  unfolding wake_one_sender
  try_recv_front (v ∷ rest) s = answer (TryRecv.ok v) (wake_one_sender (record s { queue = rest }))
  try_recv_front [] s =
      if s.sender_count == 0 then (TryRecv.err closed, s, []) else (TryRecv.err empty, s, [])

  abbrev pub try_recv : State W T → TryRecv T × State W T × List W
  try_recv s = try_recv_front s.queue s

  unfoldable pub poll_recv_front : W → List T → State W T → RecvPoll T × State W T × List W
  unfolding wake_one_sender
  poll_recv_front waker (v ∷ rest) s =
      answer (ready (some v)) (wake_one_sender (record s { queue = rest }))
  poll_recv_front waker [] s =
      if s.sender_count == 0
      then (ready none, s, [])
      else (RecvPoll.pending, record s { receiver_waker = some waker }, [])

  -- `RecvFuture::poll`, and `poll_next` of the stream.
  abbrev pub poll_recv : W → State W T → RecvPoll T × State W T × List W
  poll_recv waker s = poll_recv_front waker s.queue s

  abbrev add_waiter : ℕ → W → State W T → State W T
  add_waiter id waker s = record s {
    send_wait_order = s.send_wait_order ++ id ∷ [];
    send_waiters = insert_key id waker s.send_waiters;
  }

  -- A full queue: the future waits, under a new id or again under its own one.
  unfoldable pub register : W → Option T → Option ℕ → State W T → SendFuture T × State W T
  register waker value none s =
      let id = s.next_waiter_id in
      (
        record { value = value; waiter_id = some id },
        add_waiter id waker (record s { next_waiter_id = add_u64 id 1 }),
      )
  register waker value (some id) s =
      (record { value = value; waiter_id = some id }, add_waiter id waker s)

  abbrev pub forget_waiter : Option ℕ → State W T → State W T
  forget_waiter none s = s
  forget_waiter (some id) s = record s { send_waiters = remove_key id s.send_waiters }

  -- There is room: the value joins the queue.
  unfoldable pub enqueue :
      Option T → Option ℕ → State W T → SendPoll T × SendFuture T × State W T × List W
  enqueue none id s = (panicked, record { value = none; waiter_id = id }, s, [])
  enqueue (some v) id s = (
    ready_ok,
    record { value = none; waiter_id = none },
    forget_waiter id (push_back v s).0,
    (push_back v s).1,
  )

  unfoldable pub refuse :
      Option T → Option ℕ → State W T → SendPoll T × SendFuture T × State W T × List W
  refuse none id s = (panicked, record { value = none; waiter_id = id }, s, [])
  refuse (some v) id s = (ready_err v, record { value = none; waiter_id = id }, s, [])

  -- `SendFuture::poll`.
  unfoldable pub poll_send :
      W → SendFuture T → State W T → SendPoll T × SendFuture T × State W T × List W
  unfolding register enqueue refuse
  poll_send waker f s =
      if s.receiver_alive
      then (if is_full s
          then (
            SendPoll.pending,
            (register waker f.value f.waiter_id s).0,
            (register waker f.value f.waiter_id s).1,
            [],
          )
          else enqueue f.value f.waiter_id s)
      else refuse f.value f.waiter_id s

  -- `Drop for SendFuture`.
  unfoldable pub drop_send : SendFuture T → State W T → State W T
  drop_send f s = forget_waiter f.waiter_id s
