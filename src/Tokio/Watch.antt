-- ===== src/Tokio/Watch.antt =====
-- des-tokio/src/sync/watch.rs: the watch channel. A `Waker` is a value of the type `W`; the operations
-- return the wakers that they wake. Versions and ids are u64.
pub mod Wakers
pub mod Loop
pub mod Wakes
use des_cartes.Prelude.{
  ℕ, Bool, true, false, not, Option, none, some, List, [], ◌∷◌, ◌++◌, ◌==◌, if◌then◌else◌, lookup,
  insert_key, remove_key, remove, add_u64, saturating_add,
}

pub record State (V W : Type 0) : Type 0 where
  pub sender_alive : Bool
  pub version : ℕ
  pub value : V
  pub next_receiver_id : ℕ
  pub receiver_alive : List (ℕ × Bool)
  pub receiver_wakers : List (ℕ × W)
  pub receiver_order : List ℕ

pub record Receiver : Type 0 where
  pub id : ℕ
  pub seen_version : ℕ

-- What `changed` and `has_changed` answer.
pub data Change : Type 0 where
  pending changed unchanged recv_error : Change

abbrev pub is_true : Option Bool → Bool
is_true none = false
is_true (some b) = b

module _ {W : Type 0} where
  abbrev pub wake_id : Option W → (List W × List (ℕ × W)) → List W × List (ℕ × W)
  wake_id none r = r
  wake_id (some w) r = (w ∷ r.0, r.1)

  -- The loop of `wake_all` over the receivers in the order of their creation.
  abbrev pub wake_ids : List ℕ → List (ℕ × Bool) → List (ℕ × W) → List W × List (ℕ × W)
  wake_ids [] alive wakers = ([], wakers)
  wake_ids (id ∷ ids) alive wakers =
      let skipped = wake_ids ids alive wakers in
      let woken = wake_ids ids alive (remove_key id wakers) in
      if is_true (lookup id alive) then wake_id (lookup id wakers) woken else skipped

module _ {V W : Type 0} where
  abbrev pub wake_all : State V W → List W × State V W
  wake_all s =
      let (woken, wakers) = wake_ids s.receiver_order s.receiver_alive s.receiver_wakers in
      (woken, record s { receiver_wakers = wakers })

  abbrev pub remove_receiver : ℕ → State V W → State V W
  remove_receiver id s = record s {
    receiver_alive = remove_key id s.receiver_alive;
    receiver_wakers = remove_key id s.receiver_wakers;
    receiver_order = remove id s.receiver_order;
  }

  abbrev pub add_receiver : State V W → ℕ × State V W
  add_receiver s = (
    s.next_receiver_id,
    record s {
      next_receiver_id = add_u64 s.next_receiver_id 1;
      receiver_alive = insert_key s.next_receiver_id true s.receiver_alive;
      receiver_order = s.receiver_order ++ s.next_receiver_id ∷ [];
    },
  )

  -- `subscribe` and the clone of a receiver.
  abbrev pub subscribe : State V W → Receiver × State V W
  subscribe s = let (id, s') = add_receiver s in (record { id = id; seen_version = s.version }, s')

  abbrev pub new : V → State V W
  new value = record {
    sender_alive = true;
    version = 0;
    value = value;
    next_receiver_id = 0;
    receiver_alive = [];
    receiver_wakers = [];
    receiver_order = [];
  }

  abbrev pub channel : V → Receiver × State V W
  channel value = subscribe (new value)

  abbrev pub publish : V → State V W → List W × State V W
  publish value s = wake_all (record s { value = value; version = saturating_add s.version 1 })

  -- The value that comes back, if the sender was marked as gone.
  abbrev pub send : V → State V W → Option V × List W × State V W
  send value s =
      let (woken, s') = publish value s in
      if s.sender_alive then (none, woken, s') else (some value, [], s)

  abbrev pub send_replace : V → State V W → V × List W × State V W
  send_replace value s = let (woken, s') = publish value s in (s.value, woken, s')

  abbrev pub send_if_modified : (V → Bool × V) → State V W → Bool × List W × State V W
  send_if_modified modify s =
      let (modified, value) = modify s.value in
      let (woken, s') = publish value s in if modified then (true, woken, s') else (false, [], s)

  abbrev pub drop_sender : State V W → List W × State V W
  drop_sender s =
      let (woken, s') = wake_all (record s { sender_alive = false }) in
      if s.sender_alive then (woken, s') else ([], s)

  abbrev pub borrow_and_update : Receiver → State V W → V × Receiver
  borrow_and_update r s = (s.value, record r { seen_version = s.version })

  abbrev pub has_changed : Receiver → State V W → Change
  has_changed r s =
      if s.version == r.seen_version
      then (if s.sender_alive then unchanged else recv_error)
      else changed

  abbrev pub poll_changed : W → Receiver → State V W → Change × Receiver × State V W
  poll_changed waker r s =
      if s.version == r.seen_version
      then (if s.sender_alive
          then (pending, r, record s { receiver_wakers = insert_key r.id waker s.receiver_wakers })
          else (recv_error, r, s))
      else (changed, record r { seen_version = s.version }, s)
