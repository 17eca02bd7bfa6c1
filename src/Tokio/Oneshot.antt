-- ===== src/Tokio/Oneshot.antt =====
-- des-tokio/src/sync/oneshot.rs: the oneshot channel. A `Waker` is a value of the type `W`, and the
-- operations return the wakers that they wake.
pub mod Delivery
use des_cartes.Prelude.{Bool, true, false, Option, none, some, List, [], ◌∷◌, ◌++◌, if◌then◌else◌}

pub record State (V W : Type 0) : Type 0 where
  pub value : Option V
  pub waker : Option W
  pub sender_alive : Bool
  pub receiver_alive : Bool

-- What a poll of the receiver answers.
pub data Received (V : Type 0) : Type 0 where
  pending recv_error : Received V
  received : V → Received V

abbrev pub to_list {ℓ} : {A : Type ℓ} → Option A → List A
to_list none = []
to_list (some a) = a ∷ []

module _ {V W : Type 0} where
  abbrev pub new : State V W
  new = record { value = none; waker = none; sender_alive = true; receiver_alive = true }

  abbrev pub drop_sender : State V W → List W × State V W
  drop_sender s = (to_list s.waker, record s { waker = none; sender_alive = false })

  -- What `send` leaves before its sender is dropped.
  abbrev pub put : V → State V W → Option V × List W × State V W
  put value s =
      if s.receiver_alive
      then (
        none,
        to_list s.waker,
        record s { value = some value; waker = none; sender_alive = false },
      )
      else (some value, [], s)

  -- The value that comes back, if the receiver is gone. `send` takes the sender, which is dropped.
  abbrev pub send : V → State V W → Option V × List W × State V W
  send value s =
      let (back, woken, s') = put value s in
      let (more, s'') = drop_sender s' in (back, woken ++ more, s'')

  abbrev pub answer : W → Option V → State V W → Received V × State V W
  answer waker (some value) s = (received value, record s { value = none })
  answer waker none s =
      if s.sender_alive then (pending, record s { waker = some waker }) else (recv_error, s)

  abbrev pub poll : W → State V W → Received V × State V W
  poll waker s = answer waker s.value s

  abbrev pub drop_receiver : State V W → State V W
  drop_receiver s = record s { receiver_alive = false; waker = none }
