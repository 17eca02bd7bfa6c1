-- ===== src/Tokio/Notify.antt =====
-- des-tokio/src/sync/notify.rs: `Notify`. A `Waker` is a value of the type `W`, which the operation
-- returns when it wakes it. Permits are a u64.
pub mod Sleepers
use des_cartes.Prelude.{
  ℕ, ◌-◌, Bool, true, false, Option, none, some, List, [], ◌∷◌, ◌++◌, ltb, if◌then◌else◌, length,
  saturating_add,
}

pub record State (W : Type 0) : Type 0 where
  pub permits : ℕ
  pub waiters : List W

module _ {W : Type 0} where
  abbrev pub new : State W
  new = record { permits = 0; waiters = [] }

  -- `pop_front`, with what is left.
  abbrev pub pop_front : List W → Option W × List W
  pop_front [] = (none, [])
  pop_front (w ∷ ws) = (some w, ws)

  abbrev pub notify_one : State W → Option W × State W
  notify_one s =
      let (waker, rest) = pop_front s.waiters in
      (waker, record { permits = saturating_add s.permits 1; waiters = rest })

  abbrev pub notify_waiters : State W → List W × State W
  notify_waiters s =
      (s.waiters, record { permits = saturating_add s.permits (length s.waiters); waiters = [] })

  -- `Notified::poll`: whether it is ready.
  abbrev pub poll : W → State W → Bool × State W
  poll waker s =
      if ltb 0 s.permits
      then (true, record s { permits = s.permits - 1 })
      else (false, record s { waiters = s.waiters ++ waker ∷ [] })
