-- ===== src/Examples/Mutex.antt =====
-- A mutex that one task holds and another waits for: des-tokio/src/sync/mutex.rs.
use des_cartes.Prelude.{ℕ, ◌+◌, ◌≡◌, none, some}
use des_cartes.Tokio.Mutex.{State, new, poll, drop_guard, fifo_waiter_policy}
use des_cartes.Tokio.Mutex.Guards.{holder, Step, Reach, IsSound, Handed, Reach-Handed}

abbrev held : State ℕ
held = (poll 1 none 10 new).1

abbrev waited_for : State ℕ
waited_for = (poll 2 none 20 held).1

abbrev guards : ℕ
guards = 0 + holder (poll 1 none 10 (new {W = ℕ})).0 + holder (poll 2 none 20 held).0

waited_for-Reach : Reach fifo_waiter_policy waited_for guards
waited_for-Reach =
    Reach.next (Reach.next Reach.start (Step.polls 1 none 10 0)) (Step.polls 2 none 20 _)

Reach-Handed_example :
    IsSound fifo_waiter_policy waited_for guards
    × Handed waited_for (drop_guard fifo_waiter_policy (some 1) none tt 5 waited_for).0
    × (drop_guard fifo_waiter_policy none none tt 5 waited_for ≡ (none, none))
Reach-Handed_example = Reach-Handed fifo_waiter_policy 1 none tt 5 waited_for-Reach
