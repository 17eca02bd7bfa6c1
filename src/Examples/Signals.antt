-- ===== src/Examples/Signals.antt =====
-- A task that waits to be notified, and a value through a oneshot channel: des-tokio/src/sync.
use des_cartes.Prelude.{ℕ, ◌≡◌, refl, false, List, [], ◌∷◌, ◌++◌}
use des_cartes.Tokio.Notify.{State, notify_one, poll}
use des_cartes.Tokio.Notify
use des_cartes.Tokio.Notify.Sleepers.{Step, Reach, Spoken, Reach-NoneMissed}
use des_cartes.Tokio.Oneshot
use des_cartes.Tokio.Oneshot.Delivery.{
  History, after_send, after_poll, IsDelivered, Reach-IsDelivered,
}
use des_cartes.Tokio.Oneshot.Delivery

-- Two tasks sleep, and one of them is woken.
abbrev one_sleeps : State ℕ
one_sleeps = (poll 10 Notify.new).1

abbrev both_sleep : State ℕ
both_sleep = (poll 20 one_sleeps).1

abbrev one_woken : State ℕ
one_woken = (notify_one both_sleep).1

abbrev both : List ℕ
both = 10 ∷ 20 ∷ []

one_woken-Reach : Reach one_woken both (10 ∷ []) 0
one_woken-Reach =
    Reach.next
      (Reach.next (Reach.next Reach.start (Step.polls_first 10 Notify.new [] [] 0))
        (Step.polls_first 20 one_sleeps (10 ∷ []) [] 0))
      (Step.notifies_one both_sleep both [] 0)

Reach-NoneMissed_example :
    (both ≡ 10 ∷ [] ++ one_woken.waiters) × Spoken one_woken.permits both (10 ∷ []) 0
Reach-NoneMissed_example = Reach-NoneMissed one_woken both (10 ∷ []) 0 one_woken-Reach

abbrev opened : History ℕ ℕ
opened = record { state = Oneshot.new; accepted = []; delivered = []; sleeping = false }

abbrev waiting : History ℕ ℕ
waiting = after_poll 10 opened

abbrev sent : History ℕ ℕ
sent = after_send 5 waiting

sent-Reach : Delivery.Reach sent
sent-Reach =
    Delivery.Reach.next
      (Delivery.Reach.next Delivery.Reach.start (Delivery.Step.polls 10 opened refl))
      (Delivery.Step.sends 5 waiting refl)

Reach-IsDelivered_example : IsDelivered sent
Reach-IsDelivered_example = Reach-IsDelivered sent sent-Reach
