-- ===== src/Examples/Watch.antt =====
-- A receiver that sleeps until a value is sent: des-tokio/src/sync/watch.rs.
use des_cartes.Prelude.{ℕ, ◌≡◌, refl, false, ◌⊎◌}
use des_cartes.Tokio.Watch.{State, Receiver, channel, poll_changed, send, send_replace, drop_sender}
use des_cartes.Tokio.Watch.Wakes.{Step, Reach, WakesAll, Reach-wakes}

abbrev opened : State ℕ ℕ
opened = (channel 5).1

abbrev receiver : Receiver
receiver = record { id = 0; seen_version = 0 }

abbrev asleep : State ℕ ℕ
asleep = (poll_changed 10 receiver opened).2

asleep-Reach : Reach asleep
asleep-Reach = Reach.next (Reach.start 5) (Step.polls 10 receiver opened refl)

Reach-wakes_example :
    WakesAll asleep (send_replace 6 asleep).1 (send_replace 6 asleep).2
    × ((asleep.sender_alive ≡ false)
        ⊎ (WakesAll asleep (send 6 asleep).1 (send 6 asleep).2
            × WakesAll asleep (drop_sender asleep).0 (drop_sender asleep).1))
Reach-wakes_example = Reach-wakes 6 asleep asleep-Reach
