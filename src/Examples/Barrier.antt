-- ===== src/Examples/Barrier.antt =====
-- A barrier for two: des-tokio/src/sync/barrier.rs.
use des_cartes.Prelude.{ℕ, ◌+◌, ◌≡◌, refl, true, some, List, [], ◌∷◌, arith}
use des_cartes.Tokio.Barrier.{Barrier, Wait, WaitPoll, ready, new, wait, poll}
use des_cartes.Tokio.Barrier.Present.{leads}
use des_cartes.Tokio.Barrier.Soundness.{IsSound}
use des_cartes.Tokio.Barrier.Generations.{Step, Reach, Reach-IsSound, Released, poll-Released}

abbrev for_two : Barrier ℕ
for_two = record { parties = 2; arrived = 0; generation = 0; waiters = [] }

abbrev both : List Wait
both = wait for_two ∷ wait for_two ∷ []

-- The first of both was polled by the task 1 with the waker 10.
abbrev first_poll : WaitPoll × Wait × Barrier ℕ × List ℕ
first_poll = poll 1 10 (wait for_two) for_two

abbrev second_poll : WaitPoll × Wait × Barrier ℕ × List ℕ
second_poll = poll 2 20 (wait for_two) first_poll.2

for_two-new : new 2 ≡ some for_two
unfolding new
for_two-new = refl

one_waits : Reach 2 first_poll.2 (first_poll.1 ∷ wait for_two ∷ []) (0 + 0 + 0 + leads first_poll.0)
one_waits =
    Reach.next
      (Reach.next (Reach.next (Reach.start for_two-new) (Step.waits for_two []))
        (Step.waits for_two (wait for_two ∷ [])))
      (Step.polls 1 10 for_two [] (wait for_two) (wait for_two ∷ []) (omega arith))

first_poll-generation : first_poll.2.generation ≡ 0
unfolding poll
first_poll-generation = refl

second_poll-ready : second_poll.0 ≡ ready true
unfolding poll
second_poll-ready = refl

both_passed :
    Reach 2 second_poll.2
      (first_poll.1 ∷ second_poll.1 ∷ [])
      (0 + 0 + 0 + leads first_poll.0 + leads second_poll.0)
both_passed = Reach.next one_waits (
    Step.polls 2 20 first_poll.2 (first_poll.1 ∷ []) (wait for_two) []
      (omega (arith, first_poll-generation)))

Reach-IsSound_example :
    IsSound second_poll.2
      (first_poll.1 ∷ second_poll.1 ∷ [])
      (0 + 0 + 0 + leads first_poll.0 + leads second_poll.0)
Reach-IsSound_example = Reach-IsSound 2 both_passed

poll-Released_example : Released (first_poll.1 ∷ []) first_poll.2 1 11 second_poll
poll-Released_example =
    poll-Released 2 20 first_poll.2 (first_poll.1 ∷ []) (wait for_two) []
      (0 + 0 + 0 + leads first_poll.0) 1 11 (Reach-IsSound 2 one_waits)
      (omega (arith, first_poll-generation)) second_poll-ready
