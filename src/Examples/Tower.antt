-- ===== src/Examples/Tower.antt =====
-- A service that fails behind a circuit breaker, and one call under a limit: des-tower.
use des_cartes.Prelude.{ℕ, ◌+◌, ◌≡◌, refl, true, false, none, some, [], arith, All, is_empty}
use des_cartes.Tower.{done, failed, not_ready, Service}
use des_cartes.Tower.Breaker.{
  BreakerFuture, Shared, shared_poll, half_open, recover, should_allow_request,
}
use des_cartes.Tower.Breaker
use des_cartes.Tower.Breaker.Guarded.{
  Step, Reach, Reach-recovers, failures, after_failures, failures-lem,
}
use des_cartes.Tower.Concurrency.{Limiter, poll_ready}
use des_cartes.Tower.Concurrency
use des_cartes.Tower.Concurrency.Slots
use des_cartes.Tower.Concurrency.Slots.{IsCounted, Reach-IsCounted}

abbrev failing : Service ℕ ℕ ℕ ℕ
failing = record {
  poll_ready = λ s. (done tt, s);
  call = λ req s. (req, s + 1);
  poll = λ f. (failed not_ready, f);
}

abbrev running : BreakerFuture ℕ
running = record { inner = some 7; immediate_error = none }

abbrev once : Shared
once = shared_poll failing 2 running (record { state = Breaker.new; timers = [] })

abbrev twice : Shared
twice = shared_poll failing 2 running once

twice-Reach : Reach failing 2 twice
twice-Reach = Reach.next (Reach.next Reach.start (Step.polls running _)) (Step.polls running once)

Reach-recovers_example :
    (is_empty twice.timers ≡ false) × All (λ g. recover g twice.state ≡ half_open) twice.timers
Reach-recovers_example = Reach-recovers failing 2 twice (omega arith) twice-Reach refl

failures-lem_example : failures failing 2 7 3 ≡ after_failures 2 3
failures-lem_example = failures-lem failing 2 7 not_ready 3 refl (omega arith) (omega arith)

-- One slot, which one service takes; another one waits for it.
abbrev taken : Limiter ℕ
taken = (poll_ready 1 true 10 (done tt) false Concurrency.new).2

abbrev waited_for : Limiter ℕ
waited_for = (poll_ready 1 true 20 (done tt) false taken).2

waited_for-Reach : Slots.Reach 1 failing waited_for 1
waited_for-Reach =
    Slots.Reach.next
      (Slots.Reach.next Slots.Reach.start
        (Slots.Step.polls_ready 10 (done tt) false Concurrency.new 0 (omega arith)))
      (Slots.Step.polls_ready 20 (done tt) false taken 1 (omega arith))

Reach-IsCounted_example : IsCounted 1 waited_for 1
Reach-IsCounted_example = Reach-IsCounted 1 failing waited_for 1 (omega arith) waited_for-Reach
