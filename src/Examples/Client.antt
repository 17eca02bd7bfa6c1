-- ===== src/Examples/Client.antt =====
-- A client with a request that waits, whose first attempt times out: des-components.
use des_cartes.Prelude.{ℕ, ◌≡◌, ◌||◌, lookup, List, [], ◌∷◌, arith}
use des_cartes.Core.Request.{new_attempt}
use des_cartes.Core.Scheduler.{Scheduler, with_seed}
use des_cartes.Components.Retry.{FixedRetry, fixed_retry, new_fixed}
use des_cartes.Components.Retry.Bounds.{fixed_retry_limits}
use des_cartes.Components.Service.{ClientEvent, request_timeout, ServiceEvent, to_client}
use des_cartes.Components.Client.{Client, new, process_event}
use des_cartes.Components.Client.Budget.{WithinBudget, process_event-WithinBudget}
use des_cartes.Components.Client.Watch.{IsWatched, attends, nothing}
use des_cartes.Components.Client.Stays.{waits, is_new, stays, process_event-stays}

abbrev policy : FixedRetry
policy = new_fixed 3 1_000

abbrev waiting_client : Client FixedRetry
waiting_client = record (new 4 policy) {
  requests_sent = 1;
  next_request_id = 2;
  next_attempt_id = 2;
  active_requests = (1, (new_attempt 1 1 1 0 (72 ∷ []), policy)) ∷ [];
}

abbrev idle : Scheduler ServiceEvent ℕ ℕ
unfolding with_seed
idle = with_seed 7

abbrev body : ℕ → List ℕ
body id = id ∷ []

abbrev timeout : ClientEvent
timeout = request_timeout 1 1

waiting_client-WithinBudget : WithinBudget fixed_retry_limits 8 0 waiting_client idle
unfolding with_seed
waiting_client-WithinBudget = record {
  allowed = ((omega arith, omega arith), tt);
  finite = omega arith;
  spent = omega arith;
}

waiting_client-IsWatched :
    IsWatched 8 (λ rid aid. attends rid aid (to_client timeout)) waiting_client idle
unfolding with_seed
waiting_client-IsWatched rid = ground arith

process_event-WithinBudget_example :
    let r = process_event fixed_retry body 8 timeout waiting_client idle in
    WithinBudget fixed_retry_limits 8 0 r.0 r.1
process_event-WithinBudget_example =
    process_event-WithinBudget fixed_retry fixed_retry_limits body 8 timeout waiting_client idle
      (omega arith) waiting_client-WithinBudget

process_event-stays_example :
    let r = process_event fixed_retry body 8 timeout waiting_client idle in
    IsWatched 8 nothing r.0 r.1
    × ((j : ℕ)
        → waits (lookup j r.0.active_requests) ≡ (
            is_new timeout waiting_client j
            || stays fixed_retry timeout j (lookup j waiting_client.active_requests)))
process_event-stays_example =
    process_event-stays fixed_retry body 8 timeout waiting_client idle waiting_client-IsWatched
