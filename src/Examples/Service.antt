-- ===== src/Examples/Service.antt =====
-- A server that is busy, with a request in its queue: des-components.
use des_cartes.Prelude.{ℕ, ◌+◌, ◌%◌, ◌^◌, ◌≡◌, some, List, [], ◌∷◌, arith, sum}
use des_cartes.Core.Time.{Duration}
use des_cartes.Core.Request.{RequestAttempt, new_attempt}
use des_cartes.Core.Scheduler.{Scheduler, with_seed}
use des_cartes.Components.Queue.{FifoQueue, fifo}
use des_cartes.Components.Queue.Contents.{fifo-Holds}
use des_cartes.Components.Service.{ServerEvent, request_completed, ServiceEvent, to_server}
use des_cartes.Components.Server.{Server, with_client_id, queue_depth, process_event}
use des_cartes.Components.Server.Threads.{IsSettled, process_event-IsSettled}
use des_cartes.Components.Server.Ledger.{carries, carried, waits, queued, process_event-carried}
use des_cartes.Components.Server.Books.{arrivals, process_event-arrivals}

abbrev request : ℕ → RequestAttempt
request id = new_attempt id id 1 0 (72 ∷ [])

abbrev waiting : FifoQueue
waiting = record {
  items = with_client_id (request 2) 5 3 ∷ [];
  capacity = some 4;
  total_enqueued = 1;
  total_dequeued = 0;
}

abbrev busy_server : Server FifoQueue ℕ
busy_server = record {
  thread_capacity = 1;
  active_threads = 1;
  service_time_distribution = 0;
  queue = some waiting;
  requests_processed = 6;
  requests_rejected = 2;
  requests_queued = 3;
}

-- Each request takes a nanosecond more than the last one.
abbrev slower : ℕ → List ℕ → Duration × ℕ
slower n payload = (n, n + 1)

abbrev idle : Scheduler ServiceEvent ℕ ℕ
unfolding with_seed
idle = with_seed 7

abbrev completion : ServerEvent
completion = request_completed 1 1 3 (72 ∷ [])

busy_server-IsSettled : IsSettled fifo 9 1 0 busy_server idle
unfolding with_seed
busy_server-IsSettled = record {
  in_range = omega arith;
  within = omega arith;
  busy = omega arith;
  attended = λ cap deep. absurd (omega (arith, cap));
}

process_event-IsSettled_example :
    let r = process_event fifo slower 9 completion busy_server idle in IsSettled fifo 9 0 0 r.0 r.1
process_event-IsSettled_example =
    process_event-IsSettled fifo fifo-Holds slower 9 completion busy_server idle
      busy_server-IsSettled

process_event-carried_example :
    let r = process_event fifo slower 9 completion busy_server idle in
    sum (carried 1) r.1.events + queued fifo fifo-Holds (waits 1) r.0.queue
    ≡ carries 1 (to_server completion)
      + sum (carried 1) idle.events
      + queued fifo fifo-Holds (waits 1) busy_server.queue
process_event-carried_example =
    process_event-carried fifo fifo-Holds slower 9 1 completion busy_server idle

process_event-arrivals_example :
    let r = process_event fifo slower 9 completion busy_server idle in
    (r.0.requests_processed + r.0.requests_rejected + queue_depth fifo r.0 + r.0.active_threads)
      % 2 ^ 64
    ≡ (arrivals completion
        + busy_server.requests_processed
        + busy_server.requests_rejected
        + queue_depth fifo busy_server
        + busy_server.active_threads)
      % 2 ^ 64
process_event-arrivals_example =
    process_event-arrivals fifo fifo-Holds slower 9 completion busy_server idle
      busy_server-IsSettled
