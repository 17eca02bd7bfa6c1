-- ===== src/Components/Server.antt =====
-- des-components/src/server.rs: a server with a number of simulated threads and, if it has one, a
-- queue of waiting requests. What it prints and measures is left out. The queue is any
-- implementation of the trait; `sample` is the service-time distribution, applied to the payload of
-- a request. Thread counts are usize, counters u64.
pub mod Threads
pub mod Ledger
pub mod Books
use des_cartes.Prelude.{
  ℕ, zero, suc, ◌+◌, ◌-◌, Bool, true, false, not, ◌&&◌, ◌||◌, Option, none, some, List, [], ◌∷◌,
  ltb, if◌then◌else◌, add_u64,
}
use des_cartes.Core.Time.{Duration, from_duration, from_millis}
use des_cartes.Core.Ids.{Uuid}
use des_cartes.Core.Request.{
  RequestAttempt, RequestAttemptId, RequestId, Response, success_response, error_response,
}
use des_cartes.Core.Scheduler.{Scheduler, schedule, time}
use des_cartes.Components.Queue.{QueueItem, Queue, Enqueued, ok, panicked, err, is_full}
use des_cartes.Components.Service.{
  ServerEvent, process_request, request_completed, process_queued_requests, response_received,
  ServiceEvent, to_server, to_client,
}

pub record Server (Q D : Type 0) : Type 0 where
  pub thread_capacity : ℕ
  pub active_threads : ℕ
  pub service_time_distribution : D
  pub queue : Option Q
  pub requests_processed : ℕ
  pub requests_rejected : ℕ
  pub requests_queued : ℕ

-- "Server overloaded".
abbrev pub overloaded : List ℕ
overloaded =
    83 ∷ 101 ∷ 114 ∷ 118 ∷ 101 ∷ 114 ∷ 32 ∷ 111 ∷ 118 ∷ 101 ∷ 114 ∷ 108 ∷ 111 ∷ 97 ∷ 100 ∷ 101 ∷ 100
    ∷ []

abbrev pub one_millisecond : Duration
one_millisecond = 1_000_000

-- `Uuid::nil()`.
abbrev pub nil_uuid : Uuid
nil_uuid = 0

-- The client that waits for an item; an item without one is answered to nobody.
abbrev pub waiting_client : Option Uuid → Uuid
waiting_client none = nil_uuid
waiting_client (some client_id) = client_id

-- `QueueItem::with_client_id`.
abbrev pub with_client_id : RequestAttempt → ℕ → Uuid → QueueItem
with_client_id attempt enqueued_at client_id = record {
  attempt = attempt;
  enqueued_at = enqueued_at;
  priority = 0;
  client_id = some client_id;
}

module _ {Q : Type 0} (impl : Queue Q) where
  abbrev pub depth : Option Q → ℕ
  depth none = 0
  depth (some q) = impl.len q

  abbrev has_space : Option Q → Bool
  has_space none = false
  has_space (some q) = not (is_full (impl.capacity q) (impl.len q))

  abbrev pub dequeue_from : Option Q → Option QueueItem × Option Q
  dequeue_from none = (none, none)
  dequeue_from (some q) = let (item, q') = impl.dequeue q in (item, some q')

module _ {Q D : Type 0} where
  abbrev pub new : ℕ → D → Server Q D
  new thread_capacity distribution = record {
    thread_capacity = thread_capacity;
    active_threads = 0;
    service_time_distribution = distribution;
    queue = none;
    requests_processed = 0;
    requests_rejected = 0;
    requests_queued = 0;
  }

  abbrev pub with_queue : Q → Server Q D → Server Q D
  with_queue queue server = record server { queue = some queue }

  abbrev pub has_capacity : Server Q D → Bool
  has_capacity server = ltb server.active_threads server.thread_capacity

  module _ {T R : Type 0} where
    unfoldable pub reject_request :
        RequestAttempt
        → Uuid
        → Server Q D
        → Scheduler ServiceEvent T R
        → Server Q D × Scheduler ServiceEvent T R
    unfolding schedule time
    reject_request attempt client_id server s =
        let response = error_response attempt.id attempt.request_id (time s) 503 overloaded in
        (
          record server { requests_rejected = add_u64 server.requests_rejected 1 },
          schedule (from_duration one_millisecond) client_id
              (to_client (response_received response)) s,
        )

  module _ (impl : Queue Q) where
    abbrev pub queue_depth : Server Q D → ℕ
    queue_depth server = depth impl server.queue

    abbrev pub can_accept_request : Server Q D → Bool
    can_accept_request server = has_capacity server || has_space impl server.queue

    module _ {T R : Type 0} where
      -- The `match` on what the queue answers. A queue that panics leaves the request with nobody.
      abbrev pub after_enqueue :
          RequestAttempt
          → Uuid
          → Enqueued
          → Server Q D
          → Scheduler ServiceEvent T R
          → Server Q D × Scheduler ServiceEvent T R
      after_enqueue attempt client_id ok server s =
          (record server { requests_queued = add_u64 server.requests_queued 1 }, s)
      after_enqueue attempt client_id (err error) server s =
          reject_request attempt client_id server s
      after_enqueue attempt client_id panicked server s = (server, s)

      -- The branches of a request that finds no free thread.
      abbrev pub queue_or_reject :
          RequestAttempt
          → Uuid
          → Option Q
          → Server Q D
          → Scheduler ServiceEvent T R
          → Server Q D × Scheduler ServiceEvent T R
      queue_or_reject attempt client_id none server s = reject_request attempt client_id server s
      queue_or_reject attempt client_id (some q) server s =
          let (answer, q') = impl.enqueue (with_client_id attempt (time s) client_id) q in
          after_enqueue attempt client_id answer (record server { queue = some q' }) s

    module _ {T R : Type 0} (sample : D → List ℕ → Duration × D) where
      unfoldable pub start_processing_request :
          RequestAttempt
          → Uuid
          → Uuid
          → Server Q D
          → Scheduler ServiceEvent T R
          → Server Q D × Scheduler ServiceEvent T R
      unfolding schedule
      start_processing_request attempt client_id self_id server s =
          let (service_time, distribution) =
            sample server.service_time_distribution attempt.payload in
          (
            record server {
              active_threads = add_u64 server.active_threads 1;
              service_time_distribution = distribution;
            },
            schedule (from_duration service_time) self_id
                (to_server
                  (request_completed attempt.id attempt.request_id client_id attempt.payload))
                s,
          )

      unfoldable pub handle_request :
          RequestAttempt
          → Uuid
          → Uuid
          → Server Q D
          → Scheduler ServiceEvent T R
          → Server Q D × Scheduler ServiceEvent T R
      unfolding start_processing_request
      handle_request attempt client_id self_id server s = elim (has_capacity server) [
        | true ↦ start_processing_request attempt client_id self_id server s
        | false ↦ queue_or_reject attempt client_id server.queue server s
      ]

      unfoldable pub complete_request :
          RequestAttemptId
          → RequestId
          → Uuid
          → List ℕ
          → Uuid
          → Server Q D
          → Scheduler ServiceEvent T R
          → Server Q D × Scheduler ServiceEvent T R
      unfolding schedule time
      complete_request attempt_id request_id client_id request_payload self_id server s =
          let server' = record server {
            active_threads = server.active_threads - 1;
            requests_processed = add_u64 server.requests_processed 1;
          } in
          let response = success_response attempt_id request_id (time s) request_payload in
          let s' =
            schedule (from_duration one_millisecond) client_id
              (to_client (response_received response)) s in
          (
            server',
            if has_capacity server' && ltb 0 (queue_depth server')
                then schedule (from_duration 0) self_id (to_server process_queued_requests) s'
                else s',
          )

      -- The loop of `process_queued_requests`. Each turn takes a thread, so that the fuel is the
      -- number of free threads.
      unfoldable pub start_queued :
          ℕ
          → Uuid
          → Server Q D
          → Scheduler ServiceEvent T R
          → Server Q D × Scheduler ServiceEvent T R
      unfolding start_processing_request
      start_queued zero self_id server s = (server, s)
      start_queued (suc fuel) self_id server s = elim (has_capacity server) [
        | false ↦ (server, s)
        | true ↦
            let (found, queue) = dequeue_from impl server.queue in
            let server' = record server { queue = queue } in
            elim found [
              | none ↦ (server', s)
              | some item ↦
                  let (server'', s') =
                    start_processing_request item.attempt (waiting_client item.client_id) self_id
                      server' s in
                  start_queued fuel self_id server'' s'
            ]
      ]

      unfoldable pub process_queued :
          Uuid → Server Q D → Scheduler ServiceEvent T R → Server Q D × Scheduler ServiceEvent T R
      unfolding start_queued
      process_queued self_id server s =
          start_queued (server.thread_capacity - server.active_threads) self_id server s

      unfoldable pub process_event :
          Uuid
          → ServerEvent
          → Server Q D
          → Scheduler ServiceEvent T R
          → Server Q D × Scheduler ServiceEvent T R
      unfolding handle_request complete_request process_queued
      process_event self_id (process_request attempt client_id) server s =
          handle_request attempt client_id self_id server s
      process_event self_id (request_completed attempt_id request_id client_id payload) server s =
          complete_request attempt_id request_id client_id payload self_id server s
      process_event self_id process_queued_requests server s = process_queued self_id server s
