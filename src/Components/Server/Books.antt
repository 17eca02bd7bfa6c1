-- ===== src/Components/Server/Books.antt =====
-- The books of a server (des-components/src/server.rs): how many requests are in its hands.
use des_cartes.Prelude.{
  ℕ, ◌+◌, ◌-◌, ◌%◌, ◌^◌, ◌≡◌, ◌≢◌, refl, Option, none, some, List, sum, arith, Bool-cases, inl, inr,
}
use des_cartes.Core.Time.{Duration}
use des_cartes.Core.Ids.{Uuid}
use des_cartes.Core.Request.{RequestAttempt}
use des_cartes.Core.Scheduler.{Scheduler, schedule, time}
use des_cartes.Components.Queue.{Queue, Enqueued, ok, panicked, err}
use des_cartes.Components.Queue.Contents.{Holds, gain}
use des_cartes.Components.Service.{
  ServerEvent, process_request, request_completed, process_queued_requests, ServiceEvent, to_server,
  addressed,
}
use des_cartes.Components.Server.{
  Server, has_capacity, depth, queue_depth, after_enqueue, queue_or_reject, with_client_id,
  start_processing_request, reject_request, handle_request, complete_request, start_queued,
  process_queued, process_event,
}
use des_cartes.Components.Server.Threads.{completes, wakes, IsSettled, process_event-IsSettled}
use des_cartes.Components.Server.Ledger.{
  depth-queued, enqueue-len, threads-Agree, start_queued-Moved,
}

-- The requests that an event brings to a server.
abbrev pub arrivals : ServerEvent → ℕ
arrivals (process_request attempt client_id) = 1
arrivals (request_completed attempt_id request_id client_id payload) = 0
arrivals process_queued_requests = 0

module _ {Q D T R : Type 0} (impl : Queue Q) (holds : Holds impl)
    (sample : D → List ℕ → Duration × D) (self_id : Uuid) where
  -- The requests in the books of a server, where a thread stands for its completion.
  abbrev books : Server Q D × Scheduler ServiceEvent T R → ℕ
  books r =
      r.0.requests_processed
      + r.0.requests_rejected
      + depth impl r.0.queue
      + sum (addressed completes self_id) r.1.events

  handle_request-books :
      (attempt : RequestAttempt) (client_id : Uuid) (server : Server Q D)
      (s : Scheduler ServiceEvent T R)
      → books (handle_request impl sample attempt client_id self_id server s) % 2 ^ 64
        ≡ (1 + books (server, s)) % 2 ^ 64
  unfolding handle_request start_processing_request reject_request schedule
  handle_request-books attempt client_id server s = elim (Bool-cases (has_capacity server)) [
    | inl e ↦ rw (e, handle_request) (ground arith)
    | inr e ↦ rw (e, handle_request) (wait server.queue refl)
  ]
    where
      answered :
          (q : Q) (answer : Enqueued) (q' : Q)
          → server.queue ≡ some q
          → impl.len q' ≡ impl.len q + gain 1 answer
          → answer ≢ panicked
          → books
                (after_enqueue impl attempt client_id answer (record server { queue = some q' }) s)
              % 2 ^ 64
            ≡ (1 + books (server, s)) % 2 ^ 64
      answered q ok q' e h n = rw e (omega (arith, h))
      answered q (err error) q' e h n = rw e (ground (arith, h))
      answered q panicked q' e h n = absurd (n refl)

      wait :
          (o : Option Q)
          → server.queue ≡ o
          → books (queue_or_reject impl attempt client_id o server s) % 2 ^ 64
            ≡ (1 + books (server, s)) % 2 ^ 64
      wait none e = ground arith
      wait (some q) e =
          let item = with_client_id attempt (time s) client_id in
          let r = impl.enqueue item q in
          answered q r.0 r.1 e (enqueue-len impl holds item q) (holds.never_panics item q)

  complete_request-books :
      (attempt_id request_id : ℕ) (client_id : Uuid) (payload : List ℕ) (server : Server Q D)
      (s : Scheduler ServiceEvent T R)
      → books
            (complete_request impl sample attempt_id request_id client_id payload self_id server s)
          % 2 ^ 64
        ≡ (1 + books (server, s)) % 2 ^ 64
  unfolding complete_request schedule
  complete_request-books attempt_id request_id client_id payload server s = ground arith

  start_queued-books :
      (fuel : ℕ) (server : Server Q D) (s : Scheduler ServiceEvent T R)
      → books (start_queued impl sample fuel self_id server s) ≡ books (server, s)
  start_queued-books fuel server s =
      let h =
        start_queued-Moved impl holds sample self_id (addressed completes self_id) (λ item. 1)
          (threads-Agree self_id) fuel server s in
      let r = start_queued impl sample fuel self_id server s in
      omega (
        arith,
        h.load_kept,
        h.processed,
        h.rejected,
        depth-queued impl holds server.queue,
        depth-queued impl holds r.0.queue,
      )

  process_event-books :
      (e : ServerEvent) (server : Server Q D) (s : Scheduler ServiceEvent T R)
      → books (process_event impl sample self_id e server s) % 2 ^ 64
        ≡ (arrivals e + completes (to_server e) + books (server, s)) % 2 ^ 64
  unfolding process_event process_queued
  process_event-books (process_request attempt client_id) server s =
      handle_request-books attempt client_id server s
  process_event-books (request_completed attempt_id request_id client_id payload) server s =
      complete_request-books attempt_id request_id client_id payload server s
  process_event-books process_queued_requests server s =
      omega (arith, start_queued-books (server.thread_capacity - server.active_threads) server s)

  -- In a server whose threads match the completions that are due, as the invariant of its threads
  -- says, the requests that were processed, were rejected, wait or are being served grow by the one
  -- that an arrival brings and by none at any other event, modulo the range of a u64.
  pub process_event-arrivals :
      (e : ServerEvent) (server : Server Q D) (s : Scheduler ServiceEvent T R)
      → IsSettled impl self_id (completes (to_server e)) (wakes (to_server e)) server s
      → let r = process_event impl sample self_id e server s in
        (r.0.requests_processed + r.0.requests_rejected + queue_depth impl r.0 + r.0.active_threads)
          % 2 ^ 64
        ≡ (arrivals e
            + server.requests_processed
            + server.requests_rejected
            + queue_depth impl server
            + server.active_threads)
          % 2 ^ 64
  process_event-arrivals e server s h =
      let after = process_event-IsSettled impl holds sample self_id e server s h in
      omega (arith, after.busy, h.busy, process_event-books e server s)
