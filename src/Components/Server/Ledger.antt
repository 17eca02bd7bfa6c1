-- ===== src/Components/Server/Ledger.antt =====
-- What becomes of the attempts that reach a server (des-components/src/server.rs).
use des_cartes.Prelude.{
  ℕ, zero, suc, ◌+◌, ◌-◌, ◌≡◌, ◌≢◌, refl, ◌==◌, Option, none, some, List, sum, if◌then◌else◌,
  length-sum, arith, Bool-cases, inl, inr,
}
use des_cartes.Core.Time.{Duration}
use des_cartes.Core.Ids.{Uuid}
use des_cartes.Core.Request.{RequestAttempt, RequestAttemptId}
use des_cartes.Core.Scheduler.{Scheduler, EventEntry, component, task, schedule, time}
use des_cartes.Components.Queue.{Queue, QueueItem, Enqueued, ok, panicked, err}
use des_cartes.Components.Queue.Contents.{Holds, gain, loss}
use des_cartes.Components.Service.{
  ServerEvent, process_request, request_completed, process_queued_requests, ServiceEvent, to_server,
  response_received, send_request, request_timeout, retry_request, to_client, addressed,
}
use des_cartes.Components.Server.{
  Server, has_capacity, depth, dequeue_from, after_enqueue, queue_or_reject, with_client_id,
  start_processing_request, reject_request, handle_request, complete_request, start_queued,
  process_queued, process_event, waiting_client,
}
use des_cartes.Components.Server.Threads.{completes}

-- An attempt is on its way to a server, in its hands, or on its way back.
abbrev pub carries : RequestAttemptId → ServiceEvent → ℕ
carries id (to_server (process_request attempt client_id)) = if attempt.id == id then 1 else 0
carries id (to_server (request_completed attempt_id request_id client_id payload)) =
    if attempt_id == id then 1 else 0
carries id (to_server process_queued_requests) = 0
carries id (to_client (response_received response)) = if response.attempt_id == id then 1 else 0
carries id (to_client send_request) = 0
carries id (to_client (request_timeout request_id attempt_id)) = 0
carries id (to_client (retry_request request_id)) = 0

abbrev pub carried : RequestAttemptId → EventEntry ServiceEvent → ℕ
carried id (component e) = carries id e.inner
carried id (task e) = 0

abbrev pub waits : RequestAttemptId → QueueItem → ℕ
waits id item = if item.attempt.id == id then 1 else 0

module _ {Q : Type 0} (impl : Queue Q) (holds : Holds impl) where
  abbrev pub queued : (QueueItem → ℕ) → Option Q → ℕ
  queued f none = 0
  queued f (some q) = sum f (holds.contents q)

  dequeue_from-loss :
      (f : QueueItem → ℕ) (o : Option Q)
      → queued f o ≡ queued f (dequeue_from impl o).1 + loss f (dequeue_from impl o).0
  dequeue_from-loss f none = refl
  dequeue_from-loss f (some q) = holds.dequeue_sum f q

  pub enqueue-len :
      (item : QueueItem) (q : Q)
      → impl.len (impl.enqueue item q).1 ≡ impl.len q + gain 1 (impl.enqueue item q).0
  enqueue-len item q =
      rw
        (
          holds.len_contents q,
          holds.len_contents (impl.enqueue item q).1,
          length-sum (holds.contents q),
          length-sum (holds.contents (impl.enqueue item q).1),
        )
        (holds.enqueue_sum (λ item. 1) item q)

  pub depth-queued : (o : Option Q) → depth impl o ≡ queued (λ item. 1) o
  depth-queued none = refl
  depth-queued (some q) = rw (holds.len_contents q) (length-sum (holds.contents q))

module _ (self_id : Uuid) (v : EventEntry ServiceEvent → ℕ) (f : QueueItem → ℕ) where
  -- An event that completes an item weighs as much as the item.
  pub record Agree : Type 0 where
    pub agree :
        (event_id time : ℕ) (item : QueueItem) (client_id : Uuid)
        → v (
            component (record {
              event_id = event_id;
              time = time;
              component = self_id;
              inner = to_server (
                  request_completed item.attempt.id item.attempt.request_id client_id
                    item.attempt.payload);
            }))
          ≡ f item

tokens-Agree : (self_id : Uuid) (id : RequestAttemptId) → Agree self_id (carried id) (waits id)
tokens-Agree self_id id = record { agree = λ event_id time item client_id. refl }

pub threads-Agree : (self_id : Uuid) → Agree self_id (addressed completes self_id) (λ item. 1)
threads-Agree self_id = record { agree = λ event_id time item client_id. ground arith }

module _ {Q D T R : Type 0} (impl : Queue Q) (holds : Holds impl)
    (sample : D → List ℕ → Duration × D) (self_id : Uuid) (v : EventEntry ServiceEvent → ℕ)
    (f : QueueItem → ℕ) where
  abbrev pub load : Server Q D × Scheduler ServiceEvent T R → ℕ
  load r = sum v r.1.events + queued impl holds f r.0.queue

  pub record Moved (a b : Server Q D × Scheduler ServiceEvent T R) : Type 0 where
    pub load_kept : load a ≡ load b
    pub processed : a.0.requests_processed ≡ b.0.requests_processed
    pub rejected : a.0.requests_rejected ≡ b.0.requests_rejected

  pub start_queued-Moved :
      Agree self_id v f
      → (fuel : ℕ) (server : Server Q D) (s : Scheduler ServiceEvent T R)
      → Moved (start_queued impl sample fuel self_id server s) (server, s)
  unfolding start_queued start_processing_request schedule
  start_queued-Moved a zero server s = record {
    load_kept = refl;
    processed = refl;
    rejected = refl;
  }
  start_queued-Moved a (suc fuel) server s = elim (Bool-cases (has_capacity server)) [
    | inr e ↦ rw (e, start_queued) (record { load_kept = refl; processed = refl; rejected = refl })
    | inl e ↦
        rw (e, start_queued)
          (turn (dequeue_from impl server.queue) (dequeue_from-loss impl holds f server.queue)
            (λ server' s'. start_queued-Moved a fuel server' s'))
  ]
    where
      turn :
          (r : Option QueueItem × Option Q)
          → queued impl holds f server.queue ≡ queued impl holds f r.1 + loss f r.0
          → ((server' : Server Q D) (s' : Scheduler ServiceEvent T R)
              → Moved (start_queued impl sample fuel self_id server' s') (server', s'))
          → Moved
              (elim r.0 [
                | none ↦ (record server { queue = r.1 }, s)
                | some item ↦
                    let p =
                      start_processing_request impl sample item.attempt
                        (waiting_client item.client_id)
                        self_id
                        (record server { queue = r.1 })
                        s in
                    start_queued impl sample fuel self_id p.0 p.1
              ])
              (server, s)
      turn (none, queue) d more = record {
        load_kept = omega (arith, d);
        processed = refl;
        rejected = refl;
      }
      turn (some item, queue) d more =
          let server' : Server Q D = record server { queue = queue } in
          let p =
            start_processing_request impl sample item.attempt (waiting_client item.client_id)
              self_id server' s in
          let h = more p.0 p.1 in
          record {
            load_kept =
                omega (arith, d, h.load_kept, a.agree _ _ item (waiting_client item.client_id));
            processed = h.processed;
            rejected = h.rejected;
          }

module _ {Q D T R : Type 0} (impl : Queue Q) (holds : Holds impl)
    (sample : D → List ℕ → Duration × D) (self_id : Uuid) (id : RequestAttemptId) where
  abbrev tokens : Server Q D × Scheduler ServiceEvent T R → ℕ
  tokens r = sum (carried id) r.1.events + queued impl holds (waits id) r.0.queue

  handle_request-tokens :
      (attempt : RequestAttempt) (client_id : Uuid) (server : Server Q D)
      (s : Scheduler ServiceEvent T R)
      → tokens (handle_request impl sample attempt client_id self_id server s)
        ≡ (if attempt.id == id then 1 else 0) + tokens (server, s)
  unfolding handle_request start_processing_request reject_request schedule
  handle_request-tokens attempt client_id server s = elim (Bool-cases (has_capacity server)) [
    | inl e ↦ rw (e, handle_request) (omega arith)
    | inr e ↦ rw (e, handle_request) (wait server.queue refl)
  ]
    where
      answered :
          (q : Q) (answer : Enqueued) (q' : Q)
          → server.queue ≡ some q
          → sum (waits id) (holds.contents q')
            ≡ sum (waits id) (holds.contents q) + gain (if attempt.id == id then 1 else 0) answer
          → answer ≢ panicked
          → tokens
              (after_enqueue impl attempt client_id answer (record server { queue = some q' }) s)
            ≡ (if attempt.id == id then 1 else 0) + tokens (server, s)
      answered q ok q' e h n = rw e (omega (arith, h))
      answered q (err error) q' e h n = rw e (omega (arith, h))
      answered q panicked q' e h n = absurd (n refl)

      wait :
          (o : Option Q)
          → server.queue ≡ o
          → tokens (queue_or_reject impl attempt client_id o server s)
            ≡ (if attempt.id == id then 1 else 0) + tokens (server, s)
      wait none e = omega arith
      wait (some q) e =
          let item = with_client_id attempt (time s) client_id in
          let r = impl.enqueue item q in
          answered q r.0 r.1 e (holds.enqueue_sum (waits id) item q) (holds.never_panics item q)

  complete_request-tokens :
      (attempt_id request_id : ℕ) (client_id : Uuid) (payload : List ℕ) (server : Server Q D)
      (s : Scheduler ServiceEvent T R)
      → tokens
          (complete_request impl sample attempt_id request_id client_id payload self_id server s)
        ≡ (if attempt_id == id then 1 else 0) + tokens (server, s)
  unfolding complete_request schedule
  complete_request-tokens attempt_id request_id client_id payload server s = ground arith

  -- While a server handles an event, no attempt is lost or answered twice: the attempts with one id
  -- that are on their way to a server, wait in this server's queue, are being served, or are on
  -- their way back, the event in hand among them, are as many after as before, whatever the queue
  -- that keeps what it takes.
  pub process_event-carried :
      (e : ServerEvent) (server : Server Q D) (s : Scheduler ServiceEvent T R)
      → let r = process_event impl sample self_id e server s in
        sum (carried id) r.1.events + queued impl holds (waits id) r.0.queue
        ≡ carries id (to_server e)
          + sum (carried id) s.events
          + queued impl holds (waits id) server.queue
  unfolding process_event process_queued
  process_event-carried (process_request attempt client_id) server s =
      omega (arith, handle_request-tokens attempt client_id server s)
  process_event-carried (request_completed attempt_id request_id client_id payload) server s =
      omega (arith, complete_request-tokens attempt_id request_id client_id payload server s)
  process_event-carried process_queued_requests server s = omega (
    arith,
    (start_queued-Moved impl holds sample self_id (carried id) (waits id) (tokens-Agree self_id id)
        (server.thread_capacity - server.active_threads) server s).load_kept,
  )
