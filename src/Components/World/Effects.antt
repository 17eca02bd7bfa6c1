-- ===== src/Components/World/Effects.antt =====
-- What the handlers of servers and clients schedule (des-components/src/server.rs and
-- simple_client.rs).
use des_cartes.Prelude.{
  ℕ, zero, suc, ◌-◌, ◌≤◌, ◌≡◌, refl, ◌==◌, false, Option, none, some, List, sum, if_ind, arith,
  add_u64, Bool-cases, inl, inr, lookup,
}
use des_cartes.Core.Time.{SimTime, Duration}
use des_cartes.Core.Ids.{Uuid}
use des_cartes.Core.Request.{RequestAttempt, RequestAttemptId, RequestId, Response, is_success}
use des_cartes.Core.Scheduler.{Scheduler, EventEntry, schedule, time}
use des_cartes.Components.Queue.{Queue, QueueItem, Enqueued, ok, panicked, err}
use des_cartes.Components.Retry.{RetryPolicy}
use des_cartes.Components.Service.{
  ServerEvent, process_request, request_completed, process_queued_requests, ClientEvent,
  send_request, response_received, request_timeout, retry_request, ServiceEvent, to_server,
  to_client, addressed,
}
use des_cartes.Components.Server.{
  Server, has_capacity, queue_depth, dequeue_from, after_enqueue, queue_or_reject, with_client_id,
  start_processing_request, reject_request, handle_request, complete_request, start_queued,
  process_queued, waiting_client,
}
use des_cartes.Components.Server
use des_cartes.Components.Server.Threads.{completes}
use des_cartes.Components.Client.{
  Client, remove_active, send_attempt, after_failure, response_to, handle_response, after_timeout,
  timeout_of, handle_timeout, retry_of, handle_retry, handle_send,
}
use des_cartes.Components.Client
use des_cartes.Components.World.{Part, server_part, client_part, handle_part}

module _ {T R : Type 0} where
  -- The component `id` may have turned the one scheduler into the other.
  pub record Grows (id : Uuid) (s s' : Scheduler ServiceEvent T R) : Type 0 where
    pub more : (f : EventEntry ServiceEvent → ℕ) → sum f s.events ≤ sum f s'.events
    pub same_completions :
        (j : Uuid)
        → (id == j) ≡ false
        → sum (addressed completes j) s'.events ≡ sum (addressed completes j) s.events

  pub refl-Grows : (id : Uuid) (s : Scheduler ServiceEvent T R) → Grows id s s
  refl-Grows id s = record { more = λ f. omega arith; same_completions = λ j ne. refl }

  pub trans-Grows :
      {id : Uuid} {s t u : Scheduler ServiceEvent T R} → Grows id s t → Grows id t u → Grows id s u
  trans-Grows {id} {s} {t} {u} h k = record {
    more = λ f. omega (arith, h.more f, k.more f);
    same_completions = λ j ne. omega (arith, h.same_completions j ne, k.same_completions j ne);
  }

  -- An event to the component itself.
  own-Grows :
      (id : Uuid) (delay : SimTime) (e : ServiceEvent) (s : Scheduler ServiceEvent T R)
      → Grows id s (schedule delay id e s)
  unfolding schedule
  own-Grows id delay e s = record {
    more = λ f. omega arith;
    same_completions = λ j ne. ground (arith, ne);
  }

  -- An event to anyone, that is not a completion.
  sent-Grows :
      (id : Uuid) (delay : SimTime) (target : Uuid) (e : ServiceEvent)
      (s : Scheduler ServiceEvent T R)
      → completes e ≡ 0
      → Grows id s (schedule delay target e s)
  unfolding schedule
  sent-Grows id delay target e s other = record {
    more = λ f. omega arith;
    same_completions = λ j ne. ground (arith, other);
  }

module _ {Q D T R : Type 0} (impl : Queue Q) (sample : D → List ℕ → Duration × D) (id : Uuid) where
  reject-Grows :
      (attempt : RequestAttempt) (client_id : Uuid) (server : Server Q D)
      (s : Scheduler ServiceEvent T R)
      → Grows id s (reject_request attempt client_id server s).1
  unfolding reject_request
  reject-Grows attempt client_id server s = sent-Grows id _ client_id _ s refl

  start-Grows :
      (attempt : RequestAttempt) (client_id : Uuid) (server : Server Q D)
      (s : Scheduler ServiceEvent T R)
      → Grows id s (start_processing_request impl sample attempt client_id id server s).1
  unfolding start_processing_request
  start-Grows attempt client_id server s = own-Grows id _ _ s

  after_enqueue-Grows :
      (attempt : RequestAttempt) (client_id : Uuid) (answer : Enqueued) (server : Server Q D)
      (s : Scheduler ServiceEvent T R)
      → Grows id s (after_enqueue impl attempt client_id answer server s).1
  after_enqueue-Grows attempt client_id ok server s = refl-Grows id s
  after_enqueue-Grows attempt client_id panicked server s = refl-Grows id s
  after_enqueue-Grows attempt client_id (err e) server s = reject-Grows attempt client_id server s

  queue_or_reject-Grows :
      (attempt : RequestAttempt) (client_id : Uuid) (o : Option Q) (server : Server Q D)
      (s : Scheduler ServiceEvent T R)
      → Grows id s (queue_or_reject impl attempt client_id o server s).1
  queue_or_reject-Grows attempt client_id none server s = reject-Grows attempt client_id server s
  queue_or_reject-Grows attempt client_id (some q) server s =
      let r = impl.enqueue (with_client_id attempt (time s) client_id) q in
      after_enqueue-Grows attempt client_id r.0 (record server { queue = some r.1 }) s

  handle_request-Grows :
      (attempt : RequestAttempt) (client_id : Uuid) (server : Server Q D)
      (s : Scheduler ServiceEvent T R)
      → Grows id s (handle_request impl sample attempt client_id id server s).1
  unfolding handle_request
  handle_request-Grows attempt client_id server s = elim (Bool-cases (has_capacity server)) [
    | inl e ↦ rw (e, handle_request) (start-Grows attempt client_id server s)
    | inr e ↦ rw (e, handle_request) (queue_or_reject-Grows attempt client_id server.queue server s)
  ]

  complete_request-Grows :
      (attempt_id : RequestAttemptId) (request_id : RequestId) (client_id : Uuid) (payload : List ℕ)
      (server : Server Q D) (s : Scheduler ServiceEvent T R)
      → Grows id s
          (complete_request impl sample attempt_id request_id client_id payload id server s).1
  unfolding complete_request schedule
  complete_request-Grows attempt_id request_id client_id payload server s = record {
    more = λ f. ground arith;
    same_completions = λ j ne. ground (arith, ne);
  }

  start_queued-Grows :
      (fuel : ℕ) (server : Server Q D) (s : Scheduler ServiceEvent T R)
      → Grows id s (start_queued impl sample fuel id server s).1
  unfolding start_queued
  start_queued-Grows zero server s = refl-Grows id s
  start_queued-Grows (suc fuel) server s = elim (Bool-cases (has_capacity server)) [
    | inr e ↦ rw (e, start_queued) (refl-Grows id s)
    | inl e ↦
        rw (e, start_queued)
          (turn (dequeue_from impl server.queue) (λ server' s'. start_queued-Grows fuel server' s'))
  ]
    where
      turn :
          (r : Option QueueItem × Option Q)
          → ((server' : Server Q D) (s' : Scheduler ServiceEvent T R)
              → Grows id s' (start_queued impl sample fuel id server' s').1)
          → let o : Server Q D × Scheduler ServiceEvent T R = elim r.0 [
            | none ↦ (record server { queue = r.1 }, s)
            | some item ↦
                let p =
                  start_processing_request impl sample item.attempt
                    (waiting_client item.client_id)
                    id
                    (record server { queue = r.1 })
                    s in
                start_queued impl sample fuel id p.0 p.1
          ] in
            Grows id s o.1
      turn (none, queue) more = refl-Grows id s
      turn (some item, queue) more =
          let client_id = waiting_client item.client_id in
          let server' : Server Q D = record server { queue = queue } in
          let p = start_processing_request impl sample item.attempt client_id id server' s in
          trans-Grows (start-Grows item.attempt client_id server' s) (more p.0 p.1)

  pub server-Grows :
      (e : ServerEvent) (server : Server Q D) (s : Scheduler ServiceEvent T R)
      → Grows id s (Server.process_event impl sample id e server s).1
  unfolding Server.process_event process_queued
  server-Grows (process_request attempt client_id) server s =
      handle_request-Grows attempt client_id server s
  server-Grows (request_completed attempt_id request_id client_id payload) server s =
      complete_request-Grows attempt_id request_id client_id payload server s
  server-Grows process_queued_requests server s =
      start_queued-Grows (server.thread_capacity - server.active_threads) server s

module _ {P T R : Type 0} (policy : RetryPolicy P) (body : ℕ → List ℕ) (id : Uuid) where
  send-Grows :
      (request_id n : ℕ) (client : Client P) (s : Scheduler ServiceEvent T R)
      → Grows id s (send_attempt policy body request_id n id client s).2
  unfolding send_attempt
  send-Grows request_id n client s =
      trans-Grows (own-Grows id _ _ s) (sent-Grows id _ client.server_key _ _ refl)

  after_failure-Grows :
      (request_id : RequestId) (attempt : RequestAttempt) (r : Option Duration × P)
      (client : Client P) (s : Scheduler ServiceEvent T R)
      → Grows id s (after_failure policy body request_id attempt id r client s).1
  after_failure-Grows request_id attempt (none, p) client s = refl-Grows id s
  after_failure-Grows request_id attempt (some delay, p) client s = own-Grows id _ _ s

  after_timeout-Grows :
      (request_id : RequestId) (attempt : RequestAttempt) (r : Option Duration × P)
      (client : Client P) (s : Scheduler ServiceEvent T R)
      → Grows id s (after_timeout policy body request_id attempt id r client s).1
  after_timeout-Grows request_id attempt (none, p) client s = refl-Grows id s
  after_timeout-Grows request_id attempt (some delay, p) client s = own-Grows id _ _ s

  response_to-Grows :
      (response : Response) (o : Option (RequestAttempt × P)) (client : Client P)
      (s : Scheduler ServiceEvent T R)
      → Grows id s (response_to policy body response id o client s).1
  response_to-Grows response none client s = refl-Grows id s
  response_to-Grows response (some (attempt, p)) client s =
      if_ind (λ (r : Client P × Scheduler ServiceEvent T R). Grows id s r.1) (is_success response)
        (λ h. refl-Grows id s)
        (λ h.
          after_failure-Grows response.request_id attempt
            (policy.should_retry attempt (some response) p)
            (remove_active response.request_id client) s)

  timeout_of-Grows :
      (request_id : RequestId) (attempt_id : RequestAttemptId) (o : Option (RequestAttempt × P))
      (client : Client P) (s : Scheduler ServiceEvent T R)
      → Grows id s (timeout_of policy body request_id attempt_id id o client s).1
  timeout_of-Grows request_id attempt_id none client s = refl-Grows id s
  timeout_of-Grows request_id attempt_id (some (attempt, p)) client s =
      if_ind (λ (r : Client P × Scheduler ServiceEvent T R). Grows id s r.1)
        (attempt.id == attempt_id)
        (λ h. after_timeout-Grows request_id attempt (policy.should_retry attempt none p) client s)
        (λ h. refl-Grows id s)

  retry_of-Grows :
      (request_id : RequestId) (o : Option (RequestAttempt × P)) (client : Client P)
      (s : Scheduler ServiceEvent T R)
      → Grows id s (retry_of policy body request_id id o client s).1
  unfolding retry_of
  retry_of-Grows request_id none client s = refl-Grows id s
  retry_of-Grows request_id (some (attempt, p)) client s =
      send-Grows request_id _ (remove_active request_id client) s

  pub client-Grows :
      (e : ClientEvent) (client : Client P) (s : Scheduler ServiceEvent T R)
      → Grows id s (Client.process_event policy body id e client s).1
  unfolding Client.process_event handle_response handle_timeout handle_retry handle_send
  client-Grows send_request client s =
      send-Grows client.next_request_id 1
        (record client { next_request_id = add_u64 client.next_request_id 1 }) s
  client-Grows (response_received response) client s =
      response_to-Grows response (lookup response.request_id client.active_requests) client s
  client-Grows (request_timeout request_id attempt_id) client s =
      timeout_of-Grows request_id attempt_id (lookup request_id client.active_requests) client s
  client-Grows (retry_request request_id) client s =
      retry_of-Grows request_id (lookup request_id client.active_requests) client s

module _ {Q D P T R : Type 0} (impl : Queue Q) (sample : D → List ℕ → Duration × D)
    (policy : RetryPolicy P) (body : ℕ → List ℕ) where
  pub handle_part-Grows :
      (id : Uuid) (e : ServiceEvent) (part : Part Q D P) (s : Scheduler ServiceEvent T R)
      → Grows id s (handle_part impl sample policy body id e part s).1
  unfolding handle_part
  handle_part-Grows id (to_server e) (server_part server) s = server-Grows impl sample id e server s
  handle_part-Grows id (to_client e) (client_part client) s = client-Grows policy body id e client s
  handle_part-Grows id (to_client e) (server_part server) s = refl-Grows id s
  handle_part-Grows id (to_server e) (client_part client) s = refl-Grows id s
