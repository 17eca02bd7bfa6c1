-- ===== src/Components/Server/Threads.antt =====
-- The threads of a server (des-components/src/server.rs), the completions that are due for them, and
-- the looks at its queue.
use native.Mathlib.Nat.{le_refl}
use des_cartes.Prelude.{
  ℕ, zero, suc, ◌+◌, ◌-◌, ◌^◌, ◌≤◌, ◌<◌, ◌≡◌, refl, Option, none, some, List, arith, length-sum,
  sum, Bool-cases, inl, inr, ltb→lt,
}
use des_cartes.Core.Time.{Duration}
use des_cartes.Core.Ids.{Uuid}
use des_cartes.Core.Request.{RequestAttempt}
use des_cartes.Core.Scheduler.{Scheduler, schedule, time}
use des_cartes.Components.Queue.{Queue, QueueItem, Enqueued, ok, panicked, err}
use des_cartes.Components.Queue.Contents.{Holds, loss}
use des_cartes.Components.Service.{
  ServerEvent, process_request, request_completed, process_queued_requests, ServiceEvent, to_server,
  to_client, addressed,
}
use des_cartes.Components.Server.{
  Server, has_capacity, depth, queue_depth, dequeue_from, after_enqueue, queue_or_reject,
  with_client_id, start_processing_request, reject_request, handle_request, complete_request,
  start_queued, process_queued, process_event, waiting_client,
}

-- The events that say that a thread is done, and those that look at the queue.
abbrev pub completes : ServiceEvent → ℕ
completes (to_server (request_completed attempt_id request_id client_id payload)) = 1
completes (to_server (process_request attempt client_id)) = 0
completes (to_server process_queued_requests) = 0
completes (to_client e) = 0

abbrev pub wakes : ServiceEvent → ℕ
wakes (to_server process_queued_requests) = 1
wakes (to_server (process_request attempt client_id)) = 0
wakes (to_server (request_completed attempt_id request_id client_id payload)) = 0
wakes (to_client e) = 0

-- The completions and the looks at the queue that are due for the server.
abbrev pub completions : {T R : Type 0} → Uuid → Scheduler ServiceEvent T R → ℕ
completions self_id s = sum (addressed completes self_id) s.events

abbrev pub looks : {T R : Type 0} → Uuid → Scheduler ServiceEvent T R → ℕ
looks self_id s = sum (addressed wakes self_id) s.events

module _ {Q : Type 0} (impl : Queue Q) (holds : Holds impl) where
  dequeue_from-none : (o : Option Q) → (dequeue_from impl o).0 ≡ none → depth impl o ≡ 0
  dequeue_from-none none e = refl
  dequeue_from-none (some q) e = rw (holds.len_contents q, holds.dequeue_none q e) refl

  -- A queue that gives an item back has one item fewer.
  dequeue_from-depth :
      (o : Option Q)
      → depth impl o ≡ depth impl (dequeue_from impl o).1 + loss (λ item. 1) (dequeue_from impl o).0
  dequeue_from-depth none = refl
  dequeue_from-depth (some q) =
      rw
        (
          holds.len_contents q,
          holds.len_contents (impl.dequeue q).1,
          length-sum (holds.contents q),
          length-sum (holds.contents (impl.dequeue q).1),
        )
        (holds.dequeue_sum (λ item. 1) q)

module _ {Q D T R : Type 0} (impl : Queue Q) (self_id : Uuid) where
  -- `done` completions and `seen` looks are being handled, and no longer in the event queue.
  pub record IsSettled (done seen : ℕ) (server : Server Q D) (s : Scheduler ServiceEvent T R)
      : Type 0 where
    pub in_range : server.thread_capacity < 2 ^ 64
    pub within : server.active_threads ≤ server.thread_capacity
    pub busy : server.active_threads ≡ done + completions self_id s
    pub attended :
        server.active_threads < server.thread_capacity
        → 0 < queue_depth impl server
        → 0 < seen + looks self_id s

module _ {Q D T R : Type 0} (impl : Queue Q) (holds : Holds impl)
    (sample : D → List ℕ → Duration × D) (self_id : Uuid) where
  start-IsSettled :
      (attempt : RequestAttempt) (client_id : Uuid) (server : Server Q D)
      (s : Scheduler ServiceEvent T R) (seen : ℕ)
      → server.active_threads < server.thread_capacity
      → IsSettled impl self_id 0 seen server s
      → let r = start_processing_request impl sample attempt client_id self_id server s in
        IsSettled impl self_id 0 seen r.0 r.1
  unfolding start_processing_request schedule
  start-IsSettled attempt client_id server s seen free h = record {
    in_range = h.in_range;
    within = ground (arith, h.in_range);
    busy = ground (arith, h.in_range, h.busy);
    attended = λ cap deep. ground (arith, h.attended free deep);
  }

  -- The queue may change while the server is about to look at it.
  look-IsSettled :
      (server : Server Q D) (s : Scheduler ServiceEvent T R) (queue : Option Q)
      → IsSettled impl self_id 0 1 server s
      → IsSettled impl self_id 0 1 (record server { queue = queue }) s
  look-IsSettled server s queue h = record {
    in_range = h.in_range;
    within = h.within;
    busy = h.busy;
    attended = λ cap deep. omega arith;
  }

  start_queued-IsSettled :
      (fuel : ℕ) (server : Server Q D) (s : Scheduler ServiceEvent T R)
      → server.thread_capacity - server.active_threads ≤ fuel
      → IsSettled impl self_id 0 1 server s
      → let r = start_queued impl sample fuel self_id server s in IsSettled impl self_id 0 0 r.0 r.1
  unfolding start_queued start_processing_request
  start_queued-IsSettled zero server s enough h = record {
    in_range = h.in_range;
    within = h.within;
    busy = h.busy;
    attended = λ cap deep. absurd (omega (arith, cap, enough));
  }
  start_queued-IsSettled (suc fuel) server s enough h = elim (Bool-cases (has_capacity server)) [
    | inr e ↦
        rw (e, start_queued)
          (record {
            in_range = h.in_range;
            within = h.within;
            busy = h.busy;
            attended = λ cap deep. absurd (grind (arith, e, cap));
          })
    | inl e ↦
        let free = ltb→lt _ _ e in
        rw (e, start_queued)
          (turn (dequeue_from impl server.queue) free (dequeue_from-depth impl holds server.queue)
            (dequeue_from-none impl holds server.queue)
            (λ server' s' less k. start_queued-IsSettled fuel server' s' less k))
  ]
    where
      turn :
          (r : Option QueueItem × Option Q)
          → server.active_threads < server.thread_capacity
          → depth impl server.queue ≡ depth impl r.1 + loss (λ item. 1) r.0
          → (r.0 ≡ none → depth impl server.queue ≡ 0)
          → ((server' : Server Q D) (s' : Scheduler ServiceEvent T R)
              → server'.thread_capacity - server'.active_threads ≤ fuel
              → IsSettled impl self_id 0 1 server' s'
              → let o = start_queued impl sample fuel self_id server' s' in
                IsSettled impl self_id 0 0 o.0 o.1)
          → let o : Server Q D × Scheduler ServiceEvent T R = elim r.0 [
            | none ↦ (record server { queue = r.1 }, s)
            | some item ↦
                let p =
                  start_processing_request impl sample item.attempt
                    (waiting_client item.client_id)
                    self_id
                    (record server { queue = r.1 })
                    s in
                start_queued impl sample fuel self_id p.0 p.1
          ] in
            IsSettled impl self_id 0 0 o.0 o.1
      turn (none, queue) free d n more = record {
        in_range = h.in_range;
        within = h.within;
        busy = h.busy;
        attended = λ cap deep. absurd (omega (arith, d, n refl, deep));
      }
      turn (some item, queue) free d n more =
          let server' : Server Q D = record server { queue = queue } in
          let k =
            start-IsSettled item.attempt (waiting_client item.client_id) server' s 1 free
              (look-IsSettled server s queue h) in
          more _ _ (ground (arith, enough, h.in_range)) k

  reject-IsSettled :
      (attempt : RequestAttempt) (client_id : Uuid) (server : Server Q D) (queue : Option Q)
      (s : Scheduler ServiceEvent T R)
      → ¬ (server.active_threads < server.thread_capacity)
      → IsSettled impl self_id 0 0 server s
      → let r = reject_request attempt client_id (record server { queue = queue }) s in
        IsSettled impl self_id 0 0 r.0 r.1
  unfolding reject_request schedule
  reject-IsSettled attempt client_id server queue s full h = record {
    in_range = h.in_range;
    within = h.within;
    busy = ground (arith, h.busy);
    attended = λ cap deep. absurd (full cap);
  }

  handle_request-IsSettled :
      (attempt : RequestAttempt) (client_id : Uuid) (server : Server Q D)
      (s : Scheduler ServiceEvent T R)
      → IsSettled impl self_id 0 0 server s
      → let r = handle_request impl sample attempt client_id self_id server s in
        IsSettled impl self_id 0 0 r.0 r.1
  unfolding handle_request
  handle_request-IsSettled attempt client_id server s h = elim (Bool-cases (has_capacity server)) [
    | inl e ↦ rw (e, handle_request) (start-IsSettled attempt client_id server s 0 (ltb→lt _ _ e) h)
    | inr e ↦ rw (e, handle_request) (wait server.queue (λ cap. grind (arith, e, cap)))
  ]
    where
      answered :
          (answer : Enqueued) (q' : Q)
          → ¬ (server.active_threads < server.thread_capacity)
          → let r =
              after_enqueue impl attempt client_id answer (record server { queue = some q' }) s in
            IsSettled impl self_id 0 0 r.0 r.1
      answered (err error) q' full = reject-IsSettled attempt client_id server (some q') s full h
      answered ok q' full = record {
        in_range = h.in_range;
        within = h.within;
        busy = h.busy;
        attended = λ cap deep. absurd (full cap);
      }
      answered panicked q' full = record {
        in_range = h.in_range;
        within = h.within;
        busy = h.busy;
        attended = λ cap deep. absurd (full cap);
      }

      wait :
          (o : Option Q)
          → ¬ (server.active_threads < server.thread_capacity)
          → let r = queue_or_reject impl attempt client_id o server s in
            IsSettled impl self_id 0 0 r.0 r.1
      wait none full = reject-IsSettled attempt client_id server server.queue s full h
      wait (some q) full =
          let r = impl.enqueue (with_client_id attempt (time s) client_id) q in
          answered r.0 r.1 full

  complete_request-IsSettled :
      (attempt_id request_id : ℕ) (client_id : Uuid) (payload : List ℕ) (server : Server Q D)
      (s : Scheduler ServiceEvent T R)
      → IsSettled impl self_id 1 0 server s
      → let r =
          complete_request impl sample attempt_id request_id client_id payload self_id server s in
        IsSettled impl self_id 0 0 r.0 r.1
  unfolding complete_request schedule
  complete_request-IsSettled attempt_id request_id client_id payload server s h = record {
    in_range = h.in_range;
    within = omega (arith, h.within);
    busy = ground (arith, h.busy);
    attended = λ cap deep. ground (arith, cap, deep);
  }

  process_queued-IsSettled :
      (server : Server Q D) (s : Scheduler ServiceEvent T R)
      → IsSettled impl self_id 0 1 server s
      → let r = process_queued impl sample self_id server s in IsSettled impl self_id 0 0 r.0 r.1
  unfolding process_queued
  process_queued-IsSettled server s h =
      start_queued-IsSettled (server.thread_capacity - server.active_threads) server s (le_refl _) h

  -- Let a server's queue keep what it takes, and let the event in hand be counted with those of the
  -- event queue. If the active threads are at most the capacity, which is a usize, and as many as
  -- the completions due for the server, and if, whenever a thread is free and a request waits, a
  -- look at the queue is due, then all this holds again after the server has handled the event.
  pub process_event-IsSettled :
      (e : ServerEvent) (server : Server Q D) (s : Scheduler ServiceEvent T R)
      → IsSettled impl self_id (completes (to_server e)) (wakes (to_server e)) server s
      → let r = process_event impl sample self_id e server s in IsSettled impl self_id 0 0 r.0 r.1
  unfolding process_event
  process_event-IsSettled (process_request attempt client_id) server s h =
      handle_request-IsSettled attempt client_id server s h
  process_event-IsSettled (request_completed attempt_id request_id client_id payload) server s h =
      complete_request-IsSettled attempt_id request_id client_id payload server s h
  process_event-IsSettled process_queued_requests server s h = process_queued-IsSettled server s h
