-- ===== src/Components/Client/Watch.antt =====
-- The requests that wait in a client of des-components/src/simple_client.rs, and the events that
-- attend to them.
use des_cartes.Prelude.{
  ℕ, ◌+◌, ◌<◌, ◌≡◌, refl, ◌==◌, ◌&&◌, false, Option, none, some, List, lookup, remove_key,
  insert_key, lookup-OnSome, remove_key-OnSome, insert_key-OnSome, OnSome-mono, sum, if◌then◌else◌,
  if_ind, arith, OnSome, OnSome-eq_some, add_u64,
}
use des_cartes.Core.Time.{Duration, from_duration}
use des_cartes.Core.Ids.{Uuid}
use des_cartes.Core.Request.{RequestAttempt, RequestAttemptId, RequestId, Response, is_success}
use des_cartes.Core.Scheduler.{Scheduler, schedule}
use des_cartes.Components.Retry.{RetryPolicy}
use des_cartes.Components.Service.{
  ClientEvent, send_request, response_received, request_timeout, retry_request, ServiceEvent,
  to_server, to_client, addressed,
}
use des_cartes.Components.Client.{
  Client, send_attempt, after_failure, response_to, handle_response, after_timeout, timeout_of,
  handle_timeout, retry_of, handle_retry, handle_send, process_event, remove_active,
}

-- The events that attend to a request whose last attempt is known: the timeout of that attempt, and
-- a retry.
abbrev pub attends : RequestId → RequestAttemptId → ServiceEvent → ℕ
attends rid aid (to_server e) = 0
attends rid aid (to_client send_request) = 0
attends rid aid (to_client (response_received response)) = 0
attends rid aid (to_client (request_timeout request_id attempt_id)) =
    if (request_id == rid) && (attempt_id == aid) then 1 else 0
attends rid aid (to_client (retry_request request_id)) = if request_id == rid then 1 else 0

module _ {P T R : Type 0} (self_id : Uuid) where
  -- The request is attended to, by the events of the queue or the `due` ones at this moment.
  abbrev pub Attended :
      (RequestId → RequestAttemptId → ℕ)
      → Scheduler ServiceEvent T R
      → RequestId
      → RequestAttempt × P
      → Type 0
  Attended due s rid w = 0 < due rid w.0.id + sum (addressed (attends rid w.0.id) self_id) s.events

  abbrev pub IsWatched :
      (RequestId → RequestAttemptId → ℕ) → Client P → Scheduler ServiceEvent T R → Type 0
  IsWatched due client s =
      (rid : RequestId) → OnSome (Attended due s rid) (lookup rid client.active_requests)

abbrev pub nothing : RequestId → RequestAttemptId → ℕ
nothing rid aid = 0

module _ {P T R : Type 0} (policy : RetryPolicy P) (body : ℕ → List ℕ) (self_id : Uuid) where
  send-Attended :
      (request_id : RequestId) (n : ℕ) (client : Client P) (s : Scheduler ServiceEvent T R) (p : P)
      → let r = send_attempt policy body request_id n self_id client s in
        Attended {P = P} self_id nothing r.2 request_id (r.0, p)
  unfolding send_attempt schedule
  send-Attended request_id n client s p = ground arith

  -- What attends to a request stays when more events are scheduled.
  schedule-Attended :
      (delay : Duration) (target : Uuid) (e : ServiceEvent) (s : Scheduler ServiceEvent T R)
      (rid : RequestId) (w : RequestAttempt × P)
      → Attended self_id nothing s rid w
      → Attended self_id nothing (schedule delay target e s) rid w
  unfolding schedule
  schedule-Attended delay target e s rid w h = omega (arith, h)

  retry-Attended :
      (delay : Duration) (s : Scheduler ServiceEvent T R) (rid : RequestId) (w : RequestAttempt × P)
      → Attended self_id nothing (schedule delay self_id (to_client (retry_request rid)) s) rid w
  unfolding schedule
  retry-Attended delay s rid w = ground arith

  -- The requests but `request_id`, in a client whose map is that of `client` for them.
  abbrev Others : RequestId → Client P → Scheduler ServiceEvent T R → Type 0
  Others request_id client s =
      (j : RequestId)
      → (request_id == j) ≡ false
      → OnSome (Attended self_id nothing s j) (lookup j client.active_requests)

  sent-Attended :
      (k n : ℕ) (client : Client P) (s : Scheduler ServiceEvent T R) (j : RequestId)
      (w : RequestAttempt × P)
      → Attended self_id nothing s j w
      → Attended self_id nothing (send_attempt policy body k n self_id client s).2 j w
  unfolding send_attempt schedule
  sent-Attended k n client s j w h = omega (arith, h)

  -- A request is sent, for the first time or again.
  sent-IsWatched :
      (k n : ℕ) (p : P) (client : Client P) (s : Scheduler ServiceEvent T R)
      (m : List (RequestId × (RequestAttempt × P)))
      → ((j : RequestId) → (k == j) ≡ false → OnSome (Attended self_id nothing s j) (lookup j m))
      → let r = send_attempt policy body k n self_id client s in
        (j : RequestId)
        → OnSome (Attended self_id nothing r.2 j) (lookup j (insert_key k (r.0, p) m))
  sent-IsWatched k n p client s m h =
      let r = send_attempt policy body k n self_id client s in
      insert_key-OnSome (Attended self_id nothing r.2) k m
        (λ j ne. OnSome-mono (lookup j m) (λ w v. sent-Attended k n client s j w v) (h j ne))
        (r.0, p) (send-Attended k n client s p)

  -- A retry of the request is scheduled.
  retried-IsWatched :
      (k : RequestId) (w : RequestAttempt × P) (delay : Duration) (s : Scheduler ServiceEvent T R)
      (m : List (RequestId × (RequestAttempt × P)))
      → ((j : RequestId) → (k == j) ≡ false → OnSome (Attended self_id nothing s j) (lookup j m))
      → let s' = schedule delay self_id (to_client (retry_request k)) s in
        (j : RequestId) → OnSome (Attended self_id nothing s' j) (lookup j (insert_key k w m))
  retried-IsWatched k w delay s m h =
      let e = to_client (retry_request k) in
      insert_key-OnSome (Attended self_id nothing (schedule delay self_id e s)) k m
        (λ j ne. OnSome-mono (lookup j m) (schedule-Attended delay self_id e s j) (h j ne)) w
        (retry-Attended delay s k w)

  handle_send-IsWatched :
      (client : Client P) (s : Scheduler ServiceEvent T R)
      → IsWatched self_id nothing client s
      → let r = handle_send policy body self_id client s in IsWatched self_id nothing r.0 r.1
  unfolding handle_send send_attempt
  handle_send-IsWatched client s h =
      sent-IsWatched client.next_request_id 1 (policy.reset client.retry_policy) client s
        client.active_requests (λ j ne. h j)

  after_failure-IsWatched :
      (request_id : RequestId) (attempt : RequestAttempt) (r : Option Duration × P)
      (client : Client P) (s : Scheduler ServiceEvent T R)
      → Others request_id client s
      → let r =
          after_failure policy body request_id attempt self_id r
            (remove_active request_id client)
            s in
        IsWatched self_id nothing r.0 r.1
  after_failure-IsWatched request_id attempt (none, p) client s h =
      remove_key-OnSome (Attended self_id nothing s) request_id client.active_requests h
  after_failure-IsWatched request_id attempt (some delay, p) client s h =
      retried-IsWatched request_id (attempt, p) (from_duration delay) s
        (remove_key request_id client.active_requests)
        (λ j ne.
          remove_key-OnSome (Attended self_id nothing s) request_id client.active_requests h j)

  after_timeout-IsWatched :
      (request_id : RequestId) (attempt : RequestAttempt) (r : Option Duration × P)
      (client : Client P) (s : Scheduler ServiceEvent T R)
      → Others request_id client s
      → let r = after_timeout policy body request_id attempt self_id r client s in
        IsWatched self_id nothing r.0 r.1
  after_timeout-IsWatched request_id attempt (none, p) client s h =
      remove_key-OnSome (Attended self_id nothing s) request_id client.active_requests h
  after_timeout-IsWatched request_id attempt (some delay, p) client s h =
      retried-IsWatched request_id (attempt, p) (from_duration delay) s client.active_requests h

  handle_response-IsWatched :
      (response : Response) (client : Client P) (s : Scheduler ServiceEvent T R)
      → IsWatched self_id nothing client s
      → let r = handle_response policy body response self_id client s in
        IsWatched self_id nothing r.0 r.1
  unfolding handle_response
  handle_response-IsWatched response client s h =
      go (lookup response.request_id client.active_requests)
    where
      go :
          (o : Option (RequestAttempt × P))
          → let r = response_to policy body response self_id o client s in
            IsWatched self_id nothing r.0 r.1
      go none = h
      go (some (attempt, p)) =
          if_ind (λ (r : Client P × Scheduler ServiceEvent T R). IsWatched self_id nothing r.0 r.1)
            (is_success response)
            (λ _.
              remove_key-OnSome (Attended self_id nothing s) response.request_id
                client.active_requests (λ j ne. h j))
            (λ _.
              after_failure-IsWatched response.request_id attempt
                (policy.should_retry attempt (some response) p) client s (λ j ne. h j))

  -- The timeout of one attempt says nothing of the other requests.
  timeout-Others :
      (request_id : RequestId) (attempt_id : RequestAttemptId) (client : Client P)
      (s : Scheduler ServiceEvent T R)
      → IsWatched self_id
          (λ rid aid. attends rid aid (to_client (request_timeout request_id attempt_id)))
          client
          s
      → Others request_id client s
  timeout-Others request_id attempt_id client s h j ne =
      OnSome-mono (lookup j client.active_requests) (λ w v. grind (arith, v, ne)) (h j)

  -- A timeout of an earlier attempt says nothing of the request either.
  late :
      (request_id : RequestId) (attempt_id : RequestAttemptId) (w : RequestAttempt × P)
      (s : Scheduler ServiceEvent T R)
      → (w.0.id == attempt_id) ≡ false
      → Attended self_id
          (λ rid aid. attends rid aid (to_client (request_timeout request_id attempt_id)))
          s
          request_id
          w
      → Attended self_id nothing s request_id w
  late request_id attempt_id w s ne h = grind (arith, h, ne)

  handle_timeout-IsWatched :
      (request_id : RequestId) (attempt_id : RequestAttemptId) (client : Client P)
      (s : Scheduler ServiceEvent T R)
      → IsWatched self_id
          (λ rid aid. attends rid aid (to_client (request_timeout request_id attempt_id)))
          client
          s
      → let r = handle_timeout policy body request_id attempt_id self_id client s in
        IsWatched self_id nothing r.0 r.1
  unfolding handle_timeout
  handle_timeout-IsWatched request_id attempt_id client s h =
      go (lookup request_id client.active_requests) refl
    where
      others : Others request_id client s
      others = timeout-Others request_id attempt_id client s h

      go :
          (o : Option (RequestAttempt × P))
          → lookup request_id client.active_requests ≡ o
          → let r = timeout_of policy body request_id attempt_id self_id o client s in
            IsWatched self_id nothing r.0 r.1
      go none e =
          lookup-OnSome (Attended self_id nothing s) request_id client.active_requests others
            (rw e tt)
      go (some (attempt, p)) e =
          if_ind (λ (r : Client P × Scheduler ServiceEvent T R). IsWatched self_id nothing r.0 r.1)
            (attempt.id == attempt_id)
            (λ _.
              after_timeout-IsWatched request_id attempt (policy.should_retry attempt none p) client
                s others)
            (λ ne.
              lookup-OnSome (Attended self_id nothing s) request_id client.active_requests others (
                rw e (
                  late request_id attempt_id (attempt, p) s ne
                    (OnSome-eq_some _ (h request_id) e))))

  handle_retry-IsWatched :
      (request_id : RequestId) (client : Client P) (s : Scheduler ServiceEvent T R)
      → IsWatched self_id
          (λ rid aid. attends rid aid (to_client (retry_request request_id)))
          client
          s
      → let r = handle_retry policy body request_id self_id client s in
        IsWatched self_id nothing r.0 r.1
  unfolding handle_retry retry_of send_attempt
  handle_retry-IsWatched request_id client s h = go (lookup request_id client.active_requests) refl
    where
      others : Others request_id client s
      others j ne =
          OnSome-mono (lookup j client.active_requests) (λ w v. grind (arith, v, ne)) (h j)

      go :
          (o : Option (RequestAttempt × P))
          → lookup request_id client.active_requests ≡ o
          → let r = retry_of policy body request_id self_id o client s in
            IsWatched self_id nothing r.0 r.1
      go none e =
          lookup-OnSome (Attended self_id nothing s) request_id client.active_requests others
            (rw e tt)
      go (some (attempt, p)) e =
          sent-IsWatched request_id (add_u64 attempt.attempt_number 1) p client s
            (remove_key request_id client.active_requests)
            (λ j ne.
              remove_key-OnSome (Attended self_id nothing s) request_id client.active_requests
                others j)

  pub process_event-IsWatched :
      (e : ClientEvent) (client : Client P) (s : Scheduler ServiceEvent T R)
      → IsWatched self_id (λ rid aid. attends rid aid (to_client e)) client s
      → let r = process_event policy body self_id e client s in IsWatched self_id nothing r.0 r.1
  unfolding process_event
  process_event-IsWatched send_request client s h = handle_send-IsWatched client s h
  process_event-IsWatched (response_received response) client s h =
      handle_response-IsWatched response client s h
  process_event-IsWatched (request_timeout request_id attempt_id) client s h =
      handle_timeout-IsWatched request_id attempt_id client s h
  process_event-IsWatched (retry_request request_id) client s h =
      handle_retry-IsWatched request_id client s h
