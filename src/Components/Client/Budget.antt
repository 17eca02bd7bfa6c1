-- ===== src/Components/Client/Budget.antt =====
-- How many attempts a client of des-components/src/simple_client.rs makes, and what its retry
-- policies allow.
use des_cartes.Prelude.{
  ℕ, suc, ◌+◌, ◌-◌, ◌*◌, ◌^◌, ◌≤◌, ◌<◌, ◌≡◌, refl, ◌==◌, Option, none, some, List, ◌∷◌, lookup,
  remove_key, All, remove_key-All, lookup-All, sum, weights, weights-remove_key, weights-lookup,
  if_ind, add_u64, arith, OnSome,
}
use des_cartes.Core.Time.{Duration, from_duration}
use des_cartes.Core.Ids.{Uuid}
use des_cartes.Core.Request.{RequestAttempt, RequestAttemptId, RequestId, Response, is_success}
use des_cartes.Core.Scheduler.{Scheduler, schedule}
use des_cartes.Components.Retry.{RetryPolicy}
use des_cartes.Components.Retry.Bounds.{Limits}
use des_cartes.Components.Service.{
  ClientEvent, send_request, response_received, request_timeout, retry_request, ServiceEvent,
  to_server, to_client, addressed,
}
use des_cartes.Components.Client.{
  Client, remove_active, send_attempt, after_failure, response_to, handle_response, after_timeout,
  timeout_of, handle_timeout, retry_of, handle_retry, handle_send, process_event,
}

-- The retries that are due for a client.
abbrev pub retries : ServiceEvent → ℕ
retries (to_server e) = 0
retries (to_client (retry_request request_id)) = 1
retries (to_client send_request) = 0
retries (to_client (response_received response)) = 0
retries (to_client (request_timeout request_id attempt_id)) = 0

-- The requests that an event starts.
abbrev pub starts : ClientEvent → ℕ
starts send_request = 1
starts (retry_request request_id) = 0
starts (response_received response) = 0
starts (request_timeout request_id attempt_id) = 0

module _ {P : Type 0} {policy : RetryPolicy P} (limits : Limits policy) where
  abbrev pub Allowed : RequestId × (RequestAttempt × P) → Type 0
  Allowed e = limits.Valid e.1.1

  -- The retries that the policies of the waiting requests would still allow.
  abbrev pub spare : List (RequestId × (RequestAttempt × P)) → ℕ
  spare m = weights (λ (w : RequestAttempt × P). limits.left w.1) m

  without-Allowed :
      (k : ℕ) (m : List (RequestId × (RequestAttempt × P)))
      → All Allowed m
      → All Allowed (remove_key k m)
  without-Allowed k m h = remove_key-All k m (λ e v ne. v) h

module _ {P T R : Type 0} {policy : RetryPolicy P} (limits : Limits policy) (self_id : Uuid) where
  -- The attempts that were made, those that are still allowed, and the retries that are due, `due` of
  -- them at this moment, are paid for by the requests that were sent.
  pub record WithinBudget (due : ℕ) (client : Client P) (s : Scheduler ServiceEvent T R)
      : Type 0 where
    pub allowed : All (Allowed limits) client.active_requests
    pub finite : policy.max_attempts client.retry_policy < 2 ^ 64 - 1
    pub spent :
        client.next_attempt_id
          + spare limits client.active_requests
          + due
          + sum (addressed retries self_id) s.events
        ≤ 1 + client.requests_sent * (1 + policy.max_attempts client.retry_policy)

-- One more request pays for one more share.
pays : (r b x : ℕ) → r + 1 < 2 ^ 64 → x ≤ 1 + r * b → x + b ≤ 1 + add_u64 r 1 * b
pays r b x room h = let one : add_u64 r 1 ≡ suc r = omega (arith, room) in rw one (omega (arith, h))

module _ {P T R : Type 0} (policy : RetryPolicy P) (limits : Limits policy) (body : ℕ → List ℕ)
    (self_id : Uuid) where
  -- A request that is waiting is tried again, by a policy that has a retry fewer left.
  retried :
      (request_id : RequestId) (attempt : RequestAttempt) (p p' : P) (delay : Duration)
      (rest : List (RequestId × (RequestAttempt × P))) (client : Client P)
      (s : Scheduler ServiceEvent T R)
      → All (Allowed limits) rest
      → limits.left p + spare limits rest ≤ spare limits client.active_requests
      → limits.Valid p' × (limits.left p' < limits.left p)
      → WithinBudget limits self_id 0 client s
      → WithinBudget limits self_id 0
          (record client { active_requests = (request_id, (attempt, p')) ∷ rest })
          (schedule delay self_id (to_client (retry_request request_id)) s)
  unfolding schedule
  retried request_id attempt p p' delay rest client s a w v h = record {
    allowed = (v.0, a);
    finite = h.finite;
    spent = ground (arith, h.spent, w, v.1);
  }

  -- A request that is given up.
  removed :
      (request_id : RequestId) (client : Client P) (s : Scheduler ServiceEvent T R)
      → WithinBudget limits self_id 0 client s
      → WithinBudget limits self_id 0 (remove_active request_id client) s
  removed request_id client s h = record {
    allowed = without-Allowed limits request_id client.active_requests h.allowed;
    finite = h.finite;
    spent = omega (
      arith,
      h.spent,
      weights-remove_key (λ (w : RequestAttempt × P). limits.left w.1) request_id
          client.active_requests,
    );
  }

  after_failure-WithinBudget :
      (request_id : RequestId) (attempt : RequestAttempt) (p : P) (o : Option Duration) (p' : P)
      (client : Client P) (s : Scheduler ServiceEvent T R)
      → lookup request_id client.active_requests ≡ some (attempt, p)
      → OnSome (λ delay. limits.Valid p' × (limits.left p' < limits.left p)) o
      → WithinBudget limits self_id 0 client s
      → let r =
          after_failure policy body request_id attempt self_id
            (o, p')
            (remove_active request_id client)
            s in
        WithinBudget limits self_id 0 r.0 r.1
  after_failure-WithinBudget request_id attempt p none p' client s e v h =
      removed request_id client s h
  after_failure-WithinBudget request_id attempt p (some delay) p' client s e v h =
      let m = client.active_requests in
      let f : RequestAttempt × P → ℕ = λ w. limits.left w.1 in
      let a = without-Allowed limits request_id m h.allowed in
      let w = weights-lookup f request_id (attempt, p) m e in
      let again = weights-remove_key f request_id (remove_key request_id m) in
      retried request_id attempt p p' (from_duration delay)
        (remove_key request_id (remove_key request_id m)) client s
        (without-Allowed limits request_id (remove_key request_id m) a) (omega (arith, w, again)) v
        h

  after_timeout-WithinBudget :
      (request_id : RequestId) (attempt : RequestAttempt) (p : P) (o : Option Duration) (p' : P)
      (client : Client P) (s : Scheduler ServiceEvent T R)
      → lookup request_id client.active_requests ≡ some (attempt, p)
      → OnSome (λ delay. limits.Valid p' × (limits.left p' < limits.left p)) o
      → WithinBudget limits self_id 0 client s
      → let r = after_timeout policy body request_id attempt self_id (o, p') client s in
        WithinBudget limits self_id 0 r.0 r.1
  after_timeout-WithinBudget request_id attempt p none p' client s e v h =
      removed request_id client s h
  after_timeout-WithinBudget request_id attempt p (some delay) p' client s e v h =
      let m = client.active_requests in
      retried request_id attempt p p' (from_duration delay) (remove_key request_id m) client s
        (without-Allowed limits request_id m h.allowed)
        (weights-lookup (λ (w : RequestAttempt × P). limits.left w.1) request_id (attempt, p) m e) v
        h

  handle_response-WithinBudget :
      (response : Response) (client : Client P) (s : Scheduler ServiceEvent T R)
      → WithinBudget limits self_id 0 client s
      → let r = handle_response policy body response self_id client s in
        WithinBudget limits self_id 0 r.0 r.1
  unfolding handle_response
  handle_response-WithinBudget response client s h =
      let m = client.active_requests in go (lookup response.request_id m) refl
    where
      go :
          (o : Option (RequestAttempt × P))
          → lookup response.request_id client.active_requests ≡ o
          → let r = response_to policy body response self_id o client s in
            WithinBudget limits self_id 0 r.0 r.1
      go none e = h
      go (some (attempt, p)) e =
          let v = limits.retry attempt (some response) p (
            lookup-All (λ (w : RequestAttempt × P). limits.Valid w.1) response.request_id _
              client.active_requests h.allowed e) in
          let r = policy.should_retry attempt (some response) p in
          if_ind
            (λ (r : Client P × Scheduler ServiceEvent T R). WithinBudget limits self_id 0 r.0 r.1)
            (is_success response) (λ _. removed response.request_id client s h)
            (λ _. after_failure-WithinBudget response.request_id attempt p r.0 r.1 client s e v h)

  handle_timeout-WithinBudget :
      (request_id : RequestId) (attempt_id : RequestAttemptId) (client : Client P)
      (s : Scheduler ServiceEvent T R)
      → WithinBudget limits self_id 0 client s
      → let r = handle_timeout policy body request_id attempt_id self_id client s in
        WithinBudget limits self_id 0 r.0 r.1
  unfolding handle_timeout
  handle_timeout-WithinBudget request_id attempt_id client s h =
      go (lookup request_id client.active_requests) refl
    where
      go :
          (o : Option (RequestAttempt × P))
          → lookup request_id client.active_requests ≡ o
          → let r = timeout_of policy body request_id attempt_id self_id o client s in
            WithinBudget limits self_id 0 r.0 r.1
      go none e = h
      go (some (attempt, p)) e =
          let v = limits.retry attempt none p (
            lookup-All (λ (w : RequestAttempt × P). limits.Valid w.1) request_id _
              client.active_requests h.allowed e) in
          let r = policy.should_retry attempt none p in
          if_ind
            (λ (r : Client P × Scheduler ServiceEvent T R). WithinBudget limits self_id 0 r.0 r.1)
            (attempt.id == attempt_id)
            (λ _. after_timeout-WithinBudget request_id attempt p r.0 r.1 client s e v h) (λ _. h)

  handle_retry-WithinBudget :
      (request_id : RequestId) (client : Client P) (s : Scheduler ServiceEvent T R)
      → WithinBudget limits self_id 1 client s
      → let r = handle_retry policy body request_id self_id client s in
        WithinBudget limits self_id 0 r.0 r.1
  unfolding handle_retry retry_of send_attempt schedule
  handle_retry-WithinBudget request_id client s h =
      go (lookup request_id client.active_requests) refl
    where
      go :
          (o : Option (RequestAttempt × P))
          → lookup request_id client.active_requests ≡ o
          → let r = retry_of policy body request_id self_id o client s in
            WithinBudget limits self_id 0 r.0 r.1
      go none e = record { allowed = h.allowed; finite = h.finite; spent = omega (arith, h.spent) }
      go (some (attempt, p)) e =
          let m = client.active_requests in
          let f : RequestAttempt × P → ℕ = λ w. limits.left w.1 in
          let once = without-Allowed limits request_id m h.allowed in
          let w = weights-lookup f request_id (attempt, p) m e in
          let again = weights-remove_key f request_id (remove_key request_id m) in
          record {
            allowed = (
              lookup-All (λ (w : RequestAttempt × P). limits.Valid w.1) request_id _ m h.allowed e,
              without-Allowed limits request_id (remove_key request_id m) once,
            );
            finite = h.finite;
            spent = ground (arith, h.spent, w, again);
          }

  handle_send-WithinBudget :
      (client : Client P) (s : Scheduler ServiceEvent T R)
      → client.requests_sent + 1 < 2 ^ 64
      → WithinBudget limits self_id 0 client s
      → let r = handle_send policy body self_id client s in WithinBudget limits self_id 0 r.0 r.1
  unfolding handle_send send_attempt schedule
  handle_send-WithinBudget client s room h =
      let m = client.active_requests in
      let p = client.retry_policy in
      record {
        allowed = (
          limits.reset_valid p h.finite,
          without-Allowed limits client.next_request_id m h.allowed,
        );
        finite = h.finite;
        spent = ground (
          arith,
          pays client.requests_sent (1 + policy.max_attempts p) _ room h.spent,
          limits.reset_left p,
          weights-remove_key (λ (w : RequestAttempt × P). limits.left w.1) client.next_request_id m,
        );
      }

  -- For a policy that answers with a delay only while it has retries left: if the next attempt
  -- number, the retries that the waiting requests still have, and the retries due, the event in
  -- hand among them, are together at most one more than the requests sent times one more than the
  -- policy's number of attempts, then they are so after the client has handled the event, as long
  -- as the number of requests fits in a u64.
  pub process_event-WithinBudget :
      (e : ClientEvent) (client : Client P) (s : Scheduler ServiceEvent T R)
      → client.requests_sent + 1 < 2 ^ 64
      → WithinBudget limits self_id (retries (to_client e)) client s
      → let r = process_event policy body self_id e client s in
        WithinBudget limits self_id 0 r.0 r.1
  unfolding process_event
  process_event-WithinBudget send_request client s room h = handle_send-WithinBudget client s room h
  process_event-WithinBudget (response_received response) client s room h =
      handle_response-WithinBudget response client s h
  process_event-WithinBudget (request_timeout request_id attempt_id) client s room h =
      handle_timeout-WithinBudget request_id attempt_id client s h
  process_event-WithinBudget (retry_request request_id) client s room h =
      handle_retry-WithinBudget request_id client s h
