-- ===== src/Components/Client.antt =====
-- des-components/src/simple_client.rs: a client that sends requests, waits for each with a timeout,
-- and sends it again when its retry policy says so. What it prints and measures is left out; `body`
-- is the payload's format string, applied to the number of the request. Counters are u64.
pub mod Budget
pub mod Watch
pub mod Stays
use des_cartes.Prelude.{
  ℕ, ◌+◌, Bool, true, false, Option, none, some, List, [], ◌==◌, lookup, remove_key, insert_key,
  if◌then◌else◌, add_u64,
}
use des_cartes.Core.Time.{Duration, from_duration}
use des_cartes.Core.Ids.{Uuid}
use des_cartes.Core.Request.{
  RequestAttempt, RequestAttemptId, RequestId, Response, new_attempt, is_success,
}
use des_cartes.Core.Scheduler.{Scheduler, schedule, schedule_now, time}
use des_cartes.Components.Retry.{RetryPolicy}
use des_cartes.Components.Service.{
  process_request, ClientEvent, send_request, response_received, request_timeout, retry_request,
  ServiceEvent, to_server, to_client,
}

pub record Client (P : Type 0) : Type 0 where
  pub server_key : Uuid
  pub requests_sent : ℕ
  pub max_requests : Option ℕ
  pub next_request_id : ℕ
  pub next_attempt_id : ℕ
  pub retry_policy : P
  pub request_timeout : Duration
  pub active_requests : List (RequestId × (RequestAttempt × P))

module _ {P : Type 0} where
  abbrev pub new : Uuid → P → Client P
  new server_key retry_policy = record {
    server_key = server_key;
    requests_sent = 0;
    max_requests = none;
    next_request_id = 1;
    next_attempt_id = 1;
    retry_policy = retry_policy;
    request_timeout = 5_000_000_000;
    active_requests = [];
  }

  abbrev pub with_max_requests : ℕ → Client P → Client P
  with_max_requests max_requests client = record client { max_requests = some max_requests }

  abbrev pub with_timeout : Duration → Client P → Client P
  with_timeout timeout client = record client { request_timeout = timeout }

  abbrev pub insert_active : RequestId → RequestAttempt → P → Client P → Client P
  insert_active request_id attempt policy client = record client {
    active_requests = insert_key request_id (attempt, policy) client.active_requests;
  }

  abbrev pub remove_active : RequestId → Client P → Client P
  remove_active request_id client = record client {
    active_requests = remove_key request_id client.active_requests;
  }

module _ {P T R : Type 0} (policy : RetryPolicy P) (body : ℕ → List ℕ) where
  unfoldable pub send_attempt :
      RequestId
      → ℕ
      → Uuid
      → Client P
      → Scheduler ServiceEvent T R
      → RequestAttempt × Client P × Scheduler ServiceEvent T R
  unfolding schedule time
  send_attempt request_id attempt_number self_id client s =
      let id = client.next_attempt_id in
      let attempt = new_attempt id request_id attempt_number (time s) (body request_id) in
      let timed =
        schedule (from_duration client.request_timeout) self_id
          (to_client (request_timeout request_id id)) s in
      (
        attempt,
        record client { next_attempt_id = add_u64 id 1 },
        schedule_now client.server_key (to_server (process_request attempt self_id)) timed,
      )

  -- The rest of `handle_response` once the policy has answered; the request was taken out.
  abbrev pub after_failure :
      RequestId
      → RequestAttempt
      → Uuid
      → Option Duration × P
      → Client P
      → Scheduler ServiceEvent T R
      → Client P × Scheduler ServiceEvent T R
  after_failure request_id attempt self_id (none, p) client s = (client, s)
  after_failure request_id attempt self_id (some delay, p) client s = (
    insert_active request_id attempt p client,
    schedule (from_duration delay) self_id (to_client (retry_request request_id)) s,
  )

  abbrev pub response_to :
      Response
      → Uuid
      → Option (RequestAttempt × P)
      → Client P
      → Scheduler ServiceEvent T R
      → Client P × Scheduler ServiceEvent T R
  response_to response self_id none client s = (client, s)
  response_to response self_id (some (attempt, p)) client s =
      let client' = remove_active response.request_id client in
      if is_success response
      then (client', s)
      else after_failure response.request_id attempt self_id
          (policy.should_retry attempt (some response) p) client' s

  unfoldable pub handle_response :
      Response
      → Uuid
      → Client P
      → Scheduler ServiceEvent T R
      → Client P × Scheduler ServiceEvent T R
  unfolding schedule
  handle_response response self_id client s =
      response_to response self_id (lookup response.request_id client.active_requests) client s

  -- The rest of `handle_timeout` once the policy has answered.
  abbrev pub after_timeout :
      RequestId
      → RequestAttempt
      → Uuid
      → Option Duration × P
      → Client P
      → Scheduler ServiceEvent T R
      → Client P × Scheduler ServiceEvent T R
  after_timeout request_id attempt self_id (none, p) client s = (remove_active request_id client, s)
  after_timeout request_id attempt self_id (some delay, p) client s = (
    insert_active request_id attempt p client,
    schedule (from_duration delay) self_id (to_client (retry_request request_id)) s,
  )

  abbrev pub timeout_of :
      RequestId
      → RequestAttemptId
      → Uuid
      → Option (RequestAttempt × P)
      → Client P
      → Scheduler ServiceEvent T R
      → Client P × Scheduler ServiceEvent T R
  timeout_of request_id attempt_id self_id none client s = (client, s)
  timeout_of request_id attempt_id self_id (some (attempt, p)) client s =
      if attempt.id == attempt_id
      then after_timeout request_id attempt self_id (policy.should_retry attempt none p) client s
      else (client, s)

  unfoldable pub handle_timeout :
      RequestId
      → RequestAttemptId
      → Uuid
      → Client P
      → Scheduler ServiceEvent T R
      → Client P × Scheduler ServiceEvent T R
  unfolding schedule
  handle_timeout request_id attempt_id self_id client s =
      timeout_of request_id attempt_id self_id (lookup request_id client.active_requests) client s

  unfoldable pub retry_of :
      RequestId
      → Uuid
      → Option (RequestAttempt × P)
      → Client P
      → Scheduler ServiceEvent T R
      → Client P × Scheduler ServiceEvent T R
  unfolding send_attempt
  retry_of request_id self_id none client s = (client, s)
  retry_of request_id self_id (some (attempt, p)) client s =
      let (sent, client', s') =
        send_attempt request_id (add_u64 attempt.attempt_number 1) self_id
          (remove_active request_id client) s in
      (insert_active request_id sent p client', s')

  unfoldable pub handle_retry :
      RequestId
      → Uuid
      → Client P
      → Scheduler ServiceEvent T R
      → Client P × Scheduler ServiceEvent T R
  unfolding retry_of
  handle_retry request_id self_id client s =
      retry_of request_id self_id (lookup request_id client.active_requests) client s

  unfoldable pub handle_send :
      Uuid → Client P → Scheduler ServiceEvent T R → Client P × Scheduler ServiceEvent T R
  unfolding send_attempt
  handle_send self_id client s =
      let request_id = client.next_request_id in
      let (attempt, client', s') =
        send_attempt request_id 1 self_id (record client { next_request_id = add_u64 request_id 1 })
          s in
      let client'' = insert_active request_id attempt (policy.reset client.retry_policy) client' in
      (record client'' { requests_sent = add_u64 client.requests_sent 1 }, s')

  unfoldable pub process_event :
      Uuid
      → ClientEvent
      → Client P
      → Scheduler ServiceEvent T R
      → Client P × Scheduler ServiceEvent T R
  unfolding handle_response handle_timeout handle_retry handle_send
  process_event self_id send_request client s = handle_send self_id client s
  process_event self_id (response_received response) client s =
      handle_response response self_id client s
  process_event self_id (request_timeout request_id attempt_id) client s =
      handle_timeout request_id attempt_id self_id client s
  process_event self_id (retry_request request_id) client s =
      handle_retry request_id self_id client s
