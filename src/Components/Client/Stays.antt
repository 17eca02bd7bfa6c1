-- ===== src/Components/Client/Stays.antt =====
-- Which requests wait in a client of des-components/src/simple_client.rs after an event.
use des_cartes.Prelude.{
  ℕ, ◌≡◌, refl, sym, subst, ◌∙◌, ap, ◌==◌, ◌&&◌, ◌||◌, Bool, true, false, not, inl, inr, Bool-cases,
  Option, none, some, List, lookup, remove_key, insert_key, lookup-remove_key, lookup-insert_key,
  if◌then◌else◌, if_ind, add_u64, ==_iff,
}
use des_cartes.Core.Time.{Duration}
use des_cartes.Core.Ids.{Uuid}
use des_cartes.Core.Request.{RequestAttempt, RequestAttemptId, RequestId, Response, is_success}
use des_cartes.Core.Scheduler.{Scheduler}
use des_cartes.Components.Retry.{RetryPolicy}
use des_cartes.Components.Service.{
  ClientEvent, send_request, response_received, request_timeout, retry_request, ServiceEvent,
  to_client,
}
use des_cartes.Components.Client.{
  Client, send_attempt, after_failure, response_to, handle_response, after_timeout, timeout_of,
  handle_timeout, retry_of, handle_retry, handle_send, process_event, remove_active,
}
use des_cartes.Components.Client.Watch.{IsWatched, attends, nothing, process_event-IsWatched}

abbrev pub waits {ℓ} : {A : Type ℓ} → Option A → Bool
waits none = false
waits (some a) = true

abbrev pub is_new : {P : Type 0} → ClientEvent → Client P → RequestId → Bool
is_new send_request client rid = client.next_request_id == rid
is_new (response_received response) client rid = false
is_new (request_timeout request_id attempt_id) client rid = false
is_new (retry_request request_id) client rid = false

module _ {P : Type 0} (policy : RetryPolicy P) where
  -- The policy allows no other attempt.
  abbrev pub refuses : Option Response → RequestAttempt × P → Bool
  refuses response (attempt, p) = not (waits (policy.should_retry attempt response p).0)

  -- A request that waits is through with the event: it was answered, or it failed for good.
  abbrev pub finishes : ClientEvent → RequestId → RequestAttempt × P → Bool
  finishes send_request rid w = false
  finishes (response_received response) rid w =
      (response.request_id == rid) && (is_success response || refuses (some response) w)
  finishes (request_timeout request_id attempt_id) rid w =
      (request_id == rid) && ((w.0.id == attempt_id) && refuses none w)
  finishes (retry_request request_id) rid w = false

  abbrev pub stays : ClientEvent → RequestId → Option (RequestAttempt × P) → Bool
  stays e rid none = false
  stays e rid (some w) = not (finishes e rid w)

by_key {κ} : (k : ℕ) (Q : ℕ → Type κ) → Q k → ((j : ℕ) → (k == j) ≡ false → Q j) → (j : ℕ) → Q j
by_key k Q h others j = elim (Bool-cases (k == j)) [
  | inl e ↦ let same : k ≡ j = (==_iff k j).0 e in subst Q same h
  | inr e ↦ others j e
]

self_eq : (k : ℕ) → (k == k) ≡ true
self_eq k = (==_iff k k).1 refl

not-not : (b : Bool) → b ≡ not (not b)
not-not true = refl
not-not false = refl

module _ {V : Type 0} (k : ℕ) (m : List (ℕ × V)) where
  waits-insert_key :
      (v : V) (j : ℕ) → waits (lookup j (insert_key k v m)) ≡ ((k == j) || waits (lookup j m))
  waits-insert_key v j = ap waits (lookup-insert_key k j v m) ∙ go (k == j)
    where
      go : (b : Bool) → waits (if b then some v else lookup j m) ≡ (b || waits (lookup j m))
      go true = refl
      go false = refl

  waits-remove_key :
      (j : ℕ) → waits (lookup j (remove_key k m)) ≡ (not (k == j) && waits (lookup j m))
  waits-remove_key j = ap waits (lookup-remove_key k j m) ∙ go (k == j)
    where
      go : (b : Bool) → waits (if b then none else lookup j m) ≡ (not b && waits (lookup j m))
      go true = refl
      go false = refl

module _ {P : Type 0} (policy : RetryPolicy P) where
  stays-other :
      (e : ClientEvent) (j : RequestId) (o : Option (RequestAttempt × P))
      → ((w : RequestAttempt × P) → finishes policy e j w ≡ false)
      → waits o ≡ stays policy e j o
  stays-other e j none h = refl
  stays-other e j (some w) h = sym (ap not (h w))

module _ {P T R : Type 0} (policy : RetryPolicy P) (body : ℕ → List ℕ) (self_id : Uuid) where
  -- The request `j` waits in the client exactly where `b` says so.
  abbrev Waits : ℕ → Bool → Client P × Scheduler ServiceEvent T R → Type 0
  Waits j b r = waits (lookup j r.0.active_requests) ≡ b

  -- After a failure the request waits where the policy allows another attempt.
  failure-Waits :
      (k : RequestId) (attempt : RequestAttempt) (client : Client P)
      (s : Scheduler ServiceEvent T R) (r : Option Duration × P)
      → Waits k
          (waits r.0)
          (after_failure policy body k attempt self_id r (remove_active k client) s)
  failure-Waits k attempt client s (none, p) =
      waits-remove_key k client.active_requests k ∙ rw (self_eq k) refl
  failure-Waits k attempt client s (some delay, p) =
      waits-insert_key k (remove_key k client.active_requests) (attempt, p) k ∙ rw (self_eq k) refl

  failure-others :
      (k j : RequestId) (attempt : RequestAttempt) (client : Client P)
      (s : Scheduler ServiceEvent T R) (r : Option Duration × P)
      → (k == j) ≡ false
      → Waits j
          (waits (lookup j client.active_requests))
          (after_failure policy body k attempt self_id r (remove_active k client) s)
  failure-others k j attempt client s (none, p) ne =
      waits-remove_key k client.active_requests j ∙ rw ne refl
  failure-others k j attempt client s (some delay, p) ne =
      waits-insert_key k (remove_key k client.active_requests) (attempt, p) j
      ∙ rw ne (waits-remove_key k client.active_requests j ∙ rw ne refl)

  timeout-Waits :
      (k : RequestId) (attempt : RequestAttempt) (client : Client P)
      (s : Scheduler ServiceEvent T R) (r : Option Duration × P)
      → Waits k (waits r.0) (after_timeout policy body k attempt self_id r client s)
  timeout-Waits k attempt client s (none, p) =
      waits-remove_key k client.active_requests k ∙ rw (self_eq k) refl
  timeout-Waits k attempt client s (some delay, p) =
      waits-insert_key k client.active_requests (attempt, p) k ∙ rw (self_eq k) refl

  timeout-others :
      (k j : RequestId) (attempt : RequestAttempt) (client : Client P)
      (s : Scheduler ServiceEvent T R) (r : Option Duration × P)
      → (k == j) ≡ false
      → Waits j
          (waits (lookup j client.active_requests))
          (after_timeout policy body k attempt self_id r client s)
  timeout-others k j attempt client s (none, p) ne =
      waits-remove_key k client.active_requests j ∙ rw ne refl
  timeout-others k j attempt client s (some delay, p) ne =
      waits-insert_key k client.active_requests (attempt, p) j ∙ rw ne refl

  response-stays :
      (response : Response) (client : Client P) (s : Scheduler ServiceEvent T R) (j : RequestId)
      → Waits j
          (stays policy (response_received response) j (lookup j client.active_requests))
          (handle_response policy body response self_id client s)
  unfolding handle_response
  response-stays response client s =
      by_key response.request_id _ (own (lookup response.request_id client.active_requests) refl)
        (λ j ne.
          other j ne (lookup response.request_id client.active_requests)
          ∙ stays-other policy e j (lookup j client.active_requests) (λ w. rw ne refl))
    where
      k : RequestId
      k = response.request_id

      e : ClientEvent
      e = response_received response

      own :
          (o : Option (RequestAttempt × P))
          → lookup k client.active_requests ≡ o
          → Waits k (stays policy e k o) (response_to policy body response self_id o client s)
      own none n = ap waits n
      own (some (attempt, p)) n =
          if_ind (Waits k (stays policy e k (some (attempt, p)))) (is_success response)
            (λ yes. waits-remove_key k client.active_requests k ∙ rw (self_eq k, yes) refl)
            (λ no_success.
              failure-Waits k attempt client s (policy.should_retry attempt (some response) p)
              ∙ rw (self_eq k, no_success) (not-not _))

      other :
          (j : RequestId)
          → (k == j) ≡ false
          → (o : Option (RequestAttempt × P))
          → Waits j
              (waits (lookup j client.active_requests))
              (response_to policy body response self_id o client s)
      other j ne none = refl
      other j ne (some (attempt, p)) =
          if_ind (Waits j (waits (lookup j client.active_requests))) (is_success response)
            (λ yes. waits-remove_key k client.active_requests j ∙ rw ne refl)
            (λ _.
              failure-others k j attempt client s (policy.should_retry attempt (some response) p)
                ne)

  timeout-stays :
      (k : RequestId) (attempt_id : RequestAttemptId) (client : Client P)
      (s : Scheduler ServiceEvent T R) (j : RequestId)
      → Waits j
          (stays policy (request_timeout k attempt_id) j (lookup j client.active_requests))
          (handle_timeout policy body k attempt_id self_id client s)
  unfolding handle_timeout
  timeout-stays k attempt_id client s =
      by_key k _ (own (lookup k client.active_requests) refl) (λ j ne.
        other j ne (lookup k client.active_requests)
        ∙ stays-other policy e j (lookup j client.active_requests) (λ w. rw ne refl))
    where
      e : ClientEvent
      e = request_timeout k attempt_id

      own :
          (o : Option (RequestAttempt × P))
          → lookup k client.active_requests ≡ o
          → Waits k (stays policy e k o) (timeout_of policy body k attempt_id self_id o client s)
      own none n = ap waits n
      own (some (attempt, p)) n =
          if_ind (Waits k (stays policy e k (some (attempt, p)))) (attempt.id == attempt_id)
            (λ last.
              timeout-Waits k attempt client s (policy.should_retry attempt none p)
              ∙ rw (self_eq k, last) (not-not _))
            (λ late. ap waits n ∙ rw (self_eq k, late) refl)

      other :
          (j : RequestId)
          → (k == j) ≡ false
          → (o : Option (RequestAttempt × P))
          → Waits j
              (waits (lookup j client.active_requests))
              (timeout_of policy body k attempt_id self_id o client s)
      other j ne none = refl
      other j ne (some (attempt, p)) =
          if_ind (Waits j (waits (lookup j client.active_requests))) (attempt.id == attempt_id)
            (λ _. timeout-others k j attempt client s (policy.should_retry attempt none p) ne)
            (λ _. refl)

  retry-stays :
      (k : RequestId) (client : Client P) (s : Scheduler ServiceEvent T R) (j : RequestId)
      → Waits j
          (stays policy (retry_request k) j (lookup j client.active_requests))
          (handle_retry policy body k self_id client s)
  unfolding handle_retry retry_of send_attempt
  retry-stays k client s j =
      go (lookup k client.active_requests) refl
      ∙ stays-other policy (retry_request k) j (lookup j client.active_requests) (λ w. refl)
    where
      m : List (RequestId × (RequestAttempt × P))
      m = client.active_requests

      go :
          (o : Option (RequestAttempt × P))
          → lookup k m ≡ o
          → Waits j (waits (lookup j m)) (retry_of policy body k self_id o client s)
      go none n = refl
      go (some (attempt, p)) n =
          let n' = add_u64 attempt.attempt_number 1 in
          let sent = (send_attempt policy body k n' self_id (remove_active k client) s).0 in
          waits-insert_key k (remove_key k m) (sent, p) j
          ∙ ap (λ b. (k == j) || b) (waits-remove_key k m j)
          ∙ elim (Bool-cases (k == j)) [
            | inl e ↦
                let same : k ≡ j = (==_iff k j).0 e in
                rw e (sym (ap waits (subst (λ i. lookup i m ≡ some (attempt, p)) same n)))
            | inr e ↦ rw e refl
          ]

  send-stays :
      (client : Client P) (s : Scheduler ServiceEvent T R) (j : RequestId)
      → Waits j
          ((client.next_request_id == j)
            || stays policy send_request j (lookup j client.active_requests))
          (handle_send policy body self_id client s)
  unfolding handle_send send_attempt
  send-stays client s j =
      waits-insert_key client.next_request_id client.active_requests _ j
      ∙ ap (λ b. (client.next_request_id == j) || b)
          (stays-other policy send_request j (lookup j client.active_requests) (λ w. refl))

  process_event-Waits :
      (e : ClientEvent) (client : Client P) (s : Scheduler ServiceEvent T R) (j : RequestId)
      → Waits j
          (is_new e client j || stays policy e j (lookup j client.active_requests))
          (process_event policy body self_id e client s)
  unfolding process_event
  process_event-Waits send_request client s j = send-stays client s j
  process_event-Waits (response_received response) client s j = response-stays response client s j
  process_event-Waits (request_timeout k attempt_id) client s j =
      timeout-stays k attempt_id client s j
  process_event-Waits (retry_request k) client s j = retry-stays k client s j

  -- If each request that waits has the timeout of its last attempt or a retry due, the event in
  -- hand among them, then so it is after the client has handled the event; and the requests that
  -- wait then are exactly the one that the event sends for the first time and those that waited
  -- before, less one that the event finishes: by a successful response, or by another response or
  -- the timeout of its last attempt where the retry policy allows no other attempt.
  pub process_event-stays :
      (e : ClientEvent) (client : Client P) (s : Scheduler ServiceEvent T R)
      → IsWatched self_id (λ rid aid. attends rid aid (to_client e)) client s
      → let r = process_event policy body self_id e client s in
        IsWatched self_id nothing r.0 r.1
        × ((j : RequestId)
            → waits (lookup j r.0.active_requests)
              ≡ (is_new e client j || stays policy e j (lookup j client.active_requests)))
  process_event-stays e client s h =
      (process_event-IsWatched policy body self_id e client s h, process_event-Waits e client s)
