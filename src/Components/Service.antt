-- ===== src/Components/Service.antt =====
-- The events that servers and clients exchange: `ServerEvent` of des-components/src/server.rs and
-- `ClientEvent` of des-components/src/simple_client.rs. The scheduler keeps either kind in a box.
use des_cartes.Prelude.{ℕ, List, ◌==◌, if◌then◌else◌}
use des_cartes.Core.Ids.{Uuid}
use des_cartes.Core.Request.{RequestAttempt, RequestAttemptId, RequestId, Response}
use des_cartes.Core.Scheduler.{EventEntry, component, task}

pub data ServerEvent : Type 0 where
  process_request : (attempt : RequestAttempt) (client_id : Uuid) → ServerEvent
  request_completed :
      (attempt_id : RequestAttemptId) (request_id : RequestId) (client_id : Uuid)
      (request_payload : List ℕ)
      → ServerEvent
  process_queued_requests : ServerEvent

pub data ClientEvent : Type 0 where
  send_request : ClientEvent
  response_received : (response : Response) → ClientEvent
  request_timeout : (request_id : RequestId) (attempt_id : RequestAttemptId) → ClientEvent
  retry_request : (request_id : RequestId) → ClientEvent

pub data ServiceEvent : Type 0 where
  to_server : ServerEvent → ServiceEvent
  to_client : ClientEvent → ServiceEvent

-- The weight of the events that are addressed to a component.
abbrev pub addressed : (ServiceEvent → ℕ) → Uuid → EventEntry ServiceEvent → ℕ
addressed f self_id (component e) = if e.component == self_id then f e.inner else 0
addressed f self_id (task e) = 0
