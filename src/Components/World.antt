-- ===== src/Components/World.antt =====
-- A simulation of servers and clients (des-components/src/server.rs and simple_client.rs) under
-- des-core/src/lib.rs: the table of components holds servers and clients, and each event is handed to
-- the handler of the component that it is addressed to.
pub mod Effects
pub mod Soundness
pub mod Steps
use des_cartes.Prelude.{ℕ, Option, List, []}
use des_cartes.Core.Time.{Duration}
use des_cartes.Core.Ids.{Uuid}
use des_cartes.Core.Scheduler.{Scheduler, ComponentEventEntry}
use des_cartes.Core.Simulation.{Handlers, DeferredWake}
use des_cartes.Components.Queue.{Queue}
use des_cartes.Components.Retry.{RetryPolicy}
use des_cartes.Components.Service.{ServiceEvent, to_server, to_client}
use des_cartes.Components.Server.{Server}
use des_cartes.Components.Server
use des_cartes.Components.Client.{Client}
use des_cartes.Components.Client

pub data Part (Q D P : Type 0) : Type 0 where
  server_part : Server Q D → Part Q D P
  client_part : Client P → Part Q D P

module _ {Q D P T R : Type 0} (impl : Queue Q) (sample : D → List ℕ → Duration × D)
    (policy : RetryPolicy P) (body : ℕ → List ℕ) where
  -- `process_event_entry` of a component. An event of the other kind is a panic of its `downcast`.
  unfoldable pub handle_part :
      Uuid
      → ServiceEvent
      → Part Q D P
      → Scheduler ServiceEvent T R
      → Part Q D P × Scheduler ServiceEvent T R
  unfolding Server.process_event Client.process_event
  handle_part id (to_server e) (server_part server) s =
      let (server', s') = Server.process_event impl sample id e server s in
      (server_part server', s')
  handle_part id (to_client e) (client_part client) s =
      let (client', s') = Client.process_event policy body id e client s in
      (client_part client', s')
  handle_part id (to_client e) (server_part server) s = (server_part server, s)
  handle_part id (to_server e) (client_part client) s = (client_part client, s)

  -- `execute` is what the tasks do, such as the periodic tasks that start requests.
  unfoldable pub service_handlers :
      (T → Scheduler ServiceEvent T R → Option R × Scheduler ServiceEvent T R)
      → Handlers (Part Q D P) ServiceEvent T R
  unfolding handle_part
  service_handlers execute = record {
    process_event =
        λ part e s. let (part', s') = handle_part e.component e.inner part s in (part', s', []);
    execute = execute;
    defers = λ boxed s. [];
  }
