-- ===== src/Components.antt =====
-- des-components/src: the queues, servers, clients and retry policies from which models of services
-- are built.
pub mod Queue
pub mod Service
pub mod Server
pub mod Retry
pub mod Client
pub mod World
