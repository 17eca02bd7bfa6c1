-- ===== src/Core.antt =====
-- des-core: simulated time, the event scheduler and the simulation loop.
pub mod Time
pub mod Ids
pub mod Heap
pub mod Scheduler
pub mod Simulation
pub mod Request
pub mod Runtime
