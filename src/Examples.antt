-- ===== src/Examples.antt =====
-- Concrete runs of the models, to which the theorems are applied.
mod Core
mod Runtime
mod Explore
mod Sync
mod Barrier
mod Mutex
mod Wire
mod Service
mod Client
mod World
mod Tower
mod Signals
mod Watch
