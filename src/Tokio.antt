-- ===== src/Tokio.antt =====
-- des-tokio: the synchronisation primitives on the simulated runtime.
pub mod Semaphore
pub mod Mpsc
pub mod Barrier
pub mod Mutex
pub mod Notify
pub mod Oneshot
pub mod Watch
