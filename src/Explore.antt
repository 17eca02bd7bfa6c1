-- ===== src/Explore.antt =====
-- des-explore: recorded scheduling decisions, scripts that force them, and their replay.
pub mod Script
pub mod Frontier
pub mod Replay
pub mod Runs
pub mod Forced
pub mod Ready
pub mod Polls
pub mod Cycles
pub mod CycleReplay
