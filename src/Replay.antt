-- ===== src/Replay.antt =====
-- The SAC replay pool of utils/replay_pool.py.
pub mod Ring
pub mod Queue
pub mod Fifo
pub mod Allocation
pub mod Pool
pub mod Sound
pub mod Counts
pub mod Storage
mod Examples
