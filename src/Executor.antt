-- ===== src/Executor.antt =====
-- The executors of action chunks (envs/action_executor.py).
pub mod Chunk
pub mod Loop
pub mod Steps
pub mod Lengths
pub mod Waiting
pub mod Progress
pub mod Planned
pub mod Aligned
pub mod Timing
pub mod Failure
pub mod Upsampling
pub mod Serial
pub mod SerialLanes
pub mod SerialResets
mod Examples
mod SerialExamples
