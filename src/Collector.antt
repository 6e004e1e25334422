-- ===== src/Collector.antt =====
-- The collectors of workflows/grfpo_fragmented_collection.py, which fill a collection window.
pub mod World
pub mod Lanes
pub mod Waves
pub mod Group
pub mod Queue
pub mod Run
pub mod Steady
pub mod Rules
pub mod Warm
pub mod Released
pub mod Tiling
pub mod Logged
pub mod Slots
pub mod Gives
pub mod Live
pub mod Completes
pub mod Ends
mod Examples
