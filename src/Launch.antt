-- ===== src/Launch.antt =====
-- The launch of a GRFPO chain (trainer/grfpo/launch_config.py, workflows/grfpo_fragmented_collection.py).
pub mod Tasks
pub mod Config
pub mod Window
pub mod Exclusions
pub mod Valid
mod Examples
