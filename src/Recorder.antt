-- ===== src/Recorder.antt =====
-- The recorders of episodes (recorder/async_recorder.py, recorder/recorder.py, recorder/impl/lerobot.py).
pub mod Interface
pub mod Async
pub mod Order
pub mod Sync
pub mod Barrier
pub mod Lerobot
pub mod Episodes
pub mod Promise
mod Examples
