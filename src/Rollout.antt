-- ===== src/Rollout.antt =====
-- From rollouts to training rows: trainer/sac/episode_buffer.py and utils/data.py.
pub mod Buffer
pub mod Episodes
pub mod Masks
pub mod Segments
pub mod Progress
pub mod Edges
mod Examples
