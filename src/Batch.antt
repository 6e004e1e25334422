-- ===== src/Batch.antt =====
-- Candidate batches of the GRFPO trainer (trainer/grfpo/grfpo_ray_trainer.py), the validation of a group
-- (trainer/grfpo/group_validation.py) and the batch of the FPO actor (trainer/grfpo/rollout_batch.py).
pub mod Compact
pub mod Filled
pub mod Size
pub mod Score
pub mod Group
pub mod Informative
mod Examples
