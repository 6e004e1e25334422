-- ===== src/Recap.antt =====
-- The returns of the RECAP workflow (workflows/train/recap/compute_return.py).
pub mod Returns
pub mod Grouped
pub mod Total
mod Examples
