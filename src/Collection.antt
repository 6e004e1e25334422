-- ===== src/Collection.antt =====
-- The durable collection window of trainer/grfpo/collection_store.py.
pub mod Names
pub mod Spec
pub mod Window
pub mod Leases
pub mod Commit
pub mod Close
pub mod Schedule
pub mod System
pub mod Invariant
pub mod Safety
pub mod Outcomes
pub mod Claims
pub mod Refused
pub mod Origins
pub mod Fencing
pub mod Stuck
pub mod Ids
pub mod Validity
pub mod Lanes
pub mod Assigned
pub mod Rounds
pub mod Loading
mod Examples
mod ScheduleExamples
