-- ===== src/MoveJob.antt =====
-- app/modules/move_job: the list of a participant's jobs and the cursor of its pages.
pub mod Base64
pub mod Decimal
pub mod Cursor
pub mod Topology
pub mod Creation
pub mod Admission
pub mod Listing
pub mod Cancel
pub mod Paging
mod Tests
