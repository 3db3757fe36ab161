-- ===== src/Dispatch.antt =====
-- app/modules/dispatch: the setup of a job's dispatch, its confirmation, the manager's view, and
-- the check-in of the field worker.
pub mod Model
pub mod Lookups
pub mod Checks
pub mod View
pub mod Commands
pub mod Options
pub mod Confirm
pub mod CheckIn
pub mod Requests
pub mod Effects
pub mod Plans
pub mod Changes
pub mod Lifecycle
pub mod Invariants
pub mod Once
pub mod Arrived
pub mod Refinement
pub mod Announced
mod Tests
pub mod Selection
pub mod Accepted
pub mod Confirmed
pub mod Arrivals
