-- ===== src/BackgroundJob.antt =====
-- app/modules/background_job: media validation and media deletion as durable jobs that are claimed,
-- handed to the task queue, run, retried and completed.
pub mod Model
pub mod Intent
pub mod Dispatch
pub mod Claims
pub mod Execute
pub mod Rows
pub mod Changes
pub mod Steps
pub mod Attempts
pub mod Lifetime
pub mod Race
pub mod Runs
pub mod Policy
pub mod Leases
mod Tests
