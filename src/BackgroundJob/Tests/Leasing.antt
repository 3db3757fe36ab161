-- ===== src/BackgroundJob/Tests/Leasing.antt =====
-- Two claims of jobs with commands in between, and the theorem on live leases at these inputs.
use seqret_be.Prelude.{List, ◌≡◌, refl, none, some, arith}
use seqret_be.Prelude.Table.{find}
use seqret_be.Prelude.Transaction.{ok}
use seqret_be.Contracts.Events.{is_trace_id}
use seqret_be.Contracts.Maintenance.{MediaValidationWork, is_content_type}
use seqret_be.BackgroundJob.Model.{Db, job_key}
use seqret_be.BackgroundJob.Dispatch.{
  ClaimedBackgroundJob, validation, claim_background_jobs, lease_jobs,
}
use seqret_be.BackgroundJob.Execute.{start_media_validation, is_target}
use seqret_be.BackgroundJob.Steps.{Reach, here, next, start_validation}
use seqret_be.BackgroundJob.Leases.{claim_key}
use seqret_be.BackgroundJob.Leases.Exclusive.{live_dispatch_excludes}
use seqret_be.BackgroundJob.Tests.{db, db-IsValidJobs, free, now, later, trace, task}

first_claim :
    (claims : List ClaimedBackgroundJob) × (db' : Db) × (claim_background_jobs
        (λ n. n)
        free
        now
        100
        60
        db
      ≡ ok (claims, db'))
unfolding claim_background_jobs lease_jobs is_trace_id
first_claim = (_, _, refl)

-- Meanwhile a worker starts another job.
other_start :
    (w : MediaValidationWork) × (mid : Db) × (start_media_validation (task 41) now 900 first_claim.1
      ≡ ok (some w, mid))
unfolding first_claim start_media_validation is_target is_content_type
other_start = (_, _, refl)

abbrev between : Reach (λ n. n) first_claim.1 other_start.1
between = next here (start_validation (task 41) now 900 (some other_start.0) other_start.2)

second_claim :
    (claims : List ClaimedBackgroundJob) × (db' : Db) × (claim_background_jobs
        (λ n. n)
        free
        later
        100
        60
        other_start.1
      ≡ ok (claims, db'))
unfolding first_claim other_start claim_background_jobs lease_jobs is_trace_id
second_claim = (_, _, refl)

abbrev first_of_44 : ClaimedBackgroundJob
first_of_44 = record {
  task = validation (record { background_job_id = 44; attempt_count = 1; trace_id = trace });
  dispatch_token = 0;
}

live_dispatch_excludes_example :
    (find job_key 44 other_start.1.jobs ≡ find job_key 44 first_claim.1.jobs)
    × (find claim_key 44 second_claim.0 ≡ none)
unfolding first_claim
live_dispatch_excludes_example =
    live_dispatch_excludes (λ n. n) free free now later 100 100 60 60 db first_claim.1 other_start.1
      second_claim.1 first_claim.0 second_claim.0 44 first_of_44 db-IsValidJobs first_claim.2 refl
      between refl second_claim.2 (omega arith)
