-- ===== src/BackgroundJob/Tests.antt =====
-- Runs of the background jobs on small tables, and the theorems at these inputs.
mod Leasing
use Prim.Native.String.{String}
use seqret_be.Prelude.{
  ◌≢◌, ℕ, ◌+◌, ◌≤◌, ◌≡◌, refl, Bool, true, false, none, some, [], ◌∷◌, arith, All,
}
use seqret_be.Prelude.Clock.{Uuid, Instant, seconds}
use seqret_be.Prelude.Text.{is_clean}
use seqret_be.Prelude.Transaction.{ok, err, assertion}
use seqret_be.Contracts.Events.{media_deleted, is_trace_id, is_documented}
use seqret_be.Contracts.Maintenance.{
  BackgroundJobType, media_validation, media_retention_delete, MediaValidationTask,
  MediaValidationWork, MediaValidationResult, MediaDeletionResult, succeeded, is_content_type,
}
use seqret_be.Outbox as OutboxEvents
use seqret_be.Outbox.{new_row, enqueue_domain_event}
use seqret_be.BackgroundJob.Model.{
  BackgroundJobStatus, BackgroundJob, MediaAssetStatus, MediaAsset, MoveJob, MoveJobStatus, Db,
  BackgroundJobResponse, response,
}
use seqret_be.BackgroundJob.Intent.{
  Ambient, write_job, create_retention_background_job, create_media_deletion_background_job,
  create_media_validation_background_job,
}
use seqret_be.BackgroundJob.Dispatch.{
  Task, ClaimedBackgroundJob, DispatchResult, QueueAnswer, accepted, validation,
  claim_background_jobs, lease_jobs, finalize_background_job_dispatch,
  dispatch_background_jobs_once, record_outcomes,
}
use seqret_be.BackgroundJob.Execute.{
  joined, is_target, names_attempt, observes_target, start_media_validation,
  complete_media_validation, complete_media_deletion, started_row, succeeded_row, deleted_asset,
}
use seqret_be.BackgroundJob.Steps.{
  Reach, here, next, start_validation, complete_validation, IsValidJobs, Reach-IsValidJobs,
}
use seqret_be.BackgroundJob.Lifetime.{JobRemains, Reach-JobRemains}
use seqret_be.BackgroundJob.Attempts.Replay.{complete_validation_again}
use seqret_be.BackgroundJob.Attempts.Deletion.{complete_deletion_announces, deletion_event}
use seqret_be.BackgroundJob.Race.{worker_before_dispatcher}
use seqret_be.BackgroundJob.Runs.{dispatch_background_jobs_once_runs}
use seqret_be.BackgroundJob.Claims.{can_be_task}
use seqret_be.BackgroundJob.Attempts.Shape.{validation_asserts_hold}
use seqret_be.BackgroundJob.Policy.{Retained, create_retention_policy}

abbrev pub trace : String
trace = "0123456789abcdef0123456789abcdef"

abbrev asset : ℕ → MediaAssetStatus → MediaAsset
asset id status = record {
  id = id;
  capture_session_id = 21;
  status = status;
  object_key = "inbox/photo";
  content_type = "image/jpeg";
  actual_size_bytes = some 10;
  sha256_hex = none;
  generation = some "7";
}

-- A job in its first attempt.
abbrev job : ℕ → ℕ → BackgroundJobType → BackgroundJobStatus → BackgroundJob
job id asset_id type status = record {
  id = id;
  move_job_id = 31;
  media_asset_id = asset_id;
  job_type = type;
  status = status;
  target_object_key = "inbox/photo";
  target_generation = "7";
  target_content_type = some "image/jpeg";
  target_size_bytes = some 10;
  trace_id = trace;
  scheduled_at = seconds 10;
  attempt_count = 1;
  dispatch_token = none;
  dispatch_locked_until = none;
  provider_task_id = none;
  last_error_code = none;
  created_by_participant_id = none;
  created_at = seconds 10;
  last_attempt_at = some (seconds 20);
  execution_deadline_at = none;
  completed_at = none;
}

abbrev validating : BackgroundJob
validating = job 41 11 media_validation BackgroundJobStatus.queued

abbrev handed_out : BackgroundJob
handed_out =
    let r = job 43 14 media_validation BackgroundJobStatus.dispatching in
    record r { dispatch_token = some 900; dispatch_locked_until = some (seconds 60) }

abbrev deleting : BackgroundJob
deleting =
    let r = job 42 13 media_retention_delete BackgroundJobStatus.running in
    record r {
      target_content_type = none;
      target_size_bytes = none;
      execution_deadline_at = some (seconds 900);
    }

abbrev new_one : BackgroundJob
new_one =
    let r = job 44 15 media_validation BackgroundJobStatus.pending in
    record r { attempt_count = 0; last_attempt_at = none }

-- Four jobs, in four states, and assets 16 and 17 that have no job yet.
abbrev pub db : Db
db = record {
  jobs = validating ∷ deleting ∷ handed_out ∷ new_one ∷ [];
  assets =
      asset 11 MediaAssetStatus.uploaded
      ∷ asset 13 MediaAssetStatus.ready
      ∷ asset 14 MediaAssetStatus.uploaded
      ∷ asset 15 MediaAssetStatus.uploaded
      ∷ asset 16 MediaAssetStatus.ready
      ∷ asset 17 MediaAssetStatus.uploaded
      ∷ [];
  sessions = record { id = 21; job_id = 31 } ∷ [];
  moves =
      record { id = 31; status = MoveJobStatus.completed; completed_at = some (seconds 5) } ∷ [];
  outbox = record { events = []; draws = 0 };
  draws = 0;
}

pub db-IsValidJobs : IsValidJobs db.jobs
db-IsValidJobs = ground arith

abbrev ambient : Ambient
ambient = record { uuid = 77; now = seconds 50; created_at = seconds 50 }

abbrev pub task : ℕ → MediaValidationTask
task id = record { background_job_id = id; attempt_count = 1; trace_id = trace }

abbrev pub now : Instant
now = seconds 50

abbrev pub later : Instant
later = seconds 70

started :
    (w : MediaValidationWork) × (db' : Db) × (start_media_validation (task 41) now 900 db
      ≡ ok (some w, db'))
unfolding start_media_validation is_target is_content_type
started = (_, _, refl)

abbrev result : MediaValidationResult
result = record {
  background_job_id = 41;
  attempt_count = 1;
  source_generation = "7";
  outcome = succeeded;
  observed_content_type = some "image/jpeg";
  observed_size_bytes = some 10;
  sha256_hex = some "ab";
  error_kind = none;
}

validated :
    (x : BackgroundJobResponse) × (db' : Db) × (complete_media_validation result later started.1
      ≡ ok (x, db'))
unfolding start_media_validation complete_media_validation is_target is_content_type names_attempt
    observes_target started
validated = (_, _, refl)

complete_validation_again_example :
    complete_media_validation result (seconds 80) validated.1 ≡ ok (validated.0, validated.1)
complete_validation_again_example =
    complete_validation_again result later (seconds 80) started.1 validated.1 validated.0
      validated.2

abbrev two_steps : Reach (λ n. n) db validated.1
two_steps =
    next (next here (start_validation (task 41) now 900 (some started.0) started.2))
      (complete_validation result later validated.0 validated.2)

Reach-IsValidJobs_example : IsValidJobs validated.1.jobs
Reach-IsValidJobs_example = Reach-IsValidJobs db-IsValidJobs two_steps

Reach-JobRemains_example : JobRemains 41 validating validated.1.jobs
Reach-JobRemains_example = Reach-JobRemains 41 validating db-IsValidJobs refl two_steps

abbrev third_step : Reach (λ n. n) validated.1 validated.1
third_step =
    next here
      (complete_validation result (seconds 80) validated.0 complete_validation_again_example)

abbrev done_row : BackgroundJob
done_row = succeeded_row later (started_row now 900 validating)

abbrev events : OutboxEvents.Ambient
events = record { uuid = 800; hex = trace; now = now }

abbrev deletion_result : MediaDeletionResult
deletion_result = record {
  background_job_id = 42;
  attempt_count = 1;
  outcome = succeeded;
  error_kind = none;
}

trace_ok : is_trace_id trace ≡ true
unfolding is_trace_id
trace_ok = refl

complete_deletion_announces_example :
    (db' : Db) × (complete_media_deletion events deletion_result later db
      ≡ ok (response (succeeded_row later deleting), db'))
    × (joined 42 db'
        ≡ some (succeeded_row later deleting, deleted_asset (asset 13 MediaAssetStatus.ready)))
    × (db'.outbox.events ≡ new_row (deletion_event events later deleting) ∷ [])
    × (is_documented media_deleted (deletion_event events later deleting).payload ≡ true)
complete_deletion_announces_example =
    complete_deletion_announces events deletion_result later db deleting
      (asset 13 MediaAssetStatus.ready) refl refl refl refl refl trace_ok

abbrev claim : ClaimedBackgroundJob
claim = record { task = validation (task 43); dispatch_token = 900 }

early_start :
    (w : MediaValidationWork) × (db' : Db) × (start_media_validation (task 43) now 900 db
      ≡ ok (some w, db'))
unfolding start_media_validation is_target is_content_type
early_start = (_, _, refl)

worker_before_dispatcher_example :
    (finalize_background_job_dispatch claim (some "t1") none later early_start.1
      ≡ ok (
        true,
        write_job
            (record (started_row now 900 handed_out) { provider_task_id = some "t1" })
            early_start.1,
      ))
    × (finalize_background_job_dispatch claim none (some "unavailable") later early_start.1
        ≡ ok (false, early_start.1))
worker_before_dispatcher_example =
    worker_before_dispatcher claim (task 43) now later 900 db early_start.1 early_start.0 handed_out
      "t1" "unavailable" refl refl refl refl early_start.2

abbrev queue : Task → QueueAnswer
queue _ = accepted "t2"

abbrev outcome_time : ClaimedBackgroundJob → Instant
outcome_time _ = later

abbrev pub free : Uuid → Bool
free _ = false

db-can_be_task : All (λ r. can_be_task r ≡ true) db.jobs
unfolding is_trace_id
db-can_be_task = (refl, (refl, (refl, (refl, tt))))

dispatch_background_jobs_once_runs_example :
    (counts : DispatchResult) × (db' : Db) × (dispatch_background_jobs_once queue outcome_time
        (λ n. n)
        free
        (λ d. d)
        now
        100
        60
        (seconds 10)
        db
      ≡ (ok counts, db'))
    × Reach (λ n. n) db db'
    × (counts.queued + counts.failed ≤ counts.claimed)
    × (counts.claimed ≤ 100)
dispatch_background_jobs_once_runs_example =
    dispatch_background_jobs_once_runs (λ n. n) queue outcome_time free (λ d. d) now 100 60
      (seconds 10) db db-can_be_task (λ d. here) (omega arith) (omega arith) (omega arith)
      (omega arith)

-- The pending job is claimed and queued; the job that another dispatcher holds is left alone.
dispatch_run :
    (dispatch_background_jobs_once queue outcome_time
      (λ n. n)
      free
      (λ d. d)
      now
      100
      60
      (seconds 10)
      db).0
    ≡ ok (record { claimed = 1; queued = 1; failed = 0 })
unfolding dispatch_background_jobs_once claim_background_jobs lease_jobs record_outcomes
    finalize_background_job_dispatch is_trace_id
dispatch_run = refl

retained :
    (x : BackgroundJobResponse) × (db' : Db) × (create_retention_background_job ambient 31 16 none
        (seconds 30)
        trace
        none
        db
      ≡ ok (x, db'))
unfolding create_retention_background_job create_media_deletion_background_job is_clean
retained = (_, _, refl)

create_retention_policy_example :
    (photo : MediaAsset) × (move_job : MoveJob) × Retained 31 16 (seconds 30) db photo move_job
    × (r : BackgroundJob) × (retained.1.jobs ≡ r ∷ db.jobs)
    × (retained.0 ≡ response r)
    × (r.target_object_key ≡ photo.object_key)
    × (some r.target_generation ≡ photo.generation)
create_retention_policy_example =
    create_retention_policy ambient 31 16 none (seconds 30) trace none db retained.1 retained.0 refl
      retained.2

requested :
    (x : BackgroundJobResponse) × (db' : Db) × (create_media_validation_background_job ambient 31 17
        9 trace none db
      ≡ ok (x, db'))
unfolding create_media_validation_background_job is_clean
requested = (_, _, refl)

validation_asserts_hold_example : complete_media_validation result later started.1 ≢ err assertion
validation_asserts_hold_example = validation_asserts_hold result later started.1 refl
