-- ===== src/BackgroundJob/Race.antt =====
-- A media worker that starts an attempt before its dispatcher has recorded the queue's answer.
use Prim.Native.String.{String}
use seqret_be.Prelude.{ℕ, ◌≡◌, true, false, none, some, inl, inr, arith, Option-cases}
use seqret_be.Prelude.Clock.{Instant}
use seqret_be.Prelude.Table.{find, find-put, find_key}
use seqret_be.Prelude.Transaction.{ok}
use seqret_be.Contracts.Maintenance.{MediaValidationTask, MediaValidationWork, media_validation}
use seqret_be.BackgroundJob.Model.{BackgroundJob, Db, job_key, asset_key, dispatching}
use seqret_be.BackgroundJob.Intent.{write_job, write_asset}
use seqret_be.BackgroundJob.Dispatch.{
  ClaimedBackgroundJob, validation, finalize_background_job_dispatch,
}
use seqret_be.BackgroundJob.Execute.{
  started_row, processing_asset, start_media_validation, is_current,
}

-- The row that a worker took over from the dispatcher: the task id is still recorded, and an error
-- is not.
late_answer :
    (c : ClaimedBackgroundJob) (task : MediaValidationTask) (now later : Instant) (timeout : ℕ)
    (db : Db) (r : BackgroundJob) (provider_task_id code : String)
    → c.task ≡ validation task
    → find job_key task.background_job_id db.jobs ≡ some (started_row now timeout r)
    → is_current media_validation task.attempt_count task.trace_id r ≡ true
    → r.provider_task_id ≡ none
    → (finalize_background_job_dispatch c (some provider_task_id) none later db
        ≡ ok (
          true,
          write_job
              (record (started_row now timeout r) { provider_task_id = some provider_task_id })
              db,
        ))
      × (finalize_background_job_dispatch c none (some code) later db ≡ ok (false, db))
unfolding finalize_background_job_dispatch
late_answer c task now later timeout db r p code same found current fresh =
    ground (arith, same, found, current, fresh)

-- If a worker starts a validation attempt that is still being dispatched and has no task id, the
-- dispatcher of that attempt may then record its task id on the running job, and an error of the
-- queue is ignored.
pub worker_before_dispatcher :
    (c : ClaimedBackgroundJob) (task : MediaValidationTask) (now later : Instant) (timeout : ℕ)
    (db db' : Db) (w : MediaValidationWork) (r : BackgroundJob) (provider_task_id code : String)
    → c.task ≡ validation task
    → find job_key task.background_job_id db.jobs ≡ some r
    → r.status ≡ dispatching
    → r.provider_task_id ≡ none
    → start_media_validation task now timeout db ≡ ok (some w, db')
    → (finalize_background_job_dispatch c (some provider_task_id) none later db'
        ≡ ok (
          true,
          write_job
              (record (started_row now timeout r) { provider_task_id = some provider_task_id })
              db',
        ))
      × (finalize_background_job_dispatch c none (some code) later db' ≡ ok (false, db'))
unfolding start_media_validation
worker_before_dispatcher c task now later timeout db db' w r p code same found waits fresh h =
    let k = task.background_job_id in
    elim (Option-cases (find asset_key r.media_asset_id db.assets)) [
      | inl missing ↦ absurd (ground (arith, missing))
      | inr (asset, has) ↦
          let row = started_row now timeout r in
          let written : db' ≡ write_job row (write_asset (processing_asset asset) db) =
            ground (arith, has) in
          let found' : find job_key k db'.jobs ≡ some row = ground (
            arith,
            written,
            find_key job_key k db.jobs r found,
            find-put job_key k row r db.jobs found,
          ) in
          late_answer c task now later timeout db' r p code same found' (ground (arith, has)) fresh
    ]
