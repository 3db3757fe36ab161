-- ===== src/BackgroundJob/Changes.antt =====
-- What each command of the service may do to the table of jobs.
use Prim.Native.String.{String}
use seqret_be.Prelude.{
  ℕ, ◌≡◌, refl, Bool, true, Option, none, some, List, ◌∷◌, inl, inr, arith, Option-cases,
  Bool-cases,
}
use seqret_be.Prelude.Clock.{Uuid, Instant}
use seqret_be.Prelude.Table.{find, put, Without}
use seqret_be.Prelude.Transaction.{ok, Result-cases}
use seqret_be.Contracts.Events.{media_deleted}
use seqret_be.Outbox.{enqueue_domain_event}
use seqret_be.Contracts.Maintenance.{
  MediaValidationTask, MediaValidationWork, MediaValidationResult, MediaDeletionTask,
  MediaDeletionWork, MediaDeletionResult, is_succeeded, media_retention_delete, media_validation,
}
use seqret_be.Outbox as OutboxEvents
use seqret_be.BackgroundJob.Model.{
  BackgroundJob, MediaAsset, Db, job_key, asset_key, BackgroundJobResponse, is_running,
  is_startable,
}
use seqret_be.BackgroundJob.Intent.{
  Ambient, create_media_deletion_background_job, create_retention_background_job,
  create_media_validation_background_job, retry_background_job, retried_row, write_job, write_asset,
  find_intent, cast_text,
}
use seqret_be.BackgroundJob.Dispatch.{
  ClaimedBackgroundJob, task_job_id, finalize_background_job_dispatch, queued_row, refused_row,
  holds_lease,
}
use seqret_be.BackgroundJob.Execute.{
  started_row, succeeded_row, failed_row, start_media_validation, complete_media_validation,
  start_media_deletion, complete_media_deletion, announce_deletion, deletion_payload, deleted_asset,
}
use seqret_be.BackgroundJob.Rows.{
  IsValidRow, Evolves, retried_row-Evolves, queued_row-Evolves, refused_row-Evolves,
  started_row-Evolves, succeeded_row-Evolves, failed_row-Evolves, accepted_row-Evolves,
  new_job-IsValidRow,
}

-- The table stays, gets one new row, or has row `k` rewritten.
pub data Change (k : ℕ) (t t' : List BackgroundJob) : Type 0 where
  kept : t' ≡ t → Change k t t'
  created : (r : BackgroundJob) → Without job_key r.id t → IsValidRow r → t' ≡ r ∷ t → Change k t t'
  updated :
      (r r' : BackgroundJob)
      → find job_key k t ≡ some r
      → Evolves r r'
      → t' ≡ put job_key r' t
      → Change k t t'

pub retry-Change :
    (job_id k : Uuid) (now : Instant) (db db' : Db) (x : BackgroundJobResponse)
    → retry_background_job job_id k now db ≡ ok (x, db')
    → Change k db.jobs db'.jobs
unfolding retry_background_job
retry-Change job_id k now db db' x h = elim (Option-cases (find job_key k db.jobs)) [
  | inl missing ↦ kept (ground arith)
  | inr (r, found) ↦
      updated r (retried_row now r) found (retried_row-Evolves now r (ground arith)) (ground arith)
]

pub finalize-Change :
    (c : ClaimedBackgroundJob) (task_id error_code : Option String) (now : Instant) (db db' : Db)
    (done : Bool)
    → finalize_background_job_dispatch c task_id error_code now db ≡ ok (done, db')
    → Change (task_job_id c.task) db.jobs db'.jobs
unfolding finalize_background_job_dispatch
finalize-Change c (some _) (some _) now db db' done h = absurd (ground arith)
finalize-Change c none none now db db' done h = absurd (ground arith)
finalize-Change c (some task_id) none now db db' done h =
    let k = task_job_id c.task in
    elim (Option-cases (find job_key k db.jobs)) [
      | inl missing ↦ kept (ground arith)
      | inr (r, found) ↦ elim (Bool-cases (holds_lease c.dispatch_token r)) [
        | inl mine ↦
            updated r (queued_row task_id r) found
              (queued_row-Evolves task_id c.dispatch_token r mine) (ground arith)
        | inr other ↦ elim (Bool-cases done) [
          | inl recorded ↦
              updated r (record r { provider_task_id = some task_id }) found
                (accepted_row-Evolves task_id r) (ground arith)
          | inr ignored ↦ kept (ground arith)
        ]
      ]
    ]
finalize-Change c none (some code) now db db' done h =
    let k = task_job_id c.task in
    elim (Option-cases (find job_key k db.jobs)) [
      | inl missing ↦ kept (ground arith)
      | inr (r, found) ↦ elim (Bool-cases (holds_lease c.dispatch_token r)) [
        | inl mine ↦
            updated r (refused_row code now r) found
              (refused_row-Evolves code now c.dispatch_token r mine) (ground arith)
        | inr other ↦ kept (ground arith)
      ]
    ]

pub start_validation-Change :
    (task : MediaValidationTask) (now : Instant) (timeout : ℕ) (db db' : Db)
    (x : Option MediaValidationWork)
    → start_media_validation task now timeout db ≡ ok (x, db')
    → Change task.background_job_id db.jobs db'.jobs
unfolding start_media_validation
start_validation-Change task now timeout db db' x h =
    let k = task.background_job_id in
    elim (Option-cases (find job_key k db.jobs)) [
      | inl missing ↦ kept (ground arith)
      | inr (r, found) ↦ elim (Bool-cases (is_startable r.status)) [
        | inl may ↦
            updated r (started_row now timeout r) found (started_row-Evolves now timeout r may)
              (ground arith)
        | inr other ↦ kept (ground arith)
      ]
    ]

pub start_deletion-Change :
    (task : MediaDeletionTask) (now : Instant) (timeout : ℕ) (db db' : Db)
    (x : Option MediaDeletionWork)
    → start_media_deletion task now timeout db ≡ ok (x, db')
    → Change task.background_job_id db.jobs db'.jobs
unfolding start_media_deletion
start_deletion-Change task now timeout db db' x h =
    let k = task.background_job_id in
    elim (Option-cases (find job_key k db.jobs)) [
      | inl missing ↦ kept (ground arith)
      | inr (r, found) ↦ elim (Bool-cases (is_startable r.status)) [
        | inl may ↦
            updated r (started_row now timeout r) found (started_row-Evolves now timeout r may)
              (ground arith)
        | inr other ↦ kept (ground arith)
      ]
    ]

-- An attempt that ends rewrites its row by how the result says it ended.
pub complete_validation-Change :
    (result : MediaValidationResult) (now : Instant) (db db' : Db) (x : BackgroundJobResponse)
    → complete_media_validation result now db ≡ ok (x, db')
    → Change result.background_job_id db.jobs db'.jobs
unfolding complete_media_validation
complete_validation-Change result now db db' x h =
    let k = result.background_job_id in
    elim (Option-cases (find job_key k db.jobs)) [
      | inl missing ↦ kept (ground arith)
      | inr (r, found) ↦ elim (Bool-cases (is_running r.status)) [
        | inr ended ↦ kept (ground arith)
        | inl runs ↦ elim (Bool-cases (is_succeeded result.outcome)) [
          | inl good ↦
              updated r (succeeded_row now r) found (succeeded_row-Evolves now r runs)
                (ground arith)
          | inr bad ↦ elim (Option-cases result.error_kind) [
            | inl unnamed ↦ kept (absurd (ground arith))
            | inr (kind, named) ↦
                updated r (failed_row now kind r) found (failed_row-Evolves now kind r runs)
                  (ground arith)
          ]
        ]
      ]
    ]

-- The announcement touches the outbox alone.
announce_inv :
    (a : OutboxEvents.Ambient) (now : Instant) (r : BackgroundJob) (db db' : Db)
    → announce_deletion a now r db ≡ ok db'
    → (db'.jobs ≡ db.jobs) × (db'.assets ≡ db.assets)
announce_inv a now r db db' h =
    elim (Result-cases (
      enqueue_domain_event a media_deleted r.move_job_id none (some r.trace_id) (deletion_payload r)
        (some now) db.outbox)) [
          | inl ((e, box), done) ↦ ground (arith, done)
          | inr (x, raised) ↦ absurd (ground (arith, raised))
        ]

-- A deletion that succeeded has announced itself, and its row is written.
finished_jobs :
    (a : OutboxEvents.Ambient) (result : MediaDeletionResult) (now : Instant) (db db' : Db)
    (r : BackgroundJob) (x : BackgroundJobResponse)
    → complete_media_deletion a result now db ≡ ok (x, db')
    → find job_key result.background_job_id db.jobs ≡ some r
    → is_running r.status ≡ true
    → is_succeeded result.outcome ≡ true
    → db'.jobs ≡ put job_key (succeeded_row now r) db.jobs
unfolding complete_media_deletion
finished_jobs a result now db db' r x h found runs good =
    elim (Option-cases (find asset_key r.media_asset_id db.assets)) [
      | inl no_asset ↦ absurd (ground arith)
      | inr (asset, has_asset) ↦
          let mid = write_job (succeeded_row now r) (write_asset (deleted_asset asset) db) in
          elim (Result-cases (announce_deletion a now r mid)) [
            | inr (e, raised) ↦ absurd (ground (arith, raised))
            | inl (last, announced) ↦
                ground (arith, announced, announce_inv a now r mid last announced)
          ]
    ]

pub complete_deletion-Change :
    (a : OutboxEvents.Ambient) (result : MediaDeletionResult) (now : Instant) (db db' : Db)
    (x : BackgroundJobResponse)
    → complete_media_deletion a result now db ≡ ok (x, db')
    → Change result.background_job_id db.jobs db'.jobs
unfolding complete_media_deletion
complete_deletion-Change a result now db db' x h =
    let k = result.background_job_id in
    elim (Option-cases (find job_key k db.jobs)) [
      | inl missing ↦ kept (ground arith)
      | inr (r, found) ↦ elim (Bool-cases (is_running r.status)) [
        | inr ended ↦ kept (ground arith)
        | inl runs ↦ elim (Bool-cases (is_succeeded result.outcome)) [
          | inl good ↦
              updated r (succeeded_row now r) found (succeeded_row-Evolves now r runs)
                (finished_jobs a result now db db' r x h found runs good)
          | inr bad ↦ elim (Option-cases result.error_kind) [
            | inl unnamed ↦ kept (absurd (ground arith))
            | inr (kind, named) ↦
                updated r (failed_row now kind r) found (failed_row-Evolves now kind r runs)
                  (ground arith)
          ]
        ]
      ]
    ]

pub create_deletion-Change :
    (a : Ambient) (asset : MediaAsset) (job_id : Uuid) (participant_id : Option Uuid)
    (trace_id : String) (scheduled_at : Option Instant) (db db' : Db) (x : BackgroundJobResponse)
    → Without job_key a.uuid db.jobs
    → create_media_deletion_background_job a asset job_id participant_id trace_id scheduled_at db
      ≡ ok (x, db')
    → Change a.uuid db.jobs db'.jobs
unfolding create_media_deletion_background_job
create_deletion-Change a asset job_id participant_id trace_id scheduled_at db db' x fresh h =
    elim (Option-cases (find_intent media_retention_delete asset.id db.jobs)) [
      | inr (r, found) ↦ kept (ground arith)
      | inl absent ↦ elim (Option-cases asset.generation) [
        | inl unknown ↦ absurd (ground arith)
        | inr (generation, known) ↦
            created _ fresh
              (new_job-IsValidRow a job_id asset media_retention_delete generation none none
                trace_id scheduled_at participant_id refl)
              (ground arith)
      ]
    ]

pub create_retention-Change :
    (a : Ambient) (job_id media_asset_id : Uuid) (participant_id : Option Uuid) (cutoff : Instant)
    (trace_id : String) (scheduled_at : Option Instant) (db db' : Db) (x : BackgroundJobResponse)
    → Without job_key a.uuid db.jobs
    → create_retention_background_job a job_id media_asset_id participant_id cutoff trace_id
        scheduled_at db
      ≡ ok (x, db')
    → Change a.uuid db.jobs db'.jobs
unfolding create_retention_background_job
create_retention-Change a job_id media_asset_id participant_id cutoff trace_id scheduled_at db db' x
      fresh h =
    elim (Option-cases (find asset_key media_asset_id db.assets)) [
      | inl no_asset ↦ absurd (ground arith)
      | inr (asset, has_asset) ↦
          elim (Option-cases (find_intent media_retention_delete media_asset_id db.jobs)) [
            | inr (r, existing) ↦ kept (ground arith)
            | inl absent ↦
                create_deletion-Change a asset job_id participant_id trace_id scheduled_at db db' x
                  fresh (ground arith)
          ]
    ]

pub create_validation-Change :
    (a : Ambient) (job_id media_asset_id participant_id : Uuid) (trace_id : String)
    (scheduled_at : Option Instant) (db db' : Db) (x : BackgroundJobResponse)
    → Without job_key a.uuid db.jobs
    → create_media_validation_background_job a job_id media_asset_id participant_id trace_id
        scheduled_at db
      ≡ ok (x, db')
    → Change a.uuid db.jobs db'.jobs
unfolding create_media_validation_background_job
create_validation-Change a job_id media_asset_id participant_id trace_id scheduled_at db db' x fresh
      h =
    elim (Option-cases (find asset_key media_asset_id db.assets)) [
      | inl no_asset ↦ absurd (ground arith)
      | inr (asset, has_asset) ↦
          elim (Option-cases (find_intent media_validation asset.id db.jobs)) [
            | inr (r, existing) ↦ kept (ground arith)
            | inl absent ↦
                created _ fresh
                  (new_job-IsValidRow a job_id asset media_validation (cast_text asset.generation)
                    (some asset.content_type) asset.actual_size_bytes trace_id scheduled_at
                    (some participant_id) (ground arith))
                  (ground arith)
          ]
    ]
