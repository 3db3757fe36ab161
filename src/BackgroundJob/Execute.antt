-- ===== src/BackgroundJob/Execute.antt =====
-- service.py of background_job: what the media worker calls when it starts and ends an attempt.
use Prim.Native.String.{String}
use seqret_be.Prelude.{
  ℕ, ◌+◌, Bool, false, not, ◌&&◌, Option, none, some, leb, [], ◌∷◌, ◌==◌, if◌then◌else◌,
}
use seqret_be.Prelude.Clock.{Uuid, Instant, seconds}
use seqret_be.Prelude.Text.{same_text, same_option, same_number, is_text_eq}
use seqret_be.Prelude.Table.{find}
use seqret_be.Prelude.Transaction.{
  Command, Result, ok, err, value_error, not_found, conflict, assertion,
}
use seqret_be.Contracts.Events.{Payload, media_deleted, uuid}
use seqret_be.Contracts.Ports.{ProviderErrorKind, value}
use seqret_be.Contracts.Maintenance.{
  BackgroundJobType, media_validation, media_retention_delete, MediaValidationTask,
  MediaValidationWork, MediaValidationResult, MediaDeletionTask, MediaDeletionWork,
  MediaDeletionResult, Outcome, is_succeeded, is_content_type,
}
use seqret_be.Outbox.{enqueue_domain_event}
use seqret_be.Outbox as OutboxEvents
use seqret_be.BackgroundJob.Model.{
  BackgroundJobStatus, is_running, is_terminal, is_startable, BackgroundJob, MediaAssetStatus,
  is_processing, is_validatable, MediaAsset, Db, job_key, asset_key, BackgroundJobResponse,
  response,
}
use seqret_be.BackgroundJob.Intent.{same_type, write_job, write_asset, failed_asset}

-- `_work`
abbrev pub work : BackgroundJob → MediaDeletionWork
work r = record {
  background_job_id = r.id;
  attempt_count = r.attempt_count;
  move_job_id = r.move_job_id;
  media_asset_id = r.media_asset_id;
  object_key = r.target_object_key;
  generation = r.target_generation;
}

-- `_validation_work`. The work is not built without an attempt, a content type with a subtype and a
-- size above 0; that is a `ValidationError`, which is a `ValueError`. The generation was stripped
-- when the job was created.
abbrev pub validation_work : BackgroundJob → Result MediaValidationWork
validation_work r = elim r.target_content_type [
  | none ↦ err value_error
  | some content_type ↦ elim r.target_size_bytes [
    | none ↦ err value_error
    | some size_bytes ↦
        if leb 1 r.attempt_count && is_content_type content_type && leb 1 size_bytes
        then ok (record {
          background_job_id = r.id;
          attempt_count = r.attempt_count;
          object_key = r.target_object_key;
          source_generation = r.target_generation;
          expected_content_type = content_type;
          expected_size_bytes = size_bytes;
        })
        else err value_error
  ]
]

-- The answer with the work of a row, where it can be built.
abbrev pub with_work : BackgroundJob → Command Db (Option MediaValidationWork)
with_work r db = elim (validation_work r) [ err x ↦ err x | ok w ↦ ok (some w, db) ]

-- The asset is still the object that the job pinned.
unfoldable pub is_target : BackgroundJob → MediaAsset → Bool
is_target r asset =
    same_text asset.object_key r.target_object_key
    && is_text_eq asset.generation r.target_generation
    && is_text_eq r.target_content_type asset.content_type
    && same_number asset.actual_size_bytes r.target_size_bytes

-- The row as a started attempt leaves it.
abbrev pub started_row : Instant → ℕ → BackgroundJob → BackgroundJob
started_row now timeout r = record r {
  dispatch_token = none;
  dispatch_locked_until = none;
  status = BackgroundJobStatus.running;
  execution_deadline_at = some (now + seconds timeout);
}

abbrev pub processing_asset : MediaAsset → MediaAsset
processing_asset asset = record asset { status = MediaAssetStatus.processing; sha256_hex = none }

-- The row and the asset that a job's id joins.
abbrev pub joined : Uuid → Db → Option (BackgroundJob × MediaAsset)
joined id db = elim (find job_key id db.jobs) [
  | none ↦ none
  | some r ↦ elim (find asset_key r.media_asset_id db.assets) [
    | none ↦ none
    | some asset ↦ some (r, asset)
  ]
]

-- The task names this job and its current attempt.
abbrev pub is_current : BackgroundJobType → ℕ → String → BackgroundJob → Bool
is_current type attempt_count trace_id r =
    same_type r.job_type type && r.attempt_count == attempt_count && same_text r.trace_id trace_id

-- `start_media_validation`; `none` means that there is nothing left to do.
unfoldable pub start_media_validation :
    MediaValidationTask
    → (now : Instant) → (execution_timeout_seconds : ℕ) → Command Db (Option MediaValidationWork)
start_media_validation task now timeout db =
    if timeout == 0 then err value_error else elim (joined task.background_job_id db) [
      | none ↦ err not_found
      | some (r, asset) ↦
          if not (is_current media_validation task.attempt_count task.trace_id r)
          then err not_found
          else if is_terminal r.status
          then ok (none, db)
          else if is_running r.status
          then (if is_processing asset.status then with_work r db else err conflict)
          else if not (is_startable r.status)
          then err conflict
          else if not (is_validatable asset.status && is_target r asset)
          then err conflict
          else with_work (started_row now timeout r)
              (write_job (started_row now timeout r) (write_asset (processing_asset asset) db))
    ]

-- The result reports what the job pinned.
unfoldable pub observes_target : MediaValidationResult → BackgroundJob → Bool
observes_target result r =
    same_option result.observed_content_type r.target_content_type
    && same_number result.observed_size_bytes r.target_size_bytes

abbrev pub is_kind : Option ProviderErrorKind → Option String → Bool
is_kind none code = false
is_kind (some k) code = is_text_eq code (value k)

-- `same_result`: a terminal row is the one that this result would leave.
unfoldable pub is_same_validation : MediaValidationResult → BackgroundJob → MediaAsset → Bool
is_same_validation result r asset = elim r.status [
  | BackgroundJobStatus.succeeded ↦
      is_succeeded result.outcome && same_option asset.sha256_hex result.sha256_hex
  | BackgroundJobStatus.failed ↦
      not (is_succeeded result.outcome) && is_kind result.error_kind r.last_error_code
  | _ ↦ false
]

-- The row as an attempt's end leaves it.
abbrev pub succeeded_row : Instant → BackgroundJob → BackgroundJob
succeeded_row now r = record r {
  status = BackgroundJobStatus.succeeded;
  completed_at = some now;
  execution_deadline_at = none;
}

abbrev pub failed_row : Instant → ProviderErrorKind → BackgroundJob → BackgroundJob
failed_row now kind r = record r {
  status = BackgroundJobStatus.failed;
  completed_at = some now;
  execution_deadline_at = none;
  last_error_code = some (value kind);
}

abbrev pub ready_asset : MediaValidationResult → String → MediaAsset → MediaAsset
ready_asset result sha256_hex asset = record asset {
  status = MediaAssetStatus.ready;
  generation = some result.source_generation;
  actual_size_bytes = result.observed_size_bytes;
  sha256_hex = some sha256_hex;
}

-- The writes of `complete_media_validation` to a running attempt.
abbrev pub finish_validation :
    MediaValidationResult → Instant → BackgroundJob → MediaAsset → Command Db BackgroundJobResponse
finish_validation result now r asset db = elim result.outcome [
  | Outcome.failed ↦ elim result.error_kind [
    | none ↦ err assertion
    | some kind ↦ ok (
      response (failed_row now kind r),
      write_job (failed_row now kind r) (write_asset (failed_asset asset) db),
    )
  ]
  | Outcome.succeeded ↦ elim result.sha256_hex [
    | none ↦ err assertion
    | some sha256_hex ↦ ok (
      response (succeeded_row now r),
      write_job (succeeded_row now r) (write_asset (ready_asset result sha256_hex asset) db),
    )
  ]
]

-- The result names this job's current attempt and the generation that it pinned.
unfoldable pub names_attempt : MediaValidationResult → BackgroundJob → Bool
names_attempt result r =
    same_type r.job_type media_validation
    && r.attempt_count == result.attempt_count
    && same_text r.target_generation result.source_generation

-- `complete_media_validation`
unfoldable pub complete_media_validation :
    MediaValidationResult → (completed_at : Instant) → Command Db BackgroundJobResponse
complete_media_validation result now db = elim (joined result.background_job_id db) [
  | none ↦ err not_found
  | some (r, asset) ↦
      if not (names_attempt result r && is_target r asset)
      then err conflict
      else if is_succeeded result.outcome && not (observes_target result r)
      then err conflict
      else if is_terminal r.status
      then (if is_same_validation result r asset then ok (response r, db) else err conflict)
      else if not (is_running r.status && is_processing asset.status)
      then err conflict
      else finish_validation result now r asset db
]

-- `start_media_deletion`
unfoldable pub start_media_deletion :
    MediaDeletionTask
    → (now : Instant) → (execution_timeout_seconds : ℕ) → Command Db (Option MediaDeletionWork)
start_media_deletion task now timeout db =
    if timeout == 0 then err value_error else elim (find job_key task.background_job_id db.jobs) [
      | none ↦ err not_found
      | some r ↦
          if not (is_current media_retention_delete task.attempt_count task.trace_id r)
          then err not_found
          else if is_terminal r.status
          then ok (none, db)
          else if is_running r.status
          then ok (some (work r), db)
          else if not (is_startable r.status)
          then err conflict
          else ok (some (work r), write_job (started_row now timeout r) db)
    ]

unfoldable pub is_same_deletion : MediaDeletionResult → BackgroundJob → Bool
is_same_deletion result r = elim r.status [
  | BackgroundJobStatus.succeeded ↦ is_succeeded result.outcome
  | BackgroundJobStatus.failed ↦
      not (is_succeeded result.outcome) && is_kind result.error_kind r.last_error_code
  | _ ↦ false
]

abbrev pub deletion_payload : BackgroundJob → Payload
deletion_payload r =
    ("background_job_id", uuid r.id) ∷ ("media_asset_id", uuid r.media_asset_id) ∷ []

abbrev pub deleted_asset : MediaAsset → MediaAsset
deleted_asset asset = record asset { status = MediaAssetStatus.deleted }

-- The `MEDIA_DELETED_V1` event of a finished deletion, in the same transaction.
abbrev pub announce_deletion : OutboxEvents.Ambient → Instant → BackgroundJob → Db → Result Db
announce_deletion a now r db =
    elim (enqueue_domain_event a media_deleted r.move_job_id none (some r.trace_id)
      (deletion_payload r) (some now) db.outbox) [
        | err x ↦ err x
        | ok (_, outbox) ↦ ok (record db { outbox = outbox })
      ]

-- `complete_media_deletion`
unfoldable pub complete_media_deletion :
    OutboxEvents.Ambient
    → MediaDeletionResult
    → (completed_at : Instant) → Command Db BackgroundJobResponse
complete_media_deletion a result now db = elim (joined result.background_job_id db) [
  | none ↦ err not_found
  | some (r, asset) ↦
      if not
        (same_type r.job_type media_retention_delete && r.attempt_count == result.attempt_count)
      then err conflict
      else if is_terminal r.status
      then (if is_same_deletion result r then ok (response r, db) else err conflict)
      else if not (is_running r.status)
      then err conflict
      else elim result.outcome [
        | Outcome.failed ↦ elim result.error_kind [
          | none ↦ err assertion
          | some kind ↦ ok (response (failed_row now kind r), write_job (failed_row now kind r) db)
        ]
        | Outcome.succeeded ↦
            elim (announce_deletion a now r
              (write_job (succeeded_row now r) (write_asset (deleted_asset asset) db))) [
                | err x ↦ err x
                | ok db' ↦ ok (response (succeeded_row now r), db')
              ]
      ]
]
