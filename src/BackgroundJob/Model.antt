-- ===== src/BackgroundJob/Model.antt =====
-- The rows that app/modules/background_job/service.py reads and writes: `BackgroundJob`
-- (background_job/models.py), `MediaAsset` and `CaptureSession` (capture/models.py), `MoveJob`
-- (move_job/models.py). Of the last three these are the columns that the service reads.
use Prim.Native.String.{String}
use seqret_be.Prelude.{ℕ, Bool, true, false, Option, List}
use seqret_be.Prelude.Clock.{Uuid, Instant}
use seqret_be.Contracts.Maintenance.{BackgroundJobType}
use seqret_be.Outbox.{Outbox}

-- `class BackgroundJobStatus`
pub data BackgroundJobStatus : Type 0 where
  pending dispatching queued running succeeded failed : BackgroundJobStatus

abbrev pub is_pending : BackgroundJobStatus → Bool
is_pending pending = true
is_pending _ = false

abbrev pub is_dispatching : BackgroundJobStatus → Bool
is_dispatching dispatching = true
is_dispatching _ = false

abbrev pub is_running : BackgroundJobStatus → Bool
is_running running = true
is_running _ = false

abbrev pub is_failed : BackgroundJobStatus → Bool
is_failed failed = true
is_failed _ = false

-- `status in {SUCCEEDED, FAILED}`
abbrev pub is_terminal : BackgroundJobStatus → Bool
is_terminal succeeded = true
is_terminal failed = true
is_terminal _ = false

-- `status in {DISPATCHING, QUEUED}`
abbrev pub is_startable : BackgroundJobStatus → Bool
is_startable dispatching = true
is_startable queued = true
is_startable _ = false

-- `status in {QUEUED, RUNNING, SUCCEEDED, FAILED}`
abbrev pub is_accepted : BackgroundJobStatus → Bool
is_accepted pending = false
is_accepted dispatching = false
is_accepted _ = true

-- `class BackgroundJob`
pub record BackgroundJob : Type 0 where
  pub id : Uuid
  pub move_job_id : Uuid
  pub media_asset_id : Uuid
  pub job_type : BackgroundJobType
  pub status : BackgroundJobStatus
  pub target_object_key : String
  pub target_generation : String
  pub target_content_type : Option String
  pub target_size_bytes : Option ℕ
  pub trace_id : String
  pub scheduled_at : Instant
  pub attempt_count : ℕ
  pub dispatch_token : Option Uuid
  pub dispatch_locked_until : Option Instant
  pub provider_task_id : Option String
  pub last_error_code : Option String
  pub created_by_participant_id : Option Uuid
  pub created_at : Instant
  pub last_attempt_at : Option Instant
  pub execution_deadline_at : Option Instant
  pub completed_at : Option Instant

-- `class MediaAssetStatus`
pub data MediaAssetStatus : Type 0 where
  pending_upload uploaded processing ready failed deleted : MediaAssetStatus

abbrev pub is_uploaded : MediaAssetStatus → Bool
is_uploaded uploaded = true
is_uploaded _ = false

abbrev pub is_processing : MediaAssetStatus → Bool
is_processing processing = true
is_processing _ = false

-- `status in {UPLOADED, FAILED}`
abbrev pub is_validatable : MediaAssetStatus → Bool
is_validatable uploaded = true
is_validatable failed = true
is_validatable _ = false

-- `status in DELETABLE_MEDIA_STATUSES`
abbrev pub is_deletable : MediaAssetStatus → Bool
is_deletable uploaded = true
is_deletable ready = true
is_deletable failed = true
is_deletable _ = false

pub record MediaAsset : Type 0 where
  pub id : Uuid
  pub capture_session_id : Uuid
  pub status : MediaAssetStatus
  pub object_key : String
  pub content_type : String
  pub actual_size_bytes : Option ℕ
  pub sha256_hex : Option String
  pub generation : Option String

pub record CaptureSession : Type 0 where
  pub id : Uuid
  pub job_id : Uuid

-- `class MoveJobStatus`
pub data MoveJobStatus : Type 0 where
  draft active completed canceled : MoveJobStatus

abbrev pub is_completed : MoveJobStatus → Bool
is_completed completed = true
is_completed _ = false

pub record MoveJob : Type 0 where
  pub id : Uuid
  pub status : MoveJobStatus
  pub completed_at : Option Instant

-- The tables, the outbox, and how many dispatch tokens have been drawn.
pub record Db : Type 0 where
  pub jobs : List BackgroundJob
  pub assets : List MediaAsset
  pub sessions : List CaptureSession
  pub moves : List MoveJob
  pub outbox : Outbox
  pub draws : ℕ

abbrev pub job_key : BackgroundJob → ℕ
job_key r = r.id

abbrev pub asset_key : MediaAsset → ℕ
asset_key r = r.id

abbrev pub session_key : CaptureSession → ℕ
session_key r = r.id

abbrev pub move_key : MoveJob → ℕ
move_key r = r.id

-- `class BackgroundJobResponse`
pub record BackgroundJobResponse : Type 0 where
  pub id : Uuid
  pub job_id : Uuid
  pub media_asset_id : Uuid
  pub job_type : BackgroundJobType
  pub status : BackgroundJobStatus
  pub scheduled_at : Instant
  pub attempt_count : ℕ
  pub last_error_code : Option String
  pub created_at : Instant
  pub last_attempt_at : Option Instant
  pub execution_deadline_at : Option Instant
  pub completed_at : Option Instant

-- `_response`. Stored instants are UTC, so `_aware` changes none.
abbrev pub response : BackgroundJob → BackgroundJobResponse
response r = record {
  id = r.id;
  job_id = r.move_job_id;
  media_asset_id = r.media_asset_id;
  job_type = r.job_type;
  status = r.status;
  scheduled_at = r.scheduled_at;
  attempt_count = r.attempt_count;
  last_error_code = r.last_error_code;
  created_at = r.created_at;
  last_attempt_at = r.last_attempt_at;
  execution_deadline_at = r.execution_deadline_at;
  completed_at = r.completed_at;
}
