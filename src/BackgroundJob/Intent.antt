-- ===== src/BackgroundJob/Intent.antt =====
-- service.py of background_job: creating and retrying a job.
use Prim.Native.String.{String}
use seqret_be.Prelude.{
  ℕ, Bool, true, false, not, ◌&&◌, ◌||◌, Option, none, some, List, [], ◌∷◌, leb, ◌==◌,
  if◌then◌else◌, is_none, keep, filter, map,
}
use seqret_be.Prelude.Clock.{Uuid, Instant}
use seqret_be.Prelude.Text.{is_clean}
use seqret_be.Prelude.Table.{find, put, sort}
use seqret_be.Prelude.Transaction.{
  Command, ok, err, not_found, conflict, no_result, integrity_error,
}
use seqret_be.Contracts.Maintenance.{BackgroundJobType, media_validation, media_retention_delete}
use seqret_be.Outbox.{or_else}
use seqret_be.BackgroundJob.Model.{
  BackgroundJobStatus, is_running, is_failed, BackgroundJob, MediaAssetStatus, is_uploaded,
  is_processing, is_deletable, MediaAsset, MoveJob, is_completed, Db, job_key, asset_key,
  session_key, move_key, BackgroundJobResponse, response,
}

abbrev pub same_type : BackgroundJobType → BackgroundJobType → Bool
same_type media_validation media_validation = true
same_type media_retention_delete media_retention_delete = true
same_type _ _ = false

-- `WHERE job_type = … AND media_asset_id = …`, which `uq_background_job_type_media_asset_id`
-- makes at most one row.
abbrev pub find_intent : BackgroundJobType → Uuid → List BackgroundJob → Option BackgroundJob
find_intent type asset_id [] = none
find_intent type asset_id (r ∷ jobs) =
    if same_type r.job_type type && r.media_asset_id == asset_id
    then some r
    else find_intent type asset_id jobs

-- What the call gets from the process and the database: `uuid4()`, `utc_now()`, `now()`.
pub record Ambient : Type 0 where
  pub uuid : Uuid
  pub now : Instant
  pub created_at : Instant

-- The columns that a new row gets by default.
abbrev pub new_job :
    Ambient
    → (job_id : Uuid) (asset : MediaAsset) (type : BackgroundJobType) (generation : String)
    → (content_type : Option String) (size_bytes : Option ℕ) (trace_id : String)
    → (scheduled_at : Option Instant) (participant_id : Option Uuid) → BackgroundJob
new_job a job_id asset type generation content_type size_bytes trace_id scheduled_at
      participant_id =
    record {
      id = a.uuid;
      move_job_id = job_id;
      media_asset_id = asset.id;
      job_type = type;
      status = BackgroundJobStatus.pending;
      target_object_key = asset.object_key;
      target_generation = generation;
      target_content_type = content_type;
      target_size_bytes = size_bytes;
      trace_id = trace_id;
      scheduled_at = or_else scheduled_at a.now;
      attempt_count = 0;
      dispatch_token = none;
      dispatch_locked_until = none;
      provider_task_id = none;
      last_error_code = none;
      created_by_participant_id = participant_id;
      created_at = a.created_at;
      last_attempt_at = none;
      execution_deadline_at = none;
      completed_at = none;
    }

-- The text of an optional column that a guard has found set.
abbrev pub cast_text : Option String → String
cast_text none = String.[]
cast_text (some s) = s

-- `create_media_deletion_background_job`. A row that is there already violates the unique
-- constraint, and then that row is the answer; a generation that is NULL violates the column's, and
-- then the error is raised.
unfoldable pub create_media_deletion_background_job :
    Ambient
    → (asset : MediaAsset) (job_id : Uuid) (participant_id : Option Uuid) (trace_id : String)
    → (scheduled_at : Option Instant) → Command Db BackgroundJobResponse
create_media_deletion_background_job a asset job_id participant_id trace_id scheduled_at db =
    elim (find_intent media_retention_delete asset.id db.jobs) [
      | some concurrent ↦ ok (response concurrent, db)
      | none ↦ elim asset.generation [
        | none ↦ err integrity_error
        | some generation ↦
            let row =
              new_job a job_id asset media_retention_delete generation none none trace_id
                scheduled_at participant_id in
            ok (response row, record db { jobs = row ∷ db.jobs })
      ]
    ]

-- The policy of a retention deletion, on the asset and its move job.
abbrev pub is_past_retention : (retention_cutoff : Instant) → MediaAsset → MoveJob → Bool
is_past_retention cutoff asset move_job =
    is_completed move_job.status
    && elim move_job.completed_at [ none ↦ false | some at ↦ leb at cutoff ]
    && is_deletable asset.status
    && is_clean asset.generation

-- The job of an asset's capture session.
abbrev pub job_of_asset : Db → MediaAsset → Option Uuid
job_of_asset db asset = elim (find session_key asset.capture_session_id db.sessions) [
  | none ↦ none
  | some s ↦ some s.job_id
]

abbrev pub is_job : Uuid → Option Uuid → Bool
is_job job_id none = false
is_job job_id (some j) = j == job_id

-- `create_retention_background_job`. Its two time arguments carry a time zone.
unfoldable pub create_retention_background_job :
    Ambient
    → (job_id media_asset_id : Uuid) (participant_id : Option Uuid) (retention_cutoff : Instant)
    → (trace_id : String) (scheduled_at : Option Instant) → Command Db BackgroundJobResponse
unfolding create_media_deletion_background_job
create_retention_background_job a job_id media_asset_id participant_id cutoff trace_id scheduled_at
      db =
    elim (keep (λ x. is_job job_id (job_of_asset db x)) (find asset_key media_asset_id db.assets)) [
      | none ↦ err not_found
      | some asset ↦ elim (find move_key job_id db.moves) [
        | none ↦ err not_found
        | some move_job ↦ elim (find_intent media_retention_delete media_asset_id db.jobs) [
          | some existing ↦ ok (response existing, db)
          | none ↦
              if is_past_retention cutoff asset move_job
              then create_media_deletion_background_job a asset job_id participant_id trace_id
                  scheduled_at db
              else err conflict
        ]
      ]
    ]

-- An uploaded asset whose metadata can be pinned.
abbrev pub is_pinned : MediaAsset → Bool
is_pinned asset =
    is_uploaded asset.status && is_clean asset.generation && not (is_none asset.actual_size_bytes)

-- `background_job_target_shape`, without the texts' lengths.
abbrev pub has_target_shape : BackgroundJob → Bool
has_target_shape r = elim r.job_type [
  | media_validation ↦
      not (is_none r.target_content_type)
      && elim r.target_size_bytes [ none ↦ false | some size ↦ leb 1 size ]
  | media_retention_delete ↦ is_none r.target_content_type && is_none r.target_size_bytes
]

-- `create_media_validation_background_job`. The asset's row may hold a size of 0, which
-- `background_job_target_shape` refuses when the new row is flushed.
unfoldable pub create_media_validation_background_job :
    Ambient
    → (job_id media_asset_id participant_id : Uuid) (trace_id : String)
    → (scheduled_at : Option Instant) → Command Db BackgroundJobResponse
create_media_validation_background_job a job_id media_asset_id participant_id trace_id scheduled_at
      db =
    elim (keep (λ x. is_job job_id (job_of_asset db x)) (find asset_key media_asset_id db.assets)) [
      | none ↦ err not_found
      | some asset ↦ elim (find_intent media_validation asset.id db.jobs) [
        | some existing ↦ ok (response existing, db)
        | none ↦
            if is_pinned asset
            then (let row =
                  new_job a job_id asset media_validation (cast_text asset.generation)
                    (some asset.content_type) asset.actual_size_bytes trace_id scheduled_at
                    (some participant_id) in
                if has_target_shape row
                then ok (response row, record db { jobs = row ∷ db.jobs })
                else err integrity_error)
            else err conflict
      ]
    ]

-- `execution_expired`
abbrev pub is_expired : Instant → BackgroundJob → Bool
is_expired now r =
    is_running r.status
    && elim r.execution_deadline_at [ none ↦ false | some deadline ↦ leb deadline now ]

-- The row as a retry leaves it.
abbrev pub retried_row : Instant → BackgroundJob → BackgroundJob
retried_row now r = record r {
  status = BackgroundJobStatus.pending;
  scheduled_at = now;
  provider_task_id = none;
  last_error_code = none;
  execution_deadline_at = none;
  completed_at = none;
}

abbrev pub write_job : BackgroundJob → Db → Db
write_job r db = record db { jobs = put job_key r db.jobs }

abbrev pub write_asset : MediaAsset → Db → Db
write_asset a db = record db { assets = put asset_key a db.assets }

abbrev pub failed_asset : MediaAsset → MediaAsset
failed_asset asset = record asset { status = MediaAssetStatus.failed; sha256_hex = none }

-- `retry_background_job`
unfoldable pub retry_background_job :
    (job_id background_job_id : Uuid) (now : Instant) → Command Db BackgroundJobResponse
retry_background_job job_id background_job_id now db =
    elim (keep (λ r. r.move_job_id == job_id) (find job_key background_job_id db.jobs)) [
      | none ↦ err not_found
      | some r ↦
          if not (is_failed r.status) && not (is_expired now r)
          then err conflict
          else elim r.job_type [
            | media_retention_delete ↦
                ok (response (retried_row now r), write_job (retried_row now r) db)
            | media_validation ↦ elim (find asset_key r.media_asset_id db.assets) [
              | none ↦ err no_result
              | some asset ↦
                  if is_expired now r
                  then (if is_processing asset.status
                      then ok (
                        response (retried_row now r),
                        write_job (retried_row now r) (write_asset (failed_asset asset) db),
                      )
                      else err conflict)
                  else ok (response (retried_row now r), write_job (retried_row now r) db)
            ]
          ]
    ]

-- `list_background_jobs`: `ORDER BY created_at, id`.
abbrev pub created_before : BackgroundJob → BackgroundJob → Bool
created_before r s =
    leb r.created_at s.created_at && (not (r.created_at == s.created_at) || leb r.id s.id)

-- `list_background_jobs`
unfoldable pub list_background_jobs : (job_id : Uuid) → Db → List BackgroundJobResponse
list_background_jobs job_id db =
    map response (sort job_key created_before (filter (λ r. r.move_job_id == job_id) db.jobs))
