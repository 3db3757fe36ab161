-- ===== src/BackgroundJob/Attempts/DeletionReplay.antt =====
-- A deletion result that is delivered twice.
use seqret_be.Prelude.{◌≡◌, refl, ◌∙◌, Bool, true, false, ◌&&◌, none, some, inl, inr, arith, ◌==◌}
use text.Mathlib.TextPositions.{eq_refl}
use seqret_be.Prelude.Clock.{Uuid, Instant}
use seqret_be.Prelude.Transaction.{ok, Result-cases}
use seqret_be.Contracts.Ports.{ProviderErrorKind, value}
use seqret_be.Contracts.Maintenance.{MediaDeletionResult, is_succeeded, media_retention_delete}
use seqret_be.Contracts.Events.{media_deleted}
use seqret_be.Outbox as OutboxEvents
use seqret_be.Outbox.{enqueue_domain_event}
use seqret_be.BackgroundJob.Model.{
  BackgroundJob, MediaAsset, Db, BackgroundJobResponse, response, is_terminal,
}
use seqret_be.BackgroundJob.Intent.{write_job, write_asset, same_type}
use seqret_be.BackgroundJob.Execute.{
  joined, succeeded_row, failed_row, deleted_asset, is_same_deletion, complete_media_deletion,
  announce_deletion, deletion_payload,
}
use seqret_be.BackgroundJob.Attempts.{joined-write, joined-write_job}
use seqret_be.BackgroundJob.Attempts.Deletion.{
  decided_before, deleted, not_deleted, complete_deletion_inv,
}

-- The result names this job and its current attempt.
abbrev names_deletion : MediaDeletionResult → BackgroundJob → Bool
names_deletion result r =
    same_type r.job_type media_retention_delete && r.attempt_count == result.attempt_count

passed_deletion :
    (a : OutboxEvents.Ambient) (result : MediaDeletionResult) (now : Instant) (db db' : Db)
    (x : BackgroundJobResponse) (r : BackgroundJob) (asset : MediaAsset)
    → complete_media_deletion a result now db ≡ ok (x, db')
    → joined result.background_job_id db ≡ some (r, asset)
    → names_deletion result r ≡ true
unfolding complete_media_deletion
passed_deletion a result now db db' x r asset h found = ground arith

same_deletion_after :
    (result : MediaDeletionResult) (kind : ProviderErrorKind) (now : Instant) (r : BackgroundJob)
    → is_succeeded result.outcome ≡ false
    → result.error_kind ≡ some kind
    → is_same_deletion result (failed_row now kind r) ≡ true
unfolding is_same_deletion
same_deletion_after result kind now r bad named = ground (arith, eq_refl (value kind))

same_deletion_done :
    (result : MediaDeletionResult) (now : Instant) (r : BackgroundJob)
    → is_succeeded result.outcome ≡ true
    → is_same_deletion result (succeeded_row now r) ≡ true
unfolding is_same_deletion
same_deletion_done result now r good = good

replay_deletion :
    (a : OutboxEvents.Ambient) (result : MediaDeletionResult) (later : Instant) (db : Db)
    (r : BackgroundJob) (asset : MediaAsset)
    → joined result.background_job_id db ≡ some (r, asset)
    → names_deletion result r ≡ true
    → is_terminal r.status ≡ true
    → is_same_deletion result r ≡ true
    → complete_media_deletion a result later db ≡ ok (response r, db)
unfolding complete_media_deletion
replay_deletion a result later db r asset found n end_ same = ground arith

-- The event goes to the outbox and leaves the other tables alone.
joined_announced :
    (a : OutboxEvents.Ambient) (now : Instant) (r : BackgroundJob) (db db' : Db) (k : Uuid)
    → announce_deletion a now r db ≡ ok db'
    → joined k db' ≡ joined k db
joined_announced a now r db db' k h =
    let e = deletion_payload r in
    elim (Result-cases (
      enqueue_domain_event a media_deleted r.move_job_id none (some r.trace_id) e (some now)
        db.outbox)) [
          | inl ((v, box), put_in) ↦ ground (arith, put_in)
          | inr (x, raised) ↦ absurd (ground (arith, raised))
        ]

-- A deletion result that complete_media_deletion accepted, when it is delivered again, gets the
-- same answer and changes nothing, so its event is written once.
pub complete_deletion_again :
    (a b : OutboxEvents.Ambient) (result : MediaDeletionResult) (now later : Instant) (db db' : Db)
    (x : BackgroundJobResponse)
    → complete_media_deletion a result now db ≡ ok (x, db')
    → complete_media_deletion b result later db' ≡ ok (x, db')
complete_deletion_again a b result now later db db' x h =
    let k = result.background_job_id in
    elim (complete_deletion_inv a result now db db' x h) [
      | decided_before r asset found end_ same same_x same_db ↦ ground (
        arith,
        same_x,
        same_db,
        replay_deletion b result later db r asset found
            (passed_deletion a result now db db' x r asset h found) end_ same,
      )
      | deleted r asset found runs good same_x announced ↦
          let row = succeeded_row now r in
          let gone = deleted_asset asset in
          let found' =
            joined_announced a now r (write_job row (write_asset gone db)) db' k announced
            ∙ joined-write k r row asset gone db found refl refl refl in
          ground (
            arith,
            same_x,
            replay_deletion b result later db' row gone found'
                (passed_deletion a result now db db' x r asset h found) refl
                (same_deletion_done result now r good),
          )
      | not_deleted r asset kind found runs bad named same_x same_db ↦
          let row = failed_row now kind r in
          let found' : joined k (write_job row db) ≡ some (row, asset) =
            joined-write_job k r row asset db found refl refl in
          ground (
            arith,
            same_x,
            same_db,
            replay_deletion b result later (write_job row db) row asset found'
                (passed_deletion a result now db db' x r asset h found) refl
                (same_deletion_after result kind now r bad named),
          )
    ]
