-- ===== src/BackgroundJob/Attempts/Shape.antt =====
-- The validators of app/contracts/maintenance.py and the assertions of the service.
use seqret_be.Prelude.{◌≡◌, ◌≢◌, true, arith, Option-cases, Bool-cases, inl, inr}
use seqret_be.Prelude.Clock.{Instant}
use seqret_be.Prelude.Transaction.{err, assertion, Result-cases}
use seqret_be.Contracts.Maintenance.{
  MediaValidationResult, MediaDeletionResult, is_succeeded, has_terminal_shape, has_failure_error,
}
use seqret_be.Contracts.Events.{build_event}
use seqret_be.Outbox as OutboxEvents
use seqret_be.Outbox.{enqueue_domain_event}
use seqret_be.BackgroundJob.Model.{BackgroundJob, Db}
use seqret_be.BackgroundJob.Intent.{write_job, write_asset}
use seqret_be.BackgroundJob.Execute.{
  joined, complete_media_validation, complete_media_deletion, announce_deletion, succeeded_row,
  deleted_asset,
}

-- A validation result that passed its validator never fails an assertion of
-- complete_media_validation.
pub validation_asserts_hold :
    (result : MediaValidationResult) (now : Instant) (db : Db)
    → has_terminal_shape result ≡ true
    → complete_media_validation result now db ≢ err assertion
unfolding complete_media_validation
validation_asserts_hold result now db shape h =
    elim (Option-cases (joined result.background_job_id db)) [
      | inl missing ↦ ground arith
      | inr ((r, asset), found) ↦ elim (Bool-cases (is_succeeded result.outcome)) [
        | inl good ↦ elim (Option-cases result.sha256_hex) [
          | inl unnamed ↦ ground (arith, unnamed)
          | inr (sha, named) ↦ ground (arith, named)
        ]
        | inr bad ↦ elim (Option-cases result.error_kind) [
          | inl unnamed ↦ ground (arith, unnamed)
          | inr (kind, named) ↦ ground (arith, named)
        ]
      ]
    ]

announce_raises_value :
    (a : OutboxEvents.Ambient) (now : Instant) (r : BackgroundJob) (db : Db)
    → announce_deletion a now r db ≢ err assertion
unfolding enqueue_domain_event build_event
announce_raises_value a now r db h = ground arith

-- A deletion result that passed its validator never fails an assertion of complete_media_deletion.
pub deletion_asserts_hold :
    (a : OutboxEvents.Ambient) (result : MediaDeletionResult) (now : Instant) (db : Db)
    → has_failure_error result ≡ true
    → complete_media_deletion a result now db ≢ err assertion
unfolding complete_media_deletion
deletion_asserts_hold a result now db shape h =
    elim (Option-cases (joined result.background_job_id db)) [
      | inl missing ↦ ground arith
      | inr ((r, asset), found) ↦ elim (Bool-cases (is_succeeded result.outcome)) [
        | inl good ↦
            let mid = write_job (succeeded_row now r) (write_asset (deleted_asset asset) db) in
            elim (Result-cases (announce_deletion a now r mid)) [
              | inl (last, announced) ↦ ground (arith, announced)
              | inr (x, raised) ↦ ground (arith, raised, announce_raises_value a now r mid)
            ]
        | inr bad ↦ elim (Option-cases result.error_kind) [
          | inl unnamed ↦ ground (arith, unnamed)
          | inr (kind, named) ↦ ground (arith, named)
        ]
      ]
    ]
