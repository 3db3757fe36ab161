-- ===== src/BackgroundJob/Attempts/Deletion.antt =====
-- A deletion that ends, and its event.
use Prim.Native.String.{String}
use seqret_be.Prelude.{
  ◌≡◌, refl, ◌∙◌, true, false, none, some, ◌∷◌, inl, inr, arith, Option-cases, Bool-cases,
}
use seqret_be.Prelude.Clock.{Instant}
use seqret_be.Prelude.Transaction.{ok, Result-cases}
use seqret_be.Contracts.Ports.{ProviderErrorKind}
use seqret_be.Contracts.Maintenance.{
  MediaDeletionResult, is_succeeded, media_retention_delete, succeeded,
}
use seqret_be.Outbox as OutboxEvents
use seqret_be.Outbox.{enqueue_domain_event, new_row, or_hex}
use seqret_be.Contracts.Events.{DomainEvent, media_deleted, is_documented, is_trace_id, build_event}
use seqret_be.BackgroundJob.Model.{
  BackgroundJob, MediaAsset, Db, BackgroundJobResponse, response, running, is_running, is_terminal,
}
use seqret_be.BackgroundJob.Intent.{write_job, write_asset}
use seqret_be.BackgroundJob.Execute.{
  joined, succeeded_row, failed_row, deleted_asset, is_same_deletion, complete_media_deletion,
  announce_deletion, deletion_payload,
}
use seqret_be.BackgroundJob.Attempts.{joined-write}

-- What the event of a finished deletion holds.
abbrev pub deletion_event : OutboxEvents.Ambient → Instant → BackgroundJob → DomainEvent
deletion_event a now r = record {
  event_id = a.uuid;
  event_type = media_deleted;
  schema_version = 1;
  aggregate_id = r.move_job_id;
  occurred_at = now;
  actor_id = none;
  trace_id = r.trace_id;
  payload = deletion_payload r;
}

-- A trace id is 32 digits, so it is not empty and is not replaced.
trace_kept : (t d : String) → is_trace_id t ≡ true → or_hex (some t) d ≡ t
unfolding is_trace_id
trace_kept String.[] d h = cc
trace_kept (String.◌∷◌ c s) d h = refl

payload_documented : (r : BackgroundJob) → is_documented media_deleted (deletion_payload r) ≡ true
unfolding is_documented
payload_documented r = refl

pub announces :
    (a : OutboxEvents.Ambient) (now : Instant) (r : BackgroundJob) (db : Db)
    → is_trace_id r.trace_id ≡ true
    → announce_deletion a now r db
      ≡ ok (record db {
        outbox = record (db.outbox) {
          events = new_row (deletion_event a now r) ∷ db.outbox.events;
        };
      })
unfolding enqueue_domain_event build_event
announces a now r db t = ground (arith, trace_kept r.trace_id a.hex t, payload_documented r)

-- A completion of a deletion that returned: the attempt was decided before, or it ends now.
pub data DeletionCompleted (a : OutboxEvents.Ambient) (result : MediaDeletionResult) (now : Instant)
    (db : Db) (x : BackgroundJobResponse) (db' : Db) : Type 0 where
  decided_before :
      (r : BackgroundJob) (asset : MediaAsset)
      → joined result.background_job_id db ≡ some (r, asset)
      → is_terminal r.status ≡ true
      → is_same_deletion result r ≡ true
      → x ≡ response r
      → db' ≡ db
      → DeletionCompleted a result now db x db'
  deleted :
      (r : BackgroundJob) (asset : MediaAsset)
      → joined result.background_job_id db ≡ some (r, asset)
      → is_running r.status ≡ true
      → is_succeeded result.outcome ≡ true
      → x ≡ response (succeeded_row now r)
      → announce_deletion a now r
          (write_job (succeeded_row now r) (write_asset (deleted_asset asset) db))
        ≡ ok db'
      → DeletionCompleted a result now db x db'
  not_deleted :
      (r : BackgroundJob) (asset : MediaAsset) (kind : ProviderErrorKind)
      → joined result.background_job_id db ≡ some (r, asset)
      → is_running r.status ≡ true
      → is_succeeded result.outcome ≡ false
      → result.error_kind ≡ some kind
      → x ≡ response (failed_row now kind r)
      → db' ≡ write_job (failed_row now kind r) db
      → DeletionCompleted a result now db x db'

pub complete_deletion_inv :
    (a : OutboxEvents.Ambient) (result : MediaDeletionResult) (now : Instant) (db db' : Db)
    (x : BackgroundJobResponse)
    → complete_media_deletion a result now db ≡ ok (x, db')
    → DeletionCompleted a result now db x db'
unfolding complete_media_deletion
complete_deletion_inv a result now db db' x h =
    elim (Option-cases (joined result.background_job_id db)) [
      | inl missing ↦ absurd (ground arith)
      | inr ((r, asset), found) ↦ elim (Bool-cases (is_terminal r.status)) [
        | inl end_ ↦ decided_before r asset found end_ (ground arith) (ground arith) (ground arith)
        | inr open_attempt ↦ elim (Bool-cases (is_succeeded result.outcome)) [
          | inl good ↦
              let mid = write_job (succeeded_row now r) (write_asset (deleted_asset asset) db) in
              elim (Result-cases (announce_deletion a now r mid)) [
                | inr (e, raised) ↦ absurd (ground (arith, raised))
                | inl (last, announced) ↦
                    deleted r asset found (ground arith) good (ground (arith, announced))
                      (announced ∙ ground (arith, announced))
              ]
          | inr bad ↦ elim (Option-cases result.error_kind) [
            | inl unnamed ↦ absurd (ground arith)
            | inr (kind, named) ↦
                not_deleted r asset kind found (ground arith) bad named (ground arith)
                  (ground arith)
          ]
        ]
      ]
    ]

-- The success of the current and running deletion attempt of a job with a well-formed trace id is
-- accepted: the job succeeds, its asset is deleted, and one event with the documented payload joins
-- the outbox.
pub complete_deletion_announces :
    (a : OutboxEvents.Ambient) (result : MediaDeletionResult) (now : Instant) (db : Db)
    (r : BackgroundJob) (asset : MediaAsset)
    → joined result.background_job_id db ≡ some (r, asset)
    → r.job_type ≡ media_retention_delete
    → r.attempt_count ≡ result.attempt_count
    → r.status ≡ running
    → result.outcome ≡ succeeded
    → is_trace_id r.trace_id ≡ true
    → (db' : Db) × (complete_media_deletion a result now db
        ≡ ok (response (succeeded_row now r), db'))
      × (joined result.background_job_id db' ≡ some (succeeded_row now r, deleted_asset asset))
      × (db'.outbox.events ≡ new_row (deletion_event a now r) ∷ db.outbox.events)
      × (is_documented media_deleted (deletion_event a now r).payload ≡ true)
unfolding complete_media_deletion
complete_deletion_announces a result now db r asset found type attempt runs good trace =
    let mid = write_job (succeeded_row now r) (write_asset (deleted_asset asset) db) in
    let announced = announces a now r mid trace in
    (
      record mid {
        outbox = record (db.outbox) {
          events = new_row (deletion_event a now r) ∷ db.outbox.events;
        };
      },
      ground (arith, announced),
      joined-write result.background_job_id r (succeeded_row now r) asset (deleted_asset asset) db
          found refl refl refl,
      refl,
      payload_documented r,
    )
