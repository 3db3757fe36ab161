-- ===== src/BackgroundJob/Attempts/Replay.antt =====
-- A validation result that is delivered twice.
use Prim.Native.String.{String}
use seqret_be.Prelude.{◌≡◌, refl, ◌∙◌, true, false, not, ◌&&◌, some, arith}
use text.Mathlib.TextEquality.{eq_iff}
use text.Mathlib.TextPositions.{eq_refl}
use seqret_be.Prelude.Clock.{Instant}
use seqret_be.Prelude.Transaction.{ok}
use seqret_be.Contracts.Ports.{ProviderErrorKind, unavailable, value}
use seqret_be.Contracts.Maintenance.{MediaValidationResult, is_succeeded}
use seqret_be.BackgroundJob.Model.{
  BackgroundJob, MediaAsset, Db, BackgroundJobResponse, response, is_terminal,
}
use seqret_be.BackgroundJob.Intent.{write_job, write_asset, failed_asset}
use seqret_be.BackgroundJob.Execute.{
  joined, succeeded_row, failed_row, ready_asset, is_target, names_attempt, observes_target,
  is_same_validation, complete_media_validation,
}
use seqret_be.BackgroundJob.Attempts.{
  joined-write, decided, validated, rejected, complete_validation_inv,
}

-- The guards of a completion, which it passed if it returned.
passed :
    (result : MediaValidationResult) (now : Instant) (db db' : Db) (x : BackgroundJobResponse)
    (r : BackgroundJob) (asset : MediaAsset)
    → complete_media_validation result now db ≡ ok (x, db')
    → joined result.background_job_id db ≡ some (r, asset)
    → (names_attempt result r ≡ true)
      × (is_target r asset ≡ true)
      × ((is_succeeded result.outcome && not (observes_target result r)) ≡ false)
unfolding complete_media_validation
passed result now db db' x r asset h found = ground arith

names_after :
    (result : MediaValidationResult) (now : Instant) (kind : ProviderErrorKind) (r : BackgroundJob)
    → (names_attempt result (succeeded_row now r) ≡ names_attempt result r)
      × (names_attempt result (failed_row now kind r) ≡ names_attempt result r)
unfolding names_attempt
names_after result now kind r = (refl, refl)

target_after_failure :
    (now : Instant) (kind : ProviderErrorKind) (r : BackgroundJob) (asset : MediaAsset)
    → is_target (failed_row now kind r) (failed_asset asset) ≡ is_target r asset
unfolding is_target
target_after_failure now kind r asset = refl

observes_after :
    (result : MediaValidationResult) (now : Instant) (r : BackgroundJob)
    → observes_target result (succeeded_row now r) ≡ observes_target result r
unfolding observes_target
observes_after result now r = refl

-- A validated asset is the object that was observed, which is the job's target.
target_after_success :
    (result : MediaValidationResult) (sha : String) (now : Instant) (r : BackgroundJob)
    (asset : MediaAsset)
    → names_attempt result r ≡ true
    → is_target r asset ≡ true
    → observes_target result r ≡ true
    → is_target (succeeded_row now r) (ready_asset result sha asset) ≡ true
unfolding names_attempt is_target observes_target
target_after_success result sha now r asset n t o = ground (
  arith,
  eq_iff r.target_generation result.source_generation,
  eq_iff result.source_generation r.target_generation,
)

same_after_success :
    (result : MediaValidationResult) (sha : String) (now : Instant) (r : BackgroundJob)
    (asset : MediaAsset)
    → is_succeeded result.outcome ≡ true
    → result.sha256_hex ≡ some sha
    → is_same_validation result (succeeded_row now r) (ready_asset result sha asset) ≡ true
unfolding is_same_validation
same_after_success result sha now r asset good named = ground (arith, eq_refl sha)

same_after_failure :
    (result : MediaValidationResult) (kind : ProviderErrorKind) (now : Instant) (r : BackgroundJob)
    (asset : MediaAsset)
    → is_succeeded result.outcome ≡ false
    → result.error_kind ≡ some kind
    → is_same_validation result (failed_row now kind r) (failed_asset asset) ≡ true
unfolding is_same_validation
same_after_failure result kind now r asset bad named = ground (arith, eq_refl (value kind))

-- A completion answers from an ended attempt whose result it repeats.
replay :
    (result : MediaValidationResult) (later : Instant) (db : Db) (r : BackgroundJob)
    (asset : MediaAsset)
    → joined result.background_job_id db ≡ some (r, asset)
    → names_attempt result r ≡ true
    → is_target r asset ≡ true
    → (is_succeeded result.outcome && not (observes_target result r)) ≡ false
    → is_terminal r.status ≡ true
    → is_same_validation result r asset ≡ true
    → complete_media_validation result later db ≡ ok (response r, db)
unfolding complete_media_validation
replay result later db r asset found n t o end_ same = ground arith

-- A validation result that complete_media_validation accepted, when it is delivered again, gets the
-- same answer and changes nothing.
pub complete_validation_again :
    (result : MediaValidationResult) (now later : Instant) (db db' : Db) (x : BackgroundJobResponse)
    → complete_media_validation result now db ≡ ok (x, db')
    → complete_media_validation result later db' ≡ ok (x, db')
complete_validation_again result now later db db' x h =
    elim (complete_validation_inv result now db db' x h) [
      | decided r asset found end_ same same_x same_db ↦
          let (n, t, o) = passed result now db db' x r asset h found in
          ground (arith, same_x, same_db, replay result later db r asset found n t o end_ same)
      | validated r asset sha found runs good named same_x same_db ↦
          let (n, t, o) = passed result now db db' x r asset h found in
          let row = succeeded_row now r in
          let fresh = ready_asset result sha asset in
          let found' =
            joined-write result.background_job_id r row asset fresh db found refl refl refl in
          let o' : observes_target result r ≡ true = ground (arith, good, o) in
          ground (
            arith,
            same_x,
            same_db,
            replay result later (write_job row (write_asset fresh db)) row fresh found'
                ((names_after result now unavailable r).0 ∙ n)
                (target_after_success result sha now r asset n t o')
                (ground (arith, o, observes_after result now r)) refl
                (same_after_success result sha now r asset good named),
          )
      | rejected r asset kind found runs bad named same_x same_db ↦
          let (n, t, o) = passed result now db db' x r asset h found in
          let row = failed_row now kind r in
          let fresh = failed_asset asset in
          let found' =
            joined-write result.background_job_id r row asset fresh db found refl refl refl in
          ground (
            arith,
            same_x,
            same_db,
            replay result later (write_job row (write_asset fresh db)) row fresh found'
                ((names_after result now kind r).1 ∙ n) (target_after_failure now kind r asset ∙ t)
                (ground (arith, bad)) refl (same_after_failure result kind now r asset bad named),
          )
    ]
