-- ===== src/BackgroundJob/Attempts.antt =====
-- The media worker's calls under the queue's at-least-once delivery: a call that is repeated gives
-- the same answer and changes nothing more, and an attempt is decided once.
pub mod Replay
pub mod Deletion
pub mod DeletionReplay
pub mod Shape
use Prim.Native.String.{String}
use seqret_be.Prelude.{
  ℕ, ◌+◌, ◌≡◌, refl, sym, subst, ap, ◌∙◌, Bool, true, false, not, ◌&&◌, ◌||◌, Option, none, some,
  List, [], ◌∷◌, ◌⊎◌, inl, inr, arith, Option-cases, Bool-cases,
}
use text.Mathlib.TextEquality.{eq_iff}
use text.Mathlib.TextPositions.{eq_refl}
use seqret_be.Prelude.Clock.{Uuid, Instant}
use seqret_be.Prelude.Text.{same_text, same_option, same_number, is_text_eq}
use seqret_be.Prelude.Table.{find, put, find-put, find_key}
use seqret_be.Prelude.Transaction.{Result, ok, err}
use seqret_be.Contracts.Ports.{ProviderErrorKind, unavailable, value}
use seqret_be.Contracts.Maintenance.{
  MediaValidationTask, MediaValidationWork, MediaValidationResult, MediaDeletionTask,
  MediaDeletionWork, MediaDeletionResult, is_succeeded,
}
use seqret_be.Outbox as OutboxEvents
use seqret_be.BackgroundJob.Model.{
  BackgroundJob, MediaAsset, Db, job_key, asset_key, BackgroundJobResponse, response, is_running,
  is_startable, is_processing, is_terminal,
}
use seqret_be.BackgroundJob.Intent.{write_job, write_asset, failed_asset}
use seqret_be.BackgroundJob.Execute.{
  joined, is_current, started_row, processing_asset, succeeded_row, failed_row, ready_asset,
  deleted_asset, is_target, names_attempt, observes_target, is_same_validation, is_same_deletion,
  start_media_validation, complete_media_validation, start_media_deletion, complete_media_deletion,
  finish_validation, announce_deletion, validation_work, is_kind,
}

-- After both rows were written the join finds what was written.
pub joined-write :
    (k : Uuid) (r r' : BackgroundJob) (asset asset' : MediaAsset) (db : Db)
    → joined k db ≡ some (r, asset)
    → r'.id ≡ r.id
    → r'.media_asset_id ≡ r.media_asset_id
    → asset'.id ≡ asset.id
    → joined k (write_job r' (write_asset asset' db)) ≡ some (r', asset')
joined-write k r r' asset asset' db h same_id same_asset same_asset_id =
    elim (Option-cases (find job_key k db.jobs)) [
      | inl missing ↦ absurd (ground arith)
      | inr (s, found) ↦ elim (Option-cases (find asset_key s.media_asset_id db.assets)) [
        | inl missing ↦ absurd (ground arith)
        | inr (b, found') ↦
            let s_is_r : s ≡ r = ground arith in
            let b_is_asset : b ≡ asset = ground arith in
            ground (
              arith,
              s_is_r,
              b_is_asset,
              find_key job_key k db.jobs s found,
              find_key asset_key s.media_asset_id db.assets b found',
              find-put job_key k r' s db.jobs found,
              find-put asset_key s.media_asset_id asset' b db.assets found',
            )
      ]
    ]

-- After the row alone was written the join finds it with its asset.
pub joined-write_job :
    (k : Uuid) (r r' : BackgroundJob) (asset : MediaAsset) (db : Db)
    → joined k db ≡ some (r, asset)
    → r'.id ≡ r.id
    → r'.media_asset_id ≡ r.media_asset_id
    → joined k (write_job r' db) ≡ some (r', asset)
joined-write_job k r r' asset db h same_id same_asset =
    elim (Option-cases (find job_key k db.jobs)) [
      | inl missing ↦ absurd (ground arith)
      | inr (s, found) ↦ elim (Option-cases (find asset_key s.media_asset_id db.assets)) [
        | inl missing ↦ absurd (ground arith)
        | inr (b, found') ↦
            let s_is_r : s ≡ r = ground arith in
            ground (
              arith,
              s_is_r,
              find_key job_key k db.jobs s found,
              find-put job_key k r' s db.jobs found,
            )
      ]
    ]

-- A validation task whose start returned work, when it is started again at any time, returns the
-- same work and changes nothing.
pub start_validation_again :
    (task : MediaValidationTask) (now later : Instant) (timeout : ℕ) (db db' : Db)
    (w : MediaValidationWork)
    → start_media_validation task now timeout db ≡ ok (some w, db')
    → start_media_validation task later timeout db' ≡ ok (some w, db')
unfolding start_media_validation
start_validation_again task now later timeout db db' w h =
    let k = task.background_job_id in
    elim (Option-cases (joined k db)) [
      | inl missing ↦ absurd (ground arith)
      | inr ((r, asset), found) ↦ elim (Bool-cases (is_startable r.status)) [
        | inr runs ↦ ground arith
        | inl starts ↦
            let row = started_row now timeout r in
            let busy = processing_asset asset in
            let written : db' ≡ write_job row (write_asset busy db) = ground arith in
            let found' = joined-write k r row asset busy db found refl refl refl in
            ground (arith, written, found')
      ]
    ]

-- What a completion that returned has done: nothing, if the attempt was decided before; else it
-- ended the attempt of the joined rows.
pub data Completed (result : MediaValidationResult) (now : Instant) (db : Db)
    (x : BackgroundJobResponse) (db' : Db) : Type 0 where
  decided :
      (r : BackgroundJob) (asset : MediaAsset)
      → joined result.background_job_id db ≡ some (r, asset)
      → is_terminal r.status ≡ true
      → is_same_validation result r asset ≡ true
      → x ≡ response r
      → db' ≡ db
      → Completed result now db x db'
  validated :
      (r : BackgroundJob) (asset : MediaAsset) (sha256_hex : String)
      → joined result.background_job_id db ≡ some (r, asset)
      → is_running r.status ≡ true
      → is_succeeded result.outcome ≡ true
      → result.sha256_hex ≡ some sha256_hex
      → x ≡ response (succeeded_row now r)
      → db' ≡ write_job (succeeded_row now r) (write_asset (ready_asset result sha256_hex asset) db)
      → Completed result now db x db'
  rejected :
      (r : BackgroundJob) (asset : MediaAsset) (kind : ProviderErrorKind)
      → joined result.background_job_id db ≡ some (r, asset)
      → is_running r.status ≡ true
      → is_succeeded result.outcome ≡ false
      → result.error_kind ≡ some kind
      → x ≡ response (failed_row now kind r)
      → db' ≡ write_job (failed_row now kind r) (write_asset (failed_asset asset) db)
      → Completed result now db x db'

pub complete_validation_inv :
    (result : MediaValidationResult) (now : Instant) (db db' : Db) (x : BackgroundJobResponse)
    → complete_media_validation result now db ≡ ok (x, db')
    → Completed result now db x db'
unfolding complete_media_validation
complete_validation_inv result now db db' x h =
    elim (Option-cases (joined result.background_job_id db)) [
      | inl missing ↦ absurd (ground arith)
      | inr ((r, asset), found) ↦ elim (Bool-cases (is_terminal r.status)) [
        | inl ended ↦ decided r asset found ended (ground arith) (ground arith) (ground arith)
        | inr open_attempt ↦ elim (Bool-cases (is_succeeded result.outcome)) [
          | inl good ↦ elim (Option-cases result.sha256_hex) [
            | inl unnamed ↦ absurd (ground arith)
            | inr (sha, named) ↦
                validated r asset sha found (ground arith) good named (ground arith) (ground arith)
          ]
          | inr bad ↦ elim (Option-cases result.error_kind) [
            | inl unnamed ↦ absurd (ground arith)
            | inr (kind, named) ↦
                rejected r asset kind found (ground arith) bad named (ground arith) (ground arith)
          ]
        ]
      ]
    ]

-- After a completion the joined row is ended, and the answer shows it.
ended :
    (result : MediaValidationResult) (now : Instant) (db db' : Db) (x : BackgroundJobResponse)
    → Completed result now db x db'
    → (r' : BackgroundJob) × (asset' : MediaAsset) × (joined result.background_job_id db'
        ≡ some (r', asset'))
      × (is_terminal r'.status ≡ true)
      × (x ≡ response r')
ended result now db db' x (decided r asset found end_ _ same_x same_db) =
    (r, asset, ap (joined result.background_job_id) same_db ∙ found, end_, same_x)
ended result now db db' x (validated r asset sha found _ _ _ same_x same_db) = (
  succeeded_row now r,
  ready_asset result sha asset,
  ap (joined result.background_job_id) same_db
      ∙ joined-write result.background_job_id r (succeeded_row now r) asset
          (ready_asset result sha asset) db found refl refl refl,
  refl,
  same_x,
)
ended result now db db' x (rejected r asset kind found _ _ _ same_x same_db) = (
  failed_row now kind r,
  failed_asset asset,
  ap (joined result.background_job_id) same_db
      ∙ joined-write result.background_job_id r (failed_row now kind r) asset (failed_asset asset)
          db found refl refl refl,
  refl,
  same_x,
)

-- After complete_media_validation has returned for a job, any result for that job that it accepts
-- on the tables so left changes nothing and gets the recorded answer.
pub complete_validation_once :
    (first second : MediaValidationResult) (now later : Instant) (db db' db'' : Db)
    (x y : BackgroundJobResponse)
    → second.background_job_id ≡ first.background_job_id
    → complete_media_validation first now db ≡ ok (x, db')
    → complete_media_validation second later db' ≡ ok (y, db'')
    → (db'' ≡ db') × (y ≡ x)
complete_validation_once first second now later db db' db'' x y same h k =
    let (r, asset, found, end_, answer) =
      ended first now db db' x (complete_validation_inv first now db db' x h) in
    let found' : joined second.background_job_id db' ≡ some (r, asset) =
      ap (λ i. joined i db') same ∙ found in
    elim (complete_validation_inv second later db' db'' y k) [
      | decided s b f _ _ same_y same_db ↦ (same_db, ground (arith, same_y, answer, f, found'))
      | validated s b sha f runs _ _ _ _ ↦ absurd (ground (arith, f, found', runs, end_))
      | rejected s b kind f runs _ _ _ _ ↦ absurd (ground (arith, f, found', runs, end_))
    ]
