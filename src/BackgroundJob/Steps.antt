-- ===== src/BackgroundJob/Steps.antt =====
-- Any number of dispatchers, workers and requests on the jobs, as a sequence of committed commands.
use Prim.Native.String.{String}
use seqret_be.Prelude.{
  ℕ, ◌+◌, ◌≡◌, refl, sym, ap, subst, Bool, true, not, ◌&&◌, Option, some, List, [], ◌∷◌, arith, All,
  All-map_pred,
}
use seqret_be.Prelude.Clock.{Uuid, Instant}
use seqret_be.Prelude.Table.{
  find, put, IsKeyed, Without, find-All, All-put, put-IsKeyed, find-IsKeyed, select-IsKeyed,
  All-select, select_holds, found-put,
}
use seqret_be.Prelude.Transaction.{ok}
use seqret_be.Contracts.Maintenance.{
  MediaValidationTask, MediaValidationWork, MediaValidationResult, MediaDeletionTask,
  MediaDeletionWork, MediaDeletionResult,
}
use seqret_be.Outbox as OutboxEvents
use seqret_be.BackgroundJob.Model.{BackgroundJob, MediaAsset, Db, job_key, BackgroundJobResponse}
use seqret_be.BackgroundJob.Intent.{
  Ambient, create_media_deletion_background_job, create_retention_background_job,
  create_media_validation_background_job, retry_background_job,
}
use seqret_be.BackgroundJob.Dispatch.{
  ClaimedBackgroundJob, claimable, is_due, before, leased, claim_background_jobs,
  finalize_background_job_dispatch,
}
use seqret_be.BackgroundJob.Claims.{lease_all, lease_jobs-lease_all}
use seqret_be.BackgroundJob.Execute.{
  start_media_validation, complete_media_validation, start_media_deletion, complete_media_deletion,
}
use seqret_be.BackgroundJob.Rows.{IsValidRow, leased-Evolves}
use seqret_be.BackgroundJob.Changes.{
  Change, kept, created, updated, retry-Change, finalize-Change, start_validation-Change,
  start_deletion-Change, complete_validation-Change, complete_deletion-Change,
  create_deletion-Change, create_retention-Change, create_validation-Change,
}

-- Changes one after another.
pub data Changes (t : List BackgroundJob) : List BackgroundJob → Type 0 where
  start : Changes t t
  then :
      {k : ℕ} {mid last : List BackgroundJob} → Changes t mid → Change k mid last → Changes t last

module _ (uuid4 : ℕ → Uuid) (now : Instant) (lease_seconds : ℕ) where
  lease_all-Changes :
      {t : List BackgroundJob} (rows : List BackgroundJob) (db : Db)
      → IsKeyed job_key rows
      → All (λ r. find job_key r.id db.jobs ≡ some r) rows
      → All (λ r. is_due now r ≡ true) rows
      → Changes t db.jobs
      → Changes t (lease_all uuid4 now lease_seconds rows db).1.jobs
  unfolding lease_all
  lease_all-Changes [] db w found due c = c
  lease_all-Changes (r ∷ rows) db w found due c =
      let row = leased (uuid4 db.draws) now lease_seconds r in
      lease_all-Changes rows (record db { jobs = put job_key row db.jobs; draws = db.draws + 1 })
        w.1 (found-put job_key row rows db.jobs w.0 found.1) due.1
        (then c
          (updated r row found.0 (leased-Evolves (uuid4 db.draws) now lease_seconds r due.0) refl))

pub claim-Changes :
    (uuid4 : ℕ → Uuid) (busy : Uuid → Bool) (now : Instant) (limit lease_seconds : ℕ) (db db' : Db)
    (claims : List ClaimedBackgroundJob)
    → IsKeyed job_key db.jobs
    → claim_background_jobs uuid4 busy now limit lease_seconds db ≡ ok (claims, db')
    → Changes db.jobs db'.jobs
unfolding claim_background_jobs
claim-Changes uuid4 busy now limit lease_seconds db db' claims keyed h =
    let rows = claimable busy now limit db.jobs in
    let p = λ (r : BackgroundJob). is_due now r && not (busy r.id) in
    let same : db' ≡ (lease_all uuid4 now lease_seconds rows db).1 =
      ap (λ x. x.1)
        (lease_jobs-lease_all uuid4 now lease_seconds rows db (claims, db') (ground arith)) in
    subst (λ d. Changes db.jobs d.jobs) (sym same)
      (lease_all-Changes uuid4 now lease_seconds rows db
        (select-IsKeyed job_key before p limit db.jobs keyed)
        (All-select job_key before (λ r. find job_key r.id db.jobs ≡ some r) p limit db.jobs
          (find-IsKeyed job_key db.jobs keyed))
        (All-map_pred (λ r. p r ≡ true) (λ r. is_due now r ≡ true) (λ r q. ground arith) rows
          (select_holds job_key before p limit db.jobs))
        start)

-- One committed command. The id that `uuid4` gives a new job is not in the table yet, and a command
-- that raises commits nothing.
pub data Step (uuid4 : ℕ → Uuid) (db db' : Db) : Type 0 where
  create_deletion :
      (a : Ambient) (asset : MediaAsset) (job_id : Uuid) (participant_id : Option Uuid)
      (trace_id : String) (scheduled_at : Option Instant) (x : BackgroundJobResponse)
      → Without job_key a.uuid db.jobs
      → create_media_deletion_background_job a asset job_id participant_id trace_id scheduled_at db
        ≡ ok (x, db')
      → Step uuid4 db db'
  create_retention :
      (a : Ambient) (job_id media_asset_id : Uuid) (participant_id : Option Uuid) (cutoff : Instant)
      (trace_id : String) (scheduled_at : Option Instant) (x : BackgroundJobResponse)
      → Without job_key a.uuid db.jobs
      → create_retention_background_job a job_id media_asset_id participant_id cutoff trace_id
          scheduled_at db
        ≡ ok (x, db')
      → Step uuid4 db db'
  create_validation :
      (a : Ambient) (job_id media_asset_id participant_id : Uuid) (trace_id : String)
      (scheduled_at : Option Instant) (x : BackgroundJobResponse)
      → Without job_key a.uuid db.jobs
      → create_media_validation_background_job a job_id media_asset_id participant_id trace_id
          scheduled_at db
        ≡ ok (x, db')
      → Step uuid4 db db'
  retry :
      (job_id k : Uuid) (now : Instant) (x : BackgroundJobResponse)
      → retry_background_job job_id k now db ≡ ok (x, db')
      → Step uuid4 db db'
  claim :
      (busy : Uuid → Bool) (now : Instant) (limit lease_seconds : ℕ)
      (claims : List ClaimedBackgroundJob)
      → claim_background_jobs uuid4 busy now limit lease_seconds db ≡ ok (claims, db')
      → Step uuid4 db db'
  finalize :
      (c : ClaimedBackgroundJob) (task_id error_code : Option String) (now : Instant) (done : Bool)
      → finalize_background_job_dispatch c task_id error_code now db ≡ ok (done, db')
      → Step uuid4 db db'
  start_validation :
      (task : MediaValidationTask) (now : Instant) (timeout : ℕ) (x : Option MediaValidationWork)
      → start_media_validation task now timeout db ≡ ok (x, db')
      → Step uuid4 db db'
  complete_validation :
      (result : MediaValidationResult) (now : Instant) (x : BackgroundJobResponse)
      → complete_media_validation result now db ≡ ok (x, db')
      → Step uuid4 db db'
  start_deletion :
      (task : MediaDeletionTask) (now : Instant) (timeout : ℕ) (x : Option MediaDeletionWork)
      → start_media_deletion task now timeout db ≡ ok (x, db')
      → Step uuid4 db db'
  complete_deletion :
      (a : OutboxEvents.Ambient) (result : MediaDeletionResult) (now : Instant)
      (x : BackgroundJobResponse)
      → complete_media_deletion a result now db ≡ ok (x, db')
      → Step uuid4 db db'

pub data Reach (uuid4 : ℕ → Uuid) (db : Db) : Db → Type 0 where
  here : Reach uuid4 db db
  next : {mid last : Db} → Reach uuid4 db mid → Step uuid4 mid last → Reach uuid4 db last

abbrev one : {k : ℕ} {t t' : List BackgroundJob} → Change k t t' → Changes t t'
one c = then start c

pub Step-Changes :
    {uuid4 : ℕ → Uuid} {db db' : Db}
    → IsKeyed job_key db.jobs
    → Step uuid4 db db'
    → Changes db.jobs db'.jobs
Step-Changes {uuid4} {db} {db'} v (create_deletion a asset j p t s x fresh h) =
    one (create_deletion-Change a asset j p t s db db' x fresh h)
Step-Changes {uuid4} {db} {db'} v (create_retention a j m p c t s x fresh h) =
    one (create_retention-Change a j m p c t s db db' x fresh h)
Step-Changes {uuid4} {db} {db'} v (create_validation a j m p t s x fresh h) =
    one (create_validation-Change a j m p t s db db' x fresh h)
Step-Changes {uuid4} {db} {db'} v (retry j k now x h) = one (retry-Change j k now db db' x h)
Step-Changes {uuid4} {db} {db'} v (claim busy now limit lease_seconds claims h) =
    claim-Changes uuid4 busy now limit lease_seconds db db' claims v h
Step-Changes {uuid4} {db} {db'} v (finalize c t e now done h) =
    one (finalize-Change c t e now db db' done h)
Step-Changes {uuid4} {db} {db'} v (start_validation task now timeout x h) =
    one (start_validation-Change task now timeout db db' x h)
Step-Changes {uuid4} {db} {db'} v (complete_validation result now x h) =
    one (complete_validation-Change result now db db' x h)
Step-Changes {uuid4} {db} {db'} v (start_deletion task now timeout x h) =
    one (start_deletion-Change task now timeout db db' x h)
Step-Changes {uuid4} {db} {db'} v (complete_deletion a result now x h) =
    one (complete_deletion-Change a result now db db' x h)

-- The constraints of the table: distinct ids, and the CHECK constraints of every row.
pub record IsValidJobs (t : List BackgroundJob) : Type 0 where
  pub keyed : IsKeyed job_key t
  pub rows : All IsValidRow t

Change-IsValidJobs :
    {k : ℕ} {t t' : List BackgroundJob} → Change k t t' → IsValidJobs t → IsValidJobs t'
Change-IsValidJobs (kept same) v = subst IsValidJobs (sym same) v
Change-IsValidJobs (created r fresh good same) v =
    subst IsValidJobs (sym same) (record { keyed = (fresh, v.keyed); rows = (good, v.rows) })
Change-IsValidJobs {k} {t} (updated r r' found e same) v = subst IsValidJobs (sym same) (record {
  keyed = put-IsKeyed job_key r' t v.keyed;
  rows =
      All-put job_key IsValidRow r' t (e.valid (find-All job_key IsValidRow k t r v.rows found))
        v.rows;
})

Changes-IsValidJobs : {t t' : List BackgroundJob} → Changes t t' → IsValidJobs t → IsValidJobs t'
Changes-IsValidJobs start v = v
Changes-IsValidJobs (then cs c) v = Change-IsValidJobs c (Changes-IsValidJobs cs v)

-- From a valid table, whatever commands dispatchers, workers and requests commit in any order, ids
-- stay distinct and every row keeps the CHECK constraints (but for the lengths of texts).
pub Reach-IsValidJobs :
    {uuid4 : ℕ → Uuid} {db db' : Db}
    → IsValidJobs db.jobs
    → Reach uuid4 db db'
    → IsValidJobs db'.jobs
Reach-IsValidJobs v here = v
Reach-IsValidJobs v (next steps step) =
    let mid = Reach-IsValidJobs v steps in Changes-IsValidJobs (Step-Changes mid.keyed step) mid
