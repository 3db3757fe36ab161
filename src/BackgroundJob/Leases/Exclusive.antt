-- ===== src/BackgroundJob/Leases/Exclusive.antt =====
-- Dispatchers and workers on one table of jobs: while a dispatch lease is live, the commands of the
-- others leave its job alone.
use Prim.Native.String.{String}
use native.Mathlib.Decide.{ℕ_discrete}
use seqret_be.Prelude.{
  ℕ, ◌+◌, ◌<◌, ◌≡◌, ◌≢◌, refl, sym, ap, ◌∙◌, Bool, true, false, not, ◌&&◌, Option, none, some, List,
  arith, ltb, ◌==◌, Option-cases, inl, inr,
}
use seqret_be.Prelude.Clock.{Uuid, Instant, seconds}
use seqret_be.Prelude.Table.{find, IsKeyed, Without, find-put_ne, find-Without, find_key}
use seqret_be.Prelude.Transaction.{ok}
use seqret_be.Contracts.Maintenance.{MediaValidationResult, MediaDeletionResult}
use seqret_be.Outbox as OutboxEvents
use seqret_be.BackgroundJob.Model.{BackgroundJob, BackgroundJobResponse, Db, job_key, dispatching}
use seqret_be.BackgroundJob.Intent.{retry_background_job}
use seqret_be.BackgroundJob.Dispatch.{
  task_job_id, ClaimedBackgroundJob, leased, is_due, claim_background_jobs,
  finalize_background_job_dispatch,
}
use seqret_be.BackgroundJob.Execute.{complete_media_validation, complete_media_deletion}
use seqret_be.BackgroundJob.Changes.{
  Change, kept, created, updated, retry-Change, finalize-Change, start_validation-Change,
  start_deletion-Change, complete_validation-Change, complete_deletion-Change,
  create_deletion-Change, create_retention-Change, create_validation-Change,
}
use seqret_be.BackgroundJob.Steps.{
  Step, create_deletion, create_retention, create_validation, retry, claim, finalize,
  start_validation, complete_validation, start_deletion, complete_deletion, Reach, here, next,
  IsValidJobs, Reach-IsValidJobs,
}
use seqret_be.BackgroundJob.Leases.{claim_key, claimed_job, not_due_stays}

-- The command neither comes from the dispatcher that holds job `k` by the token until that time nor
-- starts the job: a claim is made before then, an outcome for the job comes with another token, and
-- a worker starts another job.
abbrev pub is_foreign :
    {uuid4 : ℕ → Uuid} {db db' : Db} → Uuid → Uuid → Instant → Step uuid4 db db' → Bool
is_foreign k token until (claim busy now limit lease_seconds claims h) = ltb now until
is_foreign k token until (finalize c t e now done h) =
    not (task_job_id c.task == k && c.dispatch_token == token)
is_foreign k token until (start_validation task now timeout x h) = not (task.background_job_id == k)
is_foreign k token until (start_deletion task now timeout x h) = not (task.background_job_id == k)
is_foreign k token until (create_deletion a asset j p t s x fresh h) = true
is_foreign k token until (create_retention a j m p c t s x fresh h) = true
is_foreign k token until (create_validation a j m p t s x fresh h) = true
is_foreign k token until (retry j i now x h) = true
is_foreign k token until (complete_validation result now x h) = true
is_foreign k token until (complete_deletion a result now x h) = true

abbrev pub all_foreign :
    {uuid4 : ℕ → Uuid} {db db' : Db} → Uuid → Uuid → Instant → Reach uuid4 db db' → Bool
all_foreign k token until here = true
all_foreign k token until (next steps step) =
    all_foreign k token until steps && is_foreign k token until step

-- The row of a live dispatch lease.
pub record IsHeld (token : Uuid) (until : Instant) (r : BackgroundJob) : Type 0 where
  pub state : r.status ≡ dispatching
  pub owner : r.dispatch_token ≡ some token
  pub lease_end : r.dispatch_locked_until ≡ some until

-- A change of another row leaves this one.
elsewhere :
    {t t' : List BackgroundJob} (j k : ℕ) (r : BackgroundJob)
    → find job_key k t ≡ some r
    → Change j t t'
    → k ≢ j
    → find job_key k t' ≡ some r
elsewhere {t} j k r found (kept same) ne = ap (find job_key k) same ∙ found
elsewhere {t} j k r found (created s fresh good same) ne =
    ap (find job_key k) same ∙ ground (arith, found, find-Without job_key s.id t fresh)
elsewhere {t} j k r found (updated s s' at_j e same) ne =
    let s'_key : s'.id ≡ j = e.id ∙ find_key job_key j t s at_j in
    ap (find job_key k) same ∙ find-put_ne job_key k s' t (λ q. ne (q ∙ s'_key)) ∙ found

-- A new id is not that of a row.
fresh_ne :
    (i k : ℕ) (r : BackgroundJob) (t : List BackgroundJob)
    → Without job_key i t
    → find job_key k t ≡ some r
    → k ≢ i
fresh_ne i k r t fresh found = λ e. ground (arith, found, e, find-Without job_key i t fresh)

-- A job that is being dispatched is not retried and does not end.
retry-dispatching :
    (job_id k : Uuid) (now : Instant) (db db' : Db) (x : BackgroundJobResponse) (r : BackgroundJob)
    → retry_background_job job_id k now db ≡ ok (x, db')
    → find job_key k db.jobs ≡ some r
    → r.status ≢ dispatching
unfolding retry_background_job
retry-dispatching job_id k now db db' x r h found = λ d. ground (arith, h, found, d)

complete_validation-dispatching :
    (result : MediaValidationResult) (now : Instant) (db db' : Db) (x : BackgroundJobResponse)
    (r : BackgroundJob)
    → complete_media_validation result now db ≡ ok (x, db')
    → find job_key result.background_job_id db.jobs ≡ some r
    → r.status ≢ dispatching
unfolding complete_media_validation
complete_validation-dispatching result now db db' x r h found = λ d. ground (arith, h, found, d)

complete_deletion-dispatching :
    (a : OutboxEvents.Ambient) (result : MediaDeletionResult) (now : Instant) (db db' : Db)
    (x : BackgroundJobResponse) (r : BackgroundJob)
    → complete_media_deletion a result now db ≡ ok (x, db')
    → find job_key result.background_job_id db.jobs ≡ some r
    → r.status ≢ dispatching
unfolding complete_media_deletion
complete_deletion-dispatching a result now db db' x r h found = λ d. ground (arith, h, found, d)

-- An outcome with another token is not recorded on a job that is being dispatched.
finalize-IsHeld :
    (c : ClaimedBackgroundJob) (task_id error_code : Option String) (now : Instant) (db db' : Db)
    (done : Bool) (token : Uuid) (until : Instant) (r : BackgroundJob)
    → finalize_background_job_dispatch c task_id error_code now db ≡ ok (done, db')
    → find job_key (task_job_id c.task) db.jobs ≡ some r
    → IsHeld token until r
    → c.dispatch_token ≢ token
    → db' ≡ db
unfolding finalize_background_job_dispatch
finalize-IsHeld c none none now db db' done token until r h found held ne = absurd (ground arith)
finalize-IsHeld c (some _) (some _) now db db' done token until r h found held ne =
    absurd (ground arith)
finalize-IsHeld c (some t) none now db db' done token until r h found held ne =
    ground (arith, h, found, held.state, held.owner, ne)
finalize-IsHeld c none (some e) now db db' done token until r h found held ne =
    ground (arith, h, found, held.state, held.owner, ne)

foreign-IsHeld :
    {uuid4 : ℕ → Uuid} {db db' : Db} (k token : Uuid) (until : Instant) (r : BackgroundJob)
    → IsKeyed job_key db.jobs
    → find job_key k db.jobs ≡ some r
    → IsHeld token until r
    → (step : Step uuid4 db db') → is_foreign k token until step ≡ true
    → find job_key k db'.jobs ≡ some r
foreign-IsHeld {uuid4} {db} {db'} k token until r v found held
      (claim busy now limit lease_seconds claims h) foreign =
    let waits : is_due now r ≡ false = ground (arith, held.state, held.lease_end) in
    not_due_stays uuid4 now lease_seconds busy limit db db' claims k r v h found waits
foreign-IsHeld {uuid4} {db} {db'} k token until r v found held (finalize c t e now done h) foreign =
    elim (ℕ_discrete k (task_job_id c.task)) [
      | no ne ↦ elsewhere _ k r found (finalize-Change c t e now db db' done h) ne
      | yes same ↦
          let at_c = ap (λ i. find job_key i db.jobs) (sym same) ∙ found in
          let kept =
            finalize-IsHeld c t e now db db' done token until r h at_c held
              (λ q. ground (arith, same, q)) in
          ap (λ d. find job_key k d.jobs) kept ∙ found
    ]
foreign-IsHeld {uuid4} {db} {db'} k token until r v found held
      (start_validation task now timeout x h) foreign =
    elsewhere _ k r found (start_validation-Change task now timeout db db' x h)
      (λ q. ground (arith, q))
foreign-IsHeld {uuid4} {db} {db'} k token until r v found held (start_deletion task now timeout x h)
      foreign =
    elsewhere _ k r found (start_deletion-Change task now timeout db db' x h)
      (λ q. ground (arith, q))
foreign-IsHeld {uuid4} {db} {db'} k token until r v found held
      (create_deletion a asset j p t s x fresh h) foreign =
    elsewhere _ k r found (create_deletion-Change a asset j p t s db db' x fresh h)
      (fresh_ne a.uuid k r db.jobs fresh found)
foreign-IsHeld {uuid4} {db} {db'} k token until r v found held
      (create_retention a j m p c t s x fresh h) foreign =
    elsewhere _ k r found (create_retention-Change a j m p c t s db db' x fresh h)
      (fresh_ne a.uuid k r db.jobs fresh found)
foreign-IsHeld {uuid4} {db} {db'} k token until r v found held
      (create_validation a j m p t s x fresh h) foreign =
    elsewhere _ k r found (create_validation-Change a j m p t s db db' x fresh h)
      (fresh_ne a.uuid k r db.jobs fresh found)
foreign-IsHeld {uuid4} {db} {db'} k token until r v found held (retry j i now x h) foreign =
    elsewhere _ k r found (retry-Change j i now db db' x h) (λ q.
      retry-dispatching j i now db db' x r h (ap (λ n. find job_key n db.jobs) (sym q) ∙ found)
        held.state)
foreign-IsHeld {uuid4} {db} {db'} k token until r v found held (complete_validation result now x h)
      foreign =
    elsewhere _ k r found (complete_validation-Change result now db db' x h) (λ q.
      complete_validation-dispatching result now db db' x r h
        (ap (λ n. find job_key n db.jobs) (sym q) ∙ found) held.state)
foreign-IsHeld {uuid4} {db} {db'} k token until r v found held (complete_deletion a result now x h)
      foreign =
    elsewhere _ k r found (complete_deletion-Change a result now db db' x h) (λ q.
      complete_deletion-dispatching a result now db db' x r h
        (ap (λ n. find job_key n db.jobs) (sym q) ∙ found) held.state)

and_both : (a b : Bool) → (a && b) ≡ true → (a ≡ true) × (b ≡ true)
and_both a b h = (ground arith, ground arith)

all_foreign-IsHeld :
    {uuid4 : ℕ → Uuid} {db db' : Db} (k token : Uuid) (until : Instant) (r : BackgroundJob)
    → IsValidJobs db.jobs
    → find job_key k db.jobs ≡ some r
    → IsHeld token until r
    → (steps : Reach uuid4 db db') → all_foreign k token until steps ≡ true
    → find job_key k db'.jobs ≡ some r
all_foreign-IsHeld k token until r v found held here foreign = found
all_foreign-IsHeld k token until r v found held (next steps step) foreign =
    let (before_it, now_too) =
      and_both (all_foreign k token until steps) (is_foreign k token until step) foreign in
    let mid = all_foreign-IsHeld k token until r v found held steps before_it in
    let valid = Reach-IsValidJobs v steps in
    foreign-IsHeld k token until r valid.keyed mid held step now_too

-- After a dispatcher has claimed a job of a valid table, and after any sequence of commands in
-- which every claim comes before the end of its lease, no outcome for the job carries its token and
-- no worker starts the job, the row of the job is as the claim left it, and a claim before the end
-- of the lease does not return the job.
pub live_dispatch_excludes :
    (uuid4 : ℕ → Uuid) (busy busy' : Uuid → Bool) (now later : Instant)
    (limit limit' lease_seconds lease_seconds' : ℕ) (db db' mid last : Db)
    (claims claims' : List ClaimedBackgroundJob) (k : ℕ) (c : ClaimedBackgroundJob)
    → IsValidJobs db.jobs
    → claim_background_jobs uuid4 busy now limit lease_seconds db ≡ ok (claims, db')
    → find claim_key k claims ≡ some c
    → (steps : Reach uuid4 db' mid)
    → all_foreign k c.dispatch_token (now + seconds lease_seconds) steps ≡ true
    → claim_background_jobs uuid4 busy' later limit' lease_seconds' mid ≡ ok (claims', last)
    → later < now + seconds lease_seconds
    → (find job_key k mid.jobs ≡ find job_key k db'.jobs) × (find claim_key k claims' ≡ none)
live_dispatch_excludes uuid4 busy busy' now later limit limit' ls ls' db db' mid last claims claims'
      k c v first taken steps foreign second live =
    let until = now + seconds ls in
    let v' = Reach-IsValidJobs v (next here (claim busy now limit ls claims first)) in
    let (r, _, _, row, _) =
      claimed_job uuid4 now ls busy limit db db' claims k c v.keyed first taken in
    let held : IsHeld c.dispatch_token until (leased c.dispatch_token now ls r) = record {
      state = refl;
      owner = refl;
      lease_end = refl;
    } in
    let kept = all_foreign-IsHeld k c.dispatch_token until _ v' row held steps foreign in
    (
      kept ∙ sym row,
      elim (Option-cases (find claim_key k claims')) [
        | inl free ↦ free
        | inr (c', found) ↦
            let v'' = Reach-IsValidJobs v' steps in
            let (s, stored, was_due, _, _) =
              claimed_job uuid4 later ls' busy' limit' mid last claims' k c' v''.keyed second
                found in
            let same : s ≡ leased c.dispatch_token now ls r = cc in
            absurd (ground (arith, same, was_due, live))
      ],
    )
