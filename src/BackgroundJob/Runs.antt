-- ===== src/BackgroundJob/Runs.antt =====
-- A dispatch pass is a sequence of the service's commands, it returns whenever its arguments are in
-- range, and its counts are bounded by what it claimed.
use seqret_be.Prelude.{
  ℕ, ◌+◌, ◌≤◌, ◌<◌, ◌≡◌, refl, ap, Bool, true, false, not, ◌&&◌, some, List, [], ◌∷◌, arith, length,
  suc, Option-cases, Bool-cases, inl, inr, All,
}
use seqret_be.Prelude.Clock.{Uuid, Instant, seconds}
use seqret_be.Prelude.Table.{find, put, length-select, All-select}
use seqret_be.Prelude.Transaction.{ok}
use seqret_be.Outbox.{max_batch_size}
use seqret_be.Outbox.Relay.{error_code}
use seqret_be.BackgroundJob.Model.{BackgroundJob, Db, job_key}
use seqret_be.BackgroundJob.Intent.{write_job}
use seqret_be.BackgroundJob.Dispatch.{
  Task, task_job_id, ClaimedBackgroundJob, DispatchResult, QueueAnswer, accepted, raised, tally,
  task_id_of, error_code_of, is_due, before, claimable, leased, claim_background_jobs, holds_lease,
  already_accepted, queued_row, refused_row, finalize_background_job_dispatch, record_outcomes,
  dispatch_background_jobs_once,
}
use seqret_be.BackgroundJob.Claims.{can_be_task, lease_all, lease_jobs_total}
use seqret_be.BackgroundJob.Steps.{claim, finalize, Reach, here, next}

pub Reach-trans :
    {uuid4 : ℕ → Uuid} {db mid last : Db}
    → Reach uuid4 db mid
    → Reach uuid4 mid last
    → Reach uuid4 db last
Reach-trans a here = a
Reach-trans a (next b step) = next (Reach-trans a b) step

length-lease_all :
    (uuid4 : ℕ → Uuid) (now : Instant) (lease_seconds : ℕ) (rows : List BackgroundJob) (db : Db)
    → length (lease_all uuid4 now lease_seconds rows db).0 ≡ length rows
unfolding lease_all
length-lease_all uuid4 now lease_seconds [] db = refl
length-lease_all uuid4 now lease_seconds (r ∷ rows) db = ap suc (
    length-lease_all uuid4 now lease_seconds rows (record db {
      jobs = put job_key (leased (uuid4 db.draws) now lease_seconds r) db.jobs;
      draws = db.draws + 1;
    }))

-- With arguments in range, and if every row gives a task, a claim returns, with at most `limit` jobs.
pub claim_background_jobs_total :
    (uuid4 : ℕ → Uuid) (busy : Uuid → Bool) (now : Instant) (limit lease_seconds : ℕ) (db : Db)
    → All (λ r. can_be_task r ≡ true) db.jobs
    → 1 ≤ limit
    → limit ≤ max_batch_size
    → 1 ≤ lease_seconds
    → (claims : List ClaimedBackgroundJob) × (db' : Db) × (claim_background_jobs uuid4 busy now
          limit lease_seconds db
        ≡ ok (claims, db'))
      × (length claims ≤ limit)
unfolding claim_background_jobs
claim_background_jobs_total uuid4 busy now limit lease_seconds db tasks a b c =
    let rows = claimable busy now limit db.jobs in
    let all = length-lease_all uuid4 now lease_seconds rows db in
    let p = λ (r : BackgroundJob). is_due now r && not (busy r.id) in
    let run =
      lease_jobs_total uuid4 now lease_seconds rows db
        (All-select job_key before (λ r. can_be_task r ≡ true) p limit db.jobs tasks) in
    let few = length-select job_key before (λ r. is_due now r && not (busy r.id)) limit db.jobs in
    (
      (lease_all uuid4 now lease_seconds rows db).0,
      (lease_all uuid4 now lease_seconds rows db).1,
      ground (arith, run),
      omega (arith, all, few),
    )

-- Recording an answer never raises.
finalize_total :
    (c : ClaimedBackgroundJob) (q : QueueAnswer) (now : Instant) (db : Db)
    → (done : Bool) × (db' : Db) × (finalize_background_job_dispatch c
          (task_id_of q)
          (error_code_of q)
          now
          db
        ≡ ok (done, db'))
unfolding finalize_background_job_dispatch
finalize_total c (accepted t) now db =
    elim (Option-cases (find job_key (task_job_id c.task) db.jobs)) [
      | inl missing ↦ (false, db, ground arith)
      | inr (r, found) ↦ elim (Bool-cases (holds_lease c.dispatch_token r)) [
        | inl mine ↦ (true, write_job (queued_row t r) db, ground arith)
        | inr gone ↦ elim (Bool-cases (already_accepted c.task t r)) [
          | inl early ↦ (true, write_job (record r { provider_task_id = some t }) db, ground arith)
          | inr late ↦ (false, db, ground arith)
        ]
      ]
    ]
finalize_total c (raised x) now db =
    elim (Option-cases (find job_key (task_job_id c.task) db.jobs)) [
      | inl missing ↦ (false, db, ground arith)
      | inr (r, found) ↦ elim (Bool-cases (holds_lease c.dispatch_token r)) [
        | inl mine ↦ (true, write_job (refused_row (error_code x) now r) db, ground arith)
        | inr gone ↦ (false, db, ground arith)
      ]
    ]

module _ (uuid4 : ℕ → Uuid) (queue : Task → QueueAnswer)
    (outcome_time : ClaimedBackgroundJob → Instant) where
  one_count : (q : QueueAnswer) (done : Bool) → (tally q done).0 + (tally q done).1 ≤ 1
  one_count (accepted _) done = ground arith
  one_count (raised _) done = ground arith

  record_outcomes_runs :
      {start : Db} (claims : List ClaimedBackgroundJob) (db : Db)
      → Reach uuid4 start db
      → (counts : ℕ × ℕ) × (db' : Db) × (record_outcomes queue outcome_time claims db
          ≡ ok (counts, db'))
        × Reach uuid4 start db'
        × (counts.0 + counts.1 ≤ length claims)
  unfolding record_outcomes
  record_outcomes_runs [] db r = ((0, 0), db, refl, r, omega arith)
  record_outcomes_runs (c ∷ claims) db r =
      let q = queue c.task in
      let (done, db', e) = finalize_total c q (outcome_time c) db in
      let (rest, db'', e', r', few') =
        record_outcomes_runs claims db'
          (next r (finalize c (task_id_of q) (error_code_of q) (outcome_time c) done e)) in
      let few = one_count (queue c.task) done in
      let one = tally (queue c.task) done in
      ((one.0 + rest.0, one.1 + rest.1), db'', ground (arith, e, e'), r', omega arith)

  -- With arguments in range, if every row has a trace id of 32 hexadecimal digits and, unless it is
  -- pending, an attempt, and whatever sequence of commands other processes commit while the queue
  -- answers, a dispatch pass returns; what it commits is a sequence of the commands of the service;
  -- queued and failed are together at most claimed, and claimed is at most the batch.
  pub dispatch_background_jobs_once_runs :
      (busy : Uuid → Bool) (meanwhile : Db → Db) (now : Instant)
      (batch_size lease_seconds timeout : ℕ) (db : Db)
      → All (λ r. can_be_task r ≡ true) db.jobs
      → ((d : Db) → Reach uuid4 d (meanwhile d))
      → 1 ≤ batch_size
      → batch_size ≤ max_batch_size
      → 1 ≤ timeout
      → timeout < seconds lease_seconds
      → (result : DispatchResult) × (db' : Db) × (dispatch_background_jobs_once queue outcome_time
            uuid4 busy meanwhile now batch_size lease_seconds timeout db
          ≡ (ok result, db'))
        × Reach uuid4 db db'
        × (result.queued + result.failed ≤ result.claimed)
        × (result.claimed ≤ batch_size)
  unfolding dispatch_background_jobs_once
  dispatch_background_jobs_once_runs busy meanwhile now batch_size lease_seconds timeout db tasks
        others a b c d =
      let (claims, db', claimed, few) =
        claim_background_jobs_total uuid4 busy now batch_size lease_seconds db tasks a b
          (omega arith) in
      by_claims claims db' claimed few
    where
      by_claims :
          (claims : List ClaimedBackgroundJob) (db' : Db)
          → claim_background_jobs uuid4 busy now batch_size lease_seconds db ≡ ok (claims, db')
          → length claims ≤ batch_size
          → (result : DispatchResult) × (last : Db) × (dispatch_background_jobs_once queue
                outcome_time uuid4 busy meanwhile now batch_size lease_seconds timeout db
              ≡ (ok result, last))
            × Reach uuid4 db last
            × (result.queued + result.failed ≤ result.claimed)
            × (result.claimed ≤ batch_size)
      by_claims [] db' e few = (
        record { claimed = 0; queued = 0; failed = 0 },
        db',
        ground (arith, e),
        next here (claim busy now batch_size lease_seconds [] e),
        omega arith,
        omega arith,
      )
      by_claims (x ∷ claims) db' e few =
          let first = next here (claim busy now batch_size lease_seconds (x ∷ claims) e) in
          let (counts, last, settled, steps, bound) =
            record_outcomes_runs (x ∷ claims) (meanwhile db') (Reach-trans first (others db')) in
          (
            record { claimed = length (x ∷ claims); queued = counts.0; failed = counts.1 },
            last,
            ground (arith, e, settled),
            steps,
            bound,
            few,
          )
