-- ===== src/BackgroundJob/Claims.antt =====
-- The loop of a claim of jobs, as a pure function of the rows for which every task can be built.
use seqret_be.Prelude.{
  ℕ, ◌+◌, ◌≡◌, refl, Bool, true, ◌&&◌, ◌||◌, List, [], ◌∷◌, arith, leb, All, Bool-cases, inl, inr,
}
use seqret_be.Prelude.Clock.{Uuid, Instant}
use seqret_be.Prelude.Table.{put}
use seqret_be.Prelude.Transaction.{ok, Result-cases}
use seqret_be.Contracts.Events.{is_trace_id}
use seqret_be.Contracts.Maintenance.{BackgroundJobType, media_validation, media_retention_delete}
use seqret_be.BackgroundJob.Model.{BackgroundJob, Db, job_key, is_pending}
use seqret_be.BackgroundJob.Dispatch.{
  task_of, is_valid_task, ClaimedBackgroundJob, leased, lease_jobs,
}

-- Whether the row gives a task that can be built: a claim counts an attempt of a pending job first.
abbrev pub can_be_task : BackgroundJob → Bool
can_be_task r = is_trace_id r.trace_id && (is_pending r.status || leb 1 r.attempt_count)

leased-is_valid :
    (token : Uuid) (now : Instant) (n : ℕ) (r : BackgroundJob)
    → can_be_task r ≡ true
    → is_valid_task (task_of (leased token now n r)) ≡ true
leased-is_valid token now n r h = by_type r.job_type refl
  where
    by_type :
        (t : BackgroundJobType)
        → r.job_type ≡ t
        → is_valid_task (task_of (leased token now n r)) ≡ true
    by_type media_validation e = ground arith
    by_type media_retention_delete e = ground arith

module _ (uuid4 : ℕ → Uuid) (now : Instant) (lease_seconds : ℕ) where
  -- The claims of the rows, and the tables after them.
  unfoldable pub lease_all : List BackgroundJob → Db → List ClaimedBackgroundJob × Db
  lease_all [] db = ([], db)
  lease_all (r ∷ rows) db =
      let token = uuid4 db.draws in
      let row = leased token now lease_seconds r in
      let (claims, db') =
        lease_all rows (record db { jobs = put job_key row db.jobs; draws = db.draws + 1 }) in
      (record { task = task_of row; dispatch_token = token } ∷ claims, db')

  -- A loop that returns has leased all rows.
  pub lease_jobs-lease_all :
      (rows : List BackgroundJob) (db : Db) (x : List ClaimedBackgroundJob × Db)
      → lease_jobs uuid4 now lease_seconds rows db ≡ ok x
      → x ≡ lease_all rows db
  unfolding lease_jobs lease_all
  lease_jobs-lease_all [] db x h = ground arith
  lease_jobs-lease_all (r ∷ rows) db x h =
      let row = leased (uuid4 db.draws) now lease_seconds r in
      let db1 = record db { jobs = put job_key row db.jobs; draws = db.draws + 1 } in
      elim (Bool-cases (is_valid_task (task_of row))) [
        | inr bad ↦ absurd (ground (arith, bad))
        | inl good ↦ elim (Result-cases (lease_jobs uuid4 now lease_seconds rows db1)) [
          | inr (e, raised) ↦ absurd (ground (arith, good, raised))
          | inl ((claims, db'), done) ↦
              let all = lease_jobs-lease_all rows db1 (claims, db') done in
              ground (arith, good, done, all)
        ]
      ]

  -- With a task for every row the loop returns.
  pub lease_jobs_total :
      (rows : List BackgroundJob) (db : Db)
      → All (λ r. can_be_task r ≡ true) rows
      → lease_jobs uuid4 now lease_seconds rows db ≡ ok (lease_all rows db)
  unfolding lease_jobs lease_all
  lease_jobs_total [] db h = refl
  lease_jobs_total (r ∷ rows) db h =
      let row = leased (uuid4 db.draws) now lease_seconds r in
      let good = leased-is_valid (uuid4 db.draws) now lease_seconds r h.0 in
      let all =
        lease_jobs_total rows (record db { jobs = put job_key row db.jobs; draws = db.draws + 1 })
          h.1 in
      ground (arith, good, all)
