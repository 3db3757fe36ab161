-- ===== src/BackgroundJob/Leases.antt =====
-- What a claim of jobs does to a row.
pub mod Exclusive
use seqret_be.Prelude.{
  ℕ, ◌+◌, ◌<◌, ◌≡◌, refl, sym, ap, ◌∙◌, Bool, true, false, not, ◌&&◌, none, some, List, [], ◌∷◌,
  arith, ◌==◌, All, Option-cases, Bool-cases, inl, inr,
}
use seqret_be.Prelude.Clock.{Uuid, Instant, seconds}
use seqret_be.Prelude.Table.{
  find, put, IsKeyed, find-put, find-put_ne, find-Without, found-put, find-IsKeyed, All-select,
  select_holds, select-IsKeyed, find_key, find-All,
}
use seqret_be.Prelude.Transaction.{ok}
use seqret_be.Contracts.Maintenance.{BackgroundJobType, media_validation, media_retention_delete}
use seqret_be.BackgroundJob.Model.{BackgroundJob, Db, job_key}
use seqret_be.BackgroundJob.Dispatch.{
  task_job_id, task_of, ClaimedBackgroundJob, is_due, before, claimable, leased,
  claim_background_jobs,
}
use seqret_be.BackgroundJob.Claims.{lease_all, lease_jobs-lease_all}

abbrev pub claim_key : ClaimedBackgroundJob → ℕ
claim_key c = task_job_id c.task

-- A task names its job.
task_names_job : (r : BackgroundJob) → task_job_id (task_of r) ≡ r.id
task_names_job r = by_type r.job_type refl
  where
    by_type : (t : BackgroundJobType) → r.job_type ≡ t → task_job_id (task_of r) ≡ r.id
    by_type media_validation e = ground arith
    by_type media_retention_delete e = ground arith

module _ (uuid4 : ℕ → Uuid) (now : Instant) (lease_seconds : ℕ) where
  -- The tables after the first of the selected rows was leased.
  abbrev after_one : BackgroundJob → Db → Db
  after_one r db = record db {
    jobs = put job_key (leased (uuid4 db.draws) now lease_seconds r) db.jobs;
    draws = db.draws + 1;
  }

  find-lease_all-none :
      (k : ℕ) (rows : List BackgroundJob) (db : Db)
      → find job_key k rows ≡ none
      → find job_key k (lease_all uuid4 now lease_seconds rows db).1.jobs ≡ find job_key k db.jobs
  unfolding lease_all
  find-lease_all-none k [] db h = refl
  find-lease_all-none k (r ∷ rows) db h = ground (
    arith,
    find-lease_all-none k rows (after_one r db),
    find-put_ne job_key k (leased (uuid4 db.draws) now lease_seconds r) db.jobs,
  )

  -- Row `r` was selected and is leased to the claim.
  abbrev IsHandedTo : ℕ → List BackgroundJob → Db → ClaimedBackgroundJob → BackgroundJob → Type 0
  IsHandedTo k rows last c r =
      (find job_key k rows ≡ some r)
      × (find job_key k last.jobs ≡ some (leased c.dispatch_token now lease_seconds r))
      × (c.task ≡ task_of (leased c.dispatch_token now lease_seconds r))

  find-lease_all :
      (k : ℕ) (rows : List BackgroundJob) (db : Db) (c : ClaimedBackgroundJob)
      → IsKeyed job_key rows
      → All (λ r. find job_key r.id db.jobs ≡ some r) rows
      → find claim_key k (lease_all uuid4 now lease_seconds rows db).0 ≡ some c
      → (r : BackgroundJob) × IsHandedTo k rows (lease_all uuid4 now lease_seconds rows db).1 c r
  unfolding lease_all
  find-lease_all k [] db c keyed known h = absurd (ground arith)
  find-lease_all k (r ∷ rows) db c keyed known h =
      let row = leased (uuid4 db.draws) now lease_seconds r in
      let id = task_names_job row in
      elim (Bool-cases (r.id == k)) [
        | inl here_it_is ↦
            let same : r.id ≡ k = ground arith in
            let absent : find job_key k rows ≡ none =
              ap (λ i. find job_key i rows) (sym same) ∙ find-Without job_key r.id rows keyed.0 in
            let kept = find-lease_all-none k rows (after_one r db) absent in
            let known_k : find job_key k db.jobs ≡ some r =
              ap (λ i. find job_key i db.jobs) (sym same) ∙ known.0 in
            let written = find-put job_key k row r db.jobs known_k same in
            let is_head : c ≡ record { task = task_of row; dispatch_token = uuid4 db.draws } =
              ground (arith, id, same) in
            (r, (ground arith, ground (arith, kept, written, is_head), ground (arith, is_head)))
        | inr further ↦
            let (s, (found, found', task)) =
              find-lease_all k rows (after_one r db) c keyed.1
                (found-put job_key row rows db.jobs keyed.0 known.1) (ground (arith, id)) in
            (s, (ground (arith, found), found', task))
      ]

  -- A job that is claimed from a table with distinct ids was due and free, its row is leased to its
  -- claim, and the task of the claim names its current attempt.
  pub claimed_job :
      (busy : Uuid → Bool) (limit : ℕ) (db db' : Db) (claims : List ClaimedBackgroundJob) (k : ℕ)
      (c : ClaimedBackgroundJob)
      → IsKeyed job_key db.jobs
      → claim_background_jobs uuid4 busy now limit lease_seconds db ≡ ok (claims, db')
      → find claim_key k claims ≡ some c
      → (r : BackgroundJob) × (find job_key k db.jobs ≡ some r)
        × ((is_due now r && not (busy r.id)) ≡ true)
        × (find job_key k db'.jobs ≡ some (leased c.dispatch_token now lease_seconds r))
        × (c.task ≡ task_of (leased c.dispatch_token now lease_seconds r))
  unfolding claim_background_jobs
  claimed_job busy limit db db' claims k c keyed h taken =
      let rows = claimable busy now limit db.jobs in
      let p = λ (r : BackgroundJob). is_due now r && not (busy r.id) in
      let known =
        All-select job_key before (λ r. find job_key r.id db.jobs ≡ some r) p limit db.jobs
          (find-IsKeyed job_key db.jobs keyed) in
      let same =
        lease_jobs-lease_all uuid4 now lease_seconds rows db (claims, db') (ground arith) in
      let same_claims : claims ≡ (lease_all uuid4 now lease_seconds rows db).0 =
        ap (λ x. x.0) same in
      let same_db : db' ≡ (lease_all uuid4 now lease_seconds rows db).1 = ap (λ x. x.1) same in
      let (r, (found, found', task)) =
        find-lease_all k rows db c (select-IsKeyed job_key before p limit db.jobs keyed) known
          (ap (find claim_key k) (sym same_claims) ∙ taken) in
      let r_key = find_key job_key k rows r found in
      (
        r,
        ap (λ i. find job_key i db.jobs) (sym r_key)
            ∙ find-All job_key (λ r. find job_key r.id db.jobs ≡ some r) k rows r known found,
        find-All job_key (λ r. p r ≡ true) k rows r (select_holds job_key before p limit db.jobs)
            found,
        ap (λ d. find job_key k d.jobs) same_db ∙ found',
        task,
      )

  -- The row of a job that is not due stays as it is.
  pub not_due_stays :
      (busy : Uuid → Bool) (limit : ℕ) (db db' : Db) (claims : List ClaimedBackgroundJob) (k : ℕ)
      (r : BackgroundJob)
      → IsKeyed job_key db.jobs
      → claim_background_jobs uuid4 busy now limit lease_seconds db ≡ ok (claims, db')
      → find job_key k db.jobs ≡ some r
      → is_due now r ≡ false
      → find job_key k db'.jobs ≡ some r
  unfolding claim_background_jobs
  not_due_stays busy limit db db' claims k r keyed h at_first waits =
      let rows = claimable busy now limit db.jobs in
      let p = λ (r : BackgroundJob). is_due now r && not (busy r.id) in
      let known =
        All-select job_key before (λ r. find job_key r.id db.jobs ≡ some r) p limit db.jobs
          (find-IsKeyed job_key db.jobs keyed) in
      let same =
        lease_jobs-lease_all uuid4 now lease_seconds rows db (claims, db') (ground arith) in
      elim (Option-cases (find job_key k rows)) [
        | inl absent ↦
            ap (λ x. find job_key k x.1.jobs) same ∙ find-lease_all-none k rows db absent ∙ at_first
        | inr (s, found) ↦
            let s_key = find_key job_key k rows s found in
            let stored : find job_key k db.jobs ≡ some s =
              ap (λ i. find job_key i db.jobs) (sym s_key)
              ∙ find-All job_key (λ r. find job_key r.id db.jobs ≡ some r) k rows s known found in
            let due =
              find-All job_key (λ r. p r ≡ true) k rows s
                (select_holds job_key before p limit db.jobs) found in
            let same_row : s ≡ r = ground (arith, stored, at_first) in
            absurd (ground (arith, same_row, due, waits))
      ]
