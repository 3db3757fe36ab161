-- ===== src/BackgroundJob/Dispatch.antt =====
-- service.py of background_job: claiming due jobs, handing them to the task queue, and recording
-- the outcome.
use Prim.Native.String.{String}
use seqret_be.Prelude.{
  ℕ, ◌+◌, Bool, true, false, not, ◌&&◌, ◌||◌, Option, none, some, List, [], ◌∷◌, ltb, leb, ◌==◌,
  if◌then◌else◌, is_none, is_some_eq, length,
}
use seqret_be.Prelude.Clock.{Uuid, Instant, seconds}
use seqret_be.Prelude.Text.{same_text, same_option}
use seqret_be.Prelude.Table.{find, put, select}
use seqret_be.Prelude.Transaction.{
  Command, Result, ok, err, value_error, return, raise_if, get, ◌>>=◌, ◌>>◌,
}
use seqret_be.Contracts.Events.{is_trace_id}
use seqret_be.Contracts.Ports.{Exception}
use seqret_be.Contracts.Maintenance.{
  media_validation, media_retention_delete, MediaValidationTask, MediaDeletionTask,
}
use seqret_be.Outbox.{max_batch_size}
use seqret_be.Outbox.Relay.{error_code, as_count}
use seqret_be.BackgroundJob.Model.{
  BackgroundJobStatus, is_pending, is_dispatching, is_accepted, BackgroundJob, Db, job_key,
}
use seqret_be.BackgroundJob.Intent.{write_job}

-- The message for the queue, by the job's type.
pub data Task : Type 0 where
  validation : MediaValidationTask → Task
  deletion : MediaDeletionTask → Task

-- The fields that both kinds of task have.
abbrev pub task_job_id : Task → Uuid
task_job_id (validation t) = t.background_job_id
task_job_id (deletion t) = t.background_job_id

abbrev pub task_attempt_count : Task → ℕ
task_attempt_count (validation t) = t.attempt_count
task_attempt_count (deletion t) = t.attempt_count

abbrev pub task_trace_id : Task → String
task_trace_id (validation t) = t.trace_id
task_trace_id (deletion t) = t.trace_id

-- `class ClaimedBackgroundJob`
pub record ClaimedBackgroundJob : Type 0 where
  pub task : Task
  pub dispatch_token : Uuid

-- `class DispatchResult`
pub record DispatchResult : Type 0 where
  pub claimed : ℕ
  pub queued : ℕ
  pub failed : ℕ

-- The `WHERE` of a claim; a NULL lease end is not due.
abbrev pub is_due : Instant → BackgroundJob → Bool
is_due now r =
    (is_pending r.status && leb r.scheduled_at now)
    || (is_dispatching r.status
        && elim r.dispatch_locked_until [ none ↦ false | some until ↦ leb until now ])

-- `ORDER BY scheduled_at, id`
abbrev pub before : BackgroundJob → BackgroundJob → Bool
before r s =
    ltb r.scheduled_at s.scheduled_at || (r.scheduled_at == s.scheduled_at && leb r.id s.id)

abbrev pub claimable : (busy : Uuid → Bool) → Instant → ℕ → List BackgroundJob → List BackgroundJob
claimable busy now limit jobs =
    select job_key before (λ r. is_due now r && not (busy r.id)) limit jobs

-- The body of the claim's loop, on its row. An attempt is counted when the job leaves `pending`, not
-- when an expired lease is renewed.
abbrev pub leased : Uuid → Instant → ℕ → BackgroundJob → BackgroundJob
leased token now lease_seconds r = record r {
  attempt_count = if is_pending r.status then r.attempt_count + 1 else r.attempt_count;
  last_attempt_at = if is_pending r.status then some now else r.last_attempt_at;
  status = BackgroundJobStatus.dispatching;
  dispatch_token = some token;
  dispatch_locked_until = some (now + seconds lease_seconds);
}

abbrev pub task_of : BackgroundJob → Task
task_of r = elim r.job_type [
  | media_validation ↦
      validation (record {
        background_job_id = r.id;
        attempt_count = r.attempt_count;
        trace_id = r.trace_id;
      })
  | media_retention_delete ↦
      deletion (record {
        background_job_id = r.id;
        attempt_count = r.attempt_count;
        trace_id = r.trace_id;
      })
]

-- The field constraints of both kinds of task; a task that breaks one is not built.
abbrev pub is_valid_task : Task → Bool
is_valid_task t = leb 1 (task_attempt_count t) && is_trace_id (task_trace_id t)

module _ (uuid4 : ℕ → Uuid) where
  -- The claim's loop over the selected rows. A task that cannot be built is a `ValidationError`,
  -- which is a `ValueError`.
  unfoldable pub lease_jobs :
      Instant → ℕ → List BackgroundJob → Command Db (List ClaimedBackgroundJob)
  lease_jobs now lease_seconds [] db = ok ([], db)
  lease_jobs now lease_seconds (r ∷ rows) db =
      let token = uuid4 db.draws in
      let row = leased token now lease_seconds r in
      let rest =
        lease_jobs now lease_seconds rows
          (record db { jobs = put job_key row db.jobs; draws = db.draws + 1 }) in
      if is_valid_task (task_of row)
      then elim rest [
        | err x ↦ err x
        | ok (claims, db') ↦
            ok (record { task = task_of row; dispatch_token = token } ∷ claims, db')
      ]
      else err value_error

  unfoldable pub claim_background_jobs :
      (busy : Uuid → Bool)
      → Instant
      → (limit lease_seconds : ℕ) → Command Db (List ClaimedBackgroundJob)
  claim_background_jobs busy now limit lease_seconds = do
    raise_if (not (leb 1 limit && leb limit max_batch_size)) value_error
    raise_if (lease_seconds == 0) value_error
    db ← get
    lease_jobs now lease_seconds (claimable busy now limit db.jobs)

-- `already_accepted`: the worker was faster than the dispatcher and the attempt is the same.
abbrev pub already_accepted : Task → String → BackgroundJob → Bool
already_accepted task provider_task_id r =
    r.attempt_count == task_attempt_count task
    && same_text r.trace_id (task_trace_id task)
    && is_accepted r.status
    && is_none r.dispatch_token
    && (is_none r.provider_task_id || same_option r.provider_task_id (some provider_task_id))

-- The caller still holds the dispatch lease.
abbrev pub holds_lease : Uuid → BackgroundJob → Bool
holds_lease token r = is_dispatching r.status && is_some_eq r.dispatch_token token

abbrev pub queued_row : String → BackgroundJob → BackgroundJob
queued_row provider_task_id r = record r {
  status = BackgroundJobStatus.queued;
  dispatch_token = none;
  dispatch_locked_until = none;
  provider_task_id = some provider_task_id;
}

abbrev pub refused_row : String → Instant → BackgroundJob → BackgroundJob
refused_row error_code now r = record r {
  status = BackgroundJobStatus.failed;
  dispatch_token = none;
  dispatch_locked_until = none;
  last_error_code = some error_code;
  completed_at = some now;
}

-- `finalize_background_job_dispatch`, by the two optional arguments.
unfoldable pub finalize_background_job_dispatch :
    ClaimedBackgroundJob
    → (provider_task_id error_code : Option String) → (completed_at : Instant) → Command Db Bool
finalize_background_job_dispatch claim none none completed_at db = err value_error
finalize_background_job_dispatch claim (some _) (some _) completed_at db = err value_error
finalize_background_job_dispatch claim (some task_id) none completed_at db =
    elim (find job_key (task_job_id claim.task) db.jobs) [
      | none ↦ ok (false, db)
      | some r ↦
          if holds_lease claim.dispatch_token r
          then ok (true, write_job (queued_row task_id r) db)
          else if already_accepted claim.task task_id r
          then ok (true, write_job (record r { provider_task_id = some task_id }) db)
          else ok (false, db)
    ]
finalize_background_job_dispatch claim none (some code) completed_at db =
    elim (find job_key (task_job_id claim.task) db.jobs) [
      | none ↦ ok (false, db)
      | some r ↦
          if holds_lease claim.dispatch_token r
          then ok (true, write_job (refused_row code completed_at r) db)
          else ok (false, db)
    ]

-- What the task queue answers to a claim: a provider's task id or an exception.
pub data QueueAnswer : Type 0 where
  accepted : String → QueueAnswer
  raised : Exception → QueueAnswer

-- The arguments that record an answer.
abbrev pub task_id_of : QueueAnswer → Option String
task_id_of (accepted task_id) = some task_id
task_id_of (raised _) = none

abbrev pub error_code_of : QueueAnswer → Option String
error_code_of (accepted _) = none
error_code_of (raised x) = some (error_code x)

-- What one recorded answer adds to `queued` and to `failed`.
abbrev pub tally : QueueAnswer → Bool → ℕ × ℕ
tally (accepted _) recorded = (as_count recorded, 0)
tally (raised _) recorded = (0, as_count recorded)

module _ (queue : Task → QueueAnswer) (outcome_time : ClaimedBackgroundJob → Instant) where
  -- The finalizing loop, and what it adds to `queued` and to `failed`.
  unfoldable pub record_outcomes : List ClaimedBackgroundJob → Command Db (ℕ × ℕ)
  record_outcomes [] = return (0, 0)
  record_outcomes (c ∷ claims) = do
    recorded ←
        finalize_background_job_dispatch c (task_id_of (queue c.task))
          (error_code_of (queue c.task)) (outcome_time c)
    rest ← record_outcomes claims
    (let one = tally (queue c.task) recorded in return (one.0 + rest.0, one.1 + rest.1))

  module _ (uuid4 : ℕ → Uuid) (busy : Uuid → Bool) (meanwhile : Db → Db) where
    -- `dispatch_background_jobs_once`: what it returns or raises, and what is committed at its end.
    -- `timeout` is `enqueue_timeout_seconds` in microseconds.
    unfoldable pub dispatch_background_jobs_once :
        (now : Instant) (batch_size lease_seconds timeout : ℕ) → Db → Result DispatchResult × Db
    dispatch_background_jobs_once now batch_size lease_seconds timeout db =
        if timeout == 0
        then (err value_error, db)
        else if leb (seconds lease_seconds) timeout
        then (err value_error, db)
        else elim (claim_background_jobs uuid4 busy now batch_size lease_seconds db) [
          | err x ↦ (err x, db)
          | ok ([], db') ↦ (ok (record { claimed = 0; queued = 0; failed = 0 }), db')
          | ok (c ∷ claims, db') ↦ elim (record_outcomes (c ∷ claims) (meanwhile db')) [
            | err x ↦ (err x, meanwhile db')
            | ok (counts, db'') ↦ (
              ok (record { claimed = length (c ∷ claims); queued = counts.0; failed = counts.1 }),
              db'',
            )
          ]
        ]
