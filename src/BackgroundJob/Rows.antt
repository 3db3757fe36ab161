-- ===== src/BackgroundJob/Rows.antt =====
-- What the CHECK constraints of background_job/models.py ask of a row, the diagram of its states,
-- and that each write of the service follows both.
use Prim.Native.String.{String}
use seqret_be.Prelude.{
  ℕ, ◌≤◌, ◌≡◌, refl, Bool, true, false, not, ◌||◌, Option, some, ◌⊎◌, inl, inr, arith, ◌==◌,
  is_none,
}
use seqret_be.Prelude.Clock.{Uuid, Instant}
use seqret_be.Contracts.Ports.{ProviderErrorKind}
use seqret_be.Contracts.Maintenance.{BackgroundJobType}
use seqret_be.BackgroundJob.Model.{
  BackgroundJobStatus, pending, dispatching, queued, running, succeeded, failed, is_dispatching,
  is_running, is_failed, is_terminal, is_startable, BackgroundJob, MediaAsset,
}
use seqret_be.BackgroundJob.Intent.{Ambient, new_job, retried_row, is_expired, has_target_shape}
use seqret_be.BackgroundJob.Dispatch.{is_due, leased, queued_row, refused_row, holds_lease}
use seqret_be.BackgroundJob.Execute.{started_row, succeeded_row, failed_row}

pub record IsValidRow (r : BackgroundJob) : Type 0 where
  pub target_shape : has_target_shape r ≡ true
  pub attempt_time : (r.attempt_count == 0) ≡ is_none r.last_attempt_at
  pub dispatch_token : is_dispatching r.status ≡ not (is_none r.dispatch_token)
  pub dispatch_lease : is_dispatching r.status ≡ not (is_none r.dispatch_locked_until)
  pub failure_code : is_failed r.status ≡ not (is_none r.last_error_code)
  pub completion_time : is_terminal r.status ≡ not (is_none r.completed_at)
  pub execution_deadline : is_running r.status ≡ not (is_none r.execution_deadline_at)

-- The diagram: a job is claimed, queued, run and ended; a dispatch can fail; a worker can be faster
-- than the dispatcher; and only a failed or an expired attempt is retried.
abbrev pub may_follow : BackgroundJobStatus → BackgroundJobStatus → Bool
may_follow pending dispatching = true
may_follow dispatching dispatching = true
may_follow dispatching queued = true
may_follow dispatching running = true
may_follow dispatching failed = true
may_follow queued running = true
may_follow running succeeded = true
may_follow running failed = true
may_follow running pending = true
may_follow failed pending = true
may_follow _ _ = false

-- The status is the same or the next one in the diagram.
abbrev pub Follows : BackgroundJobStatus → BackgroundJobStatus → Type 0
Follows s s' = (s' ≡ s) ⊎ (may_follow s s' ≡ true)

-- How one write may change a row.
pub record Evolves (r r' : BackgroundJob) : Type 0 where
  pub id : r'.id ≡ r.id
  pub move_job_id : r'.move_job_id ≡ r.move_job_id
  pub media_asset_id : r'.media_asset_id ≡ r.media_asset_id
  pub job_type : r'.job_type ≡ r.job_type
  pub target_object_key : r'.target_object_key ≡ r.target_object_key
  pub target_generation : r'.target_generation ≡ r.target_generation
  pub target_content_type : r'.target_content_type ≡ r.target_content_type
  pub target_size_bytes : r'.target_size_bytes ≡ r.target_size_bytes
  pub trace_id : r'.trace_id ≡ r.trace_id
  pub attempt_count : r.attempt_count ≤ r'.attempt_count
  pub status : Follows r.status r'.status
  pub valid : IsValidRow r → IsValidRow r'

leased-IsValidRow :
    (token now n : ℕ) (r : BackgroundJob)
    → is_due now r ≡ true
    → IsValidRow r
    → IsValidRow (leased token now n r)
leased-IsValidRow token now n r due v = ground arith

pub leased-Evolves :
    (token now n : ℕ) (r : BackgroundJob) → is_due now r ≡ true → Evolves r (leased token now n r)
leased-Evolves token now n r due = record {
  id = ground arith;
  move_job_id = ground arith;
  media_asset_id = ground arith;
  job_type = ground arith;
  target_object_key = ground arith;
  target_generation = ground arith;
  target_content_type = ground arith;
  target_size_bytes = ground arith;
  trace_id = ground arith;
  attempt_count = ground arith;
  status = ground arith;
  valid = leased-IsValidRow token now n r due;
}

-- The other writes leave every column that a job is created with.
pub record Pinned (r r' : BackgroundJob) : Type 0 where
  pub same_id : r'.id ≡ r.id
  pub same_columns :
      (r'.move_job_id ≡ r.move_job_id)
      × (r'.media_asset_id ≡ r.media_asset_id)
      × (r'.job_type ≡ r.job_type)
      × (r'.target_object_key ≡ r.target_object_key)
      × (r'.target_generation ≡ r.target_generation)
      × (r'.target_content_type ≡ r.target_content_type)
      × (r'.target_size_bytes ≡ r.target_size_bytes)
      × (r'.trace_id ≡ r.trace_id)
  pub same_attempt : r'.attempt_count ≡ r.attempt_count

evolve :
    {r r' : BackgroundJob}
    → Pinned r r'
    → Follows r.status r'.status
    → (IsValidRow r → IsValidRow r')
    → Evolves r r'
evolve p s v =
    let (a, b, c, d, e, f, g, h) = p.same_columns in
    record {
      id = p.same_id;
      move_job_id = a;
      media_asset_id = b;
      job_type = c;
      target_object_key = d;
      target_generation = e;
      target_content_type = f;
      target_size_bytes = g;
      trace_id = h;
      attempt_count = omega (arith, p.same_attempt);
      status = s;
      valid = v;
    }

retried_row-IsValidRow :
    (now : Instant) (r : BackgroundJob)
    → (is_failed r.status || is_expired now r) ≡ true
    → IsValidRow r
    → IsValidRow (retried_row now r)
retried_row-IsValidRow now r h v = ground arith

pub retried_row-Evolves :
    (now : Instant) (r : BackgroundJob)
    → (is_failed r.status || is_expired now r) ≡ true
    → Evolves r (retried_row now r)
retried_row-Evolves now r h =
    evolve
      (record {
        same_id = refl;
        same_columns = (refl, refl, refl, refl, refl, refl, refl, refl);
        same_attempt = refl;
      })
      (inr (ground arith)) (retried_row-IsValidRow now r h)

queued_row-IsValidRow :
    (task_id : String) (token : Uuid) (r : BackgroundJob)
    → holds_lease token r ≡ true
    → IsValidRow r
    → IsValidRow (queued_row task_id r)
queued_row-IsValidRow task_id token r h v = ground arith

pub queued_row-Evolves :
    (task_id : String) (token : Uuid) (r : BackgroundJob)
    → holds_lease token r ≡ true
    → Evolves r (queued_row task_id r)
queued_row-Evolves task_id token r h =
    evolve
      (record {
        same_id = refl;
        same_columns = (refl, refl, refl, refl, refl, refl, refl, refl);
        same_attempt = refl;
      })
      (inr (ground arith)) (queued_row-IsValidRow task_id token r h)

refused_row-IsValidRow :
    (code : String) (now : Instant) (token : Uuid) (r : BackgroundJob)
    → holds_lease token r ≡ true
    → IsValidRow r
    → IsValidRow (refused_row code now r)
refused_row-IsValidRow code now token r h v = ground arith

pub refused_row-Evolves :
    (code : String) (now : Instant) (token : Uuid) (r : BackgroundJob)
    → holds_lease token r ≡ true
    → Evolves r (refused_row code now r)
refused_row-Evolves code now token r h =
    evolve
      (record {
        same_id = refl;
        same_columns = (refl, refl, refl, refl, refl, refl, refl, refl);
        same_attempt = refl;
      })
      (inr (ground arith)) (refused_row-IsValidRow code now token r h)

started_row-IsValidRow :
    (now : Instant) (timeout : ℕ) (r : BackgroundJob)
    → is_startable r.status ≡ true
    → IsValidRow r
    → IsValidRow (started_row now timeout r)
started_row-IsValidRow now timeout r h v = ground arith

pub started_row-Evolves :
    (now : Instant) (timeout : ℕ) (r : BackgroundJob)
    → is_startable r.status ≡ true
    → Evolves r (started_row now timeout r)
started_row-Evolves now timeout r h =
    evolve
      (record {
        same_id = refl;
        same_columns = (refl, refl, refl, refl, refl, refl, refl, refl);
        same_attempt = refl;
      })
      (inr (ground arith)) (started_row-IsValidRow now timeout r h)

succeeded_row-IsValidRow :
    (now : Instant) (r : BackgroundJob)
    → is_running r.status ≡ true
    → IsValidRow r
    → IsValidRow (succeeded_row now r)
succeeded_row-IsValidRow now r h v = ground arith

pub succeeded_row-Evolves :
    (now : Instant) (r : BackgroundJob)
    → is_running r.status ≡ true
    → Evolves r (succeeded_row now r)
succeeded_row-Evolves now r h =
    evolve
      (record {
        same_id = refl;
        same_columns = (refl, refl, refl, refl, refl, refl, refl, refl);
        same_attempt = refl;
      })
      (inr (ground arith)) (succeeded_row-IsValidRow now r h)

failed_row-IsValidRow :
    (now : Instant) (kind : ProviderErrorKind) (r : BackgroundJob)
    → is_running r.status ≡ true
    → IsValidRow r
    → IsValidRow (failed_row now kind r)
failed_row-IsValidRow now kind r h v = ground arith

pub failed_row-Evolves :
    (now : Instant) (kind : ProviderErrorKind) (r : BackgroundJob)
    → is_running r.status ≡ true
    → Evolves r (failed_row now kind r)
failed_row-Evolves now kind r h =
    evolve
      (record {
        same_id = refl;
        same_columns = (refl, refl, refl, refl, refl, refl, refl, refl);
        same_attempt = refl;
      })
      (inr (ground arith)) (failed_row-IsValidRow now kind r h)

pub accepted_row-Evolves :
    (task_id : String) (r : BackgroundJob)
    → Evolves r (record r { provider_task_id = some task_id })
accepted_row-Evolves task_id r =
    evolve
      (record {
        same_id = refl;
        same_columns = (refl, refl, refl, refl, refl, refl, refl, refl);
        same_attempt = refl;
      })
      (inl refl) (λ v. ground arith)

-- A new row is valid when its target has the shape of its type.
pub new_job-IsValidRow :
    (a : Ambient) (job_id : Uuid) (asset : MediaAsset) (type : BackgroundJobType)
    (generation : String) (content_type : Option String) (size_bytes : Option ℕ) (trace_id : String)
    (scheduled_at : Option Instant) (participant_id : Option Uuid)
    → has_target_shape (
        new_job a job_id asset type generation content_type size_bytes trace_id scheduled_at
          participant_id)
      ≡ true
    → IsValidRow (
        new_job a job_id asset type generation content_type size_bytes trace_id scheduled_at
          participant_id)
new_job-IsValidRow a j x t g c s tr at p h = ground arith
