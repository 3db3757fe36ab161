-- ===== src/Dispatch/Confirm.antt =====
-- dispatch/service.py: the confirmation of a dispatch, by which it gets its plan.
use Prim.Native.String.{String}
use seqret_be.Prelude.{
  Bool, true, false, not, ◌&&◌, ◌||◌, Option, none, some, List, [], ◌∷◌, map, ◌==◌, if◌then◌else◌,
  is_none, is_some_eq, length, filter,
}
use seqret_be.Prelude.Clock.{Uuid}
use seqret_be.Prelude.Text.{codes, same_text}
use seqret_be.Prelude.Pointwise.{first_where}
use seqret_be.Prelude.Transaction.{
  Command, Result, ok, err, not_found, conflict, return, raise, get, reads, ◌>>=◌,
}
use seqret_be.Contracts.Events.{Payload, uuid, dispatch_confirmed}
use seqret_be.Outbox.{enqueue_domain_event}
use seqret_be.Access.Model.{company_manager}
use seqret_be.MoveJob.Listing.{MoveJob}
use seqret_be.Dispatch.Model.{
  DispatchWorkerOption, DispatchSetup, DispatchConfirmCreate, DispatchPlan, Db,
}
use seqret_be.Dispatch.Lookups.{
  entry, minus, load_job, require_participant, field_worker_of, require_open_scheduled_job,
  current_locked_scope, plan_of,
}
use seqret_be.Dispatch.Checks.{is_empty, fits, skills_of, certifications_of, vehicle_id, worker_id}
use seqret_be.Dispatch.Commands.{Ambient}

-- The workers that the ids name; an unknown id is `None`.
abbrev pub worker_choices :
    List DispatchWorkerOption → List Uuid → List (Option DispatchWorkerOption)
worker_choices workers ids = map (λ id. entry worker_id id workers) ids

-- `worker is None or not worker.available`, of any
abbrev pub any_unavailable : List (Option DispatchWorkerOption) → Bool
any_unavailable [] = false
any_unavailable (none ∷ ws) = true
any_unavailable (some w ∷ ws) = not w.available || any_unavailable ws

abbrev pub somes : {A : Type 0} → List (Option A) → List A
somes [] = []
somes (none ∷ xs) = somes xs
somes (some x ∷ xs) = x ∷ somes xs

-- `_validate_selection`
unfoldable pub validate_selection :
    DispatchSetup → DispatchConfirmCreate → (field_worker_id : Uuid) → Result (Unit {0})
validate_selection setup command field_worker_id =
    let vehicle = entry vehicle_id command.vehicle_id setup.vehicle_options in
    let choices = worker_choices setup.worker_options command.worker_ids in
    let workers = somes choices in
    let mapped = filter (λ w. is_some_eq w.participant_id field_worker_id) workers in
    if not (fits setup.required_vehicle_capacity_m2 vehicle)
    then err conflict
    else if not (length command.worker_ids == setup.required_worker_count)
        || any_unavailable choices
    then err conflict
    else if not (length mapped == 1)
    then err conflict
    else if not (is_empty (minus setup.required_skills (skills_of workers)))
        || not (is_empty (minus setup.required_certifications (certifications_of workers)))
    then err conflict
    else ok tt

abbrev pub new_plan :
    (hash : DispatchConfirmCreate → String)
    → Ambient
    → (job_id participant_id : Uuid) → DispatchConfirmCreate
    → DispatchSetup
    → DispatchPlan
new_plan hash a job_id participant_id command setup = record {
  id = a.id;
  job_id = job_id;
  setup_id = setup.id;
  source_scope_version_id = setup.source_scope_version_id;
  vehicle_option_id = command.vehicle_id;
  lead_worker_option_id = command.lead_worker_id;
  selected_worker_option_ids = command.worker_ids;
  worker_note = command.worker_note;
  command_hash = hash command;
  confirmed_by_participant_id = participant_id;
  confirmed_at = a.now;
}

-- The primary key, the unique and the CHECK constraints of `DispatchPlan`.
abbrev pub may_add_plan : DispatchPlan → Db → Bool
may_add_plan p db =
    is_none
      (first_where (λ r. r.id == p.id || r.job_id == p.job_id || r.setup_id == p.setup_id) db.plans)
    && length (codes p.command_hash) == 64

abbrev pub dispatch_payload : DispatchPlan → (field_worker_id : Uuid) → Payload
dispatch_payload plan field_worker_id =
    ("dispatch_id", uuid plan.id)
    ∷ ("scope_version_id", uuid plan.source_scope_version_id)
    ∷ ("field_worker_participant_id", uuid field_worker_id)
    ∷ []

-- The plan and its event, in one transaction.
abbrev pub insert_plan :
    Ambient
    → (trace_id : String) → (field_worker_id : Uuid) → DispatchPlan
    → Command Db DispatchPlan
insert_plan a trace_id field_worker_id plan db =
    if not (may_add_plan plan db)
    then err conflict
    else elim (enqueue_domain_event a.event dispatch_confirmed plan.job_id
        (some plan.confirmed_by_participant_id) (some trace_id)
        (dispatch_payload plan field_worker_id) none db.outbox) [
          | err x ↦ err x
          | ok (_, outbox) ↦ ok (plan, record db { plans = plan ∷ db.plans; outbox = outbox })
        ]

-- `DispatchSetup.id == command.setup_id, DispatchSetup.job_id == job_id`
abbrev pub require_setup : Uuid → Uuid → Db → Result DispatchSetup
require_setup setup_id job_id db =
    elim (first_where (λ s. s.id == setup_id && s.job_id == job_id) db.setups) [
      | none ↦ err not_found
      | some s ↦ ok s
    ]

-- `confirm_dispatch` where the job has no plan
unfoldable pub add_plan :
    (hash : DispatchConfirmCreate → String)
    → Ambient
    → (trace_id : String) → MoveJob
    → (participant_id : Uuid) → DispatchConfirmCreate
    → Command Db DispatchPlan
add_plan hash a trace_id job participant_id command = do
  _ ← reads (λ _. require_open_scheduled_job job)
  _ ← reads (require_participant job.id participant_id company_manager)
  setup ← reads (require_setup command.setup_id job.id)
  _ ← reads (current_locked_scope job.id setup.source_scope_version_id)
  field_worker ← reads (field_worker_of job.id)
  _ ← reads (λ _. validate_selection setup command field_worker.id)
  insert_plan a trace_id field_worker.id (new_plan hash a job.id participant_id command setup)

-- `confirm_dispatch`; `hash` is `_command_hash`.
unfoldable pub confirm_dispatch :
    (hash : DispatchConfirmCreate → String)
    → Ambient
    → (trace_id : String) → (job_id participant_id : Uuid) → DispatchConfirmCreate
    → Command Db DispatchPlan
confirm_dispatch hash a trace_id job_id participant_id command = do
  job ← reads (load_job job_id)
  db ← get
  elim (plan_of job_id db) [
    | some existing ↦
        if same_text existing.command_hash (hash command)
          && existing.confirmed_by_participant_id == participant_id
        then return existing
        else raise conflict
    | none ↦ add_plan hash a trace_id job participant_id command
  ]
