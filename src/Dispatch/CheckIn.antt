-- ===== src/Dispatch/CheckIn.antt =====
-- dispatch/service.py: the check-in of the field worker who is assigned to a job.
use Prim.Native.String.{String}
use seqret_be.Prelude.{
  ℕ, ◌+◌, ◌/◌, Bool, false, not, ◌&&◌, ◌||◌, none, some, List, [], ◌∷◌, map, ◌==◌, if◌then◌else◌,
  is_none, is_some_eq,
}
use seqret_be.Prelude.Clock.{Uuid, Instant, seconds}
use seqret_be.Prelude.Pointwise.{first_where}
use seqret_be.Prelude.Transaction.{
  Command, Result, ok, err, not_found, conflict, return, raise, raise_if, get, reads, ◌>>=◌, ◌>>◌,
}
use seqret_be.Access.Model.{field_worker}
use seqret_be.Dispatch.Model.{
  DispatchCheckInItemCreate, DispatchWorkerOption, DispatchSetup, DispatchPlan, FieldCheckInCreate,
  FieldCheckIn, FieldCheckInResponse, Db,
}
use seqret_be.Dispatch.Lookups.{
  same_set, load_job, require_participant, require_open_scheduled_job, current_locked_scope,
  setup_of, check_in_of,
}
use seqret_be.Dispatch.Commands.{Ambient}

-- The date of an instant in `FIELD_SERVICE_TIMEZONE`, nine hours ahead, as a count of days.
abbrev pub service_date : Instant → ℕ
service_date t = (t + seconds 32_400) / seconds 86_400

-- `id in selected`
abbrev pub is_selected : Uuid → List Uuid → Bool
is_selected id [] = false
is_selected id (x ∷ xs) = x == id || is_selected id xs

-- `_assigned_worker`
abbrev pub assigned_worker : DispatchSetup → DispatchPlan → Uuid → Result DispatchWorkerOption
assigned_worker setup plan participant_id =
    elim (first_where
      (λ w.
        is_selected w.id plan.selected_worker_option_ids
        && is_some_eq w.participant_id participant_id)
      setup.worker_options) [ none ↦ err not_found | some w ↦ ok w ]

-- `_check_in_response`
abbrev pub check_in_response : FieldCheckIn → FieldCheckInResponse
check_in_response c = record {
  check_in_id = c.id;
  dispatch_id = c.dispatch_plan_id;
  participant_id = c.participant_id;
  confirmed_check_keys = c.confirmed_check_keys;
  checked_in_at = c.checked_in_at;
}

abbrev pub item_key : DispatchCheckInItemCreate → String
item_key i = i.key

-- The plan that the request names, with the setup of its job.
abbrev pub require_dispatch : Uuid → Uuid → Db → Result (DispatchSetup × DispatchPlan)
require_dispatch dispatch_id job_id db = elim (setup_of job_id db) [
  | none ↦ err not_found
  | some setup ↦ elim (first_where (λ p. p.id == dispatch_id && p.job_id == job_id) db.plans) [
    | none ↦ err not_found
    | some plan ↦ if plan.setup_id == setup.id then ok (setup, plan) else err not_found
  ]
]

abbrev pub new_check_in :
    Uuid
    → Instant
    → (job_id participant_id : Uuid) → DispatchSetup
    → DispatchPlan
    → DispatchWorkerOption
    → FieldCheckIn
new_check_in id now job_id participant_id setup plan worker = record {
  id = id;
  job_id = job_id;
  dispatch_plan_id = plan.id;
  participant_id = participant_id;
  worker_option_id = worker.id;
  confirmed_check_keys = map item_key setup.check_in_items;
  checked_in_at = now;
}

-- The primary key and the unique constraints of `FieldCheckIn`.
abbrev pub may_add_check_in : FieldCheckIn → Db → Bool
may_add_check_in c db = is_none (
    first_where
      (λ r.
        r.id == c.id
        || (r.participant_id == c.participant_id
            && (r.job_id == c.job_id || r.dispatch_plan_id == c.dispatch_plan_id)))
      db.check_ins)

abbrev pub insert_check_in : FieldCheckIn → Command Db FieldCheckInResponse
insert_check_in c db =
    if may_add_check_in c db
    then ok (check_in_response c, record db { check_ins = c ∷ db.check_ins })
    else err conflict

-- What is written where the worker has not checked in: on the scheduled day only.
unfoldable pub add_check_in :
    Instant → FieldCheckIn → DispatchSetup → Command Db FieldCheckInResponse
add_check_in now c setup = do
  raise_if (not (service_date now == service_date setup.start_at)) conflict
  insert_check_in c

-- `check_in_field_worker`; `now` is the argument, or the clock where there is none.
unfoldable pub check_in_field_worker :
    Ambient → (job_id participant_id : Uuid) → FieldCheckInCreate → Command Db FieldCheckInResponse
check_in_field_worker a job_id participant_id command = do
  job ← reads (load_job job_id)
  _ ← reads (λ _. require_open_scheduled_job job)
  _ ← reads (require_participant job_id participant_id field_worker)
  dispatch ← reads (require_dispatch command.dispatch_id job_id)
  worker ← reads (λ _. assigned_worker dispatch.0 dispatch.1 participant_id)
  _ ← reads (current_locked_scope job_id dispatch.0.source_scope_version_id)
  raise_if (not (same_set command.confirmed_check_keys (map item_key dispatch.0.check_in_items)))
      conflict
  db ← get
  elim (check_in_of job_id participant_id db) [
    | some existing ↦
        if existing.dispatch_plan_id == dispatch.1.id
          && same_set existing.confirmed_check_keys command.confirmed_check_keys
        then return (check_in_response existing)
        else raise conflict
    | none ↦
        add_check_in a.now
          (new_check_in a.id a.now job_id participant_id dispatch.0 dispatch.1 worker) dispatch.0
  ]
