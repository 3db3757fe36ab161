-- ===== src/Dispatch/Commands.antt =====
-- The commands of dispatch/service.py that store a setup and a plan. `DispatchNotFoundError` is
-- `not_found`, `DispatchConflictError` is `conflict`, and `DispatchInvalidError` is `value_error`.
-- An `IntegrityError` of the flush becomes a conflict.
use Prim.Native.String.{String}
use seqret_be.Prelude.{
  ℕ, suc, Bool, false, not, ◌&&◌, ◌||◌, none, some, List, [], ◌∷◌, leb, ltb, ◌==◌, if◌then◌else◌,
  is_none, length,
}
use seqret_be.Prelude.Clock.{Uuid, Instant}
use seqret_be.Prelude.Text.{codes, same_text}
use seqret_be.Prelude.Pointwise.{first_where}
use seqret_be.Prelude.Transaction.{
  Command, ok, err, value_error, conflict, return, raise, raise_if, get, reads, ◌>>=◌, ◌>>◌,
}
use seqret_be.Outbox.{enqueue_domain_event}
use seqret_be.Outbox as OutboxEvents
use seqret_be.Access.Model.{company_manager}
use seqret_be.MoveJob.Listing.{MoveJob}
use seqret_be.Dispatch.Model.{
  DispatchVehicleCreate, DispatchWorkerCreate, DispatchSetupCreate, DispatchVehicleOption,
  DispatchWorkerOption, DispatchSetup, Db,
}
use seqret_be.Dispatch.Lookups.{
  load_job, require_participant, field_worker_of, require_open_scheduled_job, current_locked_scope,
  setup_of,
}

-- What a call gets from the process: `utc_now()`, the id of its row, the ids that `uuid4()` draws
-- for the options, and what its event gets.
pub record Ambient : Type 0 where
  pub now : Instant
  pub id : Uuid
  pub option_id : ℕ → Uuid
  pub event : OutboxEvents.Ambient

abbrev pub vehicle_option : Uuid → DispatchVehicleCreate → DispatchVehicleOption
vehicle_option id v = record {
  id = id;
  external_reference = v.external_reference;
  display_name = v.display_name;
  specification = v.specification;
  equipment = v.equipment;
  capacity_m2 = v.capacity_m2;
  available = v.available;
  conflict_reason = v.conflict_reason;
}

abbrev pub worker_option : Uuid → DispatchWorkerCreate → DispatchWorkerOption
worker_option id w = record {
  id = id;
  external_reference = w.external_reference;
  display_name = w.display_name;
  role_label = w.role_label;
  skills = w.skills;
  certifications = w.certifications;
  available = w.available;
  conflict_reason = w.conflict_reason;
  participant_id = w.participant_id;
}

-- `_snapshot_options`, whose loops draw the ids in turn
abbrev pub snapshot_vehicles :
    (ℕ → Uuid) → ℕ → List DispatchVehicleCreate → List DispatchVehicleOption
snapshot_vehicles ids n [] = []
snapshot_vehicles ids n (v ∷ vs) = vehicle_option (ids n) v ∷ snapshot_vehicles ids (suc n) vs

abbrev pub snapshot_workers : (ℕ → Uuid) → ℕ → List DispatchWorkerCreate → List DispatchWorkerOption
snapshot_workers ids n [] = []
snapshot_workers ids n (w ∷ ws) = worker_option (ids n) w ∷ snapshot_workers ids (suc n) ws

-- `mapped_participant_ids`
abbrev pub mapped_participant_ids : List DispatchWorkerCreate → List Uuid
mapped_participant_ids [] = []
mapped_participant_ids (w ∷ ws) = elim w.participant_id [
  | none ↦ mapped_participant_ids ws
  | some id ↦ id ∷ mapped_participant_ids ws
]

-- `ids == (id,)`
abbrev pub is_single : Uuid → List Uuid → Bool
is_single id [] = false
is_single id (x ∷ []) = x == id
is_single id (x ∷ y ∷ xs) = false

abbrev pub new_setup :
    (hash : DispatchSetupCreate → String)
    → Ambient
    → (job_id participant_id : Uuid) → DispatchSetupCreate
    → (start_at : Instant) → DispatchSetup
new_setup hash a job_id participant_id command start_at = record {
  id = a.id;
  job_id = job_id;
  client_reference = command.client_reference;
  source_scope_version_id = command.source_scope_version_id;
  created_by_participant_id = participant_id;
  command_hash = hash command;
  start_at = start_at;
  expected_duration_minutes = command.expected_duration_minutes;
  required_vehicle_capacity_m2 = command.required_vehicle_capacity_m2;
  required_worker_count = command.required_worker_count;
  required_skills = command.required_skills;
  required_certifications = command.required_certifications;
  check_in_items = command.check_in_items;
  completion_check_items = command.completion_check_items;
  origin_conditions = command.origin_conditions;
  safety_notice = command.safety_notice;
  vehicle_options = snapshot_vehicles a.option_id 0 command.vehicles;
  worker_options = snapshot_workers a.option_id (length command.vehicles) command.workers;
  created_at = a.now;
}

-- The primary key, the unique and the CHECK constraints of `DispatchSetup`.
abbrev pub may_add_setup : DispatchSetup → Db → Bool
may_add_setup s db =
    is_none (first_where (λ r. r.id == s.id || r.job_id == s.job_id) db.setups)
    && leb 1 s.expected_duration_minutes
    && leb s.expected_duration_minutes 720
    && leb 1 s.required_worker_count
    && leb s.required_worker_count 50
    && length (codes s.command_hash) == 64

abbrev pub insert_setup : DispatchSetup → Command Db DispatchSetup
insert_setup s db =
    if may_add_setup s db then ok (s, record db { setups = s ∷ db.setups }) else err conflict

-- `create_dispatch_setup` where the job has no setup
unfoldable pub add_setup :
    (hash : DispatchSetupCreate → String)
    → Ambient
    → MoveJob
    → (participant_id : Uuid) → DispatchSetupCreate
    → Command Db DispatchSetup
add_setup hash a job participant_id command = do
  start_at ← reads (λ _. require_open_scheduled_job job)
  _ ← reads (require_participant job.id participant_id company_manager)
  _ ← reads (current_locked_scope job.id command.source_scope_version_id)
  field_worker ← reads (field_worker_of job.id)
  raise_if (not (is_single field_worker.id (mapped_participant_ids command.workers))) value_error
  raise_if (ltb (length command.workers) command.required_worker_count) value_error
  insert_setup (new_setup hash a job.id participant_id command start_at)

-- The same client reference, creator and command.
abbrev pub is_same_setup : String → Uuid → DispatchSetupCreate → DispatchSetup → Bool
is_same_setup command_hash participant_id command s =
    s.client_reference == command.client_reference
    && s.created_by_participant_id == participant_id
    && same_text s.command_hash command_hash

-- `create_dispatch_setup`; `hash` is `_command_hash`.
unfoldable pub create_dispatch_setup :
    (hash : DispatchSetupCreate → String)
    → Ambient
    → (job_id participant_id : Uuid) → DispatchSetupCreate
    → Command Db DispatchSetup
create_dispatch_setup hash a job_id participant_id command = do
  job ← reads (load_job job_id)
  db ← get
  elim (setup_of job_id db) [
    | some existing ↦
        if is_same_setup (hash command) participant_id command existing
        then return existing
        else raise conflict
    | none ↦ add_setup hash a job participant_id command
  ]
