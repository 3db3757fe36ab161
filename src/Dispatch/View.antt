-- ===== src/Dispatch/View.antt =====
-- dispatch/service.py: the view of a dispatch that a manager gets.
use Prim.Native.String.{String}
use seqret_be.Prelude.{
  ℕ, Bool, false, not, ◌&&◌, Option, none, some, List, [], ◌==◌, if◌then◌else◌, is_none,
}
use seqret_be.Prelude.Clock.{Uuid, Instant}
use seqret_be.Prelude.Table.{find}
use seqret_be.Prelude.Pointwise.{first_where}
use seqret_be.Prelude.Transaction.{Result, ok, err, not_found, conflict}
use seqret_be.Access.Model.{company_manager, same_role}
use seqret_be.Dispatch.Model.{
  ScopeVersion, DispatchVehicleOption, DispatchWorkerOption, DispatchSetup, DispatchPlan,
  ScopeReviewJobHeader, Db,
}
use seqret_be.Dispatch.Lookups.{
  version_key, load_job, participants_of, has_child, setup_of, plan_of, job_header,
}
use seqret_be.Dispatch.Checks.{DispatchCheck, dispatch_checks}

-- `class DispatchRequirements`
pub record DispatchRequirements : Type 0 where
  pub start_at : Instant
  pub expected_duration_minutes : ℕ
  pub required_vehicle_count : ℕ
  pub required_vehicle_capacity_m2 : ℕ
  pub required_worker_count : ℕ
  pub required_skills : List String
  pub required_certifications : List String

-- `_requirements`
abbrev pub requirements : DispatchSetup → DispatchRequirements
requirements setup = record {
  start_at = setup.start_at;
  expected_duration_minutes = setup.expected_duration_minutes;
  required_vehicle_count = 1;
  required_vehicle_capacity_m2 = setup.required_vehicle_capacity_m2;
  required_worker_count = setup.required_worker_count;
  required_skills = setup.required_skills;
  required_certifications = setup.required_certifications;
}

-- `class DispatchStatus`
pub data DispatchStatus : Type 0 where
  setup_required ready stale confirmed : DispatchStatus

-- `class DispatchView`; the label of a scope version is `v` and its sequence number, which is kept.
pub record DispatchView : Type 0 where
  pub job : ScopeReviewJobHeader
  pub setup_id : Option Uuid
  pub dispatch_id : Option Uuid
  pub source_scope_version_id : Option Uuid
  pub source_scope_version_label : Option ℕ
  pub requirements_of : Option DispatchRequirements
  pub vehicle_options : List DispatchVehicleOption
  pub worker_options : List DispatchWorkerOption
  pub selected_vehicle_id : Option Uuid
  pub selected_worker_ids : List Uuid
  pub lead_worker_id : Option Uuid
  pub checks : List DispatchCheck
  pub worker_note : Option String
  pub status : DispatchStatus
  pub confirmed_at : Option Instant
  pub notification_created : Bool

-- `_is_current_scope`
abbrev pub is_current_scope : DispatchSetup → Db → Result (ScopeVersion × Bool)
is_current_scope setup db = elim (find version_key setup.source_scope_version_id db.versions) [
  | none ↦ err conflict
  | some v ↦
      if not (v.job_id == setup.job_id)
      then err conflict
      else ok (v, not (is_none v.locked_at) && not (has_child v.id db))
]

-- What is shown of a plan, if there is one.
abbrev pub of_plan : {A : Type 0} → Option DispatchPlan → (DispatchPlan → A) → Option A
of_plan none f = none
of_plan (some p) f = some (f p)

abbrev pub note_of : Option DispatchPlan → Option String
note_of none = none
note_of (some p) = p.worker_note

abbrev pub ids_of : Option DispatchPlan → List Uuid
ids_of none = []
ids_of (some p) = p.selected_worker_option_ids

abbrev pub view_status : Bool → Option DispatchPlan → DispatchStatus
view_status is_current plan =
    if not is_current then stale else if is_none plan then ready else confirmed

abbrev pub empty_view : ScopeReviewJobHeader → DispatchView
empty_view job = record {
  job = job;
  setup_id = none;
  dispatch_id = none;
  source_scope_version_id = none;
  source_scope_version_label = none;
  requirements_of = none;
  vehicle_options = [];
  worker_options = [];
  selected_vehicle_id = none;
  selected_worker_ids = [];
  lead_worker_id = none;
  checks = [];
  worker_note = none;
  status = setup_required;
  confirmed_at = none;
  notification_created = false;
}

abbrev pub full_view :
    ScopeReviewJobHeader
    → DispatchSetup
    → Option DispatchPlan
    → ScopeVersion
    → (is_current : Bool) → DispatchView
full_view job setup plan version is_current = record {
  job = job;
  setup_id = some setup.id;
  dispatch_id = of_plan plan (λ p. p.id);
  source_scope_version_id = some version.id;
  source_scope_version_label = some version.sequence_number;
  requirements_of = some (requirements setup);
  vehicle_options = setup.vehicle_options;
  worker_options = setup.worker_options;
  selected_vehicle_id = of_plan plan (λ p. p.vehicle_option_id);
  selected_worker_ids = ids_of plan;
  lead_worker_id = of_plan plan (λ p. p.lead_worker_option_id);
  checks = dispatch_checks setup setup.vehicle_options setup.worker_options plan;
  worker_note = note_of plan;
  status = view_status is_current plan;
  confirmed_at = of_plan plan (λ p. p.confirmed_at);
  notification_created = not (is_none plan);
}

-- `get_dispatch_view`
unfoldable pub get_dispatch_view :
    (job_code : Uuid → String) → (job_id participant_id : Uuid) → Db → Result DispatchView
get_dispatch_view job_code job_id participant_id db = elim (load_job job_id db) [
  | err x ↦ err x
  | ok job ↦
      elim (first_where (λ p. p.id == participant_id && same_role p.role company_manager)
        (participants_of job_id db)) [
          | none ↦ err not_found
          | some viewer ↦ elim (setup_of job_id db) [
            | none ↦ ok (empty_view (job_header job_code job viewer db))
            | some setup ↦ elim (is_current_scope setup db) [
              | err x ↦ err x
              | ok (version, is_current) ↦ ok (
                  full_view (job_header job_code job viewer db) setup (plan_of job_id db) version
                    is_current)
            ]
          ]
        ]
]
