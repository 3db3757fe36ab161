-- ===== src/Dispatch/Tests.antt =====
-- A job that is dispatched and checked into.
mod Examples
use Prim.Native.String.{String}
use seqret_be.Prelude.{
  ℕ, ◌+◌, Bool, ◌≡◌, refl, true, false, Option, none, some, List, [], ◌∷◌, All, arith,
}
use seqret_be.Prelude.Clock.{Uuid, Instant}
use seqret_be.Prelude.Text.{same_text}
use seqret_be.Prelude.Transaction.{ok}
use seqret_be.Contracts.Events.{
  DomainEvent, dispatch_confirmed, is_accepted, build_event, field, uuid, is_trace_id,
  is_documented,
}
use seqret_be.Outbox.{new_row, enqueue_domain_event}
use seqret_be.BackgroundJob.Model.{active}
use seqret_be.Access.Model.{
  ParticipantRole, customer, company_manager, field_worker, JobParticipant,
}
use seqret_be.MoveJob.Listing.{MoveJob}
use seqret_be.Dispatch.Model.{
  ScopeVersion, DispatchVehicleCreate, DispatchWorkerCreate, DispatchSetupCreate, DispatchSetup,
  DispatchConfirmCreate, DispatchPlan, FieldCheckInCreate, FieldCheckIn, DispatchWorkerOption, Db,
}
use seqret_be.Dispatch.Lookups.{setup_of, plan_of}
use seqret_be.Dispatch.Commands.{Ambient, new_setup, add_setup, create_dispatch_setup}
use seqret_be.Dispatch.Confirm.{new_plan, validate_selection, add_plan, confirm_dispatch}
use seqret_be.Dispatch.CheckIn.{
  item_key, is_selected, service_date, add_check_in, check_in_field_worker, check_in_response,
}
use seqret_be.Prelude.{is_some_eq, map}
use seqret_be.Dispatch.Lookups.{same_set}
use seqret_be.Dispatch.View.{DispatchView, get_dispatch_view, confirmed}
use seqret_be.Dispatch.Changes.{create, confirm, check_in}
use seqret_be.Dispatch.Lifecycle.{IsConsistent}
use seqret_be.Dispatch.Invariants.{Reach, here, next, Reach-IsConsistent}
use seqret_be.Dispatch.Once.{first_confirmation_decides, confirm_dispatch_again}
use seqret_be.Dispatch.Arrived.{check_in_counts_once, check_in_is_assigned}
use seqret_be.Dispatch.Refinement.{Run, phase, Reach-Run}
use seqret_be.Dispatch.Announced.{confirmation_announces}
use seqret_be.Dispatch.Selection.{IsPass}
use seqret_be.Dispatch.Confirmed.{confirmed_is_shown}

abbrev pub manager_id : Uuid
manager_id = 20

abbrev pub participant : Uuid → ParticipantRole → JobParticipant
participant id role = record { id = id; job_id = 10; role = role; display_name = "p" }

abbrev pub job : MoveJob
job = record { id = 10; title = "t"; status = active; scheduled_at = some 5; created_at = 0 }

abbrev pub version : ScopeVersion
version = record {
  id = 30;
  job_id = 10;
  parent_version_id = none;
  sequence_number = 1;
  content_hash = "h";
  locked_at = some 1;
}

abbrev pub vehicle : Bool → ℕ → Option String → DispatchVehicleCreate
vehicle available capacity reason = record {
  external_reference = "v";
  display_name = "v";
  specification = "s";
  equipment = [];
  capacity_m2 = capacity;
  available = available;
  conflict_reason = reason;
}

abbrev pub worker : String → List String → Option Uuid → DispatchWorkerCreate
worker reference skills participant_id = record {
  external_reference = reference;
  display_name = "w";
  role_label = "r";
  skills = skills;
  certifications = [];
  available = true;
  conflict_reason = none;
  participant_id = participant_id;
}

abbrev pub setup_command : DispatchSetupCreate
setup_command = record {
  client_reference = 7;
  source_scope_version_id = 30;
  expected_duration_minutes = 60;
  required_vehicle_capacity_m2 = 10;
  required_worker_count = 2;
  required_skills = "piano" ∷ [];
  required_certifications = [];
  check_in_items = record { key = "gloves"; label = "g" } ∷ [];
  completion_check_items = record { key = "clean"; label = "c" } ∷ [];
  origin_conditions = [];
  safety_notice = "n";
  vehicles = vehicle false 20 (some "repair") ∷ vehicle true 15 none ∷ [];
  workers = worker "a" [] (some 21) ∷ worker "b" ("piano" ∷ []) none ∷ [];
}

abbrev pub confirm_command : DispatchConfirmCreate
confirm_command = record {
  setup_id = 40;
  vehicle_id = 101;
  lead_worker_id = 102;
  worker_ids = 102 ∷ 103 ∷ [];
  worker_note = none;
}

abbrev pub check_in_command : FieldCheckInCreate
check_in_command = record { dispatch_id = 41; confirmed_check_keys = "gloves" ∷ [] }

abbrev pub digest : String
digest = "aaaaaaaaaaaaaaaaaaaaaaaaaaaaaaaaaaaaaaaaaaaaaaaaaaaaaaaaaaaaaaaa"

abbrev pub hash : DispatchSetupCreate → String
hash _ = digest

abbrev pub plan_hash : DispatchConfirmCreate → String
plan_hash _ = digest

abbrev pub trace : String
trace = "aaaaaaaaaaaaaaaaaaaaaaaaaaaaaaaa"

abbrev pub ambient : Instant → Uuid → Ambient
ambient now id = record {
  now = now;
  id = id;
  option_id = λ n. 100 + n;
  event = record { uuid = 60; now = now; hex = trace };
}

abbrev pub start : Db
start = record {
  jobs = job ∷ [];
  participants =
      participant 20 company_manager ∷ participant 21 field_worker ∷ participant 22 customer ∷ [];
  locations = [];
  versions = version ∷ [];
  setups = [];
  plans = [];
  check_ins = [];
  outbox = record { events = []; draws = 0 };
}

abbrev pub setup : DispatchSetup
setup = new_setup hash (ambient 2 40) 10 20 setup_command 5

abbrev pub prepared : Db
prepared = record start { setups = setup ∷ [] }

pub is_created :
    create_dispatch_setup hash (ambient 2 40) 10 20 setup_command start ≡ ok (setup, prepared)
unfolding create_dispatch_setup add_setup
is_created = refl

abbrev pub plan : DispatchPlan
plan = new_plan plan_hash (ambient 3 41) 10 20 confirm_command setup

abbrev pub event : DomainEvent
event = record {
  event_id = 60;
  event_type = dispatch_confirmed;
  schema_version = 1;
  aggregate_id = 10;
  occurred_at = 3;
  actor_id = some 20;
  trace_id = trace;
  payload =
      ("dispatch_id", uuid 41)
      ∷ ("scope_version_id", uuid 30)
      ∷ ("field_worker_participant_id", uuid 21)
      ∷ [];
}

abbrev pub assigned : Db
assigned = record prepared {
  plans = plan ∷ [];
  outbox = record { events = new_row event ∷ []; draws = 0 };
}

pub is_confirmed :
    confirm_dispatch plan_hash (ambient 3 41) trace 10 20 confirm_command prepared
    ≡ ok (plan, assigned)
unfolding confirm_dispatch add_plan validate_selection enqueue_domain_event build_event is_trace_id
    is_documented
is_confirmed = refl

abbrev pub arrival : FieldCheckIn
arrival = record {
  id = 42;
  job_id = 10;
  dispatch_plan_id = 41;
  participant_id = 21;
  worker_option_id = 102;
  confirmed_check_keys = "gloves" ∷ [];
  checked_in_at = 9;
}

abbrev pub checked : Db
checked = record assigned { check_ins = arrival ∷ [] }

pub is_checked :
    check_in_field_worker (ambient 9 42) 10 21 check_in_command assigned
    ≡ ok (check_in_response arrival, checked)
unfolding check_in_field_worker add_check_in
is_checked = refl

pub is_answered :
    check_in_field_worker (ambient 11 43) 10 21 check_in_command checked
    ≡ ok (check_in_response arrival, checked)
unfolding check_in_field_worker add_check_in
is_answered = refl

pub is_confirmed_again :
    confirm_dispatch plan_hash (ambient 12 44) trace 10 20 confirm_command checked
    ≡ ok (plan, checked)
unfolding confirm_dispatch
is_confirmed_again = refl

pub start-IsConsistent : IsConsistent start
start-IsConsistent = record {
  setups_keyed = tt;
  vehicles_keyed = tt;
  plans_keyed = tt;
  planned = λ j p h. absurd (ground (arith, h));
  checked_in = λ j q c h. absurd (ground (arith, h));
}

pub reach_assigned : Reach hash plan_hash start assigned
reach_assigned =
    next
      (next here
        (create (ambient 2 40) 10 20 setup_command setup (λ i j e. omega (arith, e)) is_created))
      (confirm (ambient 3 41) trace 10 20 confirm_command plan is_confirmed)

pub reach_checked : Reach hash plan_hash assigned checked
reach_checked =
    next here
      (check_in (ambient 9 42) 10 21 check_in_command (check_in_response arrival) is_checked)

pub prepared-IsConsistent : IsConsistent prepared
prepared-IsConsistent =
    Reach-IsConsistent hash plan_hash start prepared
      (next here
        (create (ambient 2 40) 10 20 setup_command setup (λ i j e. omega (arith, e)) is_created))
      start-IsConsistent

pub assigned-IsConsistent : IsConsistent assigned
assigned-IsConsistent =
    Reach-IsConsistent hash plan_hash start assigned reach_assigned start-IsConsistent

pub checked-IsConsistent : IsConsistent checked
checked-IsConsistent =
    Reach-IsConsistent hash plan_hash assigned checked reach_checked assigned-IsConsistent
