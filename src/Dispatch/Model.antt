-- ===== src/Dispatch/Model.antt =====
-- The rows of app/modules/dispatch/models.py, what dispatch/service.py reads of the rows of
-- move_job/models.py and scope/models.py, and the requests and responses of dispatch/schemas.py.
-- The JSON columns hold the values that were dumped into them.
use Prim.Native.String.{String}
use seqret_be.Prelude.{ℕ, Bool, Option, List}
use seqret_be.Prelude.Clock.{Uuid, Instant}
use seqret_be.Access.Model.{ParticipantRole, JobParticipant}
use seqret_be.MoveJob.Listing.{MoveJob}
use seqret_be.MoveJob.Topology.{LocationKind}
use seqret_be.Outbox.{Outbox}

-- `class Location`
pub record Location : Type 0 where
  pub job_id : Uuid
  pub kind : LocationKind
  pub label : String
  pub detail_address : Option String

-- `class ScopeVersion`
pub record ScopeVersion : Type 0 where
  pub id : Uuid
  pub job_id : Uuid
  pub parent_version_id : Option Uuid
  pub sequence_number : ℕ
  pub content_hash : String
  pub locked_at : Option Instant

-- `class DispatchCheckInItemCreate`
pub record DispatchCheckInItemCreate : Type 0 where
  pub key : String
  pub label : String

-- `class DispatchVehicleCreate`
pub record DispatchVehicleCreate : Type 0 where
  pub external_reference : String
  pub display_name : String
  pub specification : String
  pub equipment : List String
  pub capacity_m2 : ℕ
  pub available : Bool
  pub conflict_reason : Option String

-- `class DispatchWorkerCreate`
pub record DispatchWorkerCreate : Type 0 where
  pub external_reference : String
  pub display_name : String
  pub role_label : String
  pub skills : List String
  pub certifications : List String
  pub available : Bool
  pub conflict_reason : Option String
  pub participant_id : Option Uuid

-- `class DispatchSetupCreate`
pub record DispatchSetupCreate : Type 0 where
  pub client_reference : Uuid
  pub source_scope_version_id : Uuid
  pub expected_duration_minutes : ℕ
  pub required_vehicle_capacity_m2 : ℕ
  pub required_worker_count : ℕ
  pub required_skills : List String
  pub required_certifications : List String
  pub check_in_items : List DispatchCheckInItemCreate
  pub completion_check_items : List DispatchCheckInItemCreate
  pub origin_conditions : List String
  pub safety_notice : String
  pub vehicles : List DispatchVehicleCreate
  pub workers : List DispatchWorkerCreate

-- `class DispatchVehicleOption`
pub record DispatchVehicleOption : Type 0 where
  pub id : Uuid
  pub external_reference : String
  pub display_name : String
  pub specification : String
  pub equipment : List String
  pub capacity_m2 : ℕ
  pub available : Bool
  pub conflict_reason : Option String

-- `class DispatchWorkerOption`
pub record DispatchWorkerOption : Type 0 where
  pub id : Uuid
  pub external_reference : String
  pub display_name : String
  pub role_label : String
  pub skills : List String
  pub certifications : List String
  pub available : Bool
  pub conflict_reason : Option String
  pub participant_id : Option Uuid

-- `class DispatchSetup`
pub record DispatchSetup : Type 0 where
  pub id : Uuid
  pub job_id : Uuid
  pub client_reference : Uuid
  pub source_scope_version_id : Uuid
  pub created_by_participant_id : Uuid
  pub command_hash : String
  pub start_at : Instant
  pub expected_duration_minutes : ℕ
  pub required_vehicle_capacity_m2 : ℕ
  pub required_worker_count : ℕ
  pub required_skills : List String
  pub required_certifications : List String
  pub check_in_items : List DispatchCheckInItemCreate
  pub completion_check_items : List DispatchCheckInItemCreate
  pub origin_conditions : List String
  pub safety_notice : String
  pub vehicle_options : List DispatchVehicleOption
  pub worker_options : List DispatchWorkerOption
  pub created_at : Instant

-- `class DispatchConfirmCreate`
pub record DispatchConfirmCreate : Type 0 where
  pub setup_id : Uuid
  pub vehicle_id : Uuid
  pub lead_worker_id : Uuid
  pub worker_ids : List Uuid
  pub worker_note : Option String

-- `class DispatchPlan`
pub record DispatchPlan : Type 0 where
  pub id : Uuid
  pub job_id : Uuid
  pub setup_id : Uuid
  pub source_scope_version_id : Uuid
  pub vehicle_option_id : Uuid
  pub lead_worker_option_id : Uuid
  pub selected_worker_option_ids : List Uuid
  pub worker_note : Option String
  pub command_hash : String
  pub confirmed_by_participant_id : Uuid
  pub confirmed_at : Instant

-- `class FieldCheckInCreate`
pub record FieldCheckInCreate : Type 0 where
  pub dispatch_id : Uuid
  pub confirmed_check_keys : List String

-- `class FieldCheckIn`
pub record FieldCheckIn : Type 0 where
  pub id : Uuid
  pub job_id : Uuid
  pub dispatch_plan_id : Uuid
  pub participant_id : Uuid
  pub worker_option_id : Uuid
  pub confirmed_check_keys : List String
  pub checked_in_at : Instant

-- `class FieldCheckInResponse`
pub record FieldCheckInResponse : Type 0 where
  pub check_in_id : Uuid
  pub dispatch_id : Uuid
  pub participant_id : Uuid
  pub confirmed_check_keys : List String
  pub checked_in_at : Instant

-- `class ScopeReviewJobHeader`
pub record ScopeReviewJobHeader : Type 0 where
  pub job_id : Uuid
  pub job_code : String
  pub title : String
  pub scheduled_at : Option Instant
  pub customer_display_name : Option String
  pub company_display_name : Option String
  pub viewer_display_name : String
  pub viewer_role : ParticipantRole
  pub origin_summary : Option String
  pub destination_summary : Option String

pub record Db : Type 0 where
  pub jobs : List MoveJob
  pub participants : List JobParticipant
  pub locations : List Location
  pub versions : List ScopeVersion
  pub setups : List DispatchSetup
  pub plans : List DispatchPlan
  pub check_ins : List FieldCheckIn
  pub outbox : Outbox
