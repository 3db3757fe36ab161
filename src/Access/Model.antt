-- ===== src/Access/Model.antt =====
-- The rows that access/service.py and access/invitations.py read and write: access/models.py,
-- `JobParticipant` of move_job/models.py, and `AuditEvent` of completion/models.py.
use Prim.Native.String.{String}
use seqret_be.Prelude.{ℕ, Bool, true, false, Option, List}
use seqret_be.Prelude.Clock.{Uuid, Instant}
use seqret_be.Contracts.Events.{Payload}

-- `class ParticipantRole`
pub data ParticipantRole : Type 0 where
  customer company_manager field_worker : ParticipantRole

abbrev pub role_value : ParticipantRole → String
role_value customer = "customer"
role_value company_manager = "company_manager"
role_value field_worker = "field_worker"

abbrev pub same_role : ParticipantRole → ParticipantRole → Bool
same_role customer customer = true
same_role company_manager company_manager = true
same_role field_worker field_worker = true
same_role _ _ = false

abbrev pub is_company : ParticipantRole → Bool
is_company company_manager = true
is_company _ = false

-- `class JobParticipant`
pub record JobParticipant : Type 0 where
  pub id : Uuid
  pub job_id : Uuid
  pub role : ParticipantRole
  pub display_name : String

-- `class ParticipantAccessToken`
pub record AccessToken : Type 0 where
  pub id : Uuid
  pub participant_id : Uuid
  pub token_hash : String
  pub expires_at : Instant
  pub revoked_at : Option Instant
  pub last_used_at : Option Instant
  pub rate_window_started_at : Option Instant
  pub rate_window_count : ℕ
  pub created_at : Instant

-- `class InvitationStatus`
pub data InvitationStatus : Type 0 where
  pending accepted declined expired revoked : InvitationStatus

abbrev pub is_pending : InvitationStatus → Bool
is_pending pending = true
is_pending _ = false

abbrev pub is_accepted : InvitationStatus → Bool
is_accepted accepted = true
is_accepted _ = false

abbrev pub is_revoked : InvitationStatus → Bool
is_revoked revoked = true
is_revoked _ = false

-- `class ParticipantInvitation`
pub record Invitation : Type 0 where
  pub id : Uuid
  pub job_id : Uuid
  pub issuer_participant_id : Uuid
  pub invitee_participant_id : Uuid
  pub access_link_id : Uuid
  pub role : ParticipantRole
  pub status : InvitationStatus
  pub expires_at : Instant
  pub issued_at : Instant
  pub resolved_at : Option Instant

-- `class WorkspaceAccount`
pub record WorkspaceAccount : Type 0 where
  pub id : Uuid
  pub role : ParticipantRole
  pub display_name : String

abbrev pub account_key : WorkspaceAccount → ℕ
account_key r = r.id

-- `class WorkspaceMembership`
pub record WorkspaceMembership : Type 0 where
  pub id : Uuid
  pub account_id : Uuid
  pub participant_id : Uuid
  pub joined_at : Instant
  pub revoked_at : Option Instant

-- The members of `class AuditEventType` that these services add.
pub data AuditEventType : Type 0 where
  job_created participant_connected access_link_issued access_link_revoked : AuditEventType

-- `class AuditEvent`, without its generated id and time.
pub record AuditEvent : Type 0 where
  pub job_id : Uuid
  pub event_type : AuditEventType
  pub actor_participant_id : Option Uuid
  pub payload : Payload

pub record Access : Type 0 where
  pub job_ids : List Uuid
  pub participants : List JobParticipant
  pub links : List AccessToken
  pub invitations : List Invitation
  pub memberships : List WorkspaceMembership
  pub audits : List AuditEvent

abbrev pub participant_key : JobParticipant → ℕ
participant_key r = r.id

abbrev pub link_key : AccessToken → ℕ
link_key r = r.id

abbrev pub invitation_key : Invitation → ℕ
invitation_key r = r.id
