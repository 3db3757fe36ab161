-- ===== src/Access/Invitations.antt =====
-- access/invitations.py: offering an invitation, and its responses.
use Prim.Native.String.{String}
use seqret_be.Prelude.{
  ◌+◌, Bool, false, not, ◌&&◌, Option, none, some, List, [], ◌∷◌, ltb, leb, ◌==◌, if◌then◌else◌,
  is_none,
}
use seqret_be.Prelude.Clock.{Uuid, Instant, seconds}
use seqret_be.Prelude.Table.{put}
use seqret_be.Prelude.Pointwise.{first_where}
use seqret_be.Prelude.Transaction.{
  Command, ok, err, not_found, conflict, integrity_error, role_error,
}
use seqret_be.Outbox.{or_hex as or_text}
use seqret_be.Access.Model.{
  ParticipantRole, customer, company_manager, field_worker, same_role, JobParticipant, AccessToken,
  InvitationStatus, is_pending, Invitation, Access, invitation_key,
}
use seqret_be.Access.Links.{AccessLinkResponse, Fresh, issue_access_link}
use seqret_be.Access.Authenticate.{Actor}

-- `_INVITABLE_ROLE`
abbrev pub invitable_role : ParticipantRole → Option ParticipantRole
invitable_role customer = some company_manager
invitable_role company_manager = some field_worker
invitable_role field_worker = none

-- `_ROLE_PERMISSIONS`
abbrev pub role_permissions : ParticipantRole → List String
role_permissions customer =
    "job:read" ∷ "capture:write" ∷ "scope:review" ∷ "invitation:company_manager:manage"
    ∷ "completion:confirm" ∷ []
role_permissions company_manager =
    "job:read" ∷ "scope:propose" ∷ "invitation:field_worker:manage" ∷ "dispatch:manage"
    ∷ "completion:request" ∷ []
role_permissions field_worker =
    "job:read" ∷ "field:check_in" ∷ "field:issue" ∷ "completion:submit" ∷ []

abbrev pub pending_invitation_permissions : List String
pending_invitation_permissions = "invitation:read" ∷ "invitation:accept" ∷ "invitation:decline" ∷ []

-- `_materialize_expiry`
abbrev pub materialize_expiry : Instant → Invitation → Invitation
materialize_expiry now i =
    if is_pending i.status && leb i.expires_at now
    then record i { status = InvitationStatus.expired }
    else i

-- `class InvitationResponse`
pub record InvitationResponse : Type 0 where
  pub id : Uuid
  pub job_id : Uuid
  pub issuer_participant_id : Uuid
  pub invitee_participant_id : Uuid
  pub role : ParticipantRole
  pub display_name : String
  pub status : InvitationStatus
  pub issued_at : Instant
  pub expires_at : Instant
  pub resolved_at : Option Instant

-- `_to_response`, of an invitation and its invitee
abbrev pub to_response : Invitation → JobParticipant → InvitationResponse
to_response i p = record {
  id = i.id;
  job_id = i.job_id;
  issuer_participant_id = i.issuer_participant_id;
  invitee_participant_id = i.invitee_participant_id;
  role = i.role;
  display_name = p.display_name;
  status = i.status;
  issued_at = i.issued_at;
  expires_at = i.expires_at;
  resolved_at = i.resolved_at;
}

-- `class InvitationIssuedResponse`
pub record InvitationIssued : Type 0 where
  pub invitation : InvitationResponse
  pub access_link : AccessLinkResponse

-- `_load_active_access_link`
abbrev pub is_active_link : Uuid → Instant → AccessToken → Bool
is_active_link participant_id now l =
    l.participant_id == participant_id && is_none l.revoked_at && ltb (now + seconds 1) l.expires_at

abbrev pub load_active_access_link : Uuid → Instant → Access → Option AccessToken
load_active_access_link participant_id now db =
    first_where (is_active_link participant_id now) db.links

abbrev pub has_role : Uuid → ParticipantRole → JobParticipant → Bool
has_role job_id role p = p.job_id == job_id && same_role p.role role

abbrev pub invites : Uuid → ParticipantRole → Invitation → Bool
invites job_id role i = i.job_id == job_id && same_role i.role role

abbrev pub default_name : ParticipantRole → String
default_name company_manager = "이사업체 담당자"
default_name field_worker = "현장기사"
default_name customer = ""

abbrev pub has_id : Uuid → Uuid → Bool
has_id a b = a == b

abbrev pub write_invitation : Invitation → Access → Access
write_invitation i db = record db { invitations = put invitation_key i db.invitations }

-- What a call gets from the process: the ids of new rows, the new link, and the times at which it
-- looks at the clock.
pub record Ambient : Type 0 where
  pub participant_id : Uuid
  pub invitation_id : Uuid
  pub link : Fresh
  pub now : Instant
  pub issued_at : Instant
  pub revoked_at : Uuid → Instant

-- The role that the actor may invite is the one that the command names.
abbrev pub may_invite : ParticipantRole → ParticipantRole → Bool
may_invite actor role = elim (invitable_role actor) [ none ↦ false | some r ↦ same_role role r ]

module _ (hash_secret : String → String) where
  -- `create_invitation`
  unfoldable pub create_invitation :
      Ambient
      → (job_id : Uuid) → Actor
      → (role : ParticipantRole) (display_name : Option String) → Command Access InvitationIssued
  create_invitation a job_id actor role display_name db =
      if not (may_invite actor.participant_role role)
      then err role_error
      else if is_none (first_where (has_id job_id) db.job_ids)
      then err not_found
      else elim (load_active_access_link actor.participant_id a.now db) [
        | none ↦ err conflict
        | some issuer_link ↦
            if not (
              is_none (first_where (invites job_id role) db.invitations)
              && is_none (first_where (has_role job_id role) db.participants))
            then err conflict
            else (let invitee : JobParticipant = record {
              id = a.participant_id;
              job_id = job_id;
              role = role;
              display_name = or_text display_name (default_name role);
            } in
                elim (issue_access_link hash_secret a.link invitee (some actor.participant_id)
                  (some "invitation_issued") (some a.invitation_id) (some issuer_link.expires_at)
                  (record db { participants = invitee ∷ db.participants })) [
                    | err x ↦ err x
                    | ok (link, db') ↦
                        let i : Invitation = record {
                          id = a.invitation_id;
                          job_id = job_id;
                          issuer_participant_id = actor.participant_id;
                          invitee_participant_id = invitee.id;
                          access_link_id = link.id;
                          role = role;
                          status = InvitationStatus.pending;
                          expires_at = link.expires_at;
                          issued_at = a.issued_at;
                          resolved_at = none;
                        } in
                        if ltb i.issued_at i.expires_at
                        then ok (
                          record { invitation = to_response i invitee; access_link = link },
                          record db' { invitations = i ∷ db'.invitations },
                        )
                        else err integrity_error
                  ])
      ]
