-- ===== src/Workspace/Sessions.antt =====
-- access/workspace.py: resolving the cookie of a browser session.
use Prim.Native.String.{String}
use package.text.Mathlib.Text.{◌==◌ as str_eq}
use seqret_be.Prelude.{
  ℕ, Bool, true, false, not, ◌&&◌, ◌||◌, Option, none, some, List, [], ◌∷◌, leb, ltb, ◌==◌,
  if◌then◌else◌, is_none, filter,
}
use seqret_be.Prelude.Clock.{Uuid, Instant}
use seqret_be.Prelude.Table.{find, put, sort}
use seqret_be.Prelude.Pointwise.{first_where}
use seqret_be.Prelude.Transaction.{Command, ok, err, invalid_session}
use seqret_be.Access.Model.{
  ParticipantRole, same_role, JobParticipant, is_accepted, Invitation, WorkspaceMembership,
  WorkspaceAccount, account_key, participant_key,
}
use seqret_be.Access.Authenticate.{Actor, is_access_secret}
use seqret_be.Access.Invitations.{InvitationResponse, to_response}
use seqret_be.Notification.Model.{NotificationDelivery}
use seqret_be.Notification.Consume.{WorkspaceContactPoint}
use seqret_be.MoveJob.Listing.{MoveJob}

-- `class WorkspaceSession`
pub record WorkspaceSession : Type 0 where
  pub id : Uuid
  pub account_id : Uuid
  pub token_hash : String
  pub csrf_token : String
  pub expires_at : Instant
  pub revoked_at : Option Instant
  pub last_used_at : Option Instant
  pub created_at : Instant

abbrev pub session_key : WorkspaceSession → ℕ
session_key r = r.id

abbrev pub membership_key : WorkspaceMembership → ℕ
membership_key r = r.id

pub record Workspace : Type 0 where
  pub jobs : List MoveJob
  pub participants : List JobParticipant
  pub invitations : List Invitation
  pub accounts : List WorkspaceAccount
  pub memberships : List WorkspaceMembership
  pub sessions : List WorkspaceSession
  pub contacts : List WorkspaceContactPoint
  pub rows : List NotificationDelivery

-- `class WorkspacePrincipal`
pub record WorkspacePrincipal : Type 0 where
  pub session_id : Uuid
  pub account_id : Uuid
  pub role : ParticipantRole
  pub display_name : String
  pub expires_at : Instant
  pub csrf_token : String

abbrev pub has_token : String → WorkspaceSession → Bool
has_token hash s = str_eq s.token_hash hash

abbrev pub is_open_session : Instant → WorkspaceSession → Bool
is_open_session now s = is_none s.revoked_at && ltb now s.expires_at

abbrev pub write_session : WorkspaceSession → Workspace → Workspace
write_session s db = record db { sessions = put session_key s db.sessions }

abbrev pub is_active_member : Uuid → WorkspaceMembership → Bool
is_active_member account_id m = m.account_id == account_id && is_none m.revoked_at

abbrev pub is_invitee : Uuid → Invitation → Bool
is_invitee participant_id i = i.invitee_participant_id == participant_id

-- No invitation, or an accepted one.
abbrev pub may_work : Option Invitation → Bool
may_work none = true
may_work (some i) = is_accepted i.status

-- The participant of the job and role by which the account is a member.
abbrev pub is_account_participant :
    Uuid → Uuid → ParticipantRole → List WorkspaceMembership → JobParticipant → Bool
is_account_participant account_id job_id role memberships p =
    p.job_id == job_id
    && same_role p.role role
    && not (
        is_none (
          first_where (λ m. is_active_member account_id m && m.participant_id == p.id) memberships))

module _ (hash_secret : String → String) where
  -- `_load_session`
  unfoldable pub load_session :
      (secret : String) (touch : Bool) (now : Instant)
      → Command Workspace (WorkspaceSession × WorkspaceAccount)
  load_session secret touch now db =
      if not (is_access_secret secret)
      then err invalid_session
      else elim (first_where (has_token (hash_secret secret)) db.sessions) [
        | none ↦ err invalid_session
        | some s ↦ elim (find account_key s.account_id db.accounts) [
          | none ↦ err invalid_session
          | some account ↦
              if not (is_open_session now s)
              then err invalid_session
              else if touch
              then (let s' : WorkspaceSession = record s { last_used_at = some now } in
                  ok ((s', account), write_session s' db))
              else ok ((s, account), db)
        ]
      ]

  -- `authenticate_workspace_account`
  unfoldable pub authenticate_workspace_account :
      (secret : String) (csrf_token : Option String) (now : Instant)
      → Command Workspace WorkspacePrincipal
  authenticate_workspace_account secret csrf_token now db = elim (load_session secret true now db) [
    | err e ↦ err e
    | ok ((s, account), db') ↦
        if elim csrf_token [ none ↦ true | some token ↦ str_eq s.csrf_token token ]
        then ok (
          record {
            session_id = s.id;
            account_id = account.id;
            role = account.role;
            display_name = account.display_name;
            expires_at = s.expires_at;
            csrf_token = s.csrf_token;
          },
          db',
        )
        else err invalid_session
  ]

  -- `authenticate_workspace_actor`
  unfoldable pub authenticate_workspace_actor :
      (secret : String) (job_id : Uuid) (csrf_token : Option String) (now : Instant)
      → Command Workspace Actor
  authenticate_workspace_actor secret job_id csrf_token now db =
      elim (authenticate_workspace_account secret csrf_token now db) [
        | err e ↦ err e
        | ok (principal, db') ↦
            elim (first_where
              (is_account_participant principal.account_id job_id principal.role db'.memberships)
              db'.participants) [
                | none ↦ err invalid_session
                | some p ↦
                    if may_work (first_where (is_invitee p.id) db'.invitations)
                    then ok (
                      record {
                        participant_id = p.id;
                        participant_role = p.role;
                        job_id = p.job_id;
                      },
                      db',
                    )
                    else err invalid_session
              ]
      ]

  -- `revoke_workspace_session`
  unfoldable pub revoke_workspace_session :
      (secret : String) (now revoked_at : Instant) → Command Workspace (Unit {0})
  revoke_workspace_session secret now revoked_at db = elim (load_session secret false now db) [
    | err e ↦ err e
    | ok ((s, account), db') ↦
        ok (tt, write_session (record s { revoked_at = some revoked_at }) db')
  ]

-- `class WorkspaceMemberResponse`
pub record WorkspaceMember : Type 0 where
  pub job_id : Uuid
  pub participant_id : Uuid
  pub role : ParticipantRole
  pub display_name : String
  pub invitation : Option InvitationResponse

-- `class WorkspaceSessionResponse`
pub record WorkspaceSessionResponse : Type 0 where
  pub account_id : Uuid
  pub role : ParticipantRole
  pub display_name : String
  pub expires_at : Instant
  pub csrf_token : String
  pub members : List WorkspaceMember

-- `ORDER BY joined_at, id`
abbrev pub joined_before : WorkspaceMembership → WorkspaceMembership → Bool
joined_before m n = ltb m.joined_at n.joined_at || (m.joined_at == n.joined_at && leb m.id n.id)

abbrev pub response_of : Option Invitation → JobParticipant → Option InvitationResponse
response_of none p = none
response_of (some i) p = some (to_response i p)

abbrev pub members_of :
    List JobParticipant → List Invitation → List WorkspaceMembership → List WorkspaceMember
members_of ps is [] = []
members_of ps is (m ∷ ms) =
    let rest = members_of ps is ms in
    elim (find participant_key m.participant_id ps) [
      | none ↦ rest
      | some p ↦
          record {
            job_id = p.job_id;
            participant_id = p.id;
            role = p.role;
            display_name = p.display_name;
            invitation = response_of (first_where (is_invitee p.id) is) p;
          }
          ∷ rest
    ]

-- `_workspace_response`
unfoldable pub workspace_response :
    WorkspaceSession → WorkspaceAccount → Workspace → WorkspaceSessionResponse
workspace_response s account db = record {
  account_id = account.id;
  role = account.role;
  display_name = account.display_name;
  expires_at = s.expires_at;
  csrf_token = s.csrf_token;
  members =
      members_of db.participants db.invitations
        (sort membership_key joined_before (filter (is_active_member account.id) db.memberships));
}

-- `get_workspace_session`
unfoldable pub get_workspace_session :
    (hash_secret : String → String) (secret : String) (now : Instant)
    → Command Workspace WorkspaceSessionResponse
get_workspace_session hash_secret secret now db =
    elim (load_session hash_secret secret true now db) [
      | err e ↦ err e
      | ok ((s, account), db') ↦ ok (workspace_response s account db', db')
    ]
