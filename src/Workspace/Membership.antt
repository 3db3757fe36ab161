-- ===== src/Workspace/Membership.antt =====
-- access/workspace.py: a capability joins a browser session, and the shared code of a job.
use Prim.Native.String.{String}
use seqret_be.Prelude.{
  ℕ, ◌+◌, ◌*◌, Bool, true, not, ◌&&◌, Option, none, some, List, [], ◌∷◌, map, ◌==◌, if◌then◌else◌,
  is_none, filter, take,
}
use seqret_be.Prelude.Clock.{Uuid, Instant, seconds}
use seqret_be.Prelude.Table.{find, put}
use seqret_be.Prelude.Pointwise.{first_where}
use seqret_be.Prelude.Transaction.{
  Command, Result, ok, err, conflict, assertion, invalid_session, invalid_connection,
}
use seqret_be.BackgroundJob.Model.{canceled}
use seqret_be.Outbox.{or_hex as or_text}
use seqret_be.Access.Model.{
  ParticipantRole, customer, company_manager, field_worker, same_role, JobParticipant,
  InvitationStatus, WorkspaceMembership, WorkspaceAccount, account_key, participant_key,
  invitation_key,
}
use seqret_be.Access.Invitations.{has_role}
use seqret_be.Access.Answers.{resolved}
use seqret_be.Notification.Model.{NotificationStatus, is_pending, is_in_app, NotificationDelivery}
use seqret_be.MoveJob.Listing.{MoveJob, same_status}
use seqret_be.Workspace.Sessions.{
  WorkspaceSession, Workspace, WorkspaceSessionResponse, is_invitee, may_work, load_session,
  membership_key, workspace_response,
}

-- `WORKSPACE_SESSION_TTL`, thirty days
abbrev pub workspace_session_ttl : ℕ
workspace_session_ttl = seconds (30 * 24 * 60 * 60)

-- `class IssuedWorkspaceSession`
pub record IssuedWorkspaceSession : Type 0 where
  pub response : WorkspaceSessionResponse
  pub cookie_secret : Option String

-- What a call gets from the process: the ids and secrets of new rows, and its times.
pub record Ambient : Type 0 where
  pub account_id : Uuid
  pub membership_id : Uuid
  pub session_id : Uuid
  pub participant_id : Uuid
  pub secret : String
  pub csrf_token : String
  pub looked_at : Instant
  pub detached_at : Instant
  pub joined_at : Instant
  pub now : Instant

abbrev pub holds_participant : Uuid → WorkspaceMembership → Bool
holds_participant participant_id m = m.participant_id == participant_id && is_none m.revoked_at

-- A pending external delivery to the participant is given up.
abbrev pub relinked : Uuid → NotificationDelivery → NotificationDelivery
relinked participant_id r =
    if r.recipient_participant_id == participant_id
      && not (is_in_app r.channel)
      && is_pending r.status
    then record r {
      status = NotificationStatus.failed;
      last_error_code = some "workspace_relinked";
      next_attempt_at = none;
      lock_token = none;
      locked_until = none;
    }
    else r

-- Only the proven participant leaves its former workspace.
abbrev pub detach : Instant → WorkspaceMembership → Workspace → Workspace
detach now m db = record db {
  memberships = put membership_key (record m { revoked_at = some now }) db.memberships;
  rows = map (relinked m.participant_id) db.rows;
}

abbrev pub join_account : Ambient → WorkspaceAccount → JobParticipant → Workspace → Workspace
join_account a account p db = record db {
  memberships =
      record {
        id = a.membership_id;
        account_id = account.id;
        participant_id = p.id;
        joined_at = a.joined_at;
        revoked_at = none;
      }
      ∷ db.memberships;
}

-- A new account for the participant, which it joins.
abbrev pub open_account : Ambient → JobParticipant → Workspace → WorkspaceAccount × Workspace
open_account a p db =
    let account : WorkspaceAccount = record {
      id = a.account_id;
      role = p.role;
      display_name = p.display_name;
    } in
    (account, join_account a account p (record db { accounts = account ∷ db.accounts }))

-- The account of the session, if there is one, and of the membership, if there is one.
abbrev pub attach :
    Ambient
    → JobParticipant
    → Option WorkspaceAccount
    → Option WorkspaceMembership
    → Command Workspace WorkspaceAccount
attach a p none none db = ok (open_account a p db)
attach a p (some account) none db =
    if same_role account.role p.role
    then ok (account, join_account a account p db)
    else err conflict
attach a p none (some m) db = elim (find account_key m.account_id db.accounts) [
  | none ↦ err assertion
  | some _ ↦ ok (open_account a p (detach a.detached_at m db))
]
attach a p (some account) (some m) db = elim (find account_key m.account_id db.accounts) [
  | none ↦ err assertion
  | some held ↦ if account.id == held.id then ok (held, db) else err conflict
]

abbrev pub new_session : String → Ambient → WorkspaceAccount → WorkspaceSession
new_session hash a account = record {
  id = a.session_id;
  account_id = account.id;
  token_hash = hash;
  csrf_token = a.csrf_token;
  expires_at = a.now + workspace_session_ttl;
  revoked_at = none;
  last_used_at = some a.now;
  created_at = a.now;
}

abbrev pub account_of : Option (WorkspaceSession × WorkspaceAccount) → Option WorkspaceAccount
account_of none = none
account_of (some (s, account)) = some account

module _ (hash_secret : String → String) where
  -- The session of the request's cookie, if it is still one.
  abbrev pub current_session :
      Instant → Option String → Workspace → Option (WorkspaceSession × WorkspaceAccount) × Workspace
  current_session now none db = (none, db)
  current_session now (some secret) db = elim (load_session hash_secret secret true now db) [
    | err e ↦ (none, db)
    | ok (current, db') ↦ (some current, db')
  ]

  abbrev pub issue_session :
      Ambient
      → Option (WorkspaceSession × WorkspaceAccount)
      → WorkspaceAccount
      → Workspace
      → IssuedWorkspaceSession × Workspace
  issue_session a (some (s, _)) account db =
      (record { response = workspace_response s account db; cookie_secret = none }, db)
  issue_session a none account db =
      let s = new_session (hash_secret a.secret) a account in
      let db' : Workspace = record db { sessions = s ∷ db.sessions } in
      (record { response = workspace_response s account db'; cookie_secret = some a.secret }, db')

  -- `create_or_extend_workspace_session`
  unfoldable pub create_or_extend_workspace_session :
      Ambient
      → (participant_id : Uuid) (current_cookie_secret : Option String)
      → Command Workspace IssuedWorkspaceSession
  create_or_extend_workspace_session a participant_id cookie db =
      elim (find participant_key participant_id db.participants) [
        | none ↦ err invalid_session
        | some p ↦
            if not (may_work (first_where (is_invitee p.id) db.invitations))
            then err conflict
            else (let (current, db') = current_session a.looked_at cookie db in
                elim (attach a p (account_of current)
                  (first_where (holds_participant p.id) db'.memberships) db') [
                    | err e ↦ err e
                    | ok (account, joined) ↦ ok (issue_session a current account joined)
                  ])
      ]

-- `DEFAULT_ROLE_NAMES`
abbrev pub default_role_name : ParticipantRole → String
default_role_name customer = "고객"
default_role_name company_manager = "이사업체"
default_role_name field_worker = "현장기사"

abbrev pub job_key : MoveJob → ℕ
job_key j = j.id

-- `display_name or DEFAULT_ROLE_NAMES[role]`
abbrev pub shown_name : Option JobParticipant → ParticipantRole → String
shown_name none role = default_role_name role
shown_name (some p) role = or_text (some p.display_name) (default_role_name role)

-- `has_code code id` is the test that the id's text starts with the code's.
module _ (has_code : String → Uuid → Bool) where
  abbrev pub is_connection : String → MoveJob → Bool
  is_connection code j = not (same_status j.status canceled) && has_code code j.id

  abbrev pub only_job : List MoveJob → Result MoveJob
  only_job (j ∷ []) = ok j
  only_job _ = err invalid_connection

  -- `_load_move_connection_job`
  abbrev pub load_move_connection_job : String → Workspace → Result MoveJob
  load_move_connection_job code db = only_job (take 2 (filter (is_connection code) db.jobs))

  -- `preview_move_connection`
  unfoldable pub preview_move_connection :
      (connection_code : String) → ParticipantRole → Workspace → Result (ParticipantRole × String)
  preview_move_connection code role db = elim (load_move_connection_job code db) [
    | err e ↦ err e
    | ok j ↦ ok (role, shown_name (first_where (has_role j.id role) db.participants) role)
  ]

  -- The participant of the role, which is created if it is missing.
  abbrev pub role_participant :
      Ambient → Uuid → ParticipantRole → Workspace → JobParticipant × Workspace
  role_participant a job_id role db = elim (first_where (has_role job_id role) db.participants) [
    | some p ↦ (p, db)
    | none ↦
        let p : JobParticipant = record {
          id = a.participant_id;
          job_id = job_id;
          role = role;
          display_name = default_role_name role;
        } in
        (p, record db { participants = p ∷ db.participants })
  ]

  -- Whoever holds the code accepts the invitation of the role, whatever became of it.
  abbrev pub accept_for : Instant → JobParticipant → Workspace → Workspace
  accept_for now p db = elim (first_where (is_invitee p.id) db.invitations) [
    | none ↦ db
    | some i ↦ if may_work (some i) then db else record db {
      invitations = put invitation_key (resolved InvitationStatus.accepted now i) db.invitations;
    }
  ]

  -- `resolve_move_connection`
  unfoldable pub resolve_move_connection :
      Ambient → (connection_code : String) → ParticipantRole → Command Workspace JobParticipant
  resolve_move_connection a code role db = elim (load_move_connection_job code db) [
    | err e ↦ err e
    | ok j ↦ let (p, db') = role_participant a j.id role db in ok (p, accept_for a.now p db')
  ]
