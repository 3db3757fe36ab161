-- ===== src/Workspace/Isolation.antt =====
-- access/workspace.py: what a capability opens in a browser without a session.
use Prim.Native.String.{String}
use seqret_be.Prelude.{none, List, ◌∷◌, ◌≡◌, ◌≢◌, All}
use seqret_be.Prelude.Clock.{Uuid}
use seqret_be.Prelude.Pointwise.{first_where}
use seqret_be.Access.Model.{JobParticipant, Invitation, WorkspaceMembership, WorkspaceAccount}
use seqret_be.Workspace.Sessions.{Workspace, WorkspaceMember, is_invitee, response_of}
use seqret_be.Workspace.Membership.{Ambient}

-- No membership of this account.
abbrev pub IsFresh : Uuid → List WorkspaceMembership → Type 0
IsFresh account_id ms = All (λ m. m.account_id ≢ account_id) ms

-- The one membership of a new account.
abbrev new_membership : Ambient → JobParticipant → WorkspaceMembership
new_membership a p = record {
  id = a.membership_id;
  account_id = a.account_id;
  participant_id = p.id;
  joined_at = a.joined_at;
  revoked_at = none;
}

-- How the workspace of a participant shows it.
abbrev pub shown : JobParticipant → List Invitation → WorkspaceMember
shown p is = record {
  job_id = p.job_id;
  participant_id = p.id;
  role = p.role;
  display_name = p.display_name;
  invitation = response_of (first_where (is_invitee p.id) is) p;
}

-- Without a session the participant joins a new account, whatever it was a member of.
record IsAlone (a : Ambient) (p : JobParticipant) (db : Workspace) (account : WorkspaceAccount)
    (db' : Workspace) : Type 0 where
  is_new : account.id ≡ a.account_id
  others : List WorkspaceMembership
  others_fresh : IsFresh a.account_id others
  joins : db'.memberships ≡ new_membership a p ∷ others
  participants_kept : db'.participants ≡ db.participants
  invitations_kept : db'.invitations ≡ db.invitations
