-- ===== src/Access/Answers.antt =====
-- access/invitations.py: answering and revoking an invitation.
use Prim.Native.String.{String}
use seqret_be.Prelude.{
  ℕ, zero, suc, Bool, false, not, ◌&&◌, ◌||◌, none, some, List, [], ◌∷◌, ◌==◌, if◌then◌else◌, keep,
  filter,
}
use seqret_be.Prelude.Clock.{Uuid, Instant}
use seqret_be.Prelude.Table.{find}
use seqret_be.Prelude.Pointwise.{first_where}
use seqret_be.Prelude.Transaction.{
  Command, Result, ok, err, not_found, conflict, no_result, invalid_token, recursion_error,
}
use seqret_be.Contracts.Events.{Payload, uuid, text}
use seqret_be.Access.Model.{
  role_value, is_company, JobParticipant, AccessToken, InvitationStatus, is_pending, is_accepted,
  is_revoked, Invitation, participant_connected, Access, participant_key, link_key, invitation_key,
}
use seqret_be.Access.Links.{has_hash, add_audit_event, revoke_access_link}
use seqret_be.Access.Authenticate.{Actor}
use seqret_be.Access.Invitations.{
  Ambient, InvitationResponse, materialize_expiry, to_response, write_invitation,
}

-- The invitations of a job that a participant issued or was sent, in the order of the list.
abbrev pub concerns : Uuid → Uuid → Invitation → Bool
concerns job_id participant_id i =
    i.job_id == job_id
    && (i.issuer_participant_id == participant_id || i.invitee_participant_id == participant_id)

-- `_load_invitation_for_invitee` and `_load_invitation_for_issuer`: the row, with its expiry
-- materialized, and its invitee.
abbrev pub load_invitation :
    (Invitation → Bool) → Uuid → Instant → Access → Result (Invitation × JobParticipant)
load_invitation p id now db = elim (keep p (find invitation_key id db.invitations)) [
  | none ↦ err not_found
  | some i ↦ elim (find participant_key i.invitee_participant_id db.participants) [
    | none ↦ err no_result
    | some invitee ↦ ok (materialize_expiry now i, invitee)
  ]
]

abbrev pub is_sent_to : Uuid → Uuid → Invitation → Bool
is_sent_to job_id participant_id i =
    i.job_id == job_id && i.invitee_participant_id == participant_id

abbrev pub is_issued_by : Uuid → Uuid → Invitation → Bool
is_issued_by job_id participant_id i =
    i.job_id == job_id && i.issuer_participant_id == participant_id

-- The secret of the request is that of the invitation's link.
abbrev pub matches_link : (String → String) → String → Invitation → Access → Bool
matches_link hash_secret secret i db = elim (find link_key i.access_link_id db.links) [
  | none ↦ false
  | some l ↦ has_hash (hash_secret secret) l
]

abbrev pub resolved : InvitationStatus → Instant → Invitation → Invitation
resolved status now i = record i { status = status; resolved_at = some now }

abbrev pub accepted_payload : Invitation → Payload
accepted_payload i =
    ("access_link_id", uuid i.access_link_id)
    ∷ ("participant_id", uuid i.invitee_participant_id)
    ∷ ("role", text (role_value i.role))
    ∷ ("operation", text "invitation_accepted")
    ∷ ("invitation_id", uuid i.id)
    ∷ []

-- Revoking the link of an invitation.
abbrev pub revoke_link_of : (Uuid → Instant) → Invitation → Uuid → Command Access (Unit {0})
revoke_link_of now i actor db = elim (find link_key i.access_link_id db.links) [
  | none ↦ err no_result
  | some l ↦ revoke_access_link now l actor none db
]

module _ (hash_secret : String → String) where
  -- `accept_invitation`
  unfoldable pub accept_invitation :
      Ambient
      → (job_id invitation_id : Uuid) → Actor
      → (secret : String) → Command Access InvitationResponse
  accept_invitation a job_id id actor secret db =
      elim (load_invitation (is_sent_to job_id actor.participant_id) id a.now db) [
        | err x ↦ err x
        | ok (i, invitee) ↦
            if not (matches_link hash_secret secret i db)
            then err invalid_token
            else if is_accepted i.status
            then ok (to_response i invitee, write_invitation i db)
            else if not (is_pending i.status)
            then err conflict
            else (let i' = resolved InvitationStatus.accepted a.issued_at i in
                ok (
                  to_response i' invitee,
                  add_audit_event i.job_id participant_connected (some i.invitee_participant_id)
                      (accepted_payload i) (write_invitation i' db),
                ))
      ]

  -- `decline_invitation`
  unfoldable pub decline_invitation :
      Ambient
      → (job_id invitation_id : Uuid) → Actor
      → (secret : String) → Command Access InvitationResponse
  decline_invitation a job_id id actor secret db =
      elim (load_invitation (is_sent_to job_id actor.participant_id) id a.now db) [
        | err x ↦ err x
        | ok (i, invitee) ↦
            if not (matches_link hash_secret secret i db)
            then err invalid_token
            else if not (is_pending i.status)
            then err conflict
            else (let i' = resolved InvitationStatus.declined a.issued_at i in
                elim (revoke_link_of a.revoked_at i' i.invitee_participant_id
                  (write_invitation i' db)) [
                    | err x ↦ err x
                    | ok (_, db') ↦ ok (to_response i' invitee, db')
                  ])
      ]

-- The loop of `_revoke_invitations_issued_by` over the selected rows; `revoke` is
-- `_revoke_invitation_tree`.
unfoldable pub revoke_each :
    (Invitation → Command Access (Unit {0})) → List Invitation → Command Access (Unit {0})
revoke_each revoke [] db = ok (tt, db)
revoke_each revoke (i ∷ rows) db = elim (revoke i db) [
  | err x ↦ err x
  | ok (_, db') ↦ revoke_each revoke rows db'
]

-- `_revoke_invitation_tree`, to a depth.
unfoldable pub revoke_invitation_tree :
    ℕ
    → (revoked_at : Uuid → Instant) (now : Instant) (actor : Uuid) → Invitation
    → Command Access (Unit {0})
revoke_invitation_tree zero revoked_at now actor i db = err recursion_error
revoke_invitation_tree (suc depth) revoked_at now actor i db =
    elim (if is_company i.role
      then revoke_each (revoke_invitation_tree depth revoked_at now actor)
          (filter (is_issued_by i.job_id i.invitee_participant_id) db.invitations) db
      else ok (tt, db)) [
        | err x ↦ err x
        | ok (_, db') ↦
            revoke_link_of revoked_at i actor
              (write_invitation (resolved InvitationStatus.revoked now i) db')
      ]

-- A company invites a field worker, who invites nobody.
abbrev pub tree_depth : ℕ
tree_depth = 2

-- `_revoke_invitations_issued_by`
abbrev pub revoke_invitations_issued_by :
    (revoked_at : Uuid → Instant) (now : Instant) (actor job_id issuer : Uuid)
    → Command Access (Unit {0})
revoke_invitations_issued_by revoked_at now actor job_id issuer db =
    revoke_each (revoke_invitation_tree tree_depth revoked_at now actor)
      (filter (is_issued_by job_id issuer) db.invitations) db

-- `revoke_access_link_tree`
unfoldable pub revoke_access_link_tree :
    Ambient → AccessToken → (actor : Uuid) → Command Access (Unit {0})
revoke_access_link_tree a link actor db =
    elim (first_where (λ i. i.access_link_id == link.id) db.invitations) [
      | some i ↦ revoke_invitation_tree tree_depth a.revoked_at a.now actor i db
      | none ↦ elim (find participant_key link.participant_id db.participants) [
        | none ↦ err no_result
        | some p ↦ elim (revoke_invitations_issued_by a.revoked_at a.now actor p.job_id p.id db) [
          | err x ↦ err x
          | ok (_, db') ↦ revoke_access_link a.revoked_at link actor none db'
        ]
      ]
    ]

-- `revoke_invitation`
unfoldable pub revoke_invitation :
    Ambient → (job_id invitation_id : Uuid) → Actor → Command Access InvitationResponse
revoke_invitation a job_id id actor db =
    elim (load_invitation (is_issued_by job_id actor.participant_id) id a.now db) [
      | err x ↦ err x
      | ok (i, invitee) ↦
          if is_revoked i.status
          then ok (to_response i invitee, write_invitation i db)
          else elim (revoke_invitation_tree tree_depth a.revoked_at a.issued_at actor.participant_id
              i (write_invitation i db)) [
                | err x ↦ err x
                | ok (_, db') ↦
                    ok (to_response (resolved InvitationStatus.revoked a.issued_at i) invitee, db')
              ]
    ]
