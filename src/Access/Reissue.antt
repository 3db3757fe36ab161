-- ===== src/Access/Reissue.antt =====
-- access/invitations.py: a fresh capability for an invitation, and the views of a participant.
use Prim.Native.String.{String}
use seqret_be.Prelude.{
  Bool, ◌&&◌, ◌||◌, Option, none, some, List, [], ◌∷◌, ltb, leb, ◌==◌, if◌then◌else◌, filter, map,
}
use seqret_be.Prelude.Clock.{Uuid, Instant}
use seqret_be.Prelude.Table.{find, sort}
use seqret_be.Prelude.Pointwise.{first_where}
use seqret_be.Prelude.Transaction.{
  Command, Result, ok, err, conflict, not_found, no_result, integrity_error,
}
use seqret_be.Access.Model.{
  ParticipantRole, JobParticipant, InvitationStatus, is_accepted, Invitation, Access,
  participant_key, invitation_key,
}
use seqret_be.Access.Links.{AccessLinkResponse, issue_access_link}
use seqret_be.Access.Authenticate.{Actor}
use seqret_be.Access.Invitations.{
  Ambient, load_active_access_link, write_invitation, to_response, InvitationResponse,
  InvitationIssued, materialize_expiry, role_permissions, pending_invitation_permissions,
}
use seqret_be.Access.Answers.{
  load_invitation, is_issued_by, revoke_invitations_issued_by, revoke_link_of, concerns,
}

-- The invitation as a reissue leaves it.
abbrev pub reissued : AccessLinkResponse → Instant → Invitation → Invitation
reissued link now i = record i {
  access_link_id = link.id;
  status = InvitationStatus.pending;
  issued_at = now;
  expires_at = link.expires_at;
  resolved_at = none;
}

module _ (hash_secret : String → String) where
  -- `reissue_invitation`
  unfoldable pub reissue_invitation :
      Ambient → (job_id invitation_id : Uuid) → Actor → Command Access InvitationIssued
  reissue_invitation a job_id id actor db =
      elim (load_invitation (is_issued_by job_id actor.participant_id) id a.now db) [
        | err x ↦ err x
        | ok (i, invitee) ↦ elim (load_active_access_link actor.participant_id a.issued_at db) [
          | none ↦ err conflict
          | some issuer_link ↦
              elim (revoke_invitations_issued_by a.revoked_at a.issued_at actor.participant_id
                i.job_id i.invitee_participant_id (write_invitation i db)) [
                  | err x ↦ err x
                  | ok (_, db1) ↦ elim (revoke_link_of a.revoked_at i actor.participant_id db1) [
                    | err x ↦ err x
                    | ok (_, db2) ↦
                        elim (issue_access_link hash_secret a.link invitee
                          (some actor.participant_id) (some "invitation_reissued") (some i.id)
                          (some issuer_link.expires_at) db2) [
                            | err x ↦ err x
                            | ok (link, db3) ↦
                                if ltb a.issued_at link.expires_at
                                then ok (
                                  record {
                                    invitation = to_response (reissued link a.issued_at i) invitee;
                                    access_link = link;
                                  },
                                  write_invitation (reissued link a.issued_at i) db3,
                                )
                                else err integrity_error
                          ]
                  ]
                ]
        ]
      ]

-- `ORDER BY issued_at, id`
abbrev pub issued_before : Invitation → Invitation → Bool
issued_before i j = ltb i.issued_at j.issued_at || (i.issued_at == j.issued_at && leb i.id j.id)

-- The rows with their invitees.
abbrev pub responses : List JobParticipant → List Invitation → Result (List InvitationResponse)
responses ps [] = ok []
responses ps (i ∷ is) =
    let rest = responses ps is in
    elim (find participant_key i.invitee_participant_id ps) [
      | none ↦ err no_result
      | some p ↦ elim rest [ err x ↦ err x | ok xs ↦ ok (to_response i p ∷ xs) ]
    ]

abbrev pub write_all : List Invitation → Access → Access
write_all [] db = db
write_all (i ∷ is) db = write_all is (write_invitation i db)

-- `list_invitations`
unfoldable pub list_invitations :
    (now : Instant) (job_id : Uuid) → Actor → Command Access (List InvitationResponse)
list_invitations now job_id actor db =
    let rows = map (materialize_expiry now) (
      sort invitation_key issued_before
        (filter (concerns job_id actor.participant_id) db.invitations)) in
    elim (responses db.participants rows) [ err x ↦ err x | ok xs ↦ ok (xs, write_all rows db) ]

-- `class ActorSelfResponse`
pub record ActorSelf : Type 0 where
  pub job_id : Uuid
  pub participant_id : Uuid
  pub role : ParticipantRole
  pub display_name : String
  pub permissions : List String
  pub expires_at : Instant
  pub invitation : Option InvitationResponse

abbrev pub permissions_of : Option Invitation → ParticipantRole → List String
permissions_of none role = role_permissions role
permissions_of (some i) role =
    if is_accepted i.status then role_permissions role else pending_invitation_permissions

-- `get_actor_self`
unfoldable pub get_actor_self : (now : Instant) → Actor → Command Access ActorSelf
get_actor_self now actor db = elim (load_active_access_link actor.participant_id now db) [
  | none ↦ err not_found
  | some link ↦ elim (find participant_key link.participant_id db.participants) [
    | none ↦ err no_result
    | some p ↦
        elim (first_where (λ i. i.invitee_participant_id == actor.participant_id) db.invitations) [
          | none ↦ ok (
            record {
              job_id = p.job_id;
              participant_id = actor.participant_id;
              role = p.role;
              display_name = p.display_name;
              permissions = permissions_of none actor.participant_role;
              expires_at = link.expires_at;
              invitation = none;
            },
            db,
          )
          | some i ↦
              let i' = materialize_expiry now i in
              ok (
                record {
                  job_id = p.job_id;
                  participant_id = actor.participant_id;
                  role = p.role;
                  display_name = p.display_name;
                  permissions = permissions_of (some i') actor.participant_role;
                  expires_at = link.expires_at;
                  invitation = some (to_response i' p);
                },
                write_invitation i' db,
              )
        ]
  ]
]
