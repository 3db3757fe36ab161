-- ===== src/Access/Links.antt =====
-- access/service.py: issuing, rotating and revoking an access link.
use Prim.Native.String.{String}
use package.text.Mathlib.Text.{◌==◌ as str_eq}
use seqret_be.Prelude.{
  ℕ, ◌+◌, ◌*◌, min, Bool, not, ◌&&◌, Option, none, some, List, [], ◌∷◌, ◌++◌, ltb, ◌==◌,
  if◌then◌else◌, is_none, keep, map,
}
use seqret_be.Prelude.Clock.{Uuid, Instant, seconds}
use seqret_be.Prelude.Table.{find, put}
use seqret_be.Prelude.Pointwise.{first_where}
use seqret_be.Prelude.Transaction.{Command, ok, err, no_result, integrity_error, invalid_token}
use seqret_be.Contracts.Events.{Payload, uuid, text}
use seqret_be.Access.Model.{
  ParticipantRole, role_value, JobParticipant, AccessToken, WorkspaceMembership, AuditEventType,
  access_link_issued, access_link_revoked, Access, participant_key, link_key,
}

-- `ACCESS_TOKEN_TTL`, seven days
abbrev pub access_token_ttl : ℕ
access_token_ttl = seconds (7 * 24 * 60 * 60)

-- `add_audit_event` of completion/service.py
abbrev pub add_audit_event : Uuid → AuditEventType → Option Uuid → Payload → Access → Access
add_audit_event job_id event_type actor payload db = record db {
  audits =
      record {
        job_id = job_id;
        event_type = event_type;
        actor_participant_id = actor;
        payload = payload;
      }
      ∷ db.audits;
}

-- `class AccessLinkResponse`
pub record AccessLinkResponse : Type 0 where
  pub id : Uuid
  pub job_id : Uuid
  pub participant_id : Uuid
  pub role : ParticipantRole
  pub secret : String
  pub expires_at : Instant

-- What an issue gets from the process and the database: the row's id, `secrets.token_urlsafe(32)`,
-- `utc_now()` and `now()`.
pub record Fresh : Type 0 where
  pub id : Uuid
  pub secret : String
  pub now : Instant
  pub created_at : Instant

-- `min(expiry, expires_at_limit)`, if there is a limit
abbrev pub expiry_of : Instant → Option Instant → Instant
expiry_of now none = now + access_token_ttl
expiry_of now (some limit) = min (now + access_token_ttl) limit

abbrev pub new_link : (hash : String) → Fresh → Uuid → Instant → AccessToken
new_link hash f participant_id expiry = record {
  id = f.id;
  participant_id = participant_id;
  token_hash = hash;
  expires_at = expiry;
  revoked_at = none;
  last_used_at = none;
  rate_window_started_at = none;
  rate_window_count = 0;
  created_at = f.created_at;
}

-- `uq_participant_access_token_active_participant`
abbrev pub is_active_for : Uuid → AccessToken → Bool
is_active_for participant_id l = l.participant_id == participant_id && is_none l.revoked_at

abbrev pub has_hash : String → AccessToken → Bool
has_hash hash l = str_eq l.token_hash hash

-- The constraints that an inserted link meets: one active link for a participant, a hash that no
-- other link has, and an expiry after the creation.
abbrev pub may_insert : AccessToken → List AccessToken → Bool
may_insert l links =
    is_none (first_where (is_active_for l.participant_id) links)
    && is_none (first_where (has_hash l.token_hash) links)
    && ltb l.created_at l.expires_at

abbrev pub named : String → Option String → Payload
named name none = []
named name (some value) = (name, text value) ∷ []

abbrev pub identified : String → Option Uuid → Payload
identified name none = []
identified name (some id) = (name, uuid id) ∷ []

abbrev pub link_payload : Uuid → JobParticipant → Payload
link_payload link_id p =
    ("access_link_id", uuid link_id)
    ∷ ("participant_id", uuid p.id)
    ∷ ("role", text (role_value p.role))
    ∷ []

module _ (hash_secret : String → String) where
  -- `issue_access_link`
  unfoldable pub issue_access_link :
      Fresh
      → JobParticipant
      → (actor : Option Uuid) (operation : Option String) (invitation_id : Option Uuid)
      → (expires_at_limit : Option Instant) → Command Access AccessLinkResponse
  issue_access_link f p actor operation invitation_id limit db =
      let expiry = expiry_of f.now limit in
      let l = new_link (hash_secret f.secret) f p.id expiry in
      if may_insert l db.links
      then ok (
        record {
          id = f.id;
          job_id = p.job_id;
          participant_id = p.id;
          role = p.role;
          secret = f.secret;
          expires_at = expiry;
        },
        add_audit_event p.job_id access_link_issued actor
            (link_payload f.id p
              ++ named "operation" operation
              ++ identified "invitation_id" invitation_id)
            (record db { links = l ∷ db.links }),
      )
      else err integrity_error

  -- The caller's own link: the `WHERE` of a rotation.
  abbrev pub is_callers : JobParticipant → String → Instant → AccessToken → Bool
  is_callers p secret now l =
      l.participant_id == p.id
      && is_none l.revoked_at
      && has_hash (hash_secret secret) l
      && ltb now l.expires_at

  -- `rotate_access_link`
  unfoldable pub rotate_access_link :
      (new_secret : String) (now : Instant)
      → JobParticipant
      → (current_secret : String) (actor : Uuid) → Command Access AccessLinkResponse
  rotate_access_link new_secret now p current_secret actor db =
      elim (first_where (is_callers p current_secret now) db.links) [
        | none ↦ err invalid_token
        | some l ↦
            if is_none (first_where (has_hash (hash_secret new_secret)) db.links)
            then ok (
              record {
                id = l.id;
                job_id = p.job_id;
                participant_id = p.id;
                role = p.role;
                secret = new_secret;
                expires_at = l.expires_at;
              },
              add_audit_event p.job_id access_link_issued (some actor)
                  (link_payload l.id p ++ ("operation", text "self_rotation") ∷ [])
                  (record db {
                    links =
                        put link_key (record l { token_hash = hash_secret new_secret }) db.links;
                  }),
            )
            else err integrity_error
      ]

-- `revoke_workspace_memberships` of access/workspace.py
abbrev pub closed_membership : Instant → Uuid → WorkspaceMembership → WorkspaceMembership
closed_membership now participant_id m =
    if m.participant_id == participant_id && is_none m.revoked_at
    then record m { revoked_at = some now }
    else m

unfoldable pub revoke_workspace_memberships : Instant → Uuid → Access → Access
revoke_workspace_memberships now participant_id db = record db {
  memberships = map (closed_membership now participant_id) db.memberships;
}

abbrev pub revoked_payload : AccessToken → Option String → Payload
revoked_payload l operation =
    ("access_link_id", uuid l.id)
    ∷ ("participant_id", uuid l.participant_id)
    ∷ named "operation" operation

-- `revoke_access_link` on a link of the table. `now` is when that link is revoked.
unfoldable pub revoke_access_link :
    (now : Uuid → Instant)
    → AccessToken
    → (actor : Uuid) (operation : Option String) → Command Access (Unit {0})
unfolding revoke_workspace_memberships
revoke_access_link now link actor operation db =
    if not (is_none link.revoked_at)
    then ok (tt, db)
    else elim (keep (λ l. is_none l.revoked_at) (find link_key link.id db.links)) [
      | none ↦ ok (tt, db)
      | some l ↦ elim (find participant_key l.participant_id db.participants) [
        | none ↦ err no_result
        | some p ↦ ok (
          tt,
          add_audit_event p.job_id access_link_revoked (some actor) (revoked_payload l operation) (
              revoke_workspace_memberships (now l.id) p.id (record db {
                links = put link_key (record l { revoked_at = some (now l.id) }) db.links;
              })),
        )
      ]
    ]
