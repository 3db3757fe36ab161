-- ===== src/Access/Delegation.antt =====
-- access/invitations.py: what an invitation hands on, against what its issuer has.
use Prim.Native.String.{String}
use seqret_be.Prelude.{◌+◌, ◌≤◌, min, Option, none, some, ◌≡◌, inl, inr, arith, Bool-cases}
use seqret_be.Prelude.Clock.{Uuid, Instant}
use seqret_be.Prelude.Pointwise.{first_where}
use seqret_be.Prelude.Transaction.{ok}
use seqret_be.Outbox.{or_hex as or_text}
use seqret_be.Access.Model.{JobParticipant, AccessToken, InvitationStatus, Access}
use seqret_be.Access.Links.{
  access_token_ttl, expiry_of, new_link, may_insert, AccessLinkResponse, issue_access_link,
}
use seqret_be.Access.Authenticate.{Actor}
use seqret_be.Access.Invitations.{
  Ambient, InvitationIssued, invitable_role, load_active_access_link, invites,
}

-- A link that was issued under a limit.
pub issue_bounded :
    (hash_secret : String → String) (a : Ambient) (p : JobParticipant) (actor : Option Uuid)
    (operation : Option String) (invitation_id : Option Uuid) (limit : Instant) (db db' : Access)
    (link : AccessLinkResponse)
    → issue_access_link hash_secret a.link p actor operation invitation_id (some limit) db
      ≡ ok (link, db')
    → (link.expires_at ≤ limit)
      × (link.expires_at ≤ a.link.now + access_token_ttl)
      × (link.role ≡ p.role)
unfolding issue_access_link
issue_bounded hash_secret a p actor operation invitation_id limit db db' link h =
    elim (Bool-cases (
      may_insert
        (new_link (hash_secret a.link.secret) a.link p.id (expiry_of a.link.now (some limit)))
        db.links)) [
          | inr refused ↦ absurd (ground (arith, refused))
          | inl fine ↦
              let e : link.expires_at ≡ min (a.link.now + access_token_ttl) limit =
                ground (arith, fine) in
              (omega arith, omega arith, ground (arith, fine))
        ]

-- What the holder of an active link hands on.
pub record IsDelegated (a : Ambient) (job_id : Uuid) (actor : Actor) (db : Access)
    (x : InvitationIssued) : Type 0 where
  pub own : AccessToken
  pub own_found : load_active_access_link actor.participant_id a.now db ≡ some own
  pub within_own : x.access_link.expires_at ≤ own.expires_at
  pub within_ttl : x.access_link.expires_at ≤ a.link.now + access_token_ttl
  pub ends_together : x.invitation.expires_at ≡ x.access_link.expires_at
  pub next_role : invitable_role actor.participant_role ≡ some x.invitation.role
  pub same_role_of_link : x.access_link.role ≡ x.invitation.role
  pub first_of_role : first_where (invites job_id x.invitation.role) db.invitations ≡ none
  pub starts_pending : x.invitation.status ≡ InvitationStatus.pending
