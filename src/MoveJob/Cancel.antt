-- ===== src/MoveJob/Cancel.antt =====
-- move_job/service.py: the cancellation of a job, and how far its company takes part.
use seqret_be.Prelude.{
  ℕ, Bool, ◌&&◌, ◌||◌, Option, none, some, List, [], ◌∷◌, map, ltb, leb, ◌==◌, if◌then◌else◌,
  is_none, filter, ◌≡◌, subst, inl, inr, arith,
}
use seqret_be.Prelude.Clock.{Uuid, Instant}
use seqret_be.Prelude.Table.{find, put, sort}
use seqret_be.Prelude.Transaction.{Command, ok, err, not_found, conflict, Result-cases}
use seqret_be.BackgroundJob.Model.{canceled, is_completed}
use seqret_be.Access.Model.{
  is_company, JobParticipant, AccessToken, link_key, InvitationStatus, pending, accepted, declined,
  expired, revoked, Invitation, Access,
}
use seqret_be.Access.Links.{revoke_access_link}
use seqret_be.Access.Answers.{resolved}
use seqret_be.Access.Revocation.{Narrows, Narrows-refl, Narrows-trans}
use seqret_be.Access.RevokedLinks.{revoke_access_link-Narrows}
use seqret_be.MoveJob.Listing.{MoveJob, same_status, exists}

-- `class CompanyParticipationStatus`
pub data CompanyParticipationStatus : Type 0 where
  not_invited invited joined company_declined invitation_expired invitation_revoked :
      CompanyParticipationStatus

-- `_company_status_from_invitation`
abbrev pub company_status_from_invitation :
    Instant → List JobParticipant → Option Invitation → CompanyParticipationStatus
company_status_from_invitation now participants none =
    if exists (λ p. is_company p.role) participants then joined else not_invited
company_status_from_invitation now participants (some i) = elim i.status [
  | pending ↦ if leb i.expires_at now then invitation_expired else invited
  | accepted ↦ joined
  | declined ↦ company_declined
  | expired ↦ invitation_expired
  | revoked ↦ invitation_revoked
]

-- What a cancellation reads and writes; `quoted` are the jobs that have a scope proposal.
pub record Board : Type 0 where
  pub jobs : List MoveJob
  pub quoted : List Uuid
  pub access : Access

abbrev pub move_job_key : MoveJob → ℕ
move_job_key j = j.id

abbrev pub revoked_in : Uuid → Instant → Invitation → Invitation
revoked_in job_id now i = if i.job_id == job_id then resolved InvitationStatus.revoked now i else i

-- `ORDER BY created_at, id`
abbrev pub link_before : AccessToken → AccessToken → Bool
link_before l m = ltb l.created_at m.created_at || (l.created_at == m.created_at && leb l.id m.id)

-- The active links of the participants of the job.
abbrev pub is_job_link : Uuid → List JobParticipant → AccessToken → Bool
is_job_link job_id participants l =
    is_none l.revoked_at
    && exists (λ p. p.id == l.participant_id && p.job_id == job_id) participants

unfoldable pub revoke_links :
    (now : Uuid → Instant) (actor : Uuid) → List AccessToken → Command Access (Unit {0})
revoke_links now actor [] db = ok (tt, db)
revoke_links now actor (l ∷ ls) db =
    elim (revoke_access_link now l actor (some "job_canceled") db) [
      | err e ↦ err e
      | ok (_, db') ↦ revoke_links now actor ls db'
    ]

-- `cancel_move_job`
unfoldable pub cancel_move_job :
    (now : Instant) (revoked_at : Uuid → Instant) (job_id actor : Uuid) → Command Board (Unit {0})
cancel_move_job now revoked_at job_id actor db = elim (find move_job_key job_id db.jobs) [
  | none ↦ err not_found
  | some j ↦
      if same_status j.status canceled
      then ok (tt, db)
      else if is_completed j.status || exists (λ id. id == job_id) db.quoted
      then err conflict
      else (let access : Access = record (db.access) {
        invitations = map (revoked_in job_id now) db.access.invitations;
      } in
          elim (revoke_links revoked_at actor
            (sort link_key link_before
              (filter (is_job_link job_id db.access.participants) db.access.links))
            access) [
              | err e ↦ err e
              | ok (_, access') ↦ ok (
                tt,
                record db {
                  jobs = put move_job_key (record j { status = canceled }) db.jobs;
                  access = access';
                },
              )
            ])
]

-- Revoking one link after the other opens nothing.
pub revoke_links-Narrows :
    (now : Uuid → Instant) (actor : Uuid) (ls : List AccessToken) (db db' : Access)
    → revoke_links now actor ls db ≡ ok (tt, db')
    → Narrows db db'
unfolding revoke_links
revoke_links-Narrows now actor [] db db' h =
    let same : db ≡ db' = ground arith in subst (Narrows db) same (Narrows-refl db)
revoke_links-Narrows now actor (l ∷ ls) db db' h =
    elim (Result-cases (revoke_access_link now l actor (some "job_canceled") db)) [
      | inr (e, raised) ↦ absurd (ground (arith, raised))
      | inl ((_, mid), done) ↦
          Narrows-trans db mid db'
            (revoke_access_link-Narrows now l actor (some "job_canceled") db mid done)
            (revoke_links-Narrows now actor ls mid db' (ground (arith, done)))
    ]
