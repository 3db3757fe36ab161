-- ===== src/Access/RevokedLinks.antt =====
-- access/service.py: what `revoke_access_link` leaves behind.
use seqret_be.Prelude.{
  false, Option, none, some, ◌≡◌, refl, sym, ap, ◌∙◌, subst, inl, inr, arith, is_none, Bool-cases,
  Option-cases,
}
use seqret_be.Prelude.Clock.{Uuid, Instant}
use seqret_be.Prelude.Table.{find, put, find-put, find_key}
use seqret_be.Prelude.Pointwise.{Pointwise, Pointwise-refl, put-Pointwise}
use seqret_be.Prelude.Transaction.{ok}
use Prim.Native.String.{String}
use seqret_be.Access.Model.{AccessToken, Invitation, Access, participant_key, link_key}
use seqret_be.Access.Links.{revoke_access_link, revoke_workspace_memberships}
use seqret_be.Access.Answers.{revoke_link_of}
use seqret_be.Access.Revocation.{
  KeepsLink, KeepsLink-refl, KeepsInvitation, KeepsInvitation-refl, Narrows, Narrows-refl,
  IsLinkShut,
}

-- A revocation that wrote nothing, or that closed the row of the link.
pub data LinkRevoked (now : Uuid → Instant) (link : AccessToken) (db db' : Access) : Type 0 where
  closed_before :
      ((l : AccessToken)
        → find link_key link.id db.links ≡ some l
        → link ≡ l
        → is_none l.revoked_at ≡ false)
      → db' ≡ db
      → LinkRevoked now link db db'
  closed :
      (l : AccessToken)
      → find link_key link.id db.links ≡ some l
      → db'.links ≡ put link_key (record l { revoked_at = some (now l.id) }) db.links
      → db'.invitations ≡ db.invitations
      → db'.participants ≡ db.participants
      → LinkRevoked now link db db'

pub revoke_access_link_inv :
    (now : Uuid → Instant) (link : AccessToken) (actor : Uuid) (operation : Option String)
    (db db' : Access)
    → revoke_access_link now link actor operation db ≡ ok (tt, db')
    → LinkRevoked now link db db'
unfolding revoke_access_link revoke_workspace_memberships
revoke_access_link_inv now link actor operation db db' h =
    elim (Bool-cases (is_none link.revoked_at)) [
      | inr closed_ ↦
          closed_before (λ l found same. subst (λ z. is_none z.revoked_at ≡ false) same closed_)
            (ground arith)
      | inl open_ ↦ elim (Option-cases (find link_key link.id db.links)) [
        | inl missing ↦ closed_before (λ l found same. absurd (ground arith)) (ground arith)
        | inr (l, found) ↦ elim (Bool-cases (is_none l.revoked_at)) [
          | inr closed_ ↦ closed_before (λ l' found' same. ground arith) (ground arith)
          | inl open_row ↦
              elim (Option-cases (find participant_key l.participant_id db.participants)) [
                | inl missing ↦ absurd (ground arith)
                | inr (p, holder) ↦ closed l found (ground arith) (ground arith) (ground arith)
              ]
        ]
      ]
    ]

pub revoke_access_link-Narrows :
    (now : Uuid → Instant) (link : AccessToken) (actor : Uuid) (operation : Option String)
    (db db' : Access)
    → revoke_access_link now link actor operation db ≡ ok (tt, db')
    → Narrows db db'
revoke_access_link-Narrows now link actor operation db db' h =
    elim (revoke_access_link_inv now link actor operation db db' h) [
      | closed_before _ same ↦ subst (Narrows db) (sym same) (Narrows-refl db)
      | closed l found links invitations participants ↦ record {
        links_narrow = subst (Pointwise KeepsLink db.links) (sym links) (
            put-Pointwise KeepsLink link_key KeepsLink-refl l
              (record l { revoked_at = some (now l.id) }) db.links
              (subst (λ k. find link_key k db.links ≡ some l)
                (sym (find_key link_key link.id db.links l found)) found)
              (record {
                id_kept = refl;
                participant_kept = refl;
                hash_kept = refl;
                expiry_kept = refl;
                stays_revoked = λ _. refl;
              }));
        invitations_narrow =
            subst (Pointwise KeepsInvitation db.invitations) (sym invitations)
              (Pointwise-refl KeepsInvitation KeepsInvitation-refl db.invitations);
        participants_kept = participants;
      }
    ]

pub revoke_link_of-Narrows :
    (now : Uuid → Instant) (i : Invitation) (actor : Uuid) (db db' : Access)
    → revoke_link_of now i actor db ≡ ok (tt, db')
    → Narrows db db'
revoke_link_of-Narrows now i actor db db' h =
    elim (Option-cases (find link_key i.access_link_id db.links)) [
      | inl missing ↦ absurd (ground arith)
      | inr (l, found) ↦ revoke_access_link-Narrows now l actor none db db' (ground arith)
    ]

-- The link of the invitation is revoked then.
pub revoke_link_of_shuts :
    (now : Uuid → Instant) (i : Invitation) (actor : Uuid) (db db' : Access)
    → revoke_link_of now i actor db ≡ ok (tt, db')
    → IsLinkShut i.access_link_id db'
revoke_link_of_shuts now i actor db db' h =
    elim (Option-cases (find link_key i.access_link_id db.links)) [
      | inl missing ↦ absurd (ground arith)
      | inr (l, found) ↦
          let is_key = find_key link_key i.access_link_id db.links l found in
          let by_id = subst (λ k. find link_key k db.links ≡ some l) (sym is_key) found in
          elim (revoke_access_link_inv now l actor none db db' (ground arith)) [
            | closed_before shut same ↦ (
              l,
              subst (λ z. find link_key i.access_link_id z.links ≡ some l) (sym same) found,
              shut l by_id refl,
            )
            | closed l' found' links _ _ ↦ (
              record l' { revoked_at = some (now l'.id) },
              ap (find link_key i.access_link_id) links
                  ∙ find-put link_key i.access_link_id (record l' { revoked_at = some (now l'.id) })
                      l db.links found (find_key link_key l.id db.links l' found' ∙ is_key),
              refl,
            )
          ]
    ]
