-- ===== src/Access/RevokedTrees.antt =====
-- access/invitations.py: what `_revoke_invitation_tree` and `revoke_invitation` leave behind.
use seqret_be.Prelude.{
  ℕ, zero, suc, Bool, true, some, List, [], ◌∷◌, ◌≡◌, refl, subst, inl, inr, arith, filter, All,
  All-map_pred, All-filter, Bool-cases,
}
use seqret_be.Prelude.Clock.{Uuid, Instant}
use seqret_be.Prelude.Table.{find, find-put, find-IsKeyed}
use seqret_be.Prelude.Transaction.{Command, ok, Result-cases}
use seqret_be.Access.Model.{InvitationStatus, is_company, Invitation, Access, invitation_key}
use seqret_be.Access.Invitations.{write_invitation}
use seqret_be.Access.Answers.{
  revoke_link_of, revoke_each, revoke_invitation_tree, resolved, is_issued_by,
}
use seqret_be.Access.Revocation.{
  KeepsInvitation-refl, Narrows, Narrows-refl, Narrows-trans, IsKnown, IsKnown-Narrows,
  IsKeyedAccess, IsKeyedAccess-Narrows, IsShut, IsShut-Narrows, write_invitation-Narrows,
}
use seqret_be.Access.RevokedLinks.{revoke_link_of-Narrows, revoke_link_of_shuts}

-- A known invitation is revoked with its link, and nothing comes back.
abbrev Shuts : (Invitation → Command Access (Unit {0})) → Type 0
Shuts revoke =
    (i : Invitation) (db db' : Access)
    → IsKeyedAccess db
    → IsKnown i db
    → revoke i db ≡ ok (tt, db')
    → Narrows db db' × IsShut i db'

pub revoke_each-Shuts :
    (revoke : Invitation → Command Access (Unit {0}))
    → Shuts revoke
    → (rows : List Invitation) (db db' : Access) → IsKeyedAccess db
    → All (λ i. IsKnown i db) rows
    → revoke_each revoke rows db ≡ ok (tt, db')
    → Narrows db db' × All (λ i. IsShut i db') rows
unfolding revoke_each
revoke_each-Shuts revoke step [] db db' keyed known h =
    let same : db ≡ db' = ground arith in (subst (Narrows db) same (Narrows-refl db), tt)
revoke_each-Shuts revoke step (i ∷ rows) db db' keyed known h = elim (Result-cases (revoke i db)) [
  | inr (e, raised) ↦ absurd (ground (arith, raised))
  | inl ((_, mid), revoked) ↦
      let (narrows, shut) = step i db mid keyed known.0 revoked in
      let known' =
        All-map_pred (λ j. IsKnown j db) (λ j. IsKnown j mid)
          (λ j k. IsKnown-Narrows j db mid k narrows) rows known.1 in
      let (narrows', shut') =
        revoke_each-Shuts revoke step rows mid db' (IsKeyedAccess-Narrows db mid keyed narrows)
          known' (ground (arith, revoked)) in
      (Narrows-trans db mid db' narrows narrows', (IsShut-Narrows i mid db' shut narrows', shut'))
]

-- All rows of the table are known.
pub All-IsKnown :
    (db : Access) (p : Invitation → Bool)
    → IsKeyedAccess db
    → All (λ i. IsKnown i db) (filter p db.invitations)
All-IsKnown db p keyed =
    All-filter (λ i. IsKnown i db) p db.invitations
      (All-map_pred (λ i. find invitation_key i.id db.invitations ≡ some i) (λ i. IsKnown i db)
        (λ i found. (i, found, KeepsInvitation-refl i)) db.invitations
        (find-IsKeyed invitation_key db.invitations keyed.1))

-- Writing a known invitation as revoked.
pub write_revoked-Narrows :
    (now : Instant) (i : Invitation) (db : Access)
    → IsKnown i db
    → Narrows db (write_invitation (resolved InvitationStatus.revoked now i) db)
write_revoked-Narrows now i db known =
    write_invitation-Narrows i (resolved InvitationStatus.revoked now i) db known
      (record {
        id_kept = refl;
        job_kept = refl;
        issuer_kept = refl;
        invitee_kept = refl;
        link_kept = refl;
        role_kept = refl;
        stays_revoked = λ _. refl;
      })
      (λ _ _ _. refl)

-- The end of a tree: the invitation is written, and its link is revoked.
IsShut-last :
    (revoked_at : Uuid → Instant) (now : Instant) (actor : Uuid) (i : Invitation) (db db' : Access)
    → IsKnown i db
    → revoke_link_of revoked_at i actor
        (write_invitation (resolved InvitationStatus.revoked now i) db)
      ≡ ok (tt, db')
    → Narrows db db' × IsShut i db'
IsShut-last revoked_at now actor i db db' (r, found, kept) h =
    let i' = resolved InvitationStatus.revoked now i in
    let mid = write_invitation i' db in
    let last = revoke_link_of-Narrows revoked_at i actor mid db' h in
    let first = write_revoked-Narrows now i db (r, found, kept) in
    let written : IsKnown i' mid =
      (i', find-put invitation_key i.id i' r db.invitations found refl, KeepsInvitation-refl i') in
    let (r', found', kept') = IsKnown-Narrows i' mid db' written last in
    (
      Narrows-trans db mid db' first last,
      ((r', found', kept'.stays_revoked refl), revoke_link_of_shuts revoked_at i actor mid db' h),
    )

-- With an invitation of a company go those that the company issued.
abbrev ChildrenShut : Invitation → (db db' : Access) → Type 0
ChildrenShut i db db' =
    is_company i.role ≡ true
    → All (λ j. IsShut j db')
        (filter (is_issued_by i.job_id i.invitee_participant_id) db.invitations)

pub tree-Shuts :
    (depth : ℕ) (revoked_at : Uuid → Instant) (now : Instant) (actor : Uuid) (i : Invitation)
    (db db' : Access)
    → IsKeyedAccess db
    → IsKnown i db
    → revoke_invitation_tree depth revoked_at now actor i db ≡ ok (tt, db')
    → Narrows db db' × IsShut i db' × ChildrenShut i db db'
unfolding revoke_invitation_tree
tree-Shuts zero revoked_at now actor i db db' keyed known h = absurd (ground arith)
tree-Shuts (suc depth) revoked_at now actor i db db' keyed known h =
    elim (Bool-cases (is_company i.role)) [
      | inr alone ↦
          let (narrows, shut) = IsShut-last revoked_at now actor i db db' known (ground arith) in
          (narrows, shut, λ company. absurd (ground arith))
      | inl company ↦
          let rows = filter (is_issued_by i.job_id i.invitee_participant_id) db.invitations in
          let revoke = revoke_invitation_tree depth revoked_at now actor in
          elim (Result-cases (revoke_each revoke rows db)) [
            | inr (e, raised) ↦ absurd (ground (arith, raised))
            | inl ((_, mid), children) ↦
                let (narrows, shut_rows) =
                  revoke_each-Shuts revoke
                    (λ j a b k n e.
                      let (x, y, _) = tree-Shuts depth revoked_at now actor j a b k n e in (x, y))
                    rows db mid keyed
                    (All-IsKnown db (is_issued_by i.job_id i.invitee_participant_id) keyed)
                    children in
                let (narrows', shut) =
                  IsShut-last revoked_at now actor i mid db'
                    (IsKnown-Narrows i db mid known narrows) (ground (arith, children)) in
                (
                  Narrows-trans db mid db' narrows narrows',
                  shut,
                  λ _.
                      All-map_pred (λ j. IsShut j mid) (λ j. IsShut j db')
                        (λ j s. IsShut-Narrows j mid db' s narrows') rows shut_rows,
                )
          ]
    ]
