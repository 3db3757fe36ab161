-- ===== src/Access/Refusal.antt =====
-- access/invitations.py and access/service.py together: a revoked capability no longer opens.
use Prim.Native.String.{String}
use seqret_be.Prelude.{
  ℕ, Bool, true, false, ◌&&◌, Option, some, ◌≡◌, ◌≢◌, ◌⊎◌, refl, sym, ap, ◌∙◌, subst, inl, inr,
  arith, ◌==◌, leb, if◌then◌else◌, is_none, keep, filter, Bool-cases, Option-cases,
}
use package.text.Mathlib.Text.{◌==◌ as str_eq}
use seqret_be.Prelude.Clock.{Uuid, Instant}
use seqret_be.Prelude.Table.{find, find-put, find-put_ne, find_key, find-All, find-filter}
use seqret_be.Prelude.Pointwise.{first_where, first_where-Pointwise, find-first_where}
use seqret_be.Prelude.Transaction.{ok, err, invalid_token, Result-cases}
use seqret_be.Access.Model.{
  AccessToken, InvitationStatus, pending, accepted, declined, expired, revoked, is_pending,
  is_revoked, is_company, Invitation, Access, participant_key, link_key, invitation_key,
}
use seqret_be.Access.Links.{has_hash}
use seqret_be.Access.Authenticate.{Actor, CacheAnswer, is_usable, authenticate_access_token}
use seqret_be.Access.Invitations.{Ambient, InvitationResponse, materialize_expiry, write_invitation}
use seqret_be.Access.Answers.{revoke_invitation_tree, is_issued_by, revoke_invitation, tree_depth}
use seqret_be.Access.Revocation.{
  KeepsLink, KeepsInvitation, KeepsInvitation-refl, Narrows, Narrows-trans, IsKeyedAccess,
  IsKeyedAccess-Narrows, IsKnown, IsLinkShut, IsShut, write_invitation-Narrows,
}
use seqret_be.Access.RevokedTrees.{tree-Shuts}

-- The row of a link keeps its hash, so a secret finds the row that it found before.
revoked_link_is_refused :
    (hash_secret : String → String) (l : AccessToken) (secret : String) (cache : Option CacheAnswer)
    (limit window_seconds : ℕ) (allow_pending : Bool) (now : Instant) (db db' : Access)
    → IsKeyedAccess db
    → first_where (has_hash (hash_secret secret)) db.links ≡ some l
    → Narrows db db'
    → IsLinkShut l.id db'
    → authenticate_access_token hash_secret secret cache limit window_seconds allow_pending now db'
      ≡ err invalid_token
unfolding authenticate_access_token
revoked_link_is_refused hash_secret l secret cache limit window_seconds allow_pending now db db'
      keyed found n (s, at_id, shut) =
    let (y, found', kept) =
      first_where-Pointwise KeepsLink (has_hash (hash_secret secret))
        (λ x y h. ap (λ z. str_eq z (hash_secret secret)) h.hash_kept) db.links db'.links l
        n.links_narrow found in
    let by_id =
      find-first_where link_key (has_hash (hash_secret secret)) db'.links y
        (IsKeyedAccess-Narrows db db' keyed n).0 found' in
    let same : some y ≡ some s =
      sym (subst (λ k. find link_key k db'.links ≡ some y) kept.id_kept by_id) ∙ at_id in
    let closed : is_none y.revoked_at ≡ false = ground arith in
    let unusable : is_usable (hash_secret secret) now y ≡ false = ground arith in
    ground (arith, found', unusable)

pending_is_open : (s : InvitationStatus) → is_pending s ≡ true → is_revoked s ≡ false
pending_is_open pending h = refl
pending_is_open accepted h = refl
pending_is_open declined h = refl
pending_is_open expired h = refl
pending_is_open revoked h = sym h

materialized_if :
    (late : Bool) (i : Invitation)
    → (late ≡ true → is_pending i.status ≡ true)
    → KeepsInvitation i (if late then record i { status = InvitationStatus.expired } else i)
      × (is_revoked ((if late then record i { status = InvitationStatus.expired } else i).status)
          ≡ is_revoked i.status)
materialized_if false i h = (KeepsInvitation-refl i, refl)
materialized_if true i h =
    let is_open = pending_is_open i.status (h refl) in
    (
      record {
        id_kept = refl;
        job_kept = refl;
        issuer_kept = refl;
        invitee_kept = refl;
        link_kept = refl;
        role_kept = refl;
        stays_revoked = λ r. absurd (ground arith);
      },
      sym is_open,
    )

-- An invitation that ran out keeps its parties, and is no more revoked than before.
pub materialize_expiry-Keeps :
    (now : Instant) (i : Invitation)
    → KeepsInvitation i (materialize_expiry now i)
      × (is_revoked ((materialize_expiry now i).status) ≡ is_revoked i.status)
materialize_expiry-Keeps now i =
    materialized_if (is_pending i.status && leb i.expires_at now) i (λ h. ground arith)

-- The invitations that the revocation of `i` reaches: `i` itself and, when it is a company's, those
-- that the company issued.
abbrev pub IsReached : Invitation → Invitation → Type 0
IsReached i j =
    (j ≡ i)
    ⊎ ((is_company i.role ≡ true) × (is_issued_by i.job_id i.invitee_participant_id j ≡ true))

-- A revocation of an open invitation that returned ran the tree of that invitation.
revokes_tree :
    (a : Ambient) (job_id id : Uuid) (actor : Actor) (i : Invitation) (x : InvitationResponse)
    (db db' : Access)
    → find invitation_key id db.invitations ≡ some i
    → is_revoked ((materialize_expiry a.now i).status) ≡ false
    → revoke_invitation a job_id id actor db ≡ ok (x, db')
    → revoke_invitation_tree tree_depth a.revoked_at a.issued_at actor.participant_id
        (materialize_expiry a.now i)
        (write_invitation (materialize_expiry a.now i) db)
      ≡ ok (tt, db')
unfolding revoke_invitation
revokes_tree a job_id id actor i x db db' at_id is_open h =
    elim (Bool-cases (is_issued_by job_id actor.participant_id i)) [
      | inr foreign ↦ absurd (ground (arith, at_id, foreign))
      | inl own ↦
          elim (Option-cases (find participant_key i.invitee_participant_id db.participants)) [
            | inl missing ↦ absurd (ground (arith, at_id, own, missing))
            | inr (p, holder) ↦
                let m = materialize_expiry a.now i in
                elim (Result-cases (
                  revoke_invitation_tree tree_depth a.revoked_at a.issued_at actor.participant_id m
                    (write_invitation m db))) [
                      | inr (e, raised) ↦
                          absurd (ground (arith, at_id, own, holder, is_open, raised))
                      | inl ((_, last), returned) ↦
                          let same : last ≡ db' =
                            ground (arith, at_id, own, holder, is_open, returned) in
                          returned ∙ ap (λ z. ok (tt, z)) same
                    ]
          ]
    ]

-- The row is there when it was written.
pub written-IsKnown :
    (now : Instant) (i : Invitation) (db : Access)
    → find invitation_key i.id db.invitations ≡ some i
    → IsKnown (materialize_expiry now i) (write_invitation (materialize_expiry now i) db)
written-IsKnown now i db at_i =
    let m = materialize_expiry now i in
    let kept = (materialize_expiry-Keeps now i).0 in
    (
      m,
      find-put invitation_key m.id m i db.invitations
          (subst (λ k. find invitation_key k db.invitations ≡ some i) (sym kept.id_kept) at_i) refl,
      KeepsInvitation-refl m,
    )

-- The open invitation of a database, as its revocation writes it first.
pub first_write-Narrows :
    (now : Instant) (i : Invitation) (db : Access)
    → find invitation_key i.id db.invitations ≡ some i
    → is_revoked i.status ≡ false
    → Narrows db (write_invitation (materialize_expiry now i) db)
first_write-Narrows now i db found is_open =
    write_invitation-Narrows i (materialize_expiry now i) db (i, found, KeepsInvitation-refl i)
      ((materialize_expiry-Keeps now i).0)
      (λ r f s. let same : some r ≡ some i = sym f ∙ found in absurd (ground arith))

id_cases :
    (i j : Invitation) (db : Access)
    → find invitation_key i.id db.invitations ≡ some i
    → find invitation_key j.id db.invitations ≡ some j
    → (j ≡ i) ⊎ (j.id ≢ i.id)
id_cases i j db at_i at_j = elim (Bool-cases (j.id == i.id)) [
  | inl same ↦
      let same_id : j.id ≡ i.id = ground arith in
      let both : some j ≡ some i =
        sym at_j ∙ subst (λ k. find invitation_key k db.invitations ≡ some i) (sym same_id) at_i in
      inl (ground arith)
  | inr other ↦ inr (λ e. absurd (ground arith))
]

IsShut-same :
    (i m j : Invitation) (db : Access) → KeepsInvitation i m → j ≡ i → IsShut m db → IsShut j db
IsShut-same i m j db kept same ((r, found, closed), link_shut) =
    subst (λ z. IsShut z db) (sym same)
      (
        (r, subst (λ k. find invitation_key k db.invitations ≡ some r) kept.id_kept found, closed),
        subst (λ k. IsLinkShut k db) kept.link_kept link_shut,
      )

keeps_issued :
    (i m j : Invitation)
    → KeepsInvitation i m
    → is_issued_by i.job_id i.invitee_participant_id j ≡ true
    → keep (is_issued_by m.job_id m.invitee_participant_id) (some j) ≡ some j
keeps_issued i m j kept issued =
    let job = kept.job_kept in
    let invitee = kept.invitee_kept in
    let still : is_issued_by m.job_id m.invitee_participant_id j ≡ true = ground arith in
    ground (arith, still)

-- After a revocation that returned, every invitation that it reaches is revoked with its link.
pub revoke_invitation_shuts :
    (a : Ambient) (job_id id : Uuid) (actor : Actor) (i j : Invitation) (x : InvitationResponse)
    (db db' : Access)
    → IsKeyedAccess db
    → find invitation_key id db.invitations ≡ some i
    → is_revoked i.status ≡ false
    → find invitation_key j.id db.invitations ≡ some j
    → IsReached i j
    → revoke_invitation a job_id id actor db ≡ ok (x, db')
    → Narrows db db' × IsShut j db'
revoke_invitation_shuts a job_id id actor i j x db db' keyed at_id is_open at_j reached h =
    let is_id = find_key invitation_key id db.invitations i at_id in
    let at_i : find invitation_key i.id db.invitations ≡ some i =
      subst (λ k. find invitation_key k db.invitations ≡ some i) (sym is_id) at_id in
    let m = materialize_expiry a.now i in
    let mid = write_invitation m db in
    let (kept, same_status) = materialize_expiry-Keeps a.now i in
    let first = first_write-Narrows a.now i db at_i is_open in
    let keyed' = IsKeyedAccess-Narrows db mid keyed first in
    let tree = revokes_tree a job_id id actor i x db db' at_id (same_status ∙ is_open) h in
    let (last, shut, children) =
      tree-Shuts tree_depth a.revoked_at a.issued_at actor.participant_id m mid db' keyed'
        (written-IsKnown a.now i db at_i) tree in
    (
      Narrows-trans db mid db' first last,
      elim (id_cases i j db at_i at_j) [
        | inl same ↦ IsShut-same i m j db' kept same shut
        | inr other ↦ elim reached [
          | inl same ↦ absurd (other (ap (λ z. z.id) same))
          | inr (company, issued) ↦
              let p = is_issued_by m.job_id m.invitee_participant_id in
              let at_j' : find invitation_key j.id mid.invitations ≡ some j =
                find-put_ne invitation_key j.id m db.invitations (λ e. other (e ∙ kept.id_kept))
                ∙ at_j in
              find-All invitation_key (λ z. IsShut z db') j.id (filter p mid.invitations) j
                (children (ap is_company kept.role_kept ∙ company))
                (find-filter invitation_key p j.id mid.invitations keyed'.1
                  ∙ ap (keep p) at_j'
                  ∙ keeps_issued i m j kept issued)
        ]
      ],
    )

-- In tables with distinct ids, after an issuer has revoked an invitation that was not revoked, a
-- secret that opened the link of that invitation, or of one that the invited company had issued, is
-- refused, whatever the cache answers and at any time.
pub revoked_secret_is_refused :
    (hash_secret : String → String) (a : Ambient) (job_id id : Uuid) (actor : Actor)
    (i j : Invitation) (l : AccessToken) (secret : String) (x : InvitationResponse)
    (db db' : Access) (cache : Option CacheAnswer) (limit window_seconds : ℕ) (allow_pending : Bool)
    (now : Instant)
    → IsKeyedAccess db
    → find invitation_key id db.invitations ≡ some i
    → is_revoked i.status ≡ false
    → find invitation_key j.id db.invitations ≡ some j
    → IsReached i j
    → first_where (has_hash (hash_secret secret)) db.links ≡ some l
    → l.id ≡ j.access_link_id
    → revoke_invitation a job_id id actor db ≡ ok (x, db')
    → authenticate_access_token hash_secret secret cache limit window_seconds allow_pending now db'
      ≡ err invalid_token
revoked_secret_is_refused hash_secret a job_id id actor i j l secret x db db' cache limit
      window_seconds allow_pending now keyed at_id is_open at_j reached holds is_link h =
    let (n, (_, shut)) =
      revoke_invitation_shuts a job_id id actor i j x db db' keyed at_id is_open at_j reached h in
    revoked_link_is_refused hash_secret l secret cache limit window_seconds allow_pending now db db'
      keyed holds n (subst (λ k. IsLinkShut k db') (sym is_link) shut)
