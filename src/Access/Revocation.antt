-- ===== src/Access/Revocation.antt =====
-- What a revocation of access/service.py and access/invitations.py may do to the rows.
use seqret_be.Prelude.{true, false, some, ◌≡◌, refl, sym, ◌∙◌, subst, is_none}
use seqret_be.Prelude.Clock.{Uuid}
use seqret_be.Prelude.Table.{find, IsKeyed}
use seqret_be.Prelude.Pointwise.{
  Pointwise, Pointwise-refl, Pointwise-trans, put-Pointwise, find-Pointwise, Pointwise-IsKeyed,
}
use seqret_be.Access.Model.{AccessToken, is_revoked, Invitation, Access, link_key, invitation_key}
use seqret_be.Access.Invitations.{write_invitation}

-- A link keeps its holder, hash and expiry, and stays revoked.
pub record KeepsLink (x y : AccessToken) : Type 0 where
  pub id_kept : y.id ≡ x.id
  pub participant_kept : y.participant_id ≡ x.participant_id
  pub hash_kept : y.token_hash ≡ x.token_hash
  pub expiry_kept : y.expires_at ≡ x.expires_at
  pub stays_revoked : is_none x.revoked_at ≡ false → is_none y.revoked_at ≡ false

-- An invitation keeps its parties, role and link, and stays revoked.
pub record KeepsInvitation (x y : Invitation) : Type 0 where
  pub id_kept : y.id ≡ x.id
  pub job_kept : y.job_id ≡ x.job_id
  pub issuer_kept : y.issuer_participant_id ≡ x.issuer_participant_id
  pub invitee_kept : y.invitee_participant_id ≡ x.invitee_participant_id
  pub link_kept : y.access_link_id ≡ x.access_link_id
  pub role_kept : y.role ≡ x.role
  pub stays_revoked : is_revoked x.status ≡ true → is_revoked y.status ≡ true

-- Rows are neither added nor removed, and nothing that was revoked comes back.
pub record Narrows (db db' : Access) : Type 0 where
  pub links_narrow : Pointwise KeepsLink db.links db'.links
  pub invitations_narrow : Pointwise KeepsInvitation db.invitations db'.invitations
  pub participants_kept : db'.participants ≡ db.participants

pub KeepsLink-refl : (x : AccessToken) → KeepsLink x x
KeepsLink-refl x = record {
  id_kept = refl;
  participant_kept = refl;
  hash_kept = refl;
  expiry_kept = refl;
  stays_revoked = λ h. h;
}

pub KeepsLink-trans : (x y z : AccessToken) → KeepsLink x y → KeepsLink y z → KeepsLink x z
KeepsLink-trans x y z h k = record {
  id_kept = k.id_kept ∙ h.id_kept;
  participant_kept = k.participant_kept ∙ h.participant_kept;
  hash_kept = k.hash_kept ∙ h.hash_kept;
  expiry_kept = k.expiry_kept ∙ h.expiry_kept;
  stays_revoked = λ r. k.stays_revoked (h.stays_revoked r);
}

pub KeepsInvitation-refl : (x : Invitation) → KeepsInvitation x x
KeepsInvitation-refl x = record {
  id_kept = refl;
  job_kept = refl;
  issuer_kept = refl;
  invitee_kept = refl;
  link_kept = refl;
  role_kept = refl;
  stays_revoked = λ h. h;
}

pub KeepsInvitation-trans :
    (x y z : Invitation) → KeepsInvitation x y → KeepsInvitation y z → KeepsInvitation x z
KeepsInvitation-trans x y z h k = record {
  id_kept = k.id_kept ∙ h.id_kept;
  job_kept = k.job_kept ∙ h.job_kept;
  issuer_kept = k.issuer_kept ∙ h.issuer_kept;
  invitee_kept = k.invitee_kept ∙ h.invitee_kept;
  link_kept = k.link_kept ∙ h.link_kept;
  role_kept = k.role_kept ∙ h.role_kept;
  stays_revoked = λ r. k.stays_revoked (h.stays_revoked r);
}

pub Narrows-refl : (db : Access) → Narrows db db
Narrows-refl db = record {
  links_narrow = Pointwise-refl KeepsLink KeepsLink-refl db.links;
  invitations_narrow = Pointwise-refl KeepsInvitation KeepsInvitation-refl db.invitations;
  participants_kept = refl;
}

pub Narrows-trans : (a b c : Access) → Narrows a b → Narrows b c → Narrows a c
Narrows-trans a b c h k = record {
  links_narrow =
      Pointwise-trans KeepsLink KeepsLink-trans a.links b.links c.links h.links_narrow
        k.links_narrow;
  invitations_narrow =
      Pointwise-trans KeepsInvitation KeepsInvitation-trans a.invitations b.invitations
        c.invitations h.invitations_narrow k.invitations_narrow;
  participants_kept = k.participants_kept ∙ h.participants_kept;
}

-- The row of an invitation that was read before.
abbrev pub IsKnown : Invitation → Access → Type 0
IsKnown i db =
    (r : Invitation) × (find invitation_key i.id db.invitations ≡ some r) × KeepsInvitation i r

abbrev pub IsKeyedAccess : Access → Type 0
IsKeyedAccess db = IsKeyed link_key db.links × IsKeyed invitation_key db.invitations

-- The link of an invitation is revoked.
abbrev pub IsLinkShut : Uuid → Access → Type 0
IsLinkShut link_id db =
    (l : AccessToken) × (find link_key link_id db.links ≡ some l) × (is_none l.revoked_at ≡ false)

-- The invitation is revoked, and so is its link.
abbrev pub IsShut : Invitation → Access → Type 0
IsShut i db =
    ((r : Invitation) × (find invitation_key i.id db.invitations ≡ some r)
      × (is_revoked r.status ≡ true))
    × IsLinkShut i.access_link_id db

pub IsKnown-Narrows :
    (i : Invitation) (db db' : Access) → IsKnown i db → Narrows db db' → IsKnown i db'
IsKnown-Narrows i db db' (r, found, kept) n =
    let (r', found', kept') =
      find-Pointwise KeepsInvitation invitation_key (λ x y h. h.id_kept) i.id db.invitations
        db'.invitations r n.invitations_narrow found in
    (r', found', KeepsInvitation-trans i r r' kept kept')

pub IsKeyedAccess-Narrows :
    (db db' : Access) → IsKeyedAccess db → Narrows db db' → IsKeyedAccess db'
IsKeyedAccess-Narrows db db' h n = (
  Pointwise-IsKeyed KeepsLink link_key (λ x y k. k.id_kept) db.links db'.links n.links_narrow h.0,
  Pointwise-IsKeyed KeepsInvitation invitation_key (λ x y k. k.id_kept) db.invitations
      db'.invitations n.invitations_narrow h.1,
)

pub IsLinkShut-Narrows :
    (id : Uuid) (db db' : Access) → IsLinkShut id db → Narrows db db' → IsLinkShut id db'
IsLinkShut-Narrows id db db' (l, found, shut) n =
    let (l', found', kept) =
      find-Pointwise KeepsLink link_key (λ x y h. h.id_kept) id db.links db'.links l n.links_narrow
        found in
    (l', found', kept.stays_revoked shut)

pub IsShut-Narrows :
    (i : Invitation) (db db' : Access) → IsShut i db → Narrows db db' → IsShut i db'
IsShut-Narrows i db db' ((r, found, shut), link_shut) n =
    let (r', found', kept) =
      find-Pointwise KeepsInvitation invitation_key (λ x y h. h.id_kept) i.id db.invitations
        db'.invitations r n.invitations_narrow found in
    ((r', found', kept.stays_revoked shut), IsLinkShut-Narrows i.access_link_id db db' link_shut n)

-- A write to a known invitation that keeps it narrows the database.
pub write_invitation-Narrows :
    (i i' : Invitation) (db : Access)
    → IsKnown i db
    → KeepsInvitation i i'
    → ((r : Invitation)
        → find invitation_key i.id db.invitations ≡ some r
        → is_revoked r.status ≡ true
        → is_revoked i'.status ≡ true)
    → Narrows db (write_invitation i' db)
write_invitation-Narrows i i' db (r, found, kept) kept' stays = record {
  links_narrow = Pointwise-refl KeepsLink KeepsLink-refl db.links;
  invitations_narrow =
      put-Pointwise KeepsInvitation invitation_key KeepsInvitation-refl r i' db.invitations
        (subst (λ k. find invitation_key k db.invitations ≡ some r) (sym kept'.id_kept) found)
        (record {
          id_kept = kept'.id_kept ∙ sym kept.id_kept;
          job_kept = kept'.job_kept ∙ sym kept.job_kept;
          issuer_kept = kept'.issuer_kept ∙ sym kept.issuer_kept;
          invitee_kept = kept'.invitee_kept ∙ sym kept.invitee_kept;
          link_kept = kept'.link_kept ∙ sym kept.link_kept;
          role_kept = kept'.role_kept ∙ sym kept.role_kept;
          stays_revoked = stays r found;
        });
  participants_kept = refl;
}
