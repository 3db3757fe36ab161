-- ===== src/Workspace/Withdrawal.antt =====
-- access/workspace.py: what a deleted contact point leaves behind.
use seqret_be.Prelude.{
  Bool, true, false, not, ◌&&◌, none, some, List, [], ◌∷◌, map, ◌==◌, if◌then◌else◌, ◌≡◌, ◌≢◌, refl,
  ap, ◌∙◌, subst, inl, inr, arith, All, All-and, All-filter, All-map_pred, filter, filter_holds,
  Bool-cases, ==_refl,
}
use seqret_be.Prelude.Clock.{Uuid, Instant}
use seqret_be.Prelude.Table.{put, IsKeyed, Without, All-sort}
use seqret_be.Prelude.Pointwise.{IsIn, All-IsIn, first_where, first_where-some}
use seqret_be.Prelude.Transaction.{ok}
use seqret_be.Access.Model.{WorkspaceMembership}
use seqret_be.Notification.Model.{NotificationStatus, NotificationChannel, NotificationDelivery}
use seqret_be.Notification.Consume.{
  NotificationContactChannel, to_email, to_sms, to_kakao, channel_map, same_channel,
  WorkspaceContactPoint,
}
use seqret_be.Workspace.Sessions.{Workspace, is_active_member}
use seqret_be.Workspace.Contacts.{
  contact_id, is_member_participant, withdrawal, is_contact_of, is_withdrawn, withdrawn,
  cancel_pending_contact_deliveries, delete_contact_point, write_contact, revoked_destination,
  contact_before, list_contact_points,
}

abbrev pub IsOff : Uuid → NotificationContactChannel → WorkspaceContactPoint → Type 0
IsOff account_id channel c = (is_contact_of account_id channel c && c.enabled) ≡ false

-- The unique constraint on the account and the channel, with this contact point.
abbrev pub IsOnly :
    Uuid → NotificationContactChannel → WorkspaceContactPoint → WorkspaceContactPoint → Type 0
IsOnly account_id channel c d = (is_contact_of account_id channel d && not (d.id == c.id)) ≡ false

and_false : (a b : Bool) → (a && b && false) ≡ false
and_false true true = refl
and_false true false = refl
and_false false b = refl

withdrawn_if :
    (hit : Bool) (account_id : Uuid) (channel : NotificationContactChannel)
    (ms : List WorkspaceMembership) (r : NotificationDelivery)
    → is_withdrawn account_id channel ms r ≡ hit
    → is_withdrawn account_id channel ms (if hit then withdrawal channel r else r) ≡ false
withdrawn_if false account_id channel ms r h = h
withdrawn_if true account_id channel ms r h =
    and_false (is_member_participant account_id ms r.recipient_participant_id)
      (same_channel r.channel (channel_map channel))

-- A delivery that was withdrawn is pending no more.
withdrawn_is_done :
    (account_id : Uuid) (channel : NotificationContactChannel) (ms : List WorkspaceMembership)
    (r : NotificationDelivery)
    → is_withdrawn account_id channel ms (withdrawn account_id channel ms r) ≡ false
withdrawn_is_done account_id channel ms r =
    withdrawn_if (is_withdrawn account_id channel ms r) account_id channel ms r refl

All-withdrawn :
    (account_id : Uuid) (channel : NotificationContactChannel) (ms : List WorkspaceMembership)
    (rows : List NotificationDelivery)
    → All
        (λ r. is_withdrawn account_id channel ms r ≡ false)
        (map (withdrawn account_id channel ms) rows)
All-withdrawn account_id channel ms [] = tt
All-withdrawn account_id channel ms (r ∷ rows) =
    (withdrawn_is_done account_id channel ms r, All-withdrawn account_id channel ms rows)

is_off : (a b : Bool) → a ≡ false → (a && b) ≡ false
is_off a b h = ap (λ x. x && b) h

is_off_2 : (a b : Bool) → b ≡ false → (a && b) ≡ false
is_off_2 true b h = h
is_off_2 false b h = refl

others-IsOff :
    (account_id : Uuid) (channel : NotificationContactChannel) (c : WorkspaceContactPoint)
    (cs : List WorkspaceContactPoint)
    → Without contact_id c.id cs
    → All (IsOnly account_id channel c) cs
    → All (IsOff account_id channel) cs
others-IsOff account_id channel c [] w o = tt
others-IsOff account_id channel c (d ∷ cs) w o =
    let other = w.0 in
    let only = o.0 in
    let off = is_off (is_contact_of account_id channel d) d.enabled (ground arith) in
    (off, others-IsOff account_id channel c cs w.1 o.1)

put-IsOff :
    (account_id : Uuid) (channel : NotificationContactChannel) (c : WorkspaceContactPoint)
    (cs : List WorkspaceContactPoint)
    → c.enabled ≡ false
    → IsKeyed contact_id cs
    → All (IsOnly account_id channel c) cs
    → All (IsOff account_id channel) (put contact_id c cs)
put-IsOff account_id channel c [] off k o = tt
put-IsOff account_id channel c (d ∷ cs) off k o = elim (Bool-cases (d.id == c.id)) [
  | inl same ↦
      let same_id : d.id ≡ c.id = ground arith in
      let off_here : IsOff account_id channel c =
        is_off_2 (is_contact_of account_id channel c) c.enabled off in
      rw same (
        off_here,
        others-IsOff account_id channel c cs (subst (λ i. Without contact_id i cs) same_id k.0) o.1,
      )
  | inr other ↦
      let off_there : IsOff account_id channel d =
        is_off (is_contact_of account_id channel d) d.enabled (ground arith) in
      rw other (off_there, put-IsOff account_id channel c cs off k.1 o.1)
]

-- The rows that a deletion leaves, by the tests of its own statements.
deletion_leaves :
    (now : Instant) (account_id : Uuid) (channel : NotificationContactChannel)
    (c : WorkspaceContactPoint) (db db' : Workspace)
    → IsKeyed contact_id db.contacts
    → first_where (is_contact_of account_id channel) db.contacts ≡ some c
    → All (IsOnly account_id channel c) db.contacts
    → delete_contact_point now account_id channel db ≡ ok (tt, db')
    → All (λ r. is_withdrawn account_id channel db'.memberships r ≡ false) db'.rows
      × All (IsOff account_id channel) db'.contacts
unfolding delete_contact_point cancel_pending_contact_deliveries
deletion_leaves now account_id channel c db db' keyed found only h = elim (Bool-cases c.enabled) [
  | inr off ↦ absurd (ground (arith, found, off))
  | inl on ↦
      let c' : WorkspaceContactPoint = record c {
        destination = revoked_destination channel;
        enabled = false;
        updated_at = now;
      } in
      let last : Workspace =
        write_contact c' (cancel_pending_contact_deliveries account_id channel db) in
      let same : last ≡ db' = ground (arith, found, on) in
      subst
        (λ z.
          All (λ r. is_withdrawn account_id channel z.memberships r ≡ false) z.rows
          × All (IsOff account_id channel) z.contacts)
        same
        (
          All-withdrawn account_id channel db.memberships db.rows,
          put-IsOff account_id channel c' db.contacts refl keyed only,
        )
]

same_channel_refl :
    (c : NotificationContactChannel) (d : NotificationChannel)
    → d ≡ channel_map c
    → same_channel d (channel_map c) ≡ true
same_channel_refl to_email d e = ground arith
same_channel_refl to_sms d e = ground arith
same_channel_refl to_kakao d e = ground arith

-- An active membership of the account is found by its participant.
member-is_found :
    (account_id : Uuid) (m : WorkspaceMembership) (ms : List WorkspaceMembership)
    → IsIn m ms
    → m.account_id ≡ account_id
    → m.revoked_at ≡ none
    → is_member_participant account_id ms m.participant_id ≡ true
member-is_found account_id m ms among of_account active =
    let own = ==_refl m.participant_id in
    let same = ==_refl account_id in
    let found =
      first_where-some (λ x. is_active_member account_id x && x.participant_id == m.participant_id)
        m ms among (ground (arith, own, same)) in
    ground (arith, found)

not_pending :
    (account_id : Uuid) (channel : NotificationContactChannel) (ms : List WorkspaceMembership)
    (r : NotificationDelivery)
    → is_withdrawn account_id channel ms r ≡ false
    → is_member_participant account_id ms r.recipient_participant_id ≡ true
    → r.channel ≡ channel_map channel
    → r.status ≢ NotificationStatus.pending
not_pending account_id channel ms r done member by =
    λ waits. ground (arith, same_channel_refl channel r.channel by)

-- No contact point of the channel is listed when those of the account are off.
list-IsOff :
    (account_id : Uuid) (channel : NotificationContactChannel) (db : Workspace)
    → All (IsOff account_id channel) db.contacts
    → All (λ d. d.channel ≢ channel) (list_contact_points account_id db)
unfolding list_contact_points
list-IsOff account_id channel db off =
    let shown = λ (c : WorkspaceContactPoint). c.account_id == account_id && c.enabled in
    All-sort contact_id contact_before (λ d. d.channel ≢ channel) (filter shown db.contacts)
      (All-map_pred (λ d. IsOff account_id channel d × (shown d ≡ true)) (λ d. d.channel ≢ channel)
        (λ d h. λ same.
          ground (arith, same_channel_refl channel (channel_map d.channel) (ap channel_map same)))
        (filter shown db.contacts)
        (All-and (IsOff account_id channel) (λ d. shown d ≡ true) (filter shown db.contacts)
          (All-filter (IsOff account_id channel) shown db.contacts off)
          (filter_holds shown db.contacts)))

-- In contact points with distinct ids, of which one belongs to the account and the channel, after
-- its deletion has returned, no delivery by the channel to the participant of a membership of the
-- account that is not revoked is pending, and the list of the contact points of the account shows
-- none of the channel.
pub withdrawal_stops_deliveries :
    (now : Instant) (account_id : Uuid) (channel : NotificationContactChannel)
    (c : WorkspaceContactPoint) (db db' : Workspace) (m : WorkspaceMembership)
    (r : NotificationDelivery)
    → IsKeyed contact_id db.contacts
    → first_where (is_contact_of account_id channel) db.contacts ≡ some c
    → All (IsOnly account_id channel c) db.contacts
    → delete_contact_point now account_id channel db ≡ ok (tt, db')
    → IsIn m db'.memberships
    → m.account_id ≡ account_id
    → m.revoked_at ≡ none
    → IsIn r db'.rows
    → r.recipient_participant_id ≡ m.participant_id
    → r.channel ≡ channel_map channel
    → (r.status ≢ NotificationStatus.pending)
      × All (λ d. d.channel ≢ channel) (list_contact_points account_id db')
withdrawal_stops_deliveries now account_id channel c db db' m r keyed found only h among of_account
      active stored to_member by =
    let (done, off) = deletion_leaves now account_id channel c db db' keyed found only h in
    let member = member-is_found account_id m db'.memberships among of_account active in
    (
      not_pending account_id channel db'.memberships r
          (All-IsIn (λ x. is_withdrawn account_id channel db'.memberships x ≡ false) r db'.rows done
            stored)
          (ap (is_member_participant account_id db'.memberships) to_member ∙ member) by,
      list-IsOff account_id channel db' off,
    )
