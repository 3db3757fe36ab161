-- ===== src/Workspace/Contacts.antt =====
-- access/workspace.py: the contact points of an account, and the withdrawal of one.
use Prim.Native.String.{String}
use package.text.Mathlib.Text.{◌==◌ as str_eq}
use seqret_be.Prelude.{
  ℕ, Bool, false, not, ◌&&◌, ◌||◌, none, some, List, ◌∷◌, map, ltb, leb, ◌==◌, if◌then◌else◌,
  is_none, filter,
}
use seqret_be.Prelude.Clock.{Uuid, Instant}
use seqret_be.Prelude.Table.{put, sort}
use seqret_be.Prelude.Pointwise.{first_where}
use seqret_be.Prelude.Transaction.{Command, ok, err, not_found}
use seqret_be.Access.Model.{WorkspaceMembership}
use seqret_be.Notification.Model.{NotificationStatus, is_pending, NotificationDelivery}
use seqret_be.Notification.Consume.{
  NotificationContactChannel, to_email, to_sms, to_kakao, channel_map, channel_rank, same_channel,
  WorkspaceContactPoint,
}
use seqret_be.Workspace.Sessions.{Workspace, is_active_member}

abbrev pub contact_id : WorkspaceContactPoint → ℕ
contact_id c = c.id

-- `f"{REVOKED_CONTACT_DESTINATION_PREFIX}{channel.value}"`
abbrev pub revoked_destination : NotificationContactChannel → String
revoked_destination to_email = "revoked:email"
revoked_destination to_sms = "revoked:sms"
revoked_destination to_kakao = "revoked:kakao"

abbrev pub is_contact_of : Uuid → NotificationContactChannel → WorkspaceContactPoint → Bool
is_contact_of account_id channel c =
    c.account_id == account_id && same_channel (channel_map c.channel) (channel_map channel)

-- The participants by which the account is a member.
abbrev pub is_member_participant : Uuid → List WorkspaceMembership → Uuid → Bool
is_member_participant account_id memberships participant_id = not (
    is_none (
      first_where (λ m. is_active_member account_id m && m.participant_id == participant_id)
        memberships))

-- A pending delivery to the account by the channel.
abbrev pub is_withdrawn :
    Uuid → NotificationContactChannel → List WorkspaceMembership → NotificationDelivery → Bool
is_withdrawn account_id channel memberships r =
    is_member_participant account_id memberships r.recipient_participant_id
    && same_channel r.channel (channel_map channel)
    && is_pending r.status

abbrev pub withdrawal : NotificationContactChannel → NotificationDelivery → NotificationDelivery
withdrawal channel r = record r {
  destination = some (revoked_destination channel);
  status = NotificationStatus.failed;
  last_error_code = some "consent_revoked";
  next_attempt_at = none;
  lock_token = none;
  locked_until = none;
}

abbrev pub withdrawn :
    Uuid
    → NotificationContactChannel
    → List WorkspaceMembership
    → NotificationDelivery
    → NotificationDelivery
withdrawn account_id channel memberships r =
    if is_withdrawn account_id channel memberships r then withdrawal channel r else r

-- `_cancel_pending_contact_deliveries`
unfoldable pub cancel_pending_contact_deliveries :
    Uuid → NotificationContactChannel → Workspace → Workspace
cancel_pending_contact_deliveries account_id channel db = record db {
  rows = map (withdrawn account_id channel db.memberships) db.rows;
}

-- `class WorkspaceContactPointUpsert`
pub record WorkspaceContactPointUpsert : Type 0 where
  pub destination : String
  pub enabled : Bool

abbrev pub write_contact : WorkspaceContactPoint → Workspace → Workspace
write_contact c db = record db { contacts = put contact_id c db.contacts }

abbrev pub new_contact :
    Uuid
    → Instant
    → Uuid
    → NotificationContactChannel
    → WorkspaceContactPointUpsert
    → WorkspaceContactPoint
new_contact id now account_id channel command = record {
  id = id;
  account_id = account_id;
  channel = channel;
  destination = command.destination;
  enabled = command.enabled;
  consented_at = now;
  updated_at = now;
}

-- `contact.destination != destination or (contact.enabled and not command.enabled)`
abbrev pub cancels : WorkspaceContactPoint → WorkspaceContactPointUpsert → Bool
cancels c command =
    not (str_eq c.destination command.destination) || (c.enabled && not command.enabled)

-- `upsert_contact_point`, of a destination that is normalized, with the row in place of its response.
unfoldable pub upsert_contact_point :
    (id : Uuid) (now : Instant) (account_id : Uuid)
    → NotificationContactChannel
    → WorkspaceContactPointUpsert
    → Command Workspace WorkspaceContactPoint
upsert_contact_point id now account_id channel command db =
    elim (first_where (is_contact_of account_id channel) db.contacts) [
      | none ↦
          let c = new_contact id now account_id channel command in
          ok (c, record db { contacts = c ∷ db.contacts })
      | some c ↦
          let db' =
            if cancels c command
            then cancel_pending_contact_deliveries account_id channel db
            else db in
          let c' : WorkspaceContactPoint = record c {
            destination = command.destination;
            enabled = command.enabled;
            consented_at = now;
            updated_at = now;
          } in
          ok (c', write_contact c' db')
    ]

-- `ORDER BY channel, id`
abbrev pub contact_before : WorkspaceContactPoint → WorkspaceContactPoint → Bool
contact_before c d =
    ltb (channel_rank c.channel) (channel_rank d.channel)
    || (channel_rank c.channel == channel_rank d.channel && leb c.id d.id)

-- `list_contact_points`, with the rows in place of their responses
unfoldable pub list_contact_points : (account_id : Uuid) → Workspace → List WorkspaceContactPoint
list_contact_points account_id db =
    sort contact_id contact_before
      (filter (λ c. c.account_id == account_id && c.enabled) db.contacts)

-- `delete_contact_point`
unfoldable pub delete_contact_point :
    (now : Instant) (account_id : Uuid) → NotificationContactChannel → Command Workspace (Unit {0})
delete_contact_point now account_id channel db =
    elim (first_where (is_contact_of account_id channel) db.contacts) [
      | none ↦ err not_found
      | some c ↦
          if c.enabled
          then (let c' : WorkspaceContactPoint = record c {
            destination = revoked_destination channel;
            enabled = false;
            updated_at = now;
          } in
              ok (tt, write_contact c' (cancel_pending_contact_deliveries account_id channel db)))
          else err not_found
    ]
