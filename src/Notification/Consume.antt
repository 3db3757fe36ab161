-- ===== src/Notification/Consume.antt =====
-- service.py of notification: an event becomes one delivery for each recipient and channel, once.
use Prim.Native.String.{String}
use seqret_be.Prelude.{
  ℕ, suc, Bool, true, false, not, ◌&&◌, ◌||◌, Option, none, some, List, [], ◌∷◌, ◌++◌, map, ltb,
  leb, ◌==◌, if◌then◌else◌, is_none, is_some_eq, filter,
}
use seqret_be.Prelude.Clock.{Uuid, Instant}
use seqret_be.Prelude.Table.{sort}
use seqret_be.Prelude.Pointwise.{first_where}
use seqret_be.Prelude.Transaction.{Command, ok, err, not_found, integrity_error}
use seqret_be.Contracts.Events.{
  DomainEvent, DomainEventType, capture_submitted, analysis_completed, analysis_failed,
  scope_locked, change_requested, dispatch_confirmed, completion_media_submitted,
  completion_submitted, completion_requested, completion_decided, media_deleted,
}
use seqret_be.Access.Model.{
  ParticipantRole, customer, company_manager, field_worker, same_role, JobParticipant,
  WorkspaceMembership, participant_key,
}
use seqret_be.Notification.Model.{
  NotificationStatus, NotificationChannel, in_app, email, sms, kakao, NotificationDelivery,
}

-- `class NotificationContactChannel`
pub data NotificationContactChannel : Type 0 where
  to_email to_sms to_kakao : NotificationContactChannel

-- `channel_map`
abbrev pub channel_map : NotificationContactChannel → NotificationChannel
channel_map to_email = email
channel_map to_sms = sms
channel_map to_kakao = kakao

-- The place of a channel in the order of the names that the column holds.
abbrev pub channel_rank : NotificationContactChannel → ℕ
channel_rank to_email = 0
channel_rank to_kakao = 1
channel_rank to_sms = 2

-- `class WorkspaceContactPoint`
pub record WorkspaceContactPoint : Type 0 where
  pub id : Uuid
  pub account_id : Uuid
  pub channel : NotificationContactChannel
  pub destination : String
  pub enabled : Bool
  pub consented_at : Instant
  pub updated_at : Instant

-- `class EventConsumption`, of the one consumer `participant-notifications.v1`
pub record EventConsumption : Type 0 where
  pub event_id : Uuid
  pub consumed_at : Instant

pub record Inbox : Type 0 where
  pub job_ids : List Uuid
  pub participants : List JobParticipant
  pub memberships : List WorkspaceMembership
  pub contacts : List WorkspaceContactPoint
  pub receipts : List EventConsumption
  pub rows : List NotificationDelivery

-- `NOTIFICATION_ROLES`
abbrev pub notification_roles : DomainEventType → List ParticipantRole
notification_roles capture_submitted = customer ∷ company_manager ∷ []
notification_roles analysis_completed = customer ∷ company_manager ∷ []
notification_roles analysis_failed = customer ∷ company_manager ∷ []
notification_roles scope_locked = field_worker ∷ []
notification_roles change_requested = customer ∷ company_manager ∷ []
notification_roles dispatch_confirmed = field_worker ∷ []
notification_roles completion_media_submitted = customer ∷ company_manager ∷ []
notification_roles completion_submitted = company_manager ∷ []
notification_roles completion_requested = customer ∷ []
notification_roles completion_decided = company_manager ∷ []
notification_roles media_deleted = []

abbrev pub has_role_in : List ParticipantRole → ParticipantRole → Bool
has_role_in [] role = false
has_role_in (r ∷ roles) role = same_role r role || has_role_in roles role

-- The `WHERE` of the recipients; without an actor nobody is left out.
abbrev pub is_recipient : DomainEvent → JobParticipant → Bool
is_recipient event p =
    p.job_id == event.aggregate_id
    && has_role_in (notification_roles event.event_type) p.role
    && not (is_some_eq event.actor_id p.id)

abbrev pub lower_id : JobParticipant → JobParticipant → Bool
lower_id p r = leb p.id r.id

abbrev pub recipients : DomainEvent → List JobParticipant → List JobParticipant
recipients event participants =
    sort participant_key lower_id (filter (is_recipient event) participants)

-- A row of the join: who, by which channel, where to.
pub record ContactRow : Type 0 where
  pub participant_id : Uuid
  pub channel : NotificationContactChannel
  pub destination : String

abbrev pub is_among : List JobParticipant → Uuid → Bool
is_among ps id = not (is_none (first_where (λ p. p.id == id) ps))

abbrev pub contacts_of : WorkspaceMembership → List WorkspaceContactPoint → List ContactRow
contacts_of m [] = []
contacts_of m (c ∷ cs) =
    let rest = contacts_of m cs in
    if c.account_id == m.account_id && c.enabled
    then record {
      participant_id = m.participant_id;
      channel = c.channel;
      destination = c.destination;
    }
      ∷ rest
    else rest

abbrev pub contact_rows :
    List JobParticipant → List WorkspaceContactPoint → List WorkspaceMembership → List ContactRow
contact_rows ps cs [] = []
contact_rows ps cs (m ∷ ms) =
    let rest = contact_rows ps cs ms in
    if is_among ps m.participant_id && is_none m.revoked_at then contacts_of m cs ++ rest else rest

abbrev pub contact_key : ContactRow → ℕ
contact_key r = r.participant_id

-- `ORDER BY participant_id, channel`
abbrev pub contact_before : ContactRow → ContactRow → Bool
contact_before r s =
    ltb r.participant_id s.participant_id
    || (r.participant_id == s.participant_id
        && leb (channel_rank r.channel) (channel_rank s.channel))

-- A recipient with a channel and, outside the application, a destination and a due time.
pub record Intent : Type 0 where
  pub recipient : Uuid
  pub channel : NotificationChannel
  pub destination : Option String
  pub next_attempt_at : Option Instant

abbrev pub shown_intent : JobParticipant → Intent
shown_intent p = record {
  recipient = p.id;
  channel = in_app;
  destination = none;
  next_attempt_at = none;
}

abbrev pub sent_intent : Instant → ContactRow → Intent
sent_intent now c = record {
  recipient = c.participant_id;
  channel = channel_map c.channel;
  destination = some c.destination;
  next_attempt_at = some now;
}

abbrev pub intents_of : Instant → DomainEvent → Inbox → List Intent
intents_of now event box =
    let ps = recipients event box.participants in
    map shown_intent ps
    ++ map (sent_intent now)
        (sort contact_key contact_before (contact_rows ps box.contacts box.memberships))

-- The row of an intent, pending.
abbrev pub pending_row : Uuid → Instant → DomainEvent → Intent → NotificationDelivery
pending_row id created event i = record {
  id = id;
  event_id = event.event_id;
  event_type = event.event_type;
  job_id = event.aggregate_id;
  recipient_participant_id = i.recipient;
  channel = i.channel;
  destination = i.destination;
  status = NotificationStatus.pending;
  attempt_count = 0;
  created_at = created;
  last_attempt_at = none;
  sent_at = none;
  last_error_code = none;
  next_attempt_at = i.next_attempt_at;
  locked_until = none;
  lock_token = none;
  provider_message_id = none;
}

abbrev pub pending_rows :
    (ℕ → Uuid) → ℕ → Instant → DomainEvent → List Intent → List NotificationDelivery
pending_rows uuid4 n created event [] = []
pending_rows uuid4 n created event (i ∷ is) =
    pending_row (uuid4 n) created event i ∷ pending_rows uuid4 (suc n) created event is

abbrev pub same_channel : NotificationChannel → NotificationChannel → Bool
same_channel in_app in_app = true
same_channel email email = true
same_channel sms sms = true
same_channel kakao kakao = true
same_channel _ _ = false

-- `uq_notification_delivery_event_recipient_channel`
abbrev pub clashes : NotificationDelivery → NotificationDelivery → Bool
clashes r s =
    r.event_id == s.event_id
    && r.recipient_participant_id == s.recipient_participant_id
    && same_channel r.channel s.channel

abbrev pub may_add : List NotificationDelivery → List NotificationDelivery → Bool
may_add [] rows = true
may_add (r ∷ rs) rows =
    is_none (first_where (clashes r) rs)
    && is_none (first_where (clashes r) rows)
    && may_add rs rows

abbrev pub has_receipt : Uuid → EventConsumption → Bool
has_receipt event_id c = c.event_id == event_id

abbrev pub is_consumed : Uuid → Inbox → Bool
is_consumed event_id box = not (is_none (first_where (has_receipt event_id) box.receipts))

abbrev pub with_receipt : Uuid → Instant → Inbox → Inbox
with_receipt event_id now box = record box {
  receipts = record { event_id = event_id; consumed_at = now } ∷ box.receipts;
}

abbrev pub has_id : Uuid → Uuid → Bool
has_id a b = a == b

-- What a call gets from the process and the database.
pub record Ambient : Type 0 where
  pub uuid4 : ℕ → Uuid
  pub now : Instant
  pub created_at : Instant

-- `consume_notification_event`, with the new rows in place of their responses.
unfoldable pub consume_notification_event :
    Ambient → DomainEvent → Command Inbox (List NotificationDelivery)
consume_notification_event a event box =
    if is_none (first_where (has_id event.aggregate_id) box.job_ids)
    then err not_found
    else if is_consumed event.event_id box
    then ok ([], box)
    else let received = with_receipt event.event_id a.now box in
      elim (notification_roles event.event_type) [
        | [] ↦ ok ([], received)
        | role ∷ roles ↦
            let new = pending_rows a.uuid4 0 a.created_at event (intents_of a.now event box) in
            if may_add new box.rows
            then ok (new, record received { rows = new ++ box.rows })
            else err integrity_error
      ]
