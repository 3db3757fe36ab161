-- ===== src/Notification/Commands.antt =====
-- service.py of notification: the commands on the state of a delivery, and a recipient's list.
use Prim.Native.String.{String}
use seqret_be.Prelude.{
  ℕ, ◌+◌, Bool, true, false, not, ◌&&◌, ◌||◌, Option, none, some, List, map, ltb, leb, ◌==◌,
  if◌then◌else◌, filter,
}
use seqret_be.Prelude.Clock.{Uuid, Instant}
use seqret_be.Prelude.Table.{find, put, sort}
use seqret_be.Prelude.Transaction.{Command, Result, ok, err, not_found, conflict, value_error}
use seqret_be.Contracts.Events.{DomainEventType}
use seqret_be.Outbox.{is_error_code}
use seqret_be.Notification.Model.{
  NotificationStatus, is_sent, pending, sent, failed, NotificationChannel, is_in_app,
  NotificationDelivery, row_key,
}

-- `class NotificationResponse`
pub record NotificationResponse : Type 0 where
  pub id : Uuid
  pub event_id : Uuid
  pub event_type : DomainEventType
  pub job_id : Uuid
  pub recipient_participant_id : Uuid
  pub channel : NotificationChannel
  pub status : NotificationStatus
  pub attempt_count : ℕ
  pub created_at : Instant
  pub last_attempt_at : Option Instant
  pub sent_at : Option Instant
  pub last_error_code : Option String
  pub provider_message_id : Option String

-- `_response`
abbrev pub response : NotificationDelivery → NotificationResponse
response r = record {
  id = r.id;
  event_id = r.event_id;
  event_type = r.event_type;
  job_id = r.job_id;
  recipient_participant_id = r.recipient_participant_id;
  channel = r.channel;
  status = r.status;
  attempt_count = r.attempt_count;
  created_at = r.created_at;
  last_attempt_at = r.last_attempt_at;
  sent_at = r.sent_at;
  last_error_code = r.last_error_code;
  provider_message_id = r.provider_message_id;
}

-- `NOTIFICATION_STATUS_TRANSITIONS`
abbrev pub may_turn : NotificationStatus → NotificationStatus → Bool
may_turn pending sent = true
may_turn pending failed = true
may_turn failed _ = true
may_turn _ _ = false

-- `_load_notification_for_update` and `_require_notification_transition`
abbrev pub load_for :
    Uuid → NotificationStatus → List NotificationDelivery → Result NotificationDelivery
load_for id target rows = elim (find row_key id rows) [
  | none ↦ err not_found
  | some r ↦ if may_turn r.status target then ok r else err conflict
]

abbrev pub delivered_row : Instant → Option String → NotificationDelivery → NotificationDelivery
delivered_row now provider_message_id r = record r {
  status = NotificationStatus.sent;
  attempt_count = r.attempt_count + 1;
  last_attempt_at = some now;
  sent_at = some now;
  last_error_code = none;
  provider_message_id = provider_message_id;
  next_attempt_at = none;
  locked_until = none;
  lock_token = none;
}

-- `mark_notification_sent`
unfoldable pub mark_notification_sent :
    Instant
    → Uuid
    → (provider_message_id : Option String)
    → Command (List NotificationDelivery) NotificationResponse
mark_notification_sent now id provider_message_id rows = elim (find row_key id rows) [
  | none ↦ err not_found
  | some r ↦
      if is_sent r.status
      then ok (response r, rows)
      else if may_turn r.status sent
      then ok (
        response (delivered_row now provider_message_id r),
        put row_key (delivered_row now provider_message_id r) rows,
      )
      else err conflict
]

abbrev pub refused_row : Instant → String → NotificationDelivery → NotificationDelivery
refused_row now error_code r = record r {
  status = NotificationStatus.failed;
  attempt_count = r.attempt_count + 1;
  last_attempt_at = some now;
  last_error_code = some error_code;
  locked_until = none;
  lock_token = none;
}

-- `mark_notification_failed`
unfoldable pub mark_notification_failed :
    Instant
    → Uuid
    → (error_code : String) → Command (List NotificationDelivery) NotificationResponse
mark_notification_failed now id error_code rows =
    if not (is_error_code error_code) then err value_error else elim (load_for id failed rows) [
      | err e ↦ err e
      | ok r ↦
          ok (
            response (refused_row now error_code r),
            put row_key (refused_row now error_code r) rows,
          )
    ]

abbrev pub waiting_again : Instant → NotificationDelivery → NotificationDelivery
waiting_again now r = record r {
  status = NotificationStatus.pending;
  last_error_code = none;
  next_attempt_at = some now;
}

-- `retry_notification`
unfoldable pub retry_notification :
    Instant → Uuid → Command (List NotificationDelivery) NotificationResponse
retry_notification now id rows = elim (load_for id pending rows) [
  | err e ↦ err e
  | ok r ↦ ok (response (waiting_again now r), put row_key (waiting_again now r) rows)
]

-- `ORDER BY created_at, id`
abbrev pub older : NotificationDelivery → NotificationDelivery → Bool
older r s = ltb r.created_at s.created_at || (r.created_at == s.created_at && leb r.id s.id)

-- `list_notifications`
unfoldable pub list_notifications :
    (job_id recipient : Uuid) → List NotificationDelivery → List NotificationResponse
list_notifications job_id recipient rows = map response (
    sort row_key older (
      filter
        (λ r. r.job_id == job_id && r.recipient_participant_id == recipient && is_in_app r.channel)
        rows))
