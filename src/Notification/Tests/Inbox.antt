-- ===== src/Notification/Tests/Inbox.antt =====
-- A job with two recipients, its events, and the theorems about their consumption.
use Prim.Native.String.{String}
use seqret_be.Prelude.{
  ℕ, ◌+◌, ◌≡◌, refl, Bool, true, false, Option, none, some, List, [], ◌∷◌, All, ◌==◌, if◌then◌else◌,
}
use seqret_be.Prelude.Clock.{Uuid, seconds}
use seqret_be.Prelude.Transaction.{ok}
use seqret_be.Contracts.Events.{
  DomainEvent, DomainEventType, capture_submitted, completion_requested,
}
use seqret_be.Access.Model.{ParticipantRole, customer, company_manager, JobParticipant}
use seqret_be.Notification.Model.{NotificationDelivery}
use seqret_be.Notification.Consume.{Ambient, Inbox, to_email, consume_notification_event}
use seqret_be.Notification.Consumer.{
  PulledEventMessage, Batch, consume_message, consume_messages, consume_notification_events_once,
  type_value,
}
use seqret_be.Notification.Redelivery.{IsAcked, acknowledged_is_committed, redelivery_has_no_effect}

abbrev participant : Uuid → ParticipantRole → JobParticipant
participant id role = record { id = id; job_id = 10; role = role; display_name = "p" }

abbrev inbox : Inbox
inbox = record {
  job_ids = 10 ∷ [];
  participants = participant 1 customer ∷ participant 2 company_manager ∷ [];
  memberships =
      record { id = 21; account_id = 50; participant_id = 2; joined_at = 0; revoked_at = none }
      ∷ [];
  contacts =
      record {
        id = 61;
        account_id = 50;
        channel = to_email;
        destination = "a@b";
        enabled = true;
        consented_at = 0;
        updated_at = 0;
      }
      ∷ [];
  receipts = [];
  rows = [];
}

abbrev event : Uuid → DomainEventType → DomainEvent
event id type = record {
  event_id = id;
  event_type = type;
  schema_version = 1;
  aggregate_id = 10;
  occurred_at = 0;
  actor_id = some 1;
  trace_id = "t";
  payload = [];
}

abbrev at : Ambient
at = record { uuid4 = λ n. 100 + n; now = seconds 5; created_at = seconds 5 }

-- The customer acted, so the company is told, in the application and by mail.
submitted :
    (shown mailed : NotificationDelivery) × (box : Inbox) × (consume_notification_event at
        (event 7 capture_submitted)
        inbox
      ≡ ok (shown ∷ mailed ∷ [], box))
unfolding consume_notification_event
submitted = (_, _, _, refl)

-- Bytes stand for the event that they encode.
abbrev validate : List ℕ → Option DomainEvent
validate (n ∷ []) =
    if n == 7
    then some (event 7 capture_submitted)
    else if n == 8
    then some (event 8 completion_requested)
    else none
validate _ = none

abbrev str_uuid : Uuid → String
str_uuid _ = "u"

abbrev event_key : Uuid → String
event_key _ = "event:u"

abbrev str_int : ℕ → String
str_int _ = "1"

abbrev yes : Uuid → Bool
yes _ = true

abbrev message : Uuid → List ℕ → DomainEventType → PulledEventMessage
message ack bytes type = record {
  ack_id = ack;
  bytes = bytes;
  attributes =
      ("event_id", "u")
      ∷ ("event_type", type_value type)
      ∷ ("schema_version", "1")
      ∷ ("idempotency_key", "event:u")
      ∷ [];
}

abbrev batch : List PulledEventMessage
batch =
    message 31 (7 ∷ []) capture_submitted
    ∷ message 32 (7 ∷ []) capture_submitted
    ∷ message 33 (9 ∷ []) capture_submitted
    ∷ []

-- The event comes twice, and a text that is no event once.
counts :
    (consume_notification_events_once validate str_uuid event_key str_int yes yes
      (λ _. at)
      batch
      inbox).1
    ≡ some (record { pulled = 3; acknowledged = 2; failed = 1 })
unfolding consume_notification_events_once consume_messages consume_message
    consume_notification_event
counts = refl

acknowledged_is_committed_example :
    let b =
      (consume_notification_events_once validate str_uuid event_key str_int yes yes
        (λ _. at)
        batch
        inbox).0 in
    All (IsAcked validate str_uuid event_key str_int yes yes batch b.inbox) b.acks
acknowledged_is_committed_example =
    acknowledged_is_committed validate str_uuid event_key str_int yes yes (λ _. at) batch inbox

abbrev going_on : Batch
going_on = record { inbox = submitted.2; acks = []; acknowledged = 0; failed = 0; broken = false }

redelivery_has_no_effect_example :
    let later =
      consume_messages validate str_uuid event_key str_int yes yes
        (λ _. at)
        0
        (message 34 (8 ∷ []) completion_requested ∷ [])
        going_on in
    consume_notification_event at (event 7 capture_submitted) later.inbox ≡ ok ([], later.inbox)
redelivery_has_no_effect_example =
    redelivery_has_no_effect validate str_uuid event_key str_int yes yes at at
      (event 7 capture_submitted) (event 7 capture_submitted) (submitted.0 ∷ submitted.1 ∷ []) inbox
      (λ _. at) 0 (message 34 (8 ∷ []) completion_requested ∷ []) going_on submitted.3 refl refl
