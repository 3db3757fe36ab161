-- ===== src/Notification/Consumer.antt =====
-- consumer.py of notification: one pulled batch, each message in a transaction of its own.
use Prim.Native.String.{String}
use package.text.Mathlib.Text.{◌==◌ as str_eq}
use seqret_be.Prelude.{
  ℕ, suc, ◌+◌, Bool, false, not, ◌&&◌, Option, none, some, List, [], ◌∷◌, ◌==◌, if◌then◌else◌,
  length,
}
use seqret_be.Prelude.Clock.{Uuid}
use seqret_be.Prelude.Transaction.{ok, err}
use seqret_be.Contracts.Events.{
  DomainEvent, DomainEventType, capture_submitted, analysis_completed, analysis_failed,
  scope_locked, change_requested, dispatch_confirmed, completion_media_submitted,
  completion_submitted, completion_requested, completion_decided, media_deleted,
}
use seqret_be.Notification.Consume.{Ambient, Inbox, consume_notification_event}

-- `event_type.value`
abbrev pub type_value : DomainEventType → String
type_value capture_submitted = "capture_submitted.v1"
type_value analysis_completed = "analysis_completed.v1"
type_value analysis_failed = "analysis_failed.v1"
type_value scope_locked = "scope_locked.v1"
type_value change_requested = "change_requested.v1"
type_value dispatch_confirmed = "dispatch_confirmed.v1"
type_value completion_media_submitted = "completion_media_submitted.v1"
type_value completion_submitted = "completion_submitted.v1"
type_value completion_requested = "completion_requested.v1"
type_value completion_decided = "completion_decided.v1"
type_value media_deleted = "media_deleted.v1"

abbrev pub Attributes : Type 0
Attributes = List (String × String)

-- `class PulledEventMessage`; `bytes` is its `data`.
pub record PulledEventMessage : Type 0 where
  pub ack_id : Uuid
  pub bytes : List ℕ
  pub attributes : Attributes

abbrev pub holds : String → String → Attributes → Bool
holds name value [] = false
holds name value ((k, v) ∷ attributes) =
    if str_eq k name then str_eq v value else holds name value attributes

-- `class NotificationConsumerResult`
pub record NotificationConsumerResult : Type 0 where
  pub pulled : ℕ
  pub acknowledged : ℕ
  pub failed : ℕ

-- What has been done: the tables, the messages that the subscriber was told to be done, and the
-- counts. A nack that fails ends the batch.
pub record Batch : Type 0 where
  pub inbox : Inbox
  pub acks : List Uuid
  pub acknowledged : ℕ
  pub failed : ℕ
  pub broken : Bool

-- `validate` is `DomainEvent.model_validate_json`, `str_uuid` and `str_int` are `str`, `event_key`
-- is `f"event:{id}"`; `takes_ack` and `takes_nack` tell whether the subscriber raised.
module _ (validate : List ℕ → Option DomainEvent) (str_uuid event_key : Uuid → String)
    (str_int : ℕ → String) (takes_ack takes_nack : Uuid → Bool) where
  -- `message.attributes == expected_attributes`
  abbrev pub is_routed : DomainEvent → Attributes → Bool
  is_routed e attributes =
      length attributes == 4
      && holds "event_id" (str_uuid e.event_id) attributes
      && holds "event_type" (type_value e.event_type) attributes
      && holds "schema_version" (str_int e.schema_version) attributes
      && holds "idempotency_key" (event_key e.event_id) attributes

  -- `parse_domain_event`
  abbrev pub parse_domain_event : PulledEventMessage → Option DomainEvent
  parse_domain_event m = elim (validate m.bytes) [
    | none ↦ none
    | some e ↦ if is_routed e m.attributes then some e else none
  ]

  -- The `except` of the loop.
  abbrev pub give_back : PulledEventMessage → Batch → Batch
  give_back m b = record b { failed = b.failed + 1; broken = not (takes_nack m.ack_id) }

  -- After the commit the message is acknowledged.
  abbrev pub acknowledge : PulledEventMessage → Inbox → Batch → Batch
  acknowledge m inbox b =
      if takes_ack m.ack_id
      then record b { inbox = inbox; acks = m.ack_id ∷ b.acks; acknowledged = b.acknowledged + 1 }
      else give_back m (record b { inbox = inbox })

  -- The body of the loop.
  unfoldable pub consume_message : Ambient → PulledEventMessage → Batch → Batch
  consume_message a m b = elim (parse_domain_event m) [
    | none ↦ give_back m b
    | some event ↦ elim (consume_notification_event a event b.inbox) [
      | err e ↦ give_back m b
      | ok (_, inbox) ↦ acknowledge m inbox b
    ]
  ]

  -- The loop, until a nack fails.
  unfoldable pub consume_messages : (ℕ → Ambient) → ℕ → List PulledEventMessage → Batch → Batch
  consume_messages at n [] b = b
  consume_messages at n (m ∷ ms) b =
      if b.broken then b else consume_messages at (suc n) ms (consume_message (at n) m b)

  -- `consume_notification_events_once`, on the messages that the subscriber gave: what is
  -- committed, and what is returned unless a nack failed.
  unfoldable pub consume_notification_events_once :
      (ℕ → Ambient) → List PulledEventMessage → Inbox → Batch × Option NotificationConsumerResult
  consume_notification_events_once at messages inbox =
      let b =
        consume_messages at 0 messages
          (record { inbox = inbox; acks = []; acknowledged = 0; failed = 0; broken = false }) in
      (
        b,
        if b.broken
            then none
            else some (record {
              pulled = length messages;
              acknowledged = b.acknowledged;
              failed = b.failed;
            }),
      )
