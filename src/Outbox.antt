-- ===== src/Outbox.antt =====
-- app/platform/event_bus: the transactional outbox. `OutboxEvent` (models.py) is a row of its
-- table, and the functions of service.py are commands on it.
--
-- A command runs in one transaction. `busy` tells which rows another transaction holds at that
-- moment (`FOR UPDATE SKIP LOCKED`). `uuid4 n` is the n-th token that the process draws.
pub mod Invariant
pub mod Leases
pub mod Finalize
pub mod Steps
pub mod Relay
mod Tests
use Prim.Native.String.{String}
use seqret_be.Prelude.{
  ℕ, suc, ◌+◌, ◌-◌, ◌*◌, ◌^◌, ◌≡◌, Bool, true, false, not, ◌&&◌, ◌||◌, Option, none, some, List, [],
  ◌∷◌, min, ltb, leb, ◌==◌, if◌then◌else◌, is_none, is_some_eq, keep, length,
}
use seqret_be.Prelude.Clock.{Uuid, Instant, seconds}
use seqret_be.Prelude.Text.{codes, all, in_range}
use seqret_be.Prelude.Table.{find, put, select}
use seqret_be.Prelude.Transaction.{
  Command, Result, ok, err, value_error, return, raise, raise_if, get, modify, ◌>>=◌, ◌>>◌,
}
use seqret_be.Contracts.Events.{DomainEventType, Payload, DomainEvent, build_event}
use seqret_be.Contracts.Ports.{ProviderError, Exception, provider_error, other_error, value}

abbrev pub max_batch_size : ℕ
max_batch_size = 100

abbrev pub max_retry_delay_seconds : ℕ
max_retry_delay_seconds = 300

-- `class OutboxEvent`
pub record OutboxEvent : Type 0 where
  pub event_id : Uuid
  pub event_type : DomainEventType
  pub schema_version : ℕ
  pub aggregate_id : Uuid
  pub actor_id : Option Uuid
  pub trace_id : String
  pub payload : Payload
  pub occurred_at : Instant
  pub next_attempt_at : Instant
  pub attempt_count : ℕ
  pub lock_token : Option Uuid
  pub locked_until : Option Instant
  pub published_at : Option Instant
  pub last_error_code : Option String

abbrev pub event_key : OutboxEvent → ℕ
event_key r = r.event_id

-- The table, and how many tokens have been drawn.
pub record Outbox : Type 0 where
  pub events : List OutboxEvent
  pub draws : ℕ

-- `class ClaimedOutboxEvent`
pub record ClaimedOutboxEvent : Type 0 where
  pub event : DomainEvent
  pub lock_token : Uuid

-- `class RelayResult`
pub record RelayResult : Type 0 where
  pub claimed : ℕ
  pub published : ℕ
  pub failed : ℕ

-- The three states of `OUTBOX_DELIVERY_TRANSITIONS`.
pub data DeliveryState : Type 0 where
  ready leased published : DeliveryState

abbrev pub delivery_state : OutboxEvent → DeliveryState
delivery_state r =
    if not (is_none r.published_at)
    then published
    else if not (is_none r.lock_token)
    then leased
    else ready

-- `target in OUTBOX_DELIVERY_TRANSITIONS[current]`
abbrev pub may_become : DeliveryState → DeliveryState → Bool
may_become ready leased = true
may_become leased ready = true
may_become leased leased = true
may_become leased published = true
may_become _ _ = false

abbrev pub require_delivery_transition : OutboxEvent → DeliveryState → Result (Unit {0})
require_delivery_transition r target =
    if may_become (delivery_state r) target then ok tt else err value_error

-- What a call gets from the process: `uuid4()`, `utc_now()` and `secrets.token_hex(16)`.
pub record Ambient : Type 0 where
  pub uuid : Uuid
  pub now : Instant
  pub hex : String

-- `x or default`
abbrev pub or_else {ℓ} : {A : Type ℓ} → Option A → A → A
or_else none d = d
or_else (some a) d = a

-- `trace_id or …`: an empty text is replaced too.
abbrev pub or_hex : Option String → String → String
or_hex none d = d
or_hex (some String.[]) d = d
or_hex (some (String.◌∷◌ c s)) d = String.◌∷◌ c s

-- The row that `enqueue_domain_event` adds for an event.
abbrev pub new_row : DomainEvent → OutboxEvent
new_row e = record {
  event_id = e.event_id;
  event_type = e.event_type;
  schema_version = e.schema_version;
  aggregate_id = e.aggregate_id;
  actor_id = e.actor_id;
  trace_id = e.trace_id;
  payload = e.payload;
  occurred_at = e.occurred_at;
  next_attempt_at = e.occurred_at;
  attempt_count = 0;
  lock_token = none;
  locked_until = none;
  published_at = none;
  last_error_code = none;
}

-- `enqueue_domain_event`, inside the caller's transaction.
unfoldable pub enqueue_domain_event :
    Ambient
    → DomainEventType
    → (aggregate_id : Uuid) (actor_id : Option Uuid) (trace_id : Option String) → Payload
    → (occurred_at : Option Instant) → Command Outbox DomainEvent
enqueue_domain_event a event_type aggregate_id actor_id trace_id payload occurred_at box =
    elim (build_event (record {
      event_id = a.uuid;
      event_type = event_type;
      schema_version = 1;
      aggregate_id = aggregate_id;
      occurred_at = or_else occurred_at a.now;
      actor_id = actor_id;
      trace_id = or_hex trace_id a.hex;
      payload = payload;
    })) [ ok e ↦ ok (e, record box { events = new_row e ∷ box.events }) | err x ↦ err x ]

-- The envelope that a row stores. Stored instants are UTC.
abbrev pub event_of : OutboxEvent → DomainEvent
event_of r = record {
  event_id = r.event_id;
  event_type = r.event_type;
  schema_version = r.schema_version;
  aggregate_id = r.aggregate_id;
  occurred_at = r.occurred_at;
  actor_id = r.actor_id;
  trace_id = r.trace_id;
  payload = r.payload;
}

-- `_to_domain_event`, which validates the stored row again.
abbrev pub to_domain_event : OutboxEvent → Result DomainEvent
to_domain_event r = build_event (event_of r)

-- The `WHERE` of a claim.
abbrev pub is_due : Instant → OutboxEvent → Bool
is_due now r =
    is_none r.published_at
    && leb r.next_attempt_at now
    && elim r.locked_until [ none ↦ true | some until ↦ leb until now ]

-- `ORDER BY occurred_at, event_id`
abbrev pub before : OutboxEvent → OutboxEvent → Bool
before r s =
    ltb r.occurred_at s.occurred_at || (r.occurred_at == s.occurred_at && leb r.event_id s.event_id)

abbrev pub claimable : (busy : Uuid → Bool) → Instant → ℕ → List OutboxEvent → List OutboxEvent
claimable busy now limit events =
    select event_key before (λ r. is_due now r && not (busy r.event_id)) limit events

-- The body of the claim's loop, on its row.
abbrev pub lease : Uuid → Instant → ℕ → OutboxEvent → OutboxEvent
lease token now lease_seconds r = record r {
  lock_token = some token;
  locked_until = some (now + seconds lease_seconds);
  attempt_count = r.attempt_count + 1;
}

module _ (uuid4 : ℕ → Uuid) where
  -- The claim's loop over the selected rows.
  pub lease_rows : Instant → ℕ → List OutboxEvent → Command Outbox (List ClaimedOutboxEvent)
  lease_rows now lease_seconds [] box = ok ([], box)
  lease_rows now lease_seconds (r ∷ rows) box =
      let token = uuid4 box.draws in
      let leased_row = lease token now lease_seconds r in
      let rest =
        lease_rows now lease_seconds rows
          (record { events = put event_key leased_row box.events; draws = box.draws + 1 }) in
      elim (require_delivery_transition r leased) [
        | err x ↦ err x
        | ok _ ↦ elim (to_domain_event leased_row) [
          | err x ↦ err x
          | ok e ↦ elim rest [
            | err x ↦ err x
            | ok (claims, box') ↦ ok (record { event = e; lock_token = token } ∷ claims, box')
          ]
        ]
      ]

  unfoldable pub claim_outbox_events :
      (busy : Uuid → Bool)
      → Instant
      → (limit lease_seconds : ℕ) → Command Outbox (List ClaimedOutboxEvent)
  unfolding lease_rows
  claim_outbox_events busy now limit lease_seconds = do
    raise_if (not (leb 1 limit && leb limit max_batch_size)) value_error
    raise_if (lease_seconds == 0) value_error
    box ← get
    lease_rows now lease_seconds (claimable busy now limit box.events)

-- The row that the caller still owns, if any: the `WHERE` of both finalizers.
abbrev pub owned : Uuid → Uuid → List OutboxEvent → Option OutboxEvent
owned event_id token events =
    keep (λ r. is_some_eq r.lock_token token && is_none r.published_at)
      (find event_key event_id events)

unfoldable pub mark_outbox_published : Uuid → Uuid → Instant → Command Outbox Bool
mark_outbox_published event_id token now box = elim (owned event_id token box.events) [
  | none ↦ ok (false, box)
  | some r ↦ elim (require_delivery_transition r published) [
    | err x ↦ err x
    | ok _ ↦
        let r' = record r {
          published_at = some now;
          lock_token = none;
          locked_until = none;
          last_error_code = none;
        } in
        ok (true, record box { events = put event_key r' box.events })
  ]
]

-- `ERROR_CODE_PATTERN.fullmatch`: a lowercase letter, then at most 63 letters, digits and `_`.
abbrev pub is_code_tail : ℕ → Bool
is_code_tail c = in_range b'a' b'z' c || in_range b'0' b'9' c || c == b'_'

abbrev pub is_identifier : List ℕ → Bool
is_identifier [] = false
is_identifier (c ∷ cs) = in_range b'a' b'z' c && (leb (length cs) 63 && all is_code_tail cs)

pub is_error_code : String → Bool
is_error_code s = is_identifier (codes s)

-- `min(2 ** min(max(attempt_count - 1, 0), 8), MAX_RETRY_DELAY_SECONDS)`
unfoldable pub retry_delay : ℕ → ℕ
retry_delay attempt_count = min (2 ^ min (attempt_count - 1) 8) max_retry_delay_seconds

unfoldable pub mark_outbox_failed : Uuid → Uuid → String → Instant → Command Outbox Bool
unfolding is_error_code
mark_outbox_failed event_id token error_code now box =
    if not (is_error_code error_code)
    then err value_error
    else elim (owned event_id token box.events) [
      | none ↦ ok (false, box)
      | some r ↦ elim (require_delivery_transition r ready) [
        | err x ↦ err x
        | ok _ ↦
            let r' = record r {
              next_attempt_at = now + seconds (retry_delay r.attempt_count);
              lock_token = none;
              locked_until = none;
              last_error_code = some error_code;
            } in
            ok (true, record box { events = put event_key r' box.events })
      ]
    ]
