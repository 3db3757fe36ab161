-- ===== src/Outbox/Tests.antt =====
-- Runs of the outbox on a small table, and the theorems at these inputs.
use seqret_be.Prelude.{
  ℕ, ◌+◌, ◌≤◌, ◌≡◌, refl, ◌⊎◌, Bool, true, false, Option, none, some, List, [], ◌∷◌, arith, ◌==◌,
  if◌then◌else◌, leb, ◌-◌, ◌^◌, ◌*◌, min,
}
use seqret_be.Prelude.Clock.{Uuid, Instant, seconds}
use seqret_be.Prelude.Table.{find}
use seqret_be.Prelude.Transaction.{ok}
use seqret_be.Contracts.Events.{
  DomainEvent, Payload, media_deleted, uuid, is_documented, build_event, is_trace_id,
}
use seqret_be.Contracts.Ports.{Exception, provider_error, unavailable}
use seqret_be.Outbox.{
  OutboxEvent, Outbox, ClaimedOutboxEvent, RelayResult, event_key, event_of, claim_outbox_events,
  mark_outbox_published, mark_outbox_failed, retry_delay, is_error_code, is_due,
}
use seqret_be.Outbox.Invariant.{IsValid}
use seqret_be.Outbox.Leases.{claim_key}
use seqret_be.Outbox.Leases.Exclusive.{live_lease_excludes}
use seqret_be.Outbox.Finalize.{Owns, released_row, failed_event_waits, retry_delay_bounds}
use seqret_be.Outbox.Steps.{Reach, here, next, publish, release, claim, Reach-Remains, Remains}
use seqret_be.Outbox.Relay.{relay_outbox_once, settle_all}
use seqret_be.Outbox.Relay.Runs.{relay_outbox_once_runs}
use seqret_be.Outbox.Relay.Effect.{relay_outbox_once_effect, relay_outbox_once_settles, IsSettled}

abbrev payload : Payload
payload = ("background_job_id", uuid 70) ∷ ("media_asset_id", uuid 71) ∷ []

abbrev row : ℕ → Instant → Option Instant → OutboxEvent
row id due published = record {
  event_id = id;
  event_type = media_deleted;
  schema_version = 1;
  aggregate_id = 5;
  actor_id = none;
  trace_id = "0123456789abcdef0123456789abcdef";
  payload = payload;
  occurred_at = due;
  next_attempt_at = due;
  attempt_count = 0;
  lock_token = none;
  locked_until = none;
  published_at = published;
  last_error_code = none;
}

-- Two events that are due, one that waits, one that is published.
abbrev box : Outbox
box = record {
  events =
      row 1 (seconds 20) none
      ∷ row 2 (seconds 10) none
      ∷ row 3 (seconds 900) none
      ∷ row 4 (seconds 5) (some (seconds 6))
      ∷ [];
  draws = 0;
}

abbrev uuid4 : ℕ → Uuid
uuid4 n = 500 + n

abbrev free : Uuid → Bool
free _ = false

abbrev now : Instant
now = seconds 100

-- The bus refuses event 1.
abbrev bus : DomainEvent → Option Exception
bus e =
    if e.event_id == 1
    then some (provider_error (record { kind = unavailable; retryable = true }))
    else none

box-IsValid : IsValid box
unfolding is_documented is_trace_id
box-IsValid = ground arith

-- What the first claim returns: the oldest event first.
abbrev claims : List ClaimedOutboxEvent
claims =
    record { event = event_of (row 2 (seconds 10) none); lock_token = 500 }
    ∷ record { event = event_of (row 1 (seconds 20) none); lock_token = 501 }
    ∷ []

abbrev leased_row : ℕ → Instant → Uuid → OutboxEvent
leased_row id due token =
    let r = row id due none in
    record r { attempt_count = 1; lock_token = some token; locked_until = some (seconds 160) }

abbrev claimed_box : Outbox
claimed_box = record {
  events =
      leased_row 1 (seconds 20) 501
      ∷ leased_row 2 (seconds 10) 500
      ∷ row 3 (seconds 900) none
      ∷ row 4 (seconds 5) (some (seconds 6))
      ∷ [];
  draws = 2;
}

first_claim : claim_outbox_events uuid4 free now 100 60 box ≡ ok (claims, claimed_box)
unfolding claim_outbox_events build_event is_documented is_trace_id
first_claim = refl

-- Meanwhile the worker of event 2 publishes it, and another tries to release event 1 by a token
-- that is not its own.
published_2 : (b : Outbox) × (mark_outbox_published 2 500 (seconds 120) claimed_box ≡ ok (true, b))
unfolding mark_outbox_published
published_2 = (_, refl)

not_released :
    mark_outbox_failed 1 777 "unavailable" (seconds 130) published_2.0 ≡ ok (false, published_2.0)
unfolding mark_outbox_failed is_error_code published_2
not_released = refl

abbrev meanwhile_2 : Reach uuid4 claimed_box published_2.0
meanwhile_2 =
    next (next here (publish 2 500 (seconds 120) true published_2.1))
      (release 1 777 "unavailable" (seconds 130) false not_released)

second_claim :
    claim_outbox_events uuid4 free (seconds 159) 100 60 published_2.0 ≡ ok ([], published_2.0)
unfolding claim_outbox_events build_event is_documented is_trace_id published_2
second_claim = refl

live_lease_excludes_example :
    (find event_key 1 published_2.0.events ≡ find event_key 1 claimed_box.events)
    × (find claim_key 1 [] ≡ none)
live_lease_excludes_example =
    live_lease_excludes uuid4 free free now (seconds 159) 100 100 60 60 box claimed_box
      published_2.0 published_2.0 claims [] 1
      (record { event = event_of (row 1 (seconds 20) none); lock_token = 501 }) box-IsValid
      first_claim refl meanwhile_2 refl second_claim (omega arith)

retry_delay_bounds_example :
    (retry_delay 3 ≡ 2 ^ min (3 - 1) 8)
    × (retry_delay 3 ≤ 256)
    × (retry_delay (3 + 1) ≡ min (2 * retry_delay 3) 256)
retry_delay_bounds_example = retry_delay_bounds 3 (omega arith)

owner_1 : Owns 1 501 claimed_box (leased_row 1 (seconds 20) 501)
owner_1 = (refl, refl, refl)

failed_event_waits_example :
    (box' : Outbox) × (mark_outbox_failed 1 501 "unavailable" now claimed_box ≡ ok (true, box'))
    × (find event_key 1 box'.events
        ≡ some (released_row now "unavailable" (leased_row 1 (seconds 20) 501)))
    × (is_due (seconds 101) (released_row now "unavailable" (leased_row 1 (seconds 20) 501))
        ≡ leb (now + seconds (retry_delay 1)) (seconds 101))
unfolding is_error_code
failed_event_waits_example =
    failed_event_waits 1 501 "unavailable" now claimed_box (leased_row 1 (seconds 20) 501)
      (seconds 101) refl owner_1

published_box : (box' : Outbox) × (mark_outbox_published 1 501 now claimed_box ≡ ok (true, box'))
unfolding mark_outbox_published
published_box = (_, refl)

one_published : Reach uuid4 box published_box.0
one_published =
    next (next here (claim free now 100 60 claims first_claim))
      (publish 1 501 now true published_box.1)

Reach-Remains_example : Remains 4 (row 4 (seconds 5) (some (seconds 6))) published_box.0
Reach-Remains_example =
    Reach-Remains 4 (row 4 (seconds 5) (some (seconds 6))) box-IsValid refl one_published

abbrev outcome_time : ClaimedOutboxEvent → Instant
outcome_time _ = seconds 101

relay_outbox_once_runs_example :
    (result : RelayResult) × (box' : Outbox) × (relay_outbox_once bus outcome_time uuid4 free
        (λ b. b)
        now
        100
        60
        (seconds 10)
        box
      ≡ (ok result, box'))
    × Reach uuid4 box box'
    × (result.published + result.failed ≤ result.claimed)
    × (result.claimed ≤ 100)
relay_outbox_once_runs_example =
    relay_outbox_once_runs uuid4 bus outcome_time free (λ b. b) now 100 60 (seconds 10) box
      (λ b. here) box-IsValid (omega arith) (omega arith) (omega arith) (omega arith)

abbrev Settled : ℕ → OutboxEvent → Outbox → Type 0
Settled = IsSettled bus outcome_time uuid4 free now 100 60 (seconds 10) box box-IsValid

relay_outbox_once_effect_example :
    (result : RelayResult) × (last : Outbox) × (relay_outbox_once bus outcome_time uuid4 free
        (λ b. b)
        now
        100
        60
        (seconds 10)
        box
      ≡ (ok result, last))
    × (result.published + result.failed ≡ result.claimed)
    × ((find event_key 1 last.events ≡ some (row 1 (seconds 20) none))
        ⊎ Settled 1 (row 1 (seconds 20) none) last)
relay_outbox_once_effect_example =
    relay_outbox_once_effect bus outcome_time uuid4 free now 100 60 (seconds 10) box box-IsValid 1
      (row 1 (seconds 20) none) refl (omega arith) (omega arith) (omega arith) (omega arith)

relay_outbox_once_settles_example :
    (result : RelayResult) × (last : Outbox) × (relay_outbox_once bus outcome_time uuid4 free
        (λ b. b)
        now
        100
        60
        (seconds 10)
        box
      ≡ (ok result, last))
    × Settled 2 (row 2 (seconds 10) none) last
relay_outbox_once_settles_example =
    relay_outbox_once_settles bus outcome_time uuid4 free now 100 60 (seconds 10) box box-IsValid 2
      (row 2 (seconds 10) none) (omega arith) refl refl (omega arith) (omega arith) (omega arith)
      (omega arith)

-- The pass as a whole: event 2 is published, event 1 is released, the others stay.
relay_run :
    (relay_outbox_once bus outcome_time uuid4 free (λ b. b) now 100 60 (seconds 10) box).0
    ≡ ok (record { claimed = 2; published = 1; failed = 1 })
unfolding relay_outbox_once settle_all claim_outbox_events build_event is_documented is_trace_id
    mark_outbox_published mark_outbox_failed is_error_code
relay_run = refl
