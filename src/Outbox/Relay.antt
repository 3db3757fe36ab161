-- ===== src/Outbox/Relay.antt =====
-- `relay_outbox_once` of app/platform/event_bus/service.py: claim, publish, finalize.
--
-- The event bus is outside the program: `bus e` is the exception that publishing `e` ends with, if
-- any. Between the claim's transaction and the finalizing one other workers commit `meanwhile`.
pub mod Runs
pub mod Effect
use Prim.Native.String.{String}
use seqret_be.Prelude.{
  ℕ, ◌+◌, Bool, true, false, Option, none, some, List, [], ◌∷◌, leb, ◌==◌, if◌then◌else◌, length,
}
use seqret_be.Prelude.Clock.{Uuid, Instant, seconds}
use seqret_be.Prelude.Transaction.{Command, Result, ok, err, value_error, return, ◌>>=◌}
use seqret_be.Contracts.Events.{DomainEvent}
use seqret_be.Contracts.Ports.{Exception, provider_error, other_error, value}
use seqret_be.Outbox.{
  Outbox, ClaimedOutboxEvent, RelayResult, claim_outbox_events, mark_outbox_published,
  mark_outbox_failed,
}

-- `error.kind.value if isinstance(error, ProviderError) else "unexpected"`
abbrev pub error_code : Exception → String
error_code (provider_error e) = value e.kind
error_code other_error = "unexpected"

-- `int(recorded)`
abbrev pub as_count : Bool → ℕ
as_count true = 1
as_count false = 0

module _ (bus : DomainEvent → Option Exception) (outcome_time : ClaimedOutboxEvent → Instant) where
  -- One round of the finalizing loop: what it adds to `published` and to `failed`.
  pub settle : ClaimedOutboxEvent → Command Outbox (ℕ × ℕ)
  settle c = elim (bus c.event) [
    | some error ↦
        mark_outbox_failed c.event.event_id c.lock_token (error_code error) (outcome_time c)
        >>= λ recorded. return (0, as_count recorded)
    | none ↦ mark_outbox_published c.event.event_id c.lock_token (outcome_time c) >>= λ recorded.
        return (as_count recorded, 0)
  ]

  unfoldable pub settle_all : List ClaimedOutboxEvent → Command Outbox (ℕ × ℕ)
  unfolding settle
  settle_all [] = return (0, 0)
  settle_all (c ∷ claims) = do
    one ← settle c
    rest ← settle_all claims
    return (one.0 + rest.0, one.1 + rest.1)

  module _ (uuid4 : ℕ → Uuid) (busy : Uuid → Bool) (meanwhile : Outbox → Outbox) where
    -- What the call returns or raises, and the table that is committed when it ends.
    -- `timeout` is `publish_timeout_seconds` in microseconds.
    unfoldable pub relay_outbox_once :
        (now : Instant) (batch_size lease_seconds timeout : ℕ)
        → Outbox
        → Result RelayResult × Outbox
    relay_outbox_once now batch_size lease_seconds timeout box =
        if timeout == 0
        then (err value_error, box)
        else if leb (seconds lease_seconds) timeout
        then (err value_error, box)
        else elim (claim_outbox_events uuid4 busy now batch_size lease_seconds box) [
          | err x ↦ (err x, box)
          | ok ([], box') ↦ (ok (record { claimed = 0; published = 0; failed = 0 }), box')
          | ok (c ∷ claims, box') ↦ elim (settle_all (c ∷ claims) (meanwhile box')) [
            | err x ↦ (err x, meanwhile box')
            | ok (counts, box'') ↦ (
              ok (record {
                claimed = length (c ∷ claims);
                published = counts.0;
                failed = counts.1;
              }),
              box'',
            )
          ]
        ]
