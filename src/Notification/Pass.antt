-- ===== src/Notification/Pass.antt =====
-- deliver_external_notifications_once: up to ten workers of one process, which share counters, take
-- turns in any order; each claims one row at a time.
pub mod Bounds
pub mod Progress
use Prim.Native.String.{String}
use seqret_be.Prelude.{
  ℕ, ◌+◌, ◌*◌, ◌<◌, ◌≡◌, min, Bool, true, false, not, ◌&&◌, ◌||◌, Option, none, some, List, [], ◌∷◌,
  leb, ◌==◌, if◌then◌else◌, length,
}
use seqret_be.Prelude.Clock.{Uuid, Instant, seconds}
use seqret_be.Prelude.Transaction.{Command, Result, ok, err, value_error}
use seqret_be.Contracts.Ports.{Exception, provider_error, other_error, value}
use seqret_be.Outbox.Relay.{as_count}
use seqret_be.Notification.Model.{Deliveries, ClaimedNotification}
use seqret_be.Notification.Delivery.{
  claim_external_notifications, mark_sent, mark_failure, FailureOutcome, stale, retry, gave_up,
}

-- What the provider answers: its message id, or an exception.
pub data ProviderAnswer : Type 0 where
  accepted : String → ProviderAnswer
  raised : Exception → ProviderAnswer

-- What one answer adds to `sent`, `retry_scheduled` and `failed`.
pub record Tally : Type 0 where
  pub sent : ℕ
  pub retry_scheduled : ℕ
  pub failed : ℕ

abbrev pub failure_tally : FailureOutcome → Tally
failure_tally stale = record { sent = 0; retry_scheduled = 0; failed = 0 }
failure_tally retry = record { sent = 0; retry_scheduled = 1; failed = 0 }
failure_tally gave_up = record { sent = 0; retry_scheduled = 0; failed = 1 }

abbrev pub failure_of :
    ClaimedNotification → (code : String) (retryable : Bool) → Instant → Command Deliveries Tally
failure_of c code retryable now db = elim (mark_failure c code retryable now db) [
  | err x ↦ err x
  | ok (outcome, db') ↦ ok (failure_tally outcome, db')
]

-- The branches after the provider's call.
unfoldable pub record_answer :
    ClaimedNotification → ProviderAnswer → Instant → Command Deliveries Tally
record_answer c (accepted id) now db = elim (mark_sent c id now db) [
  | err x ↦ err x
  | ok (finalized, db') ↦
      ok (record { sent = as_count finalized; retry_scheduled = 0; failed = 0 }, db')
]
record_answer c (raised (provider_error e)) now db = failure_of c (value e.kind) e.retryable now db
record_answer c (raised other_error) now db = failure_of c "unavailable" true now db

-- The database, the shared counters, and the claims whose provider call is not recorded yet.
pub record Run : Type 0 where
  pub db : Deliveries
  pub claimed : ℕ
  pub total : Tally
  pub exhausted : Bool
  pub in_flight : List ClaimedNotification

-- `class ExternalDeliveryResult`
pub record ExternalDeliveryResult : Type 0 where
  pub claimed : ℕ
  pub sent : ℕ
  pub retry_scheduled : ℕ
  pub failed : ℕ

abbrev pub delivery_concurrency : ℕ
delivery_concurrency = 10

abbrev pub workers : ℕ → ℕ
workers batch_size = min batch_size delivery_concurrency

-- The guards, and the state in which the workers start. `timeout` is in microseconds.
unfoldable pub start_pass : (batch_size lease_seconds timeout : ℕ) → Deliveries → Result Run
start_pass batch_size lease_seconds timeout db =
    if not (leb 1 batch_size && leb batch_size 100)
    then err value_error
    else if timeout == 0
    then err value_error
    else if leb (seconds lease_seconds) (timeout + seconds 1)
    then err value_error
    else ok (record {
      db = db;
      claimed = 0;
      total = record { sent = 0; retry_scheduled = 0; failed = 0 };
      exhausted = false;
      in_flight = [];
    })

abbrev pub finish_pass : Run → ExternalDeliveryResult
finish_pass s = record {
  claimed = s.claimed;
  sent = s.total.sent;
  retry_scheduled = s.total.retry_scheduled;
  failed = s.total.failed;
}

abbrev pub add_tally : Tally → Tally → Tally
add_tally a b = record {
  sent = a.sent + b.sent;
  retry_scheduled = a.retry_scheduled + b.retry_scheduled;
  failed = a.failed + b.failed;
}

-- Leaving out one of the claims.
pub data Removes (c : ClaimedNotification)
    : List ClaimedNotification → List ClaimedNotification → Type 0 where
  first : {cs : List ClaimedNotification} → Removes c (c ∷ cs) cs
  later :
      {d : ClaimedNotification} {cs ds : List ClaimedNotification}
      → Removes c cs ds
      → Removes c (d ∷ cs) (d ∷ ds)

module _ (uuid4 : ℕ → Uuid) (deep_link : Uuid → String)
    (provider : ClaimedNotification → ProviderAnswer) (now : Instant)
    (batch_size lease_seconds : ℕ) where
  -- One turn of a worker: under the gate it claims one row, or it finds none and the pass is
  -- exhausted; or its provider has answered and the answer is recorded.
  pub data Turn (s : Run) : Run → Type 0 where
    take :
        (busy : Uuid → Bool) (c : ClaimedNotification) (db' : Deliveries)
        → s.exhausted ≡ false
        → s.claimed < batch_size
        → length s.in_flight < workers batch_size
        → claim_external_notifications uuid4 deep_link busy now 1 lease_seconds s.db
          ≡ ok (c ∷ [], db')
        → Turn s (record s { db = db'; claimed = s.claimed + 1; in_flight = c ∷ s.in_flight })
    dry :
        (busy : Uuid → Bool) (db' : Deliveries)
        → s.exhausted ≡ false
        → s.claimed < batch_size
        → length s.in_flight < workers batch_size
        → claim_external_notifications uuid4 deep_link busy now 1 lease_seconds s.db ≡ ok ([], db')
        → Turn s (record s { db = db'; exhausted = true })
    answer :
        (c : ClaimedNotification) (rest : List ClaimedNotification) (t : Tally) (db' : Deliveries)
        → Removes c s.in_flight rest
        → record_answer c (provider c) now s.db ≡ ok (t, db')
        → Turn s (record s { db = db'; total = add_tally s.total t; in_flight = rest })

  -- The workers' turns, counted, with any commits of other processes between them.
  pub data Turns (s : Run) : ℕ → Run → Type 0 where
    here : Turns s 0 s
    turn : {n : ℕ} {mid last : Run} → Turns s n mid → Turn mid last → Turns s (n + 1) last
    meanwhile :
        {n : ℕ} {mid : Run} → Turns s n mid → (db : Deliveries) → Turns s n (record mid { db = db })

  -- No worker has a turn left: nothing is in flight, and the gate is closed.
  pub record Finished (s : Run) : Type 0 where
    pub idle : s.in_flight ≡ []
    pub closed : (s.exhausted || leb batch_size s.claimed) ≡ true
