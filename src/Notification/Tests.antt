-- ===== src/Notification/Tests.antt =====
-- Runs of a delivery pass on a small table, and the theorems at these inputs.
mod Inbox
use Prim.Native.String.{String}
use seqret_be.Prelude.{
  ℕ, ◌+◌, ◌*◌, ◌≤◌, ◌≡◌, refl, Bool, true, false, Option, none, some, [], ◌∷◌, arith, length, ◌⊎◌,
}
use seqret_be.Prelude.Clock.{Uuid, Instant, seconds}
use seqret_be.Prelude.Table.{find}
use seqret_be.Prelude.Transaction.{ok}
use seqret_be.Contracts.Events.{dispatch_confirmed}
use seqret_be.Notification.Model.{
  NotificationStatus, NotificationChannel, in_app, email, NotificationDelivery, Deliveries, row_key,
  ClaimedNotification, failed,
}
use seqret_be.Notification.Delivery.{
  claim_external_notifications, lease_notifications, mark_sent, mark_failure, stale, gave_up,
  is_due,
}
use seqret_be.Notification.Pass.{
  ProviderAnswer, accepted, Run, start_pass, workers, Turn, take, answer, first, record_answer,
  Turns, here, turn, Finished,
}
use seqret_be.Notification.Attempts.{sent_ends_claim, fifth_attempt_is_last}
use seqret_be.Notification.Pass.Bounds.{delivery_bounds}
use seqret_be.Notification.Pass.Progress.{pass_goes_on}

abbrev row : ℕ → NotificationChannel → Option String → ℕ → NotificationDelivery
row id channel destination attempts = record {
  id = id;
  event_id = 60;
  event_type = dispatch_confirmed;
  job_id = 31;
  recipient_participant_id = 9;
  channel = channel;
  destination = destination;
  status = NotificationStatus.pending;
  attempt_count = attempts;
  created_at = 0;
  last_attempt_at = none;
  sent_at = none;
  last_error_code = none;
  next_attempt_at = some (seconds 10);
  locked_until = none;
  lock_token = none;
  provider_message_id = none;
}

-- One delivery by mail, and one that only the application shows.
abbrev db : Deliveries
db = record { rows = row 1 email (some "a@b") 4 ∷ row 2 in_app none 0 ∷ []; draws = 0 }

abbrev uuid4 : ℕ → Uuid
uuid4 n = 500 + n

abbrev deep_link : Uuid → String
deep_link _ = "https://example/?job=31"

abbrev free : Uuid → Bool
free _ = false

abbrev now : Instant
now = seconds 50

abbrev provider : ClaimedNotification → ProviderAnswer
provider _ = accepted "m1"

claimed :
    (c : ClaimedNotification) × (db' : Deliveries) × (claim_external_notifications uuid4 deep_link
        free now 1 60 db
      ≡ ok (c ∷ [], db'))
unfolding claim_external_notifications lease_notifications
claimed = (_, _, refl)

recorded : (db' : Deliveries) × (mark_sent claimed.0 "m1" now claimed.1 ≡ ok (true, db'))
unfolding claimed mark_sent
recorded = (_, refl)

fifth_attempt_is_last_example :
    (db'' : Deliveries) × (r'' : NotificationDelivery) × (mark_failure claimed.0 "unavailable" true
        (seconds 60)
        claimed.1
      ≡ ok (gave_up, db''))
    × (find row_key 1 db''.rows ≡ some r'')
    × (r''.status ≡ failed)
    × (r''.attempt_count ≡ 5)
    × (is_due (seconds 999) r'' ≡ false)
unfolding claimed
fifth_attempt_is_last_example =
    fifth_attempt_is_last uuid4 deep_link free now 60 db claimed.1 claimed.0
      (row 1 email (some "a@b") 4) "unavailable" true (seconds 60) (seconds 999) (ground arith) refl
      refl (omega arith) claimed.2

started : (s : Run) × (start_pass 100 60 (seconds 10) db ≡ ok s)
unfolding start_pass
started = (_, refl)

abbrev Goes : Run → ℕ → Run → Type 0
Goes = Turns uuid4 deep_link provider now 100 60

two_turns : (last : Run) × Goes started.0 2 last
unfolding started claimed recorded record_answer
two_turns = (
  _,
  turn (turn here (take free claimed.0 claimed.1 refl (omega arith) (omega arith) claimed.2)) (
      answer claimed.0 [] (record { sent = 1; retry_scheduled = 0; failed = 0 }) recorded.0 first
        refl),
)

delivery_bounds_example :
    (two_turns.0.claimed ≤ 100)
    × (length two_turns.0.in_flight ≤ workers 100)
    × (two_turns.0.total.sent
          + two_turns.0.total.retry_scheduled
          + two_turns.0.total.failed
          + length two_turns.0.in_flight
        ≤ two_turns.0.claimed)
    × (2 ≤ 2 * 100 + 1)
delivery_bounds_example =
    delivery_bounds uuid4 deep_link provider now 100 60 (seconds 10) db started.1 two_turns.1

pass_goes_on_example :
    Finished uuid4 deep_link provider now 100 60 started.0
    ⊎ ((s' : Run) × Turn uuid4 deep_link provider now 100 60 started.0 s')
unfolding started
pass_goes_on_example =
    pass_goes_on uuid4 deep_link provider now 100 60 started.0 free (ground arith) (omega arith)
      (omega arith)
