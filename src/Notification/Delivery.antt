-- ===== src/Notification/Delivery.antt =====
-- delivery.py of notification: claiming due deliveries and recording what the provider answered.
use Prim.Native.String.{String}
use seqret_be.Prelude.{
  ℕ, ◌+◌, ◌-◌, ◌^◌, min, Bool, true, false, not, ◌&&◌, ◌||◌, Option, none, some, List, [], ◌∷◌, ltb,
  leb, ◌==◌, if◌then◌else◌, is_some_eq, keep,
}
use seqret_be.Prelude.Clock.{Uuid, Instant, seconds}
use seqret_be.Prelude.Table.{find, put, select}
use seqret_be.Prelude.Transaction.{
  Command, Result, ok, err, value_error, assertion, key_error, raise_if, get, ◌>>=◌, ◌>>◌,
}
use seqret_be.Notification.Model.{
  NotificationStatus, is_pending, NotificationChannel, in_app, email, sms, kakao, is_in_app,
  NotificationDelivery, row_key, Deliveries, ExternalNotificationChannel, by_email, by_sms,
  by_kakao, OutboundNotification, ClaimedNotification, event_message,
}

abbrev pub max_delivery_attempts : ℕ
max_delivery_attempts = 5

abbrev pub max_retry_delay_seconds : ℕ
max_retry_delay_seconds = 300

-- `_external_channel`; the dictionary has no entry for `IN_APP`.
abbrev pub external_channel : NotificationChannel → Result ExternalNotificationChannel
external_channel email = ok by_email
external_channel sms = ok by_sms
external_channel kakao = ok by_kakao
external_channel in_app = err key_error

-- The `WHERE` of a claim; a NULL `next_attempt_at` is not due.
abbrev pub is_due : Instant → NotificationDelivery → Bool
is_due now r =
    not (is_in_app r.channel)
    && is_pending r.status
    && elim r.next_attempt_at [ none ↦ false | some at ↦ leb at now ]
    && elim r.locked_until [ none ↦ true | some until ↦ leb until now ]

-- `ORDER BY next_attempt_at, id`, on rows whose `next_attempt_at` is set.
abbrev pub before : NotificationDelivery → NotificationDelivery → Bool
before r s = elim r.next_attempt_at [
  | none ↦ false
  | some a ↦ elim s.next_attempt_at [ none ↦ true | some b ↦ ltb a b || (a == b && leb r.id s.id) ]
]

abbrev pub claimable :
    (busy : Uuid → Bool) → Instant → ℕ → List NotificationDelivery → List NotificationDelivery
claimable busy now limit rows =
    select row_key before (λ r. is_due now r && not (busy r.id)) limit rows

-- The body of the claim's loop, on its row.
abbrev pub lease : Uuid → Instant → ℕ → NotificationDelivery → NotificationDelivery
lease token now lease_seconds r = record r {
  lock_token = some token;
  locked_until = some (now + seconds lease_seconds);
  attempt_count = r.attempt_count + 1;
  last_attempt_at = some now;
}

-- `deep_link job_id` is the text `f"{frontend_origin}/?job={job_id}"`.
module _ (uuid4 : ℕ → Uuid) (deep_link : Uuid → String) where
  -- `_message`
  abbrev pub message : NotificationDelivery → Result OutboundNotification
  message r = elim r.destination [
    | none ↦ err assertion
    | some destination ↦ elim (external_channel r.channel) [
      | err x ↦ err x
      | ok channel ↦ ok (record {
        notification_id = r.id;
        event_id = r.event_id;
        job_id = r.job_id;
        channel = channel;
        destination = destination;
        subject = "[SEQRET] 작업 상태 알림";
        body = event_message r.event_type;
        deep_link = deep_link r.job_id;
      })
    ]
  ]

  -- The claim's loop over the selected rows.
  unfoldable pub lease_notifications :
      Instant → ℕ → List NotificationDelivery → Command Deliveries (List ClaimedNotification)
  lease_notifications now lease_seconds [] db = ok ([], db)
  lease_notifications now lease_seconds (r ∷ rows) db =
      let token = uuid4 db.draws in
      let rest = lease_notifications now lease_seconds rows (record {
        rows = put row_key (lease token now lease_seconds r) db.rows;
        draws = db.draws + 1;
      }) in
      elim (message r) [
        | err x ↦ err x
        | ok text ↦ elim rest [
          | err x ↦ err x
          | ok (claims, db') ↦
              ok (
                record { notification_id = r.id; lock_token = token; message = text } ∷ claims,
                db',
              )
        ]
      ]

  unfoldable pub claim_external_notifications :
      (busy : Uuid → Bool)
      → Instant
      → (limit lease_seconds : ℕ) → Command Deliveries (List ClaimedNotification)
  claim_external_notifications busy now limit lease_seconds = do
    raise_if (not (leb 1 limit && leb limit 100)) value_error
    raise_if (lease_seconds == 0) value_error
    db ← get
    lease_notifications now lease_seconds (claimable busy now limit db.rows)

-- The row that the claim still holds: the `WHERE` of both finalizers.
abbrev pub held : ClaimedNotification → Deliveries → Option NotificationDelivery
held c db =
    keep (λ r. is_some_eq r.lock_token c.lock_token && is_pending r.status)
      (find row_key c.notification_id db.rows)

abbrev pub write : NotificationDelivery → Deliveries → Deliveries
write r db = record db { rows = put row_key r db.rows }

abbrev pub sent_row : String → Instant → NotificationDelivery → NotificationDelivery
sent_row provider_message_id now r = record r {
  status = NotificationStatus.sent;
  sent_at = some now;
  last_error_code = none;
  next_attempt_at = none;
  lock_token = none;
  locked_until = none;
  provider_message_id = some provider_message_id;
}

-- `_mark_sent`
unfoldable pub mark_sent : ClaimedNotification → String → Instant → Command Deliveries Bool
mark_sent c provider_message_id now db = elim (held c db) [
  | none ↦ ok (false, db)
  | some r ↦ ok (true, write (sent_row provider_message_id now r) db)
]

-- What `_mark_failure` answers.
pub data FailureOutcome : Type 0 where
  stale retry gave_up : FailureOutcome

-- `min(2 ** min(max(attempt_count - 1, 0), 8), MAX_RETRY_DELAY_SECONDS)`
abbrev pub delivery_delay : ℕ → ℕ
delivery_delay attempt_count = min (2 ^ min (attempt_count - 1) 8) max_retry_delay_seconds

abbrev pub waiting_row : Instant → NotificationDelivery → NotificationDelivery
waiting_row now r = record r {
  lock_token = none;
  locked_until = none;
  last_error_code = none;
  next_attempt_at = some (now + seconds (delivery_delay r.attempt_count));
}

abbrev pub failed_row : String → NotificationDelivery → NotificationDelivery
failed_row code r = record r {
  lock_token = none;
  locked_until = none;
  status = NotificationStatus.failed;
  last_error_code = some code;
  next_attempt_at = none;
}

-- `_mark_failure`
unfoldable pub mark_failure :
    ClaimedNotification
    → (error_code : String) (retryable : Bool) (now : Instant) → Command Deliveries FailureOutcome
mark_failure c code retryable now db = elim (held c db) [
  | none ↦ ok (stale, db)
  | some r ↦
      if retryable && ltb r.attempt_count max_delivery_attempts
      then ok (retry, write (waiting_row now r) db)
      else ok (gave_up, write (failed_row code r) db)
]
