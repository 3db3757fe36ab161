-- ===== src/Notification/Pass/Progress.antt =====
-- A delivery pass does not get stuck.
use Prim.Native.String.{String}
use seqret_be.Prelude.{
  ℕ, ◌+◌, ◌≤◌, ◌<◌, ◌≡◌, refl, sym, subst, Bool, true, false, not, ◌&&◌, ◌||◌, List, [], ◌∷◌, arith,
  length, ltb, leb, is_none, ◌⊎◌, All, All-map_pred, Option-cases, Bool-cases, inl, inr,
}
use seqret_be.Prelude.Clock.{Uuid, Instant}
use seqret_be.Prelude.Table.{put, All-select, select_holds, length-select}
use seqret_be.Prelude.Transaction.{ok, Result-cases}
use seqret_be.Contracts.Ports.{provider_error, other_error, value}
use seqret_be.Notification.Model.{
  NotificationDelivery, NotificationChannel, in_app, email, sms, kakao, is_in_app, row_key,
  Deliveries, OutboundNotification, ClaimedNotification,
}
use seqret_be.Notification.Delivery.{
  external_channel, is_due, before, claimable, lease, message, lease_notifications,
  claim_external_notifications, held, mark_sent, mark_failure, write, sent_row, waiting_row,
  failed_row, stale, retry, gave_up,
}
use seqret_be.Notification.Pass.{
  ProviderAnswer, accepted, raised, Tally, record_answer, failure_of, failure_tally, Run, Removes,
  first, Turn, take, dry, answer, Finished,
}

-- `notification_destination_by_channel`
abbrev pub IsAddressed : NotificationDelivery → Type 0
IsAddressed r = is_in_app r.channel ≡ is_none r.destination

channel_total :
    (ch : NotificationChannel) → is_in_app ch ≡ false → (x : _) × (external_channel ch ≡ ok x)
channel_total email h = (_, refl)
channel_total sms h = (_, refl)
channel_total kakao h = (_, refl)
channel_total in_app h = absurd (ground arith)

mark_failure_total :
    (c : ClaimedNotification) (code : String) (b : Bool) (now : Instant) (db : Deliveries)
    → (t : Tally) × (db' : Deliveries) × (failure_of c code b now db ≡ ok (t, db'))
unfolding mark_failure
mark_failure_total c code b now db = elim (Option-cases (held c db)) [
  | inl gone ↦ (failure_tally stale, db, ground (arith, gone))
  | inr (r, mine) ↦ elim (Bool-cases (b && ltb r.attempt_count 5)) [
    | inl again ↦ (failure_tally retry, write (waiting_row now r) db, ground (arith, mine, again))
    | inr over ↦ (failure_tally gave_up, write (failed_row code r) db, ground (arith, mine, over))
  ]
]

-- Recording an answer never raises.
record_answer_total :
    (c : ClaimedNotification) (a : ProviderAnswer) (now : Instant) (db : Deliveries)
    → (t : Tally) × (db' : Deliveries) × (record_answer c a now db ≡ ok (t, db'))
unfolding record_answer mark_sent
record_answer_total c (accepted id) now db = elim (Option-cases (held c db)) [
  | inl gone ↦ (record { sent = 0; retry_scheduled = 0; failed = 0 }, db, ground (arith, gone))
  | inr (r, mine) ↦ (
    record { sent = 1; retry_scheduled = 0; failed = 0 },
    write (sent_row id now r) db,
    ground (arith, mine),
  )
]
record_answer_total c (raised (provider_error e)) now db =
    mark_failure_total c (value e.kind) e.retryable now db
record_answer_total c (raised other_error) now db = mark_failure_total c "unavailable" true now db

module _ (uuid4 : ℕ → Uuid) (deep_link : Uuid → String) where
  message_total :
      (r : NotificationDelivery)
      → IsAddressed r
      → is_in_app r.channel ≡ false
      → (text : OutboundNotification) × (message uuid4 deep_link r ≡ ok text)
  message_total r addressed external = elim (Option-cases r.destination) [
    | inl missing ↦ absurd (ground (arith, missing))
    | inr (d, known) ↦
        let (ch, by) = channel_total r.channel external in
        elim (Result-cases (message uuid4 deep_link r)) [
          | inl good ↦ good
          | inr (x, bad) ↦ absurd (ground (arith, known, by, bad))
        ]
  ]

  lease_total :
      (now : Instant) (lease_seconds : ℕ) (rows : List NotificationDelivery) (db : Deliveries)
      → All IsAddressed rows
      → All (λ r. is_in_app r.channel ≡ false) rows
      → (claims : List ClaimedNotification) × (db' : Deliveries) × (lease_notifications uuid4
            deep_link now lease_seconds rows db
          ≡ ok (claims, db'))
        × (length claims ≡ length rows)
  unfolding lease_notifications
  lease_total now lease_seconds [] db a e = ([], db, refl, refl)
  lease_total now lease_seconds (r ∷ rows) db a e =
      let (text, good) = message_total r a.0 e.0 in
      let (claims, db', h, same) =
        lease_total now lease_seconds rows
          (record {
            rows = put row_key (lease (uuid4 db.draws) now lease_seconds r) db.rows;
            draws = db.draws + 1;
          })
          a.1 e.1 in
      (
        record { notification_id = r.id; lock_token = uuid4 db.draws; message = text } ∷ claims,
        db',
        ground (arith, good, h),
        omega (arith, same),
      )

  -- A claim of one row returns at most one.
  claim_one_total :
      (busy : Uuid → Bool) (now : Instant) (lease_seconds : ℕ) (db : Deliveries)
      → All IsAddressed db.rows
      → 1 ≤ lease_seconds
      → (claims : List ClaimedNotification) × (db' : Deliveries) × (claim_external_notifications
            uuid4 deep_link busy now 1 lease_seconds db
          ≡ ok (claims, db'))
        × (length claims ≤ 1)
  unfolding claim_external_notifications
  claim_one_total busy now lease_seconds db a positive =
      let rows = claimable busy now 1 db.rows in
      let p = λ (r : NotificationDelivery). is_due now r && not (busy r.id) in
      let (claims, db', h, same) =
        lease_total now lease_seconds rows db (All-select row_key before IsAddressed p 1 db.rows a)
          (All-map_pred (λ r. p r ≡ true) (λ r. is_in_app r.channel ≡ false) (λ r q. ground arith)
            rows (select_holds row_key before p 1 db.rows)) in
      let few = length-select row_key before p 1 db.rows in
      (claims, db', ground (arith, h), omega (arith, same, few))

  module _ (provider : ClaimedNotification → ProviderAnswer) (now : Instant)
      (batch_size lease_seconds : ℕ) where
    -- If every row has a destination exactly when its channel is external, and the batch and the
    -- lease are positive, a delivery pass is over or one of its workers has a turn.
    pub pass_goes_on :
        (s : Run) (busy : Uuid → Bool)
        → All IsAddressed s.db.rows
        → 1 ≤ batch_size
        → 1 ≤ lease_seconds
        → Finished uuid4 deep_link provider now batch_size lease_seconds s
          ⊎ ((s' : Run) × Turn uuid4 deep_link provider now batch_size lease_seconds s s')
    pass_goes_on s busy a some_batch positive = by_flight s.in_flight refl
      where
        by_claims :
            (claims : List ClaimedNotification) (db' : Deliveries)
            → s.in_flight ≡ []
            → s.exhausted ≡ false
            → s.claimed < batch_size
            → claim_external_notifications uuid4 deep_link busy now 1 lease_seconds s.db
              ≡ ok (claims, db')
            → length claims ≤ 1
            → (s' : Run) × Turn uuid4 deep_link provider now batch_size lease_seconds s s'
        by_claims [] db' idle open_ below h few =
            (_, dry busy db' open_ below (ground (arith, idle)) h)
        by_claims (c ∷ []) db' idle open_ below h few =
            (_, take busy c db' open_ below (ground (arith, idle)) h)
        by_claims (c ∷ d ∷ cs) db' idle open_ below h few = absurd (omega (arith, few))

        by_flight :
            (cs : List ClaimedNotification)
            → s.in_flight ≡ cs
            → Finished uuid4 deep_link provider now batch_size lease_seconds s
              ⊎ ((s' : Run) × Turn uuid4 deep_link provider now batch_size lease_seconds s s')
        by_flight (c ∷ cs) busy_now =
            let (t, db', h) = record_answer_total c (provider c) now s.db in
            inr (_, answer c cs t db' (subst (λ x. Removes c x cs) (sym busy_now) first) h)
        by_flight [] idle = elim (Bool-cases (s.exhausted || leb batch_size s.claimed)) [
          | inl closed ↦ inl (record { idle = idle; closed = closed })
          | inr open_ ↦
              let (claims, db', h, few) = claim_one_total busy now lease_seconds s.db a positive in
              inr (by_claims claims db' idle (ground arith) (ground arith) h few)
        ]
