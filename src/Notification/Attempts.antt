-- ===== src/Notification/Attempts.antt =====
-- One claim of a notification and what may follow it.
use Prim.Native.String.{String}
use seqret_be.Prelude.{
  ℕ, ◌+◌, ◌≤◌, ◌≡◌, refl, Bool, true, false, not, ◌&&◌, some, List, [], ◌∷◌, arith, length, All,
  Option-cases, inl, inr,
}
use seqret_be.Prelude.Clock.{Uuid, Instant}
use seqret_be.Prelude.Table.{
  find, find-put, find_key, IsKeyed, find-IsKeyed, All-select, length-select,
}
use seqret_be.Prelude.Transaction.{ok, Result-cases}
use seqret_be.Notification.Model.{
  NotificationDelivery, row_key, Deliveries, ClaimedNotification, pending, failed,
}
use seqret_be.Notification.Delivery.{
  is_due, before, claimable, lease, message, lease_notifications, claim_external_notifications,
  write, sent_row, mark_sent, mark_failure, failed_row, stale, gave_up,
}

-- After a claim has recorded its delivery, whatever the same claim records next finds no row and
-- changes nothing.
pub sent_ends_claim :
    (c : ClaimedNotification) (provider_message_id other_id code : String) (retryable : Bool)
    (now later : Instant) (db db' : Deliveries)
    → mark_sent c provider_message_id now db ≡ ok (true, db')
    → (mark_sent c other_id later db' ≡ ok (false, db'))
      × (mark_failure c code retryable later db' ≡ ok (stale, db'))
unfolding mark_sent mark_failure
sent_ends_claim c id other_id code b now later db db' h =
    elim (Option-cases (find row_key c.notification_id db.rows)) [
      | inl missing ↦ absurd (ground arith)
      | inr (r, found) ↦
          let row = sent_row id now r in
          let written : db' ≡ write row db = ground arith in
          let found' =
            find-put row_key c.notification_id row r db.rows found
              (find_key row_key c.notification_id db.rows r found) in
          ground (arith, written, found')
    ]

module _ (uuid4 : ℕ → Uuid) (deep_link : Uuid → String) (busy : Uuid → Bool) (now : Instant)
    (lease_seconds : ℕ) where
  -- What a claim of one row has done, by the rows that it selected.
  one_leased :
      (rows : List NotificationDelivery) (db db' : Deliveries) (c : ClaimedNotification)
      → length rows ≤ 1
      → All (λ r. find row_key r.id db.rows ≡ some r) rows
      → lease_notifications uuid4 deep_link now lease_seconds rows db ≡ ok (c ∷ [], db')
      → (r : NotificationDelivery) × (find row_key c.notification_id db.rows ≡ some r)
        × (find row_key c.notification_id db'.rows ≡ some (lease c.lock_token now lease_seconds r))
  unfolding lease_notifications
  one_leased [] db db' c few known h = absurd (ground arith)
  one_leased (r ∷ []) db db' c few known h = elim (Result-cases (message uuid4 deep_link r)) [
    | inr (x, bad) ↦ absurd (ground (arith, bad))
    | inl (text, good) ↦
        let row = lease (uuid4 db.draws) now lease_seconds r in
        (
          r,
          ground (arith, good, known.0),
          ground (arith, good, find-put row_key r.id row r db.rows known.0 refl),
        )
  ]
  one_leased (r ∷ s ∷ rows) db db' c few known h = absurd (omega (arith, few))

  -- A worker that has claimed one row holds it, leased by its token.
  pub one_claimed :
      (db db' : Deliveries) (c : ClaimedNotification)
      → IsKeyed row_key db.rows
      → claim_external_notifications uuid4 deep_link busy now 1 lease_seconds db ≡ ok (c ∷ [], db')
      → (r : NotificationDelivery) × (find row_key c.notification_id db.rows ≡ some r)
        × (find row_key c.notification_id db'.rows ≡ some (lease c.lock_token now lease_seconds r))
  unfolding claim_external_notifications
  one_claimed db db' c keyed h =
      let p = λ (r : NotificationDelivery). is_due now r && not (busy r.id) in
      one_leased (claimable busy now 1 db.rows) db db' c (length-select row_key before p 1 db.rows)
        (All-select row_key before (λ r. find row_key r.id db.rows ≡ some r) p 1 db.rows
          (find-IsKeyed row_key db.rows keyed))
        (ground arith)

  -- In a table with distinct ids, if a pending delivery that was attempted at least four times is
  -- claimed and the attempt fails, retryably or not, the delivery has failed and at no time is its
  -- row due.
  pub fifth_attempt_is_last :
      (db db' : Deliveries) (c : ClaimedNotification) (r : NotificationDelivery) (code : String)
      (retryable : Bool) (later ever : Instant)
      → IsKeyed row_key db.rows
      → find row_key c.notification_id db.rows ≡ some r
      → r.status ≡ pending
      → 4 ≤ r.attempt_count
      → claim_external_notifications uuid4 deep_link busy now 1 lease_seconds db ≡ ok (c ∷ [], db')
      → (db'' : Deliveries) × (r'' : NotificationDelivery) × (mark_failure c code retryable later
            db'
          ≡ ok (gave_up, db''))
        × (find row_key c.notification_id db''.rows ≡ some r'')
        × (r''.status ≡ failed)
        × (r''.attempt_count ≡ r.attempt_count + 1)
        × (is_due ever r'' ≡ false)
  unfolding mark_failure
  fifth_attempt_is_last db db' c r code retryable later ever keyed at_first waits many h =
      let (s, found, found') = one_claimed db db' c keyed h in
      let same : s ≡ r = cc in
      let row = lease c.lock_token now lease_seconds s in
      let last = failed_row code row in
      (
        write last db',
        last,
        ground (arith, found', same),
        find-put row_key c.notification_id last row db'.rows found'
            (find_key row_key c.notification_id db'.rows row found'),
        refl,
        ground (arith, same),
        ground arith,
      )
