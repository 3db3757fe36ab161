-- ===== src/Notification/Redelivery.antt =====
-- consumer.py of notification: messages that are acknowledged, and messages that come again.
use Prim.Native.String.{String}
use seqret_be.Prelude.{
  ℕ, suc, Bool, true, false, Option, some, List, [], ◌∷◌, if◌then◌else◌, ◌≡◌, ◌⊎◌, refl, sym, ap,
  ◌∙◌, subst, inl, inr, arith, is_none, All, All-map_pred, Bool-cases, Option-cases,
}
use seqret_be.Prelude.Clock.{Uuid}
use seqret_be.Prelude.Pointwise.{IsIn, first_where}
use seqret_be.Prelude.Transaction.{ok, Result-cases}
use seqret_be.Contracts.Events.{DomainEvent}
use seqret_be.Notification.Model.{NotificationDelivery}
use seqret_be.Notification.Consume.{Ambient, Inbox, is_consumed, has_id, consume_notification_event}
use seqret_be.Notification.Consumer.{
  PulledEventMessage, Batch, parse_domain_event, consume_message, consume_messages,
  consume_notification_events_once,
}
use seqret_be.Notification.Receipts.{
  Grows, Grows-refl, Grows-trans, IsSettled, IsSettled-Grows, consume_inv,
}

if_cases : (c : Bool) (x y : Batch) → ((if c then x else y) ≡ x) ⊎ ((if c then x else y) ≡ y)
if_cases true x y = inl refl
if_cases false x y = inr refl

-- An event that is settled is consumed again without an effect.
settled_again :
    (a : Ambient) (e : DomainEvent) (box : Inbox)
    → IsSettled e box
    → consume_notification_event a e box ≡ ok ([], box)
unfolding consume_notification_event
settled_again a e box (consumed, job) = rw job (rw consumed refl)

module _ (validate : List ℕ → Option DomainEvent) (str_uuid event_key : Uuid → String)
    (str_int : ℕ → String) (takes_ack takes_nack : Uuid → Bool) where
  abbrev parse : PulledEventMessage → Option DomainEvent
  parse m = parse_domain_event validate str_uuid event_key str_int takes_ack takes_nack m

  abbrev step : Ambient → PulledEventMessage → Batch → Batch
  step a m b = consume_message validate str_uuid event_key str_int takes_ack takes_nack a m b

  abbrev steps : (ℕ → Ambient) → ℕ → List PulledEventMessage → Batch → Batch
  steps at n ms b =
      consume_messages validate str_uuid event_key str_int takes_ack takes_nack at n ms b

  -- A message of the batch with this id, whose event is settled.
  abbrev pub IsAcked : List PulledEventMessage → Inbox → Uuid → Type 0
  IsAcked ms box ack =
      (m : PulledEventMessage) × (e : DomainEvent) × IsIn m ms
      × (m.ack_id ≡ ack)
      × (parse m ≡ some e)
      × IsSettled e box

  IsAcked-Grows :
      (ms : List PulledEventMessage) (box box' : Inbox) (ack : Uuid)
      → Grows box box'
      → IsAcked ms box ack
      → IsAcked ms box' ack
  IsAcked-Grows ms box box' ack g (m, e, is_in, is_id, parsed, settled) =
      (m, e, is_in, is_id, parsed, IsSettled-Grows e box box' settled g)

  -- What one message does: nothing, or its event is consumed and then perhaps acknowledged.
  data Stepped (a : Ambient) (m : PulledEventMessage) (b b' : Batch) : Type 0 where
    unchanged : b'.inbox ≡ b.inbox → b'.acks ≡ b.acks → Stepped a m b b'
    consumed :
        (e : DomainEvent) (new : List NotificationDelivery) (inbox : Inbox)
        → parse m ≡ some e
        → consume_notification_event a e b.inbox ≡ ok (new, inbox)
        → b'.inbox ≡ inbox
        → (b'.acks ≡ b.acks) ⊎ (b'.acks ≡ m.ack_id ∷ b.acks)
        → Stepped a m b b'

  step_inv : (a : Ambient) (m : PulledEventMessage) (b : Batch) → Stepped a m b (step a m b)
  unfolding consume_message
  step_inv a m b = elim (Option-cases (parse m)) [
    | inl malformed ↦ unchanged (ground (arith, malformed)) (ground (arith, malformed))
    | inr (e, parsed) ↦ elim (Result-cases (consume_notification_event a e b.inbox)) [
      | inr (x, raised) ↦
          unchanged (ground (arith, parsed, raised)) (ground (arith, parsed, raised))
      | inl ((new, inbox), done) ↦ elim (Bool-cases (takes_ack m.ack_id)) [
        | inl taken ↦
            consumed e new inbox parsed done (ground (arith, parsed, done, taken))
              (inr (ground (arith, parsed, done, taken)))
        | inr refused ↦
            consumed e new inbox parsed done (ground (arith, parsed, done, refused))
              (inl (ground (arith, parsed, done, refused)))
      ]
    ]
  ]

  step-Grows :
      (a : Ambient) (m : PulledEventMessage) (b : Batch) → Grows b.inbox ((step a m b).inbox)
  step-Grows a m b = elim (step_inv a m b) [
    | unchanged same _ ↦ subst (Grows b.inbox) (sym same) (Grows-refl b.inbox)
    | consumed e new inbox parsed done at _ ↦
        subst (Grows b.inbox) (sym at) ((consume_inv a e b.inbox inbox new done).0)
  ]

  -- What is acknowledged is settled.
  step-IsAcked :
      (ms : List PulledEventMessage) (a : Ambient) (m : PulledEventMessage) (b : Batch)
      → IsIn m ms
      → All (IsAcked ms b.inbox) b.acks
      → All (IsAcked ms ((step a m b).inbox)) ((step a m b).acks)
  step-IsAcked ms a m b is_in acked =
      let b' = step a m b in
      let kept =
        All-map_pred (IsAcked ms b.inbox) (IsAcked ms b'.inbox)
          (λ ack h. IsAcked-Grows ms b.inbox b'.inbox ack (step-Grows a m b) h) b.acks acked in
      elim (step_inv a m b) [
        | unchanged _ same ↦ subst (All (IsAcked ms b'.inbox)) (sym same) kept
        | consumed e new inbox parsed done at acks ↦ elim acks [
          | inl same ↦ subst (All (IsAcked ms b'.inbox)) (sym same) kept
          | inr more ↦
              let settled =
                subst (IsSettled e) (sym at) ((consume_inv a e b.inbox inbox new done).1) in
              subst (All (IsAcked ms b'.inbox)) (sym more)
                ((m, e, is_in, refl, parsed, settled), kept)
        ]
      ]

  steps_cases :
      (at : ℕ → Ambient) (n : ℕ) (m : PulledEventMessage) (ms : List PulledEventMessage) (b : Batch)
      → (steps at n (m ∷ ms) b ≡ b)
        ⊎ (steps at n (m ∷ ms) b ≡ steps at (suc n) ms (step (at n) m b))
  unfolding consume_messages
  steps_cases at n m ms b = if_cases b.broken b (steps at (suc n) ms (step (at n) m b))

  steps-Grows :
      (at : ℕ → Ambient) (n : ℕ) (ms : List PulledEventMessage) (b : Batch)
      → Grows b.inbox ((steps at n ms b).inbox)
  unfolding consume_messages
  steps-Grows at n [] b = Grows-refl b.inbox
  steps-Grows at n (m ∷ ms) b = elim (steps_cases at n m ms b) [
    | inl over ↦ subst (λ z. Grows b.inbox z.inbox) (sym over) (Grows-refl b.inbox)
    | inr goes_on ↦
        let b' = step (at n) m b in
        subst (λ z. Grows b.inbox z.inbox) (sym goes_on)
          (Grows-trans b.inbox b'.inbox ((steps at (suc n) ms b').inbox) (step-Grows (at n) m b)
            (steps-Grows at (suc n) ms b'))
  ]

  steps-IsAcked :
      (all : List PulledEventMessage) (at : ℕ → Ambient) (n : ℕ) (ms : List PulledEventMessage)
      (b : Batch)
      → All (λ m. IsIn m all) ms
      → All (IsAcked all b.inbox) b.acks
      → All (IsAcked all ((steps at n ms b).inbox)) ((steps at n ms b).acks)
  unfolding consume_messages
  steps-IsAcked all at n [] b among acked = acked
  steps-IsAcked all at n (m ∷ ms) b among acked = elim (steps_cases at n m ms b) [
    | inl over ↦ subst (λ z. All (IsAcked all z.inbox) z.acks) (sym over) acked
    | inr goes_on ↦
        subst (λ z. All (IsAcked all z.inbox) z.acks) (sym goes_on)
          (steps-IsAcked all at (suc n) ms (step (at n) m b) among.1
            (step-IsAcked all (at n) m b among.0 acked))
  ]

  everyone :
      (all ms : List PulledEventMessage)
      → ((m : PulledEventMessage) → IsIn m ms → IsIn m all)
      → All (λ m. IsIn m all) ms
  everyone all [] f = tt
  everyone all (m ∷ ms) f = (f m (inl refl), everyone all ms (λ x h. f x (inr h)))

  -- Whatever a batch holds, and whichever calls of the subscriber fail, each id that the batch
  -- acknowledged is that of one of its messages, which holds an event that has a receipt in the
  -- tables that the batch leaves, and whose job is there.
  pub acknowledged_is_committed :
      (at : ℕ → Ambient) (ms : List PulledEventMessage) (inbox : Inbox)
      → let b =
          (consume_notification_events_once validate str_uuid event_key str_int takes_ack takes_nack
            at ms inbox).0 in
        All (IsAcked ms b.inbox) b.acks
  unfolding consume_notification_events_once
  acknowledged_is_committed at ms inbox =
      steps-IsAcked ms at 0 ms
        (record { inbox = inbox; acks = []; acknowledged = 0; failed = 0; broken = false })
        (everyone ms ms (λ m h. h)) tt

  -- After a consumption of an event has returned, and whatever batches are processed from there, an
  -- event with the same id and job is consumed with no new delivery and no change.
  pub redelivery_has_no_effect :
      (a a' : Ambient) (e e' : DomainEvent) (new : List NotificationDelivery) (box : Inbox)
      (at : ℕ → Ambient) (n : ℕ) (ms : List PulledEventMessage) (b : Batch)
      → consume_notification_event a e box ≡ ok (new, b.inbox)
      → e'.event_id ≡ e.event_id
      → e'.aggregate_id ≡ e.aggregate_id
      → let later =
          consume_messages validate str_uuid event_key str_int takes_ack takes_nack at n ms b in
        consume_notification_event a' e' later.inbox ≡ ok ([], later.inbox)
  redelivery_has_no_effect a a' e e' new box at n ms b h same_event same_job =
      let later = steps at n ms b in
      let (receipt, job) =
        IsSettled-Grows e b.inbox later.inbox ((consume_inv a e box b.inbox new h).1)
          (steps-Grows at n ms b) in
      settled_again a' e' later.inbox (
        ap (λ id. is_consumed id later.inbox) same_event ∙ receipt,
        ap (λ id. is_none (first_where (has_id id) later.inbox.job_ids)) same_job ∙ job,
      )
