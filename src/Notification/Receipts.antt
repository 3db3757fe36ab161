-- ===== src/Notification/Receipts.antt =====
-- service.py and consumer.py of notification: an event has an effect once, and a message is
-- acknowledged after that.
use seqret_be.Prelude.{
  Bool, true, false, not, some, List, [], ◌∷◌, ◌==◌, if◌then◌else◌, ◌≡◌, ◌⊎◌, refl, ap, ◌∙◌, subst,
  inl, inr, arith, is_none, Bool-cases,
}
use seqret_be.Prelude.Clock.{Uuid}
use seqret_be.Prelude.Pointwise.{first_where}
use seqret_be.Prelude.Transaction.{ok}
use seqret_be.Contracts.Events.{DomainEvent}
use seqret_be.Access.Model.{ParticipantRole}
use seqret_be.Notification.Model.{NotificationDelivery}
use seqret_be.Notification.Consume.{
  Ambient, Inbox, EventConsumption, has_receipt, has_id, is_consumed, notification_roles, may_add,
  pending_rows, intents_of, consume_notification_event,
}

-- Receipts are kept, and jobs are not touched.
pub record Grows (box box' : Inbox) : Type 0 where
  pub receipts_kept : (id : Uuid) → is_consumed id box ≡ true → is_consumed id box' ≡ true
  pub jobs_kept : box'.job_ids ≡ box.job_ids

pub Grows-refl : (box : Inbox) → Grows box box
Grows-refl box = record { receipts_kept = λ id h. h; jobs_kept = refl }

pub Grows-trans : (a b c : Inbox) → Grows a b → Grows b c → Grows a c
Grows-trans a b c h k = record {
  receipts_kept = λ id r. k.receipts_kept id (h.receipts_kept id r);
  jobs_kept = k.jobs_kept ∙ h.jobs_kept;
}

-- The event has a receipt, and its job is there.
abbrev pub IsSettled : DomainEvent → Inbox → Type 0
IsSettled e box =
    (is_consumed e.event_id box ≡ true)
    × (is_none (first_where (has_id e.aggregate_id) box.job_ids) ≡ false)

pub IsSettled-Grows :
    (e : DomainEvent) (box box' : Inbox) → IsSettled e box → Grows box box' → IsSettled e box'
IsSettled-Grows e box box' (consumed, job) g = (
  g.receipts_kept e.event_id consumed,
  ap (λ z. is_none (first_where (has_id e.aggregate_id) z)) g.jobs_kept ∙ job,
)

-- A new receipt keeps the others.
receipt_added :
    (box box' : Inbox) (r : EventConsumption)
    → box'.receipts ≡ r ∷ box.receipts
    → box'.job_ids ≡ box.job_ids
    → Grows box box' × (is_consumed r.event_id box' ≡ true)
receipt_added box box' r receipts jobs = (
  record {
    receipts_kept = λ id h.
        ap (λ z. not (is_none (first_where (has_receipt id) z))) receipts
        ∙ added id h (r.event_id == id);
    jobs_kept = jobs;
  },
  ap (λ z. not (is_none (first_where (has_receipt r.event_id) z))) receipts ∙ ground arith,
)
  where
    added :
        (id : Uuid)
        → is_consumed id box ≡ true
        → (b : Bool)
        → not (is_none (if b then some r else first_where (has_receipt id) box.receipts)) ≡ true
    added id h true = refl
    added id h false = h

roles_cases :
    (roles : List ParticipantRole)
    → (roles ≡ []) ⊎ ((r : ParticipantRole) × (rs : List ParticipantRole) × (roles ≡ r ∷ rs))
roles_cases [] = inl refl
roles_cases (r ∷ rs) = inr (r, rs, refl)

written :
    (a : Ambient) (e : DomainEvent) (box box' : Inbox) (new : List NotificationDelivery)
    → is_none (first_where (has_id e.aggregate_id) box.job_ids) ≡ false
    → is_consumed e.event_id box ≡ false
    → consume_notification_event a e box ≡ ok (new, box')
    → (box'.receipts ≡ record { event_id = e.event_id; consumed_at = a.now } ∷ box.receipts)
      × (box'.job_ids ≡ box.job_ids)
unfolding consume_notification_event
written a e box box' new job first_time h = elim (roles_cases (notification_roles e.event_type)) [
  | inl nobody ↦ (ground arith, ground arith)
  | inr (r, rs, roles) ↦
      elim (Bool-cases
        (may_add (pending_rows a.uuid4 0 a.created_at e (intents_of a.now e box)) box.rows)) [
          | inr clash ↦ absurd (ground arith)
          | inl fine ↦ (ground arith, ground arith)
        ]
]

-- A consumption that returned wrote the receipt, unless it was there.
pub consume_inv :
    (a : Ambient) (e : DomainEvent) (box box' : Inbox) (new : List NotificationDelivery)
    → consume_notification_event a e box ≡ ok (new, box')
    → Grows box box' × IsSettled e box'
unfolding consume_notification_event
consume_inv a e box box' new h =
    elim (Bool-cases (is_none (first_where (has_id e.aggregate_id) box.job_ids))) [
      | inl missing ↦ absurd (ground arith)
      | inr job ↦ elim (Bool-cases (is_consumed e.event_id box)) [
        | inl before ↦
            let same : box ≡ box' = ground arith in
            (subst (Grows box) same (Grows-refl box), subst (IsSettled e) same (before, job))
        | inr first_time ↦
            let r : EventConsumption = record { event_id = e.event_id; consumed_at = a.now } in
            let (receipts, jobs) = written a e box box' new job first_time h in
            let (grows, consumed) = receipt_added box box' r receipts jobs in
            (
              grows,
              (consumed, ap (λ z. is_none (first_where (has_id e.aggregate_id) z)) jobs ∙ job),
            )
      ]
    ]
