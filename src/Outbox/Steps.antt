-- ===== src/Outbox/Steps.antt =====
-- Any number of workers and requests on one outbox, as a sequence of committed commands.
use Prim.Native.String.{String}
use seqret_be.Prelude.{
  ℕ, ◌≡◌, refl, Bool, true, false, Option, none, some, List, ◌∷◌, arith, is_none, Option-cases, inl,
  inr, ◌⊎◌, ◌&&◌, Bool-cases, is_some_eq, subst, sym, ap, ◌∙◌,
}
use native.Mathlib.Decide.{ℕ_discrete}
use seqret_be.Prelude.Clock.{Uuid, Instant}
use seqret_be.Prelude.Table.{
  find, put, find-All, find-put, find-put_ne, find_key, find-Without, Without,
}
use seqret_be.Prelude.Transaction.{ok}
use seqret_be.Contracts.Events.{DomainEventType, Payload, DomainEvent, build_event, is_accepted}
use seqret_be.Outbox.{
  OutboxEvent, Outbox, ClaimedOutboxEvent, Ambient, event_key, event_of, new_row, lease,
  enqueue_domain_event, claim_outbox_events, mark_outbox_published, mark_outbox_failed,
  is_error_code,
}
use seqret_be.Outbox.Invariant.{IsValidRow, IsValid, put-IsValid}
use seqret_be.Outbox.Leases.{claim_key}
use seqret_be.Outbox.Leases.Claims.{claim-IsValid, claimed_event, unclaimed_event}
use seqret_be.Outbox.Finalize.{published_row, released_row}

-- One committed command. The id that `uuid4` gives a new event is not in the table yet, and a
-- command that raises commits nothing.
pub data Step (uuid4 : ℕ → Uuid) (box box' : Outbox) : Type 0 where
  enqueue :
      (a : Ambient) (event_type : DomainEventType) (aggregate_id : Uuid) (actor_id : Option Uuid)
      (trace_id : Option String) (payload : Payload) (occurred_at : Option Instant)
      (e : DomainEvent)
      → Without event_key a.uuid box.events
      → enqueue_domain_event a event_type aggregate_id actor_id trace_id payload occurred_at box
        ≡ ok (e, box')
      → Step uuid4 box box'
  claim :
      (busy : Uuid → Bool) (now : Instant) (limit lease_seconds : ℕ)
      (claims : List ClaimedOutboxEvent)
      → claim_outbox_events uuid4 busy now limit lease_seconds box ≡ ok (claims, box')
      → Step uuid4 box box'
  publish :
      (k token : ℕ) (now : Instant) (done : Bool)
      → mark_outbox_published k token now box ≡ ok (done, box')
      → Step uuid4 box box'
  release :
      (k token : ℕ) (code : String) (now : Instant) (done : Bool)
      → mark_outbox_failed k token code now box ≡ ok (done, box')
      → Step uuid4 box box'

pub data Reach (uuid4 : ℕ → Uuid) (box : Outbox) : Outbox → Type 0 where
  here : Reach uuid4 box box
  next : {mid last : Outbox} → Reach uuid4 box mid → Step uuid4 mid last → Reach uuid4 box last

pub Reach-trans :
    {uuid4 : ℕ → Uuid} {a b c : Outbox} → Reach uuid4 a b → Reach uuid4 b c → Reach uuid4 a c
Reach-trans r here = r
Reach-trans r (next s step) = next (Reach-trans r s) step

-- How a step may change row `r` to `r'`: the envelope stays, and a published row stays whole.
pub record Keeps (r r' : OutboxEvent) : Type 0 where
  pub envelope : event_of r' ≡ event_of r
  pub final : is_none r.published_at ≡ false → r' ≡ r

pub enqueue_inv :
    (a : Ambient) (event_type : DomainEventType) (aggregate_id : Uuid) (actor_id : Option Uuid)
    (trace_id : Option String) (payload : Payload) (occurred_at : Option Instant)
    (box box' : Outbox) (e : DomainEvent)
    → enqueue_domain_event a event_type aggregate_id actor_id trace_id payload occurred_at box
      ≡ ok (e, box')
    → (box' ≡ record box { events = new_row e ∷ box.events })
      × (is_accepted e ≡ true)
      × (e.event_id ≡ a.uuid)
unfolding enqueue_domain_event build_event
enqueue_inv a event_type aggregate_id actor_id trace_id payload occurred_at box box' e h =
    ground arith

-- Either nothing changes, or one owned, unpublished row is replaced.
pub publish_inv :
    (k token : ℕ) (now : Instant) (done : Bool) (box box' : Outbox)
    → mark_outbox_published k token now box ≡ ok (done, box')
    → (box' ≡ box)
      ⊎ ((r : OutboxEvent) × (find event_key k box.events ≡ some r)
          × (r.published_at ≡ none)
          × (is_some_eq r.lock_token token ≡ true)
          × (box' ≡ record box { events = put event_key (published_row now r) box.events }))
unfolding mark_outbox_published
publish_inv k token now done box box' h = elim (Option-cases (find event_key k box.events)) [
  | inl missing ↦ inl (ground arith)
  | inr (r, found) ↦ elim (Bool-cases (is_some_eq r.lock_token token && is_none r.published_at)) [
    | inl mine ↦ inr (r, found, ground arith, ground arith, ground arith)
    | inr other ↦ inl (ground arith)
  ]
]

pub release_inv :
    (k token : ℕ) (code : String) (now : Instant) (done : Bool) (box box' : Outbox)
    → mark_outbox_failed k token code now box ≡ ok (done, box')
    → (box' ≡ box)
      ⊎ ((r : OutboxEvent) × (find event_key k box.events ≡ some r)
          × (r.published_at ≡ none)
          × (is_some_eq r.lock_token token ≡ true)
          × (is_error_code code ≡ true)
          × (box' ≡ record box { events = put event_key (released_row now code r) box.events }))
unfolding mark_outbox_failed
release_inv k token code now done box box' h = elim (Option-cases (find event_key k box.events)) [
  | inl missing ↦ inl (ground arith)
  | inr (r, found) ↦ elim (Bool-cases (is_some_eq r.lock_token token && is_none r.published_at)) [
    | inl mine ↦ inr (r, found, ground arith, ground arith, ground arith, ground arith)
    | inr other ↦ inl (ground arith)
  ]
]

published_row-IsValidRow :
    (now : Instant) (r : OutboxEvent) → IsValidRow r → IsValidRow (published_row now r)
published_row-IsValidRow now r v = ground arith

released_row-IsValidRow :
    (now : Instant) (code : String) (r : OutboxEvent)
    → r.published_at ≡ none
    → is_error_code code ≡ true
    → IsValidRow r
    → IsValidRow (released_row now code r)
released_row-IsValidRow now code r p e v = ground arith

new_row-IsValidRow : (e : DomainEvent) → is_accepted e ≡ true → IsValidRow (new_row e)
new_row-IsValidRow e h = ground arith

Step-IsValid :
    {uuid4 : ℕ → Uuid} {box box' : Outbox} → Step uuid4 box box' → IsValid box → IsValid box'
Step-IsValid {uuid4} {box} {box'} (enqueue a t g x tr p o e fresh h) v =
    let (same, accepted, id) = enqueue_inv a t g x tr p o box box' e h in
    subst IsValid (sym same) (record {
      keyed = (subst (λ i. Without event_key i box.events) (sym id) fresh, v.keyed);
      rows = (new_row-IsValidRow e accepted, v.rows);
    })
Step-IsValid {uuid4} {box} {box'} (claim busy now limit lease_seconds claims h) v =
    claim-IsValid uuid4 busy now limit lease_seconds box box' claims v h
Step-IsValid {uuid4} {box} {box'} (publish k token now done h) v =
    elim (publish_inv k token now done box box' h) [
      | inl same ↦ subst IsValid (sym same) v
      | inr (r, found, _, _, same) ↦ subst IsValid (sym same) (
          put-IsValid box (published_row now r) box.draws v (
            published_row-IsValidRow now r
              (find-All event_key IsValidRow k box.events r v.rows found)))
    ]
Step-IsValid {uuid4} {box} {box'} (release k token code now done h) v =
    elim (release_inv k token code now done box box' h) [
      | inl same ↦ subst IsValid (sym same) v
      | inr (r, found, unpublished, _, good, same) ↦ subst IsValid (sym same) (
          put-IsValid box (released_row now code r) box.draws v (
            released_row-IsValidRow now code r unpublished good
              (find-All event_key IsValidRow k box.events r v.rows found)))
    ]

-- Every sequence of commands, by any workers, keeps the constraints of the outbox table.
pub Reach-IsValid :
    {uuid4 : ℕ → Uuid} {box box' : Outbox} → IsValid box → Reach uuid4 box box' → IsValid box'
Reach-IsValid v here = v
Reach-IsValid v (next steps step) = Step-IsValid step (Reach-IsValid v steps)

-- Row `k` is still there, and has only changed as `Keeps` allows.
abbrev pub Remains : ℕ → OutboxEvent → Outbox → Type 0
Remains k r box' = (r' : OutboxEvent) × (find event_key k box'.events ≡ some r') × Keeps r r'

-- A write to one unpublished row that keeps its envelope.
put-Remains :
    (k j draws : ℕ) (r s s' : OutboxEvent) (box : Outbox)
    → find event_key k box.events ≡ some r
    → find event_key j box.events ≡ some s
    → s.published_at ≡ none
    → event_of s' ≡ event_of s
    → Remains k r (record { events = put event_key s' box.events; draws = draws })
put-Remains k j draws r s s' box found here_too unpublished same =
    let s_id : s.event_id ≡ j = find_key event_key j box.events s here_too in
    let s'_id : s'.event_id ≡ j = ap (λ e. e.event_id) same ∙ s_id in
    elim (ℕ_discrete k j) [
      | yes e ↦
          let same_row : r ≡ s = cc (ap (λ i. find event_key i box.events) e) in
          (
            s',
            find-put event_key k s' r box.events found (s'_id ∙ sym e),
            record {
              envelope = same ∙ ap event_of (sym same_row);
              final = λ p. absurd (ground (arith, same_row));
            },
          )
      | no ne ↦ (
        r,
        find-put_ne event_key k s' box.events (λ e. ne (e ∙ s'_id)) ∙ found,
        record { envelope = refl; final = λ _. refl },
      )
    ]

Step-Remains :
    {uuid4 : ℕ → Uuid} {box box' : Outbox} (k : ℕ) (r : OutboxEvent)
    → IsValid box
    → find event_key k box.events ≡ some r
    → Step uuid4 box box'
    → Remains k r box'
Step-Remains {uuid4} {box} {box'} k r v found (enqueue a t g x tr p o e fresh h) =
    let (same, _, id) = enqueue_inv a t g x tr p o box box' e h in
    subst (Remains k r) (sym same) (
      r,
      ground (arith, id, find-Without event_key a.uuid box.events fresh),
      record { envelope = refl; final = λ _. refl },
    )
Step-Remains {uuid4} {box} {box'} k r v found (claim busy now limit lease_seconds claims h) =
    elim (Option-cases (find claim_key k claims)) [
      | inl unclaimed ↦ (
        r,
        unclaimed_event uuid4 busy now limit lease_seconds box box' claims k v h unclaimed ∙ found,
        record { envelope = refl; final = λ _. refl },
      )
      | inr (c, claimed) ↦
          let (s, (at_first, was_open, _, leased)) =
            claimed_event uuid4 busy now limit lease_seconds box box' claims k c v h claimed in
          (
            lease c.lock_token now lease_seconds s,
            leased,
            record {
              envelope = ground (arith, found, at_first);
              final = λ p. absurd (ground arith);
            },
          )
    ]
Step-Remains {uuid4} {box} {box'} k r v found (publish j token now done h) =
    elim (publish_inv j token now done box box' h) [
      | inl same ↦
          subst (Remains k r) (sym same) (r, found, record { envelope = refl; final = λ _. refl })
      | inr (s, here_too, unpublished, _, same) ↦
          subst (Remains k r) (sym same) (
            put-Remains k j box.draws r s (published_row now s) box found here_too unpublished refl)
    ]
Step-Remains {uuid4} {box} {box'} k r v found (release j token code now done h) =
    elim (release_inv j token code now done box box' h) [
      | inl same ↦
          subst (Remains k r) (sym same) (r, found, record { envelope = refl; final = λ _. refl })
      | inr (s, here_too, unpublished, _, _, same) ↦ subst (Remains k r) (sym same) (
          put-Remains k j box.draws r s (released_row now code s) box found here_too unpublished
            refl)
    ]

Keeps-trans : (r s t : OutboxEvent) → Keeps r s → Keeps s t → Keeps r t
Keeps-trans r s t a b = record {
  envelope = b.envelope ∙ a.envelope;
  final = λ p.
      let s_is_r = a.final p in
      b.final (subst (λ x. is_none x.published_at ≡ false) (sym s_is_r) p) ∙ s_is_r;
}

-- From a valid table, whatever commands any workers commit, each event keeps a row with the same
-- envelope, and a published one keeps its row.
pub Reach-Remains :
    {uuid4 : ℕ → Uuid} {box box' : Outbox} (k : ℕ) (r : OutboxEvent)
    → IsValid box
    → find event_key k box.events ≡ some r
    → Reach uuid4 box box'
    → Remains k r box'
Reach-Remains k r v found here = (r, found, record { envelope = refl; final = λ _. refl })
Reach-Remains k r v found (next steps step) =
    let (s, at_mid, first) = Reach-Remains k r v found steps in
    let (t, at_last, second) = Step-Remains k s (Reach-IsValid v steps) at_mid step in
    (t, at_last, Keeps-trans r s t first second)
