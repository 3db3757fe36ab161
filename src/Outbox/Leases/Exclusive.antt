-- ===== src/Outbox/Leases/Exclusive.antt =====
-- Relay workers on one outbox: while a lease is live, the commands of the others leave its event
-- alone.
use seqret_be.Prelude.{
  ℕ, ◌+◌, ◌<◌, ◌≡◌, refl, sym, ap, ◌∙◌, Bool, true, not, ◌&&◌, none, some, List, arith, ltb, ◌==◌,
  is_some_eq, Option-cases, inl, inr,
}
use native.Mathlib.Decide.{ℕ_discrete}
use seqret_be.Prelude.Clock.{Uuid, Instant, seconds}
use seqret_be.Prelude.Table.{find, put, find-put_ne, find-Without, find_key}
use seqret_be.Prelude.Transaction.{ok}
use seqret_be.Outbox.{OutboxEvent, Outbox, ClaimedOutboxEvent, event_key, claim_outbox_events}
use seqret_be.Outbox.Invariant.{IsValid}
use seqret_be.Outbox.Finalize.{published_row, released_row}
use seqret_be.Outbox.Leases.{claim_key}
use seqret_be.Outbox.Leases.Claims.{claim-IsValid, claimed_event, unclaimed_event}
use seqret_be.Outbox.Steps.{
  Step, enqueue, claim, publish, release, Reach, here, next, enqueue_inv, publish_inv, release_inv,
  Reach-IsValid,
}

-- The command is not of the worker that holds event `k` by the token until that time: a claim is
-- made before then, and an outcome for the event comes with another token.
abbrev pub is_foreign :
    {uuid4 : ℕ → Uuid} {box box' : Outbox} → Uuid → Uuid → Instant → Step uuid4 box box' → Bool
is_foreign k token until (enqueue a t g x tr p o e fresh h) = true
is_foreign k token until (claim busy now limit lease_seconds claims h) = ltb now until
is_foreign k token until (publish j other now done h) = not (j == k && other == token)
is_foreign k token until (release j other code now done h) = not (j == k && other == token)

abbrev pub all_foreign :
    {uuid4 : ℕ → Uuid} {box box' : Outbox} → Uuid → Uuid → Instant → Reach uuid4 box box' → Bool
all_foreign k token until here = true
all_foreign k token until (next steps step) =
    all_foreign k token until steps && is_foreign k token until step

-- The row of a live lease.
pub record IsHeld (token : Uuid) (until : Instant) (r : OutboxEvent) : Type 0 where
  pub owner : r.lock_token ≡ some token
  pub lease_end : r.locked_until ≡ some until

-- A write to a row that another token owns is a write to another row.
put_other :
    (k j token other : ℕ) (until : Instant) (r s s' : OutboxEvent) (box : Outbox)
    → find event_key k box.events ≡ some r
    → IsHeld token until r
    → find event_key j box.events ≡ some s
    → is_some_eq s.lock_token other ≡ true
    → s'.event_id ≡ s.event_id
    → not (j == k && other == token) ≡ true
    → find event_key k (put event_key s' box.events) ≡ some r
put_other k j token other until r s s' box found held here_too mine same foreign =
    let s_id = find_key event_key j box.events s here_too in
    elim (ℕ_discrete k j) [
      | yes e ↦
          let same_row : r ≡ s = cc (ap (λ i. find event_key i box.events) e) in
          absurd (ground (arith, same_row, held.owner, e))
      | no ne ↦ find-put_ne event_key k s' box.events (λ e. ne (e ∙ same ∙ s_id)) ∙ found
    ]

foreign-IsHeld :
    {uuid4 : ℕ → Uuid} {box box' : Outbox} (k token : Uuid) (until : Instant) (r : OutboxEvent)
    → IsValid box
    → find event_key k box.events ≡ some r
    → IsHeld token until r
    → (step : Step uuid4 box box') → is_foreign k token until step ≡ true
    → find event_key k box'.events ≡ some r
foreign-IsHeld {uuid4} {box} {box'} k token until r v found held (enqueue a t g x tr p o e fresh h)
      foreign =
    let (same, _, id) = enqueue_inv a t g x tr p o box box' e h in
    ground (arith, same, id, find-Without event_key a.uuid box.events fresh)
foreign-IsHeld {uuid4} {box} {box'} k token until r v found held
      (claim busy now limit lease_seconds claims h) foreign =
    elim (Option-cases (find claim_key k claims)) [
      | inl unclaimed ↦
          unclaimed_event uuid4 busy now limit lease_seconds box box' claims k v h unclaimed ∙ found
      | inr (c, claimed) ↦
          let (s, (at_first, was_open, _, _)) =
            claimed_event uuid4 busy now limit lease_seconds box box' claims k c v h claimed in
          absurd (ground (arith, held.lease_end))
    ]
foreign-IsHeld {uuid4} {box} {box'} k token until r v found held (publish j other now done h)
      foreign =
    elim (publish_inv j other now done box box' h) [
      | inl same ↦ ap (λ b. find event_key k b.events) same ∙ found
      | inr (s, here_too, _, mine, same) ↦
          ap (λ b. find event_key k b.events) same
          ∙ put_other k j token other until r s (published_row now s) box found held here_too mine
              refl foreign
    ]
foreign-IsHeld {uuid4} {box} {box'} k token until r v found held (release j other code now done h)
      foreign =
    elim (release_inv j other code now done box box' h) [
      | inl same ↦ ap (λ b. find event_key k b.events) same ∙ found
      | inr (s, here_too, _, mine, _, same) ↦
          ap (λ b. find event_key k b.events) same
          ∙ put_other k j token other until r s (released_row now code s) box found held here_too
              mine refl foreign
    ]

all_foreign-IsHeld :
    {uuid4 : ℕ → Uuid} {box box' : Outbox} (k token : Uuid) (until : Instant) (r : OutboxEvent)
    → IsValid box
    → find event_key k box.events ≡ some r
    → IsHeld token until r
    → (steps : Reach uuid4 box box') → all_foreign k token until steps ≡ true
    → find event_key k box'.events ≡ some r
all_foreign-IsHeld k token until r v found held here foreign = found
all_foreign-IsHeld k token until r v found held (next steps step) foreign =
    let mid = all_foreign-IsHeld k token until r v found held steps (ground arith) in
    foreign-IsHeld k token until r (Reach-IsValid v steps) mid held step (ground arith)

-- After a worker has claimed an event of a valid table, and after any sequence of commands in which
-- every claim comes before the end of its lease and no outcome for the event carries its token, the
-- row of the event is as the claim left it, and a claim before the end of the lease does not return
-- the event.
pub live_lease_excludes :
    (uuid4 : ℕ → Uuid) (busy busy' : Uuid → Bool) (now later : Instant)
    (limit limit' lease_seconds lease_seconds' : ℕ) (box box' mid last : Outbox)
    (claims claims' : List ClaimedOutboxEvent) (k : Uuid) (c : ClaimedOutboxEvent)
    → IsValid box
    → claim_outbox_events uuid4 busy now limit lease_seconds box ≡ ok (claims, box')
    → find claim_key k claims ≡ some c
    → (steps : Reach uuid4 box' mid)
    → all_foreign k c.lock_token (now + seconds lease_seconds) steps ≡ true
    → claim_outbox_events uuid4 busy' later limit' lease_seconds' mid ≡ ok (claims', last)
    → later < now + seconds lease_seconds
    → (find event_key k mid.events ≡ find event_key k box'.events)
      × (find claim_key k claims' ≡ none)
live_lease_excludes uuid4 busy busy' now later limit limit' ls ls' box box' mid last claims claims'
      k c v first taken steps foreign second live =
    let until = now + seconds ls in
    let v' = claim-IsValid uuid4 busy now limit ls box box' claims v first in
    let (r, (_, _, _, row)) =
      claimed_event uuid4 busy now limit ls box box' claims k c v first taken in
    let held : IsHeld c.lock_token until _ = record { owner = refl; lease_end = refl } in
    let kept = all_foreign-IsHeld k c.lock_token until _ v' row held steps foreign in
    (
      kept ∙ sym row,
      elim (Option-cases (find claim_key k claims')) [
        | inl free ↦ free
        | inr (c', found) ↦
            let (r', (row', was_open, _, _)) =
              claimed_event uuid4 busy' later limit' ls' mid last claims' k c'
                (Reach-IsValid v' steps) second found in
            absurd (ground (arith, kept, row', was_open))
      ],
    )
