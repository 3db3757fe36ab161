-- ===== src/Outbox/Leases/Claims.antt =====
-- `claim_outbox_events`: it never fails on a valid table, what it leases, and that two live
-- leases never overlap.
use seqret_be.Prelude.{
  ℕ, ◌+◌, ◌≤◌, ◌≡◌, Bool, true, not, ◌&&◌, none, some, List, [], ◌∷◌, arith, is_none, length, All,
  sym, Option-cases, inl, inr, filter, All-map_pred, All-and, subst,
}
use seqret_be.Prelude.Clock.{Uuid, Instant}
use seqret_be.Prelude.Table.{
  find, Without, IsKeyed, find-All, All-select, select_holds, find_key, find-IsKeyed,
  select-IsKeyed, find-select, length-select,
}
use seqret_be.Prelude.Transaction.{Result, ok}
use seqret_be.Outbox.{
  OutboxEvent, Outbox, ClaimedOutboxEvent, event_key, event_of, lease, before, claimable, is_due,
  claim_outbox_events, max_batch_size,
}
use seqret_be.Outbox.Invariant.{IsValidRow, IsValid}
use seqret_be.Outbox.Leases.{
  claim_key, leased_rows, claims_of, token_of, lease_rows_lem, find-leased_rows-none,
  find-leased_rows, find-claims_of, length-claims_of, leased_rows-IsValid, IsLeasable,
}

module _ (uuid4 : ℕ → Uuid) (busy : Uuid → Bool) (now : Instant) (limit lease_seconds : ℕ) where
  abbrev pub claim : Outbox → Result (List ClaimedOutboxEvent × Outbox)
  claim = claim_outbox_events uuid4 busy now limit lease_seconds

  abbrev rows_of : Outbox → List OutboxEvent
  rows_of box = claimable busy now limit box.events

  abbrev after : Outbox → Outbox
  after box = record {
    events = leased_rows uuid4 now lease_seconds box.draws (rows_of box) box.events;
    draws = box.draws + length (rows_of box);
  }

  -- The `WHERE` of the claim, with the rows that others hold left out.
  abbrev pub is_open : OutboxEvent → Bool
  is_open r = is_due now r && not (busy r.event_id)

  rows-IsLeasable :
      (box : Outbox) → IsValid box → All (IsLeasable uuid4 now lease_seconds) (rows_of box)
  rows-IsLeasable box v =
      All-and (λ r. is_none r.published_at ≡ true) IsValidRow (rows_of box)
        (All-map_pred (λ r. is_open r ≡ true) (λ r. is_none r.published_at ≡ true)
          (λ r h. ground arith) (rows_of box)
          (select_holds event_key before is_open limit box.events))
        (All-select event_key before IsValidRow is_open limit box.events v.rows)

  claim_ok :
      (box : Outbox)
      → IsValid box
      → 1 ≤ limit
      → limit ≤ max_batch_size
      → 1 ≤ lease_seconds
      → claim box ≡ ok (claims_of uuid4 now lease_seconds box.draws (rows_of box), after box)
  unfolding claim_outbox_events
  claim_ok box v a b c =
      ground
        (arith, lease_rows_lem uuid4 now lease_seconds (rows_of box) box (rows-IsLeasable box v))

  -- A claim that returned was called with arguments in range.
  claim_inv :
      (box box' : Outbox) (claims : List ClaimedOutboxEvent)
      → IsValid box
      → claim box ≡ ok (claims, box')
      → (claims ≡ claims_of uuid4 now lease_seconds box.draws (rows_of box)) × (box' ≡ after box)
  unfolding claim_outbox_events
  claim_inv box box' claims v h =
      ground
        (arith, lease_rows_lem uuid4 now lease_seconds (rows_of box) box (rows-IsLeasable box v))

  after-IsValid : (box : Outbox) → IsValid box → IsValid (after box)
  after-IsValid box v =
      leased_rows-IsValid uuid4 now lease_seconds box.draws (box.draws + length (rows_of box))
        (rows_of box) box v (rows-IsLeasable box v)

  pub claim-IsValid :
      (box box' : Outbox) (claims : List ClaimedOutboxEvent)
      → IsValid box
      → claim box ≡ ok (claims, box')
      → IsValid box'
  claim-IsValid box box' claims v h =
      subst IsValid (sym (claim_inv box box' claims v h).1) (after-IsValid box v)

  rows_found :
      (k : ℕ) (box : Outbox) (r : OutboxEvent)
      → IsValid box
      → find event_key k (rows_of box) ≡ some r
      → (find event_key k box.events ≡ some r) × (is_open r ≡ true) × (r.event_id ≡ k)
  rows_found k box r v h =
      let same : r.event_id ≡ k = find_key event_key k (rows_of box) r h in
      (
        subst (λ i. find event_key i box.events ≡ some r) same
            (find-All event_key (λ s. find event_key s.event_id box.events ≡ some s) k (rows_of box)
              r
              (All-select event_key before (λ s. find event_key s.event_id box.events ≡ some s)
                is_open limit box.events (find-IsKeyed event_key box.events v.keyed))
              h),
        find-All event_key (λ s. is_open s ≡ true) k (rows_of box) r
            (select_holds event_key before is_open limit box.events) h,
        same,
      )

  -- On a valid table and with arguments in range a claim returns at most `limit` events and leaves
  -- a valid table.
  pub claim_outbox_events_total :
      (box : Outbox)
      → IsValid box
      → 1 ≤ limit
      → limit ≤ max_batch_size
      → 1 ≤ lease_seconds
      → (claims : List ClaimedOutboxEvent) × (box' : Outbox) × (claim box ≡ ok (claims, box'))
        × IsValid box'
        × (length claims ≤ limit)
  claim_outbox_events_total box v a b c = (
    claims_of uuid4 now lease_seconds box.draws (rows_of box),
    after box,
    claim_ok box v a b c,
    after-IsValid box v,
    omega (
      arith,
      length-claims_of uuid4 now lease_seconds box.draws (rows_of box),
      length-select event_key before is_open limit box.events,
    ),
  )

  -- What a claim says of one of its events: the row was due and free, the claim carries its
  -- envelope, and the row now holds the claim's token until the lease ends.
  abbrev pub IsLeasedBy : Outbox → Outbox → ℕ → ClaimedOutboxEvent → OutboxEvent → Type 0
  IsLeasedBy box box' k c r =
      (find event_key k box.events ≡ some r)
      × (is_open r ≡ true)
      × (c.event ≡ event_of r)
      × (find event_key k box'.events ≡ some (lease c.lock_token now lease_seconds r))

  -- An event that is claimed from a valid table was due and free, its envelope is that of its row,
  -- and the row is leased to its claim.
  pub claimed_event :
      (box box' : Outbox) (claims : List ClaimedOutboxEvent) (k : ℕ) (c : ClaimedOutboxEvent)
      → IsValid box
      → claim box ≡ ok (claims, box')
      → find claim_key k claims ≡ some c
      → (r : OutboxEvent) × IsLeasedBy box box' k c r
  claimed_event box box' claims k c v h e =
      let (same_claims, same_box) = claim_inv box box' claims v h in
      let rows = rows_of box in
      elim (Option-cases (find event_key k rows)) [
        | inl missing ↦
            absurd
              (ground (arith, same_claims, find-claims_of uuid4 now lease_seconds box.draws k rows))
        | inr (r, found) ↦
            let (at_first, was_open, same) = rows_found k box r v found in
            let new_row =
              find-leased_rows uuid4 now lease_seconds box.draws k rows box.events r
                (select-IsKeyed event_key before is_open limit box.events v.keyed) found at_first in
            let claim_found = find-claims_of uuid4 now lease_seconds box.draws k rows in
            (
              r,
              (
                at_first,
                was_open,
                ground (arith, same_claims, claim_found),
                ground (arith, same_claims, same_box, claim_found, new_row),
              ),
            )
      ]

  -- An event that is not claimed keeps its row.
  pub unclaimed_event :
      (box box' : Outbox) (claims : List ClaimedOutboxEvent) (k : ℕ)
      → IsValid box
      → claim box ≡ ok (claims, box')
      → find claim_key k claims ≡ none
      → find event_key k box'.events ≡ find event_key k box.events
  unclaimed_event box box' claims k v h e =
      let (same_claims, same_box) = claim_inv box box' claims v h in
      let rows = rows_of box in
      let no_row : find event_key k rows ≡ none =
        ground (arith, same_claims, find-claims_of uuid4 now lease_seconds box.draws k rows) in
      ground (
        arith,
        same_box,
        find-leased_rows-none uuid4 now lease_seconds box.draws k rows box.events no_row,
      )

  -- If a claim on a valid table has room for all events that are due and free, it returns each of
  -- them.
  pub due_is_claimed :
      (box box' : Outbox) (claims : List ClaimedOutboxEvent) (k : ℕ) (r : OutboxEvent)
      → IsValid box
      → claim box ≡ ok (claims, box')
      → length (filter is_open box.events) ≤ limit
      → find event_key k box.events ≡ some r
      → is_open r ≡ true
      → (token : Uuid) × (find claim_key k claims
          ≡ some (record { event = event_of r; lock_token = token }))
  due_is_claimed box box' claims k r v h room e is_due_now =
      let (same_claims, _) = claim_inv box box' claims v h in
      let rows = rows_of box in
      (
        token_of uuid4 now lease_seconds box.draws k rows,
        ground (
          arith,
          same_claims,
          find-claims_of uuid4 now lease_seconds box.draws k rows,
          find-select event_key before is_open limit k box.events v.keyed room,
        ),
      )

  Without-claims_of :
      (n k : ℕ) (rows : List OutboxEvent)
      → Without event_key k rows
      → Without claim_key k (claims_of uuid4 now lease_seconds n rows)
  unfolding claims_of
  Without-claims_of n k [] h = tt
  Without-claims_of n k (r ∷ rows) h = (h.0, Without-claims_of (n + 1) k rows h.1)

  claims_of-IsKeyed :
      (n : ℕ) (rows : List OutboxEvent)
      → IsKeyed event_key rows
      → IsKeyed claim_key (claims_of uuid4 now lease_seconds n rows)
  unfolding claims_of
  claims_of-IsKeyed n [] h = tt
  claims_of-IsKeyed n (r ∷ rows) h =
      (Without-claims_of (n + 1) r.event_id rows h.0, claims_of-IsKeyed (n + 1) rows h.1)

  -- No event is claimed twice by one call.
  pub claims-IsKeyed :
      (box box' : Outbox) (claims : List ClaimedOutboxEvent)
      → IsValid box
      → claim box ≡ ok (claims, box')
      → IsKeyed claim_key claims
  claims-IsKeyed box box' claims v h =
      subst (IsKeyed claim_key) (sym (claim_inv box box' claims v h).0) (
        claims_of-IsKeyed box.draws (rows_of box)
          (select-IsKeyed event_key before is_open limit box.events v.keyed))
