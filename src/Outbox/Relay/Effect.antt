-- ===== src/Outbox/Relay/Effect.antt =====
-- What a relay pass does to each event while no other worker commits: an event is marked
-- published exactly if the bus took it, and released with the error's code if it did not.
use seqret_be.Prelude.{
  ℕ, ◌+◌, ◌≤◌, ◌<◌, ◌≡◌, refl, sym, subst, ◌∙◌, Bool, true, Option, none, some, List, [], ◌∷◌,
  arith, length, Option-cases, inl, inr, ◌⊎◌, All, All-map_pred, filter,
}
use seqret_be.Prelude.Clock.{Uuid, Instant, seconds}
use seqret_be.Prelude.Table.{
  find, put, find-put, find-put_ne, find_key, IsKeyed, Without, find-Without, find-IsKeyed,
}
use seqret_be.Prelude.Transaction.{Result, ok}
use seqret_be.Contracts.Events.{DomainEvent}
use seqret_be.Contracts.Ports.{Exception}
use seqret_be.Outbox.{
  OutboxEvent, Outbox, ClaimedOutboxEvent, RelayResult, event_key, event_of, lease,
  claim_outbox_events, max_batch_size,
}
use seqret_be.Outbox.Invariant.{IsValid}
use seqret_be.Outbox.Finalize.{
  Owns, published_row, released_row, mark_outbox_published_owner, mark_outbox_failed_owner,
}
use seqret_be.Outbox.Leases.{claim_key}
use seqret_be.Outbox.Leases.Claims.{
  claim_outbox_events_total, claimed_event, unclaimed_event, due_is_claimed, claims-IsKeyed,
  is_open,
}
use seqret_be.Outbox.Relay.{error_code, settle, settle_all, relay_outbox_once}
use seqret_be.Outbox.Relay.Runs.{error_code_ok}

module _ (bus : DomainEvent → Option Exception) (outcome_time : ClaimedOutboxEvent → Instant) where
  -- The row as the pass leaves it.
  abbrev pub settled_row : ClaimedOutboxEvent → OutboxEvent → OutboxEvent
  settled_row c r = elim (bus c.event) [
    | none ↦ published_row (outcome_time c) r
    | some x ↦ released_row (outcome_time c) (error_code x) r
  ]

  -- How many of the claims the bus took, and how many it refused.
  abbrev pub took : List ClaimedOutboxEvent → ℕ
  took [] = 0
  took (c ∷ claims) = elim (bus c.event) [ none ↦ 1 + took claims | some _ ↦ took claims ]

  abbrev pub refused : List ClaimedOutboxEvent → ℕ
  refused [] = 0
  refused (c ∷ claims) = elim (bus c.event) [ none ↦ refused claims | some _ ↦ 1 + refused claims ]

  -- Each claim owns its row.
  abbrev Held : Outbox → List ClaimedOutboxEvent → Type 0
  Held box claims = All (λ c. (r : OutboxEvent) × Owns c.event.event_id c.lock_token box r) claims

  settle_owner :
      (c : ClaimedOutboxEvent) (box : Outbox) (r : OutboxEvent)
      → Owns c.event.event_id c.lock_token box r
      → settle bus outcome_time c box
        ≡ ok (
          (took (c ∷ []), refused (c ∷ [])),
          record box { events = put event_key (settled_row c r) box.events },
        )
  unfolding settle
  settle_owner c box r o = elim (Option-cases (bus c.event)) [
    | inl accepted ↦ ground (
      arith,
      accepted,
      mark_outbox_published_owner c.event.event_id c.lock_token (outcome_time c) box r o,
    )
    | inr (x, raised) ↦ ground (
      arith,
      raised,
      mark_outbox_failed_owner c.event.event_id c.lock_token (error_code x) (outcome_time c) box r
          (error_code_ok x) o,
    )
  ]

  settled_key : (c : ClaimedOutboxEvent) (r : OutboxEvent) → (settled_row c r).event_id ≡ r.event_id
  settled_key c r = ground arith

  Held-put :
      (s : OutboxEvent) (box : Outbox) (claims : List ClaimedOutboxEvent)
      → Without claim_key s.event_id claims
      → Held box claims
      → Held (record box { events = put event_key s box.events }) claims
  Held-put s box [] w h = tt
  Held-put s box (c ∷ claims) w ((r, (found, token, unpublished)), h) = (
    (r, (find-put_ne event_key c.event.event_id s box.events w.0 ∙ found, token, unpublished)),
    Held-put s box claims w.1 h,
  )

  -- The table after the loop, as the table before it shows it.
  record Settles (claims : List ClaimedOutboxEvent) (box box' : Outbox) : Type 0 where
    runs : settle_all bus outcome_time claims box ≡ ok ((took claims, refused claims), box')
    others :
        (k : ℕ)
        → find claim_key k claims ≡ none
        → find event_key k box'.events ≡ find event_key k box.events
    claimed :
        (k : ℕ) (c : ClaimedOutboxEvent) (r : OutboxEvent)
        → find claim_key k claims ≡ some c
        → find event_key k box.events ≡ some r
        → find event_key k box'.events ≡ some (settled_row c r)

  settle_all-Held :
      (claims : List ClaimedOutboxEvent) (box : Outbox)
      → IsKeyed claim_key claims
      → Held box claims
      → (box' : Outbox) × Settles claims box box'
  unfolding settle_all
  settle_all-Held [] box w h =
      (box, record { runs = refl; others = λ k n. refl; claimed = λ k c r n. absurd (cc) })
  settle_all-Held (c ∷ claims) box w ((r, o), h) =
      let k = c.event.event_id in
      let s = settled_row c r in
      let mid : Outbox = record box { events = put event_key s box.events } in
      let s_key : s.event_id ≡ k = settled_key c r ∙ find_key event_key k box.events r o.0 in
      let apart : Without claim_key s.event_id claims =
        subst (λ i. Without claim_key i claims) (sym s_key) w.0 in
      let (last, rest) = settle_all-Held claims mid w.1 (Held-put s box claims apart h) in
      (
        last,
        record {
          runs = ground (arith, settle_owner c box r o, rest.runs);
          others =
              λ j n. ground (arith, rest.others j, find-put_ne event_key j s box.events, s_key);
          claimed = λ j d t n f. ground (
            arith,
            s_key,
            o.0,
            rest.others j,
            rest.claimed j d t,
            find-put_ne event_key j s box.events,
            find-put event_key j s t box.events,
            find-Without claim_key k claims w.0,
          );
        },
      )

  module _ (uuid4 : ℕ → Uuid) (busy : Uuid → Bool) (now : Instant)
      (batch_size lease_seconds timeout : ℕ) (box : Outbox) (v : IsValid box) where
    claims-Held :
        (box' : Outbox) (claims : List ClaimedOutboxEvent)
        → claim_outbox_events uuid4 busy now batch_size lease_seconds box ≡ ok (claims, box')
        → Held box' claims
    claims-Held box' claims e =
        All-map_pred (λ c. find claim_key c.event.event_id claims ≡ some c)
          (λ c. (r : OutboxEvent) × Owns c.event.event_id c.lock_token box' r)
          (λ c found.
            let (r, (_, was_open, _, row)) =
              claimed_event uuid4 busy now batch_size lease_seconds box box' claims c.event.event_id
                c v e found in
            (lease c.lock_token now lease_seconds r, (row, refl, ground (arith, was_open))))
          claims
          (find-IsKeyed claim_key claims
            (claims-IsKeyed uuid4 busy now batch_size lease_seconds box box' claims v e))

    abbrev pass : Result RelayResult × Outbox
    pass =
        relay_outbox_once bus outcome_time uuid4 busy (λ b. b) now batch_size lease_seconds timeout
          box

    -- Event `k` was due and free, and its claim was settled.
    abbrev pub IsSettled : ℕ → OutboxEvent → Outbox → Type 0
    IsSettled k r last =
        (c : ClaimedOutboxEvent) × (c.event ≡ event_of r)
        × (is_open uuid4 busy now batch_size lease_seconds r ≡ true)
        × (find event_key k last.events
            ≡ some (settled_row c (lease c.lock_token now lease_seconds r)))

    by_claims :
        (claims : List ClaimedOutboxEvent) (box' : Outbox)
        → claim_outbox_events uuid4 busy now batch_size lease_seconds box ≡ ok (claims, box')
        → 1 ≤ timeout
        → timeout < seconds lease_seconds
        → (last : Outbox) × (pass ≡ (
          ok (record { claimed = length claims; published = took claims; failed = refused claims }),
          last,
        ))
          × Settles claims box' last
    unfolding relay_outbox_once settle_all
    by_claims [] box' e c d = (
      box',
      ground (arith, e),
      record { runs = refl; others = λ k n. refl; claimed = λ k c r n. absurd (cc) },
    )
    by_claims (x ∷ claims) box' e c d =
        let (last, settles) =
          settle_all-Held (x ∷ claims) box'
            (claims-IsKeyed uuid4 busy now batch_size lease_seconds box box' (x ∷ claims) v e)
            (claims-Held box' (x ∷ claims) e) in
        (last, ground (arith, e, settles.runs), settles)

    took-add-refused :
        (claims : List ClaimedOutboxEvent) → took claims + refused claims ≡ length claims
    took-add-refused [] = refl
    took-add-refused (c ∷ claims) = ground (arith, took-add-refused claims)

    -- The pass on all events at once.
    relay_pass :
        1 ≤ batch_size
        → batch_size ≤ max_batch_size
        → 1 ≤ timeout
        → timeout < seconds lease_seconds
        → (result : RelayResult) × (last : Outbox) × (pass ≡ (ok result, last))
          × (result.published + result.failed ≡ result.claimed)
          × ((k : ℕ) (r : OutboxEvent)
              → find event_key k box.events ≡ some r
              → (find event_key k last.events ≡ some r) ⊎ IsSettled k r last)
          × ((k : ℕ) (r : OutboxEvent)
              → length (filter (is_open uuid4 busy now batch_size lease_seconds) box.events)
                ≤ batch_size
              → find event_key k box.events ≡ some r
              → is_open uuid4 busy now batch_size lease_seconds r ≡ true
              → IsSettled k r last)
    relay_pass a b c d =
        let (claims, box', claimed, _, _) =
          claim_outbox_events_total uuid4 busy now batch_size lease_seconds box v a b
            (omega arith) in
        let (last, runs, settles) = by_claims claims box' claimed c d in
        let settled : (k : ℕ) (r : OutboxEvent) (c : ClaimedOutboxEvent)
            → find event_key k box.events ≡ some r
            → find claim_key k claims ≡ some c
            → IsSettled k r last =
          λ k r c at_first found.
            let (s, (s_at_first, was_open, envelope, row)) =
              claimed_event uuid4 busy now batch_size lease_seconds box box' claims k c v claimed
                found in
            let same : s ≡ r = cc in
            subst (λ t. IsSettled k t last) same
              (
                c,
                envelope,
                was_open,
                settles.claimed k c (lease c.lock_token now lease_seconds s) found row,
              ) in
        (
          record { claimed = length claims; published = took claims; failed = refused claims },
          last,
          runs,
          took-add-refused claims,
          λ k r at_first. elim (Option-cases (find claim_key k claims)) [
            | inl free ↦ inl (
                settles.others k free
                ∙ unclaimed_event uuid4 busy now batch_size lease_seconds box box' claims k v
                    claimed free
                ∙ at_first)
            | inr (c, found) ↦ inr (settled k r c at_first found)
          ],
          λ k r room at_first was_open.
              let (token, found) =
                due_is_claimed uuid4 busy now batch_size lease_seconds box box' claims k r v claimed
                  room at_first was_open in
              settled k r _ at_first found,
        )

    -- While no other worker commits, a relay pass on a valid table, with arguments in range,
    -- returns; published and failed add up to claimed; and each event either keeps its row or was
    -- due and free and is settled: published if the bus took it, released with the code of the
    -- error if not.
    pub relay_outbox_once_effect :
        (k : ℕ) (r : OutboxEvent)
        → find event_key k box.events ≡ some r
        → 1 ≤ batch_size
        → batch_size ≤ max_batch_size
        → 1 ≤ timeout
        → timeout < seconds lease_seconds
        → (result : RelayResult) × (last : Outbox) × (pass ≡ (ok result, last))
          × (result.published + result.failed ≡ result.claimed)
          × ((find event_key k last.events ≡ some r) ⊎ IsSettled k r last)
    relay_outbox_once_effect k r at_first a b c d =
        let (result, last, runs, add_up, settled, _) = relay_pass a b c d in
        (result, last, runs, add_up, settled k r at_first)

    -- While no other worker commits, and if the batch has room for all events that are due and
    -- free, a relay pass on a valid table, with arguments in range, returns and settles each of
    -- them.
    pub relay_outbox_once_settles :
        (k : ℕ) (r : OutboxEvent)
        → length (filter (is_open uuid4 busy now batch_size lease_seconds) box.events) ≤ batch_size
        → find event_key k box.events ≡ some r
        → is_open uuid4 busy now batch_size lease_seconds r ≡ true
        → 1 ≤ batch_size
        → batch_size ≤ max_batch_size
        → 1 ≤ timeout
        → timeout < seconds lease_seconds
        → (result : RelayResult) × (last : Outbox) × (pass ≡ (ok result, last)) × IsSettled k r last
    relay_outbox_once_settles k r room at_first was_open a b c d =
        let (result, last, runs, _, _, all) = relay_pass a b c d in
        (result, last, runs, all k r room at_first was_open)
