-- ===== src/Outbox/Relay/Runs.antt =====
-- A relay pass is a sequence of the outbox's commands, it always returns on a valid table, and its
-- counts are bounded by what it claimed.
use seqret_be.Prelude.{
  ℕ, ◌+◌, ◌≤◌, ◌<◌, ◌≡◌, refl, Bool, true, false, Option, List, [], ◌∷◌, arith, length,
  Option-cases, inl, inr,
}
use seqret_be.Prelude.Clock.{Uuid, Instant, seconds}
use seqret_be.Prelude.Transaction.{ok}
use seqret_be.Contracts.Events.{DomainEvent}
use seqret_be.Contracts.Ports.{
  Exception, provider_error, other_error, value, ProviderErrorKind, not_found,
}
use seqret_be.Outbox.{
  Outbox, ClaimedOutboxEvent, RelayResult, owned, is_error_code, claim_outbox_events,
  mark_outbox_published, mark_outbox_failed, max_batch_size,
}
use seqret_be.Outbox.Invariant.{IsValid}
use seqret_be.Outbox.Finalize.{
  mark_outbox_published_owner, mark_outbox_published_stale, mark_outbox_failed_owner,
  mark_outbox_failed_stale, owned-Owns,
}
use seqret_be.Outbox.Leases.Claims.{claim_outbox_events_total}
use seqret_be.Outbox.Steps.{Step, claim, publish, release, Reach, here, next, Reach-trans}
use seqret_be.Outbox.Relay.{error_code, as_count, settle, settle_all, relay_outbox_once}

-- Every code that the relay records passes the pattern that `mark_outbox_failed` checks.
pub error_code_ok : (x : Exception) → is_error_code (error_code x) ≡ true
unfolding is_error_code
error_code_ok other_error = refl
error_code_ok (provider_error e) = by_kind e.kind
  where
    by_kind : (k : ProviderErrorKind) → is_error_code (value k) ≡ true
    by_kind not_found = refl
    by_kind _ = refl

publish_total :
    (k token : ℕ) (now : Instant) (box : Outbox)
    → (done : Bool) × (box' : Outbox) × (mark_outbox_published k token now box ≡ ok (done, box'))
publish_total k token now box = elim (Option-cases (owned k token box.events)) [
  | inl gone ↦ (false, box, mark_outbox_published_stale k token now box gone)
  | inr (r, mine) ↦
      (true, _, mark_outbox_published_owner k token now box r (owned-Owns k token box r mine))
]

release_total :
    (k token : ℕ) (x : Exception) (now : Instant) (box : Outbox)
    → (done : Bool) × (box' : Outbox) × (mark_outbox_failed k token (error_code x) now box
        ≡ ok (done, box'))
release_total k token x now box = elim (Option-cases (owned k token box.events)) [
  | inl gone ↦
      (false, box, mark_outbox_failed_stale k token (error_code x) now box (error_code_ok x) gone)
  | inr (r, mine) ↦ (
    true,
    _,
    mark_outbox_failed_owner k token (error_code x) now box r (error_code_ok x)
        (owned-Owns k token box r mine),
  )
]

module _ (uuid4 : ℕ → Uuid) (bus : DomainEvent → Option Exception)
    (outcome_time : ClaimedOutboxEvent → Instant) where
  settle_runs :
      (c : ClaimedOutboxEvent) (box : Outbox)
      → (counts : ℕ × ℕ) × (box' : Outbox) × (settle bus outcome_time c box ≡ ok (counts, box'))
        × Step uuid4 box box'
        × (counts.0 + counts.1 ≤ 1)
  unfolding settle
  settle_runs c box = elim (Option-cases (bus c.event)) [
    | inl accepted ↦
        let (done, box', e) = publish_total c.event.event_id c.lock_token (outcome_time c) box in
        (
          (as_count done, 0),
          box',
          ground (arith, accepted, e),
          publish c.event.event_id c.lock_token (outcome_time c) done e,
          ground arith,
        )
    | inr (x, raised) ↦
        let (done, box', e) = release_total c.event.event_id c.lock_token x (outcome_time c) box in
        (
          (0, as_count done),
          box',
          ground (arith, raised, e),
          release c.event.event_id c.lock_token (error_code x) (outcome_time c) done e,
          ground arith,
        )
  ]

  settle_all_runs :
      {start : Outbox} (claims : List ClaimedOutboxEvent) (box : Outbox)
      → Reach uuid4 start box
      → (counts : ℕ × ℕ) × (box' : Outbox) × (settle_all bus outcome_time claims box
          ≡ ok (counts, box'))
        × Reach uuid4 start box'
        × (counts.0 + counts.1 ≤ length claims)
  unfolding settle_all
  settle_all_runs [] box r = ((0, 0), box, refl, r, omega arith)
  settle_all_runs (c ∷ claims) box r =
      let (one, box', e, step, few) = settle_runs c box in
      let (rest, box'', e', r', few') = settle_all_runs claims box' (next r step) in
      ((one.0 + rest.0, one.1 + rest.1), box'', ground (arith, e, e'), r', omega arith)

  -- On a valid table, with arguments in range, and whatever sequence of commands other workers
  -- commit while the bus publishes, a relay pass returns; what it commits is a sequence of the
  -- commands of the outbox; published and failed are together at most claimed, and claimed is at
  -- most the batch.
  pub relay_outbox_once_runs :
      (busy : Uuid → Bool) (meanwhile : Outbox → Outbox) (now : Instant)
      (batch_size lease_seconds timeout : ℕ) (box : Outbox)
      → ((b : Outbox) → Reach uuid4 b (meanwhile b))
      → IsValid box
      → 1 ≤ batch_size
      → batch_size ≤ max_batch_size
      → 1 ≤ timeout
      → timeout < seconds lease_seconds
      → (result : RelayResult) × (box' : Outbox) × (relay_outbox_once bus outcome_time uuid4 busy
            meanwhile now batch_size lease_seconds timeout box
          ≡ (ok result, box'))
        × Reach uuid4 box box'
        × (result.published + result.failed ≤ result.claimed)
        × (result.claimed ≤ batch_size)
  unfolding relay_outbox_once
  relay_outbox_once_runs busy meanwhile now batch_size lease_seconds timeout box others v a b c d =
      let (claims, box', claimed, _, few) =
        claim_outbox_events_total uuid4 busy now batch_size lease_seconds box v a b (omega arith) in
      by_claims claims box' claimed few
    where
      by_claims :
          (claims : List ClaimedOutboxEvent) (box' : Outbox)
          → claim_outbox_events uuid4 busy now batch_size lease_seconds box ≡ ok (claims, box')
          → length claims ≤ batch_size
          → (result : RelayResult) × (last : Outbox) × (relay_outbox_once bus outcome_time uuid4
                busy meanwhile now batch_size lease_seconds timeout box
              ≡ (ok result, last))
            × Reach uuid4 box last
            × (result.published + result.failed ≤ result.claimed)
            × (result.claimed ≤ batch_size)
      by_claims [] box' e few = (
        record { claimed = 0; published = 0; failed = 0 },
        box',
        ground (arith, e),
        next here (claim busy now batch_size lease_seconds [] e),
        omega arith,
        omega arith,
      )
      by_claims (x ∷ claims) box' e few =
          let first = next here (claim busy now batch_size lease_seconds (x ∷ claims) e) in
          let (counts, last, settled, steps, bound) =
            settle_all_runs (x ∷ claims) (meanwhile box') (Reach-trans first (others box')) in
          (
            record { claimed = length (x ∷ claims); published = counts.0; failed = counts.1 },
            last,
            ground (arith, e, settled),
            steps,
            bound,
            few,
          )
