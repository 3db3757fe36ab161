-- ===== src/Outbox/Leases.antt =====
-- The loop of `claim_outbox_events`, and the table and the claims that it ends with.
pub mod Claims
pub mod Exclusive
use seqret_be.Prelude.{
  ℕ, suc, ◌+◌, ◌≤◌, ◌<◌, ◌≡◌, refl, ◌≢◌, Bool, true, false, not, ◌&&◌, Option, none, some, List, [],
  ◌∷◌, arith, is_none, length, ap, ◌==◌, if◌then◌else◌, leb, All,
}
use mathlib.Core.Option
use seqret_be.Prelude.Clock.{Uuid, Instant}
use seqret_be.Prelude.Table.{
  find, put, select, Without, IsKeyed, All-put, find-All, put-IsKeyed, All-select, select_holds,
  find-put_ne, find-put_self, find-Without, find_key, find-IsKeyed, select-IsKeyed, find-select,
  length-select,
}
use seqret_be.Prelude.Transaction.{Result, ok, err}
use seqret_be.Contracts.Events.{DomainEvent, is_accepted, build_event}
use seqret_be.Outbox.{
  OutboxEvent, Outbox, ClaimedOutboxEvent, event_key, event_of, lease, lease_rows, claimable,
  is_due, claim_outbox_events,
}
use seqret_be.Outbox.Invariant.{IsValidRow, IsValid, lease-IsValidRow, put-IsValid}

abbrev pub claim_key : ClaimedOutboxEvent → ℕ
claim_key c = c.event.event_id

module _ (uuid4 : ℕ → Uuid) (now : Instant) (lease_seconds : ℕ) where
  -- The table after the rows were leased with the tokens from the n-th draw on.
  pub leased_rows : ℕ → List OutboxEvent → List OutboxEvent → List OutboxEvent
  leased_rows n [] t = t
  leased_rows n (r ∷ rows) t =
      leased_rows (n + 1) rows (put event_key (lease (uuid4 n) now lease_seconds r) t)

  pub claims_of : ℕ → List OutboxEvent → List ClaimedOutboxEvent
  claims_of n [] = []
  claims_of n (r ∷ rows) =
      record { event = event_of r; lock_token = uuid4 n } ∷ claims_of (n + 1) rows

  -- A row that the claim may lease: unpublished, with an envelope that builds.
  abbrev pub IsLeasable : OutboxEvent → Type 0
  IsLeasable r = (is_none r.published_at ≡ true) × IsValidRow r

  pub lease_rows_lem :
      (rows : List OutboxEvent) (box : Outbox)
      → All IsLeasable rows
      → lease_rows uuid4 now lease_seconds rows box
        ≡ ok (
          claims_of box.draws rows,
          record {
            events = leased_rows box.draws rows box.events;
            draws = box.draws + length rows;
          },
        )
  unfolding lease_rows leased_rows claims_of build_event
  lease_rows_lem [] box h = ground arith
  lease_rows_lem (r ∷ rows) box h = ground (
    arith,
    h.0.1.accepted,
    lease_rows_lem rows
        (record {
          events = put event_key (lease (uuid4 box.draws) now lease_seconds r) box.events;
          draws = box.draws + 1;
        })
        h.1,
  )

  -- The token that row `k` of the rows is given.
  pub token_of : ℕ → ℕ → List OutboxEvent → Uuid
  token_of n k [] = uuid4 n
  token_of n k (r ∷ rows) = if r.event_id == k then uuid4 n else token_of (n + 1) k rows

  pub find-leased_rows-none :
      (n k : ℕ) (rows t : List OutboxEvent)
      → find event_key k rows ≡ none
      → find event_key k (leased_rows n rows t) ≡ find event_key k t
  unfolding leased_rows
  find-leased_rows-none n k [] t h = refl
  find-leased_rows-none n k (r ∷ rows) t h =
      let r' = lease (uuid4 n) now lease_seconds r in
      ground (
        arith,
        find-leased_rows-none (n + 1) k rows (put event_key r' t),
        find-put_ne event_key k r' t,
      )

  pub find-leased_rows :
      (n k : ℕ) (rows t : List OutboxEvent) (r : OutboxEvent)
      → IsKeyed event_key rows
      → find event_key k rows ≡ some r
      → find event_key k t ≡ some r
      → find event_key k (leased_rows n rows t)
        ≡ some (lease (token_of n k rows) now lease_seconds r)
  unfolding leased_rows token_of
  find-leased_rows n k [] t r w h e = cc
  find-leased_rows n k (s ∷ rows) t r w h e =
      let s' = lease (uuid4 n) now lease_seconds s in
      ground (
        arith,
        find-leased_rows (n + 1) k rows (put event_key s' t) r w.1,
        find-leased_rows-none (n + 1) k rows (put event_key s' t),
        find-Without event_key s.event_id rows w.0,
        find-put_ne event_key k s' t,
        find-put_self event_key s' t r,
      )

  abbrev pub claim_of : ℕ → ℕ → List OutboxEvent → OutboxEvent → ClaimedOutboxEvent
  claim_of n k rows r = record { event = event_of r; lock_token = token_of n k rows }

  pub find-claims_of :
      (n k : ℕ) (rows : List OutboxEvent)
      → find claim_key k (claims_of n rows) ≡ Option.map (claim_of n k rows) (find event_key k rows)
  unfolding claims_of token_of
  find-claims_of n k [] = refl
  find-claims_of n k (r ∷ rows) = ground (arith, find-claims_of (n + 1) k rows)

  pub length-claims_of : (n : ℕ) (rows : List OutboxEvent) → length (claims_of n rows) ≡ length rows
  unfolding claims_of
  length-claims_of n [] = refl
  length-claims_of n (r ∷ rows) = ap suc (length-claims_of (n + 1) rows)

  pub leased_rows-IsValid :
      (n d : ℕ) (rows : List OutboxEvent) (box : Outbox)
      → IsValid box
      → All IsLeasable rows
      → IsValid (record { events = leased_rows n rows box.events; draws = d })
  unfolding leased_rows
  leased_rows-IsValid n d [] box v h = record { keyed = v.keyed; rows = v.rows }
  leased_rows-IsValid n d (r ∷ rows) box v h =
      leased_rows-IsValid (n + 1) d rows _
        (put-IsValid box (lease (uuid4 n) now lease_seconds r) d v
          (lease-IsValidRow (uuid4 n) now lease_seconds r h.0.0 h.0.1))
        h.1
