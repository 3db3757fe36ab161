-- ===== src/Outbox/Finalize.antt =====
-- `mark_outbox_published` and `mark_outbox_failed`: only the owner of a live claim finalizes, and
-- the retry delay.
use Prim.Native.String.{String}
use seqret_be.Prelude.{
  ℕ, zero, suc, ◌+◌, ◌-◌, ◌^◌, ◌*◌, ◌≤◌, ◌≡◌, refl, true, false, none, some, arith, leb, min,
  leb→le, Bool-cases, inl, inr,
}
use native.Mathlib.Nat.{pow-suc}
use seqret_be.Prelude.Clock.{Uuid, Instant, seconds}
use seqret_be.Prelude.Table.{find, put, find-put, find_key}
use seqret_be.Prelude.Transaction.{ok}
use seqret_be.Outbox.{
  OutboxEvent, Outbox, event_key, owned, is_due, is_error_code, mark_outbox_published,
  mark_outbox_failed, retry_delay,
}

-- The row as a successful publish leaves it.
abbrev pub published_row : Instant → OutboxEvent → OutboxEvent
published_row now r = record r {
  published_at = some now;
  lock_token = none;
  locked_until = none;
  last_error_code = none;
}

-- The row as a failed publish leaves it.
abbrev pub released_row : Instant → String → OutboxEvent → OutboxEvent
released_row now code r = record r {
  next_attempt_at = now + seconds (retry_delay r.attempt_count);
  lock_token = none;
  locked_until = none;
  last_error_code = some code;
}

-- The caller owns row `k` by this token: the row is unpublished and holds it.
abbrev pub Owns : ℕ → Uuid → Outbox → OutboxEvent → Type 0
Owns k token box r =
    (find event_key k box.events ≡ some r) × (r.lock_token ≡ some token) × (r.published_at ≡ none)

pub owned-Owns :
    (k token : ℕ) (box : Outbox) (r : OutboxEvent)
    → owned k token box.events ≡ some r
    → Owns k token box r
owned-Owns k token box r h = ground arith

pub Owns-owned :
    (k token : ℕ) (box : Outbox) (r : OutboxEvent)
    → Owns k token box r
    → owned k token box.events ≡ some r
Owns-owned k token box r (a, b, c) = ground arith

-- A publish by the owner succeeds, and writes that row alone.
pub mark_outbox_published_owner :
    (k token : ℕ) (now : Instant) (box : Outbox) (r : OutboxEvent)
    → Owns k token box r
    → mark_outbox_published k token now box
      ≡ ok (true, record box { events = put event_key (published_row now r) box.events })
unfolding mark_outbox_published
mark_outbox_published_owner k token now box r (a, b, c) = ground arith

-- Without the lease a publish reports false and changes nothing.
pub mark_outbox_published_stale :
    (k token : ℕ) (now : Instant) (box : Outbox)
    → owned k token box.events ≡ none
    → mark_outbox_published k token now box ≡ ok (false, box)
unfolding mark_outbox_published
mark_outbox_published_stale k token now box h = ground arith

pub mark_outbox_failed_owner :
    (k token : ℕ) (code : String) (now : Instant) (box : Outbox) (r : OutboxEvent)
    → is_error_code code ≡ true
    → Owns k token box r
    → mark_outbox_failed k token code now box
      ≡ ok (true, record box { events = put event_key (released_row now code r) box.events })
unfolding mark_outbox_failed
mark_outbox_failed_owner k token code now box r e (a, b, c) = ground arith

pub mark_outbox_failed_stale :
    (k token : ℕ) (code : String) (now : Instant) (box : Outbox)
    → is_error_code code ≡ true
    → owned k token box.events ≡ none
    → mark_outbox_failed k token code now box ≡ ok (false, box)
unfolding mark_outbox_failed
mark_outbox_failed_stale k token code now box e h = ground arith

-- The powers of two that the exponent's bound leaves.
pow_bounds : (m : ℕ) → m ≤ 8 → (1 ≤ 2 ^ m) × (2 ^ m ≤ 256)
pow_bounds zero h = omega arith
pow_bounds (suc zero) h = omega arith
pow_bounds (suc (suc zero)) h = omega arith
pow_bounds (suc (suc (suc zero))) h = omega arith
pow_bounds (suc (suc (suc (suc zero)))) h = omega arith
pow_bounds (suc (suc (suc (suc (suc zero))))) h = omega arith
pow_bounds (suc (suc (suc (suc (suc (suc zero)))))) h = omega arith
pow_bounds (suc (suc (suc (suc (suc (suc (suc zero))))))) h = omega arith
pow_bounds (suc (suc (suc (suc (suc (suc (suc (suc zero)))))))) h = omega arith
pow_bounds (suc (suc (suc (suc (suc (suc (suc (suc (suc m))))))))) h = omega arith

pow_double : (a b : ℕ) → b ≡ suc a → 2 ^ b ≡ 2 * 2 ^ a
pow_double a b h = rw h (omega (arith, pow-suc 2 a))

-- From the first attempt on the retry delay is a power of two of at most 256 seconds, and each
-- attempt doubles it up to there.
pub retry_delay_bounds :
    (n : ℕ)
    → 1 ≤ n
    → (retry_delay n ≡ 2 ^ min (n - 1) 8)
      × (retry_delay n ≤ 256)
      × (retry_delay (n + 1) ≡ min (2 * retry_delay n) 256)
unfolding retry_delay
retry_delay_bounds n first =
    let bounds = pow_bounds (min (n - 1) 8) (omega arith) in
    let next_bounds = pow_bounds (min (n + 1 - 1) 8) (omega arith) in
    (
      omega (arith, bounds),
      omega (arith, bounds),
      elim (Bool-cases (leb n 8)) [
        | inl low ↦
            let below = leb→le n 8 low in
            omega (
              arith,
              bounds,
              next_bounds,
              pow_double (min (n - 1) 8) (min (n + 1 - 1) 8) (omega arith),
            )
        | inr high ↦
            let above : 9 ≤ n = ground arith in
            let full : min (n - 1) 8 ≡ 8 = omega arith in
            let next_full : min (n + 1 - 1) 8 ≡ 8 = omega arith in rw full (rw next_full refl)
      ],
    )

-- With an error code that fits the pattern, the owner of an event may release it, and the released
-- event is due at a time exactly if the retry delay has passed by then.
pub failed_event_waits :
    (k token : ℕ) (code : String) (now : Instant) (box : Outbox) (r : OutboxEvent) (later : Instant)
    → is_error_code code ≡ true
    → Owns k token box r
    → (box' : Outbox) × (mark_outbox_failed k token code now box ≡ ok (true, box'))
      × (find event_key k box'.events ≡ some (released_row now code r))
      × (is_due later (released_row now code r)
          ≡ leb (now + seconds (retry_delay r.attempt_count)) later)
failed_event_waits k token code now box r later e o = (
  record box { events = put event_key (released_row now code r) box.events },
  mark_outbox_failed_owner k token code now box r e o,
  find-put event_key k (released_row now code r) r box.events o.0
      (find_key event_key k box.events r o.0),
  ground arith,
)
