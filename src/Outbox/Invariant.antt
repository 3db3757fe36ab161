-- ===== src/Outbox/Invariant.antt =====
-- What holds of every row of the outbox between two transactions: the CHECK constraints of
-- app/platform/event_bus/models.py, and that a stored envelope still passes its validators.
use seqret_be.Prelude.{ℕ, ◌≡◌, Bool, true, false, Option, none, some, arith, is_none, All}
use seqret_be.Prelude.Table.{put, IsKeyed, All-put, put-IsKeyed}
use seqret_be.Contracts.Events.{is_accepted}
use seqret_be.Outbox.{OutboxEvent, Outbox, event_key, event_of, is_error_code, lease}
use Prim.Native.String.{String}

-- An error code that a row may hold.
abbrev pub is_code_or_none : Option String → Bool
is_code_or_none none = true
is_code_or_none (some c) = is_error_code c

pub record IsValidRow (r : OutboxEvent) : Type 0 where
  -- `outbox_lock_pair`
  pub lock_pair : is_none r.lock_token ≡ is_none r.locked_until
  -- `outbox_published_final`
  pub published_unlocked : is_none r.published_at ≡ false → is_none r.lock_token ≡ true
  pub published_clean : is_none r.published_at ≡ false → is_none r.last_error_code ≡ true
  -- `outbox_error_code_present`, and the pattern that `mark_outbox_failed` asks for
  pub error_code : is_code_or_none r.last_error_code ≡ true
  -- the envelope that `enqueue_domain_event` built
  pub accepted : is_accepted (event_of r) ≡ true

pub record IsValid (box : Outbox) : Type 0 where
  pub keyed : IsKeyed event_key box.events
  pub rows : All IsValidRow box.events

pub lease-IsValidRow :
    (token now n : ℕ) (r : OutboxEvent)
    → is_none r.published_at ≡ true
    → IsValidRow r
    → IsValidRow (lease token now n r)
lease-IsValidRow token now n r unpublished v = ground arith

pub put-IsValid :
    (box : Outbox) (r : OutboxEvent) (draws : ℕ)
    → IsValid box
    → IsValidRow r
    → IsValid (record { events = put event_key r box.events; draws = draws })
put-IsValid box r draws v w = record {
  keyed = put-IsKeyed event_key r box.events v.keyed;
  rows = All-put event_key IsValidRow r box.events w v.rows;
}
