-- ===== src/Prelude/Clock.antt =====
-- Instants and durations: microseconds since the epoch, as Python's aware `datetime` counts them.
use Prim.Native.Nat.{ℕ, ◌*◌}

-- A UUID is only compared, so it is a number.
abbrev pub Uuid : Type 0
Uuid = ℕ

abbrev pub Instant : Type 0
Instant = ℕ

-- `timedelta(seconds=n)`
abbrev pub seconds : ℕ → ℕ
seconds n = n * 1_000_000
