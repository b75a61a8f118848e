-- ===== src/Common/Time.antt =====
-- Instants and durations in nanoseconds, as `time.Time` and `time.Duration` count them.
use Prim.Native.Nat.{ℕ, ◌/◌}

abbrev pub millisecond : ℕ
millisecond = 1_000_000

abbrev pub second : ℕ
second = 1_000_000_000

abbrev pub minute : ℕ
minute = 60_000_000_000

abbrev pub hour : ℕ
hour = 3_600_000_000_000

-- `t.Format(time.RFC3339)` keeps whole seconds; in one zone these texts are ordered as the seconds.
abbrev pub rfc3339 : ℕ → ℕ
rfc3339 t = t / 1_000_000_000
