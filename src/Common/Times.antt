-- ===== src/Common/Times.antt =====
-- Durations in nanoseconds, as package time counts them.
use Prim.Native.Nat.{ℕ, ◌*◌}

abbrev pub millisecond : ℕ
millisecond = 1000000

abbrev pub second : ℕ
second = 1000 * millisecond
