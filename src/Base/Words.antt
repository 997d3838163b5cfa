-- ===== src/Base/Words.antt =====
-- Machine words and durations. A `u64` sum wraps; a `Duration` is its number of nanoseconds.
use Prim.Native.Nat.{ℕ, ◌*◌, ◌/◌, ◌%◌, ◌^◌}

abbrev pub u64_mod : ℕ
u64_mod = 2 ^ 64

abbrev pub u64 : ℕ → ℕ
u64 n = n % u64_mod

abbrev pub Duration : Type 0
Duration = ℕ

abbrev pub from_secs : ℕ → Duration
from_secs s = s * 1000000000

abbrev pub from_millis : ℕ → Duration
from_millis m = m * 1000000

abbrev pub as_secs : Duration → ℕ
as_secs d = d / 1000000000

abbrev pub as_millis : Duration → ℕ
as_millis d = d / 1000000
