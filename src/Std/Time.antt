-- ===== src/Std/Time.antt =====
-- `std::time`: a `Duration` is its nanoseconds, a `SystemTime` the nanoseconds since the first
-- instant that the system's 64-bit clock can show.
use hivebus.Prelude.{ℕ, ◌-◌, ◌*◌, ◌^◌, Option, none, some, leb, if◌then◌else◌}

abbrev pub Duration : Type 0
Duration = ℕ

abbrev pub SystemTime : Type 0
SystemTime = ℕ

abbrev pub from_millis : ℕ → Duration
from_millis ms = ms * 1_000_000

abbrev pub from_secs : ℕ → Duration
from_secs s = s * 1_000_000_000

unfoldable pub duration_max : Duration
duration_max = 2 ^ 64 * 1_000_000_000 - 1

-- 1970, 2 ^ 63 seconds after the first instant.
unfoldable pub unix_epoch : SystemTime
unix_epoch = 2 ^ 63 * 1_000_000_000

-- `later.duration_since(earlier)`, an error where `earlier` is the later one.
abbrev pub duration_since : SystemTime → SystemTime → Option Duration
duration_since later earlier = if leb earlier later then some (later - earlier) else none
