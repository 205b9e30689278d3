-- ===== src/Time.antt =====
-- Times and waits, floats of seconds in the code, are whole numbers of ticks.
use prd_api_wrapper.Prelude.{ℕ, ◌*◌, ◌-◌, ◌/◌}

-- A tick is a nanosecond, the resolution of the clock that `time.monotonic` reads.
abbrev pub ticks_per_second : ℕ
ticks_per_second = 1_000_000_000

-- `int((end - start) * 1000)`
unfoldable pub milliseconds : ℕ → ℕ → ℕ
milliseconds start finish = (finish - start) * 1000 / ticks_per_second
