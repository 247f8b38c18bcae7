-- ===== src/Cron/Time.antt =====
-- Instants and wall-clock times. Both are numbers of nanoseconds: an instant (chrono's
-- `DateTime<Utc>`) since the first one that chrono represents, a wall-clock time (`NaiveDateTime`)
-- since a midnight at least a day before it, so that neither is negative. `minute`, `hour`,
-- `with_minute` and so on read and write the clock part of such a number. The calendar part (the
-- day of the month, the month, the weekday of a day) is a parameter.
use danso.Prelude.{ℕ, ◌+◌, ◌-◌, ◌*◌, ◌/◌, ◌%◌, ◌≡◌, arith}

abbrev pub second_ns : ℕ
second_ns = 1_000_000_000

abbrev pub minute_ns : ℕ
minute_ns = 60_000_000_000

-- the minutes since the origin
abbrev pub minutes : ℕ → ℕ
minutes n = n / minute_ns

-- the number of the day
abbrev pub day_index : ℕ → ℕ
day_index n = minutes n / 1440

abbrev pub minute : ℕ → ℕ
minute n = minutes n % 60

abbrev pub hour : ℕ → ℕ
hour n = minutes n / 60 % 24

-- `n` at another minute of its hour, with its seconds
abbrev pub with_minute : ℕ → ℕ → ℕ
with_minute n m = n % minute_ns + (minutes n - minutes n % 60 + m) * minute_ns

-- `n` at another hour of its day, with its minutes and seconds
abbrev pub with_hour : ℕ → ℕ → ℕ
with_hour n h = n % minute_ns + (minutes n - minutes n % 1440 + h * 60 + minutes n % 60) * minute_ns

-- src/cron/time.rs: the seconds and the nanoseconds are taken off
unfoldable pub truncate_minute : ℕ → ℕ
truncate_minute t = t - t / second_ns % 60 * second_ns - t % second_ns

-- Whole minutes: a multiple of a minute.
abbrev pub IsMinute : ℕ → Type 0
IsMinute t = t % minute_ns ≡ 0

pub truncate_minute-IsMinute : (t : ℕ) → IsMinute (truncate_minute t)
unfolding truncate_minute
truncate_minute-IsMinute t = omega arith

pub truncate_minute-eq : (t : ℕ) → truncate_minute t ≡ t - t % minute_ns
unfolding truncate_minute
truncate_minute-eq t = omega arith
