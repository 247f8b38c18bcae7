-- ===== src/Cron/Next.antt =====
-- src/cron/schedule.rs: the occurrence that `next_after` reports.
use danso.Prelude.{
  ℕ, ◌+◌, ◌-◌, ◌*◌, ◌≤◌, ◌<◌, ◌≡◌, refl, ap, ltb, Option, none, some, arith, Bool-cases, inl, inr,
}
use danso.Cron.Time.{minute_ns, truncate_minute, truncate_minute-eq, truncate_minute-IsMinute}
use danso.Cron.Fields.{Calendar, CronFields}
use danso.Cron.Zone.{Zone}
use danso.Cron.Scan.{IsFirst}
use danso.Cron.Schedule.{Schedule, cron, interval, once, next_after}
use danso.Cron.Occurrences.{first_match-IsFirst}
use danso.Cron.Upcoming.{interval_next_after-past}
use danso.Cron.Window.{IsParsed}

abbrev pub IsLater : ℕ → Option ℕ → Type 0
IsLater at none = Unit
IsLater at (some t) = at < t

-- What the answer must be: the first minute that fires within 366 days, a later step of the interval,
-- or the one time where it is still to come.
abbrev pub Answers : Calendar → Schedule → ℕ → Option ℕ → Type 0
Answers calendar (cron fields tz) at r =
    IsFirst calendar fields tz (truncate_minute (at + minute_ns))
      (truncate_minute (at + minute_ns) + (366 * 24 * 60 - 1) * minute_ns) (some r)
Answers calendar (interval seconds) at r = (t : ℕ) × (r ≡ some t)
Answers calendar (once run_at) at none = run_at ≤ at
Answers calendar (once run_at) at (some t) = t ≡ run_at

IsFirst-IsLater :
    (calendar : Calendar) (fields : CronFields) (tz : Zone) (at end : ℕ) (r : Option (Option ℕ))
    → IsFirst calendar fields tz (truncate_minute (at + minute_ns)) end r
    → (answer : Option ℕ) × (r ≡ some answer)
      × IsFirst calendar fields tz (truncate_minute (at + minute_ns)) end (some answer)
      × IsLater at answer
IsFirst-IsLater calendar fields tz at end none h = absurd h
IsFirst-IsLater calendar fields tz at end (some none) h = (none, refl, h, tt)
IsFirst-IsLater calendar fields tz at end (some (some t)) h =
    let start = truncate_minute-eq (at + minute_ns) in (some t, refl, h, omega (arith, h.1))

-- `next_after` always ends, what it reports is later than the time asked about, and it is the first
-- whole minute within 366 days that fires for a cron schedule, or that there is none; some time for an
-- interval; and for a single run its time, exactly where that is still to come. The schedule is as
-- parsed, and a zone's offset is steady within a day.
pub next_after-Answers :
    (calendar : Calendar) (schedule : Schedule) (at : ℕ) (anchor : Option ℕ)
    → IsParsed schedule
    → (r : Option ℕ) × (next_after calendar schedule at anchor ≡ some r)
      × Answers calendar schedule at r
      × IsLater at r
unfolding next_after
next_after-Answers calendar (cron fields tz) at anchor parsed =
    let cur = truncate_minute (at + minute_ns) in
    IsFirst-IsLater calendar fields tz at (cur + (366 * 24 * 60 - 1) * minute_ns) _ (
      first_match-IsFirst calendar fields tz cur (cur + (366 * 24 * 60 - 1) * minute_ns) parsed.1
        parsed.0 (truncate_minute-IsMinute (at + minute_ns)))
next_after-Answers calendar (interval seconds) at anchor parsed =
    let (t, found, past) = interval_next_after-past seconds at anchor parsed in
    (some t, ap (λ o. elim o [ none ↦ none | some u ↦ some (some u) ]) found, (t, refl), past)
next_after-Answers calendar (once run_at) at anchor parsed = elim (Bool-cases (ltb at run_at)) [
  | inl ahead ↦ (some run_at, rw ahead refl, refl, ground arith)
  | inr over ↦ (none, rw over refl, ground arith, tt)
]
