-- ===== src/Cron/Window.antt =====
-- src/cron/schedule.rs: where the occurrences of `schedule_occurrences` lie.
use danso.Prelude.{
  ℕ, zero, suc, ◌+◌, ◌-◌, ◌*◌, ◌/◌, ◌≤◌, ◌<◌, ◌≡◌, refl, ltb, leb, Bool, true, false, Option, none,
  some, List, [], ◌∷◌, length, take, All, if◌then◌else◌, arith, Bool-cases, inl, inr,
}
use danso.Cron.Time.{second_ns, minute_ns, truncate_minute, truncate_minute-eq}
use danso.Cron.Fields.{Calendar, CronFields, matches, IsClock}
use danso.Cron.Zone.{Zone, IsSteady, to_local}
use danso.Cron.Schedule.{
  Schedule, cron, interval, once, Occurrences, push, minutes_left, step_through, interval_floor,
  later_of, schedule_occurrences, never_ran_since, interval_occurrences,
}
use danso.Cron.Occurrences.{every_minute, iter_occurrences-eq}
use danso.Cron.Upcoming.{interval_next_after-past}

-- A list of at most `cap` times in (low, at].
abbrev pub Within : ℕ → ℕ → ℕ → List ℕ → Type 0
Within low at limit out = All (λ t. (low < t) × (t ≤ at)) out × (length out ≤ limit)

-- The loop ends with such a list.
abbrev pub EndsWithin : ℕ → ℕ → ℕ → Option Occurrences → Type 0
EndsWithin low at limit result =
    (out : List ℕ) × (truncated : Bool) × (result ≡ some (out, truncated)) × Within low at limit out

push-EndsWithin :
    (low at limit t : ℕ) (rest : Option Occurrences)
    → low < t
    → t ≤ at
    → EndsWithin low at limit rest
    → EndsWithin low at (limit + 1) (push t rest)
push-EndsWithin low at limit t rest after before (out, truncated, result, within) =
    (t ∷ out, truncated, rw result refl, (((after, before), within.0), omega (arith, within.1)))

step_through-EndsWithin :
    (fuel seconds limit found cur low at : ℕ)
    → 0 < seconds
    → found ≤ limit
    → low < cur
    → at < cur + fuel * second_ns
    → EndsWithin low at (limit - found) (step_through (suc fuel) seconds limit found cur at)
unfolding step_through
step_through-EndsWithin zero seconds limit found cur low at positive fits after enough =
    let done : leb cur at ≡ false = ground arith in rw done ([], false, refl, (tt, omega arith))
step_through-EndsWithin (suc fuel) seconds limit found cur low at positive fits after enough =
    elim (Bool-cases (leb cur at)) [
      | inr done ↦ rw done ([], false, refl, (tt, omega arith))
      | inl more ↦ elim (Bool-cases (leb limit found)) [
        | inl full ↦ rw (more, full) ([], true, refl, (tt, omega arith))
        | inr room ↦
            let left : limit - found ≡ limit - (found + 1) + 1 = ground arith in
            let step : second_ns ≤ seconds * second_ns = omega arith in
            rw (more, room, left)
              (push-EndsWithin low at (limit - (found + 1)) cur _ after (ground arith) (
                step_through-EndsWithin fuel seconds limit (found + 1) (cur + seconds * second_ns)
                  low at positive (ground arith) (omega arith) (omega arith)))
      ]
    ]

floor_range :
    (anchor : Option ℕ) (last : ℕ)
    → (floor : ℕ) × (interval_floor anchor (some last) ≡ some floor) × (last ≤ floor)
floor_range none last = (last, refl, omega arith)
floor_range (some anchor) last = (later_of anchor last, refl, ground arith)

Within-take :
    (low at n : ℕ) (hits : List ℕ)
    → All (λ t. (low < t) × (t ≤ at)) hits
    → Within low at n (take n hits)
Within-take low at zero hits h = (tt, omega arith)
Within-take low at (suc n) [] h = (tt, omega arith)
Within-take low at (suc n) (t ∷ hits) h =
    let rest = Within-take low at n hits h.1 in ((h.0, rest.0), omega (arith, rest.1))

every_minute-range :
    (calendar : Calendar) (fields : CronFields) (tz : Zone) (n cur low at : ℕ)
    → low < cur
    → n ≤ minutes_left cur at
    → All (λ t. (low < t) × (t ≤ at)) (every_minute calendar fields tz n cur)
unfolding every_minute
every_minute-range calendar fields tz zero cur low at after before = tt
every_minute-range calendar fields tz (suc n) cur low at after before =
    let rest =
      every_minute-range calendar fields tz n (cur + minute_ns) low at (omega arith)
        (omega arith) in
    elim (Bool-cases (matches calendar fields (to_local tz cur))) [
      | inl fires ↦ rw fires ((after, omega arith), rest)
      | inr quiet ↦ rw quiet rest
    ]

-- What a parsed schedule satisfies, and the zone database with it.
abbrev pub IsParsed : Schedule → Type 0
IsParsed (cron fields tz) = IsClock fields × IsSteady tz
IsParsed (interval seconds) = 0 < seconds
IsParsed (once run_at) = Unit

once-EndsWithin :
    (run_at last at limit : ℕ)
    → 0 < limit
    → EndsWithin last at limit (
        if leb run_at at
        then if never_ran_since (some last) run_at
          then some (run_at ∷ [], false)
          else some ([], false)
        else some ([], false))
once-EndsWithin run_at last at limit room = elim (Bool-cases (leb run_at at)) [
  | inr early ↦ rw early ([], false, refl, (tt, omega arith))
  | inl due ↦ elim (Bool-cases (ltb last run_at)) [
    | inr ran ↦ rw (due, ran) ([], false, refl, (tt, omega arith))
    | inl fresh ↦
        rw (due, fresh)
          (run_at ∷ [], false, refl, (((ground arith, ground arith), tt), omega arith))
  ]
]

interval-EndsWithin :
    (seconds last at limit : ℕ) (anchor : Option ℕ)
    → 0 < seconds
    → EndsWithin last at limit
        (interval_occurrences seconds limit at anchor (interval_floor anchor (some last)))
interval-EndsWithin seconds last at limit anchor positive =
    let (floor, floor_eq, later) = floor_range anchor last in
    let (next, next_eq, past) = interval_next_after-past seconds floor anchor positive in
    let fuel : ℕ = (at - next) / second_ns + 1 in
    let rounds : (at - next) / second_ns + 2 ≡ suc fuel = omega arith in
    let all_room : limit - 0 ≡ limit = omega arith in
    let ends =
      step_through-EndsWithin fuel seconds limit 0 next last at positive (omega arith) (omega arith)
        (omega arith) in
    rw (floor_eq, next_eq, rounds) (rw all_room at ends)

-- For a task that has run, `schedule_occurrences` always ends, and each occurrence it lists is after
-- the last run and not after the time of the plan; there are no more of them than the limit, which
-- is positive. The schedule is as parsed, and a zone's offset is steady within a day.
pub schedule_occurrences-EndsWithin :
    (calendar : Calendar) (schedule : Schedule) (last at : ℕ) (anchor : Option ℕ) (limit : ℕ)
    → IsParsed schedule
    → 0 < limit
    → EndsWithin last at limit (schedule_occurrences calendar schedule (some last) at anchor limit)
unfolding schedule_occurrences
schedule_occurrences-EndsWithin calendar (once run_at) last at anchor limit parsed room =
    once-EndsWithin run_at last at limit room
schedule_occurrences-EndsWithin calendar (interval seconds) last at anchor limit parsed room =
    interval-EndsWithin seconds last at limit anchor parsed
schedule_occurrences-EndsWithin calendar (cron fields tz) last at anchor limit parsed room =
    let cur = truncate_minute (last + minute_ns) in
    let start = truncate_minute-eq (last + minute_ns) in
    let stop = truncate_minute-eq at in
    rw (iter_occurrences-eq calendar fields tz last at limit parsed.1 parsed.0) (
      take limit (every_minute calendar fields tz (minutes_left cur (truncate_minute at)) cur),
      _,
      refl,
      Within-take last at limit _ (
          every_minute-range calendar fields tz (minutes_left cur (truncate_minute at)) cur last at
            (omega arith) (omega arith)),
    )
