-- ===== src/Cron/Schedule.antt =====
-- src/cron/schedule.rs: `Schedule`, `first_match`, `iter_occurrences`, `interval_next_after`,
-- `schedule_occurrences` and `next_after`. A loop runs on fuel, and the outer `none` says that the
-- fuel ran out. `seconds` is positive: `parse_schedule` refuses an interval below a minute.
use danso.Prelude.{
  ℕ, zero, suc, ◌+◌, ◌-◌, ◌*◌, ◌/◌, ltb, leb, not, Bool, true, false, Option, none, some, List, [],
  ◌∷◌, if◌then◌else◌, String,
}
use danso.Prelude.Int.{ℤ, pos, negsuc, sub_ℕ}
use danso.Cron.Time.{second_ns, minute_ns, truncate_minute}
use danso.Cron.Fields.{Calendar, CronFields}
use danso.Cron.Zone.{Zone, first_match_zone}

pub data Schedule : Type 0 where
  cron : CronFields → Zone → Schedule
  interval : ℕ → Schedule
  once : ℕ → Schedule

abbrev pub kind : Schedule → String
kind (cron fields tz) = "cron"
kind (interval seconds) = "interval"
kind (once run_at) = "once"

abbrev pub Occurrences : Type 0
Occurrences = List ℕ × Bool

-- the whole minutes from `cur` to `end`
abbrev pub minutes_left : ℕ → ℕ → ℕ
minutes_left cur end = (end + minute_ns - cur) / minute_ns

-- `out.push(hit)`, before what the rest of the loop pushes
abbrev pub push : ℕ → Option Occurrences → Option Occurrences
push hit none = none
push hit (some (out, truncated)) = some (hit ∷ out, truncated)

-- `last.is_none_or(|last| last < run_at)`
abbrev pub never_ran_since : Option ℕ → ℕ → Bool
never_ran_since none run_at = true
never_ran_since (some last) run_at = ltb last run_at

-- `(floor - anchor).num_seconds()`, which rounds towards zero
abbrev pub num_seconds : ℕ → ℕ → ℤ
num_seconds floor anchor = sub_ℕ ((floor - anchor) / second_ns) ((anchor - floor) / second_ns)

abbrev pub steps_after : ℕ → ℤ → ℕ
steps_after seconds (pos delta) = delta / seconds + 1
steps_after seconds (negsuc delta) = 0

unfoldable pub catch_up : ℕ → ℕ → ℕ → ℕ → Option ℕ
catch_up zero seconds candidate floor = none
catch_up (suc fuel) seconds candidate floor =
    let later = catch_up fuel seconds (candidate + seconds * second_ns) floor in
    if leb candidate floor then later else some candidate

-- The loop has one round.
unfoldable pub interval_next_after : ℕ → ℕ → Option ℕ → Option ℕ
interval_next_after seconds floor none = some (floor + seconds * second_ns)
interval_next_after seconds floor (some anchor) =
    catch_up 1 seconds
      (anchor + steps_after seconds (num_seconds floor anchor) * seconds * second_ns) floor

abbrev pub later_of : ℕ → ℕ → ℕ
later_of anchor last = if ltb anchor last then last else anchor

-- The interval's floor: the anchor or the last run, whichever is later.
abbrev pub interval_floor : Option ℕ → Option ℕ → Option ℕ
interval_floor (some anchor) (some last) = some (later_of anchor last)
interval_floor (some anchor) none = some anchor
interval_floor none (some last) = some last
interval_floor none none = none

-- The interval's loop, with the number of occurrences pushed so far.
unfoldable pub step_through : ℕ → ℕ → ℕ → ℕ → ℕ → ℕ → Option Occurrences
step_through zero seconds cap found cur at = none
step_through (suc fuel) seconds cap found cur at =
    let rest = step_through fuel seconds cap (found + 1) (cur + seconds * second_ns) at in
    if not (leb cur at)
    then some ([], false)
    else if leb cap found
    then some ([], true)
    else push cur rest

abbrev step_from : ℕ → ℕ → ℕ → Option ℕ → Option Occurrences
step_from seconds cap at none = none
step_from seconds cap at (some cur) = step_through ((at - cur) / second_ns + 2) seconds cap 0 cur at

abbrev pub interval_occurrences : ℕ → ℕ → ℕ → Option ℕ → Option ℕ → Option Occurrences
interval_occurrences seconds cap at anchor none = some (at ∷ [], false)
interval_occurrences seconds cap at anchor (some floor) =
    step_from seconds cap at (interval_next_after seconds floor anchor)

module _ (calendar : Calendar) where
  abbrev pub scan : Schedule → ℕ → ℕ → Option (Option ℕ)
  scan (cron fields tz) cur end =
      first_match_zone calendar fields tz (minutes_left cur end + 1) cur end
  scan (interval seconds) cur end = some none
  scan (once run_at) cur end = some none

  unfoldable pub first_match : Schedule → ℕ → ℕ → Option (Option ℕ)
  first_match schedule cur end = if ltb end cur then some none else scan schedule cur end

  -- The loop of `iter_occurrences`, with the number of occurrences pushed so far.
  abbrev pub collect_hit : ℕ → ℕ → Option (Option ℕ) → (ℕ → Option Occurrences) → Option Occurrences
  collect_hit cap found none rest = none
  collect_hit cap found (some none) rest = some ([], false)
  collect_hit cap found (some (some hit)) rest =
      let later = rest (hit + minute_ns) in
      if leb cap found then some ([], true) else push hit later

  unfoldable pub collect : ℕ → Schedule → ℕ → ℕ → ℕ → ℕ → Option Occurrences
  collect zero schedule cap found cur end = none
  collect (suc fuel) schedule cap found cur end =
      collect_hit cap found (first_match schedule cur end)
        (λ next. collect fuel schedule cap (found + 1) next end)

  unfoldable pub iter_occurrences : Schedule → ℕ → ℕ → ℕ → Option Occurrences
  iter_occurrences schedule start_exclusive end_inclusive cap =
      let cur = truncate_minute (start_exclusive + minute_ns) in
      let end = truncate_minute end_inclusive in
      collect (minutes_left cur end + 1) schedule cap 0 cur end

  abbrev pub horizon : Option ℕ → ℕ → ℕ
  horizon none at = at - 366 * 1440 * minute_ns
  horizon (some last) at = last

  unfoldable pub schedule_occurrences : Schedule → Option ℕ → ℕ → Option ℕ → ℕ → Option Occurrences
  schedule_occurrences (once run_at) last at anchor cap =
      if leb run_at at
      then if never_ran_since last run_at then some (run_at ∷ [], false) else some ([], false)
      else some ([], false)
  schedule_occurrences (interval seconds) last at anchor cap =
      interval_occurrences seconds cap at anchor (interval_floor anchor last)
  schedule_occurrences (cron fields tz) last at anchor cap =
      iter_occurrences (cron fields tz) (horizon last at) at cap

  unfoldable pub next_after : Schedule → ℕ → Option ℕ → Option (Option ℕ)
  next_after (once run_at) at anchor = if ltb at run_at then some (some run_at) else some none
  next_after (interval seconds) at anchor = elim (interval_next_after seconds at anchor) [
    | none ↦ none
    | some t ↦ some (some t)
  ]
  next_after (cron fields tz) at anchor =
      let cur = truncate_minute (at + minute_ns) in
      first_match (cron fields tz) cur (cur + (366 * 24 * 60 - 1) * minute_ns)
