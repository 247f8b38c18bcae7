-- ===== src/Cron/Examples.antt =====
-- The cron module on concrete inputs: tests, and the theorems applied.
use danso.Prelude.{
  ℕ, suc, ◌+◌, ◌-◌, ◌*◌, ◌%◌, ◌≡◌, refl, true, false, none, some, [], ◌∷◌, arith, length, take, ltb,
  Option, max, List,
}
use danso.Cron.Time.{minute_ns, truncate_minute}
use danso.Cron.Fields.{
  Calendar, CronFields, IsClock, matches, contains, day_matches, next_candidate_local, min_above,
  next_local_midnight,
}
use danso.Cron.Next.{Answers, IsLater, next_after-Answers}
use danso.Cron.Schedule.{
  next_after, cron, minutes_left, iter_occurrences, collect, first_match, interval_next_after,
  schedule_occurrences,
}
use danso.Cron.Expand.{
  Bytes, parsed, refused, outside, expand_field, expand_parts, expand_body, parse_step, parse_body,
  parse_i32, split, split_once, step_by, cron_fields,
}
use danso.Cron.Expansion.{IsExpression, cron_fields-IsExpression}
use danso.Cron.Steps.{Expands, expand_body-Expands}
use danso.Prelude.Int.{pos}
use danso.Cron.Zone.{Zone, single, IsSteady, first_match_zone, advance, land}
use danso.Cron.Scan.{IsFirst, first_match_zone-IsFirst}
use danso.Cron.Occurrences.{every_minute, iter_occurrences-eq}
use danso.Cron.Upcoming.{IsNext, interval_next_after-IsNext}
use danso.Cron.Window.{EndsWithin, schedule_occurrences-EndsWithin}

-- Every month is January and has 28 days; day 0 is a Sunday.
abbrev calendar : Calendar
calendar = record { day = λ n. n % 28 + 1; month = λ n. 1; weekday = λ n. n % 7 }

-- 9:00, 9:30, 10:00 and 10:30 of the first of the month and of Sundays.
abbrev fields : CronFields
fields = record {
  minute = 0 ∷ 30 ∷ [];
  hour = 9 ∷ 10 ∷ [];
  dom = 1 ∷ [];
  month = 1 ∷ [];
  dow = 0 ∷ [];
  dom_any = false;
  dow_any = false;
}

-- A zone nine hours ahead; the wall clock's origin is a day before the instants'.
abbrev ahead : ℕ
ahead = 33 * 60 * minute_ns

abbrev kst : Zone
kst = record { east = λ t. ahead; from_local = λ t. single (t - ahead) }

kst-IsSteady : IsSteady kst
kst-IsSteady t u v a b c h = refl

fields-IsClock : IsClock fields
fields-IsClock = record { minutes_fit = omega arith; hours_fit = omega arith }

abbrev minute_at : ℕ → ℕ
minute_at n = n * minute_ns

-- 33 hours after the wall clock's origin it is 9:00 of day 1, a Monday and the second of the month;
-- the next Sunday is day 7.
scan_test :
    first_match_zone calendar fields kst 1000 0 (minute_at 20000) ≡ some (some (minute_at 8640))
unfolding first_match_zone advance land matches contains day_matches next_candidate_local min_above
    next_local_midnight truncate_minute
scan_test = refl

iter_test :
    iter_occurrences calendar (cron fields kst) (minute_at 8640) (minute_at 8700) 1
    ≡ some (minute_at 8670 ∷ [], true)
unfolding iter_occurrences collect first_match first_match_zone advance land matches contains
    day_matches next_candidate_local min_above next_local_midnight truncate_minute
iter_test = refl

first_match_zone-IsFirst_example :
    IsFirst calendar fields kst 0
      (minute_at 9000)
      (first_match_zone calendar fields kst (suc 9001) 0 (minute_at 9000))
first_match_zone-IsFirst_example =
    first_match_zone-IsFirst calendar fields kst 9001 0 (minute_at 9000) kst-IsSteady fields-IsClock
      (omega arith) (omega arith)

iter_occurrences-eq_example :
    iter_occurrences calendar (cron fields kst) (minute_at 8640) (minute_at 8700) 1 ≡ (
      let cur = truncate_minute (minute_at 8640 + minute_ns) in
      let hits =
        every_minute calendar fields kst
          (minutes_left cur (truncate_minute (minute_at 8700)))
          cur in
      some (take 1 hits, ltb 1 (length hits)))
iter_occurrences-eq_example =
    iter_occurrences-eq calendar fields kst (minute_at 8640) (minute_at 8700) 1 kst-IsSteady
      fields-IsClock

interval_next_after-IsNext_example :
    (t : ℕ) × (interval_next_after 90 (minute_at 100) (some (minute_at 2)) ≡ some t)
    × IsNext 90 (minute_at 2) (minute_at 100) t
interval_next_after-IsNext_example =
    interval_next_after-IsNext 90 (minute_at 100) (minute_at 2) (omega arith) (omega arith)

schedule_occurrences-EndsWithin_example : EndsWithin (minute_at 8640) (minute_at 8700) 5 (
    schedule_occurrences calendar (cron fields kst) (some (minute_at 8640)) (minute_at 8700) none 5)
schedule_occurrences-EndsWithin_example =
    schedule_occurrences-EndsWithin calendar (cron fields kst) (minute_at 8640) (minute_at 8700)
      none 5 (fields-IsClock, kst-IsSteady) (omega arith)

-- `9-17/2,30` as bytes, and `70/5`
abbrev nine_to_five : Bytes
nine_to_five = 57 ∷ 45 ∷ 49 ∷ 55 ∷ []

abbrev by_two : Bytes
by_two = 50 ∷ []

expand_test :
    expand_field (57 ∷ 45 ∷ 49 ∷ 55 ∷ 47 ∷ 50 ∷ 44 ∷ 51 ∷ 48 ∷ []) 0 59
    ≡ parsed (9 ∷ 11 ∷ 13 ∷ 15 ∷ 17 ∷ 30 ∷ [])
unfolding expand_field expand_parts expand_body parse_step parse_body parse_i32 split split_once
    step_by
expand_test = refl

-- A start above the maximum, with a step, is accepted as an empty set.
empty_field_test : expand_field (55 ∷ 48 ∷ 47 ∷ 53 ∷ []) 0 59 ≡ parsed []
unfolding expand_field expand_parts expand_body parse_step parse_body parse_i32 split split_once
    step_by
empty_field_test = refl

refused_field_test : expand_field (55 ∷ 48 ∷ []) 0 59 ≡ refused (outside (55 ∷ 48 ∷ []))
unfolding expand_field expand_parts expand_body parse_step parse_body parse_i32 split split_once
    step_by
refused_field_test = refl

nine_to_five_parsed : parse_body nine_to_five true 0 59 ≡ parsed (pos 9, pos 17)
unfolding parse_body parse_i32 split_once
nine_to_five_parsed = refl

by_two_parsed : parse_step (some by_two) ≡ parsed 2
unfolding parse_step parse_i32
by_two_parsed = refl

expand_body-Expands_example :
    (vals : List ℕ) × (expand_body (nine_to_five, some by_two) 0 59 ≡ parsed vals)
    × Expands (max 2 1) 9 17 vals
expand_body-Expands_example =
    expand_body-Expands nine_to_five (some by_two) 2 0 59 9 17 by_two_parsed nine_to_five_parsed
      (omega arith) (omega arith)

-- `9-17 9-17 1 1 0`, every field admitted
abbrev office : CronFields
office = record {
  minute = 9 ∷ 10 ∷ 11 ∷ 12 ∷ 13 ∷ 14 ∷ 15 ∷ 16 ∷ 17 ∷ [];
  hour = 9 ∷ 10 ∷ 11 ∷ 12 ∷ 13 ∷ 14 ∷ 15 ∷ 16 ∷ 17 ∷ [];
  dom = 1 ∷ [];
  month = 1 ∷ [];
  dow = 0 ∷ [];
  dom_any = false;
  dow_any = false;
}

office_parsed :
    cron_fields (λ part. true) nine_to_five nine_to_five (49 ∷ []) (49 ∷ []) (48 ∷ [])
    ≡ parsed office
unfolding cron_fields expand_field expand_parts expand_body parse_step parse_body parse_i32 split
    split_once step_by
office_parsed = refl

cron_fields-IsExpression_example : IsExpression office
cron_fields-IsExpression_example =
    cron_fields-IsExpression (λ part. true) nine_to_five nine_to_five (49 ∷ []) (49 ∷ []) (48 ∷ [])
      office office_parsed

next_after-Answers_example :
    (r : Option ℕ) × (next_after calendar (cron fields kst) (minute_at 8640) none ≡ some r)
    × Answers calendar (cron fields kst) (minute_at 8640) r
    × IsLater (minute_at 8640) r
next_after-Answers_example =
    next_after-Answers calendar (cron fields kst) (minute_at 8640) none
      (fields-IsClock, kst-IsSteady)
