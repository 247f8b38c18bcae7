-- ===== src/Cron/Skip.antt =====
-- src/cron/schedule.rs: the minutes that a jump of `next_candidate_local` passes over, and its length.
use danso.Prelude.{
  ℕ, ◌+◌, ◌*◌, ◌≤◌, ◌<◌, ◌≡◌, true, false, Option, none, some, arith, Bool-cases, inl, inr, ◌∙◌,
  ◌⊎◌,
}
use danso.Cron.Time.{minute_ns, day_index, minute, hour, with_minute, with_hour}
use danso.Cron.Fields.{
  Calendar, CronFields, contains, min_above, day_matches, matches, next_candidate_local, IsClock,
  LeastAbove, min_above-LeastAbove, All-contains, later_hour, later_minute, next_local_midnight,
}

module _ (calendar : Calendar) (fields : CronFields) where
  -- Nothing matches from `n` up to the target, at whole minutes from `n`.
  abbrev pub SkipsTo : ℕ → ℕ → Type 0
  SkipsTo n target =
      (e : ℕ) → n + e * minute_ns < target → matches calendar fields (n + e * minute_ns) ≡ false

  midnight_same_day :
      (n e : ℕ)
      → n + e * minute_ns < next_local_midnight calendar fields n
      → day_index (n + e * minute_ns) ≡ day_index n
  unfolding next_local_midnight
  midnight_same_day n e h = omega arith

  -- One field that fails is enough.
  fails_month :
      (n : ℕ)
      → contains fields.month (calendar.month (day_index n)) ≡ false
      → matches calendar fields n ≡ false
  unfolding matches
  fails_month n h = ground arith

  fails_day : (n : ℕ) → day_matches calendar fields n ≡ false → matches calendar fields n ≡ false
  unfolding matches
  fails_day n h = ground arith

  fails_hour : (n : ℕ) → contains fields.hour (hour n) ≡ false → matches calendar fields n ≡ false
  unfolding matches
  fails_hour n h = ground arith

  fails_minute :
      (n : ℕ) → contains fields.minute (minute n) ≡ false → matches calendar fields n ≡ false
  unfolding matches
  fails_minute n h = ground arith

  day_matches-eq :
      (n m : ℕ)
      → day_index n ≡ day_index m
      → day_matches calendar fields n ≡ day_matches calendar fields m
  unfolding day_matches
  day_matches-eq n m h = rw h

  skip_month :
      (n : ℕ)
      → contains fields.month (calendar.month (day_index n)) ≡ false
      → SkipsTo n (next_local_midnight calendar fields n)
  skip_month n no_month e h =
      fails_month (n + e * minute_ns) (rw (midnight_same_day n e h) no_month)

  skip_day :
      (n : ℕ)
      → day_matches calendar fields n ≡ false
      → SkipsTo n (next_local_midnight calendar fields n)
  skip_day n no_day e h =
      fails_day (n + e * minute_ns)
        (day_matches-eq (n + e * minute_ns) n (midnight_same_day n e h) ∙ no_day)

  -- Between two hours of a day.
  hour_between :
      (n e h : ℕ)
      → hour n < h
      → h < 24
      → n + e * minute_ns < with_minute (with_hour n h) 0
      → (hour (n + e * minute_ns) ≡ hour n)
        ⊎ ((hour n < hour (n + e * minute_ns)) × (hour (n + e * minute_ns) < h))
  hour_between n e h a b c = omega arith

  hour_until_midnight :
      (n e : ℕ)
      → n + e * minute_ns < next_local_midnight calendar fields n
      → (hour (n + e * minute_ns) ≡ hour n) ⊎ (hour n < hour (n + e * minute_ns))
  unfolding next_local_midnight
  hour_until_midnight n e c = omega arith

  skip_hour :
      (n : ℕ) (next : Option ℕ)
      → IsClock fields
      → contains fields.hour (hour n) ≡ false
      → LeastAbove (hour n) fields.hour next
      → SkipsTo n (later_hour calendar fields n next)
  skip_hour n none clock no_hour least e h =
      fails_hour (n + e * minute_ns) (elim (hour_until_midnight n e h) [
        | inl same ↦ rw same no_hour
        | inr after ↦ least (hour (n + e * minute_ns)) after
      ])
  skip_hour n (some next) clock no_hour least e h =
      fails_hour (n + e * minute_ns)
        (elim (hour_between n e next least.0
          (All-contains 24 fields.hour next clock.hours_fit least.1) h) [
            | inl same ↦ rw same no_hour
            | inr (after, before) ↦ least.2 (hour (n + e * minute_ns)) after before
          ])

  minute_between :
      (n e m : ℕ)
      → minute n < m
      → m < 60
      → n + e * minute_ns < with_minute n m
      → (minute (n + e * minute_ns) ≡ minute n)
        ⊎ ((minute n < minute (n + e * minute_ns)) × (minute (n + e * minute_ns) < m))
  minute_between n e m a b c = omega arith

  minute_until_hour :
      (n e : ℕ)
      → n + e * minute_ns < with_minute n 0 + 60 * minute_ns
      → (minute (n + e * minute_ns) ≡ minute n) ⊎ (minute n < minute (n + e * minute_ns))
  minute_until_hour n e c = omega arith

  skip_minute :
      (n : ℕ) (next : Option ℕ)
      → IsClock fields
      → contains fields.minute (minute n) ≡ false
      → LeastAbove (minute n) fields.minute next
      → SkipsTo n (later_minute calendar fields n next)
  skip_minute n none clock no_minute least e h =
      fails_minute (n + e * minute_ns) (elim (minute_until_hour n e h) [
        | inl same ↦ rw same no_minute
        | inr after ↦ least (minute (n + e * minute_ns)) after
      ])
  skip_minute n (some next) clock no_minute least e h =
      fails_minute (n + e * minute_ns)
        (elim (minute_between n e next least.0
          (All-contains 60 fields.minute next clock.minutes_fit least.1) h) [
            | inl same ↦ rw same no_minute
            | inr (after, before) ↦ least.2 (minute (n + e * minute_ns)) after before
          ])

  minute_fails :
      (n : ℕ)
      → contains fields.month (calendar.month (day_index n)) ≡ true
      → day_matches calendar fields n ≡ true
      → contains fields.hour (hour n) ≡ true
      → matches calendar fields n ≡ false
      → contains fields.minute (minute n) ≡ false
  unfolding matches
  minute_fails n a b c h = ground arith

  -- From a time that does not match, no minute before the next candidate matches either.
  pub next_candidate-skips :
      (n : ℕ)
      → IsClock fields
      → matches calendar fields n ≡ false
      → SkipsTo n (next_candidate_local calendar fields n)
  unfolding next_candidate_local
  next_candidate-skips n clock no_match =
      elim (Bool-cases (contains fields.month (calendar.month (day_index n)))) [
        | inr no_month ↦ rw no_month (skip_month n no_month)
        | inl month ↦ elim (Bool-cases (day_matches calendar fields n)) [
          | inr no_day ↦ rw (month, no_day) (skip_day n no_day)
          | inl day ↦ elim (Bool-cases (contains fields.hour (hour n))) [
            | inr no_hour ↦
                rw (month, day, no_hour)
                  (skip_hour n (min_above (hour n) fields.hour) clock no_hour
                    (min_above-LeastAbove (hour n) fields.hour))
            | inl in_hour ↦
                rw (month, day, in_hour)
                  (skip_minute n (min_above (minute n) fields.minute) clock
                    (minute_fails n month day in_hour no_match)
                    (min_above-LeastAbove (minute n) fields.minute))
          ]
        ]
      ]

  midnight_range :
      (n : ℕ)
      → (n < next_local_midnight calendar fields n)
        × (next_local_midnight calendar fields n ≤ n + 1440 * minute_ns)
  unfolding next_local_midnight
  midnight_range n = omega arith

  later_hour_range :
      (n : ℕ) (next : Option ℕ)
      → IsClock fields
      → LeastAbove (hour n) fields.hour next
      → (n < later_hour calendar fields n next)
        × (later_hour calendar fields n next ≤ n + 1440 * minute_ns)
  later_hour_range n none clock least = midnight_range n
  later_hour_range n (some h) clock least =
      omega (arith, least.0, All-contains 24 fields.hour h clock.hours_fit least.1)

  later_minute_range :
      (n : ℕ) (next : Option ℕ)
      → IsClock fields
      → LeastAbove (minute n) fields.minute next
      → (n < later_minute calendar fields n next)
        × (later_minute calendar fields n next ≤ n + 1440 * minute_ns)
  later_minute_range n none clock least = omega arith
  later_minute_range n (some m) clock least =
      omega (arith, least.0, All-contains 60 fields.minute m clock.minutes_fit least.1)

  -- The next candidate is later, by a day at most.
  pub next_candidate_range :
      (n : ℕ)
      → IsClock fields
      → (n < next_candidate_local calendar fields n)
        × (next_candidate_local calendar fields n ≤ n + 1440 * minute_ns)
  unfolding next_candidate_local
  next_candidate_range n clock = ground (
    arith,
    midnight_range n,
    later_hour_range n (min_above (hour n) fields.hour) clock
        (min_above-LeastAbove (hour n) fields.hour),
    later_minute_range n (min_above (minute n) fields.minute) clock
        (min_above-LeastAbove (minute n) fields.minute),
  )
