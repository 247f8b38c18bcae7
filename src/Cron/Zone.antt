-- ===== src/Cron/Zone.antt =====
-- src/cron/schedule.rs: the scan in a time zone, `first_match_zone`. chrono-tz's database is a
-- parameter: how far the wall clock is ahead of an instant (the offset, plus the distance of the
-- two origins), and what instants show a wall-clock time.
use danso.Prelude.{
  ℕ, zero, suc, ◌+◌, ◌-◌, ◌*◌, ◌≤◌, ◌≡◌, ◌==◌, leb, ltb, not, ◌||◌, Bool, Option, none, some,
  if◌then◌else◌,
}
use danso.Cron.Time.{minute_ns, truncate_minute}
use danso.Cron.Fields.{Calendar, CronFields, matches, next_candidate_local}

pub data LocalResult : Type 0 where
  nonexistent : LocalResult
  single : ℕ → LocalResult
  ambiguous : ℕ → ℕ → LocalResult

pub record Zone : Type 0 where
  pub east : ℕ → ℕ
  pub from_local : ℕ → LocalResult

abbrev pub to_local : Zone → ℕ → ℕ
to_local tz t = t + tz.east t

-- Two instants of a day with one offset have no change of offset between them.
abbrev pub IsSteady : Zone → Type 0
IsSteady tz =
    (t u v : ℕ)
    → t ≤ u
    → u ≤ v
    → v ≤ t + 1440 * minute_ns
    → tz.east t ≡ tz.east v
    → tz.east u ≡ tz.east t

module _ (calendar : Calendar) (fields : CronFields) (tz : Zone) where
  abbrev pub trusted : ℕ → ℕ → ℕ → Bool
  trusted cur target cand = not (
      leb cand cur
      || not (cand - cur == target - to_local tz cur)
      || not (to_local tz cand == target)
      || not (tz.east cand == tz.east cur))

  unfoldable pub land : ℕ → ℕ → ℕ → ℕ
  land cur target cand = if trusted cur target cand then cand else cur + minute_ns

  abbrev pub resolve : ℕ → ℕ → LocalResult → ℕ
  resolve cur target nonexistent = cur + minute_ns
  resolve cur target (single t) = land cur target (truncate_minute t)
  resolve cur target (ambiguous earliest latest) = land cur target (truncate_minute earliest)

  -- One round of the loop, past the two tests that return.
  unfoldable pub advance : ℕ → ℕ
  advance cur =
      let target = next_candidate_local calendar fields (to_local tz cur) in
      resolve cur target (tz.from_local target)

  -- The loop. The outer `none` says that the fuel ran out.
  unfoldable pub first_match_zone : ℕ → ℕ → ℕ → Option (Option ℕ)
  first_match_zone zero cur end = none
  first_match_zone (suc fuel) cur end =
      let later = first_match_zone fuel (advance cur) end in
      if ltb end cur
      then some none
      else if matches calendar fields (to_local tz cur)
      then some (some cur)
      else later
