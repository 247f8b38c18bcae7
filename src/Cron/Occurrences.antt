-- ===== src/Cron/Occurrences.antt =====
-- src/cron/schedule.rs: `iter_occurrences` against the minutes of its window, one by one.
use danso.Prelude.{
  ℕ, zero, suc, ◌+◌, ◌-◌, ◌*◌, ◌/◌, ◌≤◌, ◌<◌, ◌≡◌, refl, ltb, leb, true, false, Option, none, some,
  List, [], ◌∷◌, length, take, if◌then◌else◌, arith, Bool-cases, inl, inr,
}
use danso.Cron.Time.{minute_ns, IsMinute, truncate_minute, truncate_minute-IsMinute}
use danso.Cron.Fields.{Calendar, CronFields, matches, IsClock}
use danso.Cron.Zone.{Zone, to_local, IsSteady}
use danso.Cron.Scan.{Quiet, IsFirst, first_match_zone-IsFirst}
use danso.Cron.Schedule.{
  cron, Occurrences, push, minutes_left, first_match, collect, collect_hit, iter_occurrences,
}

module _ (calendar : Calendar) (fields : CronFields) (tz : Zone) where
  -- The minutes that fire among the first `n` from `cur`.
  unfoldable pub every_minute : ℕ → ℕ → List ℕ
  every_minute zero cur = []
  every_minute (suc n) cur =
      let rest = every_minute n (cur + minute_ns) in
      if matches calendar fields (to_local tz cur) then cur ∷ rest else rest

  -- The first `room` of them, and whether there are more.
  abbrev pub capped : ℕ → List ℕ → Option Occurrences
  capped room hits = some (take room hits, ltb room (length hits))

  pub every_minute-append :
      (k n cur : ℕ)
      → IsMinute cur
      → Quiet calendar fields tz cur (cur + k * minute_ns)
      → every_minute (k + n) cur ≡ every_minute n (cur + k * minute_ns)
  unfolding every_minute
  every_minute-append zero n cur w q =
      let none_skipped : 0 + n ≡ n = omega arith in
      let here : cur + 0 * minute_ns ≡ cur = omega arith in rw (none_skipped, here) refl
  every_minute-append (suc k) n cur w q =
      let one_skipped : suc k + n ≡ suc (k + n) = omega arith in
      let there : cur + suc k * minute_ns ≡ cur + minute_ns + k * minute_ns = omega arith in
      let here = q cur w (omega arith) (omega arith) in
      rw (one_skipped, here, there)
        (every_minute-append k n (cur + minute_ns) (omega arith)
          (λ u wu a b. q u wu (omega arith) (omega arith)))

  push-capped :
      (hit room : ℕ) (hits : List ℕ) → push hit (capped room hits) ≡ capped (suc room) (hit ∷ hits)
  push-capped hit room hits =
      let one_more : ltb (suc room) (suc (length hits)) ≡ ltb room (length hits) = ground arith in
      rw one_more refl

  collect_hit-eq :
      (limit found : ℕ) (hit : ℕ) (hits : List ℕ) (rest : ℕ → Option Occurrences)
      → found ≤ limit
      → (found + 1 ≤ limit → rest (hit + minute_ns) ≡ capped (limit - (found + 1)) hits)
      → collect_hit calendar limit found (some (some hit)) rest
        ≡ capped (limit - found) (hit ∷ hits)
  collect_hit-eq limit found hit hits rest fits h = elim (Bool-cases (leb limit found)) [
    | inl full ↦
        let room : limit - found ≡ 0 = ground arith in
        let over : ltb 0 (suc (length hits)) ≡ true = ground arith in rw (full, room, over) refl
    | inr more ↦
        let room : limit - found ≡ suc (limit - (found + 1)) = ground arith in
        rw (more, h (ground arith), room) (push-capped hit (limit - (found + 1)) hits)
  ]

  pub first_match-IsFirst :
      (cur end : ℕ)
      → IsSteady tz
      → IsClock fields
      → IsMinute cur
      → IsFirst calendar fields tz cur end (first_match calendar (cron fields tz) cur end)
  unfolding first_match
  first_match-IsFirst cur end steady clock w = elim (Bool-cases (ltb end cur)) [
    | inl past ↦ rw past (λ u wu a b. absurd (ground arith))
    | inr within ↦
        let fuel : minutes_left cur end + 1 ≡ suc (minutes_left cur end) = omega arith in
        rw (within, fuel)
          (first_match_zone-IsFirst calendar fields tz (minutes_left cur end) cur end steady clock w
            (ground arith))
  ]

  no_hit :
      (cur end : ℕ)
      → IsMinute cur
      → IsMinute end
      → Quiet calendar fields tz cur (end + 1)
      → every_minute (minutes_left cur end) cur ≡ []
  unfolding every_minute
  no_hit cur end w we q =
      let n = minutes_left cur end in
      let all_of_them : n ≡ n + 0 = omega arith in
      rw all_of_them (every_minute-append n 0 cur w (λ u wu a b. q u wu a (omega arith)))

  first_hit :
      (cur end t : ℕ)
      → IsMinute cur
      → IsMinute end
      → IsFirst calendar fields tz cur end (some (some t))
      → every_minute (minutes_left cur end) cur
        ≡ t ∷ every_minute (minutes_left (t + minute_ns) end) (t + minute_ns)
  unfolding every_minute
  first_hit cur end t w we (wt, after, before, fires, quiet) =
      let k : ℕ = (t - cur) / minute_ns in
      let n = minutes_left (t + minute_ns) end in
      let there : cur + k * minute_ns ≡ t = omega arith in
      let count : minutes_left cur end ≡ k + suc n = omega arith in
      let arrived : every_minute (suc n) t ≡ t ∷ every_minute n (t + minute_ns) = rw fires refl in
      rw (count, every_minute-append k (suc n) cur w (rw there quiet), there) arrived

  nothing_left : (room : ℕ) → some ([], false) ≡ capped room []
  nothing_left zero = refl
  nothing_left (suc room) = let under : ltb (suc room) 0 ≡ false = ground arith in rw under refl

  round-eq :
      (limit found cur end : ℕ) (rest : ℕ → Option Occurrences) (r : Option (Option ℕ))
      → IsMinute cur
      → IsMinute end
      → found ≤ limit
      → ((t : ℕ)
          → IsMinute t
          → cur ≤ t
          → t ≤ end
          → found + 1 ≤ limit
          → rest (t + minute_ns)
            ≡ capped
                (limit - (found + 1))
                (every_minute (minutes_left (t + minute_ns) end) (t + minute_ns)))
      → IsFirst calendar fields tz cur end r
      → collect_hit calendar limit found r rest
        ≡ capped (limit - found) (every_minute (minutes_left cur end) cur)
  round-eq limit found cur end rest none w we fits h first = absurd first
  round-eq limit found cur end rest (some none) w we fits h quiet =
      rw (no_hit cur end w we quiet) (nothing_left (limit - found))
  round-eq limit found cur end rest (some (some t)) w we fits h first =
      rw (first_hit cur end t w we first) (
        collect_hit-eq limit found t
          (every_minute (minutes_left (t + minute_ns) end) (t + minute_ns)) rest fits
          (h t first.0 first.1 first.2))

  -- The loop, from a whole minute and with a round for each minute left.
  pub collect-eq :
      (fuel limit found cur end : ℕ)
      → IsSteady tz
      → IsClock fields
      → IsMinute cur
      → IsMinute end
      → found ≤ limit
      → minutes_left cur end < fuel
      → collect calendar fuel (cron fields tz) limit found cur end
        ≡ capped (limit - found) (every_minute (minutes_left cur end) cur)
  unfolding collect
  collect-eq zero limit found cur end steady clock w we fits enough = absurd (omega arith)
  collect-eq (suc fuel) limit found cur end steady clock w we fits enough =
      round-eq limit found cur end _ (first_match calendar (cron fields tz) cur end) w we fits
        (λ t wt after before more.
          collect-eq fuel limit (found + 1) (t + minute_ns) end steady clock (omega arith) we more
            (omega arith))
        (first_match-IsFirst cur end steady clock w)

  -- `iter_occurrences` of a cron schedule always ends, and lists the whole minutes after the start
  -- minute and up to the end that fire, in order, the first `limit` of them; its flag says whether
  -- there are more. The fields' minutes and hours are on the clock, and the zone's offset is steady
  -- within a day.
  pub iter_occurrences-eq :
      (start at limit : ℕ)
      → IsSteady tz
      → IsClock fields
      → iter_occurrences calendar (cron fields tz) start at limit ≡ (
          let cur = truncate_minute (start + minute_ns) in
          let hits = every_minute (minutes_left cur (truncate_minute at)) cur in
          some (take limit hits, ltb limit (length hits)))
  unfolding iter_occurrences
  iter_occurrences-eq start at limit steady clock =
      let cur = truncate_minute (start + minute_ns) in
      let all_room : limit - 0 ≡ limit = omega arith in
      rw all_room at (
        collect-eq (minutes_left cur (truncate_minute at) + 1) limit 0 cur (truncate_minute at)
          steady clock (truncate_minute-IsMinute (start + minute_ns)) (truncate_minute-IsMinute at)
          (omega arith) (omega arith))
