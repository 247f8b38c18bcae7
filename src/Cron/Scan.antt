-- ===== src/Cron/Scan.antt =====
-- src/cron/schedule.rs: the rounds of `first_match_zone`, and the right answer of a scan.
use danso.Prelude.{
  ℕ, zero, suc, ◌+◌, ◌-◌, ◌*◌, ◌/◌, ◌≤◌, ◌<◌, ◌≡◌, ltb, true, false, Option, none, some, arith,
  Bool-cases, inl, inr, sym,
}
use danso.Cron.Time.{minute_ns, IsMinute, truncate_minute, truncate_minute-IsMinute}
use danso.Cron.Fields.{Calendar, CronFields, matches, next_candidate_local, IsClock}
use danso.Cron.Skip.{next_candidate-skips, next_candidate_range}
use danso.Cron.Zone.{
  LocalResult, nonexistent, single, ambiguous, Zone, to_local, IsSteady, trusted, land, resolve,
  advance, first_match_zone,
}

module _ (calendar : Calendar) (fields : CronFields) (tz : Zone) where
  abbrev pub Fires : ℕ → Type 0
  Fires t = matches calendar fields (to_local tz t) ≡ true

  -- No whole minute from `cur` up to `t` fires.
  abbrev pub Quiet : ℕ → ℕ → Type 0
  Quiet cur t =
      (u : ℕ) → IsMinute u → cur ≤ u → u < t → matches calendar fields (to_local tz u) ≡ false

  -- What the round owes: a later whole minute, with none before it that fires.
  pub record Advances (cur next : ℕ) : Type 0 where
    pub whole : IsMinute next
    pub later : cur + minute_ns ≤ next
    pub quiet : Quiet cur next

  quiet_minute :
      (cur : ℕ)
      → IsMinute cur
      → matches calendar fields (to_local tz cur) ≡ false
      → Advances cur (cur + minute_ns)
  quiet_minute cur w no_match = record {
    whole = omega arith;
    later = omega arith;
    quiet = λ u wu a b. let same : cur ≡ u = omega arith in rw (← same) no_match;
  }

  quiet_jump :
      (cur cand : ℕ)
      → IsSteady tz
      → IsClock fields
      → IsMinute cur
      → IsMinute cand
      → matches calendar fields (to_local tz cur) ≡ false
      → cur < cand
      → to_local tz cand ≡ next_candidate_local calendar fields (to_local tz cur)
      → tz.east cand ≡ tz.east cur
      → Advances cur cand
  quiet_jump cur cand steady clock w wc no_match after lands same = record {
    whole = wc;
    later = omega arith;
    quiet = λ u wu a b.
        let range = next_candidate_range calendar fields (to_local tz cur) clock in
        let still : tz.east u ≡ tz.east cur =
          steady cur u cand a (omega arith) (omega (arith, range.1)) (sym same) in
        let e : ℕ = (u - cur) / minute_ns in
        let there : to_local tz cur + e * minute_ns ≡ to_local tz u = omega arith in
        rw there at
          (next_candidate-skips calendar fields (to_local tz cur) clock no_match e (omega arith));
  }

  land-Advances :
      (cur t : ℕ)
      → IsSteady tz
      → IsClock fields
      → IsMinute cur
      → matches calendar fields (to_local tz cur) ≡ false
      → Advances cur (
          land calendar fields tz cur
            (next_candidate_local calendar fields (to_local tz cur))
            (truncate_minute t))
  unfolding land
  land-Advances cur t steady clock w no_match =
      let target = next_candidate_local calendar fields (to_local tz cur) in
      let cand = truncate_minute t in
      elim (Bool-cases (trusted calendar fields tz cur target cand)) [
        | inl e ↦ rw e (
            quiet_jump cur cand steady clock w (truncate_minute-IsMinute t) no_match (ground arith)
              (ground arith) (ground arith))
        | inr e ↦ rw e (quiet_minute cur w no_match)
      ]

  resolve-Advances :
      (cur : ℕ) (r : LocalResult)
      → IsSteady tz
      → IsClock fields
      → IsMinute cur
      → matches calendar fields (to_local tz cur) ≡ false
      → Advances cur (
          resolve calendar fields tz cur (next_candidate_local calendar fields (to_local tz cur)) r)
  resolve-Advances cur nonexistent steady clock w no_match = quiet_minute cur w no_match
  resolve-Advances cur (single t) steady clock w no_match =
      land-Advances cur t steady clock w no_match
  resolve-Advances cur (ambiguous t _) steady clock w no_match =
      land-Advances cur t steady clock w no_match

  advance-Advances :
      (cur : ℕ)
      → IsSteady tz
      → IsClock fields
      → IsMinute cur
      → matches calendar fields (to_local tz cur) ≡ false
      → Advances cur (advance calendar fields tz cur)
  unfolding advance
  advance-Advances cur = resolve-Advances cur _

  -- The right answer of a scan from `cur` to `end`.
  abbrev pub IsFirst : ℕ → ℕ → Option (Option ℕ) → Type 0
  IsFirst cur end none = ⊥
  IsFirst cur end (some none) = Quiet cur (end + 1)
  IsFirst cur end (some (some t)) = IsMinute t × (cur ≤ t) × (t ≤ end) × Fires t × Quiet cur t

  Quiet-trans : (a b c : ℕ) → Quiet a b → Quiet b c → Quiet a c
  Quiet-trans a b c q r u w lo hi = elim (Bool-cases (ltb u b)) [
    | inl e ↦ q u w lo (ground arith)
    | inr e ↦ r u w (ground arith) hi
  ]

  IsFirst-later :
      (cur next end : ℕ) (r : Option (Option ℕ))
      → Advances cur next
      → IsFirst next end r
      → IsFirst cur end r
  IsFirst-later cur next end none a h = h
  IsFirst-later cur next end (some none) a h = Quiet-trans cur next (end + 1) a.quiet h
  IsFirst-later cur next end (some (some t)) a h =
      (h.0, omega (arith, a.later, h.1), h.2, h.3, Quiet-trans cur next t a.quiet h.4)

  -- With a round for each minute up to the end, the scan from a whole minute ends, and returns the
  -- first whole minute in the range that fires, or that there is none. The minutes and hours of the
  -- fields are on the clock, and the zone's offset is steady within a day.
  pub first_match_zone-IsFirst :
      (rounds cur end : ℕ)
      → IsSteady tz
      → IsClock fields
      → IsMinute cur
      → end < cur + rounds * minute_ns
      → IsFirst cur end (first_match_zone calendar fields tz (suc rounds) cur end)
  unfolding first_match_zone
  first_match_zone-IsFirst zero cur end steady clock w enough =
      let past : ltb end cur ≡ true = ground arith in rw past (λ u wu a b. absurd (ground arith))
  first_match_zone-IsFirst (suc r) cur end steady clock w enough = elim (Bool-cases (ltb end cur)) [
    | inl past ↦ rw past (λ u wu a b. absurd (ground arith))
    | inr within ↦ elim (Bool-cases (matches calendar fields (to_local tz cur))) [
      | inl fires ↦
          rw (within, fires) (w, omega arith, ground arith, fires, λ u wu a b. absurd (omega arith))
      | inr quiet ↦
          rw (within, quiet)
            (let next = advance-Advances cur steady clock w quiet in
              IsFirst-later cur (advance calendar fields tz cur) end _ next (
                first_match_zone-IsFirst r (advance calendar fields tz cur) end steady clock
                  next.whole (omega (arith, next.later))))
    ]
  ]
