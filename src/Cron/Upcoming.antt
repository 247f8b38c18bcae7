-- ===== src/Cron/Upcoming.antt =====
-- src/cron/schedule.rs: the next occurrence of an interval schedule.
use danso.Prelude.{
  ℕ, ◌+◌, ◌-◌, ◌*◌, ◌/◌, ◌%◌, ◌≤◌, ◌<◌, ◌≡◌, refl, leb, true, false, Option, none, some, arith,
  Bool-cases, inl, inr,
}
use native.Mathlib.Nat.{div-mul-le_self, lt-div-mul-add, mul-le-mul_right}
use danso.Prelude.Int.{pos}
use danso.Cron.Time.{second_ns}
use danso.Cron.Schedule.{interval_next_after, catch_up, steps_after, num_seconds}

-- A time is the interval's next one after the floor: on the anchor's phase, after the floor, and
-- none before it on that phase is after the floor.
abbrev pub IsNext : ℕ → ℕ → ℕ → ℕ → Type 0
IsNext seconds anchor floor t =
    (k : ℕ) × (t ≡ anchor + k * seconds * second_ns)
    × (floor < t)
    × ((j : ℕ) → j < k → anchor + j * seconds * second_ns ≤ floor)

abbrev elapsed : ℕ → ℕ → ℕ
elapsed floor anchor = (floor - anchor) / second_ns

num_seconds-eq :
    (floor anchor : ℕ) → anchor ≤ floor → num_seconds floor anchor ≡ pos (elapsed floor anchor)
num_seconds-eq floor anchor h =
    let behind : (anchor - floor) / second_ns ≡ 0 = omega arith in
    let enough : leb 0 (elapsed floor anchor) ≡ true = ground arith in
    let all_of_it : elapsed floor anchor - 0 ≡ elapsed floor anchor = omega arith in
    rw (behind, enough, all_of_it) refl

-- The candidate is always past the floor.
steps_pass :
    (seconds floor anchor : ℕ)
    → 0 < seconds
    → floor < anchor + steps_after seconds (num_seconds floor anchor) * seconds * second_ns
steps_pass seconds floor anchor positive = elim (Bool-cases (leb anchor floor)) [
  | inl started ↦
      let n : ℕ = elapsed floor anchor in
      let past : n < n / seconds * seconds + seconds = lt-div-mul-add positive in
      let step : (n / seconds + 1) * seconds ≡ n / seconds * seconds + seconds = omega arith in
      let before : anchor ≤ floor = ground arith in
      rw (num_seconds-eq floor anchor before, step) (omega arith)
  | inr ahead ↦ let after : floor < anchor = ground arith in omega arith
]

no_steps :
    (seconds floor anchor : ℕ)
    → (anchor - floor) % second_ns ≡ 0
    → floor < anchor
    → steps_after seconds (num_seconds floor anchor) ≡ 0
no_steps seconds floor anchor whole h =
    let behind : leb ((anchor - floor) / second_ns) ((floor - anchor) / second_ns) ≡ false =
      ground arith in
    rw behind refl

-- On whole seconds apart, no earlier step is past the floor.
steps_least :
    (seconds floor anchor j : ℕ)
    → (anchor - floor) % second_ns ≡ 0
    → j < steps_after seconds (num_seconds floor anchor)
    → anchor + j * seconds * second_ns ≤ floor
steps_least seconds floor anchor j whole h = elim (Bool-cases (leb anchor floor)) [
  | inl started ↦
      let before : anchor ≤ floor = ground arith in
      let n : ℕ = elapsed floor anchor in
      let few : j < n / seconds + 1 = rw (num_seconds-eq floor anchor before) at h in
      let product : j * seconds ≤ n / seconds * seconds = mul-le-mul_right seconds (omega arith) in
      omega (arith, div-mul-le_self n seconds)
  | inr ahead ↦ absurd (omega (arith, rw (no_steps seconds floor anchor whole (ground arith)) at h))
]

-- Where the interval's seconds are positive, its next occurrence is computed in one round, and is
-- past the floor.
pub interval_next_after-past :
    (seconds floor : ℕ) (anchor : Option ℕ)
    → 0 < seconds
    → (t : ℕ) × (interval_next_after seconds floor anchor ≡ some t) × (floor < t)
unfolding interval_next_after catch_up
interval_next_after-past seconds floor none positive =
    (floor + seconds * second_ns, refl, omega arith)
interval_next_after-past seconds floor (some anchor) positive =
    let past = steps_pass seconds floor anchor positive in
    let reached : leb
          (anchor + steps_after seconds (num_seconds floor anchor) * seconds * second_ns) floor
        ≡ false =
      ground arith in
    (
      anchor + steps_after seconds (num_seconds floor anchor) * seconds * second_ns,
      rw reached refl,
      past,
    )

-- Where the interval's seconds are positive and the anchor is not ahead of the floor by a fraction of
-- a second, `interval_next_after` returns the first time on the anchor's phase that is past the
-- floor.
pub interval_next_after-IsNext :
    (seconds floor anchor : ℕ)
    → 0 < seconds
    → (anchor - floor) % second_ns ≡ 0
    → (t : ℕ) × (interval_next_after seconds floor (some anchor) ≡ some t)
      × IsNext seconds anchor floor t
unfolding interval_next_after catch_up
interval_next_after-IsNext seconds floor anchor positive whole =
    let k : ℕ = steps_after seconds (num_seconds floor anchor) in
    let past : floor < anchor + k * seconds * second_ns =
      steps_pass seconds floor anchor positive in
    let reached : leb (anchor + k * seconds * second_ns) floor ≡ false = ground arith in
    (
      anchor + k * seconds * second_ns,
      rw reached refl,
      (k, refl, past, λ j. steps_least seconds floor anchor j whole),
    )
