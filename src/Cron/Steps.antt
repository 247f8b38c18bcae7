-- ===== src/Cron/Steps.antt =====
-- src/cron/schedule.rs: which values a part of a cron field stands for.
use danso.Prelude.{
  ℕ, zero, suc, ◌+◌, ◌-◌, ◌*◌, ◌≤◌, ◌<◌, ◌≡◌, refl, leb, ◌==◌, ◌||◌, Bool, true, false, Option,
  List, [], max, arith, Bool-cases, inl, inr, is_some,
}
use danso.Prelude.Int.{pos, ltb_ℤ}
use danso.Cron.Fields.{contains}
use danso.Cron.Expand.{Bytes, parsed, step_by, stepped_range, expand_body, parse_step, parse_body}

abbrev pub OnStep : ℕ → ℕ → ℕ → ℕ → Type 0
OnStep step low high v = (k : ℕ) × (v ≡ low + k * step) × (v ≤ high)

step_by-OnStep :
    (rounds step low high v : ℕ)
    → contains (step_by rounds step low high) v ≡ true
    → OnStep step low high v
unfolding step_by contains
step_by-OnStep zero step low high v h = cc
step_by-OnStep (suc rounds) step low high v h = elim (Bool-cases (leb low high)) [
  | inr done ↦ let none_left : contains [] v ≡ true = rw done at h in cc
  | inl more ↦ elim (Bool-cases (low == v)) [
    | inl here ↦ (0, ground arith, ground arith)
    | inr later ↦
        let (k, value, fits) =
          step_by-OnStep rounds step (low + step) high v (rw (more, later) at h) in
        (suc k, omega arith, fits)
  ]
]

or_true : (b : Bool) → b || true ≡ true
or_true true = refl
or_true false = refl

contains-step_by :
    (rounds step low high k : ℕ)
    → 1 ≤ step
    → low + k * step ≤ high
    → high < low + rounds
    → contains (step_by rounds step low high) (low + k * step) ≡ true
unfolding step_by contains
contains-step_by zero step low high k grows fits enough = absurd (omega arith)
contains-step_by (suc rounds) step low high zero grows fits enough =
    let more : leb low high ≡ true = ground arith in
    let here : (low == low + 0 * step) ≡ true = ground arith in rw (more, here) refl
contains-step_by (suc rounds) step low high (suc k) grows fits enough =
    let more : leb low high ≡ true = ground arith in
    let value : low + suc k * step ≡ low + step + k * step = omega arith in
    let later =
      contains-step_by rounds step (low + step) high k grows (omega arith) (omega arith) in
    rw (more, value, later) (or_true (low == low + step + k * step))

-- The values that a part expands to: those on its steps, and all of those.
pub record Expands (step low high : ℕ) (vals : List ℕ) : Type 0 where
  pub sound : (v : ℕ) → contains vals v ≡ true → OnStep step low high v
  pub complete : (k : ℕ) → low + k * step ≤ high → contains vals (low + k * step) ≡ true

-- A part whose step and range are read, with the range within the field's bounds, expands to exactly
-- the values from its low end, a step apart, up to its high end.
pub expand_body-Expands :
    (body : Bytes) (step_raw : Option Bytes) (step bottom top low high : ℕ)
    → parse_step step_raw ≡ parsed step
    → parse_body body (is_some step_raw) bottom top ≡ parsed (pos low, pos high)
    → bottom ≤ low
    → high ≤ top
    → (vals : List ℕ) × (expand_body (body, step_raw) bottom top ≡ parsed vals)
      × Expands (max step 1) low high vals
unfolding expand_body
expand_body-Expands body step_raw step bottom top low high step_is range_is a b =
    let inside : ltb_ℤ (pos low) (pos bottom) || ltb_ℤ (pos top) (pos high) ≡ false =
      ground arith in
    (
      stepped_range step low high,
      rw (step_is, range_is, inside) refl,
      record {
        sound = λ v. step_by-OnStep (high + 1 - low) (max step 1) low high v;
        complete = λ k fits.
            contains-step_by (high + 1 - low) (max step 1) low high k (omega arith) fits
              (omega arith);
      },
    )
