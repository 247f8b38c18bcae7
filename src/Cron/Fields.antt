-- ===== src/Cron/Fields.antt =====
-- src/cron/schedule.rs: `CronFields`, the day rule, the match and the jump to the next candidate.
use danso.Prelude.{
  ℕ, ◌+◌, ◌*◌, ◌<◌, ◌≡◌, refl, ◌==◌, ltb, if◌then◌else◌, Bool, true, false, not, ◌&&◌, ◌||◌, Option,
  none, some, List, [], ◌∷◌, All, arith, Bool-cases, inl, inr,
}
use danso.Cron.Time.{minute_ns, day_index, minute, hour, with_minute, with_hour}

-- chrono's calendar: the day of the month, the month and the weekday (0 is Sunday) of a day.
pub record Calendar : Type 0 where
  pub day : ℕ → ℕ
  pub month : ℕ → ℕ
  pub weekday : ℕ → ℕ

-- A set of values is the list of its members, in any order.
pub record CronFields : Type 0 where
  pub minute : List ℕ
  pub hour : List ℕ
  pub dom : List ℕ
  pub month : List ℕ
  pub dow : List ℕ
  pub dom_any : Bool
  pub dow_any : Bool

unfoldable pub contains : List ℕ → ℕ → Bool
contains [] v = false
contains (x ∷ xs) v = (x == v) || contains xs v

-- `iter().filter(|v| v > low).min()`
abbrev smaller : ℕ → Option ℕ → Option ℕ
smaller x none = some x
smaller x (some y) = if ltb x y then some x else some y

unfoldable pub min_above : ℕ → List ℕ → Option ℕ
min_above low [] = none
min_above low (x ∷ xs) = let rest = min_above low xs in if ltb low x then smaller x rest else rest

module _ (calendar : Calendar) (fields : CronFields) where
  unfoldable pub day_matches : ℕ → Bool
  day_matches local =
      let dow = calendar.weekday (day_index local) in
      let dom_match = contains fields.dom (calendar.day (day_index local)) in
      let dow_match = contains fields.dow dow || (dow == 0 && contains fields.dow 7) in
      if not fields.dom_any && not fields.dow_any
      then dom_match || dow_match
      else dom_match && dow_match

  unfoldable pub matches : ℕ → Bool
  matches local =
      contains fields.minute (minute local)
      && contains fields.hour (hour local)
      && day_matches local
      && contains fields.month (calendar.month (day_index local))

  unfoldable pub next_local_midnight : ℕ → ℕ
  next_local_midnight naive = (day_index naive + 1) * 1440 * minute_ns

  abbrev pub later_hour : ℕ → Option ℕ → ℕ
  later_hour naive none = next_local_midnight naive
  later_hour naive (some h) = with_minute (with_hour naive h) 0

  abbrev pub later_minute : ℕ → Option ℕ → ℕ
  later_minute naive none = with_minute naive 0 + 60 * minute_ns
  later_minute naive (some m) = with_minute naive m

  unfoldable pub next_candidate_local : ℕ → ℕ
  unfolding next_local_midnight
  next_candidate_local naive =
      if not (contains fields.month (calendar.month (day_index naive)))
      then next_local_midnight naive
      else if not (day_matches naive)
      then next_local_midnight naive
      else if not (contains fields.hour (hour naive))
      then later_hour naive (min_above (hour naive) fields.hour)
      else later_minute naive (min_above (minute naive) fields.minute)

-- The values of the clock fields are on the clock.
pub record IsClock (fields : CronFields) : Type 0 where
  pub minutes_fit : All (λ m. m < 60) fields.minute
  pub hours_fit : All (λ h. h < 24) fields.hour

-- What `min_above` finds: the least member above the bound.
abbrev pub LeastAbove : ℕ → List ℕ → Option ℕ → Type 0
LeastAbove low xs none = (v : ℕ) → low < v → contains xs v ≡ false
LeastAbove low xs (some m) =
    (low < m) × (contains xs m ≡ true) × ((v : ℕ) → low < v → v < m → contains xs v ≡ false)

LeastAbove-cons :
    (low x : ℕ) (xs : List ℕ) (r : Option ℕ)
    → LeastAbove low xs r
    → LeastAbove low (x ∷ xs) (if ltb low x then smaller x r else r)
unfolding contains
LeastAbove-cons low x xs none h = elim (Bool-cases (ltb low x)) [
  | inl e ↦ rw e (ground arith, ground arith, λ v a b. ground (arith, h v))
  | inr e ↦ rw e (λ v a. ground (arith, h v))
]
LeastAbove-cons low x xs (some m) h = elim (Bool-cases (ltb low x)) [
  | inl e ↦ elim (Bool-cases (ltb x m)) [
    | inl f ↦ rw (e, f) (ground arith, ground arith, λ v a b. ground (arith, h.2 v))
    | inr f ↦ rw (e, f) (h.0, ground (arith, h.1), λ v a b. ground (arith, h.2 v))
  ]
  | inr e ↦ rw e (h.0, ground (arith, h.1), λ v a b. ground (arith, h.2 v))
]

pub min_above-LeastAbove : (low : ℕ) (xs : List ℕ) → LeastAbove low xs (min_above low xs)
unfolding min_above contains
min_above-LeastAbove low [] = λ v h. refl
min_above-LeastAbove low (x ∷ xs) =
    LeastAbove-cons low x xs (min_above low xs) (min_above-LeastAbove low xs)

pub All-contains :
    (n : ℕ) (xs : List ℕ) (v : ℕ) → All (λ x. x < n) xs → contains xs v ≡ true → v < n
unfolding contains
All-contains n [] v a h = cc
All-contains n (x ∷ xs) v a h = ground (arith, All-contains n xs v a.1)
