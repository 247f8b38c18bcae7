-- ===== src/Cron/Expansion.antt =====
-- src/cron/schedule.rs: the ranges of the values of a parsed cron field.
use danso.Prelude.{
  ℕ, zero, suc, ◌+◌, ◌≤◌, ◌<◌, ◌≡◌, refl, leb, Bool, false, Option, List, [], ◌∷◌, ◌++◌, All, all,
  arith, Bool-cases, inl, inr, is_some, ◌||◌,
}
use danso.Prelude.Int.{ℤ, pos, negsuc, pos_part, ltb_ℤ}
use danso.Cron.Fields.{CronFields, IsClock}
use danso.Cron.Expand.{
  Bytes, Parsed, parsed, refused, ◌>>=◌, step_by, stepped_range, in_bounds, expand_body,
  expand_parts, expand_field, cron_fields, parse_step, parse_body, with_step, split, split_once,
  star, bytes_eq,
}

>>=-eq-parsed :
    {A B : Type 0} (m : Parsed A) (f : A → Parsed B) {b : B}
    → m >>= f ≡ parsed b
    → (a : A) × (m ≡ parsed a) × (f a ≡ parsed b)
>>=-eq-parsed (refused error) f h = cc
>>=-eq-parsed (parsed a) f h = (a, refl, h)

abbrev pub Between : ℕ → ℕ → ℕ → Type 0
Between low high v = (low ≤ v) × (v ≤ high)

step_by-All :
    (rounds step low high bottom : ℕ)
    → bottom ≤ low
    → All (Between bottom high) (step_by rounds step low high)
unfolding step_by
step_by-All zero step low high bottom h = tt
step_by-All (suc rounds) step low high bottom h = elim (Bool-cases (leb low high)) [
  | inl more ↦
      rw more ((h, ground arith), step_by-All rounds step (low + step) high bottom (omega arith))
  | inr done ↦ rw done tt
]

All-Between :
    (low high bottom top : ℕ) (vals : List ℕ)
    → bottom ≤ low
    → high ≤ top
    → All (Between low high) vals
    → All (Between bottom top) vals
All-Between low high bottom top [] a b h = tt
All-Between low high bottom top (v ∷ vals) a b h =
    (omega (arith, h.0), All-Between low high bottom top vals a b h.1)

All-append : {A : Type 0} (P : A → Type 0) (xs ys : List A) → All P xs → All P ys → All P (xs ++ ys)
All-append P [] ys a b = b
All-append P (x ∷ xs) ys a b = (a.0, All-append P xs ys a.1 b)

bounds_fit :
    (bottom top : ℕ) (low high : ℤ)
    → ltb_ℤ low (pos bottom) || ltb_ℤ (pos top) high ≡ false
    → (bottom ≤ pos_part low) × (pos_part high ≤ top)
bounds_fit bottom top (pos low) (pos high) h = ground arith
bounds_fit bottom top (pos low) (negsuc high) h = ground arith
bounds_fit bottom top (negsuc low) high h = ground arith

in_bounds-All :
    (body : Bytes) (step bottom top : ℕ) (low high : ℤ) (vals : List ℕ)
    → in_bounds body step bottom top (low, high) ≡ parsed vals
    → All (Between bottom top) vals
in_bounds-All body step bottom top low high vals h =
    elim (Bool-cases (ltb_ℤ low (pos bottom) || ltb_ℤ (pos top) high)) [
      | inl beyond ↦ let none_parsed : refused _ ≡ parsed vals = rw beyond at h in cc
      | inr inside ↦
          let same : parsed (stepped_range step (pos_part low) (pos_part high)) ≡ parsed vals =
            rw inside at h in
          let list : stepped_range step (pos_part low) (pos_part high) ≡ vals = cc in
          let fits = bounds_fit bottom top low high inside in
          rw (← list) (
            All-Between (pos_part low) (pos_part high) bottom top _ fits.0 fits.1
              (step_by-All _ _ (pos_part low) (pos_part high) (pos_part low) (omega arith)))
    ]

expand_body-All :
    (part : Bytes × Option Bytes) (bottom top : ℕ) (vals : List ℕ)
    → expand_body part bottom top ≡ parsed vals
    → All (Between bottom top) vals
unfolding expand_body
expand_body-All (body, step_raw) bottom top vals h =
    let (step, _, after_step) = >>=-eq-parsed (parse_step step_raw) _ h in
    let ((low, high), _, after_body) =
      >>=-eq-parsed (parse_body body (is_some step_raw) bottom top) _ after_step in
    in_bounds-All body step bottom top low high vals after_body

expand_parts-All :
    (parts : List Bytes) (bottom top : ℕ) (vals : List ℕ)
    → expand_parts parts bottom top ≡ parsed vals
    → All (Between bottom top) vals
unfolding expand_parts
expand_parts-All [] bottom top vals h = let list : [] ≡ vals = cc in rw (← list) tt
expand_parts-All (part ∷ parts) bottom top vals h =
    let (first, here, after_first) =
      >>=-eq-parsed (expand_body (with_step part (split_once 47 part)) bottom top) _ h in
    let (rest, there, after_rest) = >>=-eq-parsed (expand_parts parts bottom top) _ after_first in
    let list : first ++ rest ≡ vals = cc in
    rw (← list) (
      All-append (Between bottom top) first rest
        (expand_body-All (with_step part (split_once 47 part)) bottom top first here)
        (expand_parts-All parts bottom top rest there))

-- A field that `expand_field` accepts has only values within the bounds.
pub expand_field-All :
    (raw : Bytes) (bottom top : ℕ) (vals : List ℕ)
    → expand_field raw bottom top ≡ parsed vals
    → All (Between bottom top) vals
unfolding expand_field
expand_field-All raw bottom top vals = expand_parts-All (split 44 raw) bottom top vals

below : (n : ℕ) (vals : List ℕ) → All (Between 0 n) vals → All (λ v. v < n + 1) vals
below n [] h = tt
below n (v ∷ vals) h = (omega (arith, h.0), below n vals h.1)

-- The values of a cron expression's fields are in the ranges of the calendar.
pub record IsExpression (fields : CronFields) : Type 0 where
  pub clock : IsClock fields
  pub doms_fit : All (Between 1 31) fields.dom
  pub months_fit : All (Between 1 12) fields.month
  pub dows_fit : All (Between 0 7) fields.dow

-- Every cron expression that is parsed has minutes below 60, hours below 24, days of the month from 1
-- to 31, months from 1 to 12 and days of the week from 0 to 7, whatever the field pattern admits.
pub cron_fields-IsExpression :
    (is_match : Bytes → Bool) (minute hour dom month dow : Bytes) (fields : CronFields)
    → cron_fields is_match minute hour dom month dow ≡ parsed fields
    → IsExpression fields
unfolding cron_fields
cron_fields-IsExpression is_match minute hour dom month dow fields h =
    elim (Bool-cases (all is_match (minute ∷ hour ∷ dom ∷ month ∷ dow ∷ []))) [
      | inr unmatched ↦ let none_parsed : refused _ ≡ parsed fields = rw unmatched at h in cc
      | inl matched ↦
          let (minutes, m, h₁) = >>=-eq-parsed (expand_field minute 0 59) _ (rw matched at h) in
          let (hours, n, h₂) = >>=-eq-parsed (expand_field hour 0 23) _ h₁ in
          let (doms, d, h₃) = >>=-eq-parsed (expand_field dom 1 31) _ h₂ in
          let (months, o, h₄) = >>=-eq-parsed (expand_field month 1 12) _ h₃ in
          let (dows, w, h₅) = >>=-eq-parsed (expand_field dow 0 7) _ h₄ in
          let built : record {
            minute = minutes;
            hour = hours;
            dom = doms;
            month = months;
            dow = dows;
            dom_any = bytes_eq dom star;
            dow_any = bytes_eq dow star;
          }
              ≡ fields =
            cc in
          rw (← built) (record {
            clock = record {
              minutes_fit = below 59 minutes (expand_field-All minute 0 59 minutes m);
              hours_fit = below 23 hours (expand_field-All hour 0 23 hours n);
            };
            doms_fit = expand_field-All dom 1 31 doms d;
            months_fit = expand_field-All month 1 12 months o;
            dows_fit = expand_field-All dow 0 7 dows w;
          })
    ]
