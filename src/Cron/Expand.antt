-- ===== src/Cron/Expand.antt =====
-- src/cron/schedule.rs: `expand_field`, and the five fields that `parse_schedule` builds from it. A
-- field is the list of its bytes. `values` are the members of the set, in the order they are added.
use danso.Prelude.{
  ℕ, zero, suc, ◌+◌, ◌-◌, ◌*◌, leb, ◌==◌, ◌&&◌, ◌||◌, Bool, true, false, Option, none, some, List,
  [], ◌∷◌, ◌++◌, max, all, if◌then◌else◌, is_some,
}
use danso.Prelude.Int.{ℤ, pos, pos_part, sub_ℕ, ltb_ℤ, leb_ℤ}
use danso.Cron.Fields.{CronFields}

abbrev pub Bytes : Type 0
Bytes = List ℕ

-- The messages of the source.
pub data FieldError : Type 0 where
  -- "step must be positive"
  step_not_positive : FieldError
  -- "value {body} outside {min_v}-{max_v}"
  outside : Bytes → FieldError
  -- "range {body} is inverted"
  inverted : Bytes → FieldError
  -- "unsupported cron field: {part}"
  unsupported : FieldError

pub data Parsed (A : Type 0) : Type 0 where
  parsed : A → Parsed A
  refused : FieldError → Parsed A

infixl 5 ◌>>=◌
abbrev pub ◌>>=◌ : {A B : Type 0} → Parsed A → (A → Parsed B) → Parsed B
parsed a >>= f = f a
refused error >>= f = refused error

abbrev comma : ℕ
comma = 44

abbrev slash : ℕ
slash = 47

abbrev hyphen : ℕ
hyphen = 45

abbrev pub star : Bytes
star = 42 ∷ []

abbrev pub bytes_eq : Bytes → Bytes → Bool
bytes_eq [] [] = true
bytes_eq (x ∷ xs) (y ∷ ys) = (x == y) && bytes_eq xs ys
bytes_eq _ _ = false

abbrev to_first : ℕ → List Bytes → List Bytes
to_first x [] = (x ∷ []) ∷ []
to_first x (part ∷ parts) = (x ∷ part) ∷ parts

-- `raw.split(c)`
unfoldable pub split : ℕ → Bytes → List Bytes
split c [] = [] ∷ []
split c (x ∷ xs) = let rest = split c xs in if x == c then [] ∷ rest else to_first x rest

abbrev before_first : ℕ → Option (Bytes × Bytes) → Option (Bytes × Bytes)
before_first x none = none
before_first x (some (left, right)) = some (x ∷ left, right)

-- `part.split_once(c)`
unfoldable pub split_once : ℕ → Bytes → Option (Bytes × Bytes)
split_once c [] = none
split_once c (x ∷ xs) =
    let rest = split_once c xs in if x == c then some ([], xs) else before_first x rest

abbrev digits : ℕ → Bytes → Option ℕ
digits value [] = some value
digits value (x ∷ xs) =
    let rest = digits (value * 10 + (x - 48)) xs in if leb 48 x && leb x 57 then rest else none

abbrev i32_positive : Option ℕ → Option ℤ
i32_positive none = none
i32_positive (some n) = if leb n 2147483647 then some (pos n) else none

abbrev i32_negative : Option ℕ → Option ℤ
i32_negative none = none
i32_negative (some n) = if leb n 2147483648 then some (sub_ℕ 0 n) else none

abbrev unsigned : Bytes → Option ℕ
unsigned [] = none
unsigned (x ∷ xs) = digits 0 (x ∷ xs)

-- `str::parse::<i32>`
unfoldable pub parse_i32 : Bytes → Option ℤ
parse_i32 [] = none
parse_i32 (x ∷ xs) =
    if x == 43
    then i32_positive (unsigned xs)
    else if x == hyphen
    then i32_negative (unsigned xs)
    else i32_positive (unsigned (x ∷ xs))

abbrev or_refused : FieldError → Option ℤ → Parsed ℤ
or_refused error none = refused error
or_refused error (some n) = parsed n

abbrev pub positive_step : ℤ → Parsed ℕ
positive_step step =
    if leb_ℤ step (pos 0) then refused step_not_positive else parsed (pos_part step)

unfoldable pub parse_step : Option Bytes → Parsed ℕ
parse_step none = parsed 1
parse_step (some step_raw) =
    or_refused step_not_positive (parse_i32 step_raw) >>= λ step. positive_step step

abbrev pub ordered : Bytes → ℤ → ℤ → Parsed (ℤ × ℤ)
ordered body low high = if ltb_ℤ high low then refused (inverted body) else parsed (low, high)

abbrev pub parse_range : Bytes → Option (Bytes × Bytes) → Bool → ℕ → Parsed (ℤ × ℤ)
parse_range body (some (low_raw, high_raw)) stepped max_v =
    or_refused (outside body) (parse_i32 low_raw) >>= λ low.
    or_refused (outside body) (parse_i32 high_raw) >>= λ high. ordered body low high
parse_range body none stepped max_v = or_refused (outside body) (parse_i32 body) >>= λ low.
    parsed (low, if stepped then pos max_v else low)

unfoldable pub parse_body : Bytes → Bool → ℕ → ℕ → Parsed (ℤ × ℤ)
parse_body body stepped min_v max_v =
    if bytes_eq body star
    then parsed (pos min_v, pos max_v)
    else parse_range body (split_once hyphen body) stepped max_v

-- `(low..=high).step_by(step)`, with a round for each number of the range
unfoldable pub step_by : ℕ → ℕ → ℕ → ℕ → List ℕ
step_by zero step low high = []
step_by (suc rounds) step low high =
    let rest = step_by rounds step (low + step) high in if leb low high then low ∷ rest else []

abbrev pub stepped_range : ℕ → ℕ → ℕ → List ℕ
stepped_range step low high = step_by (high + 1 - low) (max step 1) low high

abbrev pub in_bounds : Bytes → ℕ → ℕ → ℕ → ℤ × ℤ → Parsed (List ℕ)
in_bounds body step min_v max_v (low, high) =
    if ltb_ℤ low (pos min_v) || ltb_ℤ (pos max_v) high
    then refused (outside body)
    else parsed (stepped_range step (pos_part low) (pos_part high))

abbrev pub with_step : Bytes → Option (Bytes × Bytes) → Bytes × Option Bytes
with_step part none = (part, none)
with_step part (some (body, step)) = (body, some step)

-- One comma-separated part: the body, and the step if there is one.
unfoldable pub expand_body : Bytes × Option Bytes → ℕ → ℕ → Parsed (List ℕ)
expand_body (body, step_raw) min_v max_v = parse_step step_raw >>= λ step.
    parse_body body (is_some step_raw) min_v max_v >>= λ range.
    in_bounds body step min_v max_v range

unfoldable pub expand_parts : List Bytes → ℕ → ℕ → Parsed (List ℕ)
expand_parts [] min_v max_v = parsed []
expand_parts (part ∷ parts) min_v max_v =
    expand_body (with_step part (split_once slash part)) min_v max_v >>= λ vals.
    expand_parts parts min_v max_v >>= λ rest. parsed (vals ++ rest)

unfoldable pub expand_field : Bytes → ℕ → ℕ → Parsed (List ℕ)
expand_field raw min_v max_v = expand_parts (split comma raw) min_v max_v

-- The fields of a cron expression of five parts, each of which has matched the field pattern;
-- `is_match` is the regex crate's answer.
unfoldable pub cron_fields :
    (Bytes → Bool) → Bytes → Bytes → Bytes → Bytes → Bytes → Parsed CronFields
cron_fields is_match minute hour dom month dow =
    if all is_match (minute ∷ hour ∷ dom ∷ month ∷ dow ∷ [])
    then (expand_field minute 0 59 >>= λ minutes. expand_field hour 0 23 >>= λ hours.
        expand_field dom 1 31 >>= λ doms. expand_field month 1 12 >>= λ months.
        expand_field dow 0 7 >>= λ dows. parsed (record {
          minute = minutes;
          hour = hours;
          dom = doms;
          month = months;
          dow = dows;
          dom_any = bytes_eq dom star;
          dow_any = bytes_eq dow star;
        }))
    else refused unsupported
