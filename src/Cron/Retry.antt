-- ===== src/Cron/Retry.antt =====
-- src/cron/retry.rs: the effective retry policy, the backoff and the retry view.
use danso.Prelude.{
  ℕ, ◌-◌, ◌*◌, ◌^◌, ltb, leb, min, Bool, false, not, ◌&&◌, ◌||◌, Option, none, some, String,
  if◌then◌else◌, i64_max, is_some,
}
use danso.Prelude.Result.{Result, ok, err}
use danso.Prelude.Int.{ℤ, pos, negsuc, ◌+ℤ◌, ltb_ℤ}

-- src/cron/store.rs: what a task declares, and what its last failure left.
pub record RetryPolicySpec : Type 0 where
  pub max_attempts : Option ℤ
  pub backoff_sec : Option ℤ
  pub multiplier : Option ℤ
  pub max_backoff_sec : Option ℤ

pub record RetryState : Type 0 where
  pub scheduled_at : String
  pub attempt : ℤ
  pub retry_eligible_at : Option String
  pub last_status : String
  pub last_run_id : Option String

-- The four numbers are never negative.
pub record RetryPolicy : Type 0 where
  pub max_attempts : ℕ
  pub backoff_sec : ℕ
  pub multiplier : ℕ
  pub max_backoff_sec : ℕ

unfoldable pub clamp : Option ℤ → ℕ → ℕ → ℕ → ℕ
clamp none default low high = default
clamp (some (negsuc n)) default low high = default
clamp (some (pos n)) default low high = if leb low n && leb n high then n else default

abbrev pub no_spec : RetryPolicySpec
no_spec = record {
  max_attempts = none;
  backoff_sec = none;
  multiplier = none;
  max_backoff_sec = none;
}

abbrev spec_of : Option RetryPolicySpec → RetryPolicySpec
spec_of none = no_spec
spec_of (some spec) = spec

unfoldable pub from_spec : Option RetryPolicySpec → RetryPolicy
from_spec spec = record {
  max_attempts = clamp (spec_of spec).max_attempts 1 1 10;
  backoff_sec = clamp (spec_of spec).backoff_sec 60 0 86400;
  multiplier = clamp (spec_of spec).multiplier 2 1 10;
  max_backoff_sec = clamp (spec_of spec).max_backoff_sec 3600 0 86400;
}

-- `saturating_mul` and `saturating_pow` of i64, on numbers that are not negative
abbrev pub i64_mul : ℕ → ℕ → ℕ
i64_mul a b = min (a * b) i64_max

abbrev pub i64_pow : ℕ → ℕ → ℕ
i64_pow a n = min (a ^ n) i64_max

-- `attempt.max(1) - 1`
abbrev pub attempt_index : ℤ → ℕ
attempt_index (pos n) = n - 1
attempt_index (negsuc n) = 0

unfoldable pub retry_delay : RetryPolicy → ℤ → ℕ
retry_delay policy attempt =
    min (i64_mul policy.backoff_sec (i64_pow policy.multiplier (min (attempt_index attempt) 32)))
      policy.max_backoff_sec

pub record RetryView : Type 0 where
  pub retry_eligible_at : Option String
  pub retry_attempt : ℤ
  pub ready : Bool
  pub waiting : Bool
  pub exhausted : Bool
  pub error : Option String
  pub scheduled_at : Option String

-- `fmt_dt` and `parse_utc` of src/cron/time.rs, on any calendar: nothing is assumed of them.
pub record Stamps : Type 0 where
  pub fmt_dt : ℕ → String
  pub parse_utc : String → Result (Option ℕ)

abbrev pub invalid_view : ℤ → RetryView
invalid_view attempt = record {
  retry_eligible_at = none;
  retry_attempt = attempt;
  ready = false;
  waiting = false;
  exhausted = false;
  error = some "invalid retryEligibleAt";
  scheduled_at = none;
}

abbrev by_then : Option ℕ → ℕ → Bool
by_then none at = false
by_then (some eligible) at = leb eligible at

abbrev after_then : Option ℕ → ℕ → Bool
after_then none at = false
after_then (some eligible) at = ltb at eligible

abbrev pub view_of : RetryState → RetryPolicy → ℕ → Option ℕ → RetryView
view_of state policy at eligible =
    let left = ltb_ℤ state.attempt (pos policy.max_attempts) in
    let ready = by_then eligible at && left in
    record {
      retry_eligible_at = state.retry_eligible_at;
      retry_attempt = if ready then state.attempt +ℤ pos 1 else state.attempt;
      ready = ready;
      waiting = after_then eligible at && left;
      exhausted = not left || not (is_some eligible);
      error = none;
      scheduled_at = some state.scheduled_at;
    }

abbrev pub view_at : RetryState → RetryPolicy → ℕ → Result (Option ℕ) → RetryView
view_at state policy at (err failure) = invalid_view state.attempt
view_at state policy at (ok eligible) = view_of state policy at eligible

module _ (stamps : Stamps) where
  abbrev pub eligible_at : Option String → Result (Option ℕ)
  eligible_at none = ok none
  eligible_at (some raw) = stamps.parse_utc raw

  unfoldable pub retry_view : Option RetryState → RetryPolicy → ℕ → Option RetryView
  retry_view none policy at = none
  retry_view (some state) policy at =
      if ltb_ℤ state.attempt (pos 1)
      then none
      else some (view_at state policy at (eligible_at state.retry_eligible_at))
