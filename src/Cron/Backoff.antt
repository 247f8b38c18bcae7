-- ===== src/Cron/Backoff.antt =====
-- src/cron/retry.rs: the backoff between retries, its formula and its bounds.
use danso.Prelude.{
  ℕ, zero, suc, ◌-◌, ◌*◌, ◌^◌, ◌≤◌, ◌<◌, ◌≡◌, refl, sym, leb, min, Option, none, some, arith,
  Bool-cases, inl, inr, ◌∙◌, i64_max,
}
use native.Mathlib.Nat.{pow-le-pow_left, pow-le-pow_right, pow-zero, pow-suc}
use danso.Prelude.Int.{ℤ, pos, negsuc}
use danso.Cron.Retry.{RetryPolicy, RetryPolicySpec, from_spec, clamp, retry_delay}

-- The documented ranges of a policy's numbers.
pub record InRange (policy : RetryPolicy) : Type 0 where
  pub some_attempts : 1 ≤ policy.max_attempts
  pub few_attempts : policy.max_attempts ≤ 10
  pub backoff_fits : policy.backoff_sec ≤ 86400
  pub some_multiplier : 1 ≤ policy.multiplier
  pub small_multiplier : policy.multiplier ≤ 10
  pub max_backoff_fits : policy.max_backoff_sec ≤ 86400

clamp_range :
    (value : Option ℤ) (default low high : ℕ)
    → low ≤ default
    → default ≤ high
    → (low ≤ clamp value default low high) × (clamp value default low high ≤ high)
unfolding clamp
clamp_range none default low high a b = (a, b)
clamp_range (some (negsuc n)) default low high a b = (a, b)
clamp_range (some (pos n)) default low high a b = ground arith

-- `RetryPolicy::from_spec` gives a policy in the documented ranges, whatever was declared.
pub from_spec-InRange : (spec : Option RetryPolicySpec) → InRange (from_spec spec)
unfolding from_spec
from_spec-InRange spec = record {
  some_attempts = (clamp_range _ 1 1 10 (omega arith) (omega arith)).0;
  few_attempts = (clamp_range _ 1 1 10 (omega arith) (omega arith)).1;
  backoff_fits = (clamp_range _ 60 0 86400 (omega arith) (omega arith)).1;
  some_multiplier = (clamp_range _ 2 1 10 (omega arith) (omega arith)).0;
  small_multiplier = (clamp_range _ 2 1 10 (omega arith) (omega arith)).1;
  max_backoff_fits = (clamp_range _ 3600 0 86400 (omega arith) (omega arith)).1;
}

-- Saturation makes no difference under a cap of a day.
saturation_is_capped :
    (b p limit : ℕ)
    → limit ≤ 86400
    → min (min (b * min p i64_max) i64_max) limit ≡ min (b * p) limit
saturation_is_capped zero p limit small = omega arith
saturation_is_capped (suc b) p limit small = elim (Bool-cases (leb p i64_max)) [
  | inl fits ↦ let same : min p i64_max ≡ p = ground arith in rw same (omega arith)
  | inr over ↦
      let full : min p i64_max ≡ i64_max = ground arith in
      let big : i64_max < p = ground arith in rw full (omega arith)
]

one_power : (i : ℕ) → 1 ^ i ≡ 1
one_power zero = pow-zero 1
one_power (suc i) = rw (pow-suc 1 i, one_power i) refl

-- A multiplier of two or more reaches the cap by the 32nd power.
long_power : (b m i limit : ℕ) → limit ≤ 86400 → 2 ≤ m → 32 ≤ i → min (suc b * m ^ i) limit ≡ limit
long_power b m i limit small grows long =
    let base : 2 ^ 32 ≤ m ^ 32 = pow-le-pow_left grows 32 in
    let exponent : m ^ 32 ≤ m ^ i = pow-le-pow_right (omega arith) long in
    let big : 86400 ≤ m ^ i = omega arith in omega arith

past_cap :
    (b m i limit : ℕ)
    → limit ≤ 86400
    → 1 ≤ m
    → 32 ≤ i
    → min (b * m ^ 32) limit ≡ min (b * m ^ i) limit
past_cap zero m i limit small positive long = omega arith
past_cap (suc b) m i limit small positive long = elim (Bool-cases (leb m 1)) [
  | inl one ↦ let same : m ≡ 1 = ground arith in rw (same, one_power 32, one_power i) refl
  | inr more ↦
      let grows : 2 ≤ m = ground arith in
      long_power b m 32 limit small grows (omega arith)
      ∙ sym (long_power b m i limit small grows long)
]

-- The bound on the exponent makes no difference either.
exponent_is_capped :
    (b m i limit : ℕ) → limit ≤ 86400 → 1 ≤ m → min (b * m ^ min i 32) limit ≡ min (b * m ^ i) limit
exponent_is_capped b m i limit small positive = elim (Bool-cases (leb i 32)) [
  | inl fits ↦ let same : min i 32 ≡ i = ground arith in rw same refl
  | inr over ↦
      let full : min i 32 ≡ 32 = ground arith in
      let long : 32 ≤ i = ground arith in rw full (past_cap b m i limit small positive long)
]

-- For a policy in range, the delay before the attempt after the n-th is the documented
-- `min(backoffSec * multiplier^(n-1), maxBackoffSec)`, although the code saturates at i64 and bounds
-- the exponent by 32.
pub retry_delay-eq :
    (policy : RetryPolicy) (n : ℕ)
    → InRange policy
    → retry_delay policy (pos n)
      ≡ min (policy.backoff_sec * policy.multiplier ^ (n - 1)) policy.max_backoff_sec
unfolding retry_delay
retry_delay-eq policy n range =
    saturation_is_capped policy.backoff_sec (policy.multiplier ^ min (n - 1) 32)
      policy.max_backoff_sec range.max_backoff_fits
    ∙ exponent_is_capped policy.backoff_sec policy.multiplier (n - 1) policy.max_backoff_sec
        range.max_backoff_fits range.some_multiplier

pub retry_delay-le :
    (policy : RetryPolicy) (attempt : ℤ) → retry_delay policy attempt ≤ policy.max_backoff_sec
unfolding retry_delay
retry_delay-le policy attempt = omega arith
