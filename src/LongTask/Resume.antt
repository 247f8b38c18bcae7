-- ===== src/LongTask/Resume.antt =====
-- When a task may go on.
use danso.Prelude.{ℕ, ◌*◌, ◌≤◌, ◌≡◌, ◌⊎◌, ◌↔◌, ◌&&◌, leb, Bool, true, false, some, arith}
use danso.Prelude.Result.{recovery, budget_exhausted, Result, ok, err}
use danso.LongTask.Ledger.{
  Limits, Ledger, ensure_elapsed, resume_allowed, ensure_safe_resume, recovery_error,
  recovery_reason, label, is_resting,
}
use danso.LongTask.Invariant.{IsWellFormed}
use danso.LongTask.Ops.{plan_begin}

abbrev pub is_ok {ℓ} : {A : Type ℓ} → Result A → Bool
is_ok (ok a) = true
is_ok (err e) = false

-- `begin_request` passes its checks exactly when a resume is allowed and the clock has neither
-- moved backwards nor passed the wall limit.
pub begin_exactly :
    (l : Ledger) (elapsed : ℕ) (m : Limits)
    → IsWellFormed l
    → l.limits ≡ some m
    → is_ok (plan_begin l elapsed)
      ≡ (resume_allowed l && (leb elapsed (m.wall_seconds * 1000) && leb l.elapsed_ms elapsed))
unfolding plan_begin resume_allowed ensure_elapsed
begin_exactly l elapsed m w e = ground arith

-- A resume is refused as exhausted exactly when a task that rests has used up one of its budgets.
pub exhausted_exactly :
    (l : Ledger) (m : Limits)
    → IsWellFormed l
    → l.limits ≡ some m
    → is_resting l.state ≡ true
    → (ensure_safe_resume l ≡ err (recovery (label l.state) budget_exhausted false)) ↔ (
        (l.interrupted_requests ≡ 3)
        ⊎ (l.elapsed_ms ≡ m.wall_seconds * 1000)
        ⊎ (l.repeat_count ≡ m.repeat_limit)
        ⊎ (m.max_tokens ≤ l.reported_tokens)
        ⊎ (l.requests ≡ m.max_requests))
unfolding ensure_safe_resume recovery_error recovery_reason resume_allowed
exhausted_exactly l m w e r = (λ h. ground arith, λ h. ground arith)
