-- ===== src/LongTask/Cases.antt =====
-- src/long_task.rs: one case for each event of an accepted record.
use danso.Prelude.{String, ◌≡◌, inl, inr, Option, if◌then◌else◌, str_eq, eq_iff, Bool-cases}
use danso.Prelude.Result.{Failure, ok, err}
use danso.Json.{Value}
use danso.LongTask.Ledger.{Ledger}
use danso.LongTask.Apply.{
  apply_created, apply_request_started, apply_request_settled, apply_provider_interrupted,
  apply_request_failed, apply_stage_checkpoint, apply_tool_batch, apply_paused, apply_failed,
  apply_completed, apply_event,
}

if_cases {ℓ κ} :
    {A : Type ℓ} {P : Type κ} (event name : String) {x y r : A}
    → (event ≡ name → x ≡ r → P)
    → (y ≡ r → P)
    → (if str_eq event name then x else y) ≡ r
    → P
if_cases event name {x = x} {y = y} {r = r} f g = elim (Bool-cases (str_eq event name)) [
  | inl is ↦ λ h. f ((eq_iff event name).0 is) (rw is at h)
  | inr isnt ↦ λ h. g (rw isnt at h)
]

refused {ℓ κ} : {A : Type ℓ} {P : Type κ} {e : Failure} {a : A} → err e ≡ ok a → P
refused h = absurd (cc)

pub apply_event_cases {κ} :
    (event : String) (l : Ledger) (v : Value) (id : Option String) (l' : Ledger) {P : Type κ}
    → (event ≡ "created" → apply_created l v id ≡ ok l' → P)
    → (event ≡ "request_started" → apply_request_started l v ≡ ok l' → P)
    → (event ≡ "request_settled" → apply_request_settled l v ≡ ok l' → P)
    → (event ≡ "provider_interrupted" → apply_provider_interrupted l v ≡ ok l' → P)
    → (event ≡ "request_failed" → apply_request_failed l v ≡ ok l' → P)
    → (event ≡ "stage_checkpoint" → apply_stage_checkpoint l v ≡ ok l' → P)
    → (event ≡ "tool_batch" → apply_tool_batch l v ≡ ok l' → P)
    → (event ≡ "paused" → apply_paused l v ≡ ok l' → P)
    → (event ≡ "failed" → apply_failed l v ≡ ok l' → P)
    → (event ≡ "completed" → apply_completed l v ≡ ok l' → P)
    → apply_event event l v id ≡ ok l'
    → P
unfolding apply_event
apply_event_cases event l v id l' p₀ p₁ p₂ p₃ p₄ p₅ p₆ p₇ p₈ p₉ = if_cases event _ p₀ (
    if_cases event _ p₁ (
      if_cases event _ p₂ (
        if_cases event _ p₃ (
          if_cases event _ p₄ (
            if_cases event _ p₅ (
              if_cases event _ p₆
                (if_cases event _ p₇ (if_cases event _ p₈ (if_cases event _ p₉ refused)))))))))
