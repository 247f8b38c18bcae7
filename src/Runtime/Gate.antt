-- ===== src/Runtime/Gate.antt =====
-- src/runtime.rs: the gate of a long task around a provider request, and the boundaries where the loop
-- settles, fails or pauses. An operation changes the ledger in memory and the session store.
use danso.Prelude.{
  ℕ, String, ◌/◌, ◌-◌, Bool, true, false, ◌==◌, ◌||◌, Option, none, some, leb, min, max,
  checked_sub, saturating_add, saturating_mul, if◌then◌else◌,
}
use danso.Prelude.Result.{Result, ok, err, message, context, ◌>>=◌ as ◌>>?◌}
use danso.Json.{Value}
use danso.Usage.{UsageSnapshot}
use danso.LongTask.Ledger.{Limits, State, ready, paused, Ledger, TokenDelta, PendingResponse}
use danso.LongTask.Ops.{
  SessionStore, Plan, commit, plan_begin, plan_interrupt, plan_settle, plan_fail_request,
  plan_pause,
}

pub data GateMode : Type 0 where
  action summary : GateMode

-- The provider's response to one request, as the gate sees it: the usage and the clock after it, and
-- whether a failure is in the category of a provider's timeout.
pub record Answer : Type 0 where
  pub response : Result Value
  pub after : UsageSnapshot
  pub elapsed_ms : ℕ
  pub is_timeout : Bool

unfoldable pub token_delta : UsageSnapshot → UsageSnapshot → Result TokenDelta
token_delta before after =
    context (checked_sub after.input before.input) "provider usage moved backwards" >>? λ input.
    context (checked_sub after.output before.output) "provider usage moved backwards" >>? λ output.
    context (checked_sub after.cache_read before.cache_read) "provider usage moved backwards"
    >>? λ cache_read.
        context (checked_sub after.cache_write before.cache_write) "provider usage moved backwards"
        >>? λ cache_write. ok (record {
          input = input;
          output = output;
          cache_read = cache_read;
          cache_write = cache_write;
        })

-- `task_elapsed_ms`; the second argument is the time since the start, within a u64
abbrev pub task_elapsed_ms : ℕ → ℕ → ℕ
task_elapsed_ms base_elapsed_ms passed = saturating_add base_elapsed_ms passed

abbrev pub budget_reserve : ℕ → ℕ
budget_reserve total = max (total / 10) 3

abbrev pub budget_final_phase : Bool → Ledger → ℕ → ℕ → Bool
budget_final_phase true l remaining total = elim l.limits [
  | none ↦ false
  | some limits ↦
      leb (limits.stage_requests - l.stage_requests)
        (budget_reserve (min limits.stage_requests 4294967295))
]
budget_final_phase false l remaining total = leb remaining (budget_reserve total)

abbrev pub exhausted : Ledger → Bool
exhausted l = elim l.limits [
  | none ↦ false
  | some limits ↦ leb limits.max_requests l.requests || leb limits.max_tokens l.reported_tokens
]

abbrev pub over_tokens : Ledger → Bool
over_tokens l = elim l.limits [
  | none ↦ false
  | some limits ↦ leb limits.max_tokens l.reported_tokens
]

abbrev pub Operation : Type 0 → Type 0 → Type 0
Operation S A = Ledger → S → (Result A × Ledger) × S

module _ {S : Type 0} where
  abbrev pub next :
      {A B : Type 0} → (Result A × Ledger) × S → (A → Operation S B) → (Result B × Ledger) × S
  next ((err e, l), s) rest = ((err e, l), s)
  next ((ok a, l), s) rest = rest a l s

  infixl 5 ◌>>=◌
  abbrev pub ◌>>=◌ : {A B : Type 0} → Operation S A → (A → Operation S B) → Operation S B
  (first >>= rest) l s = next (first l s) rest

  infixl 5 ◌>>◌
  abbrev pub ◌>>◌ : {B : Type 0} → Operation S (Unit {0}) → Operation S B → Operation S B
  (first >> rest) l s = next (first l s) (λ _. rest)

  abbrev pub give : {A : Type 0} → Result A → Operation S A
  give result l s = ((result, l), s)

  abbrev pub hold_response : Option PendingResponse → Operation S (Unit {0})
  hold_response pending l s = ((ok tt, record l { pending_response = pending }), s)

module _ {S : Type 0} (store : SessionStore S) where
  abbrev pub run_plan : {A : Type 0} → (Ledger → Result (Plan A)) → Operation S A
  run_plan plan l s = commit store (plan l) l s

  -- a summary that reaches the token limit pauses the task
  abbrev pub bounded_summary : Value → Operation S Value
  bounded_summary response l s =
      if over_tokens l
      then (run_plan (λ m. plan_pause m "request_budget")
            >> give (err (message "long-task token budget exceeded")))
          l s
      else ((ok response, l), s)

  abbrev pub reserve_response : Value → Answer → TokenDelta → Operation S Value
  reserve_response response answer delta l s =
      (give (context l.pending_sequence "long-task action reservation disappeared") >>= λ sequence.
      hold_response
        (some (record { sequence = sequence; elapsed_ms = answer.elapsed_ms; tokens = delta }))
      >> give (ok response))
        l s

  abbrev pub failure_category : Bool → String
  failure_category true = "provider_timeout"
  failure_category false = "provider"

  -- what follows the provider's response
  unfoldable pub take_answer : GateMode → Answer → TokenDelta → Result Value → Operation S Value
  take_answer summary answer delta (ok response) =
      run_plan (λ l. plan_settle l "summary" answer.elapsed_ms delta) >> bounded_summary response
  take_answer action answer delta (ok response) = reserve_response response answer delta
  take_answer mode answer delta (err e) =
      run_plan
        (λ l. plan_fail_request l (failure_category answer.is_timeout) answer.elapsed_ms delta)
      >> give (err e)

  abbrev pub request : GateMode → ℕ → UsageSnapshot → Answer → Operation S Value
  request mode began before answer = do
    sequence ← run_plan (λ l. plan_begin l began)
    delta ← give (token_delta before answer.after)
    take_answer mode answer delta answer.response

  -- `LongTaskProvider::complete_with`; `began` is the clock when the request begins
  unfoldable pub complete_with : GateMode → ℕ → UsageSnapshot → Answer → Operation S Value
  complete_with mode began before answer l s =
      if exhausted l
      then ((err (message "long-task budget exhausted"), l), s)
      else request mode began before answer l s

  abbrev pub pending : Operation S PendingResponse
  pending l s = ((context l.pending_response "long-task action reservation disappeared", l), s)

  unfoldable pub fail_pending_action : String → Operation S (Unit {0})
  fail_pending_action category = do
    held ← pending
    run_plan (λ l. plan_fail_request l category held.elapsed_ms held.tokens)
    hold_response none

  unfoldable pub settle_pending_action : String → Operation S (Unit {0})
  settle_pending_action response_kind = do
    held ← pending
    run_plan (λ l. plan_settle l response_kind held.elapsed_ms held.tokens)
    hold_response none

  abbrev pub pause_at : State → Operation S Bool
  pause_at ready = run_plan (λ l. plan_pause l "operator") >> give (ok true)
  pause_at paused = give (ok true)
  pause_at _ = give (ok false)

  unfoldable pub pause_if_requested : Bool → Operation S Bool
  pause_if_requested false l s = ((ok false, l), s)
  pause_if_requested true l s = pause_at l.state l s

  abbrev reason_name : ℕ → String
  reason_name reason =
      if reason == 1
      then "user_stop"
      else if reason == 2
      then "signal_termination"
      else if reason == 3
      then "run_deadline"
      else "unknown"

  abbrev interrupted_at : ℕ → Limits → ℕ → ℕ
  interrupted_at reason limits elapsed =
      let cap = saturating_mul limits.wall_seconds 1000 in
      if reason == 3 then cap else min elapsed cap

  abbrev kind_name : GateMode → String
  kind_name action = "action"
  kind_name summary = "summary"

  -- a dropped `ProviderWait` that is armed; the result of the append is not looked at
  unfoldable pub drop_wait : GateMode → ℕ → ℕ → Operation S (Unit {0})
  drop_wait mode reason elapsed l s = elim l.limits [
    | none ↦ ((ok tt, l), s)
    | some limits ↦
        let done =
          run_plan
            (λ m.
              plan_interrupt m (interrupted_at reason limits elapsed) (reason_name reason)
                (kind_name mode))
            l s in
        ((ok tt, (done.0).1), done.1)
  ]
