-- ===== src/LongTask/Ops.antt =====
-- src/long_task.rs: the operations of `Ledger` that write the journal. Each one checks, appends one
-- record and then updates the ledger, so each is a plan (the checks, the record to append, the next
-- ledger and the value returned) that `commit` carries out on a session store.
use danso.Prelude.{
  ℕ, String, ◌≡◌, leb, ltb, ◌&&◌, none, some, List, [], ◌∷◌, ◌++◌, opt_str_eq, is_some, checked_add,
  wrapping_add,
}
use danso.Prelude.Result.{Result, ok, err, ◌>>=◌, ◌>>◌, ensure, require, context}
use danso.Json.{Value, num, str, obj, end, field}
use danso.LongTask.Ledger.{
  ready, pending_provider, paused, completed, failed, TokenDelta, Ledger, total, resume_allowed,
  ensure_elapsed,
}
use danso.LongTask.Apply.{
  apply, is_ready, is_pending_tools, is_final_pending, is_fingerprint, is_response_kind,
  settled_state, is_failure_category, next_repeat, is_terminal_category, is_pause_reason,
}

-- `SessionStore` of src/contracts.rs, as far as the ledger uses it. A successful append adds its
-- record at the end of the long-task records.
pub record SessionStore (S : Type 0) : Type 0 where
  pub long_task_records : S → Result (List Value)
  pub record_long_task : Value → S → Result Value × S
  pub record_appends :
      (v : Value) (s s' : S) (entry : Value) (rs : List Value)
      → record_long_task v s ≡ (ok entry, s')
      → long_task_records s ≡ ok rs
      → long_task_records s' ≡ ok (rs ++ v ∷ [])

-- The record to append, the ledger after it, and the value that the operation returns.
pub record Plan (A : Type 0) : Type 0 where
  pub entry : Value
  pub next : Ledger
  pub value : A

abbrev pub appended : {A : Type 0} → Plan A → Ledger → Result Value → Result A × Ledger
appended plan l (ok entry) = (ok plan.value, plan.next)
appended plan l (err e) = (err e, l)

-- Carry out a plan: `?` on the checks, `?` on the append, then the update.
unfoldable pub commit :
    {S A : Type 0} → SessionStore S → Result (Plan A) → Ledger → S → (Result A × Ledger) × S
commit store (err e) l s = ((err e, l), s)
commit store (ok plan) l s =
    let (written, s') = store.record_long_task plan.entry s in (appended plan l written, s')

abbrev pub not_created : String
not_created = "long-task was not created"

unfoldable pub next_sequence : Ledger → Result ℕ
next_sequence l = context (checked_add l.requests 1) "long-task request counter overflow"

abbrev pub started_record : Ledger → ℕ → ℕ → Value
started_record l sequence elapsed_ms = obj (
    field "version" (num 1) (
      field "event" (str "request_started") (
        field "sequence" (num sequence)
          (field "stage" (num l.stage) (field "elapsed_ms" (num elapsed_ms) end)))))

unfoldable pub plan_begin : Ledger → ℕ → Result (Plan ℕ)
unfolding next_sequence
plan_begin l elapsed_ms = do
  limits ← context l.limits not_created
  ensure (resume_allowed l) "long-task is not at a resumable boundary"
  ensure (ltb l.requests limits.max_requests) "long-task request budget exhausted"
  ensure (ltb l.reported_tokens limits.max_tokens) "long-task token budget exhausted"
  ensure_elapsed l elapsed_ms limits
  sequence ← next_sequence l
  ok (record {
    entry = started_record l sequence elapsed_ms;
    next = record l {
      pending_sequence = some sequence;
      state = pending_provider;
      elapsed_ms = elapsed_ms;
    };
    value = sequence;
  })

abbrev pub interrupted_record : Ledger → ℕ → ℕ → String → String → Value
interrupted_record l sequence elapsed_ms reason request_kind = obj (
    field "version" (num 1) (
      field "event" (str "provider_interrupted") (
        field "sequence" (num sequence) (
          field "stage" (num l.stage) (
            field "elapsed_ms" (num elapsed_ms)
              (field "reason" (str reason) (field "request_kind" (str request_kind) end)))))))

unfoldable pub plan_interrupt : Ledger → ℕ → String → String → Result (Plan (Unit {0}))
plan_interrupt l elapsed_ms reason request_kind = do
  sequence ← context l.pending_sequence "no pending provider"
  let entry = interrupted_record l sequence elapsed_ms reason request_kind
  next ← apply l entry none
  ok (record { entry = entry; next = next; value = tt })

abbrev pub settled_record : Ledger → ℕ → String → ℕ → TokenDelta → ℕ → Value
settled_record l sequence response_kind elapsed_ms delta sum = obj (
    field "version" (num 1) (
      field "event" (str "request_settled") (
        field "sequence" (num sequence) (
          field "stage" (num l.stage) (
            field "elapsed_ms" (num elapsed_ms) (
              field "response_kind" (str response_kind) (
                field "input_tokens" (num delta.input) (
                  field "output_tokens" (num delta.output) (
                    field "cache_read_tokens" (num delta.cache_read) (
                      field "cache_write_tokens" (num delta.cache_write)
                        (field "total_tokens" (num sum) end)))))))))))

unfoldable pub plan_settle : Ledger → String → ℕ → TokenDelta → Result (Plan (Unit {0}))
plan_settle l response_kind elapsed_ms delta = do
  sequence ← context l.pending_sequence "provider result without start"
  limits ← context l.limits not_created
  require (is_response_kind response_kind)
  ensure_elapsed l elapsed_ms limits
  sum ← total delta
  require (ltb l.requests limits.max_requests)
  require (is_some (checked_add l.reported_tokens sum))
  ok (record {
    entry = settled_record l sequence response_kind elapsed_ms delta sum;
    next = record l {
      pending_sequence = none;
      requests = wrapping_add l.requests 1;
      stage_requests = wrapping_add l.stage_requests 1;
      reported_tokens = wrapping_add l.reported_tokens sum;
      elapsed_ms = elapsed_ms;
      state = settled_state response_kind;
    };
    value = tt;
  })

abbrev pub request_failed_record : Ledger → ℕ → String → ℕ → TokenDelta → ℕ → Value
request_failed_record l sequence category elapsed_ms delta sum = obj (
    field "version" (num 1) (
      field "event" (str "request_failed") (
        field "sequence" (num sequence) (
          field "stage" (num l.stage) (
            field "elapsed_ms" (num elapsed_ms) (
              field "category" (str category) (
                field "input_tokens" (num delta.input) (
                  field "output_tokens" (num delta.output) (
                    field "cache_read_tokens" (num delta.cache_read) (
                      field "cache_write_tokens" (num delta.cache_write)
                        (field "total_tokens" (num sum) end)))))))))))

unfoldable pub plan_fail_request : Ledger → String → ℕ → TokenDelta → Result (Plan (Unit {0}))
plan_fail_request l category elapsed_ms delta = do
  sequence ← context l.pending_sequence "provider failure without start"
  limits ← context l.limits not_created
  require (is_failure_category category)
  ensure_elapsed l elapsed_ms limits
  sum ← total delta
  require (ltb l.requests limits.max_requests)
  require (is_some (checked_add l.reported_tokens sum))
  ok (record {
    entry = request_failed_record l sequence category elapsed_ms delta sum;
    next = record l {
      pending_sequence = none;
      requests = wrapping_add l.requests 1;
      stage_requests = wrapping_add l.stage_requests 1;
      reported_tokens = wrapping_add l.reported_tokens sum;
      elapsed_ms = elapsed_ms;
      state = failed;
      terminal_reason = some category;
    };
    value = tt;
  })

-- the fields that a stage checkpoint and a tool batch share
abbrev pub batch_record : String → ℕ → ℕ → ℕ → String → ℕ → Value
batch_record event stage stage_requests elapsed_ms fingerprint repeat_count = obj (
    field "version" (num 1) (
      field "event" (str event) (
        field "stage" (num stage) (
          field "stage_requests" (num stage_requests) (
            field "elapsed_ms" (num elapsed_ms) (
              field "fingerprint" (str fingerprint)
                (field "repeat_count" (num repeat_count) end)))))))

unfoldable pub plan_checkpoint : Ledger → ℕ → String → Result (Plan ℕ)
plan_checkpoint l elapsed_ms fingerprint = do
  limits ← context l.limits not_created
  ensure (is_ready l.state) "stage checkpoint without settled tools"
  require (ltb 0 l.stage_requests && leb l.stage_requests limits.max_requests)
  require (is_fingerprint fingerprint)
  ensure_elapsed l elapsed_ms limits
  require (opt_str_eq l.last_fingerprint (some fingerprint))
  require (leb l.repeat_count limits.repeat_limit)
  let stage = wrapping_add l.stage 1
  ok (record {
    entry =
        batch_record "stage_checkpoint" stage l.stage_requests elapsed_ms fingerprint
          l.repeat_count;
    next = record l {
      stage = stage;
      stage_requests = 0;
      elapsed_ms = elapsed_ms;
      last_fingerprint = some fingerprint;
      repeat_count = l.repeat_count;
      state = ready;
    };
    value = l.repeat_count;
  })

unfoldable pub plan_tool_batch : Ledger → ℕ → String → Result (Plan ℕ)
plan_tool_batch l elapsed_ms fingerprint = do
  limits ← context l.limits not_created
  ensure (is_pending_tools l.state) "tool batch without pending tools"
  require (ltb 0 l.stage_requests && leb l.stage_requests limits.max_requests)
  ensure_elapsed l elapsed_ms limits
  require (is_fingerprint fingerprint)
  let repeat_count = next_repeat l fingerprint
  require (leb repeat_count limits.repeat_limit)
  ok (record {
    entry = batch_record "tool_batch" l.stage l.stage_requests elapsed_ms fingerprint repeat_count;
    next = record l {
      elapsed_ms = elapsed_ms;
      last_fingerprint = some fingerprint;
      repeat_count = repeat_count;
      state = ready;
    };
    value = repeat_count;
  })

abbrev pub failed_record : Ledger → String → Value
failed_record l category = obj (
    field "version" (num 1) (
      field "event" (str "failed") (
        field "category" (str category)
          (field "stage" (num l.stage) (field "elapsed_ms" (num l.elapsed_ms) end)))))

unfoldable pub plan_fail_terminal : Ledger → String → Result (Plan (Unit {0}))
plan_fail_terminal l category = do
  limits ← context l.limits not_created
  require (is_ready l.state)
  require (is_terminal_category category)
  ok (record {
    entry = failed_record l category;
    next = record l { state = failed; terminal_reason = some category };
    value = tt;
  })

abbrev pub paused_record : Ledger → String → Value
paused_record l reason = obj (
    field "version" (num 1) (
      field "event" (str "paused") (
        field "reason" (str reason)
          (field "stage" (num l.stage) (field "elapsed_ms" (num l.elapsed_ms) end)))))

unfoldable pub plan_pause : Ledger → String → Result (Plan (Unit {0}))
plan_pause l reason = do
  ensure (is_ready l.state) "long-task pause is not at a settled boundary"
  require (is_pause_reason reason)
  ok (record { entry = paused_record l reason; next = record l { state = paused }; value = tt })

abbrev pub completed_record : Ledger → Value
completed_record l = obj (
    field "version" (num 1) (
      field "event" (str "completed")
        (field "stage" (num l.stage) (field "elapsed_ms" (num l.elapsed_ms) end))))

unfoldable pub plan_complete : Ledger → Result (Plan (Unit {0}))
plan_complete l = do
  ensure (is_final_pending l.state) "final answer is not settled"
  ok (record { entry = completed_record l; next = record l { state = completed }; value = tt })
