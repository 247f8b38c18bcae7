-- ===== src/LongTask/Ledger.antt =====
-- src/long_task.rs: the limits, the states, the token counters, the ledger and the readers of a
-- record's fields.
use danso.Prelude.{
  ℕ, String, ◌==◌, leb, ltb, if◌then◌else◌, Bool, true, false, not, ◌&&◌, Option, none, some, List,
  [], ◌∷◌, length, str_eq, checked_add, saturating_mul,
}
use danso.Prelude.Result.{
  Result, ok, err, Failure, recovery, RecoveryReason, explicit_resume_required, uncertain_work,
  budget_exhausted, terminal_task, ◌>>=◌, ◌>>◌, ensure, require, context,
}
use danso.Json.{
  Value, num, str, obj, Fields, end, field, index, as_str, as_u64, is_str, is_num, count,
  names_within,
}

abbrev pub max_interrupted_requests : ℕ
max_interrupted_requests = 3

abbrev pub max_wall_seconds : ℕ
max_wall_seconds = 21600

abbrev pub min_stage_requests : ℕ
min_stage_requests = 1

abbrev pub max_stage_requests : ℕ
max_stage_requests = 1024

abbrev pub min_max_requests : ℕ
min_max_requests = 1

abbrev pub max_max_requests : ℕ
max_max_requests = 2048

abbrev pub min_max_tokens : ℕ
min_max_tokens = 1

abbrev pub max_max_tokens : ℕ
max_max_tokens = 25_000_000

abbrev pub min_repeat_limit : ℕ
min_repeat_limit = 2

abbrev pub max_repeat_limit : ℕ
max_repeat_limit = 8

pub record Limits : Type 0 where
  pub wall_seconds : ℕ
  pub stage_requests : ℕ
  pub max_requests : ℕ
  pub max_tokens : ℕ
  pub repeat_limit : ℕ

-- `(low..=high).contains(&value)`
abbrev pub in_range : ℕ → ℕ → ℕ → Bool
in_range low high value = leb low value && leb value high

unfoldable pub validate : Limits → Result (Unit {0})
validate l = do
  ensure (in_range 1 max_wall_seconds l.wall_seconds) "long-task timeout must be 1..21600 seconds"
  ensure (in_range min_stage_requests max_stage_requests l.stage_requests)
      "task-stage-requests must be 1..1024"
  ensure (in_range min_max_requests max_max_requests l.max_requests)
      "task-max-requests must be 1..2048"
  ensure (in_range min_max_tokens max_max_tokens l.max_tokens) "task-max-tokens must be 1..25000000"
  ensure (in_range min_repeat_limit max_repeat_limit l.repeat_limit)
      "task-repeat-limit must be 2..8"

-- `Limits::json`: the creation record
unfoldable pub created_record : Limits → String → String → Value
created_record l task_id user_entry_id = obj (
    field "version" (num 1) (
      field "event" (str "created") (
        field "task_id" (str task_id) (
          field "user_entry_id" (str user_entry_id) (
            field "wall_seconds" (num l.wall_seconds) (
              field "stage_requests" (num l.stage_requests) (
                field "max_requests" (num l.max_requests) (
                  field "max_tokens" (num l.max_tokens)
                    (field "repeat_limit" (num l.repeat_limit) end)))))))))

pub data State : Type 0 where
  no_task ready pending_provider pending_tools final_pending paused completed failed : State

unfoldable pub label : State → String
label no_task = "not_long_task"
label ready = "ready"
label pending_provider = "pending_provider"
label pending_tools = "pending_tools"
label final_pending = "final_pending"
label paused = "paused"
label completed = "completed"
label failed = "failed"

pub record TokenDelta : Type 0 where
  pub input : ℕ
  pub output : ℕ
  pub cache_read : ℕ
  pub cache_write : ℕ

abbrev pub no_tokens : TokenDelta
no_tokens = record { input = 0; output = 0; cache_read = 0; cache_write = 0 }

abbrev and_then_add : Option ℕ → ℕ → Option ℕ
and_then_add none n = none
and_then_add (some m) n = checked_add m n

unfoldable pub total : TokenDelta → Result ℕ
total t =
    context (and_then_add (and_then_add (checked_add t.input t.output) t.cache_read) t.cache_write)
      "long-task token counter overflow"

pub record PendingResponse : Type 0 where
  pub sequence : ℕ
  pub elapsed_ms : ℕ
  pub tokens : TokenDelta

pub record Ledger : Type 0 where
  pub limits : Option Limits
  pub user_entry_id : Option String
  pub state : State
  pub stage : ℕ
  pub stage_requests : ℕ
  pub elapsed_ms : ℕ
  pub requests : ℕ
  pub reported_tokens : ℕ
  pub pending_sequence : Option ℕ
  pub pending_response : Option PendingResponse
  pub last_fingerprint : Option String
  pub repeat_count : ℕ
  pub terminal_reason : Option String
  pub interrupted_requests : ℕ
  pub interruption_reason : Option String

abbrev pub default : Ledger
default = record {
  limits = none;
  user_entry_id = none;
  state = no_task;
  stage = 0;
  stage_requests = 0;
  elapsed_ms = 0;
  requests = 0;
  reported_tokens = 0;
  pending_sequence = none;
  pending_response = none;
  last_fingerprint = none;
  repeat_count = 0;
  terminal_reason = none;
  interrupted_requests = 0;
  interruption_reason = none;
}

abbrev object_fields : Value → Option Fields
object_fields (obj fs) = some fs
object_fields _ = none

unfoldable pub exact_keys : Value → List String → Result (Unit {0})
unfolding count names_within
exact_keys data_value keys = do
  object ← context (object_fields data_value) "long-task record must be an object"
  require (count object == length keys && names_within object keys)

unfoldable pub integer : Value → String → Result ℕ
unfolding index as_u64
integer data_value key = context (as_u64 (index data_value key)) "invalid long-task integer"

unfoldable pub string : Value → String → Result String
unfolding index as_str
string data_value key = context (as_str (index data_value key)) "invalid long-task string"

unfoldable pub tokens : Value → Result TokenDelta
tokens data_value = do
  input ← integer data_value "input_tokens"
  output ← integer data_value "output_tokens"
  cache_read ← integer data_value "cache_read_tokens"
  cache_write ← integer data_value "cache_write_tokens"
  let result : TokenDelta = record {
    input = input;
    output = output;
    cache_read = cache_read;
    cache_write = cache_write;
  }
  sum ← total result
  reported ← integer data_value "total_tokens"
  require (reported == sum)
  ok result

abbrev check_task_id : Option String → String → Result (Unit {0})
check_task_id none task_id = ok tt
check_task_id (some expected) task_id =
    ensure (str_eq task_id expected) "long-task session id mismatch"

-- `Limits::from_created`
unfoldable pub from_created : Value → Option String → Result Limits
from_created data_value expected_task_id = do
  exact_keys data_value (
      "version" ∷ "event" ∷ "task_id" ∷ "user_entry_id" ∷ "wall_seconds" ∷ "stage_requests"
      ∷ "max_requests" ∷ "max_tokens" ∷ "repeat_limit" ∷ [])
  require (is_num (index data_value "version") 1 && is_str (index data_value "event") "created")
  task_id ← string data_value "task_id"
  check_task_id expected_task_id task_id
  user_entry_id ← string data_value "user_entry_id"
  require (not (str_eq user_entry_id ""))
  wall_seconds ← integer data_value "wall_seconds"
  stage_requests ← integer data_value "stage_requests"
  max_requests ← integer data_value "max_requests"
  max_tokens ← integer data_value "max_tokens"
  repeat_limit ← integer data_value "repeat_limit"
  let limits : Limits = record {
    wall_seconds = wall_seconds;
    stage_requests = stage_requests;
    max_requests = max_requests;
    max_tokens = max_tokens;
    repeat_limit = repeat_limit;
  }
  validate limits
  ok limits

unfoldable pub ensure_elapsed : Ledger → ℕ → Limits → Result (Unit {0})
ensure_elapsed l elapsed limits = do
  require (leb elapsed (saturating_mul limits.wall_seconds 1000))
  ensure (leb l.elapsed_ms elapsed) "long-task elapsed time moved backwards"

unfoldable pub add_request : Ledger → ℕ → TokenDelta → Limits → Result Ledger
add_request l elapsed delta limits = do
  ensure (ltb l.requests limits.max_requests) "long-task request budget exhausted"
  requests ← context (checked_add l.requests 1) "long-task request counter overflow"
  stage_requests ←
      context (checked_add l.stage_requests 1) "long-task stage request counter overflow"
  sum ← total delta
  reported_tokens ← context (checked_add l.reported_tokens sum) "long-task token counter overflow"
  ok (record l {
    requests = requests;
    stage_requests = stage_requests;
    reported_tokens = reported_tokens;
    elapsed_ms = elapsed;
  })

unfoldable pub has_task : Ledger → Bool
has_task l = elim l.limits [ none ↦ false | some limits ↦ true ]

abbrev pub is_resting : State → Bool
is_resting ready = true
is_resting paused = true
is_resting _ = false

abbrev pub within_limits : Ledger → Option Limits → Bool
within_limits l none = false
within_limits l (some limits) =
    ltb l.elapsed_ms (saturating_mul limits.wall_seconds 1000)
    && ltb l.repeat_count limits.repeat_limit
    && ltb l.reported_tokens limits.max_tokens
    && ltb l.requests limits.max_requests

unfoldable pub resume_allowed : Ledger → Bool
resume_allowed l =
    is_resting l.state
    && ltb l.interrupted_requests max_interrupted_requests
    && within_limits l l.limits

-- the reason of `recovery_error`, by state and by whether a resume is allowed
unfoldable pub recovery_reason : State → Bool → RecoveryReason
recovery_reason pending_provider allowed = uncertain_work
recovery_reason pending_tools allowed = uncertain_work
recovery_reason final_pending allowed = uncertain_work
recovery_reason ready false = budget_exhausted
recovery_reason paused false = budget_exhausted
recovery_reason completed allowed = terminal_task
recovery_reason failed allowed = terminal_task
recovery_reason _ allowed = explicit_resume_required

unfoldable pub recovery_error : Ledger → Failure
unfolding recovery_reason resume_allowed label
recovery_error l =
    recovery (label l.state) (recovery_reason l.state (resume_allowed l)) (resume_allowed l)

abbrev is_no_task : State → Bool
is_no_task no_task = true
is_no_task _ = false

unfoldable pub ensure_safe_resume : Ledger → Result (Unit {0})
unfolding recovery_error resume_allowed
ensure_safe_resume l =
    if is_no_task l.state then ok tt else if resume_allowed l then ok tt else err (recovery_error l)
