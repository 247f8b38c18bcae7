-- ===== src/LongTask/Apply.antt =====
-- src/long_task.rs, `Ledger::apply` and `Ledger::from_records`: one function for each event of the
-- match, and the match itself.
use Prim.Native.Char.{code}
use Prim.Native.String.{len}
use danso.Prelude.{
  ℕ, ◌+◌, String, ◌==◌, leb, ltb, if◌then◌else◌, Bool, true, false, not, ◌&&◌, ◌||◌, Option, none,
  some, List, [], ◌∷◌, str_eq, opt_str_eq, opt_eq, is_some, saturating_add, wrapping_add,
}
use danso.Prelude.Result.{Result, ok, err, message, ◌>>=◌, ◌>>◌, ensure, require, context}
use danso.Json.{Value, index, as_str, is_num}
use danso.LongTask.Ledger.{
  Limits, State, ready, pending_provider, pending_tools, final_pending, paused, completed, failed,
  TokenDelta, no_tokens, Ledger, default, max_interrupted_requests, exact_keys, integer, string,
  tokens, from_created, ensure_elapsed, add_request, is_resting, has_task,
}

abbrev pub is_terminal : State → Bool
is_terminal completed = true
is_terminal failed = true
is_terminal _ = false

abbrev pub is_ready : State → Bool
is_ready ready = true
is_ready _ = false

abbrev pub is_pending_provider : State → Bool
is_pending_provider pending_provider = true
is_pending_provider _ = false

abbrev pub is_pending_tools : State → Bool
is_pending_tools pending_tools = true
is_pending_tools _ = false

abbrev pub is_final_pending : State → Bool
is_final_pending final_pending = true
is_final_pending _ = false

-- ASCII hexadecimal digits
abbrev is_hex_digit : ℕ → Bool
is_hex_digit c =
    (leb b'0' c && leb c b'9') || (leb b'a' c && leb c b'f') || (leb b'A' c && leb c b'F')

all_hex : String → Bool
all_hex String.[] = true
all_hex (String.◌∷◌ c s) = is_hex_digit (code c) && all_hex s

-- `len() == 64 && bytes().all(|b| b.is_ascii_hexdigit())`
unfoldable pub is_fingerprint : String → Bool
unfolding all_hex
is_fingerprint text = len text == 64 && all_hex text

abbrev restart : Ledger → Result Ledger
restart l =
    if has_task l
    then (do ensure (is_terminal l.state) "duplicate long-task creation record"; ok default)
    else ok l

unfoldable pub apply_created : Ledger → Value → Option String → Result Ledger
apply_created l data_value expected_task_id = do
  fresh ← restart l
  limits ← from_created data_value expected_task_id
  user_entry_id ← string data_value "user_entry_id"
  ok (record fresh { limits = some limits; user_entry_id = some user_entry_id; state = ready })

abbrev pub before_creation : String
before_creation = "long-task record before creation"

-- `ensure!(data["version"] == 1)`
abbrev pub version_one : Value → Result (Unit {0})
version_one data_value = require (is_num (index data_value "version") 1)

unfoldable pub apply_request_started : Ledger → Value → Result Ledger
apply_request_started l data_value = do
  exact_keys data_value ("version" ∷ "event" ∷ "sequence" ∷ "stage" ∷ "elapsed_ms" ∷ [])
  version_one data_value
  limits ← context l.limits before_creation
  ensure (not (is_some l.pending_sequence)) "duplicate pending provider request"
  require (is_resting l.state)
  sequence ← integer data_value "sequence"
  ensure (sequence == wrapping_add l.requests 1) "long-task request sequence mismatch"
  stage ← integer data_value "stage"
  ensure (stage == l.stage) "long-task request stage mismatch"
  elapsed ← integer data_value "elapsed_ms"
  ensure_elapsed l elapsed limits
  ok (record l { pending_sequence = some sequence; state = pending_provider; elapsed_ms = elapsed })

abbrev pub settled_keys : List String
settled_keys =
    "version" ∷ "event" ∷ "sequence" ∷ "stage" ∷ "elapsed_ms" ∷ "response_kind" ∷ "input_tokens"
    ∷ "output_tokens" ∷ "cache_read_tokens" ∷ "cache_write_tokens" ∷ "total_tokens" ∷ []

-- `matches!(response_kind, "summary" | "tools" | "final")`
abbrev pub is_response_kind : String → Bool
is_response_kind kind = str_eq kind "summary" || str_eq kind "tools" || str_eq kind "final"

-- the state that a settled response leaves, once its kind is one of the three
abbrev pub settled_state : String → State
settled_state kind =
    if str_eq kind "tools"
    then pending_tools
    else if str_eq kind "final"
    then final_pending
    else ready

-- the end of the branch, from the count of the request on
unfoldable pub count_settled : Ledger → Value → ℕ → TokenDelta → Limits → Result Ledger
count_settled l data_value elapsed delta limits = do
  counted ← add_request l elapsed delta limits
  response_kind ← string data_value "response_kind"
  require (is_response_kind response_kind)
  ok (record counted {
    pending_sequence = none;
    elapsed_ms = elapsed;
    state = settled_state response_kind;
  })

unfoldable pub apply_request_settled : Ledger → Value → Result Ledger
apply_request_settled l data_value = do
  exact_keys data_value settled_keys
  version_one data_value
  limits ← context l.limits before_creation
  sequence ← context l.pending_sequence "provider result without start"
  recorded ← integer data_value "sequence"
  require (recorded == sequence)
  stage ← integer data_value "stage"
  require (stage == l.stage)
  elapsed ← integer data_value "elapsed_ms"
  ensure_elapsed l elapsed limits
  delta ← tokens data_value
  count_settled l data_value elapsed delta limits

abbrev pub interrupted_keys : List String
interrupted_keys =
    "version" ∷ "event" ∷ "sequence" ∷ "stage" ∷ "elapsed_ms" ∷ "reason" ∷ "request_kind" ∷ []

abbrev pub is_request_kind : String → Bool
is_request_kind kind = str_eq kind "action" || str_eq kind "summary"

unfoldable pub is_interruption : String → Bool
is_interruption reason =
    str_eq reason "user_stop"
    || str_eq reason "signal_termination"
    || str_eq reason "run_deadline"
    || str_eq reason "unknown"

-- the end of the branch, from the count of the request on
unfoldable pub count_interrupted : Ledger → ℕ → String → Limits → Result Ledger
count_interrupted l elapsed reason limits = do
  counted ← add_request l elapsed no_tokens limits
  ok (record counted {
    interrupted_requests = counted.interrupted_requests + 1;
    interruption_reason = some reason;
    pending_sequence = none;
    state = paused;
  })

unfoldable pub apply_provider_interrupted : Ledger → Value → Result Ledger
apply_provider_interrupted l data_value = do
  exact_keys data_value interrupted_keys
  version_one data_value
  limits ← context l.limits before_creation
  require (is_pending_provider l.state && not (is_some l.pending_response))
  recorded ← integer data_value "sequence"
  require (opt_eq (some recorded) l.pending_sequence)
  stage ← integer data_value "stage"
  require (stage == l.stage)
  request_kind ← string data_value "request_kind"
  require (is_request_kind request_kind)
  reason ← string data_value "reason"
  require (is_interruption reason)
  elapsed ← integer data_value "elapsed_ms"
  ensure_elapsed l elapsed limits
  require (ltb l.interrupted_requests max_interrupted_requests)
  count_interrupted l elapsed reason limits

abbrev pub failed_keys : List String
failed_keys =
    "version" ∷ "event" ∷ "sequence" ∷ "stage" ∷ "elapsed_ms" ∷ "category" ∷ "input_tokens"
    ∷ "output_tokens" ∷ "cache_read_tokens" ∷ "cache_write_tokens" ∷ "total_tokens" ∷ []

unfoldable pub is_failure_category : String → Bool
is_failure_category category =
    str_eq category "provider"
    || str_eq category "provider_timeout"
    || str_eq category "compaction"
    || str_eq category "runtime"
    || str_eq category "request_budget"

-- the end of the branch, from the count of the request on
unfoldable pub count_failed : Ledger → String → ℕ → TokenDelta → Limits → Result Ledger
count_failed l category elapsed delta limits = do
  counted ← add_request l elapsed delta limits
  ok (record counted {
    pending_sequence = none;
    state = failed;
    terminal_reason = some category;
    elapsed_ms = elapsed;
  })

unfoldable pub apply_request_failed : Ledger → Value → Result Ledger
apply_request_failed l data_value = do
  exact_keys data_value failed_keys
  version_one data_value
  limits ← context l.limits before_creation
  sequence ← context l.pending_sequence "provider failure without start"
  recorded ← integer data_value "sequence"
  require (recorded == sequence)
  stage ← integer data_value "stage"
  require (stage == l.stage)
  category ← string data_value "category"
  require (is_failure_category category)
  elapsed ← integer data_value "elapsed_ms"
  ensure_elapsed l elapsed limits
  delta ← tokens data_value
  count_failed l category elapsed delta limits

abbrev pub batch_keys : List String
batch_keys =
    "version" ∷ "event" ∷ "stage" ∷ "stage_requests" ∷ "elapsed_ms" ∷ "fingerprint" ∷ "repeat_count"
    ∷ []

unfoldable pub apply_stage_checkpoint : Ledger → Value → Result Ledger
apply_stage_checkpoint l data_value = do
  exact_keys data_value batch_keys
  version_one data_value
  limits ← context l.limits before_creation
  ensure (is_ready l.state) "stage checkpoint without settled tools"
  stage ← integer data_value "stage"
  ensure (stage == wrapping_add l.stage 1) "long-task stage sequence mismatch"
  stage_requests ← integer data_value "stage_requests"
  require (ltb 0 stage_requests && leb stage_requests limits.max_requests)
  elapsed ← integer data_value "elapsed_ms"
  ensure_elapsed l elapsed limits
  fingerprint ← string data_value "fingerprint"
  require (is_fingerprint fingerprint)
  repeat ← integer data_value "repeat_count"
  require (opt_str_eq l.last_fingerprint (some fingerprint))
  require (repeat == l.repeat_count && leb repeat limits.repeat_limit)
  ok (record l {
    stage = stage;
    stage_requests = 0;
    elapsed_ms = elapsed;
    last_fingerprint = some fingerprint;
    repeat_count = repeat;
    state = ready;
  })

-- how often the batch has now been seen in a row
abbrev pub next_repeat : Ledger → String → ℕ
next_repeat l fingerprint =
    if opt_str_eq l.last_fingerprint (some fingerprint) then saturating_add l.repeat_count 1 else 1

unfoldable pub apply_tool_batch : Ledger → Value → Result Ledger
apply_tool_batch l data_value = do
  exact_keys data_value batch_keys
  version_one data_value
  limits ← context l.limits before_creation
  ensure (is_pending_tools l.state) "tool batch without pending tools"
  stage ← integer data_value "stage"
  require (stage == l.stage)
  stage_requests ← integer data_value "stage_requests"
  require (ltb 0 stage_requests && leb stage_requests limits.max_requests)
  elapsed ← integer data_value "elapsed_ms"
  ensure_elapsed l elapsed limits
  fingerprint ← string data_value "fingerprint"
  require (is_fingerprint fingerprint)
  recorded ← integer data_value "repeat_count"
  let repeat = next_repeat l fingerprint
  require (recorded == repeat && leb repeat limits.repeat_limit)
  ok (record l {
    stage_requests = stage_requests;
    elapsed_ms = elapsed;
    last_fingerprint = some fingerprint;
    repeat_count = repeat;
    state = ready;
  })

abbrev pub is_pause_reason : String → Bool
is_pause_reason reason =
    str_eq reason "operator" || str_eq reason "request_budget" || str_eq reason "wall_timeout"

unfoldable pub apply_paused : Ledger → Value → Result Ledger
apply_paused l data_value = do
  exact_keys data_value ("version" ∷ "event" ∷ "reason" ∷ "stage" ∷ "elapsed_ms" ∷ [])
  version_one data_value
  limits ← context l.limits before_creation
  ensure (is_ready l.state) "long-task pause is not at a settled boundary"
  reason ← string data_value "reason"
  require (is_pause_reason reason)
  stage ← integer data_value "stage"
  require (stage == l.stage)
  elapsed ← integer data_value "elapsed_ms"
  ensure_elapsed l elapsed limits
  ok (record l { elapsed_ms = elapsed; state = paused })

abbrev pub is_terminal_category : String → Bool
is_terminal_category category = str_eq category "runtime" || str_eq category "request_budget"

unfoldable pub apply_failed : Ledger → Value → Result Ledger
apply_failed l data_value = do
  exact_keys data_value ("version" ∷ "event" ∷ "category" ∷ "stage" ∷ "elapsed_ms" ∷ [])
  version_one data_value
  limits ← context l.limits before_creation
  ensure (is_ready l.state) "long-task failure is not at a safe boundary"
  category ← string data_value "category"
  require (is_terminal_category category)
  stage ← integer data_value "stage"
  require (stage == l.stage)
  elapsed ← integer data_value "elapsed_ms"
  ensure_elapsed l elapsed limits
  ok (record l { elapsed_ms = elapsed; state = failed; terminal_reason = some category })

unfoldable pub apply_completed : Ledger → Value → Result Ledger
apply_completed l data_value = do
  exact_keys data_value ("version" ∷ "event" ∷ "stage" ∷ "elapsed_ms" ∷ [])
  require (is_num (index data_value "version") 1 && is_final_pending l.state)
  limits ← context l.limits before_creation
  stage ← integer data_value "stage"
  require (stage == l.stage)
  elapsed ← integer data_value "elapsed_ms"
  ensure_elapsed l elapsed limits
  ok (record l { elapsed_ms = elapsed; state = completed })

-- the `match event`
unfoldable pub apply_event : String → Ledger → Value → Option String → Result Ledger
apply_event event l data_value expected_task_id =
    if str_eq event "created"
    then apply_created l data_value expected_task_id
    else if str_eq event "request_started"
    then apply_request_started l data_value
    else if str_eq event "request_settled"
    then apply_request_settled l data_value
    else if str_eq event "provider_interrupted"
    then apply_provider_interrupted l data_value
    else if str_eq event "request_failed"
    then apply_request_failed l data_value
    else if str_eq event "stage_checkpoint"
    then apply_stage_checkpoint l data_value
    else if str_eq event "tool_batch"
    then apply_tool_batch l data_value
    else if str_eq event "paused"
    then apply_paused l data_value
    else if str_eq event "failed"
    then apply_failed l data_value
    else if str_eq event "completed"
    then apply_completed l data_value
    else err (message "unsupported long-task event")

-- `Ledger::apply`
unfoldable pub apply : Ledger → Value → Option String → Result Ledger
apply l data_value expected_task_id = do
  event ← context (as_str (index data_value "event")) "long-task record lacks event"
  apply_event event l data_value expected_task_id

-- the loop of `from_records`
unfoldable pub replay : Ledger → List Value → Option String → Result Ledger
replay l [] expected_task_id = ok l
replay l (data_value ∷ rest) expected_task_id = do
  next ← apply l data_value expected_task_id
  replay next rest expected_task_id

-- `Ledger::from_records`
unfoldable pub from_records : List Value → Option String → Result Ledger
unfolding replay
from_records records expected_task_id = replay default records expected_task_id
