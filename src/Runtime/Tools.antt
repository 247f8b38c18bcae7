-- ===== src/Runtime/Tools.antt =====
-- src/runtime.rs: from the provider's message to its settled tool calls.
use danso.Prelude.{
  ℕ, String, Bool, true, false, not, ◌||◌, Option, none, some, List, [], ◌∷◌, if◌then◌else◌,
}
use Prim.Native.String.{◌++◌ as str_append}
use danso.Prelude.Result.{Result, ok, err, message, ensure, ◌>>=◌ as ◌>>?◌}
use danso.Json.{Value, bool, num, str, arr, obj, end, field, index, is_str, contains, of_list}
use danso.Contracts.{
  ToolCall, ToolOutcome, started, settled, Verdict, allow, deny, ask, tool_calls, is_blank,
  text_blocks,
}
use danso.Usage.{record_tool_execution}
use danso.Runtime.Action.{
  tool_started, tool_settled, message_entry, text_delta, message_completed, Host, Action, ◌>>=◌,
  ◌>>◌, return, emit, append_message, record_operation,
}

abbrev pub is_empty : List ToolCall → Bool
is_empty [] = true
is_empty (c ∷ cs) = false

-- the checks on the provider's message; `no_tools` is the run's flag
unfoldable pub response_calls : Bool → Value → Result (List ToolCall)
response_calls no_tools m =
    ensure (is_str (index m "role") "assistant") "provider must return an assistant message"
    >>? λ _. tool_calls m >>? λ calls.
        ensure (not no_tools || is_empty calls) "tools are disabled for this invocation" >>? λ _.
        ensure
          (not (is_empty calls)
            || is_str (index m "stopReason") "stop"
            || is_str (index m "stopReason") "length")
          "invalid terminal response"
        >>? λ _.
            ensure (is_empty calls || is_str (index m "stopReason") "toolUse")
              "invalid tool response"
            >>? λ _. ok calls

-- the gate on the ids: each is new to the session, and to the calls before it
unfoldable pub insert_ids : List String → List ToolCall → Result (List String)
insert_ids ids [] = ok ids
insert_ids ids (c ∷ cs) =
    let rest = insert_ids (c.id ∷ ids) cs in
    if contains ids c.id then err (message "duplicate tool call id") else rest

abbrev pub refusal : Verdict → Option String
refusal allow = none
refusal (deny reason) = some reason
refusal ask = some "approval required but no approval route is available"

-- an entry of the batch, which the repeat guards fingerprint
pub record Attempt : Type 0 where
  pub name : String
  pub arguments : Value
  pub is_error : Bool
  pub output : String

abbrev pub tool_result : ToolCall → ToolOutcome → ℕ → Value
tool_result call outcome timestamp = obj (
    field "role" (str "toolResult") (
      field "toolCallId" (str call.id) (
        field "toolName" (str call.name) (
          field "content"
            (arr (
              of_list
                (obj (field "type" (str "text") (field "text" (str outcome.output) end)) ∷ [])))
            (field "isError" (bool outcome.is_error) (field "timestamp" (num timestamp) end))))))

abbrev attempt_of : ToolCall → ToolOutcome → Attempt
attempt_of call outcome = record {
  name = call.name;
  arguments = call.arguments;
  is_error = outcome.is_error;
  output = outcome.output;
}

module _ {S W : Type 0} (host : Host S W) where
  abbrev outcome_of : Result ToolOutcome → ToolOutcome
  outcome_of (ok outcome) = outcome
  outcome_of (err e) = record { output = host.describe e; is_error = true }

  -- the outcome of a call: the refusal's, or the executor's, whose error is an outcome too
  abbrev pub perform : ToolCall → Option String → W → ToolOutcome × W
  perform call (some reason) w =
      (record { output = str_append "tool call refused by policy: " reason; is_error = true }, w)
  perform call none w = let (result, after) = host.execute call w in (outcome_of result, after)

  unfoldable pub attempt : ToolCall → Action S W ToolOutcome
  attempt call run =
      let (outcome, world) = perform call (refusal (host.admit call)) run.world in
      (
        ok outcome,
        record run { world = world; usage = record_tool_execution run.usage (host.elapsed world) },
      )

  unfoldable pub deliver : ToolCall → ToolOutcome → Value → Action S W (Value × Attempt)
  deliver call outcome result = do
    entry ← append_message host result
    emit host (message_entry entry)
    record_operation host call.id settled
    emit host (tool_settled outcome.is_error)
    return (result, attempt_of call outcome)

  abbrev pub reply : ToolCall → ToolOutcome → Action S W (Value × Attempt)
  reply call outcome run =
      deliver call outcome (tool_result call outcome (host.millis run.world)) run

  -- One round of the loop over the calls.
  unfoldable pub run_call : ToolCall → Action S W (Value × Attempt)
  run_call call = do
    record_operation host call.id started
    emit host (tool_started call.name)
    outcome ← attempt call
    reply call outcome

  -- the tool results, and the batch
  unfoldable pub run_batch : List ToolCall → Action S W (List Value × List Attempt)
  run_batch [] = return ([], [])
  run_batch (c ∷ cs) = do
    done ← run_call c
    rest ← run_batch cs
    return (done.0 ∷ rest.0, done.1 ∷ rest.1)

  abbrev pub lift : {A : Type 0} → Result A → Action S W A
  lift result run = (result, run)

  -- the loop of `stream_assistant_text`, and whether it has streamed a text
  unfoldable pub stream_blocks : Bool → List String → Action S W Bool
  stream_blocks streamed [] = return streamed
  stream_blocks streamed (text ∷ texts) =
      if is_blank text
      then stream_blocks streamed texts
      else (emit host (text_delta text) >> stream_blocks true texts)

  abbrev pub close_message : Bool → Action S W (Unit {0})
  close_message true = emit host message_completed
  close_message false = return tt

  -- `stream_assistant_text`
  unfoldable pub stream_assistant_text : Value → Action S W (Unit {0})
  stream_assistant_text m =
      if is_str (index m "role") "assistant"
      then (stream_blocks false (text_blocks m) >>= λ streamed. close_message streamed)
      else return tt

  -- the interim boundary, where there are calls to run
  abbrev pub boundary : Bool → Value → List ToolCall → Action S W (Unit {0})
  boundary streamed m [] = return tt
  boundary true m (c ∷ cs) = emit host message_completed
  boundary false m (c ∷ cs) = stream_assistant_text m

  -- the message is journaled and its calls are run
  unfoldable pub run_message : Bool → Value → List ToolCall → Action S W (List Value × List Attempt)
  run_message streamed m calls = do
    entry ← append_message host m
    emit host (message_entry entry)
    boundary streamed m calls
    done ← run_batch calls
    return (m ∷ done.0, done.1)

  abbrev with_ids : {A : Type 0} → List String → Action S W A → Action S W (List String × A)
  with_ids known action = action >>= λ done. return (known, done)

  -- A turn of a run without a long task: the provider's message is checked, and then run.
  unfoldable pub turn :
      Bool → Bool → List String → Value → Action S W (List String × (List Value × List Attempt))
  turn no_tools streamed ids m = do
    calls ← lift (response_calls no_tools m)
    known ← lift (insert_ids ids calls)
    with_ids known (run_message streamed m calls)
