-- ===== src/Runtime/Examples.antt =====
-- A turn of the loop on a new session journal, and the properties at inputs that meet their hypotheses.
use danso.Prelude.{
  arith, if◌then◌else◌, ◌==◌, ◌⊎◌, ℕ, ◌≡◌, refl, false, some, List, [], ◌∷◌, ◌++◌, String, str_eq,
}
use danso.Prelude.Result.{Result, ok, err, message}
use danso.Json.{
  Value, null, bool, num, str, arr, obj, end, field, index, get, get_field, set_field, as_str,
  as_array, as_bool, is_str, is_num, value_eq, contains, of_list,
}
use danso.Contracts.{
  ToolCall, allow, tool_call, read_calls, tool_calls, texts_of, text_blocks, started,
}
use danso.Usage.{default, TokenUsage}
use danso.Usage.Totals.{IsSummed, add_all, add_all-IsSummed}
use danso.Compaction.{
  Printer, take_call, drop_call, floor_prefix, excerpt, receipt, next_receipts, bound_receipts,
  collect_receipts, latest_user, find_last_user, context_message, checkpoint, checkpoint_messages,
}
use danso.Compaction.Bounds.{Fits, checkpoint_messages-Keeps}
use danso.LongTask.Bindings.{check_binding, check_bindings, validate_bindings}
use danso.LongTask.Apply.{from_records, replay}
use danso.Compaction.Elision.{
  EvidencePolicy, Edits, elide_stale_tool_results, elide_stale_tool_results-Edits,
}
use danso.Session.Recovery.{
  Recovery, new, lookup, remove, check_content, add_calls, add_result, add_message, start, settle,
  operation, complete,
}
use danso.Session.Scan.{
  scan_message, scan_operation, scan_kind, scan_entry, scan_from, finish_scan, scan_entries,
  task_records, check_recovery, all_messages,
}
use danso.Session.Journal.{
  Session, Input, validate, validate_entry, validate_entries, fresh_id, last_id, stamp, persist,
  append, append_message, record_operation, record_long_task, long_task_records, scan,
}
use danso.Session.Rescan.{Reads, append_message-Reads, record_operation-Reads}
use danso.Session.Markers.{IsConsistent}
use danso.Session.Changes.{scan_entries-IsConsistent}
use danso.Session.Unresolved.{unsettled-blocks, settles_call}
use danso.Session.Calls.{settles}
use danso.Session.Store.{record_long_task-appends}
use danso.Runtime.Answers.{push_ids}
use danso.Runtime.Action.{Host, Run}
use danso.Runtime.Tools.{
  Attempt, response_calls, insert_ids, attempt, deliver, run_call, run_batch, stream_blocks,
  stream_assistant_text, run_message, turn,
}
use danso.Runtime.Journaled.{journal_host, run_batch-Reads}
use danso.Runtime.Crashes.{Marked, run_call-Marked}
use danso.Runtime.Turns.{IsSettled, turn-IsSettled}

abbrev plain : Printer
plain = record { to_string = λ v. ""; is_whitespace = λ s. str_eq s "" }

abbrev quiet : ℕ → Input
quiet n = record {
  draws = "a" ∷ "b" ∷ "c" ∷ "d" ∷ "e" ∷ "f" ∷ "g" ∷ "h" ∷ [];
  timestamp = "now";
  file_len = ok 0;
  write = ok tt;
}

abbrev header : Value
header = obj (
    field "type" (str "session")
      (field "version" (num 3) (field "id" (str "s") (field "timestamp" (str "now") end))))

abbrev fresh : Session
fresh = record { header = header; entries = []; appends = 0 }

-- A host whose tools succeed and whose sink accepts every event.
abbrev host : Host Session (Unit {0})
host = record {
  append_message = λ m s. (ok m, s);
  record_operation = λ id state s. (ok tt, s);
  admit = λ call. allow;
  execute = λ call w. (ok (record { output = "done"; is_error = false }), w);
  emit = λ event w. (ok tt, w);
  millis = λ w. 7;
  elapsed = λ w. 1;
  describe = λ e. "failed";
}

abbrev call_block : Value
call_block = obj (
    field "type" (str "toolCall")
      (field "id" (str "t1") (field "name" (str "read") (field "arguments" (obj end) end))))

abbrev assistant : Value
assistant = obj (
    field "role" (str "assistant")
      (field "content" (arr (of_list (call_block ∷ []))) (field "stopReason" (str "toolUse") end)))

abbrev at_start : Run Session (Unit {0})
at_start = record { session = fresh; world = tt; usage = default }

-- What a run of the model computes with.
runs : Unit {0}
unfolding index get get_field set_field as_str as_array is_str is_num value_eq contains tool_call
    read_calls tool_calls texts_of text_blocks check_binding check_bindings validate_bindings
    from_records replay lookup remove check_content add_calls add_result add_message start settle
    operation complete scan_message scan_operation scan_kind scan_entry scan_from finish_scan
    scan_entries task_records check_recovery all_messages validate validate_entry validate_entries
    fresh_id last_id stamp persist append append_message record_operation scan response_calls
    insert_ids attempt deliver run_call run_batch stream_blocks stream_assistant_text run_message
    turn record_long_task long_task_records settles settles_call push_ids take_call drop_call
    floor_prefix excerpt receipt next_receipts bound_receipts collect_receipts latest_user
    find_last_user context_message checkpoint checkpoint_messages as_bool
runs = tt

abbrev after : Result (List String × (List Value × List Attempt)) × Run Session (Unit {0})
after = turn (journal_host plain quiet host) false false [] assistant at_start

abbrev reply : Value
reply = obj (
    field "role" (str "toolResult") (
      field "toolCallId" (str "t1") (
        field "toolName" (str "read") (
          field "content"
            (arr (of_list (obj (field "type" (str "text") (field "text" (str "done") end)) ∷ [])))
            (field "isError" (bool false) (field "timestamp" (num 7) end))))))

abbrev tried : Attempt
tried = record { name = "read"; arguments = obj end; is_error = false; output = "done" }

fresh-Reads : Reads plain quiet fresh [] new
unfolding runs
fresh-Reads = record { ids = []; valid = refl; read = refl }

fresh-IsSettled : IsSettled plain quiet host fresh [] []
unfolding runs
fresh-IsSettled = record {
  recovery = new;
  reads = fresh-Reads;
  completed = refl;
  covers = λ id h. cc;
}

turn_runs : after ≡ (ok ("t1" ∷ [], (assistant ∷ reply ∷ [], tried ∷ [])), after.1)
unfolding runs
turn_runs = refl

turn-IsSettled_example :
    IsSettled plain quiet host (after.1).session (assistant ∷ reply ∷ []) ("t1" ∷ [])
    × (check_recovery plain (after.1).session.header (after.1).session.entries ≡ ok tt)
    × (all_messages plain (after.1).session.header (after.1).session.entries
        ≡ ok (assistant ∷ reply ∷ []))
unfolding runs
turn-IsSettled_example =
    turn-IsSettled plain quiet host false false [] ("t1" ∷ []) assistant at_start (after.1) []
      (assistant ∷ reply ∷ []) (tried ∷ []) fresh-IsSettled refl turn_runs

-- The journal once the message and the call's first marker are in it.
abbrev told : Session
told = (append_message plain quiet fresh assistant).1

abbrev marked : Session
marked = (record_operation plain quiet told "t1" started).1

abbrev calling : Recovery
calling = record { calls = ("t1", "read") ∷ []; results = []; started = []; settled = [] }

abbrev running : Recovery
running = record { calls = ("t1", "read") ∷ []; results = []; started = "t1" ∷ []; settled = [] }

abbrev label : Value
label = obj (field "type" (str "label") (field "id" (str "z") (field "parentId" (str "b") end)))

unsettled-blocks_example :
    (¬ (check_recovery plain header (marked.entries ++ label ∷ []) ≡ ok tt))
    × ((ms' : List Value) → ¬ (all_messages plain header (marked.entries ++ label ∷ []) ≡ ok ms'))
unfolding runs
unsettled-blocks_example =
    unsettled-blocks plain header marked.entries (label ∷ []) (assistant ∷ []) running "t1" refl
      refl refl

scan_entries-IsConsistent_example : IsConsistent running
unfolding runs
scan_entries-IsConsistent_example =
    scan_entries-IsConsistent plain header marked.entries (assistant ∷ []) running refl

abbrev told_entry : Value
told_entry = obj (
    field "type" (str "message") (
      field "message" assistant
        (field "id" (str "a") (field "parentId" null (field "timestamp" (str "now") end)))))

append_message-Reads_example : Reads plain quiet told (assistant ∷ []) calling
unfolding runs
append_message-Reads_example =
    append_message-Reads plain quiet fresh told assistant told_entry [] new calling fresh-Reads refl
      refl

told-Reads : Reads plain quiet told (assistant ∷ []) calling
unfolding runs
told-Reads = record { ids = "a" ∷ []; valid = refl; read = refl }

record_operation-Reads_example : Reads plain quiet marked (assistant ∷ []) running
unfolding runs
record_operation-Reads_example =
    record_operation-Reads plain quiet told marked "t1" started (assistant ∷ []) calling running
      told-Reads refl refl

abbrev paused : Value
paused = obj (field "version" (num 1) (field "event" (str "paused") end))

abbrev paused_entry : Value
paused_entry = obj (
    field "type" (str "custom") (
      field "customType" (str "danso.long_task.v1") (
        field "data" paused
          (field "id" (str "a") (field "parentId" null (field "timestamp" (str "now") end))))))

record_long_task-appends_example :
    long_task_records plain quiet (record_long_task plain quiet fresh paused).1 ≡ ok (paused ∷ [])
unfolding runs
record_long_task-appends_example =
    record_long_task-appends plain quiet paused fresh (record_long_task plain quiet fresh paused).1
      paused_entry [] refl refl

abbrev read_call : ToolCall
read_call = record { id = "t1"; name = "read"; arguments = obj end }

abbrev told_run : Run Session (Unit {0})
told_run = record { session = told; world = tt; usage = default }

abbrev batched : Result (List Value × List Attempt) × Run Session (Unit {0})
batched = run_batch (journal_host plain quiet host) (read_call ∷ []) told_run

run_batch-Reads_example :
    Reads plain quiet (batched.1).session (assistant ∷ reply ∷ []) (record {
      calls = ("t1", "read") ∷ [];
      results = "t1" ∷ [];
      started = [];
      settled = "t1" ∷ [];
    })
unfolding runs
run_batch-Reads_example =
    run_batch-Reads plain quiet host (read_call ∷ []) told_run (batched.1) (assistant ∷ []) calling
      (reply ∷ []) (tried ∷ []) told-Reads
      (record { called = refl; unanswered = refl; unstarted = refl; unsettled = refl }, tt, tt) refl

abbrev request : Value
request = obj (field "role" (str "user") (field "content" (str "go") end))

abbrev summary : Value
summary = obj end

abbrev compacted : List Value
compacted = request ∷ checkpoint plain summary (receipt read_call reply ∷ []) ∷ []

checkpoint_messages-Keeps_example :
    (user : Value) × (receipts : List Value) × (compacted
      ≡ user ∷ checkpoint plain summary receipts ∷ [])
    × (find_last_user (request ∷ assistant ∷ reply ∷ []) ≡ some user)
    × (find_last_user compacted ≡ some user)
    × Fits plain receipts
    × (as_array (index (checkpoint plain summary receipts) "dansoToolReceipts") ≡ some receipts)
unfolding runs
checkpoint_messages-Keeps_example =
    checkpoint_messages-Keeps plain summary (request ∷ assistant ∷ reply ∷ []) compacted refl

abbrev tokens : TokenUsage
tokens = record { input = 10; output = 5; cache_read = 0; cache_write = 0 }

add_all-IsSummed_example : IsSummed (add_all default (("p/m", tokens) ∷ ("p/m", tokens) ∷ []))
add_all-IsSummed_example =
    add_all-IsSummed default (("p/m", tokens) ∷ ("p/m", tokens) ∷ []) (record { summed = refl })

-- The third append of a session fails.
abbrev broken : ℕ → Input
broken n = record (quiet n) { write = if n == 2 then err (message "disk full") else ok tt }

abbrev stopped : Result (Value × Attempt) × Run Session (Unit {0})
stopped = run_call (journal_host plain broken host) read_call told_run

run_call-Marked_example :
    (Reads plain broken (stopped.1).session (assistant ∷ []) calling × ((stopped.1).world ≡ tt))
    ⊎ Marked plain broken host (stopped.1).session read_call
unfolding runs
run_call-Marked_example =
    run_call-Marked plain broken host read_call (message "disk full") told_run (stopped.1)
      (assistant ∷ []) calling (record { ids = "a" ∷ []; valid = refl; read = refl })
      (record { called = refl; unanswered = refl; unstarted = refl; unsettled = refl }) refl

abbrev brief : EvidencePolicy
brief = record { keep_recent_tool_results = 1; head_bytes = 0; tail_bytes = 0 }

elide_stale_tool_results-Edits_example :
    (kept : List Value) × ((elide_stale_tool_results plain brief
        (reply ∷ assistant ∷ reply ∷ [])).evidence
      ≡ kept ++ reply ∷ [])
    × Edits plain brief (reply ∷ assistant ∷ []) kept
unfolding runs
elide_stale_tool_results-Edits_example =
    elide_stale_tool_results-Edits plain brief (reply ∷ assistant ∷ []) (reply ∷ []) (omega arith)
