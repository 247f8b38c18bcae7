-- ===== src/Session/Scan.antt =====
-- src/session.rs: `scan_entries`, which reads a whole journal; `check_recovery` and `messages` rest on
-- it. `entries` is the header and the entries after it.
use danso.Prelude.{
  Bool, true, false, ◌&&◌, ◌||◌, Option, none, some, List, [], ◌∷◌, ◌++◌, String, if◌then◌else◌,
}
use danso.Prelude.Result.{Result, ok, err, Failure, message, ◌>>=◌, ◌>>◌, ensure, context}
use danso.Json.{Value, null, index, as_str, is_str, is_num, value_eq}
use danso.LongTask.Ledger.{State, pending_tools, final_pending, Ledger, recovery_error}
use danso.LongTask.Apply.{from_records}
use danso.LongTask.Bindings.{is_task_entry, validate_bindings}
use danso.Compaction.{Printer, validate_summary, checkpoint_messages, max_summary_bytes}
use danso.Session.Recovery.{Recovery, new, add_message, operation, complete}

-- The state of the loop.
pub record Scan : Type 0 where
  pub prev : Value
  pub messages : List Value
  -- the entry id of the latest user message
  pub latest_user : Option Value
  pub recovery : Recovery

abbrev pub start_scan : Scan
start_scan = record { prev = null; messages = []; latest_user = none; recovery = new }

abbrev pub is_custom : Value → String → Bool
is_custom e kind = is_str (index e "type") "custom" && is_str (index e "customType") kind

abbrev pub operation_type : String
operation_type = "danso.operation.v1"

abbrev pub compaction_type : String
compaction_type = "danso.compaction.v1"

abbrev pub is_metadata : Value → Bool
is_metadata kind =
    is_str kind "custom"
    || is_str kind "model_change"
    || is_str kind "thinking_level_change"
    || is_str kind "session_info"
    || is_str kind "label"

unfoldable pub scan_message : Scan → Value → Value → Result Scan
scan_message s e m = do
  recovery ← add_message s.recovery m
  ok (record s {
    messages = s.messages ++ (m ∷ []);
    latest_user = if is_str (index m "role") "user" then some (index e "id") else s.latest_user;
    recovery = recovery;
  })

unfoldable pub scan_operation : Scan → Value → Result Scan
scan_operation s data_value = do
  recovery ← operation s.recovery data_value
  ok (record s { recovery = recovery })

-- the entries of the long-task ledger, without their envelopes
unfoldable pub task_records : List Value → List Value
task_records [] = []
task_records (e ∷ es) =
    let rest = task_records es in if is_task_entry e then index e "data" ∷ rest else rest

-- the checks after the loop, on all entries
unfoldable pub finish_scan : Value → List Value → Scan → Result (List Value × Recovery)
finish_scan header entries s = do
  validate_bindings (header ∷ entries)
  ledger ← from_records (task_records (header ∷ entries)) (as_str (index header "id"))
  ok (s.messages, s.recovery)

abbrev pub is_unsettled : State → Bool
is_unsettled pending_tools = true
is_unsettled final_pending = true
is_unsettled _ = false

abbrev pub advise : Failure → Ledger → Result (Unit {0})
advise error ledger = if is_unsettled ledger.state then err (recovery_error ledger) else err error

abbrev pub with_advice : Value → List Value → Result (Unit {0}) → Result (Unit {0})
with_advice header entries (ok done) = ok done
with_advice header entries (err error) =
    from_records (task_records (header ∷ entries)) (as_str (index header "id")) >>= λ ledger.
    advise error ledger

abbrev pub boundary : Scan → Value → Value → Bool
boundary s data_value user_id =
    is_num (index data_value "version") 1
    && value_eq (index data_value "throughId") s.prev
    && value_eq (index data_value "userEntryId") user_id

module _ (printer : Printer) where
  unfoldable pub scan_compaction : Scan → Value → Result Scan
  scan_compaction s data_value = do
    complete s.recovery
    user_id ← context s.latest_user "compaction lacks user request"
    ensure (boundary s data_value user_id) "invalid compaction boundary"
    validate_summary printer (index data_value "summary") max_summary_bytes
    messages ← checkpoint_messages printer (index data_value "summary") s.messages
    ok (record s { messages = messages })

  unfoldable pub scan_kind : Scan → Value → Result Scan
  scan_kind s e =
      if is_str (index e "type") "message"
      then scan_message s e (index e "message")
      else if is_custom e operation_type
      then scan_operation s (index e "data")
      else if is_custom e compaction_type
      then scan_compaction s (index e "data")
      else if is_metadata (index e "type")
      then ok s
      else err (message "unsupported Pi context entry; import-only in v0")

  unfoldable pub scan_entry : Scan → Value → Result Scan
  scan_entry s e = do
    ensure (value_eq (index e "parentId") s.prev) "branched Pi session is import-only in v0"
    next ← scan_kind s e
    ok (record next { prev = index e "id" })

  unfoldable pub scan_from : Scan → List Value → Result Scan
  scan_from s [] = ok s
  scan_from s (e ∷ es) = scan_entry s e >>= λ next. scan_from next es

  unfoldable pub scan_entries : Value → List Value → Result (List Value × Recovery)
  scan_entries header entries = scan_from start_scan entries >>= λ s. finish_scan header entries s

  unfoldable pub all_messages : Value → List Value → Result (List Value)
  all_messages header entries = do found ← scan_entries header entries; complete found.1; ok found.0

  unfoldable pub check_recovery : Value → List Value → Result (Unit {0})
  check_recovery header entries = do
    found ← scan_entries header entries
    with_advice header entries (complete found.1)
