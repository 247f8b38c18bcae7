-- ===== src/Session/Journal.antt =====
-- src/session.rs: `Session` as a `SessionStore`, whose operations append to the journal. What an append
-- takes from outside (the random ids it draws, the clock, the file) is its `Input`.
use danso.Prelude.{
  ℕ, suc, ◌+◌, ◌*◌, leb, not, ◌&&◌, Bool, true, false, Option, none, some, List, [], ◌∷◌, ◌++◌,
  String, any, map, if◌then◌else◌,
}
use Prim.Native.String.{len}
use danso.Prelude.Result.{Result, ok, err, message as failure, ◌>>=◌, ◌>>◌, ensure, context}
use danso.Json.{
  Value, null, num, str, obj, end, field, get, index, as_str, is_str, is_num, is_string, is_null,
  insert, contains,
}
use danso.Contracts.{OperationState, state_name}
use danso.Compaction.{Printer, validate_summary, max_summary_bytes}
use danso.LongTask.Bindings.{custom_type}
use danso.Session.Recovery.{Recovery}
use danso.Session.Scan.{
  operation_type, compaction_type, task_records, scan_entries, all_messages, check_recovery,
}

-- The journal in memory: its header and the entries after it, and how many appends there were.
pub record Session : Type 0 where
  pub header : Value
  pub entries : List Value
  pub appends : ℕ

-- `draws` are the ids that are drawn one after another, `file_len` the file's length from its
-- metadata, and `write` the result of `write_all` and `sync_all`.
pub record Input : Type 0 where
  pub draws : List String
  pub timestamp : String
  pub file_len : Result ℕ
  pub write : Result (Unit {0})

abbrev pub journal_budget : ℕ
journal_budget = 16 * 1024 * 1024

abbrev pub has_parent : Option Value → Bool
has_parent none = false
has_parent (some v) = true

abbrev pub check_parent : Value → List String → Result (Unit {0})
check_parent (str parent) ids = ensure (contains ids parent) "missing parent entry"
check_parent parent ids = ensure (is_null parent) "invalid parentId"

-- One round of the loop of `validate`; `ids` are the ids before the entry.
unfoldable pub validate_entry : List String → Value → Result (List String)
validate_entry ids e = do
  ensure (not (is_str (index e "type") "session")) "duplicate session header"
  id ← context (as_str (index e "id")) "missing entry id"
  ensure (not (contains ids id)) "duplicate entry id"
  ensure (has_parent (get e "parentId")) "missing parentId"
  check_parent (index e "parentId") ids
  ok (id ∷ ids)

unfoldable pub validate_entries : List String → List Value → Result (List String)
validate_entries ids [] = ok ids
validate_entries ids (e ∷ es) = validate_entry ids e >>= λ next. validate_entries next es

abbrev pub validate_header : Value → Result (Unit {0})
validate_header h =
    ensure (is_str (index h "type") "session" && is_num (index h "version") 3)
      "expected Pi session v3"
    >> ensure (is_string (index h "id") && is_string (index h "timestamp")) "invalid session header"

-- `Session::validate`, which returns the ids it has seen
unfoldable pub validate : Session → Result (List String)
validate s = validate_header s.header >> validate_entries [] s.entries

-- whether some entry, the header among them, has the id
abbrev pub is_taken : List Value → String → Bool
is_taken entries id = any (λ e. is_str (index e "id") id) entries

-- the loop of `append` that draws an id; `none` where all of these draws are taken, and the code draws on
unfoldable pub fresh_id : List Value → List String → Option String
fresh_id entries [] = none
fresh_id entries (id ∷ ids) =
    let rest = fresh_id entries ids in if is_taken entries id then rest else some id

-- the id of the last entry after the header
unfoldable pub last_id : Value → List Value → Value
last_id prev [] = prev
last_id prev (e ∷ es) = last_id (index e "id") es

abbrev pub user_entry : Value → Option Value
user_entry e =
    if is_str (index e "type") "message" && is_str (index (index e "message") "role") "user"
    then some (index e "id")
    else none

-- `entries.iter().rev().find(...)`
unfoldable pub last_user_id : List Value → Option Value
last_user_id [] = none
last_user_id (e ∷ es) =
    let rest = last_user_id es in elim rest [ none ↦ user_entry e | some id ↦ some id ]

-- `entries.last()["id"]`, the header being an entry
unfoldable pub through_id : Session → Value
through_id s = last_id (index s.header "id") s.entries

unfoldable pub stamp : Session → Value → String → String → Value
stamp s entry id timestamp =
    insert (insert (insert entry "id" (str id)) "parentId" (last_id null s.entries)) "timestamp"
      (str timestamp)

abbrev pub message_entry : Value → Value
message_entry m = obj (field "type" (str "message") (field "message" m end))

abbrev pub custom_entry : String → Value → Value
custom_entry kind data_value =
    obj (field "type" (str "custom") (field "customType" (str kind) (field "data" data_value end)))

abbrev pub operation_data : String → String → Value
operation_data id state = obj (field "toolCallId" (str id) (field "state" (str state) end))

abbrev pub compaction_data : Value → Value → Value → Value
compaction_data through user_id summary = obj (
    field "version" (num 1)
      (field "throughId" through (field "userEntryId" user_id (field "summary" summary end))))

abbrev fits : ℕ → ℕ → Result (Unit {0})
fits used size =
    ensure (leb (used + size) journal_budget)
      "session reached 16 MiB journal budget; original records retained"

abbrev pub without_entry : Result Value × Session → Result (Unit {0}) × Session
without_entry (err e, s) = (err e, s)
without_entry (ok entry, s) = (ok tt, s)

abbrev pub pushed : Session → Value → Result (Unit {0}) → Result Value × Session
pushed s entry (err e) = (err e, record s { appends = suc s.appends })
pushed s entry (ok done) =
    (ok entry, record s { entries = s.entries ++ (entry ∷ []); appends = suc s.appends })

-- `world` gives each append its input.
module _ (printer : Printer) (world : ℕ → Input) where
  abbrev pub try_write : Input → Value → Result (Unit {0})
  try_write i entry =
      i.file_len >>= λ used. fits used (suc (len (printer.to_string entry))) >> i.write

  unfoldable pub persist : Session → Value → Result Value × Session
  persist s entry = pushed s entry (try_write (world s.appends) entry)

  abbrev pub append_as : Session → Value → Option String → Result Value × Session
  append_as s entry none =
      (err (failure "no unused id was drawn"), record s { appends = suc s.appends })
  append_as s entry (some id) = persist s (stamp s entry id (world s.appends).timestamp)

  -- `Session::append`
  unfoldable pub append : Session → Value → Result Value × Session
  append s entry = append_as s entry (fresh_id (s.header ∷ s.entries) (world s.appends).draws)

  -- `Session::message`
  unfoldable pub append_message : Session → Value → Result Value × Session
  append_message s m = append s (message_entry m)

  -- `Session::operation`
  unfoldable pub record_operation : Session → String → OperationState → Result (Unit {0}) × Session
  record_operation s id state =
      without_entry (append s (custom_entry operation_type (operation_data id (state_name state))))

  unfoldable pub record_long_task : Session → Value → Result Value × Session
  record_long_task s data_value = append s (custom_entry custom_type data_value)

  unfoldable pub scan : Session → Result (List Value × Recovery)
  scan s = scan_entries printer s.header s.entries

  unfoldable pub long_task_records : Session → Result (List Value)
  long_task_records s = ok (task_records (s.header ∷ s.entries))

  unfoldable pub tool_call_ids : Session → Result (List String)
  tool_call_ids s = scan s >>= λ found. ok (map (λ call. call.0) found.1.calls)

  -- what `record_compaction` appends, where its checks pass
  unfoldable pub plan_compaction : Session → Value → Result Value
  plan_compaction s summary = do
    check_recovery printer s.header s.entries
    messages ← all_messages printer s.header s.entries
    validate_summary printer summary max_summary_bytes
    user_id ← context (last_user_id (s.header ∷ s.entries)) "compaction requires a user request"
    ok (custom_entry compaction_type (compaction_data (through_id s) user_id summary))

  abbrev append_plan : Session → Result Value → Result Value × Session
  append_plan s (err e) = (err e, s)
  append_plan s (ok entry) = append s entry

  unfoldable pub record_compaction : Session → Value → Result Value × Session
  record_compaction s summary = append_plan s (plan_compaction s summary)
