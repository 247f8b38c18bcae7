-- ===== src/Session/Recovery.antt =====
-- src/session.rs: `Recovery`, which follows the tool calls of a journal. A set is the list of its
-- members, and the map of the calls the list of its pairs.
use danso.Prelude.{
  Bool, true, false, not, ◌&&◌, ◌||◌, Option, none, some, List, [], ◌∷◌, String, str_eq, all,
  is_some, if◌then◌else◌,
}
use danso.Prelude.Result.{Result, ok, err, message, ◌>>=◌, ◌>>◌, ensure, context}
use danso.Json.{Value, index, as_str, as_array, is_str, is_string, contains}
use danso.Contracts.{ToolCall, tool_calls}

pub record Recovery : Type 0 where
  pub calls : List (String × String)
  pub results : List String
  pub started : List String
  pub settled : List String

abbrev pub new : Recovery
new = record { calls = []; results = []; started = []; settled = [] }

unfoldable pub lookup : List (String × String) → String → Option String
lookup [] id = none
lookup ((key, name) ∷ calls) id = if str_eq key id then some name else lookup calls id

unfoldable pub remove : List String → String → List String
remove [] id = []
remove (x ∷ xs) id = let rest = remove xs id in if str_eq x id then rest else x ∷ rest

abbrev pub is_empty : List String → Bool
is_empty [] = true
is_empty (x ∷ xs) = false

abbrev is_text_block : Value → Bool
is_text_block b = is_str (index b "type") "text" && is_string (index b "text")

abbrev blocks_are : (Value → Bool) → Option (List Value) → Bool
blocks_are test none = false
blocks_are test (some blocks) = all test blocks

abbrev pub is_text_content : Value → Bool
is_text_content content = is_string content || blocks_are is_text_block (as_array content)

abbrev pub is_assistant_content : Value → Bool
is_assistant_content content =
    blocks_are (λ b. is_str (index b "type") "toolCall" || is_text_block b) (as_array content)

unfoldable pub check_content : Value → Result (Unit {0})
check_content m =
    if is_str (index m "role") "user" || is_str (index m "role") "toolResult"
    then ensure (is_text_content (index m "content")) "unsupported text content in journal"
    else if is_str (index m "role") "assistant"
    then ensure (is_assistant_content (index m "content"))
        "unsupported assistant content in journal"
    else err (message "unsupported message role in journal")

unfoldable pub add_calls : Recovery → List ToolCall → Result Recovery
add_calls r [] = ok r
add_calls r (c ∷ cs) =
    let rest = add_calls (record r { calls = (c.id, c.name) ∷ r.calls }) cs in
    if is_some (lookup r.calls c.id) then err (message "duplicate tool call id") else rest

-- the result's name, where it has one, is the call's
abbrev pub name_matches : Option String → Option String → Bool
name_matches called none = true
name_matches none (some name) = false
name_matches (some called) (some name) = str_eq called name

unfoldable pub add_result : Recovery → Value → Result Recovery
add_result r m = do
  id ← context (as_str (index m "toolCallId")) "invalid result id"
  ensure (is_some (lookup r.calls id) && not (contains r.results id))
      "orphan or duplicate tool result"
  ensure (name_matches (lookup r.calls id) (as_str (index m "toolName")))
      "tool result name mismatch"
  ok (record r { results = id ∷ r.results })

-- `Recovery::message`
unfoldable pub add_message : Recovery → Value → Result Recovery
add_message r m =
    check_content m
    >> (if is_str (index m "role") "assistant"
        then (tool_calls m >>= λ calls. add_calls r calls)
        else if is_str (index m "role") "toolResult"
        then add_result r m
        else ok r)

unfoldable pub start : Recovery → String → Result Recovery
start r id =
    if not (contains r.results id) && not (contains r.settled id) && not (contains r.started id)
    then ok (record r { started = id ∷ r.started })
    else err (message "invalid operation start")

unfoldable pub settle : Recovery → String → Result Recovery
settle r id =
    if contains r.results id && contains r.started id && not (contains r.settled id)
    then ok (record r { started = remove r.started id; settled = id ∷ r.settled })
    else err (message "invalid operation settlement")

abbrev pub change_state : Recovery → String → Value → Result Recovery
change_state r id state =
    if is_str state "started"
    then start r id
    else if is_str state "settled"
    then settle r id
    else err (message "invalid operation state")

-- `Recovery::operation`
unfoldable pub operation : Recovery → Value → Result Recovery
operation r d = do
  id ← context (as_str (index d "toolCallId")) "invalid operation id"
  ensure (is_some (lookup r.calls id)) "orphan operation record"
  change_state r id (index d "state")

abbrev pub has_results : List String → List (String × String) → Bool
has_results results [] = true
has_results results ((id, name) ∷ calls) = contains results id && has_results results calls

unfoldable pub complete : Recovery → Result (Unit {0})
complete r =
    ensure (is_empty r.started && has_results r.results r.calls)
      "unresolved tool operation; manual recovery required (never automatically replayed)"
