-- ===== src/Contracts.antt =====
-- src/contracts.rs: tool calls, their admission and outcome; and `tool_calls` of src/runtime.rs, which
-- reads the calls of an assistant message.
use danso.Prelude.{
  Bool, not, ◌&&◌, Option, none, some, List, [], ◌∷◌, String, str_eq, if◌then◌else◌,
}
use danso.Prelude.Result.{Result, ok, err, condition, ◌>>=◌, ◌>>◌, ensure, context}
use danso.Json.{Value, get, index, as_str, as_array, is_str, is_object}

pub record ToolCall : Type 0 where
  pub id : String
  pub name : String
  pub arguments : Value

pub record ToolOutcome : Type 0 where
  pub output : String
  pub is_error : Bool

pub data OperationState : Type 0 where
  started settled : OperationState

abbrev pub state_name : OperationState → String
state_name started = "started"
state_name settled = "settled"

pub data Verdict : Type 0 where
  allow : Verdict
  deny : String → Verdict
  ask : Verdict

-- serde's derived reader of `ToolCall`; its error is `condition`.
abbrev read_call : Option String → Option String → Option Value → Result ToolCall
read_call (some id) (some name) (some arguments) =
    ok (record { id = id; name = name; arguments = arguments })
read_call _ _ _ = err condition

abbrev opt_as_str : Option Value → Option String
opt_as_str none = none
opt_as_str (some v) = as_str v

abbrev pub is_blank : String → Bool
is_blank s = str_eq s ""

unfoldable pub tool_call : Value → Result ToolCall
tool_call block = do
  call ←
      read_call (opt_as_str (get block "id")) (opt_as_str (get block "name"))
        (get block "arguments")
  ensure (not (is_blank call.id) && not (is_blank call.name) && is_object call.arguments)
      "invalid tool call"
  ok call

-- the blocks of type `toolCall`, read one after another
unfoldable pub read_calls : List Value → Result (List ToolCall)
read_calls [] = ok []
read_calls (block ∷ blocks) =
    if is_str (index block "type") "toolCall"
    then (tool_call block >>= λ call. read_calls blocks >>= λ calls. ok (call ∷ calls))
    else read_calls blocks

unfoldable pub tool_calls : Value → Result (List ToolCall)
tool_calls message = do
  blocks ← context (as_array (index message "content")) "invalid assistant content"
  read_calls blocks

abbrev text_of : Value → Option String
text_of block = if is_str (index block "type") "text" then as_str (index block "text") else none

abbrev push_text : Option String → List String → List String
push_text none texts = texts
push_text (some text) texts = text ∷ texts

unfoldable pub texts_of : List Value → List String
texts_of [] = []
texts_of (block ∷ blocks) = push_text (text_of block) (texts_of blocks)

unfoldable pub text_blocks : Value → List String
text_blocks message = elim (as_array (index message "content")) [
  | none ↦ []
  | some blocks ↦ texts_of blocks
]
