-- ===== src/LongTask/Bindings.antt =====
-- src/long_task.rs: `validate_bindings`, which ties a creation and an interruption to the entry before.
use danso.Prelude.{Bool, not, ◌&&◌, Option, none, some, List, [], ◌∷◌, String, if◌then◌else◌}
use danso.Prelude.Result.{Result, ok, ◌>>=◌, ◌>>◌, ensure, require, context}
use danso.Json.{Value, index, as_str, is_str, value_eq}

abbrev pub custom_type : String
custom_type = "danso.long_task.v1"

abbrev pub is_task_entry : Value → Bool
is_task_entry entry =
    is_str (index entry "type") "custom" && is_str (index entry "customType") custom_type

abbrev pub event_is : Value → String → Bool
event_is entry event = is_str (index (index entry "data") "event") event

abbrev check_interruption : Option Value → Value → Result (Unit {0})
check_interruption previous_entry entry = do
  previous ← context previous_entry "provider interruption has no reservation"
  ensure
      (is_task_entry previous
        && event_is previous "request_started"
        && value_eq (index (index previous "data") "sequence")
            (index (index entry "data") "sequence"))
      "provider interruption crosses a journal effect boundary"

abbrev check_creation : Option Value → Value → Result (Unit {0})
check_creation previous_entry entry = do
  user_id ←
      context (as_str (index (index entry "data") "user_entry_id"))
        "long-task creation lacks user entry"
  previous ← context previous_entry "long-task creation has no parent"
  require (is_str (index previous "id") user_id)
  require (
      is_str (index previous "type") "message"
      && is_str (index (index previous "message") "role") "user")

-- One entry, with the entry before it.
unfoldable pub check_binding : Option Value → Value → Result (Unit {0})
check_binding previous entry =
    if not (is_task_entry entry)
    then ok tt
    else ((if event_is entry "provider_interrupted"
          then check_interruption previous entry
          else ok tt)
        >> (if event_is entry "created" then check_creation previous entry else ok tt))

unfoldable pub check_bindings : Option Value → List Value → Result (Unit {0})
check_bindings previous [] = ok tt
check_bindings previous (entry ∷ entries) =
    check_binding previous entry >> check_bindings (some entry) entries

unfoldable pub validate_bindings : List Value → Result (Unit {0})
validate_bindings entries = check_bindings none entries
