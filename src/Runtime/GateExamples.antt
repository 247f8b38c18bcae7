-- ===== src/Runtime/GateExamples.antt =====
-- A request of a long task on a session journal, and the properties of the gate at concrete inputs.
use danso.Prelude.{ℕ, ◌≡◌, refl, Bool, true, false, some, List, [], ◌∷◌, String, ◌+◌, str_eq}
use danso.Prelude.Result.{Result, ok}
use danso.Json.{
  Value, num, str, obj, end, field, index, get, get_field, set_field, as_str, as_u64, is_str,
  is_num, names_within, count, contains,
}
use danso.Usage.{TokenUsage, default, snapshot, add, added}
use danso.Usage.Totals.{add_all}
use danso.Compaction.{Printer}
use danso.LongTask.Ledger.{
  Limits, Ledger, TokenDelta, validate, from_created, has_task, tokens, integer, string, exact_keys,
  ensure_elapsed, add_request, total, resume_allowed, created_record,
}
use danso.LongTask.Apply.{
  apply, apply_created, apply_request_started, apply_request_settled, count_settled, apply_paused,
  apply_event, replay, from_records, is_fingerprint,
}
use danso.LongTask.Ops.{commit, plan_begin, plan_settle, plan_pause, next_sequence}
use danso.LongTask.Invariant.{IsWellFormed}
use danso.LongTask.Invariant.Events.{from_records-IsWellFormed}
use danso.LongTask.Recovery.{Coherent}
use danso.LongTask.Creation.{created}
use danso.Session.Scan.{task_records}
use danso.Session.Journal.{
  Session, Input, fresh_id, last_id, stamp, persist, append, append_message, message_entry,
  record_long_task, long_task_records,
}
use danso.Session.Store.{journal_store}
use danso.Runtime.Gate.{
  action, Answer, token_delta, take_answer, complete_with, settle_pending_action,
  pause_if_requested,
}
use danso.Runtime.Pauses.{Pauses, pause_if_requested-Pauses}
use danso.Runtime.Deltas.{token_delta-grows}
use danso.Runtime.Counted.{Counts}
use danso.Runtime.Gated.{Holds, action-Coherent}

abbrev plain : Printer
plain = record { to_string = λ v. ""; is_whitespace = λ s. str_eq s "" }

abbrev quiet : ℕ → Input
quiet n = record {
  draws = "a" ∷ "b" ∷ "c" ∷ "d" ∷ "e" ∷ "f" ∷ [];
  timestamp = "now";
  file_len = ok 0;
  write = ok tt;
}

abbrev header : Value
header = obj (field "type" (str "session") (field "version" (num 3) (field "id" (str "s") end)))

-- What a run of the model computes with.
runs : Unit {0}
unfolding index get get_field set_field as_str as_u64 is_str is_num names_within count contains add
    added validate from_created has_task tokens integer string exact_keys ensure_elapsed add_request
    total resume_allowed created_record apply apply_created apply_request_started
    apply_request_settled count_settled apply_paused apply_event replay from_records is_fingerprint
    commit plan_begin plan_settle plan_pause next_sequence task_records fresh_id last_id stamp
    persist append append_message record_long_task long_task_records token_delta take_answer
    complete_with settle_pending_action pause_if_requested
runs = tt

abbrev limits : Limits
limits = record {
  wall_seconds = 300;
  stage_requests = 16;
  max_requests = 2;
  max_tokens = 100;
  repeat_limit = 3;
}

abbrev fresh : Ledger
fresh = created limits "a"

abbrev asked : Session
asked =
    (append_message plain quiet (record { header = header; entries = []; appends = 0 })
      (obj (field "role" (str "user") (field "content" (str "go") end)))).1

abbrev opened : Session
opened = (record_long_task plain quiet asked (created_record limits "s" "a")).1

fresh-IsWellFormed : IsWellFormed fresh
unfolding runs
fresh-IsWellFormed = from_records-IsWellFormed (created_record limits "s" "a" ∷ []) (some "s") refl

opened-Coherent : Coherent (journal_store plain quiet) (some "s") fresh opened
unfolding runs
opened-Coherent = record {
  well_formed = fresh-IsWellFormed;
  records = created_record limits "s" "a" ∷ [];
  stored = refl;
  rebuilds = refl;
}

abbrev response : Value
response = obj (field "role" (str "assistant") end)

abbrev used : TokenUsage
used = record { input = 10; output = 5; cache_read = 0; cache_write = 0 }

abbrev answer : Answer
answer = record {
  response = ok response;
  after = snapshot (add_all default (("p/m", used) ∷ []));
  elapsed_ms = 20;
  is_timeout = false;
}

abbrev replied : (Result Value × Ledger) × Session
replied = complete_with (journal_store plain quiet) action 10 (snapshot default) answer fresh opened

-- The answer's message in the journal, and then the settlement.
abbrev journaled : Result Value × Session
journaled = append_message plain quiet (replied.1) response

abbrev settled : (Result (Unit {0}) × Ledger) × Session
settled = settle_pending_action (journal_store plain quiet) "final" ((replied.0).1) (journaled.1)

abbrev answer_entry : Value
answer_entry = stamp (replied.1) (message_entry response) "d" "now"

action-Coherent_example :
    Coherent (journal_store plain quiet) (some "s") ((replied.0).1) (replied.1)
    × Coherent (journal_store plain quiet) (some "s") ((replied.0).1) (journaled.1)
    × Coherent (journal_store plain quiet) (some "s") ((settled.0).1) (settled.1)
    × ((holds : Holds
          (journal_store plain quiet)
          (snapshot default)
          answer
          response
          fresh
          ((replied.0).1))
        × Counts ((replied.0).1) ((settled.0).1) answer.elapsed_ms holds.held.tokens)
unfolding runs
action-Coherent_example =
    action-Coherent plain quiet (some "s") 10 (snapshot default) answer "final" fresh
      ((replied.0).1) ((settled.0).1) opened (replied.1) (journaled.1) (settled.1) response response
      answer_entry opened-Coherent refl refl refl

abbrev stopped : (Result Bool × Ledger) × Session
stopped = pause_if_requested (journal_store plain quiet) true fresh opened

pause_if_requested-Pauses_example :
    Pauses (journal_store plain quiet) (some "s") true fresh ((stopped.0).1) opened (stopped.1) true
unfolding runs
pause_if_requested-Pauses_example =
    pause_if_requested-Pauses (journal_store plain quiet) (some "s") true fresh ((stopped.0).1)
      opened (stopped.1) true opened-Coherent refl

abbrev requests : List (String × TokenUsage)
requests = ("p/m", used) ∷ ("p/m", used) ∷ []

token_delta-grows_example :
    (delta : TokenDelta) × (token_delta (snapshot default) (snapshot (add_all default requests))
      ≡ ok delta)
    × (0 + delta.input ≡ (add_all default requests).input)
    × (0 + delta.output ≡ (add_all default requests).output)
    × (0 + delta.cache_read ≡ (add_all default requests).cache_read)
    × (0 + delta.cache_write ≡ (add_all default requests).cache_write)
token_delta-grows_example = token_delta-grows default requests
