-- ===== src/LongTask/Creation.antt =====
-- src/long_task.rs: records after a task has ended, and the creation of a new one.
use danso.Prelude.{
  ◌≡◌, ◌⊎◌, not, if◌then◌else◌, ◌&&◌, String, true, false, Option, some, arith, str_eq, eq_iff,
  is_some,
}
use danso.Prelude.Result.{message, ok, err}
use danso.Json.{Value, index, as_str, as_u64, is_num, is_str}
use danso.LongTask.Ledger.{
  Limits, ready, Ledger, default, validate, from_created, has_task, integer, string, exact_keys,
  created_record,
}
use danso.LongTask.Apply.{
  apply, apply_created, apply_request_started, apply_request_settled, apply_provider_interrupted,
  apply_request_failed, apply_stage_checkpoint, apply_tool_batch, apply_paused, apply_failed,
  apply_completed, apply_event, is_terminal,
}
use danso.LongTask.Invariant.{IsWellFormed}
use danso.LongTask.Cases.{apply_event_cases}

request_started-not-terminal :
    (l : Ledger) (v : Value) {l' : Ledger}
    → IsWellFormed l
    → apply_request_started l v ≡ ok l'
    → is_terminal l.state ≡ false
unfolding apply_request_started
request_started-not-terminal l v w h = ground arith

request_settled-not-terminal :
    (l : Ledger) (v : Value) {l' : Ledger}
    → IsWellFormed l
    → apply_request_settled l v ≡ ok l'
    → is_terminal l.state ≡ false
unfolding apply_request_settled
request_settled-not-terminal l v w h = ground arith

provider_interrupted-not-terminal :
    (l : Ledger) (v : Value) {l' : Ledger}
    → IsWellFormed l
    → apply_provider_interrupted l v ≡ ok l'
    → is_terminal l.state ≡ false
unfolding apply_provider_interrupted
provider_interrupted-not-terminal l v w h = ground arith

request_failed-not-terminal :
    (l : Ledger) (v : Value) {l' : Ledger}
    → IsWellFormed l
    → apply_request_failed l v ≡ ok l'
    → is_terminal l.state ≡ false
unfolding apply_request_failed
request_failed-not-terminal l v w h = ground arith

stage_checkpoint-not-terminal :
    (l : Ledger) (v : Value) {l' : Ledger}
    → IsWellFormed l
    → apply_stage_checkpoint l v ≡ ok l'
    → is_terminal l.state ≡ false
unfolding apply_stage_checkpoint
stage_checkpoint-not-terminal l v w h = ground arith

tool_batch-not-terminal :
    (l : Ledger) (v : Value) {l' : Ledger}
    → IsWellFormed l
    → apply_tool_batch l v ≡ ok l'
    → is_terminal l.state ≡ false
unfolding apply_tool_batch
tool_batch-not-terminal l v w h = ground arith

paused-not-terminal :
    (l : Ledger) (v : Value) {l' : Ledger}
    → IsWellFormed l
    → apply_paused l v ≡ ok l'
    → is_terminal l.state ≡ false
unfolding apply_paused
paused-not-terminal l v w h = ground arith

failed-not-terminal :
    (l : Ledger) (v : Value) {l' : Ledger}
    → IsWellFormed l
    → apply_failed l v ≡ ok l'
    → is_terminal l.state ≡ false
unfolding apply_failed
failed-not-terminal l v w h = ground arith

completed-not-terminal :
    (l : Ledger) (v : Value) {l' : Ledger}
    → IsWellFormed l
    → apply_completed l v ≡ ok l'
    → is_terminal l.state ≡ false
unfolding apply_completed
completed-not-terminal l v w h = ground arith

-- Only a creation is accepted after a task has completed or failed.
pub terminal_absorbs :
    (event : String) (l : Ledger) (v : Value) (id : Option String) {l' : Ledger}
    → IsWellFormed l
    → is_terminal l.state ≡ true
    → apply_event event l v id ≡ ok l'
    → event ≡ "created"
terminal_absorbs event l v id w t =
    apply_event_cases event l v id _ (λ e _. e)
      (λ _ h. ended (request_started-not-terminal l v w h))
      (λ _ h. ended (request_settled-not-terminal l v w h))
      (λ _ h. ended (provider_interrupted-not-terminal l v w h))
      (λ _ h. ended (request_failed-not-terminal l v w h))
      (λ _ h. ended (stage_checkpoint-not-terminal l v w h))
      (λ _ h. ended (tool_batch-not-terminal l v w h)) (λ _ h. ended (paused-not-terminal l v w h))
      (λ _ h. ended (failed-not-terminal l v w h)) (λ _ h. ended (completed-not-terminal l v w h))
  where
    ended : {P : Type 0} → is_terminal l.state ≡ false → P
    ended f = absurd (cc)

abbrev pub created : Limits → String → Ledger
created m user_entry_id = record default {
  limits = some m;
  user_entry_id = some user_entry_id;
  state = ready;
}

-- The record of `Limits::json` starts a task afresh where none is unfinished, and is refused while
-- one is.
pub created_record-replays :
    (l : Ledger) (m : Limits) (id user_entry_id : String)
    → (l ≡ default) ⊎ (is_some l.limits ≡ true)
    → validate m ≡ ok tt
    → str_eq user_entry_id "" ≡ false
    → apply l (created_record m id user_entry_id) (some id) ≡ (
        if is_some l.limits && not (is_terminal l.state)
        then err (message "duplicate long-task creation record")
        else ok (created m user_entry_id))
unfolding apply apply_event apply_created created_record from_created exact_keys integer string
    index as_str as_u64 is_num is_str has_task
created_record-replays l m id user_entry_id fresh legal named = ground (arith, eq_iff id id)
