-- ===== src/Runtime/Action.antt =====
-- src/runtime.rs: the effects of the agent loop. An action reads and changes the session store, the
-- outside world and the usage receipt, and stops at the first failure, as `?` does.
use danso.Prelude.{ℕ, Bool, String}
use danso.Prelude.Result.{Result, ok, err, Failure}
use danso.Json.{Value}
use danso.Contracts.{ToolCall, ToolOutcome, OperationState, Verdict}
use danso.Usage.{Usage, record_journal_append}

-- `Event` of src/contracts.rs, as far as a turn emits it.
pub data Event : Type 0 where
  tool_started : String → Event
  tool_settled : Bool → Event
  message_entry : Value → Event
  text_delta : String → Event
  message_completed : Event

-- The traits `SessionStore`, `ToolExecutor` and `EventSink`, and the clock; `elapsed` is the time that
-- the last operation took.
pub record Host (S W : Type 0) : Type 0 where
  pub append_message : Value → S → Result Value × S
  pub record_operation : String → OperationState → S → Result (Unit {0}) × S
  pub admit : ToolCall → Verdict
  pub execute : ToolCall → W → Result ToolOutcome × W
  pub emit : Event → W → Result (Unit {0}) × W
  pub millis : W → ℕ
  pub elapsed : W → ℕ
  pub describe : Failure → String

pub record Run (S W : Type 0) : Type 0 where
  pub session : S
  pub world : W
  pub usage : Usage

abbrev pub Action : Type 0 → Type 0 → Type 0 → Type 0
Action S W A = Run S W → Result A × Run S W

module _ {S W : Type 0} where
  abbrev pub and_then :
      {A B : Type 0} → Result A × Run S W → (A → Action S W B) → Result B × Run S W
  and_then (err f, s) rest = (err f, s)
  and_then (ok a, s) rest = rest a s

  infixl 5 ◌>>=◌
  abbrev pub ◌>>=◌ : {A B : Type 0} → Action S W A → (A → Action S W B) → Action S W B
  (first >>= rest) s = and_then (first s) rest

  infixl 5 ◌>>◌
  abbrev pub ◌>>◌ : {B : Type 0} → Action S W (Unit {0}) → Action S W B → Action S W B
  (first >> rest) s = and_then (first s) (λ _. rest)

  abbrev pub return : {A : Type 0} → A → Action S W A
  return a s = (ok a, s)

  -- `journal_timed`
  abbrev pub journal_timed : {A : Type 0} → Host S W → (S → Result A × S) → Action S W A
  journal_timed host append run =
      let (result, session) = append run.session in
      (
        result,
        record run {
          session = session;
          usage = record_journal_append run.usage (host.elapsed run.world);
        },
      )

  abbrev pub append_message : Host S W → Value → Action S W Value
  append_message host m = journal_timed host (host.append_message m)

  abbrev pub record_operation : Host S W → String → OperationState → Action S W (Unit {0})
  record_operation host id state = journal_timed host (host.record_operation id state)

  abbrev pub emit : Host S W → Event → Action S W (Unit {0})
  emit host event run =
      let (result, world) = host.emit event run.world in (result, record run { world = world })
