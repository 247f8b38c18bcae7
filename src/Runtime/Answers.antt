-- ===== src/Runtime/Answers.antt =====
-- src/runtime.rs and src/session.rs: one call's records, start, result and settlement, against the state
-- of the journal's calls.
use danso.Prelude.{or-eq-false, ℕ, ◌≡◌, refl, false, some, List, [], ◌∷◌, String, str_eq, All}
use danso.Prelude.Result.{ok}
use danso.Json.{index, get, get_field, as_str, as_array, is_str, contains}
use danso.Json.Laws.{str_eq_same}
use danso.Contracts.{ToolCall, ToolOutcome}
use danso.Session.Recovery.{
  Recovery, lookup, remove, check_content, add_result, add_message, start, settle, operation,
}
use danso.Session.Journal.{operation_data}
use danso.Runtime.Tools.{tool_result}

-- A call that the journal has, without a marker or a result.
pub record IsReady (r : Recovery) (c : ToolCall) : Type 0 where
  pub called : lookup r.calls c.id ≡ some c.name
  pub unanswered : contains r.results c.id ≡ false
  pub unstarted : contains r.started c.id ≡ false
  pub unsettled : contains r.settled c.id ≡ false

abbrev pub begun : Recovery → ToolCall → Recovery
begun r c = record r { started = c.id ∷ r.started }

abbrev pub replied : Recovery → ToolCall → Recovery
replied r c = record r { started = c.id ∷ r.started; results = c.id ∷ r.results }

abbrev pub answered : Recovery → ToolCall → Recovery
answered r c = record r { results = c.id ∷ r.results; settled = c.id ∷ r.settled }

pub start-begun :
    (r : Recovery) (c : ToolCall)
    → IsReady r c
    → operation r (operation_data c.id "started") ≡ ok (begun r c)
unfolding operation start index get get_field as_str is_str
start-begun r c ready = rw (ready.called, ready.unanswered, ready.unsettled, ready.unstarted) refl

pub reply-replied :
    (r : Recovery) (c : ToolCall) (o : ToolOutcome) (timestamp : ℕ)
    → IsReady r c
    → add_message (begun r c) (tool_result c o timestamp) ≡ ok (replied r c)
unfolding add_message check_content add_result index get get_field as_str as_array is_str
reply-replied r c o timestamp ready = rw (ready.called, ready.unanswered, str_eq_same c.name) refl

remove-absent : (xs : List String) (id : String) → contains xs id ≡ false → remove xs id ≡ xs
unfolding contains remove
remove-absent [] id h = refl
remove-absent (x ∷ xs) id h =
    let (apart, gone) = or-eq-false (str_eq x id) (contains xs id) h in
    rw (apart, remove-absent xs id gone) refl

pub settle-answered :
    (r : Recovery) (c : ToolCall)
    → IsReady r c
    → operation (replied r c) (operation_data c.id "settled") ≡ ok (answered r c)
unfolding operation settle index get get_field as_str is_str contains remove
settle-answered r c ready =
    rw
      (
        ready.called,
        str_eq_same c.id,
        ready.unsettled,
        remove-absent r.started c.id ready.unstarted,
      )
      refl

-- The calls that are to run, each of them ready and all of them distinct.
abbrev pub AllReady : Recovery → List ToolCall → Type 0
AllReady r [] = Unit
AllReady r (c ∷ cs) =
    IsReady r c × All (λ (d : ToolCall). str_eq c.id d.id ≡ false) cs × AllReady r cs

-- the ids of the calls, put before others one after another
unfoldable pub push_ids : List String → List ToolCall → List String
push_ids ids [] = ids
push_ids ids (c ∷ cs) = push_ids (c.id ∷ ids) cs

abbrev pub answer_all : Recovery → List ToolCall → Recovery
answer_all r cs = record r { results = push_ids r.results cs; settled = push_ids r.settled cs }

answered-IsReady :
    (r : Recovery) (c d : ToolCall)
    → str_eq c.id d.id ≡ false
    → IsReady r d
    → IsReady (answered r c) d
unfolding contains
answered-IsReady r c d apart ready = record {
  called = ready.called;
  unanswered = rw apart ready.unanswered;
  unstarted = ready.unstarted;
  unsettled = rw apart ready.unsettled;
}

pub answered-AllReady :
    (r : Recovery) (c : ToolCall) (cs : List ToolCall)
    → All (λ (d : ToolCall). str_eq c.id d.id ≡ false) cs
    → AllReady r cs
    → AllReady (answered r c) cs
answered-AllReady r c [] apart ready = tt
answered-AllReady r c (d ∷ ds) (a, apart) (this, distinct, those) =
    (answered-IsReady r c d a this, distinct, answered-AllReady r c ds apart those)
