-- ===== src/LongTask/Examples.antt =====
-- Runs of the ledger at concrete inputs, and the properties at inputs that meet their hypotheses.
use danso.Prelude.{
  ◌*◌, ◌≤◌, ◌≡◌, ◌↔◌, ◌⊎◌, inr, refl, String, leb, ◌&&◌, false, none, some, List, [], ◌∷◌, ◌++◌,
  arith, eq_iff,
}
use danso.Prelude.Result.{Result, ok, err, message, recovery, budget_exhausted}
use danso.Json.{Value, index, as_str, as_u64, is_num, is_str}
use danso.LongTask.Ledger.{
  Limits, Ledger, TokenDelta, ready, completed, pending_tools, pending_provider, validate,
  from_created, has_task, tokens, integer, string, exact_keys, ensure_elapsed, add_request, total,
  resume_allowed, ensure_safe_resume, label, created_record,
}
use danso.LongTask.Apply.{
  apply, apply_created, apply_request_started, apply_request_settled, count_settled,
  apply_provider_interrupted, count_interrupted, apply_tool_batch, apply_paused, apply_completed,
  apply_event, replay, from_records, is_fingerprint,
}
use danso.LongTask.Ops.{
  SessionStore, commit, plan_begin, plan_settle, plan_tool_batch, plan_pause, started_record,
  settled_record, batch_record,
}
use danso.LongTask.Invariant.{IsWellFormed}
use danso.LongTask.Invariant.Events.{from_records-IsWellFormed}
use danso.LongTask.Recovery.{
  Coherent, Steps, begin_request, settle_request, record_tool_batch, stay, step, Steps-Coherent,
}
use danso.LongTask.Budget.{Grows, NoCreation, total_uses, total_uses-le, replay-Grows}
use danso.LongTask.Resume.{is_ok, begin_exactly, exhausted_exactly}
use danso.LongTask.Creation.{terminal_absorbs, created, created_record-replays}

-- A session store that keeps its records in a list.
append : Value → List Value → Result Value × List Value
append v s = (ok v, s ++ v ∷ [])

stored : List Value → Result (List Value)
stored s = ok s

append_lem :
    (v : Value) (s s' : List Value) (entry : Value) (rs : List Value)
    → append v s ≡ (ok entry, s')
    → stored s ≡ ok rs
    → stored s' ≡ ok (rs ++ v ∷ [])
unfolding append stored
append_lem v s s' entry rs h e = cc

list_store : SessionStore (List Value)
unfolding append stored
list_store = record {
  long_task_records = stored;
  record_long_task = append;
  record_appends = append_lem;
}

-- What a run of the model computes with.
runs : Unit {0}
unfolding append stored list_store apply apply_event apply_created from_created validate exact_keys
    integer string index as_str as_u64 is_num is_str has_task apply_request_started
    apply_request_settled count_settled tokens add_request total ensure_elapsed apply_tool_batch
    is_fingerprint replay from_records commit plan_begin resume_allowed plan_settle plan_tool_batch
    plan_pause apply_paused apply_completed apply_provider_interrupted count_interrupted
    ensure_safe_resume label created_record
runs = tt

abbrev limits : Limits
limits = record {
  wall_seconds = 300;
  stage_requests = 16;
  max_requests = 2;
  max_tokens = 100;
  repeat_limit = 3;
}

abbrev digest : String
digest = "0123456789abcdef0123456789abcdef0123456789abcdef0123456789ABCDEF"

abbrev delta : TokenDelta
delta = record { input = 10; output = 5; cache_read = 0; cache_write = 0 }

abbrev fresh : Ledger
fresh = created limits "u1"

abbrev asked : Ledger
asked = record fresh { state = pending_provider; pending_sequence = some 1; elapsed_ms = 10 }

abbrev answered : Ledger
answered = record fresh {
  state = pending_tools;
  elapsed_ms = 20;
  requests = 1;
  stage_requests = 1;
  reported_tokens = 15;
}

abbrev batched : Ledger
batched = record answered {
  state = ready;
  elapsed_ms = 30;
  last_fingerprint = some digest;
  repeat_count = 1;
}

abbrev opening : List Value
opening = created_record limits "t1" "u1" ∷ []

abbrev work : List Value
work =
    started_record fresh 1 10
    ∷ settled_record asked 1 "tools" 20 delta 15
    ∷ batch_record "tool_batch" 0 1 30 digest 1
    ∷ []

journal_runs : from_records (opening ++ work) (some "t1") ≡ ok batched
unfolding runs
journal_runs = refl

-- A second wait for a provider is refused.
double_start :
    replay asked (started_record fresh 1 12 ∷ []) none
    ≡ err (message "duplicate pending provider request")
unfolding runs
double_start = refl

fresh-IsWellFormed : IsWellFormed fresh
unfolding runs
fresh-IsWellFormed = from_records-IsWellFormed opening (some "t1") refl

from_records-IsWellFormed_example : IsWellFormed batched
from_records-IsWellFormed_example =
    from_records-IsWellFormed (opening ++ work) (some "t1") journal_runs

opening-Coherent : Coherent list_store (some "t1") fresh opening
unfolding runs
opening-Coherent = record {
  well_formed = fresh-IsWellFormed;
  records = opening;
  stored = refl;
  rebuilds = refl;
}

three-Steps : Steps list_store fresh opening batched (opening ++ work)
unfolding runs
three-Steps = step (begin_request 10 1 refl) (
    step {m = answered}
      {t = opening ++ started_record fresh 1 10 ∷ settled_record asked 1 "tools" 20 delta 15 ∷ []}
      (settle_request "tools" 20 delta refl) (step (record_tool_batch 30 digest 1 refl) stay))

Steps-Coherent_example : Coherent list_store (some "t1") batched (opening ++ work)
Steps-Coherent_example = Steps-Coherent list_store (some "t1") three-Steps opening-Coherent

work-NoCreation : NoCreation work
unfolding runs
work-NoCreation = (
  (λ e. grind (arith, eq_iff "request_started" "created")),
  (
    (λ e. grind (arith, eq_iff "request_settled" "created")),
    ((λ e. grind (arith, eq_iff "tool_batch" "created")), tt),
  ),
)

work_replays : replay fresh work (some "t1") ≡ ok batched
unfolding runs
work_replays = refl

replay-Grows_example : Grows fresh batched (total_uses work)
replay-Grows_example = replay-Grows fresh work (some "t1") work-NoCreation work_replays

total_uses-le_example : total_uses work ≤ 2
total_uses-le_example =
    total_uses-le fresh work (some "t1") limits fresh-IsWellFormed refl work-NoCreation work_replays

begin_exactly_example :
    is_ok (plan_begin fresh 10)
    ≡ (resume_allowed fresh && (leb 10 (limits.wall_seconds * 1000) && leb fresh.elapsed_ms 10))
begin_exactly_example = begin_exactly fresh 10 limits fresh-IsWellFormed refl

refusal :
    commit list_store (plan_begin asked 12) asked opening
    ≡ ((err (message "long-task is not at a resumable boundary"), asked), opening)
unfolding runs
refusal = refl

batched-IsWellFormed : IsWellFormed batched
batched-IsWellFormed = from_records-IsWellFormed (opening ++ work) (some "t1") journal_runs

exhausted_exactly_example :
    (ensure_safe_resume batched ≡ err (recovery (label ready) budget_exhausted false)) ↔ (
      (batched.interrupted_requests ≡ 3)
      ⊎ (batched.elapsed_ms ≡ limits.wall_seconds * 1000)
      ⊎ (batched.repeat_count ≡ limits.repeat_limit)
      ⊎ (limits.max_tokens ≤ batched.reported_tokens)
      ⊎ (batched.requests ≡ limits.max_requests))
exhausted_exactly_example = exhausted_exactly batched limits batched-IsWellFormed refl refl

abbrev ended : Ledger
ended = record fresh { state = completed }

ended-IsWellFormed : IsWellFormed ended
ended-IsWellFormed = ground (arith, fresh-IsWellFormed)

restarted :
    apply_event "created" ended (created_record limits "t1" "u2") (some "t1")
    ≡ ok (created limits "u2")
unfolding runs
restarted = refl

terminal_absorbs_example : ◌≡◌ {A = String} "created" "created"
terminal_absorbs_example =
    terminal_absorbs "created" ended (created_record limits "t1" "u2") (some "t1")
      ended-IsWellFormed refl restarted

limits-legal : validate limits ≡ ok tt
unfolding runs
limits-legal = refl

created_record-replays_example :
    apply batched (created_record limits "t1" "u2") (some "t1")
    ≡ err (message "duplicate long-task creation record")
created_record-replays_example =
    created_record-replays batched limits "t1" "u2" (inr refl) limits-legal refl
