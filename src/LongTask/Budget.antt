-- ===== src/LongTask/Budget.antt =====
-- src/long_task.rs: the counters of a task from record to record.
use danso.Prelude.{
  ℕ, ◌+◌, ◌≤◌, ◌≡◌, ◌≢◌, ◌∙◌, Option-cases, inl, inr, if◌then◌else◌, String, Option, none, some,
  List, [], ◌∷◌, arith, str_eq,
}
use danso.Prelude.Result.{ok, >>=-eq-ok}
use danso.Json.{Value, index, as_str}
use danso.LongTask.Ledger.{Limits, Ledger, ensure_elapsed, TokenDelta}
use danso.LongTask.Apply.{
  count_settled, count_interrupted, count_failed, apply, apply_request_started,
  apply_request_settled, apply_provider_interrupted, apply_request_failed, apply_stage_checkpoint,
  apply_tool_batch, apply_paused, apply_failed, apply_completed, apply_event, replay,
}
use danso.LongTask.Invariant.{IsWellFormed, add_request-IsCounted}
use danso.LongTask.Cases.{apply_event_cases}
use danso.LongTask.Invariant.Events.{replay-IsWellFormed}
use danso.LongTask.Invariant.Counts.{
  request_settled-count, provider_interrupted-count, request_failed-count,
}

-- The events that use up a request.
abbrev pub uses : String → ℕ
uses event =
    if str_eq event "request_settled"
    then 1
    else if str_eq event "provider_interrupted"
    then 1
    else if str_eq event "request_failed"
    then 1
    else 0

abbrev pub counts_request : Option String → ℕ
counts_request none = 0
counts_request (some event) = uses event

-- The same task, with counters that have not fallen and `n` more requests used.
pub record Grows (l l' : Ledger) (n : ℕ) : Type 0 where
  pub same_limits : l'.limits ≡ l.limits
  pub requests : l'.requests ≡ l.requests + n
  pub elapsed : l.elapsed_ms ≤ l'.elapsed_ms
  pub tokens : l.reported_tokens ≤ l'.reported_tokens
  pub interrupted : l.interrupted_requests ≤ l'.interrupted_requests

request_started-Grows :
    (l : Ledger) (v : Value) {l' : Ledger} → apply_request_started l v ≡ ok l' → Grows l l' 0
unfolding apply_request_started ensure_elapsed
request_started-Grows l v h = ground arith

stage_checkpoint-Grows :
    (l : Ledger) (v : Value) {l' : Ledger} → apply_stage_checkpoint l v ≡ ok l' → Grows l l' 0
unfolding apply_stage_checkpoint ensure_elapsed
stage_checkpoint-Grows l v h = ground arith

tool_batch-Grows :
    (l : Ledger) (v : Value) {l' : Ledger} → apply_tool_batch l v ≡ ok l' → Grows l l' 0
unfolding apply_tool_batch ensure_elapsed
tool_batch-Grows l v h = ground arith

paused-Grows : (l : Ledger) (v : Value) {l' : Ledger} → apply_paused l v ≡ ok l' → Grows l l' 0
unfolding apply_paused ensure_elapsed
paused-Grows l v h = ground arith

failed-Grows : (l : Ledger) (v : Value) {l' : Ledger} → apply_failed l v ≡ ok l' → Grows l l' 0
unfolding apply_failed ensure_elapsed
failed-Grows l v h = ground arith

completed-Grows :
    (l : Ledger) (v : Value) {l' : Ledger} → apply_completed l v ≡ ok l' → Grows l l' 0
unfolding apply_completed ensure_elapsed
completed-Grows l v h = ground arith

count_settled-Grows :
    (l : Ledger) (v : Value) (elapsed : ℕ) (delta : TokenDelta) (m : Limits) {l' : Ledger}
    → l.elapsed_ms ≤ elapsed
    → count_settled l v elapsed delta m ≡ ok l'
    → Grows l l' 1
unfolding count_settled
count_settled-Grows l v elapsed delta m b h = grind (arith, add_request-IsCounted)

count_interrupted-Grows :
    (l : Ledger) (elapsed : ℕ) (reason : String) (m : Limits) {l' : Ledger}
    → l.elapsed_ms ≤ elapsed
    → count_interrupted l elapsed reason m ≡ ok l'
    → Grows l l' 1
unfolding count_interrupted
count_interrupted-Grows l elapsed reason m b h = grind (arith, add_request-IsCounted)

count_failed-Grows :
    (l : Ledger) (category : String) (elapsed : ℕ) (delta : TokenDelta) (m : Limits) {l' : Ledger}
    → l.elapsed_ms ≤ elapsed
    → count_failed l category elapsed delta m ≡ ok l'
    → Grows l l' 1
unfolding count_failed
count_failed-Grows l category elapsed delta m b h = grind (arith, add_request-IsCounted)

request_settled-Grows :
    (l : Ledger) (v : Value) {l' : Ledger} → apply_request_settled l v ≡ ok l' → Grows l l' 1
request_settled-Grows l v h =
    let c = request_settled-count l v h in count_settled-Grows l v c.1 c.2 c.0 c.6 c.8

provider_interrupted-Grows :
    (l : Ledger) (v : Value) {l' : Ledger} → apply_provider_interrupted l v ≡ ok l' → Grows l l' 1
provider_interrupted-Grows l v h =
    let c = provider_interrupted-count l v h in count_interrupted-Grows l c.1 c.2 c.0 c.6 c.9

request_failed-Grows :
    (l : Ledger) (v : Value) {l' : Ledger} → apply_request_failed l v ≡ ok l' → Grows l l' 1
request_failed-Grows l v h =
    let c = request_failed-count l v h in count_failed-Grows l c.3 c.1 c.2 c.0 c.7 c.10

-- An event other than a creation keeps the task and adds what it uses.
apply_event-Grows :
    (event : String) (l : Ledger) (v : Value) (id : Option String) {l' : Ledger}
    → event ≢ "created"
    → apply_event event l v id ≡ ok l'
    → Grows l l' (uses event)
apply_event-Grows event l v id new =
    apply_event_cases event l v id _ (λ e _. absurd (new e))
      (λ e h. rw e (request_started-Grows l v h)) (λ e h. rw e (request_settled-Grows l v h))
      (λ e h. rw e (provider_interrupted-Grows l v h)) (λ e h. rw e (request_failed-Grows l v h))
      (λ e h. rw e (stage_checkpoint-Grows l v h)) (λ e h. rw e (tool_batch-Grows l v h))
      (λ e h. rw e (paused-Grows l v h)) (λ e h. rw e (failed-Grows l v h))
      (λ e h. rw e (completed-Grows l v h))

-- The requests that a list of records uses up.
abbrev pub total_uses : List Value → ℕ
total_uses [] = 0
total_uses (v ∷ rs) = counts_request (as_str (index v "event")) + total_uses rs

abbrev IsCreated : Option String → Type 0
IsCreated none = ⊥
IsCreated (some event) = event ≡ "created"

-- No record of the list creates a task.
abbrev pub NoCreation : List Value → Type 0
NoCreation [] = Unit
NoCreation (v ∷ rs) = (IsCreated (as_str (index v "event")) → ⊥) × NoCreation rs

apply-Grows :
    (l : Ledger) (v : Value) (id : Option String) {l' : Ledger}
    → (IsCreated (as_str (index v "event")) → ⊥)
    → apply l v id ≡ ok l'
    → Grows l l' (counts_request (as_str (index v "event")))
unfolding apply
apply-Grows l v id new h = elim (Option-cases (as_str (index v "event"))) [
  | inl e ↦ absurd (ground (arith, e))
  | inr (event, e) ↦ rw e (apply_event-Grows event l v id (rw e at new) (rw e at h))
]

Grows-trans : (l m n : Ledger) (a b : ℕ) → Grows l m a → Grows m n b → Grows l n (a + b)
Grows-trans l m n a b g h = ground arith

-- However a task goes on, the requests counted are those that its records settle, interrupt or
-- fail; its limits stay, and no counter falls.
pub replay-Grows :
    (l : Ledger) (rs : List Value) (id : Option String) {l' : Ledger}
    → NoCreation rs
    → replay l rs id ≡ ok l'
    → Grows l l' (total_uses rs)
unfolding replay
replay-Grows l [] id n h = ground arith
replay-Grows l (v ∷ rs) id {l' = l'} n h =
    let (m, first, rest) = >>=-eq-ok (apply l v id) (λ next. replay next rs id) h in
    Grows-trans l m l' _ _ (apply-Grows l v id n.0 first) (replay-Grows m rs id n.1 rest)

-- An accepted journal of one task never uses more requests than the task was created with.
pub total_uses-le :
    (l : Ledger) (rs : List Value) (id : Option String) (m : Limits) {l' : Ledger}
    → IsWellFormed l
    → l.limits ≡ some m
    → NoCreation rs
    → replay l rs id ≡ ok l'
    → total_uses rs ≤ m.max_requests
total_uses-le l rs id m w e n h =
    let g = replay-Grows l rs id n h in
    let after = replay-IsWellFormed l rs id w h in
    let bounds = rw (g.same_limits ∙ e) at after.bounded in
    omega (arith, g.requests, bounds.0.requests)
