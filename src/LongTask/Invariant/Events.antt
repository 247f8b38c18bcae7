-- ===== src/LongTask/Invariant/Events.antt =====
-- src/long_task.rs: the events one by one, and the invariant of a replayed ledger.
use danso.Prelude.{◌≡◌, String, Option, List, [], ◌∷◌, arith}
use danso.Prelude.Result.{ok, >>=-eq-ok}
use danso.Json.{Value}
use danso.LongTask.Ledger.{
  Limits, Ledger, default, ensure_elapsed, validate, from_created, has_task,
}
use danso.LongTask.Apply.{
  apply, apply_created, apply_request_started, apply_stage_checkpoint, apply_tool_batch,
  apply_paused, apply_failed, apply_completed, apply_event, replay, from_records,
}
use danso.LongTask.Invariant.{IsLegal, IsWellFormed}
use danso.LongTask.Cases.{apply_event_cases}
use danso.LongTask.Invariant.Counts.{
  request_settled-IsWellFormed, provider_interrupted-IsWellFormed, request_failed-IsWellFormed,
}

validate-IsLegal : (m : Limits) → validate m ≡ ok tt → IsLegal m
unfolding validate
validate-IsLegal m h = ground arith

from_created-validate :
    (v : Value) (id : Option String) (m : Limits) → from_created v id ≡ ok m → validate m ≡ ok tt
unfolding from_created
from_created-validate v id m h = ground arith

-- The limits of a creation record that is accepted are legal.
pub from_created-IsLegal :
    (v : Value) (id : Option String) (m : Limits) → from_created v id ≡ ok m → IsLegal m
from_created-IsLegal v id m h = validate-IsLegal m (from_created-validate v id m h)

created-IsWellFormed :
    (l : Ledger) (v : Value) (id : Option String) {l' : Ledger}
    → IsWellFormed l
    → apply_created l v id ≡ ok l'
    → IsWellFormed l'
unfolding apply_created has_task
created-IsWellFormed l v id w h = grind (arith, from_created-IsLegal)

request_started-IsWellFormed :
    (l : Ledger) (v : Value) {l' : Ledger}
    → IsWellFormed l
    → apply_request_started l v ≡ ok l'
    → IsWellFormed l'
unfolding apply_request_started ensure_elapsed
request_started-IsWellFormed l v w h = ground arith

stage_checkpoint-IsWellFormed :
    (l : Ledger) (v : Value) {l' : Ledger}
    → IsWellFormed l
    → apply_stage_checkpoint l v ≡ ok l'
    → IsWellFormed l'
unfolding apply_stage_checkpoint ensure_elapsed
stage_checkpoint-IsWellFormed l v w h = ground arith

tool_batch-IsWellFormed :
    (l : Ledger) (v : Value) {l' : Ledger}
    → IsWellFormed l
    → apply_tool_batch l v ≡ ok l'
    → IsWellFormed l'
unfolding apply_tool_batch ensure_elapsed
tool_batch-IsWellFormed l v w h = ground arith

paused-IsWellFormed :
    (l : Ledger) (v : Value) {l' : Ledger}
    → IsWellFormed l
    → apply_paused l v ≡ ok l'
    → IsWellFormed l'
unfolding apply_paused ensure_elapsed
paused-IsWellFormed l v w h = ground arith

failed-IsWellFormed :
    (l : Ledger) (v : Value) {l' : Ledger}
    → IsWellFormed l
    → apply_failed l v ≡ ok l'
    → IsWellFormed l'
unfolding apply_failed ensure_elapsed
failed-IsWellFormed l v w h = ground arith

completed-IsWellFormed :
    (l : Ledger) (v : Value) {l' : Ledger}
    → IsWellFormed l
    → apply_completed l v ≡ ok l'
    → IsWellFormed l'
unfolding apply_completed ensure_elapsed
completed-IsWellFormed l v w h = ground arith

apply_event-IsWellFormed :
    (event : String) (l : Ledger) (v : Value) (id : Option String) {l' : Ledger}
    → IsWellFormed l
    → apply_event event l v id ≡ ok l'
    → IsWellFormed l'
apply_event-IsWellFormed event l v id w =
    apply_event_cases event l v id _ (λ _. created-IsWellFormed l v id w)
      (λ _. request_started-IsWellFormed l v w) (λ _. request_settled-IsWellFormed l v w)
      (λ _. provider_interrupted-IsWellFormed l v w) (λ _. request_failed-IsWellFormed l v w)
      (λ _. stage_checkpoint-IsWellFormed l v w) (λ _. tool_batch-IsWellFormed l v w)
      (λ _. paused-IsWellFormed l v w) (λ _. failed-IsWellFormed l v w)
      (λ _. completed-IsWellFormed l v w)

pub apply-IsWellFormed :
    (l : Ledger) (v : Value) (id : Option String) {l' : Ledger}
    → IsWellFormed l
    → apply l v id ≡ ok l'
    → IsWellFormed l'
unfolding apply
apply-IsWellFormed l v id w h = grind (arith, apply_event-IsWellFormed)

pub replay-IsWellFormed :
    (l : Ledger) (rs : List Value) (id : Option String) {l' : Ledger}
    → IsWellFormed l
    → replay l rs id ≡ ok l'
    → IsWellFormed l'
unfolding replay
replay-IsWellFormed l [] id w h = ground arith
replay-IsWellFormed l (v ∷ rs) id {l' = l'} w h =
    let (m, first, rest) = >>=-eq-ok (apply l v id) (λ next. replay next rs id) h in
    replay-IsWellFormed m rs id (apply-IsWellFormed l v id w first) rest

-- A ledger that `from_records` rebuilds, from any journal that it accepts, has all five limits within
-- the bounds that the program allows, or none and nothing counted. Its requests, elapsed time and
-- repeats are within its limits, its interruptions are three at most, its tokens fit in a u64, and it
-- waits for a provider exactly while a request is reserved.
pub from_records-IsWellFormed :
    (rs : List Value) (id : Option String) {l : Ledger} → from_records rs id ≡ ok l → IsWellFormed l
unfolding from_records
from_records-IsWellFormed rs id h = replay-IsWellFormed default rs id (ground arith) h
