-- ===== src/Runtime/Counted.antt =====
-- src/long_task.rs and src/runtime.rs: what beginning and settling a request count.
use danso.Prelude.{ℕ, String, ◌+◌, ◌≤◌, ◌≡◌, refl, none, some, arith}
use danso.Prelude.Result.{ok}
use danso.LongTask.Ledger.{Limits, Ledger, TokenDelta, total}
use danso.LongTask.Ops.{Plan, plan_begin, plan_settle}
use danso.LongTask.Invariant.{IsWellFormed}
use danso.LongTask.Replay.Requests.{begin-eq, settle-eq}

-- Beginning a request counts nothing yet.
pub plan_begin-kept :
    (l : Ledger) (began : ℕ) (p : Plan ℕ)
    → plan_begin l began ≡ ok p
    → (p.next.requests ≡ l.requests) × (p.next.reported_tokens ≡ l.reported_tokens)
plan_begin-kept l began p h = let f = begin-eq l began p h in rw f.6 (refl, refl)

-- A settled request, counted with the tokens that it has used.
pub record Counts (l l' : Ledger) (elapsed : ℕ) (delta : TokenDelta) : Type 0 where
  pub sum : ℕ
  pub summed : total delta ≡ ok sum
  pub requests : l'.requests ≡ l.requests + 1
  pub tokens : l'.reported_tokens ≡ l.reported_tokens + sum
  pub elapsed_is : l'.elapsed_ms ≡ elapsed
  pub released : l'.pending_response ≡ none
  pub resolved : l'.pending_sequence ≡ none

request_fits :
    (l : Ledger) (m : Limits) → IsWellFormed l → l.limits ≡ some m → m.max_requests ≤ 2048
request_fits l m w e = ground arith

-- Settling a request of a sound ledger, and then letting the held response go.
pub plan_settle-Counts :
    (l : Ledger) (kind : String) (elapsed : ℕ) (delta : TokenDelta) (p : Plan (Unit {0}))
    → IsWellFormed l
    → plan_settle l kind elapsed delta ≡ ok p
    → Counts l (record (p.next) { pending_response = none }) elapsed delta
plan_settle-Counts l kind elapsed delta p w h =
    let (m, _, sum, limits, _, _, _, _, summed, room, fits, is) =
      settle-eq l kind elapsed delta p h in
    let most = request_fits l m w limits in
    rw is (record {
      sum = sum;
      summed = summed;
      requests = omega arith;
      tokens = omega arith;
      elapsed_is = refl;
      released = refl;
      resolved = refl;
    })
