-- ===== src/LongTask/Invariant/Counts.antt =====
-- src/long_task.rs: the three events that count a request, and the invariant.
use danso.Prelude.{ℕ, ◌≤◌, ◌<◌, ◌≡◌, String, true, none, some, arith, saturating_mul}
use danso.Prelude.Result.{ok}
use danso.Json.{Value}
use danso.LongTask.Ledger.{
  Limits, Ledger, ensure_elapsed, add_request, TokenDelta, integer, string, tokens,
}
use danso.LongTask.Apply.{
  is_response_kind, settled_state, count_settled, count_interrupted, count_failed,
  apply_request_settled, apply_provider_interrupted, apply_request_failed,
}
use danso.LongTask.Invariant.{IsWellFormed, IsCounted, add_request-IsCounted}

-- A settled response is the counted request with nothing pending any more.
count_settled-eq :
    (l : Ledger) (v : Value) (m : Limits) (elapsed : ℕ) (delta : TokenDelta) (l' : Ledger)
    → count_settled l v elapsed delta m ≡ ok l'
    → (c : Ledger) × (kind : String) × (add_request l elapsed delta m ≡ ok c)
      × (string v "response_kind" ≡ ok kind)
      × (is_response_kind kind ≡ true)
      × (l'
          ≡ record c { pending_sequence = none; elapsed_ms = elapsed; state = settled_state kind })
unfolding count_settled
count_settled-eq l v m elapsed delta l' h = ground arith

settled-IsWellFormed :
    (l c : Ledger) (m : Limits) (elapsed : ℕ) (kind : String)
    → IsWellFormed l
    → l.limits ≡ some m
    → elapsed ≤ saturating_mul m.wall_seconds 1000
    → IsCounted l c elapsed m
    → IsWellFormed
        (record c { pending_sequence = none; elapsed_ms = elapsed; state = settled_state kind })
settled-IsWellFormed l c m elapsed kind w e b k = ground arith

count_settled-IsWellFormed :
    (l : Ledger) (v : Value) (m : Limits) (elapsed : ℕ) (delta : TokenDelta) (l' : Ledger)
    → IsWellFormed l
    → l.limits ≡ some m
    → elapsed ≤ saturating_mul m.wall_seconds 1000
    → count_settled l v elapsed delta m ≡ ok l'
    → IsWellFormed l'
count_settled-IsWellFormed l v m elapsed delta l' w e b h =
    let (c, kind, counted, _, _, is) = count_settled-eq l v m elapsed delta l' h in
    rw is (
      settled-IsWellFormed l c m elapsed kind w e b
        (add_request-IsCounted l elapsed delta m c counted))

pub request_settled-count :
    (l : Ledger) (v : Value) {l' : Ledger}
    → apply_request_settled l v ≡ ok l'
    → (m : Limits) × (elapsed : ℕ) × (delta : TokenDelta) × (l.limits ≡ some m)
      × (integer v "elapsed_ms" ≡ ok elapsed)
      × (elapsed ≤ saturating_mul m.wall_seconds 1000)
      × (l.elapsed_ms ≤ elapsed)
      × (tokens v ≡ ok delta)
      × (count_settled l v elapsed delta m ≡ ok l')
unfolding apply_request_settled ensure_elapsed
request_settled-count l v h = ground arith

pub request_settled-IsWellFormed :
    (l : Ledger) (v : Value) {l' : Ledger}
    → IsWellFormed l
    → apply_request_settled l v ≡ ok l'
    → IsWellFormed l'
request_settled-IsWellFormed l v {l' = l'} w h =
    let c = request_settled-count l v h in
    count_settled-IsWellFormed l v c.0 c.1 c.2 l' w c.3 c.5 c.8

count_interrupted-IsWellFormed :
    (l : Ledger) (v : Value) (m : Limits) (elapsed : ℕ) (reason : String) (l' : Ledger)
    → IsWellFormed l
    → l.limits ≡ some m
    → elapsed ≤ saturating_mul m.wall_seconds 1000
    → l.interrupted_requests < 3
    → count_interrupted l elapsed reason m ≡ ok l'
    → IsWellFormed l'
unfolding count_interrupted
count_interrupted-IsWellFormed l v m elapsed reason l' w e b i h =
    grind (arith, add_request-IsCounted)

pub provider_interrupted-count :
    (l : Ledger) (v : Value) {l' : Ledger}
    → apply_provider_interrupted l v ≡ ok l'
    → (m : Limits) × (elapsed : ℕ) × (reason : String) × (l.limits ≡ some m)
      × (integer v "elapsed_ms" ≡ ok elapsed)
      × (elapsed ≤ saturating_mul m.wall_seconds 1000)
      × (l.elapsed_ms ≤ elapsed)
      × (string v "reason" ≡ ok reason)
      × (l.interrupted_requests < 3)
      × (count_interrupted l elapsed reason m ≡ ok l')
unfolding apply_provider_interrupted ensure_elapsed
provider_interrupted-count l v h = ground arith

pub provider_interrupted-IsWellFormed :
    (l : Ledger) (v : Value) {l' : Ledger}
    → IsWellFormed l
    → apply_provider_interrupted l v ≡ ok l'
    → IsWellFormed l'
provider_interrupted-IsWellFormed l v {l' = l'} w h =
    let c = provider_interrupted-count l v h in
    count_interrupted-IsWellFormed l v c.0 c.1 c.2 l' w c.3 c.5 c.8 c.9

count_failed-IsWellFormed :
    (l : Ledger) (v : Value) (m : Limits) (elapsed : ℕ) (delta : TokenDelta) (category : String)
    (l' : Ledger)
    → IsWellFormed l
    → l.limits ≡ some m
    → elapsed ≤ saturating_mul m.wall_seconds 1000
    → count_failed l category elapsed delta m ≡ ok l'
    → IsWellFormed l'
unfolding count_failed
count_failed-IsWellFormed l v m elapsed delta category l' w e b h =
    grind (arith, add_request-IsCounted)

pub request_failed-count :
    (l : Ledger) (v : Value) {l' : Ledger}
    → apply_request_failed l v ≡ ok l'
    → (m : Limits) × (elapsed : ℕ) × (delta : TokenDelta) × (category : String) × (l.limits
        ≡ some m)
      × (integer v "elapsed_ms" ≡ ok elapsed)
      × (elapsed ≤ saturating_mul m.wall_seconds 1000)
      × (l.elapsed_ms ≤ elapsed)
      × (tokens v ≡ ok delta)
      × (string v "category" ≡ ok category)
      × (count_failed l category elapsed delta m ≡ ok l')
unfolding apply_request_failed ensure_elapsed
request_failed-count l v h = ground arith

pub request_failed-IsWellFormed :
    (l : Ledger) (v : Value) {l' : Ledger}
    → IsWellFormed l
    → apply_request_failed l v ≡ ok l'
    → IsWellFormed l'
request_failed-IsWellFormed l v {l' = l'} w h =
    let c = request_failed-count l v h in
    count_failed-IsWellFormed l v c.0 c.1 c.2 c.3 l' w c.4 c.6 c.10
