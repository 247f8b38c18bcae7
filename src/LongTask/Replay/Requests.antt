-- ===== src/LongTask/Replay/Requests.antt =====
-- The operations on a provider request: `begin_request`, `settle_request`, `fail_request`.
use danso.Prelude.{
  ℕ, ◌+◌, ◌≤◌, ◌<◌, ◌≡◌, String, true, Option, none, some, arith, saturating_mul, wrapping_add,
  u64_mod,
}
use danso.Prelude.Result.{ok}
use danso.Json.{index, as_str, as_u64, is_num}
use danso.LongTask.Ledger.{
  Limits, pending_provider, failed, Ledger, ensure_elapsed, resume_allowed, is_resting, add_request,
  total, TokenDelta, integer, string, tokens, exact_keys,
}
use danso.LongTask.Apply.{
  is_response_kind, settled_state, count_settled, count_failed, apply, apply_request_started,
  apply_request_settled, apply_request_failed, apply_event, is_failure_category,
}
use danso.LongTask.Invariant.{IsWellFormed}
use danso.LongTask.Ops.{
  Plan, plan_begin, started_record, plan_settle, settled_record, plan_fail_request,
  request_failed_record,
}
use danso.LongTask.Replay.{durable}

-- What `begin_request` has checked, and its plan.
pub begin-eq :
    (l : Ledger) (elapsed : ℕ) (p : Plan ℕ)
    → plan_begin l elapsed ≡ ok p
    → (m : Limits) × (l.limits ≡ some m)
      × (is_resting l.state ≡ true)
      × (l.elapsed_ms ≤ elapsed)
      × (elapsed ≤ saturating_mul m.wall_seconds 1000)
      × (l.requests < m.max_requests)
      × (p ≡ record {
        entry = started_record l (l.requests + 1) elapsed;
        next = record l {
          pending_sequence = some (l.requests + 1);
          state = pending_provider;
          elapsed_ms = elapsed;
        };
        value = l.requests + 1;
      })
unfolding plan_begin resume_allowed ensure_elapsed
begin-eq l elapsed p h = ground arith

begin-apply :
    (l : Ledger) (elapsed : ℕ) (m : Limits) (id : Option String)
    → IsWellFormed l
    → l.limits ≡ some m
    → is_resting l.state ≡ true
    → l.elapsed_ms ≤ elapsed
    → elapsed ≤ saturating_mul m.wall_seconds 1000
    → l.requests < m.max_requests
    → apply (durable l) (started_record l (l.requests + 1) elapsed) id
      ≡ ok (record (durable l) {
        pending_sequence = some (l.requests + 1);
        state = pending_provider;
        elapsed_ms = elapsed;
      })
unfolding apply apply_event exact_keys integer index as_str as_u64 is_num apply_request_started
    ensure_elapsed
begin-apply l elapsed m id w e h0 h1 h2 h3 = ground arith

-- Replayed, the record of `plan_begin` leaves the ledger that it plans.
pub begin-replays :
    (l : Ledger) (elapsed : ℕ) (id : Option String) (p : Plan ℕ)
    → IsWellFormed l
    → plan_begin l elapsed ≡ ok p
    → apply (durable l) p.entry id ≡ ok (durable p.next)
begin-replays l elapsed id p w h =
    let f = begin-eq l elapsed p h in rw f.6 (begin-apply l elapsed f.0 id w f.1 f.2 f.3 f.4 f.5)

-- What `settle_request` has checked, and its plan.
pub settle-eq :
    (l : Ledger) (kind : String) (elapsed : ℕ) (delta : TokenDelta) (p : Plan (Unit {0}))
    → plan_settle l kind elapsed delta ≡ ok p
    → (m : Limits) × (sequence : ℕ) × (sum : ℕ) × (l.limits ≡ some m)
      × (l.pending_sequence ≡ some sequence)
      × (is_response_kind kind ≡ true)
      × (l.elapsed_ms ≤ elapsed)
      × (elapsed ≤ saturating_mul m.wall_seconds 1000)
      × (total delta ≡ ok sum)
      × (l.requests < m.max_requests)
      × (l.reported_tokens + sum < u64_mod)
      × (p ≡ record {
        entry = settled_record l sequence kind elapsed delta sum;
        next = record l {
          pending_sequence = none;
          requests = wrapping_add l.requests 1;
          stage_requests = wrapping_add l.stage_requests 1;
          reported_tokens = wrapping_add l.reported_tokens sum;
          elapsed_ms = elapsed;
          state = settled_state kind;
        };
        value = tt;
      })
unfolding plan_settle ensure_elapsed
settle-eq l kind elapsed delta p h = ground arith

settle-apply :
    (l : Ledger) (kind : String) (elapsed : ℕ) (delta : TokenDelta) (m : Limits) (sequence : ℕ)
    (sum : ℕ) (id : Option String)
    → IsWellFormed l
    → l.limits ≡ some m
    → l.pending_sequence ≡ some sequence
    → is_response_kind kind ≡ true
    → l.elapsed_ms ≤ elapsed
    → elapsed ≤ saturating_mul m.wall_seconds 1000
    → total delta ≡ ok sum
    → l.requests < m.max_requests
    → l.reported_tokens + sum < u64_mod
    → apply (durable l) (settled_record l sequence kind elapsed delta sum) id
      ≡ ok (record (durable l) {
        pending_sequence = none;
        requests = wrapping_add l.requests 1;
        stage_requests = wrapping_add l.stage_requests 1;
        reported_tokens = wrapping_add l.reported_tokens sum;
        elapsed_ms = elapsed;
        state = settled_state kind;
      })
unfolding apply apply_event exact_keys integer index as_str as_u64 is_num apply_request_settled
    ensure_elapsed tokens string add_request count_settled
settle-apply l kind elapsed delta m sequence sum id w e h0 h1 h2 h3 h4 h5 h6 = ground arith

-- Replayed, the record of `plan_settle` leaves the ledger that it plans.
pub settle-replays :
    (l : Ledger) (kind : String) (elapsed : ℕ) (delta : TokenDelta) (id : Option String)
    (p : Plan (Unit {0}))
    → IsWellFormed l
    → plan_settle l kind elapsed delta ≡ ok p
    → apply (durable l) p.entry id ≡ ok (durable p.next)
settle-replays l kind elapsed delta id p w h =
    let f = settle-eq l kind elapsed delta p h in
    rw f.11 (settle-apply l kind elapsed delta f.0 f.1 f.2 id w f.3 f.4 f.5 f.6 f.7 f.8 f.9 f.10)

fail_request-eq :
    (l : Ledger) (category : String) (elapsed : ℕ) (delta : TokenDelta) (p : Plan (Unit {0}))
    → plan_fail_request l category elapsed delta ≡ ok p
    → (m : Limits) × (sequence : ℕ) × (sum : ℕ) × (l.limits ≡ some m)
      × (l.pending_sequence ≡ some sequence)
      × (is_failure_category category ≡ true)
      × (l.elapsed_ms ≤ elapsed)
      × (elapsed ≤ saturating_mul m.wall_seconds 1000)
      × (total delta ≡ ok sum)
      × (l.requests < m.max_requests)
      × (l.reported_tokens + sum < u64_mod)
      × (p ≡ record {
        entry = request_failed_record l sequence category elapsed delta sum;
        next = record l {
          pending_sequence = none;
          requests = wrapping_add l.requests 1;
          stage_requests = wrapping_add l.stage_requests 1;
          reported_tokens = wrapping_add l.reported_tokens sum;
          elapsed_ms = elapsed;
          state = failed;
          terminal_reason = some category;
        };
        value = tt;
      })
unfolding plan_fail_request ensure_elapsed
fail_request-eq l category elapsed delta p h = ground arith

fail_request-apply :
    (l : Ledger) (category : String) (elapsed : ℕ) (delta : TokenDelta) (m : Limits) (sequence : ℕ)
    (sum : ℕ) (id : Option String)
    → IsWellFormed l
    → l.limits ≡ some m
    → l.pending_sequence ≡ some sequence
    → is_failure_category category ≡ true
    → l.elapsed_ms ≤ elapsed
    → elapsed ≤ saturating_mul m.wall_seconds 1000
    → total delta ≡ ok sum
    → l.requests < m.max_requests
    → l.reported_tokens + sum < u64_mod
    → apply (durable l) (request_failed_record l sequence category elapsed delta sum) id
      ≡ ok (record (durable l) {
        pending_sequence = none;
        requests = wrapping_add l.requests 1;
        stage_requests = wrapping_add l.stage_requests 1;
        reported_tokens = wrapping_add l.reported_tokens sum;
        elapsed_ms = elapsed;
        state = failed;
        terminal_reason = some category;
      })
unfolding apply apply_event exact_keys integer index as_str as_u64 is_num apply_request_failed
    ensure_elapsed tokens string add_request count_failed
fail_request-apply l category elapsed delta m sequence sum id w e h0 h1 h2 h3 h4 h5 h6 =
    ground arith

-- Replayed, the record of `plan_fail_request` leaves the ledger that it plans.
pub fail_request-replays :
    (l : Ledger) (category : String) (elapsed : ℕ) (delta : TokenDelta) (id : Option String)
    (p : Plan (Unit {0}))
    → IsWellFormed l
    → plan_fail_request l category elapsed delta ≡ ok p
    → apply (durable l) p.entry id ≡ ok (durable p.next)
fail_request-replays l category elapsed delta id p w h =
    let f = fail_request-eq l category elapsed delta p h in
    rw f.11 (
      fail_request-apply l category elapsed delta f.0 f.1 f.2 id w f.3 f.4 f.5 f.6 f.7 f.8 f.9 f.10)
