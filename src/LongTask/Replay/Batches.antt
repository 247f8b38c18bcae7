-- ===== src/LongTask/Replay/Batches.antt =====
-- The operations on tool batches: `record_tool_batch` and `checkpoint`.
use danso.Prelude.{
  ℕ, ◌≤◌, ◌<◌, ◌≡◌, String, true, Option, some, arith, saturating_mul, wrapping_add, opt_str_eq,
}
use danso.Prelude.Result.{ok}
use danso.Json.{index, as_str, as_u64, is_num}
use danso.LongTask.Ledger.{Limits, ready, Ledger, ensure_elapsed, integer, string, exact_keys}
use danso.LongTask.Apply.{
  apply, apply_stage_checkpoint, apply_tool_batch, apply_event, is_fingerprint, is_ready,
  is_pending_tools, next_repeat,
}
use danso.LongTask.Invariant.{IsWellFormed}
use danso.LongTask.Ops.{Plan, plan_checkpoint, plan_tool_batch, batch_record}
use danso.LongTask.Replay.{durable}

checkpoint-eq :
    (l : Ledger) (elapsed : ℕ) (fingerprint : String) (p : Plan ℕ)
    → plan_checkpoint l elapsed fingerprint ≡ ok p
    → (m : Limits) × (l.limits ≡ some m)
      × (is_ready l.state ≡ true)
      × (0 < l.stage_requests)
      × (l.stage_requests ≤ m.max_requests)
      × (is_fingerprint fingerprint ≡ true)
      × (l.elapsed_ms ≤ elapsed)
      × (elapsed ≤ saturating_mul m.wall_seconds 1000)
      × (opt_str_eq l.last_fingerprint (some fingerprint) ≡ true)
      × (p ≡ record {
        entry =
            batch_record "stage_checkpoint"
              (wrapping_add l.stage 1)
              l.stage_requests
              elapsed
              fingerprint
              l.repeat_count;
        next = record l {
          stage = wrapping_add l.stage 1;
          stage_requests = 0;
          elapsed_ms = elapsed;
          last_fingerprint = some fingerprint;
          repeat_count = l.repeat_count;
          state = ready;
        };
        value = l.repeat_count;
      })
unfolding plan_checkpoint ensure_elapsed
checkpoint-eq l elapsed fingerprint p h = ground arith

checkpoint-apply :
    (l : Ledger) (elapsed : ℕ) (fingerprint : String) (m : Limits) (id : Option String)
    → IsWellFormed l
    → l.limits ≡ some m
    → is_ready l.state ≡ true
    → 0 < l.stage_requests
    → l.stage_requests ≤ m.max_requests
    → is_fingerprint fingerprint ≡ true
    → l.elapsed_ms ≤ elapsed
    → elapsed ≤ saturating_mul m.wall_seconds 1000
    → opt_str_eq l.last_fingerprint (some fingerprint) ≡ true
    → apply
        (durable l)
        (batch_record "stage_checkpoint"
          (wrapping_add l.stage 1)
          l.stage_requests
          elapsed
          fingerprint
          l.repeat_count)
        id
      ≡ ok (record (durable l) {
        stage = wrapping_add l.stage 1;
        stage_requests = 0;
        elapsed_ms = elapsed;
        last_fingerprint = some fingerprint;
        repeat_count = l.repeat_count;
        state = ready;
      })
unfolding apply apply_event exact_keys integer index as_str as_u64 is_num apply_stage_checkpoint
    ensure_elapsed string
checkpoint-apply l elapsed fingerprint m id w e h0 h1 h2 h3 h4 h5 h6 = ground arith

-- Replayed, the record of `plan_checkpoint` leaves the ledger that it plans.
pub checkpoint-replays :
    (l : Ledger) (elapsed : ℕ) (fingerprint : String) (id : Option String) (p : Plan ℕ)
    → IsWellFormed l
    → plan_checkpoint l elapsed fingerprint ≡ ok p
    → apply (durable l) p.entry id ≡ ok (durable p.next)
checkpoint-replays l elapsed fingerprint id p w h =
    let f = checkpoint-eq l elapsed fingerprint p h in
    rw f.9 (checkpoint-apply l elapsed fingerprint f.0 id w f.1 f.2 f.3 f.4 f.5 f.6 f.7 f.8)

tool_batch-eq :
    (l : Ledger) (elapsed : ℕ) (fingerprint : String) (p : Plan ℕ)
    → plan_tool_batch l elapsed fingerprint ≡ ok p
    → (m : Limits) × (l.limits ≡ some m)
      × (is_pending_tools l.state ≡ true)
      × (0 < l.stage_requests)
      × (l.stage_requests ≤ m.max_requests)
      × (is_fingerprint fingerprint ≡ true)
      × (l.elapsed_ms ≤ elapsed)
      × (elapsed ≤ saturating_mul m.wall_seconds 1000)
      × (next_repeat l fingerprint ≤ m.repeat_limit)
      × (p ≡ record {
        entry =
            batch_record "tool_batch" l.stage l.stage_requests elapsed fingerprint
              (next_repeat l fingerprint);
        next = record l {
          elapsed_ms = elapsed;
          last_fingerprint = some fingerprint;
          repeat_count = next_repeat l fingerprint;
          state = ready;
        };
        value = next_repeat l fingerprint;
      })
unfolding plan_tool_batch ensure_elapsed
tool_batch-eq l elapsed fingerprint p h = ground arith

tool_batch-apply :
    (l : Ledger) (elapsed : ℕ) (fingerprint : String) (m : Limits) (id : Option String)
    → IsWellFormed l
    → l.limits ≡ some m
    → is_pending_tools l.state ≡ true
    → 0 < l.stage_requests
    → l.stage_requests ≤ m.max_requests
    → is_fingerprint fingerprint ≡ true
    → l.elapsed_ms ≤ elapsed
    → elapsed ≤ saturating_mul m.wall_seconds 1000
    → next_repeat l fingerprint ≤ m.repeat_limit
    → apply
        (durable l)
        (batch_record "tool_batch" l.stage l.stage_requests elapsed fingerprint
          (next_repeat l fingerprint))
        id
      ≡ ok (record (durable l) {
        elapsed_ms = elapsed;
        last_fingerprint = some fingerprint;
        repeat_count = next_repeat l fingerprint;
        state = ready;
      })
unfolding apply apply_event exact_keys integer index as_str as_u64 is_num apply_tool_batch
    ensure_elapsed string
tool_batch-apply l elapsed fingerprint m id w e h0 h1 h2 h3 h4 h5 h6 = ground arith

-- Replayed, the record of `plan_tool_batch` leaves the ledger that it plans.
pub tool_batch-replays :
    (l : Ledger) (elapsed : ℕ) (fingerprint : String) (id : Option String) (p : Plan ℕ)
    → IsWellFormed l
    → plan_tool_batch l elapsed fingerprint ≡ ok p
    → apply (durable l) p.entry id ≡ ok (durable p.next)
tool_batch-replays l elapsed fingerprint id p w h =
    let f = tool_batch-eq l elapsed fingerprint p h in
    rw f.9 (tool_batch-apply l elapsed fingerprint f.0 id w f.1 f.2 f.3 f.4 f.5 f.6 f.7 f.8)
