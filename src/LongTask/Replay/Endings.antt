-- ===== src/LongTask/Replay/Endings.antt =====
-- The operations that leave a settled boundary: `fail_terminal`, `pause`, `complete`, and the
-- interruption of a request.
use danso.Prelude.{
  ℕ, ◌≡◌, sym, ◌∙◌, String, true, Option, none, some, arith, inl, inr, Option-cases,
}
use danso.Prelude.Result.{ok}
use danso.Json.{Value, index, as_str, as_u64, is_num}
use danso.LongTask.Ledger.{
  Limits, no_task, paused, completed, failed, Ledger, ensure_elapsed, add_request, integer, string,
  exact_keys,
}
use danso.LongTask.Apply.{
  count_interrupted, apply, apply_provider_interrupted, apply_paused, apply_failed, apply_completed,
  apply_event, is_ready, is_final_pending, is_terminal_category, is_pause_reason,
}
use danso.LongTask.Invariant.{IsWellFormed}
use danso.LongTask.Ops.{
  Plan, plan_fail_terminal, failed_record, plan_pause, paused_record, plan_complete,
  completed_record, plan_interrupt, interrupted_record,
}
use danso.LongTask.Replay.{durable}
use danso.LongTask.Invariant.Counts.{provider_interrupted-count}

fail_terminal-eq :
    (l : Ledger) (category : String) (p : Plan (Unit {0}))
    → plan_fail_terminal l category ≡ ok p
    → (m : Limits) × (l.limits ≡ some m)
      × (is_ready l.state ≡ true)
      × (is_terminal_category category ≡ true)
      × (p ≡ record {
        entry = failed_record l category;
        next = record l { state = failed; terminal_reason = some category };
        value = tt;
      })
unfolding plan_fail_terminal
fail_terminal-eq l category p h = ground arith

fail_terminal-apply :
    (l : Ledger) (category : String) (m : Limits) (id : Option String)
    → IsWellFormed l
    → l.limits ≡ some m
    → is_ready l.state ≡ true
    → is_terminal_category category ≡ true
    → apply (durable l) (failed_record l category) id
      ≡ ok (record (durable l) { state = failed; terminal_reason = some category })
unfolding apply apply_event exact_keys integer index as_str as_u64 is_num apply_failed
    ensure_elapsed string
fail_terminal-apply l category m id w e h0 h1 = ground arith

-- Replayed, the record of `plan_fail_terminal` leaves the ledger that it plans.
pub fail_terminal-replays :
    (l : Ledger) (category : String) (id : Option String) (p : Plan (Unit {0}))
    → IsWellFormed l
    → plan_fail_terminal l category ≡ ok p
    → apply (durable l) p.entry id ≡ ok (durable p.next)
fail_terminal-replays l category id p w h =
    let f = fail_terminal-eq l category p h in
    rw f.4 (fail_terminal-apply l category f.0 id w f.1 f.2 f.3)

-- A ledger past its creation has limits.
limits_of_state :
    (l : Ledger) → IsWellFormed l → (l.state ≡ no_task → ⊥) → (m : Limits) × (l.limits ≡ some m)
limits_of_state l w h = elim (Option-cases l.limits) [
  | inl e ↦ absurd (h (rw e at w.bounded).state)
  | inr found ↦ found
]

pause-eq :
    (l : Ledger) (reason : String) (p : Plan (Unit {0}))
    → plan_pause l reason ≡ ok p
    → (is_ready l.state ≡ true)
      × (is_pause_reason reason ≡ true)
      × (p ≡ record {
        entry = paused_record l reason;
        next = record l { state = paused };
        value = tt;
      })
unfolding plan_pause
pause-eq l reason p h = ground arith

pause-apply :
    (l : Ledger) (reason : String) (m : Limits) (id : Option String)
    → IsWellFormed l
    → l.limits ≡ some m
    → is_ready l.state ≡ true
    → is_pause_reason reason ≡ true
    → apply (durable l) (paused_record l reason) id ≡ ok (record (durable l) { state = paused })
unfolding apply apply_event exact_keys integer index as_str as_u64 is_num string apply_paused
    ensure_elapsed
pause-apply l reason m id w e h0 h1 = ground arith

-- Replayed, the record of `plan_pause` leaves the ledger that it plans.
pub pause-replays :
    (l : Ledger) (reason : String) (id : Option String) (p : Plan (Unit {0}))
    → IsWellFormed l
    → plan_pause l reason ≡ ok p
    → apply (durable l) p.entry id ≡ ok (durable p.next)
pause-replays l reason id p w h =
    let f = pause-eq l reason p h in
    let found = limits_of_state l w (ground (arith, f.0)) in
    rw f.2 (pause-apply l reason found.0 id w found.1 f.0 f.1)

complete-eq :
    (l : Ledger) (p : Plan (Unit {0}))
    → plan_complete l ≡ ok p
    → (is_final_pending l.state ≡ true)
      × (p ≡ record {
        entry = completed_record l;
        next = record l { state = completed };
        value = tt;
      })
unfolding plan_complete
complete-eq l p h = ground arith

complete-apply :
    (l : Ledger) (m : Limits) (id : Option String)
    → IsWellFormed l
    → l.limits ≡ some m
    → is_final_pending l.state ≡ true
    → apply (durable l) (completed_record l) id ≡ ok (record (durable l) { state = completed })
unfolding apply apply_event exact_keys integer index as_str as_u64 is_num apply_completed
    ensure_elapsed
complete-apply l m id w e h0 = ground arith

-- Replayed, the record of `plan_complete` leaves the ledger that it plans.
pub complete-replays :
    (l : Ledger) (id : Option String) (p : Plan (Unit {0}))
    → IsWellFormed l
    → plan_complete l ≡ ok p
    → apply (durable l) p.entry id ≡ ok (durable p.next)
complete-replays l id p w h =
    let f = complete-eq l p h in
    let found = limits_of_state l w (ground (arith, f.0)) in
    rw f.1 (complete-apply l found.0 id w found.1 f.0)

interrupt-eq :
    (l : Ledger) (elapsed : ℕ) (reason kind : String) (p : Plan (Unit {0}))
    → plan_interrupt l elapsed reason kind ≡ ok p
    → (sequence : ℕ) × (l.pending_sequence ≡ some sequence)
      × (p.entry ≡ interrupted_record l sequence elapsed reason kind)
      × (apply l (interrupted_record l sequence elapsed reason kind) none ≡ ok p.next)
unfolding plan_interrupt
interrupt-eq l elapsed reason kind p h = ground arith

-- The event is not a creation, so the session's id is not consulted; and it is refused where a
-- response waits.
interrupted-id :
    (l l' : Ledger) (sequence elapsed : ℕ) (reason kind : String) (id : Option String)
    → apply l (interrupted_record l sequence elapsed reason kind) none ≡ ok l'
    → (apply l (interrupted_record l sequence elapsed reason kind) id ≡ ok l')
      × (apply_provider_interrupted l (interrupted_record l sequence elapsed reason kind) ≡ ok l')
unfolding apply apply_event index as_str
interrupted-id l l' sequence elapsed reason kind id h = (h, h)

interrupted-response :
    (l : Ledger) (v : Value) {l' : Ledger}
    → apply_provider_interrupted l v ≡ ok l'
    → l.pending_response ≡ none
unfolding apply_provider_interrupted
interrupted-response l v h = ground arith

count_interrupted-response :
    (l l' : Ledger) (elapsed : ℕ) (reason : String) (m : Limits)
    → count_interrupted l elapsed reason m ≡ ok l'
    → l'.pending_response ≡ l.pending_response
unfolding count_interrupted add_request
count_interrupted-response l l' elapsed reason m h = ground arith

durable_self : (l : Ledger) → l.pending_response ≡ none → durable l ≡ l
durable_self l h = λ i. record l { pending_response = sym h i }

-- Replayed, the record of `plan_interrupt` leaves the ledger that it plans.
pub interrupt-replays :
    (l : Ledger) (elapsed : ℕ) (reason kind : String) (id : Option String) (p : Plan (Unit {0}))
    → plan_interrupt l elapsed reason kind ≡ ok p
    → apply (durable l) p.entry id ≡ ok (durable p.next)
interrupt-replays l elapsed reason kind id p h =
    let (sequence, _, entry_is, applied) = interrupt-eq l elapsed reason kind p h in
    let (with_id, event) = interrupted-id l p.next sequence elapsed reason kind id applied in
    let c =
      provider_interrupted-count l (interrupted_record l sequence elapsed reason kind) event in
    let waiting = interrupted-response l _ event in
    let still = count_interrupted-response l p.next c.1 c.2 c.0 c.9 ∙ waiting in
    rw (durable_self l waiting, durable_self p.next still, entry_is) with_id
