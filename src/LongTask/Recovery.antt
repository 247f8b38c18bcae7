-- ===== src/LongTask/Recovery.antt =====
-- src/long_task.rs: sequences of operations, and the ledger that replaying their records gives.
use danso.Prelude.{ℕ, String, ◌≡◌, refl, Option, List, [], ◌∷◌, ◌++◌, arith}
use danso.Prelude.Result.{Result, ok, err, >>=-eq-ok}
use danso.Json.{Value}
use danso.LongTask.Ledger.{PendingResponse, TokenDelta, Ledger, default}
use danso.LongTask.Apply.{apply, replay, from_records}
use danso.LongTask.Ops.{
  SessionStore, Plan, appended, commit, plan_begin, plan_interrupt, plan_settle, plan_fail_request,
  plan_checkpoint, plan_tool_batch, plan_fail_terminal, plan_pause, plan_complete,
}
use danso.LongTask.Invariant.{IsWellFormed}
use danso.LongTask.Invariant.Events.{apply-IsWellFormed}
use danso.LongTask.Replay.{durable}
use danso.LongTask.Replay.Requests.{begin-replays, settle-replays, fail_request-replays}
use danso.LongTask.Replay.Batches.{checkpoint-replays, tool_batch-replays}
use danso.LongTask.Replay.Endings.{
  fail_terminal-replays, pause-replays, complete-replays, interrupt-replays,
}

replay-append :
    (l : Ledger) (rs : List Value) (v : Value) (id : Option String) {m m' : Ledger}
    → replay l rs id ≡ ok m
    → apply m v id ≡ ok m'
    → replay l (rs ++ v ∷ []) id ≡ ok m'
unfolding replay
replay-append l [] v id h k = ground arith
replay-append l (r ∷ rs) v id h k =
    let (next, first, rest) = >>=-eq-ok (apply l r id) (λ next. replay next rs id) h in
    rw first (replay-append next rs v id rest k)

durable-IsWellFormed : (l : Ledger) → IsWellFormed l → IsWellFormed (durable l)
durable-IsWellFormed l w = ground arith

durable-IsWellFormed_back : (l : Ledger) → IsWellFormed (durable l) → IsWellFormed l
durable-IsWellFormed_back l w = ground arith

module _ {S : Type 0} (store : SessionStore S) where
  -- The session's records rebuild the ledger, but for a response that is held in memory.
  pub record Coherent (id : Option String) (l : Ledger) (s : S) : Type 0 where
    pub well_formed : IsWellFormed l
    pub records : List Value
    pub stored : store.long_task_records s ≡ ok records
    pub rebuilds : from_records records id ≡ ok (durable l)

  written-eq :
      {A : Type 0} (p : Plan A) (l : Ledger) (a : A) (l' : Ledger) (s' : S) (w : Result Value × S)
      → ◌≡◌ {A = (Result A × Ledger) × S} (appended p l w.0, w.1) ((ok a, l'), s')
      → (entry : Value) × (w ≡ (ok entry, s')) × (l' ≡ p.next)
  written-eq p l a l' s' (ok entry, t) h = (entry, cc, cc)
  written-eq p l a l' s' (err e, t) h = cc

  -- What an operation that returned has done.
  pub commit-eq :
      {A : Type 0} (plan : Result (Plan A)) (l : Ledger) (s : S) (a : A) (l' : Ledger) (s' : S)
      → commit store plan l s ≡ ((ok a, l'), s')
      → (p : Plan A) × (plan ≡ ok p)
        × (entry : Value) × (store.record_long_task p.entry s ≡ (ok entry, s'))
        × (l' ≡ p.next)
  unfolding commit
  commit-eq (err e) l s a l' s' h = cc
  commit-eq (ok p) l s a l' s' h =
      let (entry, written, is) = written-eq p l a l' s' (store.record_long_task p.entry s) h in
      (p, refl, entry, written, is)

  -- An operation keeps the journal and the ledger together if its record replays.
  commit-Coherent :
      {A : Type 0} (id : Option String) (plan : Result (Plan A)) (l : Ledger) (s : S) (a : A)
      (l' : Ledger) (s' : S)
      → ((p : Plan A) → plan ≡ ok p → apply (durable l) p.entry id ≡ ok (durable p.next))
      → commit store plan l s ≡ ((ok a, l'), s')
      → Coherent id l s
      → Coherent id l' s'
  unfolding from_records
  commit-Coherent id plan l s a l' s' replays h c =
      let (p, planned, entry, written, is) = commit-eq plan l s a l' s' h in
      let applied = replays p planned in
      record {
        well_formed = rw is (
            durable-IsWellFormed_back p.next (
              apply-IsWellFormed (durable l) p.entry id (durable-IsWellFormed l c.well_formed)
                applied));
        records = c.records ++ p.entry ∷ [];
        stored = store.record_appends p.entry s s' entry c.records written c.stored;
        rebuilds = rw is (replay-append default c.records p.entry id c.rebuilds applied);
      }

  -- One step of a run: an operation that returned, or a response held in memory or let go.
  pub data Step (l : Ledger) (s : S) (l' : Ledger) (s' : S) : Type 0 where
    begin_request :
        (elapsed n : ℕ)
        → commit store (plan_begin l elapsed) l s ≡ ((ok n, l'), s')
        → Step l s l' s'
    interrupt_request :
        (elapsed : ℕ) (reason kind : String)
        → commit store (plan_interrupt l elapsed reason kind) l s ≡ ((ok tt, l'), s')
        → Step l s l' s'
    settle_request :
        (kind : String) (elapsed : ℕ) (delta : TokenDelta)
        → commit store (plan_settle l kind elapsed delta) l s ≡ ((ok tt, l'), s')
        → Step l s l' s'
    fail_request :
        (category : String) (elapsed : ℕ) (delta : TokenDelta)
        → commit store (plan_fail_request l category elapsed delta) l s ≡ ((ok tt, l'), s')
        → Step l s l' s'
    checkpoint :
        (elapsed : ℕ) (fingerprint : String) (n : ℕ)
        → commit store (plan_checkpoint l elapsed fingerprint) l s ≡ ((ok n, l'), s')
        → Step l s l' s'
    record_tool_batch :
        (elapsed : ℕ) (fingerprint : String) (n : ℕ)
        → commit store (plan_tool_batch l elapsed fingerprint) l s ≡ ((ok n, l'), s')
        → Step l s l' s'
    fail_terminal :
        (category : String)
        → commit store (plan_fail_terminal l category) l s ≡ ((ok tt, l'), s')
        → Step l s l' s'
    pause :
        (reason : String)
        → commit store (plan_pause l reason) l s ≡ ((ok tt, l'), s')
        → Step l s l' s'
    complete : commit store (plan_complete l) l s ≡ ((ok tt, l'), s') → Step l s l' s'
    hold :
        (r : Option PendingResponse)
        → l' ≡ record l { pending_response = r }
        → s' ≡ s
        → Step l s l' s'

  hold-Coherent :
      (id : Option String) (l l' : Ledger) (s s' : S) (r : Option PendingResponse)
      → l' ≡ record l { pending_response = r }
      → s' ≡ s
      → Coherent id l s
      → Coherent id l' s'
  hold-Coherent id l l' s s' r e f c =
      rw (e, f)
        (record {
          well_formed = durable-IsWellFormed_back _ (durable-IsWellFormed l c.well_formed);
          records = c.records;
          stored = c.stored;
          rebuilds = c.rebuilds;
        })

  Step-Coherent :
      (id : Option String) (l l' : Ledger) (s s' : S)
      → Step l s l' s'
      → Coherent id l s
      → Coherent id l' s'
  Step-Coherent id l l' s s' (begin_request elapsed n h) c =
      commit-Coherent id _ l s n l' s' (λ p. begin-replays l elapsed id p c.well_formed) h c
  Step-Coherent id l l' s s' (interrupt_request elapsed reason kind h) c =
      commit-Coherent id _ l s tt l' s' (λ p. interrupt-replays l elapsed reason kind id p) h c
  Step-Coherent id l l' s s' (settle_request kind elapsed delta h) c =
      commit-Coherent id _ l s tt l' s'
        (λ p. settle-replays l kind elapsed delta id p c.well_formed) h c
  Step-Coherent id l l' s s' (fail_request category elapsed delta h) c =
      commit-Coherent id _ l s tt l' s'
        (λ p. fail_request-replays l category elapsed delta id p c.well_formed) h c
  Step-Coherent id l l' s s' (checkpoint elapsed fingerprint n h) c =
      commit-Coherent id _ l s n l' s'
        (λ p. checkpoint-replays l elapsed fingerprint id p c.well_formed) h c
  Step-Coherent id l l' s s' (record_tool_batch elapsed fingerprint n h) c =
      commit-Coherent id _ l s n l' s'
        (λ p. tool_batch-replays l elapsed fingerprint id p c.well_formed) h c
  Step-Coherent id l l' s s' (fail_terminal category h) c =
      commit-Coherent id _ l s tt l' s' (λ p. fail_terminal-replays l category id p c.well_formed) h
        c
  Step-Coherent id l l' s s' (pause reason h) c =
      commit-Coherent id _ l s tt l' s' (λ p. pause-replays l reason id p c.well_formed) h c
  Step-Coherent id l l' s s' (complete h) c =
      commit-Coherent id _ l s tt l' s' (λ p. complete-replays l id p c.well_formed) h c
  Step-Coherent id l l' s s' (hold r e f) c = hold-Coherent id l l' s s' r e f c

  pub data Steps : Ledger → S → Ledger → S → Type 0 where
    stay : {l : Ledger} {s : S} → Steps l s l s
    step : {l m n : Ledger} {s t u : S} → Step l s m t → Steps m t n u → Steps l s n u

  -- After any sequence of operations that returned, from a journal that rebuilds the ledger in
  -- memory, the journal still does, and the ledger keeps its invariant.
  pub Steps-Coherent :
      (id : Option String) {l l' : Ledger} {s s' : S}
      → Steps l s l' s'
      → Coherent id l s
      → Coherent id l' s'
  Steps-Coherent id stay c = c
  Steps-Coherent id (step {l = l} {m = m} {s = s} {t = t} st rest) c =
      Steps-Coherent id rest (Step-Coherent id l m s t st c)
