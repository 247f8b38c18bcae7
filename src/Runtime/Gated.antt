-- ===== src/Runtime/Gated.antt =====
-- src/runtime.rs: a request of a long task through the gate, its message and its settlement, against the
-- journal.
use danso.Prelude.{ℕ, String, ◌≡◌, refl, sym, ap, subst, ◌∙◌, Option, none, some, inl, inr}
use danso.Prelude.Result.{Result, ok, err, Failure, message, context, context-some, ok-eq}
use danso.Json.{Value}
use danso.Usage.{UsageSnapshot}
use danso.Compaction.{Printer}
use danso.LongTask.Ledger.{Ledger, TokenDelta, PendingResponse}
use danso.LongTask.Ops.{SessionStore, plan_begin, plan_settle, plan_fail_request}
use danso.LongTask.Invariant.{IsWellFormed}
use danso.LongTask.Recovery.{Coherent, Steps-Coherent, commit-eq}
use danso.Session.Journal.{Session, Input, append_message}
use danso.Session.Store.{journal_store, append_message-keeps}
use danso.Runtime.Counted.{Counts, plan_begin-kept, plan_settle-Counts}
use danso.Runtime.Gate.{
  action, Answer, token_delta, exhausted, give, run_plan, request, take_answer, complete_with,
  settle_pending_action, pending, failure_category,
}
use danso.Runtime.GateSteps.{
  IsSound, next-eq-ok, complete_with-IsSound, settle_pending_action-IsSound, if-cases,
}

some-eq : {A : Type 0} (a b : A) → some a ≡ some b → a ≡ b
some-eq a b h = cc

err-not-ok : {A : Type 0} (e : Failure) (a : A) → ¬ (err e ≡ ok a)
err-not-ok e a h = cc

module _ {S : Type 0} (store : SessionStore S) where
  -- The response of an action request, held in the ledger until its message is journaled: its
  -- reservation, its time and exactly the tokens that it has used. Nothing is counted yet.
  pub record Holds (before : UsageSnapshot) (answer : Answer) (v : Value) (l m : Ledger)
      : Type 0 where
    pub answered : answer.response ≡ ok v
    pub held : PendingResponse
    pub is_held : m.pending_response ≡ some held
    pub is_reserved : m.pending_sequence ≡ some held.sequence
    pub timed : held.elapsed_ms ≡ answer.elapsed_ms
    pub measured : token_delta before answer.after ≡ ok held.tokens
    pub requests : m.requests ≡ l.requests
    pub tokens : m.reported_tokens ≡ l.reported_tokens

  take_answer-Holds :
      (before : UsageSnapshot) (answer : Answer) (delta : TokenDelta) (r : Result Value)
      (l m : Ledger) (s t : S) (v : Value)
      → answer.response ≡ r
      → token_delta before answer.after ≡ ok delta
      → take_answer store action answer delta r l s ≡ ((ok v, m), t)
      → Holds before answer v l m
  unfolding take_answer
  take_answer-Holds before answer delta (ok response) l m s t v given measured h =
      let (sequence, l₁, s₁, one, two) =
        next-eq-ok store
          ((context l.pending_sequence "long-task action reservation disappeared", l), s) _ h in
      let reserved = context-some _ _ sequence (ap (λ p. (p.0).0) one) in
      let same : l ≡ l₁ = ap (λ p. (p.0).1) one in
      let held : PendingResponse = record {
        sequence = sequence;
        elapsed_ms = answer.elapsed_ms;
        tokens = delta;
      } in
      let final : record l₁ { pending_response = some held } ≡ m = ap (λ p. (p.0).1) two in
      let returned : response ≡ v = sym (ok-eq _ _ (ap (λ p. (p.0).0) two)) in
      record {
        answered = given ∙ ap ok returned;
        held = held;
        is_held = ap (λ (x : Ledger). x.pending_response) (sym final);
        is_reserved =
            ap (λ (x : Ledger). x.pending_sequence) (sym final)
            ∙ ap (λ (x : Ledger). x.pending_sequence) (sym same)
            ∙ reserved;
        timed = refl;
        measured = measured;
        requests =
            ap (λ (x : Ledger). x.requests) (sym final)
            ∙ ap (λ (x : Ledger). x.requests) (sym same);
        tokens =
            ap (λ (x : Ledger). x.reported_tokens) (sym final)
            ∙ ap (λ (x : Ledger). x.reported_tokens) (sym same);
      }
  take_answer-Holds before answer delta (err e) l m s t v given measured h =
      let (a, l₁, s₁, one, two) =
        next-eq-ok store
          (run_plan store
            (λ x.
              plan_fail_request x (failure_category store answer.is_timeout) answer.elapsed_ms
                delta)
            l s)
          _ h in
      absurd (err-not-ok e v (ap (λ p. (p.0).0) two))

  -- The same ledger counts, after the request was begun.
  Holds-since :
      (before : UsageSnapshot) (answer : Answer) (v : Value) (l k m : Ledger)
      → k.requests ≡ l.requests
      → k.reported_tokens ≡ l.reported_tokens
      → Holds before answer v k m
      → Holds before answer v l m
  Holds-since before answer v l k m requests tokens h = record {
    answered = h.answered;
    held = h.held;
    is_held = h.is_held;
    is_reserved = h.is_reserved;
    timed = h.timed;
    measured = h.measured;
    requests = h.requests ∙ requests;
    tokens = h.tokens ∙ tokens;
  }

  request-Holds :
      (began : ℕ) (before : UsageSnapshot) (answer : Answer) (l m : Ledger) (s t : S) (v : Value)
      → request store action began before answer l s ≡ ((ok v, m), t)
      → Holds before answer v l m
  request-Holds began before answer l m s t v asked =
      let (sequence, l₁, s₁, one, rest) =
        next-eq-ok store (run_plan store (λ x. plan_begin x began) l s) _ asked in
      let (p, planned, _, _, after) = commit-eq store (plan_begin l began) l s sequence l₁ s₁ one in
      let kept = plan_begin-kept l began p planned in
      let (delta, l₂, s₂, two, last) =
        next-eq-ok store (give (token_delta before answer.after) l₁ s₁) _ rest in
      let same : l₁ ≡ l₂ = ap (λ q. (q.0).1) two in
      Holds-since before answer v l l₂ m
        (ap (λ (x : Ledger). x.requests) (sym same ∙ after) ∙ kept.0)
        (ap (λ (x : Ledger). x.reported_tokens) (sym same ∙ after) ∙ kept.1)
        (take_answer-Holds before answer delta answer.response l₂ m s₂ t v refl
          (ap (λ q. (q.0).0) two) last)

  complete_with-Holds :
      (began : ℕ) (before : UsageSnapshot) (answer : Answer) (l m : Ledger) (s t : S) (v : Value)
      → complete_with store action began before answer l s ≡ ((ok v, m), t)
      → Holds before answer v l m
  unfolding complete_with
  complete_with-Holds began before answer l m s t v h =
      elim (if-cases (exhausted l) ((err (message "long-task budget exhausted"), l), s) _ _ h) [
        | inl over ↦ absurd (err-not-ok _ v (ap (λ p. (p.0).0) over))
        | inr asked ↦ request-Holds began before answer l m s t v asked
      ]

  -- A settlement counts the response that is held.
  settle_pending_action-Counts :
      (kind : String) (l l' : Ledger) (s s' : S) (held : PendingResponse)
      → IsWellFormed l
      → l.pending_response ≡ some held
      → settle_pending_action store kind l s ≡ ((ok tt, l'), s')
      → Counts l l' held.elapsed_ms held.tokens
  unfolding settle_pending_action
  settle_pending_action-Counts kind l l' s s' held w is h =
      let (p, l₁, s₁, one, rest) = next-eq-ok store (pending store l s) _ h in
      let own : p ≡ held = some-eq _ _ (sym (context-some _ _ p (ap (λ q. (q.0).0) one)) ∙ is) in
      let same : l ≡ l₁ = ap (λ q. (q.0).1) one in
      let (_, l₂, s₂, two, last) =
        next-eq-ok store (run_plan store (λ x. plan_settle x kind p.elapsed_ms p.tokens) l₁ s₁) _
          rest in
      let (plan, planned, _, _, after) =
        commit-eq store (plan_settle l₁ kind p.elapsed_ms p.tokens) l₁ s₁ tt l₂ s₂ two in
      let final : record l₂ { pending_response = none } ≡ l' = ap (λ q. (q.0).1) last in
      let counted =
        plan_settle-Counts l₁ kind p.elapsed_ms p.tokens plan (subst IsWellFormed same w) planned in
      subst (λ x. Counts l x held.elapsed_ms held.tokens) final
        (subst (λ x. Counts l (record x { pending_response = none }) held.elapsed_ms held.tokens)
          (sym after)
          (subst
            (λ (d : PendingResponse).
              Counts l (record (plan.next) { pending_response = none }) d.elapsed_ms d.tokens)
            own
            (subst
              (λ x. Counts x (record (plan.next) { pending_response = none }) p.elapsed_ms p.tokens)
              (sym same) counted)))

module _ (printer : Printer) (world : ℕ → Input) where
  abbrev journal : SessionStore Session
  journal = journal_store printer world

  -- A message that is appended keeps the journal and the ledger together.
  append_message-Coherent :
      (id : Option String) (l : Ledger) (s s' : Session) (m entry : Value)
      → append_message printer world s m ≡ (ok entry, s')
      → Coherent journal id l s
      → Coherent journal id l s'
  append_message-Coherent id l s s' m entry written c = record {
    well_formed = c.well_formed;
    records = c.records;
    stored = append_message-keeps printer world m s s' entry written ∙ c.stored;
    rebuilds = c.rebuilds;
  }

  -- An action request of a long task on the session journal, the append of a message after it, and the
  -- settlement of the request, where each of the three returns. The journal rebuilds the ledger after
  -- each of them, if it did before. Until the settlement the ledger holds the response with its
  -- reservation, its time and the growth of the usage, and has counted nothing; the settlement counts
  -- one request, exactly these tokens and this time, and holds nothing any more.
  pub action-Coherent :
      (id : Option String) (began : ℕ) (before : UsageSnapshot) (answer : Answer) (kind : String)
      (l m l' : Ledger) (s t u s' : Session) (v sent entry : Value)
      → Coherent journal id l s
      → complete_with journal action began before answer l s ≡ ((ok v, m), t)
      → append_message printer world t sent ≡ (ok entry, u)
      → settle_pending_action journal kind m u ≡ ((ok tt, l'), s')
      → Coherent journal id m t
        × Coherent journal id m u
        × Coherent journal id l' s'
        × ((holds : Holds journal before answer v l m) × Counts m l' answer.elapsed_ms
              holds.held.tokens)
  unfolding IsSound
  action-Coherent id began before answer kind l m l' s t u s' v sent entry c asked appended
        settled =
      let first : Coherent journal id m t =
        Steps-Coherent journal id
          (complete_with-IsSound journal action began before answer l m s t v asked) c in
      let second = append_message-Coherent id m t u sent entry appended first in
      let holds = complete_with-Holds journal began before answer l m s t v asked in
      (
        first,
        second,
        Steps-Coherent journal id (settle_pending_action-IsSound journal kind m l' u s' tt settled)
            second,
        (
          holds,
          subst (λ e. Counts m l' e holds.held.tokens) holds.timed
              (settle_pending_action-Counts journal kind m l' u s' holds.held second.well_formed
                holds.is_held settled),
        ),
      )
