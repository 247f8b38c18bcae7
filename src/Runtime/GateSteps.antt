-- ===== src/Runtime/GateSteps.antt =====
-- src/runtime.rs: the gate and the boundaries as steps of the ledger.
use danso.Prelude.{
  ℕ, String, ◌≡◌, refl, sym, ap, subst, Bool, true, false, Option, none, some, if◌then◌else◌, inl,
  inr, ◌⊎◌,
}
use danso.Prelude.Result.{Result, ok, err, message, context}
use danso.Json.{Value}
use danso.Usage.{UsageSnapshot}
use danso.LongTask.Ledger.{Ledger, TokenDelta, PendingResponse}
use danso.LongTask.Ops.{SessionStore, plan_begin, plan_settle, plan_fail_request, plan_pause}
use danso.LongTask.Recovery.{
  Steps, begin_request, settle_request, fail_request, pause, hold, stay, step,
}
use danso.Runtime.Gate.{
  GateMode, action, summary, Answer, token_delta, exhausted, over_tokens, Operation, next, ◌>>=◌,
  give, hold_response, run_plan, bounded_summary, take_answer, complete_with, pending,
  settle_pending_action, fail_pending_action, failure_category, request,
}

pub if-cases : {A : Type 0} (b : Bool) (x y z : A) → (if b then x else y) ≡ z → (x ≡ z) ⊎ (y ≡ z)
if-cases true x y z h = inl h
if-cases false x y z h = inr h

module _ {S : Type 0} (store : SessionStore S) where
  -- An operation that returns a value has only made steps of the ledger.
  unfoldable pub IsSound : {A : Type 0} → Operation S A → Type 0
  IsSound {A = A} op =
      (l l' : Ledger) (s s' : S) (a : A) → op l s ≡ ((ok a, l'), s') → Steps store l s l' s'

  pub next-eq-ok :
      {A B : Type 0} (first : (Result A × Ledger) × S) (rest : A → Operation S B) {b : B}
      {l' : Ledger} {s' : S}
      → next first rest ≡ ((ok b, l'), s')
      → (a : A) × (l : Ledger) × (s : S) × (first ≡ ((ok a, l), s))
        × (rest a l s ≡ ((ok b, l'), s'))
  next-eq-ok ((err e, l), s) rest h = cc
  next-eq-ok ((ok a, l), s) rest h = (a, l, s, refl, h)

  Steps-trans :
      {k l m : Ledger} {s t u : S} → Steps store k s l t → Steps store l t m u → Steps store k s m u
  Steps-trans stay more = more
  Steps-trans (step first rest) more = step first (Steps-trans rest more)

  pub chain-IsSound :
      {A B : Type 0} (first : Operation S A) (rest : A → Operation S B)
      → IsSound first
      → ((a : A) → IsSound (rest a))
      → IsSound (first >>= rest)
  unfolding IsSound
  chain-IsSound first rest f g l l' s s' b h =
      let (a, m, t, one, two) = next-eq-ok (first l s) rest h in
      Steps-trans (f l m s t a one) (g a m l' t s' b two)

  pub give-IsSound : {A : Type 0} (result : Result A) → IsSound (give result)
  unfolding IsSound
  give-IsSound result l l' s s' a h =
      let ledger : l ≡ l' = ap (λ p. (p.0).1) h in
      let state : s ≡ s' = ap (λ p. p.1) h in
      subst (λ m. Steps store l s m s') ledger (subst (λ t. Steps store l s l t) state stay)

  -- Reading the ledger.
  reads-IsSound : {A : Type 0} (read : Ledger → Result A) → IsSound (λ l s. ((read l, l), s))
  unfolding IsSound
  reads-IsSound read l l' s s' a h = give-IsSound (read l) l l' s s' a h

  hold-IsSound : (pending : Option PendingResponse) → IsSound (hold_response pending)
  unfolding IsSound
  hold-IsSound pending l l' s s' a h =
      step (hold pending (sym (ap (λ p. (p.0).1) h)) (sym (ap (λ p. p.1) h))) stay

  settle-IsSound :
      (kind : String) (elapsed : ℕ) (delta : TokenDelta)
      → IsSound (run_plan store (λ l. plan_settle l kind elapsed delta))
  unfolding IsSound
  settle-IsSound kind elapsed delta l l' s s' a h = step (settle_request kind elapsed delta h) stay

  fail-IsSound :
      (category : String) (elapsed : ℕ) (delta : TokenDelta)
      → IsSound (run_plan store (λ l. plan_fail_request l category elapsed delta))
  unfolding IsSound
  fail-IsSound category elapsed delta l l' s s' a h =
      step (fail_request category elapsed delta h) stay

  pub pause-IsSound : (reason : String) → IsSound (run_plan store (λ l. plan_pause l reason))
  unfolding IsSound
  pause-IsSound reason l l' s s' a h = step (pause reason h) stay

  begin-IsSound : (began : ℕ) → IsSound (run_plan store (λ l. plan_begin l began))
  unfolding IsSound
  begin-IsSound began l l' s s' n h = step (begin_request began n h) stay

  if-IsSound :
      {A : Type 0} (b : Ledger → Bool) (x y : Operation S A)
      → IsSound x
      → IsSound y
      → IsSound (λ l s. if b l then x l s else y l s)
  unfolding IsSound
  if-IsSound b x y f g l l' s s' a h = elim (if-cases (b l) (x l s) (y l s) _ h) [
    | inl one ↦ f l l' s s' a one
    | inr other ↦ g l l' s s' a other
  ]

  take_answer-IsSound :
      (mode : GateMode) (answer : Answer) (delta : TokenDelta) (response : Result Value)
      → IsSound (take_answer store mode answer delta response)
  unfolding take_answer
  take_answer-IsSound summary answer delta (ok response) =
      chain-IsSound (run_plan store (λ l. plan_settle l "summary" answer.elapsed_ms delta))
        (λ _. bounded_summary store response) (settle-IsSound "summary" answer.elapsed_ms delta)
        (λ _.
          if-IsSound over_tokens _ (give (ok response))
            (chain-IsSound (run_plan store (λ m. plan_pause m "request_budget")) (λ _. give _)
              (pause-IsSound "request_budget") (λ _. give-IsSound _))
            (give-IsSound (ok response)))
  take_answer-IsSound action answer delta (ok response) =
      chain-IsSound
        (λ l s. ((context l.pending_sequence "long-task action reservation disappeared", l), s)) _
        (reads-IsSound (λ l. context l.pending_sequence "long-task action reservation disappeared"))
        (λ sequence.
          chain-IsSound
            (hold_response (
              some
                (record { sequence = sequence; elapsed_ms = answer.elapsed_ms; tokens = delta })))
            (λ _. give (ok response)) (hold-IsSound _) (λ _. give-IsSound (ok response)))
  take_answer-IsSound summary answer delta (err e) =
      chain-IsSound
        (run_plan store (λ l.
          plan_fail_request l (failure_category store answer.is_timeout) answer.elapsed_ms delta))
        (λ _. give (err e)) (fail-IsSound _ answer.elapsed_ms delta) (λ _. give-IsSound (err e))
  take_answer-IsSound action answer delta (err e) =
      chain-IsSound
        (run_plan store (λ l.
          plan_fail_request l (failure_category store answer.is_timeout) answer.elapsed_ms delta))
        (λ _. give (err e)) (fail-IsSound _ answer.elapsed_ms delta) (λ _. give-IsSound (err e))

  pub complete_with-IsSound :
      (mode : GateMode) (began : ℕ) (before : UsageSnapshot) (answer : Answer)
      → IsSound (complete_with store mode began before answer)
  unfolding complete_with
  complete_with-IsSound mode began before answer =
      if-IsSound exhausted (give (err (message "long-task budget exhausted")))
        (request store mode began before answer) (give-IsSound _)
        (chain-IsSound (run_plan store (λ l. plan_begin l began)) _ (begin-IsSound began) (λ _.
          chain-IsSound (give (token_delta before answer.after)) _ (give-IsSound _)
            (λ delta. take_answer-IsSound mode answer delta answer.response)))

  pub settle_pending_action-IsSound : (kind : String) → IsSound (settle_pending_action store kind)
  unfolding settle_pending_action
  settle_pending_action-IsSound kind =
      chain-IsSound (pending store) _
        (reads-IsSound (λ l. context l.pending_response "long-task action reservation disappeared"))
        (λ held.
          chain-IsSound (run_plan store (λ l. plan_settle l kind held.elapsed_ms held.tokens)) _
            (settle-IsSound kind held.elapsed_ms held.tokens) (λ _. hold-IsSound none))

  pub fail_pending_action-IsSound :
      (category : String) → IsSound (fail_pending_action store category)
  unfolding fail_pending_action
  fail_pending_action-IsSound category =
      chain-IsSound (pending store) _
        (reads-IsSound (λ l. context l.pending_response "long-task action reservation disappeared"))
        (λ held.
          chain-IsSound
            (run_plan store (λ l. plan_fail_request l category held.elapsed_ms held.tokens)) _
            (fail-IsSound category held.elapsed_ms held.tokens) (λ _. hold-IsSound none))
