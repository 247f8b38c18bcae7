-- ===== src/Runtime/Journaled.antt =====
-- src/runtime.rs with src/session.rs: the loop's turns on a session journal.
use danso.Prelude.{ℕ, ◌≡◌, refl, sym, ap, ◌∙◌, subst, List, [], ◌∷◌, ◌++◌, String}
use mathlib.Core.List.{append_assoc, append-nil}
use danso.Prelude.Result.{Result, ok, err, ok-eq}
use danso.Json.{Value}
use danso.Contracts.{ToolCall, ToolOutcome, OperationState, started, settled, state_name}
use danso.Compaction.{Printer}
use danso.Session.Recovery.{Recovery, add_message, operation}
use danso.Session.Journal.{Session, Input, append_message, record_operation, operation_data}
use danso.Session.Rescan.{Reads, append_message-Reads, record_operation-Reads}
use danso.Runtime.Action as Action
use danso.Runtime.Action.{
  Event, tool_started, tool_settled, message_entry, Host, Run, and_then, emit, journal_timed,
}
use danso.Runtime.Tools.{Attempt, tool_result, attempt, deliver, run_call, run_batch}
use danso.Runtime.Answers.{
  IsReady, push_ids, begun, replied, answered, start-begun, reply-replied, settle-answered,
  AllReady, answer_all, answered-AllReady,
}

-- A sequence of actions that succeeds, taken apart at its first step.
pub and_then-eq-ok :
    {S W A B : Type 0} (first : Result A × Run S W) (rest : A → Run S W → Result B × Run S W)
    {b : B} {after : Run S W}
    → and_then first rest ≡ (ok b, after)
    → (a : A) × (mid : Run S W) × (first ≡ (ok a, mid)) × (rest a mid ≡ (ok b, after))
and_then-eq-ok (err f, mid) rest h = cc
and_then-eq-ok (ok a, mid) rest h = (a, mid, refl, h)

pub pair-eq : {A B : Type 0} {p q : A × B} → p ≡ q → (p.0 ≡ q.0) × (p.1 ≡ q.1)
pair-eq h = (ap (λ p. p.0) h, ap (λ p. p.1) h)

pub pair-of : {A B : Type 0} (p : A × B) (a : A) (b : B) → p.0 ≡ a → p.1 ≡ b → p ≡ (a, b)
pair-of p a b first second = ap (λ x. (x, p.1)) first ∙ ap (λ y. (a, y)) second

module _ {W : Type 0} (printer : Printer) (world : ℕ → Input) (outside : Host Session W) where
  -- The host whose session store is the journal.
  abbrev pub journal_host : Host Session W
  journal_host = record outside {
    append_message = λ m s. append_message printer world s m;
    record_operation = λ id state s. record_operation printer world s id state;
  }

  pub emit-session :
      (event : Event) (a : Unit {0}) (run run' : Run Session W)
      → emit journal_host event run ≡ (ok a, run')
      → run'.session ≡ run.session
  emit-session event a run run' h = sym (ap (λ (x : Run Session W). x.session) (pair-eq h).1)

  pub emit-Reads :
      (event : Event) (a : Unit {0}) (run run' : Run Session W) (ms : List Value) (r : Recovery)
      → emit journal_host event run ≡ (ok a, run')
      → Reads printer world run.session ms r
      → Reads printer world run'.session ms r
  emit-Reads event a run run' ms r h reads = rw (emit-session event a run run' h) reads

  pub marker-Reads :
      (id : String) (state : OperationState) (a : Unit {0}) (run run' : Run Session W)
      (ms : List Value) (r r' : Recovery)
      → Action.record_operation journal_host id state run ≡ (ok a, run')
      → operation r (operation_data id (state_name state)) ≡ ok r'
      → Reads printer world run.session ms r
      → Reads printer world run'.session ms r'
  marker-Reads id state a run run' ms r r' h accepted reads =
      let (written, after) = pair-eq h in
      record_operation-Reads printer world run.session run'.session id state ms r r' reads
        (pair-of (record_operation printer world run.session id state) (ok tt) run'.session written
          (ap (λ (x : Run Session W). x.session) after))
        accepted

  pub message-Reads :
      (m e : Value) (run run' : Run Session W) (ms : List Value) (r r' : Recovery)
      → Action.append_message journal_host m run ≡ (ok e, run')
      → add_message r m ≡ ok r'
      → Reads printer world run.session ms r
      → Reads printer world run'.session (ms ++ m ∷ []) r'
  message-Reads m e run run' ms r r' h accepted reads =
      let (written, after) = pair-eq h in
      append_message-Reads printer world run.session run'.session m e ms r r' reads
        (pair-of (append_message printer world run.session m) (ok e) run'.session written
          (ap (λ (x : Run Session W). x.session) after))
        accepted

  deliver-Reads :
      (c : ToolCall) (outcome : ToolOutcome) (at : ℕ) (run run' : Run Session W) (ms : List Value)
      (r : Recovery) (result : Value) (a : Attempt)
      → Reads printer world run.session ms (begun r c)
      → IsReady r c
      → deliver journal_host c outcome (tool_result c outcome at) run ≡ (ok (result, a), run')
      → Reads printer world run'.session (ms ++ result ∷ []) (answered r c)
  unfolding deliver
  deliver-Reads c outcome at run run' ms r result a reads ready h =
      let (entry, run₁, written, h₁) =
        and_then-eq-ok (Action.append_message journal_host (tool_result c outcome at) run) _ h in
      let (_, run₂, listed, h₂) =
        and_then-eq-ok (emit journal_host (message_entry entry) run₁) _ h₁ in
      let (_, run₃, closed, h₃) =
        and_then-eq-ok (Action.record_operation journal_host c.id settled run₂) _ h₂ in
      let (_, run₄, ended, h₄) =
        and_then-eq-ok (emit journal_host (tool_settled outcome.is_error) run₃) _ h₃ in
      let (same, final) = pair-eq h₄ in
      let told =
        message-Reads (tool_result c outcome at) entry run run₁ ms (begun r c) (replied r c) written
          (reply-replied r c outcome at ready) reads in
      let noted = emit-Reads (message_entry entry) _ run₁ run₂ _ (replied r c) listed told in
      let marked =
        marker-Reads c.id settled _ run₂ run₃ _ (replied r c) (answered r c) closed
          (settle-answered r c ready) noted in
      let shown =
        emit-Reads (tool_settled outcome.is_error) _ run₃ run₄ _ (answered r c) ended marked in
      let told_result : tool_result c outcome at ≡ result =
        sym (ap (λ (p : Value × Attempt). p.0) (ok-eq _ _ same)) in
      subst (λ v. Reads printer world run'.session (ms ++ v ∷ []) (answered r c)) told_result
        (subst
          (λ (x : Run Session W).
            Reads printer world x.session (ms ++ tool_result c outcome at ∷ []) (answered r c))
          final shown)

  pub attempt-session :
      (c : ToolCall) (outcome : ToolOutcome) (run run' : Run Session W)
      → attempt journal_host c run ≡ (ok outcome, run')
      → run'.session ≡ run.session
  unfolding attempt
  attempt-session c outcome run run' h = sym (ap (λ (x : Run Session W). x.session) (pair-eq h).1)

  run_call-Reads :
      (c : ToolCall) (run run' : Run Session W) (ms : List Value) (r : Recovery) (result : Value)
      (a : Attempt)
      → Reads printer world run.session ms r
      → IsReady r c
      → run_call journal_host c run ≡ (ok (result, a), run')
      → Reads printer world run'.session (ms ++ result ∷ []) (answered r c)
  unfolding run_call
  run_call-Reads c run run' ms r result a reads ready h =
      let (_, run₁, marked, h₁) =
        and_then-eq-ok (Action.record_operation journal_host c.id started run) _ h in
      let (_, run₂, shown, h₂) =
        and_then-eq-ok (emit journal_host (tool_started c.name) run₁) _ h₁ in
      let (outcome, run₃, done, h₃) = and_then-eq-ok (attempt journal_host c run₂) _ h₂ in
      let marked' =
        marker-Reads c.id started _ run run₁ ms r (begun r c) marked (start-begun r c ready)
          reads in
      let shown' = emit-Reads (tool_started c.name) _ run₁ run₂ ms (begun r c) shown marked' in
      let kept : run₃.session ≡ run₂.session = attempt-session c outcome run₂ run₃ done in
      deliver-Reads c outcome (outside.millis run₃.world) run₃ run' ms r result a (rw kept shown')
        ready h₃

  -- A batch that returned has run every call: the journal reads on with the results in order.
  pub run_batch-Reads :
      (cs : List ToolCall) (run run' : Run Session W) (ms : List Value) (r : Recovery)
      (results : List Value) (batch : List Attempt)
      → Reads printer world run.session ms r
      → AllReady r cs
      → run_batch journal_host cs run ≡ (ok (results, batch), run')
      → Reads printer world run'.session (ms ++ results) (answer_all r cs)
  unfolding run_batch push_ids
  run_batch-Reads [] run run' ms r results batch reads ready h =
      let (same, final) = pair-eq h in
      let none_run : [] ≡ results =
        sym (ap (λ (p : List Value × List Attempt). p.0) (ok-eq _ _ same)) in
      subst (λ v. Reads printer world run'.session (ms ++ v) r) none_run
        (subst (λ (x : Run Session W). Reads printer world x.session (ms ++ []) r) final
          (rw (append-nil ms) reads))
  run_batch-Reads (c ∷ cs) run run' ms r results batch reads (this, apart, those) h =
      let (done, run₁, called, h₁) = and_then-eq-ok (run_call journal_host c run) _ h in
      let (rest, run₂, batched, h₂) = and_then-eq-ok (run_batch journal_host cs run₁) _ h₁ in
      let (same, final) = pair-eq h₂ in
      let listed : done.0 ∷ rest.0 ≡ results =
        sym (ap (λ (p : List Value × List Attempt). p.0) (ok-eq _ _ same)) in
      let first = run_call-Reads c run run₁ ms r done.0 done.1 reads this called in
      let all =
        run_batch-Reads cs run₁ run₂ (ms ++ done.0 ∷ []) (answered r c) rest.0 rest.1 first
          (answered-AllReady r c cs apart those) batched in
      subst (λ v. Reads printer world run'.session (ms ++ v) (answer_all (answered r c) cs)) listed
        (subst
          (λ (x : Run Session W).
            Reads printer world x.session (ms ++ done.0 ∷ rest.0) (answer_all (answered r c) cs))
          final
          (subst (λ v. Reads printer world run₂.session v (answer_all (answered r c) cs))
            (append_assoc ms (done.0 ∷ []) rest.0) all))
