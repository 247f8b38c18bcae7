-- ===== src/Runtime/Turns.antt =====
-- src/runtime.rs with src/session.rs: whole turns of the loop on a session journal.
use danso.Prelude.{
  ℕ, ◌≡◌, refl, sym, ap, ◌∙◌, subst, Bool, true, not, ◌||◌, List, [], ◌∷◌, ◌++◌, String,
}
use mathlib.Core.List.{append_assoc}
use danso.Prelude.Result.{ensure-true, ok, ensure, >>=-eq-ok, ok-eq}
use danso.Json.{Value, index, is_str}
use danso.Contracts.{ToolCall, tool_calls}
use danso.Compaction.{Printer}
use danso.Session.Recovery.{
  Recovery, add_message, add_calls, check_content, complete, is_empty, has_results,
}
use danso.Session.Scan.{check_recovery, all_messages}
use danso.Session.Journal.{Session, Input, scan}
use danso.Session.Calls.{and-eq-true}
use danso.Session.Rescan.{Reads}
use danso.Session.Changes.{scan_entries-IsConsistent}
use danso.Runtime.Action as Action
use danso.Runtime.Action.{Host, Run, emit, Event, message_entry, text_delta, message_completed}
use danso.Runtime.Tools.{
  Attempt, response_calls, insert_ids, is_empty as no_calls, run_batch, lift, boundary, run_message,
  turn,
}
use danso.Runtime.Answers.{push_ids, answer_all, AllReady}
use danso.Runtime.NewCalls.{
  insert_ids-NewTo, Covers, add_calls-called, called, called-AllReady, has_results-called,
}
use danso.Runtime.Journaled.{
  journal_host, and_then-eq-ok, pair-eq, emit-session, message-Reads, run_batch-Reads,
}
use danso.Runtime.Streams.{boundary-session}

-- A message that passes the loop's checks is the assistant's, and its calls are read.
response_calls-Reads :
    (no_tools : Bool) (m : Value) (cs : List ToolCall)
    → response_calls no_tools m ≡ ok cs
    → (is_str (index m "role") "assistant" ≡ true) × (tool_calls m ≡ ok cs)
unfolding response_calls
response_calls-Reads no_tools m cs h =
    let (_, role, h₁) =
      >>=-eq-ok
        (ensure (is_str (index m "role") "assistant") "provider must return an assistant message") _
        h in
    let (calls, read, h₂) = >>=-eq-ok (tool_calls m) _ h₁ in
    let (_, _, h₃) =
      >>=-eq-ok (ensure (not no_tools || no_calls calls) "tools are disabled for this invocation") _
        h₂ in
    let (_, _, h₄) =
      >>=-eq-ok
        (ensure
          (not (no_calls calls)
            || is_str (index m "stopReason") "stop"
            || is_str (index m "stopReason") "length")
          "invalid terminal response")
        _ h₃ in
    let (_, _, h₅) =
      >>=-eq-ok
        (ensure (no_calls calls || is_str (index m "stopReason") "toolUse") "invalid tool response")
        _ h₄ in
    (ensure-true _ _ tt role, read ∙ h₅)

-- The state of the calls takes the message in by adding its calls.
abbrev AcceptsCalls : Value → List ToolCall → Type 0
AcceptsCalls m cs = (r : Recovery) → add_message r m ≡ add_calls r cs

add_message-calls :
    (r : Recovery) (m : Value) (cs : List ToolCall)
    → check_content m ≡ ok tt
    → is_str (index m "role") "assistant" ≡ true
    → tool_calls m ≡ ok cs
    → add_message r m ≡ add_calls r cs
unfolding add_message
add_message-calls r m cs content role read = rw (content, role, read) refl

complete-answer_all :
    (r : Recovery) (cs : List ToolCall)
    → complete r ≡ ok tt
    → complete (answer_all (record r { calls = called r.calls cs }) cs) ≡ ok tt
unfolding complete
complete-answer_all r cs done =
    let (emptied, answered) =
      and-eq-true (is_empty r.started) (has_results r.results r.calls) (ensure-true _ _ tt done) in
    rw (emptied, has_results-called r.results r.calls cs answered) refl

module _ {W : Type 0} (printer : Printer) (world : ℕ → Input) (outside : Host Session W) where
  -- The journal reads, nothing in it is pending, and the ids are known of all its calls.
  pub record IsSettled (s : Session) (ms : List Value) (ids : List String) : Type 0 where
    pub recovery : Recovery
    pub reads : Reads printer world s ms recovery
    pub completed : complete recovery ≡ ok tt
    pub covers : Covers ids recovery.calls

  -- A settled journal is accepted by check_recovery, and gives its messages.
  pub settled-Accepts :
      (s : Session) (ms : List Value) (ids : List String)
      → IsSettled s ms ids
      → (check_recovery printer s.header s.entries ≡ ok tt)
        × (all_messages printer s.header s.entries ≡ ok ms)
  unfolding check_recovery all_messages scan
  settled-Accepts s ms ids settled = (
    rw (settled.reads.read, settled.completed) refl,
    rw (settled.reads.read, settled.completed) refl,
  )

  run_calls-IsSettled :
      (m : Value) (cs : List ToolCall) (ids : List String) (run run' : Run Session W)
      (ms results : List Value) (batch : List Attempt) (before : Session)
      → (settled : IsSettled before ms ids) → insert_ids ids cs ≡ ok (push_ids ids cs)
      → Reads printer world run.session
          (ms ++ m ∷ [])
          (record settled.recovery { calls = called settled.recovery.calls cs })
      → run_batch (journal_host printer world outside) cs run ≡ (ok (results, batch), run')
      → IsSettled run'.session (ms ++ m ∷ results) (push_ids ids cs)
  unfolding scan
  run_calls-IsSettled m cs ids run run' ms results batch before settled inserted reads done =
      let r : Recovery = settled.recovery in
      let (new, _) = insert_ids-NewTo ids (push_ids ids cs) cs inserted in
      let consistent =
        scan_entries-IsConsistent printer before.header before.entries ms r settled.reads.read in
      let ready : AllReady (record r { calls = called r.calls cs }) cs =
        called-AllReady r ids cs consistent new settled.covers in
      let after =
        run_batch-Reads printer world outside cs run run' (ms ++ m ∷ [])
          (record r { calls = called r.calls cs }) results batch reads ready done in
      record {
        recovery = answer_all (record r { calls = called r.calls cs }) cs;
        reads =
            subst
              (λ v.
                Reads printer world run'.session v
                  (answer_all (record r { calls = called r.calls cs }) cs))
              (append_assoc ms (m ∷ []) results) after;
        completed = complete-answer_all r cs settled.completed;
        covers = (add_calls-called r ids cs new settled.covers).1;
      }

  run_message-IsSettled :
      (streamed : Bool) (m : Value) (cs : List ToolCall) (ids : List String)
      (run run' : Run Session W) (ms msgs : List Value) (batch : List Attempt)
      → IsSettled run.session ms ids
      → AcceptsCalls m cs
      → insert_ids ids cs ≡ ok (push_ids ids cs)
      → run_message (journal_host printer world outside) streamed m cs run
        ≡ (ok (msgs, batch), run')
      → IsSettled run'.session (ms ++ msgs) (push_ids ids cs)
  unfolding run_message
  run_message-IsSettled streamed m cs ids run run' ms msgs batch settled accepted inserted h =
      let (entry, run₁, written, h₁) =
        and_then-eq-ok (Action.append_message (journal_host printer world outside) m run) _ h in
      let (_, run₂, shown, h₂) =
        and_then-eq-ok (emit (journal_host printer world outside) (message_entry entry) run₁) _
          h₁ in
      let (_, run₃, bounded, h₃) =
        and_then-eq-ok (boundary (journal_host printer world outside) streamed m cs run₂) _ h₂ in
      let (done, run₄, batched, h₄) =
        and_then-eq-ok (run_batch (journal_host printer world outside) cs run₃) _ h₃ in
      let r : Recovery = settled.recovery in
      let (new, _) = insert_ids-NewTo ids (push_ids ids cs) cs inserted in
      let (added, _) = add_calls-called r ids cs new settled.covers in
      let told =
        message-Reads printer world outside m entry run run₁ ms r
          (record r { calls = called r.calls cs }) written (accepted r ∙ added) settled.reads in
      let kept : run₃.session ≡ run₁.session =
        boundary-session printer world outside streamed m cs _ run₂ run₃ bounded
        ∙ emit-session printer world outside (message_entry entry) _ run₁ run₂ shown in
      let after =
        run_calls-IsSettled m cs ids run₃ run₄ ms done.0 done.1 run.session settled inserted
          (rw kept told) batched in
      let (same, final) = pair-eq h₄ in
      let listed : m ∷ done.0 ≡ msgs =
        sym (ap (λ (p : List Value × List Attempt). p.0) (ok-eq _ _ same)) in
      subst (λ v. IsSettled run'.session (ms ++ v) (push_ids ids cs)) listed
        (subst (λ (x : Run Session W). IsSettled x.session (ms ++ m ∷ done.0) (push_ids ids cs))
          final after)

  checked-IsSettled :
      (no_tools streamed : Bool) (m : Value) (cs : List ToolCall) (ids known : List String)
      (run run' : Run Session W) (ms : List Value) (done : List Value × List Attempt)
      → IsSettled run.session ms ids
      → check_content m ≡ ok tt
      → response_calls no_tools m ≡ ok cs
      → insert_ids ids cs ≡ ok known
      → run_message (journal_host printer world outside) streamed m cs run ≡ (ok done, run')
      → IsSettled run'.session (ms ++ done.0) known
  checked-IsSettled no_tools streamed m cs ids known run run' ms done settled content checked
        inserted ran =
      let (role, read) = response_calls-Reads no_tools m cs checked in
      let (_, all) = insert_ids-NewTo ids known cs inserted in
      subst (λ k. IsSettled run'.session (ms ++ done.0) k) (sym all)
        (run_message-IsSettled streamed m cs ids run run' ms done.0 done.1 settled
          (λ r. add_message-calls r m cs content role read) (inserted ∙ ap ok all) ran)

  -- A turn that returns, in a run without a long task, leaves nothing pending: the journal holds the
  -- message and then the results of its calls, check_recovery accepts it, and the next turn can start.
  -- The message's content is one that the journal can hold.
  pub turn-IsSettled :
      (no_tools streamed : Bool) (ids known : List String) (m : Value) (run run' : Run Session W)
      (ms msgs : List Value) (batch : List Attempt)
      → IsSettled run.session ms ids
      → check_content m ≡ ok tt
      → turn (journal_host printer world outside) no_tools streamed ids m run
        ≡ (ok (known, (msgs, batch)), run')
      → IsSettled run'.session (ms ++ msgs) known
        × (check_recovery printer run'.session.header run'.session.entries ≡ ok tt)
        × (all_messages printer run'.session.header run'.session.entries ≡ ok (ms ++ msgs))
  unfolding turn
  turn-IsSettled no_tools streamed ids known m run run' ms msgs batch settled content h =
      let (cs, run₁, checked, h₁) =
        and_then-eq-ok (lift (journal_host printer world outside) (response_calls no_tools m) run) _
          h in
      let (all, run₂, inserted, h₂) =
        and_then-eq-ok (lift (journal_host printer world outside) (insert_ids ids cs) run₁) _ h₁ in
      let (done, run₃, ran, h₃) =
        and_then-eq-ok (run_message (journal_host printer world outside) streamed m cs run₂) _ h₂ in
      let (calls, same₁) = pair-eq checked in
      let (fresh, same₂) = pair-eq inserted in
      let (result, final) = pair-eq h₃ in
      let returned : (known, (msgs, batch)) ≡ (all, done) = ok-eq _ _ result in
      let after : IsSettled run₃.session (ms ++ done.0) all =
        checked-IsSettled no_tools streamed m cs ids all run₂ run₃ ms done
          (subst (λ (x : Run Session W). IsSettled x.session ms ids) (same₁ ∙ same₂) settled)
          content calls fresh ran in
      let all_known : all ≡ known =
        sym (ap (λ (p : List String × (List Value × List Attempt)). p.0) returned) in
      let all_msgs : done.0 ≡ msgs =
        sym (ap (λ (p : List String × (List Value × List Attempt)). (p.1).0) returned) in
      let here : IsSettled run'.session (ms ++ msgs) known =
        subst (λ k. IsSettled run'.session (ms ++ msgs) k) all_known
          (subst (λ v. IsSettled run'.session (ms ++ v) all) all_msgs
            (subst (λ (x : Run Session W). IsSettled x.session (ms ++ done.0) all) final after)) in
      let (accepted, read) = settled-Accepts run'.session (ms ++ msgs) known here in
      (here, accepted, read)
