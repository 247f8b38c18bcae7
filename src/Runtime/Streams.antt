-- ===== src/Runtime/Streams.antt =====
-- src/runtime.rs: the interim stream, which leaves the session alone.
use danso.Prelude.{
  ℕ, ◌≡◌, sym, ap, ◌∙◌, inl, inr, ◌⊎◌, Bool, true, false, List, [], ◌∷◌, String, if◌then◌else◌,
}
use danso.Prelude.Result.{ok}
use danso.Json.{Value, index, is_str}
use danso.Contracts.{ToolCall, is_blank, text_blocks}
use danso.Compaction.{Printer}
use danso.Session.Journal.{Session, Input}
use danso.Runtime.Action as Action
use danso.Runtime.Action.{Host, Run, emit, Event, message_entry, text_delta, message_completed}
use danso.Runtime.Tools.{stream_blocks, close_message, stream_assistant_text, boundary}
use danso.Runtime.Journaled.{journal_host, and_then-eq-ok, pair-eq, emit-session}

branch-cases :
    {A B : Type 0} (b : Bool) (x y : A → B) (a : A) (z : B)
    → (if b then x else y) a ≡ z
    → (x a ≡ z) ⊎ (y a ≡ z)
branch-cases true x y a z h = inl h
branch-cases false x y a z h = inr h

module _ {W : Type 0} (printer : Printer) (world : ℕ → Input) (outside : Host Session W) where
  stream_blocks-session :
      (streamed b : Bool) (texts : List String) (run run' : Run Session W)
      → stream_blocks (journal_host printer world outside) streamed texts run ≡ (ok b, run')
      → run'.session ≡ run.session
  unfolding stream_blocks
  stream_blocks-session streamed b [] run run' h =
      sym (ap (λ (x : Run Session W). x.session) (pair-eq h).1)
  stream_blocks-session streamed b (text ∷ texts) run run' h =
      elim (branch-cases (is_blank text)
        (stream_blocks (journal_host printer world outside) streamed texts) _ run _ h) [
          | inl passed ↦ stream_blocks-session streamed b texts run run' passed
          | inr shown ↦
              let (a, mid, first, rest) =
                and_then-eq-ok (emit (journal_host printer world outside) (text_delta text) run) _
                  shown in
              stream_blocks-session true b texts mid run' rest
              ∙ emit-session printer world outside (text_delta text) a run mid first
        ]

  close_message-session :
      (streamed : Bool) (a : Unit {0}) (run run' : Run Session W)
      → close_message (journal_host printer world outside) streamed run ≡ (ok a, run')
      → run'.session ≡ run.session
  close_message-session true a run run' h =
      emit-session printer world outside message_completed a run run' h
  close_message-session false a run run' h =
      sym (ap (λ (x : Run Session W). x.session) (pair-eq h).1)

  pub boundary-session :
      (streamed : Bool) (m : Value) (cs : List ToolCall) (a : Unit {0}) (run run' : Run Session W)
      → boundary (journal_host printer world outside) streamed m cs run ≡ (ok a, run')
      → run'.session ≡ run.session
  unfolding stream_assistant_text
  boundary-session streamed m [] a run run' h =
      sym (ap (λ (x : Run Session W). x.session) (pair-eq h).1)
  boundary-session true m (c ∷ cs) a run run' h =
      emit-session printer world outside message_completed a run run' h
  boundary-session false m (c ∷ cs) a run run' h =
      elim (branch-cases (is_str (index m "role") "assistant") _ (Action.return tt) run _ h) [
        | inl streamed ↦
            let (b, mid, first, rest) =
              and_then-eq-ok
                (stream_blocks (journal_host printer world outside) false (text_blocks m) run) _
                streamed in
            close_message-session b a mid run' rest
            ∙ stream_blocks-session false b (text_blocks m) run mid first
        | inr other ↦ sym (ap (λ (x : Run Session W). x.session) (pair-eq other).1)
      ]
