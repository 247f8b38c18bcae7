-- ===== src/Runtime/Crashes.antt =====
-- src/runtime.rs with src/session.rs: a call that stops on the way, and what its journal still says.
use danso.Prelude.{ℕ, ◌≡◌, refl, inl, inr, ◌⊎◌, true, List, [], ◌∷◌, ◌++◌}
use danso.Prelude.Result.{err, Failure}
use danso.Json.{Value, contains}
use danso.Json.Laws.{str_eq_same}
use danso.Contracts.{ToolCall, ToolOutcome, started, settled}
use danso.Compaction.{Printer}
use danso.Session.Recovery.{Recovery}
use danso.Session.Journal.{Session, Input}
use danso.Session.Rescan.{Reads}
use danso.Runtime.Action as Action
use danso.Runtime.Action.{
  Event, tool_started, tool_settled, message_entry as message_event, Host, Run, and_then, emit,
}
use danso.Runtime.Tools.{tool_result, attempt, deliver, reply, run_call}
use danso.Runtime.Answers.{
  IsReady, begun, replied, answered, start-begun, reply-replied, settle-answered,
}
use danso.Runtime.Journaled.{
  journal_host, pair-eq, attempt-session, emit-Reads, message-Reads, marker-Reads,
}
use danso.Runtime.Kept.{ok-not-err, and_then-eq-err, marker-Kept, message-Kept, emit-Kept}

module _ {W : Type 0} (printer : Printer) (world : ℕ → Input) (outside : Host Session W) where
  -- The journal has the call's marker, settled or not.
  pub Marked : Session → ToolCall → Type 0
  Marked s c =
      (ms : List Value) × (r : Recovery) × Reads printer world s ms r
      × ((contains r.started c.id ≡ true) ⊎ (contains r.settled c.id ≡ true))

  begun-Marked :
      (s : Session) (c : ToolCall) (ms : List Value) (r : Recovery)
      → Reads printer world s ms (begun r c)
      → Marked s c
  unfolding Marked contains
  begun-Marked s c ms r reads = (ms, begun r c, reads, inl (rw (str_eq_same c.id) refl))

  replied-Marked :
      (s : Session) (c : ToolCall) (ms : List Value) (r : Recovery)
      → Reads printer world s ms (replied r c)
      → Marked s c
  unfolding Marked contains
  replied-Marked s c ms r reads = (ms, replied r c, reads, inl (rw (str_eq_same c.id) refl))

  answered-Marked :
      (s : Session) (c : ToolCall) (ms : List Value) (r : Recovery)
      → Reads printer world s ms (answered r c)
      → Marked s c
  unfolding Marked contains
  answered-Marked s c ms r reads = (ms, answered r c, reads, inr (rw (str_eq_same c.id) refl))

  attempt-not-err :
      (c : ToolCall) (f : Failure) (run run' : Run Session W)
      → ¬ (attempt (journal_host printer world outside) c run ≡ (err f, run'))
  unfolding attempt
  attempt-not-err c f run run' h = ok-not-err _ f (pair-eq h).0

  settle-Marked :
      {A : Type 0} (c : ToolCall) (outcome : ToolOutcome) (result : A) (f : Failure)
      (run run' : Run Session W) (ms : List Value) (r : Recovery)
      → Reads printer world run.session ms (replied r c)
      → IsReady r c
      → and_then
          (Action.record_operation (journal_host printer world outside) c.id settled run)
          (λ _.
            Action.◌>>◌
              (emit (journal_host printer world outside) (tool_settled outcome.is_error))
              (Action.return result))
        ≡ (err f, run')
      → Marked run'.session c
  settle-Marked c outcome result f run run' ms r reads ready h =
      elim (and_then-eq-err
        (Action.record_operation (journal_host printer world outside) c.id settled run) _ h) [
          | inl unmarked ↦
              replied-Marked run'.session c ms r
                (marker-Kept printer world outside c.id settled f run run' ms (replied r c) unmarked
                  reads).0
          | inr (_, run₁, marked, h₁) ↦
              let closed =
                marker-Reads printer world outside c.id settled _ run run₁ ms (replied r c)
                  (answered r c) marked (settle-answered r c ready) reads in
              elim (and_then-eq-err
                (emit (journal_host printer world outside) (tool_settled outcome.is_error) run₁) _
                h₁) [
                  | inl unshown ↦ answered-Marked run'.session c ms r (
                      emit-Kept printer world outside (tool_settled outcome.is_error) f run₁ run' ms
                        (answered r c) unshown closed)
                  | inr (_, run₂, shown, h₂) ↦ absurd (ok-not-err _ f (pair-eq h₂).0)
                ]
        ]

  deliver-Marked :
      (c : ToolCall) (outcome : ToolOutcome) (at : ℕ) (f : Failure) (run run' : Run Session W)
      (ms : List Value) (r : Recovery)
      → Reads printer world run.session ms (begun r c)
      → IsReady r c
      → deliver (journal_host printer world outside) c outcome (tool_result c outcome at) run
        ≡ (err f, run')
      → Marked run'.session c
  unfolding deliver
  deliver-Marked c outcome at f run run' ms r reads ready h =
      elim (and_then-eq-err
        (Action.append_message (journal_host printer world outside) (tool_result c outcome at) run)
        _ h) [
          | inl unwritten ↦ begun-Marked run'.session c ms r (
              message-Kept printer world outside (tool_result c outcome at) f run run' ms
                (begun r c) unwritten reads)
          | inr (entry, run₁, written, h₁) ↦
              let told =
                message-Reads printer world outside (tool_result c outcome at) entry run run₁ ms
                  (begun r c) (replied r c) written (reply-replied r c outcome at ready) reads in
              elim (and_then-eq-err
                (emit (journal_host printer world outside) (message_event entry) run₁) _ h₁) [
                  | inl unlisted ↦ replied-Marked run'.session c _ r (
                      emit-Kept printer world outside (message_event entry) f run₁ run' _
                        (replied r c) unlisted told)
                  | inr (_, run₂, listed, h₂) ↦
                      settle-Marked c outcome _ f run₂ run' (ms ++ tool_result c outcome at ∷ []) r
                        (emit-Reads printer world outside (message_event entry) _ run₁ run₂ _
                          (replied r c) listed told)
                        ready h₂
                ]
        ]

  executed-Marked :
      (c : ToolCall) (f : Failure) (run run' : Run Session W) (ms : List Value) (r : Recovery)
      → Reads printer world run.session ms (begun r c)
      → IsReady r c
      → and_then
          (attempt (journal_host printer world outside) c run)
          (reply (journal_host printer world outside) c)
        ≡ (err f, run')
      → Marked run'.session c
  executed-Marked c f run run' ms r reads ready h =
      elim (and_then-eq-err (attempt (journal_host printer world outside) c run) _ h) [
        | inl failed ↦ absurd (attempt-not-err c f run run' failed)
        | inr (outcome, run₁, done, h₁) ↦
            deliver-Marked c outcome (outside.millis run₁.world) f run₁ run' ms r
              (rw (attempt-session printer world outside c outcome run run₁ done) reads) ready h₁
      ]

  -- A call that stops on the way, and at what point: either its marker could not be recorded, the world
  -- and the messages are those of before and nothing was executed, or the journal has its marker.
  pub run_call-Marked :
      (c : ToolCall) (f : Failure) (run run' : Run Session W) (ms : List Value) (r : Recovery)
      → Reads printer world run.session ms r
      → IsReady r c
      → run_call (journal_host printer world outside) c run ≡ (err f, run')
      → (Reads printer world run'.session ms r × (run'.world ≡ run.world)) ⊎ Marked run'.session c
  unfolding run_call
  run_call-Marked c f run run' ms r reads ready h =
      elim (and_then-eq-err
        (Action.record_operation (journal_host printer world outside) c.id started run) _ h) [
          | inl unmarked ↦
              inl (marker-Kept printer world outside c.id started f run run' ms r unmarked reads)
          | inr (_, run₁, marked, h₁) ↦
              let open_call =
                marker-Reads printer world outside c.id started _ run run₁ ms r (begun r c) marked
                  (start-begun r c ready) reads in
              inr
                (elim (and_then-eq-err
                  (emit (journal_host printer world outside) (tool_started c.name) run₁) _ h₁) [
                    | inl unshown ↦ begun-Marked run'.session c ms r (
                        emit-Kept printer world outside (tool_started c.name) f run₁ run' ms
                          (begun r c) unshown open_call)
                    | inr (_, run₂, shown, h₂) ↦
                        executed-Marked c f run₂ run' ms r
                          (emit-Reads printer world outside (tool_started c.name) _ run₁ run₂ ms
                            (begun r c) shown open_call)
                          ready h₂
                  ])
        ]
