-- ===== src/Runtime/Kept.antt =====
-- src/runtime.rs with src/session.rs: an action that fails, and the journal it leaves.
use danso.Prelude.{
  ℕ, suc, ◌≡◌, refl, sym, ap, subst, inl, inr, ◌⊎◌, Option, none, some, List, ◌∷◌, String,
}
use danso.Prelude.Result.{Result, ok, err, Failure}
use danso.Json.{Value}
use danso.Contracts.{OperationState}
use danso.Compaction.{Printer}
use danso.Session.Recovery.{Recovery}
use danso.Session.Journal.{
  Session, Input, append, append_as, persist, pushed, append_message, record_operation,
  without_entry, fresh_id, try_write, stamp, validate, scan,
}
use danso.Session.Rescan.{Reads}
use danso.Runtime.Action as Action
use danso.Runtime.Action.{
  Event, tool_started, tool_settled, message_entry as message_event, Host, Run, and_then, emit,
}
use danso.Runtime.Journaled.{journal_host, pair-eq, pair-of}

stopped-eq :
    {A B C : Type 0} (g f : Failure) (mid after : C)
    → ◌≡◌ {A = Result A × C} (err g, mid) (err f, after)
    → ◌≡◌ {A = Result B × C} (err g, mid) (err f, after)
stopped-eq g f mid after h = cc

pub ok-not-err : {A : Type 0} (a : A) (f : Failure) → ¬ (ok a ≡ err f)
ok-not-err a f h = cc

-- A sequence of actions that stops: at its first step, or after it.
pub and_then-eq-err :
    {S W A B : Type 0} (first : Result A × Run S W) (rest : A → Run S W → Result B × Run S W)
    {f : Failure} {after : Run S W}
    → and_then first rest ≡ (err f, after)
    → (first ≡ (err f, after))
      ⊎ ((a : A) × (mid : Run S W) × (first ≡ (ok a, mid)) × (rest a mid ≡ (err f, after)))
and_then-eq-err (err g, mid) rest h = inl (stopped-eq g _ mid _ h)
and_then-eq-err (ok a, mid) rest h = inr (a, mid, refl, h)

module _ {W : Type 0} (printer : Printer) (world : ℕ → Input) (outside : Host Session W) where
  -- The journal's entries are those of before.
  Kept : Session → Session → Type 0
  Kept s s' = (s'.header ≡ s.header) × (s'.entries ≡ s.entries)

  Kept-Reads :
      (s s' : Session) (ms : List Value) (r : Recovery)
      → Kept s s'
      → Reads printer world s ms r
      → Reads printer world s' ms r
  unfolding Kept validate scan
  Kept-Reads s s' ms r (header, entries) reads = record {
    ids = reads.ids;
    valid = rw (header, entries) reads.valid;
    read = rw (header, entries) reads.read;
  }

  pushed-Kept :
      (s : Session) (d : Value) (r : Result (Unit {0})) (f : Failure) (s' : Session)
      → pushed s d r ≡ (err f, s')
      → Kept s s'
  unfolding Kept
  pushed-Kept s d (err g) f s' h =
      let after : record s { appends = suc s.appends } ≡ s' =
        ap (λ (q : Result Value × Session). q.1) h in
      (ap (λ (x : Session). x.header) (sym after), ap (λ (x : Session). x.entries) (sym after))
  pushed-Kept s d (ok done) f s' h =
      absurd (ok-not-err d f (ap (λ (q : Result Value × Session). q.0) h))

  append_as-Kept :
      (s : Session) (entry : Value) (o : Option String) (f : Failure) (s' : Session)
      → append_as printer world s entry o ≡ (err f, s')
      → Kept s s'
  unfolding Kept persist
  append_as-Kept s entry none f s' h =
      let after : record s { appends = suc s.appends } ≡ s' =
        ap (λ (q : Result Value × Session). q.1) h in
      (ap (λ (x : Session). x.header) (sym after), ap (λ (x : Session). x.entries) (sym after))
  append_as-Kept s entry (some id) f s' h =
      pushed-Kept s (stamp s entry id (world s.appends).timestamp)
        (try_write printer world (world s.appends) (stamp s entry id (world s.appends).timestamp)) f
        s' h

  append-Kept :
      (s : Session) (entry : Value) (f : Failure) (s' : Session)
      → append printer world s entry ≡ (err f, s')
      → Kept s s'
  unfolding append
  append-Kept s entry f s' h =
      append_as-Kept s entry (fresh_id (s.header ∷ s.entries) (world s.appends).draws) f s' h

  without_entry-err :
      (written : Result Value × Session) (f : Failure) (s' : Session)
      → without_entry written ≡ (err f, s')
      → written ≡ (err f, s')
  without_entry-err (err g, t) f s' h = stopped-eq g f t s' h
  without_entry-err (ok e, t) f s' h =
      absurd (ok-not-err tt f (ap (λ (q : Result (Unit {0}) × Session). q.0) h))

  pub marker-Kept :
      (id : String) (state : OperationState) (f : Failure) (run run' : Run Session W)
      (ms : List Value) (r : Recovery)
      → Action.record_operation (journal_host printer world outside) id state run ≡ (err f, run')
      → Reads printer world run.session ms r
      → Reads printer world run'.session ms r × (run'.world ≡ run.world)
  unfolding record_operation
  marker-Kept id state f run run' ms r h reads =
      let (refused, after) = pair-eq h in
      (
        Kept-Reads run.session run'.session ms r
            (append-Kept run.session _ f run'.session (
              without_entry-err _ f run'.session (
                pair-of (record_operation printer world run.session id state) (err f) run'.session
                  refused (ap (λ (x : Run Session W). x.session) after))))
            reads,
        ap (λ (x : Run Session W). x.world) (sym after),
      )

  pub message-Kept :
      (m : Value) (f : Failure) (run run' : Run Session W) (ms : List Value) (r : Recovery)
      → Action.append_message (journal_host printer world outside) m run ≡ (err f, run')
      → Reads printer world run.session ms r
      → Reads printer world run'.session ms r
  unfolding append_message
  message-Kept m f run run' ms r h reads =
      let (refused, after) = pair-eq h in
      Kept-Reads run.session run'.session ms r
        (append-Kept run.session _ f run'.session (
          pair-of (append_message printer world run.session m) (err f) run'.session refused
            (ap (λ (x : Run Session W). x.session) after)))
        reads

  pub emit-Kept :
      (event : Event) (f : Failure) (run run' : Run Session W) (ms : List Value) (r : Recovery)
      → emit (journal_host printer world outside) event run ≡ (err f, run')
      → Reads printer world run.session ms r
      → Reads printer world run'.session ms r
  emit-Kept event f run run' ms r h reads =
      subst (λ s. Reads printer world s ms r) (ap (λ (x : Run Session W). x.session) (pair-eq h).1)
        reads
