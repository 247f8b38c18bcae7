-- ===== src/Session/Rescan.antt =====
-- src/session.rs: reading the journal again after an append, against following the calls as they happen.
use danso.Prelude.{
  or-eq-false, ℕ, suc, ◌≡◌, refl, sym, ◌∙◌, inl, false, Option, none, some, List, [], ◌∷◌, ◌++◌,
  String,
}
use mathlib.Core.List.{append-nil}
use danso.Prelude.Result.{Result, ok, err, ◌>>=◌, >>=-eq-ok, >>=-assoc}
use danso.Json.{
  Value, null, str, obj, Fields, get, index, as_str, is_str, field, end, get_field, set_field,
}
use danso.Contracts.{OperationState, state_name}
use danso.Compaction.{Printer}
use danso.LongTask.Bindings.{is_task_entry, check_bindings, validate_bindings}
use danso.LongTask.Apply.{from_records}
use danso.Session.Recovery.{Recovery, add_message, operation}
use danso.Session.Scan.{
  Scan, start_scan, scan_kind, scan_entry, scan_from, scan_entries, finish_scan, task_records,
  operation_type, scan_message, scan_operation,
}
use danso.Session.Journal.{
  Session, Input, stamp, last_id, fresh_id, append, append_as, persist, pushed, try_write,
  validate_entries, validate_header, operation_data, custom_entry, append_message, record_operation,
  validate, scan, without_entry,
}
use danso.Session.Append.{
  IsParent, value_eq-IsParent, last_id-IsParent, fresh_id-Free, scan_from-append, scan_from-prev,
  check_bindings-append, task_records-append,
}
use danso.Session.Stamped.{stamp-parent, stamp-Validates, stamp-is_task}

abbrev read_by : Scan → Result (List Value × Recovery)
read_by u = ok (u.messages, u.recovery)

recorded-ok :
    (written : Result Value × Session) (s' : Session)
    → without_entry written ≡ (ok tt, s')
    → (e : Value) × (written ≡ (ok e, s'))
recorded-ok (err f, t) s' h = cc
recorded-ok (ok e, t) s' h = (e, cc)

module _ (printer : Printer) (world : ℕ → Input) where
  -- An append that succeeds adds the stamped entry at the end.
  unfoldable pub Stamps : Session → Value → Value → Session → Type 0
  Stamps s entry e s' =
      (id : String) × (fresh_id (s.header ∷ s.entries) (world s.appends).draws ≡ some id)
      × (e ≡ stamp s entry id (world s.appends).timestamp)
      × (s' ≡ record s { entries = s.entries ++ e ∷ []; appends = suc s.appends })

  pushed-eq :
      (s : Session) (d : Value) (r : Result (Unit {0})) (e : Value) (s' : Session)
      → pushed s d r ≡ (ok e, s')
      → (e ≡ d) × (s' ≡ record s { entries = s.entries ++ d ∷ []; appends = suc s.appends })
  pushed-eq s d (err f) e s' h = cc
  pushed-eq s d (ok done) e s' h = (cc, cc)

  append_as-Stamps :
      (s : Session) (entry : Value) (o : Option String) (e : Value) (s' : Session)
      → fresh_id (s.header ∷ s.entries) (world s.appends).draws ≡ o
      → append_as printer world s entry o ≡ (ok e, s')
      → Stamps s entry e s'
  unfolding Stamps persist
  append_as-Stamps s entry none e s' drawn h = cc
  append_as-Stamps s entry (some id) e s' drawn h =
      let (same, after) =
        pushed-eq s _
          (try_write printer world (world s.appends) (stamp s entry id (world s.appends).timestamp))
          e s' h in
      (id, drawn, same, rw same after)

  pub append-Stamps :
      (s : Session) (entry e : Value) (s' : Session)
      → append printer world s entry ≡ (ok e, s')
      → Stamps s entry e s'
  unfolding append
  append-Stamps s entry e s' h = append_as-Stamps s entry _ e s' refl h

  finish_scan-append :
      (header : Value) (es : List Value) (e : Value) (t : Scan) (ms : List Value) (r : Recovery)
      → is_task_entry e ≡ false
      → finish_scan header es t ≡ ok (ms, r)
      → (t.messages ≡ ms)
        × (t.recovery ≡ r)
        × ((u : Scan) → finish_scan header (es ++ e ∷ []) u ≡ ok (u.messages, u.recovery))
  unfolding finish_scan validate_bindings
  finish_scan-append header es e t ms r other h =
      let (done, bound, rest) = >>=-eq-ok (check_bindings none (header ∷ es)) _ h in
      let (l, rebuilt, same) =
        >>=-eq-ok (from_records (task_records (header ∷ es)) (as_str (index header "id"))) _ rest in
      let records : task_records ((header ∷ es) ++ e ∷ []) ≡ task_records (header ∷ es) =
        rw (task_records-append (header ∷ es) e, other) (append-nil _) in
      (
        cc,
        cc,
        λ u. rw (check_bindings-append none (header ∷ es) e other, bound, records, rebuilt) refl,
      )

  step-eq :
      (t : Scan) (e : Value) (prev : Value) (ids : List String)
      → t.prev ≡ prev
      → index e "parentId" ≡ prev
      → IsParent ids prev
      → scan_entry printer t e
        ≡ (scan_kind printer t e >>= λ next. ok (record next { prev = index e "id" }))
  unfolding scan_entry
  step-eq t e prev ids before parent named =
      rw (before, parent, value_eq-IsParent ids prev named) refl

  -- Where the journal is read so far, one more entry is read on from the state it left.
  pub rescan :
      (header : Value) (es : List Value) (e : Value) (ids : List String) (ms : List Value)
      (r : Recovery)
      → validate_entries [] es ≡ ok ids
      → scan_entries printer header es ≡ ok (ms, r)
      → index e "parentId" ≡ last_id null es
      → is_task_entry e ≡ false
      → (t : Scan) × (t.messages ≡ ms)
        × (t.recovery ≡ r)
        × (scan_entries printer header (es ++ e ∷ [])
            ≡ (scan_kind printer t e >>= λ u. ok (u.messages, u.recovery)))
  unfolding scan_entries IsParent
  rescan header es e ids ms r valid read parent other =
      let (t, looped, rest) = >>=-eq-ok (scan_from printer start_scan es) _ read in
      let (messages, recovery, finish) = finish_scan-append header es e t ms r other rest in
      let before : t.prev ≡ last_id null es = scan_from-prev printer start_scan t es looped in
      let named : IsParent ids (last_id null es) =
        last_id-IsParent [] es null ids valid (inl refl) in
      (
        t,
        messages,
        recovery,
        rw
            (
              scan_from-append printer start_scan es e,
              looped,
              step-eq t e (last_id null es) ids before parent named,
            )
            (sym (>>=-assoc (scan_kind printer t e) _ _ _ (λ u. sym (finish _)))),
      )

  -- The journal in memory is valid, and reading it gives these messages and this state of its calls.
  pub record Reads (s : Session) (ms : List Value) (r : Recovery) : Type 0 where
    pub ids : List String
    pub valid : validate s ≡ ok ids
    pub read : scan printer world s ≡ ok (ms, r)

  -- A journal that reads, after an entry that the scan accepts.
  pub append-Reads :
      (s s' : Session) (fs : Fields) (e : Value) (ms ms' : List Value) (r r' : Recovery)
      → Reads s ms r
      → append printer world s (obj fs) ≡ (ok e, s')
      → is_str (index (obj fs) "type") "session" ≡ false
      → is_task_entry (obj fs) ≡ false
      → ((t : Scan) (id timestamp : String)
          → t.messages ≡ ms
          → t.recovery ≡ r
          → (scan_kind printer t (stamp s (obj fs) id timestamp) >>= read_by) ≡ ok (ms', r'))
      → Reads s' ms' r'
  unfolding Stamps validate scan
  append-Reads s s' fs e ms ms' r r' reads done kind other accepted =
      let (id, drawn, same, after) = append-Stamps s (obj fs) e s' done in
      let timestamp : String = (world s.appends).timestamp in
      let (_, head, valid) = >>=-eq-ok (validate_header s.header) _ reads.valid in
      let free = (or-eq-false _ _ (fresh_id-Free (s.header ∷ s.entries) _ id drawn)).1 in
      let (t, messages, recovery, read) =
        rescan s.header s.entries (stamp s (obj fs) id timestamp) reads.ids ms r valid reads.read
          (stamp-parent s fs id timestamp) (stamp-is_task s fs id timestamp ∙ other) in
      rw (after, same)
        (record {
          ids = id ∷ reads.ids;
          valid = rw head (stamp-Validates s fs id timestamp reads.ids valid free kind);
          read = read ∙ accepted t id timestamp messages recovery;
        })

  -- A message that the calls' state accepts, appended to the journal.
  pub append_message-Reads :
      (s s' : Session) (m e : Value) (ms : List Value) (r r' : Recovery)
      → Reads s ms r
      → append_message printer world s m ≡ (ok e, s')
      → add_message r m ≡ ok r'
      → Reads s' (ms ++ m ∷ []) r'
  unfolding append_message scan_kind scan_message stamp is_str index get get_field set_field
  append_message-Reads s s' m e ms r r' reads done accepted =
      append-Reads s s' (field "type" (str "message") (field "message" m end)) e ms _ r r' reads
        done refl refl (λ t id timestamp messages recovery. rw (recovery, accepted, messages) refl)

  -- An operation record that the calls' state accepts, appended to the journal.
  pub record_operation-Reads :
      (s s' : Session) (id : String) (state : OperationState) (ms : List Value) (r r' : Recovery)
      → Reads s ms r
      → record_operation printer world s id state ≡ (ok tt, s')
      → operation r (operation_data id (state_name state)) ≡ ok r'
      → Reads s' ms r'
  unfolding record_operation scan_kind scan_operation stamp is_str index get get_field set_field
  record_operation-Reads s s' id state ms r r' reads done accepted =
      let (e, written) =
        recorded-ok
          (append printer world s
            (custom_entry operation_type (operation_data id (state_name state))))
          s' done in
      append-Reads s s'
        (field "type" (str "custom") (
          field "customType" (str operation_type)
            (field "data" (operation_data id (state_name state)) end)))
        e ms _ r r' reads written refl refl
        (λ t id timestamp messages recovery. rw (recovery, accepted, messages) refl)
