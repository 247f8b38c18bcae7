-- ===== src/Session/Store.antt =====
-- src/session.rs: the journal as the store of the long-task ledger.
use mathlib.Core.List.{append-nil}
use danso.Prelude.{ℕ, ◌≡◌, refl, sym, ap, ◌∙◌, true, false, List, [], ◌∷◌, ◌++◌, String}
use danso.Prelude.Result.{ok, ok-eq}
use danso.Json.{Value, Fields, str, obj, field, end, index, get, get_field, is_str}
use danso.Compaction.{Printer}
use danso.LongTask.Bindings.{custom_type, is_task_entry}
use danso.LongTask.Ops.{SessionStore}
use danso.Session.Scan.{task_records}
use danso.Session.Journal.{Session, Input, append_message, record_long_task, long_task_records}
use danso.Session.Append.{task_records-append}
use danso.Session.Stamped.{stamp-other, stamp-is_task}
use danso.Session.Rescan.{append-Stamps, Stamps}

module _ (printer : Printer) (world : ℕ → Input) where
  -- An append of the long task that succeeds adds its record after those that the journal has.
  pub record_long_task-appends :
      (v : Value) (s s' : Session) (entry : Value) (rs : List Value)
      → record_long_task printer world s v ≡ (ok entry, s')
      → long_task_records printer world s ≡ ok rs
      → long_task_records printer world s' ≡ ok (rs ++ v ∷ [])
  unfolding record_long_task long_task_records Stamps is_str index get get_field
  record_long_task-appends v s s' entry rs written before =
      let fields : Fields =
        field "type" (str "custom") (field "customType" (str custom_type) (field "data" v end)) in
      let (id, drawn, same, after) = append-Stamps printer world s (obj fields) entry s' written in
      let timestamp : String = (world s.appends).timestamp in
      let task : is_task_entry entry ≡ true =
        rw same (stamp-is_task s fields id timestamp ∙ refl) in
      let carried : index entry "data" ≡ v =
        rw same (stamp-other s fields id timestamp "data" refl refl refl ∙ refl) in
      let listed : task_records (s.header ∷ (s.entries ++ entry ∷ [])) ≡ rs ++ v ∷ [] =
        task_records-append (s.header ∷ s.entries) entry
        ∙ rw (task, carried) (ap (λ xs. xs ++ v ∷ []) (sym (ok-eq _ _ before))) in
      rw after (ap ok listed)

  -- A message that is appended leaves the records of the long task as they are.
  pub append_message-keeps :
      (m : Value) (s s' : Session) (entry : Value)
      → append_message printer world s m ≡ (ok entry, s')
      → long_task_records printer world s' ≡ long_task_records printer world s
  unfolding append_message long_task_records Stamps is_str index get get_field
  append_message-keeps m s s' entry written =
      let fields : Fields = field "type" (str "message") (field "message" m end) in
      let (id, drawn, same, after) = append-Stamps printer world s (obj fields) entry s' written in
      let timestamp : String = (world s.appends).timestamp in
      let other : is_task_entry entry ≡ false =
        rw same (stamp-is_task s fields id timestamp ∙ refl) in
      let listed : task_records (s.header ∷ (s.entries ++ entry ∷ []))
          ≡ task_records (s.header ∷ s.entries) =
        task_records-append (s.header ∷ s.entries) entry ∙ rw other (append-nil _) in
      rw after (ap ok listed)

  -- `Session` meets the contract of a long-task store.
  abbrev pub journal_store : SessionStore Session
  journal_store = record {
    long_task_records = long_task_records printer world;
    record_long_task = λ v s. record_long_task printer world s v;
    record_appends = record_long_task-appends;
  }
