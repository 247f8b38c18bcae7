-- ===== src/Session/Changes.antt =====
-- src/session.rs: what each entry that is read does to the state of the calls.
use danso.Prelude.{◌≡◌, sym, ap, ◌∙◌, subst, inl, inr, true, List, [], ◌∷◌}
use danso.Prelude.Result.{ok, ensure, context, >>=-eq-ok, choose4-eq-ok}
use danso.Json.{Value, index, as_str, is_str, value_eq}
use danso.Compaction.{Printer, validate_summary, checkpoint_messages, max_summary_bytes}
use danso.LongTask.Bindings.{validate_bindings}
use danso.LongTask.Apply.{from_records}
use danso.Session.Recovery.{Recovery, add_message, operation, complete}
use danso.Session.Scan.{
  Scan, start_scan, is_custom, operation_type, compaction_type, is_metadata, scan_message,
  scan_operation, scan_compaction, boundary, scan_kind, scan_entry, scan_from, finish_scan,
  scan_entries, task_records,
}
use danso.Session.Markers.{
  saw_message, saw_operation, IsConsistent, new-IsConsistent, Step-IsConsistent,
}

-- What an entry that is read does to the state of the calls.
pub data Change (r r' : Recovery) (e : Value) : Type 0 where
  unchanged : r' ≡ r → Change r r' e
  by_message : (m : Value) → add_message r m ≡ ok r' → Change r r' e
  by_operation :
      is_custom e operation_type ≡ true → operation r (index e "data") ≡ ok r' → Change r r' e

scan_message-Change :
    (s t : Scan) (e m : Value) → scan_message s e m ≡ ok t → Change s.recovery t.recovery e
unfolding scan_message
scan_message-Change s t e m read =
    let (r, added, same) = >>=-eq-ok (add_message s.recovery m) _ read in
    by_message m (added ∙ ap ok cc)

scan_operation-Change :
    (s t : Scan) (e : Value)
    → is_custom e operation_type ≡ true
    → scan_operation s (index e "data") ≡ ok t
    → Change s.recovery t.recovery e
unfolding scan_operation
scan_operation-Change s t e kind read =
    let (r, changed, same) = >>=-eq-ok (operation s.recovery (index e "data")) _ read in
    by_operation kind (changed ∙ ap ok cc)

module _ (printer : Printer) where
  scan_compaction-recovery :
      (s t : Scan) (d : Value) → scan_compaction printer s d ≡ ok t → t.recovery ≡ s.recovery
  unfolding scan_compaction
  scan_compaction-recovery s t d h =
      let (_, _, h₁) = >>=-eq-ok (complete s.recovery) _ h in
      let (user_id, _, h₂) =
        >>=-eq-ok (context s.latest_user "compaction lacks user request") _ h₁ in
      let (_, _, h₃) =
        >>=-eq-ok (ensure (boundary s d user_id) "invalid compaction boundary") _ h₂ in
      let (_, _, h₄) =
        >>=-eq-ok (validate_summary printer (index d "summary") max_summary_bytes) _ h₃ in
      let (_, _, h₅) =
        >>=-eq-ok (checkpoint_messages printer (index d "summary") s.messages) _ h₄ in
      cc

  scan_kind-Change :
      (s t : Scan) (e : Value) → scan_kind printer s e ≡ ok t → Change s.recovery t.recovery e
  unfolding scan_kind
  scan_kind-Change s t e h =
      elim (choose4-eq-ok (is_str (index e "type") "message") (is_custom e operation_type)
        (is_custom e compaction_type) (is_metadata (index e "type"))
        (scan_message s e (index e "message")) (scan_operation s (index e "data"))
        (scan_compaction printer s (index e "data")) (ok s) _ t h) [
          | inl read ↦ scan_message-Change s t e (index e "message") read
          | inr (inl (kind, read)) ↦ scan_operation-Change s t e kind read
          | inr (inr (inl read)) ↦ unchanged (scan_compaction-recovery s t (index e "data") read)
          | inr (inr (inr read)) ↦ unchanged cc
        ]

  pub scan_entry-Change :
      (s t : Scan) (e : Value) → scan_entry printer s e ≡ ok t → Change s.recovery t.recovery e
  unfolding scan_entry
  scan_entry-Change s t e h =
      let (_, _, h₁) =
        >>=-eq-ok
          (ensure (value_eq (index e "parentId") s.prev) "branched Pi session is import-only in v0")
          _ h in
      let (next, read, same) = >>=-eq-ok (scan_kind printer s e) _ h₁ in
      let after : t.recovery ≡ next.recovery = cc in
      subst (λ r. Change s.recovery r e) (sym after) (scan_kind-Change s next e read)

  scan_from-IsConsistent :
      (s t : Scan) (es : List Value)
      → scan_from printer s es ≡ ok t
      → IsConsistent s.recovery
      → IsConsistent t.recovery
  unfolding scan_from
  scan_from-IsConsistent s t [] h c = subst IsConsistent (cc) c
  scan_from-IsConsistent s t (e ∷ es) h c =
      let (next, first, rest) = >>=-eq-ok (scan_entry printer s e) _ h in
      scan_from-IsConsistent next t es rest (elim (scan_entry-Change s next e first) [
        | unchanged same ↦ subst IsConsistent (sym same) c
        | by_message m added ↦ Step-IsConsistent (saw_message m added) c
        | by_operation kind changed ↦ Step-IsConsistent (saw_operation (index e "data") changed) c
      ])

  -- Whatever the journal, where it can be read its markers are consistent with its calls and results.
  pub scan_entries-IsConsistent :
      (header : Value) (es : List Value) (ms : List Value) (r : Recovery)
      → scan_entries printer header es ≡ ok (ms, r)
      → IsConsistent r
  unfolding scan_entries finish_scan
  scan_entries-IsConsistent header es ms r h =
      let (t, looped, finished) = >>=-eq-ok (scan_from printer start_scan es) _ h in
      let (_, _, h₁) = >>=-eq-ok (validate_bindings (header ∷ es)) _ finished in
      let (_, _, same) =
        >>=-eq-ok (from_records (task_records (header ∷ es)) (as_str (index header "id"))) _ h₁ in
      subst IsConsistent (cc) (scan_from-IsConsistent start_scan t es looped new-IsConsistent)
