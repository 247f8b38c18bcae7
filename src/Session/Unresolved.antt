-- ===== src/Session/Unresolved.antt =====
-- src/session.rs: what the records of a journal leave of its tool operations, once it is read.
use danso.Prelude.{
  or-eq-false, ◌≡◌, refl, sym, ap, ◌∙◌, subst, inl, inr, Bool, true, false, ◌&&◌, List, [], ◌∷◌,
  ◌++◌, any, String, str_eq, eq_iff, if◌then◌else◌, Bool-cases,
}
use danso.Prelude.Result.{ensure-true, Result, ok, err, Failure, ◌>>=◌, >>=-eq-ok, >>=-assoc}
use danso.Json.{Value, index, as_str, contains}
use danso.Compaction.{Printer}
use danso.LongTask.Ledger.{recovery_error}
use danso.LongTask.Bindings.{validate_bindings}
use danso.LongTask.Apply.{from_records}
use danso.Session.Recovery.{Recovery, complete, is_empty, has_results}
use danso.Session.Scan.{
  Scan, start_scan, is_custom, operation_type, scan_entry, scan_from, finish_scan, scan_entries,
  check_recovery, all_messages, task_records, with_advice, is_unsettled,
}
use danso.Session.Calls.{
  settles, add_message-Adds, operation-cases, contains-remove_other, and-eq-true, or-right,
}
use danso.Session.Changes.{Change, unchanged, by_message, by_operation, scan_entry-Change}

started_empty : (xs : List String) (id : String) → is_empty xs ≡ true → ¬ (contains xs id ≡ true)
unfolding contains
started_empty [] id h there = cc
started_empty (x ∷ xs) id h there = cc

complete-not-Started :
    (r : Recovery) (id : String) → contains r.started id ≡ true → ¬ (complete r ≡ ok tt)
unfolding complete
complete-not-Started r id there done =
    let (emptied, _) =
      and-eq-true (is_empty r.started) (has_results r.results r.calls) (ensure-true _ _ tt done) in
    started_empty r.started id emptied there

err-either :
    (b : Bool) (x y : Failure) → ¬ (if◌then◌else◌ {A = Result (Unit {0})} b (err x) (err y) ≡ ok tt)
err-either true x y h = cc
err-either false x y h = cc

-- Whether an entry of the journal settles the call.
unfoldable pub settles_call : String → Value → Bool
settles_call id e = is_custom e operation_type && settles (index e "data") id

Change-Started :
    (r r' : Recovery) (e : Value) (id : String)
    → Change r r' e
    → settles_call id e ≡ false
    → contains r.started id ≡ true
    → contains r'.started id ≡ true
unfolding settles_call contains
Change-Started r r' e id (unchanged same) h there = rw same there
Change-Started r r' e id (by_message m added) h there =
    rw (add_message-Adds r r' m added).started there
Change-Started r r' e id (by_operation kind changed) h there =
    let (own, named, called, change) = operation-cases r r' (index e "data") changed in
    elim change [
      | inl starts ↦ rw starts.after (or-right (str_eq own id) there)
      | inr (done, settled) ↦
          let unsettled : settles (index e "data") id ≡ false =
            subst (λ b. (b && settles (index e "data") id) ≡ false) kind h in
          elim (Bool-cases (str_eq own id)) [
            | inl same ↦
                let settled_id : settles (index e "data") id ≡ true =
                  subst (λ i. settles (index e "data") i ≡ true) ((eq_iff own id).0 same) settled in
                cc
            | inr apart ↦ rw done.after (contains-remove_other r.started own id apart ∙ there)
          ]
    ]

module _ (printer : Printer) where
  scan_from-Started :
      (s t : Scan) (es : List Value) (id : String)
      → scan_from printer s es ≡ ok t
      → any (settles_call id) es ≡ false
      → contains s.recovery.started id ≡ true
      → contains t.recovery.started id ≡ true
  unfolding scan_from
  scan_from-Started s t [] id h none_settles there =
      let same : s.recovery ≡ t.recovery = cc in
      subst (λ (r : Recovery). contains r.started id ≡ true) same there
  scan_from-Started s t (e ∷ es) id h none_settles there =
      let (next, first, rest) = >>=-eq-ok (scan_entry printer s e) _ h in
      let (this, those) = or-eq-false (settles_call id e) (any (settles_call id) es) none_settles in
      scan_from-Started next t es id rest those (
        Change-Started s.recovery next.recovery e id (scan_entry-Change printer s next e first) this
          there)

  scan_from-++ :
      (s : Scan) (es later : List Value)
      → scan_from printer s (es ++ later)
        ≡ (scan_from printer s es >>= λ t. scan_from printer t later)
  unfolding scan_from
  scan_from-++ s [] later = refl
  scan_from-++ s (e ∷ es) later =
      >>=-assoc (scan_entry printer s e) _ _ _ (λ next. scan_from-++ next es later)

  finish_scan-recovery :
      (header : Value) (es : List Value) (t : Scan) (ms : List Value) (r : Recovery)
      → finish_scan header es t ≡ ok (ms, r)
      → t.recovery ≡ r
  unfolding finish_scan
  finish_scan-recovery header es t ms r h =
      let (_, _, h₁) = >>=-eq-ok (validate_bindings (header ∷ es)) _ h in
      let (_, _, same) =
        >>=-eq-ok (from_records (task_records (header ∷ es)) (as_str (index header "id"))) _ h₁ in
      cc

  scan_entries-Started :
      (header : Value) (es later ms ms' : List Value) (r r' : Recovery) (id : String)
      → scan_entries printer header es ≡ ok (ms, r)
      → contains r.started id ≡ true
      → any (settles_call id) later ≡ false
      → scan_entries printer header (es ++ later) ≡ ok (ms', r')
      → contains r'.started id ≡ true
  unfolding scan_entries
  scan_entries-Started header es later ms ms' r r' id h there none_settles after =
      let (t, looped, finished) = >>=-eq-ok (scan_from printer start_scan es) _ h in
      let (u, looped', finished') =
        >>=-eq-ok (scan_from printer start_scan (es ++ later)) _ after in
      let onward : scan_from printer t later ≡ ok u =
        sym (ap (λ (x : Result Scan). x >>= λ v. scan_from printer v later) looped)
        ∙ sym (scan_from-++ start_scan es later)
        ∙ looped' in
      let first : t.recovery ≡ r = finish_scan-recovery header es t ms r finished in
      let last : u.recovery ≡ r' = finish_scan-recovery header (es ++ later) u ms' r' finished' in
      subst (λ (x : Recovery). contains x.started id ≡ true) last
        (scan_from-Started t u later id onward none_settles (rw first there))

  with_advice-ok :
      (header : Value) (es : List Value) (c : Result (Unit {0}))
      → with_advice header es c ≡ ok tt
      → c ≡ ok tt
  with_advice-ok header es (ok done) h = h
  with_advice-ok header es (err error) h =
      let (l, _, advised) =
        >>=-eq-ok (from_records (task_records (header ∷ es)) (as_str (index header "id"))) _ h in
      absurd (err-either (is_unsettled l.state) (recovery_error l) error advised)

  -- A marker that a journal leaves unsettled makes check_recovery and messages refuse the journal,
  -- whatever is appended to it but a record that settles the call.
  pub unsettled-blocks :
      (header : Value) (es later : List Value) (ms : List Value) (r : Recovery) (id : String)
      → scan_entries printer header es ≡ ok (ms, r)
      → contains r.started id ≡ true
      → any (settles_call id) later ≡ false
      → (¬ (check_recovery printer header (es ++ later) ≡ ok tt))
        × ((ms' : List Value) → ¬ (all_messages printer header (es ++ later) ≡ ok ms'))
  unfolding check_recovery all_messages
  unsettled-blocks header es later ms r id h there none_settles =
      let stays : (ms' : List Value) (r' : Recovery)
          → scan_entries printer header (es ++ later) ≡ ok (ms', r')
          → complete r' ≡ ok tt
          → ⊥ =
        λ ms' r' after.
          complete-not-Started r' id
            (scan_entries-Started header es later ms ms' r r' id h there none_settles after) in
      (
        λ checked.
            let (found, after, advised) =
              >>=-eq-ok (scan_entries printer header (es ++ later)) _ checked in
            stays found.0 found.1 after (with_advice-ok header (es ++ later) _ advised),
        λ ms' read.
            let (found, after, rest) =
              >>=-eq-ok (scan_entries printer header (es ++ later)) _ read in
            let (_, done, _) = >>=-eq-ok (complete found.1) _ rest in
            stays found.0 found.1 after done,
      )
