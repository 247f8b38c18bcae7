-- ===== src/Session/Append.antt =====
-- src/session.rs: the entry that an append adds, and the journal that is read again after it.
use danso.Prelude.{
  or-eq-false, subst, ◌≡◌, refl, ap, ◌∙◌, ◌⊎◌, inl, inr, true, false, not, Option, some, List, [],
  ◌∷◌, ◌++◌, String, str_eq, if◌then◌else◌, Bool-cases,
}
use danso.Prelude.Result.{
  context-some, ok, ◌>>=◌, ensure, context, >>=-eq-ok, >>=-ok, >>=-assoc, >>=-same,
}
use danso.Json.{
  Value, null, str, obj, Fields, get, index, as_str, is_str, insert, contains, value_eq,
}
use danso.Json.Laws.{str_eq_same, get-set_same, get-set_other}
use danso.Compaction.{Printer}
use danso.LongTask.Bindings.{is_task_entry, check_binding, check_bindings}
use danso.Session.Scan.{Scan, scan_kind, scan_entry, scan_from, task_records}
use danso.Session.Journal.{
  last_id, fresh_id, is_taken, validate_entry, validate_entries, check_parent, has_parent,
}

pub index-insert_same :
    (fs : Fields) (key : String) (v : Value) → index (insert (obj fs) key v) key ≡ v
unfolding index get
index-insert_same fs key v = rw (get-set_same fs key v) refl

pub index-insert_other :
    (fs : Fields) (key other : String) (v : Value)
    → str_eq key other ≡ false
    → index (insert (obj fs) key v) other ≡ index (obj fs) other
unfolding index get
index-insert_other fs key other v h = rw (get-set_other fs key other v h) refl

-- What the next entry names as its parent: nothing, or an entry that is there.
unfoldable pub IsParent : List String → Value → Type 0
IsParent ids v = (v ≡ null) ⊎ ((s : String) × (v ≡ str s) × (contains ids s ≡ true))

pub value_eq-IsParent : (ids : List String) (v : Value) → IsParent ids v → value_eq v v ≡ true
unfolding value_eq IsParent
value_eq-IsParent ids v (inl h) = rw h refl
value_eq-IsParent ids v (inr (s, h, found)) = rw h (str_eq_same s)

pub check_parent-IsParent :
    (ids : List String) (v : Value) → IsParent ids v → check_parent v ids ≡ ok tt
unfolding IsParent
check_parent-IsParent ids v (inl h) = rw h refl
check_parent-IsParent ids v (inr (s, h, found)) = rw (h, found) refl

pub as_str-some : (v : Value) (s : String) → as_str v ≡ some s → v ≡ str s
unfolding as_str
as_str-some (str t) s h = cc
as_str-some null s h = cc
as_str-some (Value.bool b) s h = cc
as_str-some (Value.num n) s h = cc
as_str-some (Value.other_number n) s h = cc
as_str-some (Value.arr vs) s h = cc
as_str-some (obj fs) s h = cc

-- An entry that `validate` accepts has a text as its id, which joins the ids seen.
pub validate_entry-Joins :
    (ids : List String) (e : Value) (ids' : List String)
    → validate_entry ids e ≡ ok ids'
    → (id : String) × (index e "id" ≡ str id) × (ids' ≡ id ∷ ids)
unfolding validate_entry
validate_entry-Joins ids e ids' h =
    let (_, _, h₁) =
      >>=-eq-ok (ensure (not (is_str (index e "type") "session")) "duplicate session header") _ h in
    let (id, named, h₂) = >>=-eq-ok (context (as_str (index e "id")) "missing entry id") _ h₁ in
    let (_, _, h₃) = >>=-eq-ok (ensure (not (contains ids id)) "duplicate entry id") _ h₂ in
    let (_, _, h₄) = >>=-eq-ok (ensure (has_parent (get e "parentId")) "missing parentId") _ h₃ in
    let (_, _, h₅) = >>=-eq-ok (check_parent (index e "parentId") ids) _ h₄ in
    (id, as_str-some _ id (context-some _ _ id named), cc)

pub last_id-IsParent :
    (ids : List String) (es : List Value) (prev : Value) (ids' : List String)
    → validate_entries ids es ≡ ok ids'
    → IsParent ids prev
    → IsParent ids' (last_id prev es)
unfolding validate_entries last_id IsParent contains
last_id-IsParent ids [] prev ids' h p = subst (λ i. IsParent i prev) (cc) p
last_id-IsParent ids (e ∷ es) prev ids' h p =
    let (next, first, rest) = >>=-eq-ok (validate_entry ids e) _ h in
    let (id, named, joined) = validate_entry-Joins ids e next first in
    last_id-IsParent next es (index e "id") ids' rest
      (inr (id, named, rw (joined, str_eq_same id) refl))

-- An id that no entry has is not among the ids that `validate` has seen.
pub validate_entries-Free :
    (ids : List String) (es : List Value) (ids' : List String) (id : String)
    → validate_entries ids es ≡ ok ids'
    → contains ids id ≡ false
    → is_taken es id ≡ false
    → contains ids' id ≡ false
unfolding validate_entries contains is_str
validate_entries-Free ids [] ids' id h apart free = subst (λ i. contains i id ≡ false) (cc) apart
validate_entries-Free ids (e ∷ es) ids' id h apart free =
    let (next, first, rest) = >>=-eq-ok (validate_entry ids e) _ h in
    let (own, named, joined) = validate_entry-Joins ids e next first in
    let differs : str_eq own id ≡ false =
      subst (λ v. is_str v id ≡ false) named (or-eq-false _ _ free).0 in
    validate_entries-Free next es ids' id rest (rw (joined, differs) apart) (or-eq-false _ _ free).1

pub fresh_id-Free :
    (es : List Value) (draws : List String) (id : String)
    → fresh_id es draws ≡ some id
    → is_taken es id ≡ false
unfolding fresh_id
fresh_id-Free es [] id h = cc
fresh_id-Free es (d ∷ ds) id h = elim (Bool-cases (is_taken es d)) [
  | inl taken ↦
      fresh_id-Free es ds id (subst (λ b. (if b then fresh_id es ds else some d) ≡ some id) taken h)
  | inr free ↦
      let drawn : some d ≡ some id =
        subst (λ b. (if b then fresh_id es ds else some d) ≡ some id) free h in
      subst (λ i. is_taken es i ≡ false) (cc) free
]

pub validate_entries-append :
    (ids : List String) (es : List Value) (e : Value)
    → validate_entries ids (es ++ e ∷ [])
      ≡ (validate_entries ids es >>= λ next. validate_entry next e)
unfolding validate_entries
validate_entries-append ids [] e = >>=-ok (validate_entry ids e)
validate_entries-append ids (d ∷ es) e =
    >>=-assoc (validate_entry ids d) _ _ _ (λ next. validate_entries-append next es e)

module _ (printer : Printer) where
  pub scan_from-append :
      (s : Scan) (es : List Value) (e : Value)
      → scan_from printer s (es ++ e ∷ [])
        ≡ (scan_from printer s es >>= λ t. scan_entry printer t e)
  unfolding scan_from
  scan_from-append s [] e = >>=-ok (scan_entry printer s e)
  scan_from-append s (d ∷ es) e =
      >>=-assoc (scan_entry printer s d) _ _ _ (λ next. scan_from-append next es e)

  pub scan_entry-prev :
      (s t : Scan) (e : Value) → scan_entry printer s e ≡ ok t → t.prev ≡ index e "id"
  unfolding scan_entry
  scan_entry-prev s t e h =
      let (_, _, h₁) =
        >>=-eq-ok
          (ensure (value_eq (index e "parentId") s.prev) "branched Pi session is import-only in v0")
          _ h in
      let (next, _, h₂) = >>=-eq-ok (scan_kind printer s e) _ h₁ in cc

  pub scan_from-prev :
      (s t : Scan) (es : List Value) → scan_from printer s es ≡ ok t → t.prev ≡ last_id s.prev es
  unfolding scan_from last_id
  scan_from-prev s t [] h = cc
  scan_from-prev s t (e ∷ es) h =
      let (next, first, rest) = >>=-eq-ok (scan_entry printer s e) _ h in
      scan_from-prev next t es rest ∙ ap (λ p. last_id p es) (scan_entry-prev s next e first)

-- The entries after the last one, for the bindings and for the ledger.
pub check_bindings-append :
    (previous : Option Value) (es : List Value) (e : Value)
    → is_task_entry e ≡ false
    → check_bindings previous (es ++ e ∷ []) ≡ check_bindings previous es
unfolding check_bindings check_binding
check_bindings-append previous [] e h = rw h refl
check_bindings-append previous (d ∷ es) e h =
    >>=-same (check_binding previous d) _ _ (λ _. check_bindings-append (some d) es e h)

pub task_records-append :
    (es : List Value) (e : Value)
    → task_records (es ++ e ∷ [])
      ≡ (task_records es ++ (if is_task_entry e then index e "data" ∷ [] else []))
unfolding task_records
task_records-append [] e = refl
task_records-append (d ∷ es) e = elim (Bool-cases (is_task_entry d)) [
  | inl task ↦ rw (task, task_records-append es e) refl
  | inr other ↦ rw (other, task_records-append es e) refl
]
