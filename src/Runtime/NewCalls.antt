-- ===== src/Runtime/NewCalls.antt =====
-- src/runtime.rs: the calls of a message whose ids are new to the session, once the journal has them.
use danso.Prelude.{
  ◌≡◌, refl, ◌∙◌, subst, inl, inr, true, false, some, List, [], ◌∷◌, String, str_eq, eq_iff,
  is_some, if◌then◌else◌, Bool-cases, All,
}
use danso.Prelude.Result.{ok, refused-eq-ok}
use danso.Json.{contains}
use danso.Json.Laws.{str_eq_same}
use danso.Contracts.{ToolCall}
use danso.Session.Recovery.{Recovery, lookup, add_calls, has_results}
use danso.Session.Calls.{or-right, and-eq-true}
use danso.Session.Markers.{IsConsistent}
use danso.Runtime.Tools.{insert_ids}
use danso.Runtime.Answers.{AllReady, push_ids}

-- Each call's id is not among the ids, nor that of a call before it.
abbrev pub NewTo : List String → List ToolCall → Type 0
NewTo ids [] = Unit
NewTo ids (c ∷ cs) = (contains ids c.id ≡ false) × NewTo (c.id ∷ ids) cs

pub insert_ids-NewTo :
    (ids known : List String) (cs : List ToolCall)
    → insert_ids ids cs ≡ ok known
    → NewTo ids cs × (known ≡ push_ids ids cs)
unfolding insert_ids push_ids
insert_ids-NewTo ids known [] h = (tt, cc)
insert_ids-NewTo ids known (c ∷ cs) h =
    let (new, inserted) =
      refused-eq-ok (contains ids c.id) _ (insert_ids (c.id ∷ ids) cs) known h in
    let (rest, all) = insert_ids-NewTo (c.id ∷ ids) known cs inserted in ((new, rest), all)

str_eq-swap : (a b : String) → str_eq a b ≡ false → str_eq b a ≡ false
str_eq-swap a b h = elim (Bool-cases (str_eq b a)) [
  | inl same ↦ let both : str_eq a b ≡ true = rw ((eq_iff b a).0 same) (str_eq_same a) in cc
  | inr apart ↦ apart
]

-- An id among them differs from every new call's.
NewTo-apart :
    (ids : List String) (cs : List ToolCall) (x : String)
    → NewTo ids cs
    → contains ids x ≡ true
    → All (λ (d : ToolCall). str_eq x d.id ≡ false) cs
unfolding contains
NewTo-apart ids [] x new there = tt
NewTo-apart ids (d ∷ ds) x (this, those) there = (
  elim (Bool-cases (str_eq x d.id)) [
    | inl same ↦
        let here : contains ids d.id ≡ true =
          subst (λ i. contains ids i ≡ true) ((eq_iff x d.id).0 same) there in
        cc
    | inr apart ↦ apart
  ],
  NewTo-apart (d.id ∷ ids) ds x those (or-right (str_eq d.id x) there),
)

-- `calls` after `add_calls`
unfoldable pub called : List (String × String) → List ToolCall → List (String × String)
called calls [] = calls
called calls (c ∷ cs) = called ((c.id, c.name) ∷ calls) cs

-- The ids are those of all the calls, and perhaps others.
abbrev pub Covers : List String → List (String × String) → Type 0
Covers ids calls = (id : String) → is_some (lookup calls id) ≡ true → contains ids id ≡ true

Covers-push :
    (ids : List String) (calls : List (String × String)) (c : ToolCall)
    → Covers ids calls
    → Covers (c.id ∷ ids) ((c.id, c.name) ∷ calls)
unfolding contains lookup
Covers-push ids calls c covers id h = elim (Bool-cases (str_eq c.id id)) [
  | inl same ↦ rw same refl
  | inr apart ↦
      or-right (str_eq c.id id) (
        covers id
          (subst (λ b. is_some (if b then some c.name else lookup calls id) ≡ true) apart h))
]

absent :
    (ids : List String) (calls : List (String × String)) (id : String)
    → Covers ids calls
    → contains ids id ≡ false
    → is_some (lookup calls id) ≡ false
absent ids calls id covers new = elim (Bool-cases (is_some (lookup calls id))) [
  | inl there ↦ let known : contains ids id ≡ true = covers id there in cc
  | inr gone ↦ gone
]

-- Calls that are new are added, and the ids with them cover the calls.
pub add_calls-called :
    (r : Recovery) (ids : List String) (cs : List ToolCall)
    → NewTo ids cs
    → Covers ids r.calls
    → (add_calls r cs ≡ ok (record r { calls = called r.calls cs }))
      × Covers (push_ids ids cs) (called r.calls cs)
unfolding add_calls called push_ids
add_calls-called r ids [] new covers = (refl, covers)
add_calls-called r ids (c ∷ cs) (this, those) covers =
    let (added, after) =
      add_calls-called (record r { calls = (c.id, c.name) ∷ r.calls }) (c.id ∷ ids) cs those
        (Covers-push ids r.calls c covers) in
    (rw (absent ids r.calls c.id covers this) added, after)

-- The calls that are found, each under its own name.
abbrev pub Found : List (String × String) → List ToolCall → Type 0
Found calls [] = Unit
Found calls (c ∷ cs) = (lookup calls c.id ≡ some c.name) × Found calls cs

lookup-called :
    (calls : List (String × String)) (cs : List ToolCall) (x : String)
    → All (λ (d : ToolCall). str_eq x d.id ≡ false) cs
    → lookup (called calls cs) x ≡ lookup calls x
unfolding called lookup
lookup-called calls [] x apart = refl
lookup-called calls (d ∷ ds) x (this, those) =
    lookup-called ((d.id, d.name) ∷ calls) ds x those ∙ rw (str_eq-swap x d.id this) refl

called-Found :
    (ids : List String) (calls : List (String × String)) (cs : List ToolCall)
    → NewTo ids cs
    → Found (called calls cs) cs
unfolding called lookup contains
called-Found ids calls [] new = tt
called-Found ids calls (c ∷ cs) (this, those) = (
  lookup-called ((c.id, c.name) ∷ calls) cs c.id
        (NewTo-apart (c.id ∷ ids) cs c.id those (rw (str_eq_same c.id) refl))
      ∙ rw (str_eq_same c.id) refl,
  called-Found (c.id ∷ ids) ((c.id, c.name) ∷ calls) cs those,
)

-- Every member of a set is one of the ids.
abbrev pub Within : List String → List String → Type 0
Within xs ids = (id : String) → contains xs id ≡ true → contains ids id ≡ true

Within-new :
    (xs ids : List String) (id : String)
    → Within xs ids
    → contains ids id ≡ false
    → contains xs id ≡ false
Within-new xs ids id within new = elim (Bool-cases (contains xs id)) [
  | inl there ↦ let known : contains ids id ≡ true = within id there in cc
  | inr gone ↦ gone
]

Found-AllReady :
    (r : Recovery) (ids : List String) (cs : List ToolCall)
    → NewTo ids cs
    → Found r.calls cs
    → Within r.results ids
    → Within r.started ids
    → Within r.settled ids
    → AllReady r cs
unfolding contains
Found-AllReady r ids [] new found a b d = tt
Found-AllReady r ids (c ∷ cs) (this, those) (here, rest) a b d = (
  record {
    called = here;
    unanswered = Within-new r.results ids c.id a this;
    unstarted = Within-new r.started ids c.id b this;
    unsettled = Within-new r.settled ids c.id d this;
  },
  NewTo-apart (c.id ∷ ids) cs c.id those (rw (str_eq_same c.id) refl),
  Found-AllReady r (c.id ∷ ids) cs those rest (λ id h. or-right (str_eq c.id id) (a id h))
      (λ id h. or-right (str_eq c.id id) (b id h)) (λ id h. or-right (str_eq c.id id) (d id h)),
)

-- New calls that were added to a consistent state are ready to run.
pub called-AllReady :
    (r : Recovery) (ids : List String) (cs : List ToolCall)
    → IsConsistent r
    → NewTo ids cs
    → Covers ids r.calls
    → AllReady (record r { calls = called r.calls cs }) cs
called-AllReady r ids cs c new covers =
    Found-AllReady (record r { calls = called r.calls cs }) ids cs new
      (called-Found ids r.calls cs new) (λ id h. covers id (c.answered_called id h))
      (λ id h. covers id (c.started_called id h))
      (λ id h. covers id (c.answered_called id (c.settled_answered id h)))

-- The results that are pushed answer the calls that were added.
contains-push_ids :
    (xs : List String) (cs : List ToolCall) (id : String)
    → contains xs id ≡ true
    → contains (push_ids xs cs) id ≡ true
unfolding push_ids contains
contains-push_ids xs [] id h = h
contains-push_ids xs (c ∷ cs) id h =
    contains-push_ids (c.id ∷ xs) cs id (or-right (str_eq c.id id) h)

has_results_mono :
    (xs ys : List String) (calls : List (String × String))
    → Within xs ys
    → has_results xs calls ≡ true
    → has_results ys calls ≡ true
has_results_mono xs ys [] within h = refl
has_results_mono xs ys ((id, name) ∷ calls) within h =
    let (this, those) = and-eq-true (contains xs id) (has_results xs calls) h in
    rw (within id this) (has_results_mono xs ys calls within those)

pub has_results-called :
    (xs : List String) (calls : List (String × String)) (cs : List ToolCall)
    → has_results xs calls ≡ true
    → has_results (push_ids xs cs) (called calls cs) ≡ true
unfolding push_ids called contains
has_results-called xs calls [] h = h
has_results-called xs calls (c ∷ cs) h =
    has_results-called (c.id ∷ xs) ((c.id, c.name) ∷ calls) cs (
      rw (str_eq_same c.id)
        (has_results_mono xs (c.id ∷ xs) calls (λ id there. or-right (str_eq c.id id) there) h))
