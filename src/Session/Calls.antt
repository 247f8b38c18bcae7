-- ===== src/Session/Calls.antt =====
-- src/session.rs: what each record that `Recovery` accepts does to its sets.
use danso.Prelude.{
  ◌≡◌, refl, sym, ◌∙◌, subst, ◌⊎◌, inl, inr, Bool, true, false, not, ◌&&◌, ◌||◌, Option, some, List,
  [], ◌∷◌, String, str_eq, eq_iff, is_some, if◌then◌else◌, Bool-cases,
}
use danso.Prelude.Result.{
  context-some, ensure-true, ok, ensure, context, >>=-eq-ok, guard-eq-ok, refused-eq-ok,
  choose-eq-ok, either-eq-ok,
}
use danso.Json.{Value, str, index, as_str, is_str, contains}
use danso.Json.Laws.{str_eq_same}
use danso.Contracts.{ToolCall, tool_calls}
use danso.Session.Append.{as_str-some}
use danso.Session.Recovery.{
  Recovery, lookup, remove, check_content, add_calls, add_result, add_message, name_matches, start,
  settle, operation, change_state,
}

pub contains-remove_same : (xs : List String) (id : String) → contains (remove xs id) id ≡ false
unfolding contains remove
contains-remove_same [] id = refl
contains-remove_same (x ∷ xs) id = elim (Bool-cases (str_eq x id)) [
  | inl same ↦ rw same (contains-remove_same xs id)
  | inr apart ↦ rw (apart, apart) (contains-remove_same xs id)
]

pub contains-remove_other :
    (xs : List String) (id other : String)
    → str_eq id other ≡ false
    → contains (remove xs id) other ≡ contains xs other
unfolding contains remove
contains-remove_other [] id other h = refl
contains-remove_other (x ∷ xs) id other h = elim (Bool-cases (str_eq x id)) [
  | inl same ↦
      let here : x ≡ id = (eq_iff x id).0 same in
      rw same (rw (here, h) (contains-remove_other xs id other h))
  | inr apart ↦ rw (apart, contains-remove_other xs id other h) refl
]

pub contains-remove_within :
    (xs : List String) (id other : String)
    → contains (remove xs id) other ≡ true
    → contains xs other ≡ true
contains-remove_within xs id other h = elim (Bool-cases (str_eq id other)) [
  | inl same ↦
      let gone : contains (remove xs id) other ≡ false =
        subst (λ i. contains (remove xs id) i ≡ false) ((eq_iff id other).0 same)
          (contains-remove_same xs id) in
      cc
  | inr apart ↦ sym (contains-remove_other xs id other apart) ∙ h
]

pub or-right : (a : Bool) {b : Bool} → b ≡ true → (a || b) ≡ true
or-right true h = refl
or-right false h = h

either-is_some :
    {A : Type 0} (b : Bool) (a : A) (o : Option A)
    → is_some o ≡ true
    → is_some (if b then some a else o) ≡ true
either-is_some true a o h = refl
either-is_some false a o h = h

pub and-eq-true : (a b : Bool) → (a && b) ≡ true → (a ≡ true) × (b ≡ true)
and-eq-true true b h = (refl, h)
and-eq-true false b h = (h, cc)

not-eq-true : (a : Bool) → not a ≡ true → a ≡ false
not-eq-true true h = cc
not-eq-true false h = refl

-- A start that is accepted: the call had no result and no marker, and has the marker now.
pub record Starts (r r' : Recovery) (id : String) : Type 0 where
  pub unanswered : contains r.results id ≡ false
  pub unsettled : contains r.settled id ≡ false
  pub unstarted : contains r.started id ≡ false
  pub after : r' ≡ record r { started = id ∷ r.started }

pub record Settles (r r' : Recovery) (id : String) : Type 0 where
  pub answered : contains r.results id ≡ true
  pub was_started : contains r.started id ≡ true
  pub unsettled : contains r.settled id ≡ false
  pub after : r' ≡ record r { started = remove r.started id; settled = id ∷ r.settled }

start-Starts : (r r' : Recovery) (id : String) → start r id ≡ ok r' → Starts r r' id
unfolding start
start-Starts r r' id h =
    let (test, after) =
      guard-eq-ok
        (not (contains r.results id) && not (contains r.settled id) && not (contains r.started id))
        _ _ _ h in
    let (both, third) = and-eq-true _ _ test in
    let (first, second) = and-eq-true _ _ both in
    record {
      unanswered = not-eq-true _ first;
      unsettled = not-eq-true _ second;
      unstarted = not-eq-true _ third;
      after = after;
    }

settle-Settles : (r r' : Recovery) (id : String) → settle r id ≡ ok r' → Settles r r' id
unfolding settle
settle-Settles r r' id h =
    let (test, after) =
      guard-eq-ok (contains r.results id && contains r.started id && not (contains r.settled id)) _
        _ _ h in
    let (both, third) = and-eq-true _ _ test in
    let (first, second) = and-eq-true _ _ both in
    record {
      answered = first;
      was_started = second;
      unsettled = not-eq-true _ third;
      after = after;
    }

-- Whether a record settles the call.
unfoldable pub settles : Value → String → Bool
settles d id = is_str (index d "toolCallId") id && is_str (index d "state") "settled"

change_state-cases :
    (r r' : Recovery) (id : String) (state : Value)
    → change_state r id state ≡ ok r'
    → Starts r r' id ⊎ (Settles r r' id × (is_str state "settled" ≡ true))
change_state-cases r r' id state h =
    elim (choose-eq-ok (is_str state "started") (is_str state "settled") _ _ _ r' h) [
      | inl (_, started) ↦ inl (start-Starts r r' id started)
      | inr (settled, done) ↦ inr (settle-Settles r r' id done, settled)
    ]

-- An operation record that is accepted starts or settles a call that is there.
pub operation-cases :
    (r r' : Recovery) (d : Value)
    → operation r d ≡ ok r'
    → (id : String) × (index d "toolCallId" ≡ str id)
      × (is_some (lookup r.calls id) ≡ true)
      × (Starts r r' id ⊎ (Settles r r' id × (settles d id ≡ true)))
unfolding operation settles is_str
operation-cases r r' d h =
    let (id, named, h₁) =
      >>=-eq-ok (context (as_str (index d "toolCallId")) "invalid operation id") _ h in
    let (_, called, h₂) =
      >>=-eq-ok (ensure (is_some (lookup r.calls id)) "orphan operation record") _ h₁ in
    let spelled : index d "toolCallId" ≡ str id = as_str-some _ id (context-some _ _ id named) in
    (
      id,
      spelled,
      ensure-true _ _ tt called,
      elim (change_state-cases r r' id (index d "state") h₂) [
        | inl started ↦ inl started
        | inr (done, settled) ↦ inr (done, rw (spelled, str_eq_same id, settled) refl)
      ],
    )

-- A message that is accepted leaves the markers alone, and only adds calls, and results of calls.
pub record Adds (r r' : Recovery) : Type 0 where
  pub started : r'.started ≡ r.started
  pub settled : r'.settled ≡ r.settled
  pub kept : (id : String) → contains r.results id ≡ true → contains r'.results id ≡ true
  pub called :
      (id : String) → is_some (lookup r.calls id) ≡ true → is_some (lookup r'.calls id) ≡ true
  pub answered :
      (id : String)
      → contains r'.results id ≡ true
      → (contains r.results id ≡ true) ⊎ (is_some (lookup r'.calls id) ≡ true)

same-Adds : (r r' : Recovery) → r' ≡ r → Adds r r'
same-Adds r r' same = rw same (record {
  started = refl;
  settled = refl;
  kept = λ id h. h;
  called = λ id h. h;
  answered = λ id h. inl h;
})

add_calls-Adds : (r r' : Recovery) (cs : List ToolCall) → add_calls r cs ≡ ok r' → Adds r r'
unfolding add_calls lookup
add_calls-Adds r r' [] h = same-Adds r r' cc
add_calls-Adds r r' (c ∷ cs) h =
    let r₁ : Recovery = record r { calls = (c.id, c.name) ∷ r.calls } in
    let rest : add_calls r₁ cs ≡ ok r' =
      (refused-eq-ok (is_some (lookup r.calls c.id)) _ _ _ h).1 in
    let adds = add_calls-Adds r₁ r' cs rest in
    record {
      started = adds.started;
      settled = adds.settled;
      kept = adds.kept;
      called = λ id h. adds.called id (either-is_some (str_eq c.id id) c.name _ h);
      answered = adds.answered;
    }

add_result-Adds : (r r' : Recovery) (m : Value) → add_result r m ≡ ok r' → Adds r r'
unfolding add_result contains
add_result-Adds r r' m h =
    let (id, named, h₁) =
      >>=-eq-ok (context (as_str (index m "toolCallId")) "invalid result id") _ h in
    let (_, fresh, h₂) =
      >>=-eq-ok
        (ensure (is_some (lookup r.calls id) && not (contains r.results id))
          "orphan or duplicate tool result")
        _ h₁ in
    let (_, matching, h₃) =
      >>=-eq-ok
        (ensure (name_matches (lookup r.calls id) (as_str (index m "toolName")))
          "tool result name mismatch")
        _ h₂ in
    let after : r' ≡ record r { results = id ∷ r.results } = cc in
    let (called, new) =
      and-eq-true (is_some (lookup r.calls id)) (not (contains r.results id))
        (ensure-true _ _ tt fresh) in
    rw after (record {
      started = refl;
      settled = refl;
      kept = λ other h. or-right (str_eq id other) h;
      called = λ other h. h;
      answered = λ other h. elim (Bool-cases (str_eq id other)) [
        | inl same ↦
            inr (subst (λ i. is_some (lookup r.calls i) ≡ true) ((eq_iff id other).0 same) called)
        | inr apart ↦ inl (subst (λ b. (b || contains r.results other) ≡ true) apart h)
      ];
    })

-- `Recovery::message`, for every role.
pub add_message-Adds : (r r' : Recovery) (m : Value) → add_message r m ≡ ok r' → Adds r r'
unfolding add_message
add_message-Adds r r' m h =
    let (_, _, h₁) = >>=-eq-ok (check_content m) _ h in
    elim (either-eq-ok (is_str (index m "role") "assistant") (is_str (index m "role") "toolResult")
      _ _ r r' h₁) [
        | inl calling ↦
            let (cs, _, added) = >>=-eq-ok (tool_calls m) _ calling in add_calls-Adds r r' cs added
        | inr (inl answering) ↦ add_result-Adds r r' m answering
        | inr (inr other) ↦ same-Adds r r' other
      ]
