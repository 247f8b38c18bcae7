-- ===== src/Session/Markers.antt =====
-- src/session.rs: the markers of tool operations over a whole journal.
use danso.Prelude.{
  ◌≡◌, refl, subst, inl, inr, true, false, ◌||◌, String, str_eq, eq_iff, is_some, Bool-cases,
}
use danso.Prelude.Result.{ok}
use danso.Json.{Value, contains}
use danso.Session.Recovery.{Recovery, new, lookup, remove, add_message, operation}
use danso.Session.Calls.{
  Adds, Starts, Settles, add_message-Adds, operation-cases, contains-remove_same,
  contains-remove_within,
}

-- A record of the journal that the calls' state accepts.
pub data Step : Recovery → Recovery → Type 0 where
  saw_message : {r r' : Recovery} (m : Value) → add_message r m ≡ ok r' → Step r r'
  saw_operation : {r r' : Recovery} (d : Value) → operation r d ≡ ok r' → Step r r'

-- A marker belongs to a call, a settled call has its result, and no call is both started and settled.
pub record IsConsistent (r : Recovery) : Type 0 where
  pub started_called :
      (id : String) → contains r.started id ≡ true → is_some (lookup r.calls id) ≡ true
  pub answered_called :
      (id : String) → contains r.results id ≡ true → is_some (lookup r.calls id) ≡ true
  pub settled_answered : (id : String) → contains r.settled id ≡ true → contains r.results id ≡ true
  pub apart : (id : String) → contains r.started id ≡ true → contains r.settled id ≡ false

pub new-IsConsistent : IsConsistent new
unfolding contains
new-IsConsistent = record {
  started_called = λ id h. cc;
  answered_called = λ id h. cc;
  settled_answered = λ id h. cc;
  apart = λ id h. refl;
}

Adds-IsConsistent : (r r' : Recovery) → Adds r r' → IsConsistent r → IsConsistent r'
Adds-IsConsistent r r' adds c = record {
  started_called = λ id h.
      adds.called id (c.started_called id (subst (λ xs. contains xs id ≡ true) adds.started h));
  answered_called = λ id h. elim (adds.answered id h) [
    | inl before ↦ adds.called id (c.answered_called id before)
    | inr called ↦ called
  ];
  settled_answered = λ id h.
      adds.kept id (c.settled_answered id (subst (λ xs. contains xs id ≡ true) adds.settled h));
  apart = λ id h. rw adds.settled (c.apart id (subst (λ xs. contains xs id ≡ true) adds.started h));
}

Starts-IsConsistent :
    (r r' : Recovery) (id : String)
    → is_some (lookup r.calls id) ≡ true
    → Starts r r' id
    → IsConsistent r
    → IsConsistent r'
unfolding contains
Starts-IsConsistent r r' id called st c = rw st.after (record {
  started_called = λ other h. elim (Bool-cases (str_eq id other)) [
    | inl same ↦ subst (λ i. is_some (lookup r.calls i) ≡ true) ((eq_iff id other).0 same) called
    | inr differs ↦
        c.started_called other (subst (λ b. (b || contains r.started other) ≡ true) differs h)
  ];
  answered_called = c.answered_called;
  settled_answered = c.settled_answered;
  apart = λ other h. elim (Bool-cases (str_eq id other)) [
    | inl same ↦ subst (λ i. contains r.settled i ≡ false) ((eq_iff id other).0 same) st.unsettled
    | inr differs ↦ c.apart other (subst (λ b. (b || contains r.started other) ≡ true) differs h)
  ];
})

Settles-IsConsistent :
    (r r' : Recovery) (id : String) → Settles r r' id → IsConsistent r → IsConsistent r'
unfolding contains
Settles-IsConsistent r r' id st c = rw st.after (record {
  started_called = λ other h. c.started_called other (contains-remove_within r.started id other h);
  answered_called = c.answered_called;
  settled_answered = λ other h. elim (Bool-cases (str_eq id other)) [
    | inl same ↦ subst (λ i. contains r.results i ≡ true) ((eq_iff id other).0 same) st.answered
    | inr differs ↦
        c.settled_answered other (subst (λ b. (b || contains r.settled other) ≡ true) differs h)
  ];
  apart = λ other h. elim (Bool-cases (str_eq id other)) [
    | inl same ↦
        let gone : contains (remove r.started id) other ≡ false =
          subst (λ i. contains (remove r.started id) i ≡ false) ((eq_iff id other).0 same)
            (contains-remove_same r.started id) in
        let there : contains (remove r.started id) other ≡ true = h in cc
    | inr differs ↦ rw differs (c.apart other (contains-remove_within r.started id other h))
  ];
})

pub Step-IsConsistent : {r r' : Recovery} → Step r r' → IsConsistent r → IsConsistent r'
Step-IsConsistent {r = r} {r' = r'} (saw_message m h) c =
    Adds-IsConsistent r r' (add_message-Adds r r' m h) c
Step-IsConsistent {r = r} {r' = r'} (saw_operation d h) c =
    let (id, named, called, change) = operation-cases r r' d h in
    elim change [
      | inl starts ↦ Starts-IsConsistent r r' id called starts c
      | inr (done, settled) ↦ Settles-IsConsistent r r' id done c
    ]
