-- ===== src/Compaction/Bounds.antt =====
-- src/compaction.rs: what a compacted context holds.
use danso.Prelude.{
  or-eq-false, ◌≡◌, refl, sym, ap, subst, ◌⊎◌, inl, inr, ◌≤◌, ltb, Bool, true, false, ◌||◌, Option,
  none, some, List, [], ◌∷◌, length, ltb-false, if◌then◌else◌, Bool-cases,
}
use danso.Prelude.Result.{context-some, ok, context, >>=-eq-ok, ok-eq}
use danso.Json.{Value, index, as_array, of_list, to_list, is_str, get, get_field, set_field}
use danso.Compaction.{
  Printer, bytes_of, receipts_value, bound_receipts, Receipts, collect_receipts, no_receipts,
  is_current_user, find_last_user, latest_user, context_message, checkpoint, checkpoint_messages,
  next_receipts, last_of,
}

to_list-of_list : (vs : List Value) → to_list (of_list vs) ≡ vs
to_list-of_list [] = refl
to_list-of_list (v ∷ vs) = ap (λ ws. v ∷ ws) (to_list-of_list vs)

some-eq : {A : Type 0} (a b : A) → some a ≡ some b → a ≡ b
some-eq a b h = cc

chosen-IsCurrent :
    (b : Bool) (m u : Value)
    → is_current_user m ≡ b
    → (if b then some m else none) ≡ some u
    → is_current_user u ≡ true
chosen-IsCurrent true m u is h = subst (λ v. is_current_user v ≡ true) (some-eq m u h) is
chosen-IsCurrent false m u is h = cc

last_of-IsCurrent :
    (m u : Value) (rest : Option Value)
    → ((w : Value) → rest ≡ some w → is_current_user w ≡ true)
    → last_of m rest ≡ some u
    → is_current_user u ≡ true
last_of-IsCurrent m u (some w) later h = later u h
last_of-IsCurrent m u none later h = chosen-IsCurrent (is_current_user m) m u refl h

find_last_user-IsCurrent :
    (ms : List Value) (u : Value) → find_last_user ms ≡ some u → is_current_user u ≡ true
unfolding find_last_user
find_last_user-IsCurrent [] u h = cc
find_last_user-IsCurrent (m ∷ ms) u h =
    last_of-IsCurrent m u (find_last_user ms) (λ w later. find_last_user-IsCurrent ms w later) h

module _ (printer : Printer) where
  -- What the loop over the receipts keeps: few, and small when written.
  pub Fits : List Value → Type 0
  Fits rs = (rs ≡ []) ⊎ ((length rs ≤ 4) × (bytes_of printer (receipts_value printer rs) ≤ 1024))

  bound_receipts-Fits : (rs : List Value) → Fits (bound_receipts printer rs)
  unfolding bound_receipts Fits
  bound_receipts-Fits [] = inl refl
  bound_receipts-Fits (r ∷ rs) =
      elim (Bool-cases (
        ltb 4 (length (r ∷ rs)) || ltb 1024 (bytes_of printer (receipts_value printer (r ∷ rs))))) [
          | inl over ↦ rw over (bound_receipts-Fits rs)
          | inr within ↦
              let (few, small) = or-eq-false (ltb 4 (length (r ∷ rs))) _ within in
              rw within (inr (ltb-false _ _ few, ltb-false _ _ small))
        ]

  collect_receipts-Fits :
      (ms : List Value) (r r' : Receipts)
      → collect_receipts printer r ms ≡ ok r'
      → Fits r.receipts
      → Fits r'.receipts
  unfolding collect_receipts
  collect_receipts-Fits [] r r' h fits =
      subst (λ (x : Receipts). Fits x.receipts) (sym (ok-eq _ _ h)) fits
  collect_receipts-Fits (m ∷ ms) r r' h fits =
      let (r₂, _, rest) = >>=-eq-ok (next_receipts m r) _ h in
      collect_receipts-Fits ms (record r₂ { receipts = bound_receipts printer r₂.receipts }) r' rest
        (bound_receipts-Fits r₂.receipts)

  none-Fits : Fits []
  unfolding Fits
  none-Fits = inl refl

  checkpointed-latest :
      (user summary : Value) (receipts : List Value)
      → is_current_user user ≡ true
      → find_last_user (user ∷ checkpoint printer summary receipts ∷ []) ≡ some user
  unfolding find_last_user checkpoint context_message index get get_field set_field is_str
  checkpointed-latest user summary receipts current = rw current refl

  checkpoint-receipts :
      (summary : Value) (receipts : List Value)
      → as_array (index (checkpoint printer summary receipts) "dansoToolReceipts") ≡ some receipts
  unfolding checkpoint context_message index get get_field set_field as_array
  checkpoint-receipts summary receipts = ap some (to_list-of_list receipts)

  -- A compaction leaves the latest user request and one checkpoint, whose receipts are at most four and
  -- at most 1024 bytes unless there are none; the request is the latest one of the new context too.
  pub checkpoint_messages-Keeps :
      (summary : Value) (ms out : List Value)
      → checkpoint_messages printer summary ms ≡ ok out
      → (user : Value) × (receipts : List Value) × (out
          ≡ user ∷ checkpoint printer summary receipts ∷ [])
        × (find_last_user ms ≡ some user)
        × (find_last_user out ≡ some user)
        × Fits receipts
        × (as_array (index (checkpoint printer summary receipts) "dansoToolReceipts")
            ≡ some receipts)
  unfolding checkpoint_messages latest_user
  checkpoint_messages-Keeps summary ms out h =
      let (r, collected, h₁) = >>=-eq-ok (collect_receipts printer (no_receipts printer) ms) _ h in
      let (user, found, h₂) =
        >>=-eq-ok (context (find_last_user ms) "compaction requires a current user request") _ h₁ in
      let latest = context-some _ _ user found in
      let made : out ≡ user ∷ checkpoint printer summary r.receipts ∷ [] = ok-eq _ _ h₂ in
      (
        user,
        r.receipts,
        made,
        latest,
        rw made
            (checkpointed-latest user summary r.receipts (find_last_user-IsCurrent ms user latest)),
        collect_receipts-Fits ms (no_receipts printer) r collected (none-Fits),
        checkpoint-receipts summary r.receipts,
      )
