-- ===== src/Runtime/Pauses.antt =====
-- src/runtime.rs: a pause request, against the journal.
use danso.Prelude.{String, ◌≡◌, refl, sym, ap, ◌∙◌, subst, Bool, true, false, ◌&&◌, Option}
use danso.Prelude.Result.{ok, ensure, require, >>=-eq-ok, ok-eq}
use danso.LongTask.Ledger.{
  State, no_task, ready, pending_provider, pending_tools, final_pending, paused, completed, failed,
  Ledger,
}
use danso.LongTask.Ops.{SessionStore, Plan, plan_pause}
use danso.LongTask.Recovery.{Coherent, Steps-Coherent, commit-eq}
use danso.LongTask.Apply.{is_ready, is_pause_reason}
use danso.Runtime.Gate.{give, run_plan, pause_if_requested, pause_at}
use danso.Runtime.GateSteps.{IsSound, next-eq-ok, chain-IsSound, give-IsSound, pause-IsSound}

true-not-false : ¬ (true ≡ false)
true-not-false h = cc

-- The states at which a task rests between two stages.
abbrev pub can_rest : State → Bool
can_rest ready = true
can_rest paused = true
can_rest _ = false

module _ {S : Type 0} (store : SessionStore S) where
  -- What a check for a pause request does: it returns whether a pause was requested at a boundary where
  -- a task can rest, and then the task is paused; else nothing changes.
  pub record Pauses (id : Option String) (requested : Bool) (l l' : Ledger) (s s' : S) (b : Bool)
      : Type 0 where
    pub coherent : Coherent store id l' s'
    pub returned : b ≡ (requested && can_rest l.state)
    pub paused_if : b ≡ true → l'.state ≡ paused
    pub kept_if : b ≡ false → (l' ≡ l) × (s' ≡ s)

  unpaused-Pauses :
      (id : Option String) (requested : Bool) (l l' : Ledger) (s s' : S) (b : Bool)
      → requested && can_rest l.state ≡ false
      → Coherent store id l s
      → give {S = S} (ok false) l s ≡ ((ok b, l'), s')
      → Pauses id requested l l' s s' b
  unpaused-Pauses id requested l l' s s' b apart c h =
      let same : b ≡ false = ok-eq _ _ (ap (λ q. (q.0).0) h) in
      let ledger : l ≡ l' = ap (λ q. (q.0).1) h in
      let state : s ≡ s' = ap (λ q. q.1) h in
      record {
        coherent =
            subst (λ m. Coherent store id m s') ledger (subst (λ t. Coherent store id l t) state c);
        returned = same ∙ sym apart;
        paused_if = λ yes_paused. absurd (true-not-false (sym yes_paused ∙ same));
        kept_if = λ kept. (sym ledger, sym state);
      }

  plan_pause-paused :
      (l : Ledger) (reason : String) (p : Plan (Unit {0}))
      → plan_pause l reason ≡ ok p
      → p.next.state ≡ paused
  unfolding plan_pause
  plan_pause-paused l reason p h =
      let (_, _, h₁) =
        >>=-eq-ok (ensure (is_ready l.state) "long-task pause is not at a settled boundary") _ h in
      let (_, _, h₂) = >>=-eq-ok (require (is_pause_reason reason)) _ h₁ in
      ap (λ (q : Plan (Unit {0})). q.next.state) (ok-eq _ _ h₂)

  pause_at-Pauses :
      (id : Option String) (at : State) (l l' : Ledger) (s s' : S) (b : Bool)
      → l.state ≡ at
      → Coherent store id l s
      → pause_at store at l s ≡ ((ok b, l'), s')
      → Pauses id true l l' s s' b
  unfolding IsSound
  pause_at-Pauses id ready l l' s s' b is c h =
      let (a, m, t, one, two) =
        next-eq-ok store (run_plan store (λ x. plan_pause x "operator") l s) _ h in
      let (p, planned, entry, written, after) =
        commit-eq store (plan_pause l "operator") l s a m t one in
      let same : b ≡ true = ok-eq _ _ (ap (λ q. (q.0).0) two) in
      let ledger : m ≡ l' = ap (λ q. (q.0).1) two in
      record {
        coherent =
            Steps-Coherent store id
              (chain-IsSound store (run_plan store (λ x. plan_pause x "operator"))
                (λ _. give (ok true)) (pause-IsSound store "operator")
                (λ _. give-IsSound store (ok true)) l l' s s' b h)
              c;
        returned = same ∙ sym (ap can_rest is);
        paused_if = λ yes_paused.
            ap (λ (x : Ledger). x.state) (sym ledger ∙ after)
            ∙ plan_pause-paused l "operator" p planned;
        kept_if = λ kept. absurd (true-not-false (sym same ∙ kept));
      }
  pause_at-Pauses id paused l l' s s' b is c h =
      let same : b ≡ true = ok-eq _ _ (ap (λ q. (q.0).0) h) in
      let ledger : l ≡ l' = ap (λ q. (q.0).1) h in
      let state : s ≡ s' = ap (λ q. q.1) h in
      record {
        coherent =
            subst (λ m. Coherent store id m s') ledger (subst (λ t. Coherent store id l t) state c);
        returned = same ∙ sym (ap can_rest is);
        paused_if = λ yes_paused. ap (λ (x : Ledger). x.state) (sym ledger) ∙ is;
        kept_if = λ kept. absurd (true-not-false (sym same ∙ kept));
      }
  pause_at-Pauses id no_task l l' s s' b is c h =
      unpaused-Pauses id true l l' s s' b (ap can_rest is) c h
  pause_at-Pauses id pending_provider l l' s s' b is c h =
      unpaused-Pauses id true l l' s s' b (ap can_rest is) c h
  pause_at-Pauses id pending_tools l l' s s' b is c h =
      unpaused-Pauses id true l l' s s' b (ap can_rest is) c h
  pause_at-Pauses id final_pending l l' s s' b is c h =
      unpaused-Pauses id true l l' s s' b (ap can_rest is) c h
  pause_at-Pauses id completed l l' s s' b is c h =
      unpaused-Pauses id true l l' s s' b (ap can_rest is) c h
  pause_at-Pauses id failed l l' s s' b is c h =
      unpaused-Pauses id true l l' s s' b (ap can_rest is) c h

  -- A check for a pause request that returns gives `true` exactly where a pause was requested and the
  -- task was ready or already paused. Then the task is paused, else neither the ledger nor the journal
  -- has changed; and the journal still rebuilds the ledger, as it did before.
  pub pause_if_requested-Pauses :
      (id : Option String) (requested : Bool) (l l' : Ledger) (s s' : S) (b : Bool)
      → Coherent store id l s
      → pause_if_requested store requested l s ≡ ((ok b, l'), s')
      → Pauses id requested l l' s s' b
  unfolding pause_if_requested
  pause_if_requested-Pauses id false l l' s s' b c h = unpaused-Pauses id false l l' s s' b refl c h
  pause_if_requested-Pauses id true l l' s s' b c h =
      pause_at-Pauses id l.state l l' s s' b refl c h
