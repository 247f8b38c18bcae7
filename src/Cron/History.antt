-- ===== src/Cron/History.antt =====
-- src/cron/commit.rs: a task's run history and its cap.
use danso.Prelude.{
  ℕ, zero, suc, ◌+◌, ◌-◌, ◌≤◌, ◌<◌, ◌≡◌, refl, leb, List, [], ◌∷◌, ◌++◌, length, length-append,
  take, drop, arith, Bool-cases, inl, inr, ap,
}
use danso.Prelude.Int.{ℤ, pos, negsuc}
use danso.Cron.Commit.{RunHistoryItem, Task, append_run_history, split_history, history_cap}

module _ {ℓ} {A : Type ℓ} where
  take-drop : (n : ℕ) (xs : List A) → take n xs ++ drop n xs ≡ xs
  take-drop zero xs = refl
  take-drop (suc n) [] = refl
  take-drop (suc n) (x ∷ xs) = ap (λ ys. x ∷ ys) (take-drop n xs)

  length-drop : (n : ℕ) (xs : List A) → n ≤ length xs → length (drop n xs) + n ≡ length xs
  length-drop zero xs h = omega arith
  length-drop (suc n) [] h = absurd (omega arith)
  length-drop (suc n) (x ∷ xs) h = omega (arith, length-drop n xs (omega arith))

  -- A suffix that is not empty ends as the list does.
  drop-last :
      (n : ℕ) (xs : List A) (x : A)
      → n ≤ length xs
      → drop n (xs ++ (x ∷ [])) ≡ drop n xs ++ (x ∷ [])
  drop-last zero xs x h = refl
  drop-last (suc n) [] x h = absurd (omega arith)
  drop-last (suc n) (y ∷ xs) x h = drop-last n xs x (omega arith)

history_cap_range : (n : ℤ) → (1 ≤ history_cap n) × (history_cap n ≤ 500)
unfolding history_cap
history_cap_range (pos zero) = omega arith
history_cap_range (pos (suc n)) = omega arith
history_cap_range (negsuc n) = omega arith

-- What an append owes: no entry is lost or reordered, the newest is kept, and the cap holds.
pub record Appends (task : Task) (entry : RunHistoryItem) (result : List RunHistoryItem × Task)
    : Type 0 where
  pub complete : result.0 ++ result.1.run_history ≡ task.run_history ++ (entry ∷ [])
  pub newest : (older : List RunHistoryItem) × (result.1.run_history ≡ older ++ (entry ∷ []))
  pub bounded : length result.1.run_history ≤ history_cap task.max_run_history
  pub only_history : result.1 ≡ record task { run_history = result.1.run_history }

split-Appends :
    (task : Task) (entry : RunHistoryItem) (most : ℕ)
    → 1 ≤ most
    → most ≡ history_cap task.max_run_history
    → Appends task entry (split_history task (task.run_history ++ (entry ∷ [])) most)
split-Appends task entry most room same =
    let all = task.run_history ++ (entry ∷ []) in
    let size : length all ≡ length task.run_history + 1 =
      length-append task.run_history (entry ∷ []) in
    elim (Bool-cases (leb (length all) most)) [
      | inl fits ↦ rw fits (record {
        complete = refl;
        newest = (task.run_history, refl);
        bounded = ground arith;
        only_history = refl;
      })
      | inr over ↦
          let n : ℕ = length all - most in
          let long : most < length all = ground arith in
          let left : length (drop n all) + n ≡ length all = length-drop n all (omega arith) in
          rw over (record {
            complete = take-drop n all;
            newest = (drop n task.run_history, drop-last n task.run_history entry (omega arith));
            bounded = omega arith;
            only_history = refl;
          })
    ]

-- `append_run_history` loses and reorders nothing: the evicted entries and then the kept ones are the
-- old history and then the new entry; the new entry is kept, the history is within the task's cap,
-- which is 500 at most, and the task does not change otherwise.
pub append_run_history-Appends :
    (task : Task) (entry : RunHistoryItem)
    → Appends task entry (append_run_history task entry) × (history_cap task.max_run_history ≤ 500)
unfolding append_run_history
append_run_history-Appends task entry =
    let range = history_cap_range task.max_run_history in
    (split-Appends task entry (history_cap task.max_run_history) range.0 refl, range.1)
