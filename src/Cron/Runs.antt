-- ===== src/Cron/Runs.antt =====
-- src/cron/commit.rs: what a finished run does to its task's run limit and retry state.
use danso.Prelude.{
  ℕ, ◌≡◌, refl, ltb, leb, Bool, true, false, Option, none, some, String, arith, Bool-cases,
  Option-cases, is_some, not, ◌&&◌, ◌||◌, if◌then◌else◌, inl, inr, str_eq,
}
use danso.Prelude.Result.{Result, ok, err}
use danso.Prelude.Int.{ℤ, pos, ◌+ℤ◌, leb_ℤ, ltb_ℤ}
use danso.Cron.Retry.{RetryPolicy, RetryView, from_spec, retry_view, Stamps}
use danso.Cron.Commit.{
  Task, run_limit_metadata, apply_run_limit, is_reached, apply_retry_transition, declared, exhaust,
  await_retry, eligible, RunLimit, count_run, stop_at,
}

-- What a run owes its task: a limited task counts it, and stops for good, with no retry left, exactly
-- where the runs have now reached the limit. Nothing else changes.
pub record CountsRun (task : Task) (result : RunLimit × Task) : Type 0 where
  pub counted :
      result.1.run_count
      ≡ (if is_some task.max_runs then task.run_count +ℤ pos 1 else task.run_count)
  pub stops :
      is_reached result.1.max_runs result.1.run_count ≡ true
      → (result.1.enabled ≡ false) × (result.1.retry_state ≡ none)
  pub goes_on :
      is_reached result.1.max_runs result.1.run_count ≡ false
      → (result.1.enabled ≡ task.enabled) × (result.1.retry_state ≡ task.retry_state)
  pub limit_stays : result.1.max_runs ≡ task.max_runs
  pub history_stays : result.1.run_history ≡ task.run_history
  pub policy_stays : result.1.retry_policy ≡ task.retry_policy
  pub cap_stays : result.1.max_run_history ≡ task.max_run_history
  pub reports_result : result.0 ≡ run_limit_metadata result.1

stop_at-CountsRun :
    (task : Task) (reached : Bool)
    → is_some task.max_runs ≡ true
    → is_reached task.max_runs (task.run_count +ℤ pos 1) ≡ reached
    → CountsRun task (run_limit_metadata (count_run task), stop_at reached (count_run task))
unfolding run_limit_metadata
stop_at-CountsRun task true limited known = record {
  counted = rw limited refl;
  stops = λ h. (refl, refl);
  goes_on = λ h. absurd (cc);
  limit_stays = refl;
  history_stays = refl;
  policy_stays = refl;
  cap_stays = refl;
  reports_result = refl;
}
stop_at-CountsRun task false limited known = record {
  counted = rw limited refl;
  stops = λ h. absurd (cc);
  goes_on = λ h. (refl, refl);
  limit_stays = refl;
  history_stays = refl;
  policy_stays = refl;
  cap_stays = refl;
  reports_result = refl;
}

-- `apply_run_limit` counts the run of a task with a limit, and only of such a task. Where the count
-- has reached the limit, the task is disabled and has no retry state; else it is enabled as before
-- and keeps its retry state. Nothing else of the task changes, and the report is the state of the
-- limit after the run.
pub apply_run_limit-CountsRun : (task : Task) → CountsRun task (apply_run_limit task)
unfolding apply_run_limit run_limit_metadata
apply_run_limit-CountsRun task = elim (Option-cases task.max_runs) [
  | inl none_set ↦
      let no_test : is_some task.max_runs ≡ false = rw none_set refl in
      let never : is_reached task.max_runs task.run_count ≡ false = rw none_set refl in
      rw no_test (record {
        counted = rw no_test refl;
        stops = λ h. absurd (cc);
        goes_on = λ h. (refl, refl);
        limit_stays = refl;
        history_stays = refl;
        policy_stays = refl;
        cap_stays = refl;
        reports_result = refl;
      })
  | inr (m, limit) ↦
      let test : is_some task.max_runs ≡ true = rw limit refl in
      rw test (stop_at-CountsRun task _ test refl)
]

-- How a retry state shows at a later plan: not at all, exhausted, with a time that cannot be read, or
-- ready from a time on.
pub data Outlook : Type 0 where
  no_retry : Outlook
  gives_up : Outlook
  reads_no_time : Outlook
  retries_from : ℕ → Outlook

-- What `retry_view` says at the time `at` under each outlook.
abbrev pub Shows : Outlook → ℤ → ℕ → Option RetryView → Type 0
Shows no_retry attempt at view = view ≡ none
Shows gives_up attempt at view =
    (v : RetryView) × (view ≡ some v)
    × (v.ready ≡ false)
    × (v.waiting ≡ false)
    × (v.exhausted ≡ true)
Shows reads_no_time attempt at view =
    (v : RetryView) × (view ≡ some v)
    × (v.ready ≡ false)
    × (v.waiting ≡ false)
    × (v.exhausted ≡ false)
    × (v.error ≡ some "invalid retryEligibleAt")
Shows (retries_from t) attempt at view =
    (v : RetryView) × (view ≡ some v)
    × (v.ready ≡ leb t at)
    × (v.waiting ≡ ltb at t)
    × (v.exhausted ≡ false)
    × (v.retry_attempt ≡ (if leb t at then attempt +ℤ pos 1 else attempt))

-- The outlook of a stamp, by what reading it gives.
abbrev pub stamp_outlook : Result (Option ℕ) → Outlook
stamp_outlook (ok (some t)) = retries_from t
stamp_outlook (ok none) = gives_up
stamp_outlook (err e) = reads_no_time

-- The outlook after a run with this attempt and status. The time is the one that the program reads
-- back from the stamp of the eligible minute.
abbrev pub outlook : Stamps → Task → ℤ → String → ℕ → Outlook
outlook stamps task attempt status at =
    if str_eq status "success" || not (declared task.retry_policy)
    then no_retry
    else if leb_ℤ (pos (from_spec task.retry_policy).max_attempts) attempt
    then gives_up
    else stamp_outlook (stamps.parse_utc (stamps.fmt_dt (eligible task attempt at)))

and_true : (b : Bool) → b && true ≡ b
and_true true = refl
and_true false = refl

module _ (stamps : Stamps) where
  no_state : (policy : RetryPolicy) (now : ℕ) → retry_view stamps none policy now ≡ none
  unfolding retry_view
  no_state policy now = refl

  exhaust-Shows :
      (task : Task) (scheduled_at run_id : String) (attempt : ℤ) (now : ℕ)
      → ltb_ℤ attempt (pos 1) ≡ false
      → leb_ℤ (pos (from_spec task.retry_policy).max_attempts) attempt ≡ true
      → let after = (exhaust stamps task scheduled_at attempt run_id).1 in
        Shows gives_up attempt now
          (retry_view stamps after.retry_state (from_spec after.retry_policy) now)
  unfolding exhaust retry_view
  exhaust-Shows task scheduled_at run_id attempt now valid over =
      let none_left : ltb_ℤ attempt (pos (from_spec task.retry_policy).max_attempts) ≡ false =
        ground arith in
      rw (valid, none_left) (_, refl, refl, refl, refl)

  await-Shows :
      (task : Task) (scheduled_at run_id status : String) (attempt : ℤ) (at now : ℕ)
      (read : Result (Option ℕ))
      → stamps.parse_utc (stamps.fmt_dt (eligible task attempt at)) ≡ read
      → ltb_ℤ attempt (pos 1) ≡ false
      → leb_ℤ (pos (from_spec task.retry_policy).max_attempts) attempt ≡ false
      → let after = (await_retry stamps task scheduled_at attempt run_id status at).1 in
        Shows
          (stamp_outlook read)
          attempt
          now
          (retry_view stamps after.retry_state (from_spec after.retry_policy) now)
  unfolding await_retry retry_view
  await-Shows task scheduled_at run_id status attempt at now (ok (some t)) is valid under =
      let left : ltb_ℤ attempt (pos (from_spec task.retry_policy).max_attempts) ≡ true =
        ground arith in
      rw (valid, is, left, and_true (leb t now), and_true (ltb now t))
        (_, refl, refl, refl, refl, refl)
  await-Shows task scheduled_at run_id status attempt at now (ok none) is valid under =
      let left : ltb_ℤ attempt (pos (from_spec task.retry_policy).max_attempts) ≡ true =
        ground arith in
      rw (valid, is, left) (_, refl, refl, refl, refl)
  await-Shows task scheduled_at run_id status attempt at now (err e) is valid under =
      rw (valid, is) (_, refl, refl, refl, refl, refl)

  -- After `apply_retry_transition`, `retry_view` shows the task's outlook at every later plan: no
  -- retry after a success or where no policy is declared, exhausted and never ready once the
  -- attempt has reached the policy's maximum, and else waiting until a time and ready, as the next
  -- attempt, from then on. That time is the one that the program reads back from the stamp of the
  -- delay's minute; where it reads none, the task is exhausted, and where reading fails the view has
  -- the error and the task neither waits nor is ready. The attempt is positive.
  pub apply_retry_transition-Shows :
      (task : Task) (scheduled_at run_id status : String) (attempt : ℤ) (at now : ℕ)
      → ltb_ℤ attempt (pos 1) ≡ false
      → let after = (apply_retry_transition stamps task scheduled_at attempt run_id status at).1 in
        Shows
          (outlook stamps task attempt status at)
          attempt
          now
          (retry_view stamps after.retry_state (from_spec after.retry_policy) now)
  unfolding apply_retry_transition
  apply_retry_transition-Shows task scheduled_at run_id status attempt at now valid =
      elim (Bool-cases (str_eq status "success")) [
        | inl success ↦ rw success (no_state _ now)
        | inr failure ↦ elim (Bool-cases (declared task.retry_policy)) [
          | inr undeclared ↦ rw (failure, undeclared) (no_state _ now)
          | inl policy ↦
              elim (Bool-cases (leb_ℤ (pos (from_spec task.retry_policy).max_attempts) attempt)) [
                | inl over ↦
                    rw (failure, policy, over)
                      (exhaust-Shows task scheduled_at run_id attempt now valid over)
                | inr under ↦
                    rw (failure, policy, under)
                      (await-Shows task scheduled_at run_id status attempt at now _ refl valid
                        under)
              ]
        ]
      ]
