-- ===== src/Cron/Commit.antt =====
-- src/cron/commit.rs: what a finished run changes on its task. The task has the fields that these
-- functions read or write, and the JSON that they return is a record. The store's validation keeps a
-- run count and a limit of runs far from the bounds of i64, so their sums are exact.
use danso.Prelude.{
  ℕ, zero, suc, ◌+◌, ◌-◌, ◌*◌, ltb, leb, min, max, Bool, true, false, not, ◌||◌, Option, none, some,
  List, [], ◌∷◌, ◌++◌, String, str_eq, length, take, drop, if◌then◌else◌, is_some, i64_max,
}
use danso.Prelude.Int.{ℤ, pos, negsuc, pos_part, ◌+ℤ◌, ◌-ℤ◌, leb_ℤ}
use danso.Cron.Time.{second_ns, truncate_minute}
use danso.Cron.Retry.{RetryPolicySpec, RetryState, RetryPolicy, from_spec, retry_delay, Stamps}

pub record RunHistoryItem : Type 0 where
  pub run_id : String
  pub scheduled_at : String
  pub started_at : String
  pub finished_at : Option String
  pub status : String
  pub exit_code : Option ℤ
  pub attempt : ℤ
  pub notify_state : String

pub record Task : Type 0 where
  pub enabled : Bool
  pub max_run_history : ℤ
  pub max_runs : Option ℤ
  pub run_count : ℤ
  pub run_history : List RunHistoryItem
  pub retry_policy : Option RetryPolicySpec
  pub retry_state : Option RetryState

-- `attempts.max(attempt)`, where `attempts` starts at 0
abbrev pub raise : ℕ → ℤ → ℕ
raise attempts attempt = max attempts (pos_part attempt)

abbrev pub state_attempts : String → Option RetryState → ℕ
state_attempts scheduled_at none = 0
state_attempts scheduled_at (some state) =
    if str_eq state.scheduled_at scheduled_at then raise 0 state.attempt else 0

unfoldable pub history_attempts : String → ℕ → List RunHistoryItem → ℕ
history_attempts scheduled_at attempts [] = attempts
history_attempts scheduled_at attempts (item ∷ items) =
    history_attempts scheduled_at
      (if str_eq item.scheduled_at scheduled_at then raise attempts item.attempt else attempts)
      items

-- `attempts + 1`, which wraps at the end of i64
abbrev pub next_attempt : ℕ → ℤ
next_attempt attempts = if ltb attempts i64_max then pos (attempts + 1) else negsuc i64_max

unfoldable pub history_attempt : Task → String → ℤ
history_attempt task scheduled_at =
    next_attempt (
      history_attempts scheduled_at (state_attempts scheduled_at task.retry_state) task.run_history)

unfoldable pub history_cap : ℤ → ℕ
history_cap (pos zero) = 20
history_cap (pos (suc n)) = min (suc n) 500
history_cap (negsuc n) = 20

-- The evicted entries, and the task with the others.
abbrev pub split_history : Task → List RunHistoryItem → ℕ → List RunHistoryItem × Task
split_history task entries most =
    if leb (length entries) most then ([], record task { run_history = entries }) else (
      take (length entries - most) entries,
      record task { run_history = drop (length entries - most) entries },
    )

unfoldable pub append_run_history : Task → RunHistoryItem → List RunHistoryItem × Task
append_run_history task entry =
    split_history task (task.run_history ++ (entry ∷ [])) (history_cap task.max_run_history)

pub record RunLimit : Type 0 where
  pub max_runs : Option ℤ
  pub run_count : ℤ
  pub remaining_runs : Option ℤ
  pub reached : Bool

abbrev remaining : Option ℤ → ℤ → Option ℤ
remaining none count = none
remaining (some maximum) count = some (pos (pos_part (maximum -ℤ count)))

abbrev pub is_reached : Option ℤ → ℤ → Bool
is_reached none count = false
is_reached (some maximum) count = leb_ℤ maximum count

unfoldable pub run_limit_metadata : Task → RunLimit
run_limit_metadata task = record {
  max_runs = task.max_runs;
  run_count = task.run_count;
  remaining_runs = remaining task.max_runs task.run_count;
  reached = is_reached task.max_runs task.run_count;
}

abbrev pub count_run : Task → Task
count_run task = record task { run_count = task.run_count +ℤ pos 1 }

abbrev pub stop_at : Bool → Task → Task
stop_at reached task = if reached then record task { enabled = false; retry_state = none } else task

unfoldable pub apply_run_limit : Task → RunLimit × Task
apply_run_limit task =
    let metadata = run_limit_metadata (count_run task) in
    if is_some task.max_runs
    then (metadata, stop_at metadata.reached (count_run task))
    else (run_limit_metadata task, task)

-- The JSON that `apply_retry_transition` returns.
pub record Transition : Type 0 where
  pub cleared : Bool
  pub attempt : ℤ
  pub retry_eligible_at : Option String
  pub exhausted : Bool
  pub no_policy : Bool
  pub policy : Option RetryPolicy

abbrev pub transition : Bool → ℤ → Bool → Transition
transition cleared attempt no_policy = record {
  cleared = cleared;
  attempt = attempt;
  retry_eligible_at = none;
  exhausted = false;
  no_policy = no_policy;
  policy = none;
}

unfoldable pub declared : Option RetryPolicySpec → Bool
declared none = false
declared (some policy) =
    is_some policy.max_attempts
    || is_some policy.backoff_sec
    || is_some policy.multiplier
    || is_some policy.max_backoff_sec

abbrev pub clear : Task → Task
clear task = record task { retry_state = none }

-- when the next attempt may run
abbrev pub eligible : Task → ℤ → ℕ → ℕ
eligible task attempt at =
    truncate_minute (at + retry_delay (from_spec task.retry_policy) attempt * second_ns)

module _ (stamps : Stamps) where
  unfoldable pub exhaust : Task → String → ℤ → String → Transition × Task
  exhaust task scheduled_at attempt run_id = (
    record {
      cleared = false;
      attempt = attempt;
      retry_eligible_at = none;
      exhausted = true;
      no_policy = false;
      policy = some (from_spec task.retry_policy);
    },
    record task {
      retry_state = some (record {
        scheduled_at = scheduled_at;
        attempt = attempt;
        retry_eligible_at = none;
        last_status = "exhausted";
        last_run_id = some run_id;
      });
    },
  )

  unfoldable pub await_retry : Task → String → ℤ → String → String → ℕ → Transition × Task
  await_retry task scheduled_at attempt run_id status at = (
    record {
      cleared = false;
      attempt = attempt;
      retry_eligible_at = some (stamps.fmt_dt (eligible task attempt at));
      exhausted = false;
      no_policy = false;
      policy = some (from_spec task.retry_policy);
    },
    record task {
      retry_state = some (record {
        scheduled_at = scheduled_at;
        attempt = attempt;
        retry_eligible_at = some (stamps.fmt_dt (eligible task attempt at));
        last_status = status;
        last_run_id = some run_id;
      });
    },
  )

  unfoldable pub apply_retry_transition :
      Task → String → ℤ → String → String → ℕ → Transition × Task
  apply_retry_transition task scheduled_at attempt run_id status at =
      if str_eq status "success"
      then (transition (is_some task.retry_state) attempt false, clear task)
      else if not (declared task.retry_policy)
      then (transition (is_some task.retry_state) attempt true, clear task)
      else if leb_ℤ (pos (from_spec task.retry_policy).max_attempts) attempt
      then exhaust task scheduled_at attempt run_id
      else await_retry task scheduled_at attempt run_id status at
