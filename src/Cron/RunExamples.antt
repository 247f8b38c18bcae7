-- ===== src/Cron/RunExamples.antt =====
-- Runs and locks of the cron module on concrete inputs: the theorems applied.
use danso.Prelude.{
  ℕ, zero, suc, ◌-◌, ◌*◌, ◌/◌, ◌≤◌, ◌^◌, ◌≡◌, refl, true, false, none, some, [], ◌∷◌, String, arith,
  min,
}
use Prim.Native.String.{◌∷◌ as str_cons, [] as str_nil}
use danso.Prelude.Result.{ok}
use danso.Prelude.Int.{pos, negsuc}
use danso.Cron.Time.{minute_ns}
use danso.Cron.Retry.{RetryPolicySpec, from_spec, retry_delay, retry_view, Stamps}
use danso.Cron.Backoff.{from_spec-InRange, retry_delay-eq}
use danso.Cron.Commit.{
  RunHistoryItem, Task, append_run_history, apply_run_limit, apply_retry_transition, history_cap,
}
use danso.Cron.History.{Appends, append_run_history-Appends}
use danso.Cron.Runs.{
  CountsRun, apply_run_limit-CountsRun, Shows, outlook, apply_retry_transition-Shows,
}
use danso.Cron.Locks.{
  missing, Host, Claim, reclaimed, created, acquire_for_run_guarded, lock_status, read_lock,
}
use danso.Cron.Quarantine.{acquire, release, quarantine, perform, perform_all}
use danso.Cron.Exclusion.{acquire-excludes, quarantine-excludes}

-- A stamp has a mark for each minute.
tally : ℕ → String
tally zero = str_nil
tally (suc n) = str_cons "I" (tally n)

size : String → ℕ
size str_nil = 0
size (str_cons c s) = suc (size s)

abbrev stamps : Stamps
stamps = record {
  fmt_dt = λ t. tally (t / minute_ns);
  parse_utc = λ s. ok (some (size s * minute_ns));
}

abbrev patient : RetryPolicySpec
patient = record {
  max_attempts = some (pos 3);
  backoff_sec = some (pos 120);
  multiplier = none;
  max_backoff_sec = some (negsuc 4);
}

abbrev ran : RunHistoryItem
ran = record {
  run_id = "r1";
  scheduled_at = "s1";
  started_at = "s1";
  finished_at = none;
  status = "failure";
  exit_code = some (pos 1);
  attempt = pos 1;
  notify_state = "none";
}

abbrev task : Task
task = record {
  enabled = true;
  max_run_history = pos 1;
  max_runs = some (pos 2);
  run_count = pos 1;
  run_history = ran ∷ [];
  retry_policy = some patient;
  retry_state = none;
}

retry_delay-eq_example :
    retry_delay (from_spec (some patient)) (pos 40)
    ≡ min
        ((from_spec (some patient)).backoff_sec * (from_spec (some patient)).multiplier ^ (40 - 1))
        (from_spec (some patient)).max_backoff_sec
retry_delay-eq_example =
    retry_delay-eq (from_spec (some patient)) 40 (from_spec-InRange (some patient))

append_run_history-Appends_example :
    Appends task ran (append_run_history task ran) × (history_cap task.max_run_history ≤ 500)
append_run_history-Appends_example = append_run_history-Appends task ran

apply_run_limit-CountsRun_example : CountsRun task (apply_run_limit task)
apply_run_limit-CountsRun_example = apply_run_limit-CountsRun task

apply_retry_transition-Shows_example :
    let after =
      (apply_retry_transition stamps task "s1" (pos 1) "r1" "failure" (5 * minute_ns)).1 in
    Shows
      (outlook stamps task (pos 1) "failure" (5 * minute_ns))
      (pos 1)
      (9 * minute_ns)
      (retry_view stamps after.retry_state (from_spec after.retry_policy) (9 * minute_ns))
apply_retry_transition-Shows_example =
    apply_retry_transition-Shows stamps task "s1" "r1" "failure" (pos 1) (5 * minute_ns)
      (9 * minute_ns) refl

abbrev host : Host
host = record {
  boot_id = "b1";
  hostname = "h";
  pid = 7;
  pid_alive = λ pid. false;
  is_zero = λ n. false;
}

-- The machine after a restart.
abbrev restarted : Host
restarted = record host { boot_id = "b2" }

abbrev first : Claim
first = record { task_id = "t"; run_id = "r1"; scheduled_at = ""; at = 60 * minute_ns }

abbrev second : Claim
second = record { task_id = "t"; run_id = "r2"; scheduled_at = ""; at = 90 * minute_ns }

acquire_first :
    (acquire_for_run_guarded stamps host first (pos 0) missing none reclaimed created).0.0 ≡ true
unfolding acquire_for_run_guarded lock_status read_lock
acquire_first = refl

acquire-excludes_example :
    let later =
      perform_all stamps
        (acquire host second (pos 0) none reclaimed created ∷ release "r2" (some "EIO") none ∷ [])
        (acquire_for_run_guarded stamps host first (pos 0) missing none reclaimed created).1 in
    ((acquire_for_run_guarded stamps host second (pos 0) later none reclaimed created).0.0 ≡ false)
    × ((acquire_for_run_guarded stamps host second (pos 0) later none reclaimed created).1 ≡ later)
acquire-excludes_example =
    acquire-excludes stamps host first (pos 0) missing none reclaimed created
      (acquire host second (pos 0) none reclaimed created ∷ release "r2" (some "EIO") none ∷ [])
      host second (pos 0) reclaimed created acquire_first ((refl, (refl, omega arith)), (refl, tt))
      (refl, omega arith)

quarantine-excludes_example :
    let later = perform_all stamps (acquire restarted second (pos 1) none reclaimed created ∷ []) (
      perform stamps
        (quarantine "r1" (61 * minute_ns) none none)
        (acquire_for_run_guarded stamps host first (pos 0) missing none reclaimed created).1) in
    ((acquire_for_run_guarded stamps restarted second (pos 1) later none reclaimed created).0.0
      ≡ false)
    × ((acquire_for_run_guarded stamps restarted second (pos 1) later none reclaimed created).1
        ≡ later)
quarantine-excludes_example =
    quarantine-excludes stamps host first (pos 0) missing none reclaimed created (61 * minute_ns)
      (acquire restarted second (pos 1) none reclaimed created ∷ []) restarted second (pos 1)
      reclaimed created acquire_first ((refl, tt), tt)
