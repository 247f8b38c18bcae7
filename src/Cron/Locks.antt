-- ===== src/Cron/Locks.antt =====
-- src/cron/locks.rs and `lock_status` of src/cron/due.rs: the run lock of one task. Every function
-- that changes the lock file holds the task's guard, so the functions run one after another. What the
-- file system answers is an argument; where another process got in between, so is the file it left.
use danso.Prelude.{
  ℕ, ◌-◌, ◌/◌, ltb, leb, ◌==◌, not, ◌&&◌, ◌||◌, Bool, true, false, Option, none, some, String,
  str_eq, if◌then◌else◌,
}
use Prim.Native.String.{◌++◌ as str_append}
use danso.Prelude.Result.{Result, ok, err, message}
use danso.Prelude.Int.{ℤ, pos, negsuc}
use danso.Json.{
  insert, Value, null, bool, num, other_number, str, arr, obj, no_items, item, end, field, get,
  index, as_str,
}
use danso.Cron.Time.{second_ns}
use danso.Cron.Retry.{Stamps}

-- The lock file: there is none, its text is no JSON (with serde_json's error), or it has a document.
pub data LockFile : Type 0 where
  missing : LockFile
  malformed : String → LockFile
  written : Value → LockFile

abbrev read_document : Value → Value
read_document (obj fs) = obj fs
read_document v = obj (field "raw" v end)

-- The file system's answer to a read of the file: the kind of the error, where the read fails for
-- another reason than that there is no file.
abbrev pub Reading : Type 0
Reading = Option String

abbrev pub errored : String → Value
errored error = obj (field "error" (str error) end)

unfoldable pub read_lock : LockFile → Reading → Value
read_lock file (some kind) = errored (str_append "cannot read lock: " kind)
read_lock missing none = null
read_lock (malformed error) none = errored (str_append "invalid lock JSON: " error)
read_lock (written v) none = read_document v

-- This process and its machine.
pub record Host : Type 0 where
  pub boot_id : String
  pub hostname : String
  pub pid : ℕ
  pub pid_alive : ℕ → Bool
  -- serde_json: whether a number that is no natural number is zero
  pub is_zero : ℕ → Bool

pub data LockState : Type 0 where
  free held stale persist_failed : LockState

pub record LockStatus : Type 0 where
  pub lock_state : LockState
  pub holder : Option Value
  pub lock_age : Option ℕ
  pub holder_alive : Option Bool

abbrev pub free_status : LockStatus
free_status = record { lock_state = free; holder = none; lock_age = none; holder_alive = none }

abbrev or_empty : Option String → String
or_empty none = ""
or_empty (some s) = s

abbrev opt_as_str : Option Value → Option String
opt_as_str none = none
opt_as_str (some v) = as_str v

-- `lock.get(name).and_then(Value::as_str)`
abbrev pub string_field : Value → String → Option String
string_field lock name = opt_as_str (get lock name)

abbrev pub is_text : Option String → String → Bool
is_text none text = false
is_text (some s) text = str_eq s text

abbrev pub is_blank : String → Bool
is_blank s = str_eq s ""

abbrev pub older_than : ℤ → Option ℕ → Bool
older_than timeout none = false
older_than (negsuc n) (some age) = false
older_than (pos timeout) (some age) = ltb 0 timeout && ltb timeout age

abbrev i32_max : ℕ
i32_max = 2147483647

-- The record that an acquirer writes.
pub record Claim : Type 0 where
  pub task_id : String
  pub run_id : String
  pub scheduled_at : String
  pub at : ℕ

-- Where the lock is gone, or another acquirer's is there, with the file that is read again.
pub data Reclaim : Type 0 where
  reclaimed : Reclaim
  lost : LockFile → Reading → Reclaim
  failed : String → Reclaim

pub data Creation : Type 0 where
  created : Creation
  exists : LockFile → Reading → Creation
  -- the error, and what a write cut short has left
  broken : String → LockFile → Creation

pub data Detail : Type 0 where
  refused : LockState → Option Value → Detail
  io_error : String → Detail
  acquired : Value → Detail

pub data Released : Type 0 where
  was_free : Released
  release_mismatch : Value → Released
  released : Released

pub data Quarantined : Type 0 where
  quarantine_missing : Quarantined
  quarantine_mismatch : Value → Quarantined
  quarantine_error : String → Quarantined
  quarantined : Value → Quarantined

module _ (stamps : Stamps) (host : Host) where
  unfoldable pub is_truthy : Option Value → Bool
  is_truthy none = false
  is_truthy (some null) = false
  is_truthy (some (bool flag)) = flag
  is_truthy (some (num n)) = not (n == 0)
  is_truthy (some (other_number n)) = not (host.is_zero n)
  is_truthy (some (str text)) = not (is_blank text)
  is_truthy (some (arr no_items)) = false
  is_truthy (some (arr (item v vs))) = true
  is_truthy (some (obj end)) = false
  is_truthy (some (obj (field k v fs))) = true

  abbrev age_since : ℕ → Result (Option ℕ) → Option ℕ
  age_since at (ok (some since)) = some ((at - since) / second_ns)
  age_since at _ = none

  abbrev pub lock_age : ℕ → Option String → Option ℕ
  lock_age at none = none
  lock_age at (some raw) = age_since at (stamps.parse_utc raw)

  abbrev pub boot_of : Value → String
  boot_of lock = or_empty (string_field lock "bootId")

  abbrev pub is_quarantined : Value → Bool
  is_quarantined lock = is_text (string_field lock "state") "persist-failed"

  abbrev pub other_boot : Value → Bool
  other_boot lock =
      not (is_blank (boot_of lock))
      && not (is_blank host.boot_id)
      && not (str_eq (boot_of lock) host.boot_id)

  unfoldable pub is_stale : Value → ℤ → ℕ → Bool
  is_stale lock timeout at =
      is_truthy (get lock "error")
      || (not (is_quarantined lock)
          && (other_boot lock || older_than timeout (lock_age at (string_field lock "acquiredAt"))))

  abbrev holder_process_gone : Option Value → Bool
  holder_process_gone (some (num pid)) = ltb 0 pid && leb pid i32_max && not (host.pid_alive pid)
  holder_process_gone _ = false

  abbrev holder_liveness : Value → Option Bool
  holder_liveness lock =
      if not (is_blank (boot_of lock))
        && not (is_blank host.boot_id)
        && str_eq (boot_of lock) host.boot_id
      then some (not (holder_process_gone (get lock "pid")))
      else none

  unfoldable pub state_of : Value → ℤ → ℕ → LockState
  state_of lock timeout at =
      if is_stale lock timeout at
      then stale
      else if is_quarantined lock
      then persist_failed
      else held

  abbrev pub status_of : Value → ℤ → ℕ → LockStatus
  status_of null timeout at = free_status
  status_of lock timeout at = record {
    lock_state = state_of lock timeout at;
    holder = some lock;
    lock_age = lock_age at (string_field lock "acquiredAt");
    holder_alive = holder_liveness lock;
  }

  unfoldable pub lock_status : LockFile → Reading → ℤ → ℕ → LockStatus
  lock_status file reading timeout at = status_of (read_lock file reading) timeout at

  unfoldable pub lock_payload : Claim → Value
  lock_payload c = obj (
      field "taskId" (str c.task_id) (
        field "runId" (str c.run_id) (
          field "pid" (num host.pid) (
            field "host" (str host.hostname) (
              field "bootId" (str host.boot_id) (
                field "acquiredAt" (str (stamps.fmt_dt c.at)) (
                  field "scheduledAt"
                    (str (if is_blank c.scheduled_at then stamps.fmt_dt c.at else c.scheduled_at))
                    end)))))))

  abbrev refuse : LockStatus → LockFile → (Bool × Detail) × LockFile
  refuse status file = ((false, refused status.lock_state status.holder), file)

  abbrev pub create : Claim → ℤ → Creation → (Bool × Detail) × LockFile
  create c timeout created = ((true, acquired (lock_payload c)), written (lock_payload c))
  create c timeout (exists other again) = refuse (lock_status other again timeout c.at) other
  create c timeout (broken error left) = ((false, io_error error), left)

  abbrev pub reclaim : Claim → ℤ → LockFile → Reclaim → Creation → (Bool × Detail) × LockFile
  reclaim c timeout file reclaimed creation = create c timeout creation
  reclaim c timeout file (lost other again) creation =
      refuse (lock_status other again timeout c.at) other
  reclaim c timeout file (failed error) creation = ((false, io_error error), file)

  abbrev pub acquire_as :
      LockStatus
      → Claim
      → ℤ
      → LockFile
      → Reclaim
      → Creation
      → LockState
      → (Bool × Detail) × LockFile
  acquire_as status c timeout file moved creation held = refuse status file
  acquire_as status c timeout file moved creation persist_failed = refuse status file
  acquire_as status c timeout file moved creation stale = reclaim c timeout file moved creation
  acquire_as status c timeout file moved creation free = create c timeout creation

  unfoldable pub acquire_for_run_guarded :
      Claim → ℤ → LockFile → Reading → Reclaim → Creation → (Bool × Detail) × LockFile
  acquire_for_run_guarded c timeout file reading moved creation =
      let status = lock_status file reading timeout c.at in
      acquire_as status c timeout file moved creation status.lock_state

abbrev remove : LockFile → Option String → Result Released × LockFile
remove file none = (ok released, missing)
remove file (some error) = (err (message error), file)

abbrev pub release_lock : Value → String → LockFile → Option String → Result Released × LockFile
release_lock null run_id file removal = (ok was_free, file)
release_lock lock run_id file removal =
    if is_text (as_str (index lock "runId")) run_id
    then remove file removal
    else (ok (release_mismatch lock), file)

-- `removal` is the error of the removal, where it fails.
unfoldable pub release_for_run :
    String → LockFile → Reading → Option String → Result Released × LockFile
release_for_run run_id file reading removal =
    release_lock (read_lock file reading) run_id file removal

module _ (stamps : Stamps) where
  abbrev pub mark : Value → ℕ → Value
  mark lock at =
      insert (insert lock "state" (str "persist-failed")) "persistFailedAt" (str (stamps.fmt_dt at))

  abbrev replace : LockFile → Value → Option String → Quarantined × LockFile
  replace file lock none = (quarantined lock, written lock)
  replace file lock (some error) = (quarantine_error error, file)

  abbrev pub quarantine_lock :
      Value → String → ℕ → LockFile → Option String → Quarantined × LockFile
  quarantine_lock null run_id at file replacement = (quarantine_missing, file)
  quarantine_lock lock run_id at file replacement =
      if is_text (as_str (index lock "runId")) run_id
      then replace file (mark lock at) replacement
      else (quarantine_mismatch lock, file)

  -- `replacement` is the error of the replacement, where it fails.
  unfoldable pub quarantine_persist_failure :
      String → ℕ → LockFile → Reading → Option String → Quarantined × LockFile
  quarantine_persist_failure run_id at file reading replacement =
      quarantine_lock (read_lock file reading) run_id at file replacement
