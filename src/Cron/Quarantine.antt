-- ===== src/Cron/Quarantine.antt =====
-- src/cron/locks.rs: the operations on a run lock over time, and the locks that a run owns.
use danso.Prelude.{
  ℕ, ◌≡◌, refl, Bool, true, false, not, ◌&&◌, ◌||◌, Option, none, some, List, [], ◌∷◌, String,
  str_eq, inl, inr, arith, ◌⊎◌, if◌then◌else◌,
}
use danso.Prelude.Int.{ℤ, pos, negsuc, ◌≤ℤ◌}
use danso.Json.{str, obj, Fields, get, get_field, as_str}
use danso.Json.Laws.{str_eq_same}
use danso.Cron.Retry.{Stamps}
use danso.Cron.Locks.{
  LockFile, Reading, written, read_lock, Host, held, stale, persist_failed, Claim, Reclaim,
  Creation, is_truthy, is_stale, is_quarantined, state_of, lock_status, acquire_for_run_guarded,
  release_for_run, quarantine_persist_failure, string_field, older_than, lock_age,
}

older_than-unset :
    (timeout : ℤ) (age : Option ℕ) → timeout ≤ℤ pos 0 → older_than timeout age ≡ false
older_than-unset timeout none unset = refl
older_than-unset (pos timeout) (some age) unset = ground arith
older_than-unset (negsuc n) (some age) unset = refl

not_stale :
    (marked a b : Bool)
    → let state =
        if not marked && (not a && not b && false || false)
        then stale
        else if marked
        then persist_failed
        else held in
      (state ≡ held) ⊎ (state ≡ persist_failed)
not_stale true a b = inr refl
not_stale false true b = inl refl
not_stale false false true = inl refl
not_stale false false false = inl refl

-- What happens to a task's lock file over time.
pub data Operation : Type 0 where
  acquire : Host → Claim → ℤ → Reading → Reclaim → Creation → Operation
  release : String → Reading → Option String → Operation
  quarantine : String → ℕ → Reading → Option String → Operation

-- A lock that only the release of its own run removes.
pub record IsLocked (run_id : String) (fs : Fields) : Type 0 where
  pub owner : get_field fs "runId" ≡ some (str run_id)
  pub no_error : get_field fs "error" ≡ none

-- A quarantined lock, and a lock taken on a boot.
abbrev pub Marked : Fields → Type 0
Marked fs = get_field fs "state" ≡ some (str "persist-failed")

abbrev pub TakenOn : String → Fields → Type 0
TakenOn boot fs = get_field fs "bootId" ≡ some (str boot)

module _ (stamps : Stamps) where
  unfoldable pub perform : Operation → LockFile → LockFile
  perform (acquire host c timeout reading moved creation) file =
      (acquire_for_run_guarded stamps host c timeout file reading moved creation).1
  perform (release run_id reading removal) file = (release_for_run run_id file reading removal).1
  perform (quarantine run_id at reading replacement) file =
      (quarantine_persist_failure stamps run_id at file reading replacement).1

  unfoldable pub perform_all : List Operation → LockFile → LockFile
  perform_all [] file = file
  perform_all (op ∷ ops) file = perform_all ops (perform op file)

  pub Marked-state_of :
      (host : Host) (fs : Fields) (timeout : ℤ) (at : ℕ) (run_id : String)
      → IsLocked run_id fs
      → Marked fs
      → state_of stamps host (obj fs) timeout at ≡ persist_failed
  unfolding state_of is_stale is_truthy get get_field as_str
  Marked-state_of host fs timeout at run_id locked marked = rw (locked.no_error, marked) refl

  -- The lock of a boot is held on that boot while no timeout is set.
  pub TakenOn-state_of :
      (host : Host) (fs : Fields) (timeout : ℤ) (at : ℕ) (run_id : String)
      → IsLocked run_id fs
      → TakenOn host.boot_id fs
      → timeout ≤ℤ pos 0
      → ((state_of stamps host (obj fs) timeout at ≡ held)
          ⊎ (state_of stamps host (obj fs) timeout at ≡ persist_failed))
  unfolding state_of is_stale is_truthy get get_field as_str
  TakenOn-state_of host fs timeout at run_id locked taken unset =
      let same : str_eq host.boot_id host.boot_id ≡ true = str_eq_same host.boot_id in
      let fresh =
        older_than-unset timeout (lock_age stamps host at (string_field (obj fs) "acquiredAt"))
          unset in
      rw (locked.no_error, taken, same, fresh) (not_stale (is_quarantined stamps host (obj fs)) _ _)

  pub refused_held :
      (host : Host) (c : Claim) (timeout : ℤ) (fs : Fields) (moved : Reclaim) (creation : Creation)
      → ((state_of stamps host (obj fs) timeout c.at ≡ held)
          ⊎ (state_of stamps host (obj fs) timeout c.at ≡ persist_failed))
      → ((acquire_for_run_guarded stamps host c timeout (written (obj fs)) none moved creation).0.0
          ≡ false)
        × ((acquire_for_run_guarded stamps host c timeout (written (obj fs)) none moved creation).1
            ≡ written (obj fs))
  unfolding acquire_for_run_guarded lock_status read_lock
  refused_held host c timeout fs moved creation (inl h) = rw h (refl, refl)
  refused_held host c timeout fs moved creation (inr h) = rw h (refl, refl)
