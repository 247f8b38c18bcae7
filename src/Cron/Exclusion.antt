-- ===== src/Cron/Exclusion.antt =====
-- src/cron/locks.rs: the run lock over sequences of operations.
use danso.Prelude.{
  ◌≡◌, refl, true, false, Option, none, some, List, [], ◌∷◌, String, str_eq, ℕ, All, Bool-cases,
  inl, inr, ◌∙◌, ◌⊎◌, Option-cases, subst, sym, ap,
}
use danso.Prelude.Int.{ℤ, pos, ◌≤ℤ◌}
use danso.Json.Laws.{str_eq_same, get-set_same, get-set_other}
use danso.Json.{set_field, str, obj, Fields, get, get_field, index, as_str}
use danso.Cron.Retry.{Stamps}
use danso.Cron.Locks.{
  LockFile, Reading, written, read_lock, Host, LockState, free, held, stale, persist_failed, Claim,
  Reclaim, reclaimed, lost, failed, Creation, created, exists, broken, state_of, lock_status,
  lock_payload, acquire_for_run_guarded, acquire_as, create, release_for_run,
  quarantine_persist_failure, is_text, release_lock, quarantine_lock, LockStatus, reclaim,
}
use danso.Cron.Quarantine.{
  Operation, acquire, release, quarantine, IsLocked, Marked, TakenOn, perform, perform_all,
  Marked-state_of, TakenOn-state_of, refused_held,
}

module _ (stamps : Stamps) where
  unfoldable pub marked : Fields → ℕ → Fields
  marked fs at =
      set_field (set_field fs "state" (str "persist-failed")) "persistFailedAt"
        (str (stamps.fmt_dt at))

  get-marked :
      (fs : Fields) (at : ℕ) (key : String)
      → str_eq "state" key ≡ false
      → str_eq "persistFailedAt" key ≡ false
      → get_field (marked fs at) key ≡ get_field fs key
  unfolding marked
  get-marked fs at key a b =
      get-set_other (set_field fs "state" (str "persist-failed")) "persistFailedAt" key _ b
      ∙ get-set_other fs "state" key _ a

  marked-IsLocked :
      (run_id : String) (fs : Fields) (at : ℕ) → IsLocked run_id fs → IsLocked run_id (marked fs at)
  marked-IsLocked run_id fs at locked = record {
    owner = get-marked fs at "runId" refl refl ∙ locked.owner;
    no_error = get-marked fs at "error" refl refl ∙ locked.no_error;
  }

  marked-Marked : (fs : Fields) (at : ℕ) → Marked (marked fs at)
  unfolding marked
  marked-Marked fs at =
      get-set_other (set_field fs "state" (str "persist-failed")) "persistFailedAt" "state" _ refl
      ∙ get-set_same fs "state" _

  -- The file has a lock of the run, with the property.
  abbrev pub Waits : String → (Fields → Type 0) → LockFile → Type 0
  Waits run_id P file = (fs : Fields) × (file ≡ written (obj fs)) × IsLocked run_id fs × P fs

  owner_is :
      (fs : Fields) (run_id other : String)
      → IsLocked run_id fs
      → is_text (as_str (index (obj fs) "runId")) other ≡ str_eq run_id other
  unfolding index get as_str
  owner_is fs run_id other locked = rw locked.owner refl

  quarantine_lock-eq :
      (run_id other : String) (fs : Fields) (at : ℕ) (file : LockFile) (replacement : Option String)
      → IsLocked run_id fs
      → ((quarantine_lock stamps (obj fs) other at file replacement).1 ≡ file)
        ⊎ ((quarantine_lock stamps (obj fs) other at file replacement).1
            ≡ written (obj (marked fs at)))
  unfolding marked
  quarantine_lock-eq run_id other fs at file replacement locked =
      elim (Bool-cases (str_eq run_id other)) [
        | inr apart ↦ inl (rw (owner_is fs run_id other locked, apart) refl)
        | inl same ↦ elim (Option-cases replacement) [
          | inl replaced ↦ inr (rw (owner_is fs run_id other locked, same, replaced) refl)
          | inr (error, kept) ↦ inl (rw (owner_is fs run_id other locked, same, kept) refl)
        ]
      ]

  own_quarantine-eq :
      (run_id : String) (fs : Fields) (at : ℕ) (file : LockFile)
      → IsLocked run_id fs
      → (quarantine_lock stamps (obj fs) run_id at file none).1 ≡ written (obj (marked fs at))
  unfolding marked
  own_quarantine-eq run_id fs at file locked =
      rw (owner_is fs run_id run_id locked, str_eq_same run_id) refl

  release_lock-eq :
      (run_id other : String) (fs : Fields) (file : LockFile) (removal : Option String)
      → IsLocked run_id fs
      → str_eq run_id other ≡ false
      → (release_lock (obj fs) other file removal).1 ≡ file
  release_lock-eq run_id other fs file removal locked apart =
      rw (owner_is fs run_id other locked, apart) refl

  -- Operations that may happen: acquisitions on some terms that could read the file, releases of other
  -- runs and quarantines, whether they could read it or not.
  abbrev pub Allowed : String → (Host → ℤ → Type 0) → Operation → Type 0
  Allowed run_id Terms (acquire host c timeout reading moved creation) =
      (reading ≡ none) × Terms host timeout
  Allowed run_id Terms (release other reading removal) = str_eq run_id other ≡ false
  Allowed run_id Terms (quarantine other at reading replacement) = Unit

  -- A property of locks that a quarantine keeps, and under which no one acquires on the terms.
  pub record Protects (Terms : Host → ℤ → Type 0) (P : Fields → Type 0) : Type 0 where
    pub survives : (fs : Fields) (at : ℕ) → P fs → P (marked fs at)
    pub refuses :
        (host : Host) (fs : Fields) (timeout : ℤ) (at : ℕ) (run_id : String)
        → IsLocked run_id fs
        → P fs
        → Terms host timeout
        → ((state_of stamps host (obj fs) timeout at ≡ held)
            ⊎ (state_of stamps host (obj fs) timeout at ≡ persist_failed))

  perform-Waits :
      {Terms : Host → ℤ → Type 0} {P : Fields → Type 0} (run_id : String) (op : Operation)
      (fs : Fields)
      → Protects Terms P
      → Allowed run_id Terms op
      → IsLocked run_id fs
      → P fs
      → Waits run_id P (perform stamps op (written (obj fs)))
  unfolding perform release_for_run quarantine_persist_failure read_lock index get get_field as_str
  perform-Waits run_id (acquire host c timeout reading moved creation) fs protects allowed locked
        p =
      (
        fs,
        rw (allowed.0)
            (refused_held stamps host c timeout fs moved creation
              (protects.refuses host fs timeout c.at run_id locked p allowed.1)).1,
        locked,
        p,
      )
  perform-Waits run_id (release other (some kind) removal) fs protects apart locked p =
      (fs, refl, locked, p)
  perform-Waits run_id (release other none removal) fs protects apart locked p =
      (fs, release_lock-eq run_id other fs (written (obj fs)) removal locked apart, locked, p)
  perform-Waits run_id (quarantine other at (some kind) replacement) fs protects allowed locked p =
      (fs, refl, locked, p)
  perform-Waits run_id (quarantine other at none replacement) fs protects allowed locked p =
      elim (quarantine_lock-eq run_id other fs at (written (obj fs)) replacement locked) [
        | inl same ↦ (fs, same, locked, p)
        | inr changed ↦
            (marked fs at, changed, marked-IsLocked run_id fs at locked, protects.survives fs at p)
      ]

  perform_all-Waits :
      {Terms : Host → ℤ → Type 0} {P : Fields → Type 0} (run_id : String) (ops : List Operation)
      (file : LockFile)
      → Protects Terms P
      → All (Allowed run_id Terms) ops
      → Waits run_id P file
      → Waits run_id P (perform_all stamps ops file)
  unfolding perform_all
  perform_all-Waits run_id [] file protects allowed waits = waits
  perform_all-Waits {P} run_id (op ∷ ops) file protects allowed (fs, at_file, locked, p) =
      perform_all-Waits run_id ops (perform stamps op file) protects allowed.1 (
        subst (λ f. Waits run_id P (perform stamps op f)) (sym at_file)
          (perform-Waits run_id op fs protects allowed.0 locked p))

  create-taken :
      (host : Host) (c : Claim) (timeout : ℤ) (creation : Creation)
      → (create stamps host c timeout creation).0.0 ≡ true
      → (create stamps host c timeout creation).1 ≡ written (lock_payload stamps host c)
  create-taken host c timeout created h = refl
  create-taken host c timeout (exists other again) h = cc
  create-taken host c timeout (broken error left) h = cc

  reclaim-taken :
      (host : Host) (c : Claim) (timeout : ℤ) (file : LockFile) (moved : Reclaim)
      (creation : Creation)
      → (reclaim stamps host c timeout file moved creation).0.0 ≡ true
      → (reclaim stamps host c timeout file moved creation).1 ≡ written (lock_payload stamps host c)
  reclaim-taken host c timeout file reclaimed creation = create-taken host c timeout creation
  reclaim-taken host c timeout file (lost other again) creation = λ h. cc
  reclaim-taken host c timeout file (failed error) creation = λ h. cc

  acquire_as-taken :
      (host : Host) (status : LockStatus) (c : Claim) (timeout : ℤ) (file : LockFile)
      (moved : Reclaim) (creation : Creation) (state : LockState)
      → (acquire_as stamps host status c timeout file moved creation state).0.0 ≡ true
      → (acquire_as stamps host status c timeout file moved creation state).1
        ≡ written (lock_payload stamps host c)
  acquire_as-taken host status c timeout file moved creation free =
      create-taken host c timeout creation
  acquire_as-taken host status c timeout file moved creation held = λ h. cc
  acquire_as-taken host status c timeout file moved creation stale =
      reclaim-taken host c timeout file moved creation
  acquire_as-taken host status c timeout file moved creation persist_failed = λ h. cc

  -- A successful acquisition leaves the lock of its run, taken on its boot.
  acquired-Waits :
      (host : Host) (c : Claim) (timeout : ℤ) (file : LockFile) (reading : Reading)
      (moved : Reclaim) (creation : Creation)
      → (acquire_for_run_guarded stamps host c timeout file reading moved creation).0.0 ≡ true
      → Waits c.run_id
          (TakenOn host.boot_id)
          (acquire_for_run_guarded stamps host c timeout file reading moved creation).1
  unfolding acquire_for_run_guarded lock_payload get_field
  acquired-Waits host c timeout file reading moved creation h = (
    _,
    acquire_as-taken host (lock_status stamps host file reading timeout c.at) c timeout file moved
        creation _ h,
    record { owner = refl; no_error = refl },
    refl,
  )

  Marked-Protects : Protects (λ host timeout. Unit) Marked
  Marked-Protects = record {
    survives = λ fs at p. marked-Marked fs at;
    refuses = λ host fs timeout at run_id locked p terms.
        inr (Marked-state_of stamps host fs timeout at run_id locked p);
  }

  -- An acquirer on the same boot, of a task without a lock timeout.
  abbrev pub SameBoot : String → Host → ℤ → Type 0
  SameBoot boot host timeout = (boot ≡ host.boot_id) × (timeout ≤ℤ pos 0)

  TakenOn-Protects : (boot : String) → Protects (SameBoot boot) (TakenOn boot)
  TakenOn-Protects boot = record {
    survives = λ fs at p. get-marked fs at "bootId" refl refl ∙ p;
    refuses = λ host fs timeout at run_id locked p terms.
        TakenOn-state_of stamps host fs timeout at run_id locked
          (p ∙ ap (λ b. some (str b)) terms.0) terms.1;
  }

  Waits-refuses :
      {Terms : Host → ℤ → Type 0} {P : Fields → Type 0} (run_id : String) (file : LockFile)
      (host : Host) (c : Claim) (timeout : ℤ) (moved : Reclaim) (creation : Creation)
      → Protects Terms P
      → Waits run_id P file
      → Terms host timeout
      → ((acquire_for_run_guarded stamps host c timeout file none moved creation).0.0 ≡ false)
        × ((acquire_for_run_guarded stamps host c timeout file none moved creation).1 ≡ file)
  Waits-refuses run_id file host c timeout moved creation protects (fs, at_file, locked, p) terms =
      rw at_file (
        refused_held stamps host c timeout fs moved creation
          (protects.refuses host fs timeout c.at run_id locked p terms))

  -- Once a run has acquired a task's lock, no other acquisition on the same boot that can read the
  -- lock file succeeds and none changes it, whatever happens but a release by that run, as long as the
  -- task has no lock timeout and every acquisition in between was on that boot and could read the
  -- file too.
  pub acquire-excludes :
      (host : Host) (c : Claim) (timeout : ℤ) (file : LockFile) (reading : Reading)
      (moved : Reclaim) (creation : Creation) (ops : List Operation) (other : Host) (d : Claim)
      (limit : ℤ) (moved' : Reclaim) (creation' : Creation)
      → (acquire_for_run_guarded stamps host c timeout file reading moved creation).0.0 ≡ true
      → All (Allowed c.run_id (SameBoot host.boot_id)) ops
      → SameBoot host.boot_id other limit
      → let later =
          perform_all stamps ops
            (acquire_for_run_guarded stamps host c timeout file reading moved creation).1 in
        ((acquire_for_run_guarded stamps other d limit later none moved' creation').0.0 ≡ false)
        × ((acquire_for_run_guarded stamps other d limit later none moved' creation').1 ≡ later)
  acquire-excludes host c timeout file reading moved creation ops other d limit moved' creation'
        taken allowed terms =
      Waits-refuses c.run_id _ other d limit moved' creation' (TakenOn-Protects host.boot_id)
        (perform_all-Waits c.run_id ops _ (TakenOn-Protects host.boot_id) allowed
          (acquired-Waits host c timeout file reading moved creation taken))
        terms

  quarantined-Waits :
      (run_id : String) (P : Fields → Type 0) (file : LockFile) (at : ℕ)
      → Waits run_id P file
      → Waits run_id Marked (perform stamps (quarantine run_id at none none) file)
  unfolding perform quarantine_persist_failure read_lock
  quarantined-Waits run_id P file at (fs, at_file, locked, p) = rw at_file (
    marked fs at,
    own_quarantine-eq run_id fs at (written (obj fs)) locked,
    marked-IsLocked run_id fs at locked,
    marked-Marked fs at,
  )

  -- Once a run has acquired a task's lock and then quarantined it, no acquisition that can read the
  -- lock file succeeds and none changes it, on any boot, at any time and with any timeout, whatever
  -- happens but a release by that run, as long as every acquisition in between could read the file
  -- too.
  pub quarantine-excludes :
      (host : Host) (c : Claim) (timeout : ℤ) (file : LockFile) (reading : Reading)
      (moved : Reclaim) (creation : Creation) (at : ℕ) (ops : List Operation) (other : Host)
      (d : Claim) (limit : ℤ) (moved' : Reclaim) (creation' : Creation)
      → (acquire_for_run_guarded stamps host c timeout file reading moved creation).0.0 ≡ true
      → All (Allowed c.run_id (λ h t. Unit)) ops
      → let later = perform_all stamps ops (
          perform stamps
            (quarantine c.run_id at none none)
            (acquire_for_run_guarded stamps host c timeout file reading moved creation).1) in
        ((acquire_for_run_guarded stamps other d limit later none moved' creation').0.0 ≡ false)
        × ((acquire_for_run_guarded stamps other d limit later none moved' creation').1 ≡ later)
  quarantine-excludes host c timeout file reading moved creation at ops other d limit moved'
        creation' taken allowed =
      Waits-refuses c.run_id _ other d limit moved' creation' Marked-Protects
        (perform_all-Waits c.run_id ops _ Marked-Protects allowed (
          quarantined-Waits c.run_id (TakenOn host.boot_id) _ at
            (acquired-Waits host c timeout file reading moved creation taken)))
        tt
