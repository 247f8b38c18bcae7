-- ===== src/Supervise/Examples.antt =====
-- Supervision on concrete exits.
use danso.Prelude.{◌*◌, ◌+◌, ◌≡◌, leb, [], ◌∷◌, length, arith, if◌then◌else◌, false, ℕ}
use danso.Supervise.{rapid_crash_limit, restart, crash_loop, new, retain, record_exit}
use danso.Supervise.Window.{after_crashes, record_exit-exactly}

abbrev at_second : ℕ → ℕ
at_second n = n * 1_000_000_000

record_exit-exactly_example :
    (record_exit
      (after_crashes new (at_second 1 ∷ at_second 2 ∷ at_second 3 ∷ at_second 4 ∷ []))
      false
      (at_second 5)).0
    ≡ (if leb rapid_crash_limit (
          length (retain (at_second 5) (at_second 1 ∷ at_second 2 ∷ at_second 3 ∷ at_second 4 ∷ []))
          + 1)
        then crash_loop
        else restart)
record_exit-exactly_example =
    record_exit-exactly (at_second 1 ∷ at_second 2 ∷ at_second 3 ∷ at_second 4 ∷ []) (at_second 5)
      (omega arith)
