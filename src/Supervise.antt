-- ===== src/Supervise.antt =====
-- crates/danso-ops/src/supervise.rs: what ends supervision, and the count of rapid crashes. Instants
-- are nanoseconds of one monotonic clock; `duration_since` is 0 for a later instant.
pub mod Window
pub mod Examples
use danso.Prelude.{
  ℕ, suc, ◌+◌, ◌-◌, ◌≤◌, ◌<◌, ◌≡◌, ltb, leb, ◌==◌, ◌||◌, Bool, true, false, Option, none, some,
  List, [], ◌∷◌, ◌++◌, length, if◌then◌else◌,
}
use danso.Prelude.Int.{ℤ, pos, negsuc}

abbrev pub rapid_crash_limit : ℕ
rapid_crash_limit = 5

abbrev pub rapid_window : ℕ
rapid_window = 60_000_000_000

-- SIGTERM, SIGINT and SIGHUP
abbrev pub operator_signals : List ℕ
operator_signals = 15 ∷ 2 ∷ 1 ∷ []

abbrev pub is_one_of : List ℕ → ℕ → Bool
is_one_of [] signal = false
is_one_of (x ∷ xs) signal = (x == signal) || is_one_of xs signal

abbrev by_operator : Option ℤ → Bool
by_operator none = false
by_operator (some (pos signal)) = is_one_of operator_signals signal
by_operator (some (negsuc n)) = false

unfoldable pub is_operator_stop : Bool → Option ℤ → Bool → Bool
is_operator_stop success signal stopping = if success || stopping then true else by_operator signal

pub data Decision : Type 0 where
  restart stop crash_loop : Decision

pub record CrashPolicy : Type 0 where
  pub recent : List ℕ

abbrev pub new : CrashPolicy
new = record { recent = [] }

-- `recent.retain(|at| now.duration_since(*at) < RAPID_WINDOW)`
unfoldable pub retain : ℕ → List ℕ → List ℕ
retain now [] = []
retain now (at ∷ recent) =
    let rest = retain now recent in if ltb (now - at) rapid_window then at ∷ rest else rest

abbrev pub decide : List ℕ → Decision × CrashPolicy
decide recent = (
  if leb rapid_crash_limit (length recent) then crash_loop else restart,
  record { recent = recent },
)

unfoldable pub record_exit : CrashPolicy → Bool → ℕ → Decision × CrashPolicy
record_exit policy clean now =
    if clean then (stop, policy) else decide (retain now policy.recent ++ (now ∷ []))

abbrev pub rapid_crashes : CrashPolicy → ℕ
rapid_crashes policy = length policy.recent
