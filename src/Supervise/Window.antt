-- ===== src/Supervise/Window.antt =====
-- crates/danso-ops/src/supervise.rs: the window of rapid crashes over a run of exits.
use danso.Prelude.{
  ℕ, ◌+◌, ◌-◌, ◌≤◌, ◌≡◌, refl, ltb, leb, false, List, [], ◌∷◌, ◌++◌, length, All, length-append,
  if◌then◌else◌, arith, Bool-cases, inl, inr, ◌∙◌, ap,
}
use mathlib.Core.List.{append_assoc, append-nil}
use danso.Supervise.{
  rapid_crash_limit, rapid_window, restart, crash_loop, CrashPolicy, new, retain, record_exit,
}

-- The policy after crashes at these times, in order.
pub after_crashes : CrashPolicy → List ℕ → CrashPolicy
after_crashes policy [] = policy
after_crashes policy (now ∷ later) = after_crashes (record_exit policy false now).1 later

retain-append : (now : ℕ) (xs ys : List ℕ) → retain now (xs ++ ys) ≡ retain now xs ++ retain now ys
unfolding retain
retain-append now [] ys = refl
retain-append now (x ∷ xs) ys = elim (Bool-cases (ltb (now - x) rapid_window)) [
  | inl inside ↦ rw inside (ap (λ zs. x ∷ zs) (retain-append now xs ys))
  | inr outside ↦ rw outside (retain-append now xs ys)
]

-- What an earlier crash dropped, a later one drops.
retain-retain : (t now : ℕ) (xs : List ℕ) → t ≤ now → retain now (retain t xs) ≡ retain now xs
unfolding retain
retain-retain t now [] h = refl
retain-retain t now (x ∷ xs) h = elim (Bool-cases (ltb (t - x) rapid_window)) [
  | inl inside ↦ elim (Bool-cases (ltb (now - x) rapid_window)) [
    | inl still ↦ rw (inside, still) (ap (λ zs. x ∷ zs) (retain-retain t now xs h))
    | inr left ↦ rw (inside, left) (retain-retain t now xs h)
  ]
  | inr outside ↦
      let left : ltb (now - x) rapid_window ≡ false = ground arith in
      rw (outside, left) (retain-retain t now xs h)
]

record_exit-retain :
    (policy : CrashPolicy) (t : ℕ) (times : List ℕ) (now : ℕ)
    → t ≤ now
    → retain now ((record_exit policy false t).1.recent ++ times)
      ≡ retain now (policy.recent ++ (t ∷ times))
unfolding record_exit
record_exit-retain policy t times now h =
    let kept = retain t policy.recent in
    rw
      (
        append_assoc kept (t ∷ []) times,
        retain-append now kept (t ∷ times),
        retain-append now policy.recent (t ∷ times),
        retain-retain t now policy.recent h,
      )
      refl

after_crashes-retain :
    (policy : CrashPolicy) (times : List ℕ) (now : ℕ)
    → All (λ t. t ≤ now) times
    → retain now (after_crashes policy times).recent ≡ retain now (policy.recent ++ times)
unfolding after_crashes record_exit
after_crashes-retain policy [] now h = rw (append-nil policy.recent) refl
after_crashes-retain policy (t ∷ times) now h =
    after_crashes-retain (record_exit policy false t).1 times now h.1
    ∙ record_exit-retain policy t times now h.0

-- Pruning forgets nothing that counts: the decision on a crash is a crash loop exactly where five of
-- all the crashes so far, this one included, are less than the window old, and a restart otherwise.
-- No crash is later than this one.
pub record_exit-exactly :
    (times : List ℕ) (now : ℕ)
    → All (λ t. t ≤ now) times
    → (record_exit (after_crashes new times) false now).0
      ≡ (if leb rapid_crash_limit (length (retain now times) + 1) then crash_loop else restart)
unfolding record_exit
record_exit-exactly times now h =
    let kept = after_crashes-retain new times now h in
    rw (kept, length-append (retain now times) (now ∷ [])) refl
