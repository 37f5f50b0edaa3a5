-- ===== src/Support/PlatformHealth/Backoff.antt =====
-- src/lib/platform-health.ts: how long the platform is left alone.
use gstdbot.Common.{
  ℕ, suc, zero, ◌+◌, ◌*◌, ◌^◌, ◌≤◌, leb, min, List, [], ◌∷◌, ◌++◌, arith, ◌≡◌, refl, ◌∙◌, ap,
}
use gstdbot.Support.PlatformHealth.{
  Health, new_health, should_attempt, Outcome, succeeded, failed, step, run,
}

abbrev pub failures_in_a_row : ℕ → List (ℕ × Outcome) → ℕ
failures_in_a_row n [] = n
failures_in_a_row n ((now, succeeded) ∷ os) = failures_in_a_row 0 os
failures_in_a_row n ((now, failed) ∷ os) = failures_in_a_row (suc n) os

run-consecutive_failures :
    (os : List (ℕ × Outcome)) (h : Health)
    → (run os h).consecutive_failures ≡ failures_in_a_row h.consecutive_failures os
unfolding run
run-consecutive_failures [] h = refl
run-consecutive_failures ((now, succeeded) ∷ os) h =
    run-consecutive_failures os (step now succeeded h)
run-consecutive_failures ((now, failed) ∷ os) h = run-consecutive_failures os (step now failed h)

run-concat :
    (os : List (ℕ × Outcome)) (h : Health) (now : ℕ) (o : Outcome)
    → run (os ++ (now, o) ∷ []) h ≡ step now o (run os h)
unfolding run
run-concat [] h now o = refl
run-concat ((t, p) ∷ os) h now o = run-concat os (step t p h) now o

pow_pos : (n : ℕ) → 1 ≤ 2 ^ n
pow_pos zero = omega arith
pow_pos (suc n) = omega (arith, pow_pos n)

-- After a failure that follows any earlier outcomes, the next attempt is due after 5 s doubled for each
-- failure in a row before it, at most 5 minutes: never within 5 s, always after 5 minutes.
pub should_attempt-failed :
    (os : List (ℕ × Outcome)) (now later : ℕ)
    → (should_attempt later (run (os ++ (now, failed) ∷ []) new_health)
        ≡ leb (now + min (5000 * 2 ^ failures_in_a_row 0 os) 300000) later)
      × (5000 ≤ min (5000 * 2 ^ failures_in_a_row 0 os) 300000)
      × (min (5000 * 2 ^ failures_in_a_row 0 os) 300000 ≤ 300000)
should_attempt-failed os now later =
    let p = pow_pos (failures_in_a_row 0 os) in
    (
      ap (should_attempt later) (run-concat os new_health now failed)
          ∙ ap (λ n. leb (now + min (5000 * 2 ^ n) 300000) later)
              (omega arith ∙ run-consecutive_failures os new_health),
      omega (arith, p),
      omega (arith, p),
    )
