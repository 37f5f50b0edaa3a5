-- ===== src/Security/LoginLimit/Tests.antt =====
-- src/security/login-limit.ts: the theorem applied to five failures of one address.
use gstdbot.Common.{lookup, ℕ, true, false, none, List, [], ◌∷◌, arith, ◌≡◌, refl}
use gstdbot.Security.LoginLimit.{Attempt, Event, records, checks, check, run}
use gstdbot.Security.LoginLimit.Lockout.{failures, Allows, check-failures}

abbrev events : List (ℕ × Event)
events =
    (10, records "a" false)
    ∷ (11, records "b" true)
    ∷ (12, records "a" false)
    ∷ (13, records "a" false)
    ∷ (14, checks "a")
    ∷ (15, records "a" false)
    ∷ (16, records "a" false)
    ∷ []

none_yet : lookup {V = Attempt} "a" [] ≡ none
unfolding lookup
none_yet = refl

check-failures_example : Allows (failures "a" events) (check 20 "a" (run events []))
check-failures_example =
    check-failures 10 20 "a" events [] none_yet
      (
        (omega arith, omega arith),
        refl,
        (
          (omega arith, omega arith),
          refl,
          (
            (omega arith, omega arith),
            refl,
            (
              (omega arith, omega arith),
              refl,
              (
                (omega arith, omega arith),
                refl,
                ((omega arith, omega arith), refl, ((omega arith, omega arith), refl, tt)),
              ),
            ),
          ),
        ),
      )
      (omega arith, omega arith) (omega arith)
