-- ===== src/Security/LoginLimit.antt =====
-- src/security/login-limit.ts: the class LoginAttemptLimiter. `now` is what its clock gives.
mod Lookups
pub mod Lockout
mod Tests
use gstdbot.Common.{
  lookup, put, remove, ℕ, zero, suc, ◌+◌, ◌-◌, ltb, leb, eqb, length, String, ◌==◌, Bool, true,
  false, not, ◌&&◌, ◌||◌, if◌then◌else◌, Option, none, some, List, [], ◌∷◌, map, select,
}

pub record Attempt : Type 0 where
  pub count : ℕ
  pub first_failure_at : ℕ
  pub locked_until : ℕ

-- The Map in insertion order.
abbrev pub Attempts : Type 0
Attempts = List (String × Attempt)

-- The test of `current`: the lock is over, or the first of the failures is 15 minutes old.
abbrev pub is_over : ℕ → Attempt → Bool
is_over now a =
    ltb 0 a.locked_until && leb a.locked_until now
    || eqb a.locked_until 0 && leb 900000 (now - a.first_failure_at)

unfoldable pub current : ℕ → String → Attempts → Option Attempt × Attempts
current now ip l = elim (lookup ip l) [
  | none ↦ (none, l)
  | some a ↦ if is_over now a then (none, remove ip l) else (some a, l)
]

-- `current` of each key, which drops what is over.
unfoldable pub sweep : ℕ → List String → Attempts → Attempts
sweep now [] l = l
sweep now (k ∷ ks) l = sweep now ks (current now k l).1

pub record Allowance : Type 0 where
  pub allowed : Bool
  pub remaining : ℕ
  pub lockout_ms : Option ℕ

abbrev pub refuses : ℕ → Allowance
refuses ms = record { allowed = false; remaining = 0; lockout_ms = some ms }

abbrev pub count_of : Option Attempt → ℕ
count_of none = 0
count_of (some a) = a.count

abbrev pub grants : Option Attempt → Allowance
grants entry = record { allowed = true; remaining = 5 - count_of entry; lockout_ms = none }

-- The end of `check` for an address without an entry.
unfoldable pub check_new : ℕ → Attempts → Allowance × Attempts
check_new now l =
    let swept = sweep now (map (λ (p : String × Attempt). p.0) l) l in
    if leb 4096 (length l)
    then (if leb 4096 (length swept) then (refuses 900000, swept) else (grants none, swept))
    else (grants none, l)

unfoldable pub check : ℕ → String → Attempts → Allowance × Attempts
check now ip l =
    let (entry, after) = current now ip l in
    elim entry [
      | none ↦ check_new now after
      | some a ↦
          if ltb now a.locked_until
          then (refuses (a.locked_until - now), after)
          else (grants (some a), after)
    ]

-- One more failure.
abbrev pub failed : ℕ → Option Attempt → Attempt
failed now entry =
    let a : Attempt = elim entry [
      | none ↦ record { count = 0; first_failure_at = now; locked_until = 0 }
      | some a ↦ a
    ] in
    if leb 5 (suc a.count)
    then record a { count = suc a.count; locked_until = now + 900000 }
    else record a { count = suc a.count }

unfoldable pub record_attempt : ℕ → String → Bool → Attempts → Attempts
record_attempt now ip true l = remove ip l
record_attempt now ip false l =
    let (entry, after) = current now ip l in put ip (failed now entry) after

-- What comes to the limiter.
pub data Event : Type 0 where
  checks : String → Event
  records : String → Bool → Event

abbrev pub step : ℕ → Event → Attempts → Attempts
step now (checks ip) l = (check now ip l).1
step now (records ip success) l = record_attempt now ip success l

unfoldable pub run : List (ℕ × Event) → Attempts → Attempts
run [] l = l
run ((now, e) ∷ es) l = run es (step now e l)
