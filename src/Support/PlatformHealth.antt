-- ===== src/Support/PlatformHealth.antt =====
-- src/lib/platform-health.ts: the class PlatformHealth. `now` is what `Date.now()` gives.
pub mod Backoff
use gstdbot.Common.{ℕ, suc, ◌+◌, ◌-◌, ◌*◌, ◌^◌, min, leb, eqb, Bool, true, false, List, [], ◌∷◌}

abbrev pub base_backoff_ms : ℕ
base_backoff_ms = 5000

abbrev pub max_backoff_ms : ℕ
max_backoff_ms = 300000

pub record Health : Type 0 where
  pub consecutive_failures : ℕ
  pub next_attempt_at : ℕ

abbrev pub new_health : Health
new_health = record { consecutive_failures = 0; next_attempt_at = 0 }

abbrev pub should_attempt : ℕ → Health → Bool
should_attempt now h = leb h.next_attempt_at now

abbrev pub record_success : Health → Health
record_success h = record { consecutive_failures = 0; next_attempt_at = 0 }

-- The backoff after the n-th failure in a row.
abbrev pub backoff : ℕ → ℕ
backoff n = min (base_backoff_ms * 2 ^ (n - 1)) max_backoff_ms

abbrev pub record_failure : ℕ → Health → Health
record_failure now h = record {
  consecutive_failures = suc h.consecutive_failures;
  next_attempt_at = now + backoff (suc h.consecutive_failures);
}

pub record Status : Type 0 where
  pub connected : Bool
  pub consecutive_failures : ℕ
  pub next_attempt_in_ms : ℕ

-- `max(0, a - b)` is the subtraction of naturals.
abbrev pub get_status : ℕ → Health → Status
get_status now h = record {
  connected = eqb h.consecutive_failures 0;
  consecutive_failures = h.consecutive_failures;
  next_attempt_in_ms = h.next_attempt_at - now;
}

pub data Outcome : Type 0 where
  succeeded failed : Outcome

abbrev pub step : ℕ → Outcome → Health → Health
step now succeeded h = record_success h
step now failed h = record_failure now h

unfoldable pub run : List (ℕ × Outcome) → Health → Health
run [] h = h
run ((now, o) ∷ os) h = run os (step now o h)
