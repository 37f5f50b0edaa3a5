-- ===== src/Core/Failover/Tests.antt =====
-- src/core/model-failover.ts: the theorems applied to a chain of three models.
use gstdbot.Common.{ℕ, ◌+◌, String, ◌==◌, true, if◌then◌else◌, none, some, [], ◌∷◌, ◌≡◌, refl}
use gstdbot.Core.Failover.{
  Failover, new_failover, Attempt, returns, throws, known_available, get_failover_order,
  add_available, add_rest, execute_with_failover, try_all, record_success, record_failure,
  set_model, add_all,
}
use gstdbot.Core.Failover.Runs.{IsFirst, execute_with_failover-IsFirst}
use gstdbot.Core.Failover.Limits.{ordered, succeeded, failed_with, run, latencies_in, latencies-run}

abbrev three : Failover
three = new_failover ("a" ∷ "b" ∷ "c" ∷ [])

-- Only `b` answers.
abbrev calls : String → ℕ → Attempt ℕ
calls id start = if id == "b" then returns 7 (start + 40) else throws "down" (start + 5)

answered :
    (execute_with_failover calls 100 three none).0
    ≡ some (record { result = 7; model = "b"; latency_ms = 40 })
unfolding execute_with_failover get_failover_order add_available add_rest try_all record_success
    record_failure set_model add_all
answered = refl

execute_with_failover-IsFirst_example :
    IsFirst calls
      (get_failover_order 100 three none).0
      (record { result = 7; model = "b"; latency_ms = 40 })
execute_with_failover-IsFirst_example =
    execute_with_failover-IsFirst calls 100 three none
      (record { result = 7; model = "b"; latency_ms = 40 }) answered

three-available : known_available 100 three.models "b" ≡ true
unfolding add_all set_model
three-available = refl

latencies-run_example :
    latencies_in
      (run
        (ordered 1 none ∷ failed_with 2 "a" "down" ∷ succeeded 3 "b" 40 ∷ succeeded 4 "b" 50 ∷ [])
        three).models
      "b"
    ≡ 40 ∷ 50 ∷ []
latencies-run_example =
    latencies-run ("a" ∷ "b" ∷ "c" ∷ [])
      (ordered 1 none ∷ failed_with 2 "a" "down" ∷ succeeded 3 "b" 40 ∷ succeeded 4 "b" 50 ∷ []) "b"
