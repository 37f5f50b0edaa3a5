-- ===== src/Sovereign/Tests/Payments.antt =====
-- src/sovereign/rewards.ts: the theorems on accruals, applied to a concrete board.

use gstdbot.Common.{refl, ◌≤◌, Memᴰ, arith, sort, insert_by, str_lt, filter_map, by_rank}
use gstdbot.Sovereign.Envelope.{Funding, as_manifest, as_lease, as_result, as_attest, as_finalize}
use gstdbot.Sovereign.Board.{
  evaluate, manifest, get, leases, results, attests, finalizes, tally, accepts, accepted_as,
  decided, content_hash_of, collect, is_coordinator, failover_ms, epoch_of,
}
use gstdbot.Sovereign.Rewards.{
  RewardParams, default_params, Accrual, execute, accrued, accrual_id, compute_accruals,
  accruals_for, execution_accruals, verification_accruals,
}
use gstdbot.Sovereign.Rewards.Bounds.{total, total-compute_accruals}
use gstdbot.Sovereign.Rewards.Recipients.{IsEntitled, compute_accruals-IsEntitled}
use gstdbot.Sovereign.Tests.Demo.{prim, demo, task_env, demo-manifest}

abbrev params : RewardParams
params = record default_params { subsidy_budget_nano = 5000 }

total-compute_accruals_example :
    (total (compute_accruals prim "t" params demo 20) ≤ 850)
    × (total (compute_accruals prim "t" params demo 20) ≤ 1000)
total-compute_accruals_example =
    total-compute_accruals prim "t" params demo 20 task_env demo-manifest (omega arith)
      (omega arith)

abbrev worker_accrual : Accrual
worker_accrual = record {
  accrual_id = accrual_id prim "t" "r" "w" execute;
  task_id = "t";
  result_id = "r";
  node = "w";
  role = execute;
  funding = Funding.subsidized;
  declared_budget_nano = 1000;
  amount_nano = 595;
  state = accrued;
}

demo-accruals : Memᴰ worker_accrual (compute_accruals prim "t" params demo 20)
unfolding compute_accruals evaluate decided manifest get sort insert_by str_lt leases results
    attests finalizes tally accepts accepted_as content_hash_of collect is_coordinator failover_ms
    epoch_of as_manifest as_lease as_result as_attest as_finalize by_rank filter_map accruals_for
    execution_accruals verification_accruals
demo-accruals = Memᴰ.head refl

compute_accruals-IsEntitled_example :
    IsEntitled params task_env (evaluate demo "t" 20) worker_accrual
compute_accruals-IsEntitled_example =
    compute_accruals-IsEntitled prim "t" params demo 20 task_env worker_accrual demo-manifest
      demo-accruals
